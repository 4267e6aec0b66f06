-- ===== src/Sip/Registry.antt =====
-- What holds of the registry and its entries whatever the server meets.
use Prim.Native.String.{String}
use text.Mathlib.Text.{◌==◌ as str_eq}
use text.Mathlib.TextEquality.{eq_iff}
use sip_relay.Prelude.{
  ℕ, suc, ◌≤◌, ◌<◌, ◌≡◌, ◌≢◌, refl, sym, ap, subst, ◌∙◌, ◌⊎◌, inl, inr, true, false, Option, none,
  some, List, arith, ◌==◌, if◌then◌else◌, Bool-cases,
}
use sip_relay.Prelude.Maps.{lookup, insert, delete, lookup-insert, lookup-delete}
use sip_relay.Call.Life.{IsSound}
use sip_relay.Sip.{Entry, Server, delete_if, is_bound_to, update, store, remove}

pub record IsEntry (e : Entry) : Type 0 where
  pub sound : IsSound e.call
  pub one_bye : e.byes ≤ (if e.close_once then 1 else 0)

-- The registry binds tags and Call-IDs to entries that have them, an entry that is found by its Call-ID
-- is found by its tag, and all entries are well formed.
pub record IsServer (s : Server) : Type 0 where
  pub tags :
      (k : String) (id : ℕ)
      → lookup k s.by_tag ≡ some id
      → (id < s.next) × ((s.entries id).local_tag ≡ k)
  pub calls :
      (k : String) (id : ℕ)
      → lookup k s.by_call ≡ some id
      → (id < s.next) × ((s.entries id).call_id ≡ k)
  pub covered :
      (k : String) (id : ℕ)
      → lookup k s.by_call ≡ some id
      → lookup (s.entries id).local_tag s.by_tag ≡ some id
  pub all_entries : (id : ℕ) → id < s.next → IsEntry (s.entries id)

-- What a change of the entry `at` has to respect.
pub record IsChange (f : Entry → Entry) (at : Entry) : Type 0 where
  pub same_tag : (e : Entry) → (f e).local_tag ≡ e.local_tag
  pub same_call_id : (e : Entry) → (f e).call_id ≡ e.call_id
  pub keeps : IsEntry at → IsEntry (f at)

update-field :
    {X : Type 0} (field : Entry → X) (id i : ℕ) (f : Entry → Entry) (s : Server)
    → ((e : Entry) → field (f e) ≡ field e)
    → field ((update id f s).entries i) ≡ field (s.entries i)
update-field field id i f s h = elim (Bool-cases (i == id)) [
  | inl e ↦ rw e (h (s.entries i))
  | inr e ↦ rw e refl
]

pub update-IsServer :
    (id : ℕ) (f : Entry → Entry) (s : Server)
    → IsChange f (s.entries id)
    → IsServer s
    → IsServer (update id f s)
update-IsServer id f s c v = record {
  tags = λ k i l.
      let (a, b) = v.tags k i l in (a, update-field (λ e. e.local_tag) id i f s c.same_tag ∙ b);
  calls = λ k i l.
      let (a, b) = v.calls k i l in (a, update-field (λ e. e.call_id) id i f s c.same_call_id ∙ b);
  covered = λ k i l.
      subst (λ t. lookup t s.by_tag ≡ some i)
        (sym (update-field (λ e. e.local_tag) id i f s c.same_tag)) (v.covered k i l);
  all_entries = λ i h. elim (Bool-cases (i == id)) [
    | inl e ↦
        let same : i ≡ id = ground arith in
        rw e (
          subst (λ j. IsEntry (s.entries j) → IsEntry (f (s.entries j))) (sym same) c.keeps
            (v.all_entries i h))
    | inr e ↦ rw e (v.all_entries i h)
  ];
}

bound_lem : (o : Option ℕ) (id : ℕ) → is_bound_to id o ≡ true → o ≡ some id
bound_lem none id h = cc
bound_lem (some j) id h = ground arith

-- What a guarded deletion leaves was there before, and is not the entry that it deletes.
pub delete_if_lem :
    (k j : String) (id i : ℕ) (m : List (String × ℕ))
    → lookup j (delete_if k id m) ≡ some i
    → (lookup j m ≡ some i) × ((i ≡ id) → k ≢ j)
unfolding delete_if
delete_if_lem k j id i m h = elim (Bool-cases (is_bound_to id (lookup k m))) [
  | inl e ↦
      let h' : lookup j (delete k m) ≡ some i = rw e at h in
      let h'' : (if str_eq k j then none else lookup j m) ≡ some i =
        sym (lookup-delete k j m) ∙ h' in
      ground (arith, eq_iff k j)
  | inr e ↦
      let h' : lookup j m ≡ some i = rw e at h in
      (
        h',
        λ same kj.
            let at_k : lookup k m ≡ some id = ap (λ t. lookup t m) kj ∙ h' ∙ ap some same in
            let bound : is_bound_to id (some id) ≡ false =
              subst (λ o. is_bound_to id o ≡ false) at_k e in
            absurd (ground arith),
      )
]

-- It leaves alone what is bound to another entry.
pub delete_if_other :
    (k j : String) (id i : ℕ) (m : List (String × ℕ))
    → lookup j m ≡ some i
    → i ≢ id
    → lookup j (delete_if k id m) ≡ some i
unfolding delete_if
delete_if_other k j id i m h n = elim (Bool-cases (is_bound_to id (lookup k m))) [
  | inl e ↦
      let at_k : lookup k m ≡ some id = bound_lem (lookup k m) id e in
      rw (e, lookup-delete k j m)
        (elim (Bool-cases (str_eq k j)) [
          | inl q ↦
              let at_j : lookup j m ≡ some id =
                subst (λ t. lookup t m ≡ some id) ((eq_iff k j).0 q) at_k in
              let both : some i ≡ some id = sym h ∙ at_j in absurd (n (cc both))
          | inr q ↦ rw q h
        ])
  | inr e ↦ rw e h
]

pub remove-IsServer : (id : ℕ) (s : Server) → IsServer s → IsServer (remove id s)
unfolding remove
remove-IsServer id s v = record {
  tags = λ k i l. v.tags k i (delete_if_lem (s.entries id).local_tag k id i s.by_tag l).0;
  calls = λ k i l. v.calls k i (delete_if_lem (s.entries id).call_id k id i s.by_call l).0;
  covered = λ k i l.
      let (was, other) = delete_if_lem (s.entries id).call_id k id i s.by_call l in
      delete_if_other (s.entries id).local_tag (s.entries i).local_tag id i s.by_tag
        (v.covered k i was)
        (λ same. other same (ap (λ t. (s.entries t).call_id) (sym same) ∙ (v.calls k i was).1));
  all_entries = v.all_entries;
}

-- An entry below the heap's end is not the next one.
pub older : (s : Server) (e : Entry) (i : ℕ) → i < s.next → (store e s).entries i ≡ s.entries i
unfolding store
older s e i h = ground arith

pub newest : (s : Server) (e : Entry) → (store e s).entries s.next ≡ e
unfolding store
newest s e = ground arith

-- A key of a map after a write of the next entry.
stored :
    (k j : String) (n i : ℕ) (m : List (String × ℕ))
    → lookup j (insert k n m) ≡ some i
    → ((k ≡ j) × (i ≡ n)) ⊎ ((k ≢ j) × (lookup j m ≡ some i))
stored k j n i m h =
    let h' : (if str_eq k j then some n else lookup j m) ≡ some i =
      sym (lookup-insert k j n m) ∙ h in
    ground (arith, eq_iff k j)

pub inserted : (k : String) (n : ℕ) (m : List (String × ℕ)) → lookup k (insert k n m) ≡ some n
inserted k n m =
    lookup-insert k k n m ∙ (let q : str_eq k k ≡ true = (eq_iff k k).1 refl in rw q refl)

-- What the maps bind after a store: the new entry to its own keys, or what they bound before.
module _ (s : Server) (e : Entry) (key : Entry → String) (m : List (String × ℕ)) where
  store_binds :
      ((k : String) (i : ℕ) → lookup k m ≡ some i → (i < s.next) × (key (s.entries i) ≡ k))
      → (k : String) (i : ℕ) → lookup k (insert (key e) s.next m) ≡ some i
      → (i < suc s.next) × (key ((store e s).entries i) ≡ k)
  store_binds old k i l = elim (stored (key e) k s.next i m l) [
    | inl (same, new) ↦
        (omega arith, ap (λ t. key ((store e s).entries t)) new ∙ ap key (newest s e) ∙ same)
    | inr (other, was) ↦ let (a, b) = old k i was in (omega arith, ap key (older s e i a) ∙ b)
  ]

tag_stored :
    (s : Server) (e : Entry) (t : String) (i : ℕ)
    → lookup e.local_tag s.by_tag ≡ none
    → lookup t s.by_tag ≡ some i
    → lookup t (insert e.local_tag s.next s.by_tag) ≡ some i
tag_stored s e t i fresh h =
    lookup-insert e.local_tag t s.next s.by_tag ∙ elim (Bool-cases (str_eq e.local_tag t)) [
      | inl q ↦
          let gone : lookup t s.by_tag ≡ none =
            subst (λ k. lookup k s.by_tag ≡ none) ((eq_iff e.local_tag t).0 q) fresh in
          let both : none ≡ some i = sym gone ∙ h in cc both
      | inr q ↦ rw q h
    ]

-- The new tag is not yet in use.
pub store-IsServer :
    (e : Entry) (s : Server)
    → IsEntry e
    → lookup e.local_tag s.by_tag ≡ none
    → IsServer s
    → IsServer (store e s)
unfolding store
store-IsServer e s ok fresh v = record {
  tags = store_binds s e (λ t. t.local_tag) s.by_tag v.tags;
  calls = store_binds s e (λ t. t.call_id) s.by_call v.calls;
  covered = λ k i l. elim (stored e.call_id k s.next i s.by_call l) [
    | inl (same, new) ↦
        subst
          (λ j.
            lookup ((store e s).entries j).local_tag (insert e.local_tag s.next s.by_tag) ≡ some j)
          (sym new)
          (ap (λ (t : Entry). lookup t.local_tag (insert e.local_tag s.next s.by_tag)) (newest s e)
            ∙ inserted e.local_tag s.next s.by_tag)
    | inr (other, was) ↦
        let (a, b) = v.calls k i was in
        ap (λ (t : Entry). lookup t.local_tag (insert e.local_tag s.next s.by_tag)) (older s e i a)
        ∙ tag_stored s e (s.entries i).local_tag i fresh (v.covered k i was)
  ];
  all_entries = λ i h. elim (Bool-cases (i == s.next)) [
    | inl q ↦ rw q ok
    | inr q ↦ rw q (v.all_entries i (ground arith))
  ];
}
