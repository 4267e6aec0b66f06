-- ===== src/Sip/Answered.antt =====
-- internal/sip/server.go: what onInvite and remove leave in the registry.
use Prim.Native.String.{String}
use sip_relay.Prelude.{
  ℕ, ◌≡◌, ◌≢◌, refl, sym, ap, ap₂, subst, ◌∙◌, ◌⊎◌, inl, inr, Bool, true, false, not, ◌||◌, Option,
  none, some, List, [], ◌∷◌, arith, ◌==◌, length, Bool-cases, Option-cases,
}
use sip_relay.Prelude.Maps.{lookup, insert}
use sip_relay.Call.{new_call, close_with_reason, EndReason}
use sip_relay.Config.{Parsers, Config, ExtensionConfig, is_empty, route_of}
use sip_relay.Sip.{
  Request, Server, Entry, Dialer, call_id_of, delete_if, to_tag, dnis, find, first, lookup_entry,
  update, store, remove, hang_up, backend_for_route,
}
use sip_relay.Sip.Registry.{
  IsServer, newest, delete_if_lem, delete_if_other, inserted, remove-IsServer, store-IsServer,
}
use sip_relay.Sip.Lifecycle.{new_entry-IsEntry}
use sip_relay.Sip.Invariant.{found_by_tag}
use sip_relay.Sip.Invite.{
  set_off, Answers, Media, Handled, new_entry, accept, with_backend, with_route, on_invite,
}

-- Whether the RTP port that the INVITE opened is still open.
abbrev pub port_open : Handled → Bool
port_open h = elim h.media [
  | Media.unopened ↦ false
  | Media.shut ↦ false
  | Media.owned id ↦ not (h.server.entries id).call.rtp_closed
]

abbrev pub is_accepted : List ℕ → Bool
is_accepted [] = false
is_accepted (s ∷ rest) = s == 200 || is_accepted rest

-- A removed entry is found by no request.
remove-forgets :
    (id : ℕ) (s : Server) (req : Request) → IsServer s → lookup_entry req (remove id s) ≢ some id
remove-forgets id s req v h =
    let (k, l) = found_by_tag (remove id s) req id (remove-IsServer id s v) h in
    let (was, other) =
      delete_if_lem (s.entries id).local_tag k id id s.by_tag (unfold remove in l) in
    other refl (v.tags k id was).1

-- The lookup of a key, empty or not, after a guarded deletion.
find_kept :
    (t k : String) (id i : ℕ) (m : List (String × ℕ))
    → find t m ≡ some i
    → i ≢ id
    → find t (delete_if k id m) ≡ some i
find_kept t k id i m h n = elim (Bool-cases (is_empty t)) [
  | inl e ↦ let bad : none ≡ some i = rw e at h in cc bad
  | inr e ↦ rw e (delete_if_other k t id i m (rw e at h) n)
]

find_missing :
    (t k : String) (id : ℕ) (m : List (String × ℕ))
    → find t m ≡ none
    → find t (delete_if k id m) ≡ none
find_missing t k id m h = elim (Bool-cases (is_empty t)) [
  | inl e ↦ rw e refl
  | inr e ↦ rw e (elim (Option-cases (lookup t (delete_if k id m))) [
    | inl gone ↦ gone
    | inr (i, l) ↦
        let was : lookup t m ≡ none = rw e at h in
        let both : none ≡ some i = sym was ∙ (delete_if_lem k t id i m l).0 in cc both
  ])
]

-- A request that finds an entry still finds it when another is removed.
remove-others :
    (id i : ℕ) (s : Server) (req : Request)
    → lookup_entry req s ≡ some i
    → i ≢ id
    → lookup_entry req (remove id s) ≡ some i
unfolding lookup_entry remove
remove-others id i s req h n = elim (Option-cases (find (to_tag req) s.by_tag)) [
  | inl e ↦
      let by_call : find (call_id_of req) s.by_call ≡ some i = rw (e, lookup_entry) at h in
      ap₂ first (find_missing (to_tag req) (s.entries id).local_tag id s.by_tag e)
        (find_kept (call_id_of req) (s.entries id).call_id id i s.by_call by_call n)
  | inr (j, e) ↦
      let same : some j ≡ some i = rw (e, lookup_entry) at h in
      ap (λ o. first o (find (call_id_of req) (remove id s).by_call))
        (find_kept (to_tag req) (s.entries id).local_tag id i s.by_tag (e ∙ same) n)
]

-- On a well-formed server a removed entry is found by no request any more, and a request that finds
-- another entry, be it one with the same Call-ID, still finds it.
pub remove_lem :
    (id : ℕ) (s : Server) (req : Request)
    → IsServer s
    → (lookup_entry req (remove id s) ≢ some id)
      × ((i : ℕ) → lookup_entry req s ≡ some i → i ≢ id → lookup_entry req (remove id s) ≡ some i)
remove_lem id s req v = (remove-forgets id s req v, λ i. remove-others id i s req)

-- How an INVITE ends: it is rejected with the port closed, or an entry is made for it.
abbrev pub Ends : Answers → Request → Server → Handled → Type 0
Ends a req s h =
    (h ≡ accept a req s)
    ⊎ ((h.server ≡ s) × (port_open h ≡ false) × (is_accepted h.statuses ≡ false))

with_backend-Ends :
    (o : Option (Dialer × String)) (b : Bool) (a : Answers) (req : Request) (s : Server)
    → Ends a req s (with_backend o b a req s)
with_backend-Ends none b a req s = inr (refl, refl, refl)
with_backend-Ends (some d) b a req s = elim (Bool-cases b) [
  | inl e ↦ rw e (elim (Bool-cases a.listened) [
    | inl l ↦ rw l (elim (Option-cases a.payload_type) [
      | inl n ↦ rw n (inr (refl, refl, refl))
      | inr (pt, n) ↦ rw n (elim (Bool-cases (pt == 0)) [
        | inl z ↦ rw z (inl refl)
        | inr z ↦ rw z (inr (refl, refl, refl))
      ])
    ])
    | inr l ↦ rw l (inr (refl, refl, refl))
  ])
  | inr e ↦ rw e (inr (refl, refl, refl))
]

with_route-Ends :
    (o : Option ExtensionConfig) (ps : Parsers) (cfg : Config) (a : Answers) (req : Request)
    (s : Server)
    → Ends a req s (with_route o ps cfg a req s)
with_route-Ends none ps cfg a req s = inr (refl, refl, refl)
with_route-Ends (some route) ps cfg a req s =
    with_backend-Ends (backend_for_route cfg route) (ps.is_addr cfg.sip.advertised_ip) a req s

pub on_invite-Ends :
    (ps : Parsers) (cfg : Config) (a : Answers) (req : Request) (s : Server)
    → Ends a req s (on_invite ps cfg a req s)
unfolding on_invite
on_invite-Ends ps cfg a req s = elim (Bool-cases (is_empty (call_id_of req))) [
  | inl e ↦ rw e (inr (refl, refl, refl))
  | inr e ↦ rw e (elim (Bool-cases (length req.body == 0)) [
    | inl b ↦ rw b (inr (refl, refl, refl))
    | inr b ↦ rw b (with_route-Ends (route_of cfg (dnis req)) ps cfg a req s)
  ])
]

updated : (id : ℕ) (f : Entry → Entry) (s : Server) → (update id f s).entries id ≡ f (s.entries id)
updated id f s = ground arith

-- The entry of an INVITE whose 200 cannot be sent.
refused_entry :
    (a : Answers) (req req' : Request) (s : Server)
    → lookup a.local_tag s.by_tag ≡ none
    → IsServer s
    → a.responded ≡ false
    → (port_open (accept a req s) ≡ false)
      × (lookup_entry req' (accept a req s).server ≢ some s.next)
unfolding lookup_entry remove new_call close_with_reason
refused_entry a req req' s fresh v h =
    let e = new_entry a.local_tag (call_id_of req) in
    let w = store-IsServer e s (new_entry-IsEntry a.local_tag (call_id_of req)) fresh v in
    rw h (
      ap (λ (t : Entry). not t.call.rtp_closed)
          (updated s.next (hang_up EndReason.unset) (remove s.next (store e s))
            ∙ ap (hang_up EndReason.unset) (newest s e)),
      remove-forgets s.next (store e s) req' w,
    )

accept-statuses :
    (a : Answers) (req : Request) (s : Server) → is_accepted (accept a req s).statuses ≡ a.responded
accept-statuses a req s = ground arith

-- On a well-formed server and with a fresh tag, an INVITE that is not answered with 200 leaves no RTP
-- port open and no new entry that a request can find.
pub on_invite-refused :
    (ps : Parsers) (cfg : Config) (a : Answers) (req : Request) (s : Server)
    → lookup a.local_tag s.by_tag ≡ none
    → IsServer s
    → is_accepted (on_invite ps cfg a req s).statuses ≡ false
    → (port_open (on_invite ps cfg a req s) ≡ false)
      × ((req' : Request) → lookup_entry req' (on_invite ps cfg a req s).server ≢ some s.next)
on_invite-refused ps cfg a req s fresh v r = elim (on_invite-Ends ps cfg a req s) [
  | inl e ↦
      let unsent : a.responded ≡ false =
        sym (accept-statuses a req s) ∙ ap (λ (h : Handled). is_accepted h.statuses) (sym e) ∙ r in
      subst
        (λ (h : Handled).
          (port_open h ≡ false) × ((req' : Request) → lookup_entry req' h.server ≢ some s.next))
        (sym e)
        (
          (refused_entry a req req s fresh v unsent).0,
          λ req'. (refused_entry a req req' s fresh v unsent).1,
        )
  | inr (same, shut, rejected) ↦ (
    shut,
    λ req' found.
        let (k, l) = found_by_tag s req' s.next v (ap (lookup_entry req') (sym same) ∙ found) in
        absurd (omega (arith, (v.tags k s.next l).0)),
  )
]

-- The RTP port is open and the call new, and the entry is found by every request with the tag, and by
-- every request with the Call-ID whose own tag finds nothing.
abbrev pub IsReached : String → String → ℕ → Handled → Type 0
IsReached tag call_id id h =
    (port_open h ≡ true)
    × ((h.server.entries id).call ≡ new_call)
    × ((req : Request) → to_tag req ≡ tag → lookup_entry req h.server ≡ some id)
    × ((req : Request)
        → find (to_tag req) h.server.by_tag ≡ none
        → call_id_of req ≡ call_id
        → lookup_entry req h.server ≡ some id)

find_stored :
    (k : String) (n : ℕ) (m : List (String × ℕ))
    → is_empty k ≡ false
    → find k (insert k n m) ≡ some n
find_stored k n m h = rw h (inserted k n m)

accepted_entry :
    (a : Answers) (req : Request) (s : Server)
    → is_empty a.local_tag ≡ false
    → is_empty (call_id_of req) ≡ false
    → a.responded ≡ true
    → IsReached a.local_tag (call_id_of req) s.next (accept a req s)
unfolding lookup_entry store new_call
accepted_entry a req s tag id h =
    let e = new_entry a.local_tag (call_id_of req) in
    let m = insert a.local_tag s.next s.by_tag in
    let c = insert (call_id_of req) s.next s.by_call in
    let at = updated s.next set_off (store e s) ∙ ap set_off (newest s e) in
    rw h (
      ap (λ (t : Entry). not t.call.rtp_closed) at,
      ap (λ (t : Entry). t.call) at,
      λ req' same.
          ap (λ o. first o (find (call_id_of req') c))
            (ap (λ t. find t m) same ∙ find_stored a.local_tag s.next s.by_tag tag),
      λ req' missing same.
          ap₂ first missing
            (ap (λ t. find t c) same ∙ find_stored (call_id_of req) s.next s.by_call id),
    )

-- With a tag that is not empty, an INVITE that is answered with 200 leaves its RTP port open, its call
-- new, and an entry for it that is found by every request with the tag, and by every request with the
-- INVITE's Call-ID whose own tag finds nothing.
pub on_invite-accepted :
    (ps : Parsers) (cfg : Config) (a : Answers) (req : Request) (s : Server)
    → is_empty a.local_tag ≡ false
    → is_accepted (on_invite ps cfg a req s).statuses ≡ true
    → IsReached a.local_tag (call_id_of req) s.next (on_invite ps cfg a req s)
unfolding on_invite
on_invite-accepted ps cfg a req s tag r = elim (Bool-cases (is_empty (call_id_of req))) [
  | inl e ↦ let bad : false ≡ true = rw (e, on_invite) at r in cc bad
  | inr id ↦ elim (on_invite-Ends ps cfg a req s) [
    | inl e ↦ subst (IsReached a.local_tag (call_id_of req) s.next) (sym e) (
        accepted_entry a req s tag id (
          sym (accept-statuses a req s) ∙ ap (λ (h : Handled). is_accepted h.statuses) (sym e) ∙ r))
    | inr (same, shut, rejected) ↦ let bad : false ≡ true = sym rejected ∙ r in cc bad
  ]
]
