-- ===== src/Names/Safe.antt =====
-- The bytes of session IDs and of the names of recordings.
use sip_relay.Prelude.{
  ℕ, ◌≡◌, ◌≢◌, refl, sym, subst, ap, ◌∙◌, inl, inr, Bool, true, false, not, List, [], ◌∷◌, ◌++◌,
  ◌==◌, if◌then◌else◌, length, arith, reverse, Bool-cases, reverse-append, reverse-reverse,
  append_assoc,
}
use sip_relay.Names.{
  dash, is_session_char, is_object_char, replace_runs, trim_left, trim, join, session_id,
  clean_object_part, recording_object_name, ulaw, unknown,
}

-- Every byte of a text passes a test.
abbrev pub All : (ℕ → Bool) → List ℕ → Type 0
All keep [] = Unit
All keep (c ∷ cs) = (keep c ≡ true) × All keep cs

All-append : (keep : ℕ → Bool) (xs ys : List ℕ) → All keep xs → All keep ys → All keep (xs ++ ys)
All-append keep [] ys h k = k
All-append keep (x ∷ xs) ys h k = (h.0, All-append keep xs ys h.1 k)

All-reverse : (keep : ℕ → Bool) (xs : List ℕ) → All keep xs → All keep (reverse xs)
All-reverse keep [] h = tt
All-reverse keep (x ∷ xs) h =
    subst (All keep) (sym (reverse-append (x ∷ []) xs))
      (All-append keep (reverse xs) (x ∷ []) (All-reverse keep xs h.1) (h.0, tt))

All-if :
    (keep : ℕ → Bool) (b : Bool) (xs ys : List ℕ)
    → (b ≡ true → All keep xs)
    → All keep ys
    → All keep (if b then xs else ys)
All-if keep true xs ys h k = h refl
All-if keep false xs ys h k = k

module _ (keep : ℕ → Bool) (keeps_dash : keep dash ≡ true) where
  All-replace_runs : (b : Bool) (cs : List ℕ) → All keep (replace_runs keep b cs)
  unfolding replace_runs
  All-replace_runs b [] = tt
  All-replace_runs b (c ∷ cs) =
      let rest = All-replace_runs (not (keep c)) cs in
      All-if keep (keep c) _ _ (λ e. (e, rest)) (All-if keep b _ _ (λ e. rest) (keeps_dash, rest))

-- Cleaning leaves a text of allowed bytes alone.
replace_runs-kept :
    (keep : ℕ → Bool) (b : Bool) (cs : List ℕ) → All keep cs → replace_runs keep b cs ≡ cs
unfolding replace_runs
replace_runs-kept keep b [] h = refl
replace_runs-kept keep b (c ∷ cs) h = rw h.0 (ap (λ t. c ∷ t) (replace_runs-kept keep false cs h.1))

All-trim_left : (keep : ℕ → Bool) (cs : List ℕ) → All keep cs → All keep (trim_left cs)
unfolding trim_left
All-trim_left keep [] h = tt
All-trim_left keep (c ∷ cs) h = All-if keep (c == dash) _ _ (λ e. All-trim_left keep cs h.1) h

All-trim : (keep : ℕ → Bool) (s : List ℕ) → All keep s → All keep (trim s)
unfolding trim
All-trim keep s h =
    All-reverse keep _ (All-trim_left keep _ (All-reverse keep _ (All-trim_left keep s h)))

-- A text that is empty or begins with another byte than a dash.
abbrev pub StartsClean : List ℕ → Type 0
StartsClean [] = Unit
StartsClean (c ∷ cs) = (c == dash) ≡ false

trim_left-StartsClean : (cs : List ℕ) → StartsClean (trim_left cs)
unfolding trim_left
trim_left-StartsClean [] = tt
trim_left-StartsClean (c ∷ cs) = elim (Bool-cases (c == dash)) [
  | inl e ↦ rw e (trim_left-StartsClean cs)
  | inr e ↦ subst StartsClean (sym (if_false (trim_left cs) (c ∷ cs) e)) e
]
  where
    if_false : {b : Bool} (xs ys : List ℕ) → b ≡ false → (if b then xs else ys) ≡ ys
    if_false xs ys e = rw e

trim_left_of_StartsClean : (cs : List ℕ) → StartsClean cs → trim_left cs ≡ cs
unfolding trim_left
trim_left_of_StartsClean [] h = refl
trim_left_of_StartsClean (c ∷ cs) h = rw h

trim_of_StartsClean : (s : List ℕ) → StartsClean s → StartsClean (reverse s) → trim s ≡ s
unfolding trim
trim_of_StartsClean s h k =
    ap (λ t. reverse (trim_left (reverse t))) (trim_left_of_StartsClean s h)
    ∙ ap reverse (trim_left_of_StartsClean (reverse s) k)
    ∙ reverse-reverse s

-- A trimmed text does not end with a dash.
trim_ends : (s : List ℕ) → StartsClean (reverse (trim s))
unfolding trim
trim_ends s =
    subst StartsClean (sym (reverse-reverse (trim_left (reverse (trim_left s)))))
      (trim_left-StartsClean (reverse (trim_left s)))

StartsClean-append : (xs ys : List ℕ) → xs ≢ [] → StartsClean xs → StartsClean (xs ++ ys)
StartsClean-append [] ys n h = absurd (n refl)
StartsClean-append (x ∷ xs) ys n h = h

-- What `session_id` puts behind the prefix.
abbrev name_of : List (List ℕ) → List ℕ → List ℕ
name_of parts tag =
    let clean = trim (replace_runs is_session_char false (join parts)) in
    if length clean == 0 then tag else clean

-- A tag as `randomTag` makes it: of safe bytes, not empty, with no dash at its end.
pub record IsTag (tag : List ℕ) : Type 0 where
  pub safe : All is_session_char tag
  pub some_byte : tag ≢ []
  pub ends_clean : StartsClean (reverse tag)

nonempty : (xs : List ℕ) → (length xs == 0) ≡ false → xs ≢ []
nonempty [] h e = ground arith
nonempty (x ∷ xs) h e = cc

session_dash : is_session_char dash ≡ true
unfolding is_session_char
session_dash = refl

object_dash : is_object_char dash ≡ true
unfolding is_object_char
object_dash = refl

name_of-IsTag : (parts : List (List ℕ)) (tag : List ℕ) → IsTag tag → IsTag (name_of parts tag)
name_of-IsTag parts tag v =
    let clean = trim (replace_runs is_session_char false (join parts)) in
    elim (Bool-cases (length clean == 0)) [
      | inl e ↦ rw e v
      | inr e ↦ rw e (record {
        safe =
            All-trim is_session_char _
              (All-replace_runs is_session_char session_dash false (join parts));
        some_byte = nonempty clean e;
        ends_clean = trim_ends (replace_runs is_session_char false (join parts));
      })
    ]

-- A prefix that is safe, and begins with no dash.
pub record IsPrefix (prefix : List ℕ) : Type 0 where
  pub safe : All is_session_char prefix
  pub some_byte : prefix ≢ []
  pub starts_clean : StartsClean prefix

length-zero : (xs : List ℕ) → xs ≢ [] → (length xs == 0) ≡ false
length-zero [] h = absurd (h refl)
length-zero (x ∷ xs) h = ground arith

session_id-eq :
    (prefix : List ℕ) (parts : List (List ℕ)) (tag : List ℕ)
    → prefix ≢ []
    → session_id prefix parts tag ≡ prefix ++ (dash ∷ name_of parts tag)
unfolding session_id
session_id-eq prefix parts tag h = rw (length-zero prefix h)

reverse-nil : (xs : List ℕ) → xs ≢ [] → reverse xs ≢ []
reverse-nil xs h e = h (sym (reverse-reverse xs) ∙ ap reverse e)

-- The session ID made of any Call-ID and tag behind a safe prefix holds only the bytes a-z, A-Z, 0-9,
-- `_` and `-`, and neither begins nor ends with a dash.
pub session_id-IsSafe :
    (prefix : List ℕ) (parts : List (List ℕ)) (tag : List ℕ)
    → IsPrefix prefix
    → IsTag tag
    → All is_session_char (session_id prefix parts tag)
      × StartsClean (session_id prefix parts tag)
      × StartsClean (reverse (session_id prefix parts tag))
session_id-IsSafe prefix parts tag p t =
    let name = name_of parts tag in
    let n = name_of-IsTag parts tag t in
    rw (session_id-eq prefix parts tag p.some_byte) (
      All-append is_session_char prefix (dash ∷ name) p.safe (session_dash, n.safe),
      StartsClean-append prefix (dash ∷ name) p.some_byte p.starts_clean,
      subst StartsClean
          (sym (
            reverse-append prefix (dash ∷ name)
            ∙ ap (λ r. r ++ reverse prefix) (reverse-append (dash ∷ []) name)
            ∙ append_assoc (reverse name) (dash ∷ []) (reverse prefix)))
          (StartsClean-append (reverse name) _ (reverse-nil name n.some_byte) n.ends_clean),
    )

append-ne-nil : (xs ys : List ℕ) → xs ≢ [] → (xs ++ ys) ≢ []
append-ne-nil [] ys h e = h refl
append-ne-nil (x ∷ xs) ys h e = cc

ulaw-All : All is_object_char ulaw
unfolding is_object_char
ulaw-All = (refl, (refl, (refl, (refl, (refl, tt)))))

unknown-All : All is_object_char unknown
unfolding is_object_char
unknown-All = (refl, (refl, (refl, (refl, (refl, (refl, (refl, tt)))))))

object_of_session : (c : ℕ) → is_session_char c ≡ true → is_object_char c ≡ true
unfolding is_session_char is_object_char
object_of_session c h = ground arith

All-object : (s : List ℕ) → All is_session_char s → All is_object_char s
All-object [] h = tt
All-object (c ∷ cs) h = (object_of_session c h.0, All-object cs h.1)

clean_of_safe :
    (s : List ℕ)
    → All is_session_char s
    → s ≢ []
    → StartsClean s
    → StartsClean (reverse s)
    → clean_object_part s ≡ s
unfolding clean_object_part
clean_of_safe s h n a b =
    let e : trim (replace_runs is_object_char false s) ≡ s =
      ap trim (replace_runs-kept is_object_char false s (All-object s h))
      ∙ trim_of_StartsClean s a b in
    rw (e, length-zero s n)

-- The recording of a call is stored under its session ID, unchanged, with `.ulaw` behind it.
pub recording_object_name-session_id :
    (prefix : List ℕ) (parts : List (List ℕ)) (tag : List ℕ)
    → IsPrefix prefix
    → IsTag tag
    → recording_object_name (session_id prefix parts tag) ≡ session_id prefix parts tag ++ ulaw
unfolding recording_object_name
recording_object_name-session_id prefix parts tag p t =
    let (safe, starts, ends) = session_id-IsSafe prefix parts tag p t in
    ap (λ s. s ++ ulaw)
      (clean_of_safe (session_id prefix parts tag) safe
        (subst (λ s. s ≢ []) (sym (session_id-eq prefix parts tag p.some_byte))
          (append-ne-nil prefix _ p.some_byte))
        starts ends)

-- Whatever the identifier, an object's name holds only the bytes of the object class.
pub recording_object_name-IsSafe : (id : List ℕ) → All is_object_char (recording_object_name id)
unfolding recording_object_name
recording_object_name-IsSafe id =
    let clean = trim (replace_runs is_object_char false id) in
    All-append is_object_char _ ulaw
      (All-if is_object_char (length clean == 0) unknown clean (λ e. unknown-All)
        (All-trim is_object_char _ (All-replace_runs is_object_char object_dash false id)))
      ulaw-All
