-- ===== src/Sdp/Mapping.antt =====
-- internal/sdp/sdp.go: the tests of findPCMU on formats, attributes and numbers, and what they mean.
use sip_relay.Prelude.{
  ℕ, ◌+◌, ◌-◌, ◌*◌, ◌≤◌, ◌≡◌, refl, sym, ap, subst, ◌∙◌, ◌⊎◌, ◌↔◌, inl, inr, true, false, ◌||◌,
  Bool, none, some, List, [], ◌∷◌, ◌++◌, arith, ◌==◌, length, Bool-cases,
}
use sip_relay.Sdp.{
  Text, Attribute, fields, allowed, member, same_text, has_prefix, is_pcmu, pcmu, rtpmap, to_upper,
  mapped, mapped_fields, parse_uint8, digits_from,
}

-- A word of a list, and a format that one of the formats of a medium names.
abbrev pub IsIn : Text → List Text → Type 0
IsIn w [] = false ≡ true
IsIn w (x ∷ xs) = (x ≡ w) ⊎ IsIn w xs

abbrev pub IsOffered : Text → List Text → Type 0
IsOffered w [] = false ≡ true
IsOffered w (f ∷ fs) = IsIn w (fields f) ⊎ IsOffered w fs

-- A codec that reads, in capitals, "PCMU/8000", or that and a slash with anything behind it.
abbrev pub IsPcmu : Text → Type 0
IsPcmu codec =
    let name = b'P' ∷ b'C' ∷ b'M' ∷ b'U' ∷ b'/' ∷ b'8' ∷ b'0' ∷ b'0' ∷ b'0' ∷ [] in
    (to_upper codec ≡ name) ⊎ ((more : Text) × (to_upper codec ≡ name ++ (b'/' ∷ more)))

-- An rtpmap attribute that maps an offered format to PCMU/8000.
pub record Maps (formats : List Text) (a : Attribute) (w : Text) : Type 0 where
  pub codec : Text
  pub more : List Text
  pub rtpmap : a.key ≡ b'r' ∷ b't' ∷ b'p' ∷ b'm' ∷ b'a' ∷ b'p' ∷ []
  pub words : fields a.value ≡ w ∷ codec ∷ more
  pub offered : IsOffered w formats
  pub pcmu : IsPcmu codec

abbrev pub MapsNone : List Text → Attribute → Type 0
MapsNone formats a = (w : Text) → ¬ Maps formats a w

-- A text of decimal digits, and the number that it is behind digits of the value n.
abbrev pub AreDigits : Text → Type 0
AreDigits [] = Unit
AreDigits (c ∷ cs) = (48 ≤ c) × (c ≤ 57) × AreDigits cs

abbrev pub value_from : ℕ → Text → ℕ
value_from n [] = n
value_from n (c ∷ cs) = value_from (10 * n + (c - 48)) cs

pub record IsUint8 (w : Text) (n : ℕ) : Type 0 where
  pub some_digit : 1 ≤ length w
  pub digits : AreDigits w
  pub value : value_from 0 w ≡ n
  pub bound : n ≤ 255

-- The tests on texts.
same_text-≡ : (a b : Text) → same_text a b ≡ true → a ≡ b
same_text-≡ [] [] h = refl
same_text-≡ [] (d ∷ ds) h = cc
same_text-≡ (c ∷ cs) [] h = cc
same_text-≡ (c ∷ cs) (d ∷ ds) h =
    let first : c ≡ d = ground arith in
    let rest : same_text cs ds ≡ true = ground arith in
    ap (λ x. x ∷ cs) first ∙ ap (λ t. d ∷ t) (same_text-≡ cs ds rest)

same_text_self : (a : Text) → same_text a a ≡ true
same_text_self [] = refl
same_text_self (c ∷ cs) = ground (arith, same_text_self cs)

has_prefix-≡ : (s p : Text) → has_prefix s p ≡ true → (more : Text) × (s ≡ p ++ more)
has_prefix-≡ s [] h = (s, refl)
has_prefix-≡ [] (p ∷ ps) h = cc
has_prefix-≡ (c ∷ cs) (p ∷ ps) h =
    let first : c ≡ p = ground arith in
    let rest : has_prefix cs ps ≡ true = ground arith in
    let (more, e) = has_prefix-≡ cs ps rest in (more, ap (λ x. x ∷ cs) first ∙ ap (λ t. p ∷ t) e)

has_prefix_self : (p more : Text) → has_prefix (p ++ more) p ≡ true
has_prefix_self [] more = refl
has_prefix_self (p ∷ ps) more = ground (arith, has_prefix_self ps more)

is_pcmu_iff : (codec : Text) → (is_pcmu codec ≡ true) ↔ IsPcmu codec
is_pcmu_iff codec = (to, from)
  where
    to : is_pcmu codec ≡ true → IsPcmu codec
    to h = elim (Bool-cases (same_text (to_upper codec) pcmu)) [
      | inl e ↦ inl (same_text-≡ (to_upper codec) pcmu e)
      | inr e ↦
          let long : has_prefix (to_upper codec) (pcmu ++ (b'/' ∷ [])) ≡ true = rw e at h in
          inr (has_prefix-≡ (to_upper codec) (pcmu ++ (b'/' ∷ [])) long)
    ]

    from : IsPcmu codec → is_pcmu codec ≡ true
    from (inl e) = rw e refl
    from (inr (more, e)) = rw e refl

or_iff : (a b : Bool) {P Q : Type 0} → (a ≡ true) ↔ P → (b ≡ true) ↔ Q → ((a || b) ≡ true) ↔ (P ⊎ Q)
or_iff true b p q = (λ h. inl (p.0 refl), λ h. refl)
or_iff false b p q = (
  λ h. inr (q.0 h),
  λ h. elim h [ inl x ↦ let wrong : false ≡ true = p.1 x in cc wrong | inr y ↦ q.1 y ],
)

same_text_iff : (a b : Text) → (same_text a b ≡ true) ↔ (a ≡ b)
same_text_iff a b = (same_text-≡ a b, λ e. ap (λ t. same_text t b) e ∙ same_text_self b)

member_iff : (w : Text) (xs : List Text) → (member w xs ≡ true) ↔ IsIn w xs
unfolding member
member_iff w [] = (λ h. h, λ h. h)
member_iff w (x ∷ xs) = or_iff (same_text x w) (member w xs) (same_text_iff x w) (member_iff w xs)

or_assoc : (a b c : Bool) → ((a || b) || c) ≡ (a || (b || c))
or_assoc true b c = refl
or_assoc false b c = refl

member-append : (w : Text) (xs ys : List Text) → member w (xs ++ ys) ≡ (member w xs || member w ys)
unfolding member
member-append w [] ys = refl
member-append w (x ∷ xs) ys =
    ap (λ b. same_text x w || b) (member-append w xs ys)
    ∙ sym (or_assoc (same_text x w) (member w xs) (member w ys))

pub offered_iff : (w : Text) (fs : List Text) → (member w (allowed fs) ≡ true) ↔ IsOffered w fs
unfolding allowed member
offered_iff w [] = (λ h. h, λ h. h)
offered_iff w (f ∷ fs) =
    let both =
      or_iff (member w (fields f)) (member w (allowed fs)) (member_iff w (fields f))
        (offered_iff w fs) in
    let e = member-append w (fields f) (allowed fs) in (λ h. both.0 (sym e ∙ h), λ h. e ∙ both.1 h)

module _ (fs : List Text) (a : Attribute) where
  mapped_words :
      (w : Text) (words : List Text)
      → a.key ≡ rtpmap
      → fields a.value ≡ words
      → mapped_fields (allowed fs) words ≡ some w
      → Maps fs a w
  mapped_words w [] k e h = cc
  mapped_words w (x ∷ []) k e h = cc
  mapped_words w (x ∷ codec ∷ more) k e h = elim (Bool-cases (member x (allowed fs))) [
    | inr bad ↦ let wrong : none ≡ some w = rw bad at h in cc wrong
    | inl fine ↦ elim (Bool-cases (is_pcmu codec)) [
      | inr bad ↦ let wrong : none ≡ some w = rw (fine, bad) at h in cc wrong
      | inl is ↦
          let same : some x ≡ some w = rw (fine, is) at h in
          let x_w : x ≡ w = cc in
          record {
            codec = codec;
            more = more;
            rtpmap = k;
            words = e ∙ ap (λ t. t ∷ codec ∷ more) x_w;
            offered = subst (λ t. IsOffered t fs) x_w ((offered_iff x fs).0 fine);
            pcmu = (is_pcmu_iff codec).0 is;
          }
    ]
  ]

  pub mapped-some : (w : Text) → mapped (allowed fs) a ≡ some w → Maps fs a w
  mapped-some w h = elim (Bool-cases (same_text a.key rtpmap)) [
    | inr bad ↦ let wrong : none ≡ some w = rw bad at h in cc wrong
    | inl fine ↦ mapped_words w (fields a.value) (same_text-≡ a.key rtpmap fine) refl (rw fine at h)
  ]

  Maps-mapped : (w : Text) → Maps fs a w → mapped (allowed fs) a ≡ some w
  Maps-mapped w v =
      let k = (same_text_iff a.key rtpmap).1 v.rtpmap in
      let m = (offered_iff w fs).1 v.offered in
      let p = (is_pcmu_iff v.codec).1 v.pcmu in rw (k, v.words, m, p) refl

  pub mapped-none : mapped (allowed fs) a ≡ none → MapsNone fs a
  mapped-none h w v = let wrong : none ≡ some w = sym h ∙ Maps-mapped w v in cc wrong

digits_from-some :
    (n m : ℕ) (s : Text) → digits_from n s ≡ some m → AreDigits s × (value_from n s ≡ m) × (m ≤ 255)
unfolding digits_from
digits_from-some n m [] h = ground arith
digits_from-some n m (c ∷ cs) h = ground (arith, digits_from-some (10 * n + (c - b'0')) m cs)

digits_from-value :
    (n : ℕ) (s : Text)
    → AreDigits s
    → value_from n s ≤ 255
    → digits_from n s ≡ some (value_from n s)
unfolding digits_from
digits_from-value n [] d h = ground arith
digits_from-value n (c ∷ cs) d h = ground (arith, digits_from-value (10 * n + (c - b'0')) cs d.2 h)

pub parse_uint8-some : (s : Text) (n : ℕ) → parse_uint8 s ≡ some n → IsUint8 s n
unfolding parse_uint8
parse_uint8-some [] n h = cc
parse_uint8-some (c ∷ cs) n h =
    let some_left : (length (c ∷ cs) == 0) ≡ false = ground arith in
    let (digits, value, bound) = digits_from-some 0 n (c ∷ cs) (rw some_left at h) in
    record { some_digit = omega arith; digits = digits; value = value; bound = bound }

IsUint8-parse_uint8 : (s : Text) (n : ℕ) → IsUint8 s n → parse_uint8 s ≡ some n
unfolding parse_uint8
IsUint8-parse_uint8 s n v =
    let some_left : (length s == 0) ≡ false = ground (arith, v.some_digit) in
    let small : value_from 0 s ≤ 255 = omega (arith, v.value, v.bound) in
    rw some_left (digits_from-value 0 s v.digits small ∙ ap some v.value)

pub parse_uint8-none : (s : Text) → parse_uint8 s ≡ none → (n : ℕ) → ¬ IsUint8 s n
parse_uint8-none s h n v = let wrong : none ≡ some n = sym h ∙ IsUint8-parse_uint8 s n v in cc wrong
