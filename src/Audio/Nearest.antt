-- ===== src/Audio/Nearest.antt =====
-- internal/audio/mulaw.go: the search for the closest byte, and lists of bytes and samples.
use sip_relay.Prelude.{
  ℕ, zero, suc, ◌+◌, ◌-◌, ◌*◌, ◌/◌, ◌%◌, ◌^◌, ◌≤◌, ◌<◌, ◌≡◌, refl, sym, ap, ap₂, subst, ◌∙◌, ◌⊎◌,
  inl, inr, Bool, true, false, List, [], ◌∷◌, ◌++◌, arith, ltb, ltb→lt, ◌==◌, if◌then◌else◌,
  append_assoc, append-nil, Bool-cases,
}
use native.Mathlib.Decide.{dec_lt}
use sip_relay.Prelude.Int.{ℤ, pos, negsuc, pos_part, neg_part}
use sip_relay.Audio.{
  mulaw_magnitude, negate, decode_mulaw_byte, distance, closest_from, linear_to_mulaw, decode_mulaw,
  encode_mulaw,
}
use sip_relay.Audio.Chunks.{IsInt16}

-- What the search knows before it tries byte `b`.
record Searched (diff : ℕ → ℕ) (b best best_diff : ℕ) : Type 0 where
  least : (c : ℕ) → c < b → best_diff ≤ diff c
  start : ((b ≡ 0) × (best_diff ≡ 2 ^ 30)) ⊎ ((best < b) × (diff best ≡ best_diff))

module _ (diff : ℕ → ℕ) (small : (c : ℕ) → diff c < 2 ^ 30) where
  Searched-suc :
      (b best best_diff : ℕ)
      → Searched diff b best best_diff
      → Searched diff
          (suc b)
          (if ltb (diff b) best_diff then b else best)
          (if ltb (diff b) best_diff then diff b else best_diff)
  Searched-suc b best best_diff v = elim (Bool-cases (ltb (diff b) best_diff)) [
    | inl e ↦
        let lower : diff b < best_diff = ltb→lt (diff b) best_diff e in
        rw e (record {
          least = λ c h. elim (dec_lt c b) [
            | yes p ↦ omega (arith, v.least c p)
            | no p ↦
                let same : b ≡ c = omega arith in subst (λ t. diff b ≤ diff t) same (omega arith)
          ];
          start = inr (omega arith, refl);
        })
    | inr e ↦
        let higher : best_diff ≤ diff b = ground arith in
        rw e (record {
          least = λ c h. elim (dec_lt c b) [
            | yes p ↦ v.least c p
            | no p ↦ let same : b ≡ c = omega arith in subst (λ t. best_diff ≤ diff t) same higher
          ];
          start = elim v.start [
            | inl (first, unset) ↦ absurd (omega (arith, small b))
            | inr (low, eq_best) ↦ inr (omega arith, eq_best)
          ];
        })
  ]

  closest_from-least :
      (tries b best best_diff : ℕ)
      → 0 < b + tries
      → Searched diff b best best_diff
      → let r = closest_from diff tries b best best_diff in
        (r < b + tries) × ((c : ℕ) → c < b + tries → diff r ≤ diff c)
  unfolding closest_from
  closest_from-least zero b best best_diff h v = elim v.start [
    | inl (first, unset) ↦ absurd (omega arith)
    | inr (low, eq_best) ↦ (omega arith, λ c k. omega (arith, v.least c (omega arith), eq_best))
  ]
  closest_from-least (suc tries) b best best_diff h v =
      let (low, least) =
        closest_from-least tries (suc b) (if ltb (diff b) best_diff then b else best)
          (if ltb (diff b) best_diff then diff b else best_diff) (omega arith)
          (Searched-suc b best best_diff v) in
      (omega arith, λ c k. least c (omega arith))

magnitude-bound : (mu : ℕ) → mulaw_magnitude mu ≤ 32635
magnitude-bound mu = capped ((mu % 16 * 8 + 0x84) * 2 ^ (mu / 16 % 8) - 0x84)
  where
    capped : (m : ℕ) → (if ltb 32635 m then 32635 else m) ≤ 32635
    capped m = ground arith

-- The size of a sample.
abbrev size : ℤ → ℕ
size a = pos_part a + neg_part a

negate-size : (m : ℕ) → size (negate m) ≡ m
negate-size zero = refl
negate-size (suc m) = omega arith

decode-size : (b : ℕ) → size (decode_mulaw_byte b) ≤ 32635
unfolding decode_mulaw_byte
decode-size b = sized ((255 - b) / 128 == 0) (mulaw_magnitude (255 - b)) (magnitude-bound (255 - b))
  where
    sized :
        (positive : Bool) (m : ℕ) → m ≤ 32635 → size (if positive then pos m else negate m) ≤ 32635
    sized true m h = omega arith
    sized false m h = omega (arith, negate-size m)

int16-size : (s : ℤ) → IsInt16 s → size s ≤ 2 ^ 15
int16-size (pos n) h = omega arith
int16-size (negsuc n) h = omega arith

distance-bound : (a b : ℤ) → distance a b ≤ size a + size b
distance-bound a b = ground arith

distance-zero : (a b : ℤ) → distance a b ≡ 0 → a ≡ b
distance-zero (pos a) (pos b) h = ground arith
distance-zero (pos a) (negsuc b) h = absurd (ground arith)
distance-zero (negsuc a) (pos b) h = absurd (ground arith)
distance-zero (negsuc a) (negsuc b) h = ground arith

distance-same : (a : ℤ) → distance a a ≡ 0
distance-same a = ground arith

nearest :
    (sample : ℤ)
    → size sample ≤ 2 ^ 15
    → (linear_to_mulaw sample < 256)
      × ((c : ℕ)
          → c < 256
          → distance (decode_mulaw_byte (linear_to_mulaw sample)) sample
            ≤ distance (decode_mulaw_byte c) sample)
unfolding linear_to_mulaw
nearest sample h =
    closest_from-least (λ b. distance (decode_mulaw_byte b) sample)
      (λ c. omega (arith, distance-bound (decode_mulaw_byte c) sample, decode-size c)) 256 0 0
      (2 ^ 30) (omega arith)
      (record { least = λ c k. absurd (omega arith); start = inl (refl, refl) })

-- LinearToMulaw gives for every int16 a byte, and no byte decodes to a sample that is nearer.
pub linear_to_mulaw-nearest :
    (sample : ℤ)
    → IsInt16 sample
    → (linear_to_mulaw sample < 256)
      × ((c : ℕ)
          → c < 256
          → distance (decode_mulaw_byte (linear_to_mulaw sample)) sample
            ≤ distance (decode_mulaw_byte c) sample)
linear_to_mulaw-nearest sample h = nearest sample (int16-size sample h)

decoded_again :
    (b : ℕ)
    → b < 256
    → decode_mulaw_byte (linear_to_mulaw (decode_mulaw_byte b)) ≡ decode_mulaw_byte b
decoded_again b h =
    let (low, least) = nearest (decode_mulaw_byte b) (omega (arith, decode-size b)) in
    distance-zero (decode_mulaw_byte (linear_to_mulaw (decode_mulaw_byte b))) (decode_mulaw_byte b)
      (omega (arith, least b h, distance-same (decode_mulaw_byte b)))

abbrev pub AllBytes : List ℕ → Type 0
AllBytes [] = Unit
AllBytes (b ∷ bs) = (b < 256) × AllBytes bs

decode_mulaw-append : (dst : List ℤ) (bs : List ℕ) → decode_mulaw dst bs ≡ dst ++ decode_mulaw [] bs
unfolding decode_mulaw
decode_mulaw-append dst [] = sym (append-nil dst)
decode_mulaw-append dst (b ∷ bs) =
    decode_mulaw-append (dst ++ (decode_mulaw_byte b ∷ [])) bs
    ∙ append_assoc dst (decode_mulaw_byte b ∷ []) (decode_mulaw [] bs)
    ∙ ap (λ t. dst ++ t) (sym (decode_mulaw-append (decode_mulaw_byte b ∷ []) bs))

encode_mulaw-append : (dst : List ℕ) (ss : List ℤ) → encode_mulaw dst ss ≡ dst ++ encode_mulaw [] ss
unfolding encode_mulaw
encode_mulaw-append dst [] = sym (append-nil dst)
encode_mulaw-append dst (s ∷ ss) =
    encode_mulaw-append (dst ++ (linear_to_mulaw s ∷ [])) ss
    ∙ append_assoc dst (linear_to_mulaw s ∷ []) (encode_mulaw [] ss)
    ∙ ap (λ t. dst ++ t) (sym (encode_mulaw-append (linear_to_mulaw s ∷ []) ss))

-- Mu-law audio that is decoded and encoded again decodes to the same samples.
pub decode_mulaw-encode_mulaw :
    (bs : List ℕ)
    → AllBytes bs
    → decode_mulaw [] (encode_mulaw [] (decode_mulaw [] bs)) ≡ decode_mulaw [] bs
unfolding decode_mulaw encode_mulaw
decode_mulaw-encode_mulaw [] h = refl
decode_mulaw-encode_mulaw (b ∷ bs) h =
    let s = decode_mulaw_byte b in
    let e = linear_to_mulaw s in
    let split = decode_mulaw-append (s ∷ []) bs in
    ap (λ t. decode_mulaw [] (encode_mulaw [] t)) split
    ∙ ap (decode_mulaw []) (encode_mulaw-append (e ∷ []) (decode_mulaw [] bs))
    ∙ decode_mulaw-append (decode_mulaw_byte e ∷ []) (encode_mulaw [] (decode_mulaw [] bs))
    ∙ ap₂ (λ t ts. t ∷ ts) (decoded_again b h.0) (decode_mulaw-encode_mulaw bs h.1)
    ∙ sym split
