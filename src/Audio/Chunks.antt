-- ===== src/Audio/Chunks.antt =====
-- internal/audio/pcm.go: the PCM codec over messages of any lengths.
use sip_relay.Prelude.{
  ℕ, ◌/◌, ◌%◌, ◌^◌, ◌<◌, ◌≡◌, refl, sym, ap, ap₂, subst, ◌∙◌, inl, inr, Bool, true, false, List, [],
  ◌∷◌, ◌++◌, arith, if◌then◌else◌, append_assoc, append-nil, concat, Bool-cases,
}
use sip_relay.Prelude.Int.{ℤ, pos, negsuc}
use sip_relay.Audio.{
  Decoder, to_uint16, to_int16, samples_to_bytes_le, word, new_decoder, pairs, decode_pending,
  decode, decode_all,
}

-- The samples of a whole stream of bytes, and the odd byte that is left.
abbrev words : List ℕ → List ℤ
words [] = []
words (a ∷ []) = []
words (a ∷ b ∷ bytes) = word a b ∷ words bytes

abbrev left_over : List ℕ → List ℕ
left_over [] = []
left_over (a ∷ []) = a ∷ []
left_over (a ∷ b ∷ bytes) = left_over bytes

abbrev buffered : Decoder → List ℕ
buffered d = if d.has_pending then d.pending ∷ [] else []

abbrev Decodes : List ℤ → List ℕ → Decoder × List ℤ → Type 0
Decodes dst bytes r = (r.1 ≡ dst ++ words bytes) × (buffered r.0 ≡ left_over bytes)

pairs-Decodes :
    (d : Decoder) (dst : List ℤ) (src : List ℕ)
    → d.has_pending ≡ false
    → Decodes dst src (pairs d dst src)
unfolding pairs
pairs-Decodes d dst [] h = (sym (append-nil dst), rw h refl)
pairs-Decodes d dst (a ∷ []) h = (sym (append-nil dst), refl)
pairs-Decodes d dst (a ∷ b ∷ src) h =
    let (out, rest) = pairs-Decodes d (dst ++ (word a b ∷ [])) src h in
    (out ∙ append_assoc dst (word a b ∷ []) (words src), rest)

pending-Decodes :
    (d : Decoder) (dst : List ℤ) (src : List ℕ)
    → d.has_pending ≡ true
    → Decodes dst (d.pending ∷ src) (decode_pending d dst src)
pending-Decodes d dst [] h = (sym (append-nil dst), rw h refl)
pending-Decodes d dst (b ∷ src) h =
    let (out, rest) =
      pairs-Decodes (record d { has_pending = false }) (dst ++ (word d.pending b ∷ [])) src refl in
    (out ∙ append_assoc dst (word d.pending b ∷ []) (words src), rest)

decode-Decodes :
    (d : Decoder) (dst : List ℤ) (src : List ℕ) → Decodes dst (buffered d ++ src) (decode d dst src)
unfolding decode
decode-Decodes d dst src = elim (Bool-cases d.has_pending) [
  | inl h ↦
      subst
        (λ p.
          Decodes dst ((if p then d.pending ∷ [] else []) ++ src)
            (if p then decode_pending d dst src else pairs d dst src))
        (sym h) (pending-Decodes d dst src h)
  | inr h ↦
      subst
        (λ p.
          Decodes dst ((if p then d.pending ∷ [] else []) ++ src)
            (if p then decode_pending d dst src else pairs d dst src))
        (sym h) (pairs-Decodes d dst src h)
]

words-append : (xs ys : List ℕ) → words (xs ++ ys) ≡ words xs ++ words (left_over xs ++ ys)
words-append [] ys = refl
words-append (a ∷ []) ys = refl
words-append (a ∷ b ∷ xs) ys = ap (λ t. word a b ∷ t) (words-append xs ys)

left_over-append : (xs ys : List ℕ) → left_over (xs ++ ys) ≡ left_over (left_over xs ++ ys)
left_over-append [] ys = refl
left_over-append (a ∷ []) ys = refl
left_over-append (a ∷ b ∷ xs) ys = left_over-append xs ys

nothing-Decodes :
    (p : ℕ) (b : Bool) (dst : List ℤ)
    → (dst ≡ dst ++ words ((if b then p ∷ [] else []) ++ []))
      × ((if b then p ∷ [] else []) ≡ left_over ((if b then p ∷ [] else []) ++ []))
nothing-Decodes p true dst = (sym (append-nil dst), refl)
nothing-Decodes p false dst = (sym (append-nil dst), refl)

decode_all-Decodes :
    (d : Decoder) (dst : List ℤ) (srcs : List (List ℕ))
    → Decodes dst (buffered d ++ concat srcs) (decode_all d dst srcs)
unfolding decode_all
decode_all-Decodes d dst [] = nothing-Decodes d.pending d.has_pending dst
decode_all-Decodes d dst (src ∷ srcs) =
    let r = decode d dst src in
    let (out, rest) = decode-Decodes d dst src in
    let (all, last) = decode_all-Decodes r.0 r.1 srcs in
    let whole = sym (append_assoc (buffered d) src (concat srcs)) in
    (
      all
          ∙ ap₂ (λ s l. s ++ words (l ++ concat srcs)) out rest
          ∙ append_assoc dst (words (buffered d ++ src))
              (words (left_over (buffered d ++ src) ++ concat srcs))
          ∙ ap (λ t. dst ++ t) (sym (words-append (buffered d ++ src) (concat srcs)))
          ∙ ap (λ t. dst ++ words t) (sym whole),
      last
          ∙ ap (λ l. left_over (l ++ concat srcs)) rest
          ∙ sym (left_over-append (buffered d ++ src) (concat srcs))
          ∙ ap left_over (sym whole),
    )

-- An int16.
abbrev pub IsInt16 : ℤ → Type 0
IsInt16 (pos n) = n < 2 ^ 15
IsInt16 (negsuc n) = n < 2 ^ 15

abbrev pub AllInt16 : List ℤ → Type 0
AllInt16 [] = Unit
AllInt16 (s ∷ ss) = IsInt16 s × AllInt16 ss

word-bytes : (s : ℤ) → IsInt16 s → word (to_uint16 s % 256) (to_uint16 s / 256) ≡ s
unfolding to_uint16 to_int16
word-bytes (pos n) h = ground arith
word-bytes (negsuc n) h = ground arith

bytes-append :
    (dst : List ℕ) (ss : List ℤ) → samples_to_bytes_le dst ss ≡ dst ++ samples_to_bytes_le [] ss
unfolding samples_to_bytes_le
bytes-append dst [] = sym (append-nil dst)
bytes-append dst (s ∷ ss) =
    let two = to_uint16 s % 256 ∷ to_uint16 s / 256 ∷ [] in
    bytes-append (dst ++ two) ss
    ∙ append_assoc dst two (samples_to_bytes_le [] ss)
    ∙ ap (λ t. dst ++ t) (sym (bytes-append two ss))

words-samples :
    (ss : List ℤ)
    → AllInt16 ss
    → (words (samples_to_bytes_le [] ss) ≡ ss) × (left_over (samples_to_bytes_le [] ss) ≡ [])
unfolding samples_to_bytes_le
words-samples [] h = (refl, refl)
words-samples (s ∷ ss) h =
    let two = to_uint16 s % 256 ∷ to_uint16 s / 256 ∷ [] in
    let (out, rest) = words-samples ss h.1 in
    let split = bytes-append two ss in
    (ap words split ∙ ap₂ (λ t ts. t ∷ ts) (word-bytes s h.0) out, ap left_over split ∙ rest)

idle : (d : Decoder) → buffered d ≡ [] → d.has_pending ≡ false
idle d h = ground arith

-- Whatever pieces the bytes of some samples are cut into, the decoder returns just these samples, in
-- order, and holds no byte back.
pub decode_all-samples_to_bytes_le :
    (ss : List ℤ) (srcs : List (List ℕ))
    → AllInt16 ss
    → concat srcs ≡ samples_to_bytes_le [] ss
    → let r = decode_all new_decoder [] srcs in (r.1 ≡ ss) × (r.0.has_pending ≡ false)
decode_all-samples_to_bytes_le ss srcs h e =
    let (out, rest) = decode_all-Decodes new_decoder [] srcs in
    let (same, none_left) = words-samples ss h in
    (
      out ∙ ap words e ∙ same,
      idle (decode_all new_decoder [] srcs).0 (rest ∙ ap left_over e ∙ none_left),
    )
