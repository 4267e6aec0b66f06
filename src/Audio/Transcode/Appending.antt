-- ===== src/Audio/Transcode/Appending.antt =====
-- internal/audio: the codecs append to a slice what each element stands for.
use sip_relay.Prelude.{
  ℕ, ◌/◌, ◌%◌, ◌≡◌, refl, sym, ap, ◌∙◌, Bool, true, false, List, [], ◌∷◌, ◌++◌, if◌then◌else◌,
  append_assoc, append-nil,
}
use sip_relay.Prelude.Int.{ℤ}
use sip_relay.Audio.{
  Decoder, to_uint16, samples_to_bytes_le, pairs, decode_pending, decode, word, decode_mulaw_byte,
  decode_mulaw, linear_to_mulaw, encode_mulaw,
}

-- A loop that appends `piece x` to a slice for each x.
module _ {A B : Type 0} (piece : A → List B) (f : List B → List A → List B)
    (at_nil : (dst : List B) → f dst [] ≡ dst)
    (at_cons : (dst : List B) (x : A) (xs : List A) → f dst (x ∷ xs) ≡ f (dst ++ piece x) xs) where
  pub appends : (dst : List B) (xs : List A) → f dst xs ≡ dst ++ f [] xs
  appends dst [] = at_nil dst ∙ sym (append-nil dst) ∙ ap (λ t. dst ++ t) (sym (at_nil []))
  appends dst (x ∷ xs) =
      at_cons dst x xs
      ∙ appends (dst ++ piece x) xs
      ∙ append_assoc dst (piece x) (f [] xs)
      ∙ ap (λ t. dst ++ t) (sym (appends (piece x) xs) ∙ sym (at_cons [] x xs))

  pub distributes : (xs ys : List A) → f [] (xs ++ ys) ≡ f [] xs ++ f [] ys
  distributes [] ys = ap (λ t. t ++ f [] ys) (sym (at_nil []))
  distributes (x ∷ xs) ys =
      at_cons [] x (xs ++ ys)
      ∙ appends (piece x) (xs ++ ys)
      ∙ ap (λ t. piece x ++ t) (distributes xs ys)
      ∙ sym (append_assoc (piece x) (f [] xs) (f [] ys))
      ∙ ap (λ t. t ++ f [] ys) (sym (appends (piece x) xs) ∙ sym (at_cons [] x xs))

pub samples_to_bytes_le-append :
    (xs ys : List ℤ)
    → samples_to_bytes_le [] (xs ++ ys) ≡ samples_to_bytes_le [] xs ++ samples_to_bytes_le [] ys
unfolding samples_to_bytes_le
samples_to_bytes_le-append xs ys =
    distributes (λ s. to_uint16 s % 256 ∷ to_uint16 s / 256 ∷ []) samples_to_bytes_le (λ dst. refl)
      (λ dst x rest. refl) xs ys

pub decode_mulaw-append :
    (xs ys : List ℕ) → decode_mulaw [] (xs ++ ys) ≡ decode_mulaw [] xs ++ decode_mulaw [] ys
unfolding decode_mulaw
decode_mulaw-append xs ys =
    distributes (λ b. decode_mulaw_byte b ∷ []) decode_mulaw (λ dst. refl) (λ dst x rest. refl) xs
      ys

pub encode_mulaw-append :
    (xs ys : List ℤ) → encode_mulaw [] (xs ++ ys) ≡ encode_mulaw [] xs ++ encode_mulaw [] ys
unfolding encode_mulaw
encode_mulaw-append xs ys =
    distributes (λ s. linear_to_mulaw s ∷ []) encode_mulaw (λ dst. refl) (λ dst x rest. refl) xs ys

-- What is decoded stands behind what was there.
abbrev pub decoded_behind : List ℤ → Decoder × List ℤ → Decoder × List ℤ
decoded_behind dst (d, out) = (d, dst ++ out)

pairs-behind :
    (d : Decoder) (dst out : List ℤ) (src : List ℕ)
    → pairs d (dst ++ out) src ≡ decoded_behind dst (pairs d out src)
unfolding pairs
pairs-behind d dst out [] = refl
pairs-behind d dst out (a ∷ []) = refl
pairs-behind d dst out (a ∷ b ∷ src) =
    ap (λ t. pairs d t src) (append_assoc dst out (word a b ∷ []))
    ∙ pairs-behind d dst (out ++ (word a b ∷ [])) src

decode_pending-behind :
    (d : Decoder) (dst : List ℤ) (src : List ℕ)
    → decode_pending d dst src ≡ decoded_behind dst (decode_pending d [] src)
decode_pending-behind d dst [] = ap (λ t. (d, t)) (sym (append-nil dst))
decode_pending-behind d dst (b ∷ src) =
    pairs-behind (record d { has_pending = false }) dst (word d.pending b ∷ []) src

decoded-if :
    (b : Bool) (dst : List ℤ) (o o' p p' : Decoder × List ℤ)
    → o ≡ decoded_behind dst o'
    → p ≡ decoded_behind dst p'
    → (if b then o else p) ≡ decoded_behind dst (if b then o' else p')
decoded-if true dst o o' p p' h k = h
decoded-if false dst o o' p p' h k = k

pub decode-behind :
    (d : Decoder) (dst : List ℤ) (src : List ℕ)
    → decode d dst src ≡ decoded_behind dst (decode d [] src)
unfolding decode
decode-behind d dst src =
    decoded-if d.has_pending dst _ _ _ _ (decode_pending-behind d dst src)
      (ap (λ t. pairs d t src) (sym (append-nil dst)) ∙ pairs-behind d dst [] src)
