-- ===== src/Audio.antt =====
-- internal/audio: pcm.go and mulaw.go. A byte is a number below 256, an int16 an integer. `append` to the
-- slice `dst` is the append of lists.
pub mod Chunks
pub mod Nearest
pub mod Float
pub mod Lowpass
pub mod Resample
pub mod Transcode
mod Tests
use sip_relay.Prelude.{
  ℕ, zero, suc, ◌+◌, ◌-◌, ◌*◌, ◌/◌, ◌%◌, ◌^◌, Bool, true, false, Option, none, some, List, [], ◌∷◌,
  ◌++◌, ltb, leb, ◌==◌, if◌then◌else◌,
}
use sip_relay.Prelude.Int.{ℤ, pos, negsuc, pos_part, neg_part}

-- `uint16(s)` and `int16(u)`
unfoldable pub to_uint16 : ℤ → ℕ
to_uint16 (pos n) = n % 2 ^ 16
to_uint16 (negsuc n) = 2 ^ 16 - 1 - n % 2 ^ 16

unfoldable pub to_int16 : ℕ → ℤ
to_int16 u = if ltb u (2 ^ 15) then pos u else negsuc (2 ^ 16 - 1 - u)

-- `SamplesToBytesLE`
unfoldable pub samples_to_bytes_le : List ℕ → List ℤ → List ℕ
samples_to_bytes_le dst [] = dst
samples_to_bytes_le dst (s ∷ ss) =
    samples_to_bytes_le (dst ++ (to_uint16 s % 256 ∷ to_uint16 s / 256 ∷ [])) ss

-- `int16(binary.LittleEndian.Uint16(...))` of two bytes
abbrev pub word : ℕ → ℕ → ℤ
word low high = to_int16 (low + 256 * high)

-- `PCM16LEDecoder`
pub record Decoder : Type 0 where
  pub pending : ℕ
  pub has_pending : Bool

abbrev pub new_decoder : Decoder
new_decoder = record { pending = 0; has_pending = false }

-- The loop of `Decode` over whole samples, then the odd byte.
unfoldable pub pairs : Decoder → List ℤ → List ℕ → Decoder × List ℤ
pairs d dst [] = (d, dst)
pairs d dst (a ∷ []) = (record { pending = a; has_pending = true }, dst)
pairs d dst (a ∷ b ∷ src) = pairs d (dst ++ (word a b ∷ [])) src

-- `Decode` with a byte from the call before.
abbrev decode_pending : Decoder → List ℤ → List ℕ → Decoder × List ℤ
decode_pending d dst [] = (d, dst)
decode_pending d dst (b ∷ src) =
    pairs (record d { has_pending = false }) (dst ++ (word d.pending b ∷ [])) src

-- `Decode`
unfoldable pub decode : Decoder → List ℤ → List ℕ → Decoder × List ℤ
decode d dst src = if d.has_pending then decode_pending d dst src else pairs d dst src

-- `Reset`
unfoldable pub reset_decoder : Decoder → Decoder
reset_decoder d = record d { has_pending = false }

-- A stream that comes in pieces.
unfoldable pub decode_all : Decoder → List ℤ → List (List ℕ) → Decoder × List ℤ
decode_all d dst [] = (d, dst)
decode_all d dst (src ∷ srcs) = let (d', dst') = decode d dst src in decode_all d' dst' srcs

-- `decodeMulawByte`; the operators on bits as arithmetic.
abbrev mulaw_magnitude : ℕ → ℕ
mulaw_magnitude mu =
    let m = (mu % 16 * 8 + 0x84) * 2 ^ (mu / 16 % 8) - 0x84 in if ltb 32635 m then 32635 else m

abbrev negate : ℕ → ℤ
negate zero = pos 0
negate (suc n) = negsuc n

unfoldable pub decode_mulaw_byte : ℕ → ℤ
decode_mulaw_byte byte =
    let mu = 255 - byte in
    if mu / 128 == 0 then pos (mulaw_magnitude mu) else negate (mulaw_magnitude mu)

-- The absolute value of a difference.
abbrev pub distance : ℤ → ℤ → ℕ
distance a b =
    let x = pos_part a + neg_part b in
    let y = pos_part b + neg_part a in if leb y x then x - y else y - x

-- The inner loop of `init`, from byte `b` on, with the tries that are left.
unfoldable pub closest_from : (ℕ → ℕ) → ℕ → ℕ → ℕ → ℕ → ℕ
closest_from diff zero b best best_diff = best
closest_from diff (suc tries) b best best_diff =
    let better = ltb (diff b) best_diff in
    closest_from diff tries (suc b) (if better then b else best)
      (if better then diff b else best_diff)

-- `LinearToMulaw`: the entry of `mulawEncodeTable`.
unfoldable pub linear_to_mulaw : ℤ → ℕ
linear_to_mulaw sample = closest_from (λ b. distance (decode_mulaw_byte b) sample) 256 0 0 (2 ^ 30)

-- `DecodeMulaw`
unfoldable pub decode_mulaw : List ℤ → List ℕ → List ℤ
decode_mulaw dst [] = dst
decode_mulaw dst (b ∷ src) = decode_mulaw (dst ++ (decode_mulaw_byte b ∷ [])) src

-- `EncodeMulaw`
unfoldable pub encode_mulaw : List ℕ → List ℤ → List ℕ
encode_mulaw dst [] = dst
encode_mulaw dst (s ∷ src) = encode_mulaw (dst ++ (linear_to_mulaw s ∷ [])) src
