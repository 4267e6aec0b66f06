-- ===== src/Audio/Tests.antt =====
-- Two samples in three messages, and two bytes of mu-law audio.
use sip_relay.Prelude.{ℕ, ◌≡◌, ◌≤◌, ◌<◌, refl, false, List, [], ◌∷◌, arith, concat}
use sip_relay.Prelude.Int.{ℤ, pos, negsuc}
use sip_relay.Audio.{
  new_decoder, to_uint16, samples_to_bytes_le, decode_all, distance, decode_mulaw_byte,
  linear_to_mulaw,
}
use sip_relay.Audio.Chunks.{decode_all-samples_to_bytes_le}
use sip_relay.Audio.Nearest.{linear_to_mulaw-nearest}

abbrev samples : List ℤ
samples = pos 258 ∷ negsuc 0 ∷ []

abbrev messages : List (List ℕ)
messages = (2 ∷ []) ∷ (1 ∷ 255 ∷ []) ∷ (255 ∷ []) ∷ []

whole : concat messages ≡ samples_to_bytes_le [] samples
unfolding samples_to_bytes_le to_uint16
whole = refl

decode_all-samples_to_bytes_le_example :
    let r = decode_all new_decoder [] messages in (r.1 ≡ samples) × (r.0.has_pending ≡ false)
decode_all-samples_to_bytes_le_example =
    decode_all-samples_to_bytes_le samples messages (omega arith, (omega arith, tt)) whole

linear_to_mulaw-nearest_example :
    (linear_to_mulaw (pos 1000) < 256)
    × ((c : ℕ)
        → c < 256
        → distance (decode_mulaw_byte (linear_to_mulaw (pos 1000))) (pos 1000)
          ≤ distance (decode_mulaw_byte c) (pos 1000))
linear_to_mulaw-nearest_example = linear_to_mulaw-nearest (pos 1000) (omega arith)
