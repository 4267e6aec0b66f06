-- ===== src/Audio/Transcode.antt =====
-- internal/audio/transcoder.go: the transcoders at the border of a WebSocket. The rates are ints; the
-- fuel is the resampler's.
pub mod Each
pub mod Appending
pub mod Stream
pub mod Tests
use sip_relay.Prelude.{ℕ, Option, none, some, List, [], ◌∷◌, ◌++◌}
use sip_relay.Prelude.Int.{ℤ, pos}
use sip_relay.Audio.{Decoder, new_decoder, decode, decode_mulaw, encode_mulaw, samples_to_bytes_le}
use sip_relay.Audio.Float.{Float}
use sip_relay.Audio.Resample.{Resampler, process, new_resampler}

abbrev pub telephony_rate : ℤ
telephony_rate = pos 8000

-- `InputTranscoder`
pub record InputTranscoder (F : Type 0) : Type 0 where
  pub resampler : Resampler F

-- `OutputTranscoder`
pub record OutputTranscoder (F : Type 0) : Type 0 where
  pub decoder : Decoder
  pub resampler : Resampler F

-- What a call of Process leads to.
abbrev pub after_process :
    {F T : Type 0}
    → (Resampler F → List ℤ → T × List ℕ)
    → Option (Resampler F × List ℤ)
    → Option (T × List ℕ)
after_process next none = none
after_process next (some (r, samples)) = some (next r samples)

-- The pieces of a stream one after another, and all the bytes that come out.
abbrev pub continue_with :
    {T : Type 0} → (T → Option (T × List ℕ)) → Option (T × List ℕ) → Option (T × List ℕ)
continue_with next none = none
continue_with next (some (t, out)) = elim (next t) [
  | none ↦ none
  | some (t', rest) ↦ some (t', out ++ rest)
]

abbrev pub transcode_all :
    {T : Type 0} → (T → List ℕ → Option (T × List ℕ)) → T → List (List ℕ) → Option (T × List ℕ)
transcode_all transcode t [] = some (t, [])
transcode_all transcode t (c ∷ cs) =
    continue_with (λ t'. transcode_all transcode t' cs) (transcode t c)

module _ {F : Type 0} (float : Float F) where
  -- `NewInputTranscoder`
  unfoldable pub new_input_transcoder : ℤ → InputTranscoder F
  new_input_transcoder output_hz = record {
    resampler = new_resampler float telephony_rate output_hz;
  }

  -- `InputTranscoder.Transcode`
  unfoldable pub transcode_input :
      ℕ → InputTranscoder F → List ℕ → Option (InputTranscoder F × List ℕ)
  transcode_input fuel t mulaw_pcmu =
      let linear = decode_mulaw [] mulaw_pcmu in
      after_process (λ r resampled. (record { resampler = r }, samples_to_bytes_le [] resampled))
        (process float fuel t.resampler [] linear)

  -- `NewOutputTranscoder`
  unfoldable pub new_output_transcoder : ℤ → OutputTranscoder F
  new_output_transcoder input_hz = record {
    decoder = new_decoder;
    resampler = new_resampler float input_hz telephony_rate;
  }

  -- `OutputTranscoder.Transcode`
  unfoldable pub transcode_output :
      ℕ → OutputTranscoder F → List ℕ → Option (OutputTranscoder F × List ℕ)
  transcode_output fuel t pcm16le =
      let (decoder, samples) = decode t.decoder [] pcm16le in
      after_process
        (λ r resampled. (record { decoder = decoder; resampler = r }, encode_mulaw [] resampled))
        (process float fuel t.resampler [] samples)
