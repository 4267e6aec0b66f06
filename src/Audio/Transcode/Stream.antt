-- ===== src/Audio/Transcode/Stream.antt =====
-- internal/audio/transcoder.go: the transcoders over a stream that comes in pieces.
use sip_relay.Prelude.{
  ℕ, ◌*◌, ◌≤◌, ◌≡◌, refl, sym, ap, subst, ◌∙◌, Option, none, some, List, [], ◌∷◌, ◌++◌, map, length,
  concat, append_assoc, append-nil,
}
use sip_relay.Prelude.Int.{ℤ}
use sip_relay.Audio.{
  Decoder, new_decoder, samples_to_bytes_le, decode, decode_all, decode_mulaw, encode_mulaw,
}
use sip_relay.Audio.Float.{Float}
use sip_relay.Audio.Resample.{Resampler, process, new_resampler}
use sip_relay.Audio.Resample.Positions.{IsExact}
use sip_relay.Audio.Resample.Whole.{IsResampled}
use sip_relay.Audio.Resample.Chunking.{filtered_by, IsResampled-whole}
use sip_relay.Audio.Transcode.{
  telephony_rate, InputTranscoder, OutputTranscoder, new_input_transcoder, transcode_input,
  new_output_transcoder, transcode_output, after_process, continue_with, transcode_all,
}
use sip_relay.Audio.Transcode.Each.{joined, then_join, process_each, process_each-process_all}
use sip_relay.Audio.Transcode.Appending.{
  samples_to_bytes_le-append, decode_mulaw-append, encode_mulaw-append, decode-behind,
}

module _ {F : Type 0} (float : Float F) where
  module _ {T : Type 0} (wrap : Resampler F → T) (g : List ℤ → List ℕ) where
    abbrev lift : Option (Resampler F × List ℕ) → Option (T × List ℕ)
    lift none = none
    lift (some (r, bytes)) = some (wrap r, bytes)

  -- One piece, and then the others: `first` is the transcoder after the piece, `last` after all.
  module _ {T : Type 0} (first last : Resampler F → T) (g : List ℤ → List ℕ)
      (go : T → Option (T × List ℕ)) (each : Resampler F → Option (Resampler F × List ℕ))
      (rest : (r : Resampler F) → go (first r) ≡ lift last g (each r)) where
    lift-joined :
        (t : Resampler F) (out : List ℤ) (x : Option (Resampler F × List ℕ))
        → go (first t) ≡ lift last g x
        → continue_with go (some (first t, g out)) ≡ lift last g (joined float g (g out) x)
    lift-joined t out none h = rw (h, continue_with) refl
    lift-joined t out (some (r, bytes)) h = rw (h, continue_with) refl

    lift-then_join :
        (o : Option (Resampler F × List ℤ))
        → continue_with go (after_process (λ r out. (first r, g out)) o)
          ≡ lift last g (then_join float g each o)
    lift-then_join none = refl
    lift-then_join (some (r, out)) = lift-joined r out (each r) (rest r)

  wrap_input : Resampler F → InputTranscoder F
  wrap_input r = record { resampler = r }

  inputs-each :
      (fuel : ℕ) (r : Resampler F) (pieces : List (List ℕ))
      → transcode_all (transcode_input float fuel) (record { resampler = r }) pieces
        ≡ lift
            (λ q. record { resampler = q })
            (samples_to_bytes_le [])
            (process_each float (samples_to_bytes_le []) fuel r (map (decode_mulaw []) pieces))
  unfolding transcode_input wrap_input
  inputs-each fuel r [] = refl
  inputs-each fuel r (p ∷ ps) =
      let g = samples_to_bytes_le [] in
      lift-then_join wrap_input wrap_input g (λ t. transcode_all (transcode_input float fuel) t ps)
        (λ q. process_each float g fuel q (map (decode_mulaw []) ps)) (λ q. inputs-each fuel q ps)
        (process float fuel r [] (decode_mulaw [] p))

  abbrev sample_chunks : Decoder → List (List ℕ) → List (List ℤ)
  sample_chunks d [] = []
  sample_chunks d (p ∷ ps) = let (d', samples) = decode d [] p in samples ∷ sample_chunks d' ps

  abbrev last_decoder : Decoder → List (List ℕ) → Decoder
  last_decoder d [] = d
  last_decoder d (p ∷ ps) = last_decoder (decode d [] p).0 ps

  wrap_output : Decoder → Resampler F → OutputTranscoder F
  wrap_output d r = record { decoder = d; resampler = r }

  outputs-each :
      (fuel : ℕ) (d : Decoder) (r : Resampler F) (pieces : List (List ℕ))
      → transcode_all (transcode_output float fuel) (wrap_output d r) pieces
        ≡ lift
            (wrap_output (last_decoder d pieces))
            (encode_mulaw [])
            (process_each float (encode_mulaw []) fuel r (sample_chunks d pieces))
  unfolding transcode_output wrap_output
  outputs-each fuel d r [] = refl
  outputs-each fuel d r (p ∷ ps) =
      let g = encode_mulaw [] in
      let (d', samples) = decode d [] p in
      lift-then_join (wrap_output d') (wrap_output (last_decoder d' ps)) g
        (λ t. transcode_all (transcode_output float fuel) t ps)
        (λ q. process_each float g fuel q (sample_chunks d' ps)) (λ q. outputs-each fuel d' q ps)
        (process float fuel r [] samples)

  -- The samples of the pieces together.
  samples-decode_all :
      (d : Decoder) (dst : List ℤ) (pieces : List (List ℕ))
      → (decode_all d dst pieces).1 ≡ dst ++ concat (sample_chunks d pieces)
  unfolding decode_all
  samples-decode_all d dst [] = sym (append-nil dst)
  samples-decode_all d dst (p ∷ ps) =
      let (d', samples) = decode d [] p in
      ap (λ (x : Decoder × List ℤ). (decode_all x.0 x.1 ps).1) (decode-behind d dst p)
      ∙ samples-decode_all d' (dst ++ samples) ps
      ∙ append_assoc dst samples (concat (sample_chunks d' ps))

  samples-decode_mulaw :
      (pieces : List (List ℕ))
      → concat (map (decode_mulaw []) pieces) ≡ decode_mulaw [] (concat pieces)
  unfolding decode_mulaw
  samples-decode_mulaw [] = refl
  samples-decode_mulaw (p ∷ ps) =
      ap (λ t. decode_mulaw [] p ++ t) (samples-decode_mulaw ps)
      ∙ sym (decode_mulaw-append p (concat ps))

  -- When the positions of the conversion are computed exactly, an input transcoder gives, for mu-law
  -- audio in any pieces, the PCM bytes of the resampled whole: the audio decoded, filtered and
  -- interpolated as one stream. With fuel for its length every call returns.
  pub transcode_input-whole :
      (output_hz : ℤ) (exact : IsExact float (new_resampler float telephony_rate output_hz).ratio)
      (fuel : ℕ) (pieces : List (List ℕ))
      → let stream = decode_mulaw [] (concat pieces) in
        length stream * exact.den ≤ fuel
        → (t : InputTranscoder F) × (out : List ℤ) × (transcode_all
              (transcode_input float fuel)
              (new_input_transcoder float output_hz)
              pieces
            ≡ some (t, samples_to_bytes_le [] out))
          × IsResampled float exact
              (filtered_by float (new_resampler float telephony_rate output_hz).lp stream)
              out
  unfolding new_input_transcoder wrap_input samples_to_bytes_le
  transcode_input-whole output_hz exact fuel pieces h =
      let g = samples_to_bytes_le [] in
      let r = new_resampler float telephony_rate output_hz in
      let chunks = map (decode_mulaw []) pieces in
      let same = samples-decode_mulaw pieces in
      let (t, u, out, result, again, v) =
        IsResampled-whole float telephony_rate output_hz exact fuel chunks chunks refl
          (subst (λ s. length s * exact.den ≤ fuel) (sym same) h) in
      let (bytes, each, equal) =
        process_each-process_all float g samples_to_bytes_le-append fuel r [] chunks t out result in
      (
        wrap_input t,
        out,
        inputs-each fuel r pieces
            ∙ ap (lift wrap_input g) (each ∙ ap (λ b. some (t, b)) (sym equal)),
        subst (λ s. IsResampled float exact (filtered_by float r.lp s) out) same v,
      )

  -- When the positions of the conversion are computed exactly, an output transcoder gives, for PCM bytes
  -- in any pieces, the mu-law bytes of the resampled whole: the samples decoded over the borders of
  -- the pieces, filtered and interpolated as one stream. With fuel for its length every call returns.
  pub transcode_output-whole :
      (input_hz : ℤ) (exact : IsExact float (new_resampler float input_hz telephony_rate).ratio)
      (fuel : ℕ) (pieces : List (List ℕ))
      → let stream = (decode_all new_decoder [] pieces).1 in
        length stream * exact.den ≤ fuel
        → (t : OutputTranscoder F) × (out : List ℤ) × (transcode_all
              (transcode_output float fuel)
              (new_output_transcoder float input_hz)
              pieces
            ≡ some (t, encode_mulaw [] out))
          × IsResampled float exact
              (filtered_by float (new_resampler float input_hz telephony_rate).lp stream)
              out
  unfolding new_output_transcoder wrap_output encode_mulaw
  transcode_output-whole input_hz exact fuel pieces h =
      let g = encode_mulaw [] in
      let r = new_resampler float input_hz telephony_rate in
      let chunks = sample_chunks new_decoder pieces in
      let same = samples-decode_all new_decoder [] pieces in
      let (t, u, out, result, again, v) =
        IsResampled-whole float input_hz telephony_rate exact fuel chunks chunks refl
          (subst (λ s. length s * exact.den ≤ fuel) same h) in
      let (bytes, each, equal) =
        process_each-process_all float g encode_mulaw-append fuel r [] chunks t out result in
      (
        wrap_output (last_decoder new_decoder pieces) t,
        out,
        outputs-each fuel new_decoder r pieces
            ∙ ap (lift (wrap_output (last_decoder new_decoder pieces)) g)
                (each ∙ ap (λ b. some (t, b)) (sym equal)),
        subst (λ s. IsResampled float exact (filtered_by float r.lp s) out) (sym same) v,
      )
