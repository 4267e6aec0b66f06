-- ===== src/Websocket/Connect/Playback.antt =====
-- internal/websocket/stream.go and internal/audio: the audio that a stream with an output transcoder
-- passes on, from the frames of the backend to the bytes for the caller.
use sip_relay.Prelude.{
  ℕ, suc, ◌*◌, ◌≤◌, ◌≡◌, refl, sym, ap, subst, ◌∙◌, inl, inr, Bool, true, false, Option, none, some,
  List, [], ◌∷◌, ◌++◌, arith, ◌==◌, if◌then◌else◌, length, append_assoc, append-nil,
}
use sip_relay.Prelude.Int.{ℤ}
use sip_relay.Backend.{Bytes, Event}
use sip_relay.Config.{WebSocketConfig}
use sip_relay.Audio.{new_decoder, decode_all, encode_mulaw}
use sip_relay.Audio.Float.{Float}
use sip_relay.Audio.Resample.{new_resampler}
use sip_relay.Audio.Resample.Positions.{IsExact}
use sip_relay.Audio.Resample.Whole.{IsResampled}
use sip_relay.Audio.Resample.Chunking.{filtered_by}
use sip_relay.Audio.Transcode.{
  telephony_rate, OutputTranscoder, new_output_transcoder, transcode_output, continue_with,
  transcode_all,
}
use sip_relay.Audio.Transcode.Stream.{transcode_output-whole}
use sip_relay.Websocket.{
  WireEvent, Kind, Emit, Stream, Next, Frame, kind_of, emit, emit_audio, recv_step, recv_loop,
}
use sip_relay.Websocket.Events.{event_of, ends_at, handle_wire-event, goes_on}
use sip_relay.Websocket.Connect.{Transcoder, new_stream}

-- Frames of which none ends the stream, while the channel takes every event.
abbrev pub GoesOn : List Frame → Type 0
GoesOn [] = Unit
GoesOn (Frame.binary_frame bytes m ∷ fs) = (m ≡ Emit.taken) × GoesOn fs
GoesOn (Frame.text_frame (some e) m ∷ fs) =
    (m ≡ Emit.taken) × (ends_at (kind_of e.type) ≡ false) × GoesOn fs
GoesOn (Frame.text_frame none m ∷ fs) = false ≡ true
GoesOn (Frame.other_frame ∷ fs) = false ≡ true
GoesOn (Frame.failed err ∷ fs) = false ≡ true

-- The audio that the backend sends.
abbrev pub binaries : List Frame → List Bytes
binaries [] = []
binaries (Frame.binary_frame bytes m ∷ fs) = bytes ∷ binaries fs
binaries (f ∷ fs) = binaries fs

-- The audio of events, together.
abbrev pub audio_of : List Event → Bytes
audio_of [] = []
audio_of (e ∷ es) = e.audio ++ audio_of es

audio_of-append : (es fs : List Event) → audio_of (es ++ fs) ≡ audio_of es ++ audio_of fs
audio_of-append [] fs = refl
audio_of-append (e ∷ es) fs =
    ap (λ t. e.audio ++ t) (audio_of-append es fs)
    ∙ sym (append_assoc e.audio (audio_of es) (audio_of fs))

event_of-silent : (k : Kind) (e : WireEvent) → audio_of (event_of k e) ≡ []
event_of-silent Kind.user_transcript e = refl
event_of-silent Kind.bot_transcript e = refl
event_of-silent Kind.bot_done e = refl
event_of-silent Kind.barge_in e = refl
event_of-silent Kind.clear e = refl
event_of-silent Kind.transfer e = refl
event_of-silent Kind.end_session e = refl
event_of-silent Kind.go_away e = refl
event_of-silent Kind.error e = refl
event_of-silent Kind.ready e = refl
event_of-silent Kind.unknown e = refl

-- The pieces of the audio through a transcoder, one after another.
abbrev pub transcode_each : {T : Type 0} → (T → Bytes → T × Bytes) → T → List Bytes → T × Bytes
transcode_each transcode t [] = (t, [])
transcode_each transcode t (b ∷ bs) =
    let (t', out) = transcode t b in
    let (t'', rest) = transcode_each transcode t' bs in (t'', out ++ rest)

module _ {T : Type 0} (transcode : T → Bytes → T × Bytes) where
  -- A step that goes on, with a transcoder in a state, and more audio emitted.
  record IsPassed (s : Stream T) (t : T) (audio : Bytes) (r : Stream T × Next) : Type 0 where
    again : r.1 ≡ Next.again
    output : r.0.output ≡ some t
    heard : audio_of r.0.emitted ≡ audio_of s.emitted ++ audio

  -- What a binary frame leads to.
  abbrev passed : Stream T → T → Bytes → Stream T × Next
  passed s t audio =
      let s' = record s { output = some t } in
      if length audio == 0 then (s', Next.again) else emit_audio audio Emit.taken s'

  audio-IsPassed : (s : Stream T) (t : T) (audio : Bytes) → IsPassed s t audio (passed s t audio)
  unfolding emit
  audio-IsPassed s t [] = record {
    again = refl;
    output = refl;
    heard = sym (append-nil (audio_of s.emitted));
  }
  audio-IsPassed s t (x ∷ xs) =
      let some_left : (suc (length xs) == 0) ≡ false = ground arith in
      rw some_left (record {
        again = refl;
        output = refl;
        heard =
            audio_of-append s.emitted _ ∙ ap (λ a. audio_of s.emitted ++ a) (append-nil (x ∷ xs));
      })

  binary-IsPassed :
      (s : Stream T) (t : T) (bytes : Bytes)
      → s.output ≡ some t
      → let (t', audio) = transcode t bytes in
        IsPassed s t' audio (recv_step transcode (Frame.binary_frame bytes Emit.taken) s)
  unfolding recv_step
  binary-IsPassed s t bytes h =
      let (t', audio) = transcode t bytes in
      let step : recv_step transcode (Frame.binary_frame bytes Emit.taken) s ≡ passed s t' audio =
        rw h refl in
      subst (IsPassed s t' audio) (sym step) (audio-IsPassed s t' audio)

  text-IsPassed :
      (s : Stream T) (t : T) (e : WireEvent)
      → s.output ≡ some t
      → ends_at (kind_of e.type) ≡ false
      → IsPassed s t [] (recv_step transcode (Frame.text_frame (some e) Emit.taken) s)
  unfolding recv_step
  text-IsPassed s t e h more =
      let k = kind_of e.type in
      let (out, same, next) = handle_wire-event k e s in
      record {
        again = elim next [ inl (ending, err) ↦ cc | inr (goes, n) ↦ n ];
        output = same ∙ h;
        heard =
            ap audio_of out
            ∙ audio_of-append s.emitted (event_of k e)
            ∙ ap (λ a. audio_of s.emitted ++ a) (event_of-silent k e);
      }

  -- When the channel takes every event and none ends the stream, recvLoop waits for more, and has
  -- emitted the audio that the transcoder makes of the binary frames.
  pub recv_loop-audio :
      (fs : List Frame) (s : Stream T) (t : T)
      → GoesOn fs
      → s.output ≡ some t
      → let r = recv_loop transcode fs s in
        let (t', audio) = transcode_each transcode t (binaries fs) in
        (r.1 ≡ true) × (r.0.output ≡ some t') × (audio_of r.0.emitted ≡ audio_of s.emitted ++ audio)
  unfolding recv_loop
  recv_loop-audio [] s t h o = (refl, o, sym (append-nil (audio_of s.emitted)))
  recv_loop-audio (Frame.binary_frame bytes m ∷ fs) s t h o =
      let f = Frame.binary_frame bytes Emit.taken in
      let (t', audio) = transcode t bytes in
      let p = binary-IsPassed s t bytes o in
      let (waits, output, heard) = recv_loop-audio fs (recv_step transcode f s).0 t' h.1 p.output in
      let next = goes_on transcode f fs s p.again in
      let last = (transcode_each transcode t' (binaries fs)).1 in
      subst
        (λ m'.
          let r = recv_loop transcode (Frame.binary_frame bytes m' ∷ fs) s in
          (r.1 ≡ true)
          × (r.0.output ≡ some (transcode_each transcode t' (binaries fs)).0)
          × (audio_of r.0.emitted ≡ audio_of s.emitted ++ (audio ++ last)))
        (sym h.0)
        (
          ap (λ r. r.1) next ∙ waits,
          ap (λ (r : Stream T × Bool). r.0.output) next ∙ output,
          ap (λ (r : Stream T × Bool). audio_of r.0.emitted) next
              ∙ heard
              ∙ ap (λ a. a ++ last) p.heard
              ∙ append_assoc (audio_of s.emitted) audio last,
        )
  recv_loop-audio (Frame.text_frame (some e) m ∷ fs) s t h o =
      let f = Frame.text_frame (some e) Emit.taken in
      let p = text-IsPassed s t e o h.1 in
      let (waits, output, heard) = recv_loop-audio fs (recv_step transcode f s).0 t h.2 p.output in
      let next = goes_on transcode f fs s p.again in
      let (last, audio) = transcode_each transcode t (binaries fs) in
      subst
        (λ m'.
          let r = recv_loop transcode (Frame.text_frame (some e) m' ∷ fs) s in
          (r.1 ≡ true)
          × (r.0.output ≡ some last)
          × (audio_of r.0.emitted ≡ audio_of s.emitted ++ audio))
        (sym h.0)
        (
          ap (λ r. r.1) next ∙ waits,
          ap (λ (r : Stream T × Bool). r.0.output) next ∙ output,
          ap (λ (r : Stream T × Bool). audio_of r.0.emitted) next
              ∙ heard
              ∙ ap (λ a. a ++ audio) (p.heard ∙ append-nil (audio_of s.emitted)),
        )
  recv_loop-audio (Frame.text_frame none m ∷ fs) s t h o = absurd (ground arith)
  recv_loop-audio (Frame.other_frame ∷ fs) s t h o = absurd (ground arith)
  recv_loop-audio (Frame.failed err ∷ fs) s t h o = absurd (ground arith)

module _ {F : Type 0} (float : Float F) (fuel : ℕ) where
  abbrev pub or_nothing :
      OutputTranscoder F → Option (OutputTranscoder F × Bytes) → Transcoder F × Bytes
  or_nothing t none = (inr t, [])
  or_nothing t (some (t', audio)) = (inr t', audio)

  -- `s.outputTranscoder.Transcode`, with nothing in place of a result that the fuel is too small for.
  abbrev pub transcode_frame : Transcoder F → Bytes → Transcoder F × Bytes
  transcode_frame (inl t) bytes = (inl t, [])
  transcode_frame (inr t) bytes = or_nothing t (transcode_output float fuel t bytes)

  abbrev behind : Bytes → Transcoder F × Bytes → Transcoder F × Bytes
  behind first (t, rest) = (t, first ++ rest)

  Returns : List Bytes → Type 0
  Returns bs =
      (t t' : OutputTranscoder F) (out : Bytes)
      → transcode_all (transcode_output float fuel) t bs ≡ some (t', out)
      → transcode_each transcode_frame (inr t) bs ≡ (inr t', out)

  module _ (bs : List Bytes) (ih : Returns bs) (t' : OutputTranscoder F) (out : Bytes) where
    rest-returns :
        (t : OutputTranscoder F) (first : Bytes) (x : Option (OutputTranscoder F × Bytes))
        → transcode_all (transcode_output float fuel) t bs ≡ x
        → continue_with (λ q. x) (some (t, first)) ≡ some (t', out)
        → behind first (transcode_each transcode_frame (inr t) bs) ≡ (inr t', out)
    unfolding Returns
    rest-returns t first none e h = absurd (ground arith)
    rest-returns t first (some (u, rest)) e h = rw (ih t u rest e) cc

    piece-returns :
        (t : OutputTranscoder F) (x : Option (OutputTranscoder F × Bytes))
        → continue_with (λ q. transcode_all (transcode_output float fuel) q bs) x ≡ some (t', out)
        → let (u, first) = or_nothing t x in
          behind first (transcode_each transcode_frame u bs) ≡ (inr t', out)
    piece-returns t none h = absurd (ground arith)
    piece-returns t (some (u, first)) h = rest-returns u first _ refl h

  each-all : (bs : List Bytes) → Returns bs
  unfolding Returns
  each-all [] t t' out h = cc
  each-all (b ∷ bs) t t' out h =
      piece-returns bs (each-all bs) t' out t (transcode_output float fuel t b) h

  -- When the positions of the conversion are computed exactly, a stream that was just dialed, with its
  -- output transcoded, has after any frames of which none ends it, and whose events the channel takes,
  -- emitted the audio of one conversion: the binary frames decoded over their borders, filtered and
  -- interpolated as one stream of samples, and encoded as mu-law. recvLoop then waits for more.
  pub recv_loop-whole :
      (conf : WebSocketConfig)
      (exact : IsExact float
        (new_resampler float conf.transcode.output.sample_rate telephony_rate).ratio)
      (fs : List Frame)
      → conf.transcode.output.enabled ≡ true
      → GoesOn fs
      → let samples = (decode_all new_decoder [] (binaries fs)).1 in
        length samples * exact.den ≤ fuel
        → let r = recv_loop transcode_frame fs (new_stream float conf) in
          (out : List ℤ) × (r.1 ≡ true)
          × (audio_of r.0.emitted ≡ encode_mulaw [] out)
          × IsResampled float exact
              (filtered_by float
                (new_resampler float conf.transcode.output.sample_rate telephony_rate).lp
                samples)
              out
  unfolding new_stream Returns
  recv_loop-whole conf exact fs on goes enough =
      let hz = conf.transcode.output.sample_rate in
      let t = new_output_transcoder float hz in
      let (last, out, result, whole) =
        transcode_output-whole float hz exact fuel (binaries fs) enough in
      let set : (new_stream float conf).output ≡ some (inr t) = rw on refl in
      let (waits, output, heard) =
        recv_loop-audio transcode_frame fs (new_stream float conf) (inr t) goes set in
      (
        out,
        waits,
        heard ∙ ap (λ r. r.1) (each-all (binaries fs) t last (encode_mulaw [] out) result),
        whole,
      )
