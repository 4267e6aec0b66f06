-- ===== src/Websocket/Events.antt =====
-- The events that recvLoop passes on.
use sip_relay.Prelude.{
  ◌≡◌, refl, sym, ap, subst, ◌∙◌, Bool, true, false, Option, none, some, List, [], ◌∷◌, ◌++◌, arith,
  if◌then◌else◌, append_assoc, append-nil, ◌⊎◌, inl, inr,
}
use sip_relay.Backend.{Bytes, EventType, Event, StreamError}
use sip_relay.Websocket.{
  WireEvent, Kind, Emit, Stream, Next, Frame, kind_of, plain_event, finish, emit, handle_wire,
  recv_step, after_step, recv_loop,
}

-- The event that a wire event stands for.
abbrev pub event_of : Kind → WireEvent → List Event
event_of Kind.user_transcript e = plain_event EventType.user_transcript [] e.text ∷ []
event_of Kind.bot_transcript e = plain_event EventType.bot_transcript [] e.delta ∷ []
event_of Kind.bot_done e = plain_event EventType.turn_complete [] [] ∷ []
event_of Kind.barge_in e = plain_event EventType.barge_in [] [] ∷ []
event_of Kind.clear e = plain_event EventType.barge_in [] [] ∷ []
event_of Kind.transfer e = plain_event EventType.transfer [] [] ∷ []
event_of Kind.end_session e = plain_event EventType.end_session [] [] ∷ []
event_of Kind.go_away e = plain_event EventType.go_away [] [] ∷ []
event_of Kind.error e = []
event_of Kind.ready e = []
event_of Kind.unknown e = []

-- Whether the stream ends with a wire event.
abbrev pub ends_at : Kind → Bool
ends_at Kind.transfer = true
ends_at Kind.end_session = true
ends_at Kind.go_away = true
ends_at Kind.error = true
ends_at Kind.ready = true
ends_at _ = false

-- The events of the frames up to the one that ends the stream, without transcoding.
abbrev pub translated : List Frame → List Event
translated [] = []
translated (Frame.failed err ∷ fs) = []
translated (Frame.other_frame ∷ fs) = []
translated (Frame.text_frame none m ∷ fs) = []
translated (Frame.text_frame (some e) m ∷ fs) =
    let rest = translated fs in
    event_of (kind_of e.type) e ++ (if ends_at (kind_of e.type) then [] else rest)
translated (Frame.binary_frame bytes m ∷ fs) = plain_event EventType.audio bytes [] ∷ translated fs

-- The channel takes every event.
abbrev pub AllTaken : List Frame → Type 0
AllTaken [] = Unit
AllTaken (Frame.text_frame e m ∷ fs) = (m ≡ Emit.taken) × AllTaken fs
AllTaken (Frame.binary_frame bytes m ∷ fs) = (m ≡ Emit.taken) × AllTaken fs
AllTaken (f ∷ fs) = AllTaken fs

module _ {T : Type 0} where
  finish-emitted : (err : Option StreamError) (s : Stream T) → (finish err s).emitted ≡ s.emitted
  unfolding finish
  finish-emitted err s = ground arith

  -- A wire event that the channel takes.
  pub handle_wire-event :
      (k : Kind) (e : WireEvent) (s : Stream T)
      → let r = handle_wire k e Emit.taken s in
        (r.0.emitted ≡ s.emitted ++ event_of k e)
        × (r.0.output ≡ s.output)
        × (((ends_at k ≡ true) × ((err : Option StreamError) × (r.1 ≡ Next.finish_with err)))
            ⊎ ((ends_at k ≡ false) × (r.1 ≡ Next.again)))
  unfolding handle_wire emit
  handle_wire-event Kind.user_transcript e s = (refl, refl, inr (refl, refl))
  handle_wire-event Kind.bot_transcript e s = (refl, refl, inr (refl, refl))
  handle_wire-event Kind.bot_done e s = (refl, refl, inr (refl, refl))
  handle_wire-event Kind.barge_in e s = (refl, refl, inr (refl, refl))
  handle_wire-event Kind.clear e s = (refl, refl, inr (refl, refl))
  handle_wire-event Kind.transfer e s = (refl, refl, inl (refl, (some StreamError.transfer, refl)))
  handle_wire-event Kind.end_session e s =
      (refl, refl, inl (refl, (some StreamError.agent_ended, refl)))
  handle_wire-event Kind.go_away e s = (refl, refl, inl (refl, (some StreamError.go_away, refl)))
  handle_wire-event Kind.error e s =
      (sym (append-nil s.emitted), refl, inl (refl, (some StreamError.other, refl)))
  handle_wire-event Kind.ready e s =
      (sym (append-nil s.emitted), refl, inl (refl, (some StreamError.other, refl)))
  handle_wire-event Kind.unknown e s = (sym (append-nil s.emitted), refl, inr (refl, refl))

  module _ (decode : T → Bytes → T × Bytes) where
    pub goes_on :
        (f : Frame) (fs : List Frame) (s : Stream T)
        → (recv_step decode f s).1 ≡ Next.again
        → recv_loop decode (f ∷ fs) s ≡ recv_loop decode fs (recv_step decode f s).0
    unfolding recv_loop
    goes_on f fs s h =
        let t = (recv_step decode f s).0 in ap (λ n. after_step t n (recv_loop decode fs t)) h

    stops :
        (f : Frame) (fs : List Frame) (s : Stream T) (err : Option StreamError)
        → (recv_step decode f s).1 ≡ Next.finish_with err
        → (recv_loop decode (f ∷ fs) s).0.emitted ≡ (recv_step decode f s).0.emitted
    unfolding recv_loop
    stops f fs s err h =
        let t = (recv_step decode f s).0 in
        ap (λ n. (after_step t n (recv_loop decode fs t)).0.emitted) h ∙ finish-emitted err t

    -- When the channel takes every event, recvLoop without transcoding emits, in order, the events that
    -- the frames stand for, up to the frame that ends the stream: audio for each binary frame, and the
    -- event of each text frame of a known type.
    pub recv_loop-translated :
        (fs : List Frame) (s : Stream T)
        → AllTaken fs
        → s.output ≡ none
        → (recv_loop decode fs s).0.emitted ≡ s.emitted ++ translated fs
    unfolding recv_loop recv_step emit
    recv_loop-translated [] s h o = sym (append-nil s.emitted)
    recv_loop-translated (Frame.failed err ∷ fs) s h o =
        stops (Frame.failed err) fs s (some err) refl ∙ sym (append-nil s.emitted)
    recv_loop-translated (Frame.other_frame ∷ fs) s h o =
        stops Frame.other_frame fs s (some StreamError.other) refl ∙ sym (append-nil s.emitted)
    recv_loop-translated (Frame.text_frame none m ∷ fs) s h o =
        stops (Frame.text_frame none m) fs s (some StreamError.other) refl
        ∙ sym (append-nil s.emitted)
    recv_loop-translated (Frame.text_frame (some e) m ∷ fs) s h o =
        let k = kind_of e.type in
        let f = Frame.text_frame (some e) Emit.taken in
        let t = (handle_wire k e Emit.taken s).0 in
        let (out, same, next) = handle_wire-event k e s in
        subst
          (λ m.
            (recv_loop decode (Frame.text_frame (some e) m ∷ fs) s).0.emitted
            ≡ s.emitted ++ (event_of k e ++ (if ends_at k then [] else translated fs)))
          (sym h.0)
          (elim next [
            | inl (ending, (err, n)) ↦ rw ending (
                stops f fs s err n
                ∙ out
                ∙ ap (λ t. s.emitted ++ t) (sym (append-nil (event_of k e))))
            | inr (more, n) ↦ rw more (
                ap (λ (r : Stream T × Bool). r.0.emitted) (goes_on f fs s n)
                ∙ recv_loop-translated fs t h.1 (same ∙ o)
                ∙ ap (λ t. t ++ translated fs) out
                ∙ append_assoc s.emitted (event_of k e) (translated fs))
          ])
    recv_loop-translated (Frame.binary_frame bytes m ∷ fs) s h o =
        let audio = plain_event EventType.audio bytes [] in
        let t : Stream T = record s { emitted = s.emitted ++ (audio ∷ []) } in
        let taken : recv_step decode (Frame.binary_frame bytes Emit.taken) s ≡ (t, Next.again) =
          rw o refl in
        subst
          (λ m.
            (recv_loop decode (Frame.binary_frame bytes m ∷ fs) s).0.emitted
            ≡ s.emitted ++ (audio ∷ translated fs))
          (sym h.0)
          (ap (λ (r : Stream T × Bool). r.0.emitted)
              (goes_on (Frame.binary_frame bytes Emit.taken) fs s (ap (λ r. r.1) taken))
            ∙ ap (λ (r : Stream T × Next). (recv_loop decode fs r.0).0.emitted) taken
            ∙ recv_loop-translated fs t h.1 o
            ∙ append_assoc s.emitted (audio ∷ []) (translated fs))
