-- ===== src/Ces/Translate.antt =====
-- internal/ces/stream.go: the events that emitServerMessage makes of a message.
use sip_relay.Prelude.{
  ◌≡◌, refl, ap, Bool, true, false, not, Option, none, some, List, [], ◌∷◌, ◌++◌, ◌==◌,
  if◌then◌else◌, length,
}
use sip_relay.Backend.{EventType, Event, StreamError}
use sip_relay.Ces.{
  ServerMessage, audio_event, text_event, emit_then, emit_if, return, emit_server_message,
}

abbrev pub events_if : Bool → Event → List Event
events_if b e = if b then e ∷ [] else []

-- The events that a message stands for, in order.
abbrev pub events_of : ServerMessage → List Event
events_of (ServerMessage.session_output out) =
    events_if (not (length out.audio == 0)) (audio_event out.audio)
    ++ (events_if (not (length out.text == 0)) (text_event EventType.bot_transcript out.text)
        ++ (events_if out.turn_completed (text_event EventType.turn_complete [])
            ++ events_if out.end_session (text_event EventType.end_session [])))
events_of (ServerMessage.recognition_result words) = text_event EventType.user_transcript [] ∷ []
events_of ServerMessage.interruption_signal = text_event EventType.barge_in [] ∷ []
events_of ServerMessage.end_session = text_event EventType.end_session [] ∷ []
events_of ServerMessage.go_away = text_event EventType.go_away [] ∷ []
events_of ServerMessage.other = []

-- The error that the stream ends with after the events of a message.
abbrev pub final_of : ServerMessage → Option StreamError
final_of (ServerMessage.session_output out) =
    if out.end_session then some StreamError.agent_ended else none
final_of (ServerMessage.recognition_result words) = none
final_of ServerMessage.interruption_signal = none
final_of ServerMessage.end_session = some StreamError.agent_ended
final_of ServerMessage.go_away = some StreamError.go_away
final_of ServerMessage.other = none

module _ {S : Type 0} (emit : Event → S → S × Bool) where
  -- Events offered one after another, up to the first that is not taken.
  abbrev pub emit_all : List Event → Option StreamError → S → S × Option StreamError
  emit_all [] final s = (s, final)
  emit_all (e ∷ es) final s =
      let rest = emit_all es final (emit e s).0 in
      if (emit e s).1 then rest else ((emit e s).0, some StreamError.canceled)

  -- An optional event in front of what is offered next.
  emit_if-all :
      (b : Bool) (e : Event) (next : S → S × Option StreamError) (es : List Event)
      (final : Option StreamError)
      → ((t : S) → next t ≡ emit_all es final t)
      → (s : S) → emit_if emit b e next s ≡ emit_all (events_if b e ++ es) final s
  emit_if-all false e next es final h s = h s
  emit_if-all true e next es final h s =
      ap (λ r. if (emit e s).1 then r else ((emit e s).0, some StreamError.canceled))
        (h (emit e s).0)

  end_if-all :
      (b : Bool) (s : S)
      → (if b
            then emit_then emit
                (text_event EventType.end_session [])
                (return emit (some StreamError.agent_ended))
            else return emit none)
          s
        ≡ emit_all
            (events_if b (text_event EventType.end_session []))
            (if b then some StreamError.agent_ended else none)
            s
  end_if-all true s = refl
  end_if-all false s = refl

  -- Whatever the callback does, emitServerMessage offers it the events of the message in order, stops
  -- with context.Canceled at the first that is not taken, and else ends with the message's own error.
  pub emit_server_message-events :
      (m : ServerMessage) (s : S)
      → emit_server_message emit m s ≡ emit_all (events_of m) (final_of m) s
  unfolding emit_server_message
  emit_server_message-events (ServerMessage.session_output out) s =
      let final = final_of (ServerMessage.session_output out) in
      let last = events_if out.end_session (text_event EventType.end_session []) in
      let turn = text_event EventType.turn_complete [] in
      let text = text_event EventType.bot_transcript out.text in
      let texts = events_if (not (length out.text == 0)) text in
      let turns = events_if out.turn_completed turn ++ last in
      emit_if-all (not (length out.audio == 0)) (audio_event out.audio) _ (texts ++ turns) final
        (emit_if-all (not (length out.text == 0)) text _ turns final
          (emit_if-all out.turn_completed turn _ last final (end_if-all out.end_session)))
        s
  emit_server_message-events (ServerMessage.recognition_result words) s = refl
  emit_server_message-events ServerMessage.interruption_signal s = refl
  emit_server_message-events ServerMessage.end_session s = refl
  emit_server_message-events ServerMessage.go_away s = refl
  emit_server_message-events ServerMessage.other s = refl
