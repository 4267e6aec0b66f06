-- ===== src/Ces/Tests.antt =====
-- Examples of the CES backend.
use text.Mathlib.Text.{◌==◌ as str_eq}
use sip_relay.Prelude.{
  ℕ, zero, suc, ◌+◌, ◌≤◌, ◌≡◌, ◌≢◌, refl, ◌⊎◌, Bool, true, false, none, some, List, [], ◌∷◌, ◌++◌,
  arith, ltb, length, length-append,
}
use sip_relay.Backend.{EventType, Event, StreamError}
use sip_relay.Config.{CesConfig}
use sip_relay.Relay.{new_receiver, receive_backend}
use sip_relay.Relay.Transcript.{bot_words, user_texts, bot_said}
use sip_relay.Ces.{
  ServerMessage, text_event, emit_server_message, ClientMessage, new_config_message,
  initial_text_input, Library, undialed, dial_grpc, session_resource, deployment_resource,
}
use sip_relay.Ces.Translate.{events_of, final_of, emit_all, emit_server_message-events}
use sip_relay.Ces.Opening.{answers_well, IsTidy, dial_grpc_lem}
use sip_relay.Ces.Stream.{Receiving, events_cap, Stream, new_stream, Step, Run}
use sip_relay.Ces.Ending.{IsSettled, new_stream-IsSettled}
use sip_relay.Ces.Closing.{CanStep, work, canceled_stream_ends}
use sip_relay.Ces.Hanging.{closed_stream_may_hang}
use sip_relay.Ces.Words.{met, emit_each, all_text, bot_words_only}

-- A callback that takes two events and counts what it is offered.
abbrev take_two : Event → ℕ → ℕ × Bool
take_two e n = (n + 1, ltb n 2)

abbrev farewell : ServerMessage
farewell = ServerMessage.session_output (record {
  audio = 127 ∷ 128 ∷ [];
  text = b'b' ∷ b'y' ∷ b'e' ∷ [];
  turn_completed = false;
  end_session = true;
})

emit_server_message-events_example :
    emit_server_message take_two farewell 0
    ≡ emit_all take_two (events_of farewell) (final_of farewell) 0
emit_server_message-events_example = emit_server_message-events take_two farewell 0

third_refused : emit_server_message take_two farewell 0 ≡ (3, some StreamError.canceled)
unfolding emit_server_message
third_refused = refl

abbrev conf : CesConfig
conf = record {
  project_id = "p";
  location = "eu";
  app_id = "a";
  deployment_id = "";
  endpoint = "ces.googleapis.com:443";
  credentials_file = "";
  session_prefix = "";
  noise_suppression_level = "";
  time_zone = "";
  use_tool_fakes = false;
}

resources :
    (session_resource conf "s1" ≡ "projects/p/locations/eu/apps/a/sessions/s1")
    × (deployment_resource conf ≡ "")
    × (deployment_resource (record conf { deployment_id = "d" })
        ≡ "projects/p/locations/eu/apps/a/deployments/d")
unfolding session_resource deployment_resource
resources = (refl, refl, refl)

-- A library that opens sessions in one region only.
abbrev regional : Library
regional = record {
  new_client = λ options. true;
  open_session = λ params. str_eq params "location=locations/eu";
  takes = λ m. true;
}

dial_grpc_lem_example :
    let r = dial_grpc regional conf "s1" undialed in
    (r.1 ≡ answers_well regional conf "s1")
    × IsTidy r
    × (r.1 ≡ true
        → r.0.sent
          ≡ new_config_message conf "s1" ∷ ClientMessage.text_message initial_text_input ∷ [])
dial_grpc_lem_example = dial_grpc_lem regional conf "s1"

-- A stream that waits with n interruptions in its channel.
abbrev barge_in : Event
barge_in = text_event EventType.barge_in []

abbrev barges : ℕ → List Event
barges zero = []
barges (suc n) = barges n ++ (barge_in ∷ [])

length-barges : (n : ℕ) → length (barges n) ≡ n
length-barges zero = refl
length-barges (suc n) = omega (arith, length-append (barges n) (barge_in ∷ []), length-barges n)

abbrev with_barges : ℕ → Stream
with_barges n = record new_stream { events = barges n }

abbrev steps_for : ℕ → ℕ
steps_for zero = 0
steps_for (suc n) = steps_for n + 1 + 1 + 1

-- recvLoop has received one more interruption.
abbrev holding : ℕ → Stream
holding n = record (with_barges n) { receiving = Receiving.emitting (barge_in ∷ []) none }

filled : (n : ℕ) → n ≤ events_cap → Run false new_stream (steps_for n) (with_barges n)
filled zero h = Run.here
filled (suc n) h =
    Run.next
      (Run.next
        (Run.next (filled n (omega arith))
          (Step.received ServerMessage.interruption_signal refl refl))
        (Step.emitted refl (omega (arith, length-barges n))))
      (Step.message_done refl)

holding_full : Run false new_stream (steps_for 32 + 1) (holding 32)
holding_full =
    Run.next (filled 32 (omega arith)) (Step.received ServerMessage.interruption_signal refl refl)

closed_stream_may_hang_example :
    (t : Stream) × Run false (holding 32) 0 t
    × (t.canceled ≡ true)
    × ((n : ℕ) (u : Stream)
        → Run false t n u
        → (u.receiving ≢ Receiving.returned) × (u.done ≡ []) × (u.closed ≡ false))
closed_stream_may_hang_example = closed_stream_may_hang holding_full refl refl refl refl

new_stream-IsSettled_example : IsSettled (holding 32)
new_stream-IsSettled_example = new_stream-IsSettled holding_full

-- The same stream with its context canceled, after the reader took an event.
abbrev canceled : Stream
canceled = record (holding 2) { canceled = true }

abbrev relieved : Stream
relieved = record canceled { events = barge_in ∷ [] }

canceled_stream_ends_example :
    (1 ≤ work canceled)
    × (relieved.reader_gone ≡ false
        → CanStep relieved
          ⊎ ((relieved.receiving ≡ Receiving.returned) × (length relieved.done ≡ 1)))
canceled_stream_ends_example =
    canceled_stream_ends
      (Run.next
        (Run.next (filled 2 (omega arith))
          (Step.received ServerMessage.interruption_signal refl refl))
        Step.close)
      refl (Run.next Run.here (Step.take refl refl))

abbrev talk : List ServerMessage
talk =
    ServerMessage.session_output (record {
      audio = 127 ∷ [];
      text = b'h' ∷ b'i' ∷ [];
      turn_completed = true;
      end_session = false;
    })
    ∷ ServerMessage.recognition_result (b'y' ∷ b'o' ∷ [])
    ∷ []

bot_words_only_example :
    let h = (receive_backend (met (λ i. (i, i)) 0 (emit_each talk []).0) new_receiver).0.history in
    (bot_words h.entries ≡ bot_said new_receiver.history ++ all_text talk)
    × (user_texts h.entries ≡ user_texts new_receiver.history.entries)
unfolding emit_server_message
bot_words_only_example = bot_words_only talk (λ i. (i, i)) new_receiver refl
