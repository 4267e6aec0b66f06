-- ===== src/Websocket/Tests.antt =====
-- A stream that speaks, listens and hands the call over.
use sip_relay.Prelude.{◌≡◌, refl, Bool, true, false, none, some, List, [], ◌∷◌}
use sip_relay.Backend.{Bytes, StreamError}
use sip_relay.Call.{EndReason, Arm, new_call, run_arm}
use sip_relay.Relay.{Arrival, new_receiver, receive_step}
use sip_relay.Websocket.{
  WireEvent, Kind, Emit, Stream, Frame, Send, Round, settle, handle_wire, rounds,
}
use sip_relay.Websocket.Ends.{IsEnded, first_reason, said_event, final-reason, rounds-IsEnded}

abbrev fresh : Stream Bool
fresh = record {
  canceled = false;
  emitted = [];
  once = false;
  done = [];
  closed = false;
  output = none;
  input = none;
  written = [];
}

-- No transcoding.
abbrev same : Bool → Bytes → Bool × Bytes
same t bytes = (t, bytes)

abbrev says : WireEvent
says = record { type = "bot_transcript"; session_id = ""; text = []; delta = 72 ∷ [] }

abbrev hands_over : WireEvent
hands_over = record { type = "transfer"; session_id = ""; text = []; delta = [] }

abbrev frames : List Frame
frames =
    Frame.binary_frame (1 ∷ 2 ∷ []) Emit.taken
    ∷ Frame.text_frame (some says) Emit.taken
    ∷ Frame.text_frame (some hands_over) Emit.taken
    ∷ Frame.binary_frame (3 ∷ []) Emit.taken
    ∷ []

final-reason_example :
    let s' = settle (handle_wire Kind.transfer hands_over Emit.taken fresh) in
    (s'.emitted ≡ said_event Kind.transfer ∷ [])
    × (s'.done ≡ some StreamError.transfer ∷ [])
    × ((run_arm (Arm.stream_done (some StreamError.transfer)) new_call).reason ≡ EndReason.transfer)
    × (first_reason
          (receive_step (Arrival.event (said_event Kind.transfer) 1 2 true) new_receiver).0.reasons
        ≡ EndReason.transfer)
final-reason_example = final-reason Kind.transfer hands_over fresh 1 2 true refl refl refl

fresh-IsEnded : IsEnded fresh
fresh-IsEnded = record { one_value = refl; shut = refl; over = λ h. cc }

abbrev interleaving : List Round
interleaving =
    Round.send (Send.payload (5 ∷ []) none)
    ∷ Round.receive (Frame.text_frame (some hands_over) Emit.taken)
    ∷ Round.send (Send.payload (6 ∷ []) (some StreamError.other))
    ∷ Round.close
    ∷ []

rounds-IsEnded_example : IsEnded (rounds same same interleaving fresh)
rounds-IsEnded_example = rounds-IsEnded same same interleaving fresh fresh-IsEnded
