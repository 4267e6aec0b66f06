-- ===== src/Relay/Forward.antt =====
-- What receiveBackend passes on of the events that it meets.
use sip_relay.Prelude.{◌≡◌, List, [], ◌∷◌, ◌++◌, arith, if◌then◌else◌, append-nil}
use sip_relay.Backend.{Bytes, EventType, Event}
use sip_relay.Call.{EndReason}
use sip_relay.Playout.{Command}
use sip_relay.Relay.{
  Receiver, Arrival, enqueue_command, interrupt_command, handle_event, receive_step,
  receive_backend,
}
use sip_relay.Relay.Transcript.{gather, gather_loop}

-- The command that an event offers to the writer.
abbrev pub command_of : EventType → Event → List Command
command_of EventType.audio e = enqueue_command e.audio ∷ []
command_of EventType.barge_in e = interrupt_command ∷ []
command_of EventType.transfer e = interrupt_command ∷ []
command_of EventType.bot_transcript e = []
command_of EventType.user_transcript e = []
command_of EventType.turn_complete e = []
command_of EventType.end_session e = []
command_of EventType.go_away e = []

abbrev pub forwarded : Arrival → List Command
forwarded Arrival.context_done = []
forwarded Arrival.events_closed = []
forwarded (Arrival.event e before after alive) = if alive then command_of e.type e else []

abbrev pub audio_of : Arrival → Bytes
audio_of Arrival.context_done = []
audio_of Arrival.events_closed = []
audio_of (Arrival.event e before after alive) = elim e.type [ EventType.audio ↦ e.audio | _ ↦ [] ]

abbrev pub reason_of : EventType → List EndReason
reason_of EventType.end_session = EndReason.agent ∷ []
reason_of EventType.transfer = EndReason.transfer ∷ []
reason_of EventType.go_away = EndReason.backend ∷ []
reason_of EventType.audio = []
reason_of EventType.barge_in = []
reason_of EventType.bot_transcript = []
reason_of EventType.user_transcript = []
reason_of EventType.turn_complete = []

abbrev pub blamed : Arrival → List EndReason
blamed Arrival.context_done = []
blamed Arrival.events_closed = []
blamed (Arrival.event e before after alive) = reason_of e.type

module _ (a : Arrival) (r : Receiver) where
  step_commands : (receive_step a r).0.commands ≡ r.commands ++ forwarded a
  unfolding receive_step handle_event
  step_commands = ground (arith, append-nil r.commands)

  step_recorded : (receive_step a r).0.recorded ≡ r.recorded ++ audio_of a
  unfolding receive_step handle_event
  step_recorded = ground (arith, append-nil r.recorded)

  pub step_reasons : (receive_step a r).0.reasons ≡ r.reasons ++ blamed a
  unfolding receive_step handle_event
  step_reasons = ground (arith, append-nil r.reasons)

-- Of the events that receiveBackend meets until one ends it, it passes to the writer, in order, the audio
-- of each audio event and an interrupt for each barge-in and transfer, as long as the writer lives; it
-- records the audio of every audio event; and it sets the reason agent, transfer or backend at the end of the
-- session, a transfer or a go-away.
pub receive_backend-forwards :
    (arrivals : List Arrival) (r : Receiver)
    → let r' = (receive_backend arrivals r).0 in
      (r'.commands ≡ r.commands ++ gather forwarded arrivals)
      × (r'.recorded ≡ r.recorded ++ gather audio_of arrivals)
      × (r'.reasons ≡ r.reasons ++ gather blamed arrivals)
unfolding receive_backend
receive_backend-forwards arrivals r = (
  gather_loop (λ q. q.commands) forwarded step_commands arrivals r,
  gather_loop (λ q. q.recorded) audio_of step_recorded arrivals r,
  gather_loop (λ q. q.reasons) blamed step_reasons arrivals r,
)
