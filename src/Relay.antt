-- ===== src/Relay.antt =====
-- internal/call/call.go: the two media goroutines of a call, receiveBackend with the conversation
-- history, and sendRTPToBackend. Times are nanoseconds, and what a clock or a channel says comes with
-- the event that meets it.
pub mod Transcript
pub mod Forward
pub mod Silence
mod Tests
use sip_relay.Prelude.{
  ℕ, ◌+◌, ◌*◌, ◌/◌, ◌%◌, ◌^◌, Bool, true, false, Option, none, some, List, [], ◌∷◌, ◌++◌, ◌||◌, not,
  ltb, leb, ◌==◌, if◌then◌else◌, length,
}
use sip_relay.Rtp.{frame_duration, sample_rate, new_silence_frame}
use sip_relay.Backend.{Bytes, EventType, Event}
use sip_relay.Call.{EndReason}
use sip_relay.Playout.{Command}

pub data Role : Type 0 where
  bot user : Role

-- `calllog.ConversationEvent`; its `Type` is always "message".
pub record ConversationEvent : Type 0 where
  pub role : Role
  pub text : Bytes
  pub start_time : ℕ
  pub end_time : ℕ

-- `conversationHistory`
pub record History : Type 0 where
  pub entries : List ConversationEvent
  pub bot_text : Bytes
  pub bot_start : ℕ
  pub bot_end : ℕ

abbrev pub new_history : History
new_history = record { entries = []; bot_text = []; bot_start = 0; bot_end = 0 }

-- `appendBotDelta`, with the two readings of the clock.
append_bot_delta : History → Bytes → ℕ → ℕ → History
append_bot_delta h text before after = if length text == 0 then h else (record h {
  bot_start = if length h.bot_text == 0 then before else h.bot_start;
  bot_text = h.bot_text ++ text;
  bot_end = after;
})

-- `flushBot`
flush_bot : History → History
flush_bot h = if length h.bot_text == 0 then h else (record h {
  entries =
      h.entries
      ++ (record {
        role = Role.bot;
        text = h.bot_text;
        start_time = h.bot_start;
        end_time = h.bot_end;
      }
          ∷ []);
  bot_text = [];
  bot_start = 0;
  bot_end = 0;
})

-- `appendUser`
append_user : History → Bytes → ℕ → History
append_user h text now = if length text == 0 then h else (record h {
  entries =
      h.entries
      ++ (record { role = Role.user; text = text; start_time = now; end_time = now } ∷ []);
})

-- What receiveBackend keeps: the history, the commands that its outbound writer took, the bytes
-- recorded, the counters `cesAudioEvents` and `cesAudioBytes`, and the reasons it set, in order.
pub record Receiver : Type 0 where
  pub history : History
  pub commands : List Command
  pub recorded : Bytes
  pub audio_events : ℕ  -- uint64
  pub audio_bytes : ℕ  -- uint64
  pub reasons : List EndReason

abbrev pub new_receiver : Receiver
new_receiver = record {
  history = new_history;
  commands = [];
  recorded = [];
  audio_events = 0;
  audio_bytes = 0;
  reasons = [];
}

-- What the select of receiveBackend meets. With an event come the two readings of the clock, and
-- whether the writer's context is alive when a command is offered.
pub data Arrival : Type 0 where
  context_done : Arrival
  events_closed : Arrival
  event : Event → ℕ → ℕ → Bool → Arrival

-- How receiveBackend goes on: the next select, or a return, with or without an error.
pub data Flow : Type 0 where
  next stop fail : Flow

-- `Enqueue` and `Interrupt`
offer : Receiver → Command → Bool → Receiver
offer r cmd alive = if alive then record r { commands = r.commands ++ (cmd ∷ []) } else r

go_on_if : Bool → Flow
go_on_if alive = if alive then Flow.next else Flow.stop

abbrev pub enqueue_command : Bytes → Command
enqueue_command audio = record { audio = audio; interrupt = false }

abbrev pub interrupt_command : Command
interrupt_command = record { audio = []; interrupt = true }

abbrev with_history : Receiver → History → Receiver
with_history r h = record r { history = h }

abbrev with_reason : Receiver → EndReason → Receiver
with_reason r reason = record r { reasons = r.reasons ++ (reason ∷ []) }

-- The switch of receiveBackend on the event's type.
handle_event : EventType → Event → ℕ → ℕ → Bool → Receiver → Receiver × Flow
unfolding offer go_on_if
handle_event EventType.audio e before after alive r =
    let r' = record r {
      audio_events = (r.audio_events + 1) % 2 ^ 64;
      audio_bytes = (r.audio_bytes + length e.audio) % 2 ^ 64;
      recorded = r.recorded ++ e.audio;
    } in
    (offer r' (enqueue_command e.audio) alive, go_on_if alive)
handle_event EventType.bot_transcript e before after alive r =
    (with_history r (append_bot_delta r.history e.text before after), Flow.next)
handle_event EventType.user_transcript e before after alive r =
    (with_history r (append_user r.history e.text before), Flow.next)
handle_event EventType.barge_in e before after alive r =
    (offer (with_history r (flush_bot r.history)) interrupt_command alive, go_on_if alive)
handle_event EventType.turn_complete e before after alive r =
    (with_history r (flush_bot r.history), Flow.next)
handle_event EventType.end_session e before after alive r =
    (with_reason r EndReason.agent, Flow.stop)
handle_event EventType.transfer e before after alive r =
    (with_reason (offer r interrupt_command alive) EndReason.transfer, Flow.stop)
handle_event EventType.go_away e before after alive r = (with_reason r EndReason.backend, Flow.stop)

-- One round of the loop.
pub receive_step : Arrival → Receiver → Receiver × Flow
unfolding handle_event
receive_step Arrival.context_done r = (r, Flow.stop)
receive_step Arrival.events_closed r = (r, Flow.fail)
receive_step (Arrival.event e before after alive) r = handle_event e.type e before after alive r

-- `receiveBackend`: the loop, then the deferred `flushBot`. `Flow.next` says that it still waits.
pub receive_loop : List Arrival → Receiver → Receiver × Flow
receive_loop [] r = (r, Flow.next)
receive_loop (a ∷ arrivals) r =
    let (r', flow) = receive_step a r in
    let rest = receive_loop arrivals r' in
    elim flow [ Flow.next ↦ rest | Flow.stop ↦ (r', Flow.stop) | Flow.fail ↦ (r', Flow.fail) ]

pub receive_backend : List Arrival → Receiver → Receiver × Flow
unfolding receive_loop
receive_backend arrivals r =
    let (r', flow) = receive_loop arrivals r in (with_history r' (flush_bot r'.history), flow)

-- `audioDuration`
audio_duration : ℕ → ℕ
audio_duration bytes = if bytes == 0 then frame_duration else bytes * 1000000000 / sample_rate

-- What sendRTPToBackend keeps: `firstRTPReceived`, `nextSilenceAt` (0 for the zero time), and what it
-- has sent to the backend and recorded.
pub record Sender : Type 0 where
  pub first_rtp_received : Bool
  pub next_silence_at : ℕ
  pub sent : List Bytes
  pub silence_chunks : ℕ  -- uint64
  pub recorded : Bytes

abbrev pub new_sender : Sender
new_sender = record {
  first_rtp_received = false;
  next_silence_at = 0;
  sent = [];
  silence_chunks = 0;
  recorded = [];
}

-- What the select of sendRTPToBackend meets: a payload, with whether the backend takes it and the time
-- after that; the closed channel or the done context; or a tick, with whether the backend takes it.
pub data Inbound : Type 0 where
  payload : Bytes → Bool → ℕ → Inbound
  finished : Inbound
  tick : ℕ → Bool → Inbound

-- One round of the loop, and whether it goes on.
pub send_step : Inbound → Sender → Sender × Bool
unfolding audio_duration
send_step Inbound.finished s = (s, false)
send_step (Inbound.payload p taken now) s =
    let s' = record s { first_rtp_received = true; recorded = s.recorded ++ p } in
    if taken
    then (
      record s' { sent = s.sent ++ (p ∷ []); next_silence_at = now + audio_duration (length p) },
      true,
    )
    else (s', false)
send_step (Inbound.tick now taken) s =
    if not s.first_rtp_received || ltb now s.next_silence_at
    then (s, true)
    else let s' = record s { silence_chunks = (s.silence_chunks + 1) % 2 ^ 64 } in
      if taken
      then (
        record s' {
          sent = s.sent ++ (new_silence_frame ∷ []);
          next_silence_at = now + frame_duration;
        },
        true,
      )
      else (s', false)

-- `sendRTPToBackend`
pub send_loop : List Inbound → Sender → Sender × Bool
send_loop [] s = (s, true)
send_loop (i ∷ is) s =
    let (s', more) = send_step i s in
    let rest = send_loop is s' in elim more [ true ↦ rest | false ↦ (s', false) ]
