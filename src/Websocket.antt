-- ===== src/Websocket.antt =====
-- internal/websocket/stream.go: the two goroutines of a telephony WebSocket and the events that they
-- translate. What the socket returns, and whether a channel takes an event, comes with each step. The
-- transcoders are parameters.
pub mod Events
pub mod Ends
pub mod Connect
mod Tests
use Prim.Native.String.{String}
use text.Mathlib.Text.{◌==◌ as str_eq}
use sip_relay.Prelude.{
  ℕ, Bool, true, false, not, ◌||◌, Option, none, some, List, [], ◌∷◌, ◌++◌, ◌==◌, if◌then◌else◌,
  length,
}
use sip_relay.Backend.{Bytes, EventType, Event, StreamError}

-- `wireEvent`; its texts are bytes, its type is compared with names.
pub record WireEvent : Type 0 where
  pub type : String
  pub session_id : String
  pub text : Bytes
  pub delta : Bytes

-- The cases of the switch of `handleEvent`.
pub data Kind : Type 0 where
  user_transcript bot_transcript bot_done barge_in clear transfer end_session go_away error ready
        unknown :
      Kind

unfoldable pub kind_of : String → Kind
kind_of t =
    if str_eq t "user_transcript"
    then Kind.user_transcript
    else if str_eq t "bot_transcript"
    then Kind.bot_transcript
    else if str_eq t "bot_done"
    then Kind.bot_done
    else if str_eq t "barge_in"
    then Kind.barge_in
    else if str_eq t "clear"
    then Kind.clear
    else if str_eq t "transfer"
    then Kind.transfer
    else if str_eq t "end_session"
    then Kind.end_session
    else if str_eq t "go_away"
    then Kind.go_away
    else if str_eq t "error"
    then Kind.error
    else if str_eq t "ready"
    then Kind.ready
    else Kind.unknown

-- What `emit` meets: the channel takes the event, or the context or the stream is over, with whether
-- `ctx.Err()` is then not nil.
pub data Emit : Type 0 where
  taken : Emit
  refused : Bool → Emit

-- `stream`: its context, the events emitted, what was sent on `done`, and whether `closed` is closed;
-- T is the state of a transcoder, none if the direction is not transcoded.
pub record Stream (T : Type 0) : Type 0 where
  pub canceled : Bool
  pub emitted : List Event
  pub once : Bool
  pub done : List (Option StreamError)
  pub closed : Bool
  pub output : Option T
  pub input : Option T
  pub written : List Bytes

-- `errors.Is(err, context.Canceled)`, or a close with a normal code.
abbrev pub is_quiet : Option StreamError → Bool
is_quiet (some StreamError.canceled) = true
is_quiet (some StreamError.normal_close) = true
is_quiet _ = false

-- How a loop goes on: its next round, a return, or `finish` with an error and a return.
pub data Next : Type 0 where
  again : Next
  return : Next
  finish_with : Option StreamError → Next

-- What `ReadMessage` returns: a frame, with what meets the event that comes of it, or an error. The text
-- frame is as `decodeEvent` leaves it.
pub data Frame : Type 0 where
  binary_frame : Bytes → Emit → Frame
  text_frame : Option WireEvent → Emit → Frame
  other_frame : Frame
  failed : StreamError → Frame

abbrev pub plain_event : EventType → Bytes → Bytes → Event
plain_event type audio text = record { type = type; audio = audio; text = text }

-- `ctx.Err()` after an event was refused, as `recvLoop` takes it.
abbrev pub context_error : Bool → Next → Next
context_error true otherwise = Next.finish_with (some StreamError.canceled)
context_error false otherwise = otherwise

-- `emitError`, then the end of the arm: an error of the context finishes the stream.
abbrev pub after_event : Emit → Next
after_event Emit.taken = Next.again
after_event (Emit.refused over) = context_error over Next.again

-- A final event: its own error if it was emitted, else the context's, which may be nil.
abbrev pub after_final : StreamError → Emit → Next
after_final err Emit.taken = Next.finish_with (some err)
after_final err (Emit.refused over) = context_error over (Next.finish_with none)

abbrev pub audio_emitted : Emit → Next
audio_emitted Emit.taken = Next.again
audio_emitted (Emit.refused over) = Next.return

module _ {T : Type 0} where
  -- `finish`
  unfoldable pub finish : Option StreamError → Stream T → Stream T
  finish err s = if s.once then s else (record s {
    once = true;
    done = s.done ++ ((if s.canceled || is_quiet err then none else err) ∷ []);
    closed = true;
    canceled = true;
  })

  -- `emit`
  unfoldable pub emit : Event → Emit → Stream T → Stream T
  emit e Emit.taken s = record s { emitted = s.emitted ++ (e ∷ []) }
  emit e (Emit.refused over) s = s

  -- `handleEvent`, with what `recvLoop` does with its result.
  unfoldable pub handle_wire : Kind → WireEvent → Emit → Stream T → Stream T × Next
  unfolding emit
  handle_wire Kind.user_transcript e m s =
      (emit (plain_event EventType.user_transcript [] e.text) m s, after_event m)
  handle_wire Kind.bot_transcript e m s =
      (emit (plain_event EventType.bot_transcript [] e.delta) m s, after_event m)
  handle_wire Kind.bot_done e m s =
      (emit (plain_event EventType.turn_complete [] []) m s, after_event m)
  handle_wire Kind.barge_in e m s = (emit (plain_event EventType.barge_in [] []) m s, after_event m)
  handle_wire Kind.clear e m s = (emit (plain_event EventType.barge_in [] []) m s, after_event m)
  handle_wire Kind.transfer e m s =
      (emit (plain_event EventType.transfer [] []) m s, after_final StreamError.transfer m)
  handle_wire Kind.end_session e m s =
      (emit (plain_event EventType.end_session [] []) m s, after_final StreamError.agent_ended m)
  handle_wire Kind.go_away e m s =
      (emit (plain_event EventType.go_away [] []) m s, after_final StreamError.go_away m)
  handle_wire Kind.error e m s = (s, Next.finish_with (some StreamError.other))
  handle_wire Kind.ready e m s = (s, Next.finish_with (some StreamError.other))
  handle_wire Kind.unknown e m s = (s, Next.again)

  abbrev pub emit_audio : Bytes → Emit → Stream T → Stream T × Next
  emit_audio audio m s = (emit (plain_event EventType.audio audio []) m s, audio_emitted m)

  -- The switch of `recvLoop` on the type of the frame; `transcode` is `OutputTranscoder.Transcode`.
  unfoldable pub recv_step : (T → Bytes → T × Bytes) → Frame → Stream T → Stream T × Next
  recv_step transcode (Frame.failed err) s = (s, Next.finish_with (some err))
  recv_step transcode Frame.other_frame s = (s, Next.finish_with (some StreamError.other))
  recv_step transcode (Frame.text_frame none m) s = (s, Next.finish_with (some StreamError.other))
  recv_step transcode (Frame.text_frame (some e) m) s = handle_wire (kind_of e.type) e m s
  recv_step transcode (Frame.binary_frame bytes m) s = elim s.output [
    | none ↦ emit_audio bytes m s
    | some t ↦
        let (t', audio) = transcode t bytes in
        let s' = record s { output = some t' } in
        if length audio == 0 then (s', Next.again) else emit_audio audio m s'
  ]

  abbrev pub after_step : Stream T → Next → Stream T × Bool → Stream T × Bool
  after_step s Next.again rest = rest
  after_step s Next.return rest = (s, false)
  after_step s (Next.finish_with err) rest = (finish err s, false)

  -- `recvLoop`, and whether it still waits.
  unfoldable pub recv_loop : (T → Bytes → T × Bytes) → List Frame → Stream T → Stream T × Bool
  recv_loop transcode [] s = (s, true)
  recv_loop transcode (f ∷ fs) s =
      let (s', next) = recv_step transcode f s in
      let rest = recv_loop transcode fs s' in after_step s' next rest

-- What the select of `sendLoop` meets: the context is done, or a payload, with the error of the write.
pub data Send : Type 0 where
  context_done : Send
  payload : Bytes → Option StreamError → Send

module _ {T : Type 0} where
  abbrev pub write : Bytes → Option StreamError → Stream T → Stream T × Next
  write data_sent none s = (record s { written = s.written ++ (data_sent ∷ []) }, Next.again)
  write data_sent (some err) s = (s, Next.finish_with (some err))

  -- One round of `sendLoop`; `transcode` is `InputTranscoder.Transcode`.
  unfoldable pub send_step : (T → Bytes → T × Bytes) → Send → Stream T → Stream T × Next
  send_step transcode Send.context_done s = (s, Next.return)
  send_step transcode (Send.payload p err) s =
      if length p == 0 then (s, Next.again) else elim s.input [
        | none ↦ write p err s
        | some t ↦
            let (t', out) = transcode t p in
            let s' = record s { input = some t' } in
            if length out == 0 then (s', Next.again) else write out err s'
      ]

-- The rounds of both loops and `Close`, in any order.
pub data Round : Type 0 where
  receive : Frame → Round
  send : Send → Round
  close : Round

module _ {T : Type 0} where
  abbrev pub settle : Stream T × Next → Stream T
  settle (s, Next.again) = s
  settle (s, Next.return) = s
  settle (s, Next.finish_with err) = finish err s

  unfoldable pub round :
      (T → Bytes → T × Bytes) → (T → Bytes → T × Bytes) → Round → Stream T → Stream T
  round decode encode (Round.receive f) s = settle (recv_step decode f s)
  round decode encode (Round.send p) s = settle (send_step encode p s)
  round decode encode Round.close s = record s { canceled = true }

  unfoldable pub rounds :
      (T → Bytes → T × Bytes) → (T → Bytes → T × Bytes) → List Round → Stream T → Stream T
  rounds decode encode [] s = s
  rounds decode encode (r ∷ rs) s = rounds decode encode rs (round decode encode r s)
