-- ===== src/Websocket/Ends.antt =====
-- internal/websocket/stream.go: the ends of a stream.
use sip_relay.Prelude.{
  ℕ, ◌≡◌, refl, sym, ap, ◌∙◌, Bool, true, false, ◌||◌, Option, none, some, List, [], ◌∷◌, ◌++◌,
  arith, if◌then◌else◌, length, length-append,
}
use sip_relay.Backend.{Bytes, EventType, Event, StreamError}
use sip_relay.Call.{EndReason, Arm, new_call, run_arm, set_end_reason}
use sip_relay.Relay.{Arrival, new_receiver, receive_step}
use sip_relay.Relay.Forward.{step_reasons}
use sip_relay.Websocket.{
  is_quiet, WireEvent, Kind, Emit, Stream, Next, Frame, Send, Round, kind_of, finish, emit,
  handle_wire, recv_step, send_step, settle, round, rounds,
}

-- The events after which the backend ends the session.
abbrev pub is_final : Kind → Bool
is_final Kind.transfer = true
is_final Kind.end_session = true
is_final Kind.go_away = true
is_final _ = false

abbrev pub first_reason : List EndReason → EndReason
first_reason [] = EndReason.unset
first_reason (r ∷ rs) = r

-- What the backend says with a final event: the event's type, the error that the stream ends with, and the
-- reason for the end of the call.
abbrev pub said_type : Kind → EventType
said_type Kind.transfer = EventType.transfer
said_type Kind.go_away = EventType.go_away
said_type _ = EventType.end_session

abbrev pub said_error : Kind → StreamError
said_error Kind.transfer = StreamError.transfer
said_error Kind.go_away = StreamError.go_away
said_error _ = StreamError.agent_ended

abbrev pub said_reason : Kind → EndReason
said_reason Kind.transfer = EndReason.transfer
said_reason Kind.go_away = EndReason.backend
said_reason _ = EndReason.agent

abbrev pub said_event : Kind → Event
said_event k = record { type = said_type k; audio = []; text = [] }

-- On an open stream a transfer, an end of the session and a go-away is emitted as the event of its own
-- type, and the stream is then done with its own error, agent ended for an end of the session; and both
-- receiveBackend on the event and run on the error give the call the same reason: transferred, agent, and
-- backend.
pub final-reason :
    {T : Type 0} (k : Kind) (e : WireEvent) (s : Stream T) (before after : ℕ) (alive : Bool)
    → is_final k ≡ true
    → s.once ≡ false
    → s.canceled ≡ false
    → let s' = settle (handle_wire k e Emit.taken s) in
      (s'.emitted ≡ s.emitted ++ (said_event k ∷ []))
      × (s'.done ≡ s.done ++ (some (said_error k) ∷ []))
      × ((run_arm (Arm.stream_done (some (said_error k))) new_call).reason ≡ said_reason k)
      × (first_reason
            (receive_step (Arrival.event (said_event k) before after alive) new_receiver).0.reasons
          ≡ said_reason k)
unfolding handle_wire emit finish run_arm set_end_reason new_call
final-reason Kind.transfer e s before after alive f o c = (
  rw o refl,
  rw (o, c) refl,
  refl,
  ap first_reason
      (step_reasons (Arrival.event (said_event Kind.transfer) before after alive) new_receiver),
)
final-reason Kind.end_session e s before after alive f o c = (
  rw o refl,
  rw (o, c) refl,
  refl,
  ap first_reason
      (step_reasons (Arrival.event (said_event Kind.end_session) before after alive) new_receiver),
)
final-reason Kind.go_away e s before after alive f o c = (
  rw o refl,
  rw (o, c) refl,
  refl,
  ap first_reason
      (step_reasons (Arrival.event (said_event Kind.go_away) before after alive) new_receiver),
)
final-reason Kind.user_transcript e s before after alive f o c = cc
final-reason Kind.bot_transcript e s before after alive f o c = cc
final-reason Kind.bot_done e s before after alive f o c = cc
final-reason Kind.barge_in e s before after alive f o c = cc
final-reason Kind.clear e s before after alive f o c = cc
final-reason Kind.error e s before after alive f o c = cc
final-reason Kind.ready e s before after alive f o c = cc
final-reason Kind.unknown e s before after alive f o c = cc

-- `done` has one value exactly when the stream has finished, and then the rest is shut.
pub record IsEnded {T : Type 0} (s : Stream T) : Type 0 where
  pub one_value : length s.done ≡ (if s.once then 1 else 0)
  pub shut : s.closed ≡ s.once
  pub over : s.once ≡ true → s.canceled ≡ true

module _ {T : Type 0} where
  IsEnded-if :
      (b : Bool) (s t : Stream T)
      → IsEnded s
      → (b ≡ false → IsEnded t)
      → IsEnded (if b then s else t)
  IsEnded-if true s t v w = v
  IsEnded-if false s t v w = w refl

  finish-IsEnded : (err : Option StreamError) (s : Stream T) → IsEnded s → IsEnded (finish err s)
  unfolding finish
  finish-IsEnded err s v =
      let last = (if s.canceled || is_quiet err then none else err) ∷ [] in
      IsEnded-if s.once s _ v (λ h. record {
        one_value =
            length-append s.done last
            ∙ omega (arith, v.one_value, ap {B = ℕ} (λ b. if b then 1 else 0) h);
        shut = refl;
        over = λ e. refl;
      })

  -- A step that leaves the end alone.
  record IsSame (s t : Stream T) : Type 0 where
    same_once : t.once ≡ s.once
    same_done : t.done ≡ s.done
    same_closed : t.closed ≡ s.closed
    same_canceled : t.canceled ≡ s.canceled

  same-IsEnded : (s t : Stream T) → IsSame s t → IsEnded s → IsEnded t
  same-IsEnded s t m v = record {
    one_value =
        ap length m.same_done ∙ v.one_value ∙ ap (λ b. if b then 1 else 0) (sym m.same_once);
    shut = m.same_closed ∙ v.shut ∙ sym m.same_once;
    over = λ h. m.same_canceled ∙ v.over (sym m.same_once ∙ h);
  }

  settle-IsEnded : (s t : Stream T) (n : Next) → IsSame s t → IsEnded s → IsEnded (settle (t, n))
  settle-IsEnded s t Next.again m v = same-IsEnded s t m v
  settle-IsEnded s t Next.return m v = same-IsEnded s t m v
  settle-IsEnded s t (Next.finish_with err) m v = finish-IsEnded err t (same-IsEnded s t m v)

  handle_wire-IsSame :
      (k : Kind) (e : WireEvent) (m : Emit) (s : Stream T) → IsSame s (handle_wire k e m s).0
  unfolding handle_wire emit
  handle_wire-IsSame k e m s = ground arith

  recv_step-IsSame :
      (decode : T → Bytes → T × Bytes) (f : Frame) (s : Stream T)
      → IsSame s (recv_step decode f s).0
  unfolding recv_step emit
  recv_step-IsSame decode (Frame.failed err) s = ground arith
  recv_step-IsSame decode Frame.other_frame s = ground arith
  recv_step-IsSame decode (Frame.text_frame none m) s = ground arith
  recv_step-IsSame decode (Frame.text_frame (some e) m) s =
      handle_wire-IsSame (kind_of e.type) e m s
  recv_step-IsSame decode (Frame.binary_frame bytes m) s = ground arith

  send_step-IsSame :
      (encode : T → Bytes → T × Bytes) (p : Send) (s : Stream T) → IsSame s (send_step encode p s).0
  unfolding send_step
  send_step-IsSame encode Send.context_done s = ground arith
  send_step-IsSame encode (Send.payload p err) s = ground arith

  module _ (decode encode : T → Bytes → T × Bytes) where
    round-IsEnded : (r : Round) (s : Stream T) → IsEnded s → IsEnded (round decode encode r s)
    unfolding round
    round-IsEnded (Round.receive f) s v =
        let (t, n) = recv_step decode f s in settle-IsEnded s t n (recv_step-IsSame decode f s) v
    round-IsEnded (Round.send p) s v =
        let (t, n) = send_step encode p s in settle-IsEnded s t n (send_step-IsSame encode p s) v
    round-IsEnded Round.close s v = record {
      one_value = v.one_value;
      shut = v.shut;
      over = λ h. refl;
    }

    -- Over any interleaving of the rounds of recvLoop and sendLoop with Close, `done` gets one value
    -- when the stream finishes first and none before or after; from then on `closed` is closed and the
    -- context canceled.
    pub rounds-IsEnded :
        (rs : List Round) (s : Stream T) → IsEnded s → IsEnded (rounds decode encode rs s)
    unfolding rounds
    rounds-IsEnded [] s v = v
    rounds-IsEnded (r ∷ rs) s v = rounds-IsEnded rs (round decode encode r s) (round-IsEnded r s v)
