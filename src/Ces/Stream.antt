-- ===== src/Ces/Stream.antt =====
-- internal/ces/stream.go: an open stream as an interleaving of recvLoop, sendLoop, the reader of its
-- events and its owner, who closes it.
use sip_relay.Prelude.{
  ℕ, ◌+◌, ◌<◌, ◌≡◌, Bool, true, false, not, ◌&&◌, Option, none, some, List, [], ◌∷◌, ◌++◌,
  if◌then◌else◌, length,
}
use sip_relay.Backend.{Event, StreamError}
use sip_relay.Ces.{ServerMessage}
use sip_relay.Ces.Translate.{events_of, final_of}

-- recvLoop blocks in `Recv`, is to emit the events of a message before it takes its error, or has
-- returned.
pub data Receiving : Type 0 where
  waiting : Receiving
  emitting : List Event → Option StreamError → Receiving
  returned : Receiving

-- The capacity of the channel `events`.
abbrev pub events_cap : ℕ
events_cap = 32

-- `grpcStream`, with what is in its channels, whether its context is canceled, how far recvLoop is, and
-- whether sendLoop has returned and the reader has left.
pub record Stream : Type 0 where
  pub receiving : Receiving
  pub events : List Event
  pub done : List (Option StreamError)
  pub once : Bool
  pub closed : Bool
  pub canceled : Bool
  pub sender_gone : Bool
  pub reader_gone : Bool

-- `newBaseStream`, as dialGRPC starts its loops.
abbrev pub new_stream : Stream
new_stream = record {
  receiving = Receiving.waiting;
  events = [];
  done = [];
  once = false;
  closed = false;
  canceled = false;
  sender_gone = false;
  reader_gone = false;
}

abbrev pub quiet_if_canceled : Option StreamError → Option StreamError
quiet_if_canceled (some StreamError.canceled) = none
quiet_if_canceled err = err

-- `finish`
unfoldable pub finish : Option StreamError → Stream → Stream
finish err s = if s.once then s else (record s {
  once = true;
  closed = true;
  canceled = true;
  done = s.done ++ (quiet_if_canceled err ∷ []);
})

abbrev pub returns : Stream → Stream
returns s = record s { receiving = Receiving.returned }

abbrev pub sender_returns : Stream → Stream
sender_returns s = record s { sender_gone = true }

pub data Actor : Type 0 where
  receiver sender reader owner : Actor

-- One step of an actor. `late` says whether `Recv` may return a message after its context is canceled.
pub data Step (late : Bool) (s : Stream) : Actor → Stream → Type 0 where
  -- `Recv`
  received :
      (m : ServerMessage)
      → s.receiving ≡ Receiving.waiting
      → (s.canceled && not late) ≡ false
      → Step late s Actor.receiver
          (record s { receiving = Receiving.emitting (events_of m) (final_of m) })
  -- `Recv` with an error, which is nil for the end of the stream
  receive_failed :
      (err : Option StreamError)
      → s.receiving ≡ Receiving.waiting
      → Step late s Actor.receiver (returns (finish err s))
  -- the two arms of the select of `emit`
  emitted :
      {e : Event} {es : List Event} {err : Option StreamError}
      → s.receiving ≡ Receiving.emitting (e ∷ es) err
      → length s.events < events_cap
      → Step late s Actor.receiver
          (record s { receiving = Receiving.emitting es err; events = s.events ++ (e ∷ []) })
  refused :
      {e : Event} {es : List Event} {err : Option StreamError}
      → s.receiving ≡ Receiving.emitting (e ∷ es) err
      → s.closed ≡ true
      → Step late s Actor.receiver (returns (finish (some StreamError.canceled) s))
  -- emitServerMessage returns
  message_done :
      s.receiving ≡ Receiving.emitting [] none
      → Step late s Actor.receiver (record s { receiving = Receiving.waiting })
  message_final :
      {err : StreamError}
      → s.receiving ≡ Receiving.emitting [] (some err)
      → Step late s Actor.receiver (returns (finish (some err) s))
  -- the arms of sendLoop
  context_done :
      s.sender_gone ≡ false → s.canceled ≡ true → Step late s Actor.sender (sender_returns s)
  input_closed : s.sender_gone ≡ false → Step late s Actor.sender (sender_returns s)
  sent : s.sender_gone ≡ false → Step late s Actor.sender s
  send_failed :
      (err : StreamError)
      → s.sender_gone ≡ false
      → Step late s Actor.sender (sender_returns (finish (some err) s))
  -- the reader takes an event
  take :
      {e : Event} {es : List Event}
      → s.reader_gone ≡ false
      → s.events ≡ e ∷ es
      → Step late s Actor.reader (record s { events = es })
  -- the reader leaves; `Close`, or the end of the dialing context
  leave : Step late s Actor.owner (record s { reader_gone = true })
  close : Step late s Actor.owner (record s { canceled = true })

-- The steps of recvLoop and of the reader are counted.
abbrev pub counted : Actor → ℕ
counted Actor.receiver = 1
counted Actor.reader = 1
counted Actor.sender = 0
counted Actor.owner = 0

-- A run, with the number of its counted steps.
pub data Run (late : Bool) (s : Stream) : ℕ → Stream → Type 0 where
  here : Run late s 0 s
  next :
      {n : ℕ} {t u : Stream} {a : Actor}
      → Run late s n t
      → Step late t a u
      → Run late s (n + counted a) u
