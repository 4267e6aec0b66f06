-- ===== src/Backend.antt =====
-- internal/backend/backend.go: the events and errors that every media backend speaks.
use sip_relay.Prelude.{ℕ, List}

-- Text and audio are bytes.
abbrev pub Bytes : Type 0
Bytes = List ℕ

-- `EventType`
pub data EventType : Type 0 where
  audio bot_transcript user_transcript barge_in turn_complete end_session transfer go_away :
      EventType

-- `Event`
pub record Event : Type 0 where
  pub type : EventType
  pub audio : Bytes
  pub text : Bytes

-- The errors that a stream ends with: the three of this package, `context.Canceled`, a WebSocket
-- close with a normal or going-away code, and any other.
pub data StreamError : Type 0 where
  agent_ended transfer go_away canceled normal_close other : StreamError
