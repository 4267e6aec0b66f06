-- ===== src/Websocket/Connect.antt =====
-- internal/websocket/stream.go: Dial with createSession and connect. What net/url, net/http, the JSON
-- decoder, the UUID parser and the WebSocket library answer is in `Net`.
pub mod Ready
pub mod Playback
mod Tests
use Prim.Native.String.{String, ◌++◌ as str_append}
use text.Mathlib.Text.{◌==◌ as str_eq}
use sip_relay.Prelude.{
  ℕ, Bool, true, false, not, ◌&&◌, ◌||◌, ◌⊎◌, inl, inr, Option, none, some, List, [], ◌∷◌, ◌==◌,
  if◌then◌else◌,
}
use sip_relay.Prelude.Int.{ℤ}
use sip_relay.Config.{Url, WebSocketConfig, is_empty}
use sip_relay.Audio.Float.{Float}
use sip_relay.Audio.Transcode.{
  InputTranscoder, OutputTranscoder, new_input_transcoder, new_output_transcoder,
}
use sip_relay.Websocket.{WireEvent, Stream}

abbrev pub session_path : String
session_path = "/api/v1/telephony/session"

abbrev pub websocket_path : String
websocket_path = "/api/v1/telephony/ws/"

-- What the first `ReadMessage` gives: an error, a text message as JSON decodes it, or another message.
pub data First : Type 0 where
  failed : First
  message : Option WireEvent → First
  other : First

-- The answer to a POST: its status, and the session ID in its body if that decodes.
pub record Response : Type 0 where
  pub status : ℕ
  pub session_id : Option String

pub record Net : Type 0 where
  pub parse_url : String → Option Url
  pub print_url : Url → String
  pub path_escape : String → String
  pub new_request : String → Bool
  pub post : String → Option Response
  pub is_uuid : String → Bool
  pub dial : String → Option First

-- The errors of a dial.
pub data Refusal : Type 0 where
  bad_url bad_request no_response bad_status bad_body bad_session_id no_websocket no_message :
      Refusal
  audio_before_ready bad_event backend_error not_ready : Refusal

-- The URL with another path. `RawPath`, which is cleared too, is not among the fields of the model.
abbrev pub at_path : String → Url → Url
at_path path u = record u { path = path; raw_query = ""; fragment = "" }

abbrev pub print_at : Net → String → Option Url → Option String
print_at net path none = none
print_at net path (some u) = some (net.print_url (at_path path u))

-- `endpointURL`
unfoldable pub endpoint_url : Net → String → String → Option String
endpoint_url net base_url path = print_at net path (net.parse_url base_url)

-- A result, or the error of what failed.
abbrev pub Result : Type 0 → Type 0
Result A = Refusal ⊎ A

infixl 5 ◌>>=◌ ◌>>◌
abbrev pub ◌>>=◌ : {A B : Type 0} → Result A → (A → Result B) → Result B
inl e >>= f = inl e
inr a >>= f = f a

abbrev pub ◌>>◌ : {B : Type 0} → Result (Unit {0}) → Result B → Result B
m >> k = m >>= λ _. k

abbrev pub guard : Bool → Refusal → Result (Unit {0})
guard true e = inr tt
guard false e = inl e

abbrev pub need : {A : Type 0} → Option A → Refusal → Result A
need none e = inl e
need (some a) e = inr a

-- `createSession`
unfoldable pub create_session : Net → WebSocketConfig → Result String
unfolding endpoint_url
create_session net conf = do
  endpoint ← need (endpoint_url net conf.base_url session_path) Refusal.bad_url
  guard (net.new_request endpoint) Refusal.bad_request
  resp ← need (net.post endpoint) Refusal.no_response
  guard (resp.status == 200) Refusal.bad_status
  session_id ← need resp.session_id Refusal.bad_body
  guard (net.is_uuid session_id) Refusal.bad_session_id
  inr session_id

-- `decodeEvent`, after JSON
unfoldable pub decode_event : Option WireEvent → Option WireEvent
decode_event none = none
decode_event (some e) = if is_empty e.type then none else some e

-- The URL of the WebSocket in `connect`.
abbrev pub with_scheme : Url → Url
with_scheme u = record u { scheme = if str_eq u.scheme "http" then "ws" else "wss" }

unfoldable pub websocket_url : Net → WebSocketConfig → String → Result Url
unfolding endpoint_url
websocket_url net conf session_id = do
  raw ←
      need (endpoint_url net conf.base_url (str_append websocket_path (net.path_escape session_id)))
        Refusal.bad_url
  u ← need (net.parse_url raw) Refusal.bad_url
  inr (with_scheme u)

-- The connection: whether it is open, and the URL that it was dialed at.
pub record Conn : Type 0 where
  pub conn_open : Bool
  pub dialed : Option Url

-- `conn.Close()`
abbrev pub close_conn : Conn → Conn
close_conn c = record c { conn_open = false }

-- What a dial leaves: the connection, and the stream, of which a transcoder is an input or an output
-- transcoder, or an error.
pub record Dialed (T : Type 0) : Type 0 where
  pub conn : Conn
  pub result : Result (Stream T)

abbrev pub Transcoder : Type 0 → Type 0
Transcoder F = InputTranscoder F ⊎ OutputTranscoder F

module _ {F : Type 0} (float : Float F) where
  -- The stream that `connect` makes.
  unfoldable pub new_stream : WebSocketConfig → Stream (Transcoder F)
  new_stream conf = record {
    canceled = false;
    emitted = [];
    once = false;
    done = [];
    closed = false;
    output =
        if conf.transcode.output.enabled
        then some (inr (new_output_transcoder float conf.transcode.output.sample_rate))
        else none;
    input =
        if conf.transcode.input.enabled
        then some (inl (new_input_transcoder float conf.transcode.input.sample_rate))
        else none;
    written = [];
  }

  -- `return nil, err`
  abbrev pub fail : Refusal → Conn → Dialed (Transcoder F)
  fail e c = record { conn = c; result = inl e }

  abbrev pub never_dialed : Conn
  never_dialed = record { conn_open = false; dialed = none }

  abbrev pub dialed_at : Url → Conn
  dialed_at u = record { conn_open = true; dialed = some u }

  -- `connect` from the ready check on.
  abbrev pub on_event : WebSocketConfig → String → Conn → Option WireEvent → Dialed (Transcoder F)
  on_event conf session_id c none = fail Refusal.bad_event (close_conn c)
  on_event conf session_id c (some e) =
      if str_eq e.type "error"
      then fail Refusal.backend_error (close_conn c)
      else if not (str_eq e.type "ready") || not (str_eq e.session_id session_id)
      then fail Refusal.not_ready (close_conn c)
      else record { conn = c; result = inr (new_stream conf) }

  -- `connect` from the first `ReadMessage` on.
  unfoldable pub on_first : WebSocketConfig → String → Conn → First → Dialed (Transcoder F)
  unfolding decode_event new_stream
  on_first conf session_id c First.failed = fail Refusal.no_message (close_conn c)
  on_first conf session_id c First.other = fail Refusal.audio_before_ready (close_conn c)
  on_first conf session_id c (First.message m) = on_event conf session_id c (decode_event m)

  abbrev pub on_dial : WebSocketConfig → String → Url → Option First → Dialed (Transcoder F)
  on_dial conf session_id u none =
      fail Refusal.no_websocket (record { conn_open = false; dialed = some u })
  on_dial conf session_id u (some first) = on_first conf session_id (dialed_at u) first

  abbrev pub on_url : Net → WebSocketConfig → String → Result Url → Dialed (Transcoder F)
  on_url net conf session_id (inl e) = fail e never_dialed
  on_url net conf session_id (inr u) = on_dial conf session_id u (net.dial (net.print_url u))

  -- `connect`
  unfoldable pub connect : Net → WebSocketConfig → String → Dialed (Transcoder F)
  unfolding websocket_url on_first
  connect net conf session_id = on_url net conf session_id (websocket_url net conf session_id)

  abbrev pub on_session : Net → WebSocketConfig → Result String → Dialed (Transcoder F)
  on_session net conf (inl e) = fail e never_dialed
  on_session net conf (inr session_id) = connect net conf session_id

  -- `Dialer.Dial`
  unfoldable pub dial_websocket : Net → WebSocketConfig → Dialed (Transcoder F)
  unfolding connect create_session
  dial_websocket net conf = on_session net conf (create_session net conf)
