-- ===== src/Ces.antt =====
-- internal/ces/stream.go: the messages of a CES session, and how a stream to CES is dialed. What the
-- client library answers comes as an argument.
pub mod Stream
pub mod Translate
pub mod Opening
pub mod Ending
pub mod Closing
pub mod Hanging
pub mod Words
mod Tests
use Prim.Native.String.{String, ◌++◌ as str_append}
use text.Mathlib.Text.{◌==◌ as str_eq}
use sip_relay.Prelude.{
  ℕ, Bool, true, false, not, Option, none, some, List, [], ◌∷◌, ◌++◌, ◌==◌, if◌then◌else◌, length,
}
use sip_relay.Backend.{Bytes, EventType, Event, StreamError}
use sip_relay.Config.{CesConfig}

-- `AppResource`, `DeploymentResource` and `SessionResource`
unfoldable pub app_resource : CesConfig → String
app_resource c = str_append "projects/" (
    str_append c.project_id
      (str_append "/locations/" (str_append c.location (str_append "/apps/" c.app_id))))

unfoldable pub deployment_resource : CesConfig → String
unfolding app_resource
deployment_resource c =
    if str_eq c.deployment_id ""
    then ""
    else str_append (app_resource c) (str_append "/deployments/" c.deployment_id)

unfoldable pub session_resource : CesConfig → String → String
unfolding app_resource
session_resource c session_id = str_append (app_resource c) (str_append "/sessions/" session_id)

-- `InputAudioConfig` and `OutputAudioConfig`; the encoding is always mu-law.
pub data Encoding : Type 0 where
  mulaw : Encoding

-- `SessionConfig`
pub record SessionConfig : Type 0 where
  pub session : String
  pub input_encoding : Encoding
  pub input_rate : ℕ
  pub noise_suppression_level : String
  pub output_encoding : Encoding
  pub output_rate : ℕ
  pub deployment : String
  pub time_zone : String
  pub use_tool_fakes : Bool

-- What is sent to CES: the configuration, or real-time audio or text.
pub data ClientMessage : Type 0 where
  config_message : SessionConfig → ClientMessage
  audio_message : Bytes → ClientMessage
  text_message : String → ClientMessage

-- `ConfigMessage`
unfoldable pub new_config_message : CesConfig → String → ClientMessage
unfolding session_resource deployment_resource
new_config_message c session_id = config_message (record {
  session = session_resource c session_id;
  input_encoding = Encoding.mulaw;
  input_rate = 8000;
  noise_suppression_level = c.noise_suppression_level;
  output_encoding = Encoding.mulaw;
  output_rate = 8000;
  deployment = deployment_resource c;
  time_zone = c.time_zone;
  use_tool_fakes = c.use_tool_fakes;
})

abbrev pub initial_text_input : String
initial_text_input = "hello"

-- The options of the client that the configuration asks for.
pub data ClientOption : Type 0 where
  with_endpoint with_credentials_file : String → ClientOption

unfoldable pub client_options : CesConfig → List ClientOption
client_options c =
    (if str_eq c.endpoint "" then [] else with_endpoint c.endpoint ∷ [])
    ++ (if str_eq c.credentials_file "" then [] else with_credentials_file c.credentials_file ∷ [])

-- What the client library answers: whether there is a client, whether it opens a session with the
-- routing header, and whether the session takes a message.
pub record Library : Type 0 where
  pub new_client : List ClientOption → Bool
  pub open_session : String → Bool
  pub takes : ClientMessage → Bool

-- What a dial holds and has done.
pub record Dialed : Type 0 where
  pub client_open : Bool
  pub canceled : Bool
  pub sent : List ClientMessage
  pub loops_started : Bool

abbrev pub undialed : Dialed
undialed = record { client_open = false; canceled = false; sent = []; loops_started = false }

-- `client.Close()` and `cancel()` on the way out of an error.
abbrev pub give_up : Dialed → Dialed × Bool
give_up d = (record d { client_open = false; canceled = true }, false)

abbrev pub record_sent : Dialed → ClientMessage → Dialed
record_sent d m = record d { sent = d.sent ++ (m ∷ []) }

-- `dialGRPC`, and whether it returns a stream.
unfoldable pub dial_grpc : Library → CesConfig → String → Dialed → Dialed × Bool
unfolding new_config_message client_options
dial_grpc lib c session_id d =
    let config = new_config_message c session_id in
    let hello = text_message initial_text_input in
    let opened = record d { client_open = true } in
    let configured = record_sent opened config in
    let greeted = record_sent configured hello in
    if not (lib.new_client (client_options c))
    then (record d { canceled = true }, false)
    else if not (lib.open_session (str_append "location=locations/" c.location))
    then give_up opened
    else if not (lib.takes config)
    then give_up opened
    else if not (lib.takes hello)
    then give_up configured
    else (record greeted { loops_started = true }, true)

-- The getters of `SessionOutput`.
pub record SessionOutput : Type 0 where
  pub audio : Bytes
  pub text : Bytes
  pub turn_completed : Bool
  pub end_session : Bool

-- What `BidiSessionServerMessage` carries; a recognition result has the caller's words.
pub data ServerMessage : Type 0 where
  session_output : SessionOutput → ServerMessage
  recognition_result : Bytes → ServerMessage
  interruption_signal end_session go_away other : ServerMessage

abbrev pub audio_event : Bytes → Event
audio_event audio = record { type = EventType.audio; audio = audio; text = [] }

abbrev pub text_event : EventType → Bytes → Event
text_event type text = record { type = type; audio = []; text = text }

-- `emitServerMessage`: `emit` is the callback, over a state that it changes; the result is the state
-- and the error.
module _ {S : Type 0} (emit : Event → S → S × Bool) where
  -- An event, then what follows if it was taken.
  abbrev pub emit_then : Event → (S → S × Option StreamError) → S → S × Option StreamError
  emit_then e next s =
      let (s', taken) = emit e s in if taken then next s' else (s', some StreamError.canceled)

  -- The same where the event is only for some messages.
  abbrev pub emit_if : Bool → Event → (S → S × Option StreamError) → S → S × Option StreamError
  emit_if b e next s = if b then emit_then e next s else next s

  abbrev pub return : Option StreamError → S → S × Option StreamError
  return err s = (s, err)

  unfoldable pub emit_server_message : ServerMessage → S → S × Option StreamError
  emit_server_message (session_output out) s =
      emit_if (not (length out.audio == 0)) (audio_event out.audio)
        (emit_if (not (length out.text == 0)) (text_event EventType.bot_transcript out.text) (
          emit_if out.turn_completed (text_event EventType.turn_complete []) (
            if out.end_session
            then emit_then (text_event EventType.end_session [])
                (return (some StreamError.agent_ended))
            else return none)))
        s
  emit_server_message (recognition_result words) s =
      emit_then (text_event EventType.user_transcript []) (return none) s
  emit_server_message interruption_signal s =
      emit_then (text_event EventType.barge_in []) (return none) s
  emit_server_message end_session s =
      emit_then (text_event EventType.end_session []) (return (some StreamError.agent_ended)) s
  emit_server_message go_away s =
      emit_then (text_event EventType.go_away []) (return (some StreamError.go_away)) s
  emit_server_message other s = return none s
