-- ===== src/Config.antt =====
-- internal/config/config.go: the configuration, its defaults and its validation. A map is a list of
-- keys and values in the order in which it is ranged over; `Parsers` is what net/netip and net/url
-- make of a text.
pub mod Valid
pub mod Minimal
pub mod Tests
use Prim.Native.String.{String}
use text.Mathlib.Text.{◌==◌ as str_eq}
use sip_relay.Prelude.{
  ℕ, Bool, true, false, not, ◌&&◌, ◌||◌, Option, none, some, List, [], ◌∷◌, if◌then◌else◌,
}
use sip_relay.Prelude.Int.{ℤ, pos, leb_ℤ, ltb_ℤ}
use sip_relay.Prelude.Maps.{lookup}

-- The fields of `url.URL` that are read.
pub record Url : Type 0 where
  pub scheme : String
  pub host : String
  pub path : String
  pub raw_query : String
  pub fragment : String

-- `netip.ParseAddr` succeeds; what `url.Parse` returns.
pub record Parsers : Type 0 where
  pub is_addr : String → Bool
  pub parse_url : String → Option Url

-- `SIPConfig`
pub record SipConfig : Type 0 where
  pub listen_ip : String
  pub listen_port : ℤ
  pub advertised_ip : String
  pub user_agent : String

-- `RTPConfig`; durations are nanoseconds.
pub record RtpConfig : Type 0 where
  pub listen_ip : String
  pub port_min : ℤ
  pub port_max : ℤ
  pub symmetric_rtp : Bool
  pub media_timeout_initial : ℤ
  pub media_timeout : ℤ

-- `CESConfig`
pub record CesConfig : Type 0 where
  pub project_id : String
  pub location : String
  pub app_id : String
  pub deployment_id : String
  pub endpoint : String
  pub credentials_file : String
  pub session_prefix : String
  pub noise_suppression_level : String
  pub time_zone : String
  pub use_tool_fakes : Bool

-- `TranscodeDirectionConfig`
pub record DirectionConfig : Type 0 where
  pub enabled : Bool
  pub sample_rate : ℤ

-- `TranscodeConfig`
pub record TranscodeConfig : Type 0 where
  pub input : DirectionConfig
  pub output : DirectionConfig

-- `WebSocketConfig`
pub record WebSocketConfig : Type 0 where
  pub base_url : String
  pub session_timeout : ℤ
  pub connect_timeout : ℤ
  pub max_message_bytes : ℤ
  pub transcode : TranscodeConfig

-- `ExtensionConfig`
pub record ExtensionConfig : Type 0 where
  pub backend : String
  pub profile : String

-- `CallLogConfig`
pub record CallLogConfig : Type 0 where
  pub pubsub_project_id : String
  pub pubsub_topic_id : String
  pub recording_bucket : String
  pub credentials_file : String

-- `Config`
pub record Config : Type 0 where
  pub sip : SipConfig
  pub rtp : RtpConfig
  pub ces : List (String × CesConfig)
  pub websocket : List (String × WebSocketConfig)
  pub extensions : List (String × ExtensionConfig)
  pub call_log : CallLogConfig

-- The errors of `Validate`, one for each message, and what `Load` fails with besides.
pub data ConfigError : Type 0 where
  listen_port advertised_ip rtp_listen_ip port_range media_timeouts no_extension empty_extension :
      ConfigError
  ces_profile websocket_profile backend_name ces_project ces_location ces_app : ConfigError
  base_url base_url_query base_url_path websocket_timeouts message_bytes : ConfigError
  input_rate output_rate pubsub_project : ConfigError
  no_path unreadable : ConfigError

abbrev pub is_empty : String → Bool
is_empty s = str_eq s ""

-- `ResolveProfile`
unfoldable pub resolve_profile : ExtensionConfig → String
resolve_profile route = if is_empty route.profile then "default" else route.profile

-- `Route`
unfoldable pub route_of : Config → String → Option ExtensionConfig
route_of c extension = lookup extension c.extensions

-- `if bad { return err }`, then what follows.
infixr 20 ◌orelse◌
abbrev pub ◌orelse◌ : Option ConfigError → Option ConfigError → Option ConfigError
none orelse rest = rest
some e orelse rest = some e

abbrev pub fails_if : Bool → ConfigError → Option ConfigError
fails_if true e = some e
fails_if false e = none

-- `CESConfig.Validate`
pub validate_ces : CesConfig → Option ConfigError
validate_ces c =
    fails_if (is_empty c.project_id) ConfigError.ces_project
    orelse fails_if (is_empty c.location) ConfigError.ces_location
    orelse fails_if (is_empty c.app_id) ConfigError.ces_app

-- `TranscodeDirectionConfig.validate`
validate_direction : DirectionConfig → ConfigError → Option ConfigError
validate_direction d e = fails_if (d.enabled && leb_ℤ d.sample_rate (pos 0)) e

-- `TranscodeConfig.Validate`
validate_transcode : TranscodeConfig → Option ConfigError
unfolding validate_direction
validate_transcode t =
    validate_direction t.input ConfigError.input_rate
    orelse validate_direction t.output ConfigError.output_rate

-- The tests of `WebSocketConfig.Validate` on the parsed URL.
validate_url : Option Url → Option ConfigError
validate_url none = some ConfigError.base_url
validate_url (some u) =
    fails_if (is_empty u.host || (not (str_eq u.scheme "http") && not (str_eq u.scheme "https")))
      ConfigError.base_url
    orelse fails_if (not (is_empty u.raw_query) || not (is_empty u.fragment))
        ConfigError.base_url_query
    orelse fails_if (not (is_empty u.path) && not (str_eq u.path "/")) ConfigError.base_url_path

-- `WebSocketConfig.Validate`
pub validate_websocket : Parsers → WebSocketConfig → Option ConfigError
validate_websocket ps c =
    validate_url (ps.parse_url c.base_url)
    orelse fails_if (leb_ℤ c.session_timeout (pos 0) || leb_ℤ c.connect_timeout (pos 0))
        ConfigError.websocket_timeouts
    orelse fails_if (leb_ℤ c.max_message_bytes (pos 0)) ConfigError.message_bytes
    orelse validate_transcode c.transcode

-- What `Validate` does with the profile that it looked up.
validate_ces_profile : Option CesConfig → Option ConfigError
validate_ces_profile none = some ConfigError.ces_profile
validate_ces_profile (some c) = validate_ces c

validate_websocket_profile : Parsers → Option WebSocketConfig → Option ConfigError
validate_websocket_profile ps none = some ConfigError.websocket_profile
validate_websocket_profile ps (some c) = validate_websocket ps c

-- The switch of `Validate` on the route's backend.
validate_route : Parsers → Config → ExtensionConfig → Option ConfigError
validate_route ps c route =
    if str_eq route.backend "ces"
    then validate_ces_profile (lookup (resolve_profile route) c.ces)
    else if str_eq route.backend "websocket"
    then validate_websocket_profile ps (lookup (resolve_profile route) c.websocket)
    else some ConfigError.backend_name

-- The loop of `Validate` over the extensions.
validate_extensions : Parsers → Config → List (String × ExtensionConfig) → Option ConfigError
validate_extensions ps c [] = none
validate_extensions ps c ((extension, route) ∷ rest) =
    fails_if (is_empty extension) ConfigError.empty_extension
    orelse validate_route ps c route
    orelse validate_extensions ps c rest

abbrev is_nil : List (String × ExtensionConfig) → Bool
is_nil [] = true
is_nil (x ∷ xs) = false

-- `Validate`
pub validate : Parsers → Config → Option ConfigError
validate ps c =
    fails_if (leb_ℤ c.sip.listen_port (pos 0) || ltb_ℤ (pos 65535) c.sip.listen_port)
      ConfigError.listen_port
    orelse fails_if (not (ps.is_addr c.sip.advertised_ip)) ConfigError.advertised_ip
    orelse fails_if (not (ps.is_addr c.rtp.listen_ip)) ConfigError.rtp_listen_ip
    orelse fails_if
        (leb_ℤ c.rtp.port_min (pos 0)
          || ltb_ℤ c.rtp.port_max c.rtp.port_min
          || ltb_ℤ (pos 65535) c.rtp.port_max)
        ConfigError.port_range
    orelse fails_if (leb_ℤ c.rtp.media_timeout_initial (pos 0) || leb_ℤ c.rtp.media_timeout (pos 0))
        ConfigError.media_timeouts
    orelse fails_if (is_nil c.extensions) ConfigError.no_extension
    orelse validate_extensions ps c c.extensions
    orelse fails_if
        (not (is_empty c.call_log.pubsub_topic_id) && is_empty c.call_log.pubsub_project_id)
        ConfigError.pubsub_project

abbrev or_default : String → String → String
or_default s d = if is_empty s then d else s

-- `applyCESDefaults`
unfoldable pub apply_ces_defaults : CesConfig → CesConfig
apply_ces_defaults c = record c {
  location = or_default c.location "us";
  endpoint = or_default c.endpoint "ces.googleapis.com:443";
  session_prefix = or_default c.session_prefix "sip";
}

abbrev or_default_int : ℤ → ℕ → ℤ
or_default_int n d = if leb_ℤ n (pos 0) && leb_ℤ (pos 0) n then pos d else n

abbrev default_rate : DirectionConfig → ℕ → DirectionConfig
default_rate d rate = record d { sample_rate = or_default_int d.sample_rate rate }

-- `applyWebSocketDefaults`
unfoldable pub apply_websocket_defaults : WebSocketConfig → WebSocketConfig
apply_websocket_defaults c = record c {
  session_timeout = or_default_int c.session_timeout 15000000000;
  connect_timeout = or_default_int c.connect_timeout 15000000000;
  max_message_bytes = or_default_int c.max_message_bytes 4194304;
  transcode = record {
    input = default_rate c.transcode.input 16000;
    output = default_rate c.transcode.output 24000;
  };
}

-- `Default`
unfoldable pub default_config : Config
default_config = record {
  sip = record {
    listen_ip = "0.0.0.0";
    listen_port = pos 5060;
    advertised_ip = "127.0.0.1";
    user_agent = "sip-relay";
  };
  rtp = record {
    listen_ip = "0.0.0.0";
    port_min = pos 10000;
    port_max = pos 20000;
    symmetric_rtp = true;
    media_timeout_initial = pos 30000000000;
    media_timeout = pos 15000000000;
  };
  ces = [];
  websocket = [];
  extensions = [];
  call_log = record {
    pubsub_project_id = "";
    pubsub_topic_id = "";
    recording_bucket = "";
    credentials_file = "";
  };
}

-- A loop of `Load` that replaces each value of a map.
module _ {V : Type 0} (f : V → V) where
  pub map_values : List (String × V) → List (String × V)
  map_values [] = []
  map_values ((k, v) ∷ m) = (k, f v) ∷ map_values m

-- The two loops of `Load`.
unfoldable pub apply_defaults : Config → Config
unfolding map_values
apply_defaults c = record c {
  ces = map_values apply_ces_defaults c.ces;
  websocket = map_values apply_websocket_defaults c.websocket;
}

pub data Loaded : Type 0 where
  loaded : Config → Loaded
  rejected : ConfigError → Loaded

-- `Load`, after the file was read: `decoded` is what the YAML decoder makes of it over `Default()`.
pub load : Parsers → String → Option Config → Loaded
load ps path decoded = if is_empty path then Loaded.rejected ConfigError.no_path else elim decoded [
  | none ↦ Loaded.rejected ConfigError.unreadable
  | some c ↦ elim (validate ps (apply_defaults c)) [
    | none ↦ Loaded.loaded (apply_defaults c)
    | some e ↦ Loaded.rejected e
  ]
]
