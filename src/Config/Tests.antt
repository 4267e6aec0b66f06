-- ===== src/Config/Tests.antt =====
-- A configuration with one extension on each backend.
use sip_relay.Prelude.{◌≡◌, refl, true, false, none, some, [], ◌∷◌}
use sip_relay.Prelude.Int.{pos}
use sip_relay.Config.{
  route_of, Parsers, Config, CesConfig, WebSocketConfig, Loaded, validate, load, apply_defaults,
  apply_ces_defaults, apply_websocket_defaults, resolve_profile, validate_ces, validate_websocket,
  validate_route, validate_extensions, validate_ces_profile, validate_websocket_profile,
  validate_direction, validate_transcode, validate_url, map_values,
}
use sip_relay.Config.Valid.{IsUsable, validate-IsUsable}

-- Every text is an address, and the URL of one host.
abbrev pub parsers : Parsers
parsers = record {
  is_addr = λ s. true;
  parse_url =
      λ s. some (record { scheme = "https"; host = s; path = "/"; raw_query = ""; fragment = "" });
}

abbrev agent : CesConfig
agent = record {
  project_id = "p";
  location = "";
  app_id = "a";
  deployment_id = "";
  endpoint = "";
  credentials_file = "";
  session_prefix = "";
  noise_suppression_level = "";
  time_zone = "";
  use_tool_fakes = false;
}

abbrev bridge : WebSocketConfig
bridge = record {
  base_url = "bridge.example";
  session_timeout = pos 0;
  connect_timeout = pos 5000000000;
  max_message_bytes = pos 0;
  transcode = record {
    input = record { enabled = true; sample_rate = pos 0 };
    output = record { enabled = false; sample_rate = pos 0 };
  };
}

abbrev pub decoded : Config
decoded = record {
  sip = record {
    listen_ip = "";
    listen_port = pos 5060;
    advertised_ip = "192.0.2.1";
    user_agent = "";
  };
  rtp = record {
    listen_ip = "0.0.0.0";
    port_min = pos 10000;
    port_max = pos 20000;
    symmetric_rtp = true;
    media_timeout_initial = pos 30000000000;
    media_timeout = pos 15000000000;
  };
  ces = ("default", agent) ∷ [];
  websocket = ("default", bridge) ∷ [];
  extensions =
      ("100", record { backend = "ces"; profile = "" })
      ∷ ("200", record { backend = "websocket"; profile = "default" })
      ∷ [];
  call_log = record {
    pubsub_project_id = "";
    pubsub_topic_id = "";
    recording_bucket = "";
    credentials_file = "";
  };
}

pub validates : validate parsers (apply_defaults decoded) ≡ none
unfolding validate apply_defaults apply_ces_defaults apply_websocket_defaults validate_extensions
    validate_route validate_ces_profile validate_websocket_profile validate_ces validate_websocket
    validate_direction validate_transcode validate_url resolve_profile map_values
validates = refl

loads : load parsers "relay.yaml" (some decoded) ≡ Loaded.loaded (apply_defaults decoded)
unfolding load
loads = rw validates

validate-IsUsable_example : IsUsable parsers (apply_defaults decoded)
validate-IsUsable_example = validate-IsUsable parsers (apply_defaults decoded) validates

pub routed :
    route_of (apply_defaults decoded) "100" ≡ some (record { backend = "ces"; profile = "" })
unfolding route_of apply_defaults map_values
routed = refl
