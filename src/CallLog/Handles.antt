-- ===== src/CallLog/Handles.antt =====
-- internal/calllog/calllog.go: the shared clients, made and closed.
use text.Mathlib.Text.{◌==◌ as str_eq}
use sip_relay.Prelude.{◌≡◌, not, Option, none, some, arith}
use sip_relay.Config.{CallLogConfig}
use sip_relay.CallLog.{Clients}
use sip_relay.CallLog.Making.{Services, Alive, new_clients, close_clients}

-- The clients that a configuration asks for.
abbrev pub IsAsked : CallLogConfig → Clients → Type 0
IsAsked conf c =
    (c.bucket ≡ conf.recording_bucket)
    × (c.storage ≡ not (str_eq conf.recording_bucket ""))
    × (c.pubsub ≡ not (str_eq conf.pubsub_topic_id ""))
    × (c.publisher ≡ not (str_eq conf.pubsub_topic_id ""))

-- What NewClients leaves: the clients that the configuration asks for, or none alive but those before.
abbrev pub IsMade : CallLogConfig → Alive → Option Clients × Alive → Type 0
IsMade conf before (none, after) = after ≡ before
IsMade conf before (some c, after) = IsAsked conf c × (close_clients (some c) after ≡ before)

-- NewClients returns just the clients that the configuration asks for, and then closing them leaves
-- alive what was before; or it returns an error, and has left alive just what was before.
pub new_clients_lem :
    (s : Services) (conf : CallLogConfig) (alive : Alive)
    → IsMade conf alive (new_clients s conf alive)
unfolding new_clients close_clients
new_clients_lem s conf alive = ground arith
