-- ===== src/CallLog/Making.antt =====
-- internal/calllog/calllog.go: NewClients, with its options, and Close of the clients.
use Prim.Native.String.{String}
use text.Mathlib.Text.{◌==◌ as str_eq}
use sip_relay.Prelude.{
  ℕ, ◌+◌, ◌-◌, Bool, true, false, Option, none, some, List, [], ◌∷◌, if◌then◌else◌,
}
use sip_relay.Config.{CallLogConfig}
use sip_relay.CallLog.{Clients}

-- What the two services answer when a client is made, with the credentials file if there is one.
pub record Services : Type 0 where
  pub new_storage : List String → Bool
  pub new_pubsub : String → List String → Bool

-- The clients that are alive.
pub record Alive : Type 0 where
  pub storages : ℕ
  pub pubsubs : ℕ
  pub publishers : ℕ

-- `clientOptions`
unfoldable pub client_options : String → List String
client_options credentials_file = if str_eq credentials_file "" then [] else credentials_file ∷ []

abbrev storage_made : Alive → Alive
storage_made alive = record alive { storages = alive.storages + 1 }

abbrev pubsub_made : Alive → Alive
pubsub_made alive = record alive { pubsubs = alive.pubsubs + 1; publishers = alive.publishers + 1 }

-- `storage.Close()`
abbrev storage_gone : Alive → Alive
storage_gone alive = record alive { storages = alive.storages - 1 }

-- The second half of `NewClients`, with what the first half has made.
unfoldable pub add_pubsub : Services → CallLogConfig → Clients → Alive → Option Clients × Alive
unfolding client_options
add_pubsub s conf c alive =
    if str_eq conf.pubsub_topic_id ""
    then (some c, alive)
    else if s.new_pubsub conf.pubsub_project_id (client_options conf.credentials_file)
    then (some (record c { pubsub = true; publisher = true }), pubsub_made alive)
    else (none, if c.storage then storage_gone alive else alive)

-- `NewClients`: the clients, unless there was an error.
unfoldable pub new_clients : Services → CallLogConfig → Alive → Option Clients × Alive
unfolding client_options add_pubsub
new_clients s conf alive =
    let empty : Clients = record {
      bucket = conf.recording_bucket;
      storage = false;
      pubsub = false;
      publisher = false;
    } in
    if str_eq conf.recording_bucket ""
    then add_pubsub s conf empty alive
    else if s.new_storage (client_options conf.credentials_file)
    then add_pubsub s conf (record empty { storage = true }) (storage_made alive)
    else (none, alive)

-- `Clients.Close`
unfoldable pub close_clients : Option Clients → Alive → Alive
close_clients none alive = alive
close_clients (some c) alive = record {
  publishers = if c.publisher then alive.publishers - 1 else alive.publishers;
  pubsubs = if c.pubsub then alive.pubsubs - 1 else alive.pubsubs;
  storages = if c.storage then alive.storages - 1 else alive.storages;
}
