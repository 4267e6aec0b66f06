-- ===== src/CallLog/Tests.antt =====
-- A call that is recorded, and its end with good and bad luck.
use sip_relay.Prelude.{◌≡◌, refl, true, false, none, some, List, [], ◌∷◌}
use sip_relay.Backend.{Bytes}
use sip_relay.Config.{CallLogConfig}
use sip_relay.Call.{new_call}
use sip_relay.Relay.{new_history}
use sip_relay.CallLog.{
  Recorder, new_recorder, write, Clients, Cloud, Uploading, Uploaded, upload, Identity, Finishing,
  Entry, finish, remove,
}
use sip_relay.CallLog.Handles.{IsMade, new_clients_lem}
use sip_relay.CallLog.Making.{Services, Alive, new_clients}
use sip_relay.CallLog.Final.{leaves_file, IsEntry, finish_tidy}
use sip_relay.CallLog.Recording.{write_all, recording, finish-recording}

abbrev both : Clients
both = record { bucket = "calls"; storage = true; pubsub = true; publisher = true }

abbrev empty_cloud : Cloud
empty_cloud = record { objects = []; published = [] }

abbrev caller : Identity
caller = record {
  backend = "ces";
  provider = [];
  profile = "";
  id = b'c' ∷ b'1' ∷ [];
  ani = [];
  dnis = [];
}

abbrev smooth : Uploading
smooth = record { syncs = true; seeks = true; copy_fails = none; writer_closes = true }

abbrev lucky : Finishing
lucky = record {
  uploading = smooth;
  file_closes = true;
  file_removed = true;
  taken = true;
  ended_at = 9;
}

-- Reading the file fails after one byte.
abbrev unlucky : Finishing
unlucky = record lucky {
  uploading = record { syncs = true; seeks = true; copy_fails = some 1; writer_closes = true };
}

abbrev payloads : List Bytes
payloads = (1 ∷ 2 ∷ []) ∷ [] ∷ (3 ∷ []) ∷ []

finish-recording_example :
    (finish lucky
      (some both)
      caller
      5
      new_call
      new_history
      (write_all payloads (new_recorder true true))
      empty_cloud).1.objects
    ≡ recording both caller (1 ∷ 2 ∷ 3 ∷ []) ∷ []
finish-recording_example =
    finish-recording payloads lucky both caller 5 new_call new_history empty_cloud refl
      (refl, refl, refl, refl)

abbrev recorded : Recorder
recorded = record { contents = 1 ∷ 2 ∷ 3 ∷ []; offset = 3; has_file = true; on_disk = true }

writes : write_all payloads (new_recorder true true) ≡ some recorded
unfolding write new_recorder
writes = refl

-- A write that fails half way keeps what it wrote, and after the file is closed no write succeeds.
broken_writes :
    (write (7 ∷ 8 ∷ []) (some 1) (new_recorder true true)).0
    ≡ some (record { contents = 7 ∷ []; offset = 1; has_file = true; on_disk = true })
unfolding write new_recorder
broken_writes = refl

late_write : (write (7 ∷ []) none (remove true true (some recorded)).0).1 ≡ false
unfolding write remove
late_write = refl

-- Then the object has the first byte only, and the file is deleted all the same.
truncated :
    let out =
      finish unlucky (some both) caller 5 new_call new_history (some recorded) empty_cloud in
    (out.1.objects ≡ recording both caller (1 ∷ []) ∷ [])
    × ((upload unlucky.uploading (some both) caller.id (some recorded) empty_cloud).2
        ≡ Uploaded.failed)
    × (leaves_file out.0 ≡ false)
unfolding finish upload remove
truncated = (refl, refl, refl)

finish_tidy_example :
    let out =
      finish unlucky (some both) caller 5 new_call new_history (some recorded) empty_cloud in
    (entry : Entry) × IsEntry caller 5 9 new_call new_history entry
    × (leaves_file out.0 ≡ false)
    × (out.1.published ≡ entry ∷ [])
finish_tidy_example =
    finish_tidy unlucky (some both) caller 5 new_call new_history (some recorded) empty_cloud

-- Pub/Sub cannot be reached.
abbrev half : Services
half = record { new_storage = λ files. true; new_pubsub = λ project files. false }

abbrev log_conf : CallLogConfig
log_conf = record {
  pubsub_project_id = "p";
  pubsub_topic_id = "t";
  recording_bucket = "calls";
  credentials_file = "";
}

abbrev none_alive : Alive
none_alive = record { storages = 0; pubsubs = 0; publishers = 0 }

new_clients_lem_example : IsMade log_conf none_alive (new_clients half log_conf none_alive)
new_clients_lem_example = new_clients_lem half log_conf none_alive

no_clients : (new_clients half log_conf none_alive).0 ≡ none
unfolding new_clients
no_clients = refl
