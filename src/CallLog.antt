-- ===== src/CallLog.antt =====
-- internal/calllog/calllog.go: the recorder of a call, the clients of the cloud services, and what
-- Call.finish of internal/call/call.go does with them. What the file system and the services answer
-- comes as an argument.
pub mod Final
pub mod Recording
pub mod Handles
pub mod Making
mod Tests
use Prim.Native.String.{String}
use text.Mathlib.Text.{◌==◌ as str_eq}
use sip_relay.Prelude.{
  ℕ, ◌+◌, ◌-◌, Bool, true, false, not, ◌&&◌, Option, none, some, List, [], ◌∷◌, ◌++◌, ◌==◌,
  if◌then◌else◌, length, take, drop,
}
use sip_relay.Backend.{Bytes}
use sip_relay.Config.{CallLogConfig}
use sip_relay.Call.{EndReason, Call, HangupReason, hangup_reason}
use sip_relay.Relay.{ConversationEvent, History}
use sip_relay.Names.{recording_object_name}

-- `Entry`
pub record Entry : Type 0 where
  pub backend : String
  pub profile : String
  pub provider : List (String × String)
  pub conversation_id : Bytes
  pub ani : Bytes
  pub dnis : Bytes
  pub start_time : ℕ
  pub end_time : ℕ
  pub hangup_reason : HangupReason
  pub conversation_history : List ConversationEvent

-- `Recorder` with its temporary file: what the file holds, where the next write goes, whether the
-- handle is there (`r.file` is not nil), and whether the file is on the disk.
pub record Recorder : Type 0 where
  pub contents : Bytes
  pub offset : ℕ
  pub has_file : Bool
  pub on_disk : Bool

-- `NewRecorder`, which is nil when recording is off; the flag is whether `os.CreateTemp` succeeds. An
-- error leaves no recorder either.
unfoldable pub new_recorder : Bool → Bool → Option Recorder
new_recorder enabled created =
    if enabled && created
    then some (record { contents = []; offset = 0; has_file = true; on_disk = true })
    else none

-- A write into a file at an offset.
abbrev pub overwrite : Bytes → ℕ → Bytes → Bytes
overwrite old offset new = take offset old ++ (new ++ drop (offset + length new) old)

-- The file takes bytes at its offset.
abbrev pub put : Recorder → Bytes → Recorder
put r new = record r {
  contents = overwrite r.contents r.offset new;
  offset = r.offset + length new;
}

-- `Write`, and whether it returns nil. `File.Write` takes all of the payload, or fails after so many
-- bytes.
unfoldable pub write : Bytes → Option ℕ → Option Recorder → Option Recorder × Bool
write payload failed none = (none, true)
write payload failed (some r) =
    if length payload == 0
    then (some r, true)
    else if not r.has_file
    then (some r, false)
    else elim failed [
      | none ↦ (some (put r payload), true)
      | some n ↦ (some (put r (take n payload)), false)
    ]

-- `closeLocked` and `Close`; the flag is whether `File.Close` succeeds.
unfoldable pub close_locked : Bool → Recorder → Recorder × Bool
close_locked closes r = if r.has_file then (record r { has_file = false }, closes) else (r, true)

-- `Remove`; the last flag is whether `os.Remove` succeeds.
unfoldable pub remove : Bool → Bool → Option Recorder → Option Recorder × Bool
unfolding close_locked
remove closes removes none = (none, true)
remove closes removes (some r) =
    let (r', closed) = close_locked closes r in
    let gone = record r' { on_disk = r'.on_disk && not removes } in (some gone, closed && removes)

-- An object of a bucket.
pub record Object : Type 0 where
  pub bucket : String
  pub name : Bytes
  pub contents : Bytes

-- `Clients`: whether there are a storage client, a Pub/Sub client and a publisher.
pub record Clients : Type 0 where
  pub bucket : String
  pub storage : Bool
  pub pubsub : Bool
  pub publisher : Bool

-- What the services hold.
pub record Cloud : Type 0 where
  pub objects : List Object
  pub published : List Entry

-- What an upload meets: whether `Sync` and `Seek` succeed, after how many bytes, if at all, `Copy` fails, and
-- whether closing the writer of the object succeeds, which saves what it was given.
pub record Uploading : Type 0 where
  pub syncs : Bool
  pub seeks : Bool
  pub copy_fails : Option ℕ
  pub writer_closes : Bool

-- What `Upload` returns: nothing to do, the object that the URI names, or an error.
pub data Uploaded : Type 0 where
  skipped : Uploaded
  stored : String → Bytes → Uploaded
  failed : Uploaded

abbrev pub save : Clients → Bytes → Bytes → Bool → Cloud → Cloud
save clients name contents closes cloud =
    if closes
    then (record cloud {
      objects =
          cloud.objects
          ++ (record { bucket = clients.bucket; name = name; contents = contents } ∷ []);
    })
    else cloud

-- `Seek` to the start of the file.
abbrev pub rewound : Recorder → Recorder
rewound r = record r { offset = 0 }

-- The copy of the file, from its offset on, into the object.
abbrev pub copy_file : Uploading → Clients → Bytes → Recorder → Cloud → Recorder × Cloud × Uploaded
copy_file u clients name r cloud = elim u.copy_fails [
  | some n ↦ (
    record r { offset = r.offset + n },
    save clients name (take n (drop r.offset r.contents)) u.writer_closes cloud,
    Uploaded.failed,
  )
  | none ↦ (
    record r { offset = length r.contents },
    save clients name (drop r.offset r.contents) u.writer_closes cloud,
    if u.writer_closes then Uploaded.stored clients.bucket name else Uploaded.failed,
  )
]

-- `Upload`
unfoldable pub upload :
    Uploading
    → Option Clients
    → Bytes
    → Option Recorder
    → Cloud
    → Option Recorder × Cloud × Uploaded
upload u clients call_id none cloud = (none, cloud, Uploaded.skipped)
upload u none call_id (some r) cloud = (some r, cloud, Uploaded.skipped)
upload u (some clients) call_id (some r) cloud =
    if not clients.storage
    then (some r, cloud, Uploaded.skipped)
    else if not (r.has_file && u.syncs)
    then (some r, cloud, Uploaded.failed)
    else if not u.seeks
    then (some r, cloud, Uploaded.failed)
    else let (r', cloud', result) =
        copy_file u clients (recording_object_name call_id) (rewound r) cloud in
      (some r', cloud', result)

-- `Publish`; the flag is whether the service takes the message. `json.Marshal` does not fail on an entry.
unfoldable pub publish : Option Clients → Bool → Entry → Cloud → Cloud × Bool
publish none taken entry cloud = (cloud, true)
publish (some clients) taken entry cloud =
    if not clients.publisher
    then (cloud, true)
    else if taken
    then (record cloud { published = cloud.published ++ (entry ∷ []) }, true)
    else (cloud, false)

-- What a call knows of itself: the backend's name and metadata, its profile, ID and numbers.
pub record Identity : Type 0 where
  pub backend : String
  pub provider : List (String × String)
  pub profile : String
  pub id : Bytes
  pub ani : Bytes
  pub dnis : Bytes

-- What `finish` meets.
pub record Finishing : Type 0 where
  pub uploading : Uploading
  pub file_closes : Bool
  pub file_removed : Bool
  pub taken : Bool
  pub ended_at : ℕ

unfoldable pub entry_of : Identity → ℕ → ℕ → Call → History → Entry
entry_of who started_at ended_at c history = record {
  backend = who.backend;
  profile = who.profile;
  provider = who.provider;
  conversation_id = who.id;
  ani = who.ani;
  dnis = who.dnis;
  start_time = started_at;
  end_time = ended_at;
  hangup_reason = hangup_reason c.reason;
  conversation_history = history.entries;
}

-- `finish`
unfoldable pub finish :
    Finishing
    → Option Clients
    → Identity
    → ℕ
    → Call
    → History
    → Option Recorder
    → Cloud
    → Option Recorder × Cloud
unfolding upload remove publish entry_of
finish f clients who started_at c history recorder cloud =
    let (uploaded, cloud', result) = upload f.uploading clients who.id recorder cloud in
    let (removed, ok) = remove f.file_closes f.file_removed uploaded in
    let entry = entry_of who started_at f.ended_at c history in
    (removed, (publish clients f.taken entry cloud').0)
