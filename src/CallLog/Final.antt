-- ===== src/CallLog/Final.antt =====
-- internal/calllog/calllog.go and Call.finish of internal/call/call.go: what is left of a call.
use sip_relay.Prelude.{
  ℕ, ◌≡◌, refl, ap, ◌∙◌, Bool, false, not, ◌&&◌, Option, none, some, [], ◌∷◌, ◌++◌, arith,
  if◌then◌else◌, append-nil,
}
use sip_relay.Backend.{Bytes}
use sip_relay.Call.{EndReason, Call, HangupReason, hangup_reason}
use sip_relay.Relay.{History}
use sip_relay.CallLog.{
  Entry, Recorder, remove, Clients, Cloud, Uploading, upload, publish, Identity, Finishing,
  entry_of, finish,
}

-- A recorder is left of which the temporary file is still on the disk.
abbrev pub leaves_file : Option Recorder → Bool
leaves_file none = false
leaves_file (some r) = r.on_disk

abbrev pub has_publisher : Option Clients → Bool
has_publisher none = false
has_publisher (some c) = c.publisher

upload-leaves_file :
    (u : Uploading) (clients : Option Clients) (id : Bytes) (r : Option Recorder) (cloud : Cloud)
    → let out = upload u clients id r cloud in
      (leaves_file out.0 ≡ leaves_file r) × (out.1.published ≡ cloud.published)
unfolding upload
upload-leaves_file u clients id r cloud = ground arith

remove-leaves_file :
    (closes removes : Bool) (r : Option Recorder)
    → leaves_file (remove closes removes r).0 ≡ leaves_file r && not removes
unfolding remove
remove-leaves_file closes removes r = ground arith

publish-published :
    (clients : Option Clients) (taken : Bool) (entry : Entry) (cloud : Cloud)
    → (publish clients taken entry cloud).0.published
      ≡ cloud.published ++ (if has_publisher clients && taken then entry ∷ [] else [])
unfolding publish
publish-published clients taken entry cloud = ground (arith, append-nil cloud.published)

pub publish-objects :
    (clients : Option Clients) (taken : Bool) (entry : Entry) (cloud : Cloud)
    → (publish clients taken entry cloud).0.objects ≡ cloud.objects
unfolding publish
publish-objects clients taken entry cloud = ground arith

-- What the log says of the reason.
abbrev pub logged_reason : EndReason → HangupReason
logged_reason EndReason.agent = HangupReason.agent_ended
logged_reason EndReason.transfer = HangupReason.transferred
logged_reason EndReason.backend = HangupReason.backend_error
logged_reason _ = HangupReason.user_ended

-- The entry of a call, field by field.
pub record IsEntry (who : Identity) (started_at ended_at : ℕ) (c : Call) (history : History)
    (e : Entry) : Type 0 where
  pub backend : e.backend ≡ who.backend
  pub profile : e.profile ≡ who.profile
  pub provider : e.provider ≡ who.provider
  pub conversation_id : e.conversation_id ≡ who.id
  pub ani : e.ani ≡ who.ani
  pub dnis : e.dnis ≡ who.dnis
  pub times : (e.start_time ≡ started_at) × (e.end_time ≡ ended_at)
  pub hangup_reason : e.hangup_reason ≡ logged_reason c.reason
  pub conversation_history : e.conversation_history ≡ history.entries

logged_reason_lem : (r : EndReason) → hangup_reason r ≡ logged_reason r
unfolding hangup_reason
logged_reason_lem r = ground arith

entry_of-IsEntry :
    (who : Identity) (started_at ended_at : ℕ) (c : Call) (history : History)
    → IsEntry who started_at ended_at c history (entry_of who started_at ended_at c history)
unfolding entry_of
entry_of-IsEntry who started_at ended_at c history = record {
  backend = refl;
  profile = refl;
  provider = refl;
  conversation_id = refl;
  ani = refl;
  dnis = refl;
  times = (refl, refl);
  hangup_reason = logged_reason_lem c.reason;
  conversation_history = refl;
}

-- Whatever fails on the way, at the end of a call the temporary recording is deleted unless the
-- deletion itself fails; and if there is a publisher that takes it, one entry is published, else none,
-- which has the names, the numbers, the two times and the history of the call, and as its reason
-- agent ended, transferred, backend error or, for any other end, user ended.
pub finish_tidy :
    (f : Finishing) (clients : Option Clients) (who : Identity) (started_at : ℕ) (c : Call)
    (history : History) (r : Option Recorder) (cloud : Cloud)
    → let out = finish f clients who started_at c history r cloud in
      (entry : Entry) × IsEntry who started_at f.ended_at c history entry
      × (leaves_file out.0 ≡ leaves_file r && not f.file_removed)
      × (out.1.published
          ≡ cloud.published ++ (if has_publisher clients && f.taken then entry ∷ [] else []))
unfolding finish
finish_tidy f clients who started_at c history r cloud =
    let up = upload f.uploading clients who.id r cloud in
    let (left, published) = upload-leaves_file f.uploading clients who.id r cloud in
    let entry = entry_of who started_at f.ended_at c history in
    (
      entry,
      entry_of-IsEntry who started_at f.ended_at c history,
      remove-leaves_file f.file_closes f.file_removed up.0 ∙ ap (λ b. b && not f.file_removed) left,
      publish-published clients f.taken entry up.1
          ∙ ap (λ l. l ++ (if has_publisher clients && f.taken then entry ∷ [] else [])) published,
    )
