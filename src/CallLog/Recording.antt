-- ===== src/CallLog/Recording.antt =====
-- internal/calllog/calllog.go: the recording of a call, from its writes to the bucket.
use sip_relay.Prelude.{
  ℕ, ◌+◌, ◌≡◌, refl, sym, ap, ◌∙◌, Bool, true, Option, none, some, List, [], ◌∷◌, ◌++◌, arith,
  length, concat, length-append, append-nil, append_assoc, take-all, drop-all,
}
use sip_relay.Backend.{Bytes}
use sip_relay.Call.{Call}
use sip_relay.Relay.{History}
use sip_relay.Names.{recording_object_name}
use sip_relay.CallLog.{
  Recorder, overwrite, put, new_recorder, write, Object, Clients, Cloud, Uploading, upload,
  Identity, Finishing, entry_of, finish,
}
use sip_relay.CallLog.Final.{publish-objects}

-- The payloads written one after another, each in full.
abbrev pub write_all : List Bytes → Option Recorder → Option Recorder
write_all [] r = r
write_all (p ∷ ps) r = write_all ps (write p none r).0

-- A recorder that has its file and writes at its end.
record IsRecording (r : Recorder) : Type 0 where
  at_end : r.offset ≡ length r.contents
  has_file : r.has_file ≡ true
  on_disk : r.on_disk ≡ true

overwrite_end : (old new : Bytes) → overwrite old (length old) new ≡ old ++ new
overwrite_end old new =
    let taken = take-all (length old) old (omega arith) in
    let dropped = drop-all (length old + length new) old (omega arith) in
    rw (taken, dropped, append-nil new) refl

put-IsRecording :
    (r : Recorder) (p : Bytes)
    → IsRecording r
    → IsRecording (put r p) × ((put r p).contents ≡ r.contents ++ p)
put-IsRecording r p v =
    let written : overwrite r.contents r.offset p ≡ r.contents ++ p =
      ap (λ n. overwrite r.contents n p) v.at_end ∙ overwrite_end r.contents p in
    let at_end : r.offset + length p ≡ length (overwrite r.contents r.offset p) =
      ap (λ n. n + length p) v.at_end
      ∙ sym (length-append r.contents p)
      ∙ ap length (sym written) in
    (record { at_end = at_end; has_file = v.has_file; on_disk = v.on_disk }, written)

-- A recorder after a write that succeeds.
write-IsRecording :
    (r : Recorder) (p : Bytes)
    → IsRecording r
    → (t : Recorder) × (write p none (some r) ≡ (some t, true))
      × IsRecording t
      × (t.contents ≡ r.contents ++ p)
unfolding write
write-IsRecording r [] v = (r, refl, v, sym (append-nil r.contents))
write-IsRecording r (x ∷ p) v =
    let (w, e) = put-IsRecording r (x ∷ p) v in (put r (x ∷ p), ground (arith, v.has_file), w, e)

write_all-IsRecording :
    (ps : List Bytes) (r : Recorder)
    → IsRecording r
    → (t : Recorder) × (write_all ps (some r) ≡ some t)
      × IsRecording t
      × (t.contents ≡ r.contents ++ concat ps)
write_all-IsRecording [] r v = (r, refl, v, sym (append-nil r.contents))
write_all-IsRecording (p ∷ ps) r v =
    let (s, written, w, more) = write-IsRecording r p v in
    let (t, rest, u, all) = write_all-IsRecording ps s w in
    (
      t,
      ap (λ (x : Option Recorder × Bool). write_all ps x.0) written ∙ rest,
      u,
      all ∙ ap (λ b. b ++ concat ps) more ∙ append_assoc r.contents p (concat ps),
    )

-- The recording of a call as an object of the bucket.
abbrev pub recording : Clients → Identity → Bytes → Object
recording c who contents = record {
  bucket = c.bucket;
  name = recording_object_name who.id;
  contents = contents;
}

-- The services and the file answer well.
abbrev pub IsSmooth : Uploading → Type 0
IsSmooth u = (u.syncs ≡ true) × (u.seeks ≡ true) × (u.copy_fails ≡ none) × (u.writer_closes ≡ true)

upload-objects :
    (u : Uploading) (c : Clients) (who : Identity) (r : Recorder) (cloud : Cloud)
    → c.storage ≡ true
    → IsSmooth u
    → r.has_file ≡ true
    → (upload u (some c) who.id (some r) cloud).1.objects
      ≡ cloud.objects ++ (recording c who r.contents ∷ [])
unfolding upload
upload-objects u c who r cloud s (a, b, d, e) h = rw (s, h, a, b, d, e) refl

-- If every write, and the upload, succeed, the bucket gets at the end of the call one object, named
-- for the call, which holds the bytes of all payloads recorded, in the order in which they were written.
pub finish-recording :
    (payloads : List Bytes) (f : Finishing) (c : Clients) (who : Identity) (started_at : ℕ)
    (call : Call) (history : History) (cloud : Cloud)
    → c.storage ≡ true
    → IsSmooth f.uploading
    → (finish f
        (some c)
        who
        started_at
        call
        history
        (write_all payloads (new_recorder true true))
        cloud).1.objects
      ≡ cloud.objects ++ (recording c who (concat payloads) ∷ [])
unfolding finish new_recorder
finish-recording payloads f c who started_at call history cloud s smooth =
    let empty : Recorder = record { contents = []; offset = 0; has_file = true; on_disk = true } in
    let (t, written, v, all) =
      write_all-IsRecording payloads empty
        (record { at_end = refl; has_file = refl; on_disk = refl }) in
    let recorder = write_all payloads (some empty) in
    let entry = entry_of who started_at f.ended_at call history in
    publish-objects (some c) f.taken entry (upload f.uploading (some c) who.id recorder cloud).1
    ∙ ap (λ (x : Option Recorder). (upload f.uploading (some c) who.id x cloud).1.objects) written
    ∙ upload-objects f.uploading c who t cloud s smooth v.has_file
    ∙ ap (λ b. cloud.objects ++ (recording c who b ∷ [])) all
