-- ===== src/Ces/Hanging.antt =====
-- internal/ces/stream.go: recvLoop when nobody reads the events.
use sip_relay.Prelude.{
  ℕ, ◌≡◌, ◌≢◌, refl, ap, ◌∙◌, Bool, true, false, Option, List, [], ◌∷◌, arith, if◌then◌else◌,
  length,
}
use sip_relay.Backend.{Event, StreamError}
use sip_relay.Ces.Stream.{
  Receiving, events_cap, Stream, new_stream, sender_returns, Actor, Step, Run,
}
use sip_relay.Ces.Ending.{new_stream-IsSettled}

-- recvLoop holds an event for a full channel that nobody reads, and nobody is left who could close the
-- stream.
record IsHung (s : Stream) : Type 0 where
  holds :
      (e : Event) × (es : List Event) × (err : Option StreamError) × (s.receiving
        ≡ Receiving.emitting (e ∷ es) err)
  full : length s.events ≡ events_cap
  unread : s.reader_gone ≡ true
  unsent : s.sender_gone ≡ true
  open_still : s.closed ≡ false
  silent : s.done ≡ []

Step-IsHung : {late : Bool} {s t : Stream} {a : Actor} → IsHung s → Step late s a t → IsHung t
Step-IsHung v (Step.received m e c) = let (f, fs, err, h) = v.holds in cc
Step-IsHung v (Step.receive_failed err e) = let (f, fs, err', h) = v.holds in cc
Step-IsHung v (Step.emitted h c) = absurd (omega (arith, v.full))
Step-IsHung v (Step.refused h c) = let o = v.open_still in cc
Step-IsHung v (Step.message_done e) = let (f, fs, err, h) = v.holds in cc
Step-IsHung v (Step.message_final e) = let (f, fs, err, h) = v.holds in cc
Step-IsHung v (Step.context_done g c) = let o = v.unsent in cc
Step-IsHung v (Step.input_closed g) = let o = v.unsent in cc
Step-IsHung v (Step.sent g) = let o = v.unsent in cc
Step-IsHung v (Step.send_failed err g) = let o = v.unsent in cc
Step-IsHung v (Step.take g h) = let o = v.unread in cc
Step-IsHung v Step.leave = record {
  holds = v.holds;
  full = v.full;
  unread = refl;
  unsent = v.unsent;
  open_still = v.open_still;
  silent = v.silent;
}
Step-IsHung v Step.close = record {
  holds = v.holds;
  full = v.full;
  unread = v.unread;
  unsent = v.unsent;
  open_still = v.open_still;
  silent = v.silent;
}

Run-IsHung : {late : Bool} {s : Stream} {n : ℕ} {t : Stream} → IsHung s → Run late s n t → IsHung t
Run-IsHung v Run.here = v
Run-IsHung v (Run.next r st) = Step-IsHung (Run-IsHung v r) st

nil_of_length : (xs : List (Option StreamError)) → length xs ≡ 0 → xs ≡ []
nil_of_length [] h = refl
nil_of_length (x ∷ xs) h = absurd (omega arith)

-- When recvLoop holds an event for a full channel in a reachable state of a stream that has not
-- finished, and sendLoop runs, then the reader may leave, the owner close the stream and sendLoop
-- return such that from there on, whatever happens, recvLoop never returns, nothing is ever sent on
-- `done`, and `closed` is never closed.
pub closed_stream_may_hang :
    {late : Bool} {k : ℕ} {s : Stream} {e : Event} {es : List Event} {err : Option StreamError}
    → Run late new_stream k s
    → s.receiving ≡ Receiving.emitting (e ∷ es) err
    → length s.events ≡ events_cap
    → s.once ≡ false
    → s.sender_gone ≡ false
    → (t : Stream) × Run late s 0 t
      × (t.canceled ≡ true)
      × ((n : ℕ) (u : Stream)
          → Run late t n u
          → (u.receiving ≢ Receiving.returned) × (u.done ≡ []) × (u.closed ≡ false))
closed_stream_may_hang {s} {e} {es} {err} r h full o g =
    let v = new_stream-IsSettled r in
    let left : Stream = record s { reader_gone = true } in
    let closed : Stream = record left { canceled = true } in
    let hung : IsHung (sender_returns closed) = record {
      holds = (e, es, err, h);
      full = full;
      unread = refl;
      unsent = refl;
      open_still = v.shut ∙ o;
      silent = nil_of_length s.done (v.one_value ∙ ap (λ b. if b then 1 else 0) o);
    } in
    (
      sender_returns closed,
      Run.next (Run.next (Run.next Run.here Step.leave) Step.close) (Step.context_done g refl),
      refl,
      λ n u q.
          let w = Run-IsHung hung q in
          let (f, fs, err', p) = w.holds in (λ x. cc, w.silent, w.open_still),
    )
