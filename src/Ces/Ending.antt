-- ===== src/Ces/Ending.antt =====
-- internal/ces/stream.go: what holds of a stream at every moment.
use sip_relay.Prelude.{
  ℕ, ◌≤◌, ◌≡◌, refl, sym, ap, ◌∙◌, Bool, true, false, Option, some, [], ◌∷◌, arith, if◌then◌else◌,
  length, length-append,
}
use sip_relay.Backend.{StreamError}
use sip_relay.Ces.Stream.{
  Receiving, events_cap, Stream, new_stream, quiet_if_canceled, finish, returns, sender_returns,
  Actor, Step, Run,
}

-- What holds of a stream at every moment.
pub record IsSettled (s : Stream) : Type 0 where
  pub one_value : length s.done ≡ (if s.once then 1 else 0)
  pub shut : s.closed ≡ s.once
  pub over : s.once ≡ true → s.canceled ≡ true
  pub bounded : length s.events ≤ events_cap
  pub last : s.receiving ≡ Receiving.returned → s.once ≡ true

-- What `finish` leaves, whatever it finds.
record Finished (s t : Stream) : Type 0 where
  now : t.once ≡ true
  shut : t.closed ≡ true
  over : t.canceled ≡ true
  one_value : length t.done ≡ 1
  same_events : t.events ≡ s.events
  same_receiving : t.receiving ≡ s.receiving
  same_reader : t.reader_gone ≡ s.reader_gone

Finished-if :
    (b : Bool) (s t : Stream)
    → (b ≡ true → Finished s s)
    → (b ≡ false → Finished s t)
    → Finished s (if b then s else t)
Finished-if true s t h k = h refl
Finished-if false s t h k = k refl

finish_lem : (err : Option StreamError) (s : Stream) → IsSettled s → Finished s (finish err s)
unfolding finish
finish_lem err s v =
    Finished-if s.once s _
      (λ e. record {
        now = e;
        shut = v.shut ∙ e;
        over = v.over e;
        one_value = v.one_value ∙ ap (λ b. if b then 1 else 0) e;
        same_events = refl;
        same_receiving = refl;
        same_reader = refl;
      })
      (λ e. record {
        now = refl;
        shut = refl;
        over = refl;
        one_value =
            length-append s.done (quiet_if_canceled err ∷ [])
            ∙ omega (arith, v.one_value, ap {B = ℕ} (λ b. if b then 1 else 0) e);
        same_events = refl;
        same_receiving = refl;
        same_reader = refl;
      })

Finished-IsSettled : {s t : Stream} → IsSettled s → Finished s t → IsSettled t
Finished-IsSettled v f = record {
  one_value = f.one_value ∙ ap (λ b. if b then 1 else 0) (sym f.now);
  shut = f.shut ∙ sym f.now;
  over = λ e. f.over;
  bounded = rw f.same_events v.bounded;
  last = λ e. f.now;
}

-- A finished stream may be left by recvLoop and by sendLoop.
returns-IsSettled : {s t : Stream} → IsSettled s → Finished s t → IsSettled (returns t)
returns-IsSettled v f =
    let w = Finished-IsSettled v f in
    record {
      one_value = w.one_value;
      shut = w.shut;
      over = w.over;
      bounded = w.bounded;
      last = λ e. f.now;
    }

sender_returns-IsSettled : {t : Stream} → IsSettled t → IsSettled (sender_returns t)
sender_returns-IsSettled w = record {
  one_value = w.one_value;
  shut = w.shut;
  over = w.over;
  bounded = w.bounded;
  last = w.last;
}

Step-IsSettled :
    {late : Bool} {s t : Stream} {a : Actor} → IsSettled s → Step late s a t → IsSettled t
Step-IsSettled v (Step.received m e c) = record {
  one_value = v.one_value;
  shut = v.shut;
  over = v.over;
  bounded = v.bounded;
  last = λ h. cc;
}
Step-IsSettled v (Step.receive_failed err e) = returns-IsSettled v (finish_lem err _ v)
Step-IsSettled {s} v (Step.emitted {e} h c) = record {
  one_value = v.one_value;
  shut = v.shut;
  over = v.over;
  bounded = omega (arith, length-append s.events (e ∷ []));
  last = λ h. cc;
}
Step-IsSettled v (Step.refused e c) =
    returns-IsSettled v (finish_lem (some StreamError.canceled) _ v)
Step-IsSettled v (Step.message_done e) = record {
  one_value = v.one_value;
  shut = v.shut;
  over = v.over;
  bounded = v.bounded;
  last = λ h. cc;
}
Step-IsSettled v (Step.message_final {err} e) = returns-IsSettled v (finish_lem (some err) _ v)
Step-IsSettled v (Step.context_done g c) = sender_returns-IsSettled v
Step-IsSettled v (Step.input_closed g) = sender_returns-IsSettled v
Step-IsSettled v (Step.sent g) = v
Step-IsSettled v (Step.send_failed err g) =
    sender_returns-IsSettled (Finished-IsSettled v (finish_lem (some err) _ v))
Step-IsSettled {s} v (Step.take {e} {es} g h) = record {
  one_value = v.one_value;
  shut = v.shut;
  over = v.over;
  bounded = omega (arith, v.bounded, ap length h);
  last = v.last;
}
Step-IsSettled v Step.leave = record {
  one_value = v.one_value;
  shut = v.shut;
  over = v.over;
  bounded = v.bounded;
  last = v.last;
}
Step-IsSettled v Step.close = record {
  one_value = v.one_value;
  shut = v.shut;
  over = λ e. refl;
  bounded = v.bounded;
  last = v.last;
}

pub Run-IsSettled :
    {late : Bool} {s : Stream} {n : ℕ} {t : Stream} → IsSettled s → Run late s n t → IsSettled t
Run-IsSettled v Run.here = v
Run-IsSettled v (Run.next r st) = Step-IsSettled (Run-IsSettled v r) st

-- However the two loops, the reader and the owner interleave, `done` has one value exactly when the
-- stream has finished and else none, `closed` is closed exactly then, the context of a finished stream
-- is canceled, no more than 32 events wait, and recvLoop returns only from a finished stream.
pub new_stream-IsSettled :
    {late : Bool} {n : ℕ} {s : Stream} → Run late new_stream n s → IsSettled s
new_stream-IsSettled r =
    let v : IsSettled new_stream = record {
      one_value = refl;
      shut = refl;
      over = λ e. cc;
      bounded = omega arith;
      last = λ e. cc;
    } in
    Run-IsSettled v r
