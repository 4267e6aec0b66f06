-- ===== src/Ces/Closing.antt =====
-- internal/ces/stream.go: the end of a stream whose context is canceled.
use sip_relay.Prelude.{
  ℕ, ◌+◌, ◌*◌, ◌<◌, ◌≤◌, ◌≡◌, ◌≢◌, refl, ap, ◌∙◌, ◌⊎◌, inl, inr, true, false, Option, none, some,
  List, [], ◌∷◌, arith, if◌then◌else◌, length, length-append,
}
use sip_relay.Backend.{Event, StreamError}
use sip_relay.Ces.Stream.{
  Receiving, events_cap, Stream, new_stream, finish, returns, sender_returns, Actor, Step, counted,
  Run,
}
use sip_relay.Ces.Ending.{new_stream-IsSettled, Run-IsSettled}

-- What recvLoop and the reader have left to do once nothing more is received.
abbrev pub receiving_work : Receiving → ℕ
receiving_work Receiving.waiting = 1
receiving_work (Receiving.emitting es err) = 2 * length es + 2
receiving_work Receiving.returned = 0

abbrev pub work : Stream → ℕ
work s = receiving_work s.receiving + length s.events

work-finish :
    (err : Option StreamError) (s : Stream) → work (returns (finish err s)) ≡ length s.events
unfolding finish
work-finish err s = ground arith

finish_sender_work :
    (err : Option StreamError) (s : Stream) → work (sender_returns (finish err s)) ≡ work s
unfolding finish
finish_sender_work err s = ground arith

-- Once the context is canceled, a counted step leaves less to do, and no step leaves more.
Step-work :
    {s t : Stream} {a : Actor} → s.canceled ≡ true → Step false s a t → counted a + work t ≤ work s
Step-work {s} c (Step.received m e d) = cc
Step-work {s} c (Step.receive_failed err e) = omega (arith, work-finish err s, ap receiving_work e)
Step-work {s} c (Step.emitted {e} {es} h d) =
    omega (arith, length-append s.events (e ∷ []), ap receiving_work h)
Step-work {s} c (Step.refused h d) =
    omega (arith, work-finish (some StreamError.canceled) s, ap receiving_work h)
Step-work {s} c (Step.message_done h) = omega (arith, ap receiving_work h)
Step-work {s} c (Step.message_final {err} h) =
    omega (arith, work-finish (some err) s, ap receiving_work h)
Step-work {s} c (Step.context_done g d) = omega arith
Step-work {s} c (Step.input_closed g) = omega arith
Step-work {s} c (Step.sent g) = omega arith
Step-work {s} c (Step.send_failed err g) = omega (arith, finish_sender_work (some err) s)
Step-work {s} c (Step.take g h) = omega (arith, ap length h)
Step-work {s} c Step.leave = omega arith
Step-work {s} c Step.close = omega arith

finish_keeps_canceled :
    (err : Option StreamError) (s : Stream) → s.canceled ≡ true → (finish err s).canceled ≡ true
unfolding finish
finish_keeps_canceled err s c = ground arith

Step-canceled :
    {s t : Stream} {a : Actor} → s.canceled ≡ true → Step false s a t → t.canceled ≡ true
Step-canceled c (Step.received m e d) = c
Step-canceled {s} c (Step.receive_failed err e) = finish_keeps_canceled err s c
Step-canceled c (Step.emitted h d) = c
Step-canceled {s} c (Step.refused h d) = finish_keeps_canceled (some StreamError.canceled) s c
Step-canceled c (Step.message_done h) = c
Step-canceled {s} c (Step.message_final {err} h) = finish_keeps_canceled (some err) s c
Step-canceled c (Step.context_done g d) = c
Step-canceled c (Step.input_closed g) = c
Step-canceled c (Step.sent g) = c
Step-canceled {s} c (Step.send_failed err g) = finish_keeps_canceled (some err) s c
Step-canceled c (Step.take g h) = c
Step-canceled c Step.leave = c
Step-canceled c Step.close = refl

-- recvLoop and the reader are not stuck together: unless recvLoop has returned, one of them can step.
module _ (s : Stream) where
  abbrev pub CanStep : Type 0
  CanStep = (t : Stream) × (Step false s Actor.receiver t ⊎ Step false s Actor.reader t)

  channel-cases :
      (es : List Event)
      → s.events ≡ es
      → (length s.events < events_cap) ⊎ ((e : Event) × (rest : List Event) × (s.events ≡ e ∷ rest))
  channel-cases [] h = inl (omega (arith, ap length h))
  channel-cases (e ∷ rest) h = inr (e, rest, h)

  can_step :
      (r : Receiving) → s.receiving ≡ r → r ≢ Receiving.returned → s.reader_gone ≡ false → CanStep
  can_step Receiving.waiting h n g = (_, inl (Step.receive_failed none h))
  can_step (Receiving.emitting [] none) h n g = (_, inl (Step.message_done h))
  can_step (Receiving.emitting [] (some err)) h n g = (_, inl (Step.message_final h))
  can_step (Receiving.emitting (e ∷ es) err) h n g = elim (channel-cases s.events refl) [
    | inl room ↦ (_, inl (Step.emitted h room))
    | inr (f, rest, full) ↦ (_, inr (Step.take g full))
  ]
  can_step Receiving.returned h n g = absurd (n refl)

returned-cases :
    (s : Stream) (r : Receiving)
    → s.receiving ≡ r
    → (s.receiving ≡ Receiving.returned) ⊎ (s.receiving ≢ Receiving.returned)
returned-cases s Receiving.waiting h = inr (λ e. cc)
returned-cases s (Receiving.emitting es err) h = inr (λ e. cc)
returned-cases s Receiving.returned h = inl h

Run-work :
    {s : Stream} {n : ℕ} {t : Stream}
    → s.canceled ≡ true
    → Run false s n t
    → (n + work t ≤ work s) × (t.canceled ≡ true)
Run-work c Run.here = (omega arith, c)
Run-work {s} c (Run.next {n} {t} {u} {a} r st) =
    let (less, over) = Run-work c r in
    let step = Step-work over st in (omega arith, Step-canceled over st)

-- When the context of a stream is canceled in any reachable state, and `Recv` then returns no more
-- messages, recvLoop and the reader make together at most as many more steps as the events that wait
-- and twice the events that recvLoop holds, and two; and as long as the reader has not left, one of
-- them can step until recvLoop has returned, with one value on `done`.
pub canceled_stream_ends :
    {k n : ℕ} {s t : Stream}
    → Run false new_stream k s
    → s.canceled ≡ true
    → Run false s n t
    → (n ≤ work s)
      × (t.reader_gone ≡ false
          → CanStep t ⊎ ((t.receiving ≡ Receiving.returned) × (length t.done ≡ 1)))
canceled_stream_ends {n} {s} {t} r c q =
    let v = Run-IsSettled (new_stream-IsSettled r) q in
    let less : n + work t ≤ work s = (Run-work c q).0 in
    (
      omega arith,
      λ g. elim (returned-cases t t.receiving refl) [
        | inl e ↦ inr (e, v.one_value ∙ ap (λ b. if b then 1 else 0) (v.last e))
        | inr ne ↦ inl (can_step t t.receiving refl ne g)
      ],
    )
