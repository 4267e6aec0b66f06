-- ===== src/Playout/Clock.antt =====
-- internal/call/call.go: the outbound media clock against real time.
use sip_relay.Prelude.{
  ℕ, zero, suc, ◌+◌, ◌-◌, ◌*◌, ◌/◌, ◌^◌, ◌≤◌, ◌<◌, ◌≡◌, ◌≢◌, refl, sym, subst, ap, ◌∙◌, some, List,
  [], ◌∷◌, arith, length, length-append,
}
use sip_relay.Rtp.{Port, UdpAddr, frame_duration, samples_per_frame, outbound_frame_bytes}
use sip_relay.Playout.Frame.{IsValid, last_frame_end-emit_frame}
use sip_relay.Playout.Stream.{at_deadline-IsValid, step-IsValid}
use sip_relay.Playout.Wire.{HasSent, emit_frames_wire, step_wire}
use sip_relay.Playout.{
  Writer, Command, Input, handle_command, emit_frame, emit_frames, emit_due, max_catch_up_frames,
  schedule, step, run,
}

-- The deadline lies within a fraction of a frame of the time of the last tick: 15 ms behind it at
-- most, 5 ms (the fuzz) ahead of it at most.
pub record IsLocked (last now : ℕ) : Type 0 where
  pub behind : now < last + (frame_duration - frame_duration / 4)
  pub ahead : last ≤ now + frame_duration / 4
  pub started : last ≢ 0

-- The clock starts at the first tick, which plays one frame.
schedule_first : (now : ℕ) → schedule 0 now ≡ (now, 1)
unfolding schedule
schedule_first now = refl

-- No tick owes more than `maxCatchUpFrames`, whatever the stall before it.
schedule-le : (last now : ℕ) → (schedule last now).1 ≤ max_catch_up_frames
unfolding schedule
schedule-le last now = ground arith

-- A tick that comes no earlier than the one before it leaves the clock locked, after a stall too.
schedule-IsLocked :
    (last prev now : ℕ) → IsLocked last prev → prev ≤ now → IsLocked (schedule last now).0 now
unfolding schedule
schedule-IsLocked last prev now h le = ground arith

-- While a tick comes within 100 ms of the last, the deadline moves by exactly the frames that are due.
schedule_exact :
    (last prev now : ℕ)
    → IsLocked last prev
    → prev ≤ now
    → now ≤ prev + 100000000
    → (schedule last now).0 ≡ last + (schedule last now).1 * frame_duration
unfolding schedule
schedule_exact last prev now h le near = ground arith

last_frame_end-emit_frames :
    (n : ℕ) (w : Writer) → (emit_frames n w).0.last_frame_end ≡ w.last_frame_end
unfolding emit_frames
last_frame_end-emit_frames zero w = refl
last_frame_end-emit_frames (suc n) w =
    last_frame_end-emit_frames n (emit_frame w).0 ∙ last_frame_end-emit_frame w

last_frame_end-handle_command :
    (w : Writer) (cmd : Command) → (handle_command w cmd).last_frame_end ≡ w.last_frame_end
unfolding handle_command
last_frame_end-handle_command w cmd = ground arith

last_frame_end-tick :
    (w : Writer) (now : ℕ)
    → (step w (Input.tick now)).0.last_frame_end ≡ (schedule w.last_frame_end now).0
unfolding step emit_due
last_frame_end-tick w now =
    let (last, n) = schedule w.last_frame_end now in
    last_frame_end-emit_frames n (record w { last_frame_end = last })

-- The ticks follow one another in time, from `prev` on.
abbrev pub IsOrdered : ℕ → List Input → Type 0
IsOrdered prev [] = Unit
IsOrdered prev (Input.command cmd ∷ is) = IsOrdered prev is
IsOrdered prev (Input.tick now ∷ is) = (prev ≤ now) × IsOrdered now is

-- Each tick also comes within 100 ms of the one before it.
abbrev pub IsPaced : ℕ → List Input → Type 0
IsPaced prev [] = Unit
IsPaced prev (Input.command cmd ∷ is) = IsPaced prev is
IsPaced prev (Input.tick now ∷ is) = (prev ≤ now) × (now ≤ prev + 100000000) × IsPaced now is

abbrev pub last_tick : ℕ → List Input → ℕ
last_tick prev [] = prev
last_tick prev (Input.command cmd ∷ is) = last_tick prev is
last_tick prev (Input.tick now ∷ is) = last_tick now is

IsPaced-IsOrdered : (is : List Input) (prev : ℕ) → IsPaced prev is → IsOrdered prev is
IsPaced-IsOrdered [] prev o = tt
IsPaced-IsOrdered (Input.command cmd ∷ is) prev o = IsPaced-IsOrdered is prev o
IsPaced-IsOrdered (Input.tick now ∷ is) prev o = (o.0, IsPaced-IsOrdered is now o.2)

-- Once started, the media clock stays within a frame of real time, over any commands and any ticks,
-- however long the stalls between them: at the last tick the deadline is less than 15 ms behind, and
-- at most 5 ms ahead.
pub run-IsLocked :
    (is : List Input) (w : Writer) (prev : ℕ)
    → IsLocked w.last_frame_end prev
    → IsOrdered prev is
    → IsLocked (run w is).0.last_frame_end (last_tick prev is)
unfolding run step
run-IsLocked [] w prev h o = h
run-IsLocked (Input.command cmd ∷ is) w prev h o =
    run-IsLocked is (step w (Input.command cmd)).0 prev
      (subst (λ l. IsLocked l prev) (sym (last_frame_end-handle_command w cmd)) h) o
run-IsLocked (Input.tick now ∷ is) w prev h o =
    run-IsLocked is (step w (Input.tick now)).0 now
      (subst (λ l. IsLocked l now) (sym (last_frame_end-tick w now))
        (schedule-IsLocked w.last_frame_end prev now h o.0))
      o.1

module _ {p : Port} {a : UdpAddr} (peer : p.remote ≡ some a) where
  tick_exact :
      {w : Writer} (k prev now : ℕ)
      → IsValid w
      → HasSent p k w.port
      → IsLocked w.last_frame_end prev
      → prev ≤ now
      → now ≤ prev + 100000000
      → (step w (Input.tick now)).0.last_frame_end
        ≡ w.last_frame_end + length (step w (Input.tick now)).1 * frame_duration
  unfolding step emit_due
  tick_exact {w} k prev now v s h le near =
      let (last, n) = schedule w.last_frame_end now in
      let (_, len, _) = emit_frames_wire peer n k (at_deadline-IsValid last v) s in
      last_frame_end-tick w now
      ∙ schedule_exact w.last_frame_end prev now h le near
      ∙ ap (λ j. w.last_frame_end + j * frame_duration) (sym len)

  run_exact :
      (is : List Input) {w : Writer} (k prev : ℕ)
      → IsValid w
      → HasSent p k w.port
      → IsLocked w.last_frame_end prev
      → IsPaced prev is
      → (run w is).0.last_frame_end ≡ w.last_frame_end + length (run w is).1 * frame_duration
  unfolding run step
  run_exact [] k prev v s h o = omega arith
  run_exact (Input.command cmd ∷ is) {w} k prev v s h o =
      let w' = handle_command w cmd in
      let e = last_frame_end-handle_command w cmd in
      run_exact is (k + 0) prev (step-IsValid (Input.command cmd) v)
        (step_wire peer (Input.command cmd) k v s).1 (subst (λ l. IsLocked l prev) (sym e) h) o
      ∙ ap (λ l. l + length (run w' is).1 * frame_duration) e
  run_exact (Input.tick now ∷ is) {w} k prev v s h o =
      let w' = (step w (Input.tick now)).0 in
      let outs = (step w (Input.tick now)).1 in
      omega (
        arith,
        run_exact is {w = w'} (k + length outs) now (step-IsValid (Input.tick now) v)
            (step_wire peer (Input.tick now) k v s).1
            (subst (λ l. IsLocked l now) (sym (last_frame_end-tick w now))
              (schedule-IsLocked w.last_frame_end prev now h o.0))
            o.2,
        tick_exact k prev now v s h o.0 o.1,
        length-append outs (run w' is).1,
      )

-- While every tick comes within 100 ms of the one before, the audio sent keeps real time: over any
-- such run, with any commands in it, the number of packets times 20 ms differs from the time that
-- passes between the tick before the run and its last tick by less than 20 ms, so no drift builds up.
pub run_keeps_real_time :
    (is : List Input) {w : Writer} {a : UdpAddr} (prev : ℕ)
    → IsValid w
    → w.port.remote ≡ some a
    → outbound_frame_bytes w.port ≡ samples_per_frame
    → w.port.seq < 2 ^ 16
    → w.port.ts < 2 ^ 32
    → IsLocked w.last_frame_end prev
    → IsPaced prev is
    → let playtime = length (run w is).1 * frame_duration in
      (playtime + prev < last_tick prev is + frame_duration)
      × (last_tick prev is < playtime + prev + frame_duration)
run_keeps_real_time is {w} prev v peer frame hs ht h o =
    let start : HasSent w.port 0 w.port = record {
      seq = omega arith;
      ts = omega arith;
      ssrc = refl;
      payload_type = refl;
      remote = refl;
      frame = frame;
    } in
    let e = run_exact peer is 0 prev v start h o in
    let l = run-IsLocked is w prev h (IsPaced-IsOrdered is prev o) in
    (omega (arith, e, l, h), omega (arith, e, l, h))
