-- ===== src/Rtp/Timeout/Silence.antt =====
-- internal/rtp/port.go: the media timeout of Run against the wake-ups that it sees.
use sip_relay.Prelude.{
  ℕ, ◌≤◌, ◌<◌, ◌≡◌, ◌≢◌, sym, subst, ◌↔◌, ◌⊎◌, inl, inr, none, some, List, [], ◌∷◌, arith,
  Option-cases,
}
use sip_relay.Prelude.Int.{pos}
use sip_relay.Rtp.{Port}
use sip_relay.Rtp.Timeout.{Wake, Outcome, on_timer, run_loop, run_port}

-- Somewhere in the wake-ups the timer finds no new packet since it looked last, with media under way
-- or the initial allowance used up.
pub data SawSilence (initial : ℕ) : ℕ → List Wake → Type 0 where
  now :
      {last current elapsed : ℕ} {ws : List Wake}
      → current ≡ last
      → (0 < current) ⊎ (initial ≤ elapsed)
      → SawSilence initial last (Wake.timer current elapsed ∷ ws)
  later :
      {last current elapsed : ℕ} {ws : List Wake}
      → SawSilence initial current ws
      → SawSilence initial last (Wake.timer current elapsed ∷ ws)

on_timer-none :
    (initial last current elapsed : ℕ)
    → on_timer (pos initial) last current elapsed ≡ none
    → (current ≡ last) × ((0 < current) ⊎ (initial ≤ elapsed))
unfolding on_timer
on_timer-none initial last current elapsed h = ground arith

on_timer-some :
    (initial last current elapsed : ℕ) {last' : ℕ}
    → on_timer (pos initial) last current elapsed ≡ some last'
    → (last' ≡ current) × ((current ≢ last) ⊎ ((current ≡ 0) × (elapsed < initial)))
unfolding on_timer
on_timer-some initial last current elapsed h = ground arith

timed_out :
    (initial last : ℕ) (ws : List Wake)
    → run_loop (pos initial) last ws ≡ Outcome.media_timeout
    → SawSilence initial last ws
unfolding run_loop
timed_out initial last [] h = cc
timed_out initial last (Wake.canceled ∷ ws) h = cc
timed_out initial last (Wake.reader_done err ∷ ws) h = cc
timed_out initial last (Wake.timer current elapsed ∷ ws) h =
    elim (Option-cases (on_timer (pos initial) last current elapsed)) [
      | inl e ↦
          let (same, cause) = on_timer-none initial last current elapsed e in
          SawSilence.now same cause
      | inr (l, e) ↦ SawSilence.later (
          timed_out initial current ws (
            subst (λ k. run_loop (pos initial) k ws ≡ Outcome.media_timeout)
              (on_timer-some initial last current elapsed e).0 (rw (e, run_loop) at h)))
    ]

on_timer-silent :
    (initial last current elapsed : ℕ)
    → current ≡ last
    → (0 < current) ⊎ (initial ≤ elapsed)
    → on_timer (pos initial) last current elapsed ≡ none
unfolding on_timer
on_timer-silent initial last current elapsed e h = ground arith

silence_ends :
    {initial last : ℕ} {ws : List Wake}
    → SawSilence initial last ws
    → run_loop (pos initial) last ws ≡ Outcome.media_timeout
unfolding run_loop
silence_ends {initial} (SawSilence.now {last} {current} {elapsed} same cause) =
    rw (on_timer-silent initial last current elapsed same cause, run_loop)
silence_ends {initial} (SawSilence.later {last} {current} {elapsed} {ws} s) =
    elim (Option-cases (on_timer (pos initial) last current elapsed)) [
      | inl e ↦ rw (e, run_loop)
      | inr (l, e) ↦
          rw (e, run_loop)
            (subst (λ k. run_loop (pos initial) k ws ≡ Outcome.media_timeout)
              (sym (on_timer-some initial last current elapsed e).0) (silence_ends s))
    ]

-- With an initial allowance that is not negative, Run gives up on the media exactly when, before
-- anything else ends it, the timer finds no packet that is new since it looked last (since the start,
-- the first time), once some packet has come or the allowance has passed.
pub run_port-media_timeout :
    (p : Port) (initial : ℕ) (ws : List Wake)
    → p.initial_to ≡ pos initial
    → (run_port p ws ≡ Outcome.media_timeout) ↔ SawSilence initial 0 ws
unfolding run_port
run_port-media_timeout p initial ws e = rw e (timed_out initial 0 ws, silence_ends)
