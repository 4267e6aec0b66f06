-- ===== src/Rtp/Timeout.antt =====
-- internal/rtp/port.go: the select loop of Run, over the events that wake it up.
pub mod Silence
use sip_relay.Prelude.{ℕ, Bool, Option, none, some, List, [], ◌∷◌, not, ◌&&◌, ◌==◌, if◌then◌else◌}
use sip_relay.Prelude.Int.{ℤ, pos, ltb_ℤ}
use sip_relay.Rtp.{Port}

-- What wakes the loop: the context, the receive loop's end (whether with an error), or the timer,
-- with the packet count that it finds and the nanoseconds since the start.
pub data Wake : Type 0 where
  canceled : Wake
  reader_done : Bool → Wake
  timer : ℕ → ℕ → Wake

-- What Run has come to: it still waits, or it has returned.
pub data Outcome : Type 0 where
  waiting : ℕ → Outcome
  context_error : Outcome
  reader_result : Bool → Outcome
  media_timeout : Outcome

-- The arm of the timer: the count to remember when the timer is set again, `none` to give up.
on_timer : ℤ → ℕ → ℕ → ℕ → Option ℕ
on_timer initial_to last current elapsed =
    if not (current == last)
    then some current
    else if (current == 0) && ltb_ℤ (pos elapsed) initial_to
    then some last
    else none

-- `Run`, with the value of `lastPackets`.
pub run_loop : ℤ → ℕ → List Wake → Outcome
run_loop initial_to last [] = Outcome.waiting last
run_loop initial_to last (Wake.canceled ∷ ws) = Outcome.context_error
run_loop initial_to last (Wake.reader_done err ∷ ws) = Outcome.reader_result err
run_loop initial_to last (Wake.timer current elapsed ∷ ws) =
    elim (on_timer initial_to last current elapsed) [
      | none ↦ Outcome.media_timeout
      | some last' ↦ run_loop initial_to last' ws
    ]

pub run_port : Port → List Wake → Outcome
unfolding run_loop
run_port p ws = run_loop p.initial_to 0 ws
