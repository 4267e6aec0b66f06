-- ===== src/Call/Tests.antt =====
-- A call that is started, fails to reach its backend, and is closed by its caller as well.
use sip_relay.Prelude.{◌≡◌, refl, Bool, true, false, List, [], ◌∷◌, none}
use sip_relay.Call.{EndReason, Call, Arm, Op, new_call, apply, close_with_reason, apply_all}
use sip_relay.Call.Dial.{Attempt, Dialing, Waiting, Made, Step, Reach}
use sip_relay.Call.Dial.Leaks.{dial_tidy}
use sip_relay.Call.Life.{IsSound, new_call-IsSound, apply_all-IsSound}

abbrev ops : List Op
ops =
    Op.launch
    ∷ Op.run_ends Arm.dial_failed
    ∷ Op.hang_up EndReason.user
    ∷ Op.launch
    ∷ Op.run_ends Arm.context_done
    ∷ []

apply_all-IsSound_example : IsSound (apply_all ops new_call)
apply_all-IsSound_example = apply_all-IsSound ops new_call new_call-IsSound

-- The backend has blamed a transfer.
abbrev transferred : Call
transferred = record new_call { reason = EndReason.transfer }

-- A call that is closed before it was started.
abbrev hung_up : Call
hung_up = apply_all (Op.hang_up EndReason.user ∷ []) new_call

hung_up-closed : hung_up.closed ≡ true
unfolding new_call apply_all apply close_with_reason
hung_up-closed = refl

-- A dial whose stream is taken.
abbrev taken : Attempt
taken = record {
  dialing = Dialing.gone;
  waiting = Waiting.with_stream;
  stream = Made.alive;
  results = none;
  canceled = false;
}

dial_tidy_example :
    (taken.waiting ≡ Waiting.with_stream → taken.stream ≡ Made.alive)
    × (taken.waiting ≡ Waiting.with_error → taken.canceled ≡ true)
    × ((ok : Bool) → taken.dialing ≡ Dialing.checked ok → taken.results ≡ none)
dial_tidy_example = dial_tidy (
    Reach.next
      (Reach.next (Reach.next (Reach.next Reach.here (Step.dialed refl)) (Step.check refl refl))
        (Step.send refl refl))
      (Step.take_stream refl refl))
