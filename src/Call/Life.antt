-- ===== src/Call/Life.antt =====
-- What holds of a call over any sequence of operations.
use sip_relay.Prelude.{
  ◌≤◌, ◌<◌, ◌≡◌, ◌≢◌, refl, sym, ◌∙◌, inl, inr, Bool, true, false, List, [], ◌∷◌, ◌&&◌, ◌||◌, not,
  arith, if◌then◌else◌, ◌==◌, leb, Bool-cases,
}
use sip_relay.Call.{
  EndReason, Call, Arm, Op, new_call, start, set_end_reason, finish_done, close_with_reason,
  run_arm, run_exit, run_call, apply, apply_all, should_send_bye,
}

-- What holds of a call between two operations.
pub record IsSound (c : Call) : Type 0 where
  pub one_run : c.launched ≡ (if c.started then 1 else 0)
  pub run_once : c.returned ≤ c.launched
  pub done_once : c.done_closes ≡ (if c.done_once then 1 else 0)
  pub notified : c.done_once ≡ ((c.closed && not c.started) || not (c.returned == 0))
  pub released : c.closed ≡ true → c.rtp_closed ≡ true
  pub stopped : c.closed ≡ true → c.started ≡ true → c.canceled ≡ true
  pub over : 0 < c.returned → c.closed ≡ true

pub new_call-IsSound : IsSound new_call
unfolding new_call
new_call-IsSound = ground arith

pub start-IsSound : (c : Call) → IsSound c → IsSound (start c)
unfolding start
start-IsSound c v = ground arith

pub close_with_reason-IsSound :
    (r : EndReason) (c : Call) → IsSound c → IsSound (close_with_reason r c)
unfolding close_with_reason
close_with_reason-IsSound r c v = ground arith

set_end_reason-IsSound : (r : EndReason) (c : Call) → IsSound c → IsSound (set_end_reason r c)
unfolding set_end_reason
set_end_reason-IsSound r c v = ground arith

run_arm-IsSound : (arm : Arm) (c : Call) → IsSound c → IsSound (run_arm arm c)
unfolding run_arm
run_arm-IsSound arm c v = ground arith

run_exit-IsSound : (c : Call) → IsSound c → c.returned < c.launched → IsSound (run_exit c)
unfolding run_exit close_with_reason finish_done
run_exit-IsSound c v h = ground arith

run_arm_fields :
    (arm : Arm) (c : Call)
    → ((run_arm arm c).returned ≡ c.returned) × ((run_arm arm c).launched ≡ c.launched)
unfolding run_arm
run_arm_fields arm c = ground arith

run_call-IsSound :
    (arm : Arm) (c : Call) → IsSound c → c.returned < c.launched → IsSound (run_call arm c)
unfolding run_call
run_call-IsSound arm c v h =
    run_exit-IsSound (run_arm arm c) (run_arm-IsSound arm c v) (omega (arith, run_arm_fields arm c))

pub apply-IsSound : (op : Op) (c : Call) → IsSound c → IsSound (apply op c)
unfolding apply
apply-IsSound Op.launch c v = start-IsSound c v
apply-IsSound (Op.hang_up r) c v = close_with_reason-IsSound r c v
apply-IsSound (Op.blame r) c v = set_end_reason-IsSound r c v
apply-IsSound (Op.run_ends arm) c v = elim (Bool-cases (leb c.launched c.returned)) [
  | inl e ↦ rw e v
  | inr e ↦ rw e (run_call-IsSound arm c v (ground arith))
]

-- Over any sequence of starts, closes, end reasons and returns of `run`, in any order, a sound call
-- stays sound: one `run` is launched if it was started and none if not; `done` is closed at most once,
-- and is closed exactly when the call was closed unstarted or `run` has returned; a closed call has its
-- port closed and, if it was started, its context canceled; once `run` has returned the call is closed.
pub apply_all-IsSound : (ops : List Op) (c : Call) → IsSound c → IsSound (apply_all ops c)
unfolding apply_all
apply_all-IsSound [] c v = v
apply_all-IsSound (op ∷ ops) c v = apply_all-IsSound ops (apply op c) (apply-IsSound op c v)

reason-apply : (op : Op) (c : Call) → c.reason ≢ EndReason.unset → (apply op c).reason ≡ c.reason
unfolding apply start close_with_reason set_end_reason run_call run_arm run_exit finish_done
reason-apply op c h = ground arith

-- The first reason given for a call's end is the one that it keeps.
pub reason-apply_all :
    (ops : List Op) (c : Call) → c.reason ≢ EndReason.unset → (apply_all ops c).reason ≡ c.reason
unfolding apply_all
reason-apply_all [] c h = refl
reason-apply_all (op ∷ ops) c h =
    reason-apply_all ops (apply op c) (λ e. h (sym (reason-apply op c h) ∙ e)) ∙ reason-apply op c h

closed-apply :
    (op : Op) (c : Call)
    → IsSound c
    → c.closed ≡ true
    → ((apply op c).closed ≡ true)
      × ((apply op c).launched ≡ c.launched)
      × ((apply op c).rtp_closed ≡ c.rtp_closed)
unfolding apply start close_with_reason set_end_reason run_call run_arm run_exit finish_done
closed-apply op c v h = ground arith

-- No operation launches a `run` on a sound call that is closed, and none opens it or its port again.
pub closed-apply_all :
    (ops : List Op) (c : Call)
    → IsSound c
    → c.closed ≡ true
    → ((apply_all ops c).closed ≡ true)
      × ((apply_all ops c).launched ≡ c.launched)
      × ((apply_all ops c).rtp_closed ≡ true)
unfolding apply_all
closed-apply_all [] c v h = (h, refl, v.released h)
closed-apply_all (op ∷ ops) c v h =
    let (shut, same, _) = closed-apply op c v h in
    let (a, b, d) = closed-apply_all ops (apply op c) (apply-IsSound op c v) shut in
    (a, b ∙ same, d)

-- The ends of `run` that the backend causes: it cannot be dialed, its stream is done, or a media
-- goroutine fails.
abbrev pub backend_ended : Arm → Bool
backend_ended Arm.dial_failed = true
backend_ended Arm.context_done = false
backend_ended (Arm.rtp_ended failed) = false
backend_ended (Arm.stream_done err) = true
backend_ended (Arm.media_ended failed) = failed

-- When `run` returns on an open call whose end has no reason yet and whose context is alive, the call
-- is closed and a BYE is to be sent exactly if the backend caused the end: none is sent when the RTP
-- loop ends, by the media timeout too, nor when the receiving goroutine ends without an error.
pub run_call-should_send_bye :
    (arm : Arm) (c : Call)
    → c.closed ≡ false
    → c.canceled ≡ false
    → c.reason ≡ EndReason.unset
    → ((run_call arm c).closed ≡ true)
      × (should_send_bye (run_call arm c).reason ≡ backend_ended arm)
unfolding run_call run_arm run_exit close_with_reason finish_done set_end_reason should_send_bye
run_call-should_send_bye arm c h k r = ground arith
