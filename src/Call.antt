-- ===== src/Call.antt =====
-- internal/call/call.go: the life of a call. A method that changes the call returns the new call;
-- the lock makes each locked section one step, and a method is taken as one step.
pub mod Life
pub mod Dial
mod Tests
use sip_relay.Prelude.{
  ℕ, suc, ◌-◌, Bool, true, false, Option, none, some, List, [], ◌∷◌, ◌||◌, ◌&&◌, not, if◌then◌else◌,
  leb,
}
use sip_relay.Backend.{StreamError}

-- `EndReason`
pub data EndReason : Type 0 where
  unset user agent transfer backend : EndReason

abbrev pub is_unset : EndReason → Bool
is_unset EndReason.unset = true
is_unset _ = false

-- `Call`: the locked fields, whether its context is canceled and its RTP port closed, how many `run`
-- goroutines were launched and have returned, and how often `done` was closed.
pub record Call : Type 0 where
  pub started : Bool
  pub closed : Bool
  pub reason : EndReason
  pub canceled : Bool
  pub rtp_closed : Bool
  pub launched : ℕ
  pub returned : ℕ
  pub done_once : Bool
  pub done_closes : ℕ

-- `New`
unfoldable pub new_call : Call
new_call = record {
  started = false;
  closed = false;
  reason = EndReason.unset;
  canceled = false;
  rtp_closed = false;
  launched = 0;
  returned = 0;
  done_once = false;
  done_closes = 0;
}

-- `Start`
unfoldable pub start : Call → Call
start c =
    if c.closed || c.started then c else record c { started = true; launched = suc c.launched }

-- `setEndReason`
unfoldable pub set_end_reason : EndReason → Call → Call
set_end_reason reason c = if is_unset c.reason then record c { reason = reason } else c

-- `finishDone`
unfoldable pub finish_done : Call → Call
finish_done c =
    if c.done_once then c else record c { done_once = true; done_closes = suc c.done_closes }

-- `CloseWithReason` once the lock is free: cancel the context if the call was started, close the port,
-- and notify if there is no `run` to do it. This follows in the same step as the locked part; a
-- call has its port from `onInvite`, so that the test for a nil `c.RTP` is left out.
close_resources : Call → Call
unfolding finish_done
close_resources c =
    let c' = record c { canceled = c.canceled || c.started; rtp_closed = true } in
    if c.started then c' else finish_done c'

-- `CloseWithReason`
unfoldable pub close_with_reason : EndReason → Call → Call
unfolding close_resources
close_with_reason reason c =
    if c.closed
    then c
    else (close_resources (record c {
      reason = if not (is_unset reason) && is_unset c.reason then reason else c.reason;
      closed = true;
    }))

-- `Close`
abbrev pub close : Call → Call
close = close_with_reason EndReason.unset

-- What `run` selects in its loop, after the backend was dialed; an error of the media goroutines is
-- only asked whether it is nil.
pub data Arm : Type 0 where
  dial_failed : Arm
  context_done : Arm
  rtp_ended : Bool → Arm
  stream_done : Option StreamError → Arm
  media_ended : Bool → Arm

-- `if ctx.Err() == nil && c.EndReason() == EndReasonNone { c.setEndReason(EndReasonBackend) }`
abbrev blame_backend : Call → Call
blame_backend c =
    if not c.canceled && is_unset c.reason then set_end_reason EndReason.backend c else c

-- The switch on the error of `stream.Done()`.
stream_reason : Option StreamError → Call → Call
stream_reason (some StreamError.agent_ended) c = set_end_reason EndReason.agent c
stream_reason (some StreamError.transfer) c = set_end_reason EndReason.transfer c
stream_reason (some StreamError.go_away) c = set_end_reason EndReason.backend c
stream_reason (some StreamError.canceled) c = c
stream_reason (some StreamError.normal_close) c = c
stream_reason (some StreamError.other) c = c
stream_reason none c = c

-- The arm that ends `run`.
unfoldable pub run_arm : Arm → Call → Call
unfolding stream_reason set_end_reason
run_arm Arm.dial_failed c = set_end_reason EndReason.backend c
run_arm Arm.context_done c = c
run_arm (Arm.rtp_ended failed) c = c
run_arm (Arm.stream_done err) c = blame_backend (stream_reason err c)
run_arm (Arm.media_ended failed) c = if failed then blame_backend c else c

-- The deferred calls of `run` that touch the call: `Close`, then `finishDone`.
unfoldable pub run_exit : Call → Call
run_exit c = let c' = finish_done (close c) in record c' { returned = suc c'.returned }

-- `run`, from its select to its return.
unfoldable pub run_call : Arm → Call → Call
unfolding run_arm run_exit
run_call arm c = run_exit (run_arm arm c)

-- `shouldSendBYE` of internal/sip/server.go
unfoldable pub should_send_bye : EndReason → Bool
should_send_bye EndReason.agent = true
should_send_bye EndReason.transfer = true
should_send_bye EndReason.backend = true
should_send_bye EndReason.user = false
should_send_bye EndReason.unset = false

-- `hangupReason`
pub data HangupReason : Type 0 where
  agent_ended transferred backend_error user_ended : HangupReason

unfoldable pub hangup_reason : EndReason → HangupReason
hangup_reason EndReason.agent = HangupReason.agent_ended
hangup_reason EndReason.transfer = HangupReason.transferred
hangup_reason EndReason.backend = HangupReason.backend_error
hangup_reason EndReason.user = HangupReason.user_ended
hangup_reason EndReason.unset = HangupReason.user_ended

-- What the server, the backend's goroutines and `run` do to a call, in any order.
pub data Op : Type 0 where
  launch : Op
  hang_up : EndReason → Op
  blame : EndReason → Op
  run_ends : Arm → Op

-- A `run` ends only if one is under way.
unfoldable pub apply : Op → Call → Call
apply Op.launch c = start c
apply (Op.hang_up reason) c = close_with_reason reason c
apply (Op.blame reason) c = set_end_reason reason c
apply (Op.run_ends arm) c = if leb c.launched c.returned then c else run_call arm c

unfoldable pub apply_all : List Op → Call → Call
apply_all [] c = c
apply_all (op ∷ ops) c = apply_all ops (apply op c)
