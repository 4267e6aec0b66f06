-- ===== src/Call/Dial/Leaks.antt =====
-- What a dial leaves behind, however its two goroutines interleave.
use sip_relay.Prelude.{◌≡◌, ◌≢◌, ap, Bool, true, false, none, some, arith}
use sip_relay.Call.Dial.{Dialing, Waiting, Made, Attempt, begun, Step, Reach}

-- The goroutine has still to send its result.
abbrev is_to_send : Dialing → Bool
is_to_send Dialing.dialing = true
is_to_send (Dialing.back ok) = true
is_to_send (Dialing.checked ok) = true
is_to_send Dialing.gone = false

record IsTidy (s : Attempt) : Type 0 where
  room : is_to_send s.dialing ≡ true → (s.results ≡ none) × (s.waiting ≢ Waiting.with_stream)
  made_none : s.dialing ≡ Dialing.dialing → s.stream ≡ Made.no_stream
  made_back : s.dialing ≡ Dialing.back true → s.stream ≡ Made.alive
  made_checked : s.dialing ≡ Dialing.checked true → s.stream ≡ Made.alive
  queued : s.results ≡ some true → (s.stream ≡ Made.alive) × (s.waiting ≢ Waiting.with_stream)
  got : s.waiting ≡ Waiting.with_stream → s.stream ≡ Made.alive
  gave_up : s.waiting ≡ Waiting.with_error → s.canceled ≡ true

Step-IsTidy : {s t : Attempt} → IsTidy s → Step s t → IsTidy t
Step-IsTidy v (Step.dialed d) = ground arith
Step-IsTidy v (Step.refused d) = ground arith
Step-IsTidy v (Step.drop_stream d c) = ground arith
Step-IsTidy v (Step.drop_error d c) = ground arith
Step-IsTidy v (Step.check d c) = ground arith
Step-IsTidy v (Step.send d r) = ground arith
Step-IsTidy v (Step.take_stream w r) = ground arith
Step-IsTidy v (Step.take_error w r) = ground arith
Step-IsTidy v (Step.give_up w) = ground arith
Step-IsTidy v Step.cancel = ground arith

Reach-IsTidy : {s t : Attempt} → IsTidy s → Reach s t → IsTidy t
Reach-IsTidy v Reach.here = v
Reach-IsTidy v (Reach.next r st) = Step-IsTidy (Reach-IsTidy v r) st

begun-IsTidy : IsTidy begun
begun-IsTidy = ground arith

-- However the goroutine that dials and the one that waits interleave: a caller that got the stream has
-- one that the goroutine has not closed; a caller that got an error leaves the dialing context canceled;
-- and the channel is empty whenever the goroutine comes to send its result.
pub dial_tidy :
    {s : Attempt}
    → Reach begun s
    → (s.waiting ≡ Waiting.with_stream → s.stream ≡ Made.alive)
      × (s.waiting ≡ Waiting.with_error → s.canceled ≡ true)
      × ((ok : Bool) → s.dialing ≡ Dialing.checked ok → s.results ≡ none)
dial_tidy r =
    let v = Reach-IsTidy begun-IsTidy r in (v.got, v.gave_up, λ ok d. (v.room (ap is_to_send d)).0)
