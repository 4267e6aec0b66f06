-- ===== src/Rtp/Shutdown/Race.antt =====
-- internal/rtp/port.go: the race of Run and readLoop for the channel `received`.
use sip_relay.Prelude.{◌≡◌, refl, true, false, not, ◌⊎◌, arith, ◌||◌}
use sip_relay.Rtp.Shutdown.{Reader, Runner, Shared, opened, Step, Reach}

-- The channel is closed only after readLoop has returned.
record IsOrderly (s : Shared) : Type 0 where
  calm : s.panicked ≡ false
  closed_after : s.channel_open ≡ false → s.reader ≡ Reader.done

Step-IsOrderly : {s t : Shared} → IsOrderly s → Step false s t → IsOrderly t
Step-IsOrderly v (Step.arrive e o) = ground arith
Step-IsOrderly v (Step.put e) = ground arith
Step-IsOrderly v (Step.fail e) = ground arith
Step-IsOrderly v (Step.cancel e) = ground arith
Step-IsOrderly v (Step.drained e d) = ground arith
Step-IsOrderly v (Step.ended e d) = ground arith
Step-IsOrderly v (Step.timeout e r) = cc

Reach-IsOrderly : {s t : Shared} → IsOrderly s → Reach false s t → IsOrderly t
Reach-IsOrderly v Reach.here = v
Reach-IsOrderly v (Reach.next r st) = Step-IsOrderly (Reach-IsOrderly v r) st

-- If the media timer never fires, no interleaving of Run and readLoop sends on the closed channel.
pub no_panic : {s : Shared} → Reach false opened s → s.panicked ≡ false
no_panic r = (Reach-IsOrderly (record { calm = refl; closed_after = λ e. cc }) r).calm

-- The state after the media timer has fired: Run has closed the socket and the channel and returned.
abbrev pub fired : Shared → Shared
fired s = record s { runner = Runner.returned; socket_open = false; channel_open = false }

-- readLoop has panicked, or still holds its payload before the closed channel.
record IsDoomed (s : Shared) : Type 0 where
  shut : s.channel_open ≡ false
  gone : s.runner ≡ Runner.returned
  doomed : (s.panicked ≡ true) ⊎ (s.reader ≡ Reader.holding)

-- The send of a held payload on the closed channel.
abbrev pub sent_late : Shared → Shared
sent_late s = record s { reader = Reader.reading; panicked = s.panicked || not s.channel_open }
