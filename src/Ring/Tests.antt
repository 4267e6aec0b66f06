-- ===== src/Ring/Tests.antt =====
-- Byte rings on concrete bytes.
use sip_relay.Prelude.{◌≡◌, refl, List, [], ◌∷◌}
use sip_relay.Prelude.Int.{pos, negsuc}
use sip_relay.Ring.{ByteRing, new_byte_ring, write, read}
use sip_relay.Ring.Queue.{Op, run_queue}
use sip_relay.Ring.Runs.{run, run-new_byte_ring}

-- 8, then 9, round the end of the buffer
abbrev wrapped : ByteRing
wrapped = record { buf = 9 ∷ 7 ∷ 8 ∷ []; head = 2; size = 2 }

write-wrapped :
    write wrapped (1 ∷ 2 ∷ []) ≡ (1, record { buf = 9 ∷ 1 ∷ 8 ∷ []; head = 2; size = 3 })
unfolding write
write-wrapped = refl

read-wrapped :
    read wrapped (0 ∷ 0 ∷ 0 ∷ [])
    ≡ (2, 8 ∷ 9 ∷ 0 ∷ [], record { buf = 9 ∷ 7 ∷ 8 ∷ []; head = 1; size = 0 })
unfolding read
read-wrapped = refl

not_positive : new_byte_ring (negsuc 4) ≡ record { buf = 0 ∷ []; head = 0; size = 0 }
unfolding new_byte_ring
not_positive = refl

abbrev script : List Op
script = Op.write (1 ∷ 2 ∷ 3 ∷ []) ∷ Op.read (0 ∷ []) ∷ Op.write (4 ∷ 5 ∷ []) ∷ Op.reset ∷ []

run-new_byte_ring_example : run (new_byte_ring (pos 3)) script ≡ run_queue 3 [] script
run-new_byte_ring_example = run-new_byte_ring (pos 3) script
