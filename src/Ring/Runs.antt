-- ===== src/Ring/Runs.antt =====
-- Any sequence of calls on a byte ring, against the bounded queue.
use sip_relay.Prelude.{ℕ, zero, suc, ◌≡◌, refl, ap₂, ◌∙◌, arith, List, [], ◌∷◌}
use sip_relay.Prelude.Int.{ℤ, pos, negsuc}
use sip_relay.Ring.{ByteRing, new_byte_ring, cap, write, read, reset}
use sip_relay.Ring.Queue.{Op, Reply, run_queue}
use sip_relay.Ring.Refine.{
  IsValid, contents, new_byte_ring-IsValid, cap-new_byte_ring, contents-new_byte_ring,
  write-IsValid, write_refines, read-IsValid, cap-read, read_refines, reset_lem,
}

unfoldable pub run : ByteRing → List Op → List Reply
run r [] = []
run r (Op.write p ∷ ops) = let (n, r') = write r p in Reply.wrote n ∷ run r' ops
run r (Op.read dst ∷ ops) = let (n, dst', r') = read r dst in Reply.copied n dst' ∷ run r' ops
run r (Op.reset ∷ ops) = Reply.done ∷ run (reset r) ops

run_refines :
    (ops : List Op) {r : ByteRing} → IsValid r → run r ops ≡ run_queue (cap r) (contents r) ops
unfolding run run_queue
run_refines [] v = refl
run_refines (Op.write p ∷ ops) v =
    rw (run_refines ops (write-IsValid p v).0, ← write_refines p v, (write-IsValid p v).1)
run_refines (Op.read dst ∷ ops) v =
    rw (run_refines ops (read-IsValid dst v), ← read_refines dst v, cap-read dst v)
run_refines (Op.reset ∷ ops) v =
    rw (run_refines ops (reset_lem v).0, (reset_lem v).1, (reset_lem v).2)

-- The capacity that was asked for, or one byte for a request that is not positive.
abbrev pub granted : ℤ → ℕ
granted (pos zero) = 1
granted (pos (suc n)) = suc n
granted (negsuc n) = 1

cap-granted : (capacity : ℤ) → cap (new_byte_ring capacity) ≡ granted capacity
unfolding new_byte_ring
cap-granted (pos zero) = refl
cap-granted (pos (suc n)) = cap-new_byte_ring n
cap-granted (negsuc n) = ground arith

-- Whatever calls are made on a new byte ring, each returns what the empty bounded queue returns that
-- holds as many bytes as were asked for, or one byte where the request was not positive.
pub run-new_byte_ring :
    (capacity : ℤ) (ops : List Op)
    → run (new_byte_ring capacity) ops ≡ run_queue (granted capacity) [] ops
run-new_byte_ring c ops =
    run_refines ops (new_byte_ring-IsValid c)
    ∙ ap₂ (λ n q. run_queue n q ops) (cap-granted c) (contents-new_byte_ring c)
