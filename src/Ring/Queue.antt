-- ===== src/Ring/Queue.antt =====
-- What a byte ring promises: a FIFO of at most `cap` bytes, oldest first, that refuses the newest.
use sip_relay.Prelude.{ℕ, ◌-◌, List, [], ◌++◌, ◌∷◌, [], length, take, drop, min}

abbrev pub Queue : Type 0
Queue = List ℕ

-- Accept what fits, and say how much that was.
unfoldable pub push_back : ℕ → Queue → List ℕ → ℕ × Queue
push_back cap q p = let n = min (length p) (cap - length q) in (n, q ++ take n p)

-- Fill the front of `dst` with the oldest bytes, and leave the rest of `dst` alone.
unfoldable pub pop_front : Queue → List ℕ → ℕ × List ℕ × Queue
pop_front q dst = let n = min (length dst) (length q) in (n, take n q ++ drop n dst, drop n q)

-- A caller's operation on the buffer, and what the caller sees of it.
pub data Op : Type 0 where
  write : List ℕ → Op
  read : List ℕ → Op
  reset : Op

pub data Reply : Type 0 where
  wrote : ℕ → Reply
  copied : ℕ → List ℕ → Reply
  done : Reply

unfoldable pub run_queue : ℕ → Queue → List Op → List Reply
run_queue cap q [] = []
run_queue cap q (Op.write p ∷ ops) =
    let (n, q') = push_back cap q p in Reply.wrote n ∷ run_queue cap q' ops
run_queue cap q (Op.read dst ∷ ops) =
    let (n, dst', q') = pop_front q dst in Reply.copied n dst' ∷ run_queue cap q' ops
run_queue cap q (Op.reset ∷ ops) = Reply.done ∷ run_queue cap [] ops
