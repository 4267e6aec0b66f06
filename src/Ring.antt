-- ===== src/Ring.antt =====
-- internal/call/ring.go: byteRing, the outbound playout buffer. A method that changes `*r` returns
-- the new ring; one that fills the caller's slice returns that slice as well. Bytes are numbers.
pub mod Queue
pub mod Refine
pub mod Runs
mod Tests
use sip_relay.Prelude.{
  ℕ, zero, suc, ◌+◌, ◌-◌, ◌%◌, List, [], ◌∷◌, ltb, if◌then◌else◌, length, get_or, set, take,
  replicate,
}
use sip_relay.Prelude.Int.{ℤ, pos, pos_part, leb_ℤ}

-- `byteRing`
pub record ByteRing : Type 0 where
  pub buf : List ℕ
  pub head : ℕ  -- index of the oldest buffered byte
  pub size : ℕ  -- number of buffered bytes

-- `newByteRing`: a capacity that is not positive becomes 1.
unfoldable pub new_byte_ring : ℤ → ByteRing
new_byte_ring capacity =
    let c = if leb_ℤ capacity (pos 0) then pos 1 else capacity in
    record { buf = replicate (pos_part c) 0; head = 0; size = 0 }

-- `Len`
abbrev pub len : ByteRing → ℕ
len r = r.size

-- `Cap`
abbrev pub cap : ByteRing → ℕ
cap r = length r.buf

-- The loop of `Write`: `r.buf[(r.head+r.size+i)%len(r.buf)] = p[i]`, over the bytes `p[i..n)`.
copy_in : List ℕ → ℕ → ℕ → List ℕ → List ℕ
copy_in buf start i [] = buf
copy_in buf start i (x ∷ p) = copy_in (set buf ((start + i) % length buf) x) start (suc i) p

-- `Write`: the number of bytes accepted, and the ring.
unfoldable pub write : ByteRing → List ℕ → ℕ × ByteRing
unfolding copy_in
write r p =
    let free = length r.buf - r.size in
    let n = if ltb free (length p) then free else length p in
    (n, record r { buf = copy_in r.buf (r.head + r.size) 0 (take n p); size = r.size + n })

-- The loop of `Read`, `k` rounds of `dst[i] = r.buf[(r.head+i)%len(r.buf)]` from `i` on.
copy_out : List ℕ → ℕ → ℕ → ℕ → List ℕ → List ℕ
copy_out buf head i zero dst = dst
copy_out buf head i (suc k) dst =
    copy_out buf head (suc i) k (set dst i (get_or buf ((head + i) % length buf) 0))

-- `Read`: the number of bytes copied, the filled slice, and the ring.
unfoldable pub read : ByteRing → List ℕ → ℕ × List ℕ × ByteRing
unfolding copy_out
read r dst =
    let n = if ltb r.size (length dst) then r.size else length dst in
    (
      n,
      copy_out r.buf r.head 0 n dst,
      record r { head = (r.head + n) % length r.buf; size = r.size - n },
    )

-- `Reset`
unfoldable pub reset : ByteRing → ByteRing
reset r = record r { head = 0; size = 0 }
