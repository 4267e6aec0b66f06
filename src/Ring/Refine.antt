-- ===== src/Ring/Refine.antt =====
-- A valid byte ring behaves as the queue of the bytes that it holds.
use native.Mathlib.Nat.{
  mod-add-mod, mod-eq_of_lt, mod-eq-sub-mod, mod-lt, mod-mod, suc-mod, add-zero, add-suc, suc-add,
}
use native.Mathlib.Decide.{dec_lt}
use sip_relay.Prelude.{
  ℕ, zero, suc, ◌+◌, ◌-◌, ◌%◌, ◌≤◌, ◌<◌, ◌≡◌, ◌≢◌, refl, sym, ap, ap₂, ◌∙◌, List, [], ◌∷◌, ◌++◌,
  arith, if◌then◌else◌, ltb, length, get_or, set, take, drop, min, append-nil, append_assoc,
  length-set, length-replicate, length-take, get_or-set_self, get_or-set_ne,
}
use sip_relay.Prelude.Int.{ℤ, pos, negsuc}
use sip_relay.Ring.{ByteRing, new_byte_ring, cap, copy_in, copy_out, write, read, reset}
use sip_relay.Ring.Queue.{push_back, pop_front}

-- What holds of a ring between two calls.
pub record IsValid (r : ByteRing) : Type 0 where
  pub head_in : r.head < length r.buf
  pub size_in : r.size ≤ length r.buf

-- The `n` bytes from position `h` on, each position taken round the buffer.
abbrev pub window : List ℕ → ℕ → ℕ → List ℕ
window buf h zero = []
window buf h (suc n) = get_or buf (h % length buf) 0 ∷ window buf (suc h) n

abbrev pub contents : ByteRing → List ℕ
contents r = window r.buf r.head r.size

pub length-window : (buf : List ℕ) (h n : ℕ) → length (window buf h n) ≡ n
length-window buf h zero = refl
length-window buf h (suc n) = ap suc (length-window buf (suc h) n)

-- Fewer than `cap` positions do not come back to the same index.
add-mod-ne : (c h k : ℕ) → suc k < c → (h + suc k) % c ≢ h % c
add-mod-ne c h k hk e = elim (dec_lt (h % c + suc k) c) [
  | yes p ↦ omega (arith, e, mod-add-mod h c (suc k), mod-eq_of_lt p)
  | no p ↦ omega (
    arith,
    e,
    mod-add-mod h c (suc k),
    mod-lt h {m = c} (omega arith),
    mod-eq-sub-mod {n = h % c + suc k} {m = c} (omega arith),
    mod-eq_of_lt {n = h % c + suc k - c} {m = c} (omega (arith, mod-lt h {m = c} (omega arith))),
  )
]

-- Writing just past a window extends it by that byte.
window-set :
    (buf : List ℕ) (x n h i : ℕ)
    → n < length buf
    → i ≡ (h + n) % length buf
    → window (set buf i x) h (suc n) ≡ window buf h n ++ (x ∷ [])
window-set buf x zero h i hn e =
    rw (length-set, e, add-zero, get_or-set_self buf (h % length buf) x 0 (omega arith))
window-set buf x (suc n) h i hn e =
    ap₂ ◌∷◌
      (rw length-set (get_or-set_ne buf x 0 (rw e (add-mod-ne (length buf) h n (omega arith)))))
      (window-set buf x n (suc h) i (omega arith) (e ∙ ap (λ k. k % length buf) (omega arith)))

-- The loop of `Write` appends its bytes to the window, and keeps the buffer's length.
copy_in-window :
    (p buf : List ℕ) (h n start i : ℕ)
    → start + i ≡ h + n
    → n + length p ≤ length buf
    → (window (copy_in buf start i p) h (n + length p) ≡ window buf h n ++ p)
      × (length (copy_in buf start i p) ≡ length buf)
unfolding copy_in
copy_in-window [] buf h n start i e hn = (rw (add-zero, append-nil), refl)
copy_in-window (x ∷ p) buf h n start i e hn =
    let at = (start + i) % length buf in
    let (win, same) =
      copy_in-window p (set buf at x) h (suc n) start (suc i) (omega arith)
        (omega (arith, length-set buf at x)) in
    (
      ap (λ k. window (copy_in (set buf at x) start (suc i) p) h k) (omega arith)
          ∙ win
          ∙ ap (λ w. w ++ p) (window-set buf x n h at (omega arith) (ap (λ k. k % length buf) e))
          ∙ append_assoc (window buf h n) (x ∷ []) p,
      same ∙ length-set buf at x,
    )

-- The loop of `Read` touches nothing below the index that it starts at.
copy_out-cons :
    (k : ℕ) (buf dst : List ℕ) (x h i : ℕ)
    → copy_out buf h (suc i) k (x ∷ dst) ≡ x ∷ copy_out buf (suc h) i k dst
unfolding copy_out
copy_out-cons zero buf dst x h i = refl
copy_out-cons (suc k) buf dst x h i =
    rw (add-suc, suc-add)
      (copy_out-cons k buf (set dst i (get_or buf (suc (h + i) % length buf) 0)) x h (suc i))

copy_out-window :
    (dst buf : List ℕ) (h k : ℕ)
    → k ≤ length dst
    → copy_out buf h 0 k dst ≡ window buf h k ++ drop k dst
unfolding copy_out
copy_out-window dst buf h zero hk = refl
copy_out-window [] buf h (suc k) hk = absurd (omega arith)
copy_out-window (x ∷ dst) buf h (suc k) hk =
    rw (add-zero, copy_out-cons k buf dst (get_or buf (h % length buf) 0) h 0)
      (ap (λ w. get_or buf (h % length buf) 0 ∷ w)
        (copy_out-window dst buf (suc h) k (omega arith)))

window-mod : (buf : List ℕ) (h n : ℕ) → window buf (h % length buf) n ≡ window buf h n
window-mod buf h zero = refl
window-mod buf h (suc n) =
    ap₂ (λ a w. get_or buf a 0 ∷ w) (mod-mod h (length buf))
      (sym (window-mod buf (suc (h % length buf)) n)
        ∙ ap (λ k. window buf k n) (sym (suc-mod h (length buf)))
        ∙ window-mod buf (suc h) n)

window-take : (buf : List ℕ) (h n m : ℕ) → n ≤ m → take n (window buf h m) ≡ window buf h n
window-take buf h zero m hn = refl
window-take buf h (suc n) zero hn = absurd (omega arith)
window-take buf h (suc n) (suc m) hn =
    ap (λ w. get_or buf (h % length buf) 0 ∷ w) (window-take buf (suc h) n m (omega arith))

window-drop :
    (buf : List ℕ) (h n m : ℕ) → n ≤ m → drop n (window buf h m) ≡ window buf (h + n) (m - n)
window-drop buf h zero m hn = ap₂ (λ a k. window buf a k) (omega arith) (omega arith)
window-drop buf h (suc n) zero hn = absurd (omega arith)
window-drop buf h (suc n) (suc m) hn =
    window-drop buf (suc h) n m (omega arith)
    ∙ ap₂ (λ a k. window buf a k) (omega arith) (omega arith)

pub new_byte_ring-IsValid : (capacity : ℤ) → IsValid (new_byte_ring capacity)
unfolding new_byte_ring
new_byte_ring-IsValid (pos zero) = omega arith
new_byte_ring-IsValid (pos (suc n)) = ground (arith, length-replicate {A = ℕ} (suc n) 0)
new_byte_ring-IsValid (negsuc n) = ground arith

pub cap-new_byte_ring : (n : ℕ) → cap (new_byte_ring (pos (suc n))) ≡ suc n
unfolding new_byte_ring
cap-new_byte_ring n = ground (arith, length-replicate {A = ℕ} (suc n) 0)

pub contents-new_byte_ring : (c : ℤ) → contents (new_byte_ring c) ≡ []
unfolding new_byte_ring
contents-new_byte_ring c = refl

-- The source's `n := len(p); if free := ..; n > free` is a minimum.
if-ltb-min : (a b : ℕ) → (if ltb a b then a else b) ≡ min b a
if-ltb-min a b = ground arith

module _ {r : ByteRing} (p : List ℕ) (v : IsValid r) where
  abbrev accepted : ℕ
  accepted = min (length p) (length r.buf - r.size)

  written :
      (window (copy_in r.buf (r.head + r.size) 0 (take accepted p)) r.head (r.size + accepted)
        ≡ contents r ++ take accepted p)
      × (length (copy_in r.buf (r.head + r.size) 0 (take accepted p)) ≡ length r.buf)
  written =
      let count : length (take accepted p) ≡ accepted = omega (arith, length-take accepted p) in
      let (win, same) =
        copy_in-window (take accepted p) r.buf r.head r.size (r.head + r.size) 0 (omega arith)
          (omega (arith, count, v.size_in)) in
      (
        ap (λ k. window (copy_in r.buf (r.head + r.size) 0 (take accepted p)) r.head (r.size + k))
              (sym count)
            ∙ win,
        same,
      )

  write-eq : write r p ≡ (
    accepted,
    record r {
      buf = copy_in r.buf (r.head + r.size) 0 (take accepted p);
      size = r.size + accepted;
    },
  )
  unfolding write
  write-eq = rw if-ltb-min

  -- `Write` keeps a ring valid, and its capacity as it was.
  pub write-IsValid : IsValid (write r p).1 × (cap (write r p).1 ≡ cap r)
  write-IsValid = rw write-eq (
    record {
      head_in = omega (arith, written.1, v.head_in);
      size_in = omega (arith, written.1, v.size_in);
    },
    written.1,
  )

  -- `Write` accepts what fits, appends exactly that, and says how much it was.
  pub write_refines : let (n, r') = write r p in (n, contents r') ≡ push_back (cap r) (contents r) p
  unfolding push_back
  write_refines = rw (write-eq, length-window) (ap (λ w. (accepted, w)) written.0)

module _ {r : ByteRing} (dst : List ℕ) (v : IsValid r) where
  abbrev copied : ℕ
  copied = min (length dst) r.size

  read-eq : read r dst ≡ (
    copied,
    copy_out r.buf r.head 0 copied dst,
    record r { head = (r.head + copied) % length r.buf; size = r.size - copied },
  )
  unfolding read
  read-eq = rw if-ltb-min

  -- `Read` keeps a ring valid.
  pub read-IsValid : IsValid (read r dst).2
  read-IsValid = rw read-eq (record {
    head_in = mod-lt (r.head + copied) (omega (arith, v.head_in));
    size_in = omega (arith, v.size_in);
  })

  -- `Read` fills the front of the slice with the oldest bytes, and drops just these.
  pub read_refines :
      let (n, dst', r') = read r dst in (n, dst', contents r') ≡ pop_front (contents r) dst
  unfolding pop_front
  read_refines =
      rw (read-eq, length-window)
        (ap₂ (λ a b. (copied, a, b))
          (copy_out-window dst r.buf r.head copied (omega arith)
            ∙ ap (λ w. w ++ drop copied dst)
                (sym (window-take r.buf r.head copied r.size (omega arith))))
          (window-mod r.buf (r.head + copied) (r.size - copied)
            ∙ sym (window-drop r.buf r.head copied r.size (omega arith))))

  pub cap-read : cap (read r dst).2 ≡ cap r
  cap-read = rw read-eq

-- `Reset` gives a valid, empty ring of the same capacity.
pub reset_lem :
    {r : ByteRing}
    → IsValid r
    → IsValid (reset r) × (contents (reset r) ≡ []) × (cap (reset r) ≡ cap r)
unfolding reset
reset_lem v = (omega arith, refl, refl)
