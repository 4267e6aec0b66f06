-- ===== src/Rtp/Bind/Search.antt =====
-- internal/rtp/port.go: the results of listenUDPRange against the ports of its range.
use native.Mathlib.Nat.{
  mod-add-mod, add-mod-mod, add-mod_right, mod-eq_of_lt, mod-lt, mod_self, add-zero,
}
use native.Mathlib.Decide.{dec_lt}
use sip_relay.Prelude.{
  ℕ, zero, suc, ◌+◌, ◌-◌, ◌*◌, ◌/◌, ◌%◌, ◌≤◌, ◌<◌, ◌≡◌, refl, sym, ap, subst, ◌∙◌, inl, inr, true,
  arith, ltb, if◌then◌else◌, ltb→lt, Bool-cases,
}
use sip_relay.Prelude.Int.{pos}
use sip_relay.Rtp.Bind.{
  Bind, Listened, next_port, try_ports, even_min_of, even_max_of, ports_of, listen_udp_range,
}

-- The `j`-th even port from `lo` on.
abbrev nth : ℕ → ℕ → ℕ
nth lo j = lo + 2 * j

-- What a result says of the ports tried, which are the `k` from index `j` on, round `n`.
abbrev Tried : (ℕ → Bind) → ℕ → ℕ → ℕ → ℕ → Listened → Type 0
Tried bind lo n j k (Listened.bound port) =
    (i : ℕ) × (i < k) × (port ≡ nth lo ((j + i) % n)) × (bind port ≡ Bind.free)
Tried bind lo n j k Listened.none_free = (i : ℕ) → i < k → bind (nth lo ((j + i) % n)) ≡ Bind.in_use
Tried bind lo n j k Listened.refused =
    (i : ℕ) × (i < k) × (bind (nth lo ((j + i) % n)) ≡ Bind.failed)
Tried bind lo n j k Listened.invalid_ip = ⊥

next_index : (lo n j : ℕ) → j < n → next_port lo (nth lo (n - 1)) (nth lo j) ≡ nth lo ((j + 1) % n)
next_index lo n j h = elim (dec_lt (j + 1) n) [
  | yes p ↦ rw (mod-eq_of_lt p) (ground arith)
  | no p ↦ let e : j + 1 ≡ n = omega arith in rw (e, mod_self) (ground arith)
]

shift_index : (j i n : ℕ) → ((j + 1) % n + i) % n ≡ (j + suc i) % n
shift_index j i n = mod-add-mod (j + 1) n i ∙ ap (λ t. t % n) (omega arith)

module _ (bind : ℕ → Bind) (lo n : ℕ) where
  Tried-suc :
      (j k : ℕ) (r : Listened)
      → j < n
      → bind (nth lo j) ≡ Bind.in_use
      → Tried bind lo n ((j + 1) % n) k r
      → Tried bind lo n j (suc k) r
  Tried-suc j k (Listened.bound port) hj e (i, h, p, f) =
      (suc i, omega arith, p ∙ ap (nth lo) (shift_index j i n), f)
  Tried-suc j k Listened.refused hj e (i, h, f) =
      (suc i, omega arith, subst (λ t. bind (nth lo t) ≡ Bind.failed) (shift_index j i n) f)
  Tried-suc j k Listened.invalid_ip hj e t = t
  Tried-suc j k Listened.none_free hj e t = all_in_use
    where
      all_in_use : (i : ℕ) → i < suc k → bind (nth lo ((j + i) % n)) ≡ Bind.in_use
      all_in_use zero h = rw (add-zero, mod-eq_of_lt hj) e
      all_in_use (suc i) h =
          subst (λ s. bind (nth lo s) ≡ Bind.in_use) (shift_index j i n) (t i (omega arith))

  Tried-case :
      (j k : ℕ) (b : Bind) (rest : Listened)
      → j < n
      → bind (nth lo j) ≡ b
      → Tried bind lo n ((j + 1) % n) k rest
      → Tried bind lo n j (suc k) (elim b [
        | Bind.free ↦ Listened.bound (nth lo j)
        | Bind.failed ↦ Listened.refused
        | Bind.in_use ↦ rest
      ])
  Tried-case j k Bind.free rest hj e t = (0, omega arith, rw (add-zero, mod-eq_of_lt hj), e)
  Tried-case j k Bind.failed rest hj e t = (0, omega arith, rw (add-zero, mod-eq_of_lt hj) e)
  Tried-case j k Bind.in_use rest hj e t = Tried-suc j k rest hj e t

  try_ports_lem :
      (k j : ℕ) → j < n → Tried bind lo n j k (try_ports bind lo (nth lo (n - 1)) k (nth lo j))
  unfolding try_ports
  try_ports_lem zero j hj = λ i h. absurd (omega arith)
  try_ports_lem (suc k) j hj =
      Tried-case j k (bind (nth lo j))
        (try_ports bind lo (nth lo (n - 1)) k (next_port lo (nth lo (n - 1)) (nth lo j))) hj refl
        (subst (λ p. Tried bind lo n ((j + 1) % n) k (try_ports bind lo (nth lo (n - 1)) k p))
          (sym (next_index lo n j hj)) (try_ports_lem k ((j + 1) % n) (omega arith)))

-- An even port of the configured range.
abbrev pub IsCandidate : ℕ → ℕ → ℕ → Type 0
IsCandidate min_port max_port port = (min_port ≤ port) × (port ≤ max_port) × (port % 2 ≡ 0)

-- What each result of the search says of the ports of the range.
abbrev pub IsAnswer : (ℕ → Bind) → ℕ → ℕ → Listened → Type 0
IsAnswer bind min_port max_port (Listened.bound port) =
    IsCandidate min_port max_port port × (bind port ≡ Bind.free)
IsAnswer bind min_port max_port Listened.none_free =
    (port : ℕ) → IsCandidate min_port max_port port → bind port ≡ Bind.in_use
IsAnswer bind min_port max_port Listened.refused =
    (port : ℕ) × IsCandidate min_port max_port port × (bind port ≡ Bind.failed)
IsAnswer bind min_port max_port Listened.invalid_ip = ⊥

-- Every index of the range is tried within `n` tries from `j` on.
index_back : (n j i : ℕ) → j < n → i < n → (j + (i + n - j) % n) % n ≡ i
index_back n j i hj hi =
    add-mod-mod j (i + n - j) n
    ∙ ap (λ t. t % n) (let e : j + (i + n - j) ≡ i + n = omega arith in e)
    ∙ add-mod_right i n
    ∙ mod-eq_of_lt hi

module _ (mn mx lo n : ℕ) (el : lo ≡ (mn + 1) / 2 * 2) (eh : lo + 2 * (n - 1) ≡ mx / 2 * 2) where
  nth-IsCandidate : (s : ℕ) → s < n → IsCandidate mn mx (nth lo s)
  nth-IsCandidate s h = (omega arith, omega arith, omega arith)

  index_of : (port : ℕ) → IsCandidate mn mx port → 0 < n → (i : ℕ) × (i < n) × (nth lo i ≡ port)
  index_of port c h = ((port - lo) / 2, omega arith, omega arith)

Tried-IsAnswer :
    (bind : ℕ → Bind) (min_port max_port lo n j : ℕ) (r : Listened)
    → lo ≡ (min_port + 1) / 2 * 2
    → lo + 2 * (n - 1) ≡ max_port / 2 * 2
    → j < n
    → Tried bind lo n j n r
    → IsAnswer bind min_port max_port r
Tried-IsAnswer bind mn mx lo n j (Listened.bound port) el eh hj (i, h, p, f) = (
  subst (IsCandidate mn mx) (sym p)
      (nth-IsCandidate mn mx lo n el eh ((j + i) % n) (mod-lt (j + i) (omega arith))),
  f,
)
Tried-IsAnswer bind mn mx lo n j Listened.refused el eh hj (i, h, f) = (
  nth lo ((j + i) % n),
  nth-IsCandidate mn mx lo n el eh ((j + i) % n) (mod-lt (j + i) (omega arith)),
  f,
)
Tried-IsAnswer bind mn mx lo n j Listened.invalid_ip el eh hj t = t
Tried-IsAnswer bind mn mx lo n j Listened.none_free el eh hj t = λ port c.
    let (s, hs, e) = index_of mn mx lo n el eh port c (omega arith) in
    subst (λ q. bind q ≡ Bind.in_use) (ap (nth lo) (index_back n j s hj hs) ∙ e)
      (t ((s + n - j) % n) (mod-lt (s + n - j) (omega arith)))

searched :
    (bind : ℕ → Bind) (pick : ℕ → ℕ) (mn mx lo hi : ℕ)
    → ((k : ℕ) → 0 < k → pick k < k)
    → lo ≡ (mn + 1) / 2 * 2
    → hi ≡ mx / 2 * 2
    → IsAnswer bind mn mx (
        if ltb hi lo
        then Listened.none_free
        else try_ports bind lo hi (ports_of lo hi) (lo + 2 * pick (ports_of lo hi)))
searched bind pick mn mx lo hi law el eh = elim (Bool-cases (ltb hi lo)) [
  | inl e ↦ rw e (λ port c. absurd (omega (arith, ltb→lt hi lo e)))
  | inr e ↦
      let ge : lo ≤ hi = ground arith in
      let n = ports_of lo hi in
      let last : lo + 2 * (n - 1) ≡ hi = omega arith in
      let hj : pick n < n = law n (omega arith) in
      rw e (
        Tried-IsAnswer bind mn mx lo n (pick n) (try_ports bind lo hi n (lo + 2 * pick n)) el
          (last ∙ eh) hj
          (subst (λ h. Tried bind lo n (pick n) n (try_ports bind lo h n (nth lo (pick n)))) last
            (try_ports_lem bind lo n n (pick n) hj)))
]

-- On a configured range with 0 < min and 0 < max <= 65535 the search answers truthfully, whichever
-- port of the range it starts from: it returns a free even port of the range, or says that none is free when every
-- even port of the range is in use, or stops at an even port of the range that cannot be opened for
-- another reason.
pub listen_udp_range_lem :
    (bind : ℕ → Bind) (pick : ℕ → ℕ) (min_port max_port : ℕ)
    → ((k : ℕ) → 0 < k → pick k < k)
    → 0 < min_port
    → 0 < max_port
    → max_port ≤ 0xffff
    → IsAnswer bind min_port max_port
        (listen_udp_range true bind pick (pos min_port) (pos max_port))
unfolding listen_udp_range
listen_udp_range_lem bind pick mn mx law hmin hmax hmax' =
    searched bind pick mn mx (even_min_of (pos mn)) (even_max_of (pos mx)) law (ground arith)
      (ground arith)
