-- ===== src/Rtp/Bind.antt =====
-- internal/rtp/port.go: listenUDPRange, the search for a free even port. `bind` is what
-- `net.ListenUDP` answers for a port, `pick` what `mathrand.Intn` returns, `parsed` whether
-- `net.ParseIP` accepts the address.
pub mod Search
use sip_relay.Prelude.{ℕ, zero, suc, ◌+◌, ◌-◌, ◌*◌, ◌/◌, Bool, not, ◌||◌, ltb, if◌then◌else◌}
use sip_relay.Prelude.Int.{ℤ, pos, pos_part, leb_ℤ, ltb_ℤ}

pub data Bind : Type 0 where
  free in_use failed : Bind

-- What `listenUDPRange` returns: a socket on a port, or one of its three errors.
pub data Listened : Type 0 where
  bound : ℕ → Listened
  invalid_ip : Listened
  none_free : Listened
  refused : Listened

-- `if port > evenMax { port = evenMin }` after `port += 2`
abbrev next_port : ℕ → ℕ → ℕ → ℕ
next_port even_min even_max port = if ltb even_max (port + 2) then even_min else port + 2

-- The loop, with the tries that are left.
try_ports : (ℕ → Bind) → ℕ → ℕ → ℕ → ℕ → Listened
try_ports bind even_min even_max zero port = Listened.none_free
try_ports bind even_min even_max (suc tries) port = elim (bind port) [
  | Bind.free ↦ Listened.bound port
  | Bind.failed ↦ Listened.refused
  | Bind.in_use ↦ try_ports bind even_min even_max tries (next_port even_min even_max port)
]

-- `evenMin := (minPort + 1) &^ 1`, after the clamp of `minPort`
abbrev pub even_min_of : ℤ → ℕ
even_min_of min_port = (pos_part (if leb_ℤ min_port (pos 0) then pos 1 else min_port) + 1) / 2 * 2

-- `evenMax := maxPort &^ 1`, after the clamp of `maxPort`
abbrev pub even_max_of : ℤ → ℕ
even_max_of max_port =
    pos_part
      (if leb_ℤ max_port (pos 0) || ltb_ℤ (pos 0xffff) max_port then pos 0xffff else max_port)
    / 2
    * 2

abbrev pub ports_of : ℕ → ℕ → ℕ
ports_of even_min even_max = (even_max - even_min) / 2 + 1

pub listen_udp_range : Bool → (ℕ → Bind) → (ℕ → ℕ) → ℤ → ℤ → Listened
unfolding try_ports
listen_udp_range parsed bind pick min_port max_port =
    let even_min = even_min_of min_port in
    let even_max = even_max_of max_port in
    let ports = ports_of even_min even_max in
    if not parsed
    then Listened.invalid_ip
    else if ltb even_max even_min
    then Listened.none_free
    else try_ports bind even_min even_max ports (even_min + 2 * pick ports)
