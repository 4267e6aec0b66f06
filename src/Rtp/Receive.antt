-- ===== src/Rtp/Receive.antt =====
-- internal/rtp/port.go: readLoop, and the receiver of `Payloads`, sendRTPToBackend of
-- internal/call/call.go, which empties the channel meanwhile. `unmarshal` is pion's `Packet.Unmarshal`.
pub mod Delivery
use sip_relay.Prelude.{
  ℕ, ◌+◌, ◌%◌, ◌^◌, Bool, not, true, false, Option, none, some, List, [], ◌∷◌, ◌++◌, ◌||◌, ltb,
  ◌==◌, if◌then◌else◌, length, take,
}
use sip_relay.Rtp.{Port, UdpAddr}

abbrev pub mtu_size : ℕ
mtu_size = 1500

-- The capacity of the channel `received`.
abbrev pub received_cap : ℕ
received_cap = 128

-- The fields of `pionrtp.Packet` that the loop reads.
pub record Inbound : Type 0 where
  pub payload_type : ℕ
  pub payload : List ℕ

-- What `ReadFromUDP` returns: a datagram and its sender, or an error, which may be `net.ErrClosed`.
pub data Read : Type 0 where
  datagram : List ℕ → UdpAddr → Read
  failed : Bool → Read

-- What happens next: `ReadFromUDP` returns in the loop, or the receiver of the channel takes a payload.
pub data Turn : Type 0 where
  read : Read → Turn
  take_one : Turn

-- A receive from the channel: it waits while none is there.
abbrev pub take_payload : Port → Port × List (List ℕ)
take_payload p = elim p.received [
  | [] ↦ (p, [])
  | payload ∷ rest ↦ (record p { received = rest }, payload ∷ [])
]

-- The select at the end of the loop's body: the payload goes into the channel unless it is full.
deliver : Port → List ℕ → Port
deliver p payload =
    if ltb (length p.received) received_cap
    then record p { received = p.received ++ (payload ∷ []) }
    else p

-- The body of the loop, for a packet that parses.
accept_packet : Port → UdpAddr → Inbound → Port
unfolding deliver
accept_packet p src pkt =
    if not (pkt.payload_type == p.payload_type)
    then p
    else let p' = if p.symmetric_rtp then record p { remote = some src } else p in
      deliver
        (record p' { packet_count = (p'.packet_count + 1) % 2 ^ 64; first_packet_closed = true })
        pkt.payload

-- What the body does with the result of `Unmarshal`.
accept_result : Port → UdpAddr → Option Inbound → Port
unfolding accept_packet
accept_result p src none = p
accept_result p src (some pkt) = accept_packet p src pkt

module _ (unmarshal : List ℕ → Option Inbound) where
  -- The body of the loop; a datagram is cut at the size of the buffer.
  pub read_datagram : Port → List ℕ → UdpAddr → Port
  unfolding accept_result
  read_datagram p bytes src = accept_result p src (unmarshal (take mtu_size bytes))

  -- `readLoop` in between receives from its channel: the port, the payloads received, and `none` while the
  -- loop waits, else whether it returns an error.
  pub read_loop : Port → List Turn → Port × List (List ℕ) × Option Bool
  read_loop p [] = (p, [], none)
  read_loop p (Turn.read (Read.failed is_closed) ∷ turns) =
      (p, [], some (if p.closed || is_closed then false else true))
  read_loop p (Turn.read (Read.datagram bytes src) ∷ turns) =
      read_loop (read_datagram p bytes src) turns
  read_loop p (Turn.take_one ∷ turns) =
      let (p', out) = take_payload p in
      let (last, outs, end) = read_loop p' turns in (last, out ++ outs, end)
