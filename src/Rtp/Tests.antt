-- ===== src/Rtp/Tests.antt =====
-- A port of a call, the sockets of a small range, and what its goroutines meet.
use sip_relay.Prelude.{
  ℕ, ◌≡◌, ◌↔◌, refl, true, false, Option, none, some, List, [], ◌∷◌, arith, ◌==◌, if◌then◌else◌,
}
use sip_relay.Prelude.Int.{pos}
use sip_relay.Rtp.{Port, UdpAddr}
use sip_relay.Rtp.Bind.{Bind, listen_udp_range}
use sip_relay.Rtp.Bind.Search.{IsAnswer, listen_udp_range_lem}
use sip_relay.Rtp.Receive.{Inbound, Read, Turn, read_loop}
use sip_relay.Rtp.Receive.Delivery.{IsServed, traffic, read_loop_lem}
use sip_relay.Rtp.Timeout.{Wake, Outcome, run_port}
use sip_relay.Rtp.Timeout.Silence.{SawSilence, run_port-media_timeout}
use sip_relay.Rtp.Shutdown.{Reader, Shared, opened, Step, Reach}

-- A host on which port 10000 is taken, and all others are free.
abbrev host : ℕ → Bind
host port = if port == 10000 then Bind.in_use else Bind.free

-- A source of random numbers that always says 0.
abbrev always_first : ℕ → ℕ
always_first k = 0

listen_udp_range_lem_example :
    IsAnswer host 9999 10005 (listen_udp_range true host always_first (pos 9999) (pos 10005))
listen_udp_range_lem_example =
    listen_udp_range_lem host always_first 9999 10005 (λ k h. h) (omega arith) (omega arith)
      (omega arith)

abbrev peer : UdpAddr
peer = record { ip = "10.0.0.7"; port = 4000 }

abbrev port : Port
port = record {
  payload_type = 0;
  symmetric_rtp = false;
  frame_bytes = pos 160;
  initial_to = pos 30000000000;
  media_to = pos 15000000000;
  remote = some peer;
  closed = false;
  seq = 65535;
  ts = 4294967200;
  ssrc = 7;
  received = [];
  first_packet_closed = false;
  packet_count = 0;
}

-- A packet whose first byte is its payload type.
abbrev unmarshal : List ℕ → Option Inbound
unmarshal [] = none
unmarshal (t ∷ bytes) = some (record { payload_type = t; payload = bytes })

abbrev turns : List Turn
turns =
    Turn.read (Read.datagram (0 ∷ 17 ∷ 18 ∷ []) peer)
    ∷ Turn.read (Read.datagram (101 ∷ 1 ∷ []) (record { ip = "10.0.0.8"; port = 9 }))
    ∷ Turn.take_one
    ∷ Turn.read (Read.datagram [] peer)
    ∷ Turn.read (Read.datagram (0 ∷ 19 ∷ []) peer)
    ∷ Turn.read (Read.failed true)
    ∷ []

read_loop_lem_example :
    let (p', out, end) = read_loop unmarshal port turns in
    IsServed port (traffic unmarshal 0 turns) p' out
read_loop_lem_example = read_loop_lem unmarshal turns port (omega arith) (omega arith)

abbrev wakes : List Wake
wakes = Wake.timer 0 15000000000 ∷ Wake.timer 3 30000000000 ∷ Wake.timer 3 45000000000 ∷ []

run_port-media_timeout_example :
    (run_port port wakes ≡ Outcome.media_timeout) ↔ SawSilence 30000000000 0 wakes
run_port-media_timeout_example = run_port-media_timeout port 30000000000 wakes refl

-- A payload that readLoop has read.
abbrev holding : Shared
holding = record opened { reader = Reader.holding }

held : Reach true opened holding
held = Reach.next Reach.here (Step.arrive refl refl)
