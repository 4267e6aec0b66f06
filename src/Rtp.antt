-- ===== src/Rtp.antt =====
-- internal/rtp/port.go: one UDP port of RTP media. Sockets, clocks and the RTP wire codec are the
-- environment's: what they return is an argument, and what is sent to them is a result.
pub mod Frames
pub mod Bind
pub mod Receive
pub mod Timeout
pub mod Shutdown
mod Tests
use Prim.Native.String.{String}
use sip_relay.Prelude.{
  ℕ, ◌+◌, ◌/◌, ◌%◌, ◌^◌, Bool, false, Option, none, some, List, [], if◌then◌else◌,
}
use sip_relay.Prelude.Int.{ℤ, pos, pos_part, leb_ℤ}
use sip_relay.Prelude.{replicate}

abbrev pub sample_rate : ℕ
sample_rate = 8000

-- nanoseconds
abbrev pub frame_duration : ℕ
frame_duration = 20000000

-- frames in a second of nanoseconds
abbrev pub frames_per_sec : ℕ
frames_per_sec = 1000000000 / frame_duration

-- 160
abbrev pub samples_per_frame : ℕ
samples_per_frame = sample_rate / frames_per_sec

abbrev pub silence_byte : ℕ
silence_byte = 0xff

-- `NewSilenceFrame`
unfoldable pub new_silence_frame : List ℕ
new_silence_frame = replicate samples_per_frame silence_byte

-- `net.UDPAddr`
pub record UdpAddr : Type 0 where
  pub ip : String
  pub port : ℕ

-- The fields of `pionrtp.Header` that `WriteFrame` sets.
pub record Header : Type 0 where
  pub version : ℕ
  pub payload_type : ℕ
  pub sequence_number : ℕ
  pub timestamp : ℕ
  pub ssrc : ℕ
  pub marker : Bool

pub record Packet : Type 0 where
  pub header : Header
  pub payload : List ℕ

-- What `WriteFrame` hands to `WriteToUDP`.
pub record Datagram : Type 0 where
  pub packet : Packet
  pub to : UdpAddr

-- `Port`. The channel `received` is the list of payloads that wait in it.
pub record Port : Type 0 where
  pub payload_type : ℕ
  pub symmetric_rtp : Bool
  pub frame_bytes : ℤ
  pub initial_to : ℤ
  pub media_to : ℤ
  pub remote : Option UdpAddr
  pub closed : Bool
  pub seq : ℕ  -- uint16
  pub ts : ℕ  -- uint32
  pub ssrc : ℕ  -- uint32
  pub received : List (List ℕ)
  pub first_packet_closed : Bool
  pub packet_count : ℕ  -- uint64

-- `Config`, the part that `Listen` reads after the socket is open.
pub record PortConfig : Type 0 where
  pub listen_ip : String
  pub port_min : ℤ
  pub port_max : ℤ
  pub symmetric_rtp : Bool
  pub payload_type : ℕ
  pub outbound_frame_bytes : ℤ
  pub media_timeout_initial : ℤ
  pub media_timeout : ℤ

abbrev default_if_not_positive : ℤ → ℕ → ℤ
default_if_not_positive x d = if leb_ℤ x (pos 0) then pos d else x

-- `Listen`, once the socket is open; `a`, `b`, `c` are what `randomUint32` returns.
unfoldable pub new_port : PortConfig → ℕ → ℕ → ℕ → Port
new_port conf a b c = record {
  payload_type = conf.payload_type;
  symmetric_rtp = conf.symmetric_rtp;
  frame_bytes = default_if_not_positive conf.outbound_frame_bytes samples_per_frame;
  initial_to = default_if_not_positive conf.media_timeout_initial 30000000000;
  media_to = default_if_not_positive conf.media_timeout 15000000000;
  remote = none;
  closed = false;
  seq = a % 2 ^ 16;
  ts = b;
  ssrc = c;
  received = [];
  first_packet_closed = false;
  packet_count = 0;
}

-- `SetRemote`; `none` is a nil address.
unfoldable pub set_remote : Port → Option UdpAddr → Port
set_remote p none = p
set_remote p (some addr) = record p { remote = some addr }

-- `FrameBytes`, on a port that is not nil.
unfoldable pub outbound_frame_bytes : Port → ℕ
outbound_frame_bytes p =
    if leb_ℤ p.frame_bytes (pos 0) then samples_per_frame else pos_part p.frame_bytes

-- the packet that `WriteFrame` builds
abbrev pub packet : Port → List ℕ → Packet
packet p payload = record {
  header = record {
    version = 2;
    payload_type = p.payload_type;
    sequence_number = p.seq;
    timestamp = p.ts;
    ssrc = p.ssrc;
    marker = false;
  };
  payload = payload;
}

-- The two counters of `WriteFrame` after one packet: `p.seq++; p.ts += uint32(p.FrameBytes())`.
abbrev pub advance : Port → Port
advance p = record p {
  seq = (p.seq + 1) % 2 ^ 16;
  ts = (p.ts + outbound_frame_bytes p % 2 ^ 32) % 2 ^ 32;
}

send_to : Option UdpAddr → Port → List ℕ → Port × Option Datagram
send_to none p payload = (p, none)
send_to (some addr) p payload = (advance p, some (record { packet = packet p payload; to = addr }))

-- `WriteFrame` on a port that is not nil: the port, and the datagram that goes to the socket. Its
-- error is the codec's or the socket's, and comes after the counters have moved.
unfoldable pub write_frame : Port → List ℕ → Port × Option Datagram
unfolding send_to outbound_frame_bytes
write_frame p [] = (p, none)
write_frame p payload = send_to p.remote p payload
