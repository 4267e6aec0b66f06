-- ===== src/Playout.antt =====
-- internal/call/call.go: outboundRTPWriter, the single owner of the outbound media clock. A
-- `time.Time` is a number of nanoseconds, 0 for the zero time; two instants are compared and
-- subtracted as numbers, which is exact while they lie less than 292 years apart.
pub mod Frame
pub mod Stream
pub mod Wire
pub mod Heard
pub mod Clock
mod Tests
use sip_relay.Prelude.{
  ℕ, zero, suc, ◌+◌, ◌-◌, ◌*◌, ◌/◌, ◌%◌, ◌^◌, Bool, true, false, Option, none, some, List, [], ◌∷◌,
  ◌++◌, ltb, leb, ◌==◌, if◌then◌else◌, length, replicate,
}
use sip_relay.Prelude.Int.{pos}
use sip_relay.Ring
use sip_relay.Ring.{ByteRing}
use sip_relay.Rtp.{
  Port, Datagram, sample_rate, frame_duration, samples_per_frame, silence_byte, write_frame,
}

-- `maxQueuedOutboundBytes`, 30 s of PCMU
abbrev pub max_queued_outbound_bytes : ℕ
max_queued_outbound_bytes = 30 * sample_rate

-- `minOutboundBufferBytes`, 3 frames
abbrev pub min_outbound_buffer_bytes : ℕ
min_outbound_buffer_bytes = 3 * samples_per_frame

abbrev pub max_catch_up_frames : ℕ
max_catch_up_frames = 5

-- `outboundRTPCommand`
pub record Command : Type 0 where
  pub audio : List ℕ
  pub interrupt : Bool

-- `outboundRTPWriter`, the fields that `run` owns, the port, and the counter
-- `outboundAudioBytesDropped` (a uint64) of `stats`, `none` where `stats` is nil.
pub record Writer : Type 0 where
  pub port : Port
  pub dropped : Option ℕ
  pub ring : ByteRing
  pub frame_buf : List ℕ
  pub over_cap : Bool
  pub buffering : Bool
  pub last_frame_end : ℕ

-- `newOutboundRTPWriter`, without its goroutine.
unfoldable pub new_writer : Port → Option ℕ → Writer
new_writer port dropped = record {
  port = port;
  dropped = dropped;
  ring = Ring.new_byte_ring (pos max_queued_outbound_bytes);
  frame_buf = replicate samples_per_frame 0;
  over_cap = false;
  buffering = true;
  last_frame_end = 0;
}

abbrev add_dropped : ℕ → Option ℕ → Option ℕ
add_dropped n none = none
add_dropped n (some d) = some ((d + n) % 2 ^ 64)

-- `handleCommand` past the interrupt and the empty chunk: `Write`, and what its count says.
accept : Writer → List ℕ → ℕ × ByteRing → Writer
accept w audio (accepted, ring) =
    let dropped = length audio - accepted in
    if ltb 0 dropped
    then record w { ring = ring; over_cap = true; dropped = add_dropped dropped w.dropped }
    else record w { ring = ring; over_cap = false }

-- `handleCommand`
unfoldable pub handle_command : Writer → Command → Writer
unfolding accept
handle_command w cmd =
    if cmd.interrupt
    then record w { ring = Ring.reset w.ring; over_cap = false; buffering = true }
    else if length cmd.audio == 0
    then w
    else accept w cmd.audio (Ring.write w.ring cmd.audio)

-- One `w.ring.Read(frame)` of `emitFrame`: `n`, and the writer with the filled frame.
abbrev drained : Writer → ℕ × List ℕ × ByteRing → ℕ × Writer
drained w (n, frame, ring) = (n, record w { frame_buf = frame; ring = ring })

-- `emitFrame` up to the padding: how many real bytes stand in the frame.
fill : Writer → ℕ × Writer
fill w =
    if w.buffering
    then if leb min_outbound_buffer_bytes (Ring.len w.ring)
      then drained (record w { buffering = false }) (Ring.read w.ring w.frame_buf)
      else (0, w)
    else let (n, w') = drained w (Ring.read w.ring w.frame_buf) in
      (n, if n == 0 then record w' { buffering = true } else w')

-- `for i := n; i < len(frame); i++ { frame[i] = SilenceByte }`
pad : ℕ → List ℕ → List ℕ
pad n [] = []
pad zero (x ∷ frame) = silence_byte ∷ pad zero frame
pad (suc n) (x ∷ frame) = x ∷ pad n frame

-- `emitFrame`: the writer, and the datagram that its port sends.
unfoldable pub emit_frame : Writer → Writer × Option Datagram
unfolding fill pad
emit_frame w =
    let (n, w') = fill w in
    let frame = pad n w'.frame_buf in
    let (port, out) = write_frame w'.port frame in
    (record w' { frame_buf = frame; port = port }, out)

abbrev pub sent : Option Datagram → List Datagram
sent none = []
sent (some d) = d ∷ []

-- the loop of `emitDue`
unfoldable pub emit_frames : ℕ → Writer → Writer × List Datagram
emit_frames zero w = (w, [])
emit_frames (suc n) w =
    let (w', out) = emit_frame w in let (w'', outs) = emit_frames n w' in (w'', sent out ++ outs)

-- What `emitDue` decides at `now`, before any frame: the new deadline and the frames that are due.
pub schedule : ℕ → ℕ → ℕ × ℕ
schedule last now =
    if last == 0
    then (now, 1)
    else if ltb now last
    then (last, 0)
    else let n = (now - last + frame_duration / 4) / frame_duration in
      if ltb max_catch_up_frames n
      then (now, max_catch_up_frames)
      else (last + n * frame_duration, n)

-- `emitDue` at the time `now`.
unfoldable pub emit_due : Writer → ℕ → Writer × List Datagram
unfolding schedule
emit_due w now =
    let (last, n) = schedule w.last_frame_end now in
    emit_frames n (record w { last_frame_end = last })

-- What `run` selects: a command, or a tick at a time.
pub data Input : Type 0 where
  command : Command → Input
  tick : ℕ → Input

unfoldable pub step : Writer → Input → Writer × List Datagram
step w (Input.command cmd) = (handle_command w cmd, [])
step w (Input.tick now) = emit_due w now

-- `run`, over the inputs that it selects until the context is done.
unfoldable pub run : Writer → List Input → Writer × List Datagram
run w [] = (w, [])
run w (i ∷ is) = let (w', out) = step w i in let (w'', outs) = run w' is in (w'', out ++ outs)
