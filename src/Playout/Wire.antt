-- ===== src/Playout/Wire.antt =====
-- internal/call/call.go: what a receiver sees of the outbound stream.
use sip_relay.Prelude.{
  ℕ, zero, suc, ◌+◌, ◌*◌, ◌%◌, ◌^◌, ◌<◌, ◌≡◌, refl, sym, subst, ◌∙◌, false, Option, some, List, [],
  ◌∷◌, ◌++◌, arith, length, length-append,
}
use sip_relay.Rtp.{
  Port, UdpAddr, Datagram, samples_per_frame, outbound_frame_bytes, packet, advance,
}
use sip_relay.Rtp.Frames.{write_frame-some, outbound_frame_bytes-advance}
use sip_relay.Playout.{
  Writer, Command, Input, handle_command, emit_frame, emit_frames, emit_due, schedule, sent, step,
  run,
}
use sip_relay.Playout.Frame.{IsValid, emit_frame_lem}
use sip_relay.Playout.Stream.{at_deadline, at_deadline-IsValid, step-IsValid}

-- The `i`-th packet of the stream that starts where the counters of `p` stand: a full frame, counters
-- that have moved by exactly one packet and one frame for each packet before, no marker.
pub record IsNth (p : Port) (i : ℕ) (d : Datagram) : Type 0 where
  pub full : length d.packet.payload ≡ samples_per_frame
  pub sequence : d.packet.header.sequence_number ≡ (p.seq + i) % 2 ^ 16
  pub timestamp : d.packet.header.timestamp ≡ (p.ts + samples_per_frame * i) % 2 ^ 32
  pub source : d.packet.header.ssrc ≡ p.ssrc
  pub payload_type : d.packet.header.payload_type ≡ p.payload_type
  pub unmarked : d.packet.header.marker ≡ false
  pub peer : some d.to ≡ p.remote

abbrev pub IsStream : Port → ℕ → List Datagram → Type 0
IsStream p i [] = Unit
IsStream p i (d ∷ ds) = IsNth p i d × IsStream p (suc i) ds

-- What is known of a port from which `k` packets have gone out since it was `p`.
pub record HasSent (p : Port) (k : ℕ) (p' : Port) : Type 0 where
  pub seq : p'.seq ≡ (p.seq + k) % 2 ^ 16
  pub ts : p'.ts ≡ (p.ts + samples_per_frame * k) % 2 ^ 32
  pub ssrc : p'.ssrc ≡ p.ssrc
  pub payload_type : p'.payload_type ≡ p.payload_type
  pub remote : p'.remote ≡ p.remote
  pub frame : outbound_frame_bytes p' ≡ samples_per_frame

IsStream-append :
    (p : Port) (xs ys : List Datagram) (i : ℕ)
    → IsStream p i xs
    → IsStream p (i + length xs) ys
    → IsStream p i (xs ++ ys)
IsStream-append p [] ys i h k = subst (λ n. IsStream p n ys) (omega arith) k
IsStream-append p (x ∷ xs) ys i h k =
    (h.0, IsStream-append p xs ys (suc i) h.1 (subst (λ n. IsStream p n ys) (omega arith) k))

-- A packet that `advance` stands behind is the next of the stream.
packet-IsNth :
    {p q : Port} {a : UdpAddr} (k : ℕ) (frame : List ℕ)
    → HasSent p k q
    → q.remote ≡ some a
    → length frame ≡ samples_per_frame
    → IsNth p k (record { packet = packet q frame; to = a }) × HasSent p (suc k) (advance q)
packet-IsNth {p} {q} k frame s e full = (
  record {
    full = full;
    sequence = s.seq;
    timestamp = s.ts;
    source = s.ssrc;
    payload_type = s.payload_type;
    unmarked = refl;
    peer = sym e ∙ s.remote;
  },
  record {
    seq = omega (arith, s.seq);
    ts = omega (arith, s.ts, s.frame);
    ssrc = s.ssrc;
    payload_type = s.payload_type;
    remote = s.remote;
    frame = outbound_frame_bytes-advance q ∙ s.frame;
  },
)

module _ {p : Port} {a : UdpAddr} (peer : p.remote ≡ some a) where
  -- One frame of a valid writer is one packet of the stream.
  emit_frame_wire :
      {w : Writer} (k : ℕ)
      → IsValid w
      → HasSent p k w.port
      → IsStream p k (sent (emit_frame w).1)
        × (length (sent (emit_frame w).1) ≡ 1)
        × HasSent p (suc k) (emit_frame w).0.port
  emit_frame_wire {w} k v s =
      let (_, _, _, valid, e) = emit_frame_lem v in
      let frame = (emit_frame w).0.frame_buf in
      let out =
        e ∙ write_frame-some w.port frame {a = a} (omega (arith, valid.frame)) (s.remote ∙ peer) in
      let (nth, next) = packet-IsNth k frame s (s.remote ∙ peer) valid.frame in
      (
        subst (λ (o : Port × Option Datagram). IsStream p k (sent o.1)) (sym out) (nth, tt),
        subst (λ (o : Port × Option Datagram). length (sent o.1) ≡ 1) (sym out) refl,
        subst (λ (o : Port × Option Datagram). HasSent p (suc k) o.0) (sym out) next,
      )

  pub emit_frames_wire :
      (n : ℕ) {w : Writer} (k : ℕ)
      → IsValid w
      → HasSent p k w.port
      → IsStream p k (emit_frames n w).1
        × (length (emit_frames n w).1 ≡ n)
        × HasSent p (k + n) (emit_frames n w).0.port
  unfolding emit_frames
  emit_frames_wire zero {w} k v s = (tt, refl, subst (λ j. HasSent p j w.port) (omega arith) s)
  emit_frames_wire (suc n) {w} k v s =
      let (one, len, s') = emit_frame_wire k v s in
      let w' = (emit_frame w).0 in
      let (rest, len', s'') = emit_frames_wire n (suc k) (emit_frame_lem v).3 s' in
      (
        IsStream-append p (sent (emit_frame w).1) (emit_frames n w').1 k one
            (subst (λ j. IsStream p j (emit_frames n w').1) (omega (arith, len)) rest),
        length-append (sent (emit_frame w).1) (emit_frames n w').1 ∙ omega (arith, len, len'),
        subst (λ j. HasSent p j (emit_frames n w').0.port) (omega arith) s'',
      )

pub port-handle_command : (w : Writer) (cmd : Command) → (handle_command w cmd).port ≡ w.port
unfolding handle_command
port-handle_command w cmd = ground arith

module _ {p : Port} {a : UdpAddr} (peer : p.remote ≡ some a) where
  pub step_wire :
      (i : Input) {w : Writer} (k : ℕ)
      → IsValid w
      → HasSent p k w.port
      → IsStream p k (step w i).1 × HasSent p (k + length (step w i).1) (step w i).0.port
  unfolding step emit_due
  step_wire (Input.command cmd) {w} k v s = (
    tt,
    subst (HasSent p (k + 0)) (sym (port-handle_command w cmd))
        (subst (λ j. HasSent p j w.port) (omega arith) s),
  )
  step_wire (Input.tick now) {w} k v s =
      let (last, n) = schedule w.last_frame_end now in
      let w' = at_deadline w last in
      let (stream, len, s') = emit_frames_wire peer n {w = w'} k (at_deadline-IsValid last v) s in
      (stream, subst (λ j. HasSent p (k + j) (emit_frames n w').0.port) (sym len) s')

  run_wire :
      (is : List Input) {w : Writer} (k : ℕ)
      → IsValid w
      → HasSent p k w.port
      → IsStream p k (run w is).1
  unfolding run
  run_wire [] k v s = tt
  run_wire (i ∷ is) {w} k v s =
      let (one, s') = step_wire i k v s in
      IsStream-append p (step w i).1 (run (step w i).0 is).1 k one
        (run_wire is (k + length (step w i).1) (step-IsValid i v) s')

-- A valid writer whose port has a peer and a frame of 160 bytes sends, over any sequence of commands
-- and ticks, one unbroken stream: each packet carries exactly one full frame, no marker bit and the
-- port's source and payload type, its sequence number is the port's plus the packets before it,
-- modulo 2^16, and its timestamp the port's plus one frame for each packet before it, modulo 2^32.
pub run-IsStream :
    (is : List Input) {w : Writer} {a : UdpAddr}
    → IsValid w
    → w.port.remote ≡ some a
    → outbound_frame_bytes w.port ≡ samples_per_frame
    → w.port.seq < 2 ^ 16
    → w.port.ts < 2 ^ 32
    → IsStream w.port 0 (run w is).1
run-IsStream is {w} v peer frame hs ht = run_wire peer is 0 v (record {
  seq = omega arith;
  ts = omega arith;
  ssrc = refl;
  payload_type = refl;
  remote = refl;
  frame = frame;
})
