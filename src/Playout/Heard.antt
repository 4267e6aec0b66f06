-- ===== src/Playout/Heard.antt =====
-- internal/call/call.go: the audio that a peer hears of what the backend hands over.
use sip_relay.Prelude.{
  ℕ, zero, suc, ◌+◌, ◌-◌, ◌≤◌, ◌≡◌, refl, sym, subst, ap, ◌∙◌, Option, some, List, [], ◌∷◌, ◌++◌,
  arith, length, append_assoc, append-nil, replicate,
}
use sip_relay.Ring.Refine.{contents}
use sip_relay.Rtp.{Port, UdpAddr, Datagram, samples_per_frame, silence_byte, packet}
use sip_relay.Rtp.Frames.{write_frame-some}
use sip_relay.Playout.{
  Writer, Input, max_queued_outbound_bytes, emit_frame, emit_frames, emit_due, schedule, sent, step,
  run,
}
use sip_relay.Playout.Frame.{IsValid, audio, emit_frame_lem}
use sip_relay.Playout.Stream.{
  at_deadline-IsValid, step-IsValid, played_frames, played_step, played, offered, NoInterrupt,
  played_in_order,
}
use sip_relay.Playout.Wire.{port-handle_command}

-- Datagrams to a peer that carry some audio, in order: each a piece of it, and silence behind.
pub data Carries (peer : UdpAddr) : List Datagram → List ℕ → Type 0 where
  nothing : Carries peer [] []
  frame :
      (d : Datagram) (piece : List ℕ) (silence : ℕ) {ds : List Datagram} {rest : List ℕ}
      → d.to ≡ peer
      → d.packet.payload ≡ piece ++ replicate silence silence_byte
      → Carries peer ds rest
      → Carries peer (d ∷ ds) (piece ++ rest)

Carries-append :
    {peer : UdpAddr} {xs ys : List Datagram} {a b : List ℕ}
    → Carries peer xs a
    → Carries peer ys b
    → Carries peer (xs ++ ys) (a ++ b)
Carries-append Carries.nothing k = k
Carries-append {peer} {ys = ys} {b = b} (Carries.frame d piece silence {ds} {rest} to e h) k =
    subst (Carries peer (d ∷ (ds ++ ys))) (sym (append_assoc piece rest b))
      (Carries.frame d piece silence to e (Carries-append h k))

-- A datagram with nothing before it.
one_frame :
    {peer : UdpAddr} (d : Datagram) (piece : List ℕ) (silence : ℕ)
    → d.to ≡ peer
    → d.packet.payload ≡ piece ++ replicate silence silence_byte
    → Carries peer (d ∷ []) piece
one_frame {peer} d piece silence to e =
    subst (Carries peer (d ∷ [])) (append-nil piece)
      (Carries.frame d piece silence to e Carries.nothing)

module _ {a : UdpAddr} where
  frame-Carries :
      {w : Writer}
      → IsValid w
      → w.port.remote ≡ some a
      → Carries a (sent (emit_frame w).1) (audio w) × ((emit_frame w).0.port.remote ≡ some a)
  frame-Carries {w} v peer =
      let (padded, _, _, valid, e) = emit_frame_lem v in
      let frame = (emit_frame w).0.frame_buf in
      let out = e ∙ write_frame-some w.port frame {a = a} (omega (arith, valid.frame)) peer in
      (
        subst (λ (o : Port × Option Datagram). Carries a (sent o.1) (audio w)) (sym out)
            (one_frame (record { packet = packet w.port frame; to = a }) (audio w)
              (samples_per_frame - length (audio w)) refl padded),
        subst (λ (o : Port × Option Datagram). o.0.remote ≡ some a) (sym out) peer,
      )

  frames-Carries :
      (n : ℕ) {w : Writer}
      → IsValid w
      → w.port.remote ≡ some a
      → Carries a (emit_frames n w).1 (played_frames n w)
        × ((emit_frames n w).0.port.remote ≡ some a)
  unfolding emit_frames played_frames
  frames-Carries zero v peer = (Carries.nothing, peer)
  frames-Carries (suc n) {w} v peer =
      let (one, peer') = frame-Carries v peer in
      let (rest, last) = frames-Carries n (emit_frame_lem v).3 peer' in
      (Carries-append one rest, last)

  step-Carries :
      (i : Input) {w : Writer}
      → IsValid w
      → w.port.remote ≡ some a
      → Carries a (step w i).1 (played_step w i) × ((step w i).0.port.remote ≡ some a)
  unfolding step emit_due played_step
  step-Carries (Input.command cmd) {w} v peer =
      (Carries.nothing, ap (λ (p : Port). p.remote) (port-handle_command w cmd) ∙ peer)
  step-Carries (Input.tick now) {w} v peer =
      let (last, n) = schedule w.last_frame_end now in
      frames-Carries n (at_deadline-IsValid last v) peer

  run-Carries :
      (is : List Input) {w : Writer}
      → IsValid w
      → w.port.remote ≡ some a
      → Carries a (run w is).1 (played w is)
  unfolding run played
  run-Carries [] v peer = Carries.nothing
  run-Carries (i ∷ is) v peer =
      let (one, peer') = step-Carries i v peer in
      Carries-append one (run-Carries is (step-IsValid i v) peer')

-- While the backend's audio fits the buffer and no barge-in comes, a valid writer whose port has a peer
-- sends it, frame by frame with silence behind the audio of a frame, all the audio buffered at first and
-- then handed over, up to what is still in the buffer: no byte of it is lost, invented, reordered or
-- silenced, whatever the ticks.
pub lossless_in_order :
    (is : List Input) {w : Writer} {a : UdpAddr}
    → IsValid w
    → w.port.remote ≡ some a
    → NoInterrupt is
    → length (contents w.ring) + length (offered is) ≤ max_queued_outbound_bytes
    → (heard : List ℕ) × Carries a (run w is).1 heard
      × (heard ++ contents (run w is).0.ring ≡ contents w.ring ++ offered is)
lossless_in_order is {w} v peer c h = (played w is, run-Carries is v peer, played_in_order is v c h)
