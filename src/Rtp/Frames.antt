-- ===== src/Rtp/Frames.antt =====
-- `WriteFrame` on a port that has a peer.
use sip_relay.Prelude.{ℕ, ◌<◌, ◌≡◌, refl, ap, some, List, [], ◌∷◌, arith, length}
use sip_relay.Rtp.{Port, UdpAddr, packet, advance, send_to, outbound_frame_bytes, write_frame}

-- The payload goes out under the counters, which then move.
pub write_frame-some :
    (p : Port) (payload : List ℕ) {a : UdpAddr}
    → 0 < length payload
    → p.remote ≡ some a
    → write_frame p payload ≡ (advance p, some (record { packet = packet p payload; to = a }))
unfolding write_frame send_to
write_frame-some p [] h e = absurd (omega arith)
write_frame-some p (x ∷ xs) h e = ap (λ r. send_to r p (x ∷ xs)) e

pub outbound_frame_bytes-advance :
    (p : Port) → outbound_frame_bytes (advance p) ≡ outbound_frame_bytes p
unfolding outbound_frame_bytes
outbound_frame_bytes-advance p = refl
