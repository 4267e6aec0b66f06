-- ===== src/Playout/Tests.antt =====
-- A writer at the start of a call.
use sip_relay.Prelude.{
  ℕ, ◌+◌, ◌*◌, ◌<◌, ◌≤◌, ◌≡◌, refl, sym, subst, true, false, some, List, [], ◌∷◌, ◌++◌, arith,
  length, drop, replicate, ◌-◌, ◌==◌,
}
use sip_relay.Prelude.Int.{pos}
use sip_relay.Ring.Refine.{contents, contents-new_byte_ring}
use sip_relay.Rtp.{
  Port, UdpAddr, outbound_frame_bytes, samples_per_frame, frame_duration, silence_byte, write_frame,
}
use sip_relay.Playout.{Writer, Input, max_queued_outbound_bytes, new_writer, emit_frame, run}
use sip_relay.Playout.Frame.{IsValid, audio, emit_frame_lem, new_writer-IsValid}
use sip_relay.Playout.Stream.{offered}
use sip_relay.Playout.Heard.{Carries, lossless_in_order}
use sip_relay.Playout.Wire.{IsStream, run-IsStream}
use sip_relay.Playout.Clock.{IsLocked, last_tick, run-IsLocked, run_keeps_real_time}

abbrev peer : UdpAddr
peer = record { ip = "10.0.0.7"; port = 4000 }

abbrev port : Port
port = record {
  payload_type = 0;
  symmetric_rtp = true;
  frame_bytes = pos 160;
  initial_to = pos 30000000000;
  media_to = pos 15000000000;
  remote = some peer;
  closed = false;
  seq = 65535;
  ts = 4294967200;
  ssrc = 7;
  received = [];
  first_packet_closed = false;
  packet_count = 0;
}

fresh : Writer
fresh = new_writer port (some 0)

fresh-IsValid : IsValid fresh
unfolding fresh
fresh-IsValid = new_writer-IsValid port (some 0)

chunk : List ℕ
chunk = 1 ∷ 2 ∷ 3 ∷ []

emit_frame_lem_example :
    let w' = (emit_frame fresh).0 in
    let n = length (audio fresh) in
    (w'.frame_buf ≡ audio fresh ++ replicate (samples_per_frame - n) silence_byte)
    × (contents w'.ring ≡ drop n (contents fresh.ring))
    × (w'.buffering ≡ (n == 0))
    × IsValid w'
    × ((w'.port, (emit_frame fresh).1) ≡ write_frame fresh.port w'.frame_buf)
emit_frame_lem_example = emit_frame_lem fresh-IsValid

abbrev inputs : List Input
inputs =
    Input.command (record { audio = 1 ∷ 2 ∷ []; interrupt = false })
    ∷ Input.tick 1020000000
    ∷ Input.command (record { audio = 3 ∷ []; interrupt = false })
    ∷ Input.tick 1043000000
    ∷ []

lossless_in_order_example :
    (heard : List ℕ) × Carries peer (run fresh inputs).1 heard
    × (heard ++ contents (run fresh inputs).0.ring ≡ contents fresh.ring ++ offered inputs)
unfolding fresh new_writer
lossless_in_order_example =
    lossless_in_order inputs fresh-IsValid refl (refl, (tt, (refl, (tt, tt))))
      (subst (λ q. length q + 3 ≤ max_queued_outbound_bytes)
        (sym (contents-new_byte_ring (pos max_queued_outbound_bytes))) (omega arith))

run-IsStream_example : IsStream fresh.port 0 (run fresh inputs).1
unfolding fresh new_writer
run-IsStream_example = run-IsStream inputs fresh-IsValid refl outbound (omega arith) (omega arith)
  where
    outbound : outbound_frame_bytes port ≡ samples_per_frame
    outbound = unfold outbound_frame_bytes in refl

-- The same writer after its first tick, at one second.
started : Writer
unfolding fresh new_writer
started = record fresh { last_frame_end = 1000000000 }

started-IsValid : IsValid started
unfolding started
started-IsValid = record {
  ring = fresh-IsValid.ring;
  capacity = fresh-IsValid.capacity;
  frame = fresh-IsValid.frame;
}

started-IsLocked : IsLocked started.last_frame_end 1000000000
unfolding started fresh new_writer
started-IsLocked = record { behind = omega arith; ahead = omega arith; started = omega arith }

run-IsLocked_example : IsLocked (run started inputs).0.last_frame_end (last_tick 1000000000 inputs)
run-IsLocked_example = run-IsLocked inputs started 1000000000 started-IsLocked (omega arith)

run_keeps_real_time_example :
    let playtime = length (run started inputs).1 * frame_duration in
    (playtime + 1000000000 < last_tick 1000000000 inputs + frame_duration)
    × (last_tick 1000000000 inputs < playtime + 1000000000 + frame_duration)
unfolding started fresh new_writer
run_keeps_real_time_example =
    run_keeps_real_time inputs 1000000000 started-IsValid refl outbound (omega arith) (omega arith)
      started-IsLocked (omega arith)
  where
    outbound : outbound_frame_bytes port ≡ samples_per_frame
    outbound = unfold outbound_frame_bytes in refl
