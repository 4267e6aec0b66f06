-- ===== src/Playout/Frame.antt =====
-- What one call of `emitFrame` plays, for every state of the cushion.
use sip_relay.Prelude.{
  ℕ, ◌-◌, ◌≤◌, ◌<◌, ◌≡◌, refl, sym, ap, ap₂, ◌∙◌, Bool, true, false, Option, List, [], ◌∷◌, ◌++◌,
  inl, inr, arith, leb, ◌==◌, if◌then◌else◌, Bool-cases, min, length, take, drop, replicate,
  length-append, length-take, length-drop, length-replicate, leb→le, take-length-take,
  take-append-drop,
}
use sip_relay.Ring
use sip_relay.Ring.{ByteRing, cap}
use sip_relay.Ring.Queue.{pop_front}
use sip_relay.Ring.Refine
use sip_relay.Ring.Refine.{
  contents, length-window, read_refines, read-IsValid, cap-read, new_byte_ring-IsValid,
  cap-new_byte_ring,
}
use sip_relay.Prelude.Int.{pos}
use sip_relay.Rtp.{Port, samples_per_frame, silence_byte, write_frame}
use sip_relay.Playout.{
  Writer, max_queued_outbound_bytes, min_outbound_buffer_bytes, fill, pad, emit_frame, new_writer,
}

-- What holds of a writer between two inputs.
pub record IsValid (w : Writer) : Type 0 where
  pub ring : Refine.IsValid w.ring
  pub capacity : cap w.ring ≡ max_queued_outbound_bytes
  pub frame : length w.frame_buf ≡ samples_per_frame

-- Whether the next frame takes audio: the cushion is stocked, or playout has begun.
abbrev pub is_playing : Writer → Bool
is_playing w = if w.buffering then leb min_outbound_buffer_bytes w.ring.size else true

-- The real audio of the next frame.
abbrev pub audio : Writer → List ℕ
audio w = if is_playing w then take samples_per_frame (contents w.ring) else []

==-zero_of_pos : (n : ℕ) → 0 < n → (n == 0) ≡ false
==-zero_of_pos n h = ground arith

pad-append : (a b : List ℕ) → pad (length a) (a ++ b) ≡ a ++ replicate (length b) silence_byte
unfolding pad
pad-append [] [] = refl
pad-append [] (x ∷ b) = ap (λ f. silence_byte ∷ f) (pad-append [] b)
pad-append (x ∷ a) b = ap (λ f. x ∷ f) (pad-append a b)

-- What `fill` has done, with the real audio in front of the frame.
record Filled (w : Writer) (n : ℕ) (w' : Writer) : Type 0 where
  count : n ≡ length (audio w)
  front : w'.frame_buf ≡ audio w ++ drop (length (audio w)) w.frame_buf
  rest : contents w'.ring ≡ drop (length (audio w)) (contents w.ring)
  starved : w'.buffering ≡ (length (audio w) == 0)
  ring : Refine.IsValid w'.ring
  capacity : cap w'.ring ≡ cap w.ring
  port : w'.port ≡ w.port

module _ {w : Writer} (v : IsValid w) where
  abbrev q : List ℕ
  q = contents w.ring

  room : min (length w.frame_buf) (length q) ≡ length (take samples_per_frame q)
  room = omega (arith, v.frame, length-take samples_per_frame q)

  read_count : (Ring.read w.ring w.frame_buf).0 ≡ length (take samples_per_frame q)
  unfolding pop_front
  read_count = ap (λ t. t.0) (read_refines w.frame_buf v.ring) ∙ room

  read_front :
      (Ring.read w.ring w.frame_buf).1
      ≡ take samples_per_frame q ++ drop (length (take samples_per_frame q)) w.frame_buf
  unfolding pop_front
  read_front =
      ap (λ t. t.1) (read_refines w.frame_buf v.ring)
      ∙ ap (λ k. take k q ++ drop k w.frame_buf) room
      ∙ ap (λ a. a ++ drop (length (take samples_per_frame q)) w.frame_buf)
          (take-length-take samples_per_frame q)

  read_rest : contents (Ring.read w.ring w.frame_buf).2 ≡ drop (length (take samples_per_frame q)) q
  unfolding pop_front
  read_rest = ap (λ t. t.2) (read_refines w.frame_buf v.ring) ∙ ap (λ k. drop k q) room

  some_audio :
      leb min_outbound_buffer_bytes w.ring.size ≡ true
      → (length (take samples_per_frame q) == 0) ≡ false
  some_audio h = ==-zero_of_pos _ (
      omega (
        arith,
        leb→le _ _ h,
        length-take samples_per_frame q,
        length-window w.ring.buf w.ring.head w.ring.size,
      ))

  fill_lem : Filled w (fill w).0 (fill w).1
  unfolding fill
  fill_lem = record {
    count = ground (arith, read_count);
    front = ground (arith, read_front);
    rest = ground (arith, read_rest);
    starved = ground (arith, some_audio, read_count);
    ring = ground (arith, read-IsValid w.frame_buf v.ring, v.ring);
    capacity = ground (arith, cap-read w.frame_buf v.ring);
    port = ground arith;
  }

length-audio-le : (w : Writer) → length (audio w) ≤ samples_per_frame
length-audio-le w = elim (Bool-cases (is_playing w)) [
  | inl e ↦ rw e (omega (arith, length-take samples_per_frame (contents w.ring)))
  | inr e ↦ rw e (omega arith)
]

-- The next frame's audio stands in front of the buffer.
pub audio-append-drop :
    (w : Writer) → audio w ++ drop (length (audio w)) (contents w.ring) ≡ contents w.ring
audio-append-drop w = elim (Bool-cases (is_playing w)) [
  | inl e ↦ rw e (
      ap (λ a. a ++ drop (length (take samples_per_frame (contents w.ring))) (contents w.ring))
        (sym (take-length-take samples_per_frame (contents w.ring)))
      ∙ take-append-drop (length (take samples_per_frame (contents w.ring))) (contents w.ring))
  | inr e ↦ rw e
]

module _ {w : Writer} (v : IsValid w) where
  padded :
      pad (fill w).0 (fill w).1.frame_buf
      ≡ audio w ++ replicate (samples_per_frame - length (audio w)) silence_byte
  padded =
      let f = fill_lem v in
      ap₂ pad f.count f.front
      ∙ pad-append (audio w) (drop (length (audio w)) w.frame_buf)
      ∙ ap (λ k. audio w ++ replicate k silence_byte)
          (length-drop (length (audio w)) w.frame_buf ∙ ap (λ k. k - length (audio w)) v.frame)

  length-padded : length (pad (fill w).0 (fill w).1.frame_buf) ≡ samples_per_frame
  length-padded =
      ap length padded
      ∙ length-append (audio w) (replicate (samples_per_frame - length (audio w)) silence_byte)
      ∙ omega (
        arith,
        length-audio-le w,
        length-replicate (samples_per_frame - length (audio w)) silence_byte,
      )

-- One call of `emitFrame` on a valid writer, whatever its cushion holds: the frame that it hands to
-- the port is exactly one frame long, the oldest buffered bytes in front and PCMU silence behind;
-- these bytes and no others leave the buffer; the cushion is armed again exactly when the frame
-- holds no audio; and the writer stays valid.
pub emit_frame_lem :
    {w : Writer}
    → IsValid w
    → let w' = (emit_frame w).0 in
      let n = length (audio w) in
      (w'.frame_buf ≡ audio w ++ replicate (samples_per_frame - n) silence_byte)
      × (contents w'.ring ≡ drop n (contents w.ring))
      × (w'.buffering ≡ (n == 0))
      × IsValid w'
      × ((w'.port, (emit_frame w).1) ≡ write_frame w.port w'.frame_buf)
unfolding emit_frame
emit_frame_lem {w} v =
    let f = fill_lem v in
    (
      padded v,
      f.rest,
      f.starved,
      record { ring = f.ring; capacity = f.capacity ∙ v.capacity; frame = length-padded v },
      ap (λ p. write_frame p (pad (fill w).0 (fill w).1.frame_buf)) f.port,
    )

-- Playing a frame does not move the media clock.
pub last_frame_end-emit_frame : (w : Writer) → (emit_frame w).0.last_frame_end ≡ w.last_frame_end
unfolding emit_frame
last_frame_end-emit_frame w = ground arith

-- A new writer is valid, with nothing buffered and the cushion armed.
pub new_writer-IsValid : (port : Port) (dropped : Option ℕ) → IsValid (new_writer port dropped)
unfolding new_writer
new_writer-IsValid port dropped = record {
  ring = new_byte_ring-IsValid (pos 240000);
  capacity = cap-new_byte_ring 239999;
  frame = refl;
}
