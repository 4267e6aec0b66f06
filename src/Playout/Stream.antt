-- ===== src/Playout/Stream.antt =====
-- internal/call/call.go: the audio that a writer takes in and plays out over any run.
use sip_relay.Prelude.{
  ℕ, zero, suc, ◌+◌, ◌-◌, ◌≤◌, ◌≡◌, refl, sym, subst, ap, ◌∙◌, Bool, true, false, List, [], ◌∷◌,
  ◌++◌, arith, ltb, ◌==◌, if◌then◌else◌, min, length, take, length-append, length-take, append-nil,
  append_assoc, take-all, take-nil, take-length-min,
}
use sip_relay.Ring
use sip_relay.Ring.{cap}
use sip_relay.Ring.Queue.{push_back}
use sip_relay.Ring.Refine.{contents, write_refines, write-IsValid, reset_lem}
use sip_relay.Playout.{
  Writer, Command, Input, max_queued_outbound_bytes, add_dropped, handle_command, emit_frame,
  emit_frames, emit_due, schedule, step, run,
}
use sip_relay.Playout.Frame.{IsValid, audio, emit_frame_lem, audio-append-drop}

-- What the buffer has room for.
abbrev pub admitted : Writer → List ℕ → List ℕ
admitted w chunk = take (max_queued_outbound_bytes - length (contents w.ring)) chunk

module _ {w : Writer} (v : IsValid w) (chunk : List ℕ) where
  write_count : (Ring.write w.ring chunk).0 ≡ length (admitted w chunk)
  unfolding push_back
  write_count = omega (
    arith,
    ap (λ t. t.0) (write_refines chunk v.ring),
    v.capacity,
    length-take (max_queued_outbound_bytes - length (contents w.ring)) chunk,
  )

  write_rest : contents (Ring.write w.ring chunk).1 ≡ contents w.ring ++ admitted w chunk
  unfolding push_back
  write_rest =
      ap (λ t. t.1) (write_refines chunk v.ring)
      ∙ ap (λ k. contents w.ring ++ k)
          (ap (λ c. take (min (length chunk) (c - length (contents w.ring))) chunk) v.capacity
            ∙ take-length-min (max_queued_outbound_bytes - length (contents w.ring)) chunk)

-- A command that is no interrupt appends to the buffer the part of its chunk that fits, counts the
-- rest as dropped, flags the buffer as over its cap exactly when something was dropped by a chunk
-- that is not empty, and leaves the cushion as it was.
pub handle_command-audio :
    {w : Writer} (chunk : List ℕ)
    → IsValid w
    → let w' = handle_command w (record { audio = chunk; interrupt = false }) in
      let n = length chunk - length (admitted w chunk) in
      (contents w'.ring ≡ contents w.ring ++ admitted w chunk)
      × (w'.dropped ≡ (if n == 0 then w.dropped else add_dropped n w.dropped))
      × (w'.over_cap ≡ (if length chunk == 0 then w.over_cap else ltb 0 n))
      × (w'.buffering ≡ w.buffering)
      × IsValid w'
unfolding handle_command
handle_command-audio {w} [] v =
    rw (take-nil {A = ℕ} (max_queued_outbound_bytes - length (contents w.ring)), append-nil)
      (refl, refl, refl, refl, v)
handle_command-audio {w} (x ∷ xs) v =
    ground (arith, write_count v (x ∷ xs), write_rest v (x ∷ xs), write-IsValid (x ∷ xs) v.ring)

-- A barge-in empties the buffer and arms the cushion, and keeps the counters and the clock.
pub handle_command-interrupt :
    {w : Writer} (chunk : List ℕ)
    → IsValid w
    → let w' = handle_command w (record { audio = chunk; interrupt = true }) in
      (contents w'.ring ≡ [])
      × (w'.buffering ≡ true)
      × (w'.over_cap ≡ false)
      × (w'.dropped ≡ w.dropped)
      × (w'.last_frame_end ≡ w.last_frame_end)
      × IsValid w'
unfolding handle_command
handle_command-interrupt chunk v =
    let (valid, empty, same) = reset_lem v.ring in
    (
      empty,
      refl,
      refl,
      refl,
      refl,
      record { ring = valid; capacity = same ∙ v.capacity; frame = v.frame },
    )

handled-IsValid :
    {w : Writer} (b : Bool) (chunk : List ℕ)
    → IsValid w
    → IsValid (handle_command w (record { audio = chunk; interrupt = b }))
handled-IsValid true chunk v = (handle_command-interrupt chunk v).5
handled-IsValid false chunk v = (handle_command-audio chunk v).4

pub handle_command-IsValid :
    {w : Writer} (cmd : Command) → IsValid w → IsValid (handle_command w cmd)
handle_command-IsValid cmd v = handled-IsValid cmd.interrupt cmd.audio v

pub emit_frames-IsValid : (n : ℕ) {w : Writer} → IsValid w → IsValid (emit_frames n w).0
unfolding emit_frames
emit_frames-IsValid zero v = v
emit_frames-IsValid (suc n) v = emit_frames-IsValid n (emit_frame_lem v).3

abbrev pub at_deadline : Writer → ℕ → Writer
at_deadline w last = record w { last_frame_end = last }

pub at_deadline-IsValid : {w : Writer} (last : ℕ) → IsValid w → IsValid (at_deadline w last)
at_deadline-IsValid last v = record { ring = v.ring; capacity = v.capacity; frame = v.frame }

pub step-IsValid : {w : Writer} (i : Input) → IsValid w → IsValid (step w i).0
unfolding step emit_due
step-IsValid (Input.command cmd) v = handle_command-IsValid cmd v
step-IsValid {w} (Input.tick now) v =
    let (last, n) = schedule w.last_frame_end now in
    emit_frames-IsValid n (at_deadline-IsValid last v)

-- The real audio that leaves the buffer, in the order in which it is played.
unfoldable pub played_frames : ℕ → Writer → List ℕ
played_frames zero w = []
played_frames (suc n) w = audio w ++ played_frames n (emit_frame w).0

unfoldable pub played_step : Writer → Input → List ℕ
unfolding played_frames
played_step w (Input.command cmd) = []
played_step w (Input.tick now) =
    let (last, n) = schedule w.last_frame_end now in played_frames n (at_deadline w last)

unfoldable pub played : Writer → List Input → List ℕ
unfolding played_step
played w [] = []
played w (i ∷ is) = played_step w i ++ played (step w i).0 is

-- The audio that the backend hands over, with no barge-in among it.
abbrev pub offered_step : Input → List ℕ
offered_step (Input.command cmd) = cmd.audio
offered_step (Input.tick now) = []

abbrev pub offered : List Input → List ℕ
offered [] = []
offered (i ∷ is) = offered_step i ++ offered is

abbrev pub IsChunk : Input → Type 0
IsChunk (Input.command cmd) = cmd.interrupt ≡ false
IsChunk (Input.tick now) = Unit

abbrev pub NoInterrupt : List Input → Type 0
NoInterrupt [] = Unit
NoInterrupt (i ∷ is) = IsChunk i × NoInterrupt is

played_frames_lem :
    (n : ℕ) {w : Writer}
    → IsValid w
    → played_frames n w ++ contents (emit_frames n w).0.ring ≡ contents w.ring
unfolding played_frames emit_frames
played_frames_lem zero v = refl
played_frames_lem (suc n) {w} v =
    append_assoc (audio w) (played_frames n (emit_frame w).0)
      (contents (emit_frames n (emit_frame w).0).0.ring)
    ∙ ap (λ t. audio w ++ t) (played_frames_lem n (emit_frame_lem v).3 ∙ (emit_frame_lem v).1)
    ∙ audio-append-drop w

played_step_lem :
    (i : Input) {w : Writer}
    → IsValid w
    → IsChunk i
    → length (contents w.ring) + length (offered_step i) ≤ max_queued_outbound_bytes
    → played_step w i ++ contents (step w i).0.ring ≡ contents w.ring ++ offered_step i
unfolding played_step step emit_due
played_step_lem (Input.command cmd) {w} v c h =
    subst
      (λ b.
        contents (handle_command w (record { audio = cmd.audio; interrupt = b })).ring
        ≡ contents w.ring ++ cmd.audio)
      (sym c)
      ((handle_command-audio cmd.audio v).0
        ∙ ap (λ a. contents w.ring ++ a)
            (take-all (max_queued_outbound_bytes - length (contents w.ring)) cmd.audio
              (omega arith)))
played_step_lem (Input.tick now) {w} v c h =
    let (last, n) = schedule w.last_frame_end now in
    played_frames_lem n (at_deadline-IsValid last v) ∙ sym (append-nil (contents w.ring))

-- What a step leaves of the room in the buffer.
room :
    (i : Input) (is : List Input) (w : Writer)
    → length (contents w.ring) + length (offered (i ∷ is)) ≤ max_queued_outbound_bytes
    → length (contents w.ring) + length (offered_step i) ≤ max_queued_outbound_bytes
room i is w h = omega (arith, length-append (offered_step i) (offered is))

fits :
    (i : Input) (is : List Input) {w : Writer}
    → IsValid w
    → IsChunk i
    → length (contents w.ring) + length (offered (i ∷ is)) ≤ max_queued_outbound_bytes
    → length (contents (step w i).0.ring) + length (offered is) ≤ max_queued_outbound_bytes
fits i is {w} v c h = omega (
  arith,
  ap length (played_step_lem i v c (room i is w h)),
  length-append (played_step w i) (contents (step w i).0.ring),
  length-append (contents w.ring) (offered_step i),
  length-append (offered_step i) (offered is),
)

-- While the backend's audio fits the buffer and no barge-in comes, the audio that leaves the buffer
-- followed by the audio still buffered is the audio buffered at first and all that was handed over.
pub played_in_order :
    (is : List Input) {w : Writer}
    → IsValid w
    → NoInterrupt is
    → length (contents w.ring) + length (offered is) ≤ max_queued_outbound_bytes
    → played w is ++ contents (run w is).0.ring ≡ contents w.ring ++ offered is
unfolding played run
played_in_order [] {w} v c h = sym (append-nil (contents w.ring))
played_in_order (i ∷ is) {w} v c h =
    let w' = (step w i).0 in
    let one = played_step_lem i v c.0 (room i is w h) in
    append_assoc (played_step w i) (played w' is) (contents (run w' is).0.ring)
    ∙ ap (λ t. played_step w i ++ t) (played_in_order is (step-IsValid i v) c.1 (fits i is v c.0 h))
    ∙ sym (append_assoc (played_step w i) (contents w'.ring) (offered is))
    ∙ ap (λ t. t ++ offered is) one
    ∙ append_assoc (contents w.ring) (offered_step i) (offered is)
