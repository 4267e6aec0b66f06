-- ===== src/Relay/Silence.antt =====
-- internal/call/call.go: what sendRTPToBackend sends.
use sip_relay.Prelude.{
  ℕ, ◌≡◌, refl, sym, ap, subst, ◌∙◌, Bool, true, List, [], ◌∷◌, ◌++◌, arith, append-nil,
  append_assoc, ◌⊎◌, inl, inr,
}
use sip_relay.Rtp.{new_silence_frame}
use sip_relay.Backend.{Bytes}
use sip_relay.Relay.{Sender, Inbound, send_step, send_loop}

-- `sent` is the payloads in order, with frames of silence put in, none of them before audio has come.
pub data IsPadded : Bool → List Bytes → List Bytes → Type 0 where
  done : (b : Bool) → IsPadded b [] []
  real :
      (b : Bool) (p : Bytes) {ps sent : List Bytes}
      → IsPadded true ps sent
      → IsPadded b (p ∷ ps) (p ∷ sent)
  silent :
      (b : Bool) {ps sent : List Bytes}
      → b ≡ true
      → IsPadded b ps sent
      → IsPadded b ps (new_silence_frame ∷ sent)

-- The backend takes every chunk that it is offered.
abbrev pub IsTaken : List Inbound → Type 0
IsTaken [] = Unit
IsTaken (Inbound.payload p taken now ∷ is) = (taken ≡ true) × IsTaken is
IsTaken (Inbound.tick now taken ∷ is) = (taken ≡ true) × IsTaken is
IsTaken (Inbound.finished ∷ is) = Unit

-- The payloads that come before the context or the channel ends.
abbrev pub payloads : List Inbound → List Bytes
payloads [] = []
payloads (Inbound.payload p taken now ∷ is) = p ∷ payloads is
payloads (Inbound.tick now taken ∷ is) = payloads is
payloads (Inbound.finished ∷ is) = []

-- What a tick does when the backend takes the frame.
tick_cases :
    (now : ℕ) (s : Sender)
    → (send_step (Inbound.tick now true) s ≡ (s, true))
      ⊎ ((s.first_rtp_received ≡ true)
          × ((send_step (Inbound.tick now true) s).0.sent ≡ s.sent ++ (new_silence_frame ∷ []))
          × ((send_step (Inbound.tick now true) s).0.first_rtp_received ≡ true)
          × ((send_step (Inbound.tick now true) s).1 ≡ true))
unfolding send_step
tick_cases now s = ground arith

payload_lem :
    (p : Bytes) (now : ℕ) (s : Sender)
    → ((send_step (Inbound.payload p true now) s).0.sent ≡ s.sent ++ (p ∷ []))
      × ((send_step (Inbound.payload p true now) s).0.first_rtp_received ≡ true)
      × ((send_step (Inbound.payload p true now) s).1 ≡ true)
unfolding send_step
payload_lem p now s = (refl, refl, refl)

loop_goes_on :
    (i : Inbound) (is : List Inbound) (s : Sender)
    → (send_step i s).1 ≡ true
    → send_loop (i ∷ is) s ≡ send_loop is (send_step i s).0
unfolding send_loop
loop_goes_on i is s h = rw (h, send_loop)

-- What the loop adds to the chunks sent.
abbrev Adds : Sender → List Inbound → Type 0
Adds s is =
    (new : List Bytes) × ((send_loop is s).0.sent ≡ s.sent ++ new)
    × IsPadded s.first_rtp_received (payloads is) new

Adds-payload :
    (p : Bytes) (now : ℕ) (is : List Inbound) (s : Sender)
    → Adds (send_step (Inbound.payload p true now) s).0 is
    → Adds s (Inbound.payload p true now ∷ is)
Adds-payload p now is s (new, e, pad) =
    let (sent, first, more) = payload_lem p now s in
    (
      p ∷ new,
      ap (λ (t : Sender × Bool). t.0.sent) (loop_goes_on (Inbound.payload p true now) is s more)
          ∙ e
          ∙ ap (λ t. t ++ new) sent
          ∙ append_assoc s.sent (p ∷ []) new,
      IsPadded.real s.first_rtp_received p (subst (λ b. IsPadded b (payloads is) new) first pad),
    )

Adds-tick :
    (now : ℕ) (is : List Inbound) (s : Sender)
    → Adds (send_step (Inbound.tick now true) s).0 is
    → Adds s (Inbound.tick now true ∷ is)
Adds-tick now is s (new, e, pad) = elim (tick_cases now s) [
  | inl same ↦
      let skip = loop_goes_on (Inbound.tick now true) is s (ap (λ t. t.1) same) in
      let at = ap (λ (t : Sender × Bool). t.0) same in
      (
        new,
        ap (λ (t : Sender × Bool). t.0.sent) skip ∙ e ∙ ap (λ (t : Sender). t.sent ++ new) at,
        subst (λ (t : Sender). IsPadded t.first_rtp_received (payloads is) new) at pad,
      )
  | inr (started, sent, first, more) ↦ (
    new_silence_frame ∷ new,
    ap (λ (t : Sender × Bool). t.0.sent) (loop_goes_on (Inbound.tick now true) is s more)
        ∙ e
        ∙ ap (λ t. t ++ new) sent
        ∙ append_assoc s.sent (new_silence_frame ∷ []) new,
    IsPadded.silent s.first_rtp_received started
        (subst (λ b. IsPadded b (payloads is) new) (first ∙ sym started) pad),
  )
]

-- When the backend takes every chunk, sendRTPToBackend sends all payloads that come before its end,
-- each once and in order, and besides them only frames of PCMU silence, none of which stands before
-- the first payload that ever came.
pub send_loop-IsPadded :
    (is : List Inbound) (s : Sender)
    → IsTaken is
    → (new : List Bytes) × ((send_loop is s).0.sent ≡ s.sent ++ new)
      × IsPadded s.first_rtp_received (payloads is) new
unfolding send_loop send_step
send_loop-IsPadded [] s h = ([], sym (append-nil s.sent), IsPadded.done s.first_rtp_received)
send_loop-IsPadded (Inbound.finished ∷ is) s h =
    ([], sym (append-nil s.sent), IsPadded.done s.first_rtp_received)
send_loop-IsPadded (Inbound.payload p taken now ∷ is) s h =
    subst (λ b. Adds s (Inbound.payload p b now ∷ is)) (sym h.0)
      (Adds-payload p now is s
        (send_loop-IsPadded is (send_step (Inbound.payload p true now) s).0 h.1))
send_loop-IsPadded (Inbound.tick now taken ∷ is) s h =
    subst (λ b. Adds s (Inbound.tick now b ∷ is)) (sym h.0)
      (Adds-tick now is s (send_loop-IsPadded is (send_step (Inbound.tick now true) s).0 h.1))
