-- ===== src/Relay/Tests.antt =====
-- A short session of the backend, and a caller who speaks, pauses and speaks again.
use sip_relay.Prelude.{◌≡◌, refl, ℕ, ◌+◌, Bool, true, List, [], ◌∷◌, ◌++◌}
use sip_relay.Backend.{Bytes, EventType}
use sip_relay.Relay.{Arrival, Inbound, new_receiver, new_sender, receive_backend, send_loop}
use sip_relay.Relay.Transcript.{
  bot_words, bot_said, user_texts, bot_delta, user_said, gather, transcript_complete,
}
use sip_relay.Relay.Silence.{IsPadded, payloads, send_loop-IsPadded}

abbrev said : EventType → Bytes → Bytes → ℕ → Arrival
said type audio text at =
    Arrival.event (record { type = type; audio = audio; text = text }) at (at + 1) true

abbrev arrivals : List Arrival
arrivals =
    said EventType.bot_transcript [] (72 ∷ 105 ∷ []) 10
    ∷ said EventType.audio (1 ∷ 2 ∷ []) [] 20
    ∷ said EventType.user_transcript [] (63 ∷ []) 30
    ∷ said EventType.barge_in [] [] 40
    ∷ said EventType.bot_transcript [] (33 ∷ []) 50
    ∷ said EventType.transfer [] [] 60
    ∷ said EventType.audio (3 ∷ []) [] 70
    ∷ []

transcript_complete_example :
    let h = (receive_backend arrivals new_receiver).0.history in
    (bot_words h.entries ≡ bot_said new_receiver.history ++ gather bot_delta arrivals)
    × (user_texts h.entries ≡ user_texts [] ++ gather user_said arrivals)
    × (h.bot_text ≡ [])
transcript_complete_example = transcript_complete arrivals new_receiver

abbrev media : List Inbound
media =
    Inbound.tick 5 true
    ∷ Inbound.payload (1 ∷ 2 ∷ []) true 1000
    ∷ Inbound.tick 20001000 true
    ∷ Inbound.payload (3 ∷ []) true 30000000
    ∷ Inbound.finished
    ∷ []

send_loop-IsPadded_example :
    (new : List Bytes) × ((send_loop media new_sender).0.sent ≡ [] ++ new)
    × IsPadded Bool.false (payloads media) new
send_loop-IsPadded_example = send_loop-IsPadded media new_sender (refl, (refl, (refl, (refl, tt))))
