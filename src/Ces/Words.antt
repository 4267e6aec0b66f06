-- ===== src/Ces/Words.antt =====
-- internal/ces/stream.go with receiveBackend of internal/call/call.go: what the messages of CES leave in
-- the history of a call.
use sip_relay.Prelude.{
  ℕ, suc, ◌≡◌, refl, sym, ap, ap₂, subst, ◌∙◌, Bool, true, false, not, Option, none, some, List, [],
  ◌∷◌, ◌++◌, arith, ◌==◌, if◌then◌else◌, length, append-nil, append_assoc,
}
use sip_relay.Backend.{Bytes, EventType, Event, StreamError}
use sip_relay.Relay.{Receiver, Arrival, receive_backend}
use sip_relay.Relay.Transcript.{
  bot_words, user_texts, bot_said, bot_delta, user_said, ends, gather, transcript_complete,
}
use sip_relay.Ces.{ServerMessage, audio_event, text_event, emit_server_message}
use sip_relay.Ces.Translate.{events_if, events_of, final_of, emit_all, emit_server_message-events}

-- The events as receiveBackend meets them while its context lives; `clock` gives the readings of the
-- clock at each.
abbrev pub met : (ℕ → ℕ × ℕ) → ℕ → List Event → List Arrival
met clock i [] = []
met clock i (e ∷ es) = Arrival.event e (clock i).0 (clock i).1 true ∷ met clock (suc i) es

abbrev all_events : List ServerMessage → List Event
all_events [] = []
all_events (m ∷ ms) = events_of m ++ all_events ms

-- The bot's text in a message.
abbrev pub text_of : ServerMessage → Bytes
text_of (ServerMessage.session_output out) = out.text
text_of _ = []

abbrev pub all_text : List ServerMessage → Bytes
all_text [] = []
all_text (m ∷ ms) = text_of m ++ all_text ms

-- Messages of which none ends the session.
abbrev NoneFinal : List ServerMessage → Type 0
NoneFinal [] = Unit
NoneFinal (m ∷ ms) = (final_of m ≡ none) × NoneFinal ms

-- An event that neither ends receiveBackend nor has words of the caller.
abbrev is_calm : Event → Bool
is_calm e = elim e.type [
  | EventType.user_transcript ↦ length e.text == 0
  | EventType.end_session ↦ false
  | EventType.transfer ↦ false
  | EventType.go_away ↦ false
  | _ ↦ true
]

abbrev bot_text_of : Event → Bytes
bot_text_of e = elim e.type [ EventType.bot_transcript ↦ e.text | _ ↦ [] ]

abbrev AllCalm : List Event → Type 0
AllCalm [] = Unit
AllCalm (e ∷ es) = (is_calm e ≡ true) × AllCalm es

abbrev bot_texts : List Event → Bytes
bot_texts [] = []
bot_texts (e ∷ es) = bot_text_of e ++ bot_texts es

calm_event :
    (e : Event) (a b : ℕ)
    → is_calm e ≡ true
    → (ends (Arrival.event e a b true) ≡ false) × (user_said (Arrival.event e a b true) ≡ [])
calm_event e a b h = ground arith

calm_events :
    (clock : ℕ → ℕ × ℕ) (i : ℕ) (es : List Event)
    → AllCalm es
    → (gather bot_delta (met clock i es) ≡ bot_texts es) × (gather user_said (met clock i es) ≡ [])
calm_events clock i [] h = (refl, refl)
calm_events clock i (e ∷ es) h =
    let (going, silent) = calm_event e (clock i).0 (clock i).1 h.0 in
    let (said, users) = calm_events clock (suc i) es h.1 in
    (rw (going, said) refl, rw (going, silent, users) refl)

AllCalm-append : (xs ys : List Event) → AllCalm xs → AllCalm ys → AllCalm (xs ++ ys)
AllCalm-append [] ys h k = k
AllCalm-append (x ∷ xs) ys h k = (h.0, AllCalm-append xs ys h.1 k)

bot_texts-append : (xs ys : List Event) → bot_texts (xs ++ ys) ≡ bot_texts xs ++ bot_texts ys
bot_texts-append [] ys = refl
bot_texts-append (x ∷ xs) ys =
    ap (λ t. bot_text_of x ++ t) (bot_texts-append xs ys)
    ∙ sym (append_assoc (bot_text_of x) (bot_texts xs) (bot_texts ys))

-- An optional event in front of others.
events_if-calm :
    (b : Bool) (e : Event) (es : List Event)
    → is_calm e ≡ true
    → AllCalm es
    → AllCalm (events_if b e ++ es)
      × (bot_texts (events_if b e ++ es) ≡ (if b then bot_text_of e else []) ++ bot_texts es)
events_if-calm true e es h k = ((h, k), refl)
events_if-calm false e es h k = (k, refl)

if_not_empty : (xs : Bytes) → (if not (length xs == 0) then xs else []) ≡ xs
if_not_empty [] = refl
if_not_empty (x ∷ xs) = ground arith

if_same : (b : Bool) (xs : Bytes) → (if b then [] else []) ++ xs ≡ xs
if_same true xs = refl
if_same false xs = refl

no_end :
    (b : Bool)
    → (if b then some StreamError.agent_ended else none) ≡ none
    → AllCalm (events_if b (text_event EventType.end_session []))
      × (bot_texts (events_if b (text_event EventType.end_session [])) ≡ [])
no_end true h = cc
no_end false h = (tt, refl)

-- Every event of a message that ends nothing is calm, and together they have its text.
message_calm :
    (m : ServerMessage)
    → final_of m ≡ none
    → AllCalm (events_of m) × (bot_texts (events_of m) ≡ text_of m)
message_calm (ServerMessage.session_output out) h =
    let (end_calm, end_text) = no_end out.end_session h in
    let last = events_if out.end_session (text_event EventType.end_session []) in
    let turn = text_event EventType.turn_complete [] in
    let text = text_event EventType.bot_transcript out.text in
    let turns = events_if out.turn_completed turn ++ last in
    let texts = events_if (not (length out.text == 0)) text ++ turns in
    let (turn_calm, turn_text) = events_if-calm out.turn_completed turn last refl end_calm in
    let (text_calm, text_text) =
      events_if-calm (not (length out.text == 0)) text turns refl turn_calm in
    let (calm, said) =
      events_if-calm (not (length out.audio == 0)) (audio_event out.audio) texts refl text_calm in
    (
      calm,
      said
          ∙ if_same (not (length out.audio == 0)) (bot_texts texts)
          ∙ text_text
          ∙ ap₂ (λ x y. x ++ y) (if_not_empty out.text)
              (turn_text ∙ if_same out.turn_completed (bot_texts last) ∙ end_text)
          ∙ append-nil out.text,
    )
message_calm (ServerMessage.recognition_result words) h = ((refl, tt), refl)
message_calm ServerMessage.interruption_signal h = ((refl, tt), refl)
message_calm ServerMessage.end_session h = cc
message_calm ServerMessage.go_away h = cc
message_calm ServerMessage.other h = (tt, refl)

messages_calm :
    (ms : List ServerMessage)
    → NoneFinal ms
    → AllCalm (all_events ms) × (bot_texts (all_events ms) ≡ all_text ms)
messages_calm [] h = (tt, refl)
messages_calm (m ∷ ms) h =
    let (calm, text) = message_calm m h.0 in
    let (calms, texts) = messages_calm ms h.1 in
    (
      AllCalm-append (events_of m) (all_events ms) calm calms,
      bot_texts-append (events_of m) (all_events ms) ∙ ap₂ (λ x y. x ++ y) text texts,
    )

-- A callback that takes every event, and keeps them in order.
abbrev pub collect : Event → List Event → List Event × Bool
collect e es = (es ++ (e ∷ []), true)

-- emitServerMessage for one message after another, up to the first that it returns an error for.
abbrev pub go_on :
    (List Event → List Event × Option StreamError)
    → List Event × Option StreamError
    → List Event × Option StreamError
go_on next (es, none) = next es
go_on next (es, some err) = (es, some err)

abbrev pub emit_each : List ServerMessage → List Event → List Event × Option StreamError
emit_each [] es = (es, none)
emit_each (m ∷ ms) es = go_on (emit_each ms) (emit_server_message collect m es)

collected :
    (xs : List Event) (final : Option StreamError) (es : List Event)
    → emit_all collect xs final es ≡ (es ++ xs, final)
collected [] final es = ap (λ t. (t, final)) (sym (append-nil es))
collected (x ∷ xs) final es =
    collected xs final (es ++ (x ∷ [])) ∙ ap (λ t. (t, final)) (append_assoc es (x ∷ []) xs)

one_collected :
    (m : ServerMessage) (es : List Event)
    → emit_server_message collect m es ≡ (es ++ events_of m, final_of m)
one_collected m es =
    emit_server_message-events collect m es ∙ collected (events_of m) (final_of m) es

going_on :
    (next : List Event → List Event × Option StreamError) (es : List Event)
    (final : Option StreamError)
    → (go_on next (es, final)).1 ≡ none
    → (final ≡ none) × (go_on next (es, final) ≡ next es)
going_on next es none h = (refl, refl)
going_on next es (some err) h = cc

-- Messages that end without an error: none is final, and their events come one after another.
all_collected :
    (ms : List ServerMessage) (es : List Event)
    → (emit_each ms es).1 ≡ none
    → NoneFinal ms × ((emit_each ms es).0 ≡ es ++ all_events ms)
all_collected [] es h = (tt, sym (append-nil es))
all_collected (m ∷ ms) es h =
    let one = ap (go_on (emit_each ms)) (one_collected m es) in
    let (final, next) =
      going_on (emit_each ms) (es ++ events_of m) (final_of m)
        (sym (ap (λ (r : List Event × Option StreamError). r.1) one) ∙ h) in
    let both = one ∙ next in
    let (rest, events) =
      all_collected ms (es ++ events_of m)
        (sym (ap (λ (r : List Event × Option StreamError). r.1) both) ∙ h) in
    (
      (final, rest),
      ap (λ (r : List Event × Option StreamError). r.0) both
          ∙ events
          ∙ append_assoc es (events_of m) (all_events ms),
    )

-- If emitServerMessage returns no error for any of some CES messages, and receiveBackend meets just the
-- events that it emits for them, the history gets every text of the bot in the messages, in order, and
-- nothing that the caller said, whatever words the recognition results carry.
pub bot_words_only :
    (ms : List ServerMessage) (clock : ℕ → ℕ × ℕ) (r : Receiver)
    → (emit_each ms []).1 ≡ none
    → let h = (receive_backend (met clock 0 (emit_each ms []).0) r).0.history in
      (bot_words h.entries ≡ bot_said r.history ++ all_text ms)
      × (user_texts h.entries ≡ user_texts r.history.entries)
bot_words_only ms clock r h =
    let (calm_all, events) = all_collected ms [] h in
    let es = (emit_each ms []).0 in
    let (bot, user, idle) = transcript_complete (met clock 0 es) r in
    let (calm, text) = messages_calm ms calm_all in
    let (said, users) = calm_events clock 0 es (subst AllCalm (sym events) calm) in
    (
      bot ∙ ap (λ t. bot_said r.history ++ t) (said ∙ ap bot_texts events ∙ text),
      user
          ∙ ap (λ t. user_texts r.history.entries ++ t) users
          ∙ append-nil (user_texts r.history.entries),
    )
