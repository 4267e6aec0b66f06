-- ===== src/Relay/Transcript.antt =====
-- What receiveBackend keeps of the events that it meets.
use sip_relay.Prelude.{
  ℕ, ◌≡◌, refl, sym, ap, ◌∙◌, ◌⊎◌, inl, inr, Bool, true, false, not, List, [], ◌∷◌, ◌++◌, arith,
  if◌then◌else◌, length, ◌==◌, append-nil, append_assoc, Bool-cases,
}
use sip_relay.Backend.{Bytes, EventType, Event}
use sip_relay.Relay.{
  Role, ConversationEvent, History, Receiver, Arrival, Flow, flush_bot, append_bot_delta,
  append_user, handle_event, receive_step, receive_loop, receive_backend,
}

-- Whether an arrival ends the loop.
abbrev pub ends_loop : EventType → Bool → Bool
ends_loop EventType.audio alive = not alive
ends_loop EventType.barge_in alive = not alive
ends_loop EventType.bot_transcript alive = false
ends_loop EventType.user_transcript alive = false
ends_loop EventType.turn_complete alive = false
ends_loop EventType.end_session alive = true
ends_loop EventType.transfer alive = true
ends_loop EventType.go_away alive = true

abbrev pub ends : Arrival → Bool
ends Arrival.context_done = true
ends Arrival.events_closed = true
ends (Arrival.event e before after alive) = ends_loop e.type alive

-- What `out` gives for each arrival up to the first that ends the loop, that one included.
module _ {ℓ} {X : Type ℓ} (out : Arrival → List X) where
  abbrev pub gather : List Arrival → List X
  gather [] = []
  gather (a ∷ rest) = out a ++ (if ends a then [] else gather rest)

flow_of_next : (a : Arrival) (r : Receiver) → ends a ≡ false → (receive_step a r).1 ≡ Flow.next
unfolding receive_step
flow_of_next a r h = ground arith

flow_of_end :
    (a : Arrival) (r : Receiver)
    → ends a ≡ true
    → ((receive_step a r).1 ≡ Flow.stop) ⊎ ((receive_step a r).1 ≡ Flow.fail)
unfolding receive_step
flow_of_end a r h = ground arith

loop_goes_on :
    (a : Arrival) (rest : List Arrival) (r : Receiver)
    → ends a ≡ false
    → receive_loop (a ∷ rest) r ≡ receive_loop rest (receive_step a r).0
unfolding receive_loop
loop_goes_on a rest r h = rw (flow_of_next a r h, receive_loop)

loop_ends :
    (a : Arrival) (rest : List Arrival) (r : Receiver)
    → ends a ≡ true
    → (receive_loop (a ∷ rest) r).0 ≡ (receive_step a r).0
unfolding receive_loop
loop_ends a rest r h = elim (flow_of_end a r h) [
  | inl e ↦ rw (e, receive_loop)
  | inr e ↦ rw (e, receive_loop)
]

-- A part of the state that each step extends is extended by the loop.
module _ {ℓ} {X : Type ℓ} (part : Receiver → List X) (out : Arrival → List X) where
  pub gather_loop :
      ((a : Arrival) (r : Receiver) → part (receive_step a r).0 ≡ part r ++ out a)
      → (arrivals : List Arrival) (r : Receiver)
      → part (receive_loop arrivals r).0 ≡ part r ++ gather out arrivals
  unfolding receive_loop
  gather_loop law [] r = sym (append-nil (part r))
  gather_loop law (a ∷ rest) r = elim (Bool-cases (ends a)) [
    | inl e ↦ rw (e, append-nil) (ap part (loop_ends a rest r e) ∙ law a r)
    | inr e ↦ rw e (
        ap (λ (t : Receiver × Flow). part t.0) (loop_goes_on a rest r e)
        ∙ gather_loop law rest (receive_step a r).0
        ∙ ap (λ t. t ++ gather out rest) (law a r)
        ∙ append_assoc (part r) (out a) (gather out rest))
  ]

-- The bot's words in a list of entries, one after another.
abbrev pub bot_words : List ConversationEvent → Bytes
bot_words [] = []
bot_words (e ∷ es) = elim e.role [ Role.bot ↦ e.text ++ bot_words es | Role.user ↦ bot_words es ]

-- The caller's utterances in a list of entries.
abbrev pub user_texts : List ConversationEvent → List Bytes
user_texts [] = []
user_texts (e ∷ es) = elim e.role [ Role.bot ↦ user_texts es | Role.user ↦ e.text ∷ user_texts es ]

-- All that the bot has said so far, the words of an unfinished turn included.
abbrev pub bot_said : History → Bytes
bot_said h = bot_words h.entries ++ h.bot_text

abbrev pub bot_delta : Arrival → Bytes
bot_delta Arrival.context_done = []
bot_delta Arrival.events_closed = []
bot_delta (Arrival.event e before after alive) = elim e.type [
  | EventType.bot_transcript ↦ e.text
  | _ ↦ []
]

abbrev pub user_said : Arrival → List Bytes
user_said Arrival.context_done = []
user_said Arrival.events_closed = []
user_said (Arrival.event e before after alive) = elim e.type [
  | EventType.user_transcript ↦ if length e.text == 0 then [] else e.text ∷ []
  | _ ↦ []
]

bot_words-append :
    (es fs : List ConversationEvent) → bot_words (es ++ fs) ≡ bot_words es ++ bot_words fs
bot_words-append [] fs = refl
bot_words-append (e ∷ es) fs =
    ground (arith, bot_words-append es fs, append_assoc e.text (bot_words es) (bot_words fs))

user_texts-append :
    (es fs : List ConversationEvent) → user_texts (es ++ fs) ≡ user_texts es ++ user_texts fs
user_texts-append [] fs = refl
user_texts-append (e ∷ es) fs = ground (arith, user_texts-append es fs)

empty-cases : (xs : Bytes) → ((xs ≡ []) × ((length xs == 0) ≡ true)) ⊎ ((length xs == 0) ≡ false)
empty-cases [] = inl (refl, refl)
empty-cases (x ∷ xs) = inr (ground arith)

-- A flush moves the unfinished turn into the entries, and loses no word.
record Flushed (h h' : History) : Type 0 where
  said : bot_said h' ≡ bot_said h
  users : user_texts h'.entries ≡ user_texts h.entries
  idle : h'.bot_text ≡ []

flush_bot_lem : (h : History) → Flushed h (flush_bot h)
unfolding flush_bot
flush_bot_lem h = elim (empty-cases h.bot_text) [
  | inl (e, t) ↦ rw t (record { said = refl; users = refl; idle = e })
  | inr t ↦ rw t (record {
    said = simp (bot_words-append, append-nil);
    users = simp (user_texts-append, append-nil);
    idle = refl;
  })
]

append_bot_delta_lem :
    (h : History) (text : Bytes) (before after : ℕ)
    → (bot_said (append_bot_delta h text before after) ≡ bot_said h ++ text)
      × (user_texts (append_bot_delta h text before after).entries ≡ user_texts h.entries)
unfolding append_bot_delta
append_bot_delta_lem h text before after = elim (empty-cases text) [
  | inl (e, t) ↦ rw t (rw e (sym (append-nil (bot_said h))), refl)
  | inr t ↦ rw t (sym (append_assoc (bot_words h.entries) h.bot_text text), refl)
]

append_user_lem :
    (h : History) (text : Bytes) (now : ℕ)
    → (bot_said (append_user h text now) ≡ bot_said h)
      × (user_texts (append_user h text now).entries
          ≡ user_texts h.entries ++ (if length text == 0 then [] else text ∷ []))
unfolding append_user
append_user_lem h text now = elim (empty-cases text) [
  | inl (e, t) ↦ rw t (refl, sym (append-nil (user_texts h.entries)))
  | inr t ↦ rw t (simp (bot_words-append, append-nil), user_texts-append h.entries _)
]

module _ (t : EventType) (e : Event) (before after : ℕ) (alive : Bool) (r : Receiver) where
  handled : Receiver
  handled = (handle_event t e before after alive r).0

  handled_said :
      bot_said handled.history
      ≡ bot_said r.history ++ elim t [ EventType.bot_transcript ↦ e.text | _ ↦ [] ]
  unfolding handled handle_event
  handled_said = ground (
    arith,
    (flush_bot_lem r.history).said,
    (append_bot_delta_lem r.history e.text before after).0,
    (append_user_lem r.history e.text before).0,
    append-nil (bot_said r.history),
  )

  handled_users :
      user_texts handled.history.entries
      ≡ user_texts r.history.entries ++ elim t [
        | EventType.user_transcript ↦ if length e.text == 0 then [] else e.text ∷ []
        | _ ↦ []
      ]
  unfolding handled handle_event
  handled_users = ground (
    arith,
    (flush_bot_lem r.history).users,
    (append_bot_delta_lem r.history e.text before after).1,
    (append_user_lem r.history e.text before).1,
    append-nil (user_texts r.history.entries),
  )

step_said :
    (a : Arrival) (r : Receiver)
    → bot_said (receive_step a r).0.history ≡ bot_said r.history ++ bot_delta a
unfolding receive_step handled
step_said Arrival.context_done r = sym (append-nil (bot_said r.history))
step_said Arrival.events_closed r = sym (append-nil (bot_said r.history))
step_said (Arrival.event e before after alive) r = handled_said e.type e before after alive r

step_users :
    (a : Arrival) (r : Receiver)
    → user_texts (receive_step a r).0.history.entries ≡ user_texts r.history.entries ++ user_said a
unfolding receive_step handled
step_users Arrival.context_done r = sym (append-nil (user_texts r.history.entries))
step_users Arrival.events_closed r = sym (append-nil (user_texts r.history.entries))
step_users (Arrival.event e before after alive) r = handled_users e.type e before after alive r

-- However receiveBackend ends, and wherever it is cut off, the history that it leaves holds, in the
-- bot's entries together, every word of the bot's transcript events that it met, in order; the
-- caller's entries are the caller's transcript events that are not empty, in order; and no word of an
-- unfinished turn is left behind.
pub transcript_complete :
    (arrivals : List Arrival) (r : Receiver)
    → let h = (receive_backend arrivals r).0.history in
      (bot_words h.entries ≡ bot_said r.history ++ gather bot_delta arrivals)
      × (user_texts h.entries ≡ user_texts r.history.entries ++ gather user_said arrivals)
      × (h.bot_text ≡ [])
unfolding receive_backend
transcript_complete arrivals r =
    let h = (receive_loop arrivals r).0.history in
    let f = flush_bot_lem h in
    (
      sym (append-nil (bot_words (flush_bot h).entries))
          ∙ ap (λ t. bot_words (flush_bot h).entries ++ t) (sym f.idle)
          ∙ f.said
          ∙ gather_loop (λ q. bot_said q.history) bot_delta step_said arrivals r,
      f.users ∙ gather_loop (λ q. user_texts q.history.entries) user_said step_users arrivals r,
      f.idle,
    )
