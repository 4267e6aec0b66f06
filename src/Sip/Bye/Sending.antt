-- ===== src/Sip/Bye/Sending.antt =====
-- internal/sip/server.go: when sendBYE sends and when it ends; what `headers` keeps.
use Prim.Native.String.{String}
use text.Mathlib.Text.{◌==◌ as str_eq}
use text.Mathlib.TextEquality.{eq_iff}
use sip_relay.Prelude.{
  ◌≡◌, refl, sym, ap, ◌∙◌, inl, inr, Bool, true, false, not, ◌||◌, Option, none, some, List, [],
  ◌∷◌, ◌++◌, arith, if◌then◌else◌, append_assoc, append-nil, Bool-cases,
}
use sip_relay.Prelude.Maps.{lookup, insert, lookup-insert}
use sip_relay.Sip.Bye.{
  Uris, Dialog, Bye, new_server_bye, Wait, is_final, wait_bye, sent_if, send_bye, old_values,
  collect, headers,
}

-- Some event ends the wait.
abbrev pub any_final : List Wait → Bool
any_final [] = false
any_final (w ∷ ws) = is_final w || any_final ws

wait_bye-any_final : (ws : List Wait) → wait_bye ws ≡ not (any_final ws)
unfolding wait_bye
wait_bye-any_final [] = refl
wait_bye-any_final (w ∷ ws) = ground (arith, wait_bye-any_final ws)

-- The BYE that is to be sent, if there is one and a transaction for it.
abbrev pub to_send : {U : Type 0} → Option (Bye U) → (Bye U → Bool) → List (Bye U)
to_send none takes = []
to_send (some bye) takes = if takes bye then bye ∷ [] else []

abbrev pub is_some : {A : Type 0} → List A → Bool
is_some [] = false
is_some (x ∷ xs) = true

module _ {U : Type 0} where
  sent_if-once :
      (o : Option (Bye U)) (takes : Bye U → Bool) (waits : List Wait)
      → let s = sent_if o takes waits in
        (s.requests ≡ to_send o takes)
        × (any_final waits ≡ true → (s.waiting ≡ false) × (s.terminated ≡ is_some s.requests))
  sent_if-once none takes waits = (refl, λ h. (refl, refl))
  sent_if-once (some bye) takes waits = elim (Bool-cases (takes bye)) [
    | inl e ↦ rw e (
      refl,
      λ h. (wait_bye-any_final waits ∙ ap not h, ap not (wait_bye-any_final waits ∙ ap not h)),
    )
    | inr e ↦ rw e (refl, λ h. (refl, refl))
  ]

  -- sendBYE sends at most one request, the BYE of the dialog, and none without a client, for an
  -- incomplete dialog or without a transaction. Once a final response, the end of the transaction or
  -- the timer comes, it waits no more, and has ended the transaction if it sent the BYE.
  pub send_bye-once :
      (uris : Uris U) (has_client : Bool) (d : Option (Dialog U)) (takes : Bye U → Bool)
      (waits : List Wait)
      → let s = send_bye uris has_client d takes waits in
        (s.requests ≡ (if has_client then to_send (new_server_bye uris d) takes else []))
        × (any_final waits ≡ true → (s.waiting ≡ false) × (s.terminated ≡ is_some s.requests))
  unfolding send_bye
  send_bye-once uris false d takes waits = (refl, λ h. (refl, refl))
  send_bye-once uris true d takes waits = sent_if-once (new_server_bye uris d) takes waits

-- The values of the headers of a name, in order.
abbrev pub values_of : String → List (String × String) → List String
values_of name [] = []
values_of name ((n, value) ∷ hs) =
    let rest = values_of name hs in if str_eq n name then value ∷ rest else rest

collect-values :
    (name : String) (hs : List (String × String)) (out : List (String × List String))
    → old_values (lookup name (collect hs out)) ≡ old_values (lookup name out) ++ values_of name hs
unfolding collect
collect-values name [] out = sym (append-nil (old_values (lookup name out)))
collect-values name ((n, value) ∷ hs) out =
    let new = old_values (lookup n out) ++ (value ∷ []) in
    collect-values name hs (insert n new out)
    ∙ ap (λ o. old_values o ++ values_of name hs) (lookup-insert n name new out)
    ∙ one_more n value (values_of name hs) out
  where
    one_more :
        (n value : String) (rest : List String) (out : List (String × List String))
        → old_values (
              if str_eq n name
              then some (old_values (lookup n out) ++ (value ∷ []))
              else lookup name out)
            ++ rest
          ≡ old_values (lookup name out) ++ (if str_eq n name then value ∷ rest else rest)
    one_more n value rest out = elim (Bool-cases (str_eq n name)) [
      | inl e ↦ rw e (
          append_assoc (old_values (lookup n out)) (value ∷ []) rest
          ∙ ap (λ k. old_values (lookup k out) ++ (value ∷ rest)) ((eq_iff n name).0 e))
      | inr e ↦ rw e refl
    ]

-- Under each name `headers` keeps the values of all headers of that name, in order.
pub headers-values :
    (name : String) (hs : List (String × String))
    → old_values (lookup name (headers hs)) ≡ values_of name hs
unfolding headers
headers-values name hs = collect-values name hs []
