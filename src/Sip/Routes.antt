-- ===== src/Sip/Routes.antt =====
-- The routes of a configuration that validates, as the server uses them.
use Prim.Native.String.{String}
use text.Mathlib.Text.{◌==◌ as str_eq}
use text.Mathlib.TextEquality.{eq_iff}
use sip_relay.Prelude.{
  ℕ, ◌≡◌, refl, sym, subst, inl, inr, true, false, not, none, some, List, [], ◌∷◌, arith, ◌==◌,
  if◌then◌else◌, length,
}
use sip_relay.Config.{Parsers, Config, ExtensionConfig, is_empty, route_of, validate}
use sip_relay.Config.Valid.{IsRouted, validate-IsUsable}
use sip_relay.Sip.{Request, Server, Dialer, call_id_of, dnis, backend_for_route}
use sip_relay.Sip.Invite.{Answers, with_backend, on_invite}

-- A valid route has a backend.
backend_for_route-some :
    (ps : Parsers) (c : Config) (route : ExtensionConfig)
    → IsRouted ps c route
    → (d : Dialer × String) × (backend_for_route c route ≡ some d)
unfolding backend_for_route
backend_for_route-some ps c route (inl (name, (profile, found, ok))) =
    let ces : str_eq route.backend "ces" ≡ true = (eq_iff _ _).1 name in
    ((Dialer.ces profile, profile.session_prefix), rw (ces, found) refl)
backend_for_route-some ps c route (inr (name, (profile, found, ok))) =
    let ces : str_eq route.backend "ces" ≡ false =
      subst (λ b. str_eq b "ces" ≡ false) (sym name) refl in
    let websocket : str_eq route.backend "websocket" ≡ true = (eq_iff _ _).1 name in
    ((Dialer.websocket profile, "sip"), rw (ces, websocket, found) refl)

-- The responses to an INVITE once its route, its backend and the advertised address are found.
abbrev pub responses : Answers → List ℕ
responses a = if not a.listened then 100 ∷ 503 ∷ [] else elim a.payload_type [
  | none ↦ 100 ∷ 488 ∷ []
  | some pt ↦ if pt == 0 then if a.responded then 100 ∷ 200 ∷ [] else 100 ∷ [] else 100 ∷ 488 ∷ []
]

with_backend-responses :
    (d : Dialer × String) (a : Answers) (req : Request) (s : Server)
    → (with_backend (some d) true a req s).statuses ≡ responses a
with_backend-responses d a req s = ground arith

-- Under a configuration that validates, an INVITE with a Call-ID and a body for a configured extension
-- is never answered with a server error of the configuration: it gets 503 if no RTP port opens, else 488
-- if the SDP offer has no answer with payload type 0, else 200, unless
-- that cannot be sent.
pub on_invite-configured :
    (ps : Parsers) (cfg : Config) (a : Answers) (req : Request) (s : Server)
    {route : ExtensionConfig}
    → validate ps cfg ≡ none
    → route_of cfg (dnis req) ≡ some route
    → is_empty (call_id_of req) ≡ false
    → (length req.body == 0) ≡ false
    → (on_invite ps cfg a req s).statuses ≡ responses a
unfolding on_invite
on_invite-configured ps cfg a req s {route} valid routed id body =
    let u = validate-IsUsable ps cfg valid in
    let (d, e) = backend_for_route-some ps cfg route (u.routes (dnis req) route routed) in
    rw (id, body, routed, e, u.media_addr) (with_backend-responses d a req s)
