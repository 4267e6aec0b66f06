-- ===== src/Sip/Tests.antt =====
-- A server with one call, which its caller hangs up.
use sip_relay.Prelude.{inl, inr, ◌≡◌, ◌≢◌, refl, ap, true, false, none, some, List, [], ◌∷◌}
use sip_relay.Call.{Op, Arm}
use sip_relay.Config.{Config, apply_defaults}
use sip_relay.Config.Tests.{parsers, decoded, validates, routed}
use sip_relay.Sip.{Request, Server, Awaited, lookup_entry, store, on_bye}
use sip_relay.Sip.Registry.{IsServer}
use sip_relay.Sip.Invariant.{new_server-IsServer, handle_all-IsServer}
use sip_relay.Sip.Routes.{on_invite-configured}
use sip_relay.Sip.Answered.{
  port_open, is_accepted, on_invite-Ends, IsReached, on_invite-refused, on_invite-accepted,
}
use sip_relay.Sip.Goodbye.{on_bye-last}
use sip_relay.Sip.Invite.{Answers, Handled, SipEvent, new_server, on_invite, handle, handle_all}

abbrev config : Config
config = apply_defaults decoded

abbrev invite : Request
invite = record {
  recipient_user = "100";
  call_id = some "c1";
  from_user = some "200";
  to = none;
  headers = [];
  body = 1 ∷ [];
}

abbrev answers : Answers
answers = record { listened = true; payload_type = some 0; local_tag = "t1"; responded = true }

-- The port is not available.
abbrev busy : Answers
busy = record answers { listened = false }

answered : (on_invite parsers config answers invite new_server).statuses ≡ 100 ∷ 200 ∷ []
answered = on_invite-configured parsers config answers invite new_server validates routed refl refl

reached : IsReached "t1" "c1" 0 (on_invite parsers config answers invite new_server)
reached = on_invite-accepted parsers config answers invite new_server refl (ap is_accepted answered)

on_invite-refused_example :
    (port_open (on_invite parsers config busy invite new_server) ≡ false)
    × ((req' : Request)
        → lookup_entry req' (on_invite parsers config busy invite new_server).server ≢ some 0)
on_invite-refused_example =
    on_invite-refused parsers config busy invite new_server refl new_server-IsServer (
      ap is_accepted
        (on_invite-configured parsers config busy invite new_server validates routed refl refl))

-- The server after the INVITE.
abbrev in_call : Server
in_call = (on_invite parsers config answers invite new_server).server

-- A request of the caller within the dialog.
abbrev in_dialog : Request
in_dialog = record invite { to = some (record { user = "100"; tag = some "t1" }) }

in_dialog-found : lookup_entry in_dialog in_call ≡ some 0
in_dialog-found = reached.2 in_dialog refl

abbrev events : List SipEvent
events =
    SipEvent.ack in_dialog
    ∷ SipEvent.awaited Awaited.ack 0
    ∷ SipEvent.call_op 0 (Op.run_ends Arm.dial_failed)
    ∷ SipEvent.done 0
    ∷ SipEvent.shut_down
    ∷ []

handle_all-IsServer_example :
    IsServer (handle_all parsers config (SipEvent.invite answers invite ∷ events) new_server)
handle_all-IsServer_example =
    handle_all-IsServer parsers config (SipEvent.invite answers invite ∷ events) new_server
      (refl, (tt, (tt, (tt, (tt, (tt, tt)))))) new_server-IsServer

in_call-IsServer : IsServer in_call
unfolding handle_all handle
in_call-IsServer =
    handle_all-IsServer parsers config (SipEvent.invite answers invite ∷ []) new_server (refl, tt)
      new_server-IsServer

in_call-up : in_call.stopped ≡ false
unfolding store
in_call-up = elim (on_invite-Ends parsers config answers invite new_server) [
  | inl e ↦ ap (λ (h : Handled). h.server.stopped) e
  | inr (same, shut, rejected) ↦ ap (λ (t : Server). t.stopped) same
]

on_bye-last_example :
    ((handle_all parsers config events (on_bye in_dialog in_call)).entries 0).byes
    ≡ (in_call.entries 0).byes
on_bye-last_example =
    on_bye-last parsers config events in_dialog in_call 0 in_call-IsServer in_dialog-found
