-- ===== src/Sip/Invite.antt =====
-- internal/sip/server.go: onInvite, and the server over the requests and events that it meets.
use Prim.Native.String.{String}
use sip_relay.Prelude.{
  ℕ, Bool, true, false, not, ◌==◌, Option, none, some, List, [], ◌∷◌, if◌then◌else◌, length,
}
use sip_relay.Call.{EndReason, Op, new_call, apply}
use sip_relay.Config.{Parsers, Config, ExtensionConfig, is_empty, route_of}
use sip_relay.Sip.{
  Request, Entry, Server, Dialer, Awaited, call_id_of, dnis, update, store, remove, hang_up, on_ack,
  on_bye, on_no_route, await_ack, call_done, close_server, backend_for_route,
}

-- What the environment answers in `onInvite`: whether an RTP port opens, the payload type of the SDP
-- answer if there is one, the random tag, and whether the 200 can be sent.
pub record Answers : Type 0 where
  pub listened : Bool
  pub payload_type : Option ℕ
  pub local_tag : String
  pub responded : Bool

-- What becomes of the RTP port: none is opened, it is closed again, or it belongs to the call of an entry.
pub data Media : Type 0 where
  unopened shut : Media
  owned : ℕ → Media

-- What `onInvite` leaves, and the status codes of the responses that it sent.
pub record Handled : Type 0 where
  pub server : Server
  pub statuses : List ℕ
  pub media : Media

-- `respondTrying`, then `respond` with an error.
abbrev pub reject : Server → ℕ → Media → Handled
reject s status media = record { server = s; statuses = 100 ∷ status ∷ []; media = media }

abbrev pub new_entry : String → String → Entry
new_entry local_tag call_id = record {
  local_tag = local_tag;
  call_id = call_id;
  call = new_call;
  start_once = false;
  close_once = false;
  ack = false;
  awaiting = false;
  watching = false;
  byes = 0;
}

-- The two goroutines at the end of `onInvite` are under way.
abbrev pub set_off : Entry → Entry
set_off e = record e { awaiting = true; watching = true }

-- `NewServer`. Nothing is bound to a place of the heap that holds no entry yet.
abbrev pub new_server : Server
new_server = record {
  by_tag = [];
  by_call = [];
  stopped = false;
  entries = λ i. new_entry "" "";
  next = 0;
}

-- `onInvite` from `call.New` on.
abbrev pub accept : Answers → Request → Server → Handled
accept a req s =
    let s' = store (new_entry a.local_tag (call_id_of req)) s in
    if a.responded
    then (record {
      server = update s.next set_off s';
      statuses = 100 ∷ 200 ∷ [];
      media = Media.owned s.next;
    })
    else (record {
      server = update s.next (hang_up EndReason.unset) (remove s.next s');
      statuses = 100 ∷ [];
      media = Media.owned s.next;
    })

-- `onInvite` from the SDP answer on.
abbrev pub with_answer : Option ℕ → Answers → Request → Server → Handled
with_answer none a req s = reject s 488 Media.shut
with_answer (some payload_type) a req s =
    if payload_type == 0 then accept a req s else reject s 488 Media.shut

-- `onInvite` from the backend on; `is_addr` is what `netip.ParseAddr` says of the advertised address.
abbrev pub with_backend : Option (Dialer × String) → Bool → Answers → Request → Server → Handled
with_backend none is_addr a req s = reject s 500 Media.unopened
with_backend (some backend) is_addr a req s =
    if not is_addr
    then reject s 500 Media.unopened
    else if not a.listened
    then reject s 503 Media.unopened
    else with_answer a.payload_type a req s

-- `onInvite` from the route on.
abbrev pub with_route :
    Option ExtensionConfig → Parsers → Config → Answers → Request → Server → Handled
with_route none ps cfg a req s = reject s 404 Media.unopened
with_route (some route) ps cfg a req s =
    with_backend (backend_for_route cfg route) (ps.is_addr cfg.sip.advertised_ip) a req s

-- `onInvite`
unfoldable pub on_invite : Parsers → Config → Answers → Request → Server → Handled
on_invite ps cfg a req s =
    if is_empty (call_id_of req)
    then reject s 400 Media.unopened
    else if length req.body == 0
    then reject s 400 Media.unopened
    else with_route (route_of cfg (dnis req)) ps cfg a req s

-- What happens to a server: requests, the goroutines of an entry, what its call's own goroutines do
-- once they were started, and the end of the server.
pub data SipEvent : Type 0 where
  invite : Answers → Request → SipEvent
  ack bye cancel other : Request → SipEvent
  awaited : Awaited → ℕ → SipEvent
  call_op : ℕ → Op → SipEvent
  done : ℕ → SipEvent
  shut_down : SipEvent

abbrev pub call_does : Op → Entry → Entry
call_does op e = record e { call = apply op e.call }

module _ (ps : Parsers) (cfg : Config) where
  unfoldable pub handle : SipEvent → Server → Server
  handle (SipEvent.invite a req) s = (on_invite ps cfg a req s).server
  handle (SipEvent.ack req) s = on_ack req s
  handle (SipEvent.bye req) s = on_bye req s
  handle (SipEvent.cancel req) s = on_no_route true req s
  handle (SipEvent.other req) s = on_no_route false req s
  handle (SipEvent.awaited a id) s = await_ack a id s
  handle (SipEvent.call_op id op) s = update id (call_does op) s
  handle (SipEvent.done id) s = call_done id s
  handle SipEvent.shut_down s = close_server s

  unfoldable pub handle_all : List SipEvent → Server → Server
  handle_all [] s = s
  handle_all (ev ∷ evs) s = handle_all evs (handle ev s)
