-- ===== src/Sip.antt =====
-- internal/sip/server.go: the registry of calls, the handlers of requests, and the goroutines that wait
-- for an ACK and for the end of a call. An entry is known by its number in the heap `entries`, which
-- stands for its pointer. What sipgo, the SDP answer and the search for a port give is in `Answers`.
pub mod Invite
pub mod Registry
pub mod Lifecycle
pub mod Invariant
pub mod Routes
pub mod Answered
pub mod Goodbye
pub mod Bye
pub mod Startup
mod Tests
use Prim.Native.String.{String}
use text.Mathlib.Text.{◌==◌ as str_eq}
use sip_relay.Prelude.{
  ℕ, suc, Bool, true, false, not, ◌&&◌, ◌||◌, Option, none, some, List, [], ◌∷◌, ◌++◌, ◌==◌, ltb,
  if◌then◌else◌, length,
}
use sip_relay.Prelude.Maps.{lookup, insert, delete}
use sip_relay.Backend.{Bytes}
use sip_relay.Call.{
  EndReason, Call, Op, new_call, start, close, close_with_reason, should_send_bye, apply,
}
use sip_relay.Config.{
  Parsers, Config, ExtensionConfig, CesConfig, WebSocketConfig, is_empty, resolve_profile, route_of,
}

-- The To header: its user, and its tag if it has one.
pub record To : Type 0 where
  pub user : String
  pub tag : Option String

-- What the handlers read of a `sip.Request`.
pub record Request : Type 0 where
  pub recipient_user : String
  pub call_id : Option String
  pub from_user : Option String
  pub to : Option To
  pub headers : List (String × String)
  pub body : Bytes

abbrev pub or_empty : Option String → String
or_empty none = ""
or_empty (some s) = s

-- `callID`
abbrev pub call_id_of : Request → String
call_id_of req = or_empty req.call_id

-- `ani`
abbrev pub ani : Request → String
ani req = or_empty req.from_user

abbrev to_user : Option To → String
to_user none = ""
to_user (some to) = to.user

-- `dnis`
abbrev pub dnis : Request → String
dnis req = if is_empty req.recipient_user then to_user req.to else req.recipient_user

abbrev tag_of : Option To → String
tag_of none = ""
tag_of (some to) = or_empty to.tag

-- The tag that `lookup` looks for, empty if there is none.
abbrev pub to_tag : Request → String
to_tag req = tag_of req.to

-- `entry`: its two `sync.Once`, whether an ACK waits in the channel, whether awaitACK and the goroutine
-- that waits for the call's end are under way, and how often sendBYE was called.
pub record Entry : Type 0 where
  pub local_tag : String
  pub call_id : String
  pub call : Call
  pub start_once : Bool
  pub close_once : Bool
  pub ack : Bool
  pub awaiting : Bool
  pub watching : Bool
  pub byes : ℕ

-- `Server`
pub record Server : Type 0 where
  pub by_tag : List (String × ℕ)
  pub by_call : List (String × ℕ)
  pub stopped : Bool
  pub entries : ℕ → Entry
  pub next : ℕ

abbrev pub update : ℕ → (Entry → Entry) → Server → Server
update id f s = record s { entries = λ i. if i == id then f (s.entries i) else s.entries i }

-- `store`, of a new entry
unfoldable pub store : Entry → Server → Server
store e s = record s {
  by_tag = insert e.local_tag s.next s.by_tag;
  by_call = insert e.call_id s.next s.by_call;
  entries = λ i. if i == s.next then e else s.entries i;
  next = suc s.next;
}

abbrev is_bound_to : ℕ → Option ℕ → Bool
is_bound_to id none = false
is_bound_to id (some j) = j == id

-- `if m[k] == e { delete(m, k) }`
unfoldable pub delete_if : String → ℕ → List (String × ℕ) → List (String × ℕ)
delete_if k id m = if is_bound_to id (lookup k m) then delete k m else m

-- `remove`
unfoldable pub remove : ℕ → Server → Server
unfolding delete_if
remove id s = record s {
  by_tag = delete_if (s.entries id).local_tag id s.by_tag;
  by_call = delete_if (s.entries id).call_id id s.by_call;
}

abbrev pub find : String → List (String × ℕ) → Option ℕ
find k m = if is_empty k then none else lookup k m

abbrev pub first : Option ℕ → Option ℕ → Option ℕ
first none o = o
first (some id) o = some id

-- `lookup`
unfoldable pub lookup_entry : Request → Server → Option ℕ
lookup_entry req s = first (find (to_tag req) s.by_tag) (find (call_id_of req) s.by_call)

-- A change of the entry that a request finds, if it finds one.
abbrev on_found : Option ℕ → (ℕ → Server → Server) → Server → Server
on_found none f s = s
on_found (some id) f s = f id s

abbrev pub put_ack : Entry → Entry
put_ack e = record e { ack = true }

-- `onAck`
unfoldable pub on_ack : Request → Server → Server
on_ack req s = on_found (lookup_entry req s) (λ id. update id put_ack) s

abbrev pub hang_up : EndReason → Entry → Entry
hang_up reason e = record e { call = close_with_reason reason e.call }

-- The end is claimed by the caller's BYE, or by the server's own.
abbrev pub user_bye : Entry → Entry
user_bye e = record (hang_up EndReason.user e) { close_once = true }

abbrev pub own_bye : Entry → Entry
own_bye e = record e { close_once = true; byes = suc e.byes }

-- The body of `e.close.Do` in `onBye`.
abbrev pub take_bye : ℕ → Server → Server
take_bye id s = if (s.entries id).close_once then s else remove id (update id user_bye s)

-- `onBye`
unfoldable pub on_bye : Request → Server → Server
on_bye req s = on_found (lookup_entry req s) take_bye s

-- Close the call, then `s.remove(e)`.
abbrev pub end_entry : EndReason → ℕ → Server → Server
end_entry reason id s = remove id (update id (hang_up reason) s)

-- `onNoRoute`, for a CANCEL; another method is answered with 405 and changes nothing.
unfoldable pub on_no_route : Bool → Request → Server → Server
on_no_route is_cancel req s =
    if is_cancel then on_found (lookup_entry req s) (end_entry EndReason.unset) s else s

-- `e.start.Do(...)`
abbrev pub start_entry : Entry → Entry
start_entry e = if e.start_once then e else record e { start_once = true; call = start e.call }

-- The entry's ACK is taken from its channel, or comes by the transaction; then awaitACK is over.
abbrev pub ack_taken : Entry → Entry
ack_taken e = record (start_entry e) { ack = false; awaiting = false }

abbrev pub tx_acked : Entry → Entry
tx_acked e = record (start_entry e) { awaiting = false }

abbrev pub ack_over : Entry → Entry
ack_over e = record e { awaiting = false }

-- What the select of `awaitACK` meets.
pub data Awaited : Type 0 where
  ack tx_ack tx_cancel timeout : Awaited

-- The arm of `awaitACK`. The one for the entry's own channel needs an ACK there.
unfoldable pub await_arm : Awaited → ℕ → Server → Server
await_arm Awaited.ack id s = if (s.entries id).ack then update id ack_taken s else s
await_arm Awaited.tx_ack id s = update id tx_acked s
await_arm Awaited.tx_cancel id s = end_entry EndReason.user id (update id ack_over s)
await_arm Awaited.timeout id s = end_entry EndReason.unset id (update id ack_over s)

-- `awaitACK`, which runs once for an entry.
unfoldable pub await_ack : Awaited → ℕ → Server → Server
await_ack a id s = if ltb id s.next && (s.entries id).awaiting then await_arm a id s else s

-- The body of `e.close.Do` in the goroutine of `onInvite`.
abbrev pub give_bye : ℕ → Server → Server
give_bye id s = if (s.entries id).close_once then s else remove id (update id own_bye s)

abbrev pub watched_end : ℕ → Server → Server
watched_end id s = if should_send_bye (s.entries id).call.reason then give_bye id s else remove id s

abbrev pub watch_over : Entry → Entry
watch_over e = record e { watching = false }

-- The goroutine of `onInvite` once `c.Done()` is closed.
unfoldable pub call_done : ℕ → Server → Server
call_done id s =
    if ltb id s.next && (s.entries id).watching && (s.entries id).call.done_once
    then watched_end id (update id watch_over s)
    else s

-- The loop of `Server.Close` over the entries.
unfoldable pub close_each : List (String × ℕ) → (ℕ → Entry) → ℕ → Entry
close_each [] entries = entries
close_each ((tag, id) ∷ rest) entries =
    close_each rest (λ i. if i == id then hang_up EndReason.unset (entries i) else entries i)

-- `Server.Close`
unfoldable pub close_server : Server → Server
close_server s = if s.stopped then s else (record s {
  stopped = true;
  by_tag = [];
  by_call = [];
  entries = close_each s.by_tag s.entries;
})

-- A media backend with its profile.
pub data Dialer : Type 0 where
  ces : CesConfig → Dialer
  websocket : WebSocketConfig → Dialer

abbrev ces_dialer : Option CesConfig → Option (Dialer × String)
ces_dialer none = none
ces_dialer (some c) = some (Dialer.ces c, c.session_prefix)

abbrev websocket_dialer : Option WebSocketConfig → Option (Dialer × String)
websocket_dialer none = none
websocket_dialer (some c) = some (Dialer.websocket c, "sip")

-- `backendForRoute`
unfoldable pub backend_for_route : Config → ExtensionConfig → Option (Dialer × String)
backend_for_route c route =
    if str_eq route.backend "ces"
    then ces_dialer (lookup (resolve_profile route) c.ces)
    else if str_eq route.backend "websocket"
    then websocket_dialer (lookup (resolve_profile route) c.websocket)
    else none
