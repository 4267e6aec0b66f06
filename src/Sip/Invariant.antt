-- ===== src/Sip/Invariant.antt =====
-- The registry and its entries over any requests and events.
use Prim.Native.String.{String}
use sip_relay.Prelude.{
  ℕ, ◌≡◌, refl, ◌⊎◌, inl, inr, Bool, true, false, Option, none, some, List, [], ◌∷◌, arith, ◌==◌,
  if◌then◌else◌, Bool-cases, Option-cases, length,
}
use sip_relay.Prelude.Maps.{lookup}
use sip_relay.Call.{EndReason, Op, close_with_reason}
use sip_relay.Call.Life.{apply-IsSound}
use sip_relay.Config.{Parsers, Config, ExtensionConfig, is_empty, route_of}
use sip_relay.Sip.{
  Entry, Server, Request, call_id_of, dnis, put_ack, update, hang_up, close_each, lookup_entry,
  take_bye, end_entry, to_tag, find, on_ack, on_bye, on_no_route, close_server, backend_for_route,
}
use sip_relay.Sip.Registry.{IsServer, IsChange, update-IsServer}
use sip_relay.Sip.Lifecycle.{
  quiet-IsServer, on_found-IsServer, take_bye-IsServer, end_entry-IsServer, await_ack-IsServer,
  call_done-IsServer, close_server-IsServer, accept-IsServer, with_backend-IsServer,
}
use sip_relay.Sip.Invite.{
  new_server, Answers, SipEvent, call_does, accept, with_route, on_invite, handle, handle_all,
}

with_route-IsServer :
    (o : Option ExtensionConfig) (ps : Parsers) (cfg : Config) (a : Answers) (req : Request)
    (s : Server)
    → IsServer s
    → IsServer (accept a req s).server
    → IsServer (with_route o ps cfg a req s).server
with_route-IsServer none ps cfg a req s v w = v
with_route-IsServer (some route) ps cfg a req s v w =
    with_backend-IsServer (backend_for_route cfg route) (ps.is_addr cfg.sip.advertised_ip) a req s v
      w

pub on_invite-IsServer :
    (ps : Parsers) (cfg : Config) (a : Answers) (req : Request) (s : Server)
    → lookup a.local_tag s.by_tag ≡ none
    → IsServer s
    → IsServer (on_invite ps cfg a req s).server
unfolding on_invite
on_invite-IsServer ps cfg a req s fresh v =
    let w =
      with_route-IsServer (route_of cfg (dnis req)) ps cfg a req s v
        (accept-IsServer a req s fresh v) in
    elim (Bool-cases (is_empty (call_id_of req))) [
      | inl h ↦ rw h v
      | inr h ↦ rw h (elim (Bool-cases (length req.body == 0)) [ inl k ↦ rw k v | inr k ↦ rw k w ])
    ]

pub new_server-IsServer : IsServer new_server
new_server-IsServer = record {
  tags = λ k id l. cc;
  calls = λ k id l. cc;
  covered = λ k id l. cc;
  all_entries = λ id h. absurd (omega arith);
}

call_does-IsChange : (op : Op) (at : Entry) → IsChange (call_does op) at
call_does-IsChange op at = record {
  same_tag = λ e. refl;
  same_call_id = λ e. refl;
  keeps = λ v. record { sound = apply-IsSound op at.call v.sound; one_bye = v.one_bye };
}

module _ (ps : Parsers) (cfg : Config) where
  -- The random tag of an INVITE is not in use.
  abbrev pub IsFresh : SipEvent → Server → Type 0
  IsFresh (SipEvent.invite a req) s = lookup a.local_tag s.by_tag ≡ none
  IsFresh _ s = Unit

  abbrev pub AllFresh : List SipEvent → Server → Type 0
  AllFresh [] s = Unit
  AllFresh (ev ∷ evs) s = IsFresh ev s × AllFresh evs (handle ps cfg ev s)

  handle-IsServer :
      (ev : SipEvent) (s : Server) → IsFresh ev s → IsServer s → IsServer (handle ps cfg ev s)
  unfolding handle on_ack on_bye on_no_route
  handle-IsServer (SipEvent.invite a req) s fresh v = on_invite-IsServer ps cfg a req s fresh v
  handle-IsServer (SipEvent.ack req) s fresh v =
      on_found-IsServer (lookup_entry req s) (λ id. update id put_ack) s
        (λ id.
          quiet-IsServer put_ack id s (record { same = λ e. (refl, refl, refl, refl, refl) }) v)
        v
  handle-IsServer (SipEvent.bye req) s fresh v =
      on_found-IsServer (lookup_entry req s) take_bye s (λ id. take_bye-IsServer id s v) v
  handle-IsServer (SipEvent.cancel req) s fresh v =
      on_found-IsServer (lookup_entry req s) (end_entry EndReason.unset) s
        (λ id. end_entry-IsServer EndReason.unset id s v) v
  handle-IsServer (SipEvent.other req) s fresh v = v
  handle-IsServer (SipEvent.awaited a id) s fresh v = await_ack-IsServer a id s v
  handle-IsServer (SipEvent.call_op id op) s fresh v =
      update-IsServer id (call_does op) s (call_does-IsChange op (s.entries id)) v
  handle-IsServer (SipEvent.done id) s fresh v = call_done-IsServer id s v
  handle-IsServer SipEvent.shut_down s fresh v = close_server-IsServer s v

  -- Over any requests and events, with fresh tags for the INVITEs, a well-formed server stays well
  -- formed: its registry binds tags and Call-IDs only to entries that carry them, every entry that a
  -- Call-ID finds is found by its tag, every call is sound, and for each entry sendBYE was called at
  -- most once, and never if the entry's end was not claimed.
  pub handle_all-IsServer :
      (evs : List SipEvent) (s : Server)
      → AllFresh evs s
      → IsServer s
      → IsServer (handle_all ps cfg evs s)
  unfolding handle_all
  handle_all-IsServer [] s fresh v = v
  handle_all-IsServer (ev ∷ evs) s fresh v =
      handle_all-IsServer evs (handle ps cfg ev s) fresh.1 (handle-IsServer ev s fresh.0 v)

-- The loop of Close keeps a closed call closed, and closes each call that it meets.
close_each-closed :
    (m : List (String × ℕ)) (entries : ℕ → Entry) (k : String) (id : ℕ)
    → ((entries id).call.closed ≡ true) ⊎ (lookup k m ≡ some id)
    → (close_each m entries id).call.closed ≡ true
unfolding close_each close_with_reason
close_each-closed [] entries k id h = ground arith
close_each-closed ((tag, i) ∷ rest) entries k id h =
    close_each-closed rest (λ j. if j == i then hang_up EndReason.unset (entries j) else entries j)
      k id (ground arith)

pub found_by_tag :
    (s : Server) (req : Request) (id : ℕ)
    → IsServer s
    → lookup_entry req s ≡ some id
    → (k : String) × (lookup k s.by_tag ≡ some id)
unfolding lookup_entry
found_by_tag s req id v h = elim (Option-cases (find (to_tag req) s.by_tag)) [
  | inl e ↦
      let by_call : find (call_id_of req) s.by_call ≡ some id = rw (e, lookup_entry) at h in
      ((s.entries id).local_tag, v.covered (call_id_of req) id (ground arith))
  | inr (j, e) ↦
      let same : some j ≡ some id = rw (e, lookup_entry) at h in (to_tag req, ground arith)
]

nothing_found :
    (req : Request) (entries : ℕ → Entry) (stopped : Bool) (next : ℕ)
    → lookup_entry req
        (record { by_tag = []; by_call = []; stopped = stopped; entries = entries; next = next })
      ≡ none
unfolding lookup_entry
nothing_found req entries stopped next = ground arith

-- Close of a well-formed server that was not closed before closes every call that some request finds,
-- by tag or by Call-ID, and leaves no request that finds a call.
pub close_server-closes :
    (s : Server) (req : Request) (id : ℕ)
    → IsServer s
    → s.stopped ≡ false
    → lookup_entry req s ≡ some id
    → (((close_server s).entries id).call.closed ≡ true)
      × ((other : Request) → lookup_entry other (close_server s) ≡ none)
unfolding close_server
close_server-closes s req id v up h =
    let (k, l) = found_by_tag s req id v h in
    rw up (
      close_each-closed s.by_tag s.entries k id (inr l),
      λ other. nothing_found other (close_each s.by_tag s.entries) true s.next,
    )
