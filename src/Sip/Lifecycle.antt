-- ===== src/Sip/Lifecycle.antt =====
-- What each handler and goroutine of the server does to a well-formed registry.
use Prim.Native.String.{String}
use sip_relay.Prelude.{
  ℕ, ◌≡◌, refl, sym, subst, inl, inr, Bool, true, false, ◌&&◌, Option, none, some, List, [], ◌∷◌,
  arith, ◌==◌, ltb, if◌then◌else◌, Bool-cases,
}
use sip_relay.Prelude.Maps.{lookup}
use sip_relay.Call.{EndReason, should_send_bye}
use sip_relay.Call.Life.{IsSound, new_call-IsSound, start-IsSound, close_with_reason-IsSound}
use sip_relay.Sip.{
  user_bye, own_bye, ack_taken, tx_acked, ack_over, watch_over, Entry, Server, Request, Awaited,
  Dialer, call_id_of, update, store, remove, hang_up, start_entry, close_each, on_found, take_bye,
  end_entry, give_bye, watched_end, await_arm, await_ack, call_done, close_server,
}
use sip_relay.Sip.Registry.{
  IsEntry, IsServer, IsChange, update-IsServer, remove-IsServer, store-IsServer,
}
use sip_relay.Sip.Invite.{set_off, Answers, new_entry, accept, with_backend}

hang_up-IsChange : (reason : EndReason) (at : Entry) → IsChange (hang_up reason) at
hang_up-IsChange reason at = record {
  same_tag = λ e. refl;
  same_call_id = λ e. refl;
  keeps =
      λ v. record { sound = close_with_reason-IsSound reason at.call v.sound; one_bye = v.one_bye };
}

user_bye-IsChange : (at : Entry) → IsChange user_bye at
user_bye-IsChange at = record {
  same_tag = λ e. refl;
  same_call_id = λ e. refl;
  keeps = λ v. record {
    sound = close_with_reason-IsSound EndReason.user at.call v.sound;
    one_bye = ground (arith, v.one_bye);
  };
}

give_bye-IsChange : (at : Entry) → at.close_once ≡ false → IsChange own_bye at
give_bye-IsChange at h = record {
  same_tag = λ e. refl;
  same_call_id = λ e. refl;
  keeps = λ v. record { sound = v.sound; one_bye = ground (arith, v.one_bye) };
}

-- A change that leaves the keys, the call and the BYEs alone.
pub record IsQuiet (f : Entry → Entry) : Type 0 where
  pub same :
      (e : Entry)
      → ((f e).local_tag ≡ e.local_tag)
        × ((f e).call_id ≡ e.call_id)
        × ((f e).call ≡ e.call)
        × ((f e).byes ≡ e.byes)
        × ((f e).close_once ≡ e.close_once)

pub quiet-IsServer :
    (f : Entry → Entry) (id : ℕ) (s : Server) → IsQuiet f → IsServer s → IsServer (update id f s)
quiet-IsServer f id s q v =
    update-IsServer id f s
      (record {
        same_tag = λ e. (q.same e).0;
        same_call_id = λ e. (q.same e).1;
        keeps = λ w.
            let (_, _, k, b, o) = q.same (s.entries id) in
            record {
              sound = subst IsSound (sym k) w.sound;
              one_bye = ground (arith, w.one_bye, b, o);
            };
      })
      v

start_entry-fields :
    (e : Entry)
    → ((start_entry e).local_tag ≡ e.local_tag)
      × ((start_entry e).call_id ≡ e.call_id)
      × ((start_entry e).byes ≡ e.byes)
      × ((start_entry e).close_once ≡ e.close_once)
start_entry-fields e = ground arith

start_entry-IsSound : (e : Entry) → IsSound e.call → IsSound (start_entry e).call
start_entry-IsSound e v = elim (Bool-cases e.start_once) [
  | inl h ↦ rw h v
  | inr h ↦ rw h (start-IsSound e.call v)
]

-- The arms of awaitACK that start the call.
ack_taken-IsChange : (at : Entry) → IsChange ack_taken at
ack_taken-IsChange at = record {
  same_tag = λ e. (start_entry-fields e).0;
  same_call_id = λ e. (start_entry-fields e).1;
  keeps = λ v.
      let (_, _, b, c) = start_entry-fields at in
      record { sound = start_entry-IsSound at v.sound; one_bye = ground (arith, v.one_bye, b, c) };
}

tx_acked-IsChange : (at : Entry) → IsChange tx_acked at
tx_acked-IsChange at = record {
  same_tag = λ e. (start_entry-fields e).0;
  same_call_id = λ e. (start_entry-fields e).1;
  keeps = λ v.
      let (_, _, b, c) = start_entry-fields at in
      record { sound = start_entry-IsSound at v.sound; one_bye = ground (arith, v.one_bye, b, c) };
}

pub end_entry-IsServer :
    (reason : EndReason) (id : ℕ) (s : Server) → IsServer s → IsServer (end_entry reason id s)
end_entry-IsServer reason id s v =
    remove-IsServer id (update id (hang_up reason) s)
      (update-IsServer id (hang_up reason) s (hang_up-IsChange reason (s.entries id)) v)

pub take_bye-IsServer : (id : ℕ) (s : Server) → IsServer s → IsServer (take_bye id s)
take_bye-IsServer id s v = elim (Bool-cases (s.entries id).close_once) [
  | inl h ↦ rw h v
  | inr h ↦ rw h (
      remove-IsServer id (update id user_bye s)
        (update-IsServer id user_bye s (user_bye-IsChange (s.entries id)) v))
]

give_bye-IsServer : (id : ℕ) (s : Server) → IsServer s → IsServer (give_bye id s)
give_bye-IsServer id s v = elim (Bool-cases (s.entries id).close_once) [
  | inl h ↦ rw h v
  | inr h ↦ rw h (
      remove-IsServer id (update id own_bye s)
        (update-IsServer id own_bye s (give_bye-IsChange (s.entries id) h) v))
]

pub on_found-IsServer :
    (o : Option ℕ) (f : ℕ → Server → Server) (s : Server)
    → ((id : ℕ) → IsServer (f id s))
    → IsServer s
    → IsServer (on_found o f s)
on_found-IsServer none f s h v = v
on_found-IsServer (some id) f s h v = h id

await_arm-IsServer : (a : Awaited) (id : ℕ) (s : Server) → IsServer s → IsServer (await_arm a id s)
unfolding await_arm
await_arm-IsServer Awaited.ack id s v = elim (Bool-cases (s.entries id).ack) [
  | inl h ↦ rw h (update-IsServer id ack_taken s (ack_taken-IsChange (s.entries id)) v)
  | inr h ↦ rw h v
]
await_arm-IsServer Awaited.tx_ack id s v =
    update-IsServer id tx_acked s (tx_acked-IsChange (s.entries id)) v
await_arm-IsServer Awaited.tx_cancel id s v =
    end_entry-IsServer EndReason.user id (update id ack_over s)
      (quiet-IsServer ack_over id s (record { same = λ e. (refl, refl, refl, refl, refl) }) v)
await_arm-IsServer Awaited.timeout id s v =
    end_entry-IsServer EndReason.unset id (update id ack_over s)
      (quiet-IsServer ack_over id s (record { same = λ e. (refl, refl, refl, refl, refl) }) v)

pub await_ack-IsServer :
    (a : Awaited) (id : ℕ) (s : Server) → IsServer s → IsServer (await_ack a id s)
unfolding await_ack
await_ack-IsServer a id s v = elim (Bool-cases (ltb id s.next && (s.entries id).awaiting)) [
  | inl h ↦ rw h (await_arm-IsServer a id s v)
  | inr h ↦ rw h v
]

watched_end-IsServer : (id : ℕ) (s : Server) → IsServer s → IsServer (watched_end id s)
watched_end-IsServer id s v = elim (Bool-cases (should_send_bye (s.entries id).call.reason)) [
  | inl h ↦ rw h (give_bye-IsServer id s v)
  | inr h ↦ rw h (remove-IsServer id s v)
]

pub call_done-IsServer : (id : ℕ) (s : Server) → IsServer s → IsServer (call_done id s)
unfolding call_done
call_done-IsServer id s v =
    elim (Bool-cases (ltb id s.next && (s.entries id).watching && (s.entries id).call.done_once)) [
      | inl h ↦ rw h (
          watched_end-IsServer id (update id watch_over s) (
            quiet-IsServer watch_over id s (record { same = λ e. (refl, refl, refl, refl, refl) })
              v))
      | inr h ↦ rw h v
    ]

close_each-IsEntry :
    (m : List (String × ℕ)) (entries : ℕ → Entry) (i : ℕ)
    → IsEntry (entries i)
    → IsEntry (close_each m entries i)
unfolding close_each
close_each-IsEntry [] entries i v = v
close_each-IsEntry ((tag, id) ∷ rest) entries i v =
    close_each-IsEntry rest
      (λ j. if j == id then hang_up EndReason.unset (entries j) else entries j) i
      (elim (Bool-cases (i == id)) [
        | inl h ↦ rw h ((hang_up-IsChange EndReason.unset (entries i)).keeps v)
        | inr h ↦ rw h v
      ])

pub IsServer-if :
    (b : Bool) (s t : Server) → IsServer s → IsServer t → IsServer (if b then s else t)
IsServer-if true s t v w = v
IsServer-if false s t v w = w

pub close_server-IsServer : (s : Server) → IsServer s → IsServer (close_server s)
unfolding close_server
close_server-IsServer s v = IsServer-if s.stopped s _ v (record {
  tags = λ k id l. cc;
  calls = λ k id l. cc;
  covered = λ k id l. cc;
  all_entries = λ id h. close_each-IsEntry s.by_tag s.entries id (v.all_entries id h);
})

pub new_entry-IsEntry : (tag call_id : String) → IsEntry (new_entry tag call_id)
new_entry-IsEntry tag call_id = record { sound = new_call-IsSound; one_bye = omega arith }

pub accept-IsServer :
    (a : Answers) (req : Request) (s : Server)
    → lookup a.local_tag s.by_tag ≡ none
    → IsServer s
    → IsServer (accept a req s).server
accept-IsServer a req s fresh v =
    let e = new_entry a.local_tag (call_id_of req) in
    let w = store-IsServer e s (new_entry-IsEntry a.local_tag (call_id_of req)) fresh v in
    elim (Bool-cases a.responded) [
      | inl h ↦ rw h (
          quiet-IsServer set_off s.next (store e s)
            (record { same = λ e. (refl, refl, refl, refl, refl) }) w)
      | inr h ↦ rw h (
          update-IsServer s.next (hang_up EndReason.unset) (remove s.next (store e s))
            (hang_up-IsChange EndReason.unset _) (remove-IsServer s.next (store e s) w))
    ]

pub with_backend-IsServer :
    (o : Option (Dialer × String)) (is_addr : Bool) (a : Answers) (req : Request) (s : Server)
    → IsServer s
    → IsServer (accept a req s).server
    → IsServer (with_backend o is_addr a req s).server
with_backend-IsServer o is_addr a req s v w = ground arith
