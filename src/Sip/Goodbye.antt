-- ===== src/Sip/Goodbye.antt =====
-- internal/sip/server.go: the BYEs sent for a call over the events of a server.
use Prim.Native.String.{String}
use sip_relay.Prelude.{
  ℕ, ◌≤◌, ◌<◌, ◌≡◌, refl, sym, subst, ◌∙◌, inl, inr, Bool, true, false, ◌&&◌, Option, none, some,
  List, [], ◌∷◌, arith, ◌==◌, ltb, if◌then◌else◌, Bool-cases,
}
use sip_relay.Call.{EndReason, should_send_bye}
use sip_relay.Config.{Parsers, Config}
use sip_relay.Sip.{
  user_bye, own_bye, Entry, Server, Request, Awaited, call_id_of, update, store, remove, hang_up,
  put_ack, ack_taken, tx_acked, ack_over, watch_over, on_found, take_bye, end_entry, give_bye,
  watched_end, close_each, lookup_entry, on_ack, on_bye, on_no_route, await_arm, await_ack,
  call_done, close_server,
}
use sip_relay.Sip.Registry.{IsServer, older}
use sip_relay.Sip.Invariant.{found_by_tag}
use sip_relay.Sip.Answered.{on_invite-Ends}
use sip_relay.Sip.Invite.{
  Handled, Answers, SipEvent, call_does, new_entry, set_off, accept, on_invite, handle, handle_all,
}

-- A change that sends no BYE where the end is claimed, and keeps it claimed.
abbrev IsMute : (Entry → Entry) → Type 0
IsMute f = (e : Entry) → e.close_once ≡ true → ((f e).byes ≡ e.byes) × ((f e).close_once ≡ true)

module _ (id : ℕ) where
  -- The entry `id` stays as it is in that respect.
  record IsSettled (s t : Server) : Type 0 where
    grows : s.next ≤ t.next
    mute :
        (s.entries id).close_once ≡ true
        → ((t.entries id).byes ≡ (s.entries id).byes) × ((t.entries id).close_once ≡ true)

  same-IsSettled : (s : Server) → IsSettled s s
  same-IsSettled s = record { grows = omega arith; mute = λ h. (refl, h) }

  then-IsSettled : (s t u : Server) → IsSettled s t → IsSettled t u → IsSettled s u
  then-IsSettled s t u v w = record {
    grows = omega (arith, v.grows, w.grows);
    mute = λ h. let (a, b) = v.mute h in let (c, d) = w.mute b in (c ∙ a, d);
  }

  IsSettled-if :
      (b : Bool) (s t u : Server) → IsSettled s t → IsSettled s u → IsSettled s (if b then t else u)
  IsSettled-if true s t u v w = v
  IsSettled-if false s t u v w = w

  update-IsSettled :
      (i : ℕ) (f : Entry → Entry) (s : Server) → IsMute f → IsSettled s (update i f s)
  update-IsSettled i f s m = record {
    grows = omega arith;
    mute = λ h. elim (Bool-cases (id == i)) [
      | inl e ↦ rw e (m (s.entries id) h)
      | inr e ↦ rw e (refl, h)
    ];
  }

  remove-IsSettled : (i : ℕ) (s : Server) → IsSettled s (remove i s)
  unfolding remove
  remove-IsSettled i s = record { grows = omega arith; mute = λ h. (refl, h) }

  remove-after : (i : ℕ) (s t : Server) → IsSettled s t → IsSettled s (remove i t)
  remove-after i s t v = then-IsSettled s t (remove i t) v (remove-IsSettled i t)

  hang_up-IsSettled : (r : EndReason) (i : ℕ) (s : Server) → IsSettled s (end_entry r i s)
  hang_up-IsSettled r i s =
      remove-after i s (update i (hang_up r) s)
        (update-IsSettled i (hang_up r) s (λ e h. (refl, h)))

  take_bye-IsSettled : (i : ℕ) (s : Server) → IsSettled s (take_bye i s)
  take_bye-IsSettled i s =
      IsSettled-if (s.entries i).close_once s s _ (same-IsSettled s) (
        remove-after i s (update i user_bye s)
          (update-IsSettled i user_bye s (λ e h. (refl, refl))))

  give_bye-IsSettled : (i : ℕ) (s : Server) → IsSettled s (give_bye i s)
  give_bye-IsSettled i s = elim (Bool-cases (s.entries i).close_once) [
    | inl c ↦ rw c (same-IsSettled s)
    | inr c ↦ rw c (
        remove-after i s (update i own_bye s)
          (record { grows = omega arith; mute = λ h. ground arith }))
  ]

  on_found-IsSettled :
      (o : Option ℕ) (f : ℕ → Server → Server) (s : Server)
      → ((i : ℕ) → IsSettled s (f i s))
      → IsSettled s (on_found o f s)
  on_found-IsSettled none f s h = same-IsSettled s
  on_found-IsSettled (some i) f s h = h i

  await_arm-IsSettled : (a : Awaited) (i : ℕ) (s : Server) → IsSettled s (await_arm a i s)
  unfolding await_arm
  await_arm-IsSettled Awaited.ack i s =
      IsSettled-if (s.entries i).ack s _ s (update-IsSettled i ack_taken s (λ e h. ground arith))
        (same-IsSettled s)
  await_arm-IsSettled Awaited.tx_ack i s = update-IsSettled i tx_acked s (λ e h. ground arith)
  await_arm-IsSettled Awaited.tx_cancel i s =
      then-IsSettled s (update i ack_over s) (end_entry EndReason.user i (update i ack_over s))
        (update-IsSettled i ack_over s (λ e h. (refl, h)))
        (hang_up-IsSettled EndReason.user i (update i ack_over s))
  await_arm-IsSettled Awaited.timeout i s =
      then-IsSettled s (update i ack_over s) _ (update-IsSettled i ack_over s (λ e h. (refl, h)))
        (hang_up-IsSettled EndReason.unset i (update i ack_over s))

  watched_end-IsSettled : (i : ℕ) (s : Server) → IsSettled s (watched_end i s)
  watched_end-IsSettled i s =
      IsSettled-if (should_send_bye (s.entries i).call.reason) s _ _ (give_bye-IsSettled i s)
        (remove-IsSettled i s)

  close_each-mute :
      (m : List (String × ℕ)) (entries : ℕ → Entry)
      → ((close_each m entries id).byes ≡ (entries id).byes)
        × ((close_each m entries id).close_once ≡ (entries id).close_once)
  unfolding close_each
  close_each-mute [] entries = (refl, refl)
  close_each-mute ((tag, i) ∷ rest) entries =
      let (a, b) =
        close_each-mute rest
          (λ j. if j == i then hang_up EndReason.unset (entries j) else entries j) in
      elim (Bool-cases (id == i)) [
        | inl e ↦ (a ∙ rw e refl, b ∙ rw e refl)
        | inr e ↦ (a ∙ rw e refl, b ∙ rw e refl)
      ]

  close_server-IsSettled : (s : Server) → IsSettled s (close_server s)
  unfolding close_server
  close_server-IsSettled s =
      let (a, b) = close_each-mute s.by_tag s.entries in
      IsSettled-if s.stopped s s _ (same-IsSettled s)
        (record { grows = omega arith; mute = λ h. (a, b ∙ h) })

  accept-IsSettled :
      (a : Answers) (req : Request) (s : Server) → id < s.next → IsSettled s (accept a req s).server
  accept-IsSettled a req s below =
      let e = new_entry a.local_tag (call_id_of req) in
      let kept = older s e id below in
      let stored : IsSettled s (store e s) = record {
        grows = unfold store in omega arith;
        mute = λ h. rw kept (refl, h);
      } in
      elim (Bool-cases a.responded) [
        | inl r ↦ rw r (
            then-IsSettled s (store e s) _ stored
              (update-IsSettled s.next set_off (store e s) (λ x h. (refl, h))))
        | inr r ↦ rw r (
            then-IsSettled s (store e s) _ stored (
              then-IsSettled (store e s) (remove s.next (store e s)) _
                (remove-IsSettled s.next (store e s))
                (update-IsSettled s.next (hang_up EndReason.unset) (remove s.next (store e s))
                  (λ x h. (refl, h)))))
      ]

  on_invite-IsSettled :
      (ps : Parsers) (cfg : Config) (a : Answers) (req : Request) (s : Server)
      → id < s.next
      → IsSettled s (on_invite ps cfg a req s).server
  on_invite-IsSettled ps cfg a req s below = elim (on_invite-Ends ps cfg a req s) [
    | inl e ↦ subst (λ (h : Handled). IsSettled s h.server) (sym e) (accept-IsSettled a req s below)
    | inr (same, shut, rejected) ↦ subst (IsSettled s) (sym same) (same-IsSettled s)
  ]

  call_done-IsSettled : (i : ℕ) (s : Server) → IsSettled s (call_done i s)
  unfolding call_done
  call_done-IsSettled i s =
      IsSettled-if (ltb i s.next && (s.entries i).watching && (s.entries i).call.done_once) s _ s
        (then-IsSettled s (update i watch_over s) _
          (update-IsSettled i watch_over s (λ e h. (refl, h)))
          (watched_end-IsSettled i (update i watch_over s)))
        (same-IsSettled s)

  module _ (ps : Parsers) (cfg : Config) where
    handle-IsSettled : (ev : SipEvent) (s : Server) → id < s.next → IsSettled s (handle ps cfg ev s)
    unfolding handle on_ack on_bye on_no_route await_ack
    handle-IsSettled (SipEvent.invite a req) s below = on_invite-IsSettled ps cfg a req s below
    handle-IsSettled (SipEvent.ack req) s below =
        on_found-IsSettled (lookup_entry req s) (λ i. update i put_ack) s
          (λ i. update-IsSettled i put_ack s (λ e h. (refl, h)))
    handle-IsSettled (SipEvent.bye req) s below =
        on_found-IsSettled (lookup_entry req s) take_bye s (λ i. take_bye-IsSettled i s)
    handle-IsSettled (SipEvent.cancel req) s below =
        on_found-IsSettled (lookup_entry req s) (end_entry EndReason.unset) s
          (λ i. hang_up-IsSettled EndReason.unset i s)
    handle-IsSettled (SipEvent.other req) s below = same-IsSettled s
    handle-IsSettled (SipEvent.awaited a i) s below =
        IsSettled-if (ltb i s.next && (s.entries i).awaiting) s _ s (await_arm-IsSettled a i s)
          (same-IsSettled s)
    handle-IsSettled (SipEvent.call_op i op) s below =
        update-IsSettled i (call_does op) s (λ e h. (refl, h))
    handle-IsSettled (SipEvent.done i) s below = call_done-IsSettled i s
    handle-IsSettled SipEvent.shut_down s below = close_server-IsSettled s

    handle_all-IsSettled :
        (evs : List SipEvent) (s : Server) → id < s.next → IsSettled s (handle_all ps cfg evs s)
    unfolding handle_all
    handle_all-IsSettled [] s below = same-IsSettled s
    handle_all-IsSettled (ev ∷ evs) s below =
        let v = handle-IsSettled ev s below in
        then-IsSettled s (handle ps cfg ev s) (handle_all ps cfg evs (handle ps cfg ev s)) v
          (handle_all-IsSettled evs (handle ps cfg ev s) (omega (arith, v.grows)))

take_bye-claims :
    (id : ℕ) (s : Server)
    → ((take_bye id s).next ≡ s.next)
      × (((take_bye id s).entries id).close_once ≡ true)
      × (((take_bye id s).entries id).byes ≡ (s.entries id).byes)
unfolding remove
take_bye-claims id s = ground arith

-- Once a BYE from the caller has found its call on a well-formed server, nothing that happens later, in
-- any order, makes the server send a BYE for that call: the number of BYEs sent for it stays as it was.
pub on_bye-last :
    (ps : Parsers) (cfg : Config) (evs : List SipEvent) (req : Request) (s : Server) (id : ℕ)
    → IsServer s
    → lookup_entry req s ≡ some id
    → ((handle_all ps cfg evs (on_bye req s)).entries id).byes ≡ (s.entries id).byes
unfolding on_bye
on_bye-last ps cfg evs req s id v found =
    let (k, l) = found_by_tag s req id v found in
    let (grown, claimed, same) = take_bye-claims id s in
    let after =
      handle_all-IsSettled id ps cfg evs (take_bye id s)
        (omega (arith, (v.tags k id l).0, grown)) in
    rw found ((after.mute claimed).0 ∙ same)
