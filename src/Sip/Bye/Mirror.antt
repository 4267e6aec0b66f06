-- ===== src/Sip/Bye/Mirror.antt =====
-- internal/sip/server.go: what the server's BYE says of its dialog, and when it is sent.
use Prim.Native.String.{String}
use sip_relay.Prelude.{
  ℕ, suc, ◌<◌, ◌^◌, ◌==◌, ◌≡◌, arith, if◌then◌else◌, refl, ap, ap₂, ◌∙◌, Option, none, some, List,
  [], ◌∷◌, ◌++◌, map, append-nil,
}
use sip_relay.Prelude.Maps.{lookup, lookup-insert}
use sip_relay.Sip.Bye.{
  Uris, Party, Invite, Header, Bye, tagged, dialog_of, recipient_of, header_if, from_address,
  next_cseq, tagged_to, headers_of, first_route, parsed_route, destination_of, new_server_bye,
}

abbrev pub option_list : Option String → List String
option_list none = []
option_list (some c) = c ∷ []

-- The number after the INVITE's, which wraps round at 2^32; 1 for an INVITE without one.
abbrev pub number_after : Option ℕ → ℕ
number_after none = 1
number_after (some n) = if n == 4294967295 then 0 else suc n

-- The range of a uint32.
abbrev pub InRange : Option ℕ → Type 0
InRange none = Unit
InRange (some n) = n < 2 ^ 32

next_cseq_lem : (cseq : Option ℕ) → InRange cseq → next_cseq cseq ≡ number_after cseq
next_cseq_lem none h = refl
next_cseq_lem (some n) h = ground arith

module _ {U : Type 0} where
  -- What each kind of header says, in order.
  abbrev pub routes : List (Header U) → List String
  routes [] = []
  routes (Header.route r ∷ hs) = r ∷ routes hs
  routes (h ∷ hs) = routes hs

  abbrev pub froms : List (Header U) → List (Party U)
  froms [] = []
  froms (Header.from_header p ∷ hs) = p ∷ froms hs
  froms (h ∷ hs) = froms hs

  abbrev pub tos : List (Header U) → List (Party U)
  tos [] = []
  tos (Header.to_header p ∷ hs) = p ∷ tos hs
  tos (h ∷ hs) = tos hs

  abbrev pub call_ids : List (Header U) → List String
  call_ids [] = []
  call_ids (Header.call_id_header c ∷ hs) = c ∷ call_ids hs
  call_ids (h ∷ hs) = call_ids hs

  abbrev pub cseqs : List (Header U) → List ℕ
  cseqs [] = []
  cseqs (Header.cseq_header n ∷ hs) = n ∷ cseqs hs
  cseqs (h ∷ hs) = cseqs hs

  -- Routes in front of the other headers.
  module _ {X : Type 0} (part : List (Header U) → List X)
      (skips : (r : String) (hs : List (Header U)) → part (Header.route r ∷ hs) ≡ part hs) where
    behind_routes :
        (rs : List String) (hs : List (Header U)) → part (map Header.route rs ++ hs) ≡ part hs
    behind_routes [] hs = refl
    behind_routes (r ∷ rs) hs = skips r (map Header.route rs ++ hs) ∙ behind_routes rs hs

  routes_in_front :
      (rs : List String) (hs : List (Header U))
      → routes (map Header.route rs ++ hs) ≡ rs ++ routes hs
  routes_in_front [] hs = refl
  routes_in_front (r ∷ rs) hs = ap (λ t. r ∷ t) (routes_in_front rs hs)

  -- The headers behind the routes, with the parties known.
  abbrev others : Party U → Party U → Option String → ℕ → String → List (Header U)
  others from to call_id cseq contact =
      Header.max_forwards 70
      ∷ Header.from_header from
      ∷ Header.to_header to
      ∷ (header_if Header.call_id_header call_id
          ++ (Header.cseq_header cseq ∷ Header.contact_header contact ∷ []))

  module _ (from to : Party U) (cseq : ℕ) (contact : String) where
    others-parts :
        (call_id : Option String)
        → let hs = others from to call_id cseq contact in
          (froms hs ≡ from ∷ [])
          × (tos hs ≡ to ∷ [])
          × (call_ids hs ≡ option_list call_id)
          × (cseqs hs ≡ cseq ∷ [])
          × (routes hs ≡ [])
          × (first_route hs ≡ none)
    others-parts none = (refl, refl, refl, refl, refl, refl)
    others-parts (some c) = (refl, refl, refl, refl, refl, refl)

  target_of :
      (o : Option U) (invite : Invite U) (from : Party U)
      → invite.from ≡ some from
      → recipient_of o invite ≡ elim o [ none ↦ from.address | some c ↦ c ]
  target_of none invite from f = ap (from_address invite.recipient) f
  target_of (some c) invite from f = refl

  -- A BYE within the dialog of an INVITE that was answered with a tag.
  pub record IsMirror (uris : Uris U) (tag : String) (invite : Invite U) (from to : Party U)
      (b : Bye U) : Type 0 where
    pub local : Party U
    pub from_local : froms b.headers ≡ local ∷ []
    pub local_address : local.address ≡ to.address
    pub local_tag : lookup "tag" local.params ≡ some tag
    pub to_remote : tos b.headers ≡ from ∷ []
    pub same_call : call_ids b.headers ≡ option_list invite.call_id
    pub next_number : cseqs b.headers ≡ number_after invite.cseq ∷ []
    pub same_routes : routes b.headers ≡ invite.record_routes
    pub target : b.recipient ≡ elim invite.contact [ none ↦ from.address | some c ↦ c ]
    pub unrouted : invite.record_routes ≡ [] → b.destination ≡ uris.host_port b.recipient

  -- For every INVITE with a From and a To, the BYE of the dialog that the server has answered with a tag
  -- swaps the parties: its one From is the INVITE's To with that tag, its one To the INVITE's From;
  -- it has the Call-ID of the INVITE, as its CSeq the uint32 after the INVITE's, or 1, and the recorded routes in order, its
  -- target is the caller's Contact, or else the address of the From, and without routes it goes there.
  pub new_server_bye-IsMirror :
      (uris : Uris U) (tag contact : String) (invite : Invite U) (from to : Party U)
      → invite.from ≡ some from
      → invite.to ≡ some to
      → InRange invite.cseq
      → (b : Bye U) × (new_server_bye uris (some (dialog_of tag contact invite)) ≡ some b)
        × IsMirror uris tag invite from to b
  unfolding new_server_bye dialog_of tagged
  new_server_bye-IsMirror uris tag contact invite from to f t in_range =
      let hs = others (tagged tag to) from invite.call_id (next_cseq invite.cseq) contact in
      let rs = invite.record_routes in
      let known : headers_of invite
            (record { to = tagged_to tag invite.to; contact = some contact })
          ≡ map Header.route rs ++ hs =
        ap₂
          (λ (x y : Option (Party U)).
            map Header.route rs
            ++ (Header.max_forwards 70
                ∷ (header_if Header.from_header (tagged_to tag x)
                    ++ (header_if Header.to_header y
                        ++ (header_if Header.call_id_header invite.call_id
                            ++ (Header.cseq_header (next_cseq invite.cseq)
                                ∷ Header.contact_header contact
                                ∷ []))))))
          t f in
      let (froms_hs, tos_hs, ids_hs, cseqs_hs, routes_hs, first_hs) =
        others-parts (tagged tag to) from (next_cseq invite.cseq) contact invite.call_id in
      (
        _,
        refl,
        record {
          local = tagged tag to;
          from_local = ap froms known ∙ behind_routes froms (λ r l. refl) rs hs ∙ froms_hs;
          local_address = refl;
          local_tag = lookup-insert "tag" "tag" tag to.params;
          to_remote = ap tos known ∙ behind_routes tos (λ r l. refl) rs hs ∙ tos_hs;
          same_call = ap call_ids known ∙ behind_routes call_ids (λ r l. refl) rs hs ∙ ids_hs;
          next_number =
              ap cseqs known
              ∙ behind_routes cseqs (λ r l. refl) rs hs
              ∙ cseqs_hs
              ∙ ap (λ n. n ∷ []) (next_cseq_lem invite.cseq in_range);
          same_routes =
              ap routes known ∙ routes_in_front rs hs ∙ ap (λ l. rs ++ l) routes_hs ∙ append-nil rs;
          target = target_of invite.contact invite from f;
          unrouted = λ h.
              let recipient = recipient_of invite.contact invite in
              let goes = λ (l : List (Header U)).
                destination_of uris (parsed_route uris (first_route l)) recipient in
              ap goes (known ∙ ap (λ l. map Header.route l ++ hs) h)
              ∙ ap (λ o. destination_of uris (parsed_route uris o) recipient) first_hs;
        },
      )
