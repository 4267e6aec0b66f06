-- ===== src/Sip/Bye.antt =====
-- internal/sip/server.go: the BYE of the server, newServerBYE and sendBYE, and the headers of a request
-- as the call keeps them. A URI is of any type U; sipgo's view of it is in `Uris`.
pub mod Mirror
pub mod Sending
mod Tests
use Prim.Native.String.{String}
use text.Mathlib.Text.{◌==◌ as str_eq}
use sip_relay.Prelude.{
  ℕ, suc, ◌+◌, ◌%◌, ◌^◌, Bool, true, false, not, ◌&&◌, ◌||◌, Option, none, some, List, [], ◌∷◌,
  ◌++◌, map, leb, if◌then◌else◌,
}
use sip_relay.Prelude.Maps.{lookup, insert}

-- `HostPort`, and the address in a Route header if it parses.
pub record Uris (U : Type 0) : Type 0 where
  pub host_port : U → String
  pub route_address : String → Option U

-- A From or To header.
pub record Party (U : Type 0) : Type 0 where
  pub display_name : String
  pub address : U
  pub params : List (String × String)

-- What newServerBYE reads of an INVITE, and the To that `onInvite` answers with.
pub record Invite (U : Type 0) : Type 0 where
  pub recipient : U
  pub sip_version : String
  pub contact : Option U
  pub from : Option (Party U)
  pub to : Option (Party U)
  pub record_routes : List String
  pub call_id : Option String
  pub cseq : Option ℕ  -- uint32
  pub transport : String

-- What it reads of the 200.
pub record Accepted (U : Type 0) : Type 0 where
  pub to : Option (Party U)
  pub contact : Option String

-- `dialog`
pub record Dialog (U : Type 0) : Type 0 where
  pub invite : Option (Invite U)
  pub ok : Option (Accepted U)

-- The headers of a BYE.
pub data Header (U : Type 0) : Type 0 where
  route : String → Header U
  max_forwards : ℕ → Header U
  from_header to_header : Party U → Header U
  call_id_header : String → Header U
  cseq_header : ℕ → Header U
  contact_header : String → Header U

-- A BYE request.
pub record Bye (U : Type 0) : Type 0 where
  pub recipient : U
  pub sip_version : String
  pub headers : List (Header U)
  pub transport : String
  pub destination : String

abbrev pub next_cseq : Option ℕ → ℕ
next_cseq none = 1
next_cseq (some n) = (n + 1) % 2 ^ 32

module _ {U : Type 0} where
  -- The tag that `onInvite` adds to the To of its response.
  unfoldable pub tagged : String → Party U → Party U
  tagged tag p = record p { params = insert "tag" tag p.params }

  abbrev pub tagged_to : String → Option (Party U) → Option (Party U)
  tagged_to tag none = none
  tagged_to tag (some to) = some (tagged tag to)

  -- The dialog of an INVITE that `onInvite` answers with this tag and Contact.
  unfoldable pub dialog_of : String → String → Invite U → Dialog U
  unfolding tagged
  dialog_of tag contact invite = record {
    invite = some invite;
    ok = some (record { to = tagged_to tag invite.to; contact = some contact });
  }

  abbrev from_address : U → Option (Party U) → U
  from_address fallback none = fallback
  from_address fallback (some p) = p.address

  -- The recipient: the caller's Contact, else its From, else the INVITE's own.
  abbrev pub recipient_of : Option U → Invite U → U
  recipient_of none invite = from_address invite.recipient invite.from
  recipient_of (some contact) invite = contact

  -- A header for what may be there.
  abbrev pub header_if : {A : Type 0} → (A → Header U) → Option A → List (Header U)
  header_if make none = []
  header_if make (some a) = make a ∷ []

  abbrev pub headers_of : Invite U → Accepted U → List (Header U)
  headers_of invite ok =
      map route invite.record_routes
      ++ (max_forwards 70
          ∷ (header_if from_header ok.to
              ++ (header_if to_header invite.from
                  ++ (header_if call_id_header invite.call_id
                      ++ (cseq_header (next_cseq invite.cseq)
                          ∷ header_if contact_header ok.contact)))))

  -- The value of the first Route header.
  abbrev pub first_route : List (Header U) → Option String
  first_route [] = none
  first_route (route value ∷ hs) = some value
  first_route (h ∷ hs) = first_route hs

  module _ (uris : Uris U) where
    abbrev pub parsed_route : Option String → Option U
    parsed_route none = none
    parsed_route (some value) = uris.route_address value

    abbrev pub destination_of : Option U → U → String
    destination_of none recipient = uris.host_port recipient
    destination_of (some address) recipient = uris.host_port address

    abbrev pub bye_of : Invite U → Accepted U → Bye U
    bye_of invite ok =
        let recipient = recipient_of invite.contact invite in
        let headers = headers_of invite ok in
        record {
          recipient = recipient;
          sip_version = invite.sip_version;
          headers = headers;
          transport = invite.transport;
          destination = destination_of (parsed_route (first_route headers)) recipient;
        }

    -- `newServerBYE`
    unfoldable pub new_server_bye : Option (Dialog U) → Option (Bye U)
    new_server_bye none = none
    new_server_bye (some d) = elim d.invite [
      | none ↦ none
      | some invite ↦ elim d.ok [ none ↦ none | some ok ↦ some (bye_of invite ok) ]
    ]

-- What the loop of `sendBYE` meets: a response with its status, nil for a closed channel; the end of
-- the transaction; or the timer.
pub data Wait : Type 0 where
  response : Option ℕ → Wait
  tx_done timer : Wait

abbrev pub is_final : Wait → Bool
is_final (response none) = false
is_final (response (some status)) = leb 200 status
is_final tx_done = true
is_final timer = true

-- The loop of `sendBYE`: whether it still waits.
unfoldable pub wait_bye : List Wait → Bool
wait_bye [] = true
wait_bye (w ∷ ws) = let rest = wait_bye ws in if is_final w then false else rest

-- What `sendBYE` has done: the requests that it sent, whether it has ended the transaction, and whether
-- it still waits.
pub record Sent (U : Type 0) : Type 0 where
  pub requests : List (Bye U)
  pub terminated : Bool
  pub waiting : Bool

module _ {U : Type 0} where
  abbrev pub nothing_sent : Sent U
  nothing_sent = record { requests = []; terminated = false; waiting = false }

  abbrev pub sent_if : Option (Bye U) → (Bye U → Bool) → List Wait → Sent U
  sent_if none takes waits = nothing_sent
  sent_if (some bye) takes waits =
      if takes bye
      then (record {
        requests = bye ∷ [];
        terminated = not (wait_bye waits);
        waiting = wait_bye waits;
      })
      else nothing_sent

  -- `sendBYE`; `takes` is whether sipgo opens a transaction for the request.
  unfoldable pub send_bye : Uris U → Bool → Option (Dialog U) → (Bye U → Bool) → List Wait → Sent U
  unfolding new_server_bye wait_bye
  send_bye uris has_client d takes waits =
      if has_client then sent_if (new_server_bye uris d) takes waits else nothing_sent

abbrev pub old_values : Option (List String) → List String
old_values none = []
old_values (some values) = values

-- The loop of `headers`.
unfoldable pub collect :
    List (String × String) → List (String × List String) → List (String × List String)
collect [] out = out
collect ((name, value) ∷ hs) out =
    collect hs (insert name (old_values (lookup name out) ++ (value ∷ [])) out)

-- `headers`
unfoldable pub headers : List (String × String) → List (String × List String)
unfolding collect
headers hs = collect hs []
