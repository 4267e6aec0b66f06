-- ===== src/Sip/Bye/Tests.antt =====
-- A call whose URIs are numbers, ended by the server.
use sip_relay.Prelude.{ℕ, ◌≡◌, arith, refl, true, none, some, List, [], ◌∷◌}
use sip_relay.Sip.Bye.{Uris, Party, Invite, Bye, dialog_of, new_server_bye, Wait, wait_bye}
use sip_relay.Sip.Bye.Mirror.{IsMirror, new_server_bye-IsMirror}

abbrev uris : Uris ℕ
uris = record { host_port = λ u. "host"; route_address = λ r. some 9 }

abbrev alice : Party ℕ
alice = record { display_name = "Alice"; address = 1; params = ("tag", "a1") ∷ [] }

abbrev bot : Party ℕ
bot = record { display_name = ""; address = 2; params = [] }

abbrev invite : Invite ℕ
invite = record {
  recipient = 2;
  sip_version = "SIP/2.0";
  contact = none;
  from = some alice;
  to = some bot;
  record_routes = "<sip:p1>" ∷ "<sip:p2>" ∷ [];
  call_id = some "c1";
  cseq = some 4294967295;
  transport = "UDP";
}

new_server_bye-IsMirror_example :
    (b : Bye ℕ) × (new_server_bye uris (some (dialog_of "t1" "me" invite)) ≡ some b)
    × IsMirror uris "t1" invite alice bot b
new_server_bye-IsMirror_example =
    new_server_bye-IsMirror uris "t1" "me" invite alice bot refl refl (omega arith)

abbrev waits : List Wait
waits = Wait.response (some 100) ∷ Wait.response none ∷ Wait.response (some 481) ∷ []

still_waits : wait_bye (Wait.response (some 180) ∷ []) ≡ true
unfolding wait_bye
still_waits = refl
