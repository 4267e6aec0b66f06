-- ===== src/Sdp/Tests.antt =====
-- An offer of PCMU and a dynamic format, and the answer to it.
use sip_relay.Prelude.{◌≡◌, refl, Option, none, some, [], ◌∷◌}
use sip_relay.Prelude.Int.{pos}
use sip_relay.Sdp.{
  Text, Description, MediaDescription, Offer, Parsed, audio, rtpmap, find_pcmu, parse_offer, answer,
  first_audio, allowed, fields, fields_from, is_space, member, scan, parse_uint8, digits_from,
  to_upper,
}
use sip_relay.Sdp.Pcmu.{IsChoice, find_pcmu-IsChoice}
use sip_relay.Sdp.Offers.{answer-parse_offer}

-- Every text is an address.
abbrev parse_addr : Text → Option Text
parse_addr t = some t

abbrev host : Text
host = b'h' ∷ []

-- Format 96, mapped to `pcmu/8000/1`.
abbrev medium : MediaDescription
medium = record {
  media = audio;
  port = pos 4000;
  protos = [];
  formats = (b'8' ∷ b' ' ∷ b'9' ∷ b'6' ∷ []) ∷ [];
  attributes =
      record {
        key = rtpmap;
        value =
            b'9' ∷ b'6' ∷ b' ' ∷ b'p' ∷ b'c' ∷ b'm' ∷ b'u' ∷ b'/' ∷ b'8' ∷ b'0' ∷ b'0' ∷ b'0' ∷ b'/'
            ∷ b'1' ∷ [];
      }
      ∷ [];
  connection = none;
}

abbrev offer : Description
offer = record { connection = some (record { address = some host }); media = medium ∷ [] }

find_pcmu-IsChoice_example : IsChoice medium (find_pcmu medium)
find_pcmu-IsChoice_example = find_pcmu-IsChoice medium

abbrev accepted : Offer Text
accepted = record { remote_addr = host; remote_port = pos 4000; payload_type = 96 }

parses : parse_offer parse_addr offer ≡ Parsed.ok accepted
unfolding parse_offer first_audio find_pcmu allowed fields fields_from is_space member scan
    parse_uint8 digits_from to_upper
parses = refl

answer-parse_offer_example :
    parse_offer parse_addr (answer host (pos 4000) 0)
    ≡ Parsed.ok (record { remote_addr = host; remote_port = pos 4000; payload_type = 0 })
answer-parse_offer_example = answer-parse_offer parse_addr host host 3999 refl refl
