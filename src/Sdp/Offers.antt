-- ===== src/Sdp/Offers.antt =====
-- internal/sdp/sdp.go: parseOffer on any description, and on an answer.
use sip_relay.Prelude.{
  ℕ, suc, ◌-◌, ◌≡◌, refl, sym, ap, ◌∙◌, inl, inr, false, Option, none, some, List, [], ◌∷◌, arith,
  ◌==◌, length, Bool-cases,
}
use sip_relay.Prelude.Int.{ℤ, pos, negsuc, leb_ℤ}
use sip_relay.Sdp.{
  Text, MediaDescription, Description, Connection, Found, Offer, OfferError, Parsed, first_audio,
  connection_text, find_pcmu, with_address, with_payload, with_audio, parse_offer, answer, allowed,
  member, fields, fields_from, is_space, itoa,
}

-- Where the parts of an offer come from.
pub record IsOffer {A : Type 0} (parse_addr : Text → Option A) (d : Description) (o : Offer A)
    : Type 0 where
  pub medium : MediaDescription
  pub first : first_audio d.media ≡ some medium
  pub port : medium.port ≡ o.remote_port
  pub positive : (n : ℕ) × (o.remote_port ≡ pos (suc n))
  pub codec : find_pcmu medium ≡ Found.payload_type o.payload_type
  pub address : parse_addr (connection_text d.connection medium.connection) ≡ some o.remote_addr

positive_lem : (port : ℤ) → leb_ℤ port (pos 0) ≡ false → (n : ℕ) × (port ≡ pos (suc n))
positive_lem (pos n) h = (n - 1, ground arith)
positive_lem (negsuc n) h = absurd (ground arith)

module _ {A : Type 0} (parse_addr : Text → Option A) where
  with_address-ok :
      (t : Text) (port : ℤ) (pt : ℕ) (o : Offer A)
      → with_address parse_addr t port pt ≡ Parsed.ok o
      → (parse_addr t ≡ some o.remote_addr) × (port ≡ o.remote_port) × (pt ≡ o.payload_type)
  with_address-ok t port pt o h = ground arith

  with_payload-ok :
      (f : Found) (t : Text) (port : ℤ) (o : Offer A)
      → with_payload parse_addr f t port ≡ Parsed.ok o
      → (f ≡ Found.payload_type o.payload_type)
        × (port ≡ o.remote_port)
        × (parse_addr t ≡ some o.remote_addr)
  with_payload-ok Found.invalid_type t port o h = cc
  with_payload-ok Found.no_pcmu t port o h = cc
  with_payload-ok (Found.payload_type pt) t port o h =
      let (a, b, c) = with_address-ok t port pt o h in (ap Found.payload_type c, b, a)

  with_audio-ok :
      (d : Description) (m : Option MediaDescription) (o : Offer A)
      → first_audio d.media ≡ m
      → with_audio parse_addr d.connection m ≡ Parsed.ok o
      → IsOffer parse_addr d o
  with_audio-ok d none o e h = cc
  with_audio-ok d (some md) o e h = elim (Bool-cases (leb_ℤ md.port (pos 0))) [
    | inl bad ↦ let wrong : Parsed.error OfferError.bad_port ≡ Parsed.ok o = rw bad at h in cc wrong
    | inr good ↦
        let (f, p, a) =
          with_payload-ok (find_pcmu md) (connection_text d.connection md.connection) md.port o
            (rw good at h) in
        let (n, up) = positive_lem md.port good in
        record {
          medium = md;
          first = e;
          port = p;
          positive = (n, sym p ∙ up);
          codec = f;
          address = a;
        }
  ]

  parse_offer-media :
      (session : Option Connection) (media : List MediaDescription) (o : Offer A)
      → parse_offer parse_addr (record { connection = session; media = media }) ≡ Parsed.ok o
      → IsOffer parse_addr (record { connection = session; media = media }) o
  unfolding parse_offer
  parse_offer-media session [] o h = cc
  parse_offer-media session (md ∷ mds) o h =
      with_audio-ok (record { connection = session; media = md ∷ mds }) (first_audio (md ∷ mds)) o
        refl h

  -- An offer that is accepted has the port, which is positive, and the payload type of the first audio
  -- medium, and the address of that medium, or of the session if the medium has none.
  pub parse_offer-IsOffer :
      (d : Description) (o : Offer A)
      → parse_offer parse_addr d ≡ Parsed.ok o
      → IsOffer parse_addr d o
  parse_offer-IsOffer d o h = parse_offer-media d.connection d.media o h

  -- The answer that the relay gives for payload type 0, read as an offer, is accepted: it has the
  -- advertised address, the media port and payload type 0.
  pub answer-parse_offer :
      (address : Text) (a : A) (port : ℕ)
      → parse_addr address ≡ some a
      → (length address == 0) ≡ false
      → parse_offer parse_addr (answer address (pos (suc port)) 0)
        ≡ Parsed.ok (record { remote_addr = a; remote_port = pos (suc port); payload_type = 0 })
  unfolding parse_offer answer first_audio find_pcmu allowed fields fields_from is_space member itoa
  answer-parse_offer address a port e h = rw (h, e) (ground arith)
