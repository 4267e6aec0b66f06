-- ===== src/Sdp.antt =====
-- internal/sdp/sdp.go: the choice of PCMU in an SDP offer, and the answer. A description is what pion's
-- parser makes of the bytes; a text is its code points, with the white space of Unicode. `parse_addr` is
-- netip.ParseAddr.
pub mod Mapping
pub mod Pcmu
pub mod Offers
mod Tests
use sip_relay.Prelude.{
  ℕ, ◌+◌, ◌-◌, ◌*◌, ◌/◌, ◌%◌, Bool, true, false, not, ◌&&◌, ◌||◌, Option, none, some, List, [], ◌∷◌,
  ◌++◌, ltb, leb, ◌==◌, if◌then◌else◌, length,
}
use sip_relay.Prelude.Int.{ℤ, pos, leb_ℤ}

abbrev pub Text : Type 0
Text = List ℕ

-- `==` on texts, and `strings.HasPrefix`
abbrev pub same_text : Text → Text → Bool
same_text [] [] = true
same_text [] (d ∷ ds) = false
same_text (c ∷ cs) [] = false
same_text (c ∷ cs) (d ∷ ds) = let rest = same_text cs ds in (c == d) && rest

abbrev pub has_prefix : Text → Text → Bool
has_prefix s [] = true
has_prefix [] (p ∷ ps) = false
has_prefix (c ∷ cs) (p ∷ ps) = let rest = has_prefix cs ps in (c == p) && rest

-- `ConnectionInformation` with its address, which may be missing.
pub record Connection : Type 0 where
  pub address : Option Text

pub record Attribute : Type 0 where
  pub key : Text
  pub value : Text

-- The parts of `MediaDescription` and `SessionDescription` that are read or written.
pub record MediaDescription : Type 0 where
  pub media : Text
  pub port : ℤ
  pub protos : List Text
  pub formats : List Text
  pub attributes : List Attribute
  pub connection : Option Connection

pub record Description : Type 0 where
  pub connection : Option Connection
  pub media : List MediaDescription

-- `unicode.IsSpace`
unfoldable pub is_space : ℕ → Bool
is_space c =
    (leb 9 c && leb c 13)
    || c == 32
    || c == 0x85
    || c == 0xa0
    || c == 0x1680
    || (leb 0x2000 c && leb c 0x200a)
    || c == 0x2028
    || c == 0x2029
    || c == 0x202f
    || c == 0x205f
    || c == 0x3000

-- `strings.Fields`, with the word that has begun.
unfoldable pub fields_from : Text → Text → List Text
fields_from word [] = if length word == 0 then [] else word ∷ []
fields_from word (c ∷ cs) = elim (is_space c) [
  | false ↦ fields_from (word ++ (c ∷ [])) cs
  | true ↦ let rest = fields_from [] cs in if length word == 0 then rest else word ∷ rest
]

unfoldable pub fields : Text → List Text
unfolding fields_from
fields s = fields_from [] s

-- `strings.ToUpper` as far as a comparison with ASCII capitals P, C, M and U can tell.
abbrev upper : ℕ → ℕ
upper c = if leb b'a' c && leb c b'z' then c - 32 else c

unfoldable pub to_upper : Text → Text
to_upper [] = []
to_upper (c ∷ cs) = upper c ∷ to_upper cs

-- `strconv.ParseUint(s, 10, 8)`, with the value of the digits so far.
abbrev is_digit : ℕ → Bool
is_digit c = leb b'0' c && leb c b'9'

unfoldable pub digits_from : ℕ → Text → Option ℕ
digits_from n [] = if leb n 255 then some n else none
digits_from n (c ∷ cs) =
    let rest = digits_from (10 * n + (c - b'0')) cs in if is_digit c then rest else none

unfoldable pub parse_uint8 : Text → Option ℕ
unfolding digits_from
parse_uint8 s = if length s == 0 then none else digits_from 0 s

abbrev pub pcmu : Text
pcmu = b'P' ∷ b'C' ∷ b'M' ∷ b'U' ∷ b'/' ∷ b'8' ∷ b'0' ∷ b'0' ∷ b'0' ∷ []

abbrev pub rtpmap : Text
rtpmap = b'r' ∷ b't' ∷ b'p' ∷ b'm' ∷ b'a' ∷ b'p' ∷ []

abbrev pub zero_format : Text
zero_format = b'0' ∷ []

-- The set `allowed` of `findPCMU`, as the list of its members.
unfoldable pub allowed : List Text → List Text
allowed [] = []
allowed (f ∷ fs) = fields f ++ allowed fs

unfoldable pub member : Text → List Text → Bool
member w [] = false
member w (x ∷ xs) = let rest = member w xs in same_text x w || rest

abbrev pub is_pcmu : Text → Bool
is_pcmu codec = let up = to_upper codec in same_text up pcmu || has_prefix up (pcmu ++ (b'/' ∷ []))

-- What `findPCMU` returns: a payload type, or one of its two errors.
pub data Found : Type 0 where
  payload_type : ℕ → Found
  invalid_type : Found
  no_pcmu : Found

-- The format that an attribute maps to PCMU/8000, if it does and the format is allowed.
abbrev pub mapped_fields : List Text → List Text → Option Text
mapped_fields formats [] = none
mapped_fields formats (w ∷ []) = none
mapped_fields formats (w ∷ codec ∷ more) =
    if not (member w formats) then none else if is_pcmu codec then some w else none

abbrev pub mapped : List Text → Attribute → Option Text
mapped formats a =
    if not (same_text a.key rtpmap) then none else mapped_fields formats (fields a.value)

abbrev pub found_type : Option ℕ → Found
found_type none = Found.invalid_type
found_type (some n) = Found.payload_type n

-- The loop of `findPCMU` over the attributes.
unfoldable pub scan : List Text → List Attribute → Found
scan formats [] = Found.no_pcmu
scan formats (a ∷ attrs) = elim (mapped formats a) [
  | none ↦ scan formats attrs
  | some w ↦ found_type (parse_uint8 w)
]

-- `findPCMU`
unfoldable pub find_pcmu : MediaDescription → Found
find_pcmu md =
    let formats = allowed md.formats in
    if member zero_format formats then Found.payload_type 0 else scan formats md.attributes

abbrev pub audio : Text
audio = b'a' ∷ b'u' ∷ b'd' ∷ b'i' ∷ b'o' ∷ []

-- The loop of `parseOffer` for the first audio medium.
unfoldable pub first_audio : List MediaDescription → Option MediaDescription
first_audio [] = none
first_audio (md ∷ mds) =
    let rest = first_audio mds in if same_text md.media audio then some md else rest

-- `conn := media; if conn == nil { conn = session }`, and the text of its address, empty if missing.
abbrev address_text : Option Text → Text
address_text none = []
address_text (some t) = t

abbrev pub connection_text : Option Connection → Option Connection → Text
connection_text none none = []
connection_text (some c) none = address_text c.address
connection_text session (some c) = address_text c.address

-- `Offer`
pub record Offer (A : Type 0) : Type 0 where
  pub remote_addr : A
  pub remote_port : ℤ
  pub payload_type : ℕ

pub data OfferError : Type 0 where
  no_media no_audio bad_port bad_payload_type no_pcmu no_address bad_address : OfferError

pub data Parsed (A : Type 0) : Type 0 where
  ok : Offer A → Parsed A
  error : OfferError → Parsed A

module _ {A : Type 0} (parse_addr : Text → Option A) where
  -- `connectionAddress`, then the end of `parseOffer`
  abbrev pub with_address : Text → ℤ → ℕ → Parsed A
  with_address t port pt =
      if length t == 0 then Parsed.error OfferError.no_address else elim (parse_addr t) [
        | none ↦ Parsed.error OfferError.bad_address
        | some a ↦ Parsed.ok (record { remote_addr = a; remote_port = port; payload_type = pt })
      ]

  abbrev pub with_payload : Found → Text → ℤ → Parsed A
  with_payload Found.invalid_type t port = Parsed.error OfferError.bad_payload_type
  with_payload Found.no_pcmu t port = Parsed.error OfferError.no_pcmu
  with_payload (Found.payload_type pt) t port = with_address t port pt

  abbrev pub with_audio : Option Connection → Option MediaDescription → Parsed A
  with_audio session none = Parsed.error OfferError.no_audio
  with_audio session (some md) =
      if leb_ℤ md.port (pos 0)
      then Parsed.error OfferError.bad_port
      else with_payload (find_pcmu md) (connection_text session md.connection) md.port

  -- `parseOffer`
  unfoldable pub parse_offer : Description → Parsed A
  parse_offer d = elim d.media [
    | [] ↦ Parsed.error OfferError.no_media
    | md ∷ mds ↦ with_audio d.connection (first_audio d.media)
  ]

-- `strconv.Itoa` of a uint8.
unfoldable pub itoa : ℕ → Text
itoa n =
    if ltb n 10
    then (b'0' + n) ∷ []
    else if ltb n 100
    then (b'0' + n / 10) ∷ (b'0' + n % 10) ∷ []
    else (b'0' + n / 100) ∷ (b'0' + n / 10 % 10) ∷ (b'0' + n % 10) ∷ []

abbrev ptime : Attribute
ptime = record { key = b'p' ∷ b't' ∷ b'i' ∷ b'm' ∷ b'e' ∷ []; value = b'2' ∷ b'0' ∷ [] }

abbrev sendrecv : Attribute
sendrecv = record { key = b's' ∷ b'e' ∷ b'n' ∷ b'd' ∷ b'r' ∷ b'e' ∷ b'c' ∷ b'v' ∷ []; value = [] }

-- The answer that `AnswerOffer` builds, as far as an offer's reader looks at it. `address` is the
-- advertised address, printed.
unfoldable pub answer : Text → ℤ → ℕ → Description
unfolding itoa
answer address port pt = record {
  connection = some (record { address = some address });
  media =
      record {
        media = audio;
        port = port;
        protos = (b'R' ∷ b'T' ∷ b'P' ∷ []) ∷ (b'A' ∷ b'V' ∷ b'P' ∷ []) ∷ [];
        formats = itoa pt ∷ [];
        attributes =
            record { key = rtpmap; value = itoa pt ++ (b' ' ∷ pcmu) } ∷ ptime ∷ sendrecv ∷ [];
        connection = none;
      }
      ∷ [];
}

abbrev answered : {A : Type 0} → Parsed A → Text → ℤ → Option (Offer A × Description)
answered (Parsed.error e) address port = none
answered (Parsed.ok o) address port = some (o, answer address port o.payload_type)

-- `AnswerOffer`, between pion's `Unmarshal` and `Marshal`, which are taken to succeed.
unfoldable pub answer_offer :
    {A : Type 0} → (Text → Option A) → Description → Text → ℤ → Option (Offer A × Description)
answer_offer parse_addr offer address port = answered (parse_offer parse_addr offer) address port
