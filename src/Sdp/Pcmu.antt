-- ===== src/Sdp/Pcmu.antt =====
-- What findPCMU finds.
use sip_relay.Prelude.{
  ℕ, ◌≡◌, refl, sym, subst, ◌∙◌, ◌⊎◌, inl, inr, true, false, Option, none, some, List, [], ◌∷◌,
  Bool-cases, Option-cases,
}
use sip_relay.Sdp.{
  Text, Attribute, MediaDescription, Found, allowed, member, zero_format, mapped, parse_uint8,
  found_type, scan, find_pcmu,
}
use sip_relay.Sdp.Mapping.{
  IsOffered, Maps, MapsNone, IsUint8, mapped-some, mapped-none, parse_uint8-some, parse_uint8-none,
  offered_iff,
}

-- The attributes up to the first one that maps an offered format to PCMU/8000, which is `w`.
pub data FirstMapped (formats : List Text) (w : Text) : List Attribute → Type 0 where
  here :
      (a : Attribute) (attrs : List Attribute)
      → Maps formats a w
      → FirstMapped formats w (a ∷ attrs)
  later :
      (a : Attribute) (attrs : List Attribute)
      → MapsNone formats a
      → FirstMapped formats w attrs
      → FirstMapped formats w (a ∷ attrs)

abbrev pub NoneMapped : List Text → List Attribute → Type 0
NoneMapped formats [] = Unit
NoneMapped formats (a ∷ attrs) = MapsNone formats a × NoneMapped formats attrs

-- What the result says of the formats and the attributes.
abbrev pub Scanned : List Text → List Attribute → Found → Type 0
Scanned formats attrs (Found.payload_type n) =
    (w : Text) × FirstMapped formats w attrs × IsUint8 w n
Scanned formats attrs Found.invalid_type =
    (w : Text) × FirstMapped formats w attrs × ((n : ℕ) → ¬ IsUint8 w n)
Scanned formats attrs Found.no_pcmu = NoneMapped formats attrs

abbrev pub IsChoice : MediaDescription → Found → Type 0
IsChoice md (Found.payload_type n) =
    ((n ≡ 0) × IsOffered (b'0' ∷ []) md.formats)
    ⊎ (¬ IsOffered (b'0' ∷ []) md.formats × Scanned md.formats md.attributes (Found.payload_type n))
IsChoice md Found.invalid_type =
    ¬ IsOffered (b'0' ∷ []) md.formats × Scanned md.formats md.attributes Found.invalid_type
IsChoice md Found.no_pcmu =
    ¬ IsOffered (b'0' ∷ []) md.formats × Scanned md.formats md.attributes Found.no_pcmu

found_lem :
    (formats : List Text) (attrs : List Attribute) (w : Text) (o : Option ℕ)
    → FirstMapped formats w attrs
    → parse_uint8 w ≡ o
    → Scanned formats attrs (found_type o)
found_lem formats attrs w none f e = (w, f, parse_uint8-none w e)
found_lem formats attrs w (some n) f e = (w, f, parse_uint8-some w n e)

Scanned-later :
    (formats : List Text) (a : Attribute) (attrs : List Attribute) (r : Found)
    → MapsNone formats a
    → Scanned formats attrs r
    → Scanned formats (a ∷ attrs) r
Scanned-later formats a attrs (Found.payload_type n) e (w, f, p) =
    (w, FirstMapped.later a attrs e f, p)
Scanned-later formats a attrs Found.invalid_type e (w, f, p) = (w, FirstMapped.later a attrs e f, p)
Scanned-later formats a attrs Found.no_pcmu e v = (e, v)

scan_lem : (fs : List Text) (attrs : List Attribute) → Scanned fs attrs (scan (allowed fs) attrs)
unfolding scan
scan_lem fs [] = tt
scan_lem fs (a ∷ attrs) = elim (Option-cases (mapped (allowed fs) a)) [
  | inl e ↦
      subst (Scanned fs (a ∷ attrs)) (sym (rw (e, scan) refl)) (
        Scanned-later fs a attrs (scan (allowed fs) attrs) (mapped-none fs a e) (scan_lem fs attrs))
  | inr (w, e) ↦ subst (Scanned fs (a ∷ attrs)) (sym (rw (e, scan) refl)) (
      found_lem fs (a ∷ attrs) w (parse_uint8 w) (FirstMapped.here a attrs (mapped-some fs a w e))
        refl)
]

choice_lem :
    (md : MediaDescription) (r : Found)
    → ¬ IsOffered zero_format md.formats
    → Scanned md.formats md.attributes r
    → IsChoice md r
choice_lem md (Found.payload_type n) z v = inr (z, v)
choice_lem md Found.invalid_type z v = (z, v)
choice_lem md Found.no_pcmu z v = (z, v)

-- findPCMU answers 0 if the format 0 is offered, as a word of a format. Else it answers the number, at most
-- 255 in decimal digits, of the offered format that the first rtpmap attribute names which maps an offered
-- format to PCMU/8000, in any case and with or without a slash and more behind it; or it returns an error
-- if that format is no such number; and it finds no PCMU only if there is no such attribute.
pub find_pcmu-IsChoice : (md : MediaDescription) → IsChoice md (find_pcmu md)
unfolding find_pcmu
find_pcmu-IsChoice md =
    let zero_iff = offered_iff zero_format md.formats in
    elim (Bool-cases (member zero_format (allowed md.formats))) [
      | inl z ↦ rw z (inl (refl, zero_iff.0 z))
      | inr z ↦
          let absent : ¬ IsOffered zero_format md.formats =
            λ o. let wrong : false ≡ true = sym z ∙ zero_iff.1 o in cc wrong in
          rw z (
            choice_lem md (scan (allowed md.formats) md.attributes) absent
              (scan_lem md.formats md.attributes))
    ]
