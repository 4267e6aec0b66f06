-- ===== src/Names/Tests.antt =====
-- The names of a call from an ordinary phone.
use sip_relay.Prelude.{ℕ, List, [], ◌∷◌, arith, reverse}
use sip_relay.Names.{is_session_char, session_id}
use sip_relay.Names.Safe.{All, StartsClean, IsPrefix, IsTag, session_id-IsSafe}

abbrev prefix : List ℕ
prefix = b's' ∷ b'i' ∷ b'p' ∷ []

abbrev tag : List ℕ
tag = b'1' ∷ b'f' ∷ b'0' ∷ []

-- `-a@/b_` and `1f0`
abbrev parts : List (List ℕ)
parts = (b'-' ∷ b'a' ∷ b'@' ∷ b'/' ∷ b'b' ∷ b'_' ∷ []) ∷ tag ∷ []

prefix-IsPrefix : IsPrefix prefix
unfolding is_session_char
prefix-IsPrefix = record { safe = ground arith; some_byte = λ e. cc; starts_clean = ground arith }

tag-IsTag : IsTag tag
unfolding is_session_char
tag-IsTag = record { safe = ground arith; some_byte = λ e. cc; ends_clean = ground arith }

session_id-IsSafe_example :
    All is_session_char (session_id prefix parts tag)
    × StartsClean (session_id prefix parts tag)
    × StartsClean (reverse (session_id prefix parts tag))
session_id-IsSafe_example = session_id-IsSafe prefix parts tag prefix-IsPrefix tag-IsTag
