-- ===== src/Names.antt =====
-- The names made from what a caller sends: sessionID of internal/sip/server.go, and cleanObjectPart
-- and RecordingObjectName of internal/calllog/calllog.go. Texts are bytes; a byte of a character
-- outside ASCII lies outside both classes, so the regular expressions act on bytes as on characters.
pub mod Safe
mod Tests
use sip_relay.Prelude.{
  ℕ, Bool, true, false, not, ◌&&◌, ◌||◌, List, [], ◌∷◌, ◌++◌, leb, ◌==◌, if◌then◌else◌, length,
  reverse,
}

abbrev pub dash : ℕ
dash = b'-'

is_alnum : ℕ → Bool
is_alnum c = (leb b'a' c && leb c b'z') || (leb b'A' c && leb c b'Z') || (leb b'0' c && leb c b'9')

-- `[a-zA-Z0-9_-]`, what `sessionIDCleaner` leaves
unfoldable pub is_session_char : ℕ → Bool
unfolding is_alnum
is_session_char c = is_alnum c || c == b'_' || c == dash

-- `[a-zA-Z0-9._=-]`, what `objectPartCleaner` leaves
unfoldable pub is_object_char : ℕ → Bool
unfolding is_alnum
is_object_char c = is_alnum c || c == b'.' || c == b'_' || c == b'=' || c == dash

module _ (keep : ℕ → Bool) where
  -- `ReplaceAllString(raw, "-")`: each longest run of other bytes becomes one dash. The flag says that
  -- the byte before belongs to such a run.
  pub replace_runs : Bool → List ℕ → List ℕ
  replace_runs in_run [] = []
  replace_runs in_run (c ∷ cs) =
      let rest = replace_runs (not (keep c)) cs in
      if keep c then c ∷ rest else if in_run then rest else dash ∷ rest

-- `strings.TrimLeft(s, "-")`
unfoldable pub trim_left : List ℕ → List ℕ
trim_left [] = []
trim_left (c ∷ cs) = let rest = trim_left cs in if c == dash then rest else c ∷ cs

-- `strings.Trim(s, "-")`
unfoldable pub trim : List ℕ → List ℕ
unfolding trim_left
trim s = reverse (trim_left (reverse (trim_left s)))

-- `strings.Join(parts, "-")`
unfoldable pub join : List (List ℕ) → List ℕ
join [] = []
join (p ∷ []) = p
join (p ∷ q ∷ ps) = p ++ (dash ∷ join (q ∷ ps))

-- `sessionID`; `tag` is what `randomTag` returns.
unfoldable pub session_id : List ℕ → List (List ℕ) → List ℕ → List ℕ
unfolding trim replace_runs join
session_id prefix parts tag =
    let clean = trim (replace_runs is_session_char false (join parts)) in
    let name = if length clean == 0 then tag else clean in
    if length prefix == 0 then name else prefix ++ (dash ∷ name)

abbrev pub unknown : List ℕ
unknown = b'u' ∷ b'n' ∷ b'k' ∷ b'n' ∷ b'o' ∷ b'w' ∷ b'n' ∷ []

-- `cleanObjectPart`
unfoldable pub clean_object_part : List ℕ → List ℕ
unfolding trim replace_runs
clean_object_part value =
    let clean = trim (replace_runs is_object_char false value) in
    if length clean == 0 then unknown else clean

abbrev pub ulaw : List ℕ
ulaw = b'.' ∷ b'u' ∷ b'l' ∷ b'a' ∷ b'w' ∷ []

-- `RecordingObjectName`
unfoldable pub recording_object_name : List ℕ → List ℕ
unfolding clean_object_part
recording_object_name call_id = clean_object_part call_id ++ ulaw
