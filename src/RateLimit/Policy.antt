-- ===== src/RateLimit/Policy.antt =====
-- infrastructure/http/rate_limit.py: RateLimitPolicy, and the regular expressions it uses.
use vox_forge.Common.{
  ℕ, ◌-◌, String, Text, Bool, true, false, Option, none, some, List, [], ◌∷◌, ◌++◌, map, not, ◌&&◌,
  ◌||◌, ◌==◌, leb, any, codes, text_eq, starts_with, if◌then◌else◌, is_empty, drop, length, take,
  all,
}

pub data FailMode : Type 0 where
  fail_open fail_closed : FailMode

-- A regular expression of the form `^before[^/]+after$`, which all of the table's are.
pub record PathRegex : Type 0 where
  pub before : Text
  pub after : Text

-- What is left after the longest prefix without a slash.
unfoldable pub from_slash : Text → Text
from_slash [] = []
from_slash (c ∷ path) = let rest = from_slash path in if c == 47 then c ∷ path else rest

-- `after` begins with a slash, so `[^/]+` takes the longest prefix without one. `$` also matches
-- in front of a final newline.
unfoldable pub search : PathRegex → Text → Bool
unfolding from_slash
search r path =
    starts_with r.before path
    && (let rest = drop (length r.before) path in
        not (is_empty rest)
        && not (starts_with (codes "/") rest)
        && (text_eq (from_slash rest) r.after || text_eq (from_slash rest) (r.after ++ 10 ∷ [])))

pub record RateLimitPolicy : Type 0 where
  pub category : String
  pub path_prefixes : List Text
  pub path_regex : Option PathRegex
  pub methods : Option (List Text)
  pub sustained_per_minute : ℕ
  pub burst_per_10_seconds : ℕ
  pub fail_mode : FailMode
  pub org_sustained_per_minute : Option ℕ
  pub org_burst_per_10_seconds : Option ℕ
  pub session_sustained_per_minute : Option ℕ
  pub session_burst_per_10_seconds : Option ℕ

-- `str.upper` of an HTTP method, which is ASCII.
unfoldable pub upper : Text → Text
upper = map (λ c. if leb 97 c && leb c 122 then c - 32 else c)

abbrev pub allows_method : Option (List Text) → Text → Bool
allows_method none m = true
allows_method (some ms) m = any (λ allowed. text_eq allowed (upper m)) ms

abbrev pub regex_matches : Option PathRegex → Text → Bool
unfolding search
regex_matches none path = false
regex_matches (some r) path = search r path

unfoldable pub matches : RateLimitPolicy → Text → Text → Bool
matches policy method path =
    allows_method policy.methods method
    && (regex_matches policy.path_regex path
        || any (λ prefix. starts_with prefix path) policy.path_prefixes)

-- _SESSION_ID_RE: `/api/v1/(?:sessions|livekit/sessions)/([0-9a-fA-F-]{36})`
abbrev pub is_hex_or_dash : ℕ → Bool
is_hex_or_dash c =
    (leb 48 c && leb c 57) || (leb 97 c && leb c 102) || (leb 65 c && leb c 70) || c == 45

-- The group of a match that starts with this prefix.
unfoldable pub id_after : Text → Text → Option Text
id_after prefix path =
    let id = take 36 (drop (length prefix) path) in
    if starts_with prefix path && length id == 36 && all is_hex_or_dash id then some id else none

-- The first position at which the expression matches.
unfoldable pub extract_session_id : Text → Option Text
extract_session_id [] = none
extract_session_id (c ∷ path) =
    let later = extract_session_id path in
    elim (id_after (codes "/api/v1/sessions/") (c ∷ path)) [
      | some id ↦ some id
      | none ↦ elim (id_after (codes "/api/v1/livekit/sessions/") (c ∷ path)) [
        | some id ↦ some id
        | none ↦ later
      ]
    ]
