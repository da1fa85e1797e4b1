-- ===== src/RateLimit/Enforce.antt =====
-- infrastructure/http/rate_limit.py: get_client_ip, the limits behind authentication, the limit on
-- WebSocket connections, and RateLimitMiddleware.dispatch.
use vox_forge.Common.{
  String, Text, true, false, Option, none, some, [], ◌∷◌, codes, is_empty, strip, if◌then◌else◌,
  not, ◌==◌,
}
use vox_forge.RateLimit.Policy.{RateLimitPolicy, extract_session_id}
use vox_forge.RateLimit.Table.{resolve_policy, get_policy_by_category}
use vox_forge.RateLimit.Limiter.{
  LimitSettings, RateLimitResult, Dimension, Server, check, check_ip, check_org, check_session,
  or_default,
}

-- What the limiter reads of a request.
pub record Request : Type 0 where
  pub method : Text
  pub path : Text
  -- the X-Forwarded-For header
  pub forwarded : Option Text
  pub client_host : Option Text

-- `s.split(",")[0]`
unfoldable pub before_comma : Text → Text
before_comma [] = []
before_comma (c ∷ s) = let rest = before_comma s in if c == 44 then [] else c ∷ rest

abbrev pub host_or_unknown : Option Text → Text
host_or_unknown none = codes "unknown"
host_or_unknown (some host) = host

unfoldable pub get_client_ip : Request → Text
unfolding before_comma
get_client_ip request = elim request.forwarded [
  | none ↦ host_or_unknown request.client_host
  | some forwarded ↦
      if is_empty forwarded
      then host_or_unknown request.client_host
      else strip (before_comma forwarded)
]

-- The status of a response, or the answer of the handler behind the limit.
pub data Response : Type 0 where
  too_many_requests unavailable : Response
  handled : Response

-- `_raise_or_response`: the exception that a result raises, if any
unfoldable pub raise_or_response : RateLimitResult → Option Response
raise_or_response result =
    if result.blocked
    then some Response.too_many_requests
    else if result.redis_error
    then some Response.unavailable
    else none

unfoldable pub dispatch : LimitSettings → Request → Server → Response × Server
dispatch settings request s =
    if not settings.rate_limit_enabled
    then (Response.handled, s)
    else elim (resolve_policy request.method request.path) [
      | none ↦ (Response.handled, s)
      | some policy ↦
          (let (result, s') = check_ip settings policy (get_client_ip request) s in
            (
              if result.blocked
                  then Response.too_many_requests
                  else if result.redis_error
                  then Response.unavailable
                  else Response.handled,
              s',
            ))
    ]

-- One step of the authenticated limits: the exception it raises, if any.
abbrev pub Step : Type 0
Step = Server → Option Response × Server

-- Steps in order, up to the first that raises.
infixl 5 ◌then_step◌
abbrev pub ◌then_step◌ : Step → Step → Step
◌then_step◌ a b s = let (raised, s') = a s in elim raised [ none ↦ b s' | some r ↦ (some r, s') ]

abbrev pub raised_by : Option RateLimitResult → Option Response
unfolding raise_or_response
raised_by none = none
raised_by (some result) = raise_or_response result

abbrev pub org_step : LimitSettings → RateLimitPolicy → Text → Step
org_step settings policy org_id s =
    let (result, s') = check_org settings policy org_id s in (raised_by result, s')

abbrev pub session_step : LimitSettings → RateLimitPolicy → Text → Step
session_step settings policy path s = elim (extract_session_id path) [
  | none ↦ (none, s)
  | some session_id ↦
      (let (result, s') = check_session settings policy session_id s in (raised_by result, s'))
]

-- The check of a user or of an API key, if the identifier is given and not empty.
abbrev pub holder_step : LimitSettings → RateLimitPolicy → Dimension → Option Text → Step
holder_step settings policy dimension none s = (none, s)
holder_step settings policy dimension (some identifier) s =
    if is_empty identifier
    then (none, s)
    else (let (result, s') =
          check settings
            (record {
              policy = policy;
              dimension = dimension;
              identifier = identifier;
              sustained_limit =
                  or_default policy.org_sustained_per_minute policy.sustained_per_minute;
              burst_limit = or_default policy.org_burst_per_10_seconds policy.burst_per_10_seconds;
            })
            s in
        (raised_by (some result), s'))

-- `none` outside stands for the KeyError of an unknown category.
unfoldable pub enforce_authenticated_limits :
    LimitSettings
    → String
    → Text
    → Text
    → Option Text
    → Option Text
    → Server
    → Option (Option Response × Server)
enforce_authenticated_limits settings category path org_id user_id api_key_id s =
    if not settings.rate_limit_enabled
    then some (none, s)
    else elim (get_policy_by_category category) [
      | none ↦ none
      | some policy ↦ some (
          (org_step settings policy org_id
              then_step session_step settings policy path
              then_step holder_step settings policy Dimension.user user_id
              then_step holder_step settings policy Dimension.api_key api_key_id)
            s)
    ]

abbrev pub ws_allowed : RateLimitPolicy → RateLimitResult
ws_allowed policy = record {
  allowed = true;
  blocked = false;
  redis_error = false;
  dimension = Dimension.ip;
  category = policy.category;
}

-- The organisation's limit, if the connection names an organisation.
abbrev pub ws_org :
    LimitSettings → RateLimitPolicy → Option Text → Server → RateLimitResult × Server
ws_org settings policy none s = (ws_allowed policy, s)
ws_org settings policy (some org_id) s =
    if is_empty org_id
    then (ws_allowed policy, s)
    else (let (result, s') = check_org settings policy org_id s in
        (
          elim result [
            | none ↦ ws_allowed policy
            | some r ↦ if not r.allowed then r else ws_allowed policy
          ],
          s',
        ))

-- `none` stands for the KeyError of an unknown category.
unfoldable pub enforce_ws_connect_limit :
    LimitSettings → Request → Option Text → Server → Option (RateLimitResult × Server)
enforce_ws_connect_limit settings websocket org_id s = elim (get_policy_by_category "voice_ws") [
  | none ↦ none
  | some policy ↦ some (
      let (ip_result, s') = check_ip settings policy (get_client_ip websocket) s in
      if not ip_result.allowed then (ip_result, s') else ws_org settings policy org_id s')
]
