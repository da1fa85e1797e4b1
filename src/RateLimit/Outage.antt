-- ===== src/RateLimit/Outage.antt =====
-- How the counts decide the answers of the middleware and of the WebSocket limit, and what a
-- failure of Redis does to them.
use vox_forge.Common.{
  ◌≡◌, refl, Text, Bool, true, false, Option, none, some, not, is_empty, if◌then◌else◌, arith,
}
use vox_forge.RateLimit.Policy.{RateLimitPolicy, FailMode}
use vox_forge.RateLimit.Table.{resolve_policy, get_policy_by_category, voice_ws_policy}
use vox_forge.RateLimit.Limiter.{
  LimitSettings, RateLimitResult, Dimension, Server, Call, check, check_ip, check_org, is_over,
  effective_fail_mode,
}
use vox_forge.RateLimit.Enforce.{
  Request, Response, get_client_ip, dispatch, enforce_ws_connect_limit,
}

-- What `check_ip` checks.
abbrev pub ip_call : RateLimitPolicy → Text → Call
ip_call policy client_ip = record {
  policy = policy;
  dimension = Dimension.ip;
  identifier = client_ip;
  sustained_limit = policy.sustained_per_minute;
  burst_limit = policy.burst_per_10_seconds;
}

-- What `check_org` checks for `voice_ws`.
abbrev pub org_call : Text → Call
org_call org_id = record {
  policy = voice_ws_policy;
  dimension = Dimension.org;
  identifier = org_id;
  sustained_limit = 60;
  burst_limit = 15;
}

-- Whether the organisation is over its limits; one that is not named never is.
abbrev pub org_over : LimitSettings → Option Text → Server → Option Bool
org_over settings none s = some false
org_over settings (some org_id) s =
    let counted = (is_over settings (org_call org_id) s).0 in
    if is_empty org_id then some false else counted

abbrev pub response_for : Option Bool → Response
response_for none = Response.unavailable
response_for (some true) = Response.too_many_requests
response_for (some false) = Response.handled

abbrev pub allowed_for : FailMode → Option Bool → Bool
allowed_for FailMode.fail_open none = true
allowed_for FailMode.fail_closed none = false
allowed_for mode (some over) = not over

module _ (settings : LimitSettings) (request : Request) (s : Server)
    (on : settings.rate_limit_enabled ≡ true) where
  -- When the limiter is enabled and the request has a policy, the middleware forwards the request
  -- exactly when the counts of its address were read and are within the policy's limits; it answers
  -- 429 when they are over, and 503 whenever Redis fails. So it does for a policy that fails open,
  -- although the check itself then allows the request.
  pub dispatch-decides :
      (policy : RateLimitPolicy)
      → resolve_policy request.method request.path ≡ some policy
      → let over = (is_over settings (ip_call policy (get_client_ip request)) s).0 in
        ((dispatch settings request s).0 ≡ response_for over)
        × ((check_ip settings policy (get_client_ip request) s).0.allowed
            ≡ allowed_for (effective_fail_mode settings policy) over)
  unfolding dispatch check_ip check
  dispatch-decides policy resolved = (ground (arith, on, resolved), ground (arith, on, resolved))

  -- When the limiter is enabled, a WebSocket connection that the limit allows had the counts of its
  -- address read and within the limits of `voice_ws`, and after that the counts of the organisation
  -- that it names, if it names one: no failure of Redis lets one through.
  pub enforce_ws-closed :
      (org_id : Option Text) (r : RateLimitResult) (s' : Server)
      → enforce_ws_connect_limit settings request org_id s ≡ some (r, s')
      → r.allowed ≡ true
      → ((is_over settings (ip_call voice_ws_policy (get_client_ip request)) s).0 ≡ some false)
        × (org_over settings org_id (check_ip settings voice_ws_policy (get_client_ip request) s).1
            ≡ some false)
  unfolding enforce_ws_connect_limit check_ip check effective_fail_mode get_policy_by_category
      check_org
  enforce_ws-closed none r s' run allowed = (ground (arith, on, run, allowed), refl)
  enforce_ws-closed (some org_id) r s' run allowed =
      (ground (arith, on, run, allowed), ground (arith, on, run, allowed))
