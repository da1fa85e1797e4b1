-- ===== src/RateLimit/Tests.antt =====
-- The limiter on a few requests.
use vox_forge.Common.{◌≤◌, ◌≡◌, refl, codes, true, false, none, some, List, [], ◌∷◌, strip}
use vox_forge.RateLimit.Policy.{matches, upper, search, from_slash}
use vox_forge.RateLimit.Table.{
  resolve_policy, get_policy_by_category, auth_login_policy, dashboard_policy, voice_ws_policy,
}
use vox_forge.RateLimit.Limiter.{
  Dimension, Span, Key, Server, LimitSettings, Call, check_ip, check_org, is_over,
  effective_fail_mode, check, count_request, incr, expire, key_eq, span_eq, dimension_eq, scaled,
}
use vox_forge.RateLimit.Enforce.{Request, dispatch, get_client_ip, enforce_ws_connect_limit}
use vox_forge.RateLimit.Window.{Timed, granted, granted-bound}
use vox_forge.RateLimit.Outage.{
  ip_call, org_over, response_for, allowed_for, dispatch-decides, enforce_ws-closed,
}

abbrev settings : LimitSettings
settings = record {
  rate_limit_enabled = true;
  times_multiplier = λ n. n;
  fail_closed_categories = [];
}

-- Redis without a counter, which fails as the list says.
abbrev server : Server
server = record { clock = 1000; counters = λ k. none; outages = [] }

abbrev login : Call
login = ip_call auth_login_policy (codes "10.0.0.1")

abbrev login_key : Key
login_key = record {
  span = Span.burst;
  dimension = Dimension.ip;
  identifier = codes "10.0.0.1";
  category = "auth_login";
  bucket = 100;
}

abbrev attempts : List Timed
attempts =
    record { now = 1000; call = login }
    ∷ record { now = 1003; call = login }
    ∷ record { now = 1009; call = login }
    ∷ []

granted-bound_example : granted settings login_key 5 attempts server ≤ 5
granted-bound_example = granted-bound settings login_key 5 refl refl attempts server refl

abbrev stats : Request
stats = record {
  method = codes "get";
  path = codes "/api/v1/dashboard/stats";
  forwarded = some (codes " 10.0.0.1 , 10.0.0.2");
  client_host = none;
}

stats-dashboard : resolve_policy stats.method stats.path ≡ some dashboard_policy
unfolding resolve_policy matches upper search from_slash
stats-dashboard = refl

-- The dashboard fails open, and Redis is down.
abbrev broken : Server
broken = record server { outages = true ∷ [] }

dispatch-decides_example :
    let over = (is_over settings (ip_call dashboard_policy (get_client_ip stats)) broken).0 in
    ((dispatch settings stats broken).0 ≡ response_for over)
    × ((check_ip settings dashboard_policy (get_client_ip stats) broken).0.allowed
        ≡ allowed_for (effective_fail_mode settings dashboard_policy) over)
dispatch-decides_example =
    dispatch-decides settings stats broken refl dashboard_policy stats-dashboard

abbrev connection : Request
connection = record stats { path = codes "/api/v1/ws/voice" }

enforce_ws-closed_example :
    ((is_over settings (ip_call voice_ws_policy (get_client_ip connection)) server).0 ≡ some false)
    × (org_over settings
          (some (codes "acme"))
          (check_ip settings voice_ws_policy (get_client_ip connection) server).1
        ≡ some false)
unfolding enforce_ws_connect_limit get_policy_by_category check_ip check_org check is_over
    count_request incr expire key_eq span_eq dimension_eq scaled effective_fail_mode get_client_ip
    strip
enforce_ws-closed_example =
    enforce_ws-closed settings connection server refl (some (codes "acme")) _ _ refl refl
