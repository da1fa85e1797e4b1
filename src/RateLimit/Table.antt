-- ===== src/RateLimit/Table.antt =====
-- infrastructure/http/rate_limit.py: the table of policies, and the policy of a request.
use vox_forge.Common.{
  String, Text, Bool, Option, none, some, List, [], ◌∷◌, any, find, codes, text_eq, starts_with,
  str_eq, if◌then◌else◌, not, ◌||◌,
}
use vox_forge.RateLimit.Policy.{RateLimitPolicy, FailMode, matches}

abbrev pub auth_login_policy : RateLimitPolicy
auth_login_policy = record {
  category = "auth_login";
  path_prefixes =
      codes "/api/v1/auth/login"
      ∷ codes "/api/v1/auth/register"
      ∷ codes "/api/v1/auth/refresh"
      ∷ [];
  path_regex = none;
  methods = some (codes "POST" ∷ []);
  sustained_per_minute = 20;
  burst_per_10_seconds = 5;
  fail_mode = FailMode.fail_closed;
  org_sustained_per_minute = none;
  org_burst_per_10_seconds = none;
  session_sustained_per_minute = none;
  session_burst_per_10_seconds = none;
}

abbrev pub auth_policy : RateLimitPolicy
auth_policy = record {
  category = "auth";
  path_prefixes = codes "/api/v1/auth" ∷ [];
  path_regex = none;
  methods = none;
  sustained_per_minute = 40;
  burst_per_10_seconds = 10;
  fail_mode = FailMode.fail_closed;
  org_sustained_per_minute = none;
  org_burst_per_10_seconds = none;
  session_sustained_per_minute = none;
  session_burst_per_10_seconds = none;
}

abbrev pub demo_policy : RateLimitPolicy
demo_policy = record {
  category = "demo";
  path_prefixes = codes "/api/v1/demo" ∷ [];
  path_regex = none;
  methods = none;
  sustained_per_minute = 120;
  burst_per_10_seconds = 30;
  fail_mode = FailMode.fail_closed;
  org_sustained_per_minute = none;
  org_burst_per_10_seconds = none;
  session_sustained_per_minute = none;
  session_burst_per_10_seconds = none;
}

abbrev pub api_keys_policy : RateLimitPolicy
api_keys_policy = record {
  category = "api_keys";
  path_prefixes = codes "/api/v1/api-keys" ∷ [];
  path_regex = none;
  methods = some (codes "POST" ∷ []);
  sustained_per_minute = 10;
  burst_per_10_seconds = 3;
  fail_mode = FailMode.fail_closed;
  org_sustained_per_minute = some 20;
  org_burst_per_10_seconds = some 5;
  session_sustained_per_minute = none;
  session_burst_per_10_seconds = none;
}

abbrev pub sessions_create_policy : RateLimitPolicy
sessions_create_policy = record {
  category = "sessions_create";
  path_prefixes = codes "/api/v1/sessions" ∷ [];
  path_regex = none;
  methods = some (codes "POST" ∷ []);
  sustained_per_minute = 30;
  burst_per_10_seconds = 5;
  fail_mode = FailMode.fail_closed;
  org_sustained_per_minute = some 100;
  org_burst_per_10_seconds = some 20;
  session_sustained_per_minute = none;
  session_burst_per_10_seconds = none;
}

abbrev pub voice_ws_policy : RateLimitPolicy
voice_ws_policy = record {
  category = "voice_ws";
  path_prefixes = codes "/api/v1/ws/voice" ∷ [];
  path_regex = none;
  methods = none;
  sustained_per_minute = 20;
  burst_per_10_seconds = 5;
  fail_mode = FailMode.fail_closed;
  org_sustained_per_minute = some 60;
  org_burst_per_10_seconds = some 15;
  session_sustained_per_minute = none;
  session_burst_per_10_seconds = none;
}

abbrev pub livekit_policy : RateLimitPolicy
livekit_policy = record {
  category = "livekit";
  path_prefixes = codes "/api/v1/livekit" ∷ [];
  path_regex = none;
  methods = some (codes "POST" ∷ []);
  sustained_per_minute = 30;
  burst_per_10_seconds = 5;
  fail_mode = FailMode.fail_closed;
  org_sustained_per_minute = some 80;
  org_burst_per_10_seconds = some 15;
  session_sustained_per_minute = some 20;
  session_burst_per_10_seconds = some 5;
}

abbrev pub knowledge_upload_policy : RateLimitPolicy
knowledge_upload_policy = record {
  category = "knowledge_upload";
  path_prefixes = [];
  path_regex =
      some (record { before = codes "/api/v1/knowledge/collections/"; after = codes "/documents" });
  methods = some (codes "POST" ∷ []);
  sustained_per_minute = 10;
  burst_per_10_seconds = 2;
  fail_mode = FailMode.fail_closed;
  org_sustained_per_minute = some 30;
  org_burst_per_10_seconds = some 5;
  session_sustained_per_minute = none;
  session_burst_per_10_seconds = none;
}

abbrev pub knowledge_reindex_policy : RateLimitPolicy
knowledge_reindex_policy = record {
  category = "knowledge_reindex";
  path_prefixes = [];
  path_regex =
      some (record { before = codes "/api/v1/knowledge/documents/"; after = codes "/reindex" });
  methods = some (codes "POST" ∷ []);
  sustained_per_minute = 5;
  burst_per_10_seconds = 2;
  fail_mode = FailMode.fail_closed;
  org_sustained_per_minute = some 20;
  org_burst_per_10_seconds = some 5;
  session_sustained_per_minute = none;
  session_burst_per_10_seconds = none;
}

abbrev pub knowledge_search_policy : RateLimitPolicy
knowledge_search_policy = record {
  category = "knowledge_search";
  path_prefixes = codes "/api/v1/knowledge/search" ∷ [];
  path_regex = none;
  methods = some (codes "POST" ∷ []);
  sustained_per_minute = 60;
  burst_per_10_seconds = 15;
  fail_mode = FailMode.fail_open;
  org_sustained_per_minute = some 200;
  org_burst_per_10_seconds = some 40;
  session_sustained_per_minute = none;
  session_burst_per_10_seconds = none;
}

abbrev pub knowledge_collections_policy : RateLimitPolicy
knowledge_collections_policy = record {
  category = "knowledge_collections";
  path_prefixes = codes "/api/v1/knowledge/collections" ∷ [];
  path_regex = none;
  methods = some (codes "POST" ∷ []);
  sustained_per_minute = 20;
  burst_per_10_seconds = 5;
  fail_mode = FailMode.fail_closed;
  org_sustained_per_minute = some 50;
  org_burst_per_10_seconds = some 10;
  session_sustained_per_minute = none;
  session_burst_per_10_seconds = none;
}

abbrev pub memory_search_policy : RateLimitPolicy
memory_search_policy = record {
  category = "memory_search";
  path_prefixes = [];
  path_regex = some (record { before = codes "/api/v1/sessions/"; after = codes "/memory/search" });
  methods = some (codes "POST" ∷ []);
  sustained_per_minute = 60;
  burst_per_10_seconds = 15;
  fail_mode = FailMode.fail_open;
  org_sustained_per_minute = some 200;
  org_burst_per_10_seconds = some 40;
  session_sustained_per_minute = none;
  session_burst_per_10_seconds = none;
}

abbrev pub replay_policy : RateLimitPolicy
replay_policy = record {
  category = "replay";
  path_prefixes = [];
  path_regex = some (record { before = codes "/api/v1/sessions/"; after = codes "/replay" });
  methods = some (codes "GET" ∷ []);
  sustained_per_minute = 30;
  burst_per_10_seconds = 10;
  fail_mode = FailMode.fail_closed;
  org_sustained_per_minute = some 100;
  org_burst_per_10_seconds = some 25;
  session_sustained_per_minute = some 15;
  session_burst_per_10_seconds = some 5;
}

abbrev pub onboarding_sample_policy : RateLimitPolicy
onboarding_sample_policy = record {
  category = "onboarding_sample";
  path_prefixes = codes "/api/v1/onboarding/run-sample-call" ∷ [];
  path_regex = none;
  methods = some (codes "POST" ∷ []);
  sustained_per_minute = 5;
  burst_per_10_seconds = 2;
  fail_mode = FailMode.fail_closed;
  org_sustained_per_minute = some 15;
  org_burst_per_10_seconds = some 3;
  session_sustained_per_minute = none;
  session_burst_per_10_seconds = none;
}

abbrev pub onboarding_policy : RateLimitPolicy
onboarding_policy = record {
  category = "onboarding";
  path_prefixes = codes "/api/v1/onboarding" ∷ [];
  path_regex = none;
  methods = none;
  sustained_per_minute = 30;
  burst_per_10_seconds = 8;
  fail_mode = FailMode.fail_closed;
  org_sustained_per_minute = some 60;
  org_burst_per_10_seconds = some 15;
  session_sustained_per_minute = none;
  session_burst_per_10_seconds = none;
}

abbrev pub dashboard_policy : RateLimitPolicy
dashboard_policy = record {
  category = "dashboard";
  path_prefixes = codes "/api/v1/dashboard" ∷ [];
  path_regex = none;
  methods = some (codes "GET" ∷ []);
  sustained_per_minute = 120;
  burst_per_10_seconds = 30;
  fail_mode = FailMode.fail_open;
  org_sustained_per_minute = some 300;
  org_burst_per_10_seconds = some 60;
  session_sustained_per_minute = none;
  session_burst_per_10_seconds = none;
}

abbrev pub sessions_policy : RateLimitPolicy
sessions_policy = record {
  category = "sessions";
  path_prefixes = codes "/api/v1/sessions" ∷ [];
  path_regex = none;
  methods = none;
  sustained_per_minute = 120;
  burst_per_10_seconds = 30;
  fail_mode = FailMode.fail_open;
  org_sustained_per_minute = some 300;
  org_burst_per_10_seconds = some 60;
  session_sustained_per_minute = some 60;
  session_burst_per_10_seconds = some 15;
}

abbrev pub api_default_policy : RateLimitPolicy
api_default_policy = record {
  category = "api_default";
  path_prefixes = codes "/api/v1/" ∷ [];
  path_regex = none;
  methods = none;
  sustained_per_minute = 120;
  burst_per_10_seconds = 30;
  fail_mode = FailMode.fail_open;
  org_sustained_per_minute = some 500;
  org_burst_per_10_seconds = some 100;
  session_sustained_per_minute = none;
  session_burst_per_10_seconds = none;
}

abbrev pub exempt_paths : List Text
exempt_paths =
    codes "/api/v1/health"
    ∷ codes "/api/v1/ready"
    ∷ codes "/api/v1/metrics"
    ∷ codes "/api/v1/docs"
    ∷ codes "/api/v1/redoc"
    ∷ codes "/api/v1/openapi.json"
    ∷ []

-- Ordered: the first match wins.
abbrev pub rate_limit_policies : List RateLimitPolicy
rate_limit_policies =
    auth_login_policy ∷ auth_policy ∷ demo_policy ∷ api_keys_policy ∷ sessions_create_policy
    ∷ voice_ws_policy ∷ livekit_policy ∷ knowledge_upload_policy ∷ knowledge_reindex_policy
    ∷ knowledge_search_policy ∷ knowledge_collections_policy ∷ memory_search_policy ∷ replay_policy
    ∷ onboarding_sample_policy ∷ onboarding_policy ∷ dashboard_policy ∷ sessions_policy
    ∷ api_default_policy ∷ []

abbrev pub is_exempt : Text → Bool
is_exempt path = any (text_eq path) exempt_paths

unfoldable pub resolve_policy : Text → Text → Option RateLimitPolicy
resolve_policy method path =
    if is_exempt path || not (starts_with (codes "/api/v1") path)
    then none
    else find (λ policy. matches policy method path) rate_limit_policies

-- `none` stands for the KeyError.
unfoldable pub get_policy_by_category : String → Option RateLimitPolicy
get_policy_by_category category =
    find (λ policy. str_eq policy.category category) rate_limit_policies
