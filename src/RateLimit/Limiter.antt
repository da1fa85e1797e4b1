-- ===== src/RateLimit/Limiter.antt =====
-- infrastructure/http/rate_limit.py: RateLimiter, on the counters that Redis keeps. Log lines and
-- Prometheus counters are left out.
use vox_forge.Common.{
  ℕ, ◌+◌, ◌/◌, String, Text, Bool, true, false, Option, none, some, List, [], ◌∷◌, any, text_eq,
  str_eq, ltb, if◌then◌else◌, not, ◌&&◌, ◌||◌, ◌==◌, max,
}
use vox_forge.RateLimit.Policy.{RateLimitPolicy, FailMode}

pub data Dimension : Type 0 where
  ip user org api_key session : Dimension

unfoldable pub dimension_eq : Dimension → Dimension → Bool
dimension_eq Dimension.ip Dimension.ip = true
dimension_eq Dimension.user Dimension.user = true
dimension_eq Dimension.org Dimension.org = true
dimension_eq Dimension.api_key Dimension.api_key = true
dimension_eq Dimension.session Dimension.session = true
dimension_eq _ _ = false

pub data Span : Type 0 where
  burst sustained : Span

unfoldable pub span_eq : Span → Span → Bool
span_eq Span.burst Span.burst = true
span_eq Span.sustained Span.sustained = true
span_eq _ _ = false

-- The parts of `ratelimit:{span}:{dimension}:{identifier}:{category}:{bucket}`.
pub record Key : Type 0 where
  pub span : Span
  pub dimension : Dimension
  pub identifier : Text
  pub category : String
  pub bucket : ℕ

unfoldable pub key_eq : Key → Key → Bool
unfolding dimension_eq span_eq
key_eq k l =
    span_eq k.span l.span
    && dimension_eq k.dimension l.dimension
    && text_eq k.identifier l.identifier
    && str_eq k.category l.category
    && k.bucket == l.bucket

-- A counter, and the first instant at which it is gone, once EXPIRE has set one.
pub record Counter : Type 0 where
  pub count : ℕ
  pub expires : Option ℕ

pub record Server : Type 0 where
  -- `int(time.time())`
  pub clock : ℕ
  pub counters : Key → Option Counter
  -- whether each command to come fails; none beyond the list's end does
  pub outages : List Bool

-- A Redis call, `none` where it raises.
abbrev pub Redis : Type 0 → Type 0
Redis A = Server → Option A × Server

infixl 5 ◌>>=◌ ◌>>◌
abbrev pub ◌>>=◌ : {A B : Type 0} → Redis A → (A → Redis B) → Redis B
◌>>=◌ m f s = let (r, s') = m s in elim r [ none ↦ (none, s') | some a ↦ f a s' ]

abbrev pub ◌>>◌ : {A B : Type 0} → Redis A → Redis B → Redis B
m >> k = m >>= λ _. k

abbrev pub pure : {A : Type 0} → A → Redis A
pure a s = (some a, s)

abbrev pub command : Redis Unit
command s = elim s.outages [
  | [] ↦ (some tt, s)
  | down ∷ rest ↦ (if down then none else some tt, record s { outages = rest })
]

abbrev pub is_live : ℕ → Counter → Bool
is_live now c = elim c.expires [ none ↦ true | some e ↦ ltb now e ]

abbrev pub get_counter : Server → Key → Option Counter
get_counter s key = elim (s.counters key) [
  | none ↦ none
  | some c ↦ if is_live s.clock c then some c else none
]

abbrev pub put_counter : Key → Counter → Server → Server
put_counter key c s = record s {
  counters = λ other. if key_eq key other then some c else s.counters other;
}

abbrev pub next_counter : Option Counter → Counter
next_counter none = record { count = 1; expires = none }
next_counter (some c) = record c { count = c.count + 1 }

-- INCR makes a missing counter 1, without an expiry, and keeps the expiry of a live one.
unfoldable pub incr : Key → Redis ℕ
incr key = do
  command
  λ s. let c = next_counter (get_counter s key) in (some c.count, put_counter key c s)

-- EXPIRE does nothing to a missing key.
unfoldable pub expire : Key → ℕ → Redis Unit
expire key seconds = do
  command
  λ s. elim (get_counter s key) [
    | none ↦ (some tt, s)
    | some c ↦ (some tt, put_counter key (record c { expires = some (s.clock + seconds) }) s)
  ]

unfoldable pub count_request : Key → ℕ → Redis ℕ
count_request key seconds = do n ← incr key; if n == 1 then expire key seconds else pure tt; pure n

-- The settings that the limiter reads.
pub record LimitSettings : Type 0 where
  pub rate_limit_enabled : Bool
  -- `int(value * rate_limit_multiplier)`, 0 where that is negative
  pub times_multiplier : ℕ → ℕ
  pub fail_closed_categories : List String

unfoldable pub scaled : LimitSettings → ℕ → ℕ
scaled settings value = max 1 (settings.times_multiplier value)

pub record RateLimitResult : Type 0 where
  pub allowed : Bool
  pub blocked : Bool
  pub redis_error : Bool
  pub dimension : Dimension
  pub category : String

abbrev pub is_listed : List String → String → Bool
is_listed categories category = any (str_eq category) categories

unfoldable pub effective_fail_mode : LimitSettings → RateLimitPolicy → FailMode
effective_fail_mode settings policy =
    if is_listed settings.fail_closed_categories policy.category
    then FailMode.fail_closed
    else policy.fail_mode

-- What a call of `check` names.
pub record Call : Type 0 where
  pub policy : RateLimitPolicy
  pub dimension : Dimension
  pub identifier : Text
  pub sustained_limit : ℕ
  pub burst_limit : ℕ

abbrev pub burst_key : Call → ℕ → Key
burst_key call now = record {
  span = Span.burst;
  dimension = call.dimension;
  identifier = call.identifier;
  category = call.policy.category;
  bucket = now / 10;
}

abbrev pub sustained_key : Call → ℕ → Key
sustained_key call now = record {
  span = Span.sustained;
  dimension = call.dimension;
  identifier = call.identifier;
  category = call.policy.category;
  bucket = now / 60;
}

abbrev pub answer : Call → Bool → Bool → Bool → RateLimitResult
answer call allowed blocked redis_error = record {
  allowed = allowed;
  blocked = blocked;
  redis_error = redis_error;
  dimension = call.dimension;
  category = call.policy.category;
}

-- The body of the `try` block: whether either count is over its limit.
unfoldable pub is_over : LimitSettings → Call → Redis Bool
is_over settings call s =
    (do
      burst_count ← count_request (burst_key call s.clock) 15
      sustained_count ← count_request (sustained_key call s.clock) 70
      pure (
          ltb (scaled settings call.burst_limit) burst_count
          || ltb (scaled settings call.sustained_limit) sustained_count))
      s

-- The `except` block.
abbrev pub on_redis_error : FailMode → Call → RateLimitResult
on_redis_error FailMode.fail_closed call = answer call false false true
on_redis_error FailMode.fail_open call = answer call true false true

unfoldable pub check : LimitSettings → Call → Server → RateLimitResult × Server
check settings call s =
    if not settings.rate_limit_enabled
    then (answer call true false false, s)
    else (let (over, s') = is_over settings call s in
        elim over [
          | none ↦ (on_redis_error (effective_fail_mode settings call.policy) call, s')
          | some true ↦ (answer call false true false, s')
          | some false ↦ (answer call true false false, s')
        ])

-- `x or d` on an optional number, where 0 is false as well
abbrev pub or_default : Option ℕ → ℕ → ℕ
or_default none d = d
or_default (some n) d = if n == 0 then d else n

unfoldable pub check_ip : LimitSettings → RateLimitPolicy → Text → Server → RateLimitResult × Server
check_ip settings policy client_ip = check settings (record {
  policy = policy;
  dimension = Dimension.ip;
  identifier = client_ip;
  sustained_limit = policy.sustained_per_minute;
  burst_limit = policy.burst_per_10_seconds;
})

-- A check that the policy may lack the limit for.
abbrev pub check_if :
    LimitSettings → Option ℕ → (ℕ → Call) → Server → Option RateLimitResult × Server
check_if settings none call s = (none, s)
check_if settings (some limit) call s = let (r, s') = check settings (call limit) s in (some r, s')

unfoldable pub check_org :
    LimitSettings → RateLimitPolicy → Text → Server → Option RateLimitResult × Server
check_org settings policy org_id = check_if settings policy.org_sustained_per_minute λ limit.
    record {
      policy = policy;
      dimension = Dimension.org;
      identifier = org_id;
      sustained_limit = limit;
      burst_limit = or_default policy.org_burst_per_10_seconds policy.burst_per_10_seconds;
    }

unfoldable pub check_session :
    LimitSettings → RateLimitPolicy → Text → Server → Option RateLimitResult × Server
check_session settings policy session_id =
    check_if settings policy.session_sustained_per_minute λ limit. record {
      policy = policy;
      dimension = Dimension.session;
      identifier = session_id;
      sustained_limit = limit;
      burst_limit = or_default policy.session_burst_per_10_seconds policy.burst_per_10_seconds;
    }
