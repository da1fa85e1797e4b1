-- ===== src/RateLimit/Window.antt =====
-- The fixed window of `RateLimiter.check`: how many requests one bucket lets through.
use vox_forge.Common.{
  ℕ, ◌+◌, ◌-◌, ◌*◌, ◌/◌, ◌≤◌, ◌≡◌, ap, Bool, true, false, Option, none, some, List, [], ◌∷◌, ◌&&◌,
  not, inl, inr, leb, if◌then◌else◌, Bool-cases, arith, text_eq→eq, text_eq_refl, eq_iff, eq_refl,
}
use vox_forge.RateLimit.Limiter.{
  Dimension, dimension_eq, Span, span_eq, Key, key_eq, Server, incr, expire, count_request,
  LimitSettings, scaled, RateLimitResult, Call, burst_key, sustained_key, check, is_over,
}

pub dimension_eq→eq : (a b : Dimension) → dimension_eq a b ≡ true → a ≡ b
unfolding dimension_eq
dimension_eq→eq a b h = ground arith

pub span_eq→eq : (a b : Span) → span_eq a b ≡ true → a ≡ b
unfolding span_eq
span_eq→eq a b h = ground arith

pub key_eq→eq : (k l : Key) → key_eq k l ≡ true → k ≡ l
unfolding key_eq
key_eq→eq k l h = ground (
  arith,
  h,
  dimension_eq→eq k.dimension l.dimension,
  span_eq→eq k.span l.span,
  text_eq→eq k.identifier l.identifier,
  eq_iff k.category l.category,
)

module _ (target : Key) where
  -- What the target's counter stands at.
  abbrev pub used : Server → ℕ
  used s = elim (s.counters target) [ none ↦ 0 | some c ↦ c.count ]

  abbrev Outlives : Option ℕ → Type 0
  Outlives none = Unit
  Outlives (some e) = target.bucket * 10 + 10 ≤ e

  -- The target's counter does not expire before its bucket has passed.
  abbrev pub IsLasting : Server → Type 0
  IsLasting s = elim (s.counters target) [ none ↦ Unit | some c ↦ Outlives c.expires ]

  abbrev In : Server → Type 0
  In s = (s.clock / 10 ≡ target.bucket)

  -- A count that was reached is the counter's new value.
  abbrev Counted : Option ℕ → ℕ → ℕ → Type 0
  Counted none before after = Unit
  Counted (some n) before after = (after ≡ n) × (n ≡ before + 1)

  -- A command on another key.
  incr-other :
      (k : Key) (s : Server)
      → key_eq k target ≡ false
      → ((incr k s).1.counters target ≡ s.counters target) × ((incr k s).1.clock ≡ s.clock)
  unfolding incr
  incr-other k s h = ground (arith, h)

  expire-other :
      (k : Key) (n : ℕ) (s : Server)
      → key_eq k target ≡ false
      → ((expire k n s).1.counters target ≡ s.counters target) × ((expire k n s).1.clock ≡ s.clock)
  unfolding expire
  expire-other k n s h = ground (arith, h)

  incr-target :
      (s : Server)
      → In s
      → IsLasting s
      → key_eq target target ≡ true
      → IsLasting (incr target s).1
        × ((incr target s).1.clock ≡ s.clock)
        × (used s ≤ used (incr target s).1)
        × Counted (incr target s).0 (used s) (used (incr target s).1)
  unfolding incr
  incr-target s here lasting same = ground (arith, here, lasting, same)

  expire-target :
      (s : Server)
      → In s
      → IsLasting s
      → key_eq target target ≡ true
      → IsLasting (expire target 15 s).1
        × ((expire target 15 s).1.clock ≡ s.clock)
        × (used (expire target 15 s).1 ≡ used s)
  unfolding expire
  expire-target s here lasting same = ground (arith, here, lasting, same)

  count-other :
      (k : Key) (n : ℕ) (s : Server)
      → key_eq k target ≡ false
      → ((count_request k n s).1.counters target ≡ s.counters target)
        × ((count_request k n s).1.clock ≡ s.clock)
  unfolding count_request
  count-other k n s h = ground (arith, h, incr-other k s h, expire-other k n (incr k s).1 h)

  count-target :
      (s : Server)
      → In s
      → IsLasting s
      → key_eq target target ≡ true
      → IsLasting (count_request target 15 s).1
        × ((count_request target 15 s).1.clock ≡ s.clock)
        × (used s ≤ used (count_request target 15 s).1)
        × Counted (count_request target 15 s).0 (used s) (used (count_request target 15 s).1)
  unfolding count_request
  count-target s here lasting same =
      let (lasts, clock_, grows, counts) = incr-target s here lasting same in
      ground (
        arith,
        lasts,
        clock_,
        grows,
        counts,
        expire-target (incr target s).1 (rw clock_ here) lasts same,
      )

key_eq_refl : (k : Key) → key_eq k k ≡ true
unfolding key_eq span_eq dimension_eq
key_eq_refl k = ground (
  arith,
  text_eq_refl k.identifier,
  eq_refl k.category,
  span_refl k.span,
  dimension_refl k.dimension,
)
  where
    span_refl : (a : Span) → span_eq a a ≡ true
    span_refl a = ground arith

    dimension_refl : (a : Dimension) → dimension_eq a a ≡ true
    dimension_refl a = ground arith

-- A request and the second in which it is checked.
pub record Timed : Type 0 where
  pub now : ℕ
  pub call : Call

module _ (settings : LimitSettings) (target : Key) (limit : ℕ) where
  -- One check, made at its own time.
  abbrev pub check_at : Timed → Server → RateLimitResult × Server
  check_at t s = check settings t.call (record s { clock = t.now })

  -- Whether a result is one of the target's with at most this limit, and lets the request pass on
  -- its counts.
  abbrev pub passes : Timed → RateLimitResult → Bool
  passes t r =
      key_eq (burst_key t.call t.now) target
      && leb (scaled settings t.call.burst_limit) limit
      && r.allowed
      && not r.redis_error

  -- How many requests of a sequence pass so.
  abbrev pub granted : List Timed → Server → ℕ
  granted [] s = 0
  granted (t ∷ ts) s =
      let (r, s') = check_at t s in
      let rest = granted ts s' in if passes t r then rest + 1 else rest

  module _ (on : settings.rate_limit_enabled ≡ true) (is_burst : target.span ≡ Span.burst) where
    sustained-other : (call : Call) (now : ℕ) → key_eq (sustained_key call now) target ≡ false
    unfolding key_eq span_eq
    sustained-other call now = ground (arith, is_burst)

    abbrev Keeps : Timed → Server → Server → RateLimitResult → Type 0
    Keeps t s s' r =
        IsLasting target s'
        × (used target s ≤ used target s')
        × (passes t r ≡ true → used target s + 1 ≤ used target s' × used target s' ≤ limit)

    Keeps-other :
        (t : Timed) (s : Server)
        → key_eq (burst_key t.call t.now) target ≡ false
        → IsLasting target s
        → Keeps t s (check_at t s).1 (check_at t s).0
    unfolding check is_over
    Keeps-other t s apart lasting = ground (
      arith,
      on,
      apart,
      lasting,
      count-other target (burst_key t.call t.now) 15 (record s { clock = t.now }) apart,
      count-other target (sustained_key t.call t.now) 70
          (count_request (burst_key t.call t.now) 15 (record s { clock = t.now })).1
          (sustained-other t.call t.now),
    )

    over-target :
        (call : Call) (s : Server)
        → burst_key call s.clock ≡ target
        → IsLasting target s
        → IsLasting target (is_over settings call s).1
          × (used target s ≤ used target (is_over settings call s).1)
          × ((is_over settings call s).0 ≡ some false
              → (used target s + 1 ≤ used target (is_over settings call s).1)
                × (used target (is_over settings call s).1 ≤ scaled settings call.burst_limit))
    unfolding is_over
    over-target call s is_target lasting = rw (is_target) ground (
      arith,
      lasting,
      count-target target s (ap (λ k. k.bucket) is_target) lasting (key_eq_refl target),
      count-other target (sustained_key call s.clock) 70 (count_request target 15 s).1
          (sustained-other call s.clock),
    )

    Keeps-target :
        (t : Timed) (s : Server)
        → burst_key t.call t.now ≡ target
        → IsLasting target s
        → Keeps t s (check_at t s).1 (check_at t s).0
    unfolding check
    Keeps-target t s is_target lasting =
        let (lasts, grows, counts) =
          over-target t.call (record s { clock = t.now }) is_target lasting in
        ground (arith, on, lasts, grows, counts)

    keeps :
        (t : Timed) (s : Server) → IsLasting target s → Keeps t s (check_at t s).1 (check_at t s).0
    keeps t s lasting = elim (Bool-cases (key_eq (burst_key t.call t.now) target)) [
      | inl same ↦ Keeps-target t s (key_eq→eq (burst_key t.call t.now) target same) lasting
      | inr apart ↦ Keeps-other t s apart lasting
    ]

    granted-room :
        (ts : List Timed) (s : Server) → IsLasting target s → granted ts s ≤ limit - used target s
    granted-room [] s lasting = omega arith
    granted-room (t ∷ ts) s lasting =
        let (lasts, grows, counts) = keeps t s lasting in
        ground (arith, grows, counts, granted-room ts (check_at t s).1 lasts)

    -- In any sequence of checks, with any times, other callers and failures of Redis in between,
    -- at most `limit` requests of one bucket of one caller and category pass on its counts under a
    -- burst limit of at most `limit`, when the limiter is enabled and the bucket's counter is not
    -- there at the start.
    pub granted-bound :
        (ts : List Timed) (s : Server) → s.counters target ≡ none → granted ts s ≤ limit
    granted-bound ts s fresh =
        let room = granted-room ts s (ground (arith, fresh)) in ground (arith, fresh, room)
