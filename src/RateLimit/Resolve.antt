-- ===== src/RateLimit/Resolve.antt =====
-- Which policy a request gets.
use vox_forge.Common.{
  ◌≡◌, refl, inl, inr, Text, Bool, true, false, some, List, [], ◌∷◌, ◌++◌, any, find, is_some,
  codes, text_eq, text_eq→eq, starts_with, Bool-cases, arith, if◌then◌else◌,
}
use vox_forge.RateLimit.Policy.{FailMode, matches}
use vox_forge.RateLimit.Table.{
  resolve_policy, rate_limit_policies, is_exempt, api_default_policy, auth_login_policy,
  auth_policy,
}

find-any {ℓ} :
    {A : Type ℓ} (p : A → Bool) (xs : List A) → any p xs ≡ true → is_some (find p xs) ≡ true
find-any p [] h = ground arith
find-any p (x ∷ xs) h = ground (arith, h, find-any p xs)

matches-default :
    (method path : Text)
    → starts_with (codes "/api/v1/") path ≡ true
    → matches api_default_policy method path ≡ true
unfolding matches
matches-default method path h = ground (arith, h)

starts_with-append : (p q t : Text) → starts_with (p ++ q) t ≡ true → starts_with p t ≡ true
starts_with-append [] q t h = refl
starts_with-append (a ∷ p) q [] h = ground (arith, h)
starts_with-append (a ∷ p) q (b ∷ t) h = ground (arith, h, starts_with-append p q t)

-- Every path under `/api/v1/` that is not exempt has a policy, whatever the method.
pub resolve_policy-covers :
    (method path : Text)
    → starts_with (codes "/api/v1/") path ≡ true
    → is_exempt path ≡ false
    → is_some (resolve_policy method path) ≡ true
unfolding resolve_policy
resolve_policy-covers method path under open_ =
    rw (open_, starts_with-append (codes "/api/v1") (codes "/") path under)
      (find-any (λ policy. matches policy method path) rate_limit_policies
        (ground (arith, matches-default method path under)))

apart :
    (p path e : Text) → starts_with p path ≡ true → starts_with p e ≡ false → text_eq path e ≡ false
apart p path e h no_match = elim (Bool-cases (text_eq path e)) [
  | inl same ↦ ground (arith, h, no_match, text_eq→eq path e same)
  | inr other ↦ other
]

auth-open : (path : Text) → starts_with (codes "/api/v1/auth") path ≡ true → is_exempt path ≡ false
auth-open path h = ground (
  arith,
  apart (codes "/api/v1/auth") path (codes "/api/v1/health") h refl,
  apart (codes "/api/v1/auth") path (codes "/api/v1/ready") h refl,
  apart (codes "/api/v1/auth") path (codes "/api/v1/metrics") h refl,
  apart (codes "/api/v1/auth") path (codes "/api/v1/docs") h refl,
  apart (codes "/api/v1/auth") path (codes "/api/v1/redoc") h refl,
  apart (codes "/api/v1/auth") path (codes "/api/v1/openapi.json") h refl,
)

matches-auth :
    (method path : Text)
    → starts_with (codes "/api/v1/auth") path ≡ true
    → matches auth_policy method path ≡ true
unfolding matches
matches-auth method path h = ground (arith, h)

-- A request for a path under `/api/v1/auth` gets the policy of log-ins if that one matches, and
-- the policy `auth` otherwise; both fail closed.
pub resolve_policy-auth :
    (method path : Text)
    → starts_with (codes "/api/v1/auth") path ≡ true
    → (resolve_policy method path
        ≡ some (if matches auth_login_policy method path then auth_login_policy else auth_policy))
      × (auth_login_policy.fail_mode ≡ FailMode.fail_closed)
      × (auth_policy.fail_mode ≡ FailMode.fail_closed)
unfolding resolve_policy
resolve_policy-auth method path h = (
  rw
      (
        auth-open path h,
        starts_with-append (codes "/api/v1") (codes "/auth") path h,
        matches-auth method path h,
      )
      (elim (Bool-cases (matches auth_login_policy method path)) [
        | inl login ↦ rw login refl
        | inr other ↦ rw other refl
      ]),
  refl,
  refl,
)
