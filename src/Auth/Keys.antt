-- ===== src/Auth/Keys.antt =====
-- API keys: modules/auth/application/service.py (create_api_key, revoke_api_key,
-- resolve_principal_from_api_key), the ApiKeyRepository of infrastructure/db/auth_repositories.py and
-- generate_api_key of infrastructure/security/tokens.py.
use vox_forge.Common.{
  ℕ, ◌+◌, String, Text, codes, Bool, true, false, not, Option, none, some, List, [], ◌∷◌, ◌++◌,
  ◌&&◌, ◌==◌, any, map, find, filter_by, take, text_eq, starts_with, is_some, ltb, if◌then◌else◌,
}
use vox_forge.Auth.Scopes.{Principal, PrincipalType, has_scope, all_api_key_scopes, is_in}

-- A row of `api_keys`.
pub record ApiKey : Type 0 where
  pub id : ℕ
  pub org_id : ℕ
  pub name : Text
  pub key_prefix : Text
  pub key_hash : Text
  pub scopes : List Text
  pub expires_at : Option ℕ
  pub revoked_at : Option ℕ
  pub created_by_user_id : Option ℕ
  pub created_at : ℕ

-- A row of `audit_logs`.
pub record AuditLog : Type 0 where
  pub action : String
  pub org_id : ℕ
  pub user_id : Option ℕ
  pub resource_id : ℕ

pub record Accounts : Type 0 where
  pub clock : ℕ
  pub fresh : ℕ
  pub api_keys : List ApiKey
  pub audit : List AuditLog

pub data AuthError : Type 0 where
  -- ForbiddenError, by its message
  wrong_org : AuthError
  missing_scope cannot_grant : Text → AuthError
  invalid_scopes : AuthError
  -- UnauthorizedError, by its message
  bad_format key_revoked key_expired bad_key : AuthError
  key_not_found : ℕ → AuthError

pub data Answer (A : Type 0) : Type 0 where
  ok : A → Answer A
  err : AuthError → Answer A

abbrev pub Auth : Type 0 → Type 0
Auth A = Accounts → Answer A × Accounts

infixl 5 ◌>>=◌ ◌>>◌
abbrev pub ◌>>=◌ : {A B : Type 0} → Auth A → (A → Auth B) → Auth B
◌>>=◌ m f s = let (r, s') = m s in elim r [ ok a ↦ f a s' | err e ↦ (err e, s') ]

abbrev pub ◌>>◌ : {A B : Type 0} → Auth A → Auth B → Auth B
m >> k = m >>= λ _. k

abbrev pub pure : {A : Type 0} → A → Auth A
pure a s = (ok a, s)

abbrev pub raise_if : Bool → AuthError → Auth Unit
raise_if true e s = (err e, s)
raise_if false e s = (ok tt, s)

-- The settings and the cryptography: the hash is that of the key behind the pepper.
pub record Crypto : Type 0 where
  pub api_key_prefix : Text
  pub hash_api_key : Text → Text
  -- `secrets.token_urlsafe(32)`
  pub random_suffix : Accounts → Text

-- `_require_scope`
unfoldable pub require_scope_in : Principal → Text → ℕ → Auth Unit
require_scope_in actor scope org_id = do
  raise_if (not (actor.org_id == org_id)) wrong_org
  raise_if (not (has_scope actor scope)) (missing_scope scope)

-- The loop that refuses the first scope which the actor does not have.
unfoldable pub check_grants : Principal → List Text → Auth Unit
check_grants actor [] = pure tt
check_grants actor (scope ∷ scopes) = do
  raise_if (not (has_scope actor scope)) (cannot_grant scope)
  check_grants actor scopes

abbrev pub new_key : Crypto → ℕ → Text → List Text → Option ℕ → Option ℕ → Accounts → ApiKey × Text
new_key crypto org_id name scopes user_id expires_at s =
    let raw_key = crypto.api_key_prefix ++ crypto.random_suffix s in
    (
      record {
        id = s.fresh;
        org_id = org_id;
        name = name;
        key_prefix = take 12 raw_key;
        key_hash = crypto.hash_api_key raw_key;
        scopes = scopes;
        expires_at = expires_at;
        revoked_at = none;
        created_by_user_id = user_id;
        created_at = s.clock;
      },
      raw_key,
    )

-- A new key in the table.
unfoldable pub insert_key :
    Crypto → ℕ → Text → List Text → Option ℕ → Option ℕ → Auth (ApiKey × Text)
insert_key crypto org_id name scopes user_id expires_at s =
    let (key, raw_key) = new_key crypto org_id name scopes user_id expires_at s in
    (ok (key, raw_key), record s { fresh = s.fresh + 1; api_keys = s.api_keys ++ key ∷ [] })

unfoldable pub log : String → ℕ → Option ℕ → ℕ → Auth Unit
log action org_id user_id resource_id s = (
  ok tt,
  record s {
    audit =
        s.audit
        ++ record { action = action; org_id = org_id; user_id = user_id; resource_id = resource_id }
          ∷ [];
  },
)

unfoldable pub create_api_key :
    Crypto → ℕ → Text → List Text → Principal → Option ℕ → Auth (ApiKey × Text)
create_api_key crypto org_id name scopes actor expires_at = do
  require_scope_in actor (codes "api_keys:write") org_id
  raise_if (any (λ scope. not (is_in all_api_key_scopes scope)) scopes) invalid_scopes
  check_grants actor scopes
  made ← insert_key crypto org_id name scopes actor.user_id expires_at
  log "api_key.created" org_id actor.user_id made.0.id
  pure made

unfoldable pub get_key : ℕ → Auth ApiKey
get_key key_id s = elim (find (λ k. k.id == key_id) s.api_keys) [
  | none ↦ (err (key_not_found key_id), s)
  | some k ↦ (ok k, s)
]

-- The rows after a revocation.
abbrev pub revoked : ℕ → ℕ → List ApiKey → List ApiKey
revoked key_id now = map λ k. if k.id == key_id then record k { revoked_at = some now } else k

unfoldable pub revoke : ℕ → Auth ApiKey
revoke key_id = do
  get_key key_id
  λ s. get_key key_id (record s { api_keys = revoked key_id s.clock s.api_keys })

unfoldable pub revoke_api_key : ℕ → Principal → Auth ApiKey
revoke_api_key key_id actor = do
  key ← get_key key_id
  require_scope_in actor (codes "api_keys:delete") key.org_id
  gone ← revoke key_id
  log "api_key.revoked" key.org_id actor.user_id key_id
  pure gone

unfoldable pub find_by_prefix : Text → Accounts → List ApiKey
find_by_prefix key_prefix s =
    filter_by (λ k. text_eq k.key_prefix key_prefix && not (is_some k.revoked_at)) s.api_keys

abbrev pub principal_from_api_key_record : ApiKey → Principal
principal_from_api_key_record key = record {
  kind = PrincipalType.api_key;
  user_id = none;
  org_id = key.org_id;
  role = none;
  scopes = key.scopes;
  api_key_id = some key.id;
}

abbrev pub is_expired : ℕ → Option ℕ → Bool
is_expired now none = false
is_expired now (some at_) = ltb at_ now

-- The loop over the candidates, up to the first with the right hash.
unfoldable pub first_match : ℕ → Text → List ApiKey → Answer Principal
first_match now key_hash [] = err bad_key
first_match now key_hash (k ∷ ks) =
    let later = first_match now key_hash ks in
    if not (text_eq k.key_hash key_hash)
    then later
    else if is_some k.revoked_at
    then err key_revoked
    else if is_expired now k.expires_at
    then err key_expired
    else ok (principal_from_api_key_record k)

unfoldable pub resolve_principal_from_api_key : Crypto → Text → Accounts → Answer Principal
resolve_principal_from_api_key crypto raw_key s =
    if not (starts_with crypto.api_key_prefix raw_key)
    then err bad_format
    else first_match s.clock (crypto.hash_api_key raw_key) (find_by_prefix (take 12 raw_key) s)
