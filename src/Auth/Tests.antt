-- ===== src/Auth/Tests.antt =====
-- Keys in a small table.
use vox_forge.Common.{ltb, ◌≡◌, refl, Text, codes, true, none, some, List, [], ◌∷◌, if◌then◌else◌}
use vox_forge.Auth.Scopes.{
  OrgRole, PrincipalType, Principal, has_scope, by_role, principal_has_scopes, member_scopes,
}
use vox_forge.Auth.Keys.{
  Crypto, ApiKey, Accounts, ok, err, bad_key, key_expired, create_api_key, revoke_api_key, new_key,
  resolve_principal_from_api_key, principal_from_api_key_record, require_scope_in, check_grants,
  insert_key, log, get_key, revoke,
}
use vox_forge.Auth.Grants.{has_scope-member, create_api_key-bounded}
use vox_forge.Auth.Lifetime.{resolve-create_api_key, resolve-revoke_api_key}

-- The hash keeps the key, so that different keys have different hashes.
abbrev crypto : Crypto
crypto = record {
  api_key_prefix = codes "vf_";
  hash_api_key = λ t. t;
  random_suffix = λ s. codes "s3cr3ts3cr3t";
}

abbrev admin : Principal
admin = record {
  kind = PrincipalType.user;
  user_id = some 1;
  org_id = 2;
  role = some OrgRole.admin;
  scopes = [];
  api_key_id = none;
}

abbrev accounts : Accounts
accounts = record { clock = 10; fresh = 4; api_keys = []; audit = [] }

abbrev scopes : List Text
scopes = codes "metrics:read" ∷ []

abbrev made : ApiKey
made = (new_key crypto 2 (codes "ci") scopes (some 1) (some 50) accounts).0

abbrev raw : Text
raw = codes "vf_s3cr3ts3cr3t"

abbrev with_key : Accounts
with_key = record accounts {
  fresh = 5;
  api_keys = made ∷ [];
  audit = record { action = "api_key.created"; org_id = 2; user_id = some 1; resource_id = 4 } ∷ [];
}

creates :
    create_api_key crypto 2 (codes "ci") scopes admin (some 50) accounts
    ≡ (ok (made, raw), with_key)
unfolding create_api_key require_scope_in check_grants insert_key log has_scope by_role
creates = refl

abbrev gone : ApiKey
gone = record made { revoked_at = some 10 }

abbrev without_key : Accounts
without_key = record with_key {
  api_keys = gone ∷ [];
  audit =
      record { action = "api_key.created"; org_id = 2; user_id = some 1; resource_id = 4 }
      ∷ record { action = "api_key.revoked"; org_id = 2; user_id = some 1; resource_id = 4 }
      ∷ [];
}

revokes : revoke_api_key 4 admin with_key ≡ (ok gone, without_key)
unfolding revoke_api_key require_scope_in get_key revoke log has_scope by_role
revokes = refl

-- The key was made to read metrics.
has_scope-member_example :
    principal_has_scopes (principal_from_api_key_record made) member_scopes ≡ true
has_scope-member_example = has_scope-member (principal_from_api_key_record made)

create_api_key-bounded_example :
    (has_scope admin (codes "metrics:read") ≡ true) × (made.org_id ≡ admin.org_id)
unfolding has_scope by_role
create_api_key-bounded_example =
    create_api_key-bounded crypto 2 (codes "ci") scopes admin (some 50) accounts with_key made raw
      creates (codes "metrics:read") refl

resolve-create_api_key_example :
    resolve_principal_from_api_key crypto raw (record with_key { clock = 50 }) ≡ (
      if ltb 50 50
      then err key_expired
      else ok (record {
        kind = PrincipalType.api_key;
        user_id = none;
        org_id = 2;
        role = none;
        scopes = scopes;
        api_key_id = some made.id;
      }))
resolve-create_api_key_example =
    resolve-create_api_key crypto 2 (codes "ci") scopes admin (some 50) accounts with_key made raw
      50 creates refl

resolve-revoke_api_key_example :
    resolve_principal_from_api_key crypto raw (record without_key { clock = 11 }) ≡ err bad_key
resolve-revoke_api_key_example =
    resolve-revoke_api_key crypto 4 admin with_key without_key gone raw 11 revokes refl refl
