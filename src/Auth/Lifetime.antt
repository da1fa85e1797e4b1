-- ===== src/Auth/Lifetime.antt =====
-- A key from its creation to its revocation.
use vox_forge.Common.{
  ℕ, ◌≡◌, refl, ◌∙◌, Text, Bool, true, false, not, Option, none, some, ltb, List, [], ◌∷◌, ◌++◌,
  ◌&&◌, ◌||◌, ◌==◌, any, all, filter_by, take, text_eq, text_eq_refl, starts_with, is_some, arith,
  if◌then◌else◌,
}
use mathlib.Core.Path.{subst}
use vox_forge.Auth.Scopes.{Principal, PrincipalType}
use vox_forge.Auth.Keys.{
  Crypto, ApiKey, Accounts, Answer, ok, err, bad_key, key_expired, require_scope_in, create_api_key,
  insert_key, log, get_key, revoke, revoked, revoke_api_key, find_by_prefix, first_match,
  is_expired, resolve_principal_from_api_key, principal_from_api_key_record, new_key,
}
use vox_forge.Auth.Grants.{check_grants-state}

starts_with-prefix : (p t : Text) → starts_with p (p ++ t) ≡ true
starts_with-prefix [] t = refl
starts_with-prefix (c ∷ p) t = ground (arith, starts_with-prefix p t)

-- Whether some key has this hash.
abbrev pub has_hash : Text → List ApiKey → Bool
has_hash h = any λ k. text_eq k.key_hash h

abbrev pub verdict : ℕ → ApiKey → Answer Principal
verdict now key =
    if is_expired now key.expires_at
    then err key_expired
    else ok (principal_from_api_key_record key)

match-last :
    (now : ℕ) (h : Text) (p : ApiKey → Bool) (keys : List ApiKey) (key : ApiKey)
    → has_hash h keys ≡ false
    → text_eq key.key_hash h ≡ true
    → p key ≡ true
    → is_some key.revoked_at ≡ false
    → first_match now h (filter_by p (keys ++ key ∷ [])) ≡ verdict now key
unfolding first_match
match-last now h p [] key new same kept live = ground (arith, same, kept, live)
match-last now h p (k ∷ keys) key new same kept live =
    ground (arith, new, match-last now h p keys key (ground (arith, new)) same kept live)

module _ (crypto : Crypto) (org_id : ℕ) (name : Text) (scopes : List Text) (actor : Principal)
    (expires_at : Option ℕ) (s s' : Accounts) (key : ApiKey) (raw_key : Text)
    (made : create_api_key crypto org_id name scopes actor expires_at s
      ≡ (ok (key, raw_key), s')) where
  abbrev the_key : ApiKey
  the_key = (new_key crypto org_id name scopes actor.user_id expires_at s).0

  abbrev the_raw_key : Text
  the_raw_key = (new_key crypto org_id name scopes actor.user_id expires_at s).1

  made-key : (key ≡ the_key) × (raw_key ≡ the_raw_key) × (s'.api_keys ≡ s.api_keys ++ the_key ∷ [])
  unfolding create_api_key require_scope_in insert_key log
  made-key = ground (arith, made, check_grants-state actor scopes s)

  resolve-made :
      (now : ℕ)
      → has_hash (crypto.hash_api_key the_raw_key) s.api_keys ≡ false
      → resolve_principal_from_api_key crypto the_raw_key
          (record s { clock = now; api_keys = s.api_keys ++ the_key ∷ [] })
        ≡ verdict now the_key
  unfolding resolve_principal_from_api_key find_by_prefix
  resolve-made now new = rw (starts_with-prefix crypto.api_key_prefix (crypto.random_suffix s)) (
      match-last now (crypto.hash_api_key the_raw_key)
        (λ k. text_eq k.key_prefix (take 12 the_raw_key) && not (is_some k.revoked_at)) s.api_keys
        the_key new (text_eq_refl (crypto.hash_api_key the_raw_key))
        (ground (arith, text_eq_refl (take 12 the_raw_key))) refl)

-- The keys that a request at another time finds are those of the table.
resolve-keys :
    (crypto : Crypto) (raw_key : Text) (s s' : Accounts)
    → s.clock ≡ s'.clock
    → s.api_keys ≡ s'.api_keys
    → resolve_principal_from_api_key crypto raw_key s
      ≡ resolve_principal_from_api_key crypto raw_key s'
unfolding resolve_principal_from_api_key find_by_prefix
resolve-keys crypto raw_key s s' c k = rw (c, k) refl

-- The raw key that a creation hands out, if its hash is new in the table, stands at any later time for
-- an API key principal without a role or a user, with the organisation and the scopes that it was
-- created for and the id of the new row, unless its expiry, if it has one, is past, when it is refused
-- as expired.
pub resolve-create_api_key :
    (crypto : Crypto) (org_id : ℕ) (name : Text) (scopes : List Text) (actor : Principal)
    (expires_at : Option ℕ) (s s' : Accounts) (key : ApiKey) (raw_key : Text) (now : ℕ)
    → create_api_key crypto org_id name scopes actor expires_at s ≡ (ok (key, raw_key), s')
    → has_hash (crypto.hash_api_key raw_key) s.api_keys ≡ false
    → resolve_principal_from_api_key crypto raw_key (record s' { clock = now }) ≡ (
        if elim expires_at as (λ _. Bool) [ none ↦ false | some limit ↦ ltb limit now ]
        then err key_expired
        else ok (record {
          kind = PrincipalType.api_key;
          user_id = none;
          org_id = org_id;
          role = none;
          scopes = scopes;
          api_key_id = some key.id;
        }))
resolve-create_api_key crypto org_id name scopes actor expires_at s s' key raw_key now made new =
    let (same_key, same_raw, rows) =
      made-key crypto org_id name scopes actor expires_at s s' key raw_key made in
    let row = the_key crypto org_id name scopes actor expires_at s s' key raw_key made in
    let raw = the_raw_key crypto org_id name scopes actor expires_at s s' key raw_key made in
    rw (same_raw, same_key)
      (resolve-keys crypto raw (record s' { clock = now })
          (record s { clock = now; api_keys = s.api_keys ++ row ∷ [] }) refl rows
        ∙ resolve-made crypto org_id name scopes actor expires_at s s' key raw_key made now
            (subst (λ r. has_hash (crypto.hash_api_key r) s.api_keys ≡ false) same_raw new))

no_match :
    (now : ℕ) (h : Text) (p : ApiKey → Bool) (keys : List ApiKey)
    → any (λ k. p k && text_eq k.key_hash h) keys ≡ false
    → first_match now h (filter_by p keys) ≡ err bad_key
unfolding first_match
no_match now h p [] e = refl
no_match now h p (k ∷ keys) e = ground (arith, e, no_match now h p keys (ground (arith, e)))

-- Rows of one hash have this id, so that the revocation of the id leaves none of them live.
abbrev pub OneId : ℕ → Text → List ApiKey → Type 0
OneId key_id h keys = all (λ k. not (text_eq k.key_hash h) || k.id == key_id) keys ≡ true

revoked-none :
    (key_id now : ℕ) (h prefix : Text) (keys : List ApiKey)
    → OneId key_id h keys
    → any
        (λ k. (text_eq k.key_prefix prefix && not (is_some k.revoked_at)) && text_eq k.key_hash h)
        (revoked key_id now keys)
      ≡ false
revoked-none key_id now h prefix [] one = refl
revoked-none key_id now h prefix (k ∷ keys) one =
    ground (arith, one, revoked-none key_id now h prefix keys (ground (arith, one)))

revoke-rows :
    (key_id : ℕ) (actor : Principal) (s s' : Accounts) (gone : ApiKey)
    → revoke_api_key key_id actor s ≡ (ok gone, s')
    → s'.api_keys ≡ revoked key_id s.clock s.api_keys
unfolding revoke_api_key require_scope_in revoke get_key log
revoke-rows key_id actor s s' gone run = ground (arith, run)

-- Once a key is revoked, its raw key is refused at any time, if no other row has its hash.
pub resolve-revoke_api_key :
    (crypto : Crypto) (key_id : ℕ) (actor : Principal) (s s' : Accounts) (gone : ApiKey)
    (raw_key : Text) (now : ℕ)
    → revoke_api_key key_id actor s ≡ (ok gone, s')
    → OneId key_id (crypto.hash_api_key raw_key) s.api_keys
    → starts_with crypto.api_key_prefix raw_key ≡ true
    → resolve_principal_from_api_key crypto raw_key (record s' { clock = now }) ≡ err bad_key
unfolding resolve_principal_from_api_key find_by_prefix
resolve-revoke_api_key crypto key_id actor s s' gone raw_key now run one format =
    rw (format, revoke-rows key_id actor s s' gone run)
      (no_match now (crypto.hash_api_key raw_key)
        (λ k. text_eq k.key_prefix (take 12 raw_key) && not (is_some k.revoked_at))
        (revoked key_id s.clock s.api_keys)
        (revoked-none key_id s.clock (crypto.hash_api_key raw_key) (take 12 raw_key) s.api_keys
          one))
