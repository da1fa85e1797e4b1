-- ===== src/Auth/Grants.antt =====
-- What principals may do, and what the keys that they make may do.
use vox_forge.Common.{
  ℕ, ◌≡◌, refl, Text, Bool, true, Option, none, some, List, [], ◌∷◌, ◌||◌, all, text_eq→eq,
  text_eq_refl, arith, Bool-cases, inl, inr,
}
use vox_forge.Auth.Scopes.{
  OrgRole, Principal, has_scope, by_role, effective_scopes, principal_has_scopes, member_scopes,
  is_in, scopes_of_role,
}
use vox_forge.Auth.Keys.{
  Crypto, ApiKey, Accounts, ok, require_scope_in, check_grants, create_api_key, insert_key, log,
  principal_from_api_key_record,
}

all-or : (f g : Text → Bool) (xs : List Text) → all g xs ≡ true → all (λ x. f x || g x) xs ≡ true
all-or f g [] h = refl
all-or f g (x ∷ xs) h = ground (arith, h, all-or f g xs)

all-is_in :
    (f : Text → Bool) (xs : List Text) (x : Text) → all f xs ≡ true → is_in xs x ≡ true → f x ≡ true
all-is_in f [] x h e = ground (arith, e)
all-is_in f (y ∷ xs) x h e = ground (arith, h, e, text_eq→eq x y, all-is_in f xs x)

more : (y : Text) (ys xs : List Text) → all (is_in ys) xs ≡ true → all (is_in (y ∷ ys)) xs ≡ true
more y ys [] h = refl
more y ys (x ∷ xs) h = ground (arith, h, more y ys xs)

own : (xs : List Text) → all (is_in xs) xs ≡ true
own [] = refl
own (x ∷ xs) = ground (arith, text_eq_refl x, more x xs xs (own xs))

by_role-member : (role : Option OrgRole) → all (by_role role) member_scopes ≡ true
unfolding by_role
by_role-member none = refl
by_role-member (some OrgRole.owner) = refl
by_role-member (some OrgRole.admin) = refl
by_role-member (some OrgRole.member) = refl

-- Every principal holds every scope of a member, an API key included, whatever scopes it was made
-- with.
pub has_scope-member : (p : Principal) → principal_has_scopes p member_scopes ≡ true
unfolding principal_has_scopes has_scope
has_scope-member p = all-or (is_in p.scopes) (by_role p.role) member_scopes (by_role-member p.role)

all-or-left :
    (f g : Text → Bool) (xs : List Text) → all f xs ≡ true → all (λ x. f x || g x) xs ≡ true
all-or-left f g [] h = refl
all-or-left f g (x ∷ xs) h = ground (arith, h, all-or-left f g xs)

by_role-own : (role : Option OrgRole) → all (by_role role) (scopes_of_role role) ≡ true
unfolding by_role
by_role-own none = refl
by_role-own (some OrgRole.owner) = refl
by_role-own (some OrgRole.admin) = refl
by_role-own (some OrgRole.member) = refl

-- Every scope that a principal is reported to have passes the scope check.
pub has_scope-effective_scopes :
    (p : Principal) → principal_has_scopes p (effective_scopes p) ≡ true
unfolding principal_has_scopes has_scope effective_scopes
has_scope-effective_scopes p = go p.scopes p.role
  where
    go :
        (scopes : List Text) (role : Option OrgRole)
        → all
            (λ s. is_in scopes s || by_role role s)
            (elim scopes [ [] ↦ scopes_of_role role | s ∷ ss ↦ s ∷ ss ])
          ≡ true
    go [] role = all-or (is_in []) (by_role role) (scopes_of_role role) (by_role-own role)
    go (s ∷ ss) role = all-or-left (is_in (s ∷ ss)) (by_role role) (s ∷ ss) (own (s ∷ ss))

pub check_grants-state :
    (actor : Principal) (scopes : List Text) (s : Accounts) → (check_grants actor scopes s).1 ≡ s
unfolding check_grants
check_grants-state actor [] s = refl
check_grants-state actor (x ∷ scopes) s = ground (arith, check_grants-state actor scopes s)

check_grants-all :
    (actor : Principal) (scopes : List Text) (s : Accounts)
    → (check_grants actor scopes s).0 ≡ ok tt
    → all (has_scope actor) scopes ≡ true
unfolding check_grants
check_grants-all actor [] s h = refl
check_grants-all actor (x ∷ scopes) s h = ground (arith, h, check_grants-all actor scopes s)

module _ (crypto : Crypto) (org_id : ℕ) (name : Text) (scopes : List Text) (actor : Principal)
    (expires_at : Option ℕ) (s s' : Accounts) (key : ApiKey) (raw_key : Text)
    (made : create_api_key crypto org_id name scopes actor expires_at s
      ≡ (ok (key, raw_key), s')) where
  key-granted :
      ((check_grants actor scopes s).0 ≡ ok tt)
      × (key.scopes ≡ scopes)
      × (key.org_id ≡ actor.org_id)
  unfolding create_api_key require_scope_in insert_key log
  key-granted = ground (arith, made, check_grants-state actor scopes s)

  -- A key that was made is in its maker's organisation, and whatever scope the key holds, its maker
  -- holds as well: no key gives more than its maker has.
  pub create_api_key-bounded :
      (scope : Text)
      → has_scope (principal_from_api_key_record key) scope ≡ true
      → (has_scope actor scope ≡ true) × (key.org_id ≡ actor.org_id)
  unfolding has_scope by_role principal_has_scopes
  create_api_key-bounded scope held =
      let (granted, same, org) = key-granted in
      (
        elim (Bool-cases (is_in key.scopes scope)) [
          | inl listed ↦
              all-is_in (has_scope actor) scopes scope (check_grants-all actor scopes s granted)
                (ground (arith, listed, same))
          | inr other ↦
              all-is_in (has_scope actor) member_scopes scope (has_scope-member actor)
                (ground (arith, held, other))
        ],
        org,
      )
