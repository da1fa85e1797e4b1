-- ===== src/Auth/Scopes.antt =====
-- core/domain/auth.py: roles, scopes and principals.
use vox_forge.Common.{
  ℕ, Text, codes, Bool, true, not, Option, none, some, List, [], ◌∷◌, ◌++◌, ◌||◌, any, all, text_eq,
  starts_with,
}

pub data OrgRole : Type 0 where
  owner admin member : OrgRole

pub data PrincipalType : Type 0 where
  user api_key : PrincipalType

pub record Principal : Type 0 where
  pub kind : PrincipalType
  pub user_id : Option ℕ
  pub org_id : ℕ
  pub role : Option OrgRole
  pub scopes : List Text
  pub api_key_id : Option ℕ

-- `scope in scopes`
abbrev pub is_in : List Text → Text → Bool
is_in scopes scope = any (text_eq scope) scopes

abbrev pub owner_scopes : List Text
owner_scopes =
    codes "sessions:read"
    ∷ codes "sessions:write"
    ∷ codes "sessions:delete"
    ∷ codes "orgs:read"
    ∷ codes "orgs:write"
    ∷ codes "orgs:manage_members"
    ∷ codes "api_keys:read"
    ∷ codes "api_keys:write"
    ∷ codes "api_keys:delete"
    ∷ codes "ws:connect"
    ∷ codes "knowledge:read"
    ∷ codes "knowledge:write"
    ∷ codes "knowledge:delete"
    ∷ codes "handoffs:read"
    ∷ codes "handoffs:write"
    ∷ codes "handoffs:assign"
    ∷ codes "metrics:read"
    ∷ []

abbrev pub admin_scopes : List Text
admin_scopes =
    codes "sessions:read"
    ∷ codes "sessions:write"
    ∷ codes "sessions:delete"
    ∷ codes "orgs:read"
    ∷ codes "orgs:manage_members"
    ∷ codes "api_keys:read"
    ∷ codes "api_keys:write"
    ∷ codes "api_keys:delete"
    ∷ codes "ws:connect"
    ∷ codes "knowledge:read"
    ∷ codes "knowledge:write"
    ∷ codes "knowledge:delete"
    ∷ codes "handoffs:read"
    ∷ codes "handoffs:write"
    ∷ codes "handoffs:assign"
    ∷ codes "metrics:read"
    ∷ []

abbrev pub member_scopes : List Text
member_scopes =
    codes "sessions:read"
    ∷ codes "sessions:write"
    ∷ codes "ws:connect"
    ∷ codes "knowledge:read"
    ∷ codes "handoffs:read"
    ∷ codes "handoffs:write"
    ∷ []

abbrev pub role_scopes : OrgRole → List Text
role_scopes OrgRole.owner = owner_scopes
role_scopes OrgRole.admin = admin_scopes
role_scopes OrgRole.member = member_scopes

abbrev pub all_api_key_scopes : List Text
all_api_key_scopes = owner_scopes ++ admin_scopes ++ member_scopes

-- What a role gives beyond the lists; a principal without a role is given a member's.
unfoldable pub by_role : Option OrgRole → Text → Bool
by_role (some OrgRole.owner) scope = true
by_role (some OrgRole.admin) scope =
    not (starts_with (codes "orgs:delete") scope) || is_in admin_scopes scope
by_role (some OrgRole.member) scope = is_in member_scopes scope
by_role none scope = is_in member_scopes scope

unfoldable pub has_scope : Principal → Text → Bool
has_scope p scope = is_in p.scopes scope || by_role p.role scope

abbrev pub scopes_of_role : Option OrgRole → List Text
scopes_of_role none = []
scopes_of_role (some role) = role_scopes role

unfoldable pub effective_scopes : Principal → List Text
effective_scopes p = elim p.scopes [ [] ↦ scopes_of_role p.role | s ∷ ss ↦ s ∷ ss ]

unfoldable pub principal_has_scopes : Principal → List Text → Bool
principal_has_scopes p required = all (has_scope p) required
