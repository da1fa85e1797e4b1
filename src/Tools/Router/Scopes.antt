-- ===== src/Tools/Router/Scopes.antt =====
-- `_check_required_scopes` against the definitions that the registries list.
use vox_forge.Common.{
  ◌≡◌, refl, ◌∙◌, ap, Text, text_eq_iff, true, Option, none, some, List, [], ◌∷◌, ◌++◌, map,
  if◌then◌else◌, arith,
}
use vox_forge.Domain.Tools.{ToolDefinition}
use vox_forge.Tools.Dict.{values}
use vox_forge.Tools.McpRegistry.{
  McpRegistry, register_internal_support_tools, list_tool_definitions,
}
use vox_forge.Tools.Router.{
  ToolRegistry, definition_of, last_named, list_definitions, check_required_scopes, is_among,
  scope_error,
}

abbrev or_else : Option ToolDefinition → Option ToolDefinition → Option ToolDefinition
or_else later earlier = elim later [ some found ↦ some found | none ↦ earlier ]

last_named-append :
    (name : Text) (xs ys : List ToolDefinition)
    → last_named name (xs ++ ys) ≡ or_else (last_named name ys) (last_named name xs)
unfolding last_named
last_named-append name [] ys = ground arith
last_named-append name (x ∷ xs) ys = ground (arith, last_named-append name xs ys)

abbrev internal_definition : Text → ToolDefinition
internal_definition name = record { name = name; required_scopes = [] }

last_named-internal :
    (name : Text) (names : List Text)
    → last_named name (map internal_definition names)
      ≡ (if is_among names name then some (internal_definition name) else none)
unfolding last_named
last_named-internal name [] = refl
last_named-internal name (n ∷ names) =
    ground (arith, text_eq_iff n name, last_named-internal name names)

-- The registries with the support tools offered by the MCP registry as well.
abbrev pub with_internal : List Text → McpRegistry → ToolRegistry → ToolRegistry
with_internal names m r = record r { mcp_registry = some (register_internal_support_tools names m) }

list_definitions-internal :
    (names : List Text) (m : McpRegistry) (r : ToolRegistry)
    → list_definitions (with_internal names m r)
      ≡ map definition_of (values r.handlers)
        ++ (values m.tool_index ++ map internal_definition names)
unfolding list_definitions list_tool_definitions register_internal_support_tools
list_definitions-internal names m r = refl

last_named-listed :
    (names : List Text) (m : McpRegistry) (r : ToolRegistry) (name : Text)
    → is_among names name ≡ true
    → last_named name (list_definitions (with_internal names m r)) ≡ some (internal_definition name)
last_named-listed names m r name among =
    ap (last_named name) (list_definitions-internal names m r)
    ∙ ground (
      arith,
      last_named-append name (map definition_of (values r.handlers))
          (values m.tool_index ++ map internal_definition names),
      last_named-append name (values m.tool_index) (map internal_definition names),
      last_named-internal name names,
      among,
    )

-- Once a tool is among those registered as internal support tools, the router asks no scope for it,
-- whatever scopes its handler or a server's definition requires.
pub check_required_scopes-internal :
    (names : List Text) (m : McpRegistry) (r : ToolRegistry) (name : Text) (scopes : List Text)
    → is_among names name ≡ true
    → check_required_scopes (with_internal names m r) name scopes ≡ none
unfolding check_required_scopes
check_required_scopes-internal names m r name scopes among =
    ap (scope_error name scopes) (last_named-listed names m r name among)
