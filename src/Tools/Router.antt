-- ===== src/Tools/Router.antt =====
-- modules/mcp_tool_router/application/router.py and registry.py: ToolRouter and ToolRegistry, and
-- ToolCallRepository.record_call of infrastructure/db/tool_repository.py.
pub mod Scopes
pub mod Audit
use vox_forge.Common.{
  ℕ, ◌≡◌, Text, codes, text_eq, Bool, true, false, not, Option, none, some, List, [], ◌∷◌, ◌++◌,
  map, filter_by, any, is_empty, join, if◌then◌else◌,
}
use vox_forge.Domain.Json.{Fields}
use vox_forge.Domain.Tools.{ToolDefinition, ToolResult, ToolCallStatus, ToolCallRecord}
use vox_forge.Store.World.{World}
use vox_forge.Tools.Dict.{Dict, get, put, values}
use vox_forge.Tools.McpRegistry.{
  McpRegistry, ServerConfig, Route, to_server, refused, route, list_tool_definitions, is_mcp_tool,
}

-- How an awaited call ends: with a value, by the timeout of `asyncio.wait_for`, or with an exception
-- that has this text.
pub data Outcome (A : Type 0) : Type 0 where
  returned : A → Outcome A
  timed_out : Outcome A
  raised : Text → Outcome A

abbrev pub Invocation : Type 0 → Type 0
Invocation A = World → Outcome A × World

-- `tool_org_id` and `tool_session_id` during the call
pub record ToolContext : Type 0 where
  pub org_id : Option ℕ
  pub session_id : Option ℕ

-- A tool in this process; what it does is a parameter.
pub record Handler : Type 0 where
  pub name : Text
  pub required_scopes : List Text
  pub invoke : ToolContext → Fields → Invocation Text

pub record ToolRegistry : Type 0 where
  pub handlers : Dict Handler
  pub mcp_registry : Option McpRegistry
  -- the client that calls a tool on a server
  pub invocation : ServerConfig → Text → Fields → Invocation ToolResult

unfoldable pub add_handlers : List Handler → Dict Handler → Dict Handler
add_handlers [] d = d
add_handlers (h ∷ hs) d = add_handlers hs (put h.name h d)

-- The constructor: the builtin tools, then the others.
unfoldable pub new_registry :
    List Handler
    → List Handler
    → Option McpRegistry
    → (ServerConfig → Text → Fields → Invocation ToolResult)
    → ToolRegistry
new_registry builtin extra mcp_registry invocation = record {
  handlers = add_handlers extra (add_handlers builtin []);
  mcp_registry = mcp_registry;
  invocation = invocation;
}

abbrev pub definition_of : Handler → ToolDefinition
definition_of h = record { name = h.name; required_scopes = h.required_scopes }

unfoldable pub list_definitions : ToolRegistry → List ToolDefinition
list_definitions r =
    map definition_of (values r.handlers)
    ++ elim r.mcp_registry [ none ↦ [] | some m ↦ list_tool_definitions m ]

-- `{item.name: item for item in definitions}.get(name)`: the last one of the name.
unfoldable pub last_named : Text → List ToolDefinition → Option ToolDefinition
last_named name [] = none
last_named name (d ∷ ds) =
    let later = last_named name ds in
    elim later [ some found ↦ some found | none ↦ if text_eq d.name name then some d else none ]

abbrev pub is_among : List Text → Text → Bool
is_among allowed scope = any (λ s. text_eq s scope) allowed

abbrev pub missing_scopes : List Text → List Text → List Text
missing_scopes required allowed = filter_by (λ scope. not (is_among allowed scope)) required

abbrev pub scope_error : Text → List Text → Option ToolDefinition → Option Text
scope_error name caller_scopes none = none
scope_error name caller_scopes (some d) = elim (missing_scopes d.required_scopes caller_scopes) [
  | [] ↦ none
  | m ∷ ms ↦ some (
      codes "Missing required scope(s) for tool '"
      ++ name
      ++ codes "': "
      ++ join (codes ", ") (m ∷ ms))
]

-- `_check_required_scopes`: the error, if there is one.
unfoldable pub check_required_scopes : ToolRegistry → Text → List Text → Option Text
check_required_scopes r name caller_scopes =
    scope_error name caller_scopes (last_named name (list_definitions r))

abbrev pub is_mcp : ToolRegistry → Text → Bool
is_mcp r name = elim r.mcp_registry [ none ↦ false | some m ↦ is_mcp_tool name m ]

abbrev pub failed : Text → Text → ToolResult
failed name error = record {
  tool_name = name;
  output = [];
  status = ToolCallStatus.error;
  error = some error;
}

unfoldable pub send : ToolRegistry → Text → Fields → Route → Invocation ToolResult
send r name arguments (to_server server) w = r.invocation server name arguments w
send r name arguments (refused error) w = (returned (failed name error), w)

-- `invoke_mcp` with MCPRuntimeRegistry.invoke
unfoldable pub invoke_mcp :
    ToolRegistry → Text → Fields → Option McpRegistry → Invocation ToolResult
invoke_mcp r name arguments none w = (raised (codes "MCP registry not configured"), w)
invoke_mcp r name arguments (some m) w = send r name arguments (route name m) w

abbrev succeeded : Text → Outcome Text → Outcome ToolResult
succeeded name (returned output) =
    returned
      (record { tool_name = name; output = output; status = ToolCallStatus.success; error = none })
succeeded name timed_out = timed_out
succeeded name (raised e) = raised e

unfoldable pub invoke_handler : ToolContext → Text → Fields → Option Handler → Invocation ToolResult
invoke_handler context name arguments none w = (raised (codes "Unknown tool: " ++ name), w)
invoke_handler context name arguments (some handler) w =
    let (outcome, w') = handler.invoke context arguments w in (succeeded name outcome, w')

unfoldable pub invoke_tool : ToolRegistry → ToolContext → Text → Fields → Invocation ToolResult
invoke_tool r context name arguments w =
    if is_mcp r name
    then invoke_mcp r name arguments r.mcp_registry w
    else invoke_handler context name arguments (get name r.handlers) w

-- The result that the router gives back for the outcome.
unfoldable pub final_result : Text → Outcome ToolResult → ToolResult
final_result name (returned r) = record {
  tool_name = name;
  output = r.output;
  status = r.status;
  error = r.error;
}
final_result name timed_out = record {
  tool_name = name;
  output = [];
  status = ToolCallStatus.timeout;
  error = some (codes "Tool '" ++ name ++ codes "' timed out");
}
final_result name (raised e) = failed name e

abbrev pub row_of : ToolContext → Text → Fields → ToolResult → ToolCallRecord
row_of context name arguments r = record {
  org_id = context.org_id;
  session_id = context.session_id;
  tool_name = name;
  arguments = arguments;
  output = r.output;
  status = r.status;
  error = r.error;
}

-- `record_call`, if there is a repository
unfoldable pub record_call : Bool → ToolCallRecord → World → World
record_call has_repo row w =
    if has_repo then record w { tool_calls = w.tool_calls ++ row ∷ [] } else w

-- What `execute` does after the check of the scopes.
unfoldable pub finish :
    Bool → ToolContext → Text → Fields → Outcome ToolResult × World → ToolResult × World
finish has_repo context name arguments ran =
    let result = final_result name ran.0 in
    (result, record_call has_repo (row_of context name arguments result) ran.1)

-- The early return of `execute` on the error of the scopes.
unfoldable pub unless_refused : Text → Option Text → World → ToolResult × World → ToolResult × World
unless_refused name (some error) w ran = (failed name error, w)
unless_refused name none w ran = ran

unfoldable pub execute :
    ToolRegistry → Bool → ToolContext → Text → Fields → List Text → World → ToolResult × World
execute r has_repo context name arguments caller_scopes w =
    unless_refused name (check_required_scopes r name caller_scopes) w
      (finish has_repo context name arguments (invoke_tool r context name arguments w))
