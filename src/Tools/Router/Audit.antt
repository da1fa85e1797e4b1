-- ===== src/Tools/Router/Audit.antt =====
-- The rows that `execute` leaves in the table of tool calls.
use mathlib.Core.List.{append-nil}
use vox_forge.Common.{
  ◌≡◌, refl, sym, Text, true, Option, none, some, List, [], ◌∷◌, ◌++◌, is_some, if◌then◌else◌,
  arith,
}
use vox_forge.Domain.Json.{Fields}
use vox_forge.Domain.Tools.{ToolResult, ToolCallRecord}
use vox_forge.Store.World.{World}
use vox_forge.Tools.Dict.{get}
use vox_forge.Tools.McpRegistry.{McpRegistry, ServerConfig, Route, to_server, refused, route}
use vox_forge.Tools.Router.{
  ToolContext, Handler, ToolRegistry, invoke_mcp, invoke_tool, record_call, execute,
  check_required_scopes, send, invoke_handler, finish, unless_refused,
}

-- The tools themselves write no rows of tool calls.
pub record Quiet (r : ToolRegistry) : Type 0 where
  pub handlers :
      (name : Text) (h : Handler) (context : ToolContext) (arguments : Fields) (w : World)
      → get name r.handlers ≡ some h
      → (h.invoke context arguments w).1.tool_calls ≡ w.tool_calls
  pub servers :
      (server : ServerConfig) (name : Text) (arguments : Fields) (w : World)
      → (r.invocation server name arguments w).1.tool_calls ≡ w.tool_calls

-- The row of a call and what its caller got.
abbrev pub audit_row : ToolContext → Text → Fields → ToolResult → ToolCallRecord
audit_row context name arguments r = record {
  org_id = context.org_id;
  session_id = context.session_id;
  tool_name = name;
  arguments = arguments;
  output = r.output;
  status = r.status;
  error = r.error;
}

module _ (r : ToolRegistry) (context : ToolContext) (name : Text) (arguments : Fields)
    (w : World) where
  send-Quiet : (to : Route) → Quiet r → (send r name arguments to w).1.tool_calls ≡ w.tool_calls
  unfolding send
  send-Quiet (to_server server) quiet = quiet.servers server name arguments w
  send-Quiet (refused error) quiet = refl

  invoke_mcp-Quiet :
      (m : Option McpRegistry)
      → Quiet r
      → (invoke_mcp r name arguments m w).1.tool_calls ≡ w.tool_calls
  unfolding invoke_mcp
  invoke_mcp-Quiet none quiet = refl
  invoke_mcp-Quiet (some m) quiet = send-Quiet (route name m) quiet

  invoke_handler-Quiet :
      (h : Option Handler)
      → get name r.handlers ≡ h
      → Quiet r
      → (invoke_handler context name arguments h w).1.tool_calls ≡ w.tool_calls
  unfolding invoke_handler
  invoke_handler-Quiet none found quiet = refl
  invoke_handler-Quiet (some h) found quiet = quiet.handlers name h context arguments w found

  invoke_tool-Quiet : Quiet r → (invoke_tool r context name arguments w).1.tool_calls ≡ w.tool_calls
  unfolding invoke_tool
  invoke_tool-Quiet quiet = ground (
    arith,
    invoke_mcp-Quiet r.mcp_registry quiet,
    invoke_handler-Quiet (get name r.handlers) refl quiet,
  )

  unless_refused-audits :
      (o : Option Text)
      → Quiet r
      → (unless_refused name o w (
          finish true context name arguments (invoke_tool r context name arguments w))).1.tool_calls
        ≡ w.tool_calls
          ++ (if is_some o
              then []
              else audit_row context name arguments
                  (unless_refused name o w
                    (finish true context name arguments (invoke_tool r context name arguments w))).0
                ∷ [])
  unfolding unless_refused finish record_call
  unless_refused-audits (some error) quiet = sym (append-nil w.tool_calls)
  unless_refused-audits none quiet = rw (invoke_tool-Quiet quiet) refl

  -- With a repository, a call that the scopes refuse leaves no row, and any other call leaves one row
  -- more, whatever the tool did (also an unknown tool, a timeout and an exception): the row has the
  -- organisation, the session, the name and the arguments of the call, and the output, the status and
  -- the error of the result that the caller gets. The tools and the servers are taken to write no
  -- rows themselves.
  pub execute-audits :
      (caller_scopes : List Text)
      → Quiet r
      → (execute r true context name arguments caller_scopes w).1.tool_calls
        ≡ w.tool_calls
          ++ (if is_some (check_required_scopes r name caller_scopes)
              then []
              else audit_row context name arguments
                  (execute r true context name arguments caller_scopes w).0
                ∷ [])
  unfolding execute
  execute-audits caller_scopes quiet =
      unless_refused-audits (check_required_scopes r name caller_scopes) quiet
