-- ===== src/Tools/Tests.antt =====
-- The registries and the router on small inputs.
use vox_forge.Common.{
  ◌≡◌, refl, codes, sym, ap, ◌∙◌, Bool, text_eq, if◌then◌else◌, join, true, false, none, some, List,
  [], ◌∷◌, ◌++◌, Option,
}
use vox_forge.Domain.Json.{end, Fields}
use vox_forge.Domain.Tools.{ToolDefinition, ToolCallStatus, ToolCallRecord, McpServerStatus}
use vox_forge.Store.World.{World}
use vox_forge.Store.Sample.{running}
use vox_forge.Tools.Dict.{get, put}
use vox_forge.Tools.McpRegistry.{
  register_internal_support_tools, ServerConfig, empty_registry, unregister_server,
}
use vox_forge.Tools.McpRegistry.Routes.{
  Change, registers, adds_internal, apply, apply_all, Unrouted, unregister_server-Unrouted,
}
use vox_forge.Tools.Router.{
  returned, Handler, ToolContext, ToolRegistry, last_named, list_definitions, add_handlers,
  new_registry, check_required_scopes, execute,
}
use vox_forge.Tools.Router.Scopes.{with_internal, check_required_scopes-internal}
use vox_forge.Tools.Router.Audit.{audit_row, Quiet, execute-audits}

abbrev alpha : ServerConfig
alpha = record { server_id = codes "a"; settings = end }

abbrev lookup_tool : ToolDefinition
lookup_tool = record { name = codes "lookup"; required_scopes = codes "knowledge:read" ∷ [] }

abbrev changes : List Change
changes =
    registers (λ x y. false) alpha (lookup_tool ∷ []) McpServerStatus.healthy
    ∷ adds_internal (codes "ticket" ∷ [])
    ∷ []

abbrev ticket : Handler
ticket = record {
  name = codes "ticket";
  required_scopes = codes "handoffs:write" ∷ [];
  invoke = λ context arguments w. (returned (codes "done"), w);
}

abbrev registry : ToolRegistry
registry = new_registry [] (ticket ∷ []) none (λ server name arguments w. (
  returned (record {
    tool_name = name;
    output = codes "found";
    status = ToolCallStatus.success;
    error = none;
  }),
  w,
))

-- Without the internal registration, the scope of the handler is asked for.
ticket_refused :
    check_required_scopes registry (codes "ticket") []
    ≡ some (codes "Missing required scope(s) for tool 'ticket': handoffs:write")
unfolding check_required_scopes last_named list_definitions new_registry add_handlers put join
ticket_refused = refl

unregister_server-Unrouted_example :
    Unrouted
      (codes "lookup")
      (codes "a")
      (unregister_server (codes "a") (apply_all changes empty_registry))
unfolding apply_all apply register_internal_support_tools
unregister_server-Unrouted_example =
    unregister_server-Unrouted (codes "lookup") (codes "a") changes refl

check_required_scopes-internal_example :
    check_required_scopes
      (with_internal (codes "ticket" ∷ []) empty_registry registry)
      (codes "ticket")
      []
    ≡ none
check_required_scopes-internal_example =
    check_required_scopes-internal (codes "ticket" ∷ []) empty_registry registry (codes "ticket") []
      refl

abbrev context : ToolContext
context = record { org_id = some 1; session_id = some 7 }

abbrev rows_after : ToolContext → Fields → World → Option Handler → List ToolCallRecord
rows_after c arguments w none = w.tool_calls
rows_after c arguments w (some h) = (h.invoke c arguments w).1.tool_calls

ticket_quiet :
    (c : ToolContext) (arguments : Fields) (w : World) (b : Bool)
    → rows_after c arguments w (if b then some ticket else none) ≡ w.tool_calls
ticket_quiet c arguments w true = refl
ticket_quiet c arguments w false = refl

quiet : Quiet registry
unfolding new_registry add_handlers put get
quiet = record {
  handlers = λ name h c arguments w found.
      sym (ap (rows_after c arguments w) found)
      ∙ ticket_quiet c arguments w (text_eq (codes "ticket") name);
  servers = λ server name arguments w. refl;
}

execute-audits_example :
    (execute registry true context
      (codes "ticket")
      end
      (codes "handoffs:write" ∷ [])
      running).1.tool_calls
    ≡ running.tool_calls
      ++ audit_row context
          (codes "ticket")
          end
          (execute registry true context
            (codes "ticket")
            end
            (codes "handoffs:write" ∷ [])
            running).0
        ∷ []
unfolding check_required_scopes last_named list_definitions new_registry add_handlers put
execute-audits_example =
    execute-audits registry context (codes "ticket") end running (codes "handoffs:write" ∷ []) quiet
