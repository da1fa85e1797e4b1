-- ===== src/Tools/McpRegistry/Routes.antt =====
-- What the registry knows about tools along any sequence of its operations.
use vox_forge.Common.{
  ◌≡◌, ◌≢◌, refl, Text, text_eq, text_eq_iff, Bool, true, false, not, Option, none, some, List, [],
  ◌∷◌, ◌&&◌, filter_by, any, is_some, if◌then◌else◌, arith,
}
use vox_forge.Domain.Tools.{ToolDefinition, McpServerStatus}
use vox_forge.Tools.Dict.{Dict, get, pop, get-put, get-pop}
use vox_forge.Tools.McpRegistry.{
  McpRegistry, ServerConfig, Discovery, empty_registry, index_tools, register_server_tools,
  register_failed_server, discover_from, discover_all, register_server, forget_tools,
  unregister_server, register_internal_support_tools, is_mcp_tool, internal_id,
}

-- The name is known as a tool exactly if it has a server.
pub record Routed (name : Text) (m : McpRegistry) : Type 0 where
  pub same : is_some (get name m.tool_index) ≡ is_some (get name m.tool_server_map)

index_tools-Routed :
    (name server_id : Text) (tools : List ToolDefinition) (m : McpRegistry)
    → Routed name m
    → Routed name (index_tools server_id tools m)
unfolding index_tools
index_tools-Routed name server_id [] m h = h
index_tools-Routed name server_id (tool ∷ tools) m h =
    index_tools-Routed name server_id tools _ (record {
      same = ground (
        arith,
        get-put name tool.name tool m.tool_index,
        get-put name tool.name server_id m.tool_server_map,
        h.same,
      );
    })

register_server_tools-Routed :
    (name server_id : Text) (tools : List ToolDefinition) (status : McpServerStatus)
    (m : McpRegistry)
    → Routed name m
    → Routed name (register_server_tools server_id tools status m)
unfolding register_server_tools
register_server_tools-Routed name server_id tools status m h =
    index_tools-Routed name server_id tools _ (record { same = h.same })

discover_from-Routed :
    (name : Text) (discover : Discovery) (servers : List ServerConfig) (m : McpRegistry)
    → Routed name m
    → Routed name (discover_from discover servers m)
unfolding discover_from register_failed_server
discover_from-Routed name discover [] m h = h
discover_from-Routed name discover (server ∷ servers) m h =
    discover_from-Routed name discover servers _ (by_answer (discover server))
  where
    by_answer :
        (o : Option (List ToolDefinition × McpServerStatus))
        → Routed name (elim o as (λ _. McpRegistry) [
          | none ↦ register_failed_server server.server_id m
          | some found ↦ register_server_tools server.server_id found.0 found.1 m
        ])
    by_answer none = record { same = h.same }
    by_answer (some found) = register_server_tools-Routed name server.server_id found.0 found.1 m h

forget_tools-Routed :
    (name server_id : Text) (items : Dict Text) (m : McpRegistry)
    → Routed name m
    → Routed name (forget_tools server_id items m)
unfolding forget_tools
forget_tools-Routed name server_id [] m h = h
forget_tools-Routed name server_id (item ∷ items) m h =
    forget_tools-Routed name server_id items _ (record {
      same =
          ground (
            arith,
            get-pop name item.0 m.tool_index,
            get-pop name item.0 m.tool_server_map,
            h.same,
          );
    })

-- The operations on a registry.
pub data Change : Type 0 where
  discovers : Bool → Discovery → Change
  registers :
      (ServerConfig → ServerConfig → Bool)
      → ServerConfig
      → List ToolDefinition
      → McpServerStatus
      → Change
  unregisters : Text → Change
  adds_internal : List Text → Change

unfoldable pub apply : Change → McpRegistry → McpRegistry
apply (discovers enabled discover) = discover_all enabled discover
apply (registers same server tools status) = register_server same server tools status
apply (unregisters server_id) = unregister_server server_id
apply (adds_internal names) = register_internal_support_tools names

unfoldable pub apply_all : List Change → McpRegistry → McpRegistry
apply_all [] m = m
apply_all (c ∷ cs) m = apply_all cs (apply c m)

apply-Routed :
    (name : Text) (c : Change) (m : McpRegistry) → Routed name m → Routed name (apply c m)
unfolding apply discover_all register_server unregister_server register_internal_support_tools
apply-Routed name (discovers true discover) m h = discover_from-Routed name discover m.servers m h
apply-Routed name (discovers false discover) m h = h
apply-Routed name (registers same server tools status) m h =
    register_server_tools-Routed name server.server_id tools status _
      (record { same = ground (arith, h.same) })
apply-Routed name (unregisters server_id) m h =
    by_internal (m.internal_server && text_eq internal_id server_id)
  where
    by_internal :
        (b : Bool)
        → Routed name (
            if b
            then record m { internal_server = false; internal_tools = [] }
            else forget_tools server_id m.tool_server_map (record m {
              servers = filter_by (λ s. not (text_eq s.server_id server_id)) m.servers;
              server_records = pop server_id m.server_records;
            }))
    by_internal true = record { same = h.same }
    by_internal false =
        forget_tools-Routed name server_id m.tool_server_map _ (record { same = h.same })
apply-Routed name (adds_internal names) m h = record { same = h.same }

-- The items that send the name to the server.
abbrev sends : Text → Text → Text × Text → Bool
sends name server_id item = text_eq item.0 name && text_eq item.1 server_id

forget_tools-get :
    (name server_id : Text) (items : Dict Text) (m : McpRegistry)
    → get name (forget_tools server_id items m).tool_server_map
      ≡ (if any (sends name server_id) items then none else get name m.tool_server_map)
unfolding forget_tools
forget_tools-get name server_id [] m = refl
forget_tools-get name server_id (item ∷ items) m = ground (
  arith,
  forget_tools-get name server_id items (
      if text_eq item.1 server_id
      then record m {
        tool_index = pop item.0 m.tool_index;
        tool_server_map = pop item.0 m.tool_server_map;
      }
      else m),
  get-pop name item.0 m.tool_server_map,
)

get-sends :
    (name server_id : Text) (d : Dict Text)
    → get name d ≡ some server_id
    → any (sends name server_id) d ≡ true
unfolding get
get-sends name server_id [] h = ground (arith, h)
get-sends name server_id (item ∷ d) h =
    ground (arith, text_eq_iff item.1 server_id, get-sends name server_id d)

apply_all-Routed :
    (name : Text) (cs : List Change) (m : McpRegistry)
    → Routed name m
    → Routed name (apply_all cs m)
unfolding apply_all
apply_all-Routed name [] m h = h
apply_all-Routed name (c ∷ cs) m h = apply_all-Routed name cs _ (apply-Routed name c m h)

-- What a tool still needs after its server is gone.
pub record Unrouted (name server_id : Text) (m : McpRegistry) : Type 0 where
  pub known : is_mcp_tool name m ≡ is_some (get name m.tool_server_map)
  pub elsewhere : get name m.tool_server_map ≢ some server_id

unregister-elsewhere :
    (name server_id : Text) (m : McpRegistry)
    → (m.internal_server && text_eq internal_id server_id) ≡ false
    → get name (unregister_server server_id m).tool_server_map ≢ some server_id
unfolding unregister_server
unregister-elsewhere name server_id m external = rw external (
    ground (
      arith,
      forget_tools-get name server_id m.tool_server_map (record m {
        servers = filter_by (λ s. not (text_eq s.server_id server_id)) m.servers;
        server_records = pop server_id m.server_records;
      }),
      get-sends name server_id m.tool_server_map,
    ))

-- After any sequence of discoveries, registrations, removals and internal tools, the removal of a
-- server that is not the internal one leaves no name that is sent to it, and a name is reported as
-- an MCP tool exactly if it still has a server.
pub unregister_server-Unrouted :
    (name server_id : Text) (cs : List Change)
    → ((apply_all cs empty_registry).internal_server && text_eq internal_id server_id) ≡ false
    → Unrouted name server_id (unregister_server server_id (apply_all cs empty_registry))
unfolding is_mcp_tool apply get
unregister_server-Unrouted name server_id cs external = record {
  known =
      (apply-Routed name (unregisters server_id) _
        (apply_all-Routed name cs empty_registry (record { same = refl }))).same;
  elsewhere = unregister-elsewhere name server_id _ external;
}
