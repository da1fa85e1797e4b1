-- ===== src/Tools/McpRegistry.antt =====
-- infrastructure/tools/mcp_runtime_registry.py: MCPRuntimeRegistry. The clients that speak to the
-- servers are parameters: a discovery gives a list of tools or fails.
pub mod Routes
use vox_forge.Common.{
  ◌≡◌, Text, codes, text_eq, Bool, true, false, not, Option, none, some, List, [], ◌∷◌, ◌++◌, ◌&&◌,
  map, filter_by, any, find, is_some, if◌then◌else◌,
}
use vox_forge.Domain.Json.{Fields}
use vox_forge.Domain.Tools.{ToolDefinition, ToolResult, ToolCallStatus, McpServerStatus}
use vox_forge.Tools.Dict.{Dict, get, put, pop, values}

-- A server's configuration with its `_server_id`.
pub record ServerConfig : Type 0 where
  pub server_id : Text
  pub settings : Fields

pub record McpRegistry : Type 0 where
  pub servers : List ServerConfig
  pub server_records : Dict McpServerStatus
  pub tool_index : Dict ToolDefinition
  pub tool_server_map : Dict Text
  pub internal_tools : List ToolDefinition
  pub internal_server : Bool

abbrev pub empty_registry : McpRegistry
empty_registry = record {
  servers = [];
  server_records = [];
  tool_index = [];
  tool_server_map = [];
  internal_tools = [];
  internal_server = false;
}

-- The loop over the tools of a server.
unfoldable pub index_tools : Text → List ToolDefinition → McpRegistry → McpRegistry
index_tools server_id [] m = m
index_tools server_id (tool ∷ tools) m = index_tools server_id tools (record m {
  tool_index = put tool.name tool m.tool_index;
  tool_server_map = put tool.name server_id m.tool_server_map;
})

-- `_register_server_tools`
unfoldable pub register_server_tools :
    Text → List ToolDefinition → McpServerStatus → McpRegistry → McpRegistry
register_server_tools server_id tools status m =
    index_tools server_id tools
      (record m { server_records = put server_id status m.server_records })

-- `_register_failed_server`
unfoldable pub register_failed_server : Text → McpRegistry → McpRegistry
register_failed_server server_id m = record m {
  server_records = put server_id McpServerStatus.offline m.server_records;
}

-- What a discovery of one server gives; `none` where it fails or times out.
abbrev pub Discovery : Type 0
Discovery = ServerConfig → Option (List ToolDefinition × McpServerStatus)

unfoldable pub discover_from : Discovery → List ServerConfig → McpRegistry → McpRegistry
discover_from discover [] m = m
discover_from discover (server ∷ servers) m =
    discover_from discover servers (elim (discover server) [
      | none ↦ register_failed_server server.server_id m
      | some found ↦ register_server_tools server.server_id found.0 found.1 m
    ])

unfoldable pub discover_all : Bool → Discovery → McpRegistry → McpRegistry
discover_all enabled discover m = if enabled then discover_from discover m.servers m else m

-- `register_server`; `same` is Python's equality of the configurations.
unfoldable pub register_server :
    (ServerConfig → ServerConfig → Bool)
    → ServerConfig
    → List ToolDefinition
    → McpServerStatus
    → McpRegistry
    → McpRegistry
register_server same server tools status m =
    register_server_tools server.server_id tools status
      (if any (same server) m.servers then m else record m { servers = m.servers ++ server ∷ [] })

-- The loop over the items of the map, as they were before it.
unfoldable pub forget_tools : Text → Dict Text → McpRegistry → McpRegistry
forget_tools server_id [] m = m
forget_tools server_id (item ∷ items) m = forget_tools server_id items (
    if text_eq item.1 server_id
    then record m {
      tool_index = pop item.0 m.tool_index;
      tool_server_map = pop item.0 m.tool_server_map;
    }
    else m)

abbrev pub internal_id : Text
internal_id = codes "voxforge-support"

unfoldable pub unregister_server : Text → McpRegistry → McpRegistry
unregister_server server_id m =
    if m.internal_server && text_eq internal_id server_id
    then record m { internal_server = false; internal_tools = [] }
    else forget_tools server_id m.tool_server_map (record m {
      servers = filter_by (λ s. not (text_eq s.server_id server_id)) m.servers;
      server_records = pop server_id m.server_records;
    })

-- `register_internal_support_tools`: the definitions that it makes name no scopes.
unfoldable pub register_internal_support_tools : List Text → McpRegistry → McpRegistry
register_internal_support_tools names m = record m {
  internal_tools = map (λ name. record { name = name; required_scopes = [] }) names;
  internal_server = true;
}

unfoldable pub list_tool_definitions : McpRegistry → List ToolDefinition
list_tool_definitions m = values m.tool_index ++ m.internal_tools

unfoldable pub is_mcp_tool : Text → McpRegistry → Bool
is_mcp_tool name m = is_some (get name m.tool_index)

-- What `invoke` does with a call: the server that it goes to, or the error of the result.
pub data Route : Type 0 where
  to_server : ServerConfig → Route
  refused : Text → Route

abbrev is_offline : Option McpServerStatus → Bool
is_offline (some McpServerStatus.offline) = true
is_offline _ = false

unfoldable pub route : Text → McpRegistry → Route
route name m = elim (get name m.tool_server_map) [
  | none ↦ refused (codes "MCP tool '" ++ name ++ codes "' not found in registry")
  | some server_id ↦ elim (find (λ s. text_eq s.server_id server_id) m.servers) [
    | none ↦ refused (codes "MCP server '" ++ server_id ++ codes "' not found")
    | some server ↦
        if is_offline (get server_id m.server_records)
        then refused (codes "MCP server '" ++ server_id ++ codes "' is offline")
        else to_server server
  ]
]
