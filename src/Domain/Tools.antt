-- ===== src/Domain/Tools.antt =====
-- core/domain/tools.py, and the server status of core/domain/mcp.py.
use vox_forge.Common.{ℕ, Text, Option, List}
use vox_forge.Domain.Json.{Fields}

pub data ToolCallStatus : Type 0 where
  success error timeout : ToolCallStatus

-- The fields that decide about a call; descriptions, parameters and versions are only shown.
pub record ToolDefinition : Type 0 where
  pub name : Text
  pub required_scopes : List Text

-- Without the latency, which is only shown.
pub record ToolResult : Type 0 where
  pub tool_name : Text
  pub output : Text
  pub status : ToolCallStatus
  pub error : Option Text

-- A row of `tool_calls`.
pub record ToolCallRecord : Type 0 where
  pub org_id : Option ℕ
  pub session_id : Option ℕ
  pub tool_name : Text
  pub arguments : Fields
  pub output : Text
  pub status : ToolCallStatus
  pub error : Option Text

pub data McpServerStatus : Type 0 where
  healthy degraded offline : McpServerStatus
