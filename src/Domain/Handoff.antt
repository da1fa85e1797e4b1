-- ===== src/Domain/Handoff.antt =====
-- core/domain/handoff.py, and the rows of infrastructure/db/models.py that stand behind it.
use vox_forge.Common.{ℕ, String, Bool, Option, Text, List}
use vox_forge.Domain.Json.{Fields}
use vox_forge.Domain.Session.{Message}
pub use vox_forge.Domain.Session.{HandoffStatus}

-- A float is known by its bit pattern; its arithmetic is a parameter of the code that needs it.
abbrev pub Float : Type 0
Float = ℕ

pub data HandoffTrigger : Type 0 where
  confidence_threshold tool_failure user_request policy agent_explicit : HandoffTrigger

pub data HandoffEventType : Type 0 where
  created ticket_created summary_generated replay_linked assigned accepted resumed message completed
        cancelled :
      HandoffEventType

pub data AssignmentStrategy : Type 0 where
  round_robin manual least_loaded : AssignmentStrategy

-- Org-level escalation policy from agent config or support template.
pub record EscalationPolicy : Type 0 where
  pub fallback_to_human : Bool
  pub min_confidence : Float
  pub escalate_on_tool_failure : Bool
  pub max_tool_failures : ℕ
  pub escalate_on_critical_tool_failure : Bool
  pub require_explicit_request : Bool
  pub auto_create_ticket : Bool
  pub assignment_strategy : AssignmentStrategy
  pub handoff_message : Text

pub record HandoffRecord : Type 0 where
  pub id : ℕ
  pub org_id : ℕ
  pub session_id : ℕ
  pub ticket_id : Option Text
  pub ticket_provider : String
  pub status : HandoffStatus
  pub trigger : HandoffTrigger
  pub trigger_reason : Text
  pub confidence_score : Option Float
  pub conversation_summary : Option Text
  pub replay_url : Option Text
  pub replay_token : Option Text
  pub assigned_to_user_id : Option ℕ
  pub assigned_to_email : Option Text
  pub assigned_at : Option ℕ
  pub accepted_at : Option ℕ
  pub completed_at : Option ℕ
  pub metadata : Fields
  pub created_at : ℕ
  pub updated_at : ℕ

pub record HandoffAssignment : Type 0 where
  pub handoff_id : ℕ
  pub assignee_user_id : Option ℕ
  pub assignee_email : Option Text
  pub strategy : AssignmentStrategy

pub record HandoffPackage : Type 0 where
  pub handoff_id : ℕ
  pub session_id : ℕ
  pub ticket_id : Option Text
  pub conversation_summary : Text
  pub replay_url : Text
  pub assignment : Option HandoffAssignment
  pub handoff_message : Text
  pub trigger : HandoffTrigger
  pub confidence_score : Option Float

-- A row of `handoff_events`.
pub record HandoffEvent : Type 0 where
  pub handoff_id : ℕ
  pub org_id : ℕ
  pub event_type : HandoffEventType
  pub payload : Fields
  pub created_at : ℕ

-- A row of `conversation_snapshots`; the messages stand for the JSON that is made of them.
pub record ConversationSnapshot : Type 0 where
  pub handoff_id : ℕ
  pub session_id : ℕ
  pub org_id : ℕ
  pub message_count : ℕ
  pub snapshot : List Message
  pub created_at : ℕ
