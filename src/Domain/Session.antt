-- ===== src/Domain/Session.antt =====
-- core/domain/entities.py, and the lifecycle events of core/domain/events.py.
use vox_forge.Common.{ℕ, String, Bool, true, false, Option}
use vox_forge.Common.{Text}
use vox_forge.Domain.Json.{Fields}

pub data SessionStatus : Type 0 where
  created active interrupted completed failed handoff_pending handoff_active : SessionStatus

pub data SessionPhase : Type 0 where
  idle listening processing speaking handoff_pending handoff_active : SessionPhase

-- core/domain/handoff.py
pub data HandoffStatus : Type 0 where
  pending assigned active completed cancelled : HandoffStatus

pub data MessageRole : Type 0 where
  user assistant system : MessageRole

pub data TransportType : Type 0 where
  websocket webrtc : TransportType

-- A row of `voice_sessions`: the entity, and the two columns that only `link_session` writes.
-- `total_latency_ms` is left out: no code of the repository writes it.
pub record VoiceSession : Type 0 where
  pub id : ℕ
  pub status : SessionStatus
  pub transport_type : TransportType
  pub org_id : Option ℕ
  pub created_by_user_id : Option ℕ
  pub metadata : Fields
  pub started_at : ℕ
  pub ended_at : Option ℕ
  pub handoff_id : Option ℕ
  pub handoff_status : Option HandoffStatus

pub record Message : Type 0 where
  pub id : ℕ
  pub session_id : ℕ
  pub role : MessageRole
  pub content : Text
  pub provider_metadata : Fields
  pub created_at : ℕ

-- `_ChatMessage`: one message of the history that a response generator keeps.
pub record ChatMessage : Type 0 where
  pub role : MessageRole
  pub content : Text

-- Ephemeral streaming state stored in Redis.
pub record SessionState : Type 0 where
  pub session_id : ℕ
  pub phase : SessionPhase
  pub sequence : ℕ
  pub interrupt : Bool
  pub last_heartbeat : Option ℕ
  pub config : Fields

pub data SessionEvent : Type 0 where
  session_created : ℕ → SessionEvent
  session_resumed : ℕ → ℕ → SessionEvent
  session_ended : ℕ → String → SessionEvent

-- `_TERMINAL_STATUSES`
abbrev pub is_terminal : SessionStatus → Bool
is_terminal SessionStatus.completed = true
is_terminal SessionStatus.failed = true
is_terminal _ = false
