-- ===== src/Store/World.antt =====
-- The state behind a request. The tables of the open transaction are read and written in place;
-- commit and rollback are the caller's. Redis keys carry the instant at which they expire.
use vox_forge.Common.{ℕ, String, Bool, Option, List, Text, ◌==◌, if◌then◌else◌}
use vox_forge.Domain.Session.{VoiceSession, Message, ChatMessage, SessionState, SessionEvent}
use vox_forge.Domain.Handoff.{Float, HandoffRecord, HandoffEvent, ConversationSnapshot}
use vox_forge.Domain.Tools.{ToolCallRecord}

-- A Redis key's value, and the first instant at which it is gone.
pub record Entry (A : Type 0) : Type 0 where
  pub value : A
  pub expires : ℕ

-- A row of `session_metrics`.
pub record SessionMetric : Type 0 where
  pub session_id : ℕ
  pub metric_name : String
  pub value_ms : Float

pub record World : Type 0 where
  -- what `datetime.now(UTC)` and Redis read, in seconds
  pub clock : ℕ
  -- the next UUID
  pub fresh : ℕ
  pub sessions : ℕ → Option VoiceSession
  pub messages : List Message
  pub metrics : List SessionMetric
  pub handoffs : List HandoffRecord
  pub handoff_events : List HandoffEvent
  pub snapshots : List ConversationSnapshot
  pub states : ℕ → Option (Entry SessionState)
  pub heartbeats : ℕ → Option (Entry ℕ)
  -- whether each Redis command to come fails; none beyond the list's end does
  pub outages : List Bool
  pub published : List SessionEvent
  pub tool_calls : List ToolCallRecord
  -- the response generator's `_history`
  pub histories : ℕ → Option (List ChatMessage)

-- The fields of `Settings` that the session and handoff code reads, and what it calls outside.
pub record Settings : Type 0 where
  pub session_state_ttl_seconds : ℕ
  pub handoff_session_ttl_seconds : ℕ
  pub session_stale_timeout_seconds : ℕ
  pub ticketing_provider : String
  -- `int` of a text
  pub int_of_text : Text → Option ℕ

-- A table or a key space with one key changed.
abbrev pub update {ℓ} : {A : Type ℓ} → (ℕ → Option A) → ℕ → Option A → ℕ → Option A
update f k v q = if k == q then v else f q
