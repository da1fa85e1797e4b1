-- ===== src/SessionManager.antt =====
-- modules/session_manager/application/service.py: SessionManager. PostgreSQL holds a session's
-- status, Redis its ephemeral state, which is rebuilt from the row when it has expired.
-- Logging, tracing and the metric counters are left out: nothing reads them back.
pub mod Heartbeat
pub mod Reconcile
pub mod Lifecycle
pub mod Handoffs
pub mod Frame
pub mod Silent
pub mod ToolFailures
mod Tests
use vox_forge.Common.{
  ℕ, ◌+◌, String, Text, Bool, true, false, Option, none, some, List, [], ◌∷◌, ◌++◌, ltb,
  if◌then◌else◌, codes,
}
use vox_forge.Domain.Json.{Value, Fields, obj, num, flag, text, null, end, lookup, insert, remove}
use vox_forge.Domain.Session.{
  SessionStatus, SessionPhase, TransportType, MessageRole, VoiceSession, Message, SessionState,
  SessionEvent, session_created, session_resumed, session_ended, is_terminal,
}
use vox_forge.Domain.Handoff.{Float}
use vox_forge.Store.World.{World, Settings}
use vox_forge.Store.Exec.{
  Exec, Error, session_state, value_error, pure, raise, raise_if, gets, modify, ◌>>=◌, ◌>>◌, try,
}
use vox_forge.Store.Redis
use vox_forge.Store.Sessions

pub record TurnMetrics : Type 0 where
  pub stt_ms : Option Float
  pub llm_first_token_ms : Option Float
  pub tts_first_byte_ms : Option Float
  pub e2e_ms : Option Float

abbrev publish : SessionEvent → Exec Unit
publish event = modify λ w. record w { published = w.published ++ event ∷ [] }

unfoldable pub phase_for_status : SessionStatus → SessionPhase
phase_for_status SessionStatus.handoff_pending = SessionPhase.handoff_pending
phase_for_status SessionStatus.handoff_active = SessionPhase.handoff_active
phase_for_status SessionStatus.active = SessionPhase.listening
phase_for_status _ = SessionPhase.idle

-- `SessionState(session_id=…, phase=…, config=…)` with the other fields at their defaults
abbrev pub new_state : ℕ → SessionPhase → Fields → SessionState
new_state session_id phase config = record {
  session_id = session_id;
  phase = phase;
  sequence = 0;
  interrupt = false;
  last_heartbeat = none;
  config = config;
}

-- `int(value)`
abbrev int : Settings → Value → Exec ℕ
int settings (num n) = pure n
int settings (flag b) = pure (if b then 1 else 0)
int settings (text t) = elim (settings.int_of_text t) [
  | some n ↦ pure n
  | none ↦ raise (value_error "int")
]
int settings _ = raise (value_error "int")

-- `d.get(k, default)`
abbrev pub get_default : String → Value → Fields → Value
get_default k default d = elim (lookup k d) [ none ↦ default | some v ↦ v ]

module _ (settings : Settings) where
  unfoldable pub ttl_for_status : SessionStatus → ℕ
  ttl_for_status SessionStatus.handoff_pending = settings.handoff_session_ttl_seconds
  ttl_for_status SessionStatus.handoff_active = settings.handoff_session_ttl_seconds
  ttl_for_status _ = settings.session_state_ttl_seconds

  pub write_ephemeral_state : ℕ → SessionState → SessionStatus → Exec Unit
  write_ephemeral_state session_id state status = do
    Redis.save_state settings state (some (ttl_for_status status))
    Redis.record_heartbeat settings session_id

  -- `_ensure_ephemeral_state`
  pub ensure_for : VoiceSession → Exec SessionState
  ensure_for session = do
    existing ← Redis.get_state_or_none settings session.id
    elim existing [
      | some state ↦ pure state
      | none ↦ if is_terminal session.status then raise (session_state session.id) else do
        let state = new_state session.id (phase_for_status session.status) session.metadata
        write_ephemeral_state session.id state session.status
        pure state
    ]

  pub load_or_reconcile_state : ℕ → Exec SessionState
  load_or_reconcile_state session_id = do
    state ← Redis.get_state_or_none settings session_id
    elim state [
      | some s ↦ pure s
      | none ↦ (do session ← Sessions.get session_id none; ensure_for session)
    ]

  pub create_session : TransportType → Fields → Option ℕ → Option ℕ → Exec VoiceSession
  create_session transport_type config org_id created_by_user_id = do
    session ← Sessions.create transport_type config org_id created_by_user_id
    let state = new_state session.id SessionPhase.idle config
    try (write_ephemeral_state session.id state session.status) λ e. do
      Sessions.end_session session.id SessionStatus.failed
      raise (session_state session.id)
    publish (session_created session.id)
    pure session

  pub activate_session : ℕ → Exec VoiceSession
  activate_session session_id = do
    session ← Sessions.get session_id none
    elim session.status [
      | SessionStatus.active ↦ pure session
      | other ↦ if is_terminal other then raise (session_state session_id) else do
        session' ← Sessions.update_status session_id SessionStatus.active
        ensure_for session'
        Redis.update_phase settings session_id SessionPhase.listening
        pure session'
    ]

  -- the state that `resume_session` reads, rebuilt if it is gone
  pub resume_state : VoiceSession → Exec SessionState
  resume_state session = do
    found ← Redis.get_state_or_none settings session.id
    elim found [
      | some state ↦ pure state
      | none ↦ (do ensure_for session; Redis.get_state settings session.id)
    ]

  -- `resume_session` from the state that it has read
  pub resume_from : VoiceSession → ℕ → SessionState → Exec VoiceSession
  resume_from session last_sequence state = do
    if ltb state.sequence last_sequence
        then write_ephemeral_state session.id (record state { sequence = last_sequence })
            session.status
        else pure tt
    Redis.record_heartbeat settings session.id
    publish (session_resumed session.id last_sequence)
    pure session

  pub resume_session : ℕ → ℕ → Exec VoiceSession
  resume_session session_id last_sequence = do
    session ← Sessions.get session_id none
    raise_if (is_terminal session.status) (session_state session_id)
    state ← resume_state session
    resume_from session last_sequence state

  -- `_best_effort_delete_redis`
  pub best_effort_delete : ℕ → Exec Bool
  best_effort_delete session_id =
      try (do Redis.delete_state settings session_id; pure true) λ e. pure false

  pub end_session : ℕ → String → Exec VoiceSession
  end_session session_id reason = do
    session ← Sessions.get session_id none
    if is_terminal session.status then (do best_effort_delete session_id; pure session) else do
      ended ← Sessions.end_session session_id SessionStatus.completed
      best_effort_delete session_id
      publish (session_ended session_id reason)
      pure ended

  pub ensure_ephemeral_state : ℕ → Exec SessionState
  ensure_ephemeral_state session_id = do session ← Sessions.get session_id none; ensure_for session

  pub apply_handoff_pending : ℕ → Fields → Exec Unit
  apply_handoff_pending session_id handoff_context = do
    Sessions.update_status session_id SessionStatus.handoff_pending
    state ← load_or_reconcile_state session_id
    let failures = get_default "consecutive_tool_failures" (num 0) state.config
    let config =
        insert "consecutive_tool_failures" failures
          (insert "handoff" (obj handoff_context) state.config)
    write_ephemeral_state session_id
        (record state { phase = SessionPhase.handoff_pending; config = config })
        SessionStatus.handoff_pending

  -- the handoff entry of a config with the id set, if it is a dictionary
  abbrev with_handoff_id : ℕ → Fields → Fields
  with_handoff_id handoff_id config = elim (get_default "handoff" (obj end) config) [
    | obj cfg ↦ insert "handoff" (obj (insert "handoff_id" (num handoff_id) cfg)) config
    | _ ↦ config
  ]

  pub apply_handoff_active : ℕ → ℕ → Exec Unit
  apply_handoff_active session_id handoff_id = do
    Sessions.update_status session_id SessionStatus.handoff_active
    state ← load_or_reconcile_state session_id
    write_ephemeral_state session_id
        (record state {
          phase = SessionPhase.handoff_active;
          config = with_handoff_id handoff_id state.config;
        })
        SessionStatus.handoff_active

  pub clear_handoff : ℕ → Exec Unit
  clear_handoff session_id = do
    Sessions.update_status session_id SessionStatus.active
    state ← load_or_reconcile_state session_id
    write_ephemeral_state session_id
        (record state { phase = SessionPhase.listening; config = remove "handoff" state.config })
        SessionStatus.active

  pub track_tool_failures : ℕ → ℕ → Exec ℕ
  track_tool_failures session_id failed_count = do
    state ← load_or_reconcile_state session_id
    before ← int settings (get_default "consecutive_tool_failures" (num 0) state.config)
    let current : ℕ = if ltb 0 failed_count then before + failed_count else 0
    session ← Sessions.get session_id none
    write_ephemeral_state session_id
        (record state { config = insert "consecutive_tool_failures" (num current) state.config })
        session.status
    pure current

  unfoldable pub get_session_config : ℕ → Exec Fields
  get_session_config session_id = do
    state ← Redis.get_state_or_none settings session_id
    elim state [
      | some s ↦ pure s.config
      | none ↦ (do session ← Sessions.get session_id none; pure session.metadata)
    ]

  pub get_session_phase : ℕ → Exec SessionPhase
  get_session_phase session_id = do
    state ← Redis.get_state_or_none settings session_id
    elim state [
      | some s ↦ pure s.phase
      | none ↦ (do session ← Sessions.get session_id none; pure (phase_for_status session.status))
    ]

  pub is_stale : ℕ → Exec Bool
  is_stale session_id = Redis.is_stale settings session_id settings.session_stale_timeout_seconds

unfoldable pub save_message : MessageRole → ℕ → Text → Fields → Exec Message
save_message role session_id content metadata =
    Sessions.add_message session_id role content metadata

-- A metric is stored if it was measured.
abbrev add_measured : ℕ → String → Option Float → Exec Unit
add_measured session_id name none = pure tt
add_measured session_id name (some v) = Sessions.add_metric session_id name v >> pure tt

unfoldable pub save_turn_metrics : ℕ → TurnMetrics → Exec Unit
save_turn_metrics session_id m = do
  add_measured session_id "stt_ms" m.stt_ms
  add_measured session_id "llm_first_token_ms" m.llm_first_token_ms
  add_measured session_id "tts_first_byte_ms" m.tts_first_byte_ms
  add_measured session_id "e2e_ms" m.e2e_ms
