-- ===== src/Handoff/Orchestrator.antt =====
-- modules/handoff/application/orchestrator.py: HandoffOrchestrator, and `cancel_handoff` of
-- api/v1/handoffs.py. Tracing, logging, counters and timers are left out.
pub mod Initiate
pub mod Rows
pub mod Accept
pub mod Lifecycle
pub mod Revival
pub mod Again
pub mod Silent
mod Tests
use vox_forge.Common.{
  ℕ, ◌+◌, String, Text, codes, Bool, true, false, not, Option, none, some, List, [], ◌∷◌, ◌++◌,
  ◌==◌, ◌&&◌, ◌||◌, if◌then◌else◌, is_some, get_or, take, length,
}
use vox_forge.Domain.Json.{Value, Fields, null, num, text, end, field, insert}
use vox_forge.Domain.Session.{SessionStatus}
use vox_forge.Domain.Handoff.{
  Float, HandoffTrigger, HandoffStatus, HandoffEventType, AssignmentStrategy, EscalationPolicy,
  HandoffRecord, HandoffAssignment, HandoffPackage,
}
use vox_forge.Store.World.{World, Settings}
use vox_forge.Store.Exec.{
  Exec, Result, Error, value_error, handoff_is, pure, raise, raise_if, gets, or_raise, modify, lift,
  ◌>>=◌, ◌>>◌,
}
use vox_forge.Store.Sessions
use vox_forge.Store.Handoffs
use vox_forge.Store.Handoffs.{status_eq}
use vox_forge.SessionManager
use vox_forge.Handoff.Summary.{summarize}
use vox_forge.Handoff.Replay.{Signing, generate}

pub record TicketCreateRequest : Type 0 where
  pub subject : Text
  pub description : Text
  pub customer_email : Option Text
  pub priority : Text
  pub session_id : Text
  pub conversation_summary : Text
  pub replay_url : Text

-- What the orchestrator calls: the ticketing and assignment providers behind their interfaces,
-- the replay signer, `secrets` and `str` of a UUID.
pub record Services : Type 0 where
  pub create_ticket : TicketCreateRequest → Result Text
  pub assign : ℕ → ℕ → AssignmentStrategy → Exec HandoffAssignment
  pub signing : Signing
  pub fresh_token : World → Text
  pub id_text : ℕ → Text

abbrev pub acceptable_for_accept : HandoffStatus → Bool
acceptable_for_accept s = status_eq s HandoffStatus.pending || status_eq s HandoffStatus.assigned

abbrev pub acceptable_for_complete : HandoffStatus → Bool
acceptable_for_complete s = acceptable_for_accept s || status_eq s HandoffStatus.active

abbrev pub is_terminal : HandoffStatus → Bool
is_terminal s = status_eq s HandoffStatus.completed || status_eq s HandoffStatus.cancelled

-- `record.assigned_to_user_id == user_id`
abbrev pub is_assigned_to : ℕ → HandoffRecord → Bool
is_assigned_to user_id r = elim r.assigned_to_user_id [
  | none ↦ false
  | some assignee ↦ assignee == user_id
]

-- `trigger.value`
abbrev pub trigger_value : HandoffTrigger → Text
trigger_value HandoffTrigger.confidence_threshold = codes "confidence_threshold"
trigger_value HandoffTrigger.tool_failure = codes "tool_failure"
trigger_value HandoffTrigger.user_request = codes "user_request"
trigger_value HandoffTrigger.policy = codes "policy"
trigger_value HandoffTrigger.agent_explicit = codes "agent_explicit"

abbrev pub not_found : Error
not_found = value_error "Handoff not found"

abbrev pub already_accepted : Error
already_accepted = value_error "Handoff already accepted by another agent"

-- The rest of `accept_handoff` once the record has become active.
unfoldable pub activate : Settings → HandoffRecord → ℕ → ℕ → ℕ → Exec HandoffRecord
activate settings r handoff_id org_id user_id = do
  Handoffs.link_session r.session_id handoff_id HandoffStatus.active
  Handoffs.record_event handoff_id org_id HandoffEventType.accepted
      (field "user_id" (num user_id) end)
  SessionManager.apply_handoff_active settings r.session_id handoff_id
  SessionManager.resume_session settings r.session_id 0
  Handoffs.record_event handoff_id org_id HandoffEventType.resumed
      (field "session_id" (num r.session_id) end)
  pure r

-- What follows a conditional update that matched no row.
unfoldable pub accept_lost : ℕ → ℕ → ℕ → Exec HandoffRecord
accept_lost handoff_id org_id user_id = do
  row ← Handoffs.get_handoff handoff_id org_id
  r ← or_raise row not_found
  if status_eq r.status HandoffStatus.active && is_assigned_to user_id r
      then pure r
      else if is_terminal r.status
      then raise (handoff_is r.status)
      else raise already_accepted

-- The columns that an accepting user sets.
abbrev pub accepted_by : ℕ → ℕ → HandoffRecord → HandoffRecord
accepted_by user_id now r = record r { assigned_to_user_id = some user_id; accepted_at = some now }

-- The two ways on from the conditional update.
unfoldable pub after_claim : Settings → ℕ → ℕ → ℕ → Option HandoffRecord → Exec HandoffRecord
after_claim settings handoff_id org_id user_id none = accept_lost handoff_id org_id user_id
after_claim settings handoff_id org_id user_id (some r) =
    activate settings r handoff_id org_id user_id

-- `accept_handoff` from the point where it has read `r`; other requests may have run since.
unfoldable pub accept_read : Settings → HandoffRecord → ℕ → ℕ → ℕ → Exec HandoffRecord
accept_read settings r handoff_id org_id user_id =
    if status_eq r.status HandoffStatus.active
    then (if is_assigned_to user_id r then pure r else raise already_accepted)
    else if is_terminal r.status
    then raise (handoff_is r.status)
    else do
      now ← gets λ w. w.clock
      updated ←
          Handoffs.update_status handoff_id org_id HandoffStatus.active (some acceptable_for_accept)
            (accepted_by user_id now)
      after_claim settings handoff_id org_id user_id updated

unfoldable pub accept_handoff : Settings → ℕ → ℕ → ℕ → Exec HandoffRecord
accept_handoff settings handoff_id org_id user_id = do
  row ← Handoffs.get_handoff handoff_id org_id
  r ← or_raise row not_found
  accept_read settings r handoff_id org_id user_id

-- What follows a conditional update that matched no row: the record as it is, if another request
-- has given it the status wanted.
unfoldable pub finish_lost : HandoffStatus → ℕ → ℕ → Exec HandoffRecord
finish_lost status handoff_id org_id = do
  row ← Handoffs.get_handoff handoff_id org_id
  r ← or_raise row not_found
  if status_eq r.status status then pure r else raise (handoff_is r.status)

unfoldable pub after_complete : Settings → Text → ℕ → ℕ → Option HandoffRecord → Exec HandoffRecord
after_complete settings resolution handoff_id org_id none =
    finish_lost HandoffStatus.completed handoff_id org_id
after_complete settings resolution handoff_id org_id (some r) = do
  Handoffs.link_session r.session_id handoff_id HandoffStatus.completed
  Handoffs.record_event handoff_id org_id HandoffEventType.completed
      (field "resolution" (text resolution) end)
  SessionManager.clear_handoff settings r.session_id
  pure r

-- The columns that completion sets; the metadata is that of the record as it was read.
abbrev pub resolved : Text → HandoffRecord → ℕ → HandoffRecord → HandoffRecord
resolved resolution r now row = record row {
  completed_at = some now;
  metadata = insert "resolution" (text resolution) r.metadata;
}

unfoldable pub complete_read : Settings → Text → HandoffRecord → ℕ → ℕ → Exec HandoffRecord
complete_read settings resolution r handoff_id org_id =
    if status_eq r.status HandoffStatus.completed
    then pure r
    else if status_eq r.status HandoffStatus.cancelled
    then raise (handoff_is HandoffStatus.cancelled)
    else do
      now ← gets λ w. w.clock
      updated ←
          Handoffs.update_status handoff_id org_id HandoffStatus.completed
            (some acceptable_for_complete) (resolved resolution r now)
      after_complete settings resolution handoff_id org_id updated

unfoldable pub complete_handoff : Settings → ℕ → ℕ → Text → Exec HandoffRecord
complete_handoff settings handoff_id org_id resolution = do
  row ← Handoffs.get_handoff handoff_id org_id
  r ← or_raise row not_found
  complete_read settings resolution r handoff_id org_id

unfoldable pub after_cancel : Settings → ℕ → ℕ → Option HandoffRecord → Exec HandoffRecord
after_cancel settings handoff_id org_id none = finish_lost HandoffStatus.cancelled handoff_id org_id
after_cancel settings handoff_id org_id (some r) = do
  Handoffs.record_event handoff_id org_id HandoffEventType.cancelled end
  Handoffs.link_session r.session_id handoff_id HandoffStatus.cancelled
  SessionManager.clear_handoff settings r.session_id
  pure r

unfoldable pub cancel_read : Settings → HandoffRecord → ℕ → ℕ → Exec HandoffRecord
cancel_read settings r handoff_id org_id =
    if status_eq r.status HandoffStatus.cancelled
    then pure r
    else if status_eq r.status HandoffStatus.completed
    then raise (handoff_is HandoffStatus.completed)
    else do
      updated ←
          Handoffs.update_status handoff_id org_id HandoffStatus.cancelled
            (some acceptable_for_complete) (λ row. row)
      after_cancel settings handoff_id org_id updated

unfoldable pub cancel_handoff : Settings → ℕ → ℕ → Exec HandoffRecord
cancel_handoff settings handoff_id org_id = do
  row ← Handoffs.get_handoff handoff_id org_id
  r ← or_raise row not_found
  cancel_read settings r handoff_id org_id
