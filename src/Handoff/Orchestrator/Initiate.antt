-- ===== src/Handoff/Orchestrator/Initiate.antt =====
-- modules/handoff/application/orchestrator.py: `initiate_handoff`, and the package that it returns.
use vox_forge.Common.{
  ℕ, Text, codes, Bool, false, not, Option, none, some, [], ◌++◌, ◌&&◌, ◌||◌, if◌then◌else◌,
  is_some, is_empty, get_or, take, length,
}
use vox_forge.Domain.Json.{Value, null, num, text, end, field}
use vox_forge.Domain.Handoff.{
  Float, HandoffTrigger, HandoffStatus, HandoffEventType, AssignmentStrategy, EscalationPolicy,
  HandoffRecord, HandoffAssignment, HandoffPackage,
}
use vox_forge.Store.World.{Settings}
use vox_forge.Store.Exec.{Exec, pure, gets, or_raise, lift, ◌>>=◌, ◌>>◌}
use vox_forge.Store.Sessions
use vox_forge.Store.Handoffs
use vox_forge.Store.Handoffs.{status_eq}
use vox_forge.SessionManager
use vox_forge.Handoff.Summary.{summarize}
use vox_forge.Handoff.Replay.{generate}
use vox_forge.Handoff.Orchestrator.{Services, trigger_value, not_found}

-- A text that is there and not empty.
abbrev pub is_given : Option Text → Bool
is_given none = false
is_given (some t) = not (is_empty t)

-- The stored assignee, if there is one and no assignment was just made.
abbrev stored_assignment : HandoffRecord → Option HandoffAssignment
stored_assignment r =
    if is_some r.assigned_to_user_id || is_given r.assigned_to_email
    then some (record {
      handoff_id = r.id;
      assignee_user_id = r.assigned_to_user_id;
      assignee_email = r.assigned_to_email;
      strategy = AssignmentStrategy.round_robin;
    })
    else none

unfoldable pub to_package :
    HandoffRecord → EscalationPolicy → Option HandoffAssignment → HandoffPackage
to_package r policy assignment = record {
  handoff_id = r.id;
  session_id = r.session_id;
  ticket_id = r.ticket_id;
  conversation_summary = get_or r.conversation_summary [];
  replay_url = get_or r.replay_url [];
  assignment = elim assignment [ some a ↦ some a | none ↦ stored_assignment r ];
  handoff_message = policy.handoff_message;
  trigger = r.trigger;
  confidence_score = r.confidence_score;
}

-- The ticket of a new handoff, if the policy wants one: the preview of its description is the
-- first 500 characters of the summary. `none` keeps the record's own, which is none.
unfoldable pub open_ticket :
    Services
    → EscalationPolicy
    → HandoffRecord
    → Text
    → Option Text
    → Text
    → Text
    → Exec (Option Text)
open_ticket services policy r reason customer_email priority replay_url =
    if policy.auto_create_ticket && not (is_some r.ticket_id)
    then (do
      preview ← summarize r.session_id 50
      ticket_id ← lift (
          services.create_ticket (record {
            subject = codes "Voice handoff — session " ++ services.id_text r.session_id;
            description = reason ++ codes "\n\nConversation preview:\n" ++ take 500 preview;
            customer_email = customer_email;
            priority = priority;
            session_id = services.id_text r.session_id;
            conversation_summary = preview;
            replay_url = replay_url;
          }))
      Handoffs.record_event r.id r.org_id HandoffEventType.ticket_created
          (field "ticket_id" (text ticket_id) end)
      pure (some ticket_id))
    else pure r.ticket_id

-- A JSON value that may be absent.
abbrev json_text : Option Text → Value
json_text none = null
json_text (some t) = text t

abbrev json_id : Option ℕ → Value
json_id none = null
json_id (some n) = num n

abbrev is_assigned : HandoffAssignment → Bool
is_assigned a = is_some a.assignee_user_id || is_given a.assignee_email

-- The columns that a new handoff gets once its package is complete.
abbrev pub packaged :
    Settings
    → Option Text
    → Text
    → Text × Text
    → HandoffAssignment
    → ℕ
    → HandoffRecord
    → HandoffRecord
packaged settings ticket_id summary (replay_url, replay_token) a now r = record r {
  ticket_id = ticket_id;
  ticket_provider = settings.ticketing_provider;
  conversation_summary = some summary;
  replay_url = some replay_url;
  replay_token = some replay_token;
  assigned_to_user_id = a.assignee_user_id;
  assigned_to_email = a.assignee_email;
  assigned_at = if is_assigned a then some now else none;
}

-- `initiate_handoff` from the assignment on: the row gets its package, the session its handoff.
unfoldable pub store_package :
    Settings
    → EscalationPolicy
    → HandoffRecord
    → Option Text
    → Text
    → Text × Text
    → HandoffAssignment
    → Exec HandoffPackage
store_package settings policy r ticket_id summary link a = do
  now ← gets λ w. w.clock
  let status : HandoffStatus =
      if is_assigned a then HandoffStatus.assigned else HandoffStatus.pending
  row ←
      Handoffs.update_status r.id r.org_id status none
        (packaged settings ticket_id summary link a now)
  r' ← or_raise row not_found
  Handoffs.link_session r.session_id r'.id status
  SessionManager.apply_handoff_pending settings r.session_id (
      field "handoff_id" (num r'.id) (
        field "ticket_id" (json_text ticket_id)
          (field "replay_url" (text link.0) (field "summary" (text summary) end))))
  pure (to_package r' policy (some a))

-- `initiate_handoff` from the new record on.
unfoldable pub prepare :
    Settings
    → Services
    → EscalationPolicy
    → HandoffRecord
    → Text
    → Option Text
    → Text
    → Exec HandoffPackage
prepare settings services policy r reason customer_email priority = do
  token ← gets services.fresh_token
  let link =
      generate services.signing (services.id_text r.session_id) (services.id_text r.org_id)
        (services.id_text r.id) token
  ticket_id ← open_ticket services policy r reason customer_email priority link.0
  summary ← summarize r.session_id 50
  Handoffs.record_event r.id r.org_id HandoffEventType.summary_generated
      (field "length" (num (length summary)) end)
  Handoffs.record_event r.id r.org_id HandoffEventType.replay_linked
      (field "replay_url" (text link.0) end)
  a ← services.assign r.org_id r.id policy.assignment_strategy
  Handoffs.record_event r.id r.org_id HandoffEventType.assigned (
      field "assignee_user_id" (json_id a.assignee_user_id)
        (field "assignee_email" (json_text a.assignee_email) end))
  messages ← Sessions.get_messages r.session_id 0 100
  Handoffs.save_snapshot r.id r.session_id r.org_id (length messages) messages
  store_package settings policy r ticket_id summary link a

unfoldable pub initiate_handoff :
    Settings
    → Services
    → EscalationPolicy
    → ℕ
    → ℕ
    → HandoffTrigger
    → Text
    → Option Float
    → Option Text
    → Text
    → Exec HandoffPackage
initiate_handoff settings services policy org_id session_id trigger reason confidence_score
      customer_email priority =
    do
      existing ← Handoffs.get_by_session session_id org_id
      elim existing [
        | some r ↦ pure (to_package r policy none)
        | none ↦ (do
          made ←
              Handoffs.create_handoff org_id session_id trigger reason confidence_score
                (field "trigger" (text (trigger_value trigger)) (field "reason" (text reason) end))
          let (r, created) = made
          if created
              then prepare settings services policy r reason customer_email priority
              else pure (to_package r policy none))
      ]
