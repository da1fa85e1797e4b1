-- ===== src/Store/Handoffs.antt =====
-- infrastructure/db/handoff_repository.py: HandoffRepository, over `handoff_records`,
-- `handoff_events`, `conversation_snapshots` and two columns of `voice_sessions`.
use vox_forge.Common.{
  ℕ, ◌+◌, Text, Bool, true, false, Option, none, some, List, [], ◌∷◌, ◌++◌, map, ◌==◌, ◌&&◌, not,
  if◌then◌else◌, find, any, filter_by, length, is_some,
}
use vox_forge.Domain.Json.{Fields, end}
use vox_forge.Domain.Session.{Message}
use vox_forge.Domain.Handoff.{
  Float, HandoffTrigger, HandoffStatus, HandoffEventType, HandoffRecord, ConversationSnapshot,
}
use vox_forge.Store.World.{update}
use vox_forge.Store.Exec.{
  Exec, value_error, runtime_error, pure, gets, or_raise, modify, ◌>>=◌, ◌>>◌,
}

-- `status.value` is compared as a text in the source.
abbrev pub status_eq : HandoffStatus → HandoffStatus → Bool
status_eq HandoffStatus.pending HandoffStatus.pending = true
status_eq HandoffStatus.assigned HandoffStatus.assigned = true
status_eq HandoffStatus.active HandoffStatus.active = true
status_eq HandoffStatus.completed HandoffStatus.completed = true
status_eq HandoffStatus.cancelled HandoffStatus.cancelled = true
status_eq _ _ = false

abbrev pub in_session : ℕ → ℕ → HandoffRecord → Bool
in_session session_id org_id r = r.session_id == session_id && r.org_id == org_id

abbrev pub has_id : ℕ → ℕ → HandoffRecord → Bool
has_id handoff_id org_id r = r.id == handoff_id && r.org_id == org_id

-- The id and the unique session make every such query answer with one row at most.
unfoldable pub get_by_session : ℕ → ℕ → Exec (Option HandoffRecord)
get_by_session session_id org_id = gets λ w. find (in_session session_id org_id) w.handoffs

unfoldable pub get_handoff_by_session : ℕ → Exec (Option HandoffRecord)
get_handoff_by_session session_id = gets λ w. find (λ r. r.session_id == session_id) w.handoffs

unfoldable pub get_handoff : ℕ → ℕ → Exec (Option HandoffRecord)
get_handoff handoff_id org_id = gets λ w. find (has_id handoff_id org_id) w.handoffs

unfoldable pub record_event : ℕ → ℕ → HandoffEventType → Fields → Exec Unit
record_event handoff_id org_id event_type payload = modify λ w. record w {
  fresh = w.fresh + 1;
  handoff_events =
      w.handoff_events
      ++ record {
        handoff_id = handoff_id;
        org_id = org_id;
        event_type = event_type;
        payload = payload;
        created_at = w.clock;
      }
        ∷ [];
}

-- The row that `create_handoff` inserts, with the other columns at their defaults.
abbrev pub new_handoff :
    ℕ → ℕ → ℕ → ℕ → HandoffTrigger → Text → Option Float → Fields → HandoffRecord
new_handoff id now org_id session_id trigger trigger_reason confidence_score metadata = record {
  id = id;
  org_id = org_id;
  session_id = session_id;
  ticket_id = none;
  ticket_provider = "mock";
  status = HandoffStatus.pending;
  trigger = trigger;
  trigger_reason = trigger_reason;
  confidence_score = confidence_score;
  conversation_summary = none;
  replay_url = none;
  replay_token = none;
  assigned_to_user_id = none;
  assigned_to_email = none;
  assigned_at = none;
  accepted_at = none;
  completed_at = none;
  metadata = metadata;
  created_at = now;
  updated_at = now;
}

-- INSERT … ON CONFLICT (session_id) DO NOTHING RETURNING id: whether a row was inserted
unfoldable pub insert_handoff : HandoffRecord → Exec Bool
insert_handoff row w =
    if any (λ r. r.session_id == row.session_id) w.handoffs
    then pure false w
    else pure true (record w { handoffs = w.handoffs ++ row ∷ [] })

unfoldable pub create_handoff :
    ℕ → ℕ → HandoffTrigger → Text → Option Float → Fields → Exec (HandoffRecord × Bool)
create_handoff org_id session_id trigger trigger_reason confidence_score payload = do
  existing ← get_by_session session_id org_id
  elim existing [
    | some found ↦ pure (found, false)
    | none ↦ (do
      w ← gets λ w. w
      modify λ w. record w { fresh = w.fresh + 1 }
      inserted ← insert_handoff (
          new_handoff w.fresh w.clock org_id session_id trigger trigger_reason confidence_score end)
      if inserted
          then (do
            record_event w.fresh org_id HandoffEventType.created payload
            row ← get_handoff w.fresh org_id
            r ← or_raise row (runtime_error "handoff not found after insert")
            pure (r, true))
          else (do
            again ← get_by_session session_id org_id
            r ← or_raise again (runtime_error "handoff conflict without existing row")
            pure (r, false)))
  ]

-- The WHERE clause of `update_status`: the row, and its status if the caller restricts it.
abbrev pub matches : ℕ → ℕ → Option (HandoffStatus → Bool) → HandoffRecord → Bool
matches handoff_id org_id allowed_from r =
    has_id handoff_id org_id r
    && elim allowed_from [ none ↦ true | some allowed ↦ allowed r.status ]

-- `fields` sets the columns that the caller names beside the status.
unfoldable pub update_status :
    ℕ
    → ℕ
    → HandoffStatus
    → Option (HandoffStatus → Bool)
    → (HandoffRecord → HandoffRecord)
    → Exec (Option HandoffRecord)
update_status handoff_id org_id status allowed_from fields = do
  w ← gets λ w. w
  let hit = matches handoff_id org_id allowed_from
  modify λ w. record w {
    handoffs =
        map (λ r. if hit r then record (fields r) { status = status; updated_at = w.clock } else r)
          w.handoffs;
  }
  if is_some allowed_from && not (any hit w.handoffs) then pure none else do
    row ← get_handoff handoff_id org_id
    r ← or_raise row (value_error "Handoff not found after update")
    pure (some r)

unfoldable pub link_session : ℕ → ℕ → HandoffStatus → Exec Unit
link_session session_id handoff_id handoff_status = modify λ w. record w {
  sessions = elim (w.sessions session_id) [
    | none ↦ w.sessions
    | some s ↦
        update w.sessions session_id
          (some (record s { handoff_id = some handoff_id; handoff_status = some handoff_status }))
  ];
}

unfoldable pub save_snapshot : ℕ → ℕ → ℕ → ℕ → List Message → Exec ConversationSnapshot
save_snapshot handoff_id session_id org_id message_count snapshot = do
  existing ← gets λ w. find (λ s. s.handoff_id == handoff_id) w.snapshots
  elim existing [
    | some found ↦ pure found
    | none ↦ (do
      now ← gets λ w. w.clock
      let model : ConversationSnapshot = record {
        handoff_id = handoff_id;
        session_id = session_id;
        org_id = org_id;
        message_count = message_count;
        snapshot = snapshot;
        created_at = now;
      }
      modify λ w. record w { fresh = w.fresh + 1; snapshots = w.snapshots ++ model ∷ [] }
      pure model)
  ]

unfoldable pub count_pending : ℕ → Exec ℕ
count_pending org_id = gets λ w.
    length
      (filter_by (λ r. r.org_id == org_id && status_eq r.status HandoffStatus.pending) w.handoffs)
