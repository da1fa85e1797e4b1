-- ===== src/Store/Sessions.antt =====
-- infrastructure/db/repositories.py: SessionRepository, over `voice_sessions`, `messages` and
-- `session_metrics`.
use vox_forge.Common.{
  ℕ, ◌+◌, String, Bool, true, false, Option, none, some, List, [], ◌∷◌, ◌++◌, Text, ◌==◌,
  if◌then◌else◌, take, drop, filter_by,
}
use vox_forge.Domain.Json.{Fields}
use vox_forge.Domain.Session.{
  SessionStatus, MessageRole, TransportType, VoiceSession, Message, is_terminal,
}
use vox_forge.Domain.Handoff.{Float}
use vox_forge.Store.World.{SessionMetric, update}
use vox_forge.Store.Exec.{Exec, session_not_found, pure, raise, gets, or_raise, modify, ◌>>=◌, ◌>>◌}

abbrev put : VoiceSession → Exec VoiceSession
put model = do
  modify λ w. record w { sessions = update w.sessions model.id (some model) }
  pure model

-- The row that `create` adds, with the columns' defaults.
abbrev pub new_row : ℕ → ℕ → TransportType → Fields → Option ℕ → Option ℕ → VoiceSession
new_row id now transport_type metadata org_id created_by_user_id = record {
  id = id;
  status = SessionStatus.created;
  transport_type = transport_type;
  org_id = org_id;
  created_by_user_id = created_by_user_id;
  metadata = metadata;
  started_at = now;
  ended_at = none;
  handoff_id = none;
  handoff_status = none;
}

unfoldable pub create : TransportType → Fields → Option ℕ → Option ℕ → Exec VoiceSession
create transport_type metadata org_id created_by_user_id = do
  w ← gets λ w. w
  modify λ w. record w { fresh = w.fresh + 1 }
  put (new_row w.fresh w.clock transport_type metadata org_id created_by_user_id)

-- `self._session.get(VoiceSessionModel, session_id)`, and the error if there is no row
abbrev fetch : ℕ → Exec VoiceSession
fetch session_id = do
  model ← gets λ w. w.sessions session_id
  or_raise model (session_not_found session_id)

abbrev same_org : Option ℕ → Option ℕ → Bool
same_org none have = true
same_org (some want) none = false
same_org (some want) (some have) = want == have

unfoldable pub get : ℕ → Option ℕ → Exec VoiceSession
get session_id org_id = do
  model ← fetch session_id
  if same_org org_id model.org_id then pure model else raise (session_not_found session_id)

unfoldable pub update_status : ℕ → SessionStatus → Exec VoiceSession
update_status session_id status = do
  model ← fetch session_id
  put (record model { status = status })

unfoldable pub end_session : ℕ → SessionStatus → Exec VoiceSession
end_session session_id status = do
  model ← fetch session_id
  if is_terminal model.status
      then pure model
      else do now ← gets λ w. w.clock; put (record model { status = status; ended_at = some now })

unfoldable pub add_message : ℕ → MessageRole → Text → Fields → Exec Message
add_message session_id role content provider_metadata = do
  w ← gets λ w. w
  let model : Message = record {
    id = w.fresh;
    session_id = session_id;
    role = role;
    content = content;
    provider_metadata = provider_metadata;
    created_at = w.clock;
  }
  modify λ w. record w { fresh = w.fresh + 1; messages = w.messages ++ model ∷ [] }
  pure model

-- Messages are stored in the order of `created_at`, so the query's order is the table's.
unfoldable pub get_messages : ℕ → ℕ → ℕ → Exec (List Message)
get_messages session_id offset limit =
    gets λ w. take limit (drop offset (filter_by (λ m. m.session_id == session_id) w.messages))

unfoldable pub add_metric : ℕ → String → Float → Exec SessionMetric
add_metric session_id metric_name value_ms = do
  let model : SessionMetric = record {
    session_id = session_id;
    metric_name = metric_name;
    value_ms = value_ms;
  }
  modify λ w. record w { metrics = w.metrics ++ model ∷ [] }
  pure model
