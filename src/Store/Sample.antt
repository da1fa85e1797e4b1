-- ===== src/Store/Sample.antt =====
-- A small world that the tests run the code on: one session, its state in Redis, one open handoff.
use vox_forge.Common.{none, some, [], ◌∷◌, ◌==◌, if◌then◌else◌, codes, false}
use vox_forge.Domain.Json.{end}
use vox_forge.Domain.Session.{
  SessionStatus, SessionPhase, TransportType, VoiceSession, SessionState,
}
use vox_forge.Domain.Handoff.{HandoffStatus, HandoffTrigger, HandoffRecord}
use vox_forge.Store.World.{World, Settings}

abbrev pub sample_settings : Settings
sample_settings = record {
  session_state_ttl_seconds = 3600;
  handoff_session_ttl_seconds = 86400;
  session_stale_timeout_seconds = 60;
  ticketing_provider = "mock";
  int_of_text = λ t. none;
}

abbrev pub session_with : SessionStatus → VoiceSession
session_with status = record {
  id = 7;
  status = status;
  transport_type = TransportType.websocket;
  org_id = some 2;
  created_by_user_id = none;
  metadata = end;
  started_at = 50;
  ended_at = none;
  handoff_id = none;
  handoff_status = none;
}

abbrev pub sample_state : SessionState
sample_state = record {
  session_id = 7;
  phase = SessionPhase.listening;
  sequence = 4;
  interrupt = false;
  last_heartbeat = some 90;
  config = end;
}

abbrev pub handoff_with : HandoffStatus → HandoffRecord
handoff_with status = record {
  id = 5;
  org_id = 2;
  session_id = 7;
  ticket_id = none;
  ticket_provider = "mock";
  status = status;
  trigger = HandoffTrigger.user_request;
  trigger_reason = codes "explicit request";
  confidence_score = none;
  conversation_summary = none;
  replay_url = none;
  replay_token = none;
  assigned_to_user_id = none;
  assigned_to_email = none;
  assigned_at = none;
  accepted_at = none;
  completed_at = none;
  metadata = end;
  created_at = 80;
  updated_at = 80;
}

-- The world at time 100, with the session and its handoff in the given statuses.
abbrev pub world_with : SessionStatus → HandoffStatus → World
world_with session_status handoff_status = record {
  clock = 100;
  fresh = 20;
  sessions = λ q. if q == 7 then some (session_with session_status) else none;
  messages = [];
  metrics = [];
  handoffs = handoff_with handoff_status ∷ [];
  handoff_events = [];
  snapshots = [];
  states = λ q. if q == 7 then some (record { value = sample_state; expires = 400 }) else none;
  heartbeats = λ q. none;
  outages = [];
  published = [];
  tool_calls = [];
  histories = λ q. none;
}

abbrev pub running : World
running = world_with SessionStatus.active HandoffStatus.pending

abbrev pub ended : World
ended = world_with SessionStatus.completed HandoffStatus.pending
