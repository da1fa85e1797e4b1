-- ===== src/Handoff/Orchestrator/Tests.antt =====
-- The theorems on handoffs at the sample world.
use vox_forge.Common.{
  none, false, show_nat, ◌≡◌, refl, Text, List, some, [], ◌∷◌, true, find, codes, arith,
}
use vox_forge.Domain.Json.{end}
use vox_forge.Domain.Session.{SessionStatus, Message, MessageRole}
use vox_forge.Handoff.Orchestrator.Again.{Again}
use vox_forge.Domain.Handoff.{AssignmentStrategy, EscalationPolicy, HandoffStatus, HandoffRecord}
use vox_forge.Store.World.{World}
use vox_forge.Store.Exec.{pure, ok, err, after}
use vox_forge.Store.Handoffs.{has_id}
use vox_forge.Store.Sample.{sample_settings, session_with, handoff_with, world_with, running, ended}
use vox_forge.Handoff.Replay.{Signing, generate, verify, Lacks, verify-generate}
use vox_forge.Handoff.Orchestrator.{
  Services, accept_read, accept_handoff, complete_handoff, already_accepted, accepted_by,
}
use vox_forge.Handoff.Orchestrator.Accept.{accept_race}
use vox_forge.Handoff.Orchestrator.Lifecycle.{
  accept, complete_with, cancel_it, Request, run_requests, Reaches, run_requests-Reaches,
  run_requests-closed,
}
use vox_forge.Handoff.Orchestrator.Revival.{complete_handoff-revives}

abbrev open_row : HandoffRecord
open_row = handoff_with HandoffStatus.pending

-- The row after agent 31 has accepted it at time 100.
abbrev accepted_row : HandoffRecord
accepted_row = record (accepted_by 31 100 open_row) {
  status = HandoffStatus.active;
  updated_at = 100;
}

accept_race_example :
    let w' = after (accept_read sample_settings open_row 5 2 31) running in
    (accept_read sample_settings open_row 5 2 32 w' ≡ (err already_accepted, w'))
    × (accept_handoff sample_settings 5 2 31 w' ≡ (ok accepted_row, w'))
accept_race_example =
    accept_race sample_settings 5 2 running open_row refl open_row open_row 31 32 (refl, tt) refl
      refl refl refl

abbrev cancelled : World
cancelled = world_with SessionStatus.active HandoffStatus.cancelled

-- Two agents accept, a third completes and somebody cancels, all having read the open row.
abbrev requests : List Request
requests =
    (accept 31, open_row, 5, 2)
    ∷ (accept 32, open_row, 5, 2)
    ∷ (complete_with (codes "solved"), open_row, 5, 2)
    ∷ (cancel_it, open_row, 5, 2)
    ∷ []

run_requests-Reaches_example :
    (row : HandoffRecord) × (find
        (has_id 5 2)
        (run_requests sample_settings requests running).handoffs
      ≡ some row)
    × Reaches HandoffStatus.pending row.status
run_requests-Reaches_example =
    run_requests-Reaches sample_settings requests running 5 2 open_row refl

run_requests-closed_example :
    find (has_id 5 2) (run_requests sample_settings requests cancelled).handoffs
    ≡ some (handoff_with HandoffStatus.cancelled)
run_requests-closed_example =
    run_requests-closed sample_settings requests cancelled 5 2
      (handoff_with HandoffStatus.cancelled) refl refl

-- The session has ended while its handoff was open; completing the handoff makes it active.
complete_handoff-revives_example :
    (w' : World) × (r' : HandoffRecord) × (complete_handoff sample_settings 5 2
        (codes "solved")
        ended
      ≡ (ok r', w'))
    × (r'.status ≡ HandoffStatus.completed)
    × (w'.sessions 7
        ≡ some (record (session_with SessionStatus.active) {
          handoff_id = some 5;
          handoff_status = some HandoffStatus.completed;
        }))
complete_handoff-revives_example =
    complete_handoff-revives sample_settings 5 2 ended open_row
      (session_with SessionStatus.completed) refl refl
      (record { session = omega arith; handoff = omega arith }) (λ state h. ground (arith, h)) refl
      refl (codes "solved") refl

abbrev greeting : Message
greeting = record {
  id = 1;
  session_id = 7;
  role = MessageRole.user;
  content = codes " Hello\nthere ";
  provider_metadata = end;
  created_at = 60;
}

-- A stand-in for HMAC-SHA256 in hexadecimal: it has no dot.
abbrev hexed : Text → Text
hexed [] = []
hexed (c ∷ s) = 97 ∷ hexed s

hexed-Lacks : (s : Text) → Lacks 46 (hexed s)
hexed-Lacks [] = tt
hexed-Lacks (c ∷ s) = (refl, hexed-Lacks s)

abbrev signing : Signing
signing = record {
  digest = λ secret payload. hexed payload;
  handoff_replay_signing_secret = codes "secret";
  jwt_secret_key = codes "jwt";
  public_base_url = codes "https://vox.example/";
}

verify-generate_example :
    verify signing
      (codes "7")
      (codes "2")
      (codes "5")
      (generate signing (codes "7") (codes "2") (codes "5") (codes "to.ken")).1
    ≡ true
verify-generate_example =
    verify-generate signing (codes "7") (codes "2") (codes "5") (codes "to.ken")
      (λ secret payload. hexed-Lacks payload)

abbrev services : Services
services = record {
  create_ticket = λ request. ok (codes "T-1");
  assign = λ org_id handoff_id strategy. pure (record {
    handoff_id = handoff_id;
    assignee_user_id = some 31;
    assignee_email = none;
    strategy = strategy;
  });
  signing = signing;
  fresh_token = λ w. codes "token";
  id_text = show_nat;
}

abbrev policy : EscalationPolicy
policy = record {
  fallback_to_human = true;
  min_confidence = 0;
  escalate_on_tool_failure = true;
  max_tool_failures = 2;
  escalate_on_critical_tool_failure = true;
  require_explicit_request = false;
  auto_create_ticket = true;
  assignment_strategy = AssignmentStrategy.round_robin;
  handoff_message = codes "One moment.";
}
