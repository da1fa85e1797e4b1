-- ===== src/SessionManager/Tests.antt =====
-- The theorems on SessionManager at the sample world.
use vox_forge.Common.{
  List, max, ◌+◌, ◌≡◌, ◌⊎◌, refl, none, some, [], ◌∷◌, ◌++◌, true, arith, ltb, if◌then◌else◌,
}
use vox_forge.Domain.Json.{end, obj, field, num, lookup}
use vox_forge.Domain.Session.{
  SessionStatus, SessionPhase, SessionState, VoiceSession, TransportType, is_terminal,
  session_created,
}
use vox_forge.Store.World.{World}
use vox_forge.Store.Exec.{ok, err, session_state, result, after}
use vox_forge.Store.Redis.{live}
use vox_forge.Store.Sample.{sample_settings, session_with, sample_state, running, ended}
use vox_forge.SessionManager.{
  resume_session, end_session, create_session, clear_handoff, apply_handoff_pending,
}
use vox_forge.SessionManager.Reconcile.{IsLasting, IsFiled}
use vox_forge.SessionManager.Lifecycle.{
  end_session-ends, create_session-atomic, resume_session-sequence,
}
use vox_forge.SessionManager.Handoffs.{clear_handoff-activates, apply_handoff_pending-expiry}
use vox_forge.SessionManager.ToolFailures.{Turn, Counts, track_turns, track_turns-streak}

sample-IsLasting : IsLasting sample_settings
sample-IsLasting = record { session = omega arith; handoff = omega arith }

running-IsFiled : IsFiled running 7
running-IsFiled state h = ground (arith, h)

ended-IsFiled : IsFiled ended 7
ended-IsFiled state h = ground (arith, h)

-- Redis fails on the first command.
abbrev down : World
down = record running { outages = true ∷ [] }

end_session-ends_example :
    (row : VoiceSession) × (result (end_session sample_settings 7 "client") down ≡ ok row)
    × ((after (end_session sample_settings 7 "client") down).sessions 7 ≡ some row)
    × (is_terminal row.status ≡ true)
end_session-ends_example =
    end_session-ends sample_settings down (session_with SessionStatus.active) refl "client"

create_session-atomic_example :
    let create = create_session sample_settings TransportType.websocket end (some 2) none in
    let w' = after create down in
    ((session : VoiceSession) × (result create down ≡ ok session)
      × (w'.sessions 20 ≡ some session)
      × (session.status ≡ SessionStatus.created)
      × (w'.published ≡ [] ++ session_created 20 ∷ []))
    ⊎ ((session : VoiceSession) × (result create down ≡ err (session_state 20))
        × (w'.sessions 20 ≡ some session)
        × (session.status ≡ SessionStatus.failed)
        × (w'.published ≡ []))
create_session-atomic_example =
    create_session-atomic sample_settings down TransportType.websocket end (some 2) none

resume_session-sequence_example :
    let w' = after (resume_session sample_settings 7 9) running in
    (result (resume_session sample_settings 7 9) running ≡ ok (session_with SessionStatus.active))
    × ((resumed : SessionState) × (live w'.clock (w'.states 7) ≡ some resumed)
        × (resumed.sequence ≡ max 4 9)
        × (resumed.config ≡ end))
resume_session-sequence_example =
    resume_session-sequence sample_settings running (session_with SessionStatus.active) 9
      {state = sample_state} refl sample-IsLasting refl refl refl refl

running-Counts : Counts (session_with SessionStatus.active) 0 300 running
unfolding lookup
running-Counts = record {
  up = refl;
  row = refl;
  state = sample_state;
  held = refl;
  keyed = refl;
  counter = refl;
}

-- Four turns, the last of them 50 minutes after the third.
abbrev four_turns : List Turn
four_turns = (20, 1) ∷ (30, 0) ∷ (60, 2) ∷ (3000, 1) ∷ []

track_turns-streak_example : result (track_turns sample_settings 7 0 four_turns) running ≡ ok 3
track_turns-streak_example =
    track_turns-streak sample_settings sample-IsLasting (session_with SessionStatus.active) 0 300
      four_turns running running-Counts
      (omega arith, (omega arith, (omega arith, (omega arith, tt))))

-- The session has ended; it is active afterwards.
clear_handoff-activates_example :
    (w' : World) × (clear_handoff sample_settings 7 ended ≡ (ok tt, w'))
    × (w'.sessions 7 ≡ some (session_with SessionStatus.active))
    × ((state : SessionState) × (live w'.clock (w'.states 7) ≡ some state)
        × (state.phase ≡ SessionPhase.listening)
        × (lookup "handoff" state.config ≡ none))
clear_handoff-activates_example =
    clear_handoff-activates sample_settings ended (session_with SessionStatus.completed) refl
      sample-IsLasting ended-IsFiled refl

-- The settings keep a handoff's state for a day; it is gone after an hour.
apply_handoff_pending-expiry_example :
    (w' : World) × (apply_handoff_pending sample_settings 7 (field "handoff_id" (num 5) end) running
      ≡ (ok tt, w'))
    × (w'.sessions 7 ≡ some (session_with SessionStatus.handoff_pending))
    × ((state : SessionState) × (live 3700 (w'.states 7)
          ≡ (if ltb 3700 (100 + 3600) then some state else none))
        × (state.phase ≡ SessionPhase.handoff_pending)
        × (lookup "handoff" state.config ≡ some (obj (field "handoff_id" (num 5) end))))
apply_handoff_pending-expiry_example =
    apply_handoff_pending-expiry sample_settings running (session_with SessionStatus.active) refl
      sample-IsLasting running-IsFiled refl (field "handoff_id" (num 5) end) 3700
