-- ===== src/SessionManager/Lifecycle.antt =====
-- Creating, activating, resuming and ending a session.
use vox_forge.Common.{
  ℕ, max, ◌≡◌, refl, ◌∙◌, some, [], ◌∷◌, ◌++◌, arith, ltb, true, false, Bool-cases, inl, inr,
  String, Option, ◌⊎◌,
}
use vox_forge.Domain.Json.{Fields}
use vox_forge.Domain.Session.{
  SessionStatus, SessionPhase, SessionState, VoiceSession, TransportType, is_terminal,
  session_created,
}
use vox_forge.Store.World.{World, Settings}
use vox_forge.Store.Exec.{ok, err, session_state, result, after, Result-cases}
use vox_forge.Store.Redis.{live}
use vox_forge.Store.Redis
use vox_forge.Store.Sessions
use vox_forge.SessionManager.{
  write_ephemeral_state, create_session, activate_session, resume_session, resume_state,
  resume_from, end_session, best_effort_delete, new_state,
}
use vox_forge.SessionManager.Heartbeat.{write-Wrote, write-runs, write-keeps, entry, heartbeat-Beat}
use vox_forge.SessionManager.Reconcile.{IsLasting, ttl-pos}

module _ (settings : Settings) (w : World) (session : VoiceSession)
    (known : w.sessions session.id ≡ some session) where
  -- A session that has ended is neither activated nor resumed: the call raises and changes nothing.
  pub ended_stays_ended :
      (last_sequence : ℕ)
      → is_terminal session.status ≡ true
      → (activate_session settings session.id w ≡ (err (session_state session.id), w))
        × (resume_session settings session.id last_sequence w ≡ (err (session_state session.id), w))
  unfolding activate_session resume_session Sessions.get
  ended_stays_ended last_sequence ended = (ground arith, ground arith)

  -- Whatever Redis does, ending a known session succeeds, and its row has a terminal status.
  pub end_session-ends :
      (reason : String)
      → (ended : VoiceSession) × (result (end_session settings session.id reason) w ≡ ok ended)
        × ((after (end_session settings session.id reason) w).sessions session.id ≡ some ended)
        × (is_terminal ended.status ≡ true)
  unfolding end_session Sessions.get Sessions.end_session best_effort_delete Redis.delete_state
  end_session-ends reason = elim (Bool-cases (is_terminal session.status)) [
    | inl e ↦ (session, ground arith, ground arith, e)
    | inr e ↦ (
      record session { status = SessionStatus.completed; ended_at = some w.clock },
      ground arith,
      ground arith,
      refl,
    )
  ]

  -- Ending a session again, at any later time, returns what the first call stored, writes no row
  -- and publishes nothing.
  pub end_session-idempotent :
      (reason again : String) (w₂ : World)
      → w₂.sessions session.id
        ≡ (after (end_session settings session.id reason) w).sessions session.id
      → let w₃ = after (end_session settings session.id again) w₂ in
        (result (end_session settings session.id again) w₂
          ≡ result (end_session settings session.id reason) w)
        × (w₃.sessions ≡ w₂.sessions)
        × (w₃.published ≡ w₂.published)
  unfolding end_session Sessions.get Sessions.end_session best_effort_delete Redis.delete_state
  end_session-idempotent reason again w₂ same =
      let (ended, returned, stored, terminal) = end_session-ends reason in
      let row : w₂.sessions session.id ≡ some ended = same ∙ stored in
      (ground arith, ground arith, ground arith)

-- Creating a session is all or nothing, whatever Redis does: the new row is returned as created
-- and one event is published, or the call raises, the row is failed and no event is published.
pub create_session-atomic :
    (settings : Settings) (w : World) (transport : TransportType) (config : Fields)
    (org user : Option ℕ)
    → let create = create_session settings transport config org user in
      let w' = after create w in
      ((session : VoiceSession) × (result create w ≡ ok session)
        × (w'.sessions w.fresh ≡ some session)
        × (session.status ≡ SessionStatus.created)
        × (w'.published ≡ w.published ++ session_created w.fresh ∷ []))
      ⊎ ((session : VoiceSession) × (result create w ≡ err (session_state w.fresh))
          × (w'.sessions w.fresh ≡ some session)
          × (session.status ≡ SessionStatus.failed)
          × (w'.published ≡ w.published))
unfolding create_session Sessions.create Sessions.end_session
create_session-atomic settings w transport config org user =
    let row = Sessions.new_row w.fresh w.clock transport config org user in
    let failed_row : VoiceSession = record row {
      status = SessionStatus.failed;
      ended_at = some w.clock;
    } in
    let w₁ = after (Sessions.create transport config org user) w in
    let write =
      write_ephemeral_state settings w.fresh (new_state w.fresh SessionPhase.idle config)
        SessionStatus.created in
    let keeps =
      write-keeps settings w.fresh (new_state w.fresh SessionPhase.idle config)
        SessionStatus.created w₁ in
    elim (Result-cases (result write w₁)) [
      | inl (done, e) ↦ inl (row, ground arith, ground arith, refl, ground arith)
      | inr (failure, e) ↦ inr (failed_row, ground arith, ground arith, refl, ground arith)
    ]

-- Resuming a session that has not ended, whose state is still live and filed under its id, while
-- Redis is up, sets the sequence to the greater one of the state's and the client's, and keeps the
-- config.
pub resume_session-sequence :
    (settings : Settings) (w : World) (session : VoiceSession) (last_sequence : ℕ)
    {state : SessionState}
    → w.outages ≡ []
    → IsLasting settings
    → w.sessions session.id ≡ some session
    → is_terminal session.status ≡ false
    → live w.clock (w.states session.id) ≡ some state
    → state.session_id ≡ session.id
    → let w' = after (resume_session settings session.id last_sequence) w in
      (result (resume_session settings session.id last_sequence) w ≡ ok session)
      × ((resumed : SessionState) × (live w'.clock (w'.states session.id) ≡ some resumed)
          × (resumed.sequence ≡ max state.sequence last_sequence)
          × (resumed.config ≡ state.config))
unfolding resume_session resume_from Sessions.get resume_state Redis.get_state_or_none
resume_session-sequence settings w session last_sequence {state} up lasting known running held
      keyed =
    elim (Bool-cases (ltb state.sequence last_sequence)) [
      | inl behind ↦
          let raised : SessionState = record state { sequence = last_sequence } in
          let lives = ttl-pos settings session.status lasting in
          let runs = write-runs settings w up raised session.status lives in
          let wrote = write-Wrote settings w up raised session.status lives in
          let w₁ =
            after (write_ephemeral_state settings raised.session_id raised session.status) w in
          let beat =
            heartbeat-Beat settings w₁ session.id {state = (entry settings w raised).value} wrote.up
              (ground (arith, wrote.states session.id, lasting.session)) keyed in
          (
            ground (arith, runs, beat.runs),
            (
              (entry settings w raised).value,
              ground (arith, runs, beat.runs, beat.held, beat.clock, lasting.session),
              ground (arith, behind),
              refl,
            ),
          )
      | inr seen ↦
          let beat = heartbeat-Beat settings w session.id up held keyed in
          (
            ground (arith, beat.runs),
            (
              (entry settings w state).value,
              ground (arith, beat.runs, beat.held, beat.clock, lasting.session),
              ground (arith, seen),
              refl,
            ),
          )
    ]
