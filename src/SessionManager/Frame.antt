-- ===== src/SessionManager/Frame.antt =====
-- The session manager never writes a handoff row, whatever Redis does.
use vox_forge.Common.{ℕ, arith}
use vox_forge.Domain.Json.{Fields}
use vox_forge.Domain.Session.{SessionStatus, SessionState, VoiceSession}
use vox_forge.Store.World.{Settings}
use vox_forge.Store.Exec.{after}
use vox_forge.Store.Redis
use vox_forge.Store.Sessions
use vox_forge.Store.Frame.{
  Frames, frame_rules, Frames-get_state, Frames-get_state_or_none, Frames-record_heartbeat,
  Frames-session_get, Frames-session_status,
}
use vox_forge.SessionManager.{
  write_ephemeral_state, ensure_for, load_or_reconcile_state, resume_state, resume_from,
  resume_session, apply_handoff_active, apply_handoff_pending, clear_handoff, new_state,
  phase_for_status,
}

module _ (settings : Settings) where
  pub Frames-write :
      (id : ℕ) (state : SessionState) (status : SessionStatus)
      → Frames (write_ephemeral_state settings id state status)
  unfolding write_ephemeral_state
  Frames-write id state status = search frame_rules

  pub Frames-ensure_for : (session : VoiceSession) → Frames (ensure_for settings session)
  unfolding ensure_for
  Frames-ensure_for session = record {
    at = λ w.
        let w₁ = after (Redis.get_state_or_none settings session.id) w in
        let state = new_state session.id (phase_for_status session.status) session.metadata in
        ground (
          arith,
          (Frames-get_state_or_none settings session.id).at w,
          (Frames-write session.id state session.status).at w₁,
        );
  }

  pub Frames-load : (id : ℕ) → Frames (load_or_reconcile_state settings id)
  unfolding load_or_reconcile_state Sessions.get
  Frames-load id = record {
    at = λ w.
        grind (arith, (Frames-get_state_or_none settings id).at w, Frames-ensure_for, Frames.at);
  }

  pub Frames-resume_state : (session : VoiceSession) → Frames (resume_state settings session)
  unfolding resume_state
  Frames-resume_state session = record {
    at = λ w.
        grind (arith, Frames.at, Frames-get_state_or_none, Frames-get_state, Frames-ensure_for);
  }

  pub Frames-resume_from :
      (session : VoiceSession) (last : ℕ) (state : SessionState)
      → Frames (resume_from settings session last state)
  unfolding resume_from
  Frames-resume_from session last state = record {
    at = λ w.
        let raised : SessionState = record state { sequence = last } in
        let w₁ = after (write_ephemeral_state settings session.id raised session.status) w in
        ground (
          arith,
          (Frames-write session.id raised session.status).at w,
          (Frames-record_heartbeat settings session.id).at w,
          (Frames-record_heartbeat settings session.id).at w₁,
        );
  }

  pub Frames-resume_session : (id last : ℕ) → Frames (resume_session settings id last)
  unfolding resume_session
  Frames-resume_session id last = record {
    at = λ w. grind (arith, Frames.at, Frames-session_get, Frames-resume_state, Frames-resume_from);
  }

  pub Frames-apply_handoff_active :
      (id handoff_id : ℕ) → Frames (apply_handoff_active settings id handoff_id)
  unfolding apply_handoff_active
  Frames-apply_handoff_active id handoff_id = record {
    at = λ w. grind (arith, Frames.at, Frames-session_status, Frames-load, Frames-write);
  }

  pub Frames-apply_handoff_pending :
      (id : ℕ) (context : Fields) → Frames (apply_handoff_pending settings id context)
  unfolding apply_handoff_pending
  Frames-apply_handoff_pending id context = record {
    at = λ w. grind (arith, Frames.at, Frames-session_status, Frames-load, Frames-write);
  }

  pub Frames-clear_handoff : (id : ℕ) → Frames (clear_handoff settings id)
  unfolding clear_handoff
  Frames-clear_handoff id = record {
    at = λ w. grind (arith, Frames.at, Frames-session_status, Frames-load, Frames-write);
  }
