-- ===== src/SessionManager/Silent.antt =====
-- The calls of the session manager that leave the messages alone.
use vox_forge.Common.{ℕ, ◌≡◌, refl, arith, [], ◌∷◌, ◌++◌, Text}
use vox_forge.Domain.Json.{Fields}
use vox_forge.Domain.Session.{SessionStatus, SessionState, VoiceSession, SessionPhase, MessageRole}
use vox_forge.Store.World.{Settings, World}
use vox_forge.Store.Exec.{after}
use vox_forge.Store.Redis
use vox_forge.Store.Sessions
use vox_forge.Store.Keep.{Keeps}
use vox_forge.Store.Keep.Messages.{
  Silent, silent_rules, Silent-get_state_or_none, Silent-session_get, Silent-session_status,
}
use vox_forge.SessionManager.{
  write_ephemeral_state, ensure_for, load_or_reconcile_state, apply_handoff_pending, new_state,
  phase_for_status, track_tool_failures, get_session_config, save_turn_metrics, TurnMetrics,
  save_message,
}

module _ (settings : Settings) where
  Silent-write :
      (id : ℕ) (state : SessionState) (status : SessionStatus)
      → Silent (write_ephemeral_state settings id state status)
  unfolding write_ephemeral_state
  Silent-write id state status = search silent_rules

  Silent-ensure_for : (session : VoiceSession) → Silent (ensure_for settings session)
  unfolding ensure_for
  Silent-ensure_for session = record {
    at = λ w.
        let w₁ = after (Redis.get_state_or_none settings session.id) w in
        let state = new_state session.id (phase_for_status session.status) session.metadata in
        ground (
          arith,
          (Silent-get_state_or_none settings session.id).at w,
          (Silent-write session.id state session.status).at w₁,
        );
  }

  Silent-load : (id : ℕ) → Silent (load_or_reconcile_state settings id)
  unfolding load_or_reconcile_state Sessions.get
  Silent-load id = record {
    at = λ w.
        grind (arith, (Silent-get_state_or_none settings id).at w, Silent-ensure_for, Keeps.at);
  }

  pub Silent-apply_handoff_pending :
      (id : ℕ) (context : Fields) → Silent (apply_handoff_pending settings id context)
  unfolding apply_handoff_pending
  Silent-apply_handoff_pending id context = record {
    at = λ w. grind (arith, Keeps.at, Silent-session_status, Silent-load, Silent-write);
  }

  pub Silent-track_tool_failures : (id failed : ℕ) → Silent (track_tool_failures settings id failed)
  unfolding track_tool_failures
  Silent-track_tool_failures id failed = record {
    at = λ w. grind (arith, Keeps.at, Silent-session_get, Silent-load, Silent-write);
  }

  pub Silent-get_session_config : (id : ℕ) → Silent (get_session_config settings id)
  unfolding get_session_config
  Silent-get_session_config id = record {
    at = λ w. grind (arith, Keeps.at, Silent-session_get, Silent-get_state_or_none);
  }

  pub Silent-update_phase :
      (id : ℕ) (phase : SessionPhase) → Silent (Redis.update_phase settings id phase)
  unfolding Redis.update_phase
  Silent-update_phase id phase = search silent_rules

  pub Silent-clear_interrupt : (id : ℕ) → Silent (Redis.clear_interrupt settings id)
  unfolding Redis.clear_interrupt Redis.set_interrupt
  Silent-clear_interrupt id = search silent_rules

pub Silent-save_turn_metrics : (id : ℕ) (m : TurnMetrics) → Silent (save_turn_metrics id m)
unfolding save_turn_metrics Sessions.add_metric
Silent-save_turn_metrics id m = record { at = λ w. ground arith }

-- The one call that adds a message.
pub save_message-messages :
    (role : MessageRole) (id : ℕ) (content : Text) (metadata : Fields) (w : World)
    → (after (save_message role id content metadata) w).messages
      ≡ w.messages
        ++ record {
          id = w.fresh;
          session_id = id;
          role = role;
          content = content;
          provider_metadata = metadata;
          created_at = w.clock;
        }
          ∷ []
unfolding save_message Sessions.add_message
save_message-messages role id content metadata w = refl
