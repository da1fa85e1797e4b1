-- ===== src/SessionManager/Reconcile.antt =====
-- `_load_or_reconcile_state` and `_ensure_ephemeral_state`: an expired state is rebuilt from the
-- row in PostgreSQL.
use vox_forge.Common.{ℕ, ◌<◌, ◌≡◌, refl, none, some, [], arith, false, Option-cases, inl, inr}
use vox_forge.Domain.Session.{SessionStatus, SessionState, VoiceSession, is_terminal}
use vox_forge.Store.World.{World, Settings}
use vox_forge.Store.Exec.{ok, after}
use vox_forge.Store.Redis
use vox_forge.Store.Redis.{live}
use vox_forge.Store.Sessions
use vox_forge.SessionManager.{
  write_ephemeral_state, ttl_for_status, ensure_for, load_or_reconcile_state, new_state,
  phase_for_status,
}
use vox_forge.SessionManager.Heartbeat.{KeepsTables, Wrote, write-ok, write-Wrote, load-live}

-- Both lifetimes are positive, so a key that is set can be read at once.
pub record IsLasting (settings : Settings) : Type 0 where
  pub session : 0 < settings.session_state_ttl_seconds
  pub handoff : 0 < settings.handoff_session_ttl_seconds

pub ttl-pos :
    (settings : Settings) (status : SessionStatus)
    → IsLasting settings
    → 0 < ttl_for_status settings status
unfolding ttl_for_status
ttl-pos settings SessionStatus.created l = l.session
ttl-pos settings SessionStatus.handoff_pending l = l.handoff
ttl-pos settings SessionStatus.handoff_active l = l.handoff
ttl-pos settings other l = l.session

-- `load_or_reconcile_state` ran in `w`, gave `state` and left `w'`.
pub record Loads (settings : Settings) (session_id : ℕ) (w : World) (state : SessionState)
    (w' : World) : Type 0 where
  pub runs : load_or_reconcile_state settings session_id w ≡ (ok state, w')
  pub keyed : state.session_id ≡ session_id
  pub up : w'.outages ≡ []
  pub sessions : w'.sessions ≡ w.sessions
  pub tables : KeepsTables w w'

-- Every live state is filed under its own session.
abbrev pub IsFiled : World → ℕ → Type 0
IsFiled w session_id =
    (state : SessionState)
    → live w.clock (w.states session_id) ≡ some state
    → state.session_id ≡ session_id

module _ (settings : Settings) (w : World) (session : VoiceSession) (up : w.outages ≡ [])
    (lasting : IsLasting settings) where
  abbrev rebuilt : SessionState
  rebuilt = new_state session.id (phase_for_status session.status) session.metadata

  -- The world in which the rebuilt state has been written.
  abbrev rebuilding : World
  rebuilding = after (write_ephemeral_state settings session.id rebuilt session.status) w

  written : Wrote settings rebuilt w rebuilding
  written =
      write-Wrote settings w up rebuilt session.status (ttl-pos settings session.status lasting)

  -- Where the state is gone, the rebuilt one is written with the row's phase and metadata.
  pub ensure-gone :
      live w.clock (w.states session.id) ≡ none
      → is_terminal session.status ≡ false
      → ensure_for settings session w ≡ (ok rebuilt, rebuilding)
  unfolding ensure_for Redis.get_state_or_none
  ensure-gone gone running = ground (
    arith,
    write-ok settings w up rebuilt session.status (ttl-pos settings session.status lasting),
  )

  -- A session that has not ended always has a state to go on from.
  pub load-Loads :
      (session_id : ℕ)
      → w.sessions session_id ≡ some session
      → session.id ≡ session_id
      → is_terminal session.status ≡ false
      → IsFiled w session_id
      → (state : SessionState) × (w' : World) × Loads settings session_id w state w'
  unfolding load_or_reconcile_state Redis.get_state_or_none Sessions.get
  load-Loads session_id known keyed running filed =
      elim (Option-cases (live w.clock (w.states session_id))) [
        | inl gone ↦ (
          rebuilt,
          rebuilding,
          record {
            runs = ground (arith, ensure-gone);
            keyed = keyed;
            up = written.up;
            sessions = written.sessions;
            tables = written.tables;
          },
        )
        | inr (s, held) ↦ (
          s,
          w,
          record {
            runs = load-live settings w up session_id held;
            keyed = filed s held;
            up = up;
            sessions = refl;
            tables = ground arith;
          },
        )
      ]
