-- ===== src/SessionManager/Heartbeat.antt =====
-- `_write_ephemeral_state`, lemma by lemma: the write with the status's lifetime, and the
-- heartbeat that follows it.
use vox_forge.Common.{ℕ, ◌+◌, ◌<◌, ◌≡◌, some, [], arith, Option, ◌==◌, if◌then◌else◌}
use vox_forge.Domain.Session.{SessionStatus, SessionState}
use vox_forge.Store.World.{World, Settings, Entry}
use vox_forge.Store.Exec.{ok, result, after}
use vox_forge.Store.Redis
use vox_forge.Store.Redis.{live}
use vox_forge.SessionManager.{write_ephemeral_state, ttl_for_status, load_or_reconcile_state}

-- The key of a state that a heartbeat has just been recorded for.
abbrev pub entry : Settings → World → SessionState → Entry SessionState
entry settings w state = record {
  value = record state { last_heartbeat = some w.clock };
  expires = w.clock + settings.session_state_ttl_seconds;
}

-- All that a call leaves alone beside the Redis keys: the tables, the clock and the bus.
pub record KeepsTables (w w' : World) : Type 0 where
  pub clock : w'.clock ≡ w.clock
  pub fresh : w'.fresh ≡ w.fresh
  pub messages : w'.messages ≡ w.messages
  pub metrics : w'.metrics ≡ w.metrics
  pub handoffs : w'.handoffs ≡ w.handoffs
  pub handoff_events : w'.handoff_events ≡ w.handoff_events
  pub snapshots : w'.snapshots ≡ w.snapshots
  pub published : w'.published ≡ w.published

-- The write went through: the key of `state` is set, and every other key and row is as before.
pub record Wrote (settings : Settings) (state : SessionState) (w w' : World) : Type 0 where
  pub tables : KeepsTables w w'
  pub sessions : w'.sessions ≡ w.sessions
  pub up : w'.outages ≡ []
  pub states :
      (q : ℕ)
      → w'.states q ≡ (if state.session_id == q then some (entry settings w state) else w.states q)

module _ (settings : Settings) (w : World) (up : w.outages ≡ []) where
  -- With Redis up, a state is written whatever the status, and lives for the session's time.
  pub write-ok :
      (state : SessionState) (status : SessionStatus)
      → 0 < ttl_for_status settings status
      → result (write_ephemeral_state settings state.session_id state status) w ≡ ok tt
  unfolding write_ephemeral_state Redis.save_state Redis.record_heartbeat
  write-ok state status h = ground arith

  pub write-runs :
      (state : SessionState) (status : SessionStatus)
      → 0 < ttl_for_status settings status
      → write_ephemeral_state settings state.session_id state status w
        ≡ (ok tt, after (write_ephemeral_state settings state.session_id state status) w)
  write-runs state status h = ground (arith, write-ok state status h)

  pub write-Wrote :
      (state : SessionState) (status : SessionStatus)
      → 0 < ttl_for_status settings status
      → Wrote settings state w
          (after (write_ephemeral_state settings state.session_id state status) w)
  unfolding write_ephemeral_state Redis.save_state Redis.record_heartbeat
  write-Wrote state status h = record {
    tables = ground arith;
    sessions = ground arith;
    up = ground arith;
    states = λ q. ground arith;
  }

  -- A state that is live is read, and nothing changes.
  pub load-live :
      (session_id : ℕ) {state : SessionState}
      → live w.clock (w.states session_id) ≡ some state
      → load_or_reconcile_state settings session_id w ≡ (ok state, w)
  unfolding load_or_reconcile_state Redis.get_state_or_none
  load-live session_id h = ground arith

-- A write changes no table and publishes nothing, whether or not Redis fails on the way.
module _ (settings : Settings) where
  pub save_state-keeps :
      (state : SessionState) (ttl : Option ℕ) (w : World)
      → let w' = after (Redis.save_state settings state ttl) w in
        (w'.sessions ≡ w.sessions) × (w'.published ≡ w.published) × (w'.clock ≡ w.clock)
  unfolding Redis.save_state
  save_state-keeps state ttl w = ground arith

  pub record_heartbeat-keeps :
      (session_id : ℕ) (w : World)
      → let w' = after (Redis.record_heartbeat settings session_id) w in
        (w'.sessions ≡ w.sessions) × (w'.published ≡ w.published) × (w'.clock ≡ w.clock)
  unfolding Redis.record_heartbeat
  record_heartbeat-keeps session_id w = ground arith

  pub write-keeps :
      (session_id : ℕ) (state : SessionState) (status : SessionStatus) (w : World)
      → let w' = after (write_ephemeral_state settings session_id state status) w in
        (w'.sessions ≡ w.sessions) × (w'.published ≡ w.published) × (w'.clock ≡ w.clock)
  unfolding write_ephemeral_state
  write-keeps session_id state status w =
      let w₁ = after (Redis.save_state settings state (some (ttl_for_status settings status))) w in
      ground (
        arith,
        save_state-keeps state (some (ttl_for_status settings status)) w,
        record_heartbeat-keeps session_id w₁,
      )

-- A heartbeat on a live state stamps it and gives its key the time of an ordinary session.
pub record Beat (settings : Settings) (session_id : ℕ) (state : SessionState) (w w' : World)
    : Type 0 where
  pub runs : Redis.record_heartbeat settings session_id w ≡ (ok tt, w')
  pub held : w'.states session_id ≡ some (entry settings w state)
  pub up : w'.outages ≡ []
  pub clock : w'.clock ≡ w.clock
  pub sessions : w'.sessions ≡ w.sessions

pub heartbeat-Beat :
    (settings : Settings) (w : World) (session_id : ℕ) {state : SessionState}
    → w.outages ≡ []
    → live w.clock (w.states session_id) ≡ some state
    → state.session_id ≡ session_id
    → Beat settings session_id state w (after (Redis.record_heartbeat settings session_id) w)
unfolding Redis.record_heartbeat
heartbeat-Beat settings w session_id up held keyed = record {
  runs = ground arith;
  held = ground arith;
  up = ground arith;
  clock = ground arith;
  sessions = ground arith;
}
