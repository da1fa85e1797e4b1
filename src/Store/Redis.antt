-- ===== src/Store/Redis.antt =====
-- infrastructure/redis/session_state.py: RedisSessionStateStore.
use vox_forge.Common.{
  ℕ, ◌+◌, ◌-◌, Bool, true, false, Option, none, some, [], ◌∷◌, ltb, if◌then◌else◌,
}
use vox_forge.Domain.Session.{SessionPhase, SessionState}
use vox_forge.Store.World.{Settings, Entry, update}
use vox_forge.Store.Exec.{
  Exec, Error, session_not_found, redis_error, pure, raise, gets, or_raise, modify, ◌>>=◌, ◌>>◌,
  try,
}

-- Each command reaches Redis, or fails by the next entry of the outage list.
abbrev pub command : Exec Unit
command w = elim w.outages [
  | [] ↦ pure tt w
  | down ∷ rest ↦ (if down then raise redis_error else pure tt) (record w { outages = rest })
]

-- GET: a key is there until it expires.
abbrev pub live : {A : Type 0} → ℕ → Option (Entry A) → Option A
live now none = none
live now (some e) = if ltb now e.expires then some e.value else none

module _ (settings : Settings) where
  -- `self._ttl`, which every construction in the program sets to this field
  abbrev pub store_ttl : ℕ
  store_ttl = settings.session_state_ttl_seconds

  unfoldable pub save_state : SessionState → Option ℕ → Exec Unit
  save_state state ttl_seconds = do
    command
    modify λ w. record w {
      states = update w.states state.session_id (
          some (record {
            value = state;
            expires = w.clock + elim ttl_seconds [ none ↦ store_ttl | some t ↦ t ];
          }));
    }

  unfoldable pub get_state : ℕ → Exec SessionState
  get_state session_id = do
    command
    raw ← gets λ w. live w.clock (w.states session_id)
    or_raise raw (session_not_found session_id)

  abbrev absent_is_none : Error → Exec (Option SessionState)
  absent_is_none (session_not_found _) = pure none
  absent_is_none e = raise e

  unfoldable pub get_state_or_none : ℕ → Exec (Option SessionState)
  unfolding get_state
  get_state_or_none session_id =
      try (do state ← get_state session_id; pure (some state)) absent_is_none

  unfoldable pub update_phase : ℕ → SessionPhase → Exec SessionState
  unfolding get_state save_state
  update_phase session_id phase = do
    state ← get_state session_id
    let state' = record state { phase = phase; sequence = state.sequence + 1 }
    save_state state' none
    pure state'

  unfoldable pub set_interrupt : ℕ → Bool → Exec SessionState
  unfolding get_state save_state
  set_interrupt session_id value = do
    state ← get_state session_id
    let state' = record state { interrupt = value; sequence = state.sequence + 1 }
    save_state state' none
    pure state'

  unfoldable pub clear_interrupt : ℕ → Exec SessionState
  unfolding set_interrupt
  clear_interrupt session_id = set_interrupt session_id false

  unfoldable pub record_heartbeat : ℕ → Exec Unit
  unfolding get_state save_state
  record_heartbeat session_id = do
    command
    modify λ w. record w {
      heartbeats =
          update w.heartbeats session_id
            (some (record { value = w.clock; expires = w.clock + store_ttl }));
    }
    state ← get_state session_id
    now ← gets λ w. w.clock
    save_state (record state { last_heartbeat = some now }) none

  unfoldable pub is_stale : ℕ → ℕ → Exec Bool
  is_stale session_id stale_timeout_seconds = do
    command
    w ← gets λ w. w
    pure (elim (live w.clock (w.heartbeats session_id)) [
      | none ↦ true
      | some last ↦ ltb stale_timeout_seconds (w.clock - last)
    ])

  unfoldable pub delete_state : ℕ → Exec Unit
  delete_state session_id = do
    command
    modify λ w. record w {
      states = update w.states session_id none;
      heartbeats = update w.heartbeats session_id none;
    }
