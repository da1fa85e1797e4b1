-- ===== src/SessionManager/Handoffs.antt =====
-- The handoff side of SessionManager: `apply_handoff_pending`, `apply_handoff_active` and
-- `clear_handoff` give the row a status, load the ephemeral state and write it back changed.
use vox_forge.Common.{
  ℕ, ◌+◌, ◌≡◌, refl, ◌∙◌, none, some, [], arith, ltb, if◌then◌else◌, false, eq_refl, ◌≢◌,
}
use vox_forge.Domain.Json.{Fields, obj, num, lookup, insert, remove, lookup-remove, lookup-insert}
use vox_forge.Domain.Session.{SessionStatus, SessionPhase, SessionState, VoiceSession, is_terminal}
use vox_forge.Store.World
use vox_forge.Store.World.{World, Settings, Entry}
use vox_forge.Store.Exec.{ok, after, Exec, ◌>>=◌, ◌>>◌}
use vox_forge.Store.Redis.{live}
use vox_forge.Store.Sessions
use vox_forge.SessionManager.{
  write_ephemeral_state, load_or_reconcile_state, apply_handoff_pending, clear_handoff, get_default,
}
use vox_forge.SessionManager.Heartbeat.{KeepsTables, write-Wrote, write-runs, load-live, entry}
use vox_forge.SessionManager.Reconcile.{IsLasting, IsFiled, Loads, load-Loads, ttl-pos}

-- The shape of the three calls.
unfoldable pub change : Settings → ℕ → SessionStatus → (SessionState → SessionState) → Exec Unit
change settings session_id status f = do
  Sessions.update_status session_id status
  state ← load_or_reconcile_state settings session_id
  write_ephemeral_state settings session_id (f state) status

-- What `apply_handoff_pending` makes of the state that it loads.
abbrev pub pending_state : Fields → SessionState → SessionState
pending_state context s = record s {
  phase = SessionPhase.handoff_pending;
  config =
      insert "consecutive_tool_failures" (get_default "consecutive_tool_failures" (num 0) s.config)
        (insert "handoff" (obj context) s.config);
}

-- What such a call has done, from the state `base` that it loaded.
pub record Changed (settings : Settings) (session : VoiceSession) (status : SessionStatus)
    (w w' : World) (base changed : SessionState) : Type 0 where
  pub row : w'.sessions session.id ≡ some (record session { status = status })
  pub others : (q : ℕ) → q ≢ session.id → w'.sessions q ≡ w.sessions q
  pub keyed : changed.session_id ≡ session.id
  pub loaded : {s : SessionState} → live w.clock (w.states session.id) ≡ some s → base ≡ s
  pub held : w'.states session.id ≡ some (entry settings w changed)
  pub up : w'.outages ≡ []
  pub tables : KeepsTables w w'

module _ (settings : Settings) (w : World) (session : VoiceSession) (up : w.outages ≡ [])
    (lasting : IsLasting settings) (filed : IsFiled w session.id)
    (known : w.sessions session.id ≡ some session) where
  -- The row with its new status, and the world that `update_status` leaves.
  abbrev moved : SessionStatus → VoiceSession
  moved status = record session { status = status }

  abbrev with_status : SessionStatus → World
  with_status status = record w {
    sessions = World.update w.sessions session.id (some (moved status));
  }

  update_status-lem :
      (status : SessionStatus)
      → Sessions.update_status session.id status w ≡ (ok (moved status), with_status status)
  unfolding Sessions.update_status
  update_status-lem status = ground arith

  loads :
      (status : SessionStatus)
      → is_terminal status ≡ false
      → (base : SessionState) × (w' : World) × Loads settings session.id
          (with_status status)
          base
          w'
  loads status running =
      load-Loads settings (with_status status) (moved status) up lasting session.id (ground arith)
        refl running filed

  abbrev base_of : (status : SessionStatus) → is_terminal status ≡ false → SessionState
  base_of status running = (loads status running).0

  change-write :
      (status : SessionStatus) (f : SessionState → SessionState) (base : SessionState) {w' : World}
      → Loads settings session.id (with_status status) base w'
      → change settings session.id status f w
        ≡ write_ephemeral_state settings session.id (f base) status w'
  unfolding change
  change-write status f base l = ground (arith, update_status-lem status, l.runs)

  pub change-Changed :
      (status : SessionStatus) (f : SessionState → SessionState)
      → is_terminal status ≡ false
      → ((s : SessionState) → (f s).session_id ≡ s.session_id)
      → (base : SessionState) × (w'' : World) × (change settings session.id status f w
          ≡ (ok tt, w''))
        × Changed settings session status w w'' base (f base)
  change-Changed status f running keeps =
      let (base, w', l) = loads status running in
      let same : (f base).session_id ≡ session.id = keeps base ∙ l.keyed in
      let lives = ttl-pos settings status lasting in
      let wrote = write-Wrote settings w' l.up (f base) status lives in
      (
        base,
        after (write_ephemeral_state settings (f base).session_id (f base) status) w',
        change-write status f base l
            ∙ rw (← same) (write-runs settings w' l.up (f base) status lives),
        record {
          row = ground (arith, wrote.sessions, l.sessions);
          keyed = same;
          others = λ q ne. ground (arith, wrote.sessions, l.sessions);
          loaded = λ {s} h.
              ground (arith, load-live settings (with_status status) up session.id h, l.runs);
          held = ground (arith, wrote.states session.id);
          up = wrote.up;
          tables = ground arith;
        },
      )

module _ (settings : Settings) (w : World) (session : VoiceSession) (up : w.outages ≡ [])
    (lasting : IsLasting settings) (filed : IsFiled w session.id)
    (known : w.sessions session.id ≡ some session) where
  -- With Redis up, states of a positive lifetime and a known session, whatever its status, whose live
  -- state, if it has one, is filed under its id, `clear_handoff` succeeds: the row is active and its
  -- other columns are as they were, and the ephemeral state is listening with no handoff.
  pub clear_handoff-activates :
      (w' : World) × (clear_handoff settings session.id w ≡ (ok tt, w'))
      × (w'.sessions session.id ≡ some (record session { status = SessionStatus.active }))
      × ((state : SessionState) × (live w'.clock (w'.states session.id) ≡ some state)
          × (state.phase ≡ SessionPhase.listening)
          × (lookup "handoff" state.config ≡ none))
  unfolding clear_handoff change
  clear_handoff-activates =
      let (base, w', runs, c) =
        change-Changed settings w session up lasting filed known SessionStatus.active
          (λ s. record s { phase = SessionPhase.listening; config = remove "handoff" s.config })
          refl (λ s. refl) in
      let f : SessionState → SessionState =
        λ s. record s { phase = SessionPhase.listening; config = remove "handoff" s.config } in
      (
        w',
        runs,
        c.row,
        (
          (entry settings w (f base)).value,
          ground (arith, c.held, c.tables.clock, lasting.session),
          refl,
          ground (arith, lookup-remove "handoff" "handoff" base.config, eq_refl "handoff"),
        ),
      )

  pub apply_handoff_pending-Changed :
      (context : Fields)
      → (base : SessionState) × (w' : World) × (apply_handoff_pending settings session.id context w
          ≡ (ok tt, w'))
        × Changed settings session SessionStatus.handoff_pending w w' base
            (pending_state context base)
  unfolding apply_handoff_pending change
  apply_handoff_pending-Changed context =
      change-Changed settings w session up lasting filed known SessionStatus.handoff_pending
        (pending_state context) refl (λ s. refl)

  -- With Redis up, states of a positive lifetime and a known session whose live state, if it has one, is
  -- filed under its id, `apply_handoff_pending` succeeds; the row is pending and the ephemeral state
  -- holds the handoff context, but its key is gone after the time of an ordinary session, whatever time
  -- handoffs are given in the settings, if nothing writes it again.
  pub apply_handoff_pending-expiry :
      (context : Fields) (now : ℕ)
      → (w' : World) × (apply_handoff_pending settings session.id context w ≡ (ok tt, w'))
        × (w'.sessions session.id
            ≡ some (record session { status = SessionStatus.handoff_pending }))
        × ((state : SessionState) × (live now (w'.states session.id) ≡ (
              if ltb now (w.clock + settings.session_state_ttl_seconds) then some state else none))
            × (state.phase ≡ SessionPhase.handoff_pending)
            × (lookup "handoff" state.config ≡ some (obj context)))
  apply_handoff_pending-expiry context now =
      let (base, w', runs, c) = apply_handoff_pending-Changed context in
      (
        w',
        runs,
        c.row,
        (
          (entry settings w (pending_state context base)).value,
          ground (arith, c.held),
          refl,
          simp lookup-insert,
        ),
      )
