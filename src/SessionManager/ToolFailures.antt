-- ===== src/SessionManager/ToolFailures.antt =====
-- `track_tool_failures`: the count of tool failures over consecutive turns.
use vox_forge.Common.{
  ℕ, ◌+◌, ◌<◌, map, ◌≡◌, some, [], ◌∷◌, List, arith, ltb, ◌==◌, if◌then◌else◌, Bool, true, false,
  eq_refl,
}
use vox_forge.Domain.Json.{num, insert, lookup-insert}
use vox_forge.Domain.Session.{SessionState, VoiceSession}
use vox_forge.Store.World.{World, Settings}
use vox_forge.Store.Exec.{ok, pure, modify, ◌>>◌, result, after, Exec, ◌>>=◌}
use vox_forge.Store.Redis.{live}
use vox_forge.Store.Sessions
use vox_forge.SessionManager.{write_ephemeral_state, track_tool_failures, get_default}
use vox_forge.SessionManager.Heartbeat.{write-Wrote, write-runs, load-live, entry}
use vox_forge.SessionManager.Reconcile.{IsLasting, ttl-pos}

-- Redis is up, the row is there, and the state, which has `left` seconds to live, counts `n` failures.
pub record Counts (session : VoiceSession) (n left : ℕ) (w : World) : Type 0 where
  pub up : w.outages ≡ []
  pub row : w.sessions session.id ≡ some session
  pub state : SessionState
  pub held : w.states session.id ≡ some (record { value = state; expires = w.clock + left })
  pub keyed : state.session_id ≡ session.id
  pub counter : get_default "consecutive_tool_failures" (num 0) state.config ≡ num n

-- A turn: the seconds since the one before it, and the number of tools that failed in it.
abbrev pub Turn : Type 0
Turn = ℕ × ℕ

abbrev pub pass_time : ℕ → World → World
pass_time seconds w = record w { clock = w.clock + seconds }

unfoldable pub track_turns : Settings → ℕ → ℕ → List Turn → Exec ℕ
track_turns settings session_id last [] = pure last
track_turns settings session_id last ((waited, failed) ∷ turns) = do
  modify (pass_time waited)
  current ← track_tool_failures settings session_id failed
  track_turns settings session_id current turns

-- Every turn comes while the state lives: the first within the time that it has left, each other one
-- within the lifetime of a state.
abbrev pub Timely : ℕ → ℕ → List Turn → Type 0
Timely lifetime left [] = Unit
Timely lifetime left ((waited, failed) ∷ turns) = (waited < left) × Timely lifetime lifetime turns

-- Read from the back: whether some turn had no failure, and the failures after the last such turn.
abbrev pub trailing : List ℕ → Bool × ℕ
trailing [] = (false, 0)
trailing (failed ∷ turns) =
    let (clean, n) = trailing turns in
    if clean then (true, n) else if failed == 0 then (true, n) else (false, failed + n)

abbrev pub streak : ℕ → List ℕ → ℕ
streak before turns = let (clean, n) = trailing turns in if clean then n else before + n

module _ (settings : Settings) (lasting : IsLasting settings) (session : VoiceSession) where
  abbrev next : ℕ → ℕ → ℕ
  next n failed = if ltb 0 failed then n + failed else 0

  track-Counts :
      (n left waited failed : ℕ) (w₀ : World)
      → Counts session n left w₀
      → waited < left
      → let w = pass_time waited w₀ in
        (w' : World) × (track_tool_failures settings session.id failed w ≡ (ok (next n failed), w'))
        × Counts session (next n failed) settings.session_state_ttl_seconds w'
  unfolding track_tool_failures Sessions.get
  track-Counts n left waited failed w₀ c soon =
      let w = pass_time waited w₀ in
      let held : live w.clock (w.states session.id) ≡ some c.state = ground (arith, c.held, soon) in
      let changed : SessionState = record c.state {
        config = insert "consecutive_tool_failures" (num (next n failed)) c.state.config;
      } in
      let lives = ttl-pos settings session.status lasting in
      let runs = write-runs settings w c.up changed session.status lives in
      let wrote = write-Wrote settings w c.up changed session.status lives in
      (
        after (write_ephemeral_state settings changed.session_id changed session.status) w,
        ground (arith, load-live settings w c.up session.id held, runs, c.counter, c.row, c.keyed),
        record {
          up = wrote.up;
          row = ground (arith, wrote.sessions, c.row);
          state = (entry settings w changed).value;
          held = ground (arith, wrote.states session.id, wrote.tables.clock, c.keyed);
          keyed = c.keyed;
          counter = ground (
            arith,
            lookup-insert "consecutive_tool_failures" "consecutive_tool_failures"
                (num (next n failed)) c.state.config,
            eq_refl "consecutive_tool_failures",
          );
        },
      )

  -- While Redis is up and every turn comes before the state has expired, the count after any turns is
  -- that of the failures since the last turn without one, or since the count before the turns, if
  -- nothing else happens to the session between them.
  pub track_turns-streak :
      (n left : ℕ) (turns : List Turn) (w : World)
      → Counts session n left w
      → Timely settings.session_state_ttl_seconds left turns
      → result (track_turns settings session.id n turns) w ≡ ok (streak n (map (λ t. t.1) turns))
  unfolding track_turns
  track_turns-streak n left [] w c timely = ground arith
  track_turns-streak n left ((waited, failed) ∷ turns) w c (soon, timely) =
      let (w', runs, c') = track-Counts n left waited failed w c soon in
      ground (
        arith,
        runs,
        track_turns-streak (next n failed) settings.session_state_ttl_seconds turns w' c' timely,
      )
