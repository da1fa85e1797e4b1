-- ===== src/VoiceGateway/Pipeline/Closing.antt =====
-- The end of a turn, also of one that has been escalated.
use vox_forge.Common.{
  ℕ, ◌+◌, ◌≡◌, ◌==◌, some, arith, Bool-cases, Option-cases, inl, inr, if◌then◌else◌,
}
use vox_forge.Domain.Session.{SessionPhase, SessionState}
use vox_forge.Store.World.{World, Settings}
use vox_forge.Store.Exec.{ok, pure, ◌>>◌}
use vox_forge.Store.Redis
use vox_forge.Store.Redis.{live}
use vox_forge.Store.Triple.{Triple, Triple-bind, Triple-any, Triple-pure}
use vox_forge.SessionManager.{save_turn_metrics}
use vox_forge.SessionManager.Reconcile.{IsLasting, IsFiled}
use vox_forge.VoiceGateway.Pipeline.{
  Pipeline, Turn, Said, TurnDone, close_turn, finish_turn, process_turn, open_turn, speak_turn,
  done_of, store_reply, metrics_of, evaluate_turn, escalate_turn, record_outcome,
}

-- The ephemeral state of the session is live and in this phase, if states are filed under their ids.
abbrev pub IsIn : SessionPhase → ℕ → World → Type 0
IsIn phase id w =
    IsFiled w id
    → (state : SessionState) × (live w.clock (w.states id) ≡ some state) × (state.phase ≡ phase)

module _ (settings : Settings) (lasting : IsLasting settings) (id : ℕ) (phase : SessionPhase) where
  update_phase-held :
      (w : World) (a : SessionState) (w' : World)
      → Redis.update_phase settings id phase w ≡ (ok a, w')
      → (s : SessionState) × (live w.clock (w.states id) ≡ some s)
        × (a ≡ record s { phase = phase; sequence = s.sequence + 1 })
        × (live w'.clock (w'.states id)
            ≡ (if s.session_id == id then some a else live w.clock (w.states id)))
  unfolding Redis.update_phase Redis.get_state Redis.save_state
  update_phase-held w a w' ran = elim (Option-cases (live w.clock (w.states id))) [
    | inl e ↦ ground (arith, ran, e)
    | inr (s, e) ↦ (s, e, ground (arith, ran, e), ground (arith, ran, e, lasting.session))
  ]

  update_phase-IsIn :
      (w : World) (a : SessionState) (w' : World)
      → Redis.update_phase settings id phase w ≡ (ok a, w')
      → IsIn phase id w'
  update_phase-IsIn w a w' ran filed =
      let (s, held, changed, kept) = update_phase-held w a w' ran in
      elim (Bool-cases (s.session_id == id)) [
        | inl own ↦ (a, ground (arith, kept, own), ground (arith, changed))
        | inr other ↦ ground (arith, filed s (ground (arith, kept, other, held)), other)
      ]

  then_pure :
      Triple (λ w. Unit) (do Redis.update_phase settings id phase; pure tt) (λ a w. IsIn phase id w)
  then_pure =
      Triple-bind _ _ (record { at = λ w p a w' ran. update_phase-IsIn w a w' ran })
        (λ a. Triple-pure tt (λ w h. h))

module _ (p : Pipeline) (lasting : IsLasting p.settings) (turn : Turn) where
  abbrev Listens : World → Type 0
  Listens = IsIn SessionPhase.listening turn.session_id

  close_turn-Triple : Triple (λ w. Unit) (close_turn p turn) (λ a w. Listens w)
  unfolding close_turn
  close_turn-Triple =
      Triple-bind _ _ (Triple-any _)
        (λ a. then_pure p.settings lasting turn.session_id SessionPhase.listening)

  finish_turn-Triple :
      (said : Said) → Triple (λ w. Unit) (finish_turn p turn said) (λ a w. Listens w)
  unfolding finish_turn
  finish_turn-Triple said = Triple-bind (store_reply p turn said) _ (Triple-any _) λ metadata.
      Triple-bind (save_turn_metrics turn.session_id (metrics_of p turn said.speech)) _
        (Triple-any _)
        λ saved. Triple-bind (evaluate_turn p turn said) _ (Triple-any _) λ run.
          Triple-bind (escalate_turn p turn said run metadata) _ (Triple-any _) λ marked.
            Triple-bind (record_outcome p turn said.speech marked) _ (Triple-any _)
              λ recorded. close_turn-Triple

  process_turn-Triple : Triple (λ w. Unit) (process_turn p turn) (λ a w. Listens w)
  unfolding process_turn
  process_turn-Triple = Triple-bind (open_turn p turn) _ (Triple-any _) λ opened.
      Triple-bind (speak_turn p turn) _ (Triple-any _) λ said.
        Triple-bind (finish_turn p turn said) _ (finish_turn-Triple said)
          λ finished. Triple-pure (done_of p turn said) (λ w h. h)

  -- A turn that returns leaves the ephemeral state of its session live and listening, whatever the
  -- turn has done, also when it has just initiated a handoff, which had set the phase of the state to
  -- the pending handoff. The lifetime of states is positive, and the state that is live in the end is
  -- filed under its id.
  pub process_turn-listens :
      (w w' : World) (done : TurnDone)
      → process_turn p turn w ≡ (ok done, w')
      → IsFiled w' turn.session_id
      → (state : SessionState) × (live w'.clock (w'.states turn.session_id) ≡ some state)
        × (state.phase ≡ SessionPhase.listening)
  process_turn-listens w w' done ran filed = process_turn-Triple.at w tt done w' ran filed
