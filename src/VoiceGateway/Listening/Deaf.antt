-- ===== src/VoiceGateway/Listening/Deaf.antt =====
-- What an interrupted turn does to the listening loop.
use vox_forge.Common.{
  ℕ, ◌≡◌, refl, true, false, Option, none, List, [], ◌∷◌, is_empty, strip, arith,
}
use vox_forge.Store.World.{World}
use vox_forge.Domain.Session.{SessionPhase}
use vox_forge.Store.Redis
use vox_forge.SessionManager.{get_session_config}
use vox_forge.Store.Exec.{gets, ok}
use vox_forge.Store.Triple.{Triple, Triple-bind, Triple-pure, Triple-any, Triple-known}
use vox_forge.VoiceGateway.Speaking.{Speech, is_set}
use vox_forge.VoiceGateway.Speaking.Interrupt.{speak-IsNoted}
use vox_forge.VoiceGateway.Pipeline.{
  Pipeline, Turn, TurnDone, process_turn, open_turn, speak_turn, finish_turn, voice_of, said_of,
}
use vox_forge.VoiceGateway.Listening.{Utterance, nothing, run_listening, turn_of}

-- The flag of an interrupted speech is set at its end.
abbrev IsNoted : Speech → Type 0
IsNoted s = s.was_interrupted ≡ true → is_set s.looks ≡ true

speak_turn-IsNoted :
    (p : Pipeline) (turn : Turn)
    → Triple (λ w. Unit) (speak_turn p turn) (λ said w. IsNoted said.speech)
unfolding speak_turn
speak_turn-IsNoted p turn =
    Triple-bind (Redis.update_phase p.settings turn.session_id SessionPhase.speaking) _
      (Triple-any _)
      λ state.
        Triple-bind (get_session_config p.settings turn.session_id) _ (Triple-any _) λ config.
          Triple-bind (gets λ w. w.histories turn.session_id) _ (Triple-any _) λ history.
            let made = p.generate turn.session_id history in
            Triple-pure (said_of p turn config made) λ w u.
              speak-IsNoted (p.synthesize (voice_of p config)) made.events made.failed turn.looks

-- The speech of a turn that returned.
pub process_turn-IsNoted :
    (p : Pipeline) (turn : Turn)
    → Triple (λ w. Unit) (process_turn p turn) (λ done w. IsNoted done.speech)
unfolding process_turn
process_turn-IsNoted p turn = Triple-bind (open_turn p turn) _ (Triple-any _) λ u.
    Triple-bind (speak_turn p turn) _ (speak_turn-IsNoted p turn) λ said.
      Triple-bind (finish_turn p turn said) _ (Triple-known _) λ u. Triple-pure _ λ w noted. noted

run_listening-set :
    (p : Pipeline) (session_id : ℕ) (org_id : Option ℕ) (later : List Utterance) (looks : Option ℕ)
    (w : World)
    → is_set looks ≡ true
    → run_listening p session_id org_id later looks w ≡ (ok nothing, w)
unfolding run_listening
run_listening-set p session_id org_id [] looks w h = refl
run_listening-set p session_id org_id (u ∷ later) looks w h = rw h refl

-- Once a turn has been interrupted, the listening loop ends at the next event of the speech provider:
-- whatever the caller says afterwards starts no turn and changes nothing.
pub interrupted-stops_listening :
    (p : Pipeline) (session_id : ℕ) (org_id : Option ℕ) (u : Utterance) (later : List Utterance)
    (w : World) (done : TurnDone) (w' : World)
    → process_turn p (turn_of session_id org_id u) w ≡ (ok done, w')
    → done.speech.was_interrupted ≡ true
    → u.event.is_partial ≡ false
    → is_empty (strip u.event.text) ≡ false
    → run_listening p session_id org_id (u ∷ later) none w
      ≡ (ok (record { turns = done ∷ []; failed = false }), w')
unfolding run_listening
interrupted-stops_listening p session_id org_id u later w done w' ran stopped whole spoken =
    ground (
      arith,
      whole,
      spoken,
      ran,
      run_listening-set p session_id org_id later done.speech.looks w'
          ((process_turn-IsNoted p (turn_of session_id org_id u)).at w tt done w' ran stopped),
    )
