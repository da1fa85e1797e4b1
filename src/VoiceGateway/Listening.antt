-- ===== src/VoiceGateway/Listening.antt =====
-- modules/voice_gateway/application/pipeline.py: `run_listening`, over the events that the speech
-- provider yields.
pub mod Deaf
use vox_forge.Common.{
  ℕ, zero, suc, ◌≡◌, refl, sym, ap, ◌∙◌, Text, Bool, true, false, Option, none, some, List, [], ◌∷◌,
  is_empty, strip, if◌then◌else◌, arith, Bool-cases, Option-cases, inl, inr, ◌⊎◌,
}
use vox_forge.Domain.Json.{Fields, end}
use vox_forge.Domain.Handoff.{Float}
use vox_forge.Store.World.{World}
use vox_forge.Store.Exec.{Exec, Result, ok, err, pure, try, ◌>>=◌, ◌>>◌}
use vox_forge.VoiceGateway.Sentences.{Scan, index_error, scanned, add, flush}
use vox_forge.VoiceGateway.Audio.{AudioChunk, Stream}
use vox_forge.VoiceGateway.Speaking.{
  Speech, silence, Ending, goes_on, breaks, raises, is_set, looked, look, interrupted, heard, told,
  play, say, say_rest, after_say, after_add, speak_from, speak,
}
use vox_forge.VoiceGateway.Pipeline.{Pipeline, Turn, TurnDone, process_turn, speak_turn}

pub record TranscriptEvent : Type 0 where
  pub text : Text
  pub is_partial : Bool
  pub confidence : Option Float

-- An event, with the latency that was measured for its utterance, and when an interrupt comes if the
-- event starts a turn: the turn has an interrupt flag of its own.
pub record Utterance : Type 0 where
  pub event : TranscriptEvent
  pub stt_ms : Option Float
  pub looks : Option ℕ

-- The turns that have run, and whether the error callback was called.
pub record Listened : Type 0 where
  pub turns : List TurnDone
  pub failed : Bool

abbrev pub nothing : Listened
nothing = record { turns = []; failed = false }

abbrev one_more_turn : TurnDone → Listened → Listened
one_more_turn done later = record { turns = done ∷ later.turns; failed = later.failed }

abbrev pub turn_of : ℕ → Option ℕ → Utterance → Turn
turn_of session_id org_id u = record {
  session_id = session_id;
  org_id = org_id;
  transcript = strip u.event.text;
  stt_ms = u.stt_ms;
  confidence = u.event.confidence;
  user_metadata_extra = end;
  looks = u.looks;
}

module _ (p : Pipeline) (session_id : ℕ) (org_id : Option ℕ) where
  -- How a turn goes on: with the flag of the turn, or not at all if it raises.
  abbrev after_turn : (Option ℕ → Exec Listened) → Option TurnDone → Exec Listened
  after_turn later none = pure (record { turns = []; failed = true })
  after_turn later (some done) = do rest ← later done.speech.looks; pure (one_more_turn done rest)

  -- The loop; `looks` is the flag that it looks at, which is that of the last turn.
  unfoldable pub run_listening : List Utterance → Option ℕ → Exec Listened
  run_listening [] looks = pure nothing
  run_listening (u ∷ utterances) looks =
      let later = run_listening utterances in
      let turn =
        try (do done ← process_turn p (turn_of session_id org_id u); pure (some done))
          (λ e. pure none)
        >>= after_turn later in
      if is_set looks
      then pure nothing
      else if u.event.is_partial
      then later (looked looks)
      else if is_empty (strip u.event.text)
      then later (looked looks)
      else turn
