-- ===== src/VoiceGateway/Tests.antt =====
-- Token streams, audio and turns on small inputs.
use vox_forge.Common.{
  ◌+◌, ◌≤◌, ◌≡◌, refl, sym, ap, ℕ, Option, Text, codes, true, false, none, some, List, [], ◌∷◌,
  ◌++◌, All, length, strip, is_space, lstrip, rstrip, arith, ◌⊎◌, if◌then◌else◌, is_empty,
}
use vox_forge.Domain.Json.{lookup}
use vox_forge.Domain.Session.{SessionPhase, SessionState, MessageRole}
use vox_forge.Store.World.{World}
use vox_forge.Store.Exec.{Result, ok, err}
use vox_forge.Store.Redis
use vox_forge.Store.Redis.{live}
use vox_forge.Store.Sessions
use vox_forge.Store.Sample.{sample_settings, running}
use vox_forge.SessionManager.Reconcile.{IsLasting, IsFiled}
use vox_forge.SessionManager.{get_session_config, save_message, save_turn_metrics}
use vox_forge.Agents.Service.{add_chat_message}
use vox_forge.VoiceGateway.Sentences.{is_ending, add, flush, scan_from, token_stream_to_sentences}
use vox_forge.VoiceGateway.Sentences.Add.{add_cut, last_ending, add-cuts}
use vox_forge.VoiceGateway.Sentences.Squeeze.{squeeze}
use vox_forge.VoiceGateway.Sentences.Stream.{
  concat, has_newline, token_stream-completes, token_stream-blank_line,
}
use vox_forge.VoiceGateway.Audio.{
  Answer, Stream, chunk_of, IsAligned, bytes_of, synthesize_text, synthesize_text-frames,
}
use vox_forge.VoiceGateway.Speaking.{goes_on, raises, play, say, say_rest, speak_from, speak}
use vox_forge.VoiceGateway.Speaking.Interrupt.{speak-interrupted}
use vox_forge.VoiceGateway.Speaking.Uninterrupted.{texts_of, chunks_of, speak-uninterrupted}
use vox_forge.VoiceGateway.Pipeline.{
  Pipeline, Turn, TurnDone, open_turn, speak_turn, store_reply, evaluate_turn, escalate_turn,
  record_outcome, close_turn, finish_turn, process_turn,
}
use vox_forge.VoiceGateway.Pipeline.Closing.{process_turn-listens}
use vox_forge.VoiceGateway.Pipeline.Transcript.{IsSilent, lines, process_turn-transcript}
use vox_forge.VoiceGateway.Listening.{Utterance, run_listening, turn_of}
use vox_forge.VoiceGateway.Listening.Deaf.{interrupted-stops_listening}

add-cuts_example :
    add (codes "Hi. ") (codes "You") ≡ add_cut (codes "Hi. You") (last_ending (codes "Hi. You"))
add-cuts_example = add-cuts (codes "Hi. ") (codes "You")

abbrev two_sentences : List Text
two_sentences = codes "Hello. " ∷ codes "How are" ∷ codes " you?" ∷ []

no_newlines : All (λ t. has_newline t ≡ false) two_sentences
no_newlines = (refl, (refl, (refl, tt)))

token_stream-completes_example :
    ((token_stream_to_sentences two_sentences).failed ≡ false)
    × (squeeze (concat (token_stream_to_sentences two_sentences).sentences)
        ≡ squeeze (concat two_sentences))
token_stream-completes_example = token_stream-completes two_sentences no_newlines

token_stream-blank_line_example :
    token_stream_to_sentences (codes "Hello." ∷ codes "\n\n" ∷ codes "Lost." ∷ [])
    ≡ record { sentences = strip (codes "Hello.") ∷ []; failed = true }
unfolding is_space
token_stream-blank_line_example =
    token_stream-blank_line (codes "Hello") [] 10 (codes "Lost." ∷ []) refl

abbrev answered : Text → Text → Answer
answered text voice_id = record {
  status_code = 200;
  pieces = (1 ∷ 2 ∷ 3 ∷ []) ∷ (4 ∷ 5 ∷ []) ∷ [];
  broken = false;
}

synthesize_text-frames_example :
    let s = synthesize_text answered (codes "Hi.") [] in
    (s.failed ≡ false)
    × All IsAligned s.chunks
    × ((s.failed ≡ true) ⊎ (bytes_of s.chunks ≡ 1 ∷ 2 ∷ 3 ∷ 4 ∷ 5 ∷ 0 ∷ []))
synthesize_text-frames_example = synthesize_text-frames answered (codes "Hi.") []

-- One chunk for each text.
abbrev voice : Text → Stream
voice text = record { chunks = chunk_of text ∷ []; failed = false }

speak-interrupted_example :
    length (speak voice two_sentences false (some 2)).1.tokens
      + length (speak voice two_sentences false (some 2)).1.audio
    ≤ 2
speak-interrupted_example = speak-interrupted voice two_sentences false 2

speak-uninterrupted_example :
    let spoken = token_stream_to_sentences (texts_of two_sentences) in
    let (ending, s) = speak voice two_sentences false none in
    (s.audio ≡ chunks_of voice (λ t. refl) spoken.sentences)
    × (s.was_interrupted ≡ false)
    × (ending ≡ (if spoken.failed then raises else goes_on))
    × ((spoken.failed ≡ true) ⊎ (s.assistant_text ≡ concat two_sentences))
speak-uninterrupted_example = speak-uninterrupted voice (λ t. refl) two_sentences

abbrev pipeline : Pipeline
pipeline = record {
  settings = sample_settings;
  system_prompt = λ id. codes "Be kind.";
  generate = λ id history. record { events = two_sentences; failed = false; trace = [] };
  synthesize = λ voice_id. voice;
  default_tts_voice_id = codes "alto";
  show_value = λ v. [];
  llm_first_token_ms = 1;
  tts_first_byte_ms = 2;
  e2e_ms = 3;
  memory = none;
  evaluation = none;
  outcomes = none;
  knowledge = none;
  escalation = none;
  knowledge_context_enabled = false;
  handoff_enabled = false;
}

abbrev utterance : Utterance
utterance = record {
  event = record { text = codes "hi "; is_partial = false; confidence = some 9 };
  stt_ms = some 4;
  looks = some 2;
}

abbrev turn : Turn
turn = turn_of 7 (some 2) utterance

abbrev first : Result TurnDone → TurnDone
first (ok d) = d
first (err e) = record {
  metrics = record {
    stt_ms = none;
    llm_first_token_ms = none;
    tts_first_byte_ms = none;
    e2e_ms = none;
  };
  speech = record {
    looks = none;
    assistant_text = [];
    was_interrupted = false;
    tokens = [];
    audio = [];
  };
  ending = goes_on;
}

abbrev done : TurnDone
done = first (process_turn pipeline turn running).0

abbrev end_of_turn : World
end_of_turn = (process_turn pipeline turn running).1

ran : process_turn pipeline turn running ≡ (ok done, end_of_turn)
unfolding process_turn open_turn speak_turn finish_turn store_reply evaluate_turn escalate_turn
    record_outcome close_turn Redis.update_phase Redis.clear_interrupt Redis.set_interrupt
    Redis.get_state Redis.save_state Redis.get_state_or_none get_session_config save_message
    save_turn_metrics Sessions.add_message Sessions.add_metric add_chat_message speak speak_from say
    say_rest play add scan_from flush is_ending lookup strip lstrip rstrip is_space
ran = refl

interrupted : done.speech.was_interrupted ≡ true
unfolding process_turn open_turn speak_turn finish_turn store_reply evaluate_turn escalate_turn
    record_outcome close_turn Redis.update_phase Redis.clear_interrupt Redis.set_interrupt
    Redis.get_state Redis.save_state Redis.get_state_or_none get_session_config save_message
    save_turn_metrics Sessions.add_message Sessions.add_metric add_chat_message speak speak_from say
    say_rest play add scan_from flush is_ending lookup strip lstrip rstrip is_space
interrupted = refl

heard : (utterance.event.is_partial ≡ false) × (is_empty (strip utterance.event.text) ≡ false)
unfolding strip lstrip rstrip is_space
heard = (refl, refl)

quiet : IsSilent pipeline
quiet = record {
  stores = tt;
  retrieves = tt;
  evaluates = tt;
  records = tt;
  knows = tt;
  assigns = tt;
}

process_turn-transcript_example :
    lines end_of_turn
    ≡ lines running
      ++ (7, MessageRole.user, turn.transcript) ∷ []
      ++ (if is_empty done.speech.assistant_text
          then []
          else (7, MessageRole.assistant, done.speech.assistant_text) ∷ [])
process_turn-transcript_example =
    process_turn-transcript pipeline quiet turn running done end_of_turn ran

interrupted-stops_listening_example :
    run_listening pipeline 7 (some 2) (utterance ∷ utterance ∷ []) none running
    ≡ (ok (record { turns = done ∷ []; failed = false }), end_of_turn)
interrupted-stops_listening_example =
    interrupted-stops_listening pipeline 7 (some 2) utterance (utterance ∷ []) running done
      end_of_turn ran interrupted heard.0 heard.1

abbrev id_of : Option SessionState → ℕ
id_of none = 7
id_of (some s) = s.session_id

filed : IsFiled end_of_turn 7
unfolding process_turn open_turn speak_turn finish_turn store_reply evaluate_turn escalate_turn
    record_outcome close_turn Redis.update_phase Redis.clear_interrupt Redis.set_interrupt
    Redis.get_state Redis.save_state Redis.get_state_or_none get_session_config save_message
    save_turn_metrics Sessions.add_message Sessions.add_metric add_chat_message speak speak_from say
    say_rest play add scan_from flush is_ending lookup strip lstrip rstrip is_space
filed state e = sym (ap id_of e)

process_turn-listens_example :
    (state : SessionState) × (live end_of_turn.clock (end_of_turn.states 7) ≡ some state)
    × (state.phase ≡ SessionPhase.listening)
process_turn-listens_example =
    process_turn-listens pipeline lasting turn running end_of_turn done ran filed
  where
    lasting : IsLasting sample_settings
    lasting = record { session = omega arith; handoff = omega arith }
