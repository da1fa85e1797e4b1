-- ===== src/VoiceSocket/Tests.antt =====
-- The socket of a call on small inputs.
use vox_forge.Common.{
  ◌-◌, ◌≡◌, refl, codes, true, false, none, some, List, [], ◌∷◌, map, length, drop, arith,
}
use vox_forge.Domain.Session.{VoiceSession, SessionStatus, is_terminal}
use vox_forge.Store.World.{World}
use vox_forge.Store.Exec.{pure}
use vox_forge.Store.Redis
use vox_forge.Store.Sample.{sample_settings, session_with, running}
use vox_forge.VoiceGateway.Pipeline.{Pipeline, interrupt}
use vox_forge.VoiceSocket.Channel.{
  Connection, new_connection, interrupts, Door, refused, continues, unanswered, send, interrupted,
  Event, control, audio, takes, calls_back, on_token, works,
}
use vox_forge.VoiceSocket.{handle_control, serve}
use vox_forge.VoiceSocket.Queue.{enqueue_all, enqueue_all-latest}
use vox_forge.VoiceSocket.Forgotten.{worked, Forgotten, handle-forgets, serve-ends}

abbrev door : Door
door = record {
  admit = λ msg. pure (refused (codes "unauthorized") (codes "No token"));
  bootstrap = λ org_id id. pure tt;
}

abbrev pipeline : Pipeline
pipeline = record {
  settings = sample_settings;
  system_prompt = λ id. codes "Be kind.";
  generate = λ id history. record { events = []; failed = false; trace = [] };
  synthesize = λ voice_id t. record { chunks = []; failed = false };
  default_tts_voice_id = codes "alto";
  show_value = λ v. [];
  llm_first_token_ms = 1;
  tts_first_byte_ms = 2;
  e2e_ms = 3;
  memory = none;
  evaluation = none;
  outcomes = none;
  knowledge = none;
  escalation = none;
  knowledge_context_enabled = false;
  handoff_enabled = false;
}

abbrev talking : Connection
talking = record new_connection { session_id = some 7 }

abbrev speech : List Event
speech =
    audio (codes "ab")
    ∷ works (λ w. record w { clock = 101 })
    ∷ takes
    ∷ calls_back (on_token (codes "hi "))
    ∷ audio (codes "cd")
    ∷ []

enqueue_all-latest_example :
    enqueue_all 2 (codes "a" ∷ codes "b" ∷ codes "c" ∷ []) []
    ≡ drop
        (length (map some (codes "a" ∷ codes "b" ∷ codes "c" ∷ [])) - 2)
        (map some (codes "a" ∷ codes "b" ∷ codes "c" ∷ []))
enqueue_all-latest_example =
    enqueue_all-latest 2 (codes "a" ∷ codes "b" ∷ codes "c" ∷ []) (omega arith)

abbrev flagged : World
flagged = (interrupt pipeline 7 running).1

flag_set :
    handle_control door pipeline interrupts talking running
    ≡ (continues (unanswered (send interrupted talking)), flagged)
unfolding handle_control interrupt Redis.set_interrupt Redis.get_state Redis.get_state_or_none
    Redis.save_state
flag_set = refl

handle-forgets_example :
    Forgotten speech
      (send interrupted talking)
      flagged
      (serve door pipeline (control interrupts ∷ speech) talking running)
handle-forgets_example =
    handle-forgets door pipeline interrupts speech talking running flagged
      (unanswered (send interrupted talking)) refl refl flag_set

serve-ends_example :
    (ended : VoiceSession) × ((serve door pipeline speech talking running).1.sessions 7
      ≡ some ended)
    × (is_terminal ended.status ≡ true)
unfolding worked
serve-ends_example =
    serve-ends door pipeline (session_with SessionStatus.active) speech talking running refl refl
      refl
