-- ===== src/VoiceGateway/Pipeline.antt =====
-- modules/voice_gateway/application/pipeline.py: VoicePipelineService. A turn is cut where the source
-- has blank lines. Traces, log lines, timers and counters are left out, and commit is the caller's.
pub mod Closing
pub mod Transcript
use vox_forge.Common.{
  ℕ, String, Text, codes, Bool, true, false, not, Option, none, some, List, [], ◌∷◌, ◌++◌, ◌&&◌,
  is_some, is_empty, filter_by, map, if◌then◌else◌, str_eq, text_eq,
}
use vox_forge.Domain.Json.{
  Value, Values, Fields, array, no_values, one_more, null, num, flag, text, obj, end, field, lookup,
  insert,
}
use vox_forge.Domain.Session.{SessionPhase, SessionState, MessageRole, Message, ChatMessage}
use vox_forge.Domain.Handoff.{Float, HandoffTrigger, EscalationPolicy, HandoffPackage}
use vox_forge.Store.World.{World, Settings}
use vox_forge.Store.Exec.{
  Exec, Error, value_error, provider_error, pure, raise, gets, or_raise, ◌>>=◌, ◌>>◌,
}
use vox_forge.Store.Redis
use vox_forge.SessionManager
use vox_forge.SessionManager.{TurnMetrics}
use vox_forge.Agents.Service.{add_chat_message}
use vox_forge.Handoff.Policy.{Runtime, SignalWeights, HandoffDecision, evaluate}
use vox_forge.Handoff.Context.{
  Python, says, EvaluationMetric, PolicySettings, count_failures, build_turn_handoff_context,
  load_escalation_policy,
}
use vox_forge.Handoff.Orchestrator.{Services}
use vox_forge.Handoff.Orchestrator.Initiate.{initiate_handoff}
use vox_forge.VoiceGateway.Audio.{Stream}
use vox_forge.VoiceGateway.Speaking.{Speech, Ending, speak}

-- One stored turn of the memory.
pub record StoredTurn : Type 0 where
  pub org_id : ℕ
  pub session_id : ℕ
  pub role : MessageRole
  pub content : Text
  pub message_id : ℕ
  pub metadata : Fields

pub record MemoryService : Type 0 where
  pub store_turn : StoredTurn → Exec Unit
  -- the summary and the contents of the relevant entries
  pub retrieve_context : ℕ → ℕ → Text → Exec (Text × List Text)

-- A step of the agents as the evaluation sees it.
pub record TurnEvaluationInput : Type 0 where
  pub session_id : ℕ
  pub org_id : Option ℕ
  pub user_transcript : Text
  pub assistant_response : Text
  pub metrics : TurnMetrics
  -- the status and the agent of each tool step
  pub tool_calls : List (Option Value × Option Value)
  pub interrupted : Bool
  pub context_snippets : List Text

pub record OutcomeInput : Type 0 where
  pub org_id : Option ℕ
  pub session_id : ℕ
  pub user_transcript : Text
  pub assistant_response : Text
  pub interrupted : Bool
  -- `metrics.e2e_ms`; the service is given seconds
  pub e2e_ms : Option Float
  pub user_metadata : Fields
  pub assistant_metadata : Fields

-- The handoff orchestrator and the policy engine.
pub record Escalation : Type 0 where
  pub services : Services
  pub runtime : Runtime
  pub weights : SignalWeights
  pub python : Python
  pub policy_settings : PolicySettings

-- What the response generator gives from its history: the texts of its events, whether it raises at
-- their end, and the trace that it keeps.
pub record Generated : Type 0 where
  pub events : List Text
  pub failed : Bool
  pub trace : List Fields

-- What the service is built from; the three times are what the clock gives at the first token
-- and the first audio, if there is one.
pub record Pipeline : Type 0 where
  pub settings : Settings
  pub system_prompt : ℕ → Text
  pub generate : ℕ → Option (List ChatMessage) → Generated
  pub synthesize : Text → Text → Stream
  pub default_tts_voice_id : Text
  pub show_value : Value → Text
  pub llm_first_token_ms : Float
  pub tts_first_byte_ms : Float
  pub e2e_ms : Float
  pub memory : Option MemoryService
  pub evaluation : Option (TurnEvaluationInput → Exec (Option (List EvaluationMetric)))
  pub outcomes : Option (OutcomeInput → Exec Unit)
  pub knowledge : Option (ℕ → Text → Exec (List Text))
  pub escalation : Option Escalation
  pub knowledge_context_enabled : Bool
  pub handoff_enabled : Bool

-- What a turn is called with; `org_id` is the entry of `_session_orgs`, and `looks` says when the
-- interrupt comes (Speaking).
pub record Turn : Type 0 where
  pub session_id : ℕ
  pub org_id : Option ℕ
  pub transcript : Text
  pub stt_ms : Option Float
  pub confidence : Option Float
  pub user_metadata_extra : Fields
  pub looks : Option ℕ

-- What a turn returns, what the callbacks were given, and whether one was an error.
pub record TurnDone : Type 0 where
  pub metrics : TurnMetrics
  pub speech : Speech
  pub ending : Ending

abbrev pub float_value : Option Float → Value
float_value none = null
float_value (some x) = num x

-- `d.update(extra)`
abbrev pub merged : Fields → Fields → Fields
merged d end = d
merged d (field k v extra) = merged (insert k v d) extra

abbrev pub user_metadata : Turn → Fields
user_metadata turn =
    merged (field "confidence" (float_value turn.confidence) end) turn.user_metadata_extra

-- A value of the memory's calls, which are made only with a memory and an organisation.
abbrev pub remember :
    Option MemoryService → Option ℕ → ℕ → MessageRole → Text → ℕ → Fields → Exec Unit
remember (some memory) (some org_id) session_id role content message_id metadata =
    memory.store_turn (record {
      org_id = org_id;
      session_id = session_id;
      role = role;
      content = content;
      message_id = message_id;
      metadata = metadata;
    })
remember _ _ session_id role content message_id metadata = pure tt

-- `config.get("voice_id", default)`
abbrev pub voice_of : Pipeline → Fields → Text
voice_of p config = elim (lookup "voice_id" config) [
  | none ↦ p.default_tts_voice_id
  | some (text t) ↦ t
  | some v ↦ p.show_value v
]

abbrev pub metrics_of : Pipeline → Turn → Speech → TurnMetrics
metrics_of p turn s = record {
  stt_ms = turn.stt_ms;
  llm_first_token_ms = elim s.tokens [ [] ↦ none | _ ↦ some p.llm_first_token_ms ];
  tts_first_byte_ms = elim s.audio [ [] ↦ none | _ ↦ some p.tts_first_byte_ms ];
  e2e_ms = elim s.audio [ [] ↦ none | _ ↦ some p.e2e_ms ];
}

-- What the speech leaves: how it ended, the locals of the turn, the trace of the generator.
pub record Said : Type 0 where
  pub ending : Ending
  pub speech : Speech
  pub trace : List Fields

module _ (p : Pipeline) where
  -- The turn up to the response generator.
  unfoldable pub open_turn : Turn → Exec Unit
  open_turn turn = do
    Redis.update_phase p.settings turn.session_id SessionPhase.processing
    user_message ←
        SessionManager.save_message MessageRole.user turn.session_id turn.transcript
          (user_metadata turn)
    remember p.memory turn.org_id turn.session_id MessageRole.user turn.transcript user_message.id
        (field "confidence" (float_value turn.confidence) end)
    add_chat_message (p.system_prompt turn.session_id) MessageRole.user turn.session_id
        turn.transcript

  abbrev pub said_of : Turn → Fields → Generated → Said
  said_of turn config made =
      let (ending, speech) =
        speak (p.synthesize (voice_of p config)) made.events made.failed turn.looks in
      record { ending = ending; speech = speech; trace = made.trace }

  -- The tokens and the audio. An exception of the generator or the synthesis is caught.
  unfoldable pub speak_turn : Turn → Exec Said
  speak_turn turn = do
    Redis.update_phase p.settings turn.session_id SessionPhase.speaking
    config ← SessionManager.get_session_config p.settings turn.session_id
    history ← gets λ w. w.histories turn.session_id
    pure (said_of turn config (p.generate turn.session_id history))

  -- `{"agent_trace": trace} if trace else {}`
  abbrev steps_value : List Fields → Values
  steps_value [] = no_values
  steps_value (step ∷ steps) = one_more (obj step) (steps_value steps)

  abbrev pub trace_metadata : List Fields → Fields
  trace_metadata [] = end
  trace_metadata (step ∷ steps) = field "agent_trace" (array (steps_value (step ∷ steps))) end

  -- The reply is stored if there is one; the result is `assistant_metadata`.
  unfoldable pub store_reply : Turn → Said → Exec Fields
  store_reply turn said = if is_empty said.speech.assistant_text then pure end else (do
    let metadata = trace_metadata said.trace
    add_chat_message (p.system_prompt turn.session_id) MessageRole.assistant turn.session_id
        said.speech.assistant_text
    assistant_message ←
        SessionManager.save_message MessageRole.assistant turn.session_id said.speech.assistant_text
          metadata
    remember p.memory turn.org_id turn.session_id MessageRole.assistant said.speech.assistant_text
        assistant_message.id metadata
    pure metadata)

  abbrev tool_calls_of : List Fields → List (Option Value × Option Value)
  tool_calls_of trace =
      map (λ step. (lookup "status" step, lookup "agent" step))
        (filter_by (says "agent" (codes "tool")) trace)

  -- What the memory and the knowledge base know about the transcript.
  abbrev pub memory_snippets : Option MemoryService → Option ℕ → Turn → Exec (List Text)
  memory_snippets (some memory) (some org_id) turn = do
    found ← memory.retrieve_context org_id turn.session_id turn.transcript
    pure (if is_empty found.0 then found.1 else found.0 ∷ found.1)
  memory_snippets _ _ turn = pure []

  abbrev pub knowledge_snippets :
      Option (ℕ → Text → Exec (List Text)) → Option ℕ → Turn → Exec (List Text)
  knowledge_snippets (some retrieve) (some org_id) turn =
      if p.knowledge_context_enabled then retrieve org_id turn.transcript else pure []
  knowledge_snippets _ _ turn = pure []

  unfoldable pub evaluate_turn : Turn → Said → Exec (Option (List EvaluationMetric))
  evaluate_turn turn said = elim p.evaluation [
    | none ↦ pure none
    | some evaluation ↦ (do
      remembered ← memory_snippets p.memory turn.org_id turn
      known ← knowledge_snippets p.knowledge turn.org_id turn
      evaluation (record {
        session_id = turn.session_id;
        org_id = turn.org_id;
        user_transcript = turn.transcript;
        assistant_response = said.speech.assistant_text;
        metrics = metrics_of p turn said.speech;
        tool_calls = tool_calls_of said.trace;
        interrupted = said.speech.was_interrupted;
        context_snippets = remembered ++ known;
      }))
  ]

  -- The metadata of the reply, marked with its handoff.
  abbrev escalated : HandoffPackage → Fields → Fields
  escalated made metadata =
      insert "ticket_id" (elim made.ticket_id [ none ↦ null | some t ↦ text t ])
        (insert "handoff_id" (num made.handoff_id) (insert "escalation" (flag true) metadata))

  -- `initiate_handoff`, if the engine has decided so.
  abbrev pub act_on :
      Escalation → EscalationPolicy → ℕ → Turn → HandoffDecision → Fields → Exec Fields
  act_on e policy org_id turn decision metadata =
      elim (if decision.should_escalate then decision.trigger else none) [
        | none ↦ pure metadata
        | some trigger ↦ (do
          made ←
              initiate_handoff p.settings e.services policy org_id turn.session_id trigger
                decision.reason decision.confidence none (codes "normal")
          pure (escalated made metadata))
      ]

  -- The test for a handoff, where everything that it needs is there.
  unfoldable pub consider_handoff :
      Escalation → ℕ → Turn → Said → Option (List EvaluationMetric) → Fields → Exec Fields
  consider_handoff e org_id turn said run metadata = do
    config ← SessionManager.get_session_config p.settings turn.session_id
    policy ←
        or_raise (load_escalation_policy e.python config e.policy_settings) (value_error "policy")
    consecutive ←
        SessionManager.track_tool_failures p.settings turn.session_id
          (count_failures e.python said.trace)
    context ←
        or_raise
          (build_turn_handoff_context e.python turn.transcript said.speech.assistant_text
            said.speech.was_interrupted turn.confidence said.trace run consecutive)
          (value_error "float")
    act_on e policy org_id turn (evaluate e.runtime e.weights context policy) metadata

  unfoldable pub escalate_turn : Turn → Said → Option (List EvaluationMetric) → Fields → Exec Fields
  escalate_turn turn said run metadata = elim p.escalation [
    | none ↦ pure metadata
    | some e ↦ elim turn.org_id [
      | none ↦ pure metadata
      | some org_id ↦
          if p.handoff_enabled
          then consider_handoff e org_id turn said run metadata
          else pure metadata
    ]
  ]

  unfoldable pub record_outcome : Turn → Speech → Fields → Exec Unit
  record_outcome turn s metadata = elim p.outcomes [
    | none ↦ pure tt
    | some outcomes ↦ outcomes (record {
      org_id = turn.org_id;
      session_id = turn.session_id;
      user_transcript = turn.transcript;
      assistant_response = s.assistant_text;
      interrupted = s.was_interrupted;
      e2e_ms = (metrics_of p turn s).e2e_ms;
      user_metadata = user_metadata turn;
      assistant_metadata = metadata;
    })
  ]

  -- The end of the turn: the session listens again.
  unfoldable pub close_turn : Turn → Exec Unit
  close_turn turn = do
    Redis.clear_interrupt p.settings turn.session_id
    Redis.update_phase p.settings turn.session_id SessionPhase.listening
    pure tt

  -- What follows the speech.
  unfoldable pub finish_turn : Turn → Said → Exec Unit
  finish_turn turn said = do
    metadata ← store_reply turn said
    SessionManager.save_turn_metrics turn.session_id (metrics_of p turn said.speech)
    run ← evaluate_turn turn said
    metadata' ← escalate_turn turn said run metadata
    record_outcome turn said.speech metadata'
    close_turn turn

  abbrev pub done_of : Turn → Said → TurnDone
  done_of turn said = record {
    metrics = metrics_of p turn said.speech;
    speech = said.speech;
    ending = said.ending;
  }

  -- `_process_turn`
  unfoldable pub process_turn : Turn → Exec TurnDone
  process_turn turn = do
    open_turn turn
    said ← speak_turn turn
    finish_turn turn said
    pure (done_of turn said)

  -- `run_text_turn`: a turn that begins with a text.
  unfoldable pub run_text_turn :
      ℕ → Option ℕ → Text → Fields → Option Float → Float → Option ℕ → Exec TurnDone
  run_text_turn session_id org_id transcript extra confidence zero_ms looks = process_turn (record {
    session_id = session_id;
    org_id = org_id;
    transcript = transcript;
    stt_ms = some zero_ms;
    confidence = confidence;
    user_metadata_extra = extra;
    looks = looks;
  })

  -- `interrupt`, as far as Redis sees it; a running turn sees it by its `looks`.
  unfoldable pub interrupt : ℕ → Exec Unit
  interrupt session_id = do Redis.set_interrupt p.settings session_id true; pure tt
