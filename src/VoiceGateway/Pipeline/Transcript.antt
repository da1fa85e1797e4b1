-- ===== src/VoiceGateway/Pipeline/Transcript.antt =====
-- What a turn adds to the messages of the call.
use vox_forge.Common.{
  ℕ, ◌≡◌, refl, sym, ap, ◌∙◌, Text, codes, Option, none, some, List, [], ◌∷◌, ◌++◌, map, is_empty,
  if◌then◌else◌, Bool-cases, inl, inr,
}
use mathlib.Core.List.{map-append, append-nil}
use vox_forge.Domain.Session.{SessionPhase, MessageRole, Message}
use vox_forge.Domain.Handoff.{AssignmentStrategy, EscalationPolicy}
use vox_forge.Store.World.{World}
use vox_forge.Store.Exec.{Exec, ok, pure}
use vox_forge.Store.Keep.{Keeps-pure, Keeps-bind, Keeps-if, Keeps-option, Keeps-or_raise}
use vox_forge.Store.Keep.Messages.{Silent, silent_rules}
use vox_forge.Store.Triple.{Triple, Triple-bind, Triple-pure, Triple-Keeps}
use vox_forge.Domain.Json.{Fields, field, end}
use vox_forge.SessionManager.{save_message, save_turn_metrics}
use vox_forge.SessionManager.Silent.{
  Silent-track_tool_failures, Silent-get_session_config, Silent-update_phase,
  Silent-clear_interrupt, Silent-save_turn_metrics, save_message-messages,
}
use vox_forge.Store.Redis
use vox_forge.Handoff.Policy.{HandoffDecision}
use vox_forge.Handoff.Context.{EvaluationMetric}
use vox_forge.Handoff.Orchestrator.Initiate.{initiate_handoff}
use vox_forge.Handoff.Orchestrator.{Services}
use vox_forge.Handoff.Orchestrator.Silent.{Silent-initiate_handoff}
use vox_forge.Agents.Service.{add_chat_message}
use vox_forge.VoiceGateway.Speaking.{Speech}
use vox_forge.VoiceGateway.Pipeline.{
  user_metadata, trace_metadata, metrics_of, done_of, float_value, remember, memory_snippets,
  knowledge_snippets, act_on, Pipeline, MemoryService, Escalation, StoredTurn, TurnEvaluationInput,
  OutcomeInput, Turn, TurnDone, Said, open_turn, speak_turn, store_reply, evaluate_turn,
  consider_handoff, escalate_turn, record_outcome, close_turn, finish_turn, process_turn,
}

abbrev pub IsIn : {A : Type 0} → (A → Type 0) → Option A → Type 0
IsIn P none = Unit
IsIn P (some a) = P a

-- The services behind the pipeline write no message: memory, evaluation, outcomes and the knowledge
-- base have tables of their own, and an assignment is made in the organisation's.
pub record IsSilent (p : Pipeline) : Type 0 where
  pub stores : IsIn (λ m. (t : StoredTurn) → Silent (MemoryService.store_turn m t)) p.memory
  pub retrieves :
      IsIn
        (λ m. (org id : ℕ) (query : Text) → Silent (MemoryService.retrieve_context m org id query))
        p.memory
  pub evaluates : IsIn (λ f. (t : TurnEvaluationInput) → Silent (f t)) p.evaluation
  pub records : IsIn (λ f. (t : OutcomeInput) → Silent (f t)) p.outcomes
  pub knows : IsIn (λ f. (org : ℕ) (query : Text) → Silent (f org query)) p.knowledge
  pub assigns :
      IsIn
        (λ e.
          (org id : ℕ) (s : AssignmentStrategy)
          → Silent (Services.assign (Escalation.services e) org id s))
        p.escalation

Silent-given :
    {A B : Type 0} {P : A → Type 0} (o : Option A) (m : Exec B) (f : A → Exec B)
    → IsIn P o
    → Silent m
    → ((a : A) → P a → Silent (f a))
    → Silent (elim o [ none ↦ m | some a ↦ f a ])
Silent-given none m f h hm hf = hm
Silent-given (some a) m f h hm hf = hf a h

Silent-remember :
    (o : Option MemoryService) (org : Option ℕ) (id : ℕ) (role : MessageRole) (content : Text)
    (message_id : ℕ) (metadata : Fields)
    → IsIn (λ m. (t : StoredTurn) → Silent (MemoryService.store_turn m t)) o
    → Silent (remember o org id role content message_id metadata)
Silent-remember none org id role content message_id metadata h = search silent_rules
Silent-remember (some m) none id role content message_id metadata h = search silent_rules
Silent-remember (some m) (some org) id role content message_id metadata h = h _

Silent-add_chat_message :
    (prompt : Text) (role : MessageRole) (id : ℕ) (content : Text)
    → Silent (add_chat_message prompt role id content)
unfolding add_chat_message
Silent-add_chat_message prompt role id content = record { at = λ w. refl }

module _ (p : Pipeline) (silent : IsSilent p) where
  Silent-memory_snippets :
      (o : Option MemoryService) (org : Option ℕ) (turn : Turn)
      → IsIn
          (λ m.
            (org id : ℕ) (query : Text) → Silent (MemoryService.retrieve_context m org id query))
          o
      → Silent (memory_snippets p o org turn)
  Silent-memory_snippets none org turn h = search silent_rules
  Silent-memory_snippets (some m) none turn h = search silent_rules
  Silent-memory_snippets (some m) (some org) turn h =
      Keeps-bind (λ w. w.messages) _ _ (h org turn.session_id turn.transcript)
        λ found. Keeps-pure (λ w. w.messages) _

  Silent-knowledge_snippets :
      (o : Option (ℕ → Text → Exec (List Text))) (org : Option ℕ) (turn : Turn)
      → IsIn (λ f. (org : ℕ) (query : Text) → Silent (f org query)) o
      → Silent (knowledge_snippets p o org turn)
  Silent-knowledge_snippets none org turn h = search silent_rules
  Silent-knowledge_snippets (some f) none turn h = search silent_rules
  Silent-knowledge_snippets (some f) (some org) turn h =
      Keeps-if (λ w. w.messages) p.knowledge_context_enabled (h org turn.transcript)
        (Keeps-pure (λ w. w.messages) [])

  Silent-evaluate_turn : (turn : Turn) (said : Said) → Silent (evaluate_turn p turn said)
  unfolding evaluate_turn
  Silent-evaluate_turn turn said =
      Silent-given p.evaluation _ _ silent.evaluates (Keeps-pure (λ w. w.messages) none) λ f h.
        Keeps-bind (λ w. w.messages) (memory_snippets p p.memory turn.org_id turn) _
          (Silent-memory_snippets p.memory turn.org_id turn silent.retrieves)
          λ remembered.
            Keeps-bind (λ w. w.messages) (knowledge_snippets p p.knowledge turn.org_id turn) _
              (Silent-knowledge_snippets p.knowledge turn.org_id turn silent.knows) λ known. h _

  Silent-record_outcome :
      (turn : Turn) (s : Speech) (metadata : Fields) → Silent (record_outcome p turn s metadata)
  unfolding record_outcome
  Silent-record_outcome turn s metadata =
      Silent-given p.outcomes _ _ silent.records (Keeps-pure (λ w. w.messages) tt) λ f h. h _

  Silent-close_turn : (turn : Turn) → Silent (close_turn p turn)
  unfolding close_turn
  Silent-close_turn turn =
      search (silent_rules, Silent-clear_interrupt, Silent-update_phase) depth 20

  Silent-speak_turn : (turn : Turn) → Silent (speak_turn p turn)
  unfolding speak_turn
  Silent-speak_turn turn =
      search (silent_rules, Silent-get_session_config, Silent-update_phase) depth 20

  Silent-act_on :
      (e : Escalation) (policy : EscalationPolicy) (org : ℕ) (turn : Turn)
      (decision : HandoffDecision) (metadata : Fields)
      → ((org id : ℕ) (s : AssignmentStrategy) → Silent (Services.assign e.services org id s))
      → Silent (act_on p e policy org turn decision metadata)
  Silent-act_on e policy org turn decision metadata quiet =
      Keeps-option (λ w. w.messages) (if decision.should_escalate then decision.trigger else none)
        (pure metadata) _ (Keeps-pure (λ w. w.messages) metadata)
        λ trigger.
          Keeps-bind (λ w. w.messages)
            (initiate_handoff p.settings e.services policy org turn.session_id trigger
              decision.reason decision.confidence none (codes "normal"))
            _
            (Silent-initiate_handoff p.settings e.services quiet policy org turn.session_id trigger
              decision.reason decision.confidence none (codes "normal"))
            λ made. Keeps-pure (λ w. w.messages) _

  Silent-consider_handoff :
      (e : Escalation) (org : ℕ) (turn : Turn) (said : Said) (run : Option (List EvaluationMetric))
      (metadata : Fields)
      → ((org id : ℕ) (s : AssignmentStrategy) → Silent (Services.assign e.services org id s))
      → Silent (consider_handoff p e org turn said run metadata)
  unfolding consider_handoff
  Silent-consider_handoff e org turn said run metadata quiet =
      search
        (
          Keeps-bind, Keeps-or_raise, Silent-get_session_config, Silent-track_tool_failures,
          Silent-act_on,
        )
        depth 30

  Silent-escalate_turn :
      (turn : Turn) (said : Said) (run : Option (List EvaluationMetric)) (metadata : Fields)
      → Silent (escalate_turn p turn said run metadata)
  unfolding escalate_turn
  Silent-escalate_turn turn said run metadata =
      Silent-given p.escalation _ _ silent.assigns (Keeps-pure (λ w. w.messages) metadata) λ e h.
        Keeps-option (λ w. w.messages) turn.org_id _ _ (Keeps-pure (λ w. w.messages) metadata)
          λ org.
            Keeps-if (λ w. w.messages) p.handoff_enabled
              (Silent-consider_handoff e org turn said run metadata h)
              (Keeps-pure (λ w. w.messages) metadata)

-- A message without its id, its time and its metadata.
abbrev pub Line : Type 0
Line = ℕ × MessageRole × Text

abbrev pub line_of : Message → Line
line_of m = (m.session_id, m.role, m.content)

abbrev pub lines : World → List Line
lines w = map line_of w.messages

Silent-Triple :
    {A : Type 0} (before : List Line) (m : Exec A)
    → Silent m
    → Triple (λ w. lines w ≡ before) m (λ a w. lines w ≡ before)
Silent-Triple before m h =
    Triple-Keeps lines before m (record { at = λ w. ap (map line_of) (h.at w) })

save_message-Triple :
    (before : List Line) (role : MessageRole) (id : ℕ) (content : Text) (metadata : Fields)
    → Triple
        (λ w. lines w ≡ before)
        (save_message role id content metadata)
        (λ m w. lines w ≡ before ++ (id, role, content) ∷ [])
save_message-Triple before role id content metadata = record {
  at = λ w p m w' ran.
      ap (λ r. lines r.1) (sym ran)
      ∙ ap (map line_of) (save_message-messages role id content metadata w)
      ∙ map-append line_of w.messages _
      ∙ ap (λ t. t ++ (id, role, content) ∷ []) p;
}

module _ (p : Pipeline) (silent : IsSilent p) where
  -- The user's message.
  open_turn-Triple :
      (before : List Line) (turn : Turn)
      → Triple
          (λ w. lines w ≡ before)
          (open_turn p turn)
          (λ u w. lines w ≡ before ++ (turn.session_id, MessageRole.user, turn.transcript) ∷ [])
  unfolding open_turn
  open_turn-Triple before turn =
      Triple-bind (Redis.update_phase p.settings turn.session_id SessionPhase.processing) _
        (Silent-Triple before _ (Silent-update_phase p.settings turn.session_id _))
        λ state.
          Triple-bind
            (save_message MessageRole.user turn.session_id turn.transcript (user_metadata turn)) _
            (save_message-Triple before MessageRole.user turn.session_id turn.transcript
              (user_metadata turn))
            λ m.
              Triple-bind
                (remember p.memory turn.org_id turn.session_id MessageRole.user turn.transcript m.id
                  (field "confidence" (float_value turn.confidence) end))
                _
                (Silent-Triple _ _ (
                  Silent-remember p.memory turn.org_id turn.session_id MessageRole.user
                    turn.transcript m.id _ silent.stores))
                λ u. Silent-Triple _ _ (
                  Silent-add_chat_message (p.system_prompt turn.session_id) MessageRole.user
                    turn.session_id turn.transcript)

  -- The reply, if there is one.
  abbrev reply_lines : Turn → Text → List Line
  reply_lines turn reply =
      if is_empty reply then [] else (turn.session_id, MessageRole.assistant, reply) ∷ []

  store_reply-Triple :
      (before : List Line) (turn : Turn) (said : Said)
      → Triple
          (λ w. lines w ≡ before)
          (store_reply p turn said)
          (λ metadata w. lines w ≡ before ++ reply_lines turn said.speech.assistant_text)
  unfolding store_reply
  store_reply-Triple before turn said = elim (Bool-cases (is_empty said.speech.assistant_text)) [
    | inl e ↦ rw e (Triple-pure end λ w h. h ∙ sym (append-nil before))
    | inr e ↦
        let reply = said.speech.assistant_text in
        let metadata = trace_metadata p said.trace in
        rw e (
          Triple-bind
            (add_chat_message (p.system_prompt turn.session_id) MessageRole.assistant
              turn.session_id reply)
            _
            (Silent-Triple before _ (
              Silent-add_chat_message (p.system_prompt turn.session_id) MessageRole.assistant
                turn.session_id reply))
            λ u.
              Triple-bind (save_message MessageRole.assistant turn.session_id reply metadata) _
                (save_message-Triple before MessageRole.assistant turn.session_id reply metadata)
                λ m.
                  Triple-bind
                    (remember p.memory turn.org_id turn.session_id MessageRole.assistant reply m.id
                      metadata)
                    _
                    (Silent-Triple _ _ (
                      Silent-remember p.memory turn.org_id turn.session_id MessageRole.assistant
                        reply m.id metadata silent.stores))
                    λ u. Triple-pure metadata λ w h. h)
  ]

  finish_turn-Triple :
      (before : List Line) (turn : Turn) (said : Said)
      → Triple
          (λ w. lines w ≡ before)
          (finish_turn p turn said)
          (λ u w. lines w ≡ before ++ reply_lines turn said.speech.assistant_text)
  unfolding finish_turn
  finish_turn-Triple before turn said =
      Triple-bind (store_reply p turn said) _ (store_reply-Triple before turn said) λ metadata.
        Triple-bind (save_turn_metrics turn.session_id (metrics_of p turn said.speech)) _
          (Silent-Triple _ _ (Silent-save_turn_metrics turn.session_id _))
          λ u.
            Triple-bind (evaluate_turn p turn said) _
              (Silent-Triple _ _ (Silent-evaluate_turn p silent turn said))
              λ run.
                Triple-bind (escalate_turn p turn said run metadata) _
                  (Silent-Triple _ _ (Silent-escalate_turn p silent turn said run metadata))
                  λ marked.
                    Triple-bind (record_outcome p turn said.speech marked) _
                      (Silent-Triple _ _ (Silent-record_outcome p silent turn said.speech marked))
                      λ u. Silent-Triple _ _ (Silent-close_turn p silent turn)

  process_turn-Triple :
      (before : List Line) (turn : Turn)
      → Triple
          (λ w. lines w ≡ before)
          (process_turn p turn)
          (λ done w.
            lines w
            ≡ before
              ++ (turn.session_id, MessageRole.user, turn.transcript) ∷ []
              ++ reply_lines turn done.speech.assistant_text)
  unfolding process_turn
  process_turn-Triple before turn =
      let heard = before ++ (turn.session_id, MessageRole.user, turn.transcript) ∷ [] in
      Triple-bind (open_turn p turn) _ (open_turn-Triple before turn) λ u.
        Triple-bind (speak_turn p turn) _ (Silent-Triple heard _ (Silent-speak_turn p silent turn))
          λ said.
            Triple-bind (finish_turn p turn said) _ (finish_turn-Triple heard turn said)
              λ u. Triple-pure (done_of p turn said) λ w h. h

  -- A turn that returns adds to the messages of all calls the user's message and, if any text of a
  -- reply came, the reply as far as it came, in this order and nothing else, also if the turn was
  -- interrupted, the speech failed, or the call was escalated; the services behind it write no
  -- message.
  pub process_turn-transcript :
      (turn : Turn) (w : World) (done : TurnDone) (w' : World)
      → process_turn p turn w ≡ (ok done, w')
      → lines w'
        ≡ lines w
          ++ (turn.session_id, MessageRole.user, turn.transcript) ∷ []
          ++ reply_lines turn done.speech.assistant_text
  process_turn-transcript turn w done w' ran =
      (process_turn-Triple (lines w) turn).at w refl done w' ran
