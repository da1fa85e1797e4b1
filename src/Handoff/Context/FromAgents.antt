-- ===== src/Handoff/Context/FromAgents.antt =====
-- The traces that the agents of Agents/Graph leave, read by build_turn_handoff_context.
use mathlib.Core.Path.{subst}
use vox_forge.Common.{
  ℕ, zero, suc, ◌+◌, ◌≡◌, refl, sym, ap, Text, codes, text_eq, text_eq→eq, Bool, true, false, not,
  Option, none, some, List, [], ◌∷◌, ◌++◌, ◌==◌, ◌||◌, map, take, any, All, is_empty, arith,
  Bool-cases, inl, inr,
}
use vox_forge.Domain.Json.{Fields, field, text, end, lookup, truth}
use vox_forge.Domain.Handoff.{Float}
use vox_forge.Handoff.Policy.{TurnHandoffContext}
use vox_forge.Handoff.Context.{
  Python, EvaluationMetric, says, failures, tool_steps_of, tool_name, similarity_of,
  similarity_from, build_turn_handoff_context, context_with, is_member, critical_tools,
}
use vox_forge.Agents.Graph.{
  Agents, BaseMessage, ToolCall, ToolLoop, Trace, OrchestratorState, Node, run_tool, run_tools,
  tool_rounds, planner, safety, executor, critic, coordinator, run_graph, run_agents, AiMessage,
  Run, raised, stopped, finished, go_on, and_then, as_dict, parse_json, safety_reply, critic_reply,
  replied, after_reply, first_loop, route_after_safety, route_after_critic,
}

-- The dictionary that `_trace` makes.
unfoldable pub step_of : Trace → Fields
step_of t =
    field "agent" (text (codes t.agent))
      (field "status" (text t.status) (field "summary" (text t.summary) end))

abbrev has_colon : Text → Bool
has_colon = any (λ c. c == 58)

colon-append : (s t : Text) → has_colon (s ++ t) ≡ has_colon s || has_colon t
colon-append [] t = refl
colon-append (c ∷ s) t = ground (arith, colon-append s t)

colon_between : (s t : Text) → has_colon (s ++ codes ": " ++ t) ≡ true
colon_between s t = ground (arith, colon-append (s ++ codes ": ") t, colon-append s (codes ": "))

-- The summary of a tool step holds a colon: it is the tool's name, a colon and the output.
abbrev IsNamed : Trace → Type 0
IsNamed t = (not (text_eq (codes t.agent) (codes "tool")) || has_colon t.summary) ≡ true

All-append : (P : Trace → Type 0) (s t : List Trace) → All P s → All P t → All P (s ++ t)
All-append P [] t h k = k
All-append P (x ∷ s) t (p, h) k = (p, All-append P s t h k)

-- What holds of what a call returns, if it does not raise.
abbrev IfSome : {A : Type 0} → (A → Type 0) → Option A → Type 0
IfSome P none = Unit
IfSome P (some a) = P a

IfSome-and_then :
    {A B : Type 0} (P : A → Type 0) (Q : B → Type 0) (o : Option A) (f : A → Option B)
    → IfSome P o
    → ((a : A) → P a → IfSome Q (f a))
    → IfSome Q (and_then o f)
IfSome-and_then P Q none f p h = tt
IfSome-and_then P Q (some a) f p h = h a p

-- A call of which nothing is known.
IfSome-any : {A : Type 0} (o : Option A) → IfSome (λ a. Unit) o
IfSome-any none = tt
IfSome-any (some a) = tt

abbrev Looped : ToolLoop → Type 0
Looped l = All IsNamed l.traced

abbrev Stated : OrchestratorState → Type 0
Stated s = All IsNamed s.agent_trace

module _ (agents : Agents) where
  run_tool-IsNamed :
      (scopes : List Text) (tc : ToolCall) (l : ToolLoop)
      → Looped l
      → IfSome Looped (run_tool agents scopes tc l)
  unfolding run_tool
  run_tool-IsNamed scopes tc l h =
      IfSome-and_then (λ r. Unit) Looped (agents.execute l.calls tc scopes) _ (IfSome-any _)
        λ r u. All-append IsNamed l.traced _ h (colon_between tc.name (take 120 _), tt)

  run_tools-IsNamed :
      (scopes : List Text) (tcs : List ToolCall) (l : ToolLoop)
      → Looped l
      → IfSome Looped (run_tools agents scopes tcs l)
  unfolding run_tools
  run_tools-IsNamed scopes [] l h = h
  run_tools-IsNamed scopes (tc ∷ tcs) l h =
      IfSome-and_then Looped Looped (run_tool agents scopes tc l) _ (run_tool-IsNamed scopes tc l h)
        λ l' h'. run_tools-IsNamed scopes tcs l' h'

  abbrev Rounds : Text × ToolLoop → Type 0
  Rounds done = Looped done.1

  replied-Looped : (l : ToolLoop) (response : AiMessage) → Looped l → Looped (replied l response)
  replied-Looped l response h = by_calls response.tool_calls
    where
      by_calls :
          (tcs : List ToolCall)
          → Looped (elim tcs as (λ _. ToolLoop) [
            | [] ↦ record l { calls = l.calls + 1 }
            | tc ∷ tcs ↦ record l {
              calls = l.calls + 1;
              messages = l.messages ++ BaseMessage.ai response.content (tc ∷ tcs) ∷ [];
            }
          ])
      by_calls [] = h
      by_calls (tc ∷ tcs) = h

  after_reply-IsNamed :
      (scopes : List Text) (later : Text → ToolLoop → Option (Text × ToolLoop)) (l : ToolLoop)
      (content : Text) (tcs : List ToolCall)
      → ((t : Text) (l' : ToolLoop) → Looped l' → IfSome Rounds (later t l'))
      → Looped l
      → IfSome Rounds (after_reply agents scopes later l content tcs)
  after_reply-IsNamed scopes later l content [] next h = h
  after_reply-IsNamed scopes later l content (tc ∷ tcs) next h =
      IfSome-and_then Looped Rounds (run_tools agents scopes (tc ∷ tcs) l) _
        (run_tools-IsNamed scopes (tc ∷ tcs) l h) (λ l' h'. next content l' h')

  tool_rounds-IsNamed :
      (scopes : List Text) (rounds : ℕ) (last : Text) (l : ToolLoop)
      → Looped l
      → IfSome Rounds (tool_rounds agents scopes rounds last l)
  unfolding tool_rounds
  tool_rounds-IsNamed scopes zero last l h = h
  tool_rounds-IsNamed scopes (suc rounds) last l h =
      IfSome-and_then (λ r. Unit) Rounds (agents.executor_llm l.calls l.messages) _ (IfSome-any _)
        λ response u.
          after_reply-IsNamed scopes (tool_rounds agents scopes rounds) (replied l response)
            response.content response.tool_calls (tool_rounds-IsNamed scopes rounds)
            (replied-Looped l response h)

  planner-IsNamed : (s : OrchestratorState) → Stated s → IfSome Stated (planner agents s)
  unfolding planner
  planner-IsNamed s h =
      IfSome-and_then (λ plan. Unit) Stated (agents.planner_llm s.calls _) _ (IfSome-any _)
        λ plan u. All-append IsNamed s.agent_trace _ h (refl, tt)

  safety-IsNamed : (s : OrchestratorState) → Stated s → IfSome Stated (safety agents s)
  unfolding safety
  safety-IsNamed s h =
      IfSome-and_then (λ content. Unit) Stated (safety_reply agents s) _ (IfSome-any _)
        λ content u.
          IfSome-and_then (λ parsed. Unit) Stated (as_dict (parse_json agents content)) _
            (IfSome-any _) λ parsed v. All-append IsNamed s.agent_trace _ h (refl, tt)

  executor-IsNamed : (s : OrchestratorState) → Stated s → IfSome Stated (executor agents s)
  unfolding executor
  executor-IsNamed s h =
      IfSome-and_then Rounds Stated
        (tool_rounds agents s.caller_scopes (suc agents.max_tool_iterations) []
          (first_loop agents s))
        _
        (tool_rounds-IsNamed s.caller_scopes (suc agents.max_tool_iterations) []
          (first_loop agents s) tt)
        λ done named. All-append IsNamed s.agent_trace _ h (refl, named)

  critic-IsNamed : (s : OrchestratorState) → Stated s → IfSome Stated (critic agents s)
  unfolding critic
  critic-IsNamed s h =
      IfSome-and_then (λ content. Unit) Stated (critic_reply agents s) _ (IfSome-any _)
        λ content u.
          IfSome-and_then (λ parsed. Unit) Stated (as_dict (parse_json agents content)) _
            (IfSome-any _) λ parsed v. All-append IsNamed s.agent_trace _ h (refl, tt)

  coordinator-IsNamed : (s : OrchestratorState) → Stated s → Stated (coordinator s)
  unfolding coordinator
  coordinator-IsNamed s h = elim (Bool-cases (is_empty s.final_response)) [
    | inl e ↦ rw e (All-append IsNamed s.agent_trace _ h (refl, tt))
    | inr e ↦ rw e (All-append IsNamed s.agent_trace _ h (refl, tt))
  ]

  abbrev EndsNamed : Run → Type 0
  EndsNamed (finished s) = Stated s
  EndsNamed raised = Unit
  EndsNamed stopped = Unit

  go_on-EndsNamed :
      (later : OrchestratorState → Run) (o : Option OrchestratorState)
      → IfSome Stated o
      → ((s : OrchestratorState) → Stated s → EndsNamed (later s))
      → EndsNamed (go_on later o)
  go_on-EndsNamed later none h next = tt
  go_on-EndsNamed later (some s) h next = next s h

  run_graph-IsNamed :
      (steps : ℕ) (node : Node) (s : OrchestratorState)
      → Stated s
      → EndsNamed (run_graph agents steps node s)
  unfolding run_graph
  run_graph-IsNamed zero node s h = tt
  run_graph-IsNamed (suc steps) Node.at_planner s h =
      go_on-EndsNamed _ (planner agents s) (planner-IsNamed s h)
        λ q k. run_graph-IsNamed steps Node.at_safety q k
  run_graph-IsNamed (suc steps) Node.at_safety s h =
      go_on-EndsNamed _ (safety agents s) (safety-IsNamed s h)
        λ q k. run_graph-IsNamed steps (route_after_safety q) q k
  run_graph-IsNamed (suc steps) Node.at_executor s h =
      go_on-EndsNamed _ (executor agents s) (executor-IsNamed s h)
        λ q k. run_graph-IsNamed steps Node.at_critic q k
  run_graph-IsNamed (suc steps) Node.at_critic s h =
      go_on-EndsNamed _ (critic agents s) (critic-IsNamed s h)
        λ q k. run_graph-IsNamed steps (route_after_critic agents q) q k
  run_graph-IsNamed (suc steps) Node.at_coordinator s h = coordinator-IsNamed s h

uncritical_one : (s c : Text) → has_colon c ≡ false → has_colon s ≡ true → text_eq s c ≡ false
uncritical_one s c h k = elim (Bool-cases (text_eq s c)) [
  | inl e ↦ ground (arith, ap has_colon (text_eq→eq s c e), h, k)
  | inr e ↦ e
]

colon-uncritical : (s : Text) → has_colon s ≡ true → is_member s critical_tools ≡ false
colon-uncritical s h = ground (
  arith,
  uncritical_one s (codes "knowledge_base_lookup") refl h,
  uncritical_one s (codes "ticket_lookup") refl h,
  uncritical_one s (codes "handoff_to_human") refl h,
)

nonempty_of_colon : (s : Text) → has_colon s ≡ true → is_empty s ≡ false
nonempty_of_colon [] h = ground arith
nonempty_of_colon (c ∷ s) h = refl

module _ (python : Python) where
  step-name : (t : Trace) → has_colon t.summary ≡ true → tool_name python (step_of t) ≡ t.summary
  unfolding tool_name step_of lookup truth
  step-name t h = rw (nonempty_of_colon t.summary h) refl

  says-step :
      (t : Trace) → says "agent" (codes "tool") (step_of t) ≡ text_eq (codes t.agent) (codes "tool")
  unfolding step_of lookup
  says-step t = refl

  step-similarity : (t : Trace) → similarity_of python (step_of t) ≡ none
  unfolding step_of lookup similarity_of
  step-similarity t = refl

  steps-uncritical :
      (traces : List Trace)
      → All IsNamed traces
      → any
          (λ name. is_member name critical_tools)
          (failures python (tool_steps_of python (map step_of traces))).1
        ≡ false
  unfolding failures
  steps-uncritical [] h = refl
  steps-uncritical (t ∷ traces) (h, hs) =
      elim (Bool-cases (text_eq (codes t.agent) (codes "tool"))) [
        | inl e ↦
            let colon : has_colon t.summary ≡ true = ground (arith, h, e) in
            ground (
              arith,
              says-step t,
              e,
              step-name t colon,
              colon-uncritical t.summary colon,
              steps-uncritical traces hs,
            )
        | inr e ↦ ground (arith, says-step t, e, steps-uncritical traces hs)
      ]

  steps-similarity :
      (so_far : Option Float) (traces : List Trace)
      → similarity_from python so_far (tool_steps_of python (map step_of traces)) ≡ some so_far
  unfolding similarity_from similarity_of
  steps-similarity so_far [] = refl
  steps-similarity so_far (t ∷ traces) = ground (
    arith,
    step-similarity t,
    steps-similarity so_far traces,
    Bool-cases (says "agent" (codes "tool") (step_of t)),
  )

-- After a run of the agents the context that the escalation engine is given exists and names no
-- critical tool as failed and no similarity of the knowledge base, whatever tools were run and failed:
-- the steps of the trace carry the tool's name only as a part of their summary.
pub agents-context-uncritical :
    (agents : Agents) (python : Python) (s s' : OrchestratorState) (user assistant : Text)
    (interrupted : Bool) (confidence : Option Float) (run : Option (List EvaluationMetric))
    (consecutive : ℕ)
    → s.agent_trace ≡ []
    → run_agents agents s ≡ finished s'
    → (context : TurnHandoffContext) × (build_turn_handoff_context python user assistant interrupted
          confidence
          (map step_of s'.agent_trace)
          run
          consecutive
        ≡ some context)
      × (context.critical_tool_failed ≡ false)
      × (context.confidence_signals.kb_top_similarity ≡ none)
unfolding run_agents context_with build_turn_handoff_context
agents-context-uncritical agents python s s' user assistant interrupted confidence run consecutive
      fresh ran =
    let named : All IsNamed s'.agent_trace =
      subst (EndsNamed agents) ran
        (run_graph-IsNamed agents _ Node.at_planner s (subst (All IsNamed) (sym fresh) tt)) in
    (
      context_with python user assistant interrupted confidence (map step_of s'.agent_trace) run
          consecutive none,
      rw (build_turn_handoff_context, steps-similarity python none s'.agent_trace) refl,
      steps-uncritical python s'.agent_trace named,
      refl,
    )
