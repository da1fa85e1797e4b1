-- ===== src/Handoff/Context.antt =====
-- modules/handoff/application/context.py and policy_loader.py, and
-- the count of failed tools in the pipeline: what the escalation engine is given for
-- a turn. A step of the agent trace is a dictionary.
pub mod Counts
pub mod FromAgents
mod Tests
use vox_forge.Common.{
  ℕ, ◌+◌, String, Text, codes, text_eq, Bool, true, false, not, Option, none, some, List, [], ◌∷◌,
  ◌++◌, ◌==◌, ◌||◌, ◌&&◌, if◌then◌else◌, any, filter_by, find, length, is_empty, get_or,
}
use vox_forge.Domain.Json.{
  Value, Fields, null, flag, num, text, array, no_values, obj, end, lookup, truth,
}
use vox_forge.Domain.Handoff.{Float, AssignmentStrategy, EscalationPolicy}
use vox_forge.Handoff.Policy.{ConfidenceSignals, TurnHandoffContext}

-- What the code takes from the runtime: Unicode's `str.lower`, `str` and `float` of a JSON value that
-- is no text, `int` of a value, and the quotient of two numbers.
pub record Python : Type 0 where
  pub lower : Text → Text
  pub show_value : Value → Text
  pub float_of : Value → Option Float
  pub int_of : Value → Option ℕ
  pub ratio : ℕ → ℕ → Float

-- `d.get(key) == t` for a text
abbrev pub says : String → Text → Fields → Bool
says key t d = elim (lookup key d) [ some (text s) ↦ text_eq s t | _ ↦ false ]

abbrev pub given : Option Value → Bool
given none = false
given (some v) = truth v

-- `MetricName`, as far as the context looks at it.
pub record EvaluationMetric : Type 0 where
  pub name : Text
  pub score : Float

abbrev pub critical_tools : List Text
critical_tools =
    codes "knowledge_base_lookup" ∷ codes "ticket_lookup" ∷ codes "handoff_to_human" ∷ []

abbrev pub is_member : Text → List Text → Bool
is_member t = any (λ s. text_eq t s)

-- The fields of `Settings` that the policy falls back to; the confidence as a JSON number.
pub record PolicySettings : Type 0 where
  pub handoff_min_confidence : Value
  pub handoff_escalate_on_tool_failure : Bool
  pub handoff_max_tool_failures : ℕ

module _ (python : Python) where
  -- `str(value)`
  abbrev pub str : Value → Text
  str (text t) = t
  str v = python.show_value v

  -- `str(step.get("status", "")).lower()`
  abbrev pub status_of : Fields → Text
  status_of step = python.lower (elim (lookup "status" step) [ none ↦ [] | some v ↦ str v ])

  abbrev pub is_failure : Fields → Bool
  is_failure step =
      is_member (status_of step) (codes "error" ∷ codes "timeout" ∷ codes "failed" ∷ [])

  abbrev pub is_success : Fields → Bool
  is_success step =
      is_member (status_of step) (codes "completed" ∷ codes "success" ∷ codes "ok" ∷ [])

  -- `str(step.get("tool") or step.get("summary") or "unknown")`
  unfoldable pub tool_name : Fields → Text
  tool_name step =
      if given (lookup "tool" step)
      then elim (lookup "tool" step) [ none ↦ [] | some v ↦ str v ]
      else if given (lookup "summary" step)
      then elim (lookup "summary" step) [ none ↦ [] | some v ↦ str v ]
      else codes "unknown"

  -- `sum(1 for step in trace if …)` in `_process_turn`
  unfoldable pub count_failures : List Fields → ℕ
  count_failures trace =
      length (filter_by (λ step. says "agent" (codes "tool") step && is_failure step) trace)

  -- The loop over the tool steps: the number of failures, and the tools that failed.
  unfoldable pub failures : List Fields → ℕ × List Text
  failures [] = (0, [])
  failures (step ∷ steps) =
      let (n, names) = failures steps in
      if is_failure step then (n + 1, tool_name step ∷ names) else (n, names)

  unfoldable pub approved_by_critic : List Fields → Option Bool
  approved_by_critic trace = elim (find (says "agent" (codes "critic")) trace) [
    | none ↦ none
    | some step ↦
        some
          (is_member (status_of step) (codes "completed" ∷ codes "approved" ∷ codes "success" ∷ []))
  ]

  -- `payload.get("top_similarity")` of a completed lookup, `none` where the loop does not assign.
  unfoldable pub similarity_of : Fields → Option Value
  similarity_of step =
      if says "tool" (codes "knowledge_base_lookup") step && says "status" (codes "completed") step
      then elim (lookup "payload" step) [
        | some (obj payload) ↦ elim (lookup "top_similarity" payload) [
          | none ↦ none
          | some null ↦ none
          | some v ↦ some v
        ]
        | _ ↦ none
      ]
      else none

  -- The loop over the tool steps with the similarity so far; `none` where `float` raises.
  unfoldable pub similarity_from : Option Float → List Fields → Option (Option Float)
  similarity_from so_far [] = some so_far
  similarity_from so_far (step ∷ steps) = elim (similarity_of step) [
    | none ↦ similarity_from so_far steps
    | some v ↦ elim (python.float_of v) [ none ↦ none | some x ↦ similarity_from (some x) steps ]
  ]

  abbrev pub hallucination_of : Option (List EvaluationMetric) → Option Float
  hallucination_of none = none
  hallucination_of (some metrics) =
      elim (find (λ m. text_eq m.name (codes "hallucination")) metrics) [
        | none ↦ none
        | some m ↦ some m.score
      ]

  abbrev pub tool_steps_of : List Fields → List Fields
  tool_steps_of = filter_by (says "agent" (codes "tool"))

  -- The context, with the similarity that the last loop has found.
  unfoldable pub context_with :
      Text
      → Text
      → Bool
      → Option Float
      → List Fields
      → Option (List EvaluationMetric)
      → ℕ
      → Option Float
      → TurnHandoffContext
  context_with user_transcript assistant_response interrupted confidence trace evaluation_run
        consecutive_tool_failures similarity =
      let tool_steps = tool_steps_of trace in
      let (failed, failed_tools) = failures tool_steps in
      let total = length tool_steps in
      record {
        user_transcript = user_transcript;
        assistant_response = assistant_response;
        interrupted = interrupted;
        confidence_signals = record {
          critic_approved = approved_by_critic trace;
          hallucination_score = hallucination_of evaluation_run;
          tool_success_ratio =
              if total == 0
              then none
              else some (python.ratio (length (filter_by is_success tool_steps)) total);
          stt_confidence = confidence;
          kb_top_similarity = similarity;
        };
        tool_failures_this_turn = failed;
        consecutive_tool_failures = consecutive_tool_failures;
        failed_tools = failed_tools;
        critical_tool_failed = any (λ name. is_member name critical_tools) failed_tools;
      }

  -- `none` where `float` raises on a similarity.
  unfoldable pub build_turn_handoff_context :
      Text
      → Text
      → Bool
      → Option Float
      → List Fields
      → Option (List EvaluationMetric)
      → ℕ
      → Option TurnHandoffContext
  build_turn_handoff_context user_transcript assistant_response interrupted confidence trace
        evaluation_run consecutive_tool_failures =
      elim (similarity_from none (tool_steps_of trace)) [
        | none ↦ none
        | some similarity ↦ some (
            context_with user_transcript assistant_response interrupted confidence trace
              evaluation_run consecutive_tool_failures similarity)
      ]

  -- `config.get(key, default)`
  abbrev pub get_config : String → Value → Fields → Value
  get_config key default config = elim (lookup key config) [ none ↦ default | some v ↦ v ]

  abbrev pub tool_config_of : Fields → Fields
  tool_config_of config = elim (lookup "tool_config" config) [ some (obj d) ↦ d | _ ↦ end ]

  -- `AssignmentStrategy(str(raw))`, and the default where that raises.
  abbrev pub strategy_of : Text → AssignmentStrategy
  strategy_of t =
      if text_eq t (codes "manual")
      then AssignmentStrategy.manual
      else if text_eq t (codes "least_loaded")
      then AssignmentStrategy.least_loaded
      else AssignmentStrategy.round_robin

  abbrev pub strategy_raw : Fields → Value
  strategy_raw config = elim (lookup "assignment_strategy" config) [
    | none ↦ get_config "assignment_strategy" (text (codes "round_robin")) (tool_config_of config)
    | some v ↦
        if truth v
        then v
        else get_config "assignment_strategy" (text (codes "round_robin")) (tool_config_of config)
  ]

  abbrev pub default_handoff_message : Text
  default_handoff_message =
      codes "I'm connecting you with a specialist who can help further. "
      ++ codes "Please hold while I transfer your conversation."

  -- `none` where `float` or `int` raises.
  unfoldable pub load_escalation_policy : Fields → PolicySettings → Option EscalationPolicy
  load_escalation_policy config settings =
      elim (python.float_of (get_config "min_confidence" settings.handoff_min_confidence config)) [
        | none ↦ none
        | some min_confidence ↦
            elim (python.int_of
              (get_config "max_tool_failures" (num settings.handoff_max_tool_failures) config)) [
                | none ↦ none
                | some max_tool_failures ↦ some (record {
                  fallback_to_human = truth (
                      get_config "fallback_to_human"
                        (get_config "fallback_to_human" (flag true) (tool_config_of config))
                        config);
                  min_confidence = min_confidence;
                  escalate_on_tool_failure = truth (
                      get_config "escalate_on_tool_failure"
                        (flag settings.handoff_escalate_on_tool_failure) config);
                  max_tool_failures = max_tool_failures;
                  escalate_on_critical_tool_failure =
                      truth (get_config "escalate_on_critical_tool_failure" (flag true) config);
                  require_explicit_request =
                      truth (get_config "require_explicit_request" (flag false) config);
                  auto_create_ticket = truth (get_config "auto_create_ticket" (flag true) config);
                  assignment_strategy = strategy_of (str (strategy_raw config));
                  handoff_message =
                      str (get_config "handoff_message" (text default_handoff_message) config);
                })
              ]
      ]
