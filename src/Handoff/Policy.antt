-- ===== src/Handoff/Policy.antt =====
-- modules/handoff/application/policy.py: the detector of requests for a human, the confidence score
-- and the engine that decides on escalation.
mod Decision
mod Tests
use vox_forge.Common.{
  ℕ, Text, codes, contains, Bool, true, false, Option, none, some, List, [], ◌∷◌, ◌++◌, map, ◌&&◌,
  not, ltb, leb, if◌then◌else◌, strip, is_empty, join, show_nat,
}
use vox_forge.Domain.Handoff.{Float, HandoffTrigger, EscalationPolicy}

-- What the code takes from the runtime: Unicode's `str.lower`, and IEEE arithmetic.
pub record Runtime : Type 0 where
  pub lower : Text → Text
  pub zero_float : Float
  pub one_float : Float
  pub multiply : Float → Float → Float
  pub divide : Float → Float → Float
  -- `sum` of a list
  pub total : List Float → Float
  -- `x == 0`
  pub is_zero : Float → Bool
  pub less : Float → Float → Bool
  -- `f"{x:.2f}"`
  pub two_places : Float → Text

-- DEFAULT_SIGNAL_WEIGHTS, or a replacement for it.
pub record SignalWeights : Type 0 where
  pub critic_approved : Float
  pub hallucination_score : Float
  pub tool_success_ratio : Float
  pub stt_confidence : Float
  pub kb_top_similarity : Float

pub record ConfidenceSignals : Type 0 where
  pub critic_approved : Option Bool
  pub hallucination_score : Option Float
  pub tool_success_ratio : Option Float
  pub stt_confidence : Option Float
  pub kb_top_similarity : Option Float

pub record TurnHandoffContext : Type 0 where
  pub user_transcript : Text
  pub assistant_response : Text
  pub interrupted : Bool
  pub confidence_signals : ConfidenceSignals
  pub tool_failures_this_turn : ℕ
  pub consecutive_tool_failures : ℕ
  pub failed_tools : List Text
  pub critical_tool_failed : Bool

pub record HandoffDecision : Type 0 where
  pub should_escalate : Bool
  pub trigger : Option HandoffTrigger
  pub confidence : Option Float
  pub reason : Text

abbrev pub explicit_human_phrases : List Text
explicit_human_phrases =
    codes "speak to a human"
    ∷ codes "talk to a human"
    ∷ codes "real person"
    ∷ codes "live agent"
    ∷ codes "human agent"
    ∷ codes "representative"
    ∷ codes "operator"
    ∷ []

abbrev pub transfer_phrases : List Text
transfer_phrases = codes "transfer me" ∷ codes "escalate" ∷ codes "handoff" ∷ codes "hand off" ∷ []

abbrev pub frustration_phrases : List Text
frustration_phrases =
    codes "this isn't working"
    ∷ codes "this is not working"
    ∷ codes "i've tried everything"
    ∷ codes "useless"
    ∷ codes "frustrated"
    ∷ []

-- The first phrase that the text contains.
unfoldable pub first_phrase : List Text → Text → Option Text
first_phrase [] text = none
first_phrase (p ∷ ps) text =
    let later = first_phrase ps text in if contains p text then some p else later

abbrev pub quoted : Text → Text → Bool × Text
quoted label phrase = (true, label ++ codes ": '" ++ phrase ++ codes "'")

-- The implicit requests.
unfoldable pub detect_implicit : Text → Bool × Text
detect_implicit text = elim (first_phrase transfer_phrases text) [
  | some p ↦ quoted (codes "transfer request") p
  | none ↦ elim (first_phrase frustration_phrases text) [
    | some p ↦ quoted (codes "frustration signal") p
    | none ↦ (false, [])
  ]
]

-- The tests on the lowered and stripped text.
unfoldable pub detect_text : Text → Bool → Bool × Text
detect_text text require_explicit =
    if is_empty text then (false, []) else elim (first_phrase explicit_human_phrases text) [
      | some p ↦ quoted (codes "explicit request") p
      | none ↦ if require_explicit then (false, []) else detect_implicit text
    ]

unfoldable pub detect : Runtime → Text → Bool → Bool × Text
detect runtime transcript = detect_text (strip (runtime.lower transcript))

abbrev pub component : Option Float → Float → List (Float × Float)
component none weight = []
component (some value) weight = (value, weight) ∷ []

abbrev pub approval : Runtime → Option Bool → Option Float
approval runtime none = none
approval runtime (some true) = some runtime.one_float
approval runtime (some false) = some runtime.zero_float

unfoldable pub components_of : Runtime → SignalWeights → ConfidenceSignals → List (Float × Float)
components_of runtime w signals =
    component (approval runtime signals.critic_approved) w.critic_approved
    ++ component signals.hallucination_score w.hallucination_score
    ++ component signals.tool_success_ratio w.tool_success_ratio
    ++ component signals.stt_confidence w.stt_confidence
    ++ component signals.kb_top_similarity w.kb_top_similarity

abbrev pub weighted_mean : Runtime → List (Float × Float) → Option Float
weighted_mean runtime [] = none
weighted_mean runtime (c ∷ cs) =
    let total_weight = runtime.total (map (λ p. p.1) (c ∷ cs)) in
    if runtime.is_zero total_weight
    then none
    else some
        (runtime.divide (runtime.total (map (λ p. runtime.multiply p.0 p.1) (c ∷ cs))) total_weight)

unfoldable pub compute_confidence_score : Runtime → SignalWeights → ConfidenceSignals → Option Float
compute_confidence_score runtime w signals = weighted_mean runtime (components_of runtime w signals)

abbrev pub escalate : HandoffTrigger → Option Float → Text → HandoffDecision
escalate trigger confidence reason = record {
  should_escalate = true;
  trigger = some trigger;
  confidence = confidence;
  reason = reason;
}

abbrev pub stay : Option Float → Text → HandoffDecision
stay confidence reason = record {
  should_escalate = false;
  trigger = none;
  confidence = confidence;
  reason = reason;
}

-- `", ".join(failed) or default`
abbrev pub tools_or : List Text → Text → Text
tools_or failed default =
    let tools = join (codes ", ") failed in if is_empty tools then default else tools

abbrev pub is_below : Runtime → Option Float → Float → Bool
is_below runtime none bound = false
is_below runtime (some c) bound = runtime.less c bound

abbrev pub shown : Runtime → Option Float → Text
shown runtime none = []
shown runtime (some c) = runtime.two_places c

-- The tests after the user's request and the critical tools.
unfoldable pub evaluate_rest :
    Runtime → TurnHandoffContext → EscalationPolicy → Option Float → HandoffDecision
evaluate_rest runtime context policy confidence =
    if is_below runtime confidence policy.min_confidence
    then escalate HandoffTrigger.confidence_threshold confidence (
        codes "confidence "
        ++ shown runtime confidence
        ++ codes " below threshold "
        ++ runtime.two_places policy.min_confidence)
    else if context.interrupted
    then escalate HandoffTrigger.policy confidence (codes "user interrupted turn")
    else stay confidence (codes "no escalation triggers matched")

unfoldable pub evaluate :
    Runtime → SignalWeights → TurnHandoffContext → EscalationPolicy → HandoffDecision
evaluate runtime w context policy =
    if not policy.fallback_to_human
    then stay none (codes "fallback_to_human disabled")
    else (let confidence = compute_confidence_score runtime w context.confidence_signals in
        let (user_requested, user_reason) =
          detect runtime context.user_transcript policy.require_explicit_request in
        if user_requested
        then escalate HandoffTrigger.user_request confidence user_reason
        else if policy.escalate_on_critical_tool_failure && context.critical_tool_failed
        then escalate HandoffTrigger.tool_failure confidence (
            codes "critical tool failure: "
            ++ tools_or context.failed_tools (codes "critical tool"))
        else if policy.escalate_on_tool_failure && ltb 0 context.tool_failures_this_turn
        then escalate HandoffTrigger.tool_failure confidence (
            codes "tool failure this turn: "
            ++ tools_or context.failed_tools (codes "unknown tool"))
        else if policy.escalate_on_tool_failure
            && leb policy.max_tool_failures context.consecutive_tool_failures
        then escalate HandoffTrigger.tool_failure confidence (
            codes "consecutive tool failures ("
            ++ show_nat context.consecutive_tool_failures
            ++ codes " >= "
            ++ show_nat policy.max_tool_failures
            ++ codes ")")
        else evaluate_rest runtime context policy confidence)
