-- ===== src/Handoff/Policy/Decision.antt =====
-- What the policy engine decides, and when it has a score.
use vox_forge.Common.{
  ◌≡◌, refl, Text, contains, Bool, Option, none, some, List, [], ◌∷◌, ◌&&◌, ◌||◌, not, any, is_some,
  ltb, leb, if◌then◌else◌, strip, arith,
}
use vox_forge.Domain.Handoff.{HandoffTrigger, EscalationPolicy}
use vox_forge.Handoff.Policy.{
  Runtime, SignalWeights, TurnHandoffContext, explicit_human_phrases, transfer_phrases,
  frustration_phrases, first_phrase, detect, detect_text, detect_implicit, compute_confidence_score,
  is_below, evaluate, evaluate_rest,
}

-- A cause of escalation, and the trigger it stands for.
abbrev pub Cause : Type 0
Cause = Bool × HandoffTrigger

-- The trigger of the first cause that holds.
abbrev pub first_cause : List Cause → Option HandoffTrigger
first_cause [] = none
first_cause (c ∷ cs) = let later = first_cause cs in if c.0 then some c.1 else later

module _ (runtime : Runtime) (w : SignalWeights) (context : TurnHandoffContext)
    (policy : EscalationPolicy) where
  -- Whether the tools' failures call for a human.
  abbrev pub tools_failed : Bool
  tools_failed =
      (policy.escalate_on_critical_tool_failure && context.critical_tool_failed)
      || (policy.escalate_on_tool_failure
          && (ltb 0 context.tool_failures_this_turn
              || leb policy.max_tool_failures context.consecutive_tool_failures))

  -- The causes in the order of their weight.
  abbrev pub causes : List Cause
  causes =
      (
        (detect runtime context.user_transcript policy.require_explicit_request).0,
        HandoffTrigger.user_request,
      )
      ∷ (tools_failed, HandoffTrigger.tool_failure)
      ∷ (
        is_below runtime (compute_confidence_score runtime w context.confidence_signals)
            policy.min_confidence,
        HandoffTrigger.confidence_threshold,
      )
      ∷ (context.interrupted, HandoffTrigger.policy)
      ∷ []

  -- The engine escalates exactly when the policy falls back to humans and a cause holds, with the
  -- trigger of the first cause in this order: the user's request, tool failures, low confidence,
  -- an interrupted turn.
  pub evaluate-first_cause :
      let d = evaluate runtime w context policy in
      (d.trigger ≡ (if policy.fallback_to_human then first_cause causes else none))
      × (d.should_escalate ≡ is_some d.trigger)
  unfolding evaluate evaluate_rest
  evaluate-first_cause = ground arith

has_phrase : List Text → Text → Bool
has_phrase ps text = any (λ p. contains p text) ps

first_phrase-any :
    (ps : List Text) (text : Text) → is_some (first_phrase ps text) ≡ any (λ p. contains p text) ps
unfolding first_phrase
first_phrase-any [] text = refl
first_phrase-any (p ∷ ps) text = ground (arith, first_phrase-any ps text)

-- A request for a human is detected exactly when the lowered, stripped transcript contains one of
-- the explicit phrases, or, where those are not required, one of the transfer or frustration phrases.
pub detect-phrases :
    (runtime : Runtime) (transcript : Text) (require_explicit : Bool)
    → let text = strip (runtime.lower transcript) in
      (detect runtime transcript require_explicit).0 ≡ (
        any (λ p. contains p text) explicit_human_phrases
        || (not require_explicit
            && (any (λ p. contains p text) transfer_phrases
                || any (λ p. contains p text) frustration_phrases)))
unfolding detect detect_text detect_implicit
detect-phrases runtime transcript require_explicit = ground (
  arith,
  first_phrase-any explicit_human_phrases (strip (runtime.lower transcript)),
  first_phrase-any transfer_phrases (strip (runtime.lower transcript)),
  first_phrase-any frustration_phrases (strip (runtime.lower transcript)),
)
