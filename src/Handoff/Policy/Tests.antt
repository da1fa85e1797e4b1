-- ===== src/Handoff/Policy/Tests.antt =====
-- The policy engine on one turn.
use vox_forge.Common.{
  ℕ, ◌*◌, ◌/◌, ◌+◌, ◌==◌, ◌≡◌, codes, true, false, none, some, List, [], ◌∷◌, ltb, show_nat,
  is_some,
}
use vox_forge.Domain.Handoff.{AssignmentStrategy, EscalationPolicy}
use vox_forge.Handoff.Policy.{Runtime, SignalWeights, TurnHandoffContext, evaluate}
use vox_forge.Handoff.Policy.Decision.{first_cause, causes, evaluate-first_cause}

abbrev sum : List ℕ → ℕ
sum [] = 0
sum (x ∷ xs) = x + sum xs

-- Whole percents in place of floats, and a text that is in lower case already.
abbrev percents : Runtime
percents = record {
  lower = λ t. t;
  zero_float = 0;
  one_float = 100;
  multiply = ◌*◌;
  divide = ◌/◌;
  total = sum;
  is_zero = λ x. x == 0;
  less = ltb;
  two_places = show_nat;
}

abbrev weights : SignalWeights
weights = record {
  critic_approved = 30;
  hallucination_score = 25;
  tool_success_ratio = 20;
  stt_confidence = 15;
  kb_top_similarity = 10;
}

abbrev turn : TurnHandoffContext
turn = record {
  user_transcript = codes "please transfer me";
  assistant_response = [];
  interrupted = true;
  confidence_signals = record {
    critic_approved = some false;
    hallucination_score = none;
    tool_success_ratio = none;
    stt_confidence = some 90;
    kb_top_similarity = none;
  };
  tool_failures_this_turn = 1;
  consecutive_tool_failures = 1;
  failed_tools = codes "ticket_lookup" ∷ [];
  critical_tool_failed = true;
}

abbrev strict : EscalationPolicy
strict = record {
  fallback_to_human = true;
  min_confidence = 40;
  escalate_on_tool_failure = false;
  max_tool_failures = 2;
  escalate_on_critical_tool_failure = false;
  require_explicit_request = true;
  auto_create_ticket = true;
  assignment_strategy = AssignmentStrategy.round_robin;
  handoff_message = [];
}

evaluate-first_cause_example :
    ((evaluate percents weights turn strict).trigger
      ≡ first_cause (causes percents weights turn strict))
    × ((evaluate percents weights turn strict).should_escalate
        ≡ is_some (evaluate percents weights turn strict).trigger)
evaluate-first_cause_example = evaluate-first_cause percents weights turn strict
