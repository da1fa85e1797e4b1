-- ===== src/Handoff/Context/Counts.antt =====
-- The two counts of failed tools of a turn agree.
use vox_forge.Common.{ℕ, ◌≡◌, refl, Text, Bool, Option, some, List, [], ◌∷◌, length, arith, any}
use vox_forge.Domain.Json.{Fields}
use vox_forge.Domain.Handoff.{Float}
use vox_forge.Handoff.Policy.{TurnHandoffContext}
use vox_forge.Handoff.Context.{
  Python, EvaluationMetric, count_failures, failures, tool_steps_of, build_turn_handoff_context,
  context_with, is_member, critical_tools,
}

module _ (python : Python) where
  failures-count :
      (trace : List Fields)
      → ((failures python (tool_steps_of python trace)).0 ≡ count_failures python trace)
        × (length (failures python (tool_steps_of python trace)).1 ≡ count_failures python trace)
  unfolding failures count_failures
  failures-count [] = (refl, refl)
  failures-count (step ∷ trace) = ground (arith, failures-count trace)

  -- The context of a turn counts as many failed tools as the pipeline adds to the running count, and
  -- names each of them; one of the critical tools has failed exactly if it is among the names.
  pub context-counts :
      (user assistant : Text) (interrupted : Bool) (confidence : Option Float) (trace : List Fields)
      (run : Option (List EvaluationMetric)) (consecutive : ℕ) (context : TurnHandoffContext)
      → build_turn_handoff_context python user assistant interrupted confidence trace run
          consecutive
        ≡ some context
      → (context.tool_failures_this_turn ≡ count_failures python trace)
        × (length context.failed_tools ≡ count_failures python trace)
        × (context.critical_tool_failed
            ≡ any (λ name. is_member name critical_tools) context.failed_tools)
  unfolding build_turn_handoff_context context_with
  context-counts user assistant interrupted confidence trace run consecutive context built =
      ground (arith, built, failures-count trace)
