-- ===== src/Handoff/Context/Tests.antt =====
-- The context of a turn with a failed lookup, as a trace with its own key for the tool has it and as
-- the agents leave it.
use vox_forge.Common.{
  ◌≡◌, refl, codes, true, false, none, some, List, [], ◌∷◌, map, ◌==◌, if◌then◌else◌,
}
use vox_forge.Domain.Json.{truth, Fields, text, field, end, lookup}
use vox_forge.Handoff.Policy.{TurnHandoffContext}
use vox_forge.Handoff.Context.{
  Python, context_with, build_turn_handoff_context, similarity_from, similarity_of,
}
use vox_forge.Handoff.Context.FromAgents.{step_of, agents-context-uncritical}
use vox_forge.Agents.Graph.{
  malformed, Run, finished, run_agents, run_graph, planner, safety, executor, critic, coordinator,
  tool_rounds, run_tools, run_tool, parse_json, before_fence, route_after_safety,
  route_after_critic, Agents, OrchestratorState,
}

abbrev python : Python
python = record {
  lower = λ t. t;
  show_value = λ v. [];
  float_of = λ v. none;
  int_of = λ v. none;
  ratio = λ a b. 0;
}

abbrev failed_lookup : List Fields
failed_lookup =
    field "agent" (text (codes "tool"))
      (field "tool" (text (codes "ticket_lookup")) (field "status" (text (codes "error")) end))
    ∷ []

abbrev context : TurnHandoffContext
context = context_with python (codes "hi") [] false none failed_lookup none 1 none

built :
    build_turn_handoff_context python (codes "hi") [] false none failed_lookup none 1 ≡ some context
unfolding build_turn_handoff_context similarity_from similarity_of lookup
built = refl

-- The executor calls a critical tool, which fails.
abbrev agents : Agents
agents = record {
  planner_llm = λ n ms. some (codes "look it up");
  safety_llm = λ n ms. some (codes "{}");
  critic_llm = λ n ms. some (codes "yes");
  executor_llm = λ n ms. some (
      if n == 2
      then record {
        content = [];
        tool_calls = record { name = codes "ticket_lookup"; args = end; id = codes "1" } ∷ [];
      }
      else record { content = codes "Sorry."; tool_calls = [] });
  execute = λ n tc scopes.
      some (record { output = []; status = codes "error"; error = some (codes "down") });
  tools = [];
  json_loads = λ t. malformed;
  str_value = λ v. [];
  planner_prompt = [];
  safety_prompt = [];
  executor_prompt = [];
  critic_prompt = [];
  max_agent_iterations = 2;
  max_tool_iterations = 3;
  recursion_limit = 25;
}

abbrev begin : OrchestratorState
begin = record {
  messages = [];
  user_input = codes "hi";
  plan = [];
  draft_response = [];
  safety_passed = true;
  safety_reason = [];
  critic_approved = false;
  critic_feedback = [];
  final_response = [];
  iteration = 0;
  caller_scopes = [];
  agent_trace = [];
  tool_calls = [];
  calls = 0;
}

-- The state in which a run ends.
abbrev state_of : Run → OrchestratorState
state_of (finished s) = s
state_of other = begin

abbrev end_state : OrchestratorState
end_state = state_of (run_agents agents begin)

run_ends : run_agents agents begin ≡ finished end_state
unfolding truth lookup run_agents run_graph planner safety executor critic coordinator tool_rounds
    run_tools run_tool parse_json before_fence route_after_safety route_after_critic
run_ends = refl

agents-context-uncritical_example :
    (c : TurnHandoffContext) × (build_turn_handoff_context python
        (codes "hi")
        (codes "Sorry.")
        false
        none
        (map step_of end_state.agent_trace)
        none
        1
      ≡ some c)
    × (c.critical_tool_failed ≡ false)
    × (c.confidence_signals.kb_top_similarity ≡ none)
agents-context-uncritical_example =
    agents-context-uncritical agents python begin end_state (codes "hi") (codes "Sorry.") false none
      none 1 refl run_ends
