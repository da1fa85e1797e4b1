-- ===== src/Agents/Graph.antt =====
-- modules/agent_orchestrator/application/graph.py: the nodes and edges of build_agent_graph. A node
-- that raises, because a model, a tool or its own code does, has no state to go on with, and the run
-- raises; so it does at the step limit of the graph library.
use vox_forge.Common.{
  ℕ, zero, suc, ◌+◌, String, Text, codes, Bool, true, Option, none, some, List, [], ◌∷◌, ◌++◌, map,
  take, drop, starts_with, is_empty, strip, join, show_nat, leb, if◌then◌else◌,
}
use vox_forge.Domain.Json.{Value, obj, Fields, end, flag, text, lookup, truth}

pub record ToolCall : Type 0 where
  pub name : Text
  pub args : Fields
  pub id : Text

-- A message to a model.
pub data BaseMessage : Type 0 where
  system human : Text → BaseMessage
  ai : Text → List ToolCall → BaseMessage
  -- the output, and the id of the call
  tool : Text → Text → BaseMessage

-- What the executor's model replies.
pub record AiMessage : Type 0 where
  pub content : Text
  pub tool_calls : List ToolCall

pub record ToolResult : Type 0 where
  pub output : Text
  pub status : Text
  pub error : Option Text

-- What `json.loads` makes of a text.
pub data Json : Type 0 where
  malformed : Json
  loaded : Value → Json

-- What the graph calls: the four models and the tool router, whose answers may differ from call to
-- call (the first argument is the number of the call) and which may raise (`none`), `json` and `str`, and the
-- number of steps that the graph library allows a run.
pub record Agents : Type 0 where
  pub planner_llm : ℕ → List BaseMessage → Option Text
  pub safety_llm : ℕ → List BaseMessage → Option Text
  pub critic_llm : ℕ → List BaseMessage → Option Text
  pub executor_llm : ℕ → List BaseMessage → Option AiMessage
  pub execute : ℕ → ToolCall → List Text → Option ToolResult
  -- the tools as the router lists them; none if tools are disabled
  pub tools : List (Text × Text)
  pub json_loads : Text → Json
  pub str_value : Value → Text
  pub planner_prompt : Text
  pub safety_prompt : Text
  pub executor_prompt : Text
  pub critic_prompt : Text
  pub max_agent_iterations : ℕ
  pub max_tool_iterations : ℕ
  pub recursion_limit : ℕ

pub record Trace : Type 0 where
  pub agent : String
  pub status : Text
  pub summary : Text

pub record ToolRecord : Type 0 where
  pub tool_name : Text
  pub arguments : Fields
  pub status : Text
  pub output : Text

-- OrchestratorState, without the ids that are only passed on, and with the number of calls made so far.
pub record OrchestratorState : Type 0 where
  pub messages : List BaseMessage
  pub user_input : Text
  pub plan : Text
  pub draft_response : Text
  pub safety_passed : Bool
  pub safety_reason : Text
  pub critic_approved : Bool
  pub critic_feedback : Text
  pub final_response : Text
  pub iteration : ℕ
  pub caller_scopes : List Text
  pub agent_trace : List Trace
  pub tool_calls : List ToolRecord
  pub calls : ℕ

-- What is in front of the next fence of three backquotes.
unfoldable pub before_fence : Text → Text
before_fence [] = []
before_fence (c ∷ s) =
    let rest = before_fence s in if starts_with (codes "```") (c ∷ s) then [] else c ∷ rest

abbrev pub unfence : Text → Text
unfence t =
    let body = before_fence (drop 3 t) in
    if starts_with (codes "json") body then drop 4 body else body

unfoldable pub parse_json : Agents → Text → Value
unfolding before_fence
parse_json agents content =
    let t = strip content in
    elim (agents.json_loads (if starts_with (codes "```") t then unfence t else t)) [
      | malformed ↦ obj end
      | loaded v ↦ v
    ]

-- What can be asked for a key: the `.get` of anything but a dictionary is an AttributeError.
abbrev pub as_dict : Value → Option Fields
as_dict (obj d) = some d
as_dict other = none

-- What follows a call that may raise.
abbrev pub and_then : {A B : Type 0} → Option A → (A → Option B) → Option B
and_then none f = none
and_then (some a) f = f a

-- `d.get(key, default)`
abbrev pub get_or_default : Fields → String → Value → Value
get_or_default d key default = elim (lookup key d) [ none ↦ default | some v ↦ v ]

abbrev pub trace : String → Text → Text → Trace
trace agent status summary = record { agent = agent; status = status; summary = summary }

abbrev pub planned : OrchestratorState → Text → OrchestratorState
planned s plan = record s {
  plan = plan;
  agent_trace = s.agent_trace ++ trace "planner" (codes "completed") (take 200 plan) ∷ [];
  calls = s.calls + 1;
}

unfoldable pub planner : Agents → OrchestratorState → Option OrchestratorState
planner agents s =
    let prompt =
      agents.planner_prompt
      ++ codes "\n\nUser message: "
      ++ s.user_input
      ++ codes "\nIteration: "
      ++ show_nat s.iteration
      ++ (if is_empty s.critic_feedback
          then []
          else codes "\nCritic feedback to address: " ++ s.critic_feedback) in
    and_then (agents.planner_llm s.calls (s.messages ++ BaseMessage.human prompt ∷ []))
      λ plan. some (planned s plan)

abbrev pub refusal : Text
refusal = codes "I'm sorry, but I can't help with that request."

abbrev pub text_or : Text → Text → Text
text_or [] d = d
text_or (c ∷ t) d = c ∷ t

abbrev pub judged : Agents → OrchestratorState → Fields → OrchestratorState
judged agents s parsed =
    let passed = truth (get_or_default parsed "passed" (flag true)) in
    let reason = agents.str_value (get_or_default parsed "reason" (text [])) in
    record s {
      safety_passed = passed;
      safety_reason = reason;
      final_response = if passed then s.final_response else refusal;
      agent_trace =
          s.agent_trace
          ++ trace "safety" (if passed then codes "completed" else codes "blocked")
              (text_or reason (codes "passed"))
            ∷ [];
      calls = s.calls + 1;
    }

-- The reply of the safety model.
abbrev pub safety_reply : Agents → OrchestratorState → Option Text
safety_reply agents s =
    let prompt =
      agents.safety_prompt ++ codes "\n\nUser: " ++ s.user_input ++ codes "\nPlan: " ++ s.plan in
    agents.safety_llm s.calls (BaseMessage.human prompt ∷ [])

unfoldable pub safety : Agents → OrchestratorState → Option OrchestratorState
safety agents s = and_then (safety_reply agents s) λ content.
    and_then (as_dict (parse_json agents content)) λ parsed. some (judged agents s parsed)

-- What the tool loop carries: the messages, the records and traces of the tools, the count of calls.
pub record ToolLoop : Type 0 where
  pub messages : List BaseMessage
  pub recorded : List ToolRecord
  pub traced : List Trace
  pub calls : ℕ

abbrev pub result_text : ToolResult → Text
result_text r = text_or r.output (elim r.error [ none ↦ [] | some e ↦ e ])

-- The result of a call is recorded, traced and handed back to the model.
abbrev pub ran_tool : ToolCall → ToolLoop → ToolResult → ToolLoop
ran_tool tc l r =
    let output = result_text r in
    record {
      messages = l.messages ++ BaseMessage.tool output tc.id ∷ [];
      recorded =
          l.recorded
          ++ record {
            tool_name = tc.name;
            arguments = tc.args;
            status = r.status;
            output = take 500 output;
          }
            ∷ [];
      traced = l.traced ++ trace "tool" r.status (tc.name ++ codes ": " ++ take 120 output) ∷ [];
      calls = l.calls + 1;
    }

unfoldable pub run_tool : Agents → List Text → ToolCall → ToolLoop → Option ToolLoop
run_tool agents scopes tc l =
    and_then (agents.execute l.calls tc scopes) λ r. some (ran_tool tc l r)

-- The calls of one reply, in order.
unfoldable pub run_tools : Agents → List Text → List ToolCall → ToolLoop → Option ToolLoop
run_tools agents scopes [] l = some l
run_tools agents scopes (tc ∷ tcs) l =
    let later = run_tools agents scopes tcs in and_then (run_tool agents scopes tc l) later

-- The loop with a reply that has been received, and with its calls noted if it has any.
abbrev pub replied : ToolLoop → AiMessage → ToolLoop
replied l response = elim response.tool_calls [
  | [] ↦ record l { calls = l.calls + 1 }
  | tc ∷ tcs ↦ record l {
    calls = l.calls + 1;
    messages = l.messages ++ BaseMessage.ai response.content (tc ∷ tcs) ∷ [];
  }
]

-- After a reply: its content without calls, the next round with the calls.
abbrev pub after_reply :
    Agents
    → List Text
    → (Text → ToolLoop → Option (Text × ToolLoop))
    → ToolLoop
    → Text
    → List ToolCall
    → Option (Text × ToolLoop)
after_reply agents scopes later l content [] = some (content, l)
after_reply agents scopes later l content (tc ∷ tcs) =
    and_then (run_tools agents scopes (tc ∷ tcs) l) λ l'. later content l'

-- The rounds that are left, after a reply with the content `last`.
unfoldable pub tool_rounds : Agents → List Text → ℕ → Text → ToolLoop → Option (Text × ToolLoop)
tool_rounds agents scopes zero last l = some (last, l)
tool_rounds agents scopes (suc rounds) last l =
    let later = tool_rounds agents scopes rounds in
    and_then (agents.executor_llm l.calls l.messages) λ response.
      after_reply agents scopes later (replied l response) response.content response.tool_calls

abbrev pub tool_list : List (Text × Text) → Text
tool_list [] = []
tool_list (t ∷ ts) =
    codes "\n\nAvailable tools:\n"
    ++ join (codes "\n") (map (λ d. codes "- " ++ d.0 ++ codes ": " ++ d.1) (t ∷ ts))

-- The loop before its first round: the history, and the prompt with the tools and the plan.
abbrev pub first_loop : Agents → OrchestratorState → ToolLoop
first_loop agents s =
    let prompt =
      agents.executor_prompt
      ++ tool_list agents.tools
      ++ codes "\n\nPlan:\n"
      ++ s.plan
      ++ codes "\n\nUser message: "
      ++ s.user_input in
    record {
      messages = s.messages ++ BaseMessage.human prompt ∷ [];
      recorded = [];
      traced = [];
      calls = s.calls;
    }

abbrev pub executed : OrchestratorState → Text → ToolLoop → OrchestratorState
executed s draft l = record s {
  draft_response = draft;
  agent_trace = s.agent_trace ++ trace "executor" (codes "completed") (take 200 draft) ∷ l.traced;
  tool_calls = s.tool_calls ++ l.recorded;
  calls = l.calls;
}

unfoldable pub executor : Agents → OrchestratorState → Option OrchestratorState
executor agents s =
    and_then
      (tool_rounds agents s.caller_scopes (suc agents.max_tool_iterations) [] (first_loop agents s))
      λ done. some (executed s done.0 done.1)

abbrev pub reviewed : Agents → OrchestratorState → Fields → OrchestratorState
reviewed agents s parsed =
    let approved = truth (get_or_default parsed "approved" (flag true)) in
    let feedback = agents.str_value (get_or_default parsed "feedback" (text [])) in
    record s {
      critic_approved = approved;
      critic_feedback = feedback;
      iteration = if approved then s.iteration else s.iteration + 1;
      agent_trace =
          s.agent_trace
          ++ trace "critic" (if approved then codes "completed" else codes "revised")
              (text_or (take 200 feedback) (codes "approved"))
            ∷ [];
      calls = s.calls + 1;
    }

-- The reply of the critic model.
abbrev pub critic_reply : Agents → OrchestratorState → Option Text
critic_reply agents s =
    let prompt =
      agents.critic_prompt
      ++ codes "\n\nDraft response:\n"
      ++ s.draft_response
      ++ codes "\n\nUser message: "
      ++ s.user_input in
    agents.critic_llm s.calls (BaseMessage.human prompt ∷ [])

unfoldable pub critic : Agents → OrchestratorState → Option OrchestratorState
critic agents s = and_then (critic_reply agents s) λ content.
    and_then (as_dict (parse_json agents content)) λ parsed. some (reviewed agents s parsed)

unfoldable pub coordinator : OrchestratorState → OrchestratorState
coordinator s =
    if is_empty s.final_response
    then record s {
      final_response = s.draft_response;
      agent_trace =
          s.agent_trace ++ trace "coordinator" (codes "completed") (take 200 s.draft_response) ∷ [];
    }
    else record s {
      agent_trace = s.agent_trace ++ trace "coordinator" (codes "blocked") s.safety_reason ∷ [];
    }

pub data Node : Type 0 where
  at_planner at_safety at_executor at_critic at_coordinator : Node

unfoldable pub route_after_safety : OrchestratorState → Node
route_after_safety s = if s.safety_passed then Node.at_executor else Node.at_coordinator

unfoldable pub route_after_critic : Agents → OrchestratorState → Node
route_after_critic agents s =
    if s.critic_approved
    then Node.at_coordinator
    else if leb agents.max_agent_iterations s.iteration
    then Node.at_coordinator
    else Node.at_planner

-- How a run ends: with an exception of a node, with the graph library's GraphRecursionError, or with
-- a state.
pub data Run : Type 0 where
  raised stopped : Run
  finished : OrchestratorState → Run

abbrev pub go_on : (OrchestratorState → Run) → Option OrchestratorState → Run
go_on later none = raised
go_on later (some s) = later s

-- The compiled graph from a node on, with the steps that are left.
unfoldable pub run_graph : Agents → ℕ → Node → OrchestratorState → Run
run_graph agents zero node s = stopped
run_graph agents (suc steps) Node.at_planner s =
    let later = run_graph agents steps Node.at_safety in go_on later (planner agents s)
run_graph agents (suc steps) Node.at_safety s =
    let later = run_graph agents steps in
    go_on (λ s'. later (route_after_safety s') s') (safety agents s)
run_graph agents (suc steps) Node.at_executor s =
    let later = run_graph agents steps Node.at_critic in go_on later (executor agents s)
run_graph agents (suc steps) Node.at_critic s =
    let later = run_graph agents steps in
    go_on (λ s'. later (route_after_critic agents s') s') (critic agents s)
run_graph agents (suc steps) Node.at_coordinator s = finished (coordinator s)

-- A run of the compiled graph.
unfoldable pub run_agents : Agents → OrchestratorState → Run
run_agents agents = run_graph agents agents.recursion_limit Node.at_planner
