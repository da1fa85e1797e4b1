-- ===== src/Agents/Tests.antt =====
-- A run with one refused draft, one tool call, and one with a blocked request.
use vox_forge.Common.{
  arith, Text, ◌≡◌, refl, codes, text_eq, true, false, none, some, [], ◌∷◌, ◌==◌, if◌then◌else◌,
}
use vox_forge.Domain.Json.{obj, end, field, flag}
use vox_forge.Agents.Graph.{loaded, malformed, Agents, OrchestratorState, run_agents}
use vox_forge.Agents.Service.{reply_events}
use vox_forge.Agents.Service.Reply.{spaced_out, reply-spoken}
use vox_forge.VoiceGateway.Audio.{Stream, chunk_of}
use vox_forge.VoiceGateway.Sentences.{token_stream_to_sentences}
use vox_forge.VoiceGateway.Sentences.Squeeze.{squeeze}
use vox_forge.VoiceGateway.Sentences.Stream.{concat}
use vox_forge.VoiceGateway.Speaking.{speak, goes_on}
use vox_forge.VoiceGateway.Speaking.Uninterrupted.{texts_of, chunks_of}
use vox_forge.Agents.Outcome.{Ended, run_agents-Done}

-- The critic refuses the first draft; every executor run looks something up once.
abbrev agents : Agents
agents = record {
  planner_llm = λ n ms. some (codes "look it up");
  safety_llm = λ n ms. some (codes "{}");
  critic_llm = λ n ms. some (if n == 5 then codes "no" else codes "yes");
  executor_llm = λ n ms. some (
      if n == 2
      then record {
        content = [];
        tool_calls = record { name = codes "lookup"; args = end; id = codes "1" } ∷ [];
      }
      else record { content = codes "The answer."; tool_calls = [] });
  execute = λ n tc scopes.
      some (record { output = codes "found"; status = codes "success"; error = none });
  tools = [];
  json_loads = λ t.
      if text_eq t (codes "no")
      then loaded (obj (field "approved" (flag false) end))
      else malformed;
  str_value = λ v. [];
  planner_prompt = [];
  safety_prompt = [];
  executor_prompt = [];
  critic_prompt = [];
  max_agent_iterations = 2;
  max_tool_iterations = 3;
  recursion_limit = 25;
}

abbrev begin : OrchestratorState
begin = record {
  messages = [];
  user_input = codes "hi";
  plan = [];
  draft_response = [];
  safety_passed = true;
  safety_reason = [];
  critic_approved = false;
  critic_feedback = [];
  final_response = [];
  iteration = 0;
  caller_scopes = [];
  agent_trace = [];
  tool_calls = [];
  calls = 2;
}

run_agents-Done_example : Ended agents 0 (run_agents agents begin)
run_agents-Done_example = run_agents-Done agents begin refl refl (omega arith)

-- One chunk for each text.
abbrev voice : Text → Stream
voice text = record { chunks = chunk_of text ∷ []; failed = false }

reply-spoken_example :
    let events = reply_events (codes "It works. Bye!") [] in
    let sentences = (token_stream_to_sentences (texts_of events)).sentences in
    let (ending, s) = speak voice events false none in
    (ending ≡ goes_on)
    × (s.audio ≡ chunks_of voice (λ t. refl) sentences)
    × (squeeze (concat sentences) ≡ squeeze (codes "It works. Bye!"))
    × (s.assistant_text ≡ spaced_out false (codes "It works. Bye!"))
reply-spoken_example = reply-spoken voice (λ t. refl) (codes "It works. Bye!") [] refl
