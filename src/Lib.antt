-- ===== src/Lib.antt =====
-- VoxForge: the server behind voice calls with AI agents. This library models the parts that keep
-- the state of a call and decide about it, and proves what makes them correct.
--
-- The parts and their files (paths below src/voxforge):
--   Common          text as code points, lists, Boolean tests
--   Domain          core/domain/entities.py, events.py, handoff.py; JSON dictionaries
--   Store           the state behind a request: the tables of one open transaction, Redis keys with
--                   their expiry, published events. Store/Redis is infrastructure/redis/
--                   session_state.py, Store/Sessions is infrastructure/db/repositories.py,
--                   Store/Handoffs is infrastructure/db/handoff_repository.py
--   SessionManager  modules/session_manager/application/service.py, one function per method
--   Handoff         modules/handoff/application: Summary (summarizer.py), Replay (replay_link.py),
--                   Orchestrator (orchestrator.py, and cancel_handoff of api/v1/handoffs.py), Policy
--                   (policy.py), Context (context.py, policy_loader.py); Orchestrator/Initiate is
--                   initiate_handoff
--   RateLimit       infrastructure/http/rate_limit.py: Policy and Table (the policies), Limiter (the
--                   counters in Redis), Enforce (the middleware and the other callers)
--   Knowledge       infrastructure/knowledge/chunking.py
--   Agents          modules/agent_orchestrator/application: Graph is build_agent_graph of graph.py,
--                   Service the histories and replies of service.py
--   VoiceGateway    modules/voice_gateway/application/pipeline.py: Speaking (the tokens and the audio of
--                   a turn), Pipeline (the turn), Listening (run_listening); Sentences and Audio are
--                   infrastructure/providers/tts/cartesia.py
--   VoiceSocket     api/ws/voice.py: the control messages and the loop of a connection; Channel holds its
--                   queue and variables
--   Auth            Scopes is core/domain/auth.py; Keys is the API keys of modules/auth/application/
--                   service.py, infrastructure/db/auth_repositories.py and infrastructure/security/
--                   tokens.py
--   Tools           modules/mcp_tool_router/application: Router, with registry.py and the rows of
--                   infrastructure/db/tool_repository.py; McpRegistry is infrastructure/tools/
--                   mcp_runtime_registry.py, and Dict the dictionaries that these keep
--
-- Coroutines are functions from the state to a result and a new state (Store.Exec): a raise keeps what
-- was written before it. The session manager stands on the two session stores, the orchestrator on the
-- handoff table and the session manager. Redis commands fail by a list of outages, which theorems
-- quantify over. The three operations on a handoff that read before they update are cut at that read
-- (accept_read, complete_read, cancel_read), so that other requests can run in between.
--
-- A turn of the voice pipeline is one call on the state: what other tasks do to it meanwhile is the
-- interrupt, which a turn sees by its looks at the flag, and the speech and audio that it sends are
-- lists. Memory, evaluation, outcomes and the knowledge base stand behind interfaces of the pipeline.
-- The loop of the socket is a list of events: messages, and between them what its two tasks do: take from
-- the audio queue, send by the callbacks, work on the stores. The
-- admission of a caller and the agent configuration stand behind an interface (Door).
--
-- UUIDs, times (in seconds) and floats (their bit patterns) are native numbers. Code that is not in
-- the repository is a parameter: ticketing and assignment (Services), the digest (Signing), float
-- arithmetic and lower case (Runtime), `int` of a text (Settings), the hash
-- of API keys and their random part (Crypto), the rate multiplier (LimitSettings),
-- the models and tools (Agents), the speech services (Pipeline, Answer), the tools and the clients of
-- MCP servers (Handler, ToolRegistry, Discovery),
-- `str`, `int` and `float` of JSON values (Python).
--
-- Fuel: chunk_recursive gives its loop one more than the length of the text, since every window starts
-- behind the last one; chunk_csv gives one more than the number of rows; digits gives the number itself.
-- A run of the agents has the step limit of the graph library instead (recursion_limit).
--
-- A comparison of signatures with characters beyond ASCII, which Python refuses with a TypeError, answers
-- false here (Replay.verify).
--
-- Not modelled: log lines, metrics and traces; commit and rollback; the listings of handoffs; the
-- gauges of the socket, LiveKit, the single tools, log-in, memory and knowledge search.
pub mod Common
pub mod Domain
pub mod Store
pub mod SessionManager
pub mod Handoff
pub mod RateLimit
pub mod Knowledge
pub mod Auth
pub mod Agents
pub mod VoiceGateway
pub mod Tools
pub mod VoiceSocket
