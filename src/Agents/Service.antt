-- ===== src/Agents/Service.antt =====
-- modules/agent_orchestrator/application/service.py: the histories of AgentOrchestrator, which
-- modules/conversation/application/engine.py keeps in the same way, and the tokens of a reply.
pub mod Reply
use vox_forge.Common.{
  ℕ, Text, codes, Bool, true, false, Option, none, some, List, [], ◌∷◌, ◌++◌, map, is_empty,
  is_space, if◌then◌else◌,
}
use vox_forge.Domain.Session.{MessageRole, Message, ChatMessage}
use vox_forge.Store.World.{World, update}
use vox_forge.Store.Exec.{Exec, gets, modify, ◌>>=◌, ◌>>◌}

abbrev put_history : ℕ → List ChatMessage → Exec Unit
put_history session_id history =
    modify λ w. record w { histories = update w.histories session_id (some history) }

abbrev pub system_message : Text → ChatMessage
system_message prompt = record { role = MessageRole.system; content = prompt }

-- The argument is what `_system_prompt_for` gives for the session.
unfoldable pub init_session : Text → ℕ → Exec Unit
init_session prompt session_id = put_history session_id (system_message prompt ∷ [])

-- `add_user_message` and `add_assistant_message`
unfoldable pub add_chat_message : Text → MessageRole → ℕ → Text → Exec Unit
add_chat_message prompt role session_id content = do
  history ← gets λ w. w.histories session_id
  let before = elim history as (λ _. List ChatMessage) [
    | none ↦ system_message prompt ∷ []
    | some h ↦ h
  ]
  put_history session_id (before ++ record { role = role; content = content } ∷ [])

unfoldable pub load_history : Text → ℕ → List Message → Exec Unit
load_history prompt session_id messages =
    put_history session_id
      (system_message prompt ∷ map (λ m. record { role = m.role; content = m.content }) messages)

unfoldable pub clear_session : ℕ → Exec Unit
clear_session session_id = modify λ w. record w { histories = update w.histories session_id none }

abbrev is_user : MessageRole → Bool
is_user MessageRole.user = true
is_user _ = false

-- `_last_user_message`
unfoldable pub last_user_from : Text → List ChatMessage → Text
last_user_from found [] = found
last_user_from found (m ∷ ms) = last_user_from (if is_user m.role then m.content else found) ms

unfoldable pub last_user_message : List ChatMessage → Text
last_user_message history = last_user_from [] history

-- `s.split()`, with the word that has begun.
unfoldable pub split_from : Text → Text → List Text
split_from word [] = if is_empty word then [] else word ∷ []
split_from word (c ∷ s) =
    let fresh = split_from [] s in
    let longer = split_from (word ++ c ∷ []) s in
    if is_space c then if is_empty word then fresh else word ∷ fresh else longer

-- The texts of the events that `generate_response` yields for the result of the graph.
unfoldable pub reply_events : Text → Text → List Text
reply_events final_response draft_response =
    let first = if is_empty final_response then draft_response else final_response in
    let final =
      if is_empty first then codes "I'm sorry, I couldn't generate a response." else first in
    map (λ word. word ++ 32 ∷ []) (split_from [] final) ++ [] ∷ []
