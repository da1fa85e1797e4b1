-- ===== src/Handoff/Summary.antt =====
-- modules/handoff/application/summarizer.py: ExtractiveConversationSummarizer.
use vox_forge.Common.{
  ℕ, ◌+◌, ◌≤◌, Text, codes, List, [], ◌∷◌, ◌++◌, map, take, length, length-append, length-take, ltb,
  if◌then◌else◌, arith, strip, replace_char, join,
}
use vox_forge.Domain.Session.{MessageRole, Message}
use vox_forge.Store.Exec.{Exec, pure, ◌>>=◌}
use vox_forge.Store.Sessions

abbrev pub role_value : MessageRole → Text
role_value MessageRole.user = codes "user"
role_value MessageRole.assistant = codes "assistant"
role_value MessageRole.system = codes "system"

-- `s[:limit - 3] + "..."` if the text is longer than `limit`
unfoldable pub clip : ℕ → ℕ → Text → Text
clip limit kept s = if ltb limit (length s) then take kept s ++ codes "..." else s

unfoldable pub summary_line : Message → Text
summary_line message =
    role_value message.role
    ++ codes ": "
    ++ clip 240 237 (replace_char b'\n' b' ' (strip message.content))

-- The summary of the messages that were read.
unfoldable pub summary_of : List Message → Text
summary_of [] = codes "No prior conversation messages."
summary_of (m ∷ ms) = clip 4000 3997 (join (codes "\n") (map summary_line (m ∷ ms)))

unfoldable pub summarize : ℕ → ℕ → Exec Text
summarize session_id max_messages = do
  messages ← Sessions.get_messages session_id 0 max_messages
  pure (summary_of messages)

pub length-clip :
    (limit kept : ℕ) (s : Text) → kept + 3 ≤ limit → length (clip limit kept s) ≤ limit
unfolding clip
length-clip limit kept s h =
    ground (arith, length-append (take kept s) (codes "..."), length-take kept s)

length-summary_of : (ms : List Message) → length (summary_of ms) ≤ 4000
unfolding summary_of
length-summary_of [] = omega arith
length-summary_of (m ∷ ms) =
    length-clip 4000 3997 (join (codes "\n") (map summary_line (m ∷ ms))) (omega arith)

length-role_value : (r : MessageRole) → length (role_value r) ≤ 9
length-role_value MessageRole.user = omega arith
length-role_value MessageRole.assistant = omega arith
length-role_value MessageRole.system = omega arith

length-summary_line : (m : Message) → length (summary_line m) ≤ 251
unfolding summary_line
length-summary_line m =
    let body = clip 240 237 (replace_char b'\n' b' ' (strip m.content)) in
    omega (
      arith,
      length-append (role_value m.role ++ codes ": ") body,
      length-append (role_value m.role) (codes ": "),
      length-role_value m.role,
      length-clip 240 237 (replace_char b'\n' b' ' (strip m.content)) (omega arith),
    )

-- A summary has at most 4000 characters, and each of the lines that it is made of at most 251.
pub summary_bounds :
    (ms : List Message) (m : Message)
    → (length (summary_of ms) ≤ 4000) × (length (summary_line m) ≤ 251)
summary_bounds ms m = (length-summary_of ms, length-summary_line m)
