-- ===== src/Agent/Evaluate.antt =====
-- Step 4 of `run_task`: what the agent's messages and the diff say about the outcome.
use bulletfarm.Prelude.{
  String, Bool, ◌&&◌, ◌||◌, not, none, some, List, [], ◌∷◌, ◌++◌, any, lower_contains, is_blank,
  ◌==◌, if◌then◌else◌,
}
use bulletfarm.Outside.{Message}

-- `any(m in text.lower() for m in markers)`
abbrev pub has_marker : List String → String → Bool
has_marker markers s = any (lower_contains s) markers

-- `name in names`
abbrev pub member : String → List String → Bool
member name names = any (λ n. n == name) names

-- `list(set(names))`, in the order of first occurrence, which Python leaves open
unfoldable pub unique_from : List String → List String → List String
unique_from seen [] = []
unique_from seen (n ∷ names) =
    let rest = unique_from seen names in
    let more = n ∷ unique_from (n ∷ seen) names in if member n seen then rest else more

unfoldable pub message_tools : Message → List String
message_tools m = elim m.name [
  | none ↦ m.tool_calls
  | some name ↦ if name == "" then m.tool_calls else m.tool_calls ++ (name ∷ [])
]

unfoldable pub tools_called : List Message → List String
unfolding message_tools
tools_called [] = []
tools_called (m ∷ messages) = message_tools m ++ tools_called messages

unfoldable pub unique_tools : List Message → List String
unfolding unique_from tools_called
unique_tools messages = unique_from [] (tools_called messages)

-- `messages[-1].content`
unfoldable pub last_content : List Message → String
last_content [] = "No output from agent"
last_content (m ∷ []) = m.content
last_content (m ∷ n ∷ messages) = last_content (n ∷ messages)

abbrev pub incomplete_markers : List String
incomplete_markers =
    "i cannot" ∷ "i can't" ∷ "i'm unable" ∷ "could not" ∷ "please verify" ∷ "you may need to"
    ∷ "manually" ∷ "i was unable" ∷ "not able to" ∷ "failed to create" ∷ "would you like me to"
    ∷ "shall i" ∷ "let me know" ∷ "i don't have access" ∷ "permission denied" ∷ []

abbrev pub meaningful_tools : List String
meaningful_tools = "code_edit" ∷ "test_generator" ∷ "doc_update" ∷ []

unfoldable pub agent_admitted_failure : String → Bool
agent_admitted_failure output_text = has_marker incomplete_markers output_text

unfoldable pub no_meaningful_tools : List String → Bool
no_meaningful_tools tools = not (any (λ t. member t tools) meaningful_tools)

-- `has_changes` is `bool(diff_result.stdout.strip())`.
unfoldable pub task_incomplete : String → String → List String → Bool
unfolding agent_admitted_failure no_meaningful_tools
task_incomplete diff_stdout output_text tools =
    is_blank diff_stdout && (agent_admitted_failure output_text || no_meaningful_tools tools)

abbrev pub rate_limit_markers : List String
rate_limit_markers = "rate limit" ∷ "429" ∷ "too many requests" ∷ "quota" ∷ []
