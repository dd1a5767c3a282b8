-- ===== src/Agent/Context.antt =====
-- What `run_task` puts into the prompt of the results of its search in memory.
use bulletfarm.Prelude.{String, ◌<>◌, Bool, false, List, [], ◌∷◌, ◌==◌, if◌then◌else◌}
use bulletfarm.Prelude.Dict.{get}
use bulletfarm.Prelude.Exec.{Result, ok}
use bulletfarm.Prelude.Fallible.{◌>>=◌}
use bulletfarm.Outside.{Value, text, Doc, Host}
use bulletfarm.Memory.Fields.{value_or, format_value, format_slice}

-- `v == s`
unfoldable pub is_text : Value → String → Bool
is_text (text t) s = t == s
is_text _ s = false

module _ (host : Host) where
  -- The line for one search result; a prompt that cannot be cut raises.
  unfoldable pub context_line : Doc → Result String
  unfolding is_text format_value format_slice
  context_line r =
      if is_text (value_or (get r "_source_index") (text "unknown")) "task_memory"
      then (do
        prompt ← format_slice host 80 (value_or (get r "prompt") (text ""))
        ok (
            "- [Task] "
            <> prompt
            <> " (Phase: "
            <> format_value host (value_or (get r "phase") (text ""))
            <> ")\n"))
      else ok ("- [Shared] " <> format_value host (value_or (get r "summary") (text "")) <> "\n")

  unfoldable pub context_lines : List Doc → Result String
  unfolding context_line
  context_lines [] = ok ""
  context_lines (r ∷ results) = do
    line ← context_line r
    rest ← context_lines results
    ok (line <> rest)

  unfoldable pub memory_context : List Doc → Result String
  unfolding context_lines
  memory_context [] = ok ""
  memory_context (r ∷ results) = do
    lines ← context_lines (r ∷ results)
    ok ("\n\nRelevant knowledge from past tasks:\n" <> lines)
