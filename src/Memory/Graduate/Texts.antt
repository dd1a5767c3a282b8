-- ===== src/Memory/Graduate/Texts.antt =====
-- The texts that `graduate_to_shared` of memory.py makes of a task result.
use bulletfarm.Prelude.{
  String, ◌<>◌, List, [], ◌∷◌, take, length, join, decimal, ◌==◌, if◌then◌else◌,
}
use bulletfarm.Prelude.Dict.{get}
use bulletfarm.Prelude.Exec.{Result, ok}
use bulletfarm.Prelude.Fallible.{◌>>=◌}
use bulletfarm.Outside.{Value, text, texts, Doc, Host}
use bulletfarm.Memory.Fields.{value_or, format_value, format_slice, items}

-- `task_result.get(key, "")` and `task_result.get(key, [])`
abbrev pub text_field : Doc → String → Value
text_field doc key = value_or (get doc key) (text "")

abbrev pub texts_field : Doc → String → Value
texts_field doc key = value_or (get doc key) (texts [])

unfoldable pub outcome_text : String → String
outcome_text pr_state = if pr_state == "merged" then "merged" else "closed without merge"

-- `', '.join(parts) if parts else 'none'`
unfoldable pub join_or_none : List String → List String → String
join_or_none [] parts = "none"
join_or_none (x ∷ xs) parts = join ", " parts

module _ (host : Host) where
  unfoldable pub graduation_summary : Doc → String → Result String
  unfolding format_value format_slice items outcome_text
  graduation_summary task_result pr_state = do
    prompt ← format_slice host 100 (text_field task_result "prompt")
    files ← items host (texts_field task_result "files_modified")
    tools ← items host (texts_field task_result "tools_called")
    ok (
        "Task '"
        <> prompt
        <> "' on "
        <> format_value host (text_field task_result "repository")
        <> " — PR "
        <> outcome_text pr_state
        <> ". Modified "
        <> decimal (length files)
        <> " files using "
        <> decimal (length tools)
        <> " tools.")

  unfoldable pub graduation_context : Doc → String → Result String
  unfolding format_value format_slice items outcome_text join_or_none
  graduation_context task_result pr_state = do
    tools ← items host (texts_field task_result "tools_called")
    files ← items host (texts_field task_result "files_modified")
    output ← format_slice host 800 (text_field task_result "output")
    ok (
        "Outcome: PR "
        <> outcome_text pr_state
        <> "\nMethodology: "
        <> format_value host (text_field task_result "methodology")
        <> "\nTools used: "
        <> join_or_none tools tools
        <> "\nFiles modified: "
        <> join_or_none files (take 20 files)
        <> "\nAgent output: "
        <> output)

  -- The summary and the context, or the exception of a field that cannot be cut or counted.
  unfoldable pub graduation_texts : Doc → String → Result (String × String)
  unfolding graduation_summary graduation_context
  graduation_texts task_result pr_state = do
    summary ← graduation_summary task_result pr_state
    context ← graduation_context task_result pr_state
    ok (summary, context)
