-- ===== src/Agent/Tools/Core.antt =====
-- `_read_file`, `_list_files`, `search_shared_knowledge` and `graphql_debug` of agent.py.
use bulletfarm.Prelude.{
  ℕ, String, ◌<>◌, Option, none, List, [], ◌∷◌, ltb, take_text, count_text, decimal, strip, ◌==◌,
  if◌then◌else◌,
}
use bulletfarm.Prelude.Exec.{ExnKind, file_not_found, pure, attempt, ◌>>=◌}
use bulletfarm.Outside.{Doc, Call, Act, Elastic, Host, Machine, call}
use bulletfarm.Memory.Search

-- `[File: …]`, with the content or the first 5000 characters of it
unfoldable pub show_file : String → String → String
show_file file_path content =
    let size = "[File: " <> file_path <> ", " <> decimal (count_text content) <> " chars" in
    if ltb 5000 (count_text content)
    then size <> ", truncated]\n" <> take_text 5000 content <> "\n...(truncated)"
    else size <> "]\n" <> content

-- `except FileNotFoundError`, and `except Exception`
unfoldable pub read_error : String → ExnKind → String → String
read_error file_path file_not_found message = "Error: File not found: " <> file_path
read_error file_path _ message = "Error reading " <> file_path <> ": " <> message

unfoldable pub show_listing : String → String → String
show_listing directory files =
    if files == ""
    then "No files found in " <> directory
    else "Files in " <> directory <> ":\n" <> files

module _ (m : Machine) where
  unfoldable pub read_file : String → Act String
  unfolding show_file read_error
  read_file file_path =
      attempt
        (do
          content ← call m.read_file (Call.read_file file_path)
          pure (show_file file_path content))
        (λ e. pure (read_error file_path e.kind e.message))

  unfoldable pub list_files : String → Act String
  unfolding show_listing
  list_files directory =
      attempt
        (do
          result ← call m.run (
              Call.run_command
                ("find" ∷ directory ∷ "-type" ∷ "f" ∷ "-not" ∷ "-path" ∷ "*/.git/*" ∷ []) none)
          pure (show_listing directory (strip result.stdout)))
        (λ e. pure ("Error listing files in " <> directory <> ": " <> e.message))

  unfoldable pub graphql_debug : String → String → Act String
  graphql_debug endpoint query =
      attempt
        (do
          response ← call m.post (Call.post_query endpoint query)
          pure (
              "Status: "
              <> decimal response.status_code
              <> "\nResponse: "
              <> take_text 2000 response.body))
        (λ e. pure ("GraphQL debug error: " <> e.message))

-- `memory_store["search_shared"]`, as the tool calls it
unfoldable pub search_shared_knowledge :
    Elastic → Host → String → Option (List String) → ℕ → Act (List Doc)
search_shared_knowledge es host query_text skills limit =
    Search.search_shared_knowledge es host query_text skills limit
