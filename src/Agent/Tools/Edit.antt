-- ===== src/Agent/Tools/Edit.antt =====
-- `code_edit` of agent.py.
pub mod Laws
use Prim.Native.Char.{code}
use bulletfarm.Prelude.{
  ℕ, String, ◌<>◌, Bool, false, ◌||◌, Option, none, some, take_text, count_text, decimal, is_blank,
  ◌==◌, if◌then◌else◌,
}
use bulletfarm.Prelude.Exec.{Exn, pure, attempt, ◌>>=◌, ◌>>◌}
use bulletfarm.Prelude.Find.{find_first}
use bulletfarm.Outside.{Call, Act, Machine, call}
use bulletfarm.Github.PrUrl.{is_slash}

unfoldable pub has_slash : String → Bool
has_slash String.[] = false
has_slash (String.◌∷◌ c s) = is_slash (code c) || has_slash s

-- `p[:p.rfind("/") + 1]`
unfoldable pub through_slash : String → String
unfolding has_slash
through_slash String.[] = ""
through_slash (String.◌∷◌ c s) =
    let rest = through_slash s in if has_slash (String.◌∷◌ c s) then String.◌∷◌ c rest else ""

-- `head.rstrip("/")`
unfoldable pub strip_slashes : String → String
strip_slashes String.[] = ""
strip_slashes (String.◌∷◌ c s) =
    let rest = strip_slashes s in
    if is_slash (code c) then (if rest == "" then "" else String.◌∷◌ c rest) else String.◌∷◌ c rest

-- `os.path.dirname`
unfoldable pub dirname : String → String
unfolding through_slash strip_slashes
dirname p =
    let head = through_slash p in let bare = strip_slashes head in if bare == "" then head else bare

unfoldable pub not_found_text : String → String → String
not_found_text file_path content =
    "Error: old_content not found in "
    <> file_path
    <> ". File contains "
    <> decimal (count_text content)
    <> " chars. First 200: "
    <> take_text 200 content

module _ (m : Machine) where
  -- The `if` of `code_edit`: a new file
  unfoldable pub create_file : String → String → Act String
  unfolding dirname
  create_file file_path new_content = do
    call m.make_dirs (Call.make_dirs (dirname file_path))
    call m.write_file (Call.write_file file_path new_content)
    pure ("Successfully created " <> file_path)

  -- After the search for the old content: what stands before and after the first occurrence.
  unfoldable pub write_edit : String → String → String → Option (String × String) → Act String
  unfolding not_found_text
  write_edit file_path new_content content none = pure (not_found_text file_path content)
  write_edit file_path new_content content (some (front, rest)) = do
    call m.write_file (Call.write_file file_path (front <> (new_content <> rest)))
    pure ("Successfully edited " <> file_path)

  -- The `else` of `code_edit`: `content.replace(old_content, new_content, 1)`
  unfoldable pub edit_file : String → String → String → Act String
  unfolding write_edit
  edit_file file_path old_content new_content = do
    content ← call m.read_file (Call.read_file file_path)
    write_edit file_path new_content content (find_first old_content content)

  -- A text that is empty or white space is blank, which is both tests of the source.
  unfoldable pub code_edit : String → String → String → Act String
  unfolding create_file edit_file
  code_edit file_path old_content new_content =
      attempt
        (if is_blank old_content
          then create_file file_path new_content
          else edit_file file_path old_content new_content)
        (λ e. pure ("Error editing " <> file_path <> ": " <> e.message))
