-- ===== src/Agent/Tools/Edit/Laws.antt =====
-- What `code_edit` of agent.py writes.
use bulletfarm.Prelude.{
  ℕ, ◌≤◌, String, ◌<>◌, ◌≡◌, refl, ◌∙◌, false, some, ◌∷◌, count_text, is_blank, if◌then◌else◌,
}
use bulletfarm.Prelude.Exec.{ok}
use bulletfarm.Prelude.Exec.Laws.{state-attempt, state-bind_pure}
use bulletfarm.Prelude.Find.{find_first}
use bulletfarm.Prelude.Find.Laws.{find_first_sound, find_first-least}
use bulletfarm.Outside.{Call, History, Machine, call}
use bulletfarm.Agent.Tools.Edit.{create_file, write_edit, edit_file, code_edit}

-- The text `c` is `front`, `old` and `rest`, with at most `n` characters in front.
pub record IsSplit (c old : String) (n : ℕ) (front rest : String) : Type 0 where
  pub whole : c ≡ front <> (old <> rest)
  pub early : count_text front ≤ n

module _ (m : Machine) (file_path old_content new_content : String) (h : History) where
  abbrev After : History
  After = (code_edit m file_path old_content new_content h).1

  code_edit-calls :
      is_blank old_content ≡ false → After ≡ (edit_file m file_path old_content new_content h).1
  unfolding code_edit
  code_edit-calls edits =
      let choice =
        if is_blank old_content
        then create_file m file_path new_content
        else edit_file m file_path old_content new_content in
      state-attempt choice (λ e. "Error editing " <> file_path <> ": " <> e.message) h
      ∙ rw edits refl

  edit_file-calls :
      (c : String)
      → m.read_file (Call.read_file file_path ∷ h) ≡ ok c
      → (edit_file m file_path old_content new_content h).1
        ≡ (write_edit m file_path new_content c
            (find_first old_content c)
            (Call.read_file file_path ∷ h)).1
  unfolding edit_file
  edit_file-calls c reads = rw (reads, edit_file) refl

  write_edit-calls :
      (c front rest : String)
      → (write_edit m file_path new_content c (some (front, rest)) (Call.read_file file_path ∷ h)).1
        ≡ Call.write_file file_path (front <> (new_content <> rest)) ∷ Call.read_file file_path ∷ h
  unfolding write_edit
  write_edit-calls c front rest =
      state-bind_pure
        (call m.write_file (Call.write_file file_path (front <> (new_content <> rest))))
        (λ _. "Successfully edited " <> file_path) (Call.read_file file_path ∷ h)

  -- Where the old content is not only white space, and stands in the file after `u`, `code_edit` reads
  -- the file and then writes it once, with the first occurrence replaced, which is after `u` or
  -- before, and the rest as it was.
  -- It makes no other call.
  pub code_edit_replaces :
      (u v : String)
      → is_blank old_content ≡ false
      → m.read_file (Call.read_file file_path ∷ h) ≡ ok (u <> (old_content <> v))
      → (front : String) × (rest : String) × IsSplit
          (u <> (old_content <> v))
          old_content
          (count_text u)
          front
          rest
        × (After
            ≡ Call.write_file file_path (front <> (new_content <> rest))
              ∷ Call.read_file file_path
              ∷ h)
  code_edit_replaces u v edits reads =
      let c = u <> (old_content <> v) in
      let ((front, rest), found, early) = find_first-least old_content u v in
      (
        front,
        rest,
        record { whole = find_first_sound old_content c (front, rest) found; early = early },
        code_edit-calls edits ∙ edit_file-calls c reads ∙ rw found (write_edit-calls c front rest),
      )
