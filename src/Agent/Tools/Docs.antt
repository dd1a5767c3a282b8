-- ===== src/Agent/Tools/Docs.antt =====
-- `doc_update` of agent.py, with its `re.sub` of
-- `(## section\n)(.*?)(?=\n## |\Z)`, where `re.escape` makes the section match itself.
pub mod Laws
pub mod Writes
use bulletfarm.Prelude.{
  Bool, ℕ, zero, suc, ◌-◌, String, ◌<>◌, ◌==◌, count_text, if◌then◌else◌, none, some,
}
use bulletfarm.Prelude.Exec.{
  Exn, ExnKind, file_not_found, Result, pure, raise, attempt, ◌>>=◌, ◌>>◌,
}
use bulletfarm.Prelude.Find.{strip_prefix, starts_text, contains_text, find_first}
use bulletfarm.Outside.{Call, Act, Machine, call}

-- What `re.sub` does with a replacement text: an error, or what it puts in for a match with the two
-- groups given. A backslash has a meaning there.
abbrev pub Templates : Type 0
Templates = String → Result (String → String → String)

-- Between two matches, inside the first group with so many characters still to come, or inside the
-- second group after the text that it has so far.
pub data Mode : Type 0 where
  copying : Mode
  in_header : ℕ → Mode
  in_body : String → Mode

abbrev pub header_of : String → String
header_of section = "## " <> section <> "\n"

-- `(?=\n## |\Z)` where a text is left
abbrev pub body_ends : String → Bool
body_ends s = starts_text "\n## " s

-- `re.sub` with `header` for the first group and `put` for the replacement. A header does not begin
-- with a line break, so none begins where a body ends.
module _ (header : String) (put : String → String → String) where
  unfoldable pub substitute : Mode → String → String
  unfolding strip_prefix count_text
  substitute copying String.[] = ""
  substitute (in_header n) String.[] = put header ""
  substitute (in_body body) String.[] = put header body
  substitute copying (String.◌∷◌ c s) =
      if starts_text header (String.◌∷◌ c s)
      then substitute (in_header (count_text header - 1)) s
      else String.◌∷◌ c (substitute copying s)
  substitute (in_header (suc n)) (String.◌∷◌ c s) = substitute (in_header n) s
  substitute (in_header zero) (String.◌∷◌ c s) =
      if body_ends (String.◌∷◌ c s)
      then put header "" <> String.◌∷◌ c (substitute copying s)
      else substitute (in_body (String.◌∷◌ c "")) s
  substitute (in_body body) (String.◌∷◌ c s) =
      if body_ends (String.◌∷◌ c s)
      then put header body <> String.◌∷◌ c (substitute copying s)
      else substitute (in_body (body <> String.◌∷◌ c "")) s

-- The text of a section, as it is written anew.
abbrev pub section_text : String → String → String
section_text section content = header_of section <> content <> "\n"

module _ (m : Machine) (templates : Templates) where
  -- The document, empty where there is no file
  unfoldable pub missing_as_empty : ExnKind → Exn → Act String
  missing_as_empty file_not_found e = pure ""
  missing_as_empty _ e = raise e

  unfoldable pub read_existing : String → Act String
  unfolding missing_as_empty
  read_existing file_path =
      attempt (call m.read_file (Call.read_file file_path)) (λ e. missing_as_empty e.kind e)

  -- `existing` with the section replaced, or appended where the document does not have it
  unfoldable pub updated : String → String → String → Act String
  unfolding find_first substitute
  updated section content existing =
      if contains_text ("## " <> section) existing
      then (do
        put ← λ h. (templates (section_text section content), h)
        pure (substitute (header_of section) put copying existing))
      else pure (existing <> ("\n" <> section_text section content))

  unfoldable pub write_document : String → String → String → Act String
  write_document file_path section document = do
    call m.write_file (Call.write_file file_path document)
    pure ("Updated section '" <> section <> "' in " <> file_path)

  unfoldable pub rewrite : String → String → String → Act String
  unfolding read_existing updated write_document
  rewrite file_path section content = do
    existing ← read_existing file_path
    document ← updated section content existing
    write_document file_path section document

  unfoldable pub doc_update : String → String → String → Act String
  unfolding rewrite
  doc_update file_path section content =
      attempt (rewrite file_path section content) (λ e. pure ("Error updating docs: " <> e.message))
