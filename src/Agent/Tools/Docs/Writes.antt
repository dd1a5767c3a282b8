-- ===== src/Agent/Tools/Docs/Writes.antt =====
-- What `doc_update` of agent.py writes to its file.
use bulletfarm.Prelude.{String, ◌<>◌, ◌≡◌, refl, ap, ◌∙◌, true, false, ◌∷◌}
use bulletfarm.Prelude.Exec.{ok, ◌>>=◌}
use bulletfarm.Prelude.Exec.Laws.{state-attempt, state-bind_pure, bind-ok}
use bulletfarm.Prelude.Find.{contains_text}
use bulletfarm.Outside.{Call, History, Machine, call}
use bulletfarm.Agent.Tools.Docs.{
  copying, header_of, section_text, substitute, updated, read_existing, write_document, rewrite,
  doc_update, Templates,
}
use bulletfarm.Agent.Tools.Docs.Laws.{substitute-absent}

-- What the documentation of `re.sub` says of a replacement text with no backslash: it stands for
-- itself.
pub record IsLiteral (templates : Templates) : Type 0 where
  pub literal : (t : String) → contains_text "\\" t ≡ false → templates t ≡ ok (λ header body. t)

module _ (m : Machine) (templates : Templates) (file_path section content existing : String)
    (h : History) where
  abbrev Calls : History
  Calls = (doc_update m templates file_path section content h).1

  abbrev Read : History
  Read = Call.read_file file_path ∷ h

  write_document-calls :
      (document : String)
      → (write_document m templates file_path section document Read).1
        ≡ Call.write_file file_path document ∷ Read
  unfolding write_document
  write_document-calls document =
      state-bind_pure (call m.write_file (Call.write_file file_path document))
        (λ _. "Updated section '" <> section <> "' in " <> file_path) Read

  read_existing-ok :
      m.read_file Read ≡ ok existing → read_existing m templates file_path h ≡ (ok existing, Read)
  unfolding read_existing
  read_existing-ok reads = rw (reads, read_existing) refl

  rewrite-document :
      (document : String)
      → m.read_file Read ≡ ok existing
      → updated m templates section content existing Read ≡ (ok document, Read)
      → rewrite m templates file_path section content h
        ≡ write_document m templates file_path section document Read
  unfolding rewrite
  rewrite-document document reads e =
      let write = write_document m templates file_path section in
      bind-ok (read_existing m templates file_path)
        (λ text. updated m templates section content text >>= write) h existing Read
        (read_existing-ok reads)
      ∙ bind-ok (updated m templates section content existing) write Read document Read e

  doc_update-calls :
      (document : String)
      → m.read_file Read ≡ ok existing
      → updated m templates section content existing Read ≡ (ok document, Read)
      → Calls ≡ Call.write_file file_path document ∷ Read
  unfolding doc_update
  doc_update-calls document reads e =
      state-attempt (rewrite m templates file_path section content)
        (λ exc. "Error updating docs: " <> exc.message) h
      ∙ rw (rewrite-document document reads e) (write_document-calls document)

  updated-found :
      (put : String → String → String)
      → contains_text ("## " <> section) existing ≡ true
      → templates (section_text section content) ≡ ok put
      → updated m templates section content existing Read
        ≡ (ok (substitute (header_of section) put copying existing), Read)
  unfolding updated
  updated-found put has t = rw (has, updated, t) refl

  module _ (lit : IsLiteral templates) where
    -- A document that has `## section` somewhere, as the start of a longer heading, but has no line
    -- of that heading alone: it is written back as it was, and the content goes nowhere.
    pub doc_update_drops :
        m.read_file Read ≡ ok existing
        → contains_text "\\" (section_text section content) ≡ false
        → contains_text ("## " <> section) existing ≡ true
        → contains_text (header_of section) existing ≡ false
        → Calls ≡ Call.write_file file_path existing ∷ Read
    doc_update_drops reads plain has no_line =
        let put : String → String → String = λ header body. section_text section content in
        doc_update-calls existing reads (
          updated-found put has (lit.literal _ plain)
          ∙ ap (λ d. (ok d, Read)) (substitute-absent (header_of section) put existing no_line))
