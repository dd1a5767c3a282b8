-- ===== src/Memory/Schema.antt =====
-- What a document is that fits the index it is for, by the two mappings of memory.py.
use bulletfarm.Prelude.{
  all, String, Bool, true, false, ◌&&◌, ◌||◌, Option, none, some, List, [], ◌∷◌, ◌==◌,
}
use bulletfarm.Prelude.Dict.{Dict, get}
use bulletfarm.Outside.{Value, text, number, flag, texts, time, null, Doc}
use bulletfarm.Memory.Buffer.{task_memory_index, shared_memory_index}
use bulletfarm.Memory.Store.{task_memory_mapping, shared_memory_mapping}

is_words : String → Bool
is_words type = type == "keyword" || type == "text"

-- The types of fields that take a value: a list is one for each of its elements.
unfoldable pub fits_type : Value → String → Bool
unfolding is_words
fits_type (text s) type = is_words type
fits_type (texts l) type = is_words type
fits_type (flag b) type = type == "boolean"
fits_type (time t) type = type == "date"
fits_type (number n) type = false
fits_type null type = false

fits_option : Value → Option String → Bool
unfolding fits_type
fits_option v none = true
fits_option v (some type) = fits_type v type

-- Each field that the mapping declares has a value of its type; others may have any.
unfoldable pub fits : Dict String → Doc → Bool
unfolding fits_option get
fits mapping doc = all (λ f. fits_option f.1 (get mapping f.0)) doc

is_some : Option Value → Bool
is_some none = false
is_some (some v) = true

unfoldable pub has_fields : Doc → List String → Bool
unfolding is_some get
has_fields doc names = all (λ name. is_some (get doc name)) names

unfoldable pub says : String → Option Value → Bool
says s (some (text t)) = t == s
says s _ = false

-- A document of that task for the task memory, with the fields that every such document has.
unfoldable pub is_task_document : String → Doc → Bool
unfolding fits has_fields says
is_task_document task_id doc =
    says task_memory_index (get doc "_index")
    && says "index" (get doc "_op_type")
    && says task_id (get doc "task_id")
    && fits task_memory_mapping doc
    && has_fields doc
        ("agent_ref" ∷ "repository" ∷ "prompt" ∷ "skills_used" ∷ "phase" ∷ "timestamp" ∷ [])

-- A document for the shared memory, with all the fields of its mapping.
unfoldable pub is_shared_document : Doc → Bool
unfolding fits has_fields says
is_shared_document doc =
    says shared_memory_index (get doc "_index")
    && says "index" (get doc "_op_type")
    && fits shared_memory_mapping doc
    && has_fields doc ("summary" ∷ "context" ∷ "skills" ∷ "repository" ∷ "timestamp" ∷ [])
