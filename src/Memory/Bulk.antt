-- ===== src/Memory/Bulk.antt =====
-- `bulk_write` of memory.py. It reads the buffer and does not change it.
pub mod Laws
use bulletfarm.Prelude.{
  ℕ, String, Option, none, some, List, [], ◌∷◌, ◌++◌, map, length, is_empty, if◌then◌else◌,
}
use bulletfarm.Prelude.Exec.{Exn, pure, attempt, ◌>>=◌, ◌>>◌}
use bulletfarm.Outside.{
  Doc, FailedEntry, FailedItem, BulkOutcome, listed, counted, Call, Act, Elastic, call,
}
use bulletfarm.Memory.Buffer.{MemoryWriteBuffer, task_memory_index, shared_memory_index}
use bulletfarm.Memory.Store.{ensure_index, task_memory_mapping, shared_memory_mapping}

-- An element of `errors`: that of a failed item, or `{"error": str(exc), "type": "bulk_exception"}`.
pub data BulkError : Type 0 where
  item_error : String → Doc → ℕ → BulkError
  bulk_exception : String → BulkError

pub record BulkWriteResult : Type 0 where
  pub success_count : ℕ
  pub failed_count : ℕ
  pub errors : List BulkError

-- `d.get(key, default)`
abbrev get_or {ℓ} : {A : Type ℓ} → Option A → A → A
get_or none default = default
get_or (some a) default = a

unfoldable pub error_info : FailedItem → BulkError
error_info none = item_error "unknown" [] 0
error_info (some entry) =
    item_error (get_or entry.index "unknown") (get_or entry.error []) (get_or entry.status 0)

-- What the `try` makes of the result of `helpers.bulk`.
unfoldable pub tally : BulkOutcome → BulkWriteResult
unfolding error_info
tally (listed success_count failed_items) = record {
  success_count = success_count;
  failed_count = length failed_items;
  errors = map error_info failed_items;
}
tally (counted success_count) = record {
  success_count = success_count;
  failed_count = 0;
  errors = [];
}

abbrev pub all_docs : MemoryWriteBuffer → List Doc
all_docs buffer = buffer.task_memory_docs ++ buffer.shared_memory_docs

module _ (es : Elastic) where
  -- The `try` of `bulk_write`.
  unfoldable pub send : List Doc → Act BulkWriteResult
  unfolding tally
  send docs =
      attempt (do outcome ← call es.bulk (Call.bulk docs); pure (tally outcome))
        (λ exc. pure (record {
          success_count = 0;
          failed_count = length docs;
          errors = bulk_exception exc.message ∷ [];
        }))

  unfoldable pub bulk_write : MemoryWriteBuffer → Act BulkWriteResult
  unfolding send
  bulk_write buffer = do
    ensure_index es task_memory_index task_memory_mapping
    ensure_index es shared_memory_index shared_memory_mapping
    if is_empty (all_docs buffer)
        then pure (record { success_count = 0; failed_count = 0; errors = [] })
        else send (all_docs buffer)
