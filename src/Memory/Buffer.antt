-- ===== src/Memory/Buffer.antt =====
-- `MemoryWriteBuffer` of memory.py. A method that changes the object returns the changed one.
use bulletfarm.Prelude.{ℕ, ◌-◌, ◌*◌, String, Bool, ◌&&◌, List, [], ◌∷◌, ◌++◌, ltb, length}
use bulletfarm.Prelude.Dict.{update}
use bulletfarm.Prelude.Exec.{pure, ◌>>=◌}
use bulletfarm.Outside.{Doc, text, time, Act, Host, read_clock}

abbrev pub task_memory_index : String
task_memory_index = "task_memory"

abbrev pub shared_memory_index : String
shared_memory_index = "shared_memory"

pub record MemoryWriteBuffer : Type 0 where
  pub task_id : String
  pub task_memory_docs : List Doc
  pub shared_memory_docs : List Doc
  pub start_time : ℕ
  pub last_flush_time : ℕ

module _ (host : Host) where
  -- `__init__`, which `create_buffer` calls
  unfoldable pub create_buffer : String → Act MemoryWriteBuffer
  create_buffer task_id = do
    start ← read_clock host
    pure (record {
      task_id = task_id;
      task_memory_docs = [];
      shared_memory_docs = [];
      start_time = start;
      last_flush_time = start;
    })

  unfoldable pub add_task_memory : MemoryWriteBuffer → Doc → Act MemoryWriteBuffer
  add_task_memory b doc = do
    stamp ← read_clock host
    let doc_with_metadata =
        update
          (("_index", text task_memory_index)
            ∷ ("_op_type", text "index")
            ∷ ("task_id", text b.task_id)
            ∷ ("timestamp", time stamp)
            ∷ [])
          doc
    pure (record b { task_memory_docs = b.task_memory_docs ++ (doc_with_metadata ∷ []) })

  unfoldable pub add_shared_memory : MemoryWriteBuffer → Doc → Act MemoryWriteBuffer
  add_shared_memory b doc = do
    stamp ← read_clock host
    let doc_with_metadata =
        update
          (("_index", text shared_memory_index)
            ∷ ("_op_type", text "index")
            ∷ ("timestamp", time stamp)
            ∷ [])
          doc
    pure (record b { shared_memory_docs = b.shared_memory_docs ++ (doc_with_metadata ∷ []) })

  -- Both differences are of two clock readings; one that is negative is no more than the bound.
  unfoldable pub should_flush_intermediate : MemoryWriteBuffer → ℕ → Act Bool
  should_flush_intermediate b max_runtime_seconds = do
    first ← read_clock host
    let elapsed = first - b.start_time
    second ← read_clock host
    let time_since_last_flush = second - b.last_flush_time
    let limit = max_runtime_seconds * 1_000_000
    pure (ltb limit elapsed && ltb limit time_since_last_flush)

  unfoldable pub clear : MemoryWriteBuffer → Act MemoryWriteBuffer
  clear b = do
    stamp ← read_clock host
    pure (record b { task_memory_docs = []; shared_memory_docs = []; last_flush_time = stamp })

unfoldable pub get_buffered_count : MemoryWriteBuffer → ℕ × ℕ
get_buffered_count b = (length b.task_memory_docs, length b.shared_memory_docs)
