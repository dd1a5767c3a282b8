-- ===== src/Memory/Factory.antt =====
-- `MemoryStore` of memory.py, the interface that the agent and the routes are given, and its factory.
use bulletfarm.Prelude.{ℕ, String, Bool, Option, List}
use bulletfarm.Outside.{Value, Doc, IndexResult, Act, Elastic, Host}
use bulletfarm.Memory.Buffer
use bulletfarm.Memory.Buffer.{MemoryWriteBuffer}
use bulletfarm.Memory.Store
use bulletfarm.Memory.Search
use bulletfarm.Memory.Bulk
use bulletfarm.Memory.Bulk.{BulkWriteResult}
use bulletfarm.Memory.Graduate

pub record MemoryStore : Type 0 where
  pub store : String → Doc → Act IndexResult
  pub store_shared : String → String → Value → Value → Act IndexResult
  pub history : String → ℕ → Act (List Doc)
  pub search_shared : String → Option (List String) → ℕ → Act (List Doc)
  pub unified_search : String → Option (List String) → ℕ → Bool → Bool → Act (List Doc)
  pub delete_task_memory : String → Act ℕ
  pub get_task_result : String → Act (Option Doc)
  pub graduate_to_shared : String → String → Act Bool
  pub create_buffer : String → Act MemoryWriteBuffer
  pub bulk_write : MemoryWriteBuffer → Act BulkWriteResult

-- `create_memory_store`
unfoldable pub create_memory_store : Elastic → Host → MemoryStore
create_memory_store es host = record {
  store = Store.store_task_result es host;
  store_shared = Store.store_shared_knowledge es host;
  history = Store.get_task_history es;
  search_shared = Search.search_shared_knowledge es host;
  unified_search = Search.unified_search es host;
  delete_task_memory = Store.delete_task_memory es;
  get_task_result = Store.get_task_result es;
  graduate_to_shared = Graduate.graduate_to_shared es host;
  create_buffer = Buffer.create_buffer host;
  bulk_write = Bulk.bulk_write es;
}
