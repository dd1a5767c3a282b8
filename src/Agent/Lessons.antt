-- ===== src/Agent/Lessons.antt =====
-- The lessons for shared memory that a run of agent.py sends to Elasticsearch.
pub mod Whole
use bulletfarm.Prelude.{String, Bool, false, Option, none, some, List, ◌==◌}
use bulletfarm.Prelude.Dict.{get}
use bulletfarm.Outside.{Value, text, Doc, History}
use bulletfarm.Memory.Buffer.{shared_memory_index}
use bulletfarm.Agent.Writes.{picked}

abbrev names_shared : Option Value → Bool
names_shared (some (text index)) = index == shared_memory_index
names_shared _ = false

-- A document for the shared memory.
abbrev pub is_lesson : Doc → Bool
is_lesson doc = names_shared (get doc "_index")

-- The lessons that were sent, those of the latest call first.
abbrev pub lessons : History → List Doc
lessons h = picked is_lesson h
