-- ===== src/Memory/Calls.antt =====
-- Kinds of calls in a history, and what `ensure_index` leaves alone.
use bulletfarm.Prelude.{String, ◌≡◌, refl, Bool, true, false, arith, keep}
use bulletfarm.Prelude.Dict.{Dict}
use bulletfarm.Prelude.Exec.{ok, ◌>>◌}
use bulletfarm.Outside.{Call, Act, History, Elastic}
use bulletfarm.Memory.Buffer.{task_memory_index, shared_memory_index}
use bulletfarm.Memory.Store.{ensure_index, task_memory_mapping, shared_memory_mapping}

abbrev pub is_search : Call → Bool
is_search (Call.search _) = true
is_search _ = false

abbrev pub is_sleep : Call → Bool
is_sleep (Call.sleep_ms _) = true
is_sleep _ = false

abbrev pub is_bulk : Call → Bool
is_bulk (Call.bulk _) = true
is_bulk _ = false

-- A call that changes documents.
abbrev pub is_write : Call → Bool
is_write (Call.index_doc _ _) = true
is_write (Call.delete_by_query _ _) = true
is_write (Call.bulk _) = true
is_write _ = false

-- A kind of call that `ensure_index` does not make.
abbrev pub IsOther : (Call → Bool) → Type 0
IsOther p =
    ((i : String) → p (Call.index_exists i) ≡ false)
    × ((i : String) (m : Dict String) → p (Call.index_create i m) ≡ false)

pub search-IsOther : IsOther is_search
search-IsOther = (λ i. refl, λ i m. refl)

pub sleep-IsOther : IsOther is_sleep
sleep-IsOther = (λ i. refl, λ i m. refl)

pub bulk-IsOther : IsOther is_bulk
bulk-IsOther = (λ i. refl, λ i m. refl)

pub write-IsOther : IsOther is_write
write-IsOther = (λ i. refl, λ i m. refl)

module _ (es : Elastic) (index : String) (mapping : Dict String) (h : History) where
  -- A failure to look up or to create an index is swallowed.
  pub ensure_index-ok : (ensure_index es index mapping h).0 ≡ ok tt
  unfolding ensure_index
  ensure_index-ok = ground arith

  pub keep-ensure_index :
      (p : Call → Bool) → IsOther p → keep p (ensure_index es index mapping h).1 ≡ keep p h
  unfolding ensure_index
  keep-ensure_index p other = ground (arith, other.0 index, other.1 index mapping)

-- What comes after `ensure_index` always runs.
pub ensure_index-bind :
    {B : Type 0} (es : Elastic) (index : String) (mapping : Dict String) (k : Act B) (h : History)
    → (ensure_index es index mapping >> k) h ≡ k (ensure_index es index mapping h).1
ensure_index-bind es index mapping k h = ground (arith, ensure_index-ok es index mapping h)

-- The history after both indices were ensured, as the searches and `bulk_write` do first.
abbrev pub both_indices : Elastic → History → History
both_indices es h =
    (ensure_index es shared_memory_index shared_memory_mapping
      (ensure_index es task_memory_index task_memory_mapping h).1).1

pub keep-both_indices :
    (es : Elastic) (p : Call → Bool)
    → IsOther p
    → (h : History) → keep p (both_indices es h) ≡ keep p h
keep-both_indices es p other h = cc (
  keep-ensure_index es task_memory_index task_memory_mapping h p other,
  keep-ensure_index es shared_memory_index shared_memory_mapping
      (ensure_index es task_memory_index task_memory_mapping h).1 p other,
)
