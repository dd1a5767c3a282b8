-- ===== src/Memory/Bulk/Laws.antt =====
-- The counts that `bulk_write` reports, and what it sends.
use bulletfarm.Prelude.{
  ℕ, ◌+◌, ◌≡◌, List, ◌∷◌, refl, arith, keep, length, is_empty, inl, inr, length_of_is_empty,
  Bool-cases, if◌then◌else◌,
}
use bulletfarm.Prelude.Exec.{Result, ok, raised}
use bulletfarm.Outside.{Doc, BulkOutcome, listed, counted, Call, History, Elastic}
use bulletfarm.Memory.Buffer.{MemoryWriteBuffer, task_memory_index, shared_memory_index}
use bulletfarm.Memory.Calls.{
  is_bulk, bulk-IsOther, ensure_index-bind, both_indices, keep-both_indices,
}
use bulletfarm.Memory.Store.{task_memory_mapping, shared_memory_mapping}
use bulletfarm.Memory.Bulk.{BulkWriteResult, tally, all_docs, send, bulk_write}

-- What `helpers.bulk` documents for `stats_only=False`: it returns the number of documents indexed
-- and the list of those that failed, and every document given is one or the other.
abbrev pub Accounts : List Doc → BulkOutcome → Type 0
Accounts docs (listed done failed) = done + length failed ≡ length docs
Accounts docs (counted done) = ⊥

pub record IsAccounting (es : Elastic) : Type 0 where
  pub accounts :
      (h : History) (docs : List Doc) (o : BulkOutcome)
      → es.bulk (Call.bulk docs ∷ h) ≡ ok o
      → Accounts docs o

-- A call that returned a result whose counts add up to `n`, and made the bulk calls `sent`.
abbrev pub Counted : ℕ → List Call → Result BulkWriteResult × History → Type 0
Counted n sent (ok out, h') = (out.success_count + out.failed_count ≡ n) × (keep is_bulk h' ≡ sent)
Counted n sent (raised e, h') = ⊥

module _ (es : Elastic) (a : IsAccounting es) where
  tally-Counted :
      (docs : List Doc) (o : BulkOutcome) (h : History)
      → Accounts docs o
      → Counted (length docs) (keep is_bulk h) (ok (tally o), h)
  unfolding tally
  tally-Counted docs (listed done failed) h e = (e, refl)
  tally-Counted docs (counted done) h e = absurd e

  send-Counted :
      (docs : List Doc) (h : History) (before : List Call) (r : Result BulkOutcome)
      → keep is_bulk h ≡ before
      → es.bulk (Call.bulk docs ∷ h) ≡ r
      → Counted (length docs) (Call.bulk docs ∷ before) (send es docs h)
  unfolding send
  send-Counted docs h before (ok o) kept e =
      ground (arith, tally-Counted docs o (Call.bulk docs ∷ h) (a.accounts h docs o e))
  send-Counted docs h before (raised x) kept e = ground arith

  -- `bulk_write` never raises. It makes one bulk call, with the task documents followed by the
  -- shared ones, if the buffer holds any document, and none if not. By what `helpers.bulk`
  -- documents, the two counts that it reports add up to the number of documents in the buffer, also
  -- where the bulk call raised.
  pub bulk_write_accounts :
      (b : MemoryWriteBuffer) (h : History)
      → Counted
          (length (all_docs b))
          (if is_empty (all_docs b)
            then keep is_bulk h
            else Call.bulk (all_docs b) ∷ keep is_bulk h)
          (bulk_write es b h)
  unfolding bulk_write
  bulk_write_accounts b h =
      rw
        (
          ensure_index-bind es task_memory_index task_memory_mapping,
          ensure_index-bind es shared_memory_index shared_memory_mapping,
        )
        (elim (Bool-cases (is_empty (all_docs b))) [
          | inl e ↦
              rw e (length_of_is_empty (all_docs b) e, keep-both_indices es is_bulk bulk-IsOther h)
          | inr e ↦ rw e (
              send-Counted (all_docs b) (both_indices es h) (keep is_bulk h) _
                (keep-both_indices es is_bulk bulk-IsOther h) refl)
        ])
