-- ===== src/Agent/Resends/Sends.antt =====
-- One bulk write of memory.py, by its size and the clock.
use bulletfarm.Prelude.{
  ℕ, suc, String, ◌≡◌, refl, ap, List, [], ◌∷◌, length, length_of_is_empty, is_empty, arith,
}
use bulletfarm.Prelude.Dict.{Dict}
use bulletfarm.Prelude.Exec.{Result}
use bulletfarm.Prelude.Triple.{
  Triple, Always, Keeps, Ends-Always, Triple-bind, Triple-if, Triple-attempt, keeps_rules,
  Keeps-pure, Triple-weaken,
}
use bulletfarm.Prelude.Total.{Triple-Total}
use bulletfarm.Agent.Total.{bulk_write-Total}
use mathlib.Core.Path.{subst}
use bulletfarm.Outside.{Doc, Call, History, Elastic, Host, call}
use bulletfarm.Memory.Buffer.{MemoryWriteBuffer, task_memory_index, shared_memory_index}
use bulletfarm.Memory.Bulk.{all_docs, send, bulk_write}
use bulletfarm.Memory.Store.{ensure_index, task_memory_mapping, shared_memory_mapping}
use bulletfarm.Agent.Resends.{bulk_size, IsForward, At}

module _ (host : Host) (fw : IsForward host) (t : ℕ) where
  pub later :
      (sizes : List ℕ) (c : Call) (h : History)
      → bulk_size c ≡ []
      → At host t sizes h
      → At host t sizes (c ∷ h)
  later sizes c h e p = record {
    sent = rw e p.sent;
    late = (let before = p.late in let step = fw.forward c h in omega arith);
  }

  call-At :
      {A : Type 0} (sizes : List ℕ) (answer : History → Result A) (c : Call)
      → bulk_size c ≡ []
      → Keeps (At host t sizes) (call answer c)
  call-At sizes answer c e = record {
    at = λ h p. Ends-Always (At host t sizes) (answer (c ∷ h)) (c ∷ h) (later sizes c h e p);
  }

  bulk-At :
      {A : Type 0} (sizes : List ℕ) (answer : History → Result A) (docs : List Doc)
      → Triple
          (At host t sizes)
          (call answer (Call.bulk docs))
          (Always (At host t (length docs ∷ sizes)))
          (At host t (length docs ∷ sizes))
  bulk-At sizes answer docs = record {
    at = λ h p.
        Ends-Always (At host t (length docs ∷ sizes)) (answer (Call.bulk docs ∷ h))
          (Call.bulk docs ∷ h)
          (record {
            sent = ap (◌∷◌ (length docs)) p.sent;
            late = (let before = p.late in let step = fw.forward (Call.bulk docs) h in omega arith);
          });
  }

  module _ (es : Elastic) where
    ensure_index-At :
        (sizes : List ℕ) (index : String) (mapping : Dict String)
        → Keeps (At host t sizes) (ensure_index es index mapping)
    unfolding ensure_index
    ensure_index-At sizes index mapping = search (keeps_rules, call-At, refl) depth 9

    send-At :
        (sizes : List ℕ) (docs : List Doc)
        → Triple
            (At host t sizes)
            (send es docs)
            (Always (At host t (length docs ∷ sizes)))
            (At host t (length docs ∷ sizes))
    unfolding send
    send-At sizes docs =
        let After = At host t (length docs ∷ sizes) in
        Triple-attempt (At host t sizes) _ (Always After) After After _
          (Triple-bind (At host t sizes) (call es.bulk (Call.bulk docs)) (Always After) _
            (Always After) After (bulk-At sizes es.bulk docs) (λ outcome. Keeps-pure _))
          (λ exc. Keeps-pure _)

    abbrev Whatever : History → Type 0
    Whatever h = Unit

    ensured :
        (sizes : List ℕ) (index : String) (mapping : Dict String)
        → Triple
            (At host t sizes)
            (ensure_index es index mapping)
            (Always (At host t sizes))
            Whatever
    ensured sizes index mapping =
        Triple-weaken (At host t sizes) (At host t sizes) _ (Always (At host t sizes))
          (Always (At host t sizes)) (At host t sizes) Whatever (λ h p. p) (λ a h p. p) (λ h p. tt)
          (ensure_index-At sizes index mapping)

    sent :
        (sizes : List ℕ) (n : ℕ) (docs : List Doc)
        → length docs ≡ n
        → Triple (At host t sizes) (send es docs) (Always (At host t (n ∷ sizes))) Whatever
    sent sizes n docs e =
        let After = At host t (length docs ∷ sizes) in
        Triple-weaken (At host t sizes) (At host t sizes) _ (Always After)
          (Always (At host t (n ∷ sizes))) After Whatever (λ h p. p)
          (λ a h p. subst (λ k. At host t (k ∷ sizes) h) e p) (λ h p. tt) (send-At sizes docs)

    -- A buffer that is not empty is sent whole.
    pub bulk_write-At :
        (n : ℕ) (sizes : List ℕ) (b : MemoryWriteBuffer)
        → length (all_docs b) ≡ suc n
        → Triple (At host t sizes) (bulk_write es b) (Always (At host t (suc n ∷ sizes))) (λ _. ⊥)
    unfolding bulk_write
    bulk_write-At n sizes b e =
        let After = At host t (suc n ∷ sizes) in
        Triple-Total (At host t sizes) (bulk_write es b) (Always After) Whatever
          (bulk_write-Total es b)
          (Triple-bind (At host t sizes) _ (Always (At host t sizes)) _ (Always After) Whatever
            (ensured sizes task_memory_index task_memory_mapping)
            (λ _.
              Triple-bind (At host t sizes) _ (Always (At host t sizes)) _ (Always After) Whatever
                (ensured sizes shared_memory_index shared_memory_mapping)
                (λ _.
                  Triple-if (At host t sizes) (Always After) Whatever (is_empty (all_docs b)) _ _
                    (λ empty.
                      absurd (let none_held = length_of_is_empty (all_docs b) empty in omega arith))
                    (λ _. sent sizes (suc n) (all_docs b) e))))
