-- ===== src/Agent/Resends.antt =====
-- What the intermediate flushes of agent.py send, after the first five minutes: the words for it.
pub mod Sends
pub mod Starts
use bulletfarm.Prelude.{
  ℕ, zero, suc, ◌+◌, ◌-◌, ◌*◌, ◌≤◌, ◌<◌, String, ◌≡◌, refl, sym, ap, ◌∙◌, Bool, true, false, ◌&&◌,
  none, some, List, [], ◌∷◌, ◌++◌, length, length-append, length_of_is_empty, is_empty, ltb, arith,
  if◌then◌else◌,
}
use bulletfarm.Prelude.Dict.{Dict}
use bulletfarm.Prelude.Exec.{Result, ok, raised, pure, attempt, ◌>>=◌, ◌>>◌}
use bulletfarm.Prelude.Triple.{
  Triple, Ends, Always, Keeps, Ends-Always, Triple-bind, Triple-if, Triple-attempt, Triple-pure,
  keeps_rules, Keeps-pure, Triple-weaken,
}
use bulletfarm.Prelude.Total.{Triple-Total}
use bulletfarm.Agent.Total.{ensure_index-Total, bulk_write-Total}
use mathlib.Core.Path.{subst}
use bulletfarm.Outside.{
  Doc, StreamEvent, on_tool_start, on_tool_end, on_other, on_chat_model_end, Call, History, Elastic,
  Host, call,
}
use bulletfarm.Memory.Buffer.{
  MemoryWriteBuffer, task_memory_index, shared_memory_index, add_task_memory,
  should_flush_intermediate,
}
use bulletfarm.Memory.Bulk.{all_docs, send, bulk_write}
use bulletfarm.Memory.Store.{ensure_index, task_memory_mapping, shared_memory_mapping}
use bulletfarm.Agent.Session.{World, Session, Run, lift, get_buffer, buffer_task_memory}
use bulletfarm.Agent.Loop.{intermediate_doc, flush_if_due, handle_events}

-- The sizes of the bulk calls, latest first.
abbrev pub bulk_size : Call → List ℕ
bulk_size (Call.bulk docs) = length docs ∷ []
bulk_size _ = []

abbrev pub bulk_sizes : History → List ℕ
bulk_sizes [] = []
bulk_sizes (c ∷ h) = bulk_size c ++ bulk_sizes h

-- The tools that a stream starts.
abbrev pub starts : List StreamEvent → ℕ
starts [] = 0
starts (on_tool_start ∷ events) = suc (starts events)
starts (_ ∷ events) = starts events

-- The sizes after `k` more bulk calls, each of one document more, from a buffer of `n`.
abbrev pub resent : ℕ → ℕ → List ℕ → List ℕ
resent n zero sizes = sizes
resent n (suc k) sizes = resent (suc n) k (suc n ∷ sizes)

-- The clock never goes back.
pub record IsForward (host : Host) : Type 0 where
  pub forward : (c : Call) (h : History) → host.now h ≤ host.now (c ∷ h)

-- The bulk calls so far have the sizes `sizes`, and the clock is at `t` or later.
pub record At (host : Host) (t : ℕ) (sizes : List ℕ) (h : History) : Type 0 where
  pub sent : bulk_sizes h ≡ sizes
  pub late : t ≤ host.now h
