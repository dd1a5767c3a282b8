-- ===== src/Service/Operator/Reconcile/Update.antt =====
-- How a handler of agenttask_controller.go returns: with or without an update of the status.
use bulletfarm.Prelude.{List, [], if◌then◌else◌}
use bulletfarm.Service.Operator.Task.{AgentTaskStatus, AgentTask, Answers, PodCall, Next, Outcome}

module _ (task : AgentTask) (answers : Answers) where
  -- `_ = r.Status().Update(ctx, task)`: the new status, or the old one where the update fails.
  abbrev pub store : AgentTaskStatus → AgentTaskStatus
  store status = if answers.updated then status else task.status

  -- An update whose error is ignored, then a return.
  abbrev pub write : AgentTaskStatus → List PodCall → Next → Outcome
  write status calls next = record { status = store status; calls = calls; next = next }

  -- An update whose error is returned.
  abbrev pub write_or_error : AgentTaskStatus → List PodCall → Next → Outcome
  write_or_error status calls next = record {
    status = store status;
    calls = calls;
    next = if answers.updated then next else Next.error;
  }

  -- A return without an update.
  abbrev pub leave : Next → Outcome
  leave next = record { status = task.status; calls = []; next = next }
