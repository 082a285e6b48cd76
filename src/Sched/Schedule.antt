-- ===== src/Sched/Schedule.antt =====
-- The running of tasks in temp/kernel/sched/core.c: the wake-up of a task, the timer interrupt, the
-- yield and __schedule. The methods of the classes other than TS are arguments. Left out: the clock,
-- the locks, the statistics, the load accounts, workqueue notices and the context switch itself.
pub mod Yield
pub mod Wake
use kenrel_learning.Common.{
  ℕ, ◌+◌, ◌==◌, bit_and, Bool, true, false, not, ◌&&◌, Option, none, some, if◌then◌else◌,
}
use kenrel_learning.ListHead.{ListApi}
use kenrel_learning.Sched.Task.{Rq, SchedClass, ts_sched_class}
use kenrel_learning.Sched.Ts.{task_tick_ts, yield_task_ts, ◌>>=◌}
use kenrel_learning.Sched.PickNext.{
  Others, Outcome, next, bug, spins, Pick, null, retry, task, pick_next_task, check_preempt_curr,
}
use kenrel_learning.Sched.Change.{Methods, enqueue_task, dequeue_task}

-- Further methods of the classes other than TS; the TS class has no task_woken.
pub record Ticks (L : ListApi) : Type 0 where
  pub task_tick : SchedClass → Rq L → ℕ → Option (Rq L)
  pub yield_task : SchedClass → Rq L → Option (Rq L)
  pub task_woken : SchedClass → Rq L → ℕ → Rq L

-- ENQUEUE_WAKEUP | ENQUEUE_NOCLOCK, and with ENQUEUE_MIGRATED if the flag 0x4, WF_MIGRATED, is set.
abbrev pub wakeup_flags : ℕ → ℕ
wakeup_flags wake_flags = if bit_and wake_flags 0x4 == 0 then 0x01 + 0x08 else 0x01 + 0x08 + 0x40

module _ {L : ListApi} (m : Methods L) (o : Others L) (k : Ticks L) where
  unfoldable pub scheduler_tick : Rq L → Option (Rq L)
  scheduler_tick rq = elim (rq.tasks rq.curr).sched_class [
    | ts_sched_class ↦ task_tick_ts rq rq.curr false
    | c ↦ k.task_tick c rq rq.curr
  ]

  unfoldable pub activate_task : Rq L → ℕ → ℕ → Option (Rq L)
  activate_task rq p flags = enqueue_task m rq p flags

  unfoldable pub deactivate_task : Rq L → ℕ → ℕ → Rq L
  deactivate_task rq p flags = dequeue_task m rq p flags

  unfoldable pub woken : Rq L → ℕ → Rq L
  woken rq p = elim (rq.tasks p).sched_class [ ts_sched_class ↦ rq | c ↦ k.task_woken c rq p ]

  unfoldable pub ttwu_do_wakeup : Rq L → ℕ → ℕ → Rq L
  ttwu_do_wakeup rq p wake_flags = woken (check_preempt_curr o rq p wake_flags) p

  unfoldable pub ttwu_do_activate : Rq L → ℕ → ℕ → Option (Rq L)
  ttwu_do_activate rq p wake_flags = do
    rq' ← activate_task rq p (wakeup_flags wake_flags)
    some (ttwu_do_wakeup rq' p wake_flags)

  -- 0x08 is ENQUEUE_NOCLOCK, 0x02 is WF_FORK.
  unfoldable pub wake_up_new_task : Rq L → ℕ → Option (Rq L)
  wake_up_new_task rq p = do
    rq' ← activate_task rq p 0x08
    some (woken (check_preempt_curr o rq' p 0x02) p)

  -- What __schedule does with the choice of pick_next_task.
  abbrev pub switch_to : Outcome L → Outcome L
  switch_to (next rq (task q)) = next (record rq { need_resched = false; curr = q }) (task q)
  switch_to (next rq _) = bug
  switch_to bug = bug
  switch_to spins = spins

  -- `sleeps` says that the task that runs is not in the state TASK_RUNNING and that no signal is
  -- pending for it. 0x09 is DEQUEUE_SLEEP | DEQUEUE_NOCLOCK.
  unfoldable pub schedule : ℕ → Rq L → Bool → Bool → Outcome L
  schedule fuel rq preempt sleeps =
      let rq' = if not preempt && sleeps then deactivate_task rq rq.curr 0x09 else rq in
      switch_to (pick_next_task o fuel rq' rq.curr)

  unfoldable pub yield_task : Rq L → Option (Rq L)
  yield_task rq = elim (rq.tasks rq.curr).sched_class [
    | ts_sched_class ↦ yield_task_ts rq
    | c ↦ k.yield_task c rq
  ]

  unfoldable pub do_sched_yield : ℕ → Rq L → Option (Outcome L)
  do_sched_yield fuel rq = do rq' ← yield_task rq; some (schedule fuel rq' false false)
