-- ===== src/Sched/Change.antt =====
-- How temp/kernel/sched/core.c changes a task that may be queued or run: enqueue_task, dequeue_task,
-- check_class_changed, set_user_nice and rt_mutex_setprio. The methods of the classes other than TS
-- are an argument. `queued` is task_on_rq_queued(p); a task runs when it is `curr`. The clock, the
-- locks, the statistics and the balance callbacks are left out.
pub mod Dispatch
pub mod Nice
pub mod Access
use kenrel_learning.Common.{
  ℕ, ◌+◌, ◌==◌, ℤ, pos, negsuc, ltb_ℤ, Bool, true, false, not, ◌&&◌, ◌||◌, Option, none, some,
  if◌then◌else◌,
}
use kenrel_learning.ListHead.{ListApi}
use kenrel_learning.Sched.Task.{Task, Rq, SchedClass, ts_sched_class, update, resched_curr, eq_ℤ}
use kenrel_learning.Sched.Ts.{enqueue_task_ts, dequeue_task_ts, put_prev_task_ts, ◌>>=◌}
use kenrel_learning.Sched.Policy.{
  dl_policy, rt_policy, dl_prio, rt_prio, nice_to_prio, prio_to_nice, effective_prio,
  rt_effective_prio, setprio,
}
use kenrel_learning.Sched.PickNext.{is_class}

-- `none` is a failure inside a method, such as an index outside its array.
pub record Methods (L : ListApi) : Type 0 where
  pub enqueue_task : SchedClass → Rq L → ℕ → ℕ → Option (Rq L)
  pub dequeue_task : SchedClass → Rq L → ℕ → ℕ → Rq L
  pub put_prev_task : SchedClass → Rq L → ℕ → Rq L
  pub set_curr_task : SchedClass → Rq L → Rq L
  pub switched_from : SchedClass → Rq L → ℕ → Rq L
  pub switched_to : SchedClass → Rq L → ℕ → Rq L
  pub prio_changed : SchedClass → Rq L → ℕ → ℤ → Rq L

abbrev pub save_noclock : ℕ
save_noclock = 0x02 + 0x08

abbrev pub save_move_noclock : ℕ
save_move_noclock = 0x02 + 0x04 + 0x08

module _ {L : ListApi} (m : Methods L) where
  unfoldable pub enqueue_task : Rq L → ℕ → ℕ → Option (Rq L)
  enqueue_task rq p flags = elim (rq.tasks p).sched_class [
    | ts_sched_class ↦ enqueue_task_ts rq p flags
    | c ↦ m.enqueue_task c rq p flags
  ]

  unfoldable pub dequeue_task : Rq L → ℕ → ℕ → Rq L
  dequeue_task rq p flags = elim (rq.tasks p).sched_class [
    | ts_sched_class ↦ dequeue_task_ts rq p flags
    | c ↦ m.dequeue_task c rq p flags
  ]

  unfoldable pub put_prev : Rq L → ℕ → Rq L
  unfolding put_prev_task_ts
  put_prev rq p = elim (rq.tasks p).sched_class [
    | ts_sched_class ↦ put_prev_task_ts rq p
    | c ↦ m.put_prev_task c rq p
  ]

  -- set_curr_task_ts does nothing.
  unfoldable pub set_curr : Rq L → ℕ → Rq L
  set_curr rq p = elim (rq.tasks p).sched_class [ ts_sched_class ↦ rq | c ↦ m.set_curr_task c rq ]

  -- The TS class has no switched_from, and its switched_to and prio_changed do nothing.
  abbrev pub from_class : SchedClass → Rq L → ℕ → Rq L
  from_class ts_sched_class rq p = rq
  from_class c rq p = m.switched_from c rq p

  abbrev pub to_class : SchedClass → Rq L → ℕ → Rq L
  to_class ts_sched_class rq p = rq
  to_class c rq p = m.switched_to c rq p

  abbrev pub changed_prio : SchedClass → Rq L → ℕ → ℤ → Rq L
  changed_prio ts_sched_class rq p oldprio = rq
  changed_prio c rq p oldprio = m.prio_changed c rq p oldprio

  unfoldable pub check_class_changed : Rq L → ℕ → SchedClass → ℤ → Rq L
  check_class_changed rq p prev_class oldprio =
      let t = rq.tasks p in
      let rq' = from_class prev_class rq p in
      if not (is_class prev_class t.sched_class)
      then to_class (rq'.tasks p).sched_class rq' p
      else if not (eq_ℤ oldprio t.prio) || dl_prio t.prio
      then changed_prio t.sched_class rq p oldprio
      else rq

  -- Both functions take the task out first: dequeue_task if it is queued, put_prev_task if it runs.
  unfoldable pub take_out : Rq L → ℕ → Bool → ℕ → Rq L
  take_out rq p queued flags =
      let rq' = if queued then dequeue_task rq p flags else rq in
      if rq.curr == p then put_prev rq' p else rq'

  -- The new static and effective priority.
  unfoldable pub reniced : Rq L → ℕ → ℤ → Rq L
  reniced rq p nice =
      let (t, prio) = effective_prio (record (rq.tasks p) { static_prio = nice_to_prio nice }) in
      record rq { tasks = update rq.tasks p (record t { prio = prio }) }

  -- Back onto the queue, with a reschedule if the task improved, or runs and got worse; at the priority
  -- that `rq` has; `old_prio` is the one before.
  unfoldable pub put_back : Rq L → ℕ → Bool → ℤ → Option (Rq L)
  put_back rq p queued old_prio = do
    rq' ←
        (if queued
          then (do
            r ← enqueue_task rq p save_noclock
            some (
                let prio = (rq.tasks p).prio in
                if ltb_ℤ prio old_prio || (ltb_ℤ old_prio prio && r.curr == p)
                then resched_curr r
                else r))
          else some rq)
    some (if rq.curr == p then set_curr rq' p else rq')

  unfoldable pub set_user_nice : Rq L → ℕ → ℤ → Bool → Option (Rq L)
  set_user_nice rq p nice queued =
      let t = rq.tasks p in
      let out = take_out rq p queued save_noclock in
      if eq_ℤ (prio_to_nice t.static_prio) nice || ltb_ℤ nice (negsuc 19) || ltb_ℤ (pos 19) nice
      then some rq
      else if dl_policy t.policy || rt_policy t.policy
      then some
          (record rq { tasks = update rq.tasks p (record t { static_prio = nice_to_prio nice }) })
      else put_back (reniced out p nice) p queued (out.tasks p).prio

  -- The flags that rt_mutex_setprio queues with: 0x10 is ENQUEUE_HEAD, 0x20 is ENQUEUE_REPLENISH.
  -- `replenish` is the outcome of the deadline comparison.
  abbrev pub setprio_flags : ℤ → ℤ → Bool → ℕ
  setprio_flags oldprio prio replenish =
      let base = if eq_ℤ oldprio prio then save_noclock else save_move_noclock in
      if dl_prio prio
      then (if replenish then base + 0x20 else base)
      else if rt_prio prio
      then (if ltb_ℤ oldprio prio then base + 0x10 else base)
      else base

  -- `donor` is the priority of the task that waits, `same_donor` says that it is the one that waited
  -- before, `is_idle` that `p` is the idle task.
  unfoldable pub rt_mutex_setprio : Rq L → ℕ → Option ℤ → Bool → Bool → Bool → Bool → Option (Rq L)
  rt_mutex_setprio rq p donor same_donor is_idle queued replenish =
      let t = rq.tasks p in
      let prio = rt_effective_prio donor t.normal_prio in
      let flags = if eq_ℤ t.prio prio then save_noclock else save_move_noclock in
      let out = take_out rq p queued flags in
      let set = record out { tasks = update out.tasks p (setprio (out.tasks p) prio) } in
      if same_donor && eq_ℤ prio t.prio && not (dl_prio prio)
      then some rq
      else if eq_ℤ prio t.prio && not (dl_prio prio)
      then some rq
      else if is_idle
      then some rq
      else do
        back ←
            (if queued then enqueue_task set p (setprio_flags t.prio prio replenish) else some set)
        some (
            check_class_changed (if rq.curr == p then set_curr back p else back) p t.sched_class
              t.prio)
