-- ===== src/Sched/Setscheduler.antt =====
-- sched_setscheduler and its kin in temp/kernel/sched/core.c, from the system calls down to the
-- change of the queued task. Not changed by others between the checks and the lock, a task needs no
-- second round of checks (the label recheck). What the deadline class, the groups of tasks and the
-- security module decide is an argument.
pub mod Keeps
pub mod Moves
pub mod Leaves
pub mod Attr
use kenrel_learning.Common.{
  ℕ, suc, ◌+◌, ◌-◌, ◌==◌, ltb, bit_and, ℤ, pos, negsuc, ◌-ℤ◌, ltb_ℤ, Bool, true, false, not, ◌&&◌,
  ◌||◌, Option, none, some, List, [], ◌∷◌, if◌then◌else◌,
}
use kenrel_learning.ListHead.{ListApi}
use kenrel_learning.Sched.Task.{
  Task, Rq, update, eq_ℤ, sched_fifo, sched_rr, sched_deadline, sched_normal, sched_batch,
  sched_idle,
}
use kenrel_learning.Sched.Ts.{◌>>=◌}
use kenrel_learning.Sched.Policy.{
  SchedAttr, fair_policy, rt_policy, dl_policy, dl_prio, prio_to_nice, rt_effective_prio,
  setscheduler,
}
use kenrel_learning.Sched.Change.{
  Methods, save_noclock, save_move_noclock, take_out, enqueue_task, set_curr, check_class_changed,
}
use kenrel_learning.Sched.Change.Access.{
  Errno, einval, eperm, ebusy, esrch, efault, e2big, denied, Caller, check_access, meant,
  reset_on_fork,
}

-- `donor` is the priority of a task that waits for a lock of this one. `group_refuses`,
-- `dl_refuses` and `overflows` are the tests of the task's group, of its affinity mask and of
-- sched_dl_overflow; `dl_changed` is dl_param_changed.
pub record Situation : Type 0 where
  pub donor : Option ℤ
  pub is_stop : Bool
  pub queued : Bool
  pub group_refuses : Bool
  pub dl_refuses : Bool
  pub overflows : Bool
  pub dl_changed : Bool

pub data SetResult (L : ListApi) : Type 0 where
  refused : Errno → SetResult L
  changed : Rq L → SetResult L
  faults : SetResult L

abbrev pub of_rq : {L : ListApi} → Option (Rq L) → SetResult L
of_rq none = faults
of_rq (some rq) = changed rq

-- The priority that the queue flags are chosen by.
abbrev pub newprio : SchedAttr → ℤ
newprio attr = if dl_policy attr.sched_policy then negsuc 0 else pos 99 -ℤ pos attr.sched_priority

abbrev pub move_flags : SchedAttr → Bool → Option ℤ → ℤ → ℕ
move_flags attr pi donor oldprio =
    if pi && eq_ℤ (rt_effective_prio donor (newprio attr)) oldprio
    then save_noclock
    else save_move_noclock

-- The policy is the same and so are the parameters that matter for it.
abbrev pub nothing_new : Task → SchedAttr → Bool → Bool
nothing_new t attr dl_changed =
    let policy = meant t attr in
    eq_ℤ policy t.policy
    && not (fair_policy policy && not (eq_ℤ attr.sched_nice (prio_to_nice t.static_prio)))
    && not (rt_policy policy && not (attr.sched_priority == t.rt_priority))
    && not (dl_policy policy && dl_changed)

-- What the groups and the deadline class refuse.
abbrev pub admission : Caller → Task → SchedAttr → Situation → Option Errno
admission c t attr s =
    let policy = meant t attr in
    if c.user && rt_policy policy && s.group_refuses
    then some eperm
    else if c.user && dl_policy policy && bit_and attr.sched_flags 0x10000000 == 0 && s.dl_refuses
    then some eperm
    else if (dl_policy policy || dl_prio t.prio) && s.overflows
    then some ebusy
    else none

module _ {L : ListApi} (m : Methods L) where
  abbrev pub put_task : Rq L → ℕ → Task → Rq L
  put_task rq p t = record rq { tasks = update rq.tasks p t }

  -- The end of the change: `rq` is the queue before, `set` the one with the task taken out and its
  -- parameters set.
  unfoldable pub put_changed : Rq L → Rq L → ℕ → Bool → ℕ → Option (Rq L)
  put_changed rq set p queued flags = do
    back ← (if queued then enqueue_task m set p flags else some set)
    some (
        check_class_changed m (if rq.curr == p then set_curr m back p else back) p
          (rq.tasks p).sched_class (rq.tasks p).prio)

  -- From the place where the change is certain. 0x10 is ENQUEUE_HEAD.
  unfoldable pub make_change : Rq L → ℕ → SchedAttr → Bool → Situation → Option (Rq L)
  make_change rq p attr pi s =
      let t = rq.tasks p in
      let flags = move_flags attr pi s.donor t.prio in
      let rq0 = put_task rq p (record t { sched_reset_on_fork = reset_on_fork t attr }) in
      let out = take_out m rq0 p s.queued flags in
      let set = put_task out p (setscheduler (out.tasks p) attr pi s.donor) in
      put_changed rq set p s.queued
        (if ltb_ℤ t.prio (set.tasks p).prio then flags + 0x10 else flags)

  -- With the lock held.
  unfoldable pub locked : Caller → Rq L → ℕ → SchedAttr → Bool → Situation → SetResult L
  locked c rq p attr pi s =
      let t = rq.tasks p in
      if s.is_stop
      then refused einval
      else if nothing_new t attr s.dl_changed
      then changed (put_task rq p (record t { sched_reset_on_fork = reset_on_fork t attr }))
      else elim (admission c t attr s) [
        | some e ↦ refused e
        | none ↦ of_rq (make_change rq p attr pi s)
      ]

  unfoldable pub sched_setscheduler : Caller → Rq L → ℕ → SchedAttr → Bool → Situation → SetResult L
  sched_setscheduler c rq p attr pi s = elim (check_access c (rq.tasks p) attr) [
    | some e ↦ refused e
    | none ↦ locked c rq p attr pi s
  ]

  -- _sched_setscheduler: 0x40000000 is SCHED_RESET_ON_FORK, -1 is SETPARAM_POLICY. Negative policies
  -- other than -1 do not reach it from the system calls, and are taken as they are.
  abbrev pub legacy_attr : ℤ → ℕ → Task → SchedAttr
  legacy_attr (negsuc n) priority t = record {
    sched_policy = negsuc n;
    sched_flags = 0;
    sched_nice = prio_to_nice t.static_prio;
    sched_priority = priority;
  }
  legacy_attr (pos policy) priority t =
      let reset = not (bit_and policy 0x40000000 == 0) in
      record {
        sched_policy = pos (if reset then policy - 0x40000000 else policy);
        sched_flags = if reset then 1 else 0;
        sched_nice = prio_to_nice t.static_prio;
        sched_priority = priority;
      }

  unfoldable pub set_legacy : Caller → Rq L → ℕ → ℤ → ℕ → Situation → SetResult L
  set_legacy c rq p policy priority s =
      sched_setscheduler c rq p (legacy_attr policy priority (rq.tasks p)) true s

  -- do_sched_setscheduler. `param` is what copy_from_user reads, `some none` where it fails, `none`
  -- for a NULL pointer; `find` is find_process_by_pid.
  unfoldable pub do_sched_setscheduler :
      Caller → Rq L → (ℕ → Option ℕ) → ℤ → ℤ → Option (Option ℕ) → Situation → SetResult L
  do_sched_setscheduler c rq find (negsuc n) policy param s = refused einval
  do_sched_setscheduler c rq find (pos pid) policy none s = refused einval
  do_sched_setscheduler c rq find (pos pid) policy (some none) s = refused efault
  do_sched_setscheduler c rq find (pos pid) policy (some (some priority)) s = elim (find pid) [
    | none ↦ refused esrch
    | some p ↦ set_legacy (record c { user = true }) rq p policy priority s
  ]

  -- The system calls sched_setscheduler and sched_setparam.
  unfoldable pub sys_sched_setscheduler :
      Caller → Rq L → (ℕ → Option ℕ) → ℤ → ℤ → Option (Option ℕ) → Situation → SetResult L
  sys_sched_setscheduler c rq find pid policy param s =
      if ltb_ℤ policy (pos 0)
      then refused einval
      else do_sched_setscheduler c rq find pid policy param s

  unfoldable pub sys_sched_setparam :
      Caller → Rq L → (ℕ → Option ℕ) → ℤ → Option (Option ℕ) → Situation → SetResult L
  sys_sched_setparam c rq find pid param s = do_sched_setscheduler c rq find pid (negsuc 0) param s

-- sched_get_priority_max and sched_get_priority_min; `none` is -EINVAL.
unfoldable pub sched_get_priority_max : ℤ → Option ℕ
sched_get_priority_max policy =
    if eq_ℤ policy sched_fifo || eq_ℤ policy sched_rr
    then some 99
    else if eq_ℤ policy sched_deadline
        || eq_ℤ policy sched_normal
        || eq_ℤ policy sched_batch
        || eq_ℤ policy sched_idle
    then some 0
    else none

unfoldable pub sched_get_priority_min : ℤ → Option ℕ
sched_get_priority_min policy =
    if eq_ℤ policy sched_fifo || eq_ℤ policy sched_rr
    then some 1
    else if eq_ℤ policy sched_deadline
        || eq_ℤ policy sched_normal
        || eq_ℤ policy sched_batch
        || eq_ℤ policy sched_idle
    then some 0
    else none
