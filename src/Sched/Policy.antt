-- ===== src/Sched/Policy.antt =====
-- Priorities and classes in temp/kernel/sched/core.c and sched.h: the policy tests, normal_prio,
-- effective_prio, sched_fork, __setscheduler and the class that rt_mutex_setprio chooses.
-- 100 and 0 are MAX_RT_PRIO and MAX_DL_PRIO, 120 is NICE_TO_PRIO(0), of linux/sched/prio.h.
pub mod Classes
use kenrel_learning.Common.{
  ℕ, zero, suc, ◌+◌, ◌-◌, ◌≤◌, ◌<◌, ◌≡◌, ◌==◌, ltb, leb, ℤ, pos, negsuc, ◌+ℤ◌, ◌-ℤ◌, ltb_ℤ, Bool,
  true, false, not, ◌&&◌, ◌||◌, Option, none, some, if◌then◌else◌,
}
use kenrel_learning.Sched.Task.{
  Task, SchedClass, stop_sched_class, dl_sched_class, rt_sched_class, ts_sched_class,
  fair_sched_class, idle_sched_class, sched_normal, sched_fifo, sched_rr, sched_batch, sched_idle,
  sched_deadline, sched_ts, eq_ℤ,
}

abbrev pub idle_policy : ℤ → Bool
idle_policy policy = eq_ℤ policy sched_idle

abbrev pub fair_policy : ℤ → Bool
fair_policy policy = eq_ℤ policy sched_normal || eq_ℤ policy sched_batch

abbrev pub rt_policy : ℤ → Bool
rt_policy policy = eq_ℤ policy sched_fifo || eq_ℤ policy sched_rr

abbrev pub dl_policy : ℤ → Bool
dl_policy policy = eq_ℤ policy sched_deadline

abbrev pub ts_policy : ℤ → Bool
ts_policy policy = eq_ℤ policy sched_ts

abbrev pub valid_policy : ℤ → Bool
valid_policy policy =
    idle_policy policy
    || fair_policy policy
    || rt_policy policy
    || dl_policy policy
    || ts_policy policy

abbrev pub dl_prio : ℤ → Bool
dl_prio prio = ltb_ℤ prio (pos 0)

abbrev pub rt_prio : ℤ → Bool
rt_prio prio = ltb_ℤ prio (pos 100)

-- NICE_TO_PRIO and PRIO_TO_NICE.
abbrev pub nice_to_prio : ℤ → ℤ
nice_to_prio nice = nice +ℤ pos 120

abbrev pub prio_to_nice : ℤ → ℤ
prio_to_nice prio = prio -ℤ pos 120

unfoldable pub normal_prio : Task → ℤ
normal_prio p =
    if dl_policy p.policy
    then pos 0 -ℤ pos 1
    else if rt_policy p.policy
    then pos 99 -ℤ pos p.rt_priority
    else p.static_prio

-- The function also stores normal_prio: the task after it, whose `prio` the caller assigns.
unfoldable pub effective_prio : Task → Task × ℤ
unfolding normal_prio
effective_prio p =
    let p' = record p { normal_prio = normal_prio p } in
    if not (rt_prio p'.prio) then (p', p'.normal_prio) else (p', p'.prio)

-- The class that sched_fork and __setscheduler give from `prio` and `policy`.
abbrev pub fork_class : ℤ → ℤ → SchedClass
fork_class prio policy =
    if rt_prio prio
    then rt_sched_class
    else if ts_policy policy
    then ts_sched_class
    else fair_sched_class

-- The scheduling part of sched_fork, for the copy `p` of the running task whose normal_prio is
-- `current_normal`. `none` is -EAGAIN.
abbrev pub forked : Task → ℤ → Task
forked p current_normal = record p { time_slice = 12; prio = current_normal }

abbrev pub forked_reset : Task → Task
forked_reset p =
    if dl_policy p.policy || rt_policy p.policy
    then record p { policy = sched_normal; static_prio = nice_to_prio (pos 0); rt_priority = 0 }
    else if ltb_ℤ (prio_to_nice p.static_prio) (pos 0)
    then record p { static_prio = nice_to_prio (pos 0) }
    else p

abbrev pub settled : Task → Task
settled p = record p {
  prio = p.static_prio;
  normal_prio = p.static_prio;
  sched_reset_on_fork = false;
}

abbrev pub forked_flag : Task → Task
forked_flag p = if p.sched_reset_on_fork then settled (forked_reset p) else p

unfoldable pub sched_fork : Task → ℤ → Option Task
sched_fork p current_normal =
    let q = forked_flag (forked p current_normal) in
    if dl_prio q.prio then none else some (record q { sched_class = fork_class q.prio q.policy })

pub record SchedAttr : Type 0 where
  pub sched_policy : ℤ
  pub sched_flags : ℕ
  pub sched_nice : ℤ
  pub sched_priority : ℕ

-- __setscheduler_params. `setparam_dl` is __setparam_dl of deadline.c, which sets the dl entity only;
-- set_load_weight sets the load of the fair entity only.
unfoldable pub setscheduler_params : Task → SchedAttr → Task
unfolding normal_prio
setscheduler_params p attr =
    let policy = if eq_ℤ attr.sched_policy (negsuc 0) then p.policy else attr.sched_policy in
    let static =
      if dl_policy policy
      then p.static_prio
      else if fair_policy policy
      then nice_to_prio attr.sched_nice
      else p.static_prio in
    let q = record p { policy = policy; static_prio = static; rt_priority = attr.sched_priority } in
    record q { normal_prio = normal_prio q }

-- __rt_effective_prio; `donor` is the priority of the task that waits for a lock of `p`, if any.
abbrev pub rt_effective_prio : Option ℤ → ℤ → ℤ
rt_effective_prio none prio = prio
rt_effective_prio (some d) prio = if ltb_ℤ d prio then d else prio

unfoldable pub setscheduler : Task → SchedAttr → Bool → Option ℤ → Task
unfolding setscheduler_params normal_prio
setscheduler p attr keep_boost donor =
    let q = setscheduler_params p attr in
    let prio = normal_prio q in
    let prio' = if keep_boost then rt_effective_prio donor prio else prio in
    record q {
      prio = prio';
      sched_class = if dl_prio prio' then dl_sched_class else fork_class prio' q.policy;
    }

-- What rt_mutex_setprio assigns to the priority and the class.
unfoldable pub setprio : Task → ℤ → Task
setprio p prio = record p {
  prio = prio;
  sched_class =
      if dl_prio prio
      then dl_sched_class
      else if rt_prio prio
      then rt_sched_class
      else fair_sched_class;
}
