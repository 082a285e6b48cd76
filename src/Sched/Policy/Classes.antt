-- ===== src/Sched/Policy/Classes.antt =====
-- Which class and which priority a task has after core.c has set them.
use kenrel_learning.Common.{
  ℕ, ◌-◌, ◌≡◌, refl, ℤ, pos, negsuc, ◌≤ℤ◌, Bool, true, false, Option, none, some, arith,
}
use kenrel_learning.Sched.Task.{Task, ts_sched_class, fair_sched_class, sched_ts}
use kenrel_learning.Sched.Ts.{level}
use kenrel_learning.Sched.Policy.{
  SchedAttr, settled, forked_reset, forked, fork_class, setscheduler, sched_fork, setprio,
}

-- A static priority is that of a nice value from -20 to 19.
abbrev pub IsStatic : ℤ → Type 0
IsStatic p = (pos 100 ≤ℤ p) × (p ≤ℤ pos 139)

-- A task of the TS class has the TS policy and a priority that names one of the forty queues.
abbrev pub IsTsReady : Task → Type 0
IsTsReady t =
    t.sched_class ≡ ts_sched_class → (t.policy ≡ sched_ts) × ((i : ℕ) × (level t.prio ≡ some i))

level-some : (p : ℤ) → pos 100 ≤ℤ p → p ≤ℤ pos 139 → (i : ℕ) × (level p ≡ some i)
level-some (pos n) a b = (139 - n, ground arith)
level-some (negsuc n) a b = absurd (omega arith)

-- Whatever a caller asks for and whatever boost is kept, a task that __setscheduler gives to the TS
-- class can be queued there.
pub setscheduler-IsTsReady :
    (p : Task) (attr : SchedAttr) (keep_boost : Bool) (donor : Option ℤ)
    → IsStatic p.static_prio
    → IsTsReady (setscheduler p attr keep_boost donor)
unfolding setscheduler
setscheduler-IsTsReady p attr keep_boost donor s c = (
  ground arith,
  level-some (setscheduler p attr keep_boost donor).prio (ground arith) (ground arith),
)

-- The same for sched_fork, in a task whose priorities are in range.
pub sched_fork-IsTsReady :
    (p : Task) (current_normal : ℤ) {child : Task}
    → IsStatic p.static_prio
    → current_normal ≤ℤ pos 139
    → sched_fork p current_normal ≡ some child
    → IsTsReady child
unfolding sched_fork
sched_fork-IsTsReady p n {child} s b e c =
    (ground arith, level-some child.prio (ground arith) (ground arith))

-- A request for the TS policy by sched_setscheduler gives, where no boost is pending, the TS class
-- at the static priority, for any task and whatever class it had.
pub setscheduler-ts :
    (p : Task) (attr : SchedAttr)
    → IsStatic p.static_prio
    → attr.sched_policy ≡ sched_ts
    → ((setscheduler p attr true none).sched_class ≡ ts_sched_class)
      × ((setscheduler p attr true none).prio ≡ p.static_prio)
      × ((setscheduler p attr true none).static_prio ≡ p.static_prio)
unfolding setscheduler
setscheduler-ts p attr s e = (ground arith, ground arith, ground arith)

-- A TS task whose boost ends, that is, whose priority rt_mutex_setprio sets to 100 or more, is left
-- in the fair class with the TS policy.
pub setprio_leaves_ts :
    (p : Task) (prio : ℤ)
    → p.policy ≡ sched_ts
    → pos 100 ≤ℤ prio
    → ((setprio p prio).sched_class ≡ fair_sched_class) × ((setprio p prio).policy ≡ sched_ts)
unfolding setprio
setprio_leaves_ts p prio e h = (ground arith, e)

-- A fork of a TS task that asks for a reset keeps the TS policy and class; only the priority is
-- reset, to the static one, or to nice 0 if the static one was better.
pub sched_fork-reset_keeps_ts :
    (p : Task) (current_normal : ℤ)
    → IsStatic p.static_prio
    → p.policy ≡ sched_ts
    → p.sched_reset_on_fork ≡ true
    → (child : Task) × (sched_fork p current_normal ≡ some child)
      × (child.policy ≡ sched_ts)
      × (child.sched_class ≡ ts_sched_class)
      × (pos 120 ≤ℤ child.prio)
      × (child.sched_reset_on_fork ≡ false)
unfolding sched_fork
sched_fork-reset_keeps_ts p n s e r =
    let q = settled (forked_reset (forked p n)) in
    (
      record q { sched_class = fork_class q.prio q.policy },
      ground arith,
      ground arith,
      ground arith,
      ground arith,
      refl,
    )
