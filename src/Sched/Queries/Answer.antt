-- ===== src/Sched/Queries/Answer.antt =====
-- What sched_getattr tells is accepted by sched_setattr.
use kenrel_learning.Common.{◌<◌, ◌≡◌, true, false, if◌then◌else◌}
use kenrel_learning.Sched.Task.{Task}
use kenrel_learning.Sched.Policy.{SchedAttr, valid_policy, dl_policy, rt_policy, prio_to_nice}

-- A task that is not of the deadline policy, with the priority that its policy asks for.
pub record IsPlain (t : Task) : Type 0 where
  pub valid : valid_policy t.policy ≡ true
  pub no_dl : dl_policy t.policy ≡ false
  pub real_time : rt_policy t.policy ≡ true → (0 < t.rt_priority) × (t.rt_priority < 100)

-- An answer on such a task.
record Tells (t : Task) (attr : SchedAttr) : Type 0 where
  policy : attr.sched_policy ≡ t.policy
  flags : attr.sched_flags ≡ (if t.sched_reset_on_fork then 1 else 0)
  nice : rt_policy t.policy ≡ false → attr.sched_nice ≡ prio_to_nice t.static_prio
  priority : attr.sched_priority ≡ (if rt_policy t.policy then t.rt_priority else 0)
