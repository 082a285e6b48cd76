-- ===== src/Sched/Task.antt =====
-- The parts of task_struct and rq that the TS class reads and writes (temp/include/linux/sched.h,
-- temp/kernel/sched/sched.h), the scheduling policies, and resched_curr of core.c.
use kenrel_learning.Common.{ℕ, ◌==◌, ℤ, pos, negsuc, Bool, true, false, if◌then◌else◌}
use kenrel_learning.ListHead.{ListApi}

-- The classes in the order in which for_each_class visits them.
pub data SchedClass : Type 0 where
  stop_sched_class dl_sched_class rt_sched_class ts_sched_class : SchedClass
  fair_sched_class idle_sched_class : SchedClass

abbrev pub sched_normal : ℤ
sched_normal = pos 0

abbrev pub sched_fifo : ℤ
sched_fifo = pos 1

abbrev pub sched_rr : ℤ
sched_rr = pos 2

abbrev pub sched_batch : ℤ
sched_batch = pos 3

abbrev pub sched_idle : ℤ
sched_idle = pos 5

abbrev pub sched_deadline : ℤ
sched_deadline = pos 6

abbrev pub sched_ts : ℤ
sched_ts = pos 10

-- `==` on int.
abbrev pub eq_ℤ : ℤ → ℤ → Bool
eq_ℤ (pos a) (pos b) = a == b
eq_ℤ (negsuc a) (negsuc b) = a == b
eq_ℤ (pos a) (negsuc b) = false
eq_ℤ (negsuc a) (pos b) = false

-- A task is named by a number, which stands for its address and for its list node `ts.list`.
pub record Task : Type 0 where
  pub policy : ℤ
  pub prio : ℤ
  pub static_prio : ℤ
  pub normal_prio : ℤ
  pub rt_priority : ℕ
  pub time_slice : ℕ
  pub sched_class : SchedClass
  pub sched_reset_on_fork : Bool

pub record Rq (L : ListApi) : Type 0 where
  pub ts : L.Heads
  pub tasks : ℕ → Task
  pub curr : ℕ
  pub need_resched : Bool
  pub nr_running : ℕ
  pub h_nr_running : ℕ

-- An assignment to the fields of one task.
abbrev pub update : (ℕ → Task) → ℕ → Task → ℕ → Task
update tasks p t q = if q == p then t else tasks q

module _ {L : ListApi} where
  -- The flag TIF_NEED_RESCHED of the running task; the interrupt to another CPU is not modelled.
  unfoldable pub resched_curr : Rq L → Rq L
  resched_curr rq = if rq.need_resched then rq else record rq { need_resched = true }
