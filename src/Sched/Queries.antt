-- ===== src/Sched/Queries.antt =====
-- nice, sched_getattr and sched_rr_get_interval in temp/kernel/sched/core.c. What find_process_by_pid
-- and the security module answer, the size of the pages (4096) and what __getparam_dl of deadline.c
-- reads are arguments; RCU and the lock of the run queue are left out.
pub mod Lower
pub mod Answer
use kenrel_learning.Common.{
  ℕ, zero, suc, ◌+◌, ◌-◌, ◌==◌, ltb, ℤ, pos, negsuc, ◌+ℤ◌, ◌-ℤ◌, ltb_ℤ, Bool, true, false, not,
  ◌&&◌, ◌||◌, ◌⊎◌, inl, inr, Option, none, some, if◌then◌else◌,
}
use kenrel_learning.ListHead.{ListApi}
use kenrel_learning.Sched.Task.{Task, Rq, SchedClass, ts_sched_class}
use kenrel_learning.Sched.Ts.{get_rr_interval_ts}
use kenrel_learning.Sched.Policy.{SchedAttr, rt_policy, dl_policy, prio_to_nice}
use kenrel_learning.Sched.PickNext.{is_class}
use kenrel_learning.Sched.Change.{Methods, set_user_nice}
use kenrel_learning.Sched.Change.Access.{Errno, einval, eperm, esrch, efault, efbig, denied}
use kenrel_learning.Sched.Setscheduler.{SetResult, refused, of_rq}
use kenrel_learning.Sched.Setscheduler.Attr.{clamp_nice}

-- can_nice: `limit` is RLIMIT_NICE, and a nice value from 19 to -20 stands for 1 to 40.
abbrev pub can_nice : ℕ → Bool → ℤ → Bool
can_nice limit capable nice = not (ltb_ℤ (pos limit) (pos 20 -ℤ nice)) || capable

-- clamp(increment, -NICE_WIDTH, NICE_WIDTH)
abbrev pub clamp_increment : ℤ → ℤ
clamp_increment i =
    if ltb_ℤ i (negsuc 39) then negsuc 39 else if ltb_ℤ (pos 40) i then pos 40 else i

module _ {L : ListApi} (m : Methods L) where
  -- nice, for the task that runs.
  unfoldable pub sys_nice : Rq L → ℕ → Bool → Option ℕ → Bool → ℤ → SetResult L
  sys_nice rq limit capable security queued increment =
      let i = clamp_increment increment in
      let nice = clamp_nice (prio_to_nice (rq.tasks rq.curr).static_prio +ℤ i) in
      if ltb_ℤ i (pos 0) && not (can_nice limit capable nice)
      then refused eperm
      else elim security [
        | some e ↦ refused (denied e)
        | none ↦ of_rq (set_user_nice m rq rq.curr nice queued)
      ]

-- What sched_getattr says of a task.
unfoldable pub answer : (Task → SchedAttr → SchedAttr) → Task → SchedAttr
answer getparam_dl p =
    let attr : SchedAttr = record {
      sched_policy = p.policy;
      sched_flags = if p.sched_reset_on_fork then 1 else 0;
      sched_nice = pos 0;
      sched_priority = 0;
    } in
    if dl_policy p.policy
    then getparam_dl p attr
    else if rt_policy p.policy
    then record attr { sched_priority = p.rt_priority }
    else record attr { sched_nice = prio_to_nice p.static_prio }

-- The buffer of the caller: what access_ok and copy_to_user answer.
pub record Buffer : Type 0 where
  pub access_ok : Bool
  pub writable : Bool

-- The structure that is copied, and how many bytes of it.
pub data ReadResult : Type 0 where
  not_read : Errno → ReadResult
  written : SchedAttr → ℕ → ReadResult

-- The loop over the bytes addr, …, addr + n - 1: whether all are zero.
unfoldable pub zero_from : (ℕ → ℕ) → ℕ → ℕ → Bool
zero_from byte zero addr = true
zero_from byte (suc n) addr = byte addr == 0 && zero_from byte n (addr + 1)

-- sched_read_attr, for a structure of 48 bytes, which `bytes` lays out.
unfoldable pub sched_read_attr : (SchedAttr → ℕ → ℕ) → Buffer → SchedAttr → ℕ → ReadResult
sched_read_attr bytes u attr usize =
    if not u.access_ok
    then not_read efault
    else if ltb usize 48 && not (zero_from (bytes attr) (48 - usize) usize)
    then not_read efbig
    else if not u.writable
    then not_read efault
    else written attr (if ltb usize 48 then usize else 48)

-- `uattr` is `none` for a NULL pointer.
unfoldable pub sys_sched_getattr :
    (Task → SchedAttr → SchedAttr)
    → (SchedAttr → ℕ → ℕ)
    → (ℕ → Option ℕ)
    → (ℕ → Task)
    → Option ℕ
    → ℤ
    → Option Buffer
    → ℕ
    → ℕ
    → ReadResult
sys_sched_getattr getparam_dl bytes find tasks security (negsuc n) uattr size flags =
    not_read einval
sys_sched_getattr getparam_dl bytes find tasks security (pos pid) none size flags = not_read einval
sys_sched_getattr getparam_dl bytes find tasks security (pos pid) (some u) size flags =
    if ltb 4096 size || ltb size 48 || not (flags == 0) then not_read einval else elim (find pid) [
      | none ↦ not_read esrch
      | some p ↦ elim security [
        | some e ↦ not_read (denied e)
        | none ↦ sched_read_attr bytes u (answer getparam_dl (tasks p)) size
      ]
    ]

-- sched_rr_get_interval, in jiffies. `others` is the method of the other classes, 0 without one.
unfoldable pub sched_rr_get_interval :
    (SchedClass → Task → ℕ) → (ℕ → Option ℕ) → (ℕ → Task) → Option ℕ → ℤ → (Errno ⊎ ℕ)
sched_rr_get_interval others find tasks security (negsuc n) = inl einval
sched_rr_get_interval others find tasks security (pos pid) = elim (find pid) [
  | none ↦ inl esrch
  | some p ↦ elim security [
    | some e ↦ inl (denied e)
    | none ↦ inr (
        if is_class (tasks p).sched_class ts_sched_class
        then get_rr_interval_ts (tasks p)
        else others (tasks p).sched_class (tasks p))
  ]
]
