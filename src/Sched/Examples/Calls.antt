-- ===== src/Sched/Examples/Calls.antt =====
-- The theorems on the yield, the wake-up and sched_setscheduler at concrete inputs.
use kenrel_learning.Common.{ℕ, ◌≡◌, refl, true, false, none, some, [], ◌∷◌, arith, count}
use kenrel_learning.ListHead.{IsUnlinked}
use kenrel_learning.Sched.Task.{Rq, sched_normal}
use kenrel_learning.Sched.Policy.{SchedAttr}
use kenrel_learning.Sched.PickNext.{next, task}
use kenrel_learning.Sched.Ts.Queues.{IsValid}
use kenrel_learning.Sched.Schedule.{Ticks, do_sched_yield, ttwu_do_activate}
use kenrel_learning.Sched.Schedule.Yield.{AreQuiet, do_sched_yield-next}
use kenrel_learning.Sched.Schedule.Wake.{Woken, ttwu_do_activate-Woken}
use kenrel_learning.Sched.Change.Access.{Caller, check_access}
use kenrel_learning.Sched.Setscheduler.{Situation, changed, sched_setscheduler, make_change}
use kenrel_learning.Sched.Setscheduler.Keeps.{Same, KeepsTs}
use kenrel_learning.Sched.Setscheduler.Moves.{Joined, sched_setscheduler-Joined}
use kenrel_learning.Sched.Setscheduler.Leaves.{Left, make_change-Left}
use kenrel_learning.Sched.Setscheduler.Attr.{
  UserAttr, copied, sched_copy_attr, copy_sized, check_tail,
}
use kenrel_learning.Common.{pos}
use kenrel_learning.Sched.Examples.{
  lists, lists-ListLaws, busy, busy-IsValid, busy-IsUnlinked, quiet, idle_methods, owner, ts_attr,
}

abbrev pub no_ticks : Ticks lists
no_ticks = record {
  task_tick = λ c rq p. some rq;
  yield_task = λ c rq. some rq;
  task_woken = λ c rq p. rq;
}

quiet-AreQuiet : AreQuiet quiet
quiet-AreQuiet = record {
  keeps = λ c rq prev. refl;
  no_stop = λ rq prev. refl;
  no_dl = λ rq prev. refl;
  no_rt = λ rq prev. refl;
}

pub idle_methods-KeepsTs : KeepsTs idle_methods
idle_methods-KeepsTs = record {
  enqueue = λ c rq p f. (rq, refl, same rq);
  dequeue = λ c rq p f. same rq;
  put_prev_task = λ c rq p. same rq;
  set_curr_task = λ c rq. same rq;
  switched_from = λ c rq p. same rq;
  switched_to = λ c rq p. same rq;
}
  where
    same : (rq : Rq lists) → Same rq rq
    same rq = record { ts = refl; tasks = refl; curr = refl }

do_sched_yield_example :
    (r : Rq lists) × (do_sched_yield idle_methods quiet no_ticks 1 busy ≡ some (next r (task 2)))
    × (r.curr ≡ 2)
    × IsValid r
    × (r.ts 19 ≡ 2 ∷ 1 ∷ [])
do_sched_yield_example =
    do_sched_yield-next lists-ListLaws idle_methods quiet no_ticks quiet-AreQuiet 0 busy 19 2 []
      busy-IsValid refl (omega arith) refl (λ j a b. ground arith)

wake_example :
    (rq' : Rq lists) × (top : ℕ) × (ttwu_do_activate idle_methods quiet no_ticks busy 3 0
      ≡ some rq')
    × Woken busy 3 19 19 rq' top
unfolding count
wake_example =
    ttwu_do_activate-Woken lists-ListLaws idle_methods quiet no_ticks busy 3 19 19 0 busy-IsValid
      busy-IsUnlinked refl refl refl (omega arith)

-- The task of the call is queued and nobody waits for a lock that it holds.
abbrev pub calm : Situation
calm = record {
  queued = true;
  group_refuses = false;
  dl_refuses = false;
  dl_changed = false;
  donor = none;
  is_stop = false;
  overflows = false;
}

-- Task 0 is a fair task.
fair_IsUnlinked : IsUnlinked lists busy.ts 0
unfolding count
fair_IsUnlinked j = ground arith

-- Task 0 has its reset flag set, which only a privileged caller may clear.
abbrev trusted : Caller
trusted = record owner { capable = true }

join_example :
    (rq' : Rq lists) × (sched_setscheduler idle_methods trusted busy 0 ts_attr true calm
      ≡ changed rq')
    × Joined busy 0 19 rq'
unfolding check_access
join_example =
    sched_setscheduler-Joined lists-ListLaws idle_methods idle_methods-KeepsTs trusted busy 0 19
      ts_attr calm busy-IsValid fair_IsUnlinked refl refl (omega arith, omega arith) refl refl refl
      refl refl refl refl

abbrev normal_attr : SchedAttr
normal_attr = record ts_attr { sched_policy = sched_normal }

leave_example :
    (rq' : Rq lists) × (make_change idle_methods busy 1 normal_attr true calm ≡ some rq')
    × Left busy 1 rq'
unfolding count
leave_example =
    make_change-Left lists-ListLaws idle_methods idle_methods-KeepsTs busy 1 19 normal_attr calm
      busy-IsValid (omega arith) refl refl (omega arith) refl refl

-- Two zero bytes more than the kernel knows of, and a nice value out of range.
abbrev long_attr : UserAttr
long_attr = record {
  access_ok = true;
  size = some 50;
  byte = λ i. some 0;
  fields = λ n. some (record ts_attr { sched_nice = pos 30 });
}

abbrev nicest : SchedAttr
nicest = record ts_attr { sched_nice = pos 19 }

long_copied : sched_copy_attr long_attr ≡ copied nicest
unfolding sched_copy_attr copy_sized check_tail
long_copied = refl
