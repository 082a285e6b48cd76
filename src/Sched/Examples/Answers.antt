-- ===== src/Sched/Examples/Answers.antt =====
-- The theorems on nice and on sched_getattr with sched_setattr at concrete inputs.
use kenrel_learning.Common.{◌≡◌, refl, true, false, none, arith, pos}
use kenrel_learning.Sched.Task.{Rq}
use kenrel_learning.Sched.Ts.Queues.{IsValid, Moved}
use kenrel_learning.Sched.Setscheduler.{changed}
use kenrel_learning.Sched.Queries.{sys_nice}
use kenrel_learning.Sched.Queries.Lower.{sys_nice-lowers}
use kenrel_learning.Sched.Examples.{lists, lists-ListLaws, busy, busy-IsValid, idle_methods}
use kenrel_learning.Common.{count}

lowers_example :
    (rq' : Rq lists) × (sys_nice idle_methods busy 0 false none true (pos 5) ≡ changed rq')
    × IsValid rq'
    × Moved lists busy.ts 1 14 rq'.ts
unfolding count
lowers_example =
    sys_nice-lowers lists-ListLaws idle_methods busy 19 19 5 0 busy-IsValid (omega arith) refl refl
      refl (omega arith) (omega arith) (omega arith)
