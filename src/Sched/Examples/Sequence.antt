-- ===== src/Sched/Examples/Sequence.antt =====
-- A short run from init_ts_rq on: a task is queued and ticked.
use kenrel_learning.Common.{
  ℕ, ◌==◌, ◌<◌, ◌≤◌, ◌≡◌, refl, true, false, some, [], ◌∷◌, ◌++◌, arith, if◌then◌else◌, count, ap,
}
use kenrel_learning.ListHead.{IsUnlinked}
use kenrel_learning.Sched.Task.{Rq, update}
use kenrel_learning.Sched.Ts.{init_ts_rq, enqueue_task_ts, boost, task_tick_ts, dec_slice}
use kenrel_learning.Sched.Ts.Queues.{IsValid, init_ts_rq-IsValid}
use kenrel_learning.Sched.Reach.{Reachable, here, after, queued, ticked, Reachable-IsValid}
use kenrel_learning.Sched.Reach.Standing.{Stands}
use kenrel_learning.Sched.Examples.{lists, lists-ListLaws, some_tasks, busy, quiet, idle_methods}
use kenrel_learning.Sched.Examples.Calls.{no_ticks, idle_methods-KeepsTs}

abbrev booted : Rq lists
booted = record busy { ts = init_ts_rq lists 40 busy.ts }

booted-empty : (j : ℕ) → 40 ≤ j → busy.ts j ≡ []
booted-empty j h = ground arith

booted-IsUnlinked : IsUnlinked lists booted.ts 1
unfolding count
booted-IsUnlinked j = ap (count 1) ((init_ts_rq-IsValid lists-ListLaws busy booted-empty).1 j)

abbrev first_queued : Rq lists
first_queued = record booted {
  tasks = update some_tasks 1 (some_tasks 1);
  ts = λ j. if j == 19 then booted.ts j ++ 1 ∷ [] else booted.ts j;
}

first_runs : enqueue_task_ts booted 1 0x08 ≡ some first_queued
unfolding enqueue_task_ts boost
first_runs = refl

there : 0 < count 1 (first_queued.ts 19)
unfolding count init_ts_rq
there = omega arith

abbrev first_ticked : Rq lists
first_ticked = record first_queued {
  tasks = update first_queued.tasks 1 (dec_slice (first_queued.tasks 1));
}

tick_runs : task_tick_ts first_queued 1 false ≡ some first_ticked
unfolding task_tick_ts
tick_runs = refl

reach : Reachable idle_methods quiet no_ticks booted first_ticked
reach =
    after (after here (queued 1 0x08 19 booted-IsUnlinked refl first_runs))
      (ticked 1 19 there tick_runs)

reachable_example : IsValid first_ticked × Stands lists first_ticked.ts 1 true
unfolding reach
reachable_example =
    Reachable-IsValid lists-ListLaws idle_methods quiet no_ticks idle_methods-KeepsTs 1 busy
      first_ticked booted-empty reach
