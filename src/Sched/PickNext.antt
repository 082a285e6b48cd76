-- ===== src/Sched/PickNext.antt =====
-- pick_next_task and check_preempt_curr of temp/kernel/sched/core.c, over the scheduling classes.
-- Of the classes only TS is modelled; the methods of the others are an argument.
pub mod Starvation
use kenrel_learning.Common.{
  ℕ, zero, suc, ◌≡◌, ◌==◌, Bool, true, false, not, ◌&&◌, ◌||◌, Option, none, some, List, [], ◌∷◌,
  if◌then◌else◌,
}
use kenrel_learning.ListHead.{ListApi}
use kenrel_learning.Sched.Task.{
  Rq, SchedClass, stop_sched_class, dl_sched_class, rt_sched_class, ts_sched_class,
  fair_sched_class, idle_sched_class, resched_curr,
}
use kenrel_learning.Sched.Ts.{pick_next_task_ts, put_prev_task_ts, check_preempt_curr_ts}

-- What a class returns: NULL, RETRY_TASK or a task.
pub data Pick : Type 0 where
  null retry : Pick
  task : ℕ → Pick

abbrev pub of_option : Option ℕ → Pick
of_option none = null
of_option (some p) = task p

-- The methods of the classes that are not modelled; at `ts_sched_class` they are never called.
pub record Others (L : ListApi) : Type 0 where
  pub pick_next_task : SchedClass → Rq L → ℕ → Rq L × Pick
  pub put_prev_task : SchedClass → Rq L → ℕ → Rq L
  pub check_preempt_curr : SchedClass → Rq L → ℕ → ℕ → Rq L

abbrev pub rank : SchedClass → ℕ
rank stop_sched_class = 0
rank dl_sched_class = 1
rank rt_sched_class = 2
rank ts_sched_class = 3
rank fair_sched_class = 4
rank idle_sched_class = 5

abbrev pub is_class : SchedClass → SchedClass → Bool
is_class c d = rank c == rank d

-- for_each_class: `.next` of each class.
abbrev pub classes : List SchedClass
classes =
    stop_sched_class ∷ dl_sched_class ∷ rt_sched_class ∷ ts_sched_class ∷ fair_sched_class
    ∷ idle_sched_class ∷ []

-- The task that runs next; `spins` if the classes asked for a retry as often as there was fuel.
pub data Outcome (L : ListApi) : Type 0 where
  next : Rq L → Pick → Outcome L
  bug : Outcome L
  spins : Outcome L

module _ {L : ListApi} (o : Others L) where
  unfoldable pub put_prev_task : Rq L → ℕ → Rq L
  unfolding put_prev_task_ts
  put_prev_task rq prev = elim (rq.tasks prev).sched_class [
    | ts_sched_class ↦ put_prev_task_ts rq prev
    | c ↦ o.put_prev_task c rq prev
  ]

  unfoldable pub class_pick : SchedClass → Rq L → ℕ → Rq L × Pick
  class_pick ts_sched_class rq prev =
      let (rq', p) = pick_next_task_ts put_prev_task rq prev in (rq', of_option p)
  class_pick c rq prev = o.pick_next_task c rq prev

  -- One pass of for_each_class; `again` is the jump to the label.
  unfoldable pub each_class : (Rq L → Outcome L) → List SchedClass → Rq L → ℕ → Outcome L
  each_class again [] rq prev = bug
  each_class again (c ∷ cs) rq prev =
      let (rq', p) = class_pick c rq prev in
      let later = each_class again cs rq' prev in
      elim p [ null ↦ later | retry ↦ again rq' | task q ↦ next rq' (task q) ]

  -- The label `again`, with fuel for the passes.
  unfoldable pub again : ℕ → ℕ → Rq L → Outcome L
  again zero prev rq = spins
  again (suc fuel) prev rq = each_class (again fuel prev) classes rq prev

  abbrev pub all_fair : Rq L → ℕ → Bool
  all_fair rq prev =
      (is_class (rq.tasks prev).sched_class idle_sched_class
        || is_class (rq.tasks prev).sched_class fair_sched_class)
      && rq.nr_running == rq.h_nr_running

  unfoldable pub pick_next_task : ℕ → Rq L → ℕ → Outcome L
  unfolding class_pick
  pick_next_task fuel rq prev =
      if all_fair rq prev
      then (let (rq', p) = class_pick fair_sched_class rq prev in
          elim p [
            | null ↦ (let (rq2, q) = class_pick idle_sched_class rq' prev in next rq2 q)
            | retry ↦ again fuel prev rq'
            | task q ↦ next rq' (task q)
          ])
      else again fuel prev rq

  -- check_preempt_curr: the walk over the classes stops at the running task's class, or at the
  -- class of `p` if that comes first.
  unfoldable pub preempt_walk : List SchedClass → Rq L → ℕ → Rq L
  preempt_walk [] rq p = rq
  preempt_walk (c ∷ cs) rq p =
      if is_class c (rq.tasks rq.curr).sched_class
      then rq
      else if is_class c (rq.tasks p).sched_class
      then resched_curr rq
      else preempt_walk cs rq p

  unfoldable pub check_preempt_curr : Rq L → ℕ → ℕ → Rq L
  unfolding preempt_walk
  check_preempt_curr rq p flags =
      if is_class (rq.tasks p).sched_class (rq.tasks rq.curr).sched_class
      then (elim (rq.tasks rq.curr).sched_class [
        | ts_sched_class ↦ check_preempt_curr_ts rq p flags
        | c ↦ o.check_preempt_curr c rq p flags
      ])
      else preempt_walk classes rq p
