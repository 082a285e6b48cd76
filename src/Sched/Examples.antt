-- ===== src/Sched/Examples.antt =====
-- The scheduler's theorems at concrete inputs, over lists kept as functions from heads to sequences.
pub mod Calls
pub mod Sequence
pub mod Answers
pub mod RealTime
pub mod Sharing
use kenrel_learning.Common.{
  ◌⊎◌, ℕ, ◌≤◌, ◌<◌, ◌≡◌, refl, ◌==◌, ℤ, pos, negsuc, ◌≤ℤ◌, Bool, true, false, none, some, List, [],
  ◌∷◌, ◌++◌, arith, if◌then◌else◌, count, remove,
}
use kenrel_learning.Common.{ap, ◌≢◌}
use kenrel_learning.ListHead.{ListApi, ListLaws, IsUnlinked}
use kenrel_learning.Sched.Task.{
  Task, Rq, SchedClass, ts_sched_class, fair_sched_class, sched_ts, sched_normal,
}
use kenrel_learning.Common.{get_or}
use kenrel_learning.Sched.Task.{update, idle_sched_class}
use kenrel_learning.Sched.Ts.{
  boost, enqueue_task_ts, dequeue_task_ts, init_ts_rq, yield_task_ts, put_prev_task_ts,
  pick_next_task_ts, sleep_prio_lut, get_rr_interval_ts,
}
use kenrel_learning.Sched.Ts.Level.{lut_bounds, get_rr_interval_ts_lem}
use kenrel_learning.Sched.Ts.Queues.{
  IsValid, Enqueued, enqueue_task_ts_lem, dequeue_task_ts_lem, init_ts_rq-IsValid,
}
use kenrel_learning.Sched.Ts.Pick.{Picks, pick_next_task_ts-Picks, yield_task_ts_lem}
use kenrel_learning.Sched.Ts.Feedback.{Runs, ticks, ticks_expire, ticks_to_bottom}
use kenrel_learning.Sched.PickNext.{Others, next, null, task, pick_next_task}
use kenrel_learning.Sched.PickNext.Starvation.{enqueue_starves, enqueue_idles, pick_next_task-ts}
use kenrel_learning.Sched.Policy.{SchedAttr, setscheduler, sched_fork, setprio}
use kenrel_learning.Sched.Policy.Classes.{
  IsTsReady, setscheduler-IsTsReady, setscheduler-ts, sched_fork-IsTsReady, setprio_leaves_ts,
  sched_fork-reset_keeps_ts,
}
use kenrel_learning.Sched.Ts.Queues.{Moved}
use kenrel_learning.Sched.Change.{Methods, set_user_nice}
use kenrel_learning.Sched.Change.Nice.{nice_of, set_user_nice-ts}
use kenrel_learning.Sched.Change.Access.{
  Caller, check_access, meant, check_access-unprivileged, check_access-ts,
}
use kenrel_learning.Sched.Policy.{dl_policy}

abbrev head_or : List ℕ → ℕ
head_or [] = 0
head_or (x ∷ xs) = x

abbrev is_nil : List ℕ → Bool
is_nil [] = true
is_nil (x ∷ xs) = false

abbrev is_single : List ℕ → Bool
is_single [] = false
is_single (x ∷ []) = true
is_single (x ∷ y ∷ xs) = false

single_lem : (n : ℕ) (xs : List ℕ) → count n xs ≡ 1 → xs ≢ n ∷ [] → is_single xs ≡ false
unfolding count
single_lem n [] h e = refl
single_lem n (x ∷ []) h e = absurd (e (ap (λ z. z ∷ []) (ground arith)))
single_lem n (x ∷ y ∷ xs) h e = refl

abbrev pub lists : ListApi
lists = record {
  Heads = ℕ → List ℕ;
  contents = λ hs i. hs i;
  init_list_head = λ i hs j. if j == i then [] else hs j;
  list_add_tail = λ n i hs j. if j == i then hs j ++ n ∷ [] else hs j;
  list_del = λ n hs j. remove n (hs j);
  list_move_tail = λ n i hs j. if j == i then remove n (hs j) ++ n ∷ [] else remove n (hs j);
  list_add = λ n i hs j. if j == i then n ∷ hs j else hs j;
  list_move = λ n i hs j. if j == i then n ∷ remove n (hs j) else remove n (hs j);
  alone = λ n i hs. is_single (hs i);
  list_empty = λ i hs. is_nil (hs i);
  next = λ i hs. head_or (hs i);
}

pub lists-ListLaws : ListLaws lists
lists-ListLaws = record {
  contents-init = λ i j hs. refl;
  contents-add_tail = λ n i j hs u. refl;
  contents-del = λ n i j hs l. refl;
  contents-move_tail = λ n i k j hs l. refl;
  contents-add = λ n i j hs u. refl;
  contents-move = λ n i k j hs l. refl;
  alone-single = λ n i hs e. ap is_single e;
  alone-more = λ n i hs l e. single_lem n (hs i) l.here e;
  empty-nil = λ i hs e. ground arith;
  empty-cons = λ i x xs hs e. (ground arith, ground arith);
}

abbrev a_task : ℤ → ℤ → ℕ → Task
a_task policy prio slice = record {
  policy = policy;
  prio = prio;
  static_prio = pos 120;
  normal_prio = pos 120;
  rt_priority = 0;
  time_slice = slice;
  sched_class = if_ts policy;
  sched_reset_on_fork = true;
}
  where
    if_ts : ℤ → SchedClass
    if_ts (pos p) = if p == 10 then ts_sched_class else fair_sched_class
    if_ts (negsuc p) = fair_sched_class

-- Tasks 1 and 2 are TS tasks of nice 0, in queue 19; task 3 is one that sleeps; task 0 is a fair one.
abbrev pub some_tasks : ℕ → Task
some_tasks p = if p == 0 then a_task sched_normal (pos 120) 12 else a_task sched_ts (pos 120) 12

abbrev pub busy : Rq lists
busy = record {
  ts = λ i. if i == 19 then 1 ∷ 2 ∷ [] else [];
  tasks = some_tasks;
  curr = 1;
  need_resched = false;
  nr_running = 0;
  h_nr_running = 0;
}

pub busy-IsValid : IsValid busy
unfolding count
busy-IsValid = record { at_level = λ t i n. ground arith; once = λ t i. ground arith }

pub busy-IsUnlinked : IsUnlinked lists busy.ts 3
unfolding count
busy-IsUnlinked j = ground arith

front : Runs busy 1 19 12
unfolding count
front = record { valid = busy-IsValid; queued = omega arith; policy = refl; slice = refl }

enqueue_example : (rq' : Rq lists) × (k : ℕ) × Enqueued busy 3 1 19 rq' k
enqueue_example = enqueue_task_ts_lem lists-ListLaws busy 3 1 19 busy-IsValid busy-IsUnlinked refl

pick_example : Picks lists put_prev_task_ts 40 busy 1 (pick_next_task_ts put_prev_task_ts busy 1)
unfolding put_prev_task_ts
pick_example = pick_next_task_ts-Picks lists-ListLaws put_prev_task_ts (λ rq prev. refl) busy 1

expire_example :
    (rq' : Rq lists) × (ticks 12 busy 1 ≡ some rq') × Runs rq' 1 9 16 × (rq'.need_resched ≡ true)
expire_example = ticks_expire lists-ListLaws 11 busy 1 19 front (omega arith)

bottom_example :
    (n : ℕ) × (rq' : Rq lists) × (n ≤ 60) × (ticks n busy 1 ≡ some rq') × Runs rq' 1 0 16
bottom_example = ticks_to_bottom lists-ListLaws busy 1 19 12 front (omega arith) (omega arith)

-- The fair class offers task 0, and the other classes nothing.
abbrev pub quiet : Others lists
quiet = record {
  pick_next_task = λ c rq prev. elim c [ fair_sched_class ↦ (rq, task 0) | _ ↦ (rq, null) ];
  put_prev_task = λ c rq p. rq;
  check_preempt_curr = λ c rq p flags. rq;
}

abbrev to_ts : SchedAttr
to_ts = record { sched_policy = sched_ts; sched_flags = 0; sched_nice = pos 0; sched_priority = 0 }

abbrev a_child : Task
a_child = record (some_tasks 1) {
  prio = pos 120;
  time_slice = 12;
  sched_reset_on_fork = false;
  normal_prio = pos 120;
}

-- The other classes do nothing.
abbrev pub idle_methods : Methods lists
idle_methods = record {
  enqueue_task = λ c rq p f. some rq;
  dequeue_task = λ c rq p f. rq;
  put_prev_task = λ c rq p. rq;
  set_curr_task = λ c rq. rq;
  switched_from = λ c rq p. rq;
  switched_to = λ c rq p. rq;
  prio_changed = λ c rq p old. rq;
}

abbrev pub owner : Caller
owner = record {
  user = true;
  capable = false;
  same_owner = true;
  rlimit_rtprio = 0;
  can_nice = λ n. false;
  checkparam_dl = λ a. false;
  security = none;
}

abbrev normal_task : Task
normal_task = record (a_task sched_normal (pos 120) 12) { sched_reset_on_fork = false }

abbrev pub ts_attr : SchedAttr
ts_attr = record {
  sched_policy = sched_ts;
  sched_flags = 0;
  sched_nice = pos 0;
  sched_priority = 0;
}
