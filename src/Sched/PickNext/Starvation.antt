-- ===== src/Sched/PickNext/Starvation.antt =====
-- Which task pick_next_task of core.c runs: the TS class's own choice when a TS task ran before, and
-- never a TS task when a fair task or the idle task did.
use kenrel_learning.Common.{ℕ, suc, ◌<◌, ◌≡◌, refl, ◌∙◌, inl, inr, some, List, [], ◌∷◌, arith}
use kenrel_learning.ListHead.{ListApi, ListLaws}
use kenrel_learning.Sched.Task.{
  Rq, SchedClass, stop_sched_class, dl_sched_class, rt_sched_class, ts_sched_class,
  fair_sched_class, idle_sched_class,
}
use kenrel_learning.Sched.Ts.{enqueue_task_ts, pick_next_task_ts}
use kenrel_learning.Sched.Ts.Pick.{pick_next_task_ts-Picks}
use kenrel_learning.Sched.PickNext.{
  Others, null, task, next, put_prev_task, each_class, again, pick_next_task,
}

enqueue-counts :
    {L : ListApi} (rq : Rq L) (p flags : ℕ) {rq' : Rq L}
    → enqueue_task_ts rq p flags ≡ some rq'
    → (rq'.nr_running ≡ rq.nr_running) × (rq'.h_nr_running ≡ rq.h_nr_running)
unfolding enqueue_task_ts
enqueue-counts rq p flags e = (ground arith, ground arith)

module _ {L : ListApi} (o : Others L) where
  -- A TS task that is queued while a fair task runs, and no task that nr_running counts is of another
  -- class, does not run next: the fair class's choice does. For enqueue_task_ts does not count the
  -- task in nr_running.
  pub enqueue_starves :
      (fuel : ℕ) (rq rq' rq2 : Rq L) (p flags prev x : ℕ)
      → enqueue_task_ts rq p flags ≡ some rq'
      → (rq'.tasks prev).sched_class ≡ fair_sched_class
      → rq.nr_running ≡ rq.h_nr_running
      → o.pick_next_task fair_sched_class rq' prev ≡ (rq2, task x)
      → pick_next_task o fuel rq' prev ≡ next rq2 (task x)
  unfolding pick_next_task
  enqueue_starves fuel rq rq' rq2 p flags prev x e c n d =
      let (k, m) = enqueue-counts rq p flags e in ground arith

  -- The same with the idle task running and no fair task to run: the choice of the idle class runs
  -- next, though a TS task was just queued.
  pub enqueue_idles :
      (fuel : ℕ) (rq rq' rq2 rq3 : Rq L) (p flags prev x : ℕ)
      → enqueue_task_ts rq p flags ≡ some rq'
      → (rq'.tasks prev).sched_class ≡ idle_sched_class
      → rq.nr_running ≡ rq.h_nr_running
      → o.pick_next_task fair_sched_class rq' prev ≡ (rq2, null)
      → o.pick_next_task idle_sched_class rq2 prev ≡ (rq3, task x)
      → pick_next_task o fuel rq' prev ≡ next rq3 (task x)
  unfolding pick_next_task
  enqueue_idles fuel rq rq' rq2 rq3 p flags prev x e c n d i =
      let (k, m) = enqueue-counts rq p flags e in ground arith

  keeps :
      ((c : SchedClass) (rq : Rq L) (prev : ℕ) → (o.put_prev_task c rq prev).ts ≡ rq.ts)
      → (rq : Rq L) (prev : ℕ) → (put_prev_task o rq prev).ts ≡ rq.ts
  unfolding put_prev_task
  keeps h rq prev = ground (arith, h (rq.tasks prev).sched_class rq prev)

  ts_front :
      (laws : ListLaws L)
      → ((c : SchedClass) (rq : Rq L) (prev : ℕ) → (o.put_prev_task c rq prev).ts ≡ rq.ts)
      → (rq : Rq L) (prev i x : ℕ) (xs : List ℕ) → (rq.tasks prev).sched_class ≡ ts_sched_class
      → i < 40
      → L.contents rq.ts i ≡ x ∷ xs
      → ((j : ℕ) → i < j → j < 40 → L.contents rq.ts j ≡ [])
      → pick_next_task_ts (put_prev_task o) rq prev ≡ (rq, some x)
  unfolding put_prev_task
  ts_front laws h rq prev i x xs c b e above =
      elim (pick_next_task_ts-Picks laws (put_prev_task o) (keeps h) rq prev) [
        | inl (empty, f) ↦ cc (empty i b)
        | inr (j, y, ys, k, f, higher, g) ↦
            let same : y ≡ x = ground (arith, above j, higher i) in
            let stays : put_prev_task o rq prev ≡ rq = ground arith in g ∙ rw (same, stays) refl
      ]

  -- When a TS task ran before, and the stop, deadline and real-time classes have no task, the front
  -- task of the highest TS queue that is not empty runs next, and no class is asked again.
  pub pick_next_task-ts :
      (laws : ListLaws L)
      → ((c : SchedClass) (rq : Rq L) (prev : ℕ) → (o.put_prev_task c rq prev).ts ≡ rq.ts)
      → (fuel : ℕ) (rq : Rq L) (prev i x : ℕ) (xs : List ℕ)
      → (rq.tasks prev).sched_class ≡ ts_sched_class
      → o.pick_next_task stop_sched_class rq prev ≡ (rq, null)
      → o.pick_next_task dl_sched_class rq prev ≡ (rq, null)
      → o.pick_next_task rt_sched_class rq prev ≡ (rq, null)
      → i < 40
      → L.contents rq.ts i ≡ x ∷ xs
      → ((j : ℕ) → i < j → j < 40 → L.contents rq.ts j ≡ [])
      → pick_next_task o (suc fuel) rq prev ≡ next rq (task x)
  unfolding pick_next_task again each_class
  pick_next_task-ts laws h fuel rq prev i x xs c s d r b e above =
      let f = ts_front laws h rq prev i x xs c b e above in ground arith
