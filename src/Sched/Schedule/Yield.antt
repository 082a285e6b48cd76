-- ===== src/Sched/Schedule/Yield.antt =====
-- sched_yield among TS tasks.
use kenrel_learning.Common.{
  ℕ, suc, ◌≤◌, ◌<◌, ◌≡◌, ◌==◌, refl, ◌∙◌, true, false, some, List, [], ◌∷◌, ◌++◌, arith, count,
  remove, remove-absent, if◌then◌else◌,
}
use kenrel_learning.ListHead.{ListApi, ListLaws}
use kenrel_learning.Sched.Task.{
  Rq, SchedClass, stop_sched_class, dl_sched_class, rt_sched_class, ts_sched_class,
}
use kenrel_learning.Sched.Ts.{yield_task_ts}
use kenrel_learning.Sched.Ts.Queues.{IsValid}
use kenrel_learning.Sched.Ts.Pick.{yield_task_ts_lem}
use kenrel_learning.Sched.PickNext.{Others, next, null, task}
use kenrel_learning.Sched.PickNext.Starvation.{pick_next_task-ts}
use kenrel_learning.Sched.Change.{Methods}
use kenrel_learning.Sched.Schedule.{Ticks, schedule, yield_task, do_sched_yield}

-- The stop, deadline and real-time classes have no task to run, and no class touches the TS queues
-- when its task stops running.
pub record AreQuiet {L : ListApi} (o : Others L) : Type 0 where
  pub keeps : (c : SchedClass) (rq : Rq L) (prev : ℕ) → (o.put_prev_task c rq prev).ts ≡ rq.ts
  pub no_stop : (rq : Rq L) (prev : ℕ) → o.pick_next_task stop_sched_class rq prev ≡ (rq, null)
  pub no_dl : (rq : Rq L) (prev : ℕ) → o.pick_next_task dl_sched_class rq prev ≡ (rq, null)
  pub no_rt : (rq : Rq L) (prev : ℕ) → o.pick_next_task rt_sched_class rq prev ≡ (rq, null)

head-count : (a : ℕ) (xs : List ℕ) → 0 < count a (a ∷ xs)
unfolding count
head-count a xs = ground arith

==-refl : (i : ℕ) → (i == i) ≡ true
==-refl i = ground arith

-- A head that stands nowhere else.
remove-head : (a : ℕ) (xs : List ℕ) → count a (a ∷ xs) ≤ 1 → remove a (a ∷ xs) ≡ xs
unfolding count remove
remove-head a xs h = ground (arith, remove-absent a xs)

yield_task_ts-curr :
    {L : ListApi} (rq rq' : Rq L) → yield_task_ts rq ≡ some rq' → rq'.curr ≡ rq.curr
unfolding yield_task_ts
yield_task_ts-curr rq rq' h = ground arith

rest_empty :
    {L : ListApi} (rq rq' : Rq L) (i j : ℕ)
    → i < j
    → L.contents rq'.ts j
      ≡ (if j == i then remove rq.curr (L.contents rq.ts j) ++ rq.curr ∷ [] else L.contents rq.ts j)
    → L.contents rq.ts j ≡ []
    → L.contents rq'.ts j ≡ []
rest_empty rq rq' i j h q e = ground arith

module _ {L : ListApi} (laws : ListLaws L) (m : Methods L) (o : Others L) (k : Ticks L)
    (quiet : AreQuiet o) where
  yield_task-ts :
      (rq : Rq L)
      → (rq.tasks rq.curr).sched_class ≡ ts_sched_class
      → yield_task m o k rq ≡ yield_task_ts rq
  unfolding yield_task yield_task_ts
  yield_task-ts rq c = rw (c, yield_task) refl

  -- The task that runs is the first of the highest queue, and `x` the second; the stop, deadline and
  -- real-time classes have no task. Then `x` runs next, and the task that yields is the last of the
  -- queue, whose order is else as it was.
  pub do_sched_yield-next :
      (fuel : ℕ) (rq : Rq L) (i x : ℕ) (xs : List ℕ)
      → IsValid rq
      → (rq.tasks rq.curr).sched_class ≡ ts_sched_class
      → i < 40
      → L.contents rq.ts i ≡ rq.curr ∷ x ∷ xs
      → ((j : ℕ) → i < j → j < 40 → L.contents rq.ts j ≡ [])
      → (r : Rq L) × (do_sched_yield m o k (suc fuel) rq ≡ some (next r (task x)))
        × (r.curr ≡ x)
        × IsValid r
        × (L.contents r.ts i ≡ x ∷ (xs ++ rq.curr ∷ []))
  unfolding do_sched_yield schedule
  do_sched_yield-next fuel rq i x xs v c b e above =
      let there : 0 < count rq.curr (L.contents rq.ts i) = rw e (head-count rq.curr (x ∷ xs)) in
      let (rq', run, v', same, queues) = yield_task_ts_lem laws rq i v there in
      let stays = yield_task_ts-curr rq rq' run in
      let behind : L.contents rq'.ts i ≡ x ∷ (xs ++ rq.curr ∷ []) =
        queues i
        ∙ rw (e, ==-refl i, remove-head rq.curr (x ∷ xs) (rw e at (v.once rq.curr i))) refl in
      let class : (rq'.tasks rq'.curr).sched_class ≡ ts_sched_class = rw (same, stays) c in
      let picked =
        pick_next_task-ts o laws quiet.keeps fuel rq' rq'.curr i x (xs ++ rq.curr ∷ []) class
          (quiet.no_stop rq' rq'.curr) (quiet.no_dl rq' rq'.curr) (quiet.no_rt rq' rq'.curr) b
          behind (λ j h l. rest_empty rq rq' i j h (queues j) (above j h l)) in
      (
        record rq' { need_resched = false; curr = x },
        rw (yield_task-ts rq c ∙ run, picked) refl,
        refl,
        record { at_level = λ t j n. v'.at_level t j n; once = λ t j. v'.once t j },
        behind,
      )
