-- ===== src/Sched/Rt/Restore.antt =====
-- A real-time task that is taken out and put back with flags that say it keeps its place.
use kenrel_learning.Common.{
  ℕ, zero, suc, ◌+◌, ◌-◌, ◌≤◌, ◌<◌, ◌≡◌, ◌≢◌, ◌==◌, ltb, refl, ap, sym, ◌∙◌, Bool, true, false, not,
  length, arith, if◌then◌else◌, Bool-cases, inl, inr, bit_and,
}
use kenrel_learning.ListHead.{ListApi}
use kenrel_learning.Sched.Rt.{
  RtRq, move_entity, add_rt_entity, drop_rt_entity, inc_rt_tasks, dec_rt_tasks, dequeue_top_rt_rq,
  enqueue_top_rt_rq, dequeue_rt_stack, enqueue_rt_entity, dequeue_rt_entity, enqueue_task_rt,
  rr_weight, set_task,
}
use kenrel_learning.Sched.Rt.Arrays.{IsFirst, IsFindFirst, total, total_zero, length-remove}
use kenrel_learning.Sched.Rt.Entities.{inc_rt_prio_lem, dec_rt_prio_lem, eq_self}
use kenrel_learning.Sched.Rt.Queue.{
  IsRtValid, topped, taken_out, put_in, ready, dequeue_top_lem, small,
}

total_two : (n i j : ℕ) (f : ℕ → ℕ) → i < n → j < n → i ≢ j → 0 < f i → 0 < f j → 2 ≤ total n f
unfolding total
total_two zero i j f a b ne p q = absurd (omega arith)
total_two (suc n) i j f a b ne p q =
    ground (arith, total_two n i j f, total_zero n i f, total_zero n j f)

module _ {L : ListApi} (find : (ℕ → Bool) → ℕ) (finds : IsFindFirst find) (others : ℕ) (rq : RtRq L)
    (v : IsRtValid others rq) (p flags : ℕ) (on : (rq.tasks p).on_rq ≡ true) where
  abbrev prio : ℕ
  prio = (rq.tasks p).prio

  filled : 0 < length (L.contents rq.queue prio)
  filled = omega (arith, v.arrays.present p on, length-remove p (L.contents rq.queue prio))

  some_task : 0 < rq.rt_nr_running
  some_task = ground (
    arith,
    v.arrays.counted,
    filled,
    total_zero 100 prio (λ i. length (L.contents rq.queue i)),
    small rq v.arrays p on,
  )

  not_above : rq.highest ≤ prio
  not_above =
      ground
        (arith, v.arrays.best.none_below prio, v.arrays.bits prio (small rq v.arrays p on), filled)

  -- The only task has the highest priority.
  alone_first : rq.rt_nr_running ≡ 1 → prio ≡ rq.highest
  alone_first h = elim (Bool-cases (ltb rq.highest prio)) [
    | inl g ↦
        let b = small rq v.arrays p on in
        let above : rq.highest < 100 = ground arith in
        let other : 0 < length (L.contents rq.queue rq.highest) =
          ground (arith, v.arrays.best.is_set, v.arrays.bits rq.highest above) in
        let two =
          total_two 100 rq.highest prio (λ i. length (L.contents rq.queue i)) above b (ground arith)
            other filled in
        absurd (omega (arith, two, v.arrays.counted))
    | inr g ↦ ground (arith, not_above)
  ]

  -- The queue with the task marked as taken out, its list and its bit kept.
  abbrev out_highest : ℕ
  out_highest =
      if not (rq.rt_nr_running - 1 == 0)
      then (if prio == rq.highest then find rq.bitmap else rq.highest)
      else 100

  abbrev marked_out : RtRq L
  marked_out = record rq {
    highest = out_highest;
    rt_nr_running = rq.rt_nr_running - 1;
    rr_nr_running = rq.rr_nr_running - rr_weight (rq.tasks p).is_rr;
    rt_queued = false;
    nr_running = others;
    tasks = set_task rq.tasks p (record (rq.tasks p) { on_rq = false });
  }

  same_place : IsFirst rq.bitmap (find rq.bitmap) → prio ≡ rq.highest → find rq.bitmap ≡ rq.highest
  same_place f e = ground (
    arith,
    f.is_set,
    f.none_below rq.highest,
    v.arrays.best.is_set,
    v.arrays.best.none_below (find rq.bitmap),
  )

  -- When it is put back, the highest priority is what it was.
  highest_back : (if ltb prio out_highest then prio else out_highest) ≡ rq.highest
  highest_back = elim (Bool-cases (rq.rt_nr_running - 1 == 0)) [
    | inl h ↦
        let one : rq.rt_nr_running ≡ 1 = ground (arith, some_task) in
        let low : ltb prio 100 ≡ true = ground (arith, small rq v.arrays p on) in
        rw (h, low) (alone_first one)
    | inr h ↦ elim (Bool-cases (prio == rq.highest)) [
      | inl e ↦
          let same = same_place (finds rq.bitmap v.arrays.delimiter) (ground arith) in
          let up : ltb prio rq.highest ≡ false = ground arith in rw (h, e, same, up) refl
      | inr e ↦
          let up : ltb prio rq.highest ≡ false = ground (arith, not_above) in rw (h, e, up) refl
    ]
  ]

  dropped : move_entity flags ≡ false → dequeue_rt_stack find rq p flags ≡ marked_out
  unfolding dequeue_rt_stack drop_rt_entity dec_rt_tasks
  dropped m = rw (dequeue_top_lem others rq v, on, m, eq_self p, dec_rt_prio_lem) refl

  -- The class out of the run queue again, after it was put back without the task.
  out_again : dequeue_top_rt_rq (enqueue_top_rt_rq marked_out) ≡ marked_out
  out_again = rw (put_in others marked_out refl) (
      taken_out others (topped others _ _ marked_out)
      ∙ ap (λ n. topped others n false marked_out) (back (ready others marked_out)))
    where
      back :
          (r : Bool)
          → (if r
              then (if r then others + (rq.rt_nr_running - 1) else others) - (rq.rt_nr_running - 1)
              else if r
              then others + (rq.rt_nr_running - 1)
              else others)
            ≡ others
      back true = omega arith
      back false = refl

  abbrev marked_in : RtRq L
  marked_in = record marked_out {
    highest = if ltb prio out_highest then prio else out_highest;
    rt_nr_running = rq.rt_nr_running - 1 + 1;
    rr_nr_running = rq.rr_nr_running - rr_weight (rq.tasks p).is_rr + rr_weight (rq.tasks p).is_rr;
    tasks = set_task marked_out.tasks p (record (rq.tasks p) { on_rq = true });
  }

  added : move_entity flags ≡ false → add_rt_entity marked_out p flags ≡ marked_in
  unfolding add_rt_entity inc_rt_tasks
  added m = rw (m, eq_self p, inc_rt_prio_lem) refl

  stacked : dequeue_rt_stack find (enqueue_top_rt_rq marked_out) p flags ≡ marked_out
  unfolding dequeue_rt_stack
  stacked = rw (out_again, eq_self p) refl

  put_back :
      move_entity flags ≡ false
      → bit_and flags 0x01 ≡ 0
      → enqueue_task_rt find (dequeue_rt_entity find rq p flags) p flags
        ≡ enqueue_top_rt_rq marked_in
  unfolding enqueue_task_rt dequeue_rt_entity enqueue_rt_entity
  put_back m w = rw (w, dropped m) (rw (stacked, added m) refl)

  -- A queued task that is taken out and put back, with nothing charged in between, leaves lists,
  -- bitmap, number of tasks and highest priority as they were.
  pub enqueue-dequeue_entity :
      move_entity flags ≡ false
      → bit_and flags 0x01 ≡ 0
      → ((enqueue_task_rt find (dequeue_rt_entity find rq p flags) p flags).queue ≡ rq.queue)
        × ((enqueue_task_rt find (dequeue_rt_entity find rq p flags) p flags).bitmap ≡ rq.bitmap)
        × ((enqueue_task_rt find (dequeue_rt_entity find rq p flags) p flags).rt_nr_running
            ≡ rq.rt_nr_running)
        × ((enqueue_task_rt find (dequeue_rt_entity find rq p flags) p flags).highest ≡ rq.highest)
        × ((enqueue_task_rt find (dequeue_rt_entity find rq p flags) p flags).rt_queued
            ≡ rq.rt_queued)
        × ((enqueue_task_rt find (dequeue_rt_entity find rq p flags) p flags).nr_running
            ≡ rq.nr_running)
  enqueue-dequeue_entity m w =
      let n : rq.rt_nr_running - 1 + 1 ≡ rq.rt_nr_running = omega (arith, some_task) in
      rw (put_back m w, put_in others marked_in refl)
        (
          refl,
          refl,
          n,
          highest_back,
          rw n (sym v.top),
          rw n (sym (v.runs ∙ ap (λ z. if z then others + rq.rt_nr_running else others) v.top)),
        )
