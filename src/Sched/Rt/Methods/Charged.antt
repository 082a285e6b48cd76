-- ===== src/Sched/Rt/Methods/Charged.antt =====
-- What the charge before a method leaves alone, and the methods with it.
use kenrel_learning.Common.{
  ℕ, ◌^◌, ◌%◌, ◌+◌, ◌-◌, ◌≡◌, ◌==◌, refl, ap, ◌∙◌, Bool, true, false, not, ◌||◌, ltb, if◌then◌else◌,
  bit_and,
}
use kenrel_learning.ListHead.{ListApi, ListLaws}
use kenrel_learning.Sched.Rt.{RtRq, move_entity, dequeue_top_rt_rq, enqueue_task_rt}
use kenrel_learning.Sched.Rt.Arrays.{IsFindFirst}
use kenrel_learning.Sched.Rt.Queue.{IsRtValid}
use kenrel_learning.Sched.Rt.Restore.{enqueue-dequeue_entity}
use kenrel_learning.Sched.Rt.Bandwidth.{
  RtBandwidth, runtime_inf, balance_runtime, throttle, runtime_exceeded, charge, update_curr_rt,
}
use kenrel_learning.Sched.Rt.Bandwidth.Throttle.{update_curr_rt-IsRtValid}
use kenrel_learning.Sched.Rt.Methods.{Moment, charged, dequeue_task_rt}

module _ {L : ListApi} where
  -- The lists and the tasks are as they were.
  abbrev Untouched : RtRq L → RtRq L → Type 0
  Untouched rq r =
      (r.queue ≡ rq.queue)
      × (r.bitmap ≡ rq.bitmap)
      × (r.highest ≡ rq.highest)
      × (r.rt_nr_running ≡ rq.rt_nr_running)
      × (r.tasks ≡ rq.tasks)

  either :
      (b : Bool) (rq x y : RtRq L)
      → Untouched rq x
      → Untouched rq y
      → Untouched rq (if b then x else y)
  either true rq x y p q = p
  either false rq x y p q = q

  module _ (b : RtBandwidth) (borrow : RtRq L → ℕ) where
    dequeue_top_rt_rq-Untouched : (rq : RtRq L) → Untouched rq (dequeue_top_rt_rq rq)
    unfolding dequeue_top_rt_rq
    dequeue_top_rt_rq-Untouched rq =
        either (not rq.rt_queued) rq _ _ (refl, refl, refl, refl, refl)
          (refl, refl, refl, refl, refl)

    throttle-Untouched : (rq : RtRq L) → Untouched rq (throttle b borrow rq)
    unfolding throttle
    throttle-Untouched rq =
        either (not (b.runtime == 0)) rq _ _
          (dequeue_top_rt_rq-Untouched (record rq { rt_throttled = true }))
          (refl, refl, refl, refl, refl)

    balance_runtime-Untouched : (rq : RtRq L) → Untouched rq (balance_runtime b borrow rq)
    unfolding balance_runtime
    balance_runtime-Untouched rq =
        let same : Untouched rq rq = (refl, refl, refl, refl, refl) in
        either (not b.share) rq _ _ same
          (either (ltb rq.rt_runtime rq.rt_time) rq _ _ (refl, refl, refl, refl, refl) same)

    Untouched-trans : (x y z : RtRq L) → Untouched x y → Untouched y z → Untouched x z
    Untouched-trans x y z (a0, a1, a2, a3, a4) (b0, b1, b2, b3, b4) =
        (b0 ∙ a0, b1 ∙ a1, b2 ∙ a2, b3 ∙ a3, b4 ∙ a4)

    runtime_exceeded-Untouched : (rq : RtRq L) → Untouched rq (runtime_exceeded b borrow rq)
    unfolding runtime_exceeded
    runtime_exceeded-Untouched rq =
        let same : Untouched rq rq = (refl, refl, refl, refl, refl) in
        let rq' = balance_runtime b borrow rq in
        let w = balance_runtime-Untouched rq in
        either rq.rt_throttled rq _ _ same (
          either (not (ltb rq.rt_runtime b.period)) rq _ _ same (
            either (rq'.rt_runtime == runtime_inf) rq _ _ w (
              either (ltb rq'.rt_runtime rq'.rt_time) rq _ _
                (Untouched-trans rq rq' (throttle b borrow rq') w (throttle-Untouched rq')) w)))

    charge-Untouched : (rq : RtRq L) → Untouched rq (charge b borrow rq)
    unfolding charge
    charge-Untouched rq =
        let w = runtime_exceeded-Untouched rq in
        either (runtime_exceeded b borrow rq).rt_throttled rq _ _ w w

  pub charged-Untouched : (c : Moment L) (rq : RtRq L) → Untouched rq (charged c rq)
  unfolding update_curr_rt
  charged-Untouched c rq =
      let same : Untouched rq rq = (refl, refl, refl, refl, refl) in
      let delta_exec = (c.now + 2 ^ 64 - c.exec_start) % 2 ^ 64 in
      either (not c.is_rt) rq _ _ same (
        either (delta_exec == 0 || not (ltb delta_exec (2 ^ 63))) rq _ _ same (
          either (not c.enabled) rq _ _ same (
            either (rq.rt_runtime == runtime_inf) rq _ _ same (
              charge-Untouched c.bandwidth c.borrow
                (record rq { rt_time = (rq.rt_time + delta_exec) % 2 ^ 64 })))))

module _ {L : ListApi} (laws : ListLaws L) (find : (ℕ → Bool) → ℕ) (finds : IsFindFirst find)
    (others : ℕ) (c : Moment L) (rq : RtRq L) (v : IsRtValid others rq) where
  pub charged-IsRtValid : IsRtValid others (charged c rq)
  charged-IsRtValid =
      update_curr_rt-IsRtValid others c.bandwidth c.borrow c.is_rt c.enabled c.now c.exec_start rq v

  -- A queued task that is taken out and put back at once with flags that say it keeps its place, as a
  -- change of its parameters does, leaves lists, bitmap, number of tasks and highest priority as they
  -- were, and the class is on the run queue as the time that is charged leaves it.
  pub enqueue-dequeue :
      (p flags : ℕ)
      → (rq.tasks p).on_rq ≡ true
      → move_entity flags ≡ false
      → bit_and flags 0x01 ≡ 0
      → ((enqueue_task_rt find (dequeue_task_rt find c rq p flags) p flags).queue ≡ rq.queue)
        × ((enqueue_task_rt find (dequeue_task_rt find c rq p flags) p flags).bitmap ≡ rq.bitmap)
        × ((enqueue_task_rt find (dequeue_task_rt find c rq p flags) p flags).rt_nr_running
            ≡ rq.rt_nr_running)
        × ((enqueue_task_rt find (dequeue_task_rt find c rq p flags) p flags).highest ≡ rq.highest)
        × ((enqueue_task_rt find (dequeue_task_rt find c rq p flags) p flags).rt_queued
            ≡ (charged c rq).rt_queued)
        × ((enqueue_task_rt find (dequeue_task_rt find c rq p flags) p flags).nr_running
            ≡ (charged c rq).nr_running)
  unfolding dequeue_task_rt
  enqueue-dequeue p flags on m w =
      let (a, b, h, n, t) = charged-Untouched c rq in
      let (x0, x1, x2, x3, x4, x5) =
        enqueue-dequeue_entity find finds others (charged c rq) charged-IsRtValid p flags
          (ap (λ f. (f p).on_rq) t ∙ on) m w in
      (x0 ∙ a, x1 ∙ b, x2 ∙ n, x3 ∙ h, x4, x5)
