-- ===== src/Sched/Rt/Reach.antt =====
-- The operations of rt.c in any order, from init_rt_rq on.
use kenrel_learning.Common.{ℕ, ◌≤◌, ◌<◌, ◌≡◌, Bool, true, false, []}
use kenrel_learning.ListHead.{ListApi}
use kenrel_learning.Sched.Rt.{
  RtRq, move_entity, init_rt_rq, yield_task_rt, check_preempt_curr_rt, enqueue_task_rt,
}
use kenrel_learning.Sched.Rt.Bandwidth.{RtBandwidth, update_curr_rt, refill}
use kenrel_learning.Sched.Rt.Methods.{Moment, task_tick_rt, dequeue_task_rt}

-- A run queue without real-time tasks; there is no list behind the hundred.
pub record IsFresh {L : ListApi} (others : ℕ) (rq : RtRq L) : Type 0 where
  pub no_more : (j : ℕ) → 100 ≤ j → L.contents rq.queue j ≡ []
  pub no_tasks : (t : ℕ) → (rq.tasks t).on_rq ≡ false
  pub none_counted : rq.rt_nr_running ≡ 0
  pub only_others : rq.nr_running ≡ others

-- One call of a method of the class.
pub data RtStep {L : ListApi} (find : (ℕ → Bool) → ℕ) (rq : RtRq L) : RtRq L → Type 0 where
  enqueues :
      (p flags : ℕ)
      → (rq.tasks p).on_rq ≡ false
      → (rq.tasks p).prio < 100
      → move_entity flags ≡ true
      → RtStep find rq (enqueue_task_rt find rq p flags)
  dequeues :
      (c : Moment L) (p flags : ℕ)
      → (rq.tasks p).on_rq ≡ true
      → move_entity flags ≡ true
      → RtStep find rq (dequeue_task_rt find c rq p flags)
  yields : RtStep find rq (yield_task_rt rq)
  ticks : (c : Moment L) (slice p : ℕ) → RtStep find rq (task_tick_rt c slice rq p)
  preempts :
      (p : ℕ) (curr_moves p_moves : Bool)
      → RtStep find rq (check_preempt_curr_rt rq p curr_moves p_moves)
  charges :
      (b : RtBandwidth) (borrow : RtRq L → ℕ) (is_rt enabled : Bool) (now exec_start : ℕ)
      → RtStep find rq (update_curr_rt b borrow is_rt enabled now exec_start rq)
  refreshes :
      (b : RtBandwidth) (borrow : RtRq L → ℕ) (overrun : ℕ)
      → RtStep find rq (refill b borrow overrun rq)
  switches : (p : ℕ) → RtStep find rq (record rq { curr = p; need_resched = false })

pub data RtReachable {L : ListApi} (find : (ℕ → Bool) → ℕ) (start : RtRq L) : RtRq L → Type 0 where
  initial : RtReachable find start (init_rt_rq start)
  then_step :
      {mid rq : RtRq L}
      → RtReachable find start mid
      → RtStep find mid rq
      → RtReachable find start rq
