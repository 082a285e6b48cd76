-- ===== src/Sched/Rt/Methods.antt =====
-- The methods of rt.c that charge the time of the running task before they do their work.
pub mod Charged
use kenrel_learning.Common.{ℕ, Bool}
use kenrel_learning.ListHead.{ListApi}
use kenrel_learning.Sched.Rt.{RtRq, tick_slice, dequeue_rt_entity}
use kenrel_learning.Sched.Rt.Bandwidth.{RtBandwidth, update_curr_rt}

-- What update_curr_rt finds: the bandwidth, what can be borrowed, the class of the running task,
-- rt_bandwidth_enabled(), rq_clock_task and exec_start.
pub record Moment (L : ListApi) : Type 0 where
  pub bandwidth : RtBandwidth
  pub borrow : RtRq L → ℕ
  pub is_rt : Bool
  pub enabled : Bool
  pub now : ℕ
  pub exec_start : ℕ

module _ {L : ListApi} where
  abbrev pub charged : Moment L → RtRq L → RtRq L
  charged c rq = update_curr_rt c.bandwidth c.borrow c.is_rt c.enabled c.now c.exec_start rq

  unfoldable pub task_tick_rt : Moment L → ℕ → RtRq L → ℕ → RtRq L
  task_tick_rt c slice rq p = tick_slice slice (charged c rq) p

  unfoldable pub dequeue_task_rt : ((ℕ → Bool) → ℕ) → Moment L → RtRq L → ℕ → ℕ → RtRq L
  dequeue_task_rt find c rq p flags = dequeue_rt_entity find (charged c rq) p flags
