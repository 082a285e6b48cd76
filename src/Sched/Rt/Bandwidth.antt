-- ===== src/Sched/Rt/Bandwidth.antt =====
-- The bandwidth of the real-time class in rt.c: update_curr_rt, sched_rt_runtime_exceeded and
-- do_sched_rt_period_timer for one CPU. The clock, and what do_balance_runtime borrows from the other
-- CPUs, are arguments.
pub mod Throttle
pub mod Refill
use kenrel_learning.Common.{
  ℕ, suc, ◌+◌, ◌-◌, ◌*◌, ◌^◌, ◌%◌, ◌==◌, ltb, Bool, true, false, not, ◌&&◌, ◌||◌, if◌then◌else◌,
  min,
}
use kenrel_learning.ListHead.{ListApi}
use kenrel_learning.Sched.Rt.{RtRq, resched_rt, dequeue_top_rt_rq, enqueue_top_rt_rq}

-- RUNTIME_INF
abbrev pub runtime_inf : ℕ
runtime_inf = 2 ^ 64 - 1

-- def_rt_bandwidth, and whether the feature RT_RUNTIME_SHARE is on.
pub record RtBandwidth : Type 0 where
  pub period : ℕ
  pub runtime : ℕ
  pub share : Bool

-- Functions that a run queue is charged and refilled with.
module _ {L : ListApi} where
  -- sched_rt_rq_enqueue without groups.
  unfoldable pub sched_rt_rq_enqueue : RtRq L → RtRq L
  sched_rt_rq_enqueue rq = if rq.rt_nr_running == 0 then rq else resched_rt (enqueue_top_rt_rq rq)

  module _ (b : RtBandwidth) (borrow : RtRq L → ℕ) where
    unfoldable pub balance_runtime : RtRq L → RtRq L
    balance_runtime rq =
        if not b.share
        then rq
        else if ltb rq.rt_runtime rq.rt_time
        then record rq { rt_runtime = borrow rq }
        else rq

    -- The class has used more time than it has.
    unfoldable pub throttle : RtRq L → RtRq L
    throttle rq =
        if not (b.runtime == 0)
        then dequeue_top_rt_rq (record rq { rt_throttled = true })
        else record rq { rt_time = 0 }

    -- sched_rt_runtime_exceeded: the queue afterwards.
    unfoldable pub runtime_exceeded : RtRq L → RtRq L
    runtime_exceeded rq =
        if rq.rt_throttled
        then rq
        else if not (ltb rq.rt_runtime b.period)
        then rq
        else (let rq' = balance_runtime rq in
            if rq'.rt_runtime == runtime_inf
            then rq'
            else if ltb rq'.rt_runtime rq'.rt_time
            then throttle rq'
            else rq')

    -- The end of update_curr_rt; the answer of sched_rt_runtime_exceeded is whether the class is
    -- throttled then.
    unfoldable pub charge : RtRq L → RtRq L
    charge rq = let rq' = runtime_exceeded rq in if rq'.rt_throttled then resched_rt rq' else rq'

    -- update_curr_rt: `is_rt` is the test of the class of the running task, `enabled` is
    -- rt_bandwidth_enabled().
    unfoldable pub update_curr_rt : Bool → Bool → ℕ → ℕ → RtRq L → RtRq L
    update_curr_rt is_rt enabled now exec_start rq =
        let delta_exec = (now + 2 ^ 64 - exec_start) % 2 ^ 64 in
        if not is_rt
        then rq
        else if delta_exec == 0 || not (ltb delta_exec (2 ^ 63))
        then rq
        else if not enabled
        then rq
        else if rq.rt_runtime == runtime_inf
        then rq
        else charge (record rq { rt_time = (rq.rt_time + delta_exec) % 2 ^ 64 })

    -- The time that a run queue gets back, and the end of its throttling.
    unfoldable pub replenish : ℕ → RtRq L → RtRq L
    replenish overrun rq =
        let rq' = if rq.rt_throttled then balance_runtime rq else rq in
        let time = rq'.rt_time - min rq'.rt_time (overrun * rq'.rt_runtime % 2 ^ 64) in
        if rq'.rt_throttled && ltb time rq'.rt_runtime
        then sched_rt_rq_enqueue (record rq' { rt_time = time; rt_throttled = false })
        else record rq' { rt_time = time }

    -- The body of the loop of do_sched_rt_period_timer.
    unfoldable pub refill : ℕ → RtRq L → RtRq L
    refill overrun rq =
        let rq' =
          if not b.share && not (rq.rt_runtime == runtime_inf)
          then record rq { rt_runtime = b.runtime }
          else rq in
        if rq'.rt_time == 0 && rq'.rt_nr_running == 0
        then rq'
        else if not (rq'.rt_time == 0)
        then replenish overrun rq'
        else if not rq'.rt_throttled
        then sched_rt_rq_enqueue rq'
        else rq'
