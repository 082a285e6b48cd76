-- ===== src/Sched/Rt/Bandwidth/Throttle.antt =====
-- What throttling does, and that it ends.
use kenrel_learning.Common.{
  ℕ, ◌+◌, ◌-◌, ◌^◌, ◌%◌, ◌<◌, ◌≡◌, ◌==◌, ltb, refl, ap, ◌∙◌, Bool, true, false, not, ◌||◌, arith,
}
use kenrel_learning.ListHead.{ListApi}
use kenrel_learning.Sched.Rt.{RtRq, resched_rt, dequeue_top_rt_rq, pick_next_task_rt, nothing}
use kenrel_learning.Sched.Rt.Queue.{IsRtValid, branch, taken_out}
use kenrel_learning.Sched.Rt.Bandwidth.{
  RtBandwidth, runtime_inf, balance_runtime, throttle, runtime_exceeded, charge, update_curr_rt,
}

module _ {L : ListApi} (others : ℕ) (rq : RtRq L) where
  -- The account of the time does not matter to the invariant.
  abbrev pub timed : ℕ → ℕ → Bool → RtRq L
  timed time runtime b = record rq { rt_time = time; rt_runtime = runtime; need_resched = b }

  pub timed-IsRtValid :
      (time runtime : ℕ) (b : Bool) → IsRtValid others rq → IsRtValid others (timed time runtime b)
  timed-IsRtValid time runtime b v = record {
    arrays = record {
      at_prio = v.arrays.at_prio;
      once = v.arrays.once;
      present = v.arrays.present;
      bits = v.arrays.bits;
      delimiter = v.arrays.delimiter;
      counted = v.arrays.counted;
      best = v.arrays.best;
    };
    top = v.top;
    runs = v.runs;
  }

  abbrev stopped : RtRq L
  stopped = record rq { rt_throttled = true; rt_queued = false; nr_running = others }

  stopped-IsRtValid : IsRtValid others rq → IsRtValid others stopped
  stopped-IsRtValid v = record {
    arrays = record {
      at_prio = v.arrays.at_prio;
      once = v.arrays.once;
      present = v.arrays.present;
      bits = v.arrays.bits;
      delimiter = v.arrays.delimiter;
      counted = v.arrays.counted;
      best = v.arrays.best;
    };
    top = refl;
    runs = refl;
  }

-- With the throttling set, the class is taken out as a whole.
throttled_out :
    {L : ListApi} (others : ℕ) (rq : RtRq L)
    → IsRtValid others rq
    → dequeue_top_rt_rq (record rq { rt_throttled = true }) ≡ stopped others rq
throttled_out others rq v =
    taken_out others (record rq { rt_throttled = true })
    ∙ ap (λ n. record rq { rt_throttled = true; rt_queued = false; nr_running = n })
        (ground (arith, v.runs))

module _ {L : ListApi} (others : ℕ) (b : RtBandwidth) (borrow : RtRq L → ℕ) where
  pub balance_runtime-IsRtValid :
      (rq : RtRq L) → IsRtValid others rq → IsRtValid others (balance_runtime b borrow rq)
  unfolding balance_runtime
  balance_runtime-IsRtValid rq v = branch others (not b.share) _ _ v (
      branch others (ltb rq.rt_runtime rq.rt_time) _ _
        (timed-IsRtValid others rq rq.rt_time (borrow rq) rq.need_resched v) v)

  throttle-IsRtValid : (rq : RtRq L) → IsRtValid others rq → IsRtValid others (throttle b borrow rq)
  unfolding throttle
  throttle-IsRtValid rq v =
      branch others (not (b.runtime == 0)) _ _
        (rw (throttled_out others rq v) (stopped-IsRtValid others rq v))
        (timed-IsRtValid others rq 0 rq.rt_runtime rq.need_resched v)

  runtime_exceeded-IsRtValid :
      (rq : RtRq L) → IsRtValid others rq → IsRtValid others (runtime_exceeded b borrow rq)
  unfolding runtime_exceeded
  runtime_exceeded-IsRtValid rq v =
      let rq' = balance_runtime b borrow rq in
      let w = balance_runtime-IsRtValid rq v in
      branch others rq.rt_throttled _ _ v (
        branch others (not (ltb rq.rt_runtime b.period)) _ _ v (
          branch others (rq'.rt_runtime == runtime_inf) _ _ w
            (branch others (ltb rq'.rt_runtime rq'.rt_time) _ _ (throttle-IsRtValid rq' w) w)))

  pub resched-IsRtValid : (rq : RtRq L) → IsRtValid others rq → IsRtValid others (resched_rt rq)
  resched-IsRtValid rq v = timed-IsRtValid others rq rq.rt_time rq.rt_runtime true v

  charge-IsRtValid : (rq : RtRq L) → IsRtValid others rq → IsRtValid others (charge b borrow rq)
  unfolding charge
  charge-IsRtValid rq v =
      let w = runtime_exceeded-IsRtValid rq v in
      branch others (runtime_exceeded b borrow rq).rt_throttled _ _ (resched-IsRtValid _ w) w

  pub update_curr_rt-IsRtValid :
      (is_rt enabled : Bool) (now exec_start : ℕ) (rq : RtRq L)
      → IsRtValid others rq
      → IsRtValid others (update_curr_rt b borrow is_rt enabled now exec_start rq)
  unfolding update_curr_rt
  update_curr_rt-IsRtValid is_rt enabled now exec_start rq v =
      let delta_exec = (now + 2 ^ 64 - exec_start) % 2 ^ 64 in
      branch others (not is_rt) _ _ v (
        branch others (delta_exec == 0 || not (ltb delta_exec (2 ^ 63))) _ _ v (
          branch others (not enabled) _ _ v (
            branch others (rq.rt_runtime == runtime_inf) _ _ v (
              charge-IsRtValid _ (
                timed-IsRtValid others rq ((rq.rt_time + delta_exec) % 2 ^ 64) rq.rt_runtime
                  rq.need_resched v)))))

  exceeded :
      (rq : RtRq L)
      → b.share ≡ false
      → (b.runtime == 0) ≡ false
      → rq.rt_throttled ≡ false
      → ltb rq.rt_runtime b.period ≡ true
      → (rq.rt_runtime == runtime_inf) ≡ false
      → ltb rq.rt_runtime rq.rt_time ≡ true
      → runtime_exceeded b borrow rq ≡ dequeue_top_rt_rq (record rq { rt_throttled = true })
  unfolding runtime_exceeded balance_runtime throttle
  exceeded rq s r t p i m = rw (t, p, s, i, m, r) refl

  -- When the time that the running real-time task has used takes the class over its share, the class
  -- is throttled, a reschedule is asked for, and no real-time task is picked. The class is not
  -- throttled before, bandwidth control is enabled, the share is less than the period, the bandwidth
  -- is positive, nothing is shared between CPUs, and times do not overflow.
  pub update_curr_rt-throttles :
      (find : (ℕ → Bool) → ℕ) (now exec_start : ℕ) (rq : RtRq L)
      → IsRtValid others rq
      → b.share ≡ false
      → 0 < b.runtime
      → rq.rt_throttled ≡ false
      → rq.rt_runtime < b.period
      → rq.rt_runtime < runtime_inf
      → exec_start < now
      → now < 2 ^ 63
      → rq.rt_runtime < rq.rt_time + (now - exec_start)
      → rq.rt_time + (now - exec_start) < 2 ^ 64
      → ((update_curr_rt b borrow true true now exec_start rq).rt_throttled ≡ true)
        × ((update_curr_rt b borrow true true now exec_start rq).need_resched ≡ true)
        × (pick_next_task_rt find (update_curr_rt b borrow true true now exec_start rq) ≡ nothing)
  unfolding update_curr_rt charge pick_next_task_rt
  update_curr_rt-throttles find now exec_start rq v s r t p i later small over fits =
      let delta : (now + 2 ^ 64 - exec_start) % 2 ^ 64 ≡ now - exec_start = omega arith in
      let used : (rq.rt_time + (now - exec_start)) % 2 ^ 64 ≡ rq.rt_time + (now - exec_start) =
        omega arith in
      let charged : RtRq L = record rq { rt_time = rq.rt_time + (now - exec_start) } in
      let some_time : (now - exec_start == 0) ≡ false = ground arith in
      let forward : ltb (now - exec_start) (2 ^ 63) ≡ true = ground arith in
      let finite : (rq.rt_runtime == runtime_inf) ≡ false = ground arith in
      let out =
        exceeded charged s (ground arith) t (ground arith) finite (ground arith)
        ∙ throttled_out others charged
            (timed-IsRtValid others rq charged.rt_time rq.rt_runtime rq.need_resched v) in
      rw (delta, used, some_time, forward, finite, out) (refl, refl, refl)
