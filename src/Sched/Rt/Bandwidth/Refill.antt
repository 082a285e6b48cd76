-- ===== src/Sched/Rt/Bandwidth/Refill.antt =====
-- The period timer keeps the invariant, and ends the throttling.
use kenrel_learning.Common.{
  ℕ, zero, suc, ◌+◌, ◌-◌, ◌*◌, ◌^◌, ◌%◌, ◌≤◌, ◌<◌, ◌≡◌, ◌==◌, ltb, refl, sym, ◌∙◌, Bool, true,
  false, not, ◌&&◌, if◌then◌else◌, min, arith, Bool-cases, inl, inr,
}
use mathlib.Core.Path.{subst}
use kenrel_learning.ListHead.{ListApi}
use kenrel_learning.Sched.Rt.{RtRq, resched_rt, enqueue_top_rt_rq}
use kenrel_learning.Sched.Rt.Arrays.{IsArray}
use kenrel_learning.Sched.Rt.Queue.{IsRtValid, branch, enqueue_top_lem}
use kenrel_learning.Sched.Rt.Bandwidth.{
  RtBandwidth, runtime_inf, sched_rt_rq_enqueue, balance_runtime, replenish, refill,
}
use kenrel_learning.Sched.Rt.Bandwidth.Throttle.{
  timed-IsRtValid, balance_runtime-IsRtValid, resched-IsRtValid,
}

and_left : (a c : Bool) → (a && c) ≡ true → a ≡ true
and_left true c e = refl
and_left false c e = e

unthrottled :
    {L : ListApi} (rq : RtRq L) (time : ℕ)
    → IsArray rq
    → IsArray (record rq { rt_time = time; rt_throttled = false })
unthrottled rq time v = record {
  at_prio = v.at_prio;
  once = v.once;
  present = v.present;
  bits = v.bits;
  delimiter = v.delimiter;
  counted = v.counted;
  best = v.best;
}

module _ {L : ListApi} (others : ℕ) (b : RtBandwidth) (borrow : RtRq L → ℕ) where
  kept : (rq : RtRq L) → rq.rt_queued ≡ true → enqueue_top_rt_rq rq ≡ rq
  unfolding enqueue_top_rt_rq
  kept rq q = rw q refl

  -- A class that is not queued is queued if it has tasks and is not throttled.
  woken :
      (rq : RtRq L)
      → rq.rt_queued ≡ false
      → rq.nr_running ≡ others
      → IsArray rq
      → IsRtValid others (sched_rt_rq_enqueue rq)
  unfolding sched_rt_rq_enqueue
  woken rq q n v = go (rq.rt_nr_running == 0) refl
    where
      go :
          (z : Bool)
          → (rq.rt_nr_running == 0) ≡ z
          → IsRtValid others (if z then rq else resched_rt (enqueue_top_rt_rq rq))
      go true e = record { arrays = v; top = q ∙ (ground arith); runs = n ∙ (ground arith) }
      go false e =
          resched-IsRtValid others b borrow (enqueue_top_rt_rq rq)
            (enqueue_top_lem others rq q n v).0

  -- The timer on a class that is not throttled: it is queued already, or has no tasks.
  awake :
      (rq : RtRq L)
      → IsRtValid others rq
      → rq.rt_throttled ≡ false
      → IsRtValid others (sched_rt_rq_enqueue rq)
  unfolding sched_rt_rq_enqueue enqueue_top_rt_rq
  awake rq v t = go (rq.rt_nr_running == 0) refl
    where
      go :
          (z : Bool)
          → (rq.rt_nr_running == 0) ≡ z
          → IsRtValid others (if z then rq else resched_rt (enqueue_top_rt_rq rq))
      go true e = v
      go false e =
          let q : rq.rt_queued ≡ true = v.top ∙ ground arith in
          resched-IsRtValid others b borrow (enqueue_top_rt_rq rq)
            (subst (IsRtValid others) (sym (kept rq q)) v)

  replenish-IsRtValid :
      (overrun : ℕ) (rq : RtRq L)
      → IsRtValid others rq
      → IsRtValid others (replenish b borrow overrun rq)
  unfolding replenish
  replenish-IsRtValid overrun rq v =
      let rq' = if rq.rt_throttled then balance_runtime b borrow rq else rq in
      let w : IsRtValid others rq' =
        branch others rq.rt_throttled _ _ (balance_runtime-IsRtValid others b borrow rq v) v in
      let time = rq'.rt_time - min rq'.rt_time (overrun * rq'.rt_runtime % 2 ^ 64) in
      go rq' time (rq'.rt_throttled && ltb time rq'.rt_runtime) refl w
    where
      go :
          (r : RtRq L) (time : ℕ) (z : Bool)
          → (r.rt_throttled && ltb time r.rt_runtime) ≡ z
          → IsRtValid others r
          → IsRtValid others (
              if z
              then sched_rt_rq_enqueue (record r { rt_time = time; rt_throttled = false })
              else record r { rt_time = time })
      go r time true e w =
          let t : r.rt_throttled ≡ true = and_left r.rt_throttled (ltb time r.rt_runtime) e in
          let q : r.rt_queued ≡ false = ground (arith, w.top) in
          woken (record r { rt_time = time; rt_throttled = false }) q (ground (arith, w.runs))
            (unthrottled r time w.arrays)
      go r time false e w = timed-IsRtValid others r time r.rt_runtime r.need_resched w

  pub refill-IsRtValid :
      (overrun : ℕ) (rq : RtRq L)
      → IsRtValid others rq
      → IsRtValid others (refill b borrow overrun rq)
  unfolding refill
  refill-IsRtValid overrun rq v =
      let reset = not b.share && not (rq.rt_runtime == runtime_inf) in
      let rq' = if reset then record rq { rt_runtime = b.runtime } else rq in
      let w : IsRtValid others rq' =
        branch others reset _ _ (timed-IsRtValid others rq rq.rt_time b.runtime rq.need_resched v)
          v in
      branch others (rq'.rt_time == 0 && rq'.rt_nr_running == 0) _ _ w (
        branch others (not (rq'.rt_time == 0)) _ _ (replenish-IsRtValid overrun rq' w)
          (go rq' rq'.rt_throttled refl w))
    where
      go :
          (r : RtRq L) (z : Bool)
          → r.rt_throttled ≡ z
          → IsRtValid others r
          → IsRtValid others (if not z then sched_rt_rq_enqueue r else r)
      go r true e w = w
      go r false e w = awake r w e

-- Some runs of the timer, each after one period.
unfoldable pub refills : {L : ListApi} → RtBandwidth → (RtRq L → ℕ) → ℕ → RtRq L → RtRq L
refills b borrow zero rq = rq
refills b borrow (suc n) rq = refills b borrow n (refill b borrow 1 rq)

module _ {L : ListApi} (b : RtBandwidth) (borrow : RtRq L → ℕ) (alone : b.share ≡ false)
    (positive : 0 < b.runtime) (finite : b.runtime < runtime_inf) where
  enqueue_keeps_throttle : (rq : RtRq L) → (sched_rt_rq_enqueue rq).rt_throttled ≡ rq.rt_throttled
  unfolding sched_rt_rq_enqueue enqueue_top_rt_rq
  enqueue_keeps_throttle rq = ground arith

  -- A throttled class with little more than its share of a period is released by the timer.
  released :
      (rq : RtRq L)
      → rq.rt_throttled ≡ true
      → rq.rt_runtime < runtime_inf
      → b.runtime ≤ rq.rt_time
      → rq.rt_time < 2 * b.runtime
      → (refill b borrow 1 rq).rt_throttled ≡ false
  unfolding refill replenish balance_runtime
  released rq t i low high =
      let inf : (rq.rt_runtime == runtime_inf) ≡ false = ground arith in
      let some_time : (rq.rt_time == 0) ≡ false = ground arith in
      let share : min rq.rt_time (1 * b.runtime % 2 ^ 64) ≡ b.runtime = omega arith in
      let ends : ltb (rq.rt_time - b.runtime) b.runtime ≡ true = ground arith in
      rw (alone, inf, some_time, t, share, ends) (enqueue_keeps_throttle _)

  -- A throttled class with more gets one share back.
  lessened :
      (rq : RtRq L)
      → rq.rt_throttled ≡ true
      → rq.rt_runtime < runtime_inf
      → 2 * b.runtime ≤ rq.rt_time
      → ((refill b borrow 1 rq).rt_throttled ≡ true)
        × ((refill b borrow 1 rq).rt_runtime ≡ b.runtime)
        × ((refill b borrow 1 rq).rt_time ≡ rq.rt_time - b.runtime)
  unfolding refill replenish balance_runtime
  lessened rq t i low =
      let inf : (rq.rt_runtime == runtime_inf) ≡ false = ground arith in
      let some_time : (rq.rt_time == 0) ≡ false = ground arith in
      let share : min rq.rt_time (1 * b.runtime % 2 ^ 64) ≡ b.runtime = omega arith in
      let stays : ltb (rq.rt_time - b.runtime) b.runtime ≡ false = ground arith in
      rw (alone, inf, some_time, t, share, stays) (refl, refl, refl)

  free_branch :
      (c : Bool) (x y : RtRq L)
      → x.rt_throttled ≡ false
      → y.rt_throttled ≡ false
      → (if c then x else y).rt_throttled ≡ false
  free_branch true x y t u = t
  free_branch false x y t u = u

  balance_free :
      (rq : RtRq L) → rq.rt_throttled ≡ false → (balance_runtime b borrow rq).rt_throttled ≡ false
  unfolding balance_runtime
  balance_free rq t =
      free_branch (not b.share) _ _ t (free_branch (ltb rq.rt_runtime rq.rt_time) _ _ t t)

  replenish_free :
      (rq : RtRq L) → rq.rt_throttled ≡ false → (replenish b borrow 1 rq).rt_throttled ≡ false
  unfolding replenish
  replenish_free rq t =
      let rq' = if rq.rt_throttled then balance_runtime b borrow rq else rq in
      let u : rq'.rt_throttled ≡ false = free_branch rq.rt_throttled _ _ (balance_free rq t) t in
      let time = rq'.rt_time - min rq'.rt_time (1 * rq'.rt_runtime % 2 ^ 64) in
      free_branch (rq'.rt_throttled && ltb time rq'.rt_runtime) _ _
        (enqueue_keeps_throttle (record rq' { rt_time = time; rt_throttled = false })) u

  -- The timer throttles nothing.
  stays_free : (rq : RtRq L) → rq.rt_throttled ≡ false → (refill b borrow 1 rq).rt_throttled ≡ false
  unfolding refill
  stays_free rq t =
      let reset = not b.share && not (rq.rt_runtime == runtime_inf) in
      let rq' = if reset then record rq { rt_runtime = b.runtime } else rq in
      let u : rq'.rt_throttled ≡ false = free_branch reset _ _ t t in
      free_branch (rq'.rt_time == 0 && rq'.rt_nr_running == 0) _ _ u (
        free_branch (not (rq'.rt_time == 0)) _ _ (replenish_free rq' u)
          (free_branch (not rq'.rt_throttled) _ _ (enqueue_keeps_throttle rq' ∙ u) u))

  refills-free :
      (n : ℕ) (rq : RtRq L) → rq.rt_throttled ≡ false → (refills b borrow n rq).rt_throttled ≡ false
  unfolding refills
  refills-free zero rq t = t
  refills-free (suc n) rq t = refills-free n (refill b borrow 1 rq) (stays_free rq t)

  one_more : (n : ℕ) → (suc n + 2) * b.runtime ≡ (n + 2) * b.runtime + b.runtime
  one_more n = omega arith

  -- A throttled class that has used less than n + 2 times its share of a period is released when the
  -- timer has run n + 1 times, if nothing is charged in between and nothing is shared between CPUs.
  pub refills-release :
      (n : ℕ) (rq : RtRq L)
      → rq.rt_throttled ≡ true
      → rq.rt_runtime < runtime_inf
      → b.runtime ≤ rq.rt_time
      → rq.rt_time < (n + 2) * b.runtime
      → (refills b borrow (suc n) rq).rt_throttled ≡ false
  unfolding refills
  refills-release zero rq t i low high = released rq t i low high
  refills-release (suc n) rq t i low high = elim (Bool-cases (ltb rq.rt_time (2 * b.runtime))) [
    | inl h ↦ refills-free (suc n) (refill b borrow 1 rq) (released rq t i low (ground arith))
    | inr h ↦
        let (t', r, time) = lessened rq t i (ground arith) in
        refills-release n (refill b borrow 1 rq) t' (rw r finite) (rw time (ground arith))
          (rw time (omega (arith, one_more n)))
  ]
