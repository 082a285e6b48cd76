-- ===== src/Sched/Rt/Share.antt =====
-- How the CPUs lend each other real-time run time in rt.c: do_balance_runtime, __disable_runtime and
-- __enable_runtime. The CPU at hand stands apart from the others of its root domain, which the loops
-- visit in their order; each of the loops leaves out the CPU itself. The scheduler is running.
pub mod Lend
pub mod Reclaim
pub mod Balance
use kenrel_learning.Common.{
  ℕ, zero, suc, ◌+◌, ◌-◌, ◌/◌, ◌%◌, ◌^◌, ◌==◌, ltb, min, ℤ, pos, negsuc, Bool, true, false, not,
  ◌&&◌, ◌||◌, Option, none, some, List, [], ◌∷◌, if◌then◌else◌,
}
use kenrel_learning.ListHead.{ListApi}
use kenrel_learning.Sched.Rt.{RtRq}
use kenrel_learning.Sched.Rt.Bandwidth.{runtime_inf, RtBandwidth, sched_rt_rq_enqueue}

-- What another CPU has been given, and what it has used.
pub record Account : Type 0 where
  pub rt_runtime : ℕ
  pub rt_time : ℕ

-- A difference of two u64 as an s64, 0 for a negative one.
abbrev pub spare : Account → ℕ
spare a = let d = (a.rt_runtime + 2 ^ 64 - a.rt_time) % 2 ^ 64 in if ltb d (2 ^ 63) then d else 0

-- The share of the spare time that is taken, no more than the period leaves room for.
abbrev pub diff : ℕ → ℕ → ℕ → Account → ℕ
diff weight rt_period runtime a =
    let part = spare a / weight in
    if ltb rt_period ((runtime + part) % 2 ^ 64)
    then (rt_period + 2 ^ 64 - runtime) % 2 ^ 64
    else part

abbrev pub lends : ℕ → Account → Account
lends d a = record a { rt_runtime = (a.rt_runtime + 2 ^ 64 - d) % 2 ^ 64 }

abbrev pub with_account : Account → ℕ × List Account → ℕ × List Account
with_account a (runtime, others) = (runtime, a ∷ others)

-- The loop of do_balance_runtime, for a CPU that has `runtime`.
unfoldable pub do_balance_runtime : ℕ → ℕ → ℕ → List Account → ℕ × List Account
do_balance_runtime weight rt_period runtime [] = (runtime, [])
do_balance_runtime weight rt_period runtime (a ∷ r) =
    let d = diff weight rt_period runtime a in
    let more = (runtime + d) % 2 ^ 64 in
    let goes = not (a.rt_runtime == runtime_inf) && not (spare a == 0) in
    let rest = do_balance_runtime weight rt_period (if goes then more else runtime) r in
    if not goes
    then with_account a rest
    else if more == rt_period
    then (more, lends d a ∷ r)
    else with_account (lends d a) rest

abbrev pub with_want : Account → ℤ × List Account → ℤ × List Account
with_want a (want, others) = (want, a ∷ others)

-- The loop of __disable_runtime: what is left to take back, or with a minus sign to give back. min_t
-- compares as s64, so a run time is RUNTIME_INF or below 2 ^ 63.
unfoldable pub reclaim : ℤ → List Account → ℤ × List Account
reclaim want [] = (want, [])
reclaim (pos want) (a ∷ r) =
    let d = min a.rt_runtime want in
    let rest = reclaim (pos (if a.rt_runtime == runtime_inf then want else want - d)) r in
    if a.rt_runtime == runtime_inf
    then with_want a rest
    else if want - d == 0
    then (pos 0, record a { rt_runtime = a.rt_runtime - d } ∷ r)
    else with_want (record a { rt_runtime = a.rt_runtime - d }) rest
reclaim (negsuc k) (a ∷ r) =
    let rest = reclaim (negsuc k) r in
    if a.rt_runtime == runtime_inf
    then with_want a rest
    else (pos 0, record a { rt_runtime = (a.rt_runtime + suc k) % 2 ^ 64 } ∷ r)

-- rt_b->rt_runtime - rt_rq->rt_runtime, as an s64.
abbrev pub wanted : ℕ → ℕ → ℤ
wanted full runtime =
    let d = (full + 2 ^ 64 - runtime) % 2 ^ 64 in
    if ltb d (2 ^ 63) then pos d else negsuc (2 ^ 64 - 1 - d)

-- `none` is the BUG_ON.
abbrev pub no_want : ℤ × List Account → Option (List Account)
no_want (pos zero, others) = some others
no_want (pos (suc n), others) = none
no_want (negsuc n, others) = none

-- What the others have when __disable_runtime is at `balanced`.
unfoldable pub take_back : ℕ → ℕ → List Account → Option (List Account)
take_back full runtime others =
    if runtime == runtime_inf || runtime == full
    then some others
    else no_want (reclaim (wanted full runtime) others)

module _ {L : ListApi} where
  -- The CPU itself from `balanced` on.
  unfoldable pub disabled : RtRq L → RtRq L
  disabled rq = sched_rt_rq_enqueue (record rq { rt_runtime = runtime_inf; rt_throttled = false })

  abbrev pub out_of_use : RtRq L → Option (List Account) → Option (RtRq L × List Account)
  out_of_use rq none = none
  out_of_use rq (some others) = some (disabled rq, others)

  unfoldable pub disable_runtime :
      RtBandwidth → RtRq L → List Account → Option (RtRq L × List Account)
  disable_runtime b rq others = out_of_use rq (take_back b.runtime rq.rt_runtime others)

  unfoldable pub enable_runtime : RtBandwidth → RtRq L → RtRq L
  enable_runtime b rq = record rq { rt_runtime = b.runtime; rt_time = 0; rt_throttled = false }
