-- ===== src/Sched/Queries/Lower.antt =====
-- nice on a task of the TS class.
use kenrel_learning.Common.{
  ℕ, ◌-◌, ◌<◌, ◌≡◌, refl, pos, ltb_ℤ, ◌+ℤ◌, true, false, none, arith, count,
}
use kenrel_learning.ListHead.{ListApi, ListLaws}
use kenrel_learning.Sched.Task.{Rq, ts_sched_class, eq_ℤ, sched_ts}
use kenrel_learning.Sched.Policy.{prio_to_nice}
use kenrel_learning.Sched.Ts.Queues.{IsValid, Moved}
use kenrel_learning.Sched.Change.{Methods}
use kenrel_learning.Sched.Change.Nice.{nice_of, set_user_nice-ts}
use kenrel_learning.Sched.Setscheduler.{changed}
use kenrel_learning.Sched.Setscheduler.Attr.{clamp_nice}
use kenrel_learning.Sched.Queries.{clamp_increment, sys_nice}

lowered :
    (i n : ℕ)
    → i < 40
    → clamp_nice (prio_to_nice (pos (139 - i)) +ℤ clamp_increment (pos n)) ≡ nice_of (i - n)
lowered i n h = ground arith

another :
    (i n : ℕ)
    → i < 40
    → 0 < i
    → 0 < n
    → eq_ℤ (prio_to_nice (pos (139 - i))) (nice_of (i - n)) ≡ false
another i n h p q = ground arith

module _ {L : ListApi} (laws : ListLaws L) (m : Methods L) where
  -- When the TS task that runs calls nice with n, it is let through without any privilege: it leaves
  -- its queue for the end of the queue n below the one of its nice value, or the lowest, and the
  -- queues stay valid. Its nice value is not the lowest, n is positive, and the security
  -- module does not object.
  pub sys_nice-lowers :
      (rq : Rq L) (i j n limit : ℕ)
      → IsValid rq
      → 0 < count rq.curr (L.contents rq.ts j)
      → (rq.tasks rq.curr).sched_class ≡ ts_sched_class
      → (rq.tasks rq.curr).policy ≡ sched_ts
      → (rq.tasks rq.curr).static_prio ≡ pos (139 - i)
      → i < 40
      → 0 < i
      → 0 < n
      → (rq' : Rq L) × (sys_nice m rq limit false none true (pos n) ≡ changed rq')
        × IsValid rq'
        × Moved L rq.ts rq.curr (i - n) rq'.ts
  unfolding sys_nice
  sys_nice-lowers rq i j n limit v q c y s b a p =
      let ne : eq_ℤ (prio_to_nice (rq.tasks rq.curr).static_prio) (nice_of (i - n)) ≡ false =
        rw s (another i n b a p) in
      let (rq', run, v', moved) =
        set_user_nice-ts laws m rq rq.curr j (i - n) v q c y (omega arith) ne in
      let up : ltb_ℤ (clamp_increment (pos n)) (pos 0) ≡ false = ground arith in
      (rq', rw (up, s, lowered i n b, run) refl, v', moved)
