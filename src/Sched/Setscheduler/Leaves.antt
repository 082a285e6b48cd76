-- ===== src/Sched/Setscheduler/Leaves.antt =====
-- A TS task that leaves the class by sched_setscheduler.
use kenrel_learning.Common.{
  ℕ, ◌+◌, ◌<◌, ◌≡◌, ◌==◌, refl, ap, ◌∙◌, ℤ, negsuc, ◌≤ℤ◌, ltb_ℤ, Bool, true, false, none, some,
  arith, count, remove, if◌then◌else◌,
}
use kenrel_learning.ListHead.{ListApi, ListLaws, IsUnlinked}
use kenrel_learning.Sched.Task.{Task, Rq, ts_sched_class, fair_sched_class, sched_normal, sched_ts}
use kenrel_learning.Sched.Ts.{dequeue_task_ts}
use kenrel_learning.Sched.Ts.Queues.{IsValid, dequeue_task_ts_lem, unlinked-IsValid}
use kenrel_learning.Sched.Policy.{SchedAttr, setscheduler}
use kenrel_learning.Sched.Change.{Methods, take_out, enqueue_task, set_curr, check_class_changed}
use kenrel_learning.Sched.Change.Dispatch.{take_out-ts}
use kenrel_learning.Sched.Change.Access.{Caller, check_access, reset_on_fork}
use kenrel_learning.Sched.Setscheduler.{
  Situation, put_changed, make_change, move_flags, changed, locked, sched_setscheduler, put_task,
  nothing_new,
}
use kenrel_learning.Sched.Setscheduler.Keeps.{Same, KeepsTs, Same-IsValid}
use kenrel_learning.Sched.Setscheduler.Moves.{Same-trans, flagged, reset_params}

setscheduler-normal :
    (t : Task) (attr : SchedAttr)
    → attr.sched_policy ≡ sched_normal
    → negsuc 19 ≤ℤ attr.sched_nice
    → (setscheduler t attr true none).sched_class ≡ fair_sched_class
unfolding setscheduler
setscheduler-normal t attr e h = ground arith

-- The flag alone moves no task.
flagged-IsValid :
    {L : ListApi} (m : Methods L) (rq : Rq L) (p : ℕ) (attr : SchedAttr)
    → IsValid rq
    → IsValid (flagged m rq p attr)
flagged-IsValid m rq p attr v = record {
  at_level = λ t j n. ground (arith, v.at_level t j);
  once = λ t j. v.once t j;
}

-- `rq'` is `rq` with `p` out of the TS queues.
pub record Left {L : ListApi} (rq : Rq L) (p : ℕ) (rq' : Rq L) : Type 0 where
  pub valid : IsValid rq'
  pub class : (rq'.tasks p).sched_class ≡ fair_sched_class
  pub unlinked : IsUnlinked L rq'.ts p
  pub queues : (j : ℕ) → L.contents rq'.ts j ≡ remove p (L.contents rq.ts j)

module _ {L : ListApi} (m : Methods L) (keeps : KeepsTs m) where
  class_changed_from_ts :
      (rq : Rq L) (p : ℕ) (old : ℤ)
      → (rq.tasks p).sched_class ≡ fair_sched_class
      → Same rq (check_class_changed m rq p ts_sched_class old)
  unfolding check_class_changed
  class_changed_from_ts rq p old c = rw c (keeps.switched_to fair_sched_class rq p)

  set_curr_fair :
      (rq : Rq L) (p : ℕ) (b : Bool)
      → (rq.tasks p).sched_class ≡ fair_sched_class
      → Same rq (if b then set_curr m rq p else rq)
  unfolding set_curr
  set_curr_fair rq p true c = rw (c, set_curr) (keeps.set_curr_task fair_sched_class rq)
  set_curr_fair rq p false c = record { ts = refl; tasks = refl; curr = refl }

  enqueue_fair :
      (rq : Rq L) (p flags : ℕ)
      → (rq.tasks p).sched_class ≡ fair_sched_class
      → (r : Rq L) × (enqueue_task m rq p flags ≡ some r) × Same rq r
  unfolding enqueue_task
  enqueue_fair rq p flags c =
      let (r, run, s) = keeps.enqueue fair_sched_class rq p flags in
      (r, rw (c, enqueue_task) run, s)

  put_changed_to_fair :
      (rq set : Rq L) (p flags : ℕ)
      → (rq.tasks p).sched_class ≡ ts_sched_class
      → (set.tasks p).sched_class ≡ fair_sched_class
      → (rq' : Rq L) × (put_changed m rq set p true flags ≡ some rq') × Same set rq'
  unfolding put_changed
  put_changed_to_fair rq set p flags c d =
      let (r, run, s) = enqueue_fair set p flags d in
      let e : (r.tasks p).sched_class ≡ fair_sched_class = rw (s.tasks) d in
      let b = rq.curr == p in
      let u = set_curr_fair r p b e in
      let r' = if b then set_curr m r p else r in
      let w = class_changed_from_ts r' p (rq.tasks p).prio (rw (u.tasks) e) in
      (
        check_class_changed m r' p ts_sched_class (rq.tasks p).prio,
        rw (c, run) refl,
        Same-trans m keeps set r _ s (Same-trans m keeps r r' _ u w),
      )

module _ {L : ListApi} (laws : ListLaws L) (m : Methods L) (keeps : KeepsTs m) where
  -- A queued TS task of queue `i` whose policy is changed to SCHED_NORMAL, with a nice value of -20
  -- or more and no boost pending, is a fair task afterwards and in no TS queue; the order of the
  -- other TS tasks is as it was.
  pub make_change-Left :
      (rq : Rq L) (p i : ℕ) (attr : SchedAttr) (s : Situation)
      → IsValid rq
      → 0 < count p (L.contents rq.ts i)
      → (rq.tasks p).sched_class ≡ ts_sched_class
      → attr.sched_policy ≡ sched_normal
      → negsuc 19 ≤ℤ attr.sched_nice
      → s.queued ≡ true
      → s.donor ≡ none
      → (rq' : Rq L) × (make_change m rq p attr true s ≡ some rq') × Left rq p rq'
  unfolding make_change dequeue_task_ts
  make_change-Left rq p i attr s v n c e nice q d =
      let t = rq.tasks p in
      let flags = move_flags attr true none t.prio in
      let rq0 = flagged m rq p attr in
      let out = dequeue_task_ts rq0 p flags in
      let taken : take_out m rq0 p true flags ≡ out = take_out-ts m rq0 p flags (ground arith) in
      let (v1, u1, gone) =
        dequeue_task_ts_lem laws rq0 p flags i (flagged-IsValid m rq p attr v) n in
      let set = reset_params m rq out p attr in
      let class = setscheduler-normal (out.tasks p) attr e nice in
      let set_class : (set.tasks p).sched_class ≡ fair_sched_class = ground (arith, class) in
      let flags' = if ltb_ℤ t.prio (set.tasks p).prio then flags + 0x10 else flags in
      let (rq', run, same) = put_changed_to_fair m keeps rq set p flags' c set_class in
      let v2 = unlinked-IsValid out set p v1 u1 refl (λ q ne. ground arith) in
      (
        rq',
        rw (q, d, taken) run,
        record {
          valid = Same-IsValid set rq' same v2;
          class = rw (same.tasks) set_class;
          unlinked = rw (same.ts) u1;
          queues = λ j. ap (λ x. L.contents x j) (same.ts) ∙ gone j;
        },
      )

-- When a TS task that is let through is given the TS policy again, with whatever nice value, only its
-- reset flag is set: the nice value that was asked for is not, and the call succeeds.
pub sched_setscheduler-keeps_nice :
    {L : ListApi} (m : Methods L) (c : Caller) (rq : Rq L) (p : ℕ) (attr : SchedAttr) (pi : Bool)
    (s : Situation)
    → (rq.tasks p).policy ≡ sched_ts
    → attr.sched_policy ≡ sched_ts
    → s.is_stop ≡ false
    → check_access c (rq.tasks p) attr ≡ none
    → sched_setscheduler m c rq p attr pi s
      ≡ changed (
          put_task m rq p
            (record (rq.tasks p) { sched_reset_on_fork = reset_on_fork (rq.tasks p) attr }))
unfolding sched_setscheduler locked
sched_setscheduler-keeps_nice m c rq p attr pi s t a stop h =
    let same : nothing_new (rq.tasks p) attr s.dl_changed ≡ true = rw (a, t) refl in
    rw (h, sched_setscheduler) (rw (stop, same) refl)
