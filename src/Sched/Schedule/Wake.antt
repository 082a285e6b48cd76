-- ===== src/Sched/Schedule/Wake.antt =====
-- The wake-up of a TS task while another TS task runs.
use native.Mathlib.Decide.{dec_lt}
use kenrel_learning.Common.{
  ℕ, ◌≤◌, ◌<◌, ◌≡◌, ◌≢◌, ◌⊎◌, ◌==◌, ltb, refl, ◌∙◌, inl, inr, true, some, [], ◌∷◌, ◌++◌, arith,
  count, count-append, count-single, bit_and, if◌then◌else◌, Bool-cases,
}
use kenrel_learning.ListHead.{ListApi, ListLaws, IsUnlinked}
use kenrel_learning.Sched.Task.{Rq, ts_sched_class, resched_curr}
use kenrel_learning.Sched.Ts.{level, enqueue_wakeup, check_preempt_curr_ts}
use kenrel_learning.Sched.Ts.Level.{level_prio, level-lt}
use kenrel_learning.Sched.Ts.Queues.{
  IsValid, enqueue_task_ts_lem, enqueue_task_ts_keeps, maybe_resched, maybe_resched_lem,
}
use kenrel_learning.Sched.PickNext.{Others, check_preempt_curr}
use kenrel_learning.Sched.Change.{Methods}
use kenrel_learning.Sched.Change.Dispatch.{enqueue_task-ts}
use kenrel_learning.Sched.Schedule.{
  Ticks, wakeup_flags, activate_task, woken, ttwu_do_wakeup, ttwu_do_activate,
}

wakes : (flags : ℕ) → bit_and (wakeup_flags flags) enqueue_wakeup ≢ 0
wakes flags = elim (Bool-cases (bit_and flags 0x4 == 0)) [
  | inl h ↦ rw h (λ e. omega arith)
  | inr h ↦ rw h (λ e. omega arith)
]

preempts :
    {L : ListApi} (rq : Rq L) (p flags c k : ℕ)
    → level (rq.tasks p).prio ≡ some k
    → level (rq.tasks rq.curr).prio ≡ some c
    → check_preempt_curr_ts rq p flags ≡ maybe_resched (ltb c k) rq
unfolding check_preempt_curr_ts maybe_resched
preempts rq p flags c k h g =
    let a = level_prio (rq.tasks p).prio h in
    let b = level_prio (rq.tasks rq.curr).prio g in
    let x = level-lt (rq.tasks p).prio h in
    let y = level-lt (rq.tasks rq.curr).prio g in rw (a, b) (ground arith)

module _ {L : ListApi} (m : Methods L) (o : Others L) (k : Ticks L) where
  check_preempt_curr-ts :
      (rq : Rq L) (p flags : ℕ)
      → (rq.tasks p).sched_class ≡ ts_sched_class
      → (rq.tasks rq.curr).sched_class ≡ ts_sched_class
      → check_preempt_curr o rq p flags ≡ check_preempt_curr_ts rq p flags
  unfolding check_preempt_curr
  check_preempt_curr-ts rq p flags c d = rw (c, d, check_preempt_curr) refl

  woken-ts : (rq : Rq L) (p : ℕ) → (rq.tasks p).sched_class ≡ ts_sched_class → woken m o k rq p ≡ rq
  unfolding woken
  woken-ts rq p c = rw (c, woken) refl

top_ten :
    (flags i k : ℕ)
    → ((bit_and flags enqueue_wakeup ≡ 0) × (k ≡ i))
      ⊎ ((bit_and flags enqueue_wakeup ≢ 0) × (30 ≤ k))
    → bit_and flags enqueue_wakeup ≢ 0
    → 30 ≤ k
top_ten flags i k (inl (z, _)) n = absurd (n z)
top_ten flags i k (inr (_, h)) n = h

gives_way :
    {L : ListApi} (c k : ℕ) (rq : Rq L)
    → ((maybe_resched (ltb c k) rq).need_resched ≡ true) ⊎ (k ≤ c)
unfolding maybe_resched resched_curr
gives_way c k rq = elim (dec_lt c k) [ yes h ↦ inl (ground arith) | no h ↦ inr (omega arith) ]

-- The queues after a wake-up, and the reschedule.
pub record Woken {L : ListApi} (rq : Rq L) (p i c : ℕ) (rq' : Rq L) (k : ℕ) : Type 0 where
  pub valid : IsValid rq'
  pub queues :
      (j : ℕ)
      → L.contents rq'.ts j ≡ (if j == k then L.contents rq.ts j ++ p ∷ [] else L.contents rq.ts j)
  pub raised : (i ≤ k) × (30 ≤ k)
  pub preempts_lower : (rq'.need_resched ≡ true) ⊎ (k ≤ c)

module _ {L : ListApi} (laws : ListLaws L) (m : Methods L) (o : Others L) (k : Ticks L) where
  -- A TS task that wakes up while a TS task of queue `c` runs is put at the end of one of the ten top
  -- queues, not below its own, all other queues stay as they were, and the task that runs is asked
  -- to give way if its queue is lower.
  pub ttwu_do_activate-Woken :
      (rq : Rq L) (p i c flags : ℕ)
      → IsValid rq
      → IsUnlinked L rq.ts p
      → level (rq.tasks p).prio ≡ some i
      → (rq.tasks p).sched_class ≡ ts_sched_class
      → (rq.tasks rq.curr).sched_class ≡ ts_sched_class
      → 0 < count rq.curr (L.contents rq.ts c)
      → (rq' : Rq L) × (top : ℕ) × (ttwu_do_activate m o k rq p flags ≡ some rq')
        × Woken rq p i c rq' top
  unfolding ttwu_do_activate ttwu_do_wakeup activate_task
  ttwu_do_activate-Woken rq p i c flags v u h cp cc' q =
      let (r, top, e) = enqueue_task_ts_lem laws rq p (wakeup_flags flags) i v u h in
      let (class, stays) = enqueue_task_ts_keeps rq r p (wakeup_flags flags) e.runs in
      let apart : rq.curr ≢ p = λ z. (let n = rw z at q in omega (arith, u c)) in
      let same : r.tasks r.curr ≡ rq.tasks rq.curr =
        rw stays (e.tasks_kept rq.curr ∙ ground arith) in
      let cr : (r.tasks r.curr).sched_class ≡ ts_sched_class = rw same cc' in
      let lp : level (r.tasks p).prio ≡ some top = e.valid.at_level p top (
        ground (
          arith,
          e.queues top,
          count-append p (L.contents rq.ts top) (p ∷ []),
          count-single p p,
        )) in
      let lc : level (r.tasks r.curr).prio ≡ some c = rw same (v.at_level rq.curr c q) in
      let woke =
        check_preempt_curr-ts m o k r p flags (class ∙ cp) cr ∙ preempts r p flags c top lp lc in
      let b = ltb c top in
      let (v', ts, tasks) = maybe_resched_lem b r e.valid in
      let back = woken-ts m o k (maybe_resched b r) p (rw tasks (class ∙ cp)) in
      (
        maybe_resched b r,
        top,
        rw (enqueue_task-ts m rq p (wakeup_flags flags) cp ∙ e.runs, woke, back) refl,
        record {
          valid = v';
          queues = λ j. rw ts (e.queues j);
          raised = (e.raised, top_ten (wakeup_flags flags) i top e.target (wakes flags));
          preempts_lower = gives_way c top r;
        },
      )
