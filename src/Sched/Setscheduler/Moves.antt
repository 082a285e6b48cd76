-- ===== src/Sched/Setscheduler/Moves.antt =====
-- A task that enters or leaves the TS class by sched_setscheduler.
use kenrel_learning.Sched.Setscheduler.Keeps.{Same, KeepsTs, Same-IsValid}
use kenrel_learning.Common.{
  ℕ, ◌+◌, ◌≤◌, ◌≡◌, ◌≢◌, ◌⊎◌, ◌==◌, refl, ap, ◌∙◌, ℤ, ltb_ℤ, inl, inr, Bool, true, false, none,
  some, [], ◌∷◌, ◌++◌, arith, bit_and, if◌then◌else◌, Bool-cases,
}
use kenrel_learning.ListHead.{ListApi, ListLaws, IsUnlinked}
use kenrel_learning.Sched.Task.{Rq, ts_sched_class, fair_sched_class, sched_ts, sched_normal}
use kenrel_learning.Sched.Ts.{level, enqueue_wakeup, enqueue_task_ts}
use kenrel_learning.Sched.Ts.Queues.{
  IsValid, enqueue_task_ts_lem, enqueue_task_ts_keeps, unlinked-IsValid,
}
use kenrel_learning.Sched.Policy.{SchedAttr, setscheduler}
use kenrel_learning.Sched.Policy.Classes.{IsStatic, setscheduler-ts}
use kenrel_learning.Sched.Change.{
  Methods, save_noclock, save_move_noclock, take_out, dequeue_task, put_prev, set_curr,
  check_class_changed,
}
use kenrel_learning.Sched.Change.Dispatch.{set_curr-ts, enqueue_task-ts}
use kenrel_learning.Sched.Change.Access.{Caller, check_access, reset_on_fork}
use kenrel_learning.Sched.Setscheduler.{
  Situation, changed, of_rq, put_changed, make_change, locked, sched_setscheduler, put_task,
  move_flags,
}

-- The flags of the change are not those of a wake-up.
no_wakeup :
    (a b : Bool)
    → bit_and
        (if a
          then (if b then save_noclock else save_move_noclock) + 0x10
          else (if b then save_noclock else save_move_noclock))
        enqueue_wakeup
      ≡ 0
no_wakeup true true = refl
no_wakeup true false = refl
no_wakeup false true = refl
no_wakeup false false = refl

module _ {L : ListApi} (m : Methods L) (keeps : KeepsTs m) where
  dequeue_fair :
      (rq : Rq L) (p flags : ℕ)
      → (rq.tasks p).sched_class ≡ fair_sched_class
      → Same rq (dequeue_task m rq p flags)
  unfolding dequeue_task
  dequeue_fair rq p flags c = rw (c, dequeue_task) (keeps.dequeue fair_sched_class rq p flags)

  put_prev_fair :
      (rq : Rq L) (p : ℕ) → (rq.tasks p).sched_class ≡ fair_sched_class → Same rq (put_prev m rq p)
  unfolding put_prev
  put_prev_fair rq p c = rw (c, put_prev) (keeps.put_prev_task fair_sched_class rq p)

  pub Same-trans : (a b c : Rq L) → Same a b → Same b c → Same a c
  Same-trans a b c s t = record {
    ts = t.ts ∙ s.ts;
    tasks = t.tasks ∙ s.tasks;
    curr = t.curr ∙ s.curr;
  }

  take_out_fair :
      (rq : Rq L) (p flags : ℕ)
      → (rq.tasks p).sched_class ≡ fair_sched_class
      → Same rq (take_out m rq p true flags)
  unfolding take_out
  take_out_fair rq p flags c =
      let d = dequeue_fair rq p flags c in
      let mid = dequeue_task m rq p flags in
      elim (Bool-cases (rq.curr == p)) [
        | inl h ↦ rw h (Same-trans rq mid _ d (put_prev_fair mid p (rw (d.tasks) c)))
        | inr h ↦ rw h d
      ]

  -- From fair to TS only switched_from of the fair class is called.
  class_changed_to_ts :
      (rq : Rq L) (p : ℕ) (old : ℤ)
      → (rq.tasks p).sched_class ≡ ts_sched_class
      → check_class_changed m rq p fair_sched_class old ≡ m.switched_from fair_sched_class rq p
  unfolding check_class_changed
  class_changed_to_ts rq p old c =
      let s = keeps.switched_from fair_sched_class rq p in
      let d : ((m.switched_from fair_sched_class rq p).tasks p).sched_class ≡ ts_sched_class =
        rw (s.tasks) c in
      rw (c, d) refl

  put_changed_to_ts :
      (rq set r : Rq L) (p flags : ℕ)
      → (rq.tasks p).sched_class ≡ fair_sched_class
      → (set.tasks p).sched_class ≡ ts_sched_class
      → enqueue_task_ts set p flags ≡ some r
      → (r.tasks p).sched_class ≡ ts_sched_class
      → put_changed m rq set p true flags ≡ some (m.switched_from fair_sched_class r p)
  unfolding put_changed
  put_changed_to_ts rq set r p flags c d run e =
      let same : (if rq.curr == p then set_curr m r p else r) ≡ r =
        rw (set_curr-ts m r p e) (ground arith) in
      rw (enqueue_task-ts m set p flags d ∙ run, same, c)
        (ap some (class_changed_to_ts r p (rq.tasks p).prio e))

same_queue :
    (flags i k : ℕ)
    → ((bit_and flags enqueue_wakeup ≡ 0) × (k ≡ i))
      ⊎ ((bit_and flags enqueue_wakeup ≢ 0) × (30 ≤ k))
    → bit_and flags enqueue_wakeup ≡ 0
    → k ≡ i
same_queue flags i k (inl (_, e)) z = e
same_queue flags i k (inr (n, _)) z = absurd (n z)

-- The run queue when `p` has been given its new parameters and is in no queue.
abbrev pub flagged : {L : ListApi} → Methods L → Rq L → ℕ → SchedAttr → Rq L
flagged m rq p attr =
    put_task m rq p (record (rq.tasks p) { sched_reset_on_fork = reset_on_fork (rq.tasks p) attr })

abbrev pub reset_params : {L : ListApi} → Methods L → Rq L → Rq L → ℕ → SchedAttr → Rq L
reset_params m rq out p attr = put_task m out p (setscheduler (out.tasks p) attr true none)

module _ {L : ListApi} (m : Methods L) (rq out : Rq L) (p : ℕ) (attr : SchedAttr)
    (s : Same (flagged m rq p attr) out) where
  pub out_task :
      out.tasks p ≡ record (rq.tasks p) { sched_reset_on_fork = reset_on_fork (rq.tasks p) attr }
  out_task = rw (s.tasks) (ground arith)

  set-ts : (reset_params m rq out p attr).ts ≡ rq.ts
  set-ts = s.ts

  pub set_kept : (q : ℕ) → q ≢ p → (reset_params m rq out p attr).tasks q ≡ rq.tasks q
  set_kept q n = rw (s.tasks) (ground arith)

  pub set_task :
      (reset_params m rq out p attr).tasks p
      ≡ setscheduler
          (record (rq.tasks p) { sched_reset_on_fork = reset_on_fork (rq.tasks p) attr })
          attr
          true
          none
  set_task = rw out_task (ground arith)

added_at :
    (L : ListApi) (hs mid hs' hs'' : L.Heads) (p k k' j : ℕ)
    → hs'' ≡ hs'
    → L.contents hs' j ≡ (if j == k' then L.contents mid j ++ p ∷ [] else L.contents mid j)
    → mid ≡ hs
    → k' ≡ k
    → L.contents hs'' j ≡ (if j == k then L.contents hs j ++ p ∷ [] else L.contents hs j)
added_at L hs mid hs' hs'' p k k' j a b c d = ap (λ x. L.contents x j) a ∙ (b ∙ rw (c, d) refl)

-- `rq'` is `rq` with `p` a TS task at the end of queue `k`.
pub record Joined {L : ListApi} (rq : Rq L) (p k : ℕ) (rq' : Rq L) : Type 0 where
  pub valid : IsValid rq'
  pub class : (rq'.tasks p).sched_class ≡ ts_sched_class
  pub queues :
      (j : ℕ)
      → L.contents rq'.ts j ≡ (if j == k then L.contents rq.ts j ++ p ∷ [] else L.contents rq.ts j)

module _ {L : ListApi} (laws : ListLaws L) (m : Methods L) (keeps : KeepsTs m) where
  make_change-Joined :
      (rq : Rq L) (p k : ℕ) (attr : SchedAttr) (s : Situation)
      → IsValid rq
      → IsUnlinked L rq.ts p
      → (rq.tasks p).sched_class ≡ fair_sched_class
      → IsStatic (rq.tasks p).static_prio
      → level (rq.tasks p).static_prio ≡ some k
      → attr.sched_policy ≡ sched_ts
      → s.queued ≡ true
      → s.donor ≡ none
      → (rq' : Rq L) × (make_change m rq p attr true s ≡ some rq') × Joined rq p k rq'
  unfolding make_change
  make_change-Joined rq p k attr s v u c st h e q d =
      let t = rq.tasks p in
      let flags = move_flags attr true none t.prio in
      let rq0 = flagged m rq p attr in
      let out = take_out m rq0 p true flags in
      let same = take_out_fair m keeps rq0 p flags (ground arith) in
      let set = reset_params m rq out p attr in
      let flags' = if ltb_ℤ t.prio (set.tasks p).prio then flags + 0x10 else flags in
      let task = set_task m rq out p attr same in
      let (class, prio, _) =
        setscheduler-ts (record t { sched_reset_on_fork = reset_on_fork t attr }) attr st e in
      let v1 = unlinked-IsValid rq set p v u (same.ts) (set_kept m rq out p attr same) in
      let u1 : IsUnlinked L set.ts p = rw (same.ts) u in
      let set_class : (set.tasks p).sched_class ≡ ts_sched_class = rw task class in
      let (r, k', enq) = enqueue_task_ts_lem laws set p flags' k v1 u1 (rw task (rw prio h)) in
      let (kept, stays) = enqueue_task_ts_keeps set r p flags' enq.runs in
      let target : k' ≡ k = same_queue flags' k k' (enq.target) (no_wakeup _ _) in
      let rq' = m.switched_from fair_sched_class r p in
      let w = keeps.switched_from fair_sched_class r p in
      let rc = kept ∙ set_class in
      (
        rq',
        rw (q, d) (put_changed_to_ts m keeps rq set r p flags' c set_class enq.runs rc),
        record {
          valid = Same-IsValid r rq' w enq.valid;
          class = rw (w.tasks) rc;
          queues = λ j.
              added_at L rq.ts set.ts r.ts rq'.ts p k k' j (w.ts) (enq.queues j) (same.ts) target;
        },
      )

module _ {L : ListApi} (m : Methods L) where
  locked-ts :
      (c : Caller) (rq : Rq L) (p : ℕ) (attr : SchedAttr) (s : Situation)
      → (rq.tasks p).policy ≡ sched_normal
      → attr.sched_policy ≡ sched_ts
      → s.is_stop ≡ false
      → s.overflows ≡ false
      → locked m c rq p attr true s ≡ of_rq (make_change m rq p attr true s)
  unfolding locked
  locked-ts c rq p attr s n e i o = rw (n, e, i, o) (ground arith)

module _ {L : ListApi} (laws : ListLaws L) (m : Methods L) (keeps : KeepsTs m) where
  -- A queued fair task for which the access checks allow the TS policy is, when sched_setscheduler
  -- returns, a TS task at the end of the queue of its nice value, whatever it was given as flags and
  -- whether it runs or not; no other queue changes. The task is of the policy SCHED_NORMAL, is not
  -- boosted, is not the stop task and does not exceed the deadline bandwidth.
  pub sched_setscheduler-Joined :
      (c : Caller) (rq : Rq L) (p k : ℕ) (attr : SchedAttr) (s : Situation)
      → IsValid rq
      → IsUnlinked L rq.ts p
      → (rq.tasks p).sched_class ≡ fair_sched_class
      → (rq.tasks p).policy ≡ sched_normal
      → IsStatic (rq.tasks p).static_prio
      → level (rq.tasks p).static_prio ≡ some k
      → attr.sched_policy ≡ sched_ts
      → s.queued ≡ true
      → s.donor ≡ none
      → s.is_stop ≡ false
      → s.overflows ≡ false
      → check_access c (rq.tasks p) attr ≡ none
      → (rq' : Rq L) × (sched_setscheduler m c rq p attr true s ≡ changed rq') × Joined rq p k rq'
  unfolding sched_setscheduler
  sched_setscheduler-Joined c rq p k attr s v u fair n st h e q d i o a =
      let (rq', run, joined) = make_change-Joined laws m keeps rq p k attr s v u fair st h e q d in
      (rq', rw (a, sched_setscheduler) (locked-ts m c rq p attr s n e i o ∙ rw run refl), joined)
