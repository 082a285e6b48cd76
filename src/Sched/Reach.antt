-- ===== src/Sched/Reach.antt =====
-- Sequences of operations of core.c and ts.c on one run queue, from init_ts_rq on.
pub mod Standing
use mathlib.Core.Option.{some-injective}
use kenrel_learning.Common.{
  ℕ, ◌-◌, ◌≤◌, ◌<◌, ◌≡◌, ◌==◌, refl, sym, ap, ◌∙◌, subst, negsuc, ◌≤ℤ◌, true, false, Option, none,
  some, [], arith, count, count-nil, Bool, not, ◌&&◌, ◌||◌, Bool-cases, inl, inr,
}
use kenrel_learning.ListHead.{ListApi, ListLaws, IsUnlinked}
use kenrel_learning.Sched.Task.{
  Rq, ts_sched_class, fair_sched_class, sched_ts, sched_normal, eq_ℤ, update, resched_curr,
}
use kenrel_learning.Sched.Ts.{
  level, dec_slice, init_ts_rq, enqueue_task_ts, dequeue_task_ts, yield_task_ts, task_tick_ts,
}
use kenrel_learning.Sched.Ts.Level.{level-lt, level_of}
use kenrel_learning.Sched.Ts.Queues.{
  IsValid, enqueue_task_ts_lem, dequeue_task_ts_lem, init_ts_rq-IsValid, placed-IsValid,
  resched_curr-IsValid,
}
use kenrel_learning.Sched.Ts.Pick.{yield_task_ts_lem}
use kenrel_learning.Sched.Ts.Feedback.{move_tail-Moved, after_task, after_rq, expire_lem}
use kenrel_learning.Sched.Reach.Standing.{
  Stands, Kept, Added-Stands, Removed-Stands, Kept-Stands, same-Kept, Moved-Kept, Yielded-Kept,
}
use kenrel_learning.Sched.PickNext.{Others}
use kenrel_learning.Sched.Policy.{SchedAttr, prio_to_nice}
use kenrel_learning.Sched.Policy.Classes.{IsStatic}
use kenrel_learning.Sched.Change.{Methods, set_user_nice}
use kenrel_learning.Sched.Change.Nice.{nice_of, set_user_nice-ts}
use kenrel_learning.Sched.Change.Access.{Caller, check_access}
use kenrel_learning.Sched.Schedule.{Ticks, ttwu_do_activate}
use kenrel_learning.Sched.Schedule.Wake.{ttwu_do_activate-Woken}
use kenrel_learning.Sched.Setscheduler.{
  Situation, SetResult, refused, changed, faults, sched_setscheduler, make_change,
}
use kenrel_learning.Sched.Setscheduler.Keeps.{KeepsTs}
use kenrel_learning.Sched.Setscheduler.Moves.{sched_setscheduler-Joined}
use kenrel_learning.Sched.Setscheduler.Leaves.{make_change-Left}

-- One operation, where the kernel calls it: a task is queued if no queue holds it, a task of queue `i`
-- is taken out, yields, is ticked or changes its nice value or policy.
pub data Step {L : ListApi} (m : Methods L) (o : Others L) (k : Ticks L) (rq : Rq L)
    : Rq L → Type 0 where
  queued :
      (p flags i : ℕ) {rq' : Rq L}
      → IsUnlinked L rq.ts p
      → level (rq.tasks p).prio ≡ some i
      → enqueue_task_ts rq p flags ≡ some rq'
      → Step m o k rq rq'
  slept :
      (p flags i : ℕ)
      → 0 < count p (L.contents rq.ts i)
      → Step m o k rq (dequeue_task_ts rq p flags)
  yielded :
      (i : ℕ) {rq' : Rq L}
      → 0 < count rq.curr (L.contents rq.ts i)
      → yield_task_ts rq ≡ some rq'
      → Step m o k rq rq'
  ticked :
      (p i : ℕ) {rq' : Rq L}
      → 0 < count p (L.contents rq.ts i)
      → task_tick_ts rq p false ≡ some rq'
      → Step m o k rq rq'
  switched : (q : ℕ) → Step m o k rq (record rq { need_resched = false; curr = q })
  woken :
      (p i c flags : ℕ) {rq' : Rq L}
      → IsUnlinked L rq.ts p
      → level (rq.tasks p).prio ≡ some i
      → (rq.tasks p).sched_class ≡ ts_sched_class
      → (rq.tasks rq.curr).sched_class ≡ ts_sched_class
      → 0 < count rq.curr (L.contents rq.ts c)
      → ttwu_do_activate m o k rq p flags ≡ some rq'
      → Step m o k rq rq'
  reniced :
      (p i j : ℕ) {rq' : Rq L}
      → 0 < count p (L.contents rq.ts i)
      → (rq.tasks p).sched_class ≡ ts_sched_class
      → (rq.tasks p).policy ≡ sched_ts
      → j < 40
      → eq_ℤ (prio_to_nice (rq.tasks p).static_prio) (nice_of j) ≡ false
      → set_user_nice m rq p (nice_of j) true ≡ some rq'
      → Step m o k rq rq'
  joined :
      (c : Caller) (p i : ℕ) (attr : SchedAttr) (s : Situation) {rq' : Rq L}
      → IsUnlinked L rq.ts p
      → (rq.tasks p).sched_class ≡ fair_sched_class
      → (rq.tasks p).policy ≡ sched_normal
      → IsStatic (rq.tasks p).static_prio
      → level (rq.tasks p).static_prio ≡ some i
      → attr.sched_policy ≡ sched_ts
      → s.queued ≡ true
      → s.donor ≡ none
      → s.is_stop ≡ false
      → s.overflows ≡ false
      → check_access c (rq.tasks p) attr ≡ none
      → sched_setscheduler m c rq p attr true s ≡ changed rq'
      → Step m o k rq rq'
  left :
      (p i : ℕ) (attr : SchedAttr) (s : Situation) {rq' : Rq L}
      → 0 < count p (L.contents rq.ts i)
      → (rq.tasks p).sched_class ≡ ts_sched_class
      → attr.sched_policy ≡ sched_normal
      → negsuc 19 ≤ℤ attr.sched_nice
      → s.queued ≡ true
      → s.donor ≡ none
      → make_change m rq p attr true s ≡ some rq'
      → Step m o k rq rq'

pub data Reachable {L : ListApi} (m : Methods L) (o : Others L) (k : Ticks L) (rq : Rq L)
    : Rq L → Type 0 where
  here : Reachable m o k rq rq
  after : {mid rq' : Rq L} → Reachable m o k rq mid → Step m o k mid rq' → Reachable m o k rq rq'

-- The tasks that stand in a queue after an operation, `b` saying whether `t` did before.
abbrev pub stands_after :
    {L : ListApi} {m : Methods L} {o : Others L} {k : Ticks L} {rq rq' : Rq L}
    → Step m o k rq rq'
    → ℕ
    → Bool
    → Bool
stands_after (queued p flags i u h run) t b = p == t || b
stands_after (slept p flags i q) t b = not (p == t) && b
stands_after (yielded i q run) t b = b
stands_after (ticked p i q run) t b = b
stands_after (switched q) t b = b
stands_after (woken p i c flags u h a d q run) t b = p == t || b
stands_after (reniced p i j q a d l n run) t b = b
stands_after (joined c p i attr s u a d st h e q g x y z run) t b = p == t || b
stands_after (left p i attr s q a d n x e run) t b = not (p == t) && b

-- Whether `t` was queued and has not been taken out since.
abbrev pub standing :
    {L : ListApi} {m : Methods L} {o : Others L} {k : Ticks L} {rq rq' : Rq L}
    → Reachable m o k rq rq'
    → ℕ
    → Bool
standing here t = false
standing (after before step) t = stands_after step t (standing before t)

module _ {L : ListApi} where
  abbrev of_result : SetResult L → Option (Rq L)
  of_result (refused e) = none
  of_result (changed rq) = some rq
  of_result faults = none

  -- The queues are valid, and the task stands in one or in none.
  abbrev pub Sound : ℕ → Bool → Rq L → Type 0
  Sound t b rq = IsValid rq × Stands L rq.ts t b

  -- A call returns one thing only.
  one_result :
      (t : ℕ) (b : Bool) (call : Option (Rq L)) (r rq' : Rq L)
      → call ≡ some r
      → IsValid r
      → Stands L r.ts t b
      → call ≡ some rq'
      → Sound t b rq'
  one_result t b call r rq' e v s h = subst (Sound t b) (some-injective r rq' (sym e ∙ h)) (v, s)

  resched_curr-ts : (rq : Rq L) → (resched_curr rq).ts ≡ rq.ts
  unfolding resched_curr
  resched_curr-ts rq = ground arith

module _ {L : ListApi} (laws : ListLaws L) where
  -- A tick of a queued task does not fail, and keeps the queues valid.
  task_tick_ts-IsValid :
      (rq : Rq L) (p i : ℕ)
      → IsValid rq
      → 0 < count p (L.contents rq.ts i)
      → (r : Rq L) × (task_tick_ts rq p false ≡ some r) × IsValid r × Kept L rq.ts p r.ts
  unfolding task_tick_ts
  task_tick_ts-IsValid rq p i v q =
      let t = dec_slice (rq.tasks p) in
      let at = v.at_level p i q in
      elim (Bool-cases (eq_ℤ (rq.tasks p).policy sched_ts)) [
        | inr h ↦ (rq, rw h refl, v, same-Kept L rq.ts p i q)
        | inl h ↦ elim (Bool-cases (t.time_slice == 0)) [
          | inr g ↦ (
            record rq { tasks = update rq.tasks p t },
            rw (h, g) refl,
            record { at_level = λ x j n. ground (arith, v.at_level x j); once = λ x j. v.once x j },
            same-Kept L rq.ts p i q,
          )
          | inl g ↦
              let next = i - 10 in
              let moved = move_tail-Moved laws rq p i next v q in
              let there = level_of next (omega (arith, level-lt (rq.tasks p).prio at)) in
              (
                after_rq laws rq p t next,
                rw (h, g) (expire_lem laws rq p i t at),
                resched_curr-IsValid _ (
                    placed-IsValid rq p next (after_task laws t next)
                      (L.list_move_tail p next rq.ts) moved rq v there),
                subst (Kept L rq.ts p) (sym (resched_curr-ts _))
                    (Moved-Kept L rq.ts (L.list_move_tail p next rq.ts) p next moved),
              )
        ]
      ]

  module _ (m : Methods L) (o : Others L) (k : Ticks L) (keeps : KeepsTs m) where
    Step-Sound :
        (t : ℕ) (b : Bool) (rq rq' : Rq L) (step : Step m o k rq rq')
        → IsValid rq
        → Stands L rq.ts t b
        → Sound t (stands_after step t b) rq'
    Step-Sound t b rq rq' (queued p flags i u h run) v s =
        let (r, top, e) = enqueue_task_ts_lem laws rq p flags i v u h in
        one_result t (p == t || b) _ r rq' e.runs e.valid
          (Added-Stands L rq.ts r.ts p t top b e.queues s) run
    Step-Sound t b rq _ (slept p flags i q) v s =
        let (w, _, gone) = dequeue_task_ts_lem laws rq p flags i v q in
        (w, Removed-Stands L rq.ts (dequeue_task_ts rq p flags).ts p t b gone s)
    Step-Sound t b rq rq' (yielded i q run) v s =
        let (r, e, w, _, moved) = yield_task_ts_lem laws rq i v q in
        one_result t b _ r rq' e w
          (Kept-Stands L rq.ts r.ts rq.curr t i b q (Yielded-Kept L rq.ts r.ts rq.curr i moved) s)
          run
    Step-Sound t b rq rq' (ticked p i q run) v s =
        let (r, e, w, kept) = task_tick_ts-IsValid rq p i v q in
        one_result t b _ r rq' e w (Kept-Stands L rq.ts r.ts p t i b q kept s) run
    Step-Sound t b rq _ (switched q) v s =
        (record { at_level = λ x j n. v.at_level x j n; once = λ x j. v.once x j }, s)
    Step-Sound t b rq rq' (woken p i c flags u h a d q run) v s =
        let (r, top, e, w) = ttwu_do_activate-Woken laws m o k rq p i c flags v u h a d q in
        one_result t (p == t || b) _ r rq' e w.valid
          (Added-Stands L rq.ts r.ts p t top b w.queues s) run
    Step-Sound t b rq rq' (reniced p i j q a d l n run) v s =
        let (r, e, w, moved) = set_user_nice-ts laws m rq p i j v q a d l n in
        one_result t b _ r rq' e w
          (Kept-Stands L rq.ts r.ts p t i b q (Moved-Kept L rq.ts r.ts p j moved) s) run
    Step-Sound t b rq rq' (joined c p i attr g u a d st h e q n x y f run) v s =
        let (r, z, w) =
          sched_setscheduler-Joined laws m keeps c rq p i attr g v u a d st h e q n x y f in
        one_result t (p == t || b) _ r rq' (ap of_result z) w.valid
          (Added-Stands L rq.ts r.ts p t i b w.queues s) (ap of_result run)
    Step-Sound t b rq rq' (left p i attr g q a d n x e run) v s =
        let (r, z, w) = make_change-Left laws m keeps rq p i attr g v q a d n x e in
        one_result t (not (p == t) && b) _ r rq' z w.valid
          (Removed-Stands L rq.ts r.ts p t b w.queues s) run

    Reachable-Sound :
        (t : ℕ) (rq rq' : Rq L)
        → IsValid rq
        → IsUnlinked L rq.ts t
        → (reach : Reachable m o k rq rq') → Sound t (standing reach t) rq'
    Reachable-Sound t rq _ v u here = (v, u)
    Reachable-Sound t rq rq' v u (after {mid} before step) =
        let (w, s) = Reachable-Sound t rq mid v u before in
        Step-Sound t (standing before t) mid rq' step w s

    -- From init_ts_rq on, whatever order the operations of `Step` come in, each task that was queued
    -- and has not been taken out since stands in the queue of its priority, in no other one and only
    -- once, and all others in none. Tasks are woken while a queued TS task runs, and change between
    -- SCHED_NORMAL and SCHED_TS without a boost. The other classes leave the TS queues and the tasks
    -- alone.
    pub Reachable-IsValid :
        (t : ℕ) (rq rq' : Rq L)
        → ((j : ℕ) → 40 ≤ j → L.contents rq.ts j ≡ [])
        → (reach : Reachable m o k (record rq { ts = init_ts_rq L 40 rq.ts }) rq')
        → IsValid rq' × Stands L rq'.ts t (standing reach t)
    Reachable-IsValid t rq rq' empty reach =
        let (v, none_yet) = init_ts_rq-IsValid laws rq empty in
        Reachable-Sound t (record rq { ts = init_ts_rq L 40 rq.ts }) rq' v
          (λ j. rw (none_yet j, count-nil t) refl) reach

    -- In a run queue that such operations lead to, the tick of a task that is queued and its yield, if
    -- it runs, succeed: no index outside the forty queues is used.
    pub Reachable-total :
        (rq rq' : Rq L) (i j p : ℕ)
        → ((j : ℕ) → 40 ≤ j → L.contents rq.ts j ≡ [])
        → Reachable m o k (record rq { ts = init_ts_rq L 40 rq.ts }) rq'
        → 0 < count p (L.contents rq'.ts i)
        → 0 < count rq'.curr (L.contents rq'.ts j)
        → ((r : Rq L) × (task_tick_ts rq' p false ≡ some r))
          × ((r : Rq L) × (yield_task_ts rq' ≡ some r))
    Reachable-total rq rq' i j p empty reach q c =
        let (v, _) = Reachable-IsValid p rq rq' empty reach in
        let (r, e, _, _) = task_tick_ts-IsValid rq' p i v q in
        let (r', e', _, _, _) = yield_task_ts_lem laws rq' j v c in ((r, e), (r', e'))
