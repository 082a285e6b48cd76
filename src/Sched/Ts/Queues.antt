-- ===== src/Sched/Ts/Queues.antt =====
-- The invariant of the forty queues, and that enqueue, dequeue, yield and the tick of ts.c keep it.
use native.Mathlib.Decide.{ℕ_discrete}
use kenrel_learning.Common.{
  ℕ, zero, suc, ◌≤◌, ◌<◌, ◌≡◌, ◌≢◌, refl, ap, ◌⊎◌, ◌==◌, ltb, ℤ, Bool, true, false, some, [], ◌∷◌,
  ◌++◌, arith, count-nil, if◌then◌else◌, bit_and, count, remove, count-append, count-single,
  count-remove, remove-absent,
}
use kenrel_learning.ListHead.{ListApi, ListLaws, IsUnlinked, IsLinkedAt}
use kenrel_learning.Sched.Task.{Task, Rq, update, resched_curr}
use kenrel_learning.Sched.Ts.{
  level, enqueue_wakeup, boost, enqueue_task_ts, dequeue_task_ts, init_ts_rq,
}
use kenrel_learning.Sched.Ts.Level.{boost_lem}

-- A task stands in the queue of its level, and once.
pub record IsValid {L : ListApi} (rq : Rq L) : Type 0 where
  pub at_level : (t i : ℕ) → 0 < count t (L.contents rq.ts i) → level (rq.tasks t).prio ≡ some i
  pub once : (t i : ℕ) → count t (L.contents rq.ts i) ≤ 1

pub level-injective : (p : ℤ) {i j : ℕ} → level p ≡ some i → level p ≡ some j → i ≡ j
level-injective p h k = ground arith

module _ {L : ListApi} {rq : Rq L} (v : IsValid rq) where
  pub linked : (p i : ℕ) → 0 < count p (L.contents rq.ts i) → IsLinkedAt L rq.ts p i
  linked p i h = record {
    here = omega (arith, v.once p i);
    elsewhere = λ j n. elim (ℕ_discrete (count p (L.contents rq.ts j)) 0) [
      | yes e ↦ e
      | no ne ↦
          absurd (
            n (level-injective (rq.tasks p).prio (v.at_level p j (omega arith)) (v.at_level p i h)))
    ];
  }

-- The lists after `p` was taken out of its queue, if it was in one, and put at the end of queue `k`.
abbrev pub Moved : (L : ListApi) → L.Heads → ℕ → ℕ → L.Heads → Type 0
Moved L hs p k hs' =
    (j : ℕ)
    → L.contents hs' j
      ≡ (if j == k then remove p (L.contents hs j) ++ p ∷ [] else remove p (L.contents hs j))

module _ (L : ListApi) (hs hs' : L.Heads) (p k : ℕ) (m : Moved L hs p k hs') where
  pub Moved-count :
      (q j : ℕ)
      → count q (L.contents hs' j)
        ≡ (if p == q then (if j == k then 1 else 0) else count q (L.contents hs j))
  Moved-count q j = rw (m j) (
      ground (
        arith,
        count-append q (remove p (L.contents hs j)) (p ∷ []),
        count-single q p,
        count-remove q p (L.contents hs j),
      ))

module _ {L : ListApi} (rq : Rq L) (p k : ℕ) (t : Task) (hs : L.Heads)
    (m : Moved L rq.ts p k hs) where
  abbrev pub placed : Rq L → Rq L
  placed r = record r { tasks = update rq.tasks p t; ts = hs }

  -- A task put at the end of the queue of its level, and in no other.
  pub placed-IsValid : (r : Rq L) → IsValid rq → level t.prio ≡ some k → IsValid (placed r)
  placed-IsValid r v h = record {
    at_level = λ q j n. ground (arith, Moved-count L rq.ts hs p k m q j, v.at_level q j);
    once = λ q j. ground (arith, Moved-count L rq.ts hs p k m q j, v.once q j);
  }

pub resched_curr-IsValid : {L : ListApi} (rq : Rq L) → IsValid rq → IsValid (resched_curr rq)
unfolding resched_curr
resched_curr-IsValid rq v = record {
  at_level = λ q j n. ground (arith, v.at_level q j);
  once = λ q j. ground (arith, v.once q j);
}

unfoldable pub maybe_resched : {L : ListApi} → Bool → Rq L → Rq L
maybe_resched b rq = if b then resched_curr rq else rq

pub maybe_resched_lem :
    {L : ListApi} (b : Bool) (rq : Rq L)
    → IsValid rq
    → IsValid (maybe_resched b rq)
      × ((maybe_resched b rq).ts ≡ rq.ts)
      × ((maybe_resched b rq).tasks ≡ rq.tasks)
unfolding maybe_resched resched_curr
maybe_resched_lem true rq v = (resched_curr-IsValid rq v, ground arith, ground arith)
maybe_resched_lem false rq v = (v, refl, refl)

-- A change of the tasks that leaves alone all but a task in no queue.
pub unlinked-IsValid :
    {L : ListApi} (rq new : Rq L) (p : ℕ)
    → IsValid rq
    → IsUnlinked L rq.ts p
    → new.ts ≡ rq.ts
    → ((q : ℕ) → q ≢ p → new.tasks q ≡ rq.tasks q)
    → IsValid new
unlinked-IsValid {L} rq new p v u same kept = record {
  at_level = λ q j n.
      let n' = rw same at n in
      elim (ℕ_discrete q p) [
        | yes e ↦ absurd (let n'' = rw e at n' in omega (arith, u j))
        | no ne ↦ rw (kept q ne) (v.at_level q j n')
      ];
  once = λ q j. rw same (v.once q j);
}

-- What it is for `rq'` to hold `p` at the end of queue `k`, all else as in `rq`.
pub record Enqueued {L : ListApi} (rq : Rq L) (p flags i : ℕ) (rq' : Rq L) (k : ℕ) : Type 0 where
  pub runs : enqueue_task_ts rq p flags ≡ some rq'
  pub valid : IsValid rq'
  pub queues :
      (j : ℕ)
      → L.contents rq'.ts j ≡ (if j == k then L.contents rq.ts j ++ p ∷ [] else L.contents rq.ts j)
  pub tasks_kept : (q : ℕ) → rq'.tasks q ≡ (if q == p then rq'.tasks p else rq.tasks q)
  pub raised : i ≤ k
  pub target :
      (bit_and flags enqueue_wakeup ≡ 0) × (k ≡ i) ⊎ (bit_and flags enqueue_wakeup ≢ 0) × (30 ≤ k)

module _ {L : ListApi} (rq r : Rq L) (p flags : ℕ) (run : enqueue_task_ts rq p flags ≡ some r) where
  -- The class of the task and the task that runs stay.
  pub enqueue_task_ts_keeps :
      ((r.tasks p).sched_class ≡ (rq.tasks p).sched_class) × (r.curr ≡ rq.curr)
  unfolding enqueue_task_ts boost
  enqueue_task_ts_keeps = ground arith

module _ {L : ListApi} (laws : ListLaws L) where
  add_tail-Moved :
      (hs : L.Heads) (p k : ℕ) → IsUnlinked L hs p → Moved L hs p k (L.list_add_tail p k hs)
  add_tail-Moved hs p k u j =
      rw (laws.contents-add_tail p k j hs u, remove-absent p (L.contents hs j) (u j)) refl

  -- A task that no queue holds, of a priority from 100 to 139, is put at the end of one queue and
  -- nothing else changes. That queue is the one of its level, or on a wake-up one of the top ten
  -- that is not below it.
  pub enqueue_task_ts_lem :
      (rq : Rq L) (p flags i : ℕ)
      → IsValid rq
      → IsUnlinked L rq.ts p
      → level (rq.tasks p).prio ≡ some i
      → (rq' : Rq L) × (k : ℕ) × Enqueued rq p flags i rq' k
  unfolding enqueue_task_ts
  enqueue_task_ts_lem rq p flags i v u h =
      let (t, k, b) = boost_lem (rq.tasks p) flags i h in
      let m = add_tail-Moved rq.ts p k u in
      (
        placed rq p k t (L.list_add_tail p k rq.ts) m rq,
        k,
        record {
          runs = rw b.runs (rw b.at refl);
          valid = placed-IsValid rq p k t (L.list_add_tail p k rq.ts) m rq v b.at;
          queues = λ j. laws.contents-add_tail p k j rq.ts u;
          tasks_kept = λ q. ground arith;
          raised = b.raised;
          target = b.target;
        },
      )

  -- Taking a queued task out leaves every other task where it was, and the task in no queue.
  pub dequeue_task_ts_lem :
      (rq : Rq L) (p flags i : ℕ)
      → IsValid rq
      → 0 < count p (L.contents rq.ts i)
      → IsValid (dequeue_task_ts rq p flags)
        × IsUnlinked L (dequeue_task_ts rq p flags).ts p
        × ((j : ℕ) → L.contents (dequeue_task_ts rq p flags).ts j ≡ remove p (L.contents rq.ts j))
  unfolding dequeue_task_ts
  dequeue_task_ts_lem rq p flags i v q =
      let e = λ (j : ℕ). laws.contents-del p i j rq.ts (linked v p i q) in
      (
        record {
          at_level =
              λ t j n. ground (arith, e j, count-remove t p (L.contents rq.ts j), v.at_level t j);
          once = λ t j. ground (arith, e j, count-remove t p (L.contents rq.ts j), v.once t j);
        },
        λ j. ground (arith, e j, count-remove p p (L.contents rq.ts j)),
        e,
      )

  init_ts_rq-contents :
      (n j : ℕ) (hs : L.Heads)
      → L.contents (init_ts_rq L n hs) j ≡ (if ltb j n then [] else L.contents hs j)
  unfolding init_ts_rq
  init_ts_rq-contents zero j hs = ground arith
  init_ts_rq-contents (suc n) j hs =
      ground (arith, laws.contents-init n j (init_ts_rq L n hs), init_ts_rq-contents n j hs)

  -- After init_ts_rq all forty queues are empty, so the invariant holds at boot.
  pub init_ts_rq-IsValid :
      (rq : Rq L)
      → ((j : ℕ) → 40 ≤ j → L.contents rq.ts j ≡ [])
      → IsValid (record rq { ts = init_ts_rq L 40 rq.ts })
        × ((j : ℕ) → L.contents (init_ts_rq L 40 rq.ts) j ≡ [])
  init_ts_rq-IsValid rq h =
      let e = λ (j : ℕ). all_empty j in
      (
        record {
          at_level = λ t i n. absurd (omega (arith, ap (count t) (e i), count-nil t));
          once = λ t i. omega (arith, ap (count t) (e i), count-nil t);
        },
        e,
      )
    where
      all_empty : (j : ℕ) → L.contents (init_ts_rq L 40 rq.ts) j ≡ []
      all_empty j = ground (arith, init_ts_rq-contents 40 j rq.ts, h j)
