-- ===== src/Sched/Change/Nice.antt =====
-- set_user_nice on a task of the TS class.
use kenrel_learning.Common.{
  ℕ, ◌-◌, ◌<◌, ◌≡◌, ◌≢◌, ◌==◌, refl, sym, ◌∙◌, ℤ, pos, negsuc, ltb_ℤ, ◌-ℤ◌, Bool, true, false, ◌&&◌,
  ◌||◌, some, if◌then◌else◌, arith, inl, inr, count, ◌++◌, [], ◌∷◌,
}
use kenrel_learning.ListHead.{ListApi, ListLaws, IsUnlinked}
use kenrel_learning.Sched.Task.{Task, Rq, ts_sched_class, eq_ℤ, sched_ts}
use kenrel_learning.Sched.Policy.{nice_to_prio, prio_to_nice, effective_prio, normal_prio}
use kenrel_learning.Sched.Ts.{level, dequeue_task_ts, enqueue_task_ts}
use kenrel_learning.Sched.Ts.Level.{level_prio}
use kenrel_learning.Sched.Ts.Queues.{
  IsValid, Moved, enqueue_task_ts_lem, dequeue_task_ts_lem, unlinked-IsValid, maybe_resched,
  maybe_resched_lem, enqueue_task_ts_keeps,
}
use kenrel_learning.Sched.Change.{Methods, set_user_nice, take_out, reniced, put_back, save_noclock}
use kenrel_learning.Sched.Change.Dispatch.{set_curr-ts, enqueue_task-ts, take_out-ts}

-- The nice value of a level.
abbrev pub nice_of : ℕ → ℤ
nice_of k = pos 19 -ℤ pos k

nice_of_lem : (k : ℕ) → k < 40 → nice_to_prio (nice_of k) ≡ pos (139 - k)
nice_of_lem k h = ground arith

level_at : (k : ℕ) → k < 40 → level (pos (139 - k)) ≡ some k
level_at k h = ground arith

nice_of-range :
    (k : ℕ)
    → k < 40
    → (ltb_ℤ (nice_of k) (negsuc 19) ≡ false) × (ltb_ℤ (pos 19) (nice_of k) ≡ false)
nice_of-range k h = (ground arith, ground arith)

effective_prio-ts :
    (t : Task) (i : ℕ)
    → level t.prio ≡ some i
    → t.policy ≡ sched_ts
    → ((effective_prio t).1 ≡ t.static_prio) × ((effective_prio t).0.sched_class ≡ t.sched_class)
unfolding effective_prio normal_prio
effective_prio-ts t i h c = let e = level_prio t.prio h in rw (c, e) (ground arith, ground arith)

module _ {L : ListApi} (m : Methods L) where
  reniced_lem :
      (rq : Rq L) (p k i : ℕ)
      → level (rq.tasks p).prio ≡ some i
      → (rq.tasks p).policy ≡ sched_ts
      → k < 40
      → ((reniced m rq p (nice_of k)).ts ≡ rq.ts)
        × (((reniced m rq p (nice_of k)).tasks p).prio ≡ pos (139 - k))
        × (((reniced m rq p (nice_of k)).tasks p).sched_class ≡ (rq.tasks p).sched_class)
        × ((q : ℕ) → q ≢ p → (reniced m rq p (nice_of k)).tasks q ≡ rq.tasks q)
  unfolding reniced
  reniced_lem rq p k i h c b =
      let e =
        effective_prio-ts (record (rq.tasks p) { static_prio = nice_to_prio (nice_of k) }) i h c in
      (refl, ground (arith, e, nice_of_lem k b), ground (arith, e), λ q n. ground arith)

module _ {L : ListApi} (m : Methods L) where
  put_back-ts :
      (new r : Rq L) (p : ℕ) (old : ℤ)
      → (new.tasks p).sched_class ≡ ts_sched_class
      → enqueue_task_ts new p save_noclock ≡ some r
      → IsValid r
      → (b : Bool) × (put_back m new p true old ≡ some (maybe_resched b r))
  unfolding put_back maybe_resched
  put_back-ts new r p old c run v =
      let b = ltb_ℤ (new.tasks p).prio old || (ltb_ℤ old (new.tasks p).prio && r.curr == p) in
      let k = (enqueue_task_ts_keeps new r p save_noclock run).0 ∙ c in
      let t = maybe_resched_lem b r v in
      let z = set_curr-ts m (maybe_resched b r) p (rw (t.2) k) in
      (b, rw (enqueue_task-ts m new p save_noclock c ∙ run) (ground (arith, z)))

module _ {L : ListApi} (laws : ListLaws L) (m : Methods L) where
  -- The queues after a task was put back at the end of queue `k`.
  back_lem :
      (new : Rq L) (p k : ℕ) (old : ℤ)
      → IsValid new
      → IsUnlinked L new.ts p
      → (new.tasks p).sched_class ≡ ts_sched_class
      → level (new.tasks p).prio ≡ some k
      → (rq' : Rq L) × (put_back m new p true old ≡ some rq')
        × IsValid rq'
        × ((j : ℕ)
            → L.contents rq'.ts j
              ≡ (if j == k then L.contents new.ts j ++ p ∷ [] else L.contents new.ts j))
  back_lem new p k old v u c h =
      let (r, k', e) = enqueue_task_ts_lem laws new p save_noclock k v u h in
      let same : k' ≡ k = elim (e.target) [ inl (_, x) ↦ x | inr (x, _) ↦ absurd (x refl) ] in
      let (b, run) = put_back-ts m new r p old c e.runs e.valid in
      let (v', ts, _) = maybe_resched_lem b r e.valid in
      (maybe_resched b r, run, v', λ j. rw (ts, sym same) (e.queues j))

  -- A queued TS task that is given the nice value of another level stands at the end of the queue of
  -- that level afterwards, and no longer in its old one; every other queue is as it was, and the
  -- queues stay valid.
  pub set_user_nice-ts :
      (rq : Rq L) (p i k : ℕ)
      → IsValid rq
      → 0 < count p (L.contents rq.ts i)
      → (rq.tasks p).sched_class ≡ ts_sched_class
      → (rq.tasks p).policy ≡ sched_ts
      → k < 40
      → eq_ℤ (prio_to_nice (rq.tasks p).static_prio) (nice_of k) ≡ false
      → (rq' : Rq L) × (set_user_nice m rq p (nice_of k) true ≡ some rq')
        × IsValid rq'
        × Moved L rq.ts p k rq'.ts
  unfolding set_user_nice dequeue_task_ts
  set_user_nice-ts rq p i k v q c y b ne =
      let out = dequeue_task_ts rq p save_noclock in
      let new = reniced m out p (nice_of k) in
      let (v1, u1, gone) = dequeue_task_ts_lem laws rq p save_noclock i v q in
      let (same, prio, class, kept) = reniced_lem m out p k i (v.at_level p i q) y b in
      let u2 : IsUnlinked L new.ts p = rw same u1 in
      let v2 = unlinked-IsValid out new p v1 u1 same kept in
      let (rq', run, v3, back) =
        back_lem new p k (rq.tasks p).prio v2 u2 (class ∙ c) (rw prio (level_at k b)) in
      let (low, high) = nice_of-range k b in
      let taken : take_out m rq p true save_noclock ≡ out = take_out-ts m rq p save_noclock c in
      (rq', rw (ne, low, high, y, taken) run, v3, λ j. back j ∙ rw (same, gone j) refl)
