-- ===== src/Sched/Rt/Turn.antt =====
-- Which task rt.c runs, and the round robin of its tick.
use kenrel_learning.Common.{
  ℕ, zero, suc, ◌<◌, ◌≡◌, ◌≢◌, ◌==◌, ltb, refl, ap, sym, ◌∙◌, Bool, true, false, inl, inr, List, [],
  ◌∷◌, length, arith, Bool-cases,
}
use kenrel_learning.ListHead.{ListApi, ListLaws}
use kenrel_learning.Sched.Rt.{
  RtRq, pick_next_rt_entity, pick_next_task_rt, RtPick, nothing, picked, prio_changed_rt,
}
use kenrel_learning.Sched.Rt.Arrays.{IsFirst, IsFindFirst, total, total_zero}
use kenrel_learning.Sched.Rt.Queue.{IsRtValid}

-- The first task of the first list that is not empty, or nothing when all are.
pub data PicksRt (L : ListApi) (rq : RtRq L) : RtPick → Type 0 where
  none_queued :
      rq.rt_throttled ≡ false
      → ((j : ℕ) → j < 100 → L.contents rq.queue j ≡ [])
      → PicksRt L rq nothing
  is_throttled : rq.rt_throttled ≡ true → PicksRt L rq nothing
  first_task :
      (p i : ℕ) (xs : List ℕ)
      → L.contents rq.queue i ≡ p ∷ xs
      → ((j : ℕ) → j < i → L.contents rq.queue j ≡ [])
      → PicksRt L rq (picked p)

length-nil : (xs : List ℕ) → length xs ≡ 0 → xs ≡ []
length-nil [] h = refl
length-nil (x ∷ xs) h = absurd (omega arith)

pub sum_zero : (n : ℕ) (f : ℕ → ℕ) → ((i : ℕ) → i < n → f i ≡ 0) → total n f ≡ 0
unfolding total
sum_zero zero f h = refl
sum_zero (suc n) f h =
    let e = sum_zero n f (λ i b. h i (omega arith)) in let z = h n (omega arith) in omega arith

true-false : true ≢ false
true-false e = absurd (cc)

module _ {L : ListApi} (laws : ListLaws L) (find : (ℕ → Bool) → ℕ) (finds : IsFindFirst find)
    (others : ℕ) (rq : RtRq L) (v : IsRtValid others rq) where
  no_bit : (j : ℕ) → j < 100 → rq.bitmap j ≡ false → L.contents rq.queue j ≡ []
  no_bit j b h = length-nil (L.contents rq.queue j) (ground (arith, v.arrays.bits j b))

  all_empty : rq.rt_nr_running ≡ 0 → (j : ℕ) → j < 100 → L.contents rq.queue j ≡ []
  all_empty h j b =
      length-nil (L.contents rq.queue j)
        (total_zero 100 j (λ i. length (L.contents rq.queue i)) (sym v.arrays.counted ∙ h) b)

  first : IsFirst rq.bitmap (find rq.bitmap)
  first = finds rq.bitmap v.arrays.delimiter

  -- A class with tasks has a bit below 100.
  found : (rq.rt_nr_running == 0) ≡ false → find rq.bitmap < 100
  found h = elim (Bool-cases (ltb (find rq.bitmap) 100)) [
    | inl b ↦ ground arith
    | inr b ↦
        let z =
          sum_zero 100 (λ i. length (L.contents rq.queue i))
            (λ i c. ap length (no_bit i c (first.none_below i (ground arith)))) in
        absurd (ground (arith, v.arrays.counted))
  ]

  -- The first of a list, at the bit that is found.
  at_bit :
      (xs : List ℕ)
      → find rq.bitmap < 100
      → L.contents rq.queue (find rq.bitmap) ≡ xs
      → (p : ℕ) × (ys : List ℕ) × (xs ≡ p ∷ ys) × (L.next (find rq.bitmap) rq.queue ≡ p)
  at_bit [] b e =
      let bit = v.arrays.bits (find rq.bitmap) b in
      absurd (ground (arith, first.is_set, ap length e))
  at_bit (p ∷ ys) b e = (p, ys, refl, (laws.empty-cons (find rq.bitmap) p ys rq.queue e).1)

  -- pick_next_task_rt returns the first task of the first list that is not empty, and NULL when the
  -- class is throttled or all its lists are empty; the BUG_ON is not reached.
  pub pick_next_task_rt-Picks : PicksRt L rq (pick_next_task_rt find rq)
  unfolding pick_next_task_rt pick_next_rt_entity
  pick_next_task_rt-Picks = elim (Bool-cases rq.rt_queued) [
    | inl h ↦
        let b = found (ground (arith, v.top)) in
        let (p, ys, e, n) = at_bit (L.contents rq.queue (find rq.bitmap)) b refl in
        let low : ltb (find rq.bitmap) 100 ≡ true = ground arith in
        rw (h, low, n)
          (first_task p (find rq.bitmap) ys e
            (λ j c. no_bit j (omega arith) (first.none_below j c)))
    | inr h ↦ elim (Bool-cases rq.rt_throttled) [
      | inl t ↦ rw h (is_throttled t)
      | inr t ↦ rw h (none_queued t (all_empty (ground (arith, v.top))))
    ]
  ]

  -- When the running task has got another priority and prio_changed_rt asks for no reschedule, no
  -- task of a better priority waits.
  pub prio_changed_rt-first :
      (p j : ℕ)
      → rq.curr ≡ p
      → (prio_changed_rt rq p true).need_resched ≡ false
      → j < (rq.tasks p).prio
      → j < 100
      → L.contents rq.queue j ≡ []
  unfolding prio_changed_rt
  prio_changed_rt-first p j c q h b = elim (Bool-cases (ltb rq.highest (rq.tasks p).prio)) [
    | inl g ↦ let e : (rq.curr == p) ≡ true = ground arith in absurd (true-false (rw (e, g) at q))
    | inr g ↦ no_bit j b (v.arrays.best.none_below j (ground arith))
  ]
