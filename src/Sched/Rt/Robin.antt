-- ===== src/Sched/Rt/Robin.antt =====
-- The round robin of task_tick_rt in rt.c.
use kenrel_learning.Common.{
  ℕ, ◌≤◌, ◌<◌, ◌≡◌, ◌≢◌, ◌==◌, ltb, refl, ap, sym, ◌∙◌, Bool, true, false, inl, inr, List, [], ◌∷◌,
  ◌++◌, length, count, arith, if◌then◌else◌, Bool-cases, remove, length-append, count-append,
  count-remove, count-single, remove-absent,
}
use mathlib.Core.Path.{subst}
use kenrel_learning.ListHead.{ListApi, ListLaws, IsLinkedAt}
use kenrel_learning.Sched.Rt.{
  RtRq, set_task, pick_next_task_rt, RtPick, picked, requeue_task_rt, tick_slice,
}
use kenrel_learning.Sched.Rt.Arrays.{total, IsFindFirst, length-remove}
use kenrel_learning.Sched.Rt.Queue.{IsRtValid, linked, renewed}
use kenrel_learning.Sched.Rt.Turn.{
  PicksRt, none_queued, is_throttled, first_task, pick_next_task_rt-Picks,
}

module _ {L : ListApi} (others : ℕ) (rq : RtRq L) (hs : L.Heads) (b : Bool) where
  abbrev pub reordered : RtRq L
  reordered = record rq { queue = hs; need_resched = b }

  -- The order within the lists does not matter to the invariant.
  pub reordered-IsRtValid :
      ((q j : ℕ) → count q (L.contents hs j) ≡ count q (L.contents rq.queue j))
      → ((j : ℕ) → length (L.contents hs j) ≡ length (L.contents rq.queue j))
      → IsRtValid others rq
      → IsRtValid others reordered
  reordered-IsRtValid c l v = record {
    arrays = record {
      at_prio = λ t i n. ground (arith, c t i, v.arrays.at_prio t i);
      once = λ t i. ground (arith, c t i, v.arrays.once t i);
      present = λ t on. ground (arith, c t (rq.tasks t).prio, v.arrays.present t on);
      bits = λ i k. rw (l i) (v.arrays.bits i k);
      delimiter = v.arrays.delimiter;
      counted = v.arrays.counted ∙ (λ i. total 100 (λ j. sym (l j) i));
      best = v.arrays.best;
    };
    top = v.top;
    runs = v.runs;
  }

module _ {L : ListApi} (laws : ListLaws L) (hs : L.Heads) (p k : ℕ) (l : IsLinkedAt L hs p k) where
  pub moved-count :
      (q j : ℕ) → count q (L.contents (L.list_move_tail p k hs) j) ≡ count q (L.contents hs j)
  moved-count q j = rw (laws.contents-move_tail p k k j hs l) (
      ground (
        arith,
        count-append q (remove p (L.contents hs j)) (p ∷ []),
        count-single q p,
        count-remove q p (L.contents hs j),
        l.here,
        l.elsewhere j,
      ))

  pub moved-length :
      (j : ℕ) → length (L.contents (L.list_move_tail p k hs) j) ≡ length (L.contents hs j)
  moved-length j = rw (laws.contents-move_tail p k k j hs l) (
      ground (
        arith,
        length-append (remove p (L.contents hs j)) (p ∷ []),
        length-remove p (L.contents hs j),
        l.here,
        l.elsewhere j,
      ))

nil_cons : {x : ℕ} {xs : List ℕ} → [] ≢ x ∷ xs
nil_cons e = absurd (omega (arith, ap length e))

heads : {x y : ℕ} {xs ys : List ℕ} → x ∷ xs ≡ y ∷ ys → x ≡ y
heads {x} e = ap (head_or x) e
  where
    head_or : ℕ → List ℕ → ℕ
    head_or d [] = d
    head_or d (z ∷ zs) = z

-- The list of the highest priority says which task is picked.
first_of :
    {L : ListApi} (rq : RtRq L) (o : RtPick) (i q : ℕ) (ys : List ℕ)
    → PicksRt L rq o
    → rq.rt_throttled ≡ false
    → i < 100
    → L.contents rq.queue i ≡ q ∷ ys
    → ((j : ℕ) → j < i → L.contents rq.queue j ≡ [])
    → o ≡ picked q
first_of {L} rq o i q ys (none_queued t e) f b c below = absurd (nil_cons (sym (e i b) ∙ c))
first_of {L} rq o i q ys (is_throttled t) f b c below = absurd (cc)
first_of {L} rq o i q ys (first_task p k xs e above) f b c below = elim (Bool-cases (ltb k i)) [
  | inl h ↦ absurd (nil_cons (sym (below k (ground arith)) ∙ e))
  | inr h ↦ elim (Bool-cases (ltb i k)) [
    | inl g ↦ absurd (nil_cons (sym (above i (ground arith)) ∙ c))
    | inr g ↦
        let same : i ≡ k = ground arith in
        ap picked (heads (sym e ∙ (ap (L.contents rq.queue) (sym same) ∙ c)))
  ]
]

remove_first : (p : ℕ) (xs : List ℕ) → count p xs ≡ 0 → remove p (p ∷ xs) ≡ xs
unfolding remove
remove_first p xs h = let e : (p == p) ≡ true = ground arith in rw e (remove-absent p xs h)

first_counts : (p : ℕ) (xs : List ℕ) → 0 < count p (p ∷ xs)
unfolding count
first_counts p xs = ground arith

module _ {L : ListApi} (laws : ListLaws L) (find : (ℕ → Bool) → ℕ) (finds : IsFindFirst find)
    (others : ℕ) (rq : RtRq L) (p q : ℕ) (rest : List ℕ) (v : IsRtValid others rq) where
  abbrev k : ℕ
  k = (rq.tasks p).prio

  -- The queue after the turn.
  abbrev refilled : ℕ → RtRq L
  refilled slice = record rq {
    tasks = set_task rq.tasks p (record (rq.tasks p) { time_slice = slice });
  }

  abbrev turned : ℕ → RtRq L
  turned slice = reordered others (refilled slice) (L.list_move_tail p k rq.queue) true

  tick-turned :
      (slice : ℕ)
      → (rq.tasks p).is_rr ≡ true
      → (rq.tasks p).on_rq ≡ true
      → (rq.tasks p).time_slice ≡ 1
      → L.alone p k rq.queue ≡ false
      → tick_slice slice rq p ≡ turned slice
  unfolding tick_slice requeue_task_rt
  tick-turned slice rr on one more =
      let e : (p == p) ≡ true = ground arith in rw (rr, one, more, e, on) refl

  turned-IsRtValid : (slice : ℕ) → IsLinkedAt L rq.queue p k → IsRtValid others (turned slice)
  turned-IsRtValid slice l =
      reordered-IsRtValid others (refilled slice) (L.list_move_tail p k rq.queue) true
        (λ t j. moved-count laws rq.queue p k l t j) (λ j. moved-length laws rq.queue p k l j)
        (renewed laws find finds others rq p (record (rq.tasks p) { time_slice = slice }) refl refl
          v)

  absent_rest : L.contents rq.queue k ≡ p ∷ q ∷ rest → count p (q ∷ rest) ≡ 0
  unfolding count
  absent_rest c =
      let o : count p (p ∷ q ∷ rest) ≤ 1 = subst (λ xs. count p xs ≤ 1) c (v.arrays.once p k) in
      ground arith

  not_alone : p ∷ q ∷ rest ≢ p ∷ []
  not_alone e = absurd (omega (arith, ap length e))

  turned-contents :
      (j : ℕ)
      → IsLinkedAt L rq.queue p k
      → L.contents (L.list_move_tail p k rq.queue) j ≡ (
          if j == k
          then remove p (L.contents rq.queue j) ++ p ∷ []
          else remove p (L.contents rq.queue j))
  turned-contents j l = laws.contents-move_tail p k k j rq.queue l

  turned-below :
      IsLinkedAt L rq.queue p k
      → ((j : ℕ) → j < k → L.contents rq.queue j ≡ [])
      → (j : ℕ) → j < k
      → L.contents (L.list_move_tail p k rq.queue) j ≡ []
  unfolding remove
  turned-below l below j b =
      let ne : (j == k) ≡ false = ground arith in turned-contents j l ∙ rw (ne, below j b) refl

  turned-here :
      IsLinkedAt L rq.queue p k
      → L.contents rq.queue k ≡ p ∷ q ∷ rest
      → L.contents (L.list_move_tail p k rq.queue) k ≡ (q ∷ rest) ++ p ∷ []
  turned-here l c =
      let e : (k == k) ≡ true = ground arith in
      turned-contents k l
      ∙ rw (e, c) (ap (λ xs. xs ++ p ∷ []) (remove_first p (q ∷ rest) (absent_rest c)))

  -- When the slice of the round-robin task at the head of the highest list is used up, and another
  -- waits behind it, that other one is the next to be picked, the task that ran stands at the end of
  -- the list, a reschedule is asked for, and the queue stays valid.
  pub tick_slice-turn :
      (slice : ℕ)
      → rq.rt_throttled ≡ false
      → L.contents rq.queue (rq.tasks p).prio ≡ p ∷ q ∷ rest
      → ((j : ℕ) → j < (rq.tasks p).prio → L.contents rq.queue j ≡ [])
      → (rq.tasks p).is_rr ≡ true
      → (rq.tasks p).time_slice ≡ 1
      → IsRtValid others (tick_slice slice rq p)
        × (L.contents (tick_slice slice rq p).queue (rq.tasks p).prio ≡ (q ∷ rest) ++ p ∷ [])
        × ((tick_slice slice rq p).need_resched ≡ true)
        × (pick_next_task_rt find (tick_slice slice rq p) ≡ picked q)
  tick_slice-turn slice f c below rr one =
      let here : 0 < count p (L.contents rq.queue k) = rw c (first_counts p (q ∷ rest)) in
      let (_, b, on) = v.arrays.at_prio p k here in
      let l = linked rq v.arrays p on in
      let more : L.alone p k rq.queue ≡ false =
        laws.alone-more p k rq.queue l (λ e. not_alone (sym c ∙ e)) in
      let valid = turned-IsRtValid slice l in
      let at_k = turned-here l c in
      rw (tick-turned slice rr on one more) (
        valid,
        at_k,
        refl,
        first_of (turned slice) (pick_next_task_rt find (turned slice)) k q (rest ++ p ∷ [])
            (pick_next_task_rt-Picks laws find finds others (turned slice) valid) f b at_k
            (turned-below l below),
      )
