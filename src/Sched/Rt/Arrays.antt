-- ===== src/Sched/Rt/Arrays.antt =====
-- The invariant of the lists, the bitmap and the counts of rt.c, and what adding and taking out a
-- node does to it.
use kenrel_learning.Common.{
  ℕ, zero, suc, ◌+◌, ◌≤◌, ◌<◌, ◌≡◌, ◌==◌, ltb, refl, ◌∙◌, Bool, true, false, not, [], ◌∷◌, List,
  length, length-append, count, remove, count-append, count-single, count-remove, arith,
  if◌then◌else◌,
}
use kenrel_learning.ListHead.{ListApi, ListLaws, IsUnlinked, IsLinkedAt}
use kenrel_learning.Sched.Rt.{RtRq}

-- The sum of f 0, …, f (n - 1).
unfoldable pub total : ℕ → (ℕ → ℕ) → ℕ
total zero f = 0
total (suc n) f = total n f + f n

-- The first bit that is set.
pub record IsFirst (bitmap : ℕ → Bool) (h : ℕ) : Type 0 where
  pub is_set : bitmap h ≡ true
  pub none_below : (j : ℕ) → j < h → bitmap j ≡ false

-- What sched_find_first_bit is relied on for: the bit 100 of the bitmap is always set.
abbrev pub IsFindFirst : ((ℕ → Bool) → ℕ) → Type 0
IsFindFirst find = (bitmap : ℕ → Bool) → bitmap 100 ≡ true → IsFirst bitmap (find bitmap)

module _ {L : ListApi} where
  -- A task stands in the list of its priority, once, when it is on the queue, and in none otherwise.
  -- A bit is set where a list is not empty; the count is that of all tasks in the lists, and
  -- `highest` the first list that is not empty, or 100.
  pub record IsArray (rq : RtRq L) : Type 0 where
    pub at_prio :
        (t i : ℕ)
        → 0 < count t (L.contents rq.queue i)
        → ((rq.tasks t).prio ≡ i) × (i < 100) × ((rq.tasks t).on_rq ≡ true)
    pub once : (t i : ℕ) → count t (L.contents rq.queue i) ≤ 1
    pub present :
        (t : ℕ) → (rq.tasks t).on_rq ≡ true → 0 < count t (L.contents rq.queue (rq.tasks t).prio)
    pub bits : (i : ℕ) → i < 100 → rq.bitmap i ≡ not (length (L.contents rq.queue i) == 0)
    pub delimiter : rq.bitmap 100 ≡ true
    pub counted : rq.rt_nr_running ≡ total 100 (λ i. length (L.contents rq.queue i))
    pub best : IsFirst rq.bitmap rq.highest

-- The lists `hs'` have `p` in list `k` besides what `hs` have, or the other way round.
pub record Gains (L : ListApi) (hs hs' : L.Heads) (p k : ℕ) : Type 0 where
  pub members :
      (q j : ℕ)
      → count q (L.contents hs' j)
        ≡ (if p == q then (if j == k then 1 else 0) else count q (L.contents hs j))
  pub absent : (j : ℕ) → count p (L.contents hs j) ≡ 0
  pub longer :
      (j : ℕ)
      → length (L.contents hs' j)
        ≡ (if j == k then suc (length (L.contents hs j)) else length (L.contents hs j))

total_same :
    (n k : ℕ) (f g : ℕ → ℕ)
    → ((j : ℕ) → g j ≡ (if j == k then suc (f j) else f j))
    → total n g ≡ (if ltb k n then suc (total n f) else total n f)
unfolding total
total_same zero k f g h = ground arith
total_same (suc n) k f g h = ground (arith, total_same n k f g h, h n)

pub total_zero : (n i : ℕ) (f : ℕ → ℕ) → total n f ≡ 0 → i < n → f i ≡ 0
unfolding total
total_zero zero i f h b = absurd (omega arith)
total_zero (suc n) i f h b = ground (arith, total_zero n i f)

module _ {L : ListApi} (hs hs' : L.Heads) (p k : ℕ) (g : Gains L hs hs' p k) where
  pub Gains-total :
      k < 100
      → total 100 (λ i. length (L.contents hs' i)) ≡ suc (total 100 (λ i. length (L.contents hs i)))
  Gains-total b =
      let e =
        total_same 100 k (λ i. length (L.contents hs i)) (λ i. length (L.contents hs' i))
          g.longer in
      ground arith

pub length-remove : (a : ℕ) (xs : List ℕ) → length (remove a xs) + count a xs ≡ length xs
unfolding count remove
length-remove a [] = refl
length-remove a (x ∷ xs) = ground (arith, length-remove a xs)

module _ {L : ListApi} (laws : ListLaws L) (p k : ℕ) (hs : L.Heads) where
  pub add_tail-Gains : IsUnlinked L hs p → Gains L hs (L.list_add_tail p k hs) p k
  add_tail-Gains u = record {
    members = λ q j.
        rw (laws.contents-add_tail p k j hs u)
          (ground (arith, count-append q (L.contents hs j) (p ∷ []), count-single q p, u j));
    absent = u;
    longer = λ j.
        rw (laws.contents-add_tail p k j hs u)
          (ground (arith, length-append (L.contents hs j) (p ∷ [])));
  }

  pub add-Gains : IsUnlinked L hs p → Gains L hs (L.list_add p k hs) p k
  unfolding count
  add-Gains u = record {
    members = λ q j. rw (laws.contents-add p k j hs u) (ground (arith, u j));
    absent = u;
    longer = λ j. rw (laws.contents-add p k j hs u) (ground arith);
  }

  pub del-Gains : IsLinkedAt L hs p k → Gains L (L.list_del p hs) hs p k
  del-Gains l = record {
    members = λ q j.
        rw (laws.contents-del p k j hs l)
          (ground (arith, count-remove q p (L.contents hs j), l.here, l.elsewhere j));
    absent =
        λ j. rw (laws.contents-del p k j hs l) (ground (arith, count-remove p p (L.contents hs j)));
    longer = λ j.
        rw (laws.contents-del p k j hs l)
          (ground (arith, length-remove p (L.contents hs j), l.here, l.elsewhere j));
  }

  pub list_empty_lem : L.list_empty k hs ≡ (length (L.contents hs k) == 0)
  list_empty_lem = go (L.contents hs k) refl
    where
      go :
          (xs : List ℕ) → L.contents hs k ≡ xs → L.list_empty k hs ≡ (length (L.contents hs k) == 0)
      go [] e = rw e (laws.empty-nil k hs e)
      go (x ∷ xs) e = rw e ((laws.empty-cons k x xs hs e).0 ∙ ground arith)
