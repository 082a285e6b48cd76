-- ===== src/Sched/Reach/Standing.antt =====
-- Whether a task stands in a TS queue, through the changes that the operations make to the queues.
use kenrel_learning.Common.{
  ℕ, ◌<◌, ◌≡◌, ◌==◌, refl, Bool, true, false, not, ◌&&◌, ◌||◌, [], ◌∷◌, ◌++◌, arith, count,
  count-append, count-single, count-remove, remove, if◌then◌else◌, Bool-cases, inl, inr, subst,
}
use kenrel_learning.ListHead.{ListApi, IsUnlinked}
use kenrel_learning.Sched.Ts.Queues.{Moved, Moved-count}

-- The task stands in some queue, or in none.
abbrev pub Stands : (L : ListApi) → L.Heads → ℕ → Bool → Type 0
Stands L hs t true = (i : ℕ) × (0 < count t (L.contents hs i))
Stands L hs t false = IsUnlinked L hs t

abbrev pub Added : (L : ListApi) → L.Heads → ℕ → ℕ → L.Heads → Type 0
Added L hs p k hs' =
    (j : ℕ) → L.contents hs' j ≡ (if j == k then L.contents hs j ++ p ∷ [] else L.contents hs j)

-- The task `p` stands in a queue afterwards, and of each other one as many are in each queue.
pub record Kept (L : ListApi) (hs : L.Heads) (p : ℕ) (hs' : L.Heads) : Type 0 where
  pub others : (q j : ℕ) → (p == q) ≡ false → count q (L.contents hs' j) ≡ count q (L.contents hs j)
  pub place : ℕ
  pub stays : 0 < count p (L.contents hs' place)

module _ (L : ListApi) (hs hs' : L.Heads) (p t : ℕ) where
  -- A task other than `p`, of which there are as many as before.
  same-Stands :
      (b : Bool)
      → ((j : ℕ) → count t (L.contents hs' j) ≡ count t (L.contents hs j))
      → Stands L hs t b
      → Stands L hs' t b
  same-Stands true e (i, h) = (i, omega (arith, e i, h))
  same-Stands false e u = λ j. omega (arith, e j, u j)

  pub Added-Stands :
      (k : ℕ) (b : Bool) → Added L hs p k hs' → Stands L hs t b → Stands L hs' t (p == t || b)
  Added-Stands k b a s = elim (Bool-cases (p == t)) [
    | inl e ↦
        rw e (k, ground (arith, a k, count-append t (L.contents hs k) (p ∷ []), count-single t p))
    | inr e ↦ rw e (
        same-Stands b
          (λ j. ground (arith, a j, count-append t (L.contents hs j) (p ∷ []), count-single t p)) s)
  ]

  pub Removed-Stands :
      (b : Bool)
      → ((j : ℕ) → L.contents hs' j ≡ remove p (L.contents hs j))
      → Stands L hs t b
      → Stands L hs' t (not (p == t) && b)
  Removed-Stands b a s = elim (Bool-cases (p == t)) [
    | inl e ↦ rw e (λ j. ground (arith, a j, count-remove t p (L.contents hs j)))
    | inr e ↦ rw e (same-Stands b (λ j. ground (arith, a j, count-remove t p (L.contents hs j))) s)
  ]

  pub Kept-Stands :
      (i : ℕ) (b : Bool)
      → 0 < count p (L.contents hs i)
      → Kept L hs p hs'
      → Stands L hs t b
      → Stands L hs' t b
  Kept-Stands i b q k s = elim (Bool-cases (p == t)) [
    | inr e ↦ same-Stands b (λ j. k.others t j e) s
    | inl e ↦ of_task b s (ground arith)
  ]
    where
      of_task : (b : Bool) → Stands L hs t b → p ≡ t → Stands L hs' t b
      of_task true s e = (k.place, subst (λ z. 0 < count z (L.contents hs' k.place)) e k.stays)
      of_task false u e =
          let here = subst (λ z. 0 < count z (L.contents hs i)) e q in
          absurd (omega (arith, here, u i))

module _ (L : ListApi) where
  pub same-Kept : (hs : L.Heads) (p i : ℕ) → 0 < count p (L.contents hs i) → Kept L hs p hs
  same-Kept hs p i q = record { others = λ q j e. refl; place = i; stays = q }

  pub Moved-Kept : (hs hs' : L.Heads) (p k : ℕ) → Moved L hs p k hs' → Kept L hs p hs'
  Moved-Kept hs hs' p k m = record {
    others = λ q j e. ground (arith, Moved-count L hs hs' p k m q j);
    place = k;
    stays = ground (arith, Moved-count L hs hs' p k m p k);
  }

  pub Yielded-Kept :
      (hs hs' : L.Heads) (p k : ℕ)
      → ((j : ℕ)
          → L.contents hs' j
            ≡ (if j == k then remove p (L.contents hs j) ++ p ∷ [] else L.contents hs j))
      → Kept L hs p hs'
  Yielded-Kept hs hs' p k m = record {
    others = λ q j e. ground (
      arith,
      m j,
      count-append q (remove p (L.contents hs j)) (p ∷ []),
      count-single q p,
      count-remove q p (L.contents hs j),
    );
    place = k;
    stays =
        ground (arith, m k, count-append p (remove p (L.contents hs k)) (p ∷ []), count-single p p);
  }
