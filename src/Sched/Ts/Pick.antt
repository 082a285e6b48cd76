-- ===== src/Sched/Ts/Pick.antt =====
-- pick_next_task_ts of ts.c: the search from the highest queue down; and the round robin that it
-- makes with yield_task_ts.
use native.Mathlib.Decide.{ℕ_discrete}
use kenrel_learning.Common.{
  ℕ, zero, suc, ◌<◌, ◌≡◌, refl, sym, ◌==◌, subst, ◌⊎◌, inl, inr, Option, none, some, List, [], ◌∷◌,
  ◌++◌, arith, if◌then◌else◌, count, remove, remove-absent,
}
use kenrel_learning.ListHead.{ListApi, ListLaws}
use kenrel_learning.Sched.Task.{Rq}
use kenrel_learning.Sched.Ts.{pick_from, pick_next_task_ts, yield_task_ts}
use kenrel_learning.Sched.Ts.Queues.{IsValid, linked, Moved-count}

-- Of the queues below `n`: all are empty and nothing is picked, or the first task of the highest
-- queue that is not empty is.
abbrev pub Picks : (L : ListApi) → (Rq L → ℕ → Rq L) → ℕ → Rq L → ℕ → Rq L × Option ℕ → Type 0
Picks L put_prev_task n rq prev r =
    (((j : ℕ) → j < n → L.contents rq.ts j ≡ []) × (r ≡ (rq, none)))
    ⊎ ((i x : ℕ) × (xs : List ℕ) × (i < n)
        × (L.contents rq.ts i ≡ x ∷ xs)
        × ((j : ℕ) → i < j → j < n → L.contents rq.ts j ≡ [])
        × (r ≡ (put_prev_task rq prev, some x)))

List-cases : (xs : List ℕ) → (xs ≡ []) ⊎ ((x : ℕ) × (r : List ℕ) × (xs ≡ x ∷ r))
List-cases [] = inl refl
List-cases (x ∷ r) = inr (x, r, refl)

module _ {L : ListApi} (laws : ListLaws L) (put_prev_task : Rq L → ℕ → Rq L)
    (keeps : (rq : Rq L) (prev : ℕ) → (put_prev_task rq prev).ts ≡ rq.ts) where
  extend :
      (rq : Rq L) (n : ℕ) {P : ℕ → Type 0}
      → L.contents rq.ts n ≡ []
      → ((j : ℕ) → P j → j < n → L.contents rq.ts j ≡ [])
      → (j : ℕ) → P j
      → j < suc n
      → L.contents rq.ts j ≡ []
  extend rq n e h j p b = elim (ℕ_discrete j n) [
    | yes s ↦ subst (λ k. L.contents rq.ts k ≡ []) (sym s) e
    | no d ↦ h j p (omega arith)
  ]

  pick_from-Picks :
      (n : ℕ) (rq : Rq L) (prev : ℕ)
      → Picks L put_prev_task n rq prev (pick_from put_prev_task n rq prev)
  unfolding pick_from
  pick_from-Picks zero rq prev = inl (λ j b. absurd (omega arith), refl)
  pick_from-Picks (suc n) rq prev = elim (List-cases (L.contents rq.ts n)) [
    | inr (x, xs, e) ↦ inr (
      n,
      x,
      xs,
      omega arith,
      e,
      λ j b c. absurd (omega arith),
      let (d, h) = laws.empty-cons n x xs rq.ts e in rw (d, keeps rq prev, h) refl,
    )
    | inl e ↦ elim (pick_from-Picks n rq prev) [
      | inl (none_below, r) ↦ inl (
        λ j b. extend rq n {P = λ _. Unit {0}} e (λ j _ b. none_below j b) j tt b,
        rw (laws.empty-nil n rq.ts e) r,
      )
      | inr (i, x, xs, b, c, above, r) ↦ inr (
        i,
        x,
        xs,
        omega arith,
        c,
        extend rq n {P = λ j. i < j} e above,
        rw (laws.empty-nil n rq.ts e) r,
      )
    ]
  ]

  -- The class gives up only when its forty queues are all empty. Otherwise it picks the task at the
  -- front of the highest queue that is not empty, and leaves it there.
  pub pick_next_task_ts-Picks :
      (rq : Rq L) (prev : ℕ)
      → Picks L put_prev_task 40 rq prev (pick_next_task_ts put_prev_task rq prev)
  unfolding pick_next_task_ts
  pick_next_task_ts-Picks = pick_from-Picks 40

module _ {L : ListApi} (laws : ListLaws L) where
  -- A running task that yields goes behind the other tasks of its level, and stays at its level.
  pub yield_task_ts_lem :
      (rq : Rq L) (i : ℕ)
      → IsValid rq
      → 0 < count rq.curr (L.contents rq.ts i)
      → (rq' : Rq L) × (yield_task_ts rq ≡ some rq')
        × IsValid rq'
        × (rq'.tasks ≡ rq.tasks)
        × ((j : ℕ)
            → L.contents rq'.ts j ≡ (
                if j == i
                then remove rq.curr (L.contents rq.ts j) ++ rq.curr ∷ []
                else L.contents rq.ts j))
  unfolding yield_task_ts
  yield_task_ts_lem rq i v q =
      let l = linked v rq.curr i q in
      let at = v.at_level rq.curr i q in
      let m = λ (j : ℕ). laws.contents-move_tail rq.curr i i j rq.ts l in
      let hs = L.list_move_tail rq.curr i rq.ts in
      (
        record rq { ts = hs },
        rw at refl,
        record {
          at_level =
              λ t j n. ground (arith, Moved-count L rq.ts hs rq.curr i m t j, v.at_level t j, at);
          once = λ t j. ground (arith, Moved-count L rq.ts hs rq.curr i m t j, v.once t j);
        },
        refl,
        λ j. ground (arith, m j, remove-absent rq.curr (L.contents rq.ts j), l.elsewhere j),
      )
