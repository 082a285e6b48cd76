-- ===== src/Sched/Rt/Share/Reclaim.antt =====
-- Reclaiming by __disable_runtime: the CPU that goes out of use gets back what it lent.
use kenrel_learning.Common.{
  ℕ, suc, ◌+◌, ◌-◌, ◌%◌, ◌^◌, ◌≤◌, ◌<◌, ◌≡◌, ◌==◌, ◌⊎◌, min, ℤ, pos, negsuc, refl, ap, Bool, true,
  false, List, [], ◌∷◌, if◌then◌else◌, arith, Bool-cases, inl, inr,
}
use kenrel_learning.Sched.Rt.Bandwidth.{runtime_inf}
use kenrel_learning.Sched.Rt.Share.{Account, with_want, reclaim}
use kenrel_learning.Sched.Rt.Share.Lend.{runtime_of, total_runtime, counted, in_use, AreAccounts}

-- The loop ends with nothing wanted, and the others have `total` together.
abbrev pub Settles : ℕ → List Account → ℤ × List Account → Type 0
Settles total l q =
    (m : List Account) × (q ≡ (pos 0, m)) × (total_runtime m ≡ total) × (in_use m ≡ in_use l)

with_want-Settles :
    (total whole : ℕ) (a b : Account) (l : List Account) (q : ℤ × List Account)
    → counted b ≡ counted a
    → whole ≡ runtime_of b + total
    → Settles total l q
    → Settles whole (a ∷ l) (with_want b q)
with_want-Settles total whole a b l q e f (m, h, k, c) =
    (b ∷ m, ap (with_want b) h, omega (arith, f, k), omega (arith, c, e))

take_step :
    (want d : ℕ) (a : Account) (l : List Account) (inf : Bool) (q : ℤ × List Account)
    → (a.rt_runtime == runtime_inf) ≡ inf
    → (a.rt_runtime < 2 ^ 63) ⊎ (a.rt_runtime ≡ runtime_inf)
    → d ≡ min a.rt_runtime want
    → want ≤ total_runtime (a ∷ l)
    → ((if inf then want else want - d) ≤ total_runtime l
        → Settles (total_runtime l - (if inf then want else want - d)) l q)
    → Settles (total_runtime (a ∷ l) - want) (a ∷ l) (
        if inf
        then with_want a q
        else if want - d == 0
        then (pos 0, record a { rt_runtime = a.rt_runtime - d } ∷ l)
        else with_want (record a { rt_runtime = a.rt_runtime - d }) q)
take_step want d a l true q e w x h ih =
    with_want-Settles (total_runtime l - want) (total_runtime (a ∷ l) - want) a a l q refl
      (ground arith) (ih (ground arith))
take_step want d a l false q e w x h ih =
    let b = record a { rt_runtime = a.rt_runtime - d } in
    elim (Bool-cases (want - d == 0)) [
      | inl s ↦ rw s (b ∷ l, refl, ground arith, ground arith)
      | inr s ↦ rw s (
          with_want-Settles (total_runtime l - (want - d)) (total_runtime (a ∷ l) - want) a b l q
            (ground arith) (ground arith) (ih (ground arith)))
    ]

pub reclaim_pos :
    (want : ℕ) (l : List Account)
    → AreAccounts l
    → want ≤ total_runtime l
    → Settles (total_runtime l - want) l (reclaim (pos want) l)
unfolding reclaim
reclaim_pos want [] w h = ([], ap (λ (n : ℕ). (pos n, [])) omega arith, omega arith, refl)
reclaim_pos want (a ∷ l) ((s, t), ws) h =
    let d = min a.rt_runtime want in
    take_step want d a l (a.rt_runtime == runtime_inf)
      (reclaim (pos (if a.rt_runtime == runtime_inf then want else want - d)) l) refl t refl h
      (reclaim_pos (if a.rt_runtime == runtime_inf then want else want - d) l ws)

give_step :
    (k : ℕ) (a : Account) (l : List Account) (inf : Bool) (q : ℤ × List Account)
    → (a.rt_runtime == runtime_inf) ≡ inf
    → (a.rt_runtime < 2 ^ 63) ⊎ (a.rt_runtime ≡ runtime_inf)
    → suc k < 2 ^ 63
    → 0 < in_use (a ∷ l)
    → (0 < in_use l → Settles (total_runtime l + suc k) l q)
    → Settles (total_runtime (a ∷ l) + suc k) (a ∷ l) (
        if inf
        then with_want a q
        else (pos 0, record a { rt_runtime = (a.rt_runtime + suc k) % 2 ^ 64 } ∷ l))
give_step k a l true q e w s h ih =
    with_want-Settles (total_runtime l + suc k) (total_runtime (a ∷ l) + suc k) a a l q refl
      (ground arith) (ih (ground arith))
give_step k a l false q e w s h ih = (
  record a { rt_runtime = (a.rt_runtime + suc k) % 2 ^ 64 } ∷ l,
  refl,
  ground arith,
  ground arith,
)

pub reclaim_negsuc :
    (k : ℕ) (l : List Account)
    → AreAccounts l
    → suc k < 2 ^ 63
    → 0 < in_use l
    → Settles (total_runtime l + suc k) l (reclaim (negsuc k) l)
unfolding reclaim
reclaim_negsuc k [] w s h = absurd (omega arith)
reclaim_negsuc k (a ∷ l) ((t, u), ws) s h =
    give_step k a l (a.rt_runtime == runtime_inf) (reclaim (negsuc k) l) refl u s h
      (reclaim_negsuc k l ws s)
