-- ===== src/Sched/Rt/Share/Balance.antt =====
-- No run time leaks when a CPU goes out of use by __disable_runtime.
use kenrel_learning.Common.{
  ℕ, suc, ◌+◌, ◌-◌, ◌*◌, ◌^◌, ◌<◌, ◌≡◌, ◌==◌, ◌⊎◌, ltb, ℤ, pos, negsuc, refl, ap, ◌∙◌, Bool, true,
  false, ◌||◌, Option, some, List, [], ◌∷◌, if◌then◌else◌, arith, Bool-cases, inl, inr,
}
use kenrel_learning.ListHead.{ListApi}
use kenrel_learning.Sched.Rt.{RtRq}
use kenrel_learning.Sched.Rt.Bandwidth.{runtime_inf, RtBandwidth}
use kenrel_learning.Sched.Rt.Share.{
  Account, reclaim, wanted, no_want, take_back, disabled, out_of_use, disable_runtime,
  enable_runtime,
}
use kenrel_learning.Sched.Rt.Share.Lend.{total_runtime, in_use, AreAccounts}
use kenrel_learning.Sched.Rt.Share.Reclaim.{Settles, reclaim_pos, reclaim_negsuc}

-- No run time has leaked: the CPUs in use have `full` each, on average.
abbrev pub IsBalanced : ℕ → ℕ → List Account → Type 0
IsBalanced full runtime others = runtime + total_runtime others ≡ suc (in_use others) * full

-- The others after the CPU went out of use.
abbrev pub Settled : ℕ → List Account → Option (List Account) → Type 0
Settled full others r =
    (m : List Account) × (r ≡ some m)
    × (total_runtime m ≡ in_use others * full)
    × (in_use m ≡ in_use others)

no_want-Settled :
    (full total : ℕ) (others : List Account) (q : ℤ × List Account)
    → total ≡ in_use others * full
    → Settles total others q
    → Settled full others (no_want q)
no_want-Settled full total others q e (m, h, t, c) = (m, ap no_want h, t ∙ e, c)

wanted-lt :
    (full runtime : ℕ) → full < 2 ^ 63 → runtime < full → wanted full runtime ≡ pos (full - runtime)
wanted-lt full runtime p h = ground arith

wanted-gt :
    (full runtime : ℕ)
    → runtime < 2 ^ 63
    → full < runtime
    → wanted full runtime ≡ negsuc (runtime - full - 1)
wanted-gt full runtime p h = ground arith

total_runtime-unused : (l : List Account) → in_use l ≡ 0 → total_runtime l ≡ 0
total_runtime-unused [] h = refl
total_runtime-unused (a ∷ l) h = let e = total_runtime-unused l (omega (arith, h)) in ground arith

IsBalanced-sum :
    (full runtime : ℕ) (others : List Account)
    → IsBalanced full runtime others
    → runtime + total_runtime others ≡ full + in_use others * full
IsBalanced-sum full runtime others b = grind (arith, b)

borrowed_in_use :
    (full runtime : ℕ) (others : List Account)
    → IsBalanced full runtime others
    → full < runtime
    → 0 < in_use others
borrowed_in_use full runtime others b h = elim (Bool-cases (in_use others == 0)) [
  | inl e ↦
      let n : in_use others ≡ 0 = ground arith in
      let z = total_runtime-unused others n in
      let m = ap (λ (k : ℕ). suc k * full) n in absurd (omega (arith, b, z, m))
  | inr e ↦ ground arith
]

apart : (m n : ℕ) → (m == n) ≡ false → (m < n) ⊎ (n < m)
apart m n e = elim (Bool-cases (ltb m n)) [
  | inl h ↦ inl (ground arith)
  | inr h ↦ inr (ground arith)
]

-- A balanced CPU that lent or borrowed takes back or gives back just that.
unequal :
    (full runtime : ℕ) (others : List Account)
    → full < 2 ^ 63
    → runtime < 2 ^ 63
    → AreAccounts others
    → IsBalanced full runtime others
    → (runtime < full) ⊎ (full < runtime)
    → Settled full others (no_want (reclaim (wanted full runtime) others))
unequal full runtime others p q w b (inl h) =
    let s = IsBalanced-sum full runtime others b in
    rw (wanted-lt full runtime p h) (
      no_want-Settled full (total_runtime others - (full - runtime)) others
        (reclaim (pos (full - runtime)) others) (omega (arith, s))
        (reclaim_pos (full - runtime) others w (omega (arith, s))))
unequal full runtime others p q w b (inr h) =
    let s = IsBalanced-sum full runtime others b in
    rw (wanted-gt full runtime q h) (
      no_want-Settled full (total_runtime others + suc (runtime - full - 1)) others
        (reclaim (negsuc (runtime - full - 1)) others) (omega (arith, s))
        (reclaim_negsuc (runtime - full - 1) others w (omega arith)
          (borrowed_in_use full runtime others b h)))

own :
    (full runtime : ℕ)
    → runtime < 2 ^ 63
    → (runtime == runtime_inf || runtime == full) ≡ true
    → runtime ≡ full
own full runtime q e = ground arith

branch-Settled :
    (full : ℕ) (others : List Account) (stays : Bool) (r : Option (List Account))
    → (stays ≡ true → total_runtime others ≡ in_use others * full)
    → (stays ≡ false → Settled full others r)
    → Settled full others (if stays then some others else r)
branch-Settled full others true r e f = (others, refl, e refl, refl)
branch-Settled full others false r e f = f refl

take_back-Settled :
    (full runtime : ℕ) (others : List Account)
    → full < 2 ^ 63
    → runtime < 2 ^ 63
    → AreAccounts others
    → IsBalanced full runtime others
    → Settled full others (take_back full runtime others)
unfolding take_back
take_back-Settled full runtime others p q w b =
    branch-Settled full others (runtime == runtime_inf || runtime == full)
      (no_want (reclaim (wanted full runtime) others))
      (λ e. omega (arith, IsBalanced-sum full runtime others b, own full runtime q e))
      (λ e. unequal full runtime others p q w b (apart runtime full (ground arith)))

IsBalanced-back :
    (full n : ℕ) (m : List Account)
    → total_runtime m ≡ n * full
    → in_use m ≡ n
    → IsBalanced full full m
IsBalanced-back full n m t c = let e = ap (λ (k : ℕ). suc k * full) c in grind (arith, t, e)

module _ {L : ListApi} where
  -- No run time leaks when a CPU goes out of use: if the CPUs in use have rt_b->rt_runtime each, on
  -- average, then the loop of __disable_runtime ends with nothing wanted, so that its BUG_ON is not
  -- met, and the other CPUs in use are left with rt_b->rt_runtime each, on average, and are as many.
  -- Once __enable_runtime has put the CPU back into use, the average is that again for all of them.
  -- The times are below 2^63.
  pub disable_runtime-IsBalanced :
      (b : RtBandwidth) (rq : RtRq L) (others : List Account)
      → b.runtime < 2 ^ 63
      → rq.rt_runtime < 2 ^ 63
      → AreAccounts others
      → IsBalanced b.runtime rq.rt_runtime others
      → (m : List Account) × (disable_runtime b rq others ≡ some (disabled rq, m))
        × (total_runtime m ≡ in_use others * b.runtime)
        × (in_use m ≡ in_use others)
        × IsBalanced b.runtime (enable_runtime b (disabled rq)).rt_runtime m
  unfolding disable_runtime enable_runtime
  disable_runtime-IsBalanced b rq others p q w s =
      let (m, h, t, c) = take_back-Settled b.runtime rq.rt_runtime others p q w s in
      (m, ap (out_of_use rq) h, t, c, IsBalanced-back b.runtime (in_use others) m t c)
