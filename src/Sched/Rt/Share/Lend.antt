-- ===== src/Sched/Rt/Share/Lend.antt =====
-- Borrowing by do_balance_runtime: the run time of all CPUs together stays what it is.
use kenrel_learning.Common.{
  ℕ, ◌+◌, ◌-◌, ◌/◌, ◌%◌, ◌^◌, ◌≤◌, ◌<◌, ◌≡◌, ◌==◌, ◌⊎◌, ltb, refl, Bool, true, false, not, ◌&&◌,
  List, [], ◌∷◌, if◌then◌else◌, arith, inl, inr,
}
use native.Mathlib.Nat.{div-le_self}
use kenrel_learning.Sched.Rt.Bandwidth.{runtime_inf}
use kenrel_learning.Sched.Rt.Share.{Account, spare, diff, lends, with_account, do_balance_runtime}

-- A CPU whose run time is RUNTIME_INF takes no part.
abbrev pub runtime_of : Account → ℕ
runtime_of a = if a.rt_runtime == runtime_inf then 0 else a.rt_runtime

abbrev pub total_runtime : List Account → ℕ
total_runtime [] = 0
total_runtime (a ∷ r) = runtime_of a + total_runtime r

-- How many CPUs take part.
abbrev pub counted : Account → ℕ
counted a = if a.rt_runtime == runtime_inf then 0 else 1

abbrev pub in_use : List Account → ℕ
in_use [] = 0
in_use (a ∷ r) = counted a + in_use r

-- The numbers are those of an s64, or RUNTIME_INF.
abbrev pub IsAccount : Account → Type 0
IsAccount a = (a.rt_time < 2 ^ 63) × ((a.rt_runtime < 2 ^ 63) ⊎ (a.rt_runtime ≡ runtime_inf))

abbrev pub AreAccounts : List Account → Type 0
AreAccounts [] = Unit
AreAccounts (a ∷ r) = IsAccount a × AreAccounts r

-- Each CPU gives of its run time only, and no more than it has left.
pub data Keeps : List Account → List Account → Type 0 where
  keeps_none : Keeps [] []
  keeps_more :
      (a b : Account) (l m : List Account)
      → b.rt_time ≡ a.rt_time
      → b.rt_runtime ≤ a.rt_runtime
      → (b.rt_runtime ≡ a.rt_runtime) ⊎ (a.rt_time ≤ b.rt_runtime)
      → Keeps l m
      → Keeps (a ∷ l) (b ∷ m)

Keeps-refl : (l : List Account) → Keeps l l
Keeps-refl [] = keeps_none
Keeps-refl (a ∷ r) = keeps_more a a r r refl (omega arith) (inl refl) (Keeps-refl r)

-- The run time of the CPU itself before and after, and that of the others.
abbrev pub Lent : ℕ → ℕ → List Account → ℕ × List Account → Type 0
Lent rt_period runtime l (more, m) =
    (more + total_runtime m ≡ runtime + total_runtime l)
    × (runtime ≤ more)
    × (more ≤ rt_period)
    × (in_use m ≡ in_use l)
    × Keeps l m

-- What a step of the loop takes.
abbrev Takes : ℕ → ℕ → Account → ℕ → Type 0
Takes rt_period runtime a d =
    (a.rt_runtime < 2 ^ 63) × (a.rt_time + d ≤ a.rt_runtime) × (runtime + d ≤ rt_period)

step-Lent :
    (rt_period runtime d more : ℕ) (a : Account) (r : List Account) (goes enough : Bool)
    (rest : ℕ × List Account)
    → rt_period < 2 ^ 63
    → runtime ≤ rt_period
    → (goes ≡ true → Takes rt_period runtime a d)
    → more ≡ (runtime + d) % 2 ^ 64
    → Lent rt_period (if goes then more else runtime) r rest
    → Lent rt_period runtime (a ∷ r) (
        if not goes
        then with_account a rest
        else if enough
        then (more, lends d a ∷ r)
        else with_account (lends d a) rest)
step-Lent rt_period runtime d more a r false enough (more', m) p q t e (h0, h1, h2, h3, h4) = (
  omega (arith, h0),
  h1,
  h2,
  omega (arith, h3),
  keeps_more a a r m refl (omega arith) (inl refl) h4,
)
step-Lent rt_period runtime d more a r true true (more', m) p q t e (h0, h1, h2, h3, h4) =
    let u = t refl in
    (
      ground (arith, u),
      omega (arith, u),
      omega (arith, u),
      ground (arith, u),
      keeps_more a (lends d a) r r refl (omega (arith, u)) (inr (omega (arith, u))) (Keeps-refl r),
    )
step-Lent rt_period runtime d more a r true false (more', m) p q t e (h0, h1, h2, h3, h4) =
    let u = t refl in
    (
      ground (arith, u),
      omega (arith, u),
      omega (arith, u),
      ground (arith, u),
      keeps_more a (lends d a) r m refl (omega (arith, u)) (inr (omega (arith, u))) h4,
    )

-- diff once the spare time is divided.
abbrev room : ℕ → ℕ → ℕ → ℕ
room rt_period runtime part =
    if ltb rt_period ((runtime + part) % 2 ^ 64)
    then (rt_period + 2 ^ 64 - runtime) % 2 ^ 64
    else part

room_le :
    (rt_period runtime part : ℕ)
    → rt_period < 2 ^ 63
    → runtime ≤ rt_period
    → part < 2 ^ 63
    → (room rt_period runtime part ≤ part) × (runtime + room rt_period runtime part ≤ rt_period)
room_le rt_period runtime part p q h = (ground arith, ground arith)

spare_le :
    (a : Account)
    → IsAccount a
    → (not (a.rt_runtime == runtime_inf) && not (spare a == 0)) ≡ true
    → (a.rt_runtime < 2 ^ 63) × (a.rt_time + spare a ≤ a.rt_runtime)
spare_le a w e = (ground arith, ground arith)

shrink : (t s part r d : ℕ) → t + s ≤ r → part ≤ s → d ≤ part → t + d ≤ r
shrink t s part r d h f u = omega arith

diff-Takes :
    (weight rt_period runtime : ℕ) (a : Account)
    → rt_period < 2 ^ 63
    → runtime ≤ rt_period
    → IsAccount a
    → (not (a.rt_runtime == runtime_inf) && not (spare a == 0)) ≡ true
    → Takes rt_period runtime a (diff weight rt_period runtime a)
diff-Takes weight rt_period runtime a p q w e =
    let (h, k) = spare_le a w e in
    let f = div-le_self (spare a) weight in
    let (u, v) = room_le rt_period runtime (spare a / weight) p q (omega arith) in
    (
      h,
      shrink a.rt_time (spare a) (spare a / weight) a.rt_runtime (diff weight rt_period runtime a) k
          f u,
      v,
    )

fits :
    (goes : Bool) (rt_period runtime d : ℕ) (a : Account)
    → rt_period < 2 ^ 63
    → runtime ≤ rt_period
    → (goes ≡ true → Takes rt_period runtime a d)
    → (if goes then (runtime + d) % 2 ^ 64 else runtime) ≤ rt_period
fits false rt_period runtime d a p q t = q
fits true rt_period runtime d a p q t = omega (arith, t refl)

-- Borrowing conserves the run time of all CPUs: what the CPU gains the others lose, it ends with no
-- less than it had and no more than the period, as many CPUs are in use, and no other CPU gives away
-- time that it has used. The CPU has no more than the period before, and the times are below 2^63.
pub do_balance_runtime-Lent :
    (weight rt_period runtime : ℕ) (others : List Account)
    → rt_period < 2 ^ 63
    → runtime ≤ rt_period
    → AreAccounts others
    → Lent rt_period runtime others (do_balance_runtime weight rt_period runtime others)
unfolding do_balance_runtime
do_balance_runtime-Lent weight rt_period runtime [] p q w = (refl, omega arith, q, refl, keeps_none)
do_balance_runtime-Lent weight rt_period runtime (a ∷ r) p q (w, ws) =
    let d = diff weight rt_period runtime a in
    let more = (runtime + d) % 2 ^ 64 in
    let goes = not (a.rt_runtime == runtime_inf) && not (spare a == 0) in
    let t = diff-Takes weight rt_period runtime a p q w in
    step-Lent rt_period runtime d more a r goes (more == rt_period)
      (do_balance_runtime weight rt_period (if goes then more else runtime) r) p q t refl
      (do_balance_runtime-Lent weight rt_period (if goes then more else runtime) r p
        (fits goes rt_period runtime d a p q t) ws)
