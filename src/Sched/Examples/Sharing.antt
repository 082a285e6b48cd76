-- ===== src/Sched/Examples/Sharing.antt =====
-- The theorems on the run time that CPUs lend each other, at three neighbours of which one is out of
-- use.
use kenrel_learning.Common.{ℕ, ◌*◌, ◌≡◌, refl, inl, inr, some, List, [], ◌∷◌, arith}
use kenrel_learning.Sched.Rt.{RtRq}
use kenrel_learning.Sched.Rt.Bandwidth.{runtime_inf}
use kenrel_learning.Sched.Rt.Share.{
  Account, do_balance_runtime, reclaim, take_back, disabled, disable_runtime, enable_runtime,
}
use kenrel_learning.Sched.Rt.Share.Lend.{
  total_runtime, in_use, AreAccounts, Lent, do_balance_runtime-Lent,
}
use kenrel_learning.Sched.Rt.Share.Balance.{IsBalanced, disable_runtime-IsBalanced}
use kenrel_learning.Sched.Examples.{lists}
use kenrel_learning.Sched.Examples.RealTime.{bandwidth, pair}

abbrev account : ℕ → ℕ → Account
account runtime time = record { rt_runtime = runtime; rt_time = time }

abbrev neighbours : List Account
neighbours = account 950 800 ∷ account runtime_inf 0 ∷ account 950 100 ∷ []

neighbours-AreAccounts : AreAccounts neighbours
neighbours-AreAccounts = (
  (omega arith, inl (omega arith)),
  ((omega arith, inr refl), ((omega arith, inl (omega arith)), tt)),
)

-- A third of 150, and of 850 no more than the period has room for.
lending :
    do_balance_runtime 3 1020 950 neighbours
    ≡ (1020, account 900 800 ∷ account runtime_inf 0 ∷ account 930 100 ∷ [])
unfolding do_balance_runtime
lending = refl

lend_example : Lent 1020 950 neighbours (do_balance_runtime 3 1020 950 neighbours)
lend_example =
    do_balance_runtime-Lent 3 1020 950 neighbours (omega arith) (omega arith) neighbours-AreAccounts

abbrev lenders : List Account
lenders = account 900 800 ∷ account runtime_inf 0 ∷ account 950 100 ∷ []

lenders-AreAccounts : AreAccounts lenders
lenders-AreAccounts = (
  (omega arith, inl (omega arith)),
  ((omega arith, inr refl), ((omega arith, inl (omega arith)), tt)),
)

-- The real-time class of `pair` with a loan of 50.
abbrev borrower : RtRq lists
borrower = record pair { rt_runtime = 1000 }

giving_back :
    take_back 950 1000 lenders
    ≡ some (account 950 800 ∷ account runtime_inf 0 ∷ account 950 100 ∷ [])
unfolding take_back reclaim
giving_back = refl

reclaim_example :
    (m : List Account) × (disable_runtime bandwidth borrower lenders ≡ some (disabled borrower, m))
    × (total_runtime m ≡ in_use lenders * 950)
    × (in_use m ≡ in_use lenders)
    × IsBalanced 950 (enable_runtime bandwidth (disabled borrower)).rt_runtime m
reclaim_example =
    disable_runtime-IsBalanced bandwidth borrower lenders (omega arith) (omega arith)
      lenders-AreAccounts (omega arith)
