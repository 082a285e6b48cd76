-- ===== src/Common/Calls.antt =====
-- What a call of the system returns, and the state that it leaves.
use kenrel_learning.Common.Int.{ℤ}

pub record Answer (World : Type 0) : Type 0 where
  pub result : ℤ
  pub world : World
