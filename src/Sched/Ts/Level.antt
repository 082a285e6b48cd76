-- ===== src/Sched/Ts/Level.antt =====
-- The arithmetic of ts.c: priorities against queues, the table, the demotion and the slices.
use kenrel_learning.Common.{
  ◌≢◌, ◌⊎◌, inl, inr, bit_and, ℕ, ◌-◌, ◌*◌, ◌/◌, ◌≤◌, ◌<◌, ◌≡◌, refl, ltb, leb, ℤ, pos, ◌-ℤ◌, ◌&&◌,
  Bool, true, some, get_or, arith, holds_to, holds_to-lt,
}
use native.Mathlib.Decide.{ℕ_discrete}
use kenrel_learning.Sched.Task.{Task}
use kenrel_learning.Sched.Ts.{
  sleep_prio_lut, enqueue_wakeup, level, boost, demoted, get_rr_interval_ts,
}

pub level-lt : (p : ℤ) {i : ℕ} → level p ≡ some i → i < 40
level-lt p h = ground arith

pub level_prio : (p : ℤ) {i : ℕ} → level p ≡ some i → p ≡ pos (139 - i)
level_prio p h = ground arith

pub level_of : (i : ℕ) → i < 40 → level (pos 139 -ℤ pos i) ≡ some i
level_of i h = ground arith

lut_good : ℕ → Bool
lut_good i =
    leb i (get_or sleep_prio_lut i 0)
    && (leb 30 (get_or sleep_prio_lut i 0) && ltb (get_or sleep_prio_lut i 0) 40)

lut_table : holds_to lut_good 40 ≡ true
unfolding holds_to lut_good
lut_table = refl

-- The table sends a queue to one that is not below it, and to the top ten.
pub lut_bounds :
    (i : ℕ)
    → i < 40
    → (i ≤ get_or sleep_prio_lut i 0)
      × (30 ≤ get_or sleep_prio_lut i 0)
      × (get_or sleep_prio_lut i 0 < 40)
unfolding lut_good
lut_bounds i h = ground (arith, holds_to-lt lut_good i 40 h lut_table)

-- What a boost does to the level: it never falls, and a task that wakes up lands in the top ten.
pub record Boosted (t : Task) (flags i : ℕ) (t' : Task) (k : ℕ) : Type 0 where
  pub runs : boost t flags ≡ some t'
  pub at : level t'.prio ≡ some k
  pub raised : i ≤ k
  pub slice : t'.time_slice ≡ t.time_slice
  pub target :
      (bit_and flags enqueue_wakeup ≡ 0) × (k ≡ i) ⊎ (bit_and flags enqueue_wakeup ≢ 0) × (30 ≤ k)

pub boost_lem :
    (t : Task) (flags i : ℕ)
    → level t.prio ≡ some i
    → (t' : Task) × (k : ℕ) × Boosted t flags i t' k
unfolding boost
boost_lem t flags i h = elim (ℕ_discrete (bit_and flags enqueue_wakeup) 0) [
  | yes e ↦ (
    t,
    i,
    record {
      runs = ground arith;
      at = h;
      raised = omega arith;
      slice = refl;
      target = inl (e, refl);
    },
  )
  | no n ↦
      let k = get_or sleep_prio_lut i 0 in
      let b = lut_bounds i (level-lt t.prio h) in
      (
        record t { prio = pos 139 -ℤ pos k },
        k,
        record {
          runs = ground arith;
          at = level_of k (b.2);
          raised = b.0;
          slice = refl;
          target = inr (n, b.1);
        },
      )
]

-- A demotion takes ten levels, or all that are left, and never leaves the array.
pub demoted_lem : (p : ℤ) (i : ℕ) → level p ≡ some i → demoted (pos 139 -ℤ p) ≡ pos (i - 10)
demoted_lem p i h = ground arith

-- The slice that a task is told by get_rr_interval is the one that a demotion to its level gives.
pub get_rr_interval_ts_lem :
    (t : Task) (i : ℕ) → level t.prio ≡ some i → get_rr_interval_ts t ≡ (4 - i / 10) * 4
unfolding get_rr_interval_ts
get_rr_interval_ts_lem t i h = ground arith
