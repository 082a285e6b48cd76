-- ===== src/Sched/Ts/Feedback.antt =====
-- The time slices of ts.c: yield_task_ts, task_tick_ts, and what repeated ticks do to a task that
-- never sleeps.
use kenrel_learning.Common.{
  ℕ, zero, suc, ◌+◌, ◌-◌, ◌*◌, ◌/◌, ◌^◌, ◌≤◌, ◌<◌, ◌≡◌, refl, subst, ◌∙◌, pos, ◌-ℤ◌, true, false,
  Option, none, some, arith, count,
}
use kenrel_learning.ListHead.{ListApi, ListLaws}
use kenrel_learning.Sched.Task.{Task, Rq, update, resched_curr, sched_ts}
use kenrel_learning.Sched.Ts.{◌>>=◌, level, dec_slice, expire, task_tick_ts}
use kenrel_learning.Sched.Ts.Level.{level-lt, level_of, demoted_lem}
use kenrel_learning.Sched.Ts.Queues.{
  IsValid, linked, Moved, Moved-count, placed-IsValid, resched_curr-IsValid,
}

-- `p` is a TS task in queue `i` with `s` ticks left.
pub record Runs {L : ListApi} (rq : Rq L) (p i s : ℕ) : Type 0 where
  pub valid : IsValid rq
  pub queued : 0 < count p (L.contents rq.ts i)
  pub policy : (rq.tasks p).policy ≡ sched_ts
  pub slice : (rq.tasks p).time_slice ≡ s

module _ {L : ListApi} where
  -- n timer interrupts while `p` runs.
  pub ticks : ℕ → Rq L → ℕ → Option (Rq L)
  ticks zero rq p = some rq
  ticks (suc n) rq p = task_tick_ts rq p false >>= λ rq'. ticks n rq' p

module _ {L : ListApi} (laws : ListLaws L) where
  pub move_tail-Moved :
      (rq : Rq L) (p i k : ℕ)
      → IsValid rq
      → 0 < count p (L.contents rq.ts i)
      → Moved L rq.ts p k (L.list_move_tail p k rq.ts)
  move_tail-Moved rq p i k v q j = laws.contents-move_tail p i k j rq.ts (linked v p i q)

  -- While ticks are left, a tick only counts down.
  tick_counts :
      (rq : Rq L) (p i m : ℕ)
      → Runs rq p i (suc (suc m))
      → suc (suc m) < 2 ^ 32
      → (rq' : Rq L) × (task_tick_ts rq p false ≡ some rq') × Runs rq' p i (suc m)
  unfolding task_tick_ts
  tick_counts rq p i m r b = (
    record rq { tasks = update rq.tasks p (dec_slice (rq.tasks p)) },
    ground (arith, r.slice, r.policy),
    record {
      valid = record {
        at_level = λ q j n. ground (arith, r.valid.at_level q j);
        once = λ q j. r.valid.once q j;
      };
      queued = r.queued;
      policy = ground (arith, r.policy);
      slice = ground (arith, r.slice);
    },
  )

  abbrev pub after_task : Task → ℕ → Task
  after_task t k = record t { prio = pos 139 -ℤ pos k; time_slice = (4 - k / 10) * 4 }

  abbrev pub after_rq : Rq L → ℕ → Task → ℕ → Rq L
  after_rq rq p t k =
      resched_curr
        (record rq { tasks = update rq.tasks p (after_task t k); ts = L.list_move_tail p k rq.ts })

  pub expire_lem :
      (rq : Rq L) (p i : ℕ) (t : Task)
      → level t.prio ≡ some i
      → expire rq p t ≡ some (after_rq rq p t (i - 10))
  unfolding expire
  expire_lem rq p i t h = rw (demoted_lem t.prio i h) (ground (arith, level-lt t.prio h))

  tick-expire :
      (rq : Rq L) (p i : ℕ)
      → Runs rq p i 1
      → task_tick_ts rq p false ≡ expire rq p (dec_slice (rq.tasks p))
  unfolding task_tick_ts
  tick-expire rq p i r = ground (arith, r.slice, r.policy)

  -- The last tick of a slice demotes.
  tick_expires :
      (rq : Rq L) (p i : ℕ)
      → Runs rq p i 1
      → (rq' : Rq L) × (task_tick_ts rq p false ≡ some rq')
        × Runs rq' p (i - 10) ((4 - (i - 10) / 10) * 4)
        × (rq'.need_resched ≡ true)
  unfolding resched_curr
  tick_expires rq p i r =
      let t = dec_slice (rq.tasks p) in
      let h = r.valid.at_level p i r.queued in
      let k = i - 10 in
      let hs = L.list_move_tail p k rq.ts in
      let m = move_tail-Moved rq p i k r.valid r.queued in
      (
        after_rq rq p t k,
        tick-expire rq p i r ∙ expire_lem rq p i t h,
        record {
          valid = resched_curr-IsValid _ (
              placed-IsValid rq p k (after_task t k) hs m rq r.valid
                (level_of k (omega (arith, level-lt (rq.tasks p).prio h))));
          queued = ground (arith, Moved-count L rq.ts hs p k m p k);
          policy = ground (arith, r.policy);
          slice = ground arith;
        },
        ground arith,
      )

  -- A TS task that runs through its slice is demoted by ten levels, or to the last one, its next slice
  -- is 4, 8, 12 or 16 ticks, the more the lower its new level is, and a reschedule is asked for.
  pub ticks_expire :
      (s : ℕ) (rq : Rq L) (p i : ℕ)
      → Runs rq p i (suc s)
      → suc s < 2 ^ 32
      → (rq' : Rq L) × (ticks (suc s) rq p ≡ some rq')
        × Runs rq' p (i - 10) ((4 - (i - 10) / 10) * 4)
        × (rq'.need_resched ≡ true)
  unfolding ticks
  ticks_expire zero rq p i r b =
      let (rq', e, r', n) = tick_expires rq p i r in (rq', rw e refl, r', n)
  ticks_expire (suc s) rq p i r b =
      let (rq1, e, r1) = tick_counts rq p i s r b in
      let (rq', e', r', n) = ticks_expire s rq1 p i r1 (omega arith) in (rq', rw e e', r', n)

  ticks-append :
      (m n k : ℕ) (rq rq1 : Rq L) (p : ℕ) {rq2 : Rq L}
      → ticks m rq p ≡ some rq1
      → ticks n rq1 p ≡ some rq2
      → k ≡ m + n
      → ticks k rq p ≡ some rq2
  unfolding ticks
  ticks-append zero n k rq rq1 p e f s = let d : k ≡ n = omega arith in rw d (cc)
  ticks-append (suc m) n zero rq rq1 p e f s = absurd (omega arith)
  ticks-append (suc m) n (suc k) rq rq1 p {rq2} e f s =
      (elim (task_tick_ts rq p false)
          as (λ o. (o >>= λ r. ticks m r p) ≡ some rq1 → (o >>= λ r. ticks k r p) ≡ some rq2) [
            | none ↦ λ d. cc
            | some r ↦ λ d. ticks-append m n k r rq1 p d f (omega arith)
          ])
        e

  -- One whole slice, for a slice of s ticks.
  run_slice :
      (rq : Rq L) (p i s : ℕ)
      → Runs rq p i s
      → 0 < s
      → s < 2 ^ 32
      → (rq' : Rq L) × (ticks s rq p ≡ some rq') × Runs rq' p (i - 10) ((4 - (i - 10) / 10) * 4)
  run_slice rq p i zero r b c = absurd (omega arith)
  run_slice rq p i (suc s) r b c = let (rq', e, r', n) = ticks_expire s rq p i r c in (rq', e, r')

  next_slice :
      (rq : Rq L) (p i : ℕ)
      → i < 40
      → Runs rq p i ((4 - i / 10) * 4)
      → (rq' : Rq L) × (ticks ((4 - i / 10) * 4) rq p ≡ some rq')
        × Runs rq' p (i - 10) ((4 - (i - 10) / 10) * 4)
  next_slice rq p i b r = run_slice rq p i ((4 - i / 10) * 4) r (omega arith) (omega arith)

  -- From any level, a TS task that never sleeps is on the lowest one, with the longest slice, after
  -- its current slice and at most 48 further ticks.
  pub ticks_to_bottom :
      (rq : Rq L) (p i s : ℕ)
      → Runs rq p i s
      → 0 < s
      → s < 2 ^ 32
      → (n : ℕ) × (rq' : Rq L) × (n ≤ s + 48) × (ticks n rq p ≡ some rq') × Runs rq' p 0 16
  ticks_to_bottom rq p i s r b c =
      let h = level-lt (rq.tasks p).prio (r.valid.at_level p i r.queued) in
      let (r1, e1, u1) = run_slice rq p i s r b c in
      let (r2, e2, u2) = next_slice r1 p (i - 10) (omega arith) u1 in
      let (r3, e3, u3) = next_slice r2 p (i - 10 - 10) (omega arith) u2 in
      let (r4, e4, u4) = next_slice r3 p (i - 10 - 10 - 10) (omega arith) u3 in
      let z : i - 10 - 10 - 10 - 10 ≡ 0 = omega arith in
      let n1 = (4 - (i - 10) / 10) * 4 in
      let n2 = (4 - (i - 10 - 10) / 10) * 4 in
      let n3 = (4 - (i - 10 - 10 - 10) / 10) * 4 in
      (
        s + (n1 + (n2 + n3)),
        r4,
        omega arith,
        ticks-append s (n1 + (n2 + n3)) _ rq r1 p e1
            (ticks-append n1 (n2 + n3) _ r1 r2 p e2 (ticks-append n2 n3 _ r2 r3 p e3 e4 refl) refl)
            refl,
        subst (λ j. Runs r4 p j ((4 - j / 10) * 4)) z u4,
      )
