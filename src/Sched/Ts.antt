-- ===== src/Sched/Ts.antt =====
-- The TS scheduling class, temp/kernel/sched/ts.c: forty queues, a wake-up boost by a table and a
-- time slice that demotes. An index outside `queue[40]` or outside the table is the outcome `none`.
pub mod Level
pub mod Queues
pub mod Pick
pub mod Feedback
use kenrel_learning.Common.{
  ℕ, zero, suc, ◌+◌, ◌-◌, ◌*◌, ◌/◌, ◌%◌, ◌^◌, bit_and, ◌==◌, ltb, if◌then◌else◌, ℤ, pos, negsuc,
  ◌-ℤ◌, ltb_ℤ, Bool, not, Option, none, some, List, ◌∷◌, ◌++◌, get_or, replicate,
}
use kenrel_learning.ListHead.{ListApi}
use kenrel_learning.Sched.Task.{Task, Rq, update, resched_curr, sched_ts, eq_ℤ}

infixl 5 ◌>>=◌
abbrev pub ◌>>=◌ {ℓ κ} : {A : Type ℓ} {B : Type κ} → Option A → (A → Option B) → Option B
none >>= f = none
some a >>= f = f a

-- SleepPrioLUT
abbrev pub sleep_prio_lut : List ℕ
sleep_prio_lut =
    replicate 10 30
    ++ (replicate 10 31 ++ 32 ∷ 33 ∷ 34 ∷ 35 ∷ 36 ∷ 36 ∷ 37 ∷ 37 ∷ 38 ∷ 38 ∷ replicate 10 39)

-- An index into an array of forty.
abbrev pub index40 : ℤ → Option ℕ
index40 (pos i) = if ltb i 40 then some i else none
index40 (negsuc i) = none

-- The queue that a priority names: queue[139 - prio].
abbrev pub level : ℤ → Option ℕ
level prio = index40 (pos 139 -ℤ prio)

abbrev pub enqueue_wakeup : ℕ
enqueue_wakeup = 0x01

-- (4 - (139 - prio) / 10) * 4, as an unsigned int.
unfoldable pub get_rr_interval_ts : Task → ℕ
get_rr_interval_ts t = elim (pos 139 -ℤ t.prio) [
  | pos d ↦ (4 + 2 ^ 30 - d / 10) * 4 % 2 ^ 32
  | negsuc d ↦ (4 + suc d / 10) * 4 % 2 ^ 32
]

-- The boost of a task that wakes up.
unfoldable pub boost : Task → ℕ → Option Task
boost t flags =
    if bit_and flags enqueue_wakeup == 0
    then some t
    else do i ← level t.prio; some (record t { prio = pos 139 -ℤ pos (get_or sleep_prio_lut i 0) })

-- `--time_slice` on an unsigned int.
abbrev pub dec_slice : Task → Task
dec_slice t = record t { time_slice = (t.time_slice + 2 ^ 32 - 1) % 2 ^ 32 }

-- now_prio > 10 ? now_prio - 10 : 0
abbrev pub demoted : ℤ → ℤ
demoted now_prio = if ltb_ℤ (pos 10) now_prio then now_prio -ℤ pos 10 else pos 0

module _ (L : ListApi) where
  unfoldable pub init_ts_rq : ℕ → L.Heads → L.Heads
  init_ts_rq zero hs = hs
  init_ts_rq (suc n) hs = L.init_list_head n (init_ts_rq n hs)

module _ {L : ListApi} where
  unfoldable pub enqueue_task_ts : Rq L → ℕ → ℕ → Option (Rq L)
  enqueue_task_ts rq p flags = do
    t ← boost (rq.tasks p) flags
    i ← level t.prio
    some (record rq { tasks = update rq.tasks p t; ts = L.list_add_tail p i rq.ts })

  unfoldable pub dequeue_task_ts : Rq L → ℕ → ℕ → Rq L
  dequeue_task_ts rq p flags = record rq { ts = L.list_del p rq.ts }

  unfoldable pub yield_task_ts : Rq L → Option (Rq L)
  yield_task_ts rq = do
    i ← level (rq.tasks rq.curr).prio
    some (record rq { ts = L.list_move_tail rq.curr i rq.ts })

  unfoldable pub check_preempt_curr_ts : Rq L → ℕ → ℕ → Rq L
  check_preempt_curr_ts rq p flags =
      if ltb_ℤ (rq.tasks p).prio (rq.tasks rq.curr).prio then resched_curr rq else rq

  -- The loop over i = n - 1, …, 0. `put_prev_task` is the method of the class of `prev`.
  unfoldable pub pick_from : (Rq L → ℕ → Rq L) → ℕ → Rq L → ℕ → Rq L × Option ℕ
  pick_from put_prev_task zero rq prev = (rq, none)
  pick_from put_prev_task (suc n) rq prev =
      let rest = pick_from put_prev_task n rq prev in
      let rq' = put_prev_task rq prev in
      if not (L.list_empty n rq.ts) then (rq', some (L.next n rq'.ts)) else rest

  unfoldable pub pick_next_task_ts : (Rq L → ℕ → Rq L) → Rq L → ℕ → Rq L × Option ℕ
  pick_next_task_ts put_prev_task rq prev = pick_from put_prev_task 40 rq prev

  unfoldable pub put_prev_task_ts : Rq L → ℕ → Rq L
  put_prev_task_ts rq p = rq

  -- What happens when the slice has run out.
  unfoldable pub expire : Rq L → ℕ → Task → Option (Rq L)
  expire rq p t =
      let after_prio = demoted (pos 139 -ℤ t.prio) in
      do
        i ← index40 after_prio
        some (
            resched_curr (record rq {
              tasks =
                  update rq.tasks p
                    (record t { prio = pos 139 -ℤ after_prio; time_slice = (4 - i / 10) * 4 });
              ts = L.list_move_tail p i rq.ts;
            }))

  unfoldable pub task_tick_ts : Rq L → ℕ → Bool → Option (Rq L)
  task_tick_ts rq p queued =
      let t = dec_slice (rq.tasks p) in
      if not (eq_ℤ (rq.tasks p).policy sched_ts)
      then some rq
      else if not (t.time_slice == 0)
      then some (record rq { tasks = update rq.tasks p t })
      else expire rq p t
