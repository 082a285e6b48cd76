-- ===== src/Sched/Rt.antt =====
-- The real-time class, temp/kernel/sched/rt.c, without groups of tasks: each task is its own entity.
-- The movement of tasks between CPUs, the load averages and the watchdog are left out;
-- sched_find_first_bit is an argument. The methods that charge the time first are in Methods.
pub mod Arrays
pub mod Entities
pub mod Queue
pub mod Turn
pub mod Robin
pub mod Restore
pub mod Bandwidth
pub mod Methods
pub mod Share
pub mod Reach
use kenrel_learning.Common.{
  ℕ, zero, suc, ◌^◌, ◌%◌, ◌||◌, ◌+◌, ◌-◌, ◌==◌, ltb, bit_and, Bool, true, false, not, ◌&&◌, Option,
  none, some, if◌then◌else◌,
}
use kenrel_learning.ListHead.{ListApi}

-- The fields of task_struct and of its sched_rt_entity; `is_rr` is policy == SCHED_RR.
pub record RtTask : Type 0 where
  pub prio : ℕ
  pub is_rr : Bool
  pub time_slice : ℕ
  pub timeout : ℕ
  pub on_list : Bool
  pub on_rq : Bool

-- struct rt_rq with its array, and the fields of the run queue around it. `highest` is
-- highest_prio.curr.
pub record RtRq (L : ListApi) : Type 0 where
  pub queue : L.Heads
  pub bitmap : ℕ → Bool
  pub highest : ℕ
  pub rt_nr_running : ℕ
  pub rr_nr_running : ℕ
  pub rt_queued : Bool
  pub rt_throttled : Bool
  pub rt_time : ℕ
  pub rt_runtime : ℕ
  pub nr_running : ℕ
  pub curr : ℕ
  pub need_resched : Bool
  pub tasks : ℕ → RtTask

-- MAX_RT_PRIO
abbrev pub max_rt_prio : ℕ
max_rt_prio = 100

-- __set_bit and __clear_bit.
abbrev pub write_bit : Bool → ℕ → (ℕ → Bool) → ℕ → Bool
write_bit b i bitmap j = if j == i then b else bitmap j

abbrev pub set_task : (ℕ → RtTask) → ℕ → RtTask → ℕ → RtTask
set_task tasks p t q = if q == p then t else tasks q

abbrev pub rr_weight : Bool → ℕ
rr_weight is_rr = if is_rr then 1 else 0

-- DEQUEUE_SAVE is 0x02 and DEQUEUE_MOVE 0x04.
unfoldable pub move_entity : ℕ → Bool
move_entity flags = not (bit_and flags 0x06 == 0x02)

-- The lists 0, …, n - 1 are made empty.
unfoldable pub init_heads : (L : ListApi) → ℕ → L.Heads → L.Heads
init_heads L zero hs = hs
init_heads L (suc i) hs = L.init_list_head i (init_heads L i hs)

-- What pick_next_task_rt returns when no task was pulled.
pub data RtPick : Type 0 where
  nothing bug : RtPick
  picked : ℕ → RtPick

module _ {L : ListApi} where
  -- The loop and the assignments of init_rt_rq.
  unfoldable pub init_rt_rq : RtRq L → RtRq L
  init_rt_rq rq = record rq {
    queue = init_heads L 100 rq.queue;
    bitmap = λ i. i == 100 || not (ltb i 100) && rq.bitmap i;
    highest = 100;
    rt_queued = false;
    rt_time = 0;
    rt_throttled = false;
    rt_runtime = 0;
  }

  abbrev pub resched_rt : RtRq L → RtRq L
  resched_rt rq = record rq { need_resched = true }

  unfoldable pub dequeue_top_rt_rq : RtRq L → RtRq L
  dequeue_top_rt_rq rq =
      if not rq.rt_queued
      then rq
      else record rq { nr_running = rq.nr_running - rq.rt_nr_running; rt_queued = false }

  unfoldable pub enqueue_top_rt_rq : RtRq L → RtRq L
  enqueue_top_rt_rq rq =
      if rq.rt_queued
      then rq
      else if rq.rt_throttled
      then rq
      else if not (rq.rt_nr_running == 0)
      then record rq { nr_running = rq.nr_running + rq.rt_nr_running; rt_queued = true }
      else rq

  unfoldable pub inc_rt_prio : RtRq L → ℕ → RtRq L
  inc_rt_prio rq prio = if ltb prio rq.highest then record rq { highest = prio } else rq

  unfoldable pub inc_rt_tasks : RtRq L → ℕ → RtRq L
  inc_rt_tasks rq p =
      let t = rq.tasks p in
      inc_rt_prio
        (record rq {
          rt_nr_running = rq.rt_nr_running + 1;
          rr_nr_running = rq.rr_nr_running + rr_weight t.is_rr;
        })
        t.prio

  -- __delist_rt_entity
  unfoldable pub delist_rt_entity : RtRq L → ℕ → RtRq L
  delist_rt_entity rq p =
      let t = rq.tasks p in
      let queue = L.list_del p rq.queue in
      record rq {
        queue = queue;
        bitmap = if L.list_empty t.prio queue then write_bit false t.prio rq.bitmap else rq.bitmap;
        tasks = set_task rq.tasks p (record t { on_list = false });
      }

  -- The list, the bit and the flag of a task that moves. ENQUEUE_HEAD is 0x10.
  unfoldable pub enlist_rt_entity : RtRq L → ℕ → ℕ → RtRq L
  enlist_rt_entity rq p flags =
      let t = rq.tasks p in
      record rq {
        queue =
            if not (bit_and flags 0x10 == 0)
            then L.list_add p t.prio rq.queue
            else L.list_add_tail p t.prio rq.queue;
        bitmap = write_bit true t.prio rq.bitmap;
        tasks = set_task rq.tasks p (record t { on_list = true });
      }

  abbrev pub mark_on_rq : Bool → ℕ → RtRq L → RtRq L
  mark_on_rq b p rq = record rq { tasks = set_task rq.tasks p (record (rq.tasks p) { on_rq = b }) }

  -- __enqueue_rt_entity
  unfoldable pub add_rt_entity : RtRq L → ℕ → ℕ → RtRq L
  add_rt_entity rq p flags =
      let rq' = if move_entity flags then enlist_rt_entity rq p flags else rq in
      inc_rt_tasks (mark_on_rq true p rq') p

  -- Put the task at the head or the end of its list.
  unfoldable pub requeue_task_rt : RtRq L → ℕ → Bool → RtRq L
  requeue_task_rt rq p head =
      let t = rq.tasks p in
      if t.on_rq
      then record rq {
        queue = if head then L.list_move p t.prio rq.queue else L.list_move_tail p t.prio rq.queue;
      }
      else rq

  unfoldable pub yield_task_rt : RtRq L → RtRq L
  yield_task_rt rq = requeue_task_rt rq rq.curr false

  -- `curr_moves` and `p_moves` say that the task may run on another CPU, which cpupri_find finds.
  unfoldable pub check_preempt_equal_prio : RtRq L → ℕ → Bool → Bool → RtRq L
  check_preempt_equal_prio rq p curr_moves p_moves =
      if not curr_moves then rq else if p_moves then rq else resched_rt (requeue_task_rt rq p true)

  unfoldable pub check_preempt_curr_rt : RtRq L → ℕ → Bool → Bool → RtRq L
  check_preempt_curr_rt rq p curr_moves p_moves =
      if ltb (rq.tasks p).prio (rq.tasks rq.curr).prio
      then resched_rt rq
      else if (rq.tasks p).prio == (rq.tasks rq.curr).prio && not rq.need_resched
      then check_preempt_equal_prio rq p curr_moves p_moves
      else rq

  -- task_tick_rt after the charge, for the slice sched_rr_timeslice.
  unfoldable pub tick_slice : ℕ → RtRq L → ℕ → RtRq L
  tick_slice slice rq p =
      let t = rq.tasks p in
      let left = (t.time_slice + 2 ^ 32 - 1) % 2 ^ 32 in
      let counted = record rq { tasks = set_task rq.tasks p (record t { time_slice = left }) } in
      let fresh = record rq { tasks = set_task rq.tasks p (record t { time_slice = slice }) } in
      if not t.is_rr
      then rq
      else if not (left == 0)
      then counted
      else if not (L.alone p t.prio rq.queue)
      then resched_rt (requeue_task_rt fresh p false)
      else fresh

  unfoldable pub switched_to_rt : RtRq L → ℕ → Bool → Bool → RtRq L
  switched_to_rt rq p queued online =
      if queued && not (rq.curr == p) && ltb (rq.tasks p).prio (rq.tasks rq.curr).prio && online
      then resched_rt rq
      else rq

  unfoldable pub prio_changed_rt : RtRq L → ℕ → Bool → RtRq L
  prio_changed_rt rq p queued =
      if not queued
      then rq
      else if rq.curr == p
      then (if ltb rq.highest (rq.tasks p).prio then resched_rt rq else rq)
      else if ltb (rq.tasks p).prio (rq.tasks rq.curr).prio
      then resched_rt rq
      else rq

unfoldable pub get_rr_interval_rt : ℕ → RtTask → ℕ
get_rr_interval_rt slice t = if t.is_rr then slice else 0

module _ {L : ListApi} (find_first_bit : (ℕ → Bool) → ℕ) where
  unfoldable pub dec_rt_prio : RtRq L → ℕ → RtRq L
  dec_rt_prio rq prio =
      if not (rq.rt_nr_running == 0)
      then (if prio == rq.highest then record rq { highest = find_first_bit rq.bitmap } else rq)
      else record rq { highest = 100 }

  unfoldable pub dec_rt_tasks : RtRq L → ℕ → RtRq L
  dec_rt_tasks rq p =
      let t = rq.tasks p in
      dec_rt_prio
        (record rq {
          rt_nr_running = rq.rt_nr_running - 1;
          rr_nr_running = rq.rr_nr_running - rr_weight t.is_rr;
        })
        t.prio

  -- __dequeue_rt_entity
  unfoldable pub drop_rt_entity : RtRq L → ℕ → ℕ → RtRq L
  drop_rt_entity rq p flags =
      let rq' = if move_entity flags then delist_rt_entity rq p else rq in
      dec_rt_tasks (mark_on_rq false p rq') p

  unfoldable pub dequeue_rt_stack : RtRq L → ℕ → ℕ → RtRq L
  dequeue_rt_stack rq p flags =
      let rq' = dequeue_top_rt_rq rq in
      if (rq'.tasks p).on_rq then drop_rt_entity rq' p flags else rq'

  unfoldable pub enqueue_rt_entity : RtRq L → ℕ → ℕ → RtRq L
  enqueue_rt_entity rq p flags =
      enqueue_top_rt_rq (add_rt_entity (dequeue_rt_stack rq p flags) p flags)

  unfoldable pub dequeue_rt_entity : RtRq L → ℕ → ℕ → RtRq L
  dequeue_rt_entity rq p flags = enqueue_top_rt_rq (dequeue_rt_stack rq p flags)

  -- ENQUEUE_WAKEUP is 0x01.
  unfoldable pub enqueue_task_rt : RtRq L → ℕ → ℕ → RtRq L
  enqueue_task_rt rq p flags =
      let t = rq.tasks p in
      let rq' =
        if not (bit_and flags 0x01 == 0)
        then record rq { tasks = set_task rq.tasks p (record t { timeout = 0 }) }
        else rq in
      enqueue_rt_entity rq' p flags

  -- pick_next_rt_entity; `none` is the BUG_ON.
  unfoldable pub pick_next_rt_entity : RtRq L → Option ℕ
  pick_next_rt_entity rq =
      let idx = find_first_bit rq.bitmap in
      if not (ltb idx 100) then none else some (L.next idx rq.queue)

  unfoldable pub pick_next_task_rt : RtRq L → RtPick
  pick_next_task_rt rq =
      if not rq.rt_queued
      then nothing
      else elim (pick_next_rt_entity rq) [ none ↦ bug | some p ↦ picked p ]
