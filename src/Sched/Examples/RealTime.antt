-- ===== src/Sched/Examples/RealTime.antt =====
-- The theorems on the real-time class at concrete inputs, with a search of the bitmap as
-- sched_find_first_bit.
use kenrel_learning.Common.{
  ℕ, zero, suc, ◌+◌, ◌<◌, ◌≡◌, ◌==◌, refl, Bool, true, false, not, [], ◌∷◌, arith, count,
  if◌then◌else◌, Bool-cases, inl, inr, bit_and,
}
use kenrel_learning.Sched.Rt.{RtTask, RtRq, move_entity, enqueue_task_rt, pick_next_task_rt}
use kenrel_learning.Sched.Rt.Arrays.{IsFirst, IsFindFirst, IsArray, total}
use kenrel_learning.Sched.Rt.Queue.{IsRtValid, Placed, enqueue_task_rt_lem}
use kenrel_learning.Sched.Rt.Turn.{PicksRt, pick_next_task_rt-Picks}
use kenrel_learning.Sched.Rt.Methods.{Moment, charged, dequeue_task_rt}
use kenrel_learning.Sched.Rt.Methods.Charged.{enqueue-dequeue}
use kenrel_learning.Sched.Rt.{nothing}
use kenrel_learning.Sched.Rt.Bandwidth.{RtBandwidth, update_curr_rt}
use kenrel_learning.Sched.Rt.Bandwidth.Throttle.{update_curr_rt-throttles}
use kenrel_learning.Sched.Rt.Bandwidth.Refill.{refills, refills-release}
use kenrel_learning.Sched.Rt.{enqueue_task_rt}
use kenrel_learning.Sched.Examples.{lists, lists-ListLaws}

-- The bits from `i` on, of which `n` are left to look at.
search : ℕ → ℕ → (ℕ → Bool) → ℕ
search zero i bitmap = i
search (suc n) i bitmap = let later = search n (i + 1) bitmap in if bitmap i then i else later

find : (ℕ → Bool) → ℕ
find bitmap = search 100 0 bitmap

search-IsFirst :
    (n i : ℕ) (bitmap : ℕ → Bool)
    → bitmap (i + n) ≡ true
    → ((j : ℕ) → j < i → bitmap j ≡ false)
    → IsFirst bitmap (search n i bitmap)
unfolding search
search-IsFirst zero i bitmap e below = record { is_set = ground (arith, e); none_below = below }
search-IsFirst (suc n) i bitmap e below = elim (Bool-cases (bitmap i)) [
  | inl h ↦ rw h (record { is_set = h; none_below = below })
  | inr h ↦ rw h (search-IsFirst n (i + 1) bitmap (ground arith) (λ j b. ground (arith, below j)))
]

find-IsFindFirst : IsFindFirst find
unfolding find
find-IsFindFirst bitmap e = search-IsFirst 100 0 bitmap e (λ j b. absurd (omega arith))

abbrev pub rt_task : ℕ → Bool → RtTask
rt_task prio on = record {
  prio = prio;
  is_rr = true;
  time_slice = 1;
  timeout = 0;
  on_list = on;
  on_rq = on;
}

-- Tasks 1 and 2 have priority 50 and are queued; task 3 has 40 and sleeps.
abbrev pub pair : RtRq lists
pair = record {
  queue = λ i. if i == 50 then 1 ∷ 2 ∷ [] else [];
  bitmap = λ i. if i == 50 then true else i == 100;
  highest = 50;
  rt_nr_running = 2;
  rr_nr_running = 2;
  rt_queued = true;
  rt_throttled = false;
  rt_time = 0;
  rt_runtime = 950;
  nr_running = 5;
  curr = 1;
  need_resched = false;
  tasks =
      λ p. if p == 1 then rt_task 50 true else if p == 2 then rt_task 50 true else rt_task 40 false;
}

pair-IsArray : IsArray pair
unfolding count total
pair-IsArray = record {
  at_prio = λ t i n. ground arith;
  once = λ t i. ground arith;
  present = λ t e. ground arith;
  bits = λ i b. ground arith;
  delimiter = refl;
  counted = refl;
  best = record { is_set = refl; none_below = λ j b. ground arith };
}

pair-IsRtValid : IsRtValid 3 pair
pair-IsRtValid = record { arrays = pair-IsArray; top = refl; runs = refl }

rt_pick_example : PicksRt lists pair (pick_next_task_rt find pair)
rt_pick_example = pick_next_task_rt-Picks lists-ListLaws find find-IsFindFirst 3 pair pair-IsRtValid

rt_enqueue_example :
    IsRtValid 3 (enqueue_task_rt find pair 3 0x01)
    × Placed lists pair.queue 3 40
        (not (bit_and 0x01 0x10 == 0))
        (enqueue_task_rt find pair 3 0x01).queue
    × (((enqueue_task_rt find pair 3 0x01).tasks 3).on_rq ≡ true)
unfolding move_entity
rt_enqueue_example =
    enqueue_task_rt_lem lists-ListLaws find find-IsFindFirst 3 pair 3 0x01 pair-IsRtValid refl
      (omega arith) refl

abbrev pub bandwidth : RtBandwidth
bandwidth = record { period = 1000; runtime = 950; share = false }

abbrev no_loan : RtRq lists → ℕ
no_loan rq = 0

-- The running task has used ten units of time.
abbrev moment : Moment lists
moment = record {
  bandwidth = bandwidth;
  borrow = no_loan;
  is_rt = true;
  enabled = true;
  now = 110;
  exec_start = 100;
}

-- A run queue with three other tasks.
abbrev bare : RtRq lists
bare = record pair {
  queue = λ i. [];
  rt_nr_running = 0;
  rr_nr_running = 0;
  nr_running = 3;
  tasks = λ p. rt_task 40 false;
}

throttles_example :
    ((update_curr_rt bandwidth no_loan true true 2000 1000 pair).rt_throttled ≡ true)
    × ((update_curr_rt bandwidth no_loan true true 2000 1000 pair).need_resched ≡ true)
    × (pick_next_task_rt find (update_curr_rt bandwidth no_loan true true 2000 1000 pair) ≡ nothing)
throttles_example =
    update_curr_rt-throttles 3 bandwidth no_loan find 2000 1000 pair pair-IsRtValid refl
      (omega arith) refl (omega arith) (omega arith) (omega arith) (omega arith) (omega arith)
      (omega arith)

-- A class that has used three shares.
abbrev spent : RtRq lists
spent = record pair { rt_throttled = true; rt_queued = false; nr_running = 3; rt_time = 2850 }

release_example : (refills bandwidth no_loan 3 spent).rt_throttled ≡ false
release_example =
    refills-release bandwidth no_loan refl (omega arith) (omega arith) 2 spent refl (omega arith)
      (omega arith) (omega arith)

-- DEQUEUE_SAVE | DEQUEUE_NOCLOCK, of task 1.
abbrev restored : RtRq lists
restored = enqueue_task_rt find (dequeue_task_rt find moment pair 1 0x0a) 1 0x0a

restore_example :
    (restored.queue ≡ pair.queue)
    × (restored.bitmap ≡ pair.bitmap)
    × (restored.rt_nr_running ≡ 2)
    × (restored.highest ≡ 50)
    × (restored.rt_queued ≡ (charged moment pair).rt_queued)
    × (restored.nr_running ≡ (charged moment pair).nr_running)
unfolding move_entity
restore_example =
    enqueue-dequeue lists-ListLaws find find-IsFindFirst 3 moment pair pair-IsRtValid 1 0x0a refl
      refl refl
