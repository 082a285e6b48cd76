-- ===== src/Sched/Setscheduler/Keeps.antt =====
-- What the methods of the other classes of temp/kernel/sched are relied on for.
use kenrel_learning.Common.{ℕ, ◌≡◌, some}
use kenrel_learning.ListHead.{ListApi}
use kenrel_learning.Sched.Task.{Rq, SchedClass}
use kenrel_learning.Sched.Ts.Queues.{IsValid}
use kenrel_learning.Sched.Change.{Methods}

-- What a method of another class leaves alone.
pub record Same {L : ListApi} (rq r : Rq L) : Type 0 where
  pub ts : r.ts ≡ rq.ts
  pub tasks : r.tasks ≡ rq.tasks
  pub curr : r.curr ≡ rq.curr

-- The other classes keep their own queues only.
pub record KeepsTs {L : ListApi} (m : Methods L) : Type 0 where
  pub enqueue :
      (c : SchedClass) (rq : Rq L) (p f : ℕ)
      → (r : Rq L) × (m.enqueue_task c rq p f ≡ some r) × Same rq r
  pub dequeue : (c : SchedClass) (rq : Rq L) (p f : ℕ) → Same rq (m.dequeue_task c rq p f)
  pub put_prev_task : (c : SchedClass) (rq : Rq L) (p : ℕ) → Same rq (m.put_prev_task c rq p)
  pub set_curr_task : (c : SchedClass) (rq : Rq L) → Same rq (m.set_curr_task c rq)
  pub switched_from : (c : SchedClass) (rq : Rq L) (p : ℕ) → Same rq (m.switched_from c rq p)
  pub switched_to : (c : SchedClass) (rq : Rq L) (p : ℕ) → Same rq (m.switched_to c rq p)

pub Same-IsValid : {L : ListApi} (rq r : Rq L) → Same rq r → IsValid rq → IsValid r
Same-IsValid rq r s v = record {
  at_level = λ t j n. (let n' = rw s.ts at n in rw s.tasks (v.at_level t j n'));
  once = λ t j. rw s.ts (v.once t j);
}
