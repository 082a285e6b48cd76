-- ===== src/Sched/Change/Dispatch.antt =====
-- The functions of core.c that call a class, on a task of the TS class.
use kenrel_learning.Common.{ℕ, ◌≡◌, true, refl, arith}
use kenrel_learning.ListHead.{ListApi}
use kenrel_learning.Sched.Task.{Rq, ts_sched_class}
use kenrel_learning.Sched.Ts.{enqueue_task_ts, dequeue_task_ts}
use kenrel_learning.Sched.Change.{Methods, enqueue_task, dequeue_task, set_curr, put_prev, take_out}

module _ {L : ListApi} (m : Methods L) (rq : Rq L) (p : ℕ) where
  pub set_curr-ts : (rq.tasks p).sched_class ≡ ts_sched_class → set_curr m rq p ≡ rq
  unfolding set_curr
  set_curr-ts c = rw (c, set_curr) refl

  pub put_prev-ts : (rq.tasks p).sched_class ≡ ts_sched_class → put_prev m rq p ≡ rq
  unfolding put_prev
  put_prev-ts c = rw (c, put_prev) refl

  pub enqueue_task-ts :
      (flags : ℕ)
      → (rq.tasks p).sched_class ≡ ts_sched_class
      → enqueue_task m rq p flags ≡ enqueue_task_ts rq p flags
  unfolding enqueue_task
  enqueue_task-ts flags c = rw (c, enqueue_task) refl

module _ {L : ListApi} (m : Methods L) where
  pub take_out-ts :
      (rq : Rq L) (p flags : ℕ)
      → (rq.tasks p).sched_class ≡ ts_sched_class
      → take_out m rq p true flags ≡ dequeue_task_ts rq p flags
  unfolding take_out dequeue_task put_prev dequeue_task_ts
  take_out-ts rq p flags c = ground arith
