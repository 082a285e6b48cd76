-- ===== src/Shell/Exec/Status.antt =====
-- The states of a job across execJob2 and theReaper.
use kenrel_learning.Common.{
  ℕ, zero, suc, ◌+◌, ◌≡◌, ◌≢◌, ◌⊎◌, inl, inr, ◌≤◌, ◌<◌, ◌==◌, refl, ◌∙◌, Bool, true, false, List,
  [], ◌∷◌, ◌++◌, arith, Option, none, some, replicate, if◌then◌else◌,
}
use native.Mathlib.Decide.{ℕ_discrete}
use kenrel_learning.Shell.Job.{Job, JobStatus, pending, running, hiatus, done}
use kenrel_learning.Shell.Exec.{
  World, Exec, Wait, stopped, exited, Segment, empty_segment, parse, wait_fg, settle, launch,
  exec_status, exec_job2, reap,
}

wait_fg-status :
    (ws : List Wait) (n : ℕ) (j : Job)
    → ((wait_fg ws n j).0.status ≡ done) ⊎ ((wait_fg ws n j).0.status ≡ hiatus)
unfolding wait_fg
wait_fg-status [] n j = inl refl
wait_fg-status (stopped ∷ ws) n j = inr refl
wait_fg-status (exited ∷ ws) n j = wait_fg-status ws n j

settle-status :
    (w : World) (n : ℕ) (j : Job) (sp : List Segment) (c : Bool)
    → j.status ≡ running
    → (settle w n j sp c).job.status ≢ pending
unfolding settle
settle-status w n j sp c h = ground (arith, wait_fg-status (w.waits j.group_id) n j)

launch-status :
    (w : World) (n : ℕ) (j : Job) (o : Option (List Segment))
    → (launch w n j o).job.status ≢ pending
unfolding launch
launch-status w n j none = λ e. cc
launch-status w n j (some segments) = settle-status w n _ segments false refl

exec_status-status :
    (w : World) (n : ℕ) (j : Job) (s : JobStatus)
    → j.status ≡ s
    → (exec_status w n j s).job.status ≢ pending
unfolding exec_status
exec_status-status w n j pending h =
    launch-status w n j (parse w.open_file j.tokenized empty_segment)
exec_status-status w n j hiatus h = settle-status w n _ [] true refl
exec_status-status w n j running h = settle-status w n j [] false h
exec_status-status w n j done h = λ e. cc

-- execJob2 leaves no job pending, on any path, so a job is never started twice; also not where a
-- file cannot be opened.
pub exec_job2-ne-pending :
    (w : World) (n : ℕ) (j : Job) {e : Exec} → exec_job2 w n j ≡ some e → e.job.status ≢ pending
unfolding exec_job2
exec_job2-ne-pending w n j e = ground (arith, exec_status-status w n j j.status refl)

pub wait_fg-exited :
    (k n : ℕ) (j : Job) → wait_fg (replicate k exited) n j ≡ (record j { status = done }, n)
unfolding wait_fg
wait_fg-exited zero n j = refl
wait_fg-exited (suc k) n j = wait_fg-exited k n j

pub wait_fg-stopped :
    (k n : ℕ) (j : Job) (ws : List Wait)
    → wait_fg (replicate k exited ++ stopped ∷ ws) n j
      ≡ (record j { is_background = true; status = hiatus; job_id = n }, suc n)
unfolding wait_fg
wait_fg-stopped zero n j ws = refl
wait_fg-stopped (suc k) n j ws = wait_fg-stopped k n j ws

pub reap-exited :
    (k : ℕ) (j : Job)
    → j.finish_count + k < j.n_pipe
    → reap (replicate k exited) j ≡ record j { finish_count = j.finish_count + k }
unfolding reap
reap-exited zero j h = let z : j.finish_count + 0 ≡ j.finish_count = omega arith in rw z refl
reap-exited (suc k) j h =
    let b = reap-exited k (record j { finish_count = suc j.finish_count }) (omega arith) in
    ground arith

reap_all :
    (k : ℕ) (j : Job)
    → j.finish_count + suc k ≡ j.n_pipe
    → reap (replicate (suc k) exited) j ≡ record j { finish_count = j.n_pipe; status = done }
unfolding reap
reap_all zero j h = ground arith
reap_all (suc k) j h =
    let b = reap_all k (record j { finish_count = suc j.finish_count }) (omega arith) in
    ground arith

last_end :
    (k : ℕ) (j : Job)
    → j.finish_count < j.n_pipe
    → j.finish_count + k ≡ j.n_pipe
    → reap (replicate k exited) j ≡ record j {
      finish_count = j.finish_count + k;
      status = if j.finish_count + k == j.n_pipe then done else running;
    }
last_end zero j f e = absurd (omega arith)
last_end (suc k) j f e = reap_all k j e ∙ ground arith

-- The reaper counts the ends of a running job's processes, and the job is done when, and only when,
-- as many have ended as it has commands; until then it keeps running.
pub reap-counts :
    (k : ℕ) (j : Job)
    → j.status ≡ running
    → j.finish_count < j.n_pipe
    → j.finish_count + k ≤ j.n_pipe
    → reap (replicate k exited) j ≡ record j {
      finish_count = j.finish_count + k;
      status = if j.finish_count + k == j.n_pipe then done else running;
    }
reap-counts k j r f h = elim (ℕ_discrete (j.finish_count + k) j.n_pipe) [
  | no n ↦ reap-exited k j (omega arith) ∙ ground arith
  | yes e ↦ last_end k j f e
]
