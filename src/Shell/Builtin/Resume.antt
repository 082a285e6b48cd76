-- ===== src/Shell/Builtin/Resume.antt =====
-- What `bg %n` does to a job.
use kenrel_learning.Common.{
  text_eq, ℕ, suc, ◌≡◌, ◌⊎◌, inl, inr, refl, true, false, some, List, [], ◌∷◌, arith,
}
use kenrel_learning.Shell.Job.{Job, running, hiatus, find_job_by_job_id}
use kenrel_learning.Shell.Exec.{World, Exec, exec_job2, exec_status, settle}
use kenrel_learning.Shell.Exec.Foreground.{exec-resumed, settle-bg}
use kenrel_learning.Shell.Builtin.{System, Shell, handled, store_job, continue_job, bg_fg}

abbrev pub resumed : ℕ → Job → Job
resumed n j = record j { is_background = true; status = running; job_id = n }

exec-background :
    (w : World) (n : ℕ) (j : Job) (t : List ℕ) (ts : List (List ℕ))
    → j.tokenized ≡ t ∷ ts
    → text_eq t [] ≡ false
    → (j.status ≡ hiatus) ⊎ (j.status ≡ running)
    → (e : Exec) × (exec_job2 w n (record j { is_background = true }) ≡ some e)
      × (e.job ≡ resumed n j)
      × (e.n_jobs ≡ suc n)
unfolding exec_job2 exec_status
exec-background w n j t ts tokens nonempty (inl h) =
    let b = record j { is_background = true } in
    let f = settle-bg w n (record b { status = running }) [] true refl in
    (
      settle w n (record b { status = running }) [] true,
      exec-resumed w n b t ts tokens nonempty h,
      rw f refl,
      rw f refl,
    )
exec-background w n j t ts tokens nonempty (inr h) =
    let b = record j { is_background = true } in
    let f = settle-bg w n b [] false refl in
    (settle w n b [] false, ground arith, rw (f, h) refl, rw f refl)

continue_job-resumes :
    (s : System) (sh : Shell) (j : Job) (t : List ℕ) (ts : List (List ℕ))
    → j.tokenized ≡ t ∷ ts
    → text_eq t [] ≡ false
    → (j.status ≡ hiatus) ⊎ (j.status ≡ running)
    → continue_job s sh true j
      ≡ handled
          (record sh { jobs = store_job (resumed sh.n_jobs j) sh.jobs; n_jobs = suc sh.n_jobs })
unfolding continue_job
continue_job-resumes s sh j t ts tokens nonempty h =
    let (e, run, job, n) = exec-background (s.world j.address) sh.n_jobs j t ts tokens nonempty h in
    rw (run, continue_job) (rw (job, n) refl)

-- `bg %n` on a job that is stopped or already runs leaves it running in the background under the
-- next job number, not under n, and changes no other job.
pub bg_fg-resumes :
    (s : System) (sh : Shell) (j : Job) (number t : List ℕ) (ts : List (List ℕ))
    → find_job_by_job_id sh.jobs (s.atoi number) ≡ some j
    → j.tokenized ≡ t ∷ ts
    → text_eq t [] ≡ false
    → (j.status ≡ hiatus) ⊎ (j.status ≡ running)
    → bg_fg s sh true ((b'%' ∷ number) ∷ [])
      ≡ handled
          (record sh { jobs = store_job (resumed sh.n_jobs j) sh.jobs; n_jobs = suc sh.n_jobs })
unfolding bg_fg
bg_fg-resumes s sh j number t ts found tokens nonempty h =
    rw found (continue_job-resumes s sh j t ts tokens nonempty h)
