-- ===== src/Shell/Exec/Numbers.antt =====
-- What execJob2, execJobs, theReaper and addJobs do to the numbers of the jobs.
use kenrel_learning.Common.{
  text_eq, ℕ, suc, ◌≡◌, ◌≢◌, inl, inr, refl, ◌==◌, Bool, true, false, Option, none, some, List, [],
  ◌∷◌, ◌++◌, arith, if◌then◌else◌, Bool-cases,
}
use kenrel_learning.Shell.Job.{
  Job, JobStatus, pending, running, hiatus, done, is_pending, is_running,
}
use kenrel_learning.Shell.Job.Numbers.{Kept, Renumbered, end, next, NonePending}
use kenrel_learning.Shell.Exec.{
  World, Exec, Wait, stopped, exited, Segment, empty_segment, parse, wait_fg, settle, launch,
  exec_status, exec_job2, exec_jobs, reap, the_reaper, amp_token, add_jobs,
}
use kenrel_learning.Shell.Exec.Status.{exec_job2-ne-pending}

wait_fg-Kept : (ws : List Wait) (n : ℕ) (j : Job) → Kept n j (wait_fg ws n j).1 (wait_fg ws n j).0
unfolding wait_fg
wait_fg-Kept [] n j = (refl, inl (refl, refl))
wait_fg-Kept (stopped ∷ ws) n j = (refl, inr (refl, refl))
wait_fg-Kept (exited ∷ ws) n j = wait_fg-Kept ws n j

if-Kept :
    (n : ℕ) (j : Job) (b : Bool) (x y : Exec)
    → Kept n j x.n_jobs x.job
    → Kept n j y.n_jobs y.job
    → Kept n j (if b then x else y).n_jobs (if b then x else y).job
if-Kept n j true x y p q = p
if-Kept n j false x y p q = q

settle-Kept :
    (w : World) (n : ℕ) (j : Job) (sp : List Segment) (c : Bool)
    → Kept n j (settle w n j sp c).n_jobs (settle w n j sp c).job
unfolding settle
settle-Kept w n j sp c =
    if-Kept n j j.is_background _ _ (refl, inr (refl, refl)) (wait_fg-Kept (w.waits j.group_id) n j)

launch-Kept :
    (w : World) (n : ℕ) (j : Job) (o : Option (List Segment))
    → Kept n j (launch w n j o).n_jobs (launch w n j o).job
unfolding launch
launch-Kept w n j none = (refl, inl (refl, refl))
launch-Kept w n j (some segments) = settle-Kept w n _ segments false

exec_status-Kept :
    (w : World) (n : ℕ) (j : Job) (s : JobStatus)
    → Kept n j (exec_status w n j s).n_jobs (exec_status w n j s).job
unfolding exec_status
exec_status-Kept w n j pending = launch-Kept w n j (parse w.open_file j.tokenized empty_segment)
exec_status-Kept w n j hiatus = settle-Kept w n (record j { status = running }) [] true
exec_status-Kept w n j running = settle-Kept w n j [] false
exec_status-Kept w n j done = (refl, inl (refl, refl))

pub exec_job2-Kept :
    (w : World) (n : ℕ) (j : Job) {e : Exec} → exec_job2 w n j ≡ some e → Kept n j e.n_jobs e.job
unfolding exec_job2
exec_job2-Kept w n j h = ground (arith, exec_status-Kept w n j j.status)

pub not_pending : (s : JobStatus) → s ≢ pending → is_pending s ≡ false
not_pending pending h = absurd (h refl)
not_pending running h = refl
not_pending hiatus h = refl
not_pending done h = refl

-- The outcome of execJobs, if it does not crash: jobs with numbers of their own, none pending.
abbrev pub Ran : ℕ → List Job → Option (List Job × ℕ) → Type 0
Ran n js none = Unit {0}
Ran n js (some (js', n')) = Renumbered n js n' js' × NonePending js'

cons-Ran :
    (n m : ℕ) (j j' : Job) (js : List Job) (o : Option (List Job × ℕ))
    → Kept n j m j'
    → is_pending j'.status ≡ false
    → Ran m js o
    → Ran n (j ∷ js) (elim o [ none ↦ none | some (rest, m') ↦ some (j' ∷ rest, m') ])
cons-Ran n m j j' js none k p r = tt
cons-Ran n m j j' js (some (rest, m')) k p (r, q) = (next k r, (p, q))

started-Ran :
    (w : ℕ → World) (n : ℕ) (j : Job) (js : List Job) (o : Option Exec)
    → exec_job2 (w j.address) n j ≡ o
    → ((m : ℕ) → Ran m js (exec_jobs w m js))
    → Ran n (j ∷ js) (elim o [
      | none ↦ none
      | some e ↦ (elim (exec_jobs w e.n_jobs js) [
        | none ↦ none
        | some (rest, m) ↦ some (e.job ∷ rest, m)
      ])
    ])
started-Ran w n j js none h r = tt
started-Ran w n j js (some e) h r =
    cons-Ran n e.n_jobs j e.job js (exec_jobs w e.n_jobs js) (exec_job2-Kept (w j.address) n j h)
      (not_pending e.job.status (exec_job2-ne-pending (w j.address) n j h)) (r e.n_jobs)

pub exec_jobs-Ran : (w : ℕ → World) (n : ℕ) (js : List Job) → Ran n js (exec_jobs w n js)
unfolding exec_jobs
exec_jobs-Ran w n [] = (end refl, tt)
exec_jobs-Ran w n (j ∷ js) = elim (Bool-cases (is_pending j.status)) [
  | inr h ↦
      rw (h, exec_jobs)
        (cons-Ran n n j j js (exec_jobs w n js) (refl, inl (refl, refl)) h (exec_jobs-Ran w n js))
  | inl h ↦
      rw (h, exec_jobs)
        (started-Ran w n j js (exec_job2 (w j.address) n j) refl (λ m. exec_jobs-Ran w m js))
]

reap-Kept :
    (n : ℕ) (ws : List Wait) (i j : Job)
    → Kept n i n j
    → is_pending j.status ≡ false
    → Kept n i n (reap ws j) × (is_pending (reap ws j).status ≡ false)
unfolding reap
reap-Kept n [] i j k p = (k, p)
reap-Kept n (stopped ∷ ws) i j k p = reap-Kept n ws i (record j { status = hiatus }) k refl
reap-Kept n (exited ∷ ws) i j k p = elim (Bool-cases (suc j.finish_count == j.n_pipe)) [
  | inl h ↦
      rw (h, reap)
        (reap-Kept n ws i (record j { finish_count = suc j.finish_count; status = done }) k refl)
  | inr h ↦ rw (h, reap) (reap-Kept n ws i (record j { finish_count = suc j.finish_count }) k p)
]

-- theReaper changes no number and makes no job pending.
pub the_reaper-Renumbered :
    (polls : ℕ → List Wait) (n : ℕ) (js : List Job)
    → NonePending js
    → Renumbered n js n (the_reaper polls js) × NonePending (the_reaper polls js)
unfolding the_reaper
the_reaper-Renumbered polls n [] p = (end refl, tt)
the_reaper-Renumbered polls n (j ∷ js) (p, ps) =
    let (r, q) = the_reaper-Renumbered polls n js ps in
    elim (Bool-cases (is_running j.status)) [
      | inl h ↦
          let (k, p') = reap-Kept n (polls j.group_id) j j (refl, inl (refl, refl)) p in
          rw h (next k r, (p', q))
      | inr h ↦ rw h (next (refl, inl (refl, refl)) r, (p, q))
    ]

-- New jobs: their addresses count up from `a`, and they have no number yet.
abbrev pub Counted : ℕ → List Job → Type 0
Counted a [] = Unit
Counted a (j ∷ js) = (j.address ≡ a) × (j.job_id ≡ 0) × Counted (suc a) js

pub add_jobs-Counted : (a : ℕ) (cur ts : List (List ℕ)) → Counted a (add_jobs a cur ts)
unfolding add_jobs
add_jobs-Counted a cur [] = tt
add_jobs-Counted a cur (t ∷ []) = elim (Bool-cases (text_eq amp_token t)) [
  | inl h ↦ rw h (refl, refl, tt)
  | inr h ↦ rw h (refl, refl, tt)
]
add_jobs-Counted a cur (t ∷ u ∷ r) = elim (Bool-cases (text_eq amp_token t)) [
  | inl h ↦ rw (h, add_jobs) (refl, refl, add_jobs-Counted (suc a) [] (u ∷ r))
  | inr h ↦ rw (h, add_jobs) (add_jobs-Counted a (cur ++ t ∷ []) (u ∷ r))
]
