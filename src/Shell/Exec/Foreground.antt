-- ===== src/Shell/Exec/Foreground.antt =====
-- A job in the foreground: it ends, it is stopped and resumed in the background, or a file of its
-- redirections cannot be opened.
use kenrel_learning.Common.{
  text_eq, ℕ, suc, ◌-◌, ◌≡◌, ◌≤◌, ◌<◌, refl, ap, ◌∙◌, Bool, true, false, List, [], ◌∷◌, ◌++◌, arith,
  Option, none, some, replicate, length,
}
use kenrel_learning.Shell.Job.{Job, pending, running, hiatus, done}
use kenrel_learning.Shell.Exec.{
  World, Exec, Wait, stopped, exited, Segment, empty_segment, parse, wait_fg, settle, launch,
  exec_status, exec_job2, reap, returns,
}
use kenrel_learning.Shell.Exec.Status.{wait_fg-exited, wait_fg-stopped, reap-exited}

-- A job that was just added, for a line that is not empty.
pub record IsNew (j : Job) (t : List ℕ) (ts : List (List ℕ)) : Type 0 where
  pub tokens : j.tokenized ≡ t ∷ ts
  pub nonempty : text_eq t [] ≡ false
  pub new : j.status ≡ pending

abbrev launched : World → Job → List Segment → Job
launched w j segments = record j {
  status = running;
  n_pipe = length segments;
  group_id = w.new_pid;
  finish_count = 0;
}

exec-new :
    (w : World) (n : ℕ) (j : Job) (t : List ℕ) (ts : List (List ℕ)) (o : Option (List Segment))
    → IsNew j t ts
    → parse w.open_file j.tokenized empty_segment ≡ o
    → exec_job2 w n j ≡ some (launch w n j o)
unfolding exec_job2 exec_status
exec-new w n j t ts o i e =
    ground
      (arith, i.tokens, i.nonempty, i.new, ap (λ (x : Option (List Segment)). launch w n j x) e)

pub exec-resumed :
    (w : World) (n : ℕ) (j : Job) (t : List ℕ) (ts : List (List ℕ))
    → j.tokenized ≡ t ∷ ts
    → text_eq t [] ≡ false
    → j.status ≡ hiatus
    → exec_job2 w n j ≡ some (settle w n (record j { status = running }) [] true)
unfolding exec_job2 exec_status
exec-resumed w n j t ts i e h = ground arith

settle-fg :
    (w : World) (n : ℕ) (j : Job) (sp : List Segment) (c : Bool) (o : Job × ℕ)
    → j.is_background ≡ false
    → wait_fg (w.waits j.group_id) n j ≡ o
    → settle w n j sp c
      ≡ record { job = o.0; n_jobs = o.1; ret = 0; spawned = sp; continued = c; printed = [] }
unfolding settle
settle-fg w n j sp c o b e = ground arith

pub settle-bg :
    (w : World) (n : ℕ) (j : Job) (sp : List Segment) (c : Bool)
    → j.is_background ≡ true
    → settle w n j sp c ≡ record {
      job = record j { job_id = n };
      n_jobs = suc n;
      ret = 0;
      spawned = sp;
      continued = c;
      printed = record j { job_id = n } ∷ [];
    }
unfolding settle
settle-bg w n j sp c b = ground arith

-- If a file cannot be opened, nothing is started and execJob2 returns 1, but the job is left running.
pub exec_job2-open_fails :
    (w : World) (n : ℕ) (j : Job) (t : List ℕ) (ts : List (List ℕ))
    → IsNew j t ts
    → parse w.open_file j.tokenized empty_segment ≡ none
    → exec_job2 w n j ≡ some (returns 1 (record j { status = running }) n)
unfolding launch
exec_job2-open_fails w n j t ts i e = exec-new w n j t ts none i e

-- A foreground job whose processes all end is done, and takes no job number.
pub exec_job2-done :
    (w : World) (n k : ℕ) (j : Job) (t : List ℕ) (ts : List (List ℕ)) (segments : List Segment)
    → IsNew j t ts
    → j.is_background ≡ false
    → parse w.open_file j.tokenized empty_segment ≡ some segments
    → w.waits w.new_pid ≡ replicate k exited
    → (e : Exec) × (exec_job2 w n j ≡ some e)
      × (e.job.status ≡ done)
      × (e.spawned ≡ segments)
      × (e.n_jobs ≡ n)
unfolding launch
exec_job2-done w n k j t ts segments i b p h =
    let waited = wait_fg (w.waits w.new_pid) n (launched w j segments) in
    let d : waited ≡ (record (launched w j segments) { status = done }, n) =
      rw h (wait_fg-exited k n (launched w j segments)) in
    let f = settle-fg w n (launched w j segments) segments false waited b refl in
    (
      launch w n j (some segments),
      exec-new w n j t ts (some segments) i p,
      rw (f, d) refl,
      rw f refl,
      rw (f, d) refl,
    )

-- A foreground job that is stopped becomes a background job of the next job number, and waits to be
-- resumed; ends of its processes before the stop are not counted.
pub exec_job2-stopped :
    (w : World) (n k : ℕ) (j : Job) (t : List ℕ) (ts : List (List ℕ)) (segments : List Segment)
    → IsNew j t ts
    → j.is_background ≡ false
    → parse w.open_file j.tokenized empty_segment ≡ some segments
    → w.waits w.new_pid ≡ replicate k exited ++ stopped ∷ []
    → (e : Exec) × (exec_job2 w n j ≡ some e)
      × (e.job ≡ record j {
        is_background = true;
        status = hiatus;
        group_id = w.new_pid;
        n_pipe = length segments;
        finish_count = 0;
        job_id = n;
      })
      × (e.n_jobs ≡ suc n)
unfolding launch
exec_job2-stopped w n k j t ts segments i b p h =
    let waited = wait_fg (w.waits w.new_pid) n (launched w j segments) in
    let d =
      ap (λ (x : List Wait). wait_fg x n (launched w j segments)) h
      ∙ wait_fg-stopped k n (launched w j segments) [] in
    let f = settle-fg w n (launched w j segments) segments false waited b refl in
    (
      launch w n j (some segments),
      exec-new w n j t ts (some segments) i p,
      rw (f, d) refl,
      rw (f, d) refl,
    )

-- A foreground pipeline some of whose processes ended before it was stopped, resumed in the
-- background, still counts as running when all its other processes have ended.
pub resumed_keeps_running :
    (w w' : World) (n n' k : ℕ) (j : Job) (t : List ℕ) (ts : List (List ℕ))
    (segments : List Segment)
    → IsNew j t ts
    → j.is_background ≡ false
    → parse w.open_file j.tokenized empty_segment ≡ some segments
    → w.waits w.new_pid ≡ replicate k exited ++ stopped ∷ []
    → 0 < k
    → k ≤ length segments
    → (e e' : Exec) × (exec_job2 w n j ≡ some e)
      × (exec_job2 w' n' e.job ≡ some e')
      × ((reap (replicate (length segments - k) exited) e'.job).status ≡ running)
resumed_keeps_running w w' n n' k j t ts segments i b p h pos le =
    let (e, run, shape, _) = exec_job2-stopped w n k j t ts segments i b p h in
    let stopped_job : Job = record j {
      is_background = true;
      status = hiatus;
      group_id = w.new_pid;
      n_pipe = length segments;
      finish_count = 0;
      job_id = n;
    } in
    let resumed : Job = record stopped_job { status = running } in
    let again = exec-resumed w' n' stopped_job t ts i.tokens i.nonempty refl in
    let e' = settle w' n' resumed [] true in
    let f = settle-bg w' n' resumed [] true refl in
    (
      e,
      e',
      run,
      rw shape again,
      (let g = reap-exited (length segments - k) (record resumed { job_id = n' }) (omega arith) in
          rw (f, g) refl),
    )
