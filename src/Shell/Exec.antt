-- ===== src/Shell/Exec.antt =====
-- execJob2, theReaper, addJobs and execJobs of assignment3-1/jankersh.c: how a line becomes jobs, a
-- job becomes processes, and their ends become states of the job. What open, fork and waitpid
-- answer is an argument; the terminal and the signal masks are not modelled.
pub mod Split
pub mod Status
pub mod Parse
pub mod Foreground
pub mod Numbers
pub mod Wiring
use kenrel_learning.Common.{
  text_eq, ℕ, zero, suc, ◌+◌, ◌==◌, Bool, true, false, not, ◌&&◌, Option, none, some, List, [], ◌∷◌,
  ◌++◌, if◌then◌else◌, length,
}
use kenrel_learning.Shell.Job.{
  Job, JobStatus, pending, running, hiatus, done, is_pending, is_running, is_hiatus,
}

pub data Mode : Type 0 where
  read_only truncate append : Mode

-- The descriptors 0, 1 and 2 of a process that its redirections give; `none` is -1.
pub record Redirect : Type 0 where
  pub fd_in : Option ℕ
  pub fd_out : Option ℕ
  pub fd_err : Option ℕ

-- One command of a pipeline: descTable[i] and the arguments from cmdStartInd[i] on.
pub record Segment : Type 0 where
  pub redirect : Redirect
  pub argv : List (List ℕ)

abbrev pub empty_segment : Segment
empty_segment = record {
  redirect = record { fd_in = none; fd_out = none; fd_err = none };
  argv = [];
}

-- What a blocking or polling waitpid on a group reports, one child after the other.
pub data Wait : Type 0 where
  stopped exited : Wait

pub record World : Type 0 where
  pub open_file : Mode → List ℕ → Option ℕ
  pub new_pid : ℕ
  pub waits : ℕ → List Wait

abbrev pub less_token : List ℕ
less_token = b'<' ∷ []

abbrev pub both_token : List ℕ
both_token = b'&' ∷ b'>' ∷ []

abbrev pub append_token : List ℕ
append_token = b'>' ∷ b'>' ∷ []

abbrev pub greater_token : List ℕ
greater_token = b'>' ∷ []

abbrev pub bar_token : List ℕ
bar_token = b'|' ∷ []

pub data Op : Type 0 where
  op_in op_both op_append op_out op_bar op_word : Op

abbrev pub classify : List ℕ → Op
classify t =
    if text_eq t less_token
    then op_in
    else if text_eq t both_token
    then op_both
    else if text_eq t append_token
    then op_append
    else if text_eq t greater_token
    then op_out
    else if text_eq t bar_token
    then op_bar
    else op_word

abbrev pub mode_of : Op → Mode
mode_of op_in = read_only
mode_of op_append = append
mode_of _ = truncate

abbrev pub set_fd : Op → ℕ → Segment → Segment
set_fd op_in fd s = record s { redirect = record (s.redirect) { fd_in = some fd } }
set_fd op_both fd s = record s {
  redirect = record (s.redirect) { fd_out = some fd; fd_err = some fd };
}
set_fd _ fd s = record s { redirect = record (s.redirect) { fd_out = some fd } }

abbrev pub add_word : List ℕ → Segment → Segment
add_word t s = record s { argv = s.argv ++ t ∷ [] }

-- A redirection as the last token has no name after it, only the NULL that ends the array, on which
-- open fails.
abbrev pub last_token : Op → List ℕ → Segment → Option (List Segment)
last_token op_bar t s = some (s ∷ empty_segment ∷ [])
last_token op_word t s = some (add_word t s ∷ [])
last_token _ t s = none

abbrev pub after_bar : Segment → Option (List Segment) → Option (List Segment)
after_bar s none = none
after_bar s (some r) = some (s ∷ r)

-- The loop over the tokens; `s` is the command being filled. `none` is the return after a failed open.
unfoldable pub parse : (Mode → List ℕ → Option ℕ) → List (List ℕ) → Segment → Option (List Segment)
parse open_file [] s = some (s ∷ [])
parse open_file (t ∷ []) s = last_token (classify t) t s
parse open_file (t ∷ f ∷ r) s = elim (classify t) [
  | op_bar ↦ after_bar s (parse open_file (f ∷ r) empty_segment)
  | op_word ↦ parse open_file (f ∷ r) (add_word t s)
  | op ↦ elim (open_file (mode_of op) f) [
    | none ↦ none
    | some fd ↦ parse open_file r (set_fd op fd s)
  ]
]

-- The state of the job and the count of job numbers after execJob2, what it returned, the commands
-- that it forked for, whether it sent SIGCONT, and the job lines that it printed.
pub record Exec : Type 0 where
  pub job : Job
  pub n_jobs : ℕ
  pub ret : ℕ
  pub spawned : List Segment
  pub continued : Bool
  pub printed : List Job

-- The waiting loop in the foreground. waitpid fails once no child is left.
unfoldable pub wait_fg : List Wait → ℕ → Job → Job × ℕ
wait_fg [] n j = (record j { status = done }, n)
wait_fg (stopped ∷ ws) n j = (record j { is_background = true; status = hiatus; job_id = n }, suc n)
wait_fg (exited ∷ ws) n j = wait_fg ws n j

-- The part after the process group is known.
unfoldable pub settle : World → ℕ → Job → List Segment → Bool → Exec
settle w n j spawned continued =
    let numbered = record j { job_id = n } in
    let fg = wait_fg (w.waits j.group_id) n j in
    if j.is_background
    then record {
      job = numbered;
      n_jobs = suc n;
      ret = 0;
      spawned = spawned;
      continued = continued;
      printed = numbered ∷ [];
    }
    else record {
      job = fg.0;
      n_jobs = fg.1;
      ret = 0;
      spawned = spawned;
      continued = continued;
      printed = [];
    }

abbrev pub returns : ℕ → Job → ℕ → Exec
returns r j n = record {
  job = j;
  n_jobs = n;
  ret = r;
  spawned = [];
  continued = false;
  printed = [];
}

unfoldable pub launch : World → ℕ → Job → Option (List Segment) → Exec
launch w n j none = returns 1 (record j { status = running }) n
launch w n j (some segments) =
    settle w n
      (record j {
        status = running;
        n_pipe = length segments;
        group_id = w.new_pid;
        finish_count = 0;
      })
      segments false

unfoldable pub exec_status : World → ℕ → Job → JobStatus → Exec
exec_status w n j pending = launch w n j (parse w.open_file j.tokenized empty_segment)
exec_status w n j hiatus = settle w n (record j { status = running }) [] true
exec_status w n j running = settle w n j [] false
exec_status w n j done = returns 0 j n

-- `none`: a job with no token, whose first token is read through NULL.
unfoldable pub exec_job2 : World → ℕ → Job → Option Exec
exec_job2 w n j = elim j.tokenized [
  | [] ↦ none
  | t ∷ ts ↦
      if text_eq t []
      then some (returns 0 (record j { status = done; is_background = false }) n)
      else some (exec_status w n j j.status)
]

-- theReaper: the polling loop of one job, and the walk over the running jobs.
unfoldable pub reap : List Wait → Job → Job
reap [] j = j
reap (stopped ∷ ws) j = reap ws (record j { status = hiatus })
reap (exited ∷ ws) j = reap ws (
    if suc j.finish_count == j.n_pipe
    then record j { finish_count = suc j.finish_count; status = done }
    else record j { finish_count = suc j.finish_count })

unfoldable pub the_reaper : (ℕ → List Wait) → List Job → List Job
the_reaper polls [] = []
the_reaper polls (j ∷ js) =
    (if is_running j.status then reap (polls j.group_id) j else j) ∷ the_reaper polls js

-- addJobs. `cur` holds the tokens since the last `&`; the addresses of new jobs count up.
abbrev pub new_job : ℕ → List (List ℕ) → Bool → Job
new_job a tokens background = record {
  address = a;
  is_background = background;
  tokenized = tokens;
  status = pending;
  group_id = 0;
  n_pipe = 0;
  finish_count = 0;
  job_id = 0;
}

abbrev pub amp_token : List ℕ
amp_token = b'&' ∷ []

unfoldable pub add_jobs : ℕ → List (List ℕ) → List (List ℕ) → List Job
add_jobs a cur [] = []
add_jobs a cur (t ∷ []) =
    if text_eq amp_token t then new_job a cur true ∷ [] else new_job a (cur ++ t ∷ []) false ∷ []
add_jobs a cur (t ∷ u ∷ r) = elim (text_eq amp_token t) [
  | true ↦ new_job a cur true ∷ add_jobs (suc a) [] (u ∷ r)
  | false ↦ add_jobs a (cur ++ t ∷ []) (u ∷ r)
]

-- execJobs, for a world that may change from one job to the next; `none` is the crash of execJob2.
unfoldable pub exec_jobs : (ℕ → World) → ℕ → List Job → Option (List Job × ℕ)
exec_jobs w n [] = some ([], n)
exec_jobs w n (j ∷ js) =
    let skip = exec_jobs w n js in
    let run = exec_job2 (w j.address) n j in
    elim (is_pending j.status) [
      | false ↦ (elim skip [ none ↦ none | some (rest, m) ↦ some (j ∷ rest, m) ])
      | true ↦ (elim run [
        | none ↦ none
        | some e ↦ (elim (exec_jobs w e.n_jobs js) [
          | none ↦ none
          | some (rest, m) ↦ some (e.job ∷ rest, m)
        ])
      ])
    ]
