-- ===== src/Shell/Builtin.antt =====
-- inBuiltCommands and one round of main in assignment3-1/jankersh.c. chdir, atoi and the home
-- directory are arguments; `cwd` is the directory of the process, which getcwd reads.
pub mod Resume
use kenrel_learning.Common.{
  text_eq, ℕ, suc, ◌+◌, ◌≡◌, ◌≢◌, ◌==◌, refl, Bool, true, false, not, ◌&&◌, ◌||◌, Option, none,
  some, List, [], ◌∷◌, ◌++◌, if◌then◌else◌, arith, length,
}
use kenrel_learning.Shell.Job.{
  Job, JobStatus, pending, running, hiatus, done, find_job_by_job_id, current_job, print_job_list,
  clean_job_list,
}
use kenrel_learning.Shell.Lexer.{Texts}
use kenrel_learning.Shell.Exec.{World, Exec, exec_job2, exec_jobs, add_jobs}

pub record Shell : Type 0 where
  pub jobs : List Job
  pub n_jobs : ℕ
  pub next_address : ℕ
  pub cwd : List ℕ
  pub curr_path : List ℕ
  pub prev_path : List ℕ

pub record System : Type 0 where
  pub world : ℕ → World
  pub chdir : List ℕ → List ℕ → Option (List ℕ)
  pub home : List ℕ
  pub atoi : List ℕ → ℕ

-- The values 0, -1 and 1 that the function returns, the exit, and a read through NULL.
pub data Builtin : Type 0 where
  handled failed : Shell → Builtin
  not_builtin exits crashes : Builtin

abbrev pub dash : List ℕ
dash = b'-' ∷ []

abbrev pub change_dir : System → Shell → List ℕ → (Shell → Shell) → Builtin
change_dir s sh path after = elim (s.chdir sh.cwd path) [
  | none ↦ failed sh
  | some dir ↦ handled (after (record sh { cwd = dir }))
]

-- `cd -` prints the path before and goes nowhere.
unfoldable pub cd : System → Shell → List (List ℕ) → Builtin
cd s sh [] = change_dir s sh s.home (λ r. record r { prev_path = r.curr_path })
cd s sh (a ∷ []) =
    if text_eq a dash then failed sh else change_dir s sh a (λ r. record r { curr_path = r.cwd })
cd s sh (a ∷ b ∷ r) = failed sh

-- The list with this job in the place of the one at its address.
unfoldable pub store_job : Job → List Job → List Job
store_job j [] = []
store_job j (k ∷ ks) = if k.address == j.address then j ∷ ks else k ∷ store_job j ks

-- execJob2 on a job of the list, as a background or a foreground job.
unfoldable pub continue_job : System → Shell → Bool → Job → Builtin
continue_job s sh background j =
    elim (exec_job2 (s.world j.address) sh.n_jobs (record j { is_background = background })) [
      | none ↦ crashes
      | some e ↦ handled (record sh { jobs = store_job e.job sh.jobs; n_jobs = e.n_jobs })
    ]

-- `bg` takes a job that is stopped, `fg` one that is stopped or runs.
abbrev pub may_continue : Bool → JobStatus → Bool
may_continue background hiatus = true
may_continue background running = not background
may_continue background _ = false

unfoldable pub bg_fg : System → Shell → Bool → List (List ℕ) → Builtin
bg_fg s sh background [] = elim (current_job sh.jobs) [
  | none ↦ crashes
  | some j ↦ if may_continue background j.status then continue_job s sh background j else failed sh
]
bg_fg s sh background ([] ∷ r) = failed sh
bg_fg s sh background ((c ∷ number) ∷ r) =
    if c == b'%'
    then (elim (find_job_by_job_id sh.jobs (s.atoi number)) [
      | none ↦ failed sh
      | some j ↦ continue_job s sh background j
    ])
    else failed sh

-- A line always has a first token.
unfoldable pub in_built_commands : System → Shell → List ℕ → List (List ℕ) → Builtin
in_built_commands s sh name args =
    if text_eq name (b'c' ∷ b'd' ∷ [])
    then cd s sh args
    else if text_eq name (b'j' ∷ b'o' ∷ b'b' ∷ b's' ∷ [])
    then handled sh
    else if text_eq name (b'e' ∷ b'x' ∷ b'i' ∷ b't' ∷ [])
    then exits
    else if text_eq name (b'b' ∷ b'g' ∷ [])
    then bg_fg s sh true args
    else if text_eq name (b'f' ∷ b'g' ∷ [])
    then bg_fg s sh false args
    else not_builtin

abbrev pub cleaned : Shell → Shell
cleaned sh =
    let ((js, n), printed) = clean_job_list sh.jobs sh.n_jobs in record sh { jobs = js; n_jobs = n }

-- addJobs and execJobs.
unfoldable pub run_jobs : System → Shell → List (List ℕ) → Option Shell
run_jobs s sh tokens =
    let new = add_jobs sh.next_address [] tokens in
    elim (exec_jobs s.world sh.n_jobs (sh.jobs ++ new)) [
      | none ↦ none
      | some (js, n) ↦
          some (record sh { jobs = js; n_jobs = n; next_address = sh.next_address + length new })
    ]

pub data Round : Type 0 where
  goes_on : Shell → Round
  ends crashed : Round

-- One round of the loop in main on a line that is cut into these tokens.
unfoldable pub round : System → Shell → List ℕ → List (List ℕ) → Round
round s sh name args =
    let here = record sh { curr_path = sh.cwd } in
    elim (in_built_commands s here name args) [
      | handled r ↦ goes_on (cleaned (cleaned r))
      | failed r ↦ goes_on (cleaned (cleaned r))
      | exits ↦ ends
      | crashes ↦ crashed
      | not_builtin ↦ (elim (run_jobs s here (name ∷ args)) [
        | none ↦ crashed
        | some r ↦ goes_on (cleaned r)
      ])
    ]
