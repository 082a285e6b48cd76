-- ===== src/Shell/Rounds.antt =====
-- The loop of main in assignment3-1/jankersh.c over any lines, with theReaper between the rounds, and
-- the invariant of its list of jobs.
pub mod Lists
pub mod Builtins
pub mod Sound
use kenrel_learning.Common.{ℕ, ◌<◌, ◌≡◌, List, []}
use kenrel_learning.Shell.Job.{Job}
use kenrel_learning.Shell.Job.Clean.{AreDistinct}
use kenrel_learning.Shell.Job.Numbers.{AllBelow, NonePending, AreNumbered}
use kenrel_learning.Shell.Exec.{Wait, the_reaper}
use kenrel_learning.Shell.Builtin.{Shell, System, goes_on, round}

-- A round that goes on, or a run of the signal handler.
pub data Turn (sh : Shell) : Shell → Type 0 where
  rounds :
      (s : System) (name : List ℕ) (args : List (List ℕ)) {sh' : Shell}
      → round s sh name args ≡ goes_on sh'
      → Turn sh sh'
  reaps : (polls : ℕ → List Wait) → Turn sh (record sh { jobs = the_reaper polls sh.jobs })

pub data Turns (sh : Shell) : Shell → Type 0 where
  none_yet : Turns sh sh
  more : {mid sh' : Shell} → Turns sh mid → Turn mid sh' → Turns sh sh'

-- The addresses of the jobs are distinct, no job waits to be started, and no two jobs have the same
-- number, 0 excepted.
pub record IsSound (sh : Shell) : Type 0 where
  pub distinct : AreDistinct sh.jobs
  pub below : AllBelow sh.next_address sh.jobs
  pub settled : NonePending sh.jobs
  pub numbered : AreNumbered sh.n_jobs sh.jobs
  pub counts : 0 < sh.n_jobs
