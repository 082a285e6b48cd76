-- ===== src/Shell/Examples/Sessions.antt =====
-- A line that starts a background job, and a pipeline of three commands.
use kenrel_learning.Common.{
  ℕ, ◌+◌, ◌*◌, ◌<◌, ◌≡◌, refl, ltb, true, none, some, List, [], ◌∷◌, arith, if◌then◌else◌,
}
use kenrel_learning.Shell.Job.{Job, running, clean_job_list}
use kenrel_learning.Shell.Exec.{
  Redirect, exec_job2, exec_status, launch, settle, wait_fg, parse, exec_jobs, add_jobs,
}
use kenrel_learning.Shell.Exec.Wiring.{
  file, Fds, set_file_descriptor, child, at_fork, with_pipes, close_pipes,
}
use kenrel_learning.Shell.Exec.Wiring.Ends.{AreApart, HasNoPipes}
use kenrel_learning.Shell.Exec.Wiring.Child.{AreFiles, child-writes}
use kenrel_learning.Shell.Builtin.{Shell, System, goes_on, round, in_built_commands, run_jobs}
use kenrel_learning.Shell.Rounds.{IsSound, none_yet, more, rounds}
use kenrel_learning.Shell.Rounds.Sound.{Turns-IsSound}

abbrev started : Shell
started = record {
  jobs = [];
  n_jobs = 1;
  next_address = 0;
  cwd = [];
  curr_path = [];
  prev_path = [];
}

abbrev calm : System
calm = record {
  world = λ a. record { open_file = λ mode name. none; new_pid = 5; waits = λ g. [] };
  chdir = λ from to. none;
  home = [];
  atoi = λ text. 0;
}

started-IsSound : IsSound started
started-IsSound = record {
  distinct = tt;
  below = tt;
  settled = tt;
  numbered = tt;
  counts = omega arith;
}

abbrev sleep : List ℕ
sleep = b's' ∷ b'l' ∷ []

abbrev sleeper : Job
sleeper = record {
  address = 0;
  is_background = true;
  tokenized = sleep ∷ [];
  status = running;
  group_id = 5;
  n_pipe = 1;
  finish_count = 0;
  job_id = 1;
}

abbrev with_sleeper : Shell
with_sleeper = record started { jobs = sleeper ∷ []; n_jobs = 2; next_address = 1 }

line_runs : round calm started sleep ((b'&' ∷ []) ∷ []) ≡ goes_on with_sleeper
unfolding round in_built_commands run_jobs add_jobs exec_jobs exec_job2 exec_status launch settle
    wait_fg parse clean_job_list
line_runs = refl

sound_example : IsSound with_sleeper
sound_example =
    Turns-IsSound started with_sleeper started-IsSound
      (more none_yet (rounds calm sleep ((b'&' ∷ []) ∷ []) line_runs))

abbrev rd : ℕ → ℕ
rd j = 3 + 2 * j

abbrev wr : ℕ → ℕ
wr j = 4 + 2 * j

numbers-AreApart : AreApart rd wr
numbers-AreApart = record {
  rd_injective = λ i j e. omega arith;
  wr_injective = λ i j e. omega arith;
  ends = λ i j e. omega arith;
  rd_high = λ i. omega arith;
  wr_high = λ i. omega arith;
}

abbrev standard : Fds
standard g = if ltb g 3 then some (file g) else none

standard-HasNoPipes : HasNoPipes standard
standard-HasNoPipes g j = (λ e. ground arith, λ e. ground arith)

abbrev as_it_is : Redirect
as_it_is = record { fd_in = none; fd_out = none; fd_err = none }

as_it_is-AreFiles : AreFiles rd wr as_it_is
as_it_is-AreFiles = record { in_wr = tt; out_wr = tt; err_wr = tt }

writes_example : (◌≡◌ {A = ℕ} 1 1) × (1 < 2)
unfolding child at_fork with_pipes close_pipes set_file_descriptor
writes_example =
    child-writes rd wr numbers-AreApart 2 as_it_is as_it_is-AreFiles standard standard-HasNoPipes 1
      1 1 (omega arith) (ground arith)
