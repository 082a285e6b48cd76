-- ===== src/Shell/Examples.antt =====
-- The shell's theorems at concrete lines and jobs.
pub mod Sessions
use kenrel_learning.Common.{
  inl, ℕ, ◌≤◌, ◌==◌, ◌≡◌, ◌≢◌, refl, true, false, Option, none, some, List, [], ◌∷◌, ◌++◌, map,
  length, replicate, if◌then◌else◌, arith,
}
use kenrel_learning.Shell.Lexer.{Texts, Lexer, tokenize2}
use kenrel_learning.Shell.Lexer.Fuel.{tokenize2-total}
use kenrel_learning.Shell.Lexer.Bounds.{tokenize2-fits}
use kenrel_learning.Shell.Lexer.Typed.{Word, bare, quoted, dquoted, value, line}
use kenrel_learning.Shell.Lexer.Words.{words, words-tokenize2}
use kenrel_learning.Shell.Job.{
  Job, pending, running, hiatus, done, find_job_by_job_id, clean_job_list,
}
use kenrel_learning.Shell.Job.Clean.{live, reported, next_id, clean_job_list_lem}
use kenrel_learning.Shell.Exec.{
  World, Mode, Wait, Exec, Segment, empty_segment, parse, stopped, exited, reap, exec_job2, returns,
  add_jobs,
}
use kenrel_learning.Shell.Exec.Split.{line_of, jobs_of, add_jobs-line_of}
use kenrel_learning.Shell.Exec.Status.{exec_job2-ne-pending, reap-counts}
use kenrel_learning.Shell.Exec.Foreground.{
  IsNew, exec_job2-open_fails, exec_job2-done, exec_job2-stopped, resumed_keeps_running,
}
use kenrel_learning.Shell.Exec.Parse.{Command, from, to, render_all, segments_of, parse-render}
use kenrel_learning.Shell.Builtin.{System, Shell, handled, store_job, bg_fg}
use kenrel_learning.Shell.Builtin.Resume.{resumed, bg_fg-resumes}

abbrev texts : Texts
texts = record { pid = b'7' ∷ []; status = b'0' ∷ [] }

abbrev ls : List ℕ
ls = b'l' ∷ b's' ∷ []

total_example : (l : Lexer) × (tokenize2 texts ls ≡ some l)
total_example = tokenize2-total texts ls

fits_example : length (tokenize2-total texts ls).0.out ≤ 1024
fits_example = tokenize2-fits texts ls (tokenize2-total texts ls).1 (omega arith)

-- 'a b' "'>" c
abbrev more_words : List Word
more_words = quoted (b'a' ∷ b' ' ∷ b'b' ∷ []) ∷ dquoted (39 ∷ b'>' ∷ []) ∷ bare (b'c' ∷ []) ∷ []

words_example :
    (l : Lexer) × (tokenize2 texts (ls ++ line more_words) ≡ some l)
    × (words l ≡ ls ∷ map value more_words)
words_example =
    words-tokenize2 texts ls more_words ((refl, (refl, tt)), omega arith)
      ((refl, (refl, (refl, tt))), ((refl, (refl, tt)), (((refl, tt), omega arith), tt)))

abbrev job : ℕ → List (List ℕ) → Job
job a ts = record {
  address = a;
  is_background = false;
  tokenized = ts;
  status = pending;
  group_id = 0;
  n_pipe = 0;
  finish_count = 0;
  job_id = 0;
}

abbrev some_jobs : List Job
some_jobs =
    record (job 1 (ls ∷ [])) { status = done; is_background = true }
    ∷ record (job 2 (ls ∷ [])) { status = running }
    ∷ record (job 3 (ls ∷ [])) { status = done }
    ∷ []

clean_example :
    clean_job_list some_jobs 4 ≡ ((live some_jobs, next_id (live some_jobs) 4), reported some_jobs)
clean_example =
    clean_job_list_lem some_jobs 4
      ((ground arith, (ground arith, tt)), ((ground arith, tt), (tt, tt)))

add_example :
    add_jobs 5 [] (line_of ((ls ∷ []) ∷ []) (ls ∷ ls ∷ []))
    ≡ jobs_of 5 ((ls ∷ []) ∷ []) (ls ∷ ls ∷ [])
add_example = add_jobs-line_of 5 ((ls ∷ []) ∷ []) (ls ∷ ls ∷ []) ((refl, tt), tt) (refl, (refl, tt))

-- Every file opens as descriptor 9 unless its name is empty; the waits are a parameter.
abbrev opens : Mode → List ℕ → Option ℕ
opens m [] = none
opens m (c ∷ r) = some 9

abbrev world : (ℕ → List Wait) → World
world waits = record { open_file = opens; new_pid = 40; waits = waits }

-- ls | c
abbrev pipe_line : List (List ℕ)
pipe_line = ls ∷ (b'|' ∷ []) ∷ (b'c' ∷ []) ∷ []

abbrev two_commands : List Segment
two_commands =
    record empty_segment { argv = ls ∷ [] } ∷ record empty_segment { argv = (b'c' ∷ []) ∷ [] } ∷ []

pipe_line-IsNew : IsNew (job 1 pipe_line) ls ((b'|' ∷ []) ∷ (b'c' ∷ []) ∷ [])
pipe_line-IsNew = record { tokens = refl; nonempty = refl; new = refl }

pipe_parses : parse opens pipe_line empty_segment ≡ some two_commands
unfolding parse
pipe_parses = refl

-- ls < ''
abbrev bad_line : List (List ℕ)
bad_line = ls ∷ (b'<' ∷ []) ∷ [] ∷ []

bad_fails : parse opens bad_line empty_segment ≡ none
unfolding parse
bad_fails = refl

done_example :
    (e : Exec) × (exec_job2 (world (λ g. replicate 2 exited)) 3 (job 1 pipe_line) ≡ some e)
    × (e.job.status ≡ done)
    × (e.spawned ≡ two_commands)
    × (e.n_jobs ≡ 3)
done_example =
    exec_job2-done (world (λ g. replicate 2 exited)) 3 2 (job 1 pipe_line) ls
      ((b'|' ∷ []) ∷ (b'c' ∷ []) ∷ []) two_commands pipe_line-IsNew refl pipe_parses refl

abbrev then_stopped : ℕ → List Wait
then_stopped g = replicate 1 exited ++ stopped ∷ []

never_done_example :
    (e e' : Exec) × (exec_job2 (world then_stopped) 3 (job 1 pipe_line) ≡ some e)
    × (exec_job2 (world then_stopped) 4 e.job ≡ some e')
    × ((reap (replicate 1 exited) e'.job).status ≡ running)
never_done_example =
    resumed_keeps_running (world then_stopped) (world then_stopped) 3 4 1 (job 1 pipe_line) ls
      ((b'|' ∷ []) ∷ (b'c' ∷ []) ∷ []) two_commands pipe_line-IsNew refl pipe_parses refl
      (omega arith) (omega arith)

abbrev running_job : Job
running_job = record (job 1 pipe_line) { status = running; n_pipe = 2 }

-- ls < c | c > ls
abbrev first_command : Command
first_command = record { words = ls ∷ []; redirections = from (b'c' ∷ []) ∷ [] }

abbrev second_command : Command
second_command = record { words = (b'c' ∷ []) ∷ []; redirections = to ls ∷ [] }

parse_example :
    parse opens (render_all first_command (second_command ∷ [])) empty_segment
    ≡ some (segments_of (first_command ∷ second_command ∷ []) ((9 ∷ []) ∷ (9 ∷ []) ∷ []))
parse_example =
    parse-render opens first_command (second_command ∷ []) (9 ∷ []) ((9 ∷ []) ∷ [])
      ((refl, tt), (refl, tt), ((refl, tt), (refl, tt), tt))

abbrev system : System
system = record {
  world = λ a. world (λ g. []);
  chdir = λ from path. some path;
  home = [];
  atoi = λ text. 2;
}

abbrev stopped_job : Job
stopped_job = record (job 1 pipe_line) { status = hiatus; n_pipe = 2; job_id = 2 }

abbrev shell : Shell
shell = record {
  jobs = stopped_job ∷ [];
  n_jobs = 3;
  next_address = 2;
  cwd = [];
  curr_path = [];
  prev_path = [];
}

resumes_found : find_job_by_job_id shell.jobs 2 ≡ some stopped_job
unfolding find_job_by_job_id
resumes_found = refl
