-- ===== src/Shell/Exec/Wiring.antt =====
-- The pipes of execJob2 in assignment3-1/jankersh.c: the descriptors of the shell while it forks, and
-- of each child when it calls execvp. The numbers that pipe gives are an argument.
pub mod Ends
pub mod Child
use kenrel_learning.Common.{ℕ, zero, suc, ◌-◌, ◌==◌, Option, none, some, if◌then◌else◌, min}
use kenrel_learning.Shell.Exec.{Redirect}

-- What a descriptor stands for: an end of pipe `j`, or some other file.
pub data End : Type 0 where
  read_end write_end file : ℕ → End

abbrev pub Fds : Type 0
Fds = ℕ → Option End

-- close, and dup2, which does nothing where `old` is not open.
abbrev pub close : ℕ → Fds → Fds
close fd t g = if g == fd then none else t g

abbrev pub copy_from : Option End → ℕ → Fds → Fds
copy_from none fd t g = t g
copy_from (some e) fd t g = if g == fd then some e else t g

abbrev pub dup2 : ℕ → ℕ → Fds → Fds
dup2 old fd t = copy_from (t old) fd t

-- One step of setFileDescriptor; `none` is -1.
abbrev pub set_one : Option ℕ → ℕ → Fds → Fds
set_one none fd t = t
set_one (some zero) fd t = t
set_one (some (suc d)) fd t = dup2 (suc d) fd t

unfoldable pub set_file_descriptor : Redirect → Fds → Fds
set_file_descriptor r t = set_one r.fd_err 2 (set_one r.fd_out 1 (set_one r.fd_in 0 t))

module _ (rd wr : ℕ → ℕ) where
  -- pipe(pipes[i]), for the numbers rd i and wr i.
  abbrev pub pipe : ℕ → Fds → Fds
  pipe i t g =
      if g == wr i then some (write_end i) else if g == rd i then some (read_end i) else t g

  unfoldable pub with_pipes : ℕ → Fds → Fds
  with_pipes zero t = t
  with_pipes (suc i) t = pipe i (with_pipes i t)

  -- The descriptors when command `i` of 0, …, last is forked: the last one has no pipe of its own.
  unfoldable pub at_fork : ℕ → ℕ → Fds → Fds
  at_fork last i t = with_pipes (min (suc i) last) t

  -- The pipes 0, …, n - 1 are closed.
  unfoldable pub close_pipes : ℕ → Fds → Fds
  close_pipes zero t = t
  close_pipes (suc j) t = close (rd j) (close (wr j) (close_pipes j t))

  abbrev pub take_input : ℕ → Fds → Fds
  take_input zero t = t
  take_input (suc i) t = close (wr i) (dup2 (rd i) 0 t)

  abbrev pub give_output : ℕ → ℕ → Fds → Fds
  give_output last i t = if i == last then t else close (rd i) (dup2 (wr i) 1 t)

  -- What child `i` does before execvp.
  unfoldable pub child : ℕ → ℕ → Redirect → Fds → Fds
  child last i r t =
      give_output last i (take_input i (close_pipes (i - 1) (set_file_descriptor r t)))

  -- The shell when all children are forked.
  unfoldable pub after_forks : ℕ → Fds → Fds
  after_forks last t = close_pipes last (with_pipes last t)
