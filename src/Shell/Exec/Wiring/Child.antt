-- ===== src/Shell/Exec/Wiring/Child.antt =====
-- The standard streams of the children of a pipeline, and that a reader sees the end of its input.
use kenrel_learning.Common.{
  ℕ, zero, suc, ◌-◌, ◌≤◌, ◌<◌, ◌≡◌, ◌≢◌, inl, inr, sym, ◌∙◌, ◌==◌, some, arith, min, Bool-cases,
}
use kenrel_learning.Shell.Exec.{Redirect}
use kenrel_learning.Shell.Exec.Wiring.{
  read_end, write_end, Fds, set_one, set_file_descriptor, with_pipes, at_fork, close_pipes,
  take_input, child, after_forks,
}
use kenrel_learning.Shell.Exec.Wiring.Ends.{
  AreApart, HasNoPipes, Avoids, WritesWithin, with_pipes-WritesWithin, with_pipes-write,
  with_pipes-read, close_pipes-WritesWithin, close_pipes-other, set_one-WritesWithin, set_one-other,
  take_input-WritesWithin,
}

-- The redirections of a command are descriptors of files.
pub record AreFiles (rd wr : ℕ → ℕ) (r : Redirect) : Type 0 where
  pub in_wr : Avoids wr r.fd_in
  pub out_wr : Avoids wr r.fd_out
  pub err_wr : Avoids wr r.fd_err

module _ (rd wr : ℕ → ℕ) (apart : AreApart rd wr) (last : ℕ) (r : Redirect)
    (files : AreFiles rd wr r) (t : Fds) (none_yet : HasNoPipes t) where
  abbrev redirected : ℕ → Fds
  redirected i = set_file_descriptor r (at_fork rd wr last i t)

  redirected-WritesWithin : (i : ℕ) → WritesWithin wr 0 (min (suc i) last) (redirected i)
  unfolding set_file_descriptor at_fork
  redirected-WritesWithin i =
      let n = min (suc i) last in
      let t0 = with_pipes rd wr n t in
      let w0 = with_pipes-WritesWithin rd wr apart n t none_yet in
      let t1 = set_one r.fd_in 0 t0 in
      let w1 = set_one-WritesWithin rd wr apart r.fd_in 0 0 n t0 files.in_wr w0 in
      let t2 = set_one r.fd_out 1 t1 in
      let w2 = set_one-WritesWithin rd wr apart r.fd_out 1 0 n t1 files.out_wr w1 in
      set_one-WritesWithin rd wr apart r.fd_err 2 0 n t2 files.err_wr w2

  redirected-high : (i g : ℕ) → 2 < g → redirected i g ≡ with_pipes rd wr (min (suc i) last) t g
  unfolding set_file_descriptor at_fork
  redirected-high i g h =
      let n = min (suc i) last in
      let t0 = with_pipes rd wr n t in
      let t1 = set_one r.fd_in 0 t0 in
      let t2 = set_one r.fd_out 1 t1 in
      set_one-other rd wr apart r.fd_err 2 g t2 (λ e. omega arith)
      ∙ (set_one-other rd wr apart r.fd_out 1 g t1 (λ e. omega arith)
          ∙ set_one-other rd wr apart r.fd_in 0 g t0 (λ e. omega arith))

  -- After the loop over the earlier pipes.
  abbrev closed : ℕ → Fds
  closed i = close_pipes rd wr (i - 1) (redirected i)

  closed-read : (k : ℕ) → suc k ≤ last → closed (suc k) (rd k) ≡ some (read_end k)
  closed-read k h =
      close_pipes-other rd wr apart (suc k - 1) (rd k) (redirected (suc k))
        (λ j l e. (let q = apart.rd_injective k j e in omega arith)) (λ j l. apart.ends k j)
      ∙ (redirected-high (suc k) (rd k) (apart.rd_high k)
          ∙ with_pipes-read rd wr apart (min (suc (suc k)) last) k t (omega arith))

  closed-write : (i : ℕ) → i < last → closed i (wr i) ≡ some (write_end i)
  closed-write i h =
      close_pipes-other rd wr apart (i - 1) (wr i) (redirected i) (λ j l e. apart.ends j i (sym e))
        (λ j l e. (let q = apart.wr_injective i j e in omega arith))
      ∙ (redirected-high i (wr i) (apart.wr_high i)
          ∙ with_pipes-write rd wr apart (min (suc i) last) i t (omega arith))

  -- With the input of the command before it.
  abbrev fed : ℕ → Fds
  fed i = take_input rd wr i (closed i)

  closed-WritesWithin : (i k : ℕ) → i - 1 ≡ k → WritesWithin wr k (min (suc i) last) (closed i)
  closed-WritesWithin i k e g j q =
      let (a, b, c) =
        close_pipes-WritesWithin rd wr apart (i - 1) (min (suc i) last) (redirected i)
          (redirected-WritesWithin i) g j q in
      (a, omega arith, c)

  fed-WritesWithin : (i : ℕ) → i ≤ last → WritesWithin wr i (min (suc i) last) (fed i)
  fed-WritesWithin zero h g j e = closed-WritesWithin 0 0 (omega arith) g j e
  fed-WritesWithin (suc k) h g j e =
      take_input-WritesWithin rd wr apart k (min (suc (suc k)) last) (closed (suc k))
        (closed-read k h) (closed-WritesWithin (suc k) k (omega arith)) g j e

  fed-write : (i : ℕ) → i < last → fed i (wr i) ≡ some (write_end i)
  fed-write zero h = closed-write 0 h
  fed-write (suc k) h = ground (
    arith,
    closed-read k (omega arith),
    closed-write (suc k) h,
    apart.wr_injective (suc k) k,
    apart.wr_high (suc k),
  )

  -- A child of the pipeline holds no write end of a pipe but that of its own output, so the reader of
  -- a pipe sees the end of its input when the command before it ends.
  pub child-writes :
      (i g j : ℕ)
      → i ≤ last
      → child rd wr last i r (at_fork rd wr last i t) g ≡ some (write_end j)
      → (j ≡ i) × (i < last)
  unfolding child
  child-writes i g j h e = elim (Bool-cases (i == last)) [
    | inl y ↦ let (a, b, c) = fed-WritesWithin i h g j (rw y at e) in absurd (ground arith)
    | inr y ↦
        let w = fed-write i (ground arith) in
        let q = rw (y, w) at e in
        elim (Bool-cases (g == 1)) [
          | inl z ↦ ground arith
          | inr z ↦
              let (a, b, c) = fed-WritesWithin i h g j (ground arith) in (omega arith, ground arith)
        ]
  ]

  -- When all commands are forked the shell holds no write end.
  pub after_forks-writes : (g j : ℕ) → after_forks rd wr last t g ≢ some (write_end j)
  unfolding after_forks
  after_forks-writes g j e =
      let w = with_pipes-WritesWithin rd wr apart last t none_yet in
      let (a, b, c) =
        close_pipes-WritesWithin rd wr apart last last (with_pipes rd wr last t) w g j e in
      absurd (omega arith)
