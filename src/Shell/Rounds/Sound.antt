-- ===== src/Shell/Rounds/Sound.antt =====
-- The invariant of the jobs across any rounds of main, with theReaper between them.
use kenrel_learning.Common.{
  ℕ, ◌+◌, ◌≡◌, ◌≢◌, refl, subst, Option, none, some, List, [], ◌∷◌, ◌++◌, arith, length,
}
use kenrel_learning.Shell.Job.{Job, find_job_by_job_id}
use kenrel_learning.Shell.Job.Clean.{live}
use kenrel_learning.Shell.Job.Numbers.{
  Has, Renumbered-AreNumbered, Renumbered-AreDistinct, Renumbered-AllBelow, Renumbered-pos,
  find_job_by_job_id-Has,
}
use kenrel_learning.Shell.Exec.{exec_jobs, add_jobs, the_reaper}
use kenrel_learning.Shell.Exec.Numbers.{Ran, exec_jobs-Ran, the_reaper-Renumbered, add_jobs-Counted}
use kenrel_learning.Shell.Builtin.{
  Shell, System, Builtin, handled, failed, not_builtin, exits, crashes, in_built_commands, cleaned,
  run_jobs, Round, goes_on, ends, crashed, round,
}
use kenrel_learning.Shell.Rounds.{IsSound, Turn, rounds, reaps, Turns, none_yet, more}
use kenrel_learning.Shell.Rounds.Lists.{
  append-AreDistinct, append-AllBelow, append-AreNumbered, live-live,
}
use kenrel_learning.Shell.Rounds.Builtins.{
  Renumbered-IsSound, cleaned_lem, cleaned-IsSound, Fine, elsewhere, in_built_commands-Fine,
}

-- The invariant after a round that goes on, and then no job is done.
abbrev Ready : Round → Type 0
Ready (goes_on sh) = IsSound sh × (live sh.jobs ≡ sh.jobs)
Ready ends = Unit {0}
Ready crashed = Unit {0}

cleaned-Ready : (sh : Shell) → IsSound sh → Ready (goes_on (cleaned sh))
cleaned-Ready sh v = (cleaned-IsSound sh v, rw (cleaned_lem sh v) (live-live sh.jobs))

module _ (s : System) (sh : Shell) (v : IsSound sh) where
  abbrev with_jobs : List (List ℕ) → List Job × ℕ → Shell
  with_jobs tokens (js, n) = record sh {
    jobs = js;
    n_jobs = n;
    next_address = sh.next_address + length (add_jobs sh.next_address [] tokens);
  }

  started-IsSound :
      (tokens : List (List ℕ)) (js : List Job) (n : ℕ)
      → Ran sh.n_jobs (sh.jobs ++ add_jobs sh.next_address [] tokens) (some (js, n))
      → IsSound (with_jobs tokens (js, n))
  started-IsSound tokens js n (r, p) =
      let new = add_jobs sh.next_address [] tokens in
      let c = add_jobs-Counted sh.next_address [] tokens in
      record {
        distinct =
            Renumbered-AreDistinct r
              (append-AreDistinct sh.next_address sh.jobs new v.distinct v.below c);
        below = Renumbered-AllBelow _ r (
            append-AllBelow sh.next_address (sh.next_address + length new) sh.jobs new v.below c
              (omega arith));
        settled = p;
        numbered =
            Renumbered-AreNumbered r
              (append-AreNumbered sh.n_jobs sh.next_address sh.jobs new v.counts v.numbered c);
        counts = Renumbered-pos v.counts r;
      }

  run_jobs-Ready :
      (tokens : List (List ℕ))
      → Ready (elim (run_jobs s sh tokens) [ none ↦ crashed | some r ↦ goes_on (cleaned r) ])
  unfolding run_jobs
  run_jobs-Ready tokens =
      go (exec_jobs s.world sh.n_jobs (sh.jobs ++ add_jobs sh.next_address [] tokens))
        (exec_jobs-Ran s.world sh.n_jobs (sh.jobs ++ add_jobs sh.next_address [] tokens))
    where
      go :
          (o : Option (List Job × ℕ))
          → Ran sh.n_jobs (sh.jobs ++ add_jobs sh.next_address [] tokens) o
          → Ready
              (elim (elim o as (λ x. Option Shell) [
                | none ↦ none
                | some (js, n) ↦ some (with_jobs tokens (js, n))
              ]) [ none ↦ crashed | some r ↦ goes_on (cleaned r) ])
      go none r = tt
      go (some (js, n)) r = cleaned-Ready (with_jobs tokens (js, n)) (started-IsSound tokens js n r)

  -- The round after the built-in commands had their turn.
  round-after :
      (tokens : List (List ℕ)) (b : Builtin)
      → Fine b
      → Ready (elim b [
        | handled r ↦ goes_on (cleaned (cleaned r))
        | failed r ↦ goes_on (cleaned (cleaned r))
        | exits ↦ ends
        | crashes ↦ crashed
        | not_builtin ↦ (elim (run_jobs s sh tokens) [
          | none ↦ crashed
          | some r ↦ goes_on (cleaned r)
        ])
      ])
  round-after tokens (handled r) u = cleaned-Ready (cleaned r) (cleaned-IsSound r u)
  round-after tokens (failed r) u = cleaned-Ready (cleaned r) (cleaned-IsSound r u)
  round-after tokens exits u = tt
  round-after tokens crashes u = tt
  round-after tokens not_builtin u = run_jobs-Ready tokens

round-Ready :
    (s : System) (sh : Shell) (name : List ℕ) (args : List (List ℕ))
    → IsSound sh
    → Ready (round s sh name args)
unfolding round
round-Ready s sh name args v =
    let here = record sh { curr_path = sh.cwd } in
    let u = elsewhere sh here v refl refl refl in
    round-after s here u (name ∷ args) (in_built_commands s here name args)
      (in_built_commands-Fine s here name args u)

goes_on_injective : (a b : Shell) → goes_on a ≡ goes_on b → a ≡ b
goes_on_injective a b h = cc

round_lem :
    (r : Round) (sh : Shell) → Ready r → r ≡ goes_on sh → IsSound sh × (live sh.jobs ≡ sh.jobs)
round_lem (goes_on r) sh v h =
    subst (λ x. IsSound x × (live x.jobs ≡ x.jobs)) (goes_on_injective r sh h) v
round_lem ends sh v h = absurd (ground arith)
round_lem crashed sh v h = absurd (ground arith)

Turn-IsSound : {sh sh' : Shell} → IsSound sh → Turn sh sh' → IsSound sh'
Turn-IsSound {sh} {sh'} v (rounds s name args h) =
    (round_lem (round s sh name args) sh' (round-Ready s sh name args v) h).0
Turn-IsSound {sh} v (reaps polls) =
    let (r, p) = the_reaper-Renumbered polls sh.n_jobs sh.jobs v.settled in
    Renumbered-IsSound sh (the_reaper polls sh.jobs) sh.n_jobs v r p

-- Whatever lines the shell is given, and however often its reaper runs between them: the addresses of
-- its jobs stay distinct, no job is left pending, and no two jobs have one job number other than 0,
-- which a job has that was not given a number.
pub Turns-IsSound : (sh sh' : Shell) → IsSound sh → Turns sh sh' → IsSound sh'
Turns-IsSound sh _ v none_yet = v
Turns-IsSound sh sh' v (more before turn) = Turn-IsSound (Turns-IsSound sh _ v before) turn

-- After such rounds, the number of any job finds that job, and no other.
pub Turns-find :
    (sh sh' : Shell) (j : Job)
    → IsSound sh
    → Turns sh sh'
    → Has j sh'.jobs
    → j.job_id ≢ 0
    → find_job_by_job_id sh'.jobs j.job_id ≡ some j
Turns-find sh sh' j v turns h z =
    find_job_by_job_id-Has sh'.n_jobs sh'.jobs j (Turns-IsSound sh sh' v turns).numbered h z

-- When a round goes on, no job of the list is done.
pub round-live :
    (s : System) (sh sh' : Shell) (name : List ℕ) (args : List (List ℕ))
    → IsSound sh
    → round s sh name args ≡ goes_on sh'
    → live sh'.jobs ≡ sh'.jobs
round-live s sh sh' name args v h =
    (round_lem (round s sh name args) sh' (round-Ready s sh name args v) h).1
