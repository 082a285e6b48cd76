-- ===== src/Shell/Rounds/Builtins.antt =====
-- The invariant of the jobs across the clean-up and the built-in commands.
use kenrel_learning.Common.{
  text_eq, ℕ, ◌≡◌, refl, ◌==◌, Bool, true, false, Option, none, some, List, [], ◌∷◌, if◌then◌else◌,
}
use kenrel_learning.Shell.Job.{Job, find_job_by_job_id, current_job}
use kenrel_learning.Shell.Job.Clean.{live, next_id, clean_job_list_lem}
use kenrel_learning.Shell.Job.Numbers.{
  Has, Has-find, Has-current, Kept, Renumbered, NonePending, Renumbered-AreNumbered,
  Renumbered-AreDistinct, Renumbered-AllBelow, Renumbered-pos,
}
use kenrel_learning.Shell.Exec.{World, Exec, exec_job2}
use kenrel_learning.Shell.Exec.Status.{exec_job2-ne-pending}
use kenrel_learning.Shell.Exec.Numbers.{exec_job2-Kept, not_pending}
use kenrel_learning.Shell.Builtin.{
  Shell, System, Builtin, handled, failed, not_builtin, exits, crashes, cd, store_job, continue_job,
  may_continue, bg_fg, in_built_commands, cleaned,
}
use kenrel_learning.Shell.Rounds.{IsSound}
use kenrel_learning.Shell.Rounds.Lists.{
  live-AreDistinct, live-AllBelow, live-NonePending, cleaned-AreNumbered, next_id_pos,
  store_job-Renumbered, store_job-NonePending,
}

-- The same jobs in the shell, with other numbers.
pub Renumbered-IsSound :
    (sh : Shell) (js : List Job) (n : ℕ)
    → IsSound sh
    → Renumbered sh.n_jobs sh.jobs n js
    → NonePending js
    → IsSound (record sh { jobs = js; n_jobs = n })
Renumbered-IsSound sh js n v r p = record {
  distinct = Renumbered-AreDistinct r v.distinct;
  below = Renumbered-AllBelow sh.next_address r v.below;
  settled = p;
  numbered = Renumbered-AreNumbered r v.numbered;
  counts = Renumbered-pos v.counts r;
}

pub cleaned_lem :
    (sh : Shell)
    → IsSound sh
    → cleaned sh ≡ record sh { jobs = live sh.jobs; n_jobs = next_id (live sh.jobs) sh.n_jobs }
cleaned_lem sh v = rw (clean_job_list_lem sh.jobs sh.n_jobs v.distinct) refl

pub cleaned-IsSound : (sh : Shell) → IsSound sh → IsSound (cleaned sh)
cleaned-IsSound sh v = rw (cleaned_lem sh v) (record {
  distinct = live-AreDistinct sh.jobs v.distinct;
  below = live-AllBelow sh.next_address sh.jobs v.below;
  settled = live-NonePending sh.jobs v.settled;
  numbered = cleaned-AreNumbered sh.n_jobs sh.jobs v.numbered;
  counts = next_id_pos sh.n_jobs (live sh.jobs) v.counts;
})

-- The invariant after a built-in command, whatever becomes of it.
abbrev pub Fine : Builtin → Type 0
Fine (handled sh) = IsSound sh
Fine (failed sh) = IsSound sh
Fine not_builtin = Unit {0}
Fine exits = Unit {0}
Fine crashes = Unit {0}

pub elsewhere :
    (sh r : Shell)
    → IsSound sh
    → r.jobs ≡ sh.jobs
    → r.n_jobs ≡ sh.n_jobs
    → r.next_address ≡ sh.next_address
    → IsSound r
elsewhere sh r v a b c = record {
  distinct = rw a (v.distinct);
  below = rw (a, c) (v.below);
  settled = rw a (v.settled);
  numbered = rw (a, b) (v.numbered);
  counts = rw b (v.counts);
}

after_chdir-Fine :
    (sh : Shell) (o : Option (List ℕ)) (after : Shell → Shell)
    → IsSound sh
    → ((r : Shell) → IsSound r → IsSound (after r))
    → Fine (elim o [ none ↦ failed sh | some dir ↦ handled (after (record sh { cwd = dir })) ])
after_chdir-Fine sh none after v f = v
after_chdir-Fine sh (some dir) after v f =
    f (record sh { cwd = dir }) (elsewhere sh (record sh { cwd = dir }) v refl refl refl)

if-Fine : (b : Bool) (x y : Builtin) → Fine x → Fine y → Fine (if b then x else y)
if-Fine true x y p q = p
if-Fine false x y p q = q

cd-Fine : (s : System) (sh : Shell) (args : List (List ℕ)) → IsSound sh → Fine (cd s sh args)
unfolding cd
cd-Fine s sh [] v =
    after_chdir-Fine sh (s.chdir sh.cwd s.home) (λ r. record r { prev_path = r.curr_path }) v
      (λ r u. elsewhere r (record r { prev_path = r.curr_path }) u refl refl refl)
cd-Fine s sh (a ∷ []) v = if-Fine (text_eq a (b'-' ∷ [])) _ _ v (
    after_chdir-Fine sh (s.chdir sh.cwd a) (λ r. record r { curr_path = r.cwd }) v
      (λ r u. elsewhere r (record r { curr_path = r.cwd }) u refl refl refl))
cd-Fine s sh (a ∷ b ∷ r) v = v

continued-Fine :
    (w : World) (sh : Shell) (background : Bool) (j : Job) (o : Option Exec)
    → IsSound sh
    → Has j sh.jobs
    → exec_job2 w sh.n_jobs (record j { is_background = background }) ≡ o
    → Fine (elim o [
      | none ↦ crashes
      | some e ↦ handled (record sh { jobs = store_job e.job sh.jobs; n_jobs = e.n_jobs })
    ])
continued-Fine w sh background j none v h run = tt
continued-Fine w sh background j (some e) v h run =
    let again = record j { is_background = background } in
    let kept : Kept sh.n_jobs j e.n_jobs e.job = exec_job2-Kept w sh.n_jobs again run in
    let started = not_pending e.job.status (exec_job2-ne-pending w sh.n_jobs again run) in
    Renumbered-IsSound sh (store_job e.job sh.jobs) e.n_jobs v
      (store_job-Renumbered sh.n_jobs e.n_jobs sh.jobs j e.job v.distinct h kept)
      (store_job-NonePending sh.jobs e.job v.settled started)

continue_job-Fine :
    (s : System) (sh : Shell) (background : Bool) (j : Job)
    → IsSound sh
    → Has j sh.jobs
    → Fine (continue_job s sh background j)
unfolding continue_job
continue_job-Fine s sh background j v h =
    continued-Fine (s.world j.address) sh background j _ v h refl

-- `bg` and `fg` with the job that currentJob chooses, and with the one of a number.
current-Fine :
    (s : System) (sh : Shell) (background : Bool) (o : Option Job)
    → IsSound sh
    → current_job sh.jobs ≡ o
    → Fine (elim o [
      | none ↦ crashes
      | some j ↦
          if may_continue background j.status then continue_job s sh background j else failed sh
    ])
current-Fine s sh background none v h = tt
current-Fine s sh background (some j) v h =
    if-Fine (may_continue background j.status) _ _
      (continue_job-Fine s sh background j v (Has-current sh.jobs h)) v

named-Fine :
    (s : System) (sh : Shell) (background : Bool) (id : ℕ) (o : Option Job)
    → IsSound sh
    → find_job_by_job_id sh.jobs id ≡ o
    → Fine (elim o [ none ↦ failed sh | some j ↦ continue_job s sh background j ])
named-Fine s sh background id none v h = v
named-Fine s sh background id (some j) v h =
    continue_job-Fine s sh background j v (Has-find sh.jobs id h)

bg_fg-Fine :
    (s : System) (sh : Shell) (background : Bool) (args : List (List ℕ))
    → IsSound sh
    → Fine (bg_fg s sh background args)
unfolding bg_fg
bg_fg-Fine s sh background [] v = current-Fine s sh background (current_job sh.jobs) v refl
bg_fg-Fine s sh background ([] ∷ r) v = v
bg_fg-Fine s sh background ((c ∷ number) ∷ r) v =
    if-Fine (c == b'%') _ _
      (named-Fine s sh background (s.atoi number) (find_job_by_job_id sh.jobs (s.atoi number)) v
        refl)
      v

pub in_built_commands-Fine :
    (s : System) (sh : Shell) (name : List ℕ) (args : List (List ℕ))
    → IsSound sh
    → Fine (in_built_commands s sh name args)
unfolding in_built_commands
in_built_commands-Fine s sh name args v =
    if-Fine (text_eq name (b'c' ∷ b'd' ∷ [])) _ _ (cd-Fine s sh args v) (
      if-Fine (text_eq name (b'j' ∷ b'o' ∷ b'b' ∷ b's' ∷ [])) _ _ v (
        if-Fine (text_eq name (b'e' ∷ b'x' ∷ b'i' ∷ b't' ∷ [])) _ _ tt (
          if-Fine (text_eq name (b'b' ∷ b'g' ∷ [])) _ _ (bg_fg-Fine s sh true args v)
            (if-Fine (text_eq name (b'f' ∷ b'g' ∷ [])) _ _ (bg_fg-Fine s sh false args v) tt))))
