-- ===== src/Shell/Job.antt =====
-- struct Job of assignment3-1/jankersh.c, the list of jobs, and its searches and clean-up.
-- A TAILQ is the list of its elements, first to last; a job is named by its address.
pub mod Clean
pub mod Numbers
use kenrel_learning.Common.{
  ℕ, zero, suc, ◌+◌, ◌==◌, Bool, true, false, not, ◌&&◌, Option, none, some, List, [], ◌∷◌, ◌++◌,
  if◌then◌else◌,
}
use mathlib.Core.List.{reverse}

pub data JobStatus : Type 0 where
  pending running hiatus done : JobStatus

pub record Job : Type 0 where
  pub address : ℕ
  pub is_background : Bool
  pub tokenized : List (List ℕ)
  pub status : JobStatus
  pub group_id : ℕ
  pub n_pipe : ℕ
  pub finish_count : ℕ
  pub job_id : ℕ

abbrev pub is_pending : JobStatus → Bool
is_pending pending = true
is_pending _ = false

abbrev pub is_running : JobStatus → Bool
is_running running = true
is_running _ = false

abbrev pub is_hiatus : JobStatus → Bool
is_hiatus hiatus = true
is_hiatus _ = false

abbrev pub is_done : JobStatus → Bool
is_done done = true
is_done _ = false

unfoldable pub find_job_by_job_id : List Job → ℕ → Option Job
find_job_by_job_id [] id = none
find_job_by_job_id (j ∷ js) id = if j.job_id == id then some j else find_job_by_job_id js id

unfoldable pub find_job_by_grp_id : List Job → ℕ → Option Job
find_job_by_grp_id [] gid = none
find_job_by_grp_id (j ∷ js) gid = if j.group_id == gid then some j else find_job_by_grp_id js gid

-- The body of one TAILQ_FOREACH_REVERSE of currentJob, over the list from its end.
unfoldable pub first_hiatus : List Job → Option Job
first_hiatus [] = none
first_hiatus (j ∷ js) = if is_hiatus j.status then some j else first_hiatus js

abbrev pub head_job : List Job → Option Job
head_job [] = none
head_job (j ∷ js) = some j

abbrev pub or_else : Option Job → Option Job → Option Job
or_else none o = o
or_else (some j) o = some j

unfoldable pub current_job : List Job → Option Job
unfolding first_hiatus
current_job js =
    or_else (first_hiatus (reverse js))
      (or_else (first_hiatus (reverse js)) (head_job (reverse js)))

-- printJobList: the jobs that it prints.
unfoldable pub print_job_list : List Job → List Job
print_job_list [] = []
print_job_list (j ∷ js) =
    if not (is_done j.status) then j ∷ print_job_list js else print_job_list js

-- removeJob: the list without the job at this address.
unfoldable pub remove_job : ℕ → List Job → List Job
remove_job a [] = []
remove_job a (j ∷ js) = if j.address == a then js else j ∷ remove_job a js

-- cleanJobList: the walk keeps `prev`, the job before, and removes it one step late.
abbrev pub drop_prev : Option Job → List Job → List Job
drop_prev none js = js
drop_prev (some p) js = if is_done p.status then remove_job p.address js else js

abbrev pub prints : Job → List Job
prints j = if is_done j.status && j.is_background then j ∷ [] else []

-- `todo` is what is left of the walk, `js` the list; the result is the list and what was printed.
unfoldable pub clean_walk : List Job → Option Job → List Job → List Job × List Job
clean_walk [] prev js = (drop_prev prev js, [])
clean_walk (j ∷ todo) prev js =
    let (js', printed) = clean_walk todo (some j) (drop_prev prev js) in (js', prints j ++ printed)

unfoldable pub clean_job_list : List Job → ℕ → (List Job × ℕ) × List Job
unfolding clean_walk remove_job
clean_job_list js n =
    let (js', printed) = clean_walk js none js in ((js', elim js' [ [] ↦ 1 | j ∷ r ↦ n ]), printed)
