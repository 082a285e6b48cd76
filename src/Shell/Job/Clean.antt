-- ===== src/Shell/Job/Clean.antt =====
-- cleanJobList removes the finished jobs and no other.
use kenrel_learning.Common.{
  ℕ, ◌≡◌, ◌≢◌, refl, true, ◌&&◌, some, List, [], ◌∷◌, ◌++◌, if◌then◌else◌, arith, Bool-cases, inl,
  inr,
}
use mathlib.Core.List.{append_assoc}
use kenrel_learning.Shell.Job.{Job, is_done, remove_job, clean_walk, drop_prev, clean_job_list}

-- The jobs that are not done, in their order, and the finished background jobs.
unfoldable pub live : List Job → List Job
live [] = []
live (j ∷ js) = if is_done j.status then live js else j ∷ live js

pub reported : List Job → List Job
reported [] = []
reported (j ∷ js) = if is_done j.status && j.is_background then j ∷ reported js else reported js

-- No two jobs have one address.
abbrev pub Fresh : ℕ → List Job → Type 0
Fresh a [] = Unit
Fresh a (j ∷ js) = (j.address ≢ a) × Fresh a js

abbrev pub AreDistinct : List Job → Type 0
AreDistinct [] = Unit
AreDistinct (j ∷ js) = Fresh j.address js × AreDistinct js

module _ (p : Job) (todo : List Job) where
  Fresh-mid : (a : ℕ) (seen : List Job) → Fresh a (seen ++ p ∷ todo) → p.address ≢ a
  Fresh-mid a [] f = f.0
  Fresh-mid a (s ∷ seen) f = Fresh-mid a seen f.1

  Fresh-drop : (a : ℕ) (seen : List Job) → Fresh a (seen ++ p ∷ todo) → Fresh a (seen ++ todo)
  Fresh-drop a [] f = f.1
  Fresh-drop a (s ∷ seen) f = (f.0, Fresh-drop a seen f.1)

  AreDistinct-drop : (seen : List Job) → AreDistinct (seen ++ p ∷ todo) → AreDistinct (seen ++ todo)
  AreDistinct-drop [] d = d.1
  AreDistinct-drop (s ∷ seen) d = (Fresh-drop s.address seen d.0, AreDistinct-drop seen d.1)

  remove_job-mid :
      (seen : List Job)
      → AreDistinct (seen ++ p ∷ todo)
      → remove_job p.address (seen ++ p ∷ todo) ≡ seen ++ todo
  unfolding remove_job
  remove_job-mid [] d = ground arith
  remove_job-mid (s ∷ seen) d =
      ground (arith, Fresh-mid s.address seen d.0, remove_job-mid seen d.1)

  -- What is left of the list when the walk has passed `p`.
  drop_prev-done :
      (seen : List Job)
      → AreDistinct (seen ++ p ∷ todo)
      → is_done p.status ≡ true
      → drop_prev (some p) (seen ++ p ∷ todo) ≡ seen ++ todo
  drop_prev-done seen d h = rw h (remove_job-mid seen d)

-- Kept jobs `seen` before `p`, and the jobs `todo` after it.
walk_lem :
    (todo seen : List Job) (p : Job)
    → AreDistinct (seen ++ p ∷ todo)
    → clean_walk todo (some p) (seen ++ p ∷ todo) ≡ (seen ++ live (p ∷ todo), reported todo)
unfolding clean_walk live reported
walk_lem [] seen p d = elim (Bool-cases (is_done p.status)) [
  | inl h ↦ rw (h, remove_job-mid p [] seen d) refl
  | inr h ↦ rw h refl
]
walk_lem (j ∷ todo) seen p d = elim (Bool-cases (is_done p.status)) [
  | inl h ↦
      let e = walk_lem todo seen j (AreDistinct-drop p (j ∷ todo) seen d) in
      rw (h, remove_job-mid p (j ∷ todo) seen d, e) (ground arith)
  | inr h ↦
      let e = walk_lem todo (seen ++ p ∷ []) j (rw append_assoc d) in
      let e' =
        rw (append_assoc seen (p ∷ []) (j ∷ todo), append_assoc seen (p ∷ []) (live (j ∷ todo))) at
          e in
      rw (h, e') (ground arith)
]

-- jid as it is after the clean-up.
abbrev pub next_id : List Job → ℕ → ℕ
next_id [] n = 1
next_id (j ∷ js) n = n

-- cleanJobList removes exactly the finished jobs and keeps the others in order, prints exactly the
-- finished background jobs, and starts job numbers again at 1 once no job is left.
pub clean_job_list_lem :
    (js : List Job) (n : ℕ)
    → AreDistinct js
    → clean_job_list js n ≡ ((live js, next_id (live js) n), reported js)
unfolding clean_job_list live reported
clean_job_list_lem [] n d = refl
clean_job_list_lem (j ∷ js) n d = let e = walk_lem js [] j d in ground arith
