-- ===== src/Shell/Exec/Split.antt =====
-- addJobs cuts a line at each `&`.
use kenrel_learning.Common.{text_eq, ℕ, suc, ◌≡◌, refl, ap, ◌∙◌, true, false, List, [], ◌∷◌, ◌++◌}
use mathlib.Core.List.{append_assoc, append-nil}
use kenrel_learning.Shell.Job.{Job}
use kenrel_learning.Shell.Exec.{amp_token, new_job, add_jobs}

-- Tokens none of which is `&`.
abbrev pub NoAmp : List (List ℕ) → Type 0
NoAmp [] = Unit
NoAmp (t ∷ ts) = (text_eq amp_token t ≡ false) × NoAmp ts

abbrev pub AllNoAmp : List (List (List ℕ)) → Type 0
AllNoAmp [] = Unit
AllNoAmp (c ∷ cs) = NoAmp c × AllNoAmp cs

-- A line: commands that are followed by `&`, and the tokens after the last one.
pub line_of : List (List (List ℕ)) → List (List ℕ) → List (List ℕ)
line_of [] end = end
line_of (c ∷ cs) end = c ++ (amp_token ∷ line_of cs end)

-- Their jobs: the commands in the background, and the rest in the foreground if it is not empty.
pub jobs_of : ℕ → List (List (List ℕ)) → List (List ℕ) → List Job
jobs_of a [] [] = []
jobs_of a [] (t ∷ ts) = new_job a (t ∷ ts) false ∷ []
jobs_of a (c ∷ cs) end = new_job a c true ∷ jobs_of (suc a) cs end

add_jobs-end :
    (a : ℕ) (cur end : List (List ℕ)) (t : List ℕ)
    → NoAmp (t ∷ end)
    → add_jobs a cur (t ∷ end) ≡ new_job a (cur ++ t ∷ end) false ∷ []
unfolding add_jobs
add_jobs-end a cur [] t n = rw (n.0) refl
add_jobs-end a cur (u ∷ r) t n = rw (n.0) (
    add_jobs-end a (cur ++ t ∷ []) r u n.1
    ∙ ap (λ (x : List (List ℕ)). new_job a x false ∷ []) (append_assoc cur (t ∷ []) (u ∷ r)))

add_jobs-amp :
    (a : ℕ) (cur c rest : List (List ℕ))
    → NoAmp c
    → add_jobs a cur (c ++ (amp_token ∷ rest))
      ≡ new_job a (cur ++ c) true ∷ add_jobs (suc a) [] rest
unfolding add_jobs
add_jobs-amp a cur [] [] n = rw append-nil refl
add_jobs-amp a cur [] (u ∷ r) n = rw append-nil refl
add_jobs-amp a cur (t ∷ []) rest n =
    rw (n.0) (add_jobs-amp a (cur ++ t ∷ []) [] rest tt ∙ rw append-nil refl)
add_jobs-amp a cur (t ∷ u ∷ r) rest n =
    rw (n.0) (add_jobs-amp a (cur ++ t ∷ []) (u ∷ r) rest n.1 ∙ rw append_assoc refl)

-- For any commands and any rest without `&`, addJobs makes one background job of each command that
-- is followed by `&`, in order, and one foreground job of what follows the last `&`, if anything.
pub add_jobs-line_of :
    (a : ℕ) (cs : List (List (List ℕ))) (end : List (List ℕ))
    → AllNoAmp cs
    → NoAmp end
    → add_jobs a [] (line_of cs end) ≡ jobs_of a cs end
unfolding line_of jobs_of
add_jobs-line_of a [] [] v n = unfold add_jobs in refl
add_jobs-line_of a [] (t ∷ end) v n = add_jobs-end a [] end t n
add_jobs-line_of a (c ∷ cs) end v n =
    add_jobs-amp a [] c (line_of cs end) v.0
    ∙ ap (λ (x : List Job). new_job a c true ∷ x) (add_jobs-line_of (suc a) cs end v.1 n)
