-- ===== src/Shell/Rounds/Lists.antt =====
-- The invariant of the list of jobs across the operations on lists: a new end, a clean-up, and one job
-- put in the place of another.
use kenrel_learning.Common.{
  ℕ, zero, suc, ◌+◌, ◌≤◌, ◌<◌, ◌≡◌, ◌≢◌, ◌⊎◌, inl, inr, refl, ◌==◌, true, false, List, [], ◌∷◌,
  ◌++◌, arith, length, Bool-cases,
}
use kenrel_learning.Shell.Job.{Job, is_done, is_pending}
use kenrel_learning.Shell.Job.Clean.{Fresh, AreDistinct, live, next_id}
use kenrel_learning.Shell.Job.Numbers.{
  Has, Kept, Renumbered, next, Renumbered-refl, NonePending, AllBelow, AreNumbered, NotNumbered,
}
use kenrel_learning.Shell.Exec.Numbers.{Counted}
use kenrel_learning.Shell.Builtin.{store_job}

-- New jobs at the end.
Fresh-append :
    (a b : ℕ) (js new : List Job) → a < b → Fresh a js → Counted b new → Fresh a (js ++ new)
Fresh-append a b [] [] h f c = tt
Fresh-append a b [] (k ∷ ks) h f (c, d, e) =
    (λ z. omega arith, Fresh-append a (suc b) [] ks (omega arith) tt e)
Fresh-append a b (j ∷ js) new h (f, fs) c = (f, Fresh-append a b js new h fs c)

pub append-AreDistinct :
    (b : ℕ) (js new : List Job)
    → AreDistinct js
    → AllBelow b js
    → Counted b new
    → AreDistinct (js ++ new)
append-AreDistinct b [] [] d h c = tt
append-AreDistinct b [] (k ∷ ks) d h (c, e, f) = (
  rw c (Fresh-append b (suc b) [] ks (omega arith) tt f),
  append-AreDistinct (suc b) [] ks tt tt f,
)
append-AreDistinct b (j ∷ js) new (d, ds) (h, hs) c =
    (Fresh-append j.address b js new h d c, append-AreDistinct b js new ds hs c)

pub append-AllBelow :
    (b m : ℕ) (js new : List Job)
    → AllBelow b js
    → Counted b new
    → b + length new ≤ m
    → AllBelow m (js ++ new)
append-AllBelow b m [] [] h c l = tt
append-AllBelow b m [] (k ∷ ks) h (c, d, e) l =
    (omega arith, append-AllBelow (suc b) m [] ks tt e (omega arith))
append-AllBelow b m (j ∷ js) new (h, hs) c l = (omega arith, append-AllBelow b m js new hs c l)

NotNumbered-append :
    (i b : ℕ) (js new : List Job) → NotNumbered i js → Counted b new → NotNumbered i (js ++ new)
NotNumbered-append i b [] [] f c = tt
NotNumbered-append i b [] (k ∷ ks) f (c, d, e) =
    (zero_or i k.job_id d, NotNumbered-append i (suc b) [] ks tt e)
  where
    zero_or : (i x : ℕ) → x ≡ 0 → (i ≡ 0) ⊎ (x ≢ i)
    zero_or zero x h = inl refl
    zero_or (suc i) x h = inr (λ e. omega arith)
NotNumbered-append i b (j ∷ js) new (f, fs) c = (f, NotNumbered-append i b js new fs c)

pub append-AreNumbered :
    (n b : ℕ) (js new : List Job)
    → 0 < n
    → AreNumbered n js
    → Counted b new
    → AreNumbered n (js ++ new)
append-AreNumbered n b [] [] z a c = tt
append-AreNumbered n b [] (k ∷ ks) z a (c, d, e) = (
  omega arith,
  NotNumbered-append k.job_id (suc b) [] ks tt e,
  append-AreNumbered n (suc b) [] ks z tt e,
)
append-AreNumbered n b (j ∷ js) new z (a, f, a') c =
    (a, NotNumbered-append j.job_id b js new f c, append-AreNumbered n b js new z a' c)

-- The jobs that are not done.
Fresh-live : (a : ℕ) (js : List Job) → Fresh a js → Fresh a (live js)
unfolding live
Fresh-live a [] f = tt
Fresh-live a (j ∷ js) (f, fs) = elim (Bool-cases (is_done j.status)) [
  | inl h ↦ rw h (Fresh-live a js fs)
  | inr h ↦ rw h (f, Fresh-live a js fs)
]

pub live-AreDistinct : (js : List Job) → AreDistinct js → AreDistinct (live js)
unfolding live
live-AreDistinct [] d = tt
live-AreDistinct (j ∷ js) (d, ds) = elim (Bool-cases (is_done j.status)) [
  | inl h ↦ rw h (live-AreDistinct js ds)
  | inr h ↦ rw h (Fresh-live j.address js d, live-AreDistinct js ds)
]

pub live-AllBelow : (a : ℕ) (js : List Job) → AllBelow a js → AllBelow a (live js)
unfolding live
live-AllBelow a [] f = tt
live-AllBelow a (j ∷ js) (f, fs) = elim (Bool-cases (is_done j.status)) [
  | inl h ↦ rw h (live-AllBelow a js fs)
  | inr h ↦ rw h (f, live-AllBelow a js fs)
]

pub live-NonePending : (js : List Job) → NonePending js → NonePending (live js)
unfolding live
live-NonePending [] f = tt
live-NonePending (j ∷ js) (f, fs) = elim (Bool-cases (is_done j.status)) [
  | inl h ↦ rw h (live-NonePending js fs)
  | inr h ↦ rw h (f, live-NonePending js fs)
]

NotNumbered-live : (i : ℕ) (js : List Job) → NotNumbered i js → NotNumbered i (live js)
unfolding live
NotNumbered-live i [] f = tt
NotNumbered-live i (j ∷ js) (f, fs) = elim (Bool-cases (is_done j.status)) [
  | inl h ↦ rw h (NotNumbered-live i js fs)
  | inr h ↦ rw h (f, NotNumbered-live i js fs)
]

live-AreNumbered : (n : ℕ) (js : List Job) → AreNumbered n js → AreNumbered n (live js)
unfolding live
live-AreNumbered n [] a = tt
live-AreNumbered n (j ∷ js) (a, f, a') = elim (Bool-cases (is_done j.status)) [
  | inl h ↦ rw h (live-AreNumbered n js a')
  | inr h ↦ rw h (a, NotNumbered-live j.job_id js f, live-AreNumbered n js a')
]

next_id-AreNumbered : (n : ℕ) (js : List Job) → AreNumbered n js → AreNumbered (next_id js n) js
next_id-AreNumbered n [] a = tt
next_id-AreNumbered n (j ∷ js) a = a

pub cleaned-AreNumbered :
    (n : ℕ) (js : List Job) → AreNumbered n js → AreNumbered (next_id (live js) n) (live js)
cleaned-AreNumbered n js a = next_id-AreNumbered n (live js) (live-AreNumbered n js a)

pub next_id_pos : (n : ℕ) (js : List Job) → 0 < n → 0 < next_id js n
next_id_pos n [] h = omega arith
next_id_pos n (j ∷ js) h = h

pub live-live : (js : List Job) → live (live js) ≡ live js
unfolding live
live-live [] = refl
live-live (j ∷ js) = ground (arith, live-live js)

-- A job of the list in whose place its new state is put.
Fresh-Has : (a : ℕ) (js : List Job) (j : Job) → Fresh a js → Has j js → j.address ≢ a
Fresh-Has a [] j f h = absurd h
Fresh-Has a (k ∷ ks) j (f, fs) (inl e) = rw⁻¹ e f
Fresh-Has a (k ∷ ks) j (f, fs) (inr h) = Fresh-Has a ks j fs h

pub store_job-Renumbered :
    (n n' : ℕ) (js : List Job) (j j' : Job)
    → AreDistinct js
    → Has j js
    → Kept n j n' j'
    → Renumbered n js n' (store_job j' js)
unfolding store_job
store_job-Renumbered n n' [] j j' d h c = absurd h
store_job-Renumbered n n' (k ∷ ks) j j' (d, ds) (inl e) c =
    let c' : Kept n k n' j' = rw e c in
    let hit : (k.address == j'.address) ≡ true = ground (arith, c'.0) in
    rw (hit, store_job) (next c' (Renumbered-refl n' ks))
store_job-Renumbered n n' (k ∷ ks) j j' (d, ds) (inr h) c =
    let apart : (k.address == j'.address) ≡ false = ground (arith, Fresh-Has k.address ks j d h) in
    rw (apart, store_job) (next (refl, inl (refl, refl)) (store_job-Renumbered n n' ks j j' ds h c))

pub store_job-NonePending :
    (js : List Job) (j' : Job)
    → NonePending js
    → is_pending j'.status ≡ false
    → NonePending (store_job j' js)
unfolding store_job
store_job-NonePending [] j' p q = tt
store_job-NonePending (k ∷ ks) j' (p, ps) q = elim (Bool-cases (k.address == j'.address)) [
  | inl h ↦ rw h (q, ps)
  | inr h ↦ rw h (p, store_job-NonePending ks j' ps q)
]
