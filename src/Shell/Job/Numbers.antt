-- ===== src/Shell/Job/Numbers.antt =====
-- The numbers of the jobs of a list: their addresses and the job numbers that `%n` names.
use kenrel_learning.Common.{
  ℕ, suc, ◌≤◌, ◌<◌, ◌≡◌, ◌≢◌, ◌⊎◌, inl, inr, refl, ◌==◌, false, some, List, [], ◌∷◌, ◌++◌, arith,
  Bool-cases, Option-cases,
}
use mathlib.Core.List.{reverse, reverse-cons}
use kenrel_learning.Shell.Job.{
  Job, is_pending, is_hiatus, find_job_by_job_id, first_hiatus, current_job, head_job,
}
use kenrel_learning.Shell.Job.Clean.{Fresh, AreDistinct}

abbrev pub Has : Job → List Job → Type 0
Has j [] = ⊥
Has j (k ∷ ks) = (k ≡ j) ⊎ Has j ks

abbrev pub AllBelow : ℕ → List Job → Type 0
AllBelow a [] = Unit
AllBelow a (j ∷ js) = (j.address < a) × AllBelow a js

abbrev pub NonePending : List Job → Type 0
NonePending [] = Unit
NonePending (j ∷ js) = (is_pending j.status ≡ false) × NonePending js

-- No job of the list has the number `i`, unless that is 0, which stands for none.
abbrev pub NotNumbered : ℕ → List Job → Type 0
NotNumbered i [] = Unit
NotNumbered i (j ∷ js) = ((i ≡ 0) ⊎ (j.job_id ≢ i)) × NotNumbered i js

-- The numbers are below `n`, and no two jobs have one, 0 excepted.
abbrev pub AreNumbered : ℕ → List Job → Type 0
AreNumbered n [] = Unit
AreNumbered n (j ∷ js) = (j.job_id < n) × NotNumbered j.job_id js × AreNumbered n js

-- A change of one job that may give it the next number `n`, which then counts up to `n'`.
abbrev pub Kept : ℕ → Job → ℕ → Job → Type 0
Kept n j n' j' =
    (j'.address ≡ j.address)
    × (((j'.job_id ≡ j.job_id) × (n' ≡ n)) ⊎ ((j'.job_id ≡ n) × (n' ≡ suc n)))

-- Such changes of the jobs of a list, first to last.
pub data Renumbered : ℕ → List Job → ℕ → List Job → Type 0 where
  end : {n n' : ℕ} → n' ≡ n → Renumbered n [] n' []
  next :
      {n m n' : ℕ} {j j' : Job} {js js' : List Job}
      → Kept n j m j'
      → Renumbered m js n' js'
      → Renumbered n (j ∷ js) n' (j' ∷ js')

pub Renumbered-refl : (n : ℕ) (js : List Job) → Renumbered n js n js
Renumbered-refl n [] = end refl
Renumbered-refl n (j ∷ js) = next (refl, inl (refl, refl)) (Renumbered-refl n js)

Renumbered-le : {n n' : ℕ} {js js' : List Job} → Renumbered n js n' js' → n ≤ n'
Renumbered-le (end e) = omega arith
Renumbered-le (next (a, inl (b, c)) r) = omega (arith, Renumbered-le r)
Renumbered-le (next (a, inr (b, c)) r) = omega (arith, Renumbered-le r)

-- A number that was given out before is not given out again.
Renumbered-NotNumbered :
    (i : ℕ) {n n' : ℕ} {js js' : List Job}
    → Renumbered n js n' js'
    → i < n
    → NotNumbered i js
    → NotNumbered i js'
Renumbered-NotNumbered i (end e) b f = tt
Renumbered-NotNumbered i (next (a, inl (c, d)) r) b (f, fs) =
    (rw c f, Renumbered-NotNumbered i r (omega arith) fs)
Renumbered-NotNumbered i (next (a, inr (c, d)) r) b (f, fs) =
    (inr (λ e. omega arith), Renumbered-NotNumbered i r (omega arith) fs)

-- A number that is given out now was given to no job of the list.
AreNumbered-NotNumbered : (i n : ℕ) (js : List Job) → n ≤ i → AreNumbered n js → NotNumbered i js
AreNumbered-NotNumbered i n [] h a = tt
AreNumbered-NotNumbered i n (j ∷ js) h (b, c, d) =
    (inr (λ e. omega arith), AreNumbered-NotNumbered i n js h d)

AreNumbered-le : (n m : ℕ) (js : List Job) → n ≤ m → AreNumbered n js → AreNumbered m js
AreNumbered-le n m [] h a = tt
AreNumbered-le n m (j ∷ js) h (b, c, d) = (omega arith, c, AreNumbered-le n m js h d)

new-NotNumbered :
    (n : ℕ) {m n' : ℕ} {js js' : List Job}
    → Renumbered m js n' js'
    → n < m
    → AreNumbered n js
    → NotNumbered n js'
new-NotNumbered n {m} {n'} {js} r h a =
    Renumbered-NotNumbered n r h (AreNumbered-NotNumbered n n js (omega arith) a)

pub Renumbered-AreNumbered :
    {n n' : ℕ} {js js' : List Job} → Renumbered n js n' js' → AreNumbered n js → AreNumbered n' js'
Renumbered-AreNumbered (end e) a = tt
Renumbered-AreNumbered (next (x, inl (y, z)) r) (b, c, d) =
    let le = Renumbered-le r in
    (
      omega arith,
      rw y (Renumbered-NotNumbered _ r (omega arith) c),
      Renumbered-AreNumbered r (AreNumbered-le _ _ _ (omega arith) d),
    )
Renumbered-AreNumbered (next (x, inr (y, z)) r) (b, c, d) =
    let le = Renumbered-le r in
    (
      omega arith,
      rw y (new-NotNumbered _ r (omega arith) d),
      Renumbered-AreNumbered r (AreNumbered-le _ _ _ (omega arith) d),
    )

Renumbered-Fresh :
    (a : ℕ) {n n' : ℕ} {js js' : List Job} → Renumbered n js n' js' → Fresh a js → Fresh a js'
Renumbered-Fresh a (end e) f = tt
Renumbered-Fresh a (next (x, y) r) (f, fs) = (rw x f, Renumbered-Fresh a r fs)

pub Renumbered-AreDistinct :
    {n n' : ℕ} {js js' : List Job} → Renumbered n js n' js' → AreDistinct js → AreDistinct js'
Renumbered-AreDistinct (end e) d = tt
Renumbered-AreDistinct (next (x, y) r) (d, ds) =
    (rw x (Renumbered-Fresh _ r d), Renumbered-AreDistinct r ds)

pub Renumbered-AllBelow :
    (a : ℕ) {n n' : ℕ} {js js' : List Job} → Renumbered n js n' js' → AllBelow a js → AllBelow a js'
Renumbered-AllBelow a (end e) d = tt
Renumbered-AllBelow a (next (x, y) r) (d, ds) = (omega arith, Renumbered-AllBelow a r ds)

pub Renumbered-pos : {n n' : ℕ} {js js' : List Job} → 0 < n → Renumbered n js n' js' → 0 < n'
Renumbered-pos h r = omega (arith, Renumbered-le r)

NotNumbered-Has :
    (i : ℕ) (js : List Job) (j : Job) → NotNumbered i js → Has j js → (i ≡ 0) ⊎ (j.job_id ≢ i)
NotNumbered-Has i [] j f h = absurd h
NotNumbered-Has i (k ∷ ks) j (f, fs) (inl e) = rw⁻¹ e f
NotNumbered-Has i (k ∷ ks) j (f, fs) (inr h) = NotNumbered-Has i ks j fs h

-- The number of a job names it, and no other.
pub find_job_by_job_id-Has :
    (n : ℕ) (js : List Job) (j : Job)
    → AreNumbered n js
    → Has j js
    → j.job_id ≢ 0
    → find_job_by_job_id js j.job_id ≡ some j
unfolding find_job_by_job_id
find_job_by_job_id-Has n [] j a h z = absurd h
find_job_by_job_id-Has n (k ∷ ks) j (b, c, d) (inl e) z = rw e (ground arith)
find_job_by_job_id-Has n (k ∷ ks) j (b, c, d) (inr h) z =
    let other = NotNumbered-Has k.job_id ks j c h in
    let rest = find_job_by_job_id-Has n ks j d h z in ground (arith, other, rest)

-- Of an element that is put in the place of the job at its address.
pub Has-find : (js : List Job) (id : ℕ) {j : Job} → find_job_by_job_id js id ≡ some j → Has j js
unfolding find_job_by_job_id
Has-find [] id h = ground arith
Has-find (k ∷ ks) id h = elim (Bool-cases (k.job_id == id)) [
  | inl e ↦ inl (ground arith)
  | inr e ↦ inr (Has-find ks id (rw e at h))
]

Has-append : (j : Job) (xs ys : List Job) → Has j xs → Has j (xs ++ ys)
Has-append j [] ys h = absurd h
Has-append j (x ∷ xs) ys (inl e) = inl e
Has-append j (x ∷ xs) ys (inr h) = inr (Has-append j xs ys h)

Has-snoc : (j k : Job) (xs : List Job) → Has j (xs ++ k ∷ []) → (k ≡ j) ⊎ Has j xs
Has-snoc j k [] (inl e) = inl e
Has-snoc j k [] (inr h) = absurd h
Has-snoc j k (x ∷ xs) (inl e) = inr (inl e)
Has-snoc j k (x ∷ xs) (inr h) = elim (Has-snoc j k xs h) [ inl e ↦ inl e | inr g ↦ inr (inr g) ]

Has-reverse : (j : Job) (js : List Job) → Has j (reverse js) → Has j js
Has-reverse j [] h = absurd h
Has-reverse j (k ∷ ks) h = elim (Has-snoc j k (reverse ks) (rw (reverse-cons k ks) at h)) [
  | inl e ↦ inl e
  | inr g ↦ inr (Has-reverse j ks g)
]

Has-hiatus : (js : List Job) {j : Job} → first_hiatus js ≡ some j → Has j js
unfolding first_hiatus
Has-hiatus [] h = ground arith
Has-hiatus (k ∷ ks) h = elim (Bool-cases (is_hiatus k.status)) [
  | inl e ↦ inl (ground arith)
  | inr e ↦ inr (Has-hiatus ks (rw e at h))
]

Has-head : (js : List Job) {j : Job} → head_job js ≡ some j → Has j js
Has-head [] h = ground arith
Has-head (k ∷ ks) h = inl (ground arith)

pub Has-current : (js : List Job) {j : Job} → current_job js ≡ some j → Has j js
unfolding current_job
Has-current js {j} h = Has-reverse j js (elim (Option-cases (first_hiatus (reverse js))) [
  | inl e ↦ Has-head (reverse js) (ground arith)
  | inr (k, e) ↦ Has-hiatus (reverse js) (ground arith)
])
