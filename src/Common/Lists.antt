-- ===== src/Common/Lists.antt =====
-- Lists measured and indexed by native numbers, under the library's names.
use Prim.Native.Nat.{ℕ, zero, suc, ◌+◌, ◌<◌}
use mathlib.Core.Path.{◌≡◌, refl}
use mathlib.Core.Bool.{Bool, true, false, ◌&&◌}
use mathlib.Core.List.{List, [], ◌∷◌, ◌++◌}
use mathlib.Core.Option.{Option, none, some}
use native.Mathlib.Omega.{arith}
use kenrel_learning.Common.Tests.{◌==◌, if◌then◌else◌}

module _ {ℓ} {A : Type ℓ} where
  abbrev pub length : List A → ℕ
  length [] = 0
  length (x ∷ xs) = suc (length xs)

  abbrev pub get_elem? : List A → ℕ → Option A
  get_elem? [] i = none
  get_elem? (x ∷ xs) zero = some x
  get_elem? (x ∷ xs) (suc i) = get_elem? xs i

  abbrev pub get_or : List A → ℕ → A → A
  get_or [] i d = d
  get_or (x ∷ xs) zero d = x
  get_or (x ∷ xs) (suc i) d = get_or xs i d

  abbrev pub replicate : ℕ → A → List A
  replicate zero a = []
  replicate (suc n) a = a ∷ replicate n a

  pub length-append : (xs ys : List A) → length (xs ++ ys) ≡ length xs + length ys
  length-append [] ys = omega arith
  length-append (x ∷ xs) ys = omega (arith, length-append xs ys)

-- How often a number stands in a list, and the list without it.
unfoldable pub count : ℕ → List ℕ → ℕ
count a [] = 0
count a (x ∷ xs) = if x == a then suc (count a xs) else count a xs

unfoldable pub remove : ℕ → List ℕ → List ℕ
remove a [] = []
remove a (x ∷ xs) = if x == a then remove a xs else x ∷ remove a xs

pub count-append :
    (x : ℕ) (front back : List ℕ) → count x (front ++ back) ≡ count x front + count x back
unfolding count
count-append x [] back = ground arith
count-append x (y ∷ front) back = ground (arith, count-append x front back)

pub count-single : (a x : ℕ) → count a (x ∷ []) ≡ (if x == a then 1 else 0)
unfolding count
count-single a x = ground arith

pub count-remove :
    (a b : ℕ) (xs : List ℕ) → count a (remove b xs) ≡ (if b == a then 0 else count a xs)
unfolding count remove
count-remove a b [] = ground arith
count-remove a b (x ∷ xs) = ground (arith, count-remove a b xs)

pub remove-absent : (a : ℕ) (xs : List ℕ) → count a xs ≡ 0 → remove a xs ≡ xs
unfolding count remove
remove-absent a [] h = refl
remove-absent a (x ∷ xs) h = ground (arith, remove-absent a xs)

-- A test that passes at 0, …, n - 1.
unfoldable pub holds_to : (ℕ → Bool) → ℕ → Bool
holds_to test zero = true
holds_to test (suc n) = holds_to test n && test n

pub holds_to-lt : (test : ℕ → Bool) (i n : ℕ) → i < n → holds_to test n ≡ true → test i ≡ true
unfolding holds_to
holds_to-lt test i zero below all = absurd (omega arith)
holds_to-lt test i (suc n) below all = ground (arith, holds_to-lt test i n)

pub count-nil : (a : ℕ) → count a [] ≡ 0
unfolding count
count-nil a = refl

module _ {ℓ} {A : Type ℓ} where
  abbrev pub take : ℕ → List A → List A
  take zero xs = []
  take (suc n) [] = []
  take (suc n) (x ∷ xs) = x ∷ take n xs

  abbrev pub drop : ℕ → List A → List A
  drop zero xs = xs
  drop (suc n) [] = []
  drop (suc n) (x ∷ xs) = drop n xs

  pub drop-append : (xs ys : List A) → drop (length xs) (xs ++ ys) ≡ ys
  drop-append [] ys = refl
  drop-append (x ∷ xs) ys = drop-append xs ys

-- strcmp(a, b) == 0
abbrev pub text_eq : List ℕ → List ℕ → Bool
text_eq [] [] = true
text_eq [] (d ∷ s) = false
text_eq (c ∷ r) [] = false
text_eq (c ∷ r) (d ∷ s) = c == d && text_eq r s
