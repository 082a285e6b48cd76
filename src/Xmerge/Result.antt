-- ===== src/Xmerge/Result.antt =====
-- What xmerge returns and leaves, on files that behave as Files says.
use kenrel_learning.Common.{
  Answer, ℕ, zero, suc, ◌≡◌, ◌==◌, ◌⊎◌, refl, Bool, true, false, List, arith, length, if◌then◌else◌,
}
use kenrel_learning.Xmerge.{Kernel, ssize}
use kenrel_learning.Xmerge.Files.{Descriptors, Contents, IsNegative}
use kenrel_learning.Xmerge.Parts.{Wrote}

open_reopened : (o g : ℕ) (b : Bool) → (g == o) ≡ true → (if g == o then true else b) ≡ true
open_reopened o g b h = ground arith

fresh_positive : (f : ℕ → Bool) (o : ℕ) → f 0 ≡ true → f o ≡ false → (j : ℕ) × (o ≡ suc j)
fresh_positive f zero t h = absurd (ground arith)
fresh_positive f (suc j) t h = (j, refl)

module _ {k : Kernel} {d : Descriptors k} (c : Contents d) where
  -- A call that changes the descriptors as `open'` says, keeps what was written, and returns what
  -- was to be returned or a failure.
  abbrev Closed : (ℕ → Bool) → Answer k.World → Answer k.World → Type 0
  Closed open' a b =
      ((g : ℕ) → d.is_open g b.world ≡ open' g)
      × ((o : ℕ) → c.written o b.world ≡ c.written o a.world)
      × ((b.result ≡ a.result) ⊎ IsNegative b.result)

  -- What finish_loop leaves of a loop that ran to its end or failed.
  abbrev Finished : (ℕ → Bool) → ℕ → List ℕ → Answer k.World → Type 0
  Finished open' o xs a =
      ((g : ℕ) → d.is_open g a.world ≡ open' g)
      × (((a.result ≡ ssize (length (c.written o a.world))) × Wrote k o (c.written o a.world) xs)
          ⊎ IsNegative a.result)
