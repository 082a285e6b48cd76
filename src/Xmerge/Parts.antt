-- ===== src/Xmerge/Parts.antt =====
-- Bytes of which some are left out, as after writes that were cut short.
use native.Mathlib.Decide.{dec_lt}
use kenrel_learning.Xmerge.{Kernel}
use kenrel_learning.Common.{
  pos, ◌∙◌, ℕ, zero, suc, ◌≤◌, ◌<◌, ◌≡◌, ◌⊎◌, inl, inr, refl, ap, List, [], ◌∷◌, ◌++◌, take, length,
  arith,
}

-- The first list has bytes of the second in their order.
pub data Part : List ℕ → List ℕ → Type 0 where
  nothing : Part [] []
  kept : (c : ℕ) (xs ys : List ℕ) → Part xs ys → Part (c ∷ xs) (c ∷ ys)
  lost : (c : ℕ) (xs ys : List ℕ) → Part xs ys → Part xs (c ∷ ys)

pub Part-none : (ys : List ℕ) → Part [] ys
Part-none [] = nothing
Part-none (y ∷ ys) = lost y [] ys (Part-none ys)

pub take-Part : (n : ℕ) (ys : List ℕ) → Part (take n ys) ys
take-Part zero ys = Part-none ys
take-Part (suc n) [] = nothing
take-Part (suc n) (y ∷ ys) = kept y (take n ys) ys (take-Part n ys)

pub append-Part : (xs ys us vs : List ℕ) → Part xs ys → Part us vs → Part (xs ++ us) (ys ++ vs)
append-Part xs ys us vs nothing q = q
append-Part _ _ us vs (kept c xs ys p) q =
    kept c (xs ++ us) (ys ++ vs) (append-Part xs ys us vs p q)
append-Part _ _ us vs (lost c xs ys p) q =
    lost c (xs ++ us) (ys ++ vs) (append-Part xs ys us vs p q)

pub Part-length : (xs ys : List ℕ) → Part xs ys → length xs ≤ length ys
Part-length xs ys nothing = omega arith
Part-length _ _ (kept c xs ys p) = let h = Part-length xs ys p in omega (arith, h)
Part-length _ _ (lost c xs ys p) = let h = Part-length xs ys p in omega (arith, h)

take_all : (n : ℕ) (ys : List ℕ) → length ys ≤ n → take n ys ≡ ys
take_all zero [] h = refl
take_all zero (y ∷ ys) h = absurd (omega (arith, h))
take_all (suc n) [] h = refl
take_all (suc n) (y ∷ ys) h = ap (λ l. y ∷ l) (take_all n ys (omega (arith, h)))

pub length-take : (n : ℕ) (ys : List ℕ) → n ≤ length ys → length (take n ys) ≡ n
length-take zero ys h = refl
length-take (suc n) [] h = omega (arith, h)
length-take (suc n) (y ∷ ys) h = let e = length-take n ys (omega (arith, h)) in omega (arith, e)

module _ (k : Kernel) where
  -- A write to `o` that writes fewer bytes than it was given.
  abbrev pub Short : ℕ → Type 0
  Short o =
      (buf : List ℕ) × (w : k.World) × (n : ℕ) × ((k.ksys_write (pos o) buf w).result ≡ pos n)
      × (n < length buf)

  -- The bytes `out` of `xs` were written to `o`: all of them, if no write was short.
  abbrev pub Wrote : ℕ → List ℕ → List ℕ → Type 0
  Wrote o out xs = Part out xs × ((out ≡ xs) ⊎ Short o)

  pub append-Wrote :
      (o : ℕ) (xs ys us vs : List ℕ) → Wrote o xs ys → Wrote o us vs → Wrote o (xs ++ us) (ys ++ vs)
  append-Wrote o xs ys us vs (p, e) (q, f) = (append-Part xs ys us vs p q, both e f)
    where
      both : (xs ≡ ys) ⊎ Short o → (us ≡ vs) ⊎ Short o → (xs ++ us ≡ ys ++ vs) ⊎ Short o
      both (inl e) (inl f) = inl (ap (λ l. l ++ us) e ∙ ap (λ l. ys ++ l) f)
      both (inr s) g = inr s
      both (inl e) (inr s) = inr s

  pub write-Wrote :
      (o n : ℕ) (buf : List ℕ) (w : k.World)
      → (k.ksys_write (pos o) buf w).result ≡ pos n
      → n ≤ length buf
      → Wrote o (take n buf) buf
  write-Wrote o n buf w h b = (
    take-Part n buf,
    elim (dec_lt n (length buf)) [
      | yes l ↦ inr (buf, w, n, h, l)
      | no l ↦ inl (take_all n buf (omega arith))
    ],
  )
