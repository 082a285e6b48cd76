-- ===== src/Ps/Things/Cut.antt =====
-- How getThings cuts the line of stat into fields.
use native.Mathlib.Decide.{ℕ_discrete}
use kenrel_learning.Common.{
  Bool-cases, ℕ, suc, ◌+◌, ◌≤◌, ◌≡◌, ◌≢◌, ◌⊎◌, inl, inr, refl, ap, ◌==◌, ltb, Bool, true, false,
  Option, none, some, List, [], ◌∷◌, ◌++◌, length, count, if◌then◌else◌, arith,
}
use kenrel_learning.Ps.Things.{put_byte, cut}

-- The fields of a line with a blank between each two.
unfoldable pub join : List (List ℕ) → List ℕ
join [] = []
join (f ∷ []) = f
join (f ∷ g ∷ fs) = f ++ b' ' ∷ join (g ∷ fs)

abbrev pub HaveNoBlank : List (List ℕ) → Type 0
HaveNoBlank [] = Unit
HaveNoBlank (f ∷ fs) = (count b' ' f ≡ 0) × HaveNoBlank fs

put_byte-length :
    (b : Bool) (c : ℕ) (o : Option (List (List ℕ))) (n : ℕ)
    → ((tokns : List (List ℕ)) × (o ≡ some tokns) × (length tokns ≡ suc n))
    → (tokns : List (List ℕ)) × (put_byte b c o ≡ some tokns)
      × (length tokns ≡ (if b then suc (suc n) else suc n))
put_byte-length true c o n (ts, e, l) = ([] ∷ ts, ap (put_byte true c) e, ap suc l)
put_byte-length false c o n ([], e, l) = absurd (omega arith)
put_byte-length false c o n (t ∷ ts, e, l) = ((c ∷ t) ∷ ts, ap (put_byte false c) e, l)

-- With 52 tokens at the end of the buffer nothing outside of it is touched.
cut-safe :
    (j : ℕ) (l : List ℕ)
    → j + count b' ' l ≡ 52
    → (tokns : List (List ℕ)) × (cut j l ≡ some tokns) × (length tokns ≡ suc (count b' ' l))
unfolding cut count
cut-safe j [] e = ([] ∷ [], rw (full j e) refl, refl)
  where
    full : (j : ℕ) → j + 0 ≡ 52 → ltb j 52 ≡ false
    full j e = ground arith
cut-safe j (c ∷ r) e = elim (Bool-cases (c == b' ')) [
  | inl h ↦
      let room : ltb j 52 ≡ true = ground arith in
      rw (h, room)
        (put_byte-length true c (cut (suc j) r) (count b' ' r) (cut-safe (suc j) r (ground arith)))
  | inr h ↦ rw h (put_byte-length false c (cut j r) (count b' ' r) (cut-safe j r (ground arith)))
]

cut-unsafe : (j : ℕ) (l : List ℕ) → j ≤ 52 → j + count b' ' l ≢ 52 → cut j l ≡ none
unfolding cut count
cut-unsafe j [] b e = ground (arith, e)
cut-unsafe j (c ∷ r) b e = elim (Bool-cases (c == b' ')) [
  | inl h ↦ elim (Bool-cases (ltb j 52)) [
    | inl g ↦
        let ih = cut-unsafe (suc j) r (ground arith) (λ z. e (ground arith)) in rw (h, g, ih) refl
    | inr g ↦ rw (h, g) refl
  ]
  | inr h ↦ let ih = cut-unsafe j r b (λ z. e (ground arith)) in rw (h, ih) refl
]

-- The loop of getThings stays within its buffer and its array exactly when the buffer, with what lies
-- behind the line, holds 51 blanks.
pub cut-exact :
    (stat : List ℕ)
    → ((count b' ' stat ≡ 51)
        × ((tokns : List (List ℕ)) × (cut 1 stat ≡ some tokns) × (length tokns ≡ 52)))
      ⊎ ((count b' ' stat ≢ 51) × (cut 1 stat ≡ none))
cut-exact stat = elim (ℕ_discrete (count b' ' stat) 51) [
  | yes e ↦
      let (tokns, run, l) = cut-safe 1 stat (omega arith) in inl (e, (tokns, run, omega arith))
  | no ne ↦ inr (ne, cut-unsafe 1 stat (omega arith) (λ z. ne (omega arith)))
]
