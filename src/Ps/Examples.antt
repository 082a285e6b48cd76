-- ===== src/Ps/Examples.antt =====
-- The listing of three processes, sorted by insertion.
use mathlib.Core.List.{Perm}
use mathlib.Core.List.Perm
use kenrel_learning.Common.{
  ℕ, ◌⊎◌, inl, inr, ◌==◌, ltb_ℤ, ℤ, pos, none, List, [], ◌∷◌, arith, if◌then◌else◌, Bool-cases,
}
use kenrel_learning.Ps.{ProcessInfo, Proc, Sort, sort_by_vmet, print_process}
use kenrel_learning.Common.{map, count, replicate, length, some, ◌≡◌, ◌≢◌, refl}
use kenrel_learning.Ps.Things.{
  ProcFiles, cut, get_uid, uid_line, after_digits, skip_spaces, word, get_things, number_from,
}
use kenrel_learning.Ps.Things.Cut.{join, cut-exact}
use kenrel_learning.Ps.Order.{
  All, AreOrdered, Le, IsQsort, Precedes, IsSmall, asked_for, filter, print_process-AreOrdered,
}

abbrev Cmp : Type 0
Cmp = ProcessInfo → ProcessInfo → ℤ

insert : Cmp → ProcessInfo → List ProcessInfo → List ProcessInfo
insert cmp x [] = x ∷ []
insert cmp x (y ∷ ys) = if ltb_ℤ (pos 0) (cmp x y) then y ∷ insert cmp x ys else x ∷ y ∷ ys

insertion : Sort
insertion cmp [] = []
insertion cmp (x ∷ xs) = insert cmp x (insertion cmp xs)

insert-perm :
    (cmp : Cmp) (x : ProcessInfo) (xs : List ProcessInfo) → Perm (insert cmp x xs) (x ∷ xs)
unfolding insert
insert-perm cmp x [] = Perm.refl (x ∷ [])
insert-perm cmp x (y ∷ ys) = elim (Bool-cases (ltb_ℤ (pos 0) (cmp x y))) [
  | inl h ↦ rw h (Perm.trans (Perm.cons y (insert-perm cmp x ys)) (Perm.swap x y ys))
  | inr h ↦ rw h (Perm.refl (x ∷ y ∷ ys))
]

insertion-perm : (cmp : Cmp) (xs : List ProcessInfo) → Perm (insertion cmp xs) xs
unfolding insertion
insertion-perm cmp [] = Perm.refl []
insertion-perm cmp (x ∷ xs) =
    Perm.trans (insert-perm cmp x (insertion cmp xs)) (Perm.cons x (insertion-perm cmp xs))

insert-All :
    (Q : ProcessInfo → Type 0) (cmp : Cmp) (x : ProcessInfo) (xs : List ProcessInfo)
    → Q x
    → All Q xs
    → All Q (insert cmp x xs)
unfolding insert
insert-All Q cmp x [] q a = (q, tt)
insert-All Q cmp x (y ∷ ys) q (a, b) = elim (Bool-cases (ltb_ℤ (pos 0) (cmp x y))) [
  | inl h ↦ rw h (a, insert-All Q cmp x ys q b)
  | inr h ↦ rw h (q, (a, b))
]

insertion-All :
    (Q : ProcessInfo → Type 0) (cmp : Cmp) (xs : List ProcessInfo)
    → All Q xs
    → All Q (insertion cmp xs)
unfolding insertion
insertion-All Q cmp [] a = tt
insertion-All Q cmp (x ∷ xs) (a, b) =
    insert-All Q cmp x (insertion cmp xs) a (insertion-All Q cmp xs b)

module _ (cmp : Cmp) (P : ProcessInfo → Type 0)
    (total : (x y : ProcessInfo) → P x → P y → Le cmp x y ⊎ Le cmp y x)
    (le_trans : (x y z : ProcessInfo)
      → P x
      → P y
      → P z
      → Le cmp x y
      → Le cmp y z
      → Le cmp x z) where
  below-All :
      (x y : ProcessInfo) (ys : List ProcessInfo)
      → P x
      → P y
      → All P ys
      → Le cmp x y
      → All (Le cmp y) ys
      → All (Le cmp x) ys
  below-All x y [] p q ps h a = tt
  below-All x y (z ∷ zs) p q (r, ps) h (a, b) =
      (le_trans x y z p q r h a, below-All x y zs p q ps h b)

  insert-AreOrdered :
      (x : ProcessInfo) (xs : List ProcessInfo)
      → P x
      → All P xs
      → AreOrdered (Le cmp) xs
      → AreOrdered (Le cmp) (insert cmp x xs)
  unfolding insert
  insert-AreOrdered x [] p ps o = (tt, tt)
  insert-AreOrdered x (y ∷ ys) p (q, ps) (a, o) = elim (Bool-cases (ltb_ℤ (pos 0) (cmp x y))) [
    | inl h ↦
        let y_first : Le cmp y x = elim (total x y p q) [
          | inl e ↦ absurd (ground arith)
          | inr e ↦ e
        ] in
        rw h (insert-All (Le cmp y) cmp x ys y_first a, insert-AreOrdered x ys p ps o)
    | inr h ↦
        let x_first : Le cmp x y = ground arith in
        rw h ((x_first, below-All x y ys p q ps x_first a), (a, o))
  ]

  insertion-AreOrdered : (xs : List ProcessInfo) → All P xs → AreOrdered (Le cmp) (insertion cmp xs)
  unfolding insertion
  insertion-AreOrdered [] ps = tt
  insertion-AreOrdered (x ∷ xs) (p, ps) =
      insert-AreOrdered x (insertion cmp xs) p (insertion-All P cmp xs ps)
        (insertion-AreOrdered xs ps)

insertion-IsQsort : IsQsort insertion
insertion-IsQsort = record {
  perm = insertion-perm;
  ordered = λ cmp P xs t r a. insertion-AreOrdered cmp P t r xs a;
}

-- Processes 1, 2 and 7, with memory by their numbers; 0 is an entry that is no process.
abbrev few : Proc
few = record {
  entries = 1 ∷ 0 ∷ 7 ∷ 2 ∷ [];
  get_things = λ pid. record {
    pid = pid;
    username = b'a' ∷ [];
    totalcputime = 0;
    virtualmemory = if pid == 7 then 4096 else 512;
    commands = [];
  };
}

few-IsSmall : (pid : ℕ) → IsSmall (few.get_things pid)
few-IsSmall pid = (ground arith, ground arith)

listing_example :
    AreOrdered (Precedes sort_by_vmet) (print_process insertion few sort_by_vmet none)
    × Perm
        (print_process insertion few sort_by_vmet none)
        (map few.get_things (filter (asked_for few none) few.entries))
listing_example =
    print_process-AreOrdered insertion few sort_by_vmet none insertion-IsQsort few-IsSmall

-- A buffer of 51 blanks, and a line whose fields are 7 and then 4 throughout.
cut_example :
    ((count b' ' (replicate 51 b' ') ≡ 51)
      × ((tokns : List (List ℕ)) × (cut 1 (replicate 51 b' ') ≡ some tokns) × (length tokns ≡ 52)))
    ⊎ ((count b' ' (replicate 51 b' ') ≢ 51) × (cut 1 (replicate 51 b' ') ≡ none))
cut_example = cut-exact (replicate 51 b' ')

abbrev fours : List (List ℕ)
fours = replicate 51 (b'4' ∷ [])

-- `Name:`, and the real and the effective user, 5 and 6.
abbrev status_lines : List (List ℕ)
status_lines =
    (b'N' ∷ b'a' ∷ b'm' ∷ b'e' ∷ b':' ∷ 9 ∷ b'x' ∷ 10 ∷ [])
    ∷ (b'U' ∷ b'i' ∷ b'd' ∷ b':' ∷ 9 ∷ b'5' ∷ 9 ∷ b'6' ∷ 10 ∷ [])
    ∷ []

effective : get_uid status_lines 0 ≡ 6
unfolding get_uid uid_line after_digits skip_spaces word number_from
effective = refl

abbrev files : ProcFiles
files = record { stat = join ((b'7' ∷ []) ∷ fours); status = status_lines; comm = b'x' ∷ 10 ∷ [] }
