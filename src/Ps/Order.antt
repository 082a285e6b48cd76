-- ===== src/Ps/Order.antt =====
-- What is listed, and in which order.
use mathlib.Core.List.{Perm, Mem, mem-cons, not-mem-nil, mem-cons_self}
use mathlib.Core.List.Perm
use mathlib.Core.Logic.Or
use native.Mathlib.Bridge.{le_prop}
use kenrel_learning.Common.{
  ℕ, ◌+◌, ◌*◌, ◌/◌, ◌%◌, ◌^◌, ◌≤◌, ◌<◌, ◌≡◌, ◌⊎◌, inl, inr, ◌==◌, ℤ, pos, ◌≤ℤ◌, Bool, true, false,
  not, ◌&&◌, ltb, text_eq, map, none, some, Option, List, [], ◌∷◌, length, arith, refl, subst,
  if◌then◌else◌,
}
use kenrel_learning.Ps.{
  ProcessInfo, signed_difference, sign, cmp_pid, cmp_vm, cmp_cpu, SortFlags, sort_by_pid,
  sort_by_vmet, sort_by_cpu, callback, Proc, count_pids, filtered_out, collect, Sort, print_process,
  clock_of,
}

abbrev pub All : (ProcessInfo → Type 0) → List ProcessInfo → Type 0
All P [] = Unit
All P (x ∷ xs) = P x × All P xs

-- Each element stands in the relation to all that come after it.
abbrev pub AreOrdered : (ProcessInfo → ProcessInfo → Type 0) → List ProcessInfo → Type 0
AreOrdered R [] = Unit
AreOrdered R (x ∷ xs) = All (R x) xs × AreOrdered R xs

abbrev pub Le : (ProcessInfo → ProcessInfo → ℤ) → ProcessInfo → ProcessInfo → Type 0
Le cmp x y = cmp x y ≤ℤ pos 0

-- qsort, as the C standard describes it, for elements on which the comparison is a total order.
pub record IsQsort (qsort : Sort) : Type 1 where
  pub perm : (cmp : ProcessInfo → ProcessInfo → ℤ) (xs : List ProcessInfo) → Perm (qsort cmp xs) xs
  pub ordered :
      (cmp : ProcessInfo → ProcessInfo → ℤ) (P : ProcessInfo → Type 0) (xs : List ProcessInfo)
      → ((x y : ProcessInfo) → P x → P y → Le cmp x y ⊎ Le cmp y x)
      → ((x y z : ProcessInfo) → P x → P y → P z → Le cmp x y → Le cmp y z → Le cmp x z)
      → All P xs
      → AreOrdered (Le cmp) (qsort cmp xs)

-- The key by which the list is to be sorted: the number up, or memory and time down.
abbrev pub Precedes : SortFlags → ProcessInfo → ProcessInfo → Type 0
Precedes sort_by_pid x y = x.pid ≤ y.pid
Precedes sort_by_vmet x y = y.virtualmemory ≤ x.virtualmemory
Precedes sort_by_cpu x y = y.totalcputime ≤ x.totalcputime

-- Numbers that a signed long holds.
abbrev pub IsSmall : ProcessInfo → Type 0
IsSmall p = (p.virtualmemory < 2 ^ 63) × (p.totalcputime < 2 ^ 63)

le_or : (a b : ℕ) → (a ≤ b) ⊎ (b ≤ a)
le_or a b = ground arith

sign_le : (a b : ℕ) → a < 2 ^ 63 → b < 2 ^ 63 → sign (signed_difference b a) ≤ℤ pos 0 → b ≤ a
sign_le a b h g e = ground arith

le_sign : (a b : ℕ) → a < 2 ^ 63 → b < 2 ^ 63 → b ≤ a → sign (signed_difference b a) ≤ℤ pos 0
le_sign a b h g e = ground arith

-- The order that a comparison stands for.
callback-Precedes :
    (flags : SortFlags) (x y : ProcessInfo)
    → IsSmall x
    → IsSmall y
    → Le (callback flags) x y
    → Precedes flags x y
unfolding callback cmp_pid cmp_vm cmp_cpu
callback-Precedes sort_by_pid x y h g e = ground arith
callback-Precedes sort_by_vmet x y h g e = sign_le x.virtualmemory y.virtualmemory h.0 g.0 e
callback-Precedes sort_by_cpu x y h g e = sign_le x.totalcputime y.totalcputime h.1 g.1 e

Precedes-callback :
    (flags : SortFlags) (x y : ProcessInfo)
    → IsSmall x
    → IsSmall y
    → Precedes flags x y
    → Le (callback flags) x y
unfolding callback cmp_pid cmp_vm cmp_cpu
Precedes-callback sort_by_pid x y h g e = ground arith
Precedes-callback sort_by_vmet x y h g e = le_sign x.virtualmemory y.virtualmemory h.0 g.0 e
Precedes-callback sort_by_cpu x y h g e = le_sign x.totalcputime y.totalcputime h.1 g.1 e

Precedes-total : (flags : SortFlags) (x y : ProcessInfo) → Precedes flags x y ⊎ Precedes flags y x
Precedes-total sort_by_pid x y = le_or x.pid y.pid
Precedes-total sort_by_vmet x y = le_or y.virtualmemory x.virtualmemory
Precedes-total sort_by_cpu x y = le_or y.totalcputime x.totalcputime

Precedes-trans :
    (flags : SortFlags) (x y z : ProcessInfo)
    → Precedes flags x y
    → Precedes flags y z
    → Precedes flags x z
Precedes-trans sort_by_pid x y z h g = omega arith
Precedes-trans sort_by_vmet x y z h g = omega arith
Precedes-trans sort_by_cpu x y z h g = omega arith

All-map :
    (P Q : ProcessInfo → Type 0) (xs : List ProcessInfo)
    → ((x : ProcessInfo) → P x → Q x)
    → All P xs
    → All Q xs
All-map P Q [] f a = tt
All-map P Q (x ∷ xs) f (a, as') = (f x a, All-map P Q xs f as')

All-both :
    (P Q : ProcessInfo → Type 0) (xs : List ProcessInfo)
    → All P xs
    → All Q xs
    → All (λ x. P x × Q x) xs
All-both P Q [] a b = tt
All-both P Q (x ∷ xs) (a, as') (b, bs) = ((a, b), All-both P Q xs as' bs)

AreOrdered-map :
    (flags : SortFlags) (xs : List ProcessInfo)
    → All IsSmall xs
    → AreOrdered (Le (callback flags)) xs
    → AreOrdered (Precedes flags) xs
AreOrdered-map flags [] a o = tt
AreOrdered-map flags (x ∷ xs) (a, as') (o, os) = (
  All-map (λ y. IsSmall y × Le (callback flags) x y) (Precedes flags x) xs
      (λ y h. callback-Precedes flags x y a h.0 h.1)
      (All-both IsSmall (Le (callback flags) x) xs as' o),
  AreOrdered-map flags xs as' os,
)

IsSmall-Mem : (x : ProcessInfo) (xs : List ProcessInfo) → All IsSmall xs → Mem x xs → IsSmall x
IsSmall-Mem x [] a m = absurd (not-mem-nil m)
IsSmall-Mem x (y ∷ ys) (a, as') m =
    Or.elim (hlevel le_prop) (mem-cons.0 m) (λ e. rw e a) (IsSmall-Mem x ys as')

All-Mem :
    (xs ys : List ProcessInfo)
    → All IsSmall ys
    → ((x : ProcessInfo) → Mem x xs → Mem x ys)
    → All IsSmall xs
All-Mem [] ys a f = tt
All-Mem (x ∷ xs) ys a f =
    (IsSmall-Mem x ys a (f x mem-cons_self), All-Mem xs ys a (λ z m. f z (mem-cons.1 (Or.inr m))))

collect-All :
    (get_things : ℕ → ProcessInfo) (username : Option (List ℕ)) (entries : List ℕ)
    → ((pid : ℕ) → IsSmall (get_things pid))
    → All IsSmall (collect get_things username entries)
unfolding collect
collect-All g u [] h = tt
collect-All g u (pid ∷ r) h =
    if-All (not (pid == 0)) _ _
      (if-All (filtered_out u (g pid)) _ _ (collect-All g u r h) (h pid, collect-All g u r h))
      (collect-All g u r h)
  where
    if-All :
        (b : Bool) (xs ys : List ProcessInfo)
        → All IsSmall xs
        → All IsSmall ys
        → All IsSmall (if b then xs else ys)
    if-All true xs ys a b = a
    if-All false xs ys a b = b

-- The processes that are asked for: the entries that are numbers, and of these the ones of the user,
-- if one is named.
abbrev pub asked_for : Proc → Option (List ℕ) → ℕ → Bool
asked_for proc none pid = ltb 0 pid
asked_for proc (some username) pid = ltb 0 pid && text_eq username (proc.get_things pid).username

abbrev pub filter : (ℕ → Bool) → List ℕ → List ℕ
filter p [] = []
filter p (x ∷ xs) = if p x then x ∷ filter p xs else filter p xs

collect-asked_for :
    (proc : Proc) (username : Option (List ℕ)) (pids : List ℕ)
    → collect proc.get_things username pids
      ≡ map proc.get_things (filter (asked_for proc username) pids)
unfolding collect
collect-asked_for proc username [] = refl
collect-asked_for proc none (pid ∷ r) = ground (arith, collect-asked_for proc none r)
collect-asked_for proc (some u) (pid ∷ r) = ground (arith, collect-asked_for proc (some u) r)

-- The processes of the directory, or those of the user that is asked for, are all printed and once,
-- those with a smaller number, or with more memory or time, first. Memory and time are below 2^63.
pub print_process-AreOrdered :
    (qsort : Sort) (proc : Proc) (flags : SortFlags) (username : Option (List ℕ))
    → IsQsort qsort
    → ((pid : ℕ) → IsSmall (proc.get_things pid))
    → AreOrdered (Precedes flags) (print_process qsort proc flags username)
      × Perm
          (print_process qsort proc flags username)
          (map proc.get_things (filter (asked_for proc username) proc.entries))
unfolding print_process
print_process-AreOrdered qsort proc flags username q h =
    let cmp = callback flags in
    let xs = collect proc.get_things username proc.entries in
    let p = q.perm cmp xs in
    let small = collect-All proc.get_things username proc.entries h in
    let sorted =
      q.ordered cmp IsSmall xs (λ x y a b. total_le flags x y a b)
        (λ x y z a b c s t. Precedes-callback flags x z a c (
          Precedes-trans flags x y z (callback-Precedes flags x y a b s)
            (callback-Precedes flags y z b c t)))
        small in
    let small' = All-Mem (qsort cmp xs) xs small (λ x m. (Perm.mem_iff p).0 m) in
    (
      AreOrdered-map flags (qsort cmp xs) small' sorted,
      subst (λ l. Perm (qsort cmp xs) l) (collect-asked_for proc username proc.entries) p,
    )
  where
    total_le :
        (flags : SortFlags) (x y : ProcessInfo)
        → IsSmall x
        → IsSmall y
        → Le (callback flags) x y ⊎ Le (callback flags) y x
    total_le flags x y a b = elim (Precedes-total flags x y) [
      | inl h ↦ inl (Precedes-callback flags x y a b h)
      | inr h ↦ inr (Precedes-callback flags y x b a h)
    ]

-- The array has room for the processes that are written to it.
pub collect-fits :
    (get_things : ℕ → ProcessInfo) (username : Option (List ℕ)) (entries : List ℕ)
    → length (collect get_things username entries) ≤ count_pids entries
unfolding collect count_pids
collect-fits g u [] = omega arith
collect-fits g u (pid ∷ r) = ground (arith, collect-fits g u r)

-- The three numbers of a time make it up, and minutes and seconds stay below 60.
pub clock_of_lem :
    (rate ticks : ℕ)
    → ((clock_of rate ticks).0 * 3600 + (clock_of rate ticks).1 * 60 + (clock_of rate ticks).2
        ≡ ticks / rate)
      × ((clock_of rate ticks).1 < 60)
      × ((clock_of rate ticks).2 < 60)
unfolding clock_of
clock_of_lem rate ticks = hms (ticks / rate)
  where
    hms :
        (t : ℕ)
        → (t / 3600 * 3600 + t / 60 % 60 * 60 + t % 60 ≡ t) × (t / 60 % 60 < 60) × (t % 60 < 60)
    hms t = (omega arith, omega arith, omega arith)
