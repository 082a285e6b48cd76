-- ===== src/Shell/Lexer/Bounds.antt =====
-- How much tokenize2 writes: copyString has 1024 bytes.
use kenrel_learning.Common.{
  ℕ, zero, suc, ◌+◌, ◌*◌, ◌≤◌, ◌≡◌, ◌==◌, some, List, [], ◌∷◌, ◌++◌, length, length-append, take,
  if◌then◌else◌, arith,
}
use kenrel_learning.Shell.Lexer.{
  Texts, Lexer, Phase, blank, double, single, other, dollar, one, two, operator, next_is, step,
  ampersand, greater, less, bar, loop, fresh, tokenize2,
}

-- Bytes that may still be written.
room : List ℕ → ℕ
room [] = 0
room (c ∷ r) = (if c == b' ' then 1 else 5) + room r

room-le : (s : List ℕ) → room s ≤ 5 * length s
unfolding room
room-le [] = omega arith
room-le (c ∷ r) = ground (arith, room-le r)

length-take-le : (n : ℕ) (s : List ℕ) → length (take n s) ≤ n
length-take-le zero s = omega arith
length-take-le (suc n) [] = omega arith
length-take-le (suc n) (c ∷ r) = omega (arith, length-take-le n r)

length-snoc : (s : List ℕ) (c : ℕ) → length (s ++ c ∷ []) ≡ length s + 1
length-snoc s c = omega (arith, length-append s (c ∷ []))

length-paste : (s : List ℕ) (n : ℕ) (x : List ℕ) → length (s ++ take n x) ≤ length s + n
length-paste s n x = omega (arith, length-append s (take n x), length-take-le n x)

blank-out : (p : Phase) (c : ℕ) (l : Lexer) → length (blank p c l).out ≤ length l.out + 1
unfolding blank
blank-out p c l = ground (arith, length-snoc l.out c, length-snoc l.out 0)

double-out : (p : Phase) (l : Lexer) → length (double p l).out ≤ length l.out + 1
unfolding double
double-out p l = ground (arith, length-snoc l.out b'"')

single-out : (p : Phase) (l : Lexer) → length (single p l).out ≤ length l.out + 1
unfolding single
single-out p l = ground (arith, length-snoc l.out 39)

other-out : (p : Phase) (c : ℕ) (l : Lexer) → length (other p c l).out ≤ length l.out + 1
unfolding other
other-out p c l = ground (arith, length-snoc l.out c)

dollar-out :
    (t : Texts) (l : Lexer) (r : List ℕ)
    → length (dollar t l r).0.out + room (dollar t l r).1 ≤ length l.out + 5 + room r
unfolding dollar room
dollar-out t l [] = ground (arith, length-snoc l.out b'$')
dollar-out t l (d ∷ r) =
    ground
      (arith, length-snoc l.out b'$', length-paste l.out 10 t.pid, length-paste l.out 5 t.status)

operator-out : (l : Lexer) → length (operator l).out ≤ length l.out + 1
operator-out l = ground (arith, length-snoc l.out 0)

one-out :
    (c : ℕ) (l : Lexer) (r : List ℕ)
    → length (one c l r).0.out + room (one c l r).1 ≤ length l.out + 3 + room r
unfolding room
one-out c l r = omega (arith, length-snoc (operator l).out c, operator-out l)

two-out :
    (c d : ℕ) (l : Lexer) (e : ℕ) (r : List ℕ)
    → length (two c d l (e ∷ r)).0.out + room (two c d l (e ∷ r)).1 ≤ length l.out + 4 + room r
unfolding room
two-out c d l e r = omega (
  arith,
  length-snoc ((operator l).out ++ c ∷ []) d,
  length-snoc (operator l).out c,
  operator-out l,
)

module _ (l : Lexer) (r : List ℕ) where
  abbrev Small : Lexer × List ℕ → Type 0
  Small s = length s.0.out + room s.1 ≤ length l.out + 5 + room r

pair-Small :
    (c d : ℕ) (l : Lexer) (r : List ℕ)
    → Small l r (if next_is b'>' r then two c d l r else one c l r)
unfolding room
pair-Small c d l [] = omega (arith, one-out c l [])
pair-Small c d l (e ∷ r) = ground (arith, two-out c d l e r, one-out c l (e ∷ r))

ampersand-Small : (l : Lexer) (r : List ℕ) → Small l r (ampersand l r)
unfolding ampersand
ampersand-Small l r = ground (arith, pair-Small b'&' b'>' l r, length-snoc l.out b'&')

greater-Small : (l : Lexer) (r : List ℕ) → Small l r (greater l r)
unfolding greater
greater-Small l r = ground (arith, pair-Small b'>' b'>' l r, length-snoc l.out b'>')

less-Small : (l : Lexer) (r : List ℕ) → Small l r (less l r)
unfolding less
less-Small l r = ground (arith, one-out b'<' l r, length-snoc l.out b'<')

bar-Small : (l : Lexer) (r : List ℕ) → Small l r (bar l r)
unfolding bar
bar-Small l r = ground (arith, one-out b'|' l r, length-snoc l.out b'|')

out-step :
    (t : Texts) (l : Lexer) (c : ℕ) (r : List ℕ)
    → length (step t l c r).0.out + room (step t l c r).1 ≤ length l.out + room (c ∷ r)
unfolding step room
out-step t l c r = ground (
  arith,
  blank-out l.phase c l,
  double-out l.phase l,
  single-out l.phase l,
  other-out l.phase c l,
  dollar-out t l r,
  ampersand-Small l r,
  greater-Small l r,
  less-Small l r,
  bar-Small l r,
  length-snoc l.out 0,
)

loop-out :
    (t : Texts) (fuel : ℕ) (l l' : Lexer) (s : List ℕ)
    → loop t fuel l s ≡ some l'
    → length l'.out ≤ length l.out + room s
unfolding loop
loop-out t zero l l' s e = cc
loop-out t (suc fuel) l l' [] e = let d : l' ≡ l = cc in rw d (omega arith)
loop-out t (suc fuel) l l' (c ∷ r) e =
    omega (arith, out-step t l c r, loop-out t fuel (step t l c r).0 l' (step t l c r).1 e)

-- tokenize2 writes at most five bytes for each byte of the line, so a line of at most 204 bytes
-- stays within the 1024 bytes of copyString.
pub tokenize2-fits :
    (t : Texts) (s : List ℕ) {l : Lexer}
    → tokenize2 t s ≡ some l
    → length s ≤ 204
    → length l.out ≤ 1024
unfolding tokenize2
tokenize2-fits t s {l} e h = omega (arith, loop-out t (2 * length s + 1) fresh l s e, room-le s)
