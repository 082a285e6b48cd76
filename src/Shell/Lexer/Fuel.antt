-- ===== src/Shell/Lexer/Fuel.antt =====
-- The tokenizer always ends.
use kenrel_learning.Common.{
  ℕ, zero, suc, ◌+◌, ◌*◌, ◌≤◌, ◌<◌, ◌≡◌, refl, ◌==◌, some, List, [], ◌∷◌, length, if◌then◌else◌,
  arith,
}
use kenrel_learning.Shell.Lexer.{
  Texts, Lexer, step, dollar, ampersand, greater, less, bar, loop, fresh, tokenize2, rest,
}

-- What is left to do: an operator byte is read twice.
weight : List ℕ → ℕ
weight [] = 0
weight (c ∷ r) = (if c == b' ' then 1 else 2) + weight r

weight-le : (s : List ℕ) → weight s ≤ 2 * length s
unfolding weight
weight-le [] = omega arith
weight-le (c ∷ r) = ground (arith, weight-le r)

weight-rest : (s : List ℕ) → weight (rest s) ≤ weight s
unfolding weight
weight-rest [] = omega arith
weight-rest (c ∷ r) = ground arith

weight-step :
    (t : Texts) (l : Lexer) (c : ℕ) (r : List ℕ) → weight (step t l c r).1 < weight (c ∷ r)
unfolding step weight dollar ampersand greater less bar
weight-step t l c r = ground (arith, weight-rest r)

loop-total :
    (t : Texts) (fuel : ℕ) (l : Lexer) (s : List ℕ)
    → weight s < fuel
    → (l' : Lexer) × (loop t fuel l s ≡ some l')
unfolding loop
loop-total t zero l s h = absurd (omega arith)
loop-total t (suc fuel) l [] h = (l, refl)
loop-total t (suc fuel) l (c ∷ r) h =
    loop-total t fuel (step t l c r).0 (step t l c r).1 (omega (arith, weight-step t l c r))

-- tokenize2 ends on every line.
pub tokenize2-total : (t : Texts) (s : List ℕ) → (l : Lexer) × (tokenize2 t s ≡ some l)
unfolding tokenize2
tokenize2-total t s = loop-total t (2 * length s + 1) fresh s (omega (arith, weight-le s))

-- Once the fuel is enough, more of it changes nothing.
pub loop-more :
    (t : Texts) (f g : ℕ) (l l' : Lexer) (s : List ℕ)
    → loop t f l s ≡ some l'
    → f ≤ g
    → loop t g l s ≡ some l'
unfolding loop
loop-more t zero g l l' s e h = cc
loop-more t (suc f) zero l l' s e h = absurd (omega arith)
loop-more t (suc f) (suc g) l l' [] e h = e
loop-more t (suc f) (suc g) l l' (c ∷ r) e h =
    loop-more t f g (step t l c r).0 l' (step t l c r).1 e (omega arith)
