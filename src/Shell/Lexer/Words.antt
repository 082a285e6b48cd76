-- ===== src/Shell/Lexer/Words.antt =====
-- A line of words, bare or in quotes, separated by blanks, gives back the words.
use kenrel_learning.Common.{
  ℕ, ◌+◌, ◌*◌, ◌≡◌, ◌≢◌, refl, sym, ◌∙◌, ◌==◌, Bool, true, some, List, [], ◌∷◌, ◌++◌, map, length,
  length-append, drop, drop-append, if◌then◌else◌, arith,
}
use mathlib.Core.Path.{subst₂, ap₂}
use mathlib.Core.List.{append_assoc, append-nil}
use kenrel_learning.Shell.Lexer.{Texts, Lexer, normal, space, other, step, fresh, tokenize2}
use kenrel_learning.Shell.Lexer.Fuel.{loop-more, tokenize2-total}
use kenrel_learning.Shell.Lexer.Typed.{
  Word, value, typed, AllOf, plain, plain_quoted, plain_dquoted, IsWord, AreWords, line,
  plain-Copies, AllOf-copied, at, Ends, Ends-nil, Ends-cons, Ends-copied, blank_lem, newline_lem,
  Ends-bare, Ends-quoted, Ends-dquoted, bare, quoted, dquoted,
}

-- The C string at an offset of copyString.
pub cstr : List ℕ → List ℕ
cstr [] = []
cstr (c ∷ r) = if c == 0 then [] else c ∷ cstr r

pub words : Lexer → List (List ℕ)
unfolding cstr
words l = map (λ o. cstr (drop o l.out)) l.tokens

-- A word after a blank: its token starts where its bytes are written.
Ends-typed :
    (t : Texts) (w : Word) (out tokens s : List ℕ) {l : Lexer}
    → IsWord w
    → Ends t (at normal (out ++ value w) (tokens ++ length out ∷ [])) s l
    → Ends t (at space out tokens) (typed w ++ s) l
Ends-typed t (bare []) out tokens s v e = absurd (omega arith)
Ends-typed t (bare (c ∷ r)) out tokens s {l} v e = Ends-bare t out tokens s l c r v.0 e
Ends-typed t (quoted w) out tokens s {l} v e = rw append_assoc (Ends-quoted t out tokens s l w v e)
Ends-typed t (dquoted w) out tokens s {l} v e =
    rw append_assoc (Ends-dquoted t out tokens s l w v e)

-- What the rest of a line writes, and where its tokens start.
line_out : List Word → List ℕ
line_out [] = 0 ∷ []
line_out (w ∷ ws) = 0 ∷ (value w ++ line_out ws)

starts : ℕ → List Word → List ℕ
starts n [] = []
starts n (w ∷ ws) = (n + 1) ∷ starts (n + 1 + length (value w)) ws

module _ (out tokens : List ℕ) (w : Word) (ws : List Word) where
  outs : (out ++ 0 ∷ [] ++ value w) ++ line_out ws ≡ out ++ line_out (w ∷ ws)
  unfolding line_out
  outs = simp append_assoc

  length-zero : length (out ++ 0 ∷ []) ≡ length out + 1
  length-zero = omega (arith, length-append out (0 ∷ []))

  length-word : length (out ++ 0 ∷ [] ++ value w) ≡ length out + 1 + length (value w)
  length-word = omega (arith, length-append (out ++ 0 ∷ []) (value w), length-zero)

  offsets :
      (tokens ++ length (out ++ 0 ∷ []) ∷ []) ++ starts (length (out ++ 0 ∷ [] ++ value w)) ws
      ≡ tokens ++ starts (length out) (w ∷ ws)
  unfolding starts
  offsets = rw (append_assoc, length-zero, length-word) refl

Ends-line :
    (t : Texts) (ws : List Word) (out tokens : List ℕ)
    → AreWords ws
    → Ends t
        (at normal out tokens)
        (line ws)
        (at normal (out ++ line_out ws) (tokens ++ starts (length out) ws))
unfolding line_out starts
Ends-line t [] out tokens v =
    Ends-cons t _ 10 [] _ [] (newline_lem t out tokens []) (rw append-nil (Ends-nil t _))
Ends-line t (w ∷ ws) out tokens v =
    Ends-cons t _ b' ' (typed w ++ line ws) _ _ (blank_lem t out tokens (typed w ++ line ws)) (
      Ends-typed t w (out ++ 0 ∷ []) tokens (line ws) v.0 (
        subst₂
          (λ o p.
            Ends t (at normal (out ++ 0 ∷ [] ++ value w) (tokens ++ length (out ++ 0 ∷ []) ∷ []))
              (line ws) (at normal o p))
          (outs out tokens w ws) (offsets out tokens w ws)
          (Ends-line t ws (out ++ 0 ∷ [] ++ value w) (tokens ++ length (out ++ 0 ∷ []) ∷ []) v.1)))

cstr-append :
    (q : ℕ → Bool) (w r : List ℕ)
    → ((c : ℕ) → q c ≡ true → c ≢ 0)
    → AllOf q w
    → cstr (w ++ 0 ∷ r) ≡ w
unfolding cstr
cstr-append q [] r h a = refl
cstr-append q (c ∷ w) r h a = ground (arith, h c a.0, cstr-append q w r h a.1)

cstr-value : (w : Word) (r : List ℕ) → IsWord w → cstr (value w ++ 0 ∷ r) ≡ value w
cstr-value (bare w) r v = cstr-append plain w r (λ c h. ground arith) v.0
cstr-value (quoted w) r v = cstr-append plain_quoted w r (λ c h. ground arith) v
cstr-value (dquoted w) r v = cstr-append plain_dquoted w r (λ c h. ground arith) v

cstr-line : (w : Word) (ws : List Word) → IsWord w → cstr (value w ++ line_out ws) ≡ value w
unfolding line_out
cstr-line w [] v = cstr-value w [] v
cstr-line w (x ∷ ws) v = cstr-value w (value x ++ line_out ws) v

head_lem :
    (r pre out : List ℕ) (n : ℕ) (w : Word)
    → (pre ++ 0 ∷ []) ++ (value w ++ r) ≡ out
    → length pre ≡ n
    → cstr (drop (n + 1) out) ≡ cstr (value w ++ r)
head_lem r pre out n w e h =
    let k : n + 1 ≡ length (pre ++ 0 ∷ []) = omega (arith, length-append pre (0 ∷ [])) in
    rw (← e, k, drop-append) refl

shape :
    (pre out : List ℕ) (w : Word) (ws : List Word)
    → pre ++ line_out (w ∷ ws) ≡ out
    → (pre ++ 0 ∷ []) ++ (value w ++ line_out ws) ≡ out
unfolding line_out
shape pre out w ws e = append_assoc pre (0 ∷ []) (value w ++ line_out ws) ∙ e

read :
    (ws : List Word) (pre out : List ℕ) (n : ℕ)
    → pre ++ line_out ws ≡ out
    → length pre ≡ n
    → AreWords ws
    → map (λ o. cstr (drop o out)) (starts n ws) ≡ map value ws
unfolding starts
read [] pre out n e h v = refl
read (w ∷ ws) pre out n e h v =
    ap₂ ◌∷◌ (head_lem (line_out ws) pre out n w (shape pre out w ws e) h ∙ cstr-line w ws v.0) (
      read ws (pre ++ 0 ∷ [] ++ value w) out (n + 1 + length (value w)) (outs pre [] w ws ∙ e)
        (omega (arith, length-word pre [] w ws)) v.1)

first_step :
    (t : Texts) (c : ℕ) (r : List ℕ)
    → plain c ≡ true
    → step t fresh c r ≡ (at normal (c ∷ []) (0 ∷ []), r)
unfolding step other
first_step t c r h = ground arith

Ends-tokenize2 : (t : Texts) (s : List ℕ) (l : Lexer) → Ends t fresh s l → tokenize2 t s ≡ some l
unfolding tokenize2
Ends-tokenize2 t s l d =
    let (m, e) = tokenize2-total t s in
    let f = 2 * length s + 1 in
    let a = loop-more t f (f + d.fuel) fresh m s e (omega arith) in
    let b = loop-more t d.fuel (f + d.fuel) fresh l s d.run (omega arith) in e ∙ (sym a ∙ b)

-- A line of words separated by blanks, the first one bare and each other one bare, in single quotes
-- or in double quotes, is cut into exactly these words, without the quotes; whatever a quoted word
-- holds that its quotes protect.
pub words-tokenize2 :
    (t : Texts) (w : List ℕ) (ws : List Word)
    → IsWord (bare w)
    → AreWords ws
    → (l : Lexer) × (tokenize2 t (w ++ line ws) ≡ some l) × (words l ≡ w ∷ map value ws)
unfolding words
words-tokenize2 t [] ws v vs = absurd (omega arith)
words-tokenize2 t (c ∷ r) ws v vs =
    let l = at normal ((c ∷ r) ++ line_out ws) (0 ∷ starts (length (c ∷ r)) ws) in
    (
      l,
      Ends-tokenize2 t (c ∷ (r ++ line ws)) l (
          Ends-cons t fresh c (r ++ line ws) _ _ (first_step t c (r ++ line ws) v.0.0) (
            Ends-copied t normal r (c ∷ []) (0 ∷ []) (line ws)
              (AllOf-copied t normal plain (plain-Copies t) r v.0.1)
              (Ends-line t ws (c ∷ r) (0 ∷ []) vs))),
      ap₂ ◌∷◌ (cstr-line (bare (c ∷ r)) ws v)
          (read ws (c ∷ r) ((c ∷ r) ++ line_out ws) (length (c ∷ r)) refl refl vs),
    )
