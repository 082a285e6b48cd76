-- ===== src/Shell/Lexer/Typed.antt =====
-- Lines of words, bare or in quotes, and how the tokenizer reads one word.
use kenrel_learning.Common.{
  ℕ, suc, ◌<◌, ◌≡◌, refl, ◌==◌, Bool, true, not, ◌||◌, some, List, [], ◌∷◌, ◌++◌, length, arith,
}
use mathlib.Core.List.{append_assoc, append-nil}
use kenrel_learning.Shell.Lexer.{
  Texts, Lexer, Phase, normal, space, quote, dquote, blank, double, single, dollar, ampersand,
  greater, less, bar, other, step, loop,
}

-- A word as it is typed, and the bytes that it stands for.
pub data Word : Type 0 where
  bare quoted dquoted : List ℕ → Word

abbrev pub value : Word → List ℕ
value (bare w) = w
value (quoted w) = w
value (dquoted w) = w

abbrev pub typed : Word → List ℕ
typed (bare w) = w
typed (quoted w) = 39 ∷ (w ++ 39 ∷ [])
typed (dquoted w) = b'"' ∷ (w ++ b'"' ∷ [])

abbrev pub AllOf : (ℕ → Bool) → List ℕ → Type 0
AllOf p [] = Unit
AllOf p (c ∷ r) = (p c ≡ true) × AllOf p r

-- Bytes that mean themselves outside of quotes, in '…' and in "…".
abbrev pub plain : ℕ → Bool
plain c = not (
    c == 0
    || c == 9
    || c == 10
    || c == b' '
    || c == b'"'
    || c == b'$'
    || c == b'&'
    || c == 39
    || c == b'<'
    || c == b'>'
    || c == b'|')

abbrev pub plain_quoted : ℕ → Bool
plain_quoted c = not (c == 0 || c == 10 || c == 39)

abbrev pub plain_dquoted : ℕ → Bool
plain_dquoted c = not (c == 0 || c == 10 || c == b'"' || c == b'$')

abbrev pub IsWord : Word → Type 0
IsWord (bare w) = AllOf plain w × (0 < length w)
IsWord (quoted w) = AllOf plain_quoted w
IsWord (dquoted w) = AllOf plain_dquoted w

abbrev pub AreWords : List Word → Type 0
AreWords [] = Unit
AreWords (w ∷ ws) = IsWord w × AreWords ws

-- The words after the first one, and the newline.
abbrev pub line : List Word → List ℕ
line [] = 10 ∷ []
line (w ∷ ws) = b' ' ∷ (typed w ++ line ws)

-- In this phase the byte is copied.
abbrev pub Copies : Texts → Phase → ℕ → Type 0
Copies t p c =
    (out tokens r : List ℕ)
    → step t (record { phase = p; out = out; tokens = tokens }) c r
      ≡ (record { phase = p; out = out ++ c ∷ []; tokens = tokens }, r)

abbrev pub AllCopied : Texts → Phase → List ℕ → Type 0
AllCopied t p [] = Unit
AllCopied t p (c ∷ r) = Copies t p c × AllCopied t p r

pub plain-Copies : (t : Texts) (c : ℕ) → plain c ≡ true → Copies t normal c
unfolding step other
plain-Copies t c h out tokens r = ground arith

pub quoted-Copies : (t : Texts) (c : ℕ) → plain_quoted c ≡ true → Copies t quote c
unfolding step other blank double dollar ampersand greater less bar
quoted-Copies t c h out tokens r = ground arith

pub dquoted-Copies : (t : Texts) (c : ℕ) → plain_dquoted c ≡ true → Copies t dquote c
unfolding step other blank single ampersand greater less bar
dquoted-Copies t c h out tokens r = ground arith

pub AllOf-copied :
    (t : Texts) (p : Phase) (q : ℕ → Bool)
    → ((c : ℕ) → q c ≡ true → Copies t p c)
    → (w : List ℕ) → AllOf q w
    → AllCopied t p w
AllOf-copied t p q h [] a = tt
AllOf-copied t p q h (c ∷ r) a = (h c a.0, AllOf-copied t p q h r a.1)

abbrev pub at : Phase → List ℕ → List ℕ → Lexer
at p out tokens = record { phase = p; out = out; tokens = tokens }

-- The loop ends in `l'` on some fuel.
pub record Ends (t : Texts) (l : Lexer) (s : List ℕ) (l' : Lexer) : Type 0 where
  pub fuel : ℕ
  pub run : loop t fuel l s ≡ some l'

pub Ends-nil : (t : Texts) (l : Lexer) → Ends t l [] l
unfolding loop
Ends-nil t l = record { fuel = 1; run = refl }

pub Ends-cons :
    (t : Texts) (l : Lexer) (c : ℕ) (r : List ℕ) (m : Lexer) (r' : List ℕ) {l' : Lexer}
    → step t l c r ≡ (m, r')
    → Ends t m r' l'
    → Ends t l (c ∷ r) l'
unfolding loop
Ends-cons t l c r m r' e d = record { fuel = suc d.fuel; run = rw e d.run }

-- A run of copied bytes.
pub Ends-copied :
    (t : Texts) (p : Phase) (w out tokens s : List ℕ) {l : Lexer}
    → AllCopied t p w
    → Ends t (at p (out ++ w) tokens) s l
    → Ends t (at p out tokens) (w ++ s) l
Ends-copied t p [] out tokens s a e = rw append-nil at e
Ends-copied t p (c ∷ r) out tokens s a e =
    Ends-cons t _ c (r ++ s) _ (r ++ s) (a.0 out tokens (r ++ s))
      (Ends-copied t p r (out ++ c ∷ []) tokens s a.1 (rw append_assoc e))

module _ (t : Texts) (out tokens r : List ℕ) where
  pub first_lem :
      (c : ℕ)
      → plain c ≡ true
      → step t (at space out tokens) c r
        ≡ (at normal (out ++ c ∷ []) (tokens ++ length out ∷ []), r)
  unfolding step other
  first_lem c h = ground arith

  pub open_single :
      step t (at space out tokens) 39 r ≡ (at quote out (tokens ++ length out ∷ []), r)
  unfolding step single
  open_single = refl

  pub close_single : step t (at quote out tokens) 39 r ≡ (at normal out tokens, r)
  unfolding step single
  close_single = refl

  pub open_double :
      step t (at space out tokens) b'"' r ≡ (at dquote out (tokens ++ length out ∷ []), r)
  unfolding step double
  open_double = refl

  pub close_double : step t (at dquote out tokens) b'"' r ≡ (at normal out tokens, r)
  unfolding step double
  close_double = refl

  pub blank_lem : step t (at normal out tokens) b' ' r ≡ (at space (out ++ 0 ∷ []) tokens, r)
  unfolding step blank
  blank_lem = refl

  pub newline_lem : step t (at normal out tokens) 10 r ≡ (at normal (out ++ 0 ∷ []) tokens, r)
  unfolding step
  newline_lem = refl

module _ (t : Texts) (out tokens s : List ℕ) (l : Lexer) where
  abbrev pub Rest : List ℕ → Type 0
  Rest w = Ends t (at normal (out ++ w) (tokens ++ length out ∷ [])) s l

  pub Ends-bare :
      (c : ℕ) (r : List ℕ)
      → AllOf plain (c ∷ r)
      → Rest (c ∷ r)
      → Ends t (at space out tokens) (c ∷ (r ++ s)) l
  Ends-bare c r v e = Ends-cons t _ c (r ++ s) _ (r ++ s) (first_lem t out tokens (r ++ s) c v.0) (
      Ends-copied t normal r (out ++ c ∷ []) (tokens ++ length out ∷ []) s
        (AllOf-copied t normal plain (plain-Copies t) r v.1) (rw append_assoc e))

  pub Ends-quoted :
      (w : List ℕ)
      → AllOf plain_quoted w
      → Rest w
      → Ends t (at space out tokens) (39 ∷ (w ++ 39 ∷ s)) l
  Ends-quoted w v e = Ends-cons t _ 39 (w ++ 39 ∷ s) _ _ (open_single t out tokens (w ++ 39 ∷ s)) (
      Ends-copied t quote w out (tokens ++ length out ∷ []) (39 ∷ s)
        (AllOf-copied t quote plain_quoted (quoted-Copies t) w v)
        (Ends-cons t _ 39 s _ s (close_single t (out ++ w) (tokens ++ length out ∷ []) s) e))

  pub Ends-dquoted :
      (w : List ℕ)
      → AllOf plain_dquoted w
      → Rest w
      → Ends t (at space out tokens) (b'"' ∷ (w ++ b'"' ∷ s)) l
  Ends-dquoted w v e =
      Ends-cons t _ b'"' (w ++ b'"' ∷ s) _ _ (open_double t out tokens (w ++ b'"' ∷ s)) (
        Ends-copied t dquote w out (tokens ++ length out ∷ []) (b'"' ∷ s)
          (AllOf-copied t dquote plain_dquoted (dquoted-Copies t) w v)
          (Ends-cons t _ b'"' s _ s (close_double t (out ++ w) (tokens ++ length out ∷ []) s) e))
