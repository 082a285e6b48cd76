-- ===== src/Shell/Lexer.antt =====
-- tokenize2 of assignment3-1/jankersh.c: a command line is cut into tokens, with quotes, `$$`, `$?`
-- and the operators `&` `&>` `>` `>>` `<` `|`. A text is the list of its bytes before the NUL.
pub mod Fuel
pub mod Bounds
pub mod Typed
pub mod Words
use kenrel_learning.Common.{
  ℕ, zero, suc, ◌+◌, ◌-◌, ◌*◌, ◌==◌, Bool, true, false, not, ◌&&◌, ◌||◌, Option, none, some, List,
  [], ◌∷◌, ◌++◌, length, take, if◌then◌else◌,
}

pub data Phase : Type 0 where
  start normal space dquote quote : Phase

-- `out` is the part of copyString that is written, so csIndex is its length; `tokens` holds the
-- offsets into it of the pointers in `tokenize`.
pub record Lexer : Type 0 where
  pub phase : Phase
  pub out : List ℕ
  pub tokens : List ℕ

-- getpid() and childExitStatus as sprintf "%d" prints them.
pub record Texts : Type 0 where
  pub pid : List ℕ
  pub status : List ℕ

abbrev pub put : ℕ → Lexer → Lexer
put c l = record l { out = l.out ++ c ∷ [] }

abbrev pub token : Lexer → Lexer
token l = record l { tokens = l.tokens ++ length l.out ∷ [] }

abbrev pub go : Phase → Lexer → Lexer
go p l = record l { phase = p }

-- csIndex += strnlen(text, n)
abbrev pub paste : ℕ → List ℕ → Lexer → Lexer
paste n text l = record l { out = l.out ++ take n text }

-- `next` is the head of what follows the current byte.
abbrev pub next_is : ℕ → List ℕ → Bool
next_is c [] = false
next_is c (d ∷ r) = d == c

abbrev pub rest : List ℕ → List ℕ
rest [] = []
rest (d ∷ r) = r

-- A blank.
unfoldable pub blank : Phase → ℕ → Lexer → Lexer
blank normal c l = go space (put 0 l)
blank start c l = l
blank _ c l = put c l

-- `"` and `'`.
unfoldable pub double : Phase → Lexer → Lexer
double dquote l = go normal l
double space l = go dquote (token l)
double normal l = go dquote l
double _ l = put b'"' l

unfoldable pub single : Phase → Lexer → Lexer
single quote l = go normal l
single space l = go quote (token l)
single normal l = go quote l
single _ l = put 39 l

abbrev pub is_space : Phase → Bool
is_space space = true
is_space _ = false

abbrev pub is_start : Phase → Bool
is_start start = true
is_start _ = false

abbrev pub is_quote : Phase → Bool
is_quote quote = true
is_quote _ = false

unfoldable pub dollar : Texts → Lexer → List ℕ → Lexer × List ℕ
dollar t l r =
    let l' = if is_space l.phase then go normal (token l) else l in
    if next_is b'$' r && not (is_quote l'.phase)
    then (paste 10 t.pid l', rest r)
    else if next_is b'?' r && not (is_quote l'.phase)
    then (paste 5 t.status l', rest r)
    else (put b'$' l', r)

-- An operator starts a token of its own, unless the line begins with it.
abbrev pub operator : Lexer → Lexer
operator l = if is_start l.phase then l else token (put 0 l)

-- One operator byte: it is overwritten by a blank, which the loop reads next.
abbrev pub one : ℕ → Lexer → List ℕ → Lexer × List ℕ
one c l r = (go normal (put c (operator l)), b' ' ∷ r)

-- Two operator bytes: the second is overwritten by a blank.
abbrev pub two : ℕ → ℕ → Lexer → List ℕ → Lexer × List ℕ
two c d l r = (go normal (put d (put c (operator l))), b' ' ∷ rest r)

abbrev pub in_quotes : Phase → Bool
in_quotes dquote = true
in_quotes quote = true
in_quotes _ = false

unfoldable pub ampersand : Lexer → List ℕ → Lexer × List ℕ
ampersand l r =
    if in_quotes l.phase
    then (put b'&' l, r)
    else if next_is b'>' r
    then two b'&' b'>' l r
    else one b'&' l r

unfoldable pub greater : Lexer → List ℕ → Lexer × List ℕ
greater l r =
    if in_quotes l.phase
    then (put b'>' l, r)
    else if next_is b'>' r
    then two b'>' b'>' l r
    else one b'>' l r

unfoldable pub less : Lexer → List ℕ → Lexer × List ℕ
less l r = if in_quotes l.phase then (put b'<' l, r) else one b'<' l r

unfoldable pub bar : Lexer → List ℕ → Lexer × List ℕ
bar l r = if in_quotes l.phase then (put b'|' l, r) else one b'|' l r

unfoldable pub other : Phase → ℕ → Lexer → Lexer
other space c l = go normal (put c (token l))
other start c l = go normal (put c l)
other _ c l = put c l

-- The body of the loop.
unfoldable pub step : Texts → Lexer → ℕ → List ℕ → Lexer × List ℕ
step t l c r =
    if c == b' ' || c == 9
    then (blank l.phase c l, r)
    else if c == b'"'
    then (double l.phase l, r)
    else if c == 39
    then (single l.phase l, r)
    else if c == b'$'
    then dollar t l r
    else if c == b'&'
    then ampersand l r
    else if c == b'>'
    then greater l r
    else if c == b'<'
    then less l r
    else if c == b'|'
    then bar l r
    else if c == 10
    then (put 0 l, r)
    else (other l.phase c l, r)

-- The loop, with fuel; `none` means that the fuel ran out.
unfoldable pub loop : Texts → ℕ → Lexer → List ℕ → Option Lexer
loop t zero l s = none
loop t (suc fuel) l [] = some l
loop t (suc fuel) l (c ∷ r) = loop t fuel (step t l c r).0 (step t l c r).1

abbrev pub fresh : Lexer
fresh = record { phase = start; out = []; tokens = 0 ∷ [] }

-- Enough fuel for any line: a byte takes one round, an operator two.
unfoldable pub tokenize2 : Texts → List ℕ → Option Lexer
unfolding loop step blank double single dollar ampersand greater less bar other
tokenize2 t s = loop t (2 * length s + 1) fresh s
