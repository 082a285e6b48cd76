-- ===== src/Ps/Things.antt =====
-- getThings and getUid of assignment 1/myps.c, over the texts of the files under /proc. getpwuid is an
-- argument; numbers are read without a sign and fit
-- their type.
pub mod Cut
use mathlib.Core.List.{append-nil}
use native.Mathlib.Decide.{ℕ_discrete}
use kenrel_learning.Common.{
  Bool-cases, ℕ, suc, ◌+◌, ◌-◌, ◌*◌, ◌%◌, ◌^◌, ◌≤◌, ◌≡◌, ◌≢◌, ◌⊎◌, inl, inr, refl, ap, ◌==◌, ltb,
  Bool, true, false, not, ◌&&◌, ◌||◌, Option, none, some, List, [], ◌∷◌, ◌++◌, length, count,
  get_or, text_eq, if◌then◌else◌, arith, take,
}
use kenrel_learning.Ps.{ProcessInfo}

-- The buffer after fgets of the line of stat: all its bytes, those behind the line too. The lines of
-- status, and the text of comm.
pub record ProcFiles : Type 0 where
  pub stat : List ℕ
  pub status : List (List ℕ)
  pub comm : List ℕ

abbrev pub put_byte : Bool → ℕ → Option (List (List ℕ)) → Option (List (List ℕ))
put_byte is_blank c none = none
put_byte true c (some tokns) = some ([] ∷ tokns)
put_byte false c (some []) = some ((c ∷ []) ∷ [])
put_byte false c (some (t ∷ ts)) = some ((c ∷ t) ∷ ts)

-- The loop over the buffer, `j` tokens on. `none` is an access behind the buffer or behind tokns[51].
unfoldable pub cut : ℕ → List ℕ → Option (List (List ℕ))
cut j [] = if ltb j 52 then none else some ([] ∷ [])
cut j (c ∷ r) =
    let is_blank = c == b' ' in
    let rest = cut (if is_blank then suc j else j) r in
    if is_blank && not (ltb j 52) then none else put_byte is_blank c rest

abbrev pub is_digit : ℕ → Bool
is_digit c = not (ltb c b'0') && not (ltb b'9' c)

-- atoi and atol.
unfoldable pub number_from : ℕ → List ℕ → ℕ
number_from n [] = n
number_from n (c ∷ r) =
    let rest = number_from (n * 10 + (c - b'0')) r in if is_digit c then rest else n

abbrev pub number : List ℕ → ℕ
number l = number_from 0 l

abbrev pub is_white : ℕ → Bool
is_white c = c == b' ' || c == 9 || c == 10

-- The next word of a line, and what follows it, as sscanf reads them.
unfoldable pub skip_spaces : List ℕ → List ℕ
skip_spaces [] = []
skip_spaces (c ∷ r) = let rest = skip_spaces r in if is_white c then rest else c ∷ r

unfoldable pub word : List ℕ → List ℕ × List ℕ
word [] = ([], [])
word (c ∷ r) = let (w, rest) = word r in if is_white c then ([], c ∷ r) else (c ∷ w, rest)

abbrev pub uid_label : List ℕ
uid_label = b'U' ∷ b'i' ∷ b'd' ∷ b':' ∷ []

-- What follows a number that is read over.
unfoldable pub after_digits : List ℕ → List ℕ
after_digits [] = []
after_digits (c ∷ r) = let rest = after_digits r in if is_digit c then rest else c ∷ r

abbrev pub second_number : List ℕ → ℕ
second_number [] = 0
second_number (c ∷ r) = if is_digit c then number (skip_spaces (after_digits r)) else 0

-- One line of status: the second number of a line that begins with `Uid:`, 0 if there is none.
unfoldable pub uid_line : List ℕ → ℕ → ℕ
unfolding word skip_spaces
uid_line line uid =
    let (label, numbers) = word (skip_spaces line) in
    if text_eq label uid_label then second_number (skip_spaces numbers) else uid

-- `uid` is what the variable holds before the first such line.
unfoldable pub get_uid : List (List ℕ) → ℕ → ℕ
get_uid [] uid = uid
get_uid (line ∷ r) uid = get_uid r (uid_line line uid)

-- The name up to a newline.
unfoldable pub first_line : List ℕ → List ℕ
first_line [] = []
first_line (c ∷ r) = let rest = first_line r in if c == 10 then [] else c ∷ rest

abbrev pub things : List ℕ → List ℕ → List (List ℕ) → ProcessInfo
things pw_name comm tokns = record {
  pid = number (get_or tokns 0 []);
  username = pw_name;
  totalcputime = (number (get_or tokns 13 []) + number (get_or tokns 14 [])) % 2 ^ 64;
  virtualmemory = number (get_or tokns 22 []);
  commands = first_line (take 15 comm);
}

-- `none` for a user without a name, or one that is longer than the field.
abbrev pub named : Option (List ℕ) → List ℕ → List (List ℕ) → Option ProcessInfo
named none comm tokns = none
named (some pw_name) comm tokns =
    if ltb 32 (length pw_name) then none else some (things pw_name comm tokns)

abbrev pub with_tokens : Option (List ℕ) → List ℕ → Option (List (List ℕ)) → Option ProcessInfo
with_tokens pws comm none = none
with_tokens pws comm (some tokns) = named pws comm tokns

unfoldable pub get_things : (ℕ → Option (List ℕ)) → ℕ → ProcFiles → Option ProcessInfo
get_things getpwuid uid f = with_tokens (getpwuid (get_uid f.status uid)) f.comm (cut 1 f.stat)
