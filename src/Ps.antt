-- ===== src/Ps.antt =====
-- The listing of processes of assignment 1/myps.c. What getThings makes of a process (Ps/Things), qsort
-- and getpwnam are arguments; fopen does not fail. Texts are lists of bytes.
pub mod Order
pub mod Things
mod Examples
use kenrel_learning.Common.{
  text_eq, ℕ, suc, ◌+◌, ◌-◌, ◌/◌, ◌%◌, ◌^◌, ◌==◌, ltb, ℤ, pos, negsuc, ◌-ℤ◌, ltb_ℤ, Bool, true,
  false, not, ◌&&◌, Option, none, some, List, [], ◌∷◌, if◌then◌else◌,
}

-- struct processInfo
pub record ProcessInfo : Type 0 where
  pub pid : ℕ
  pub username : List ℕ
  pub totalcputime : ℕ
  pub virtualmemory : ℕ
  pub commands : List ℕ

-- A difference of two unsigned long, as a signed long.
abbrev pub signed_difference : ℕ → ℕ → ℤ
signed_difference a b =
    let d = (a + 2 ^ 64 - b) % 2 ^ 64 in if ltb d (2 ^ 63) then pos d else negsuc (2 ^ 64 - 1 - d)

abbrev pub sign : ℤ → ℤ
sign temp = if ltb_ℤ (pos 0) temp then pos 1 else if ltb_ℤ temp (pos 0) then negsuc 0 else pos 0

unfoldable pub cmp_pid : ProcessInfo → ProcessInfo → ℤ
cmp_pid p1 p2 = pos p1.pid -ℤ pos p2.pid

unfoldable pub cmp_vm : ProcessInfo → ProcessInfo → ℤ
cmp_vm p1 p2 = sign (signed_difference p2.virtualmemory p1.virtualmemory)

unfoldable pub cmp_cpu : ProcessInfo → ProcessInfo → ℤ
cmp_cpu p1 p2 = sign (signed_difference p2.totalcputime p1.totalcputime)

pub data SortFlags : Type 0 where
  sort_by_pid sort_by_vmet sort_by_cpu : SortFlags

unfoldable pub callback : SortFlags → ProcessInfo → ProcessInfo → ℤ
callback sort_by_pid = cmp_pid
callback sort_by_cpu = cmp_cpu
callback sort_by_vmet = cmp_vm

-- The entries of /proc, and what getThings makes of one; a number is the atoi of a name.
pub record Proc : Type 0 where
  pub entries : List ℕ
  pub get_things : ℕ → ProcessInfo

-- The first walk over the directory: how many elements are allocated.
unfoldable pub count_pids : List ℕ → ℕ
count_pids [] = 0
count_pids (pid ∷ r) = if not (pid == 0) then suc (count_pids r) else count_pids r

-- `username && strcmp(username, temp->username) != 0`
abbrev pub filtered_out : Option (List ℕ) → ProcessInfo → Bool
filtered_out none p = false
filtered_out (some username) p = not (text_eq username p.username)

-- The second walk: the elements that are written.
unfoldable pub collect : (ℕ → ProcessInfo) → Option (List ℕ) → List ℕ → List ProcessInfo
collect get_things username [] = []
collect get_things username (pid ∷ r) =
    let rest = collect get_things username r in
    if not (pid == 0)
    then (if filtered_out username (get_things pid) then rest else get_things pid ∷ rest)
    else rest

abbrev pub Sort : Type 0
Sort = (ProcessInfo → ProcessInfo → ℤ) → List ProcessInfo → List ProcessInfo

-- The processes that are printed, in their order.
unfoldable pub print_process : Sort → Proc → SortFlags → Option (List ℕ) → List ProcessInfo
print_process qsort proc flags username =
    qsort (callback flags) (collect proc.get_things username proc.entries)

-- hour, minute and second of _printProcess, of a time in clock ticks.
unfoldable pub clock_of : ℕ → ℕ → ℕ × ℕ × ℕ
clock_of ticks_per_second ticks =
    let time = ticks / ticks_per_second in (time / 3600, time / 60 % 60, time % 60)

-- The loop over the arguments in main.
pub record Options : Type 0 where
  pub sort_flags : SortFlags
  pub username : Option (List ℕ)

abbrev pub dash_m : List ℕ
dash_m = b'-' ∷ b'm' ∷ []

abbrev pub dash_p : List ℕ
dash_p = b'-' ∷ b'p' ∷ []

abbrev pub dash_u : List ℕ
dash_u = b'-' ∷ b'u' ∷ []

abbrev pub set_sort : List ℕ → Options → Options
set_sort a o =
    let o' = if text_eq dash_m a then record o { sort_flags = sort_by_vmet } else o in
    if text_eq dash_p a then record o' { sort_flags = sort_by_cpu } else o'

unfoldable pub read_args : List (List ℕ) → Options → Options
read_args [] o = o
read_args (a ∷ []) o =
    let o' = set_sort a o in if text_eq dash_u a then record o' { username = none } else o'
read_args (a ∷ b ∷ r) o = elim (text_eq dash_u a) [
  | true ↦ read_args r (record (set_sort a o) { username = some b })
  | false ↦ read_args (b ∷ r) (set_sort a o)
]

-- What main prints: a refusal of a user that getpwnam does not know, or the processes.
pub data Output : Type 0 where
  invalid_user : List ℕ → Output
  listing : List ProcessInfo → Output

unfoldable pub main_of : Sort → Proc → (List ℕ → Bool) → List (List ℕ) → Output
main_of qsort proc known argv =
    let o = read_args argv (record { sort_flags = sort_by_pid; username = none }) in
    elim o.username [
      | none ↦ listing (print_process qsort proc o.sort_flags none)
      | some user ↦
          if not (known user)
          then invalid_user user
          else listing (print_process qsort proc o.sort_flags (some user))
    ]
