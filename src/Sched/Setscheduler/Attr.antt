-- ===== src/Sched/Setscheduler/Attr.antt =====
-- What crosses from and to the caller in temp/kernel/sched/core.c: sched_copy_attr, sched_setattr,
-- sched_getscheduler and sched_getparam.
use kenrel_learning.Common.{
  ℕ, zero, suc, ◌+◌, ◌-◌, ◌≤◌, ◌<◌, ◌≡◌, ◌⊎◌, inl, inr, ◌==◌, ltb, bit_and, bit_or, refl, ℤ, pos,
  negsuc, ◌≤ℤ◌, ltb_ℤ, Bool, true, false, not, Option, none, some, if◌then◌else◌, arith,
}
use kenrel_learning.ListHead.{ListApi}
use kenrel_learning.Sched.Task.{Task, Rq}
use kenrel_learning.Sched.Policy.{SchedAttr, rt_policy, valid_policy}
use kenrel_learning.Sched.Change.{Methods}
use kenrel_learning.Sched.Change.Access.{
  Errno, einval, efault, esrch, e2big, denied, Caller, negative,
}
use kenrel_learning.Sched.Setscheduler.{
  Situation, SetResult, refused, sched_setscheduler, legacy_attr,
}

-- The structure in the caller's memory: what access_ok answers, the field `size`, the bytes by their
-- offsets, and the fields of the first bytes as copy_from_user brings them. `none` is a fault.
pub record UserAttr : Type 0 where
  pub access_ok : Bool
  pub size : Option ℕ
  pub byte : ℕ → Option ℕ
  pub fields : ℕ → Option SchedAttr

pub data CopyResult : Type 0 where
  copied : SchedAttr → CopyResult
  copy_refused : Errno → CopyResult

-- The loop over the bytes `addr`, …, `addr + n - 1`: `none` if they are zero.
unfoldable pub check_tail : (ℕ → Option ℕ) → ℕ → ℕ → Option Errno
check_tail byte zero addr = none
check_tail byte (suc n) addr =
    let rest = check_tail byte n (addr + 1) in
    elim (byte addr) [ none ↦ some efault | some val ↦ if val == 0 then rest else some e2big ]

-- clamp(nice, MIN_NICE, MAX_NICE)
abbrev pub clamp_nice : ℤ → ℤ
clamp_nice nice =
    if ltb_ℤ nice (negsuc 19) then negsuc 19 else if ltb_ℤ (pos 19) nice then pos 19 else nice

abbrev pub clamped : Option SchedAttr → CopyResult
clamped none = copy_refused efault
clamped (some attr) = copied (record attr { sched_nice = clamp_nice attr.sched_nice })

-- From `if (!size)` on. 48 is SCHED_ATTR_SIZE_VER0 and the size of struct sched_attr.
unfoldable pub copy_sized : UserAttr → ℕ → CopyResult
copy_sized u size =
    if ltb size 48
    then copy_refused e2big
    else if ltb 48 size
    then (elim (check_tail u.byte (size - 48) 48) [
      | some e ↦ copy_refused e
      | none ↦ clamped (u.fields 48)
    ])
    else clamped (u.fields size)

-- 4096 is PAGE_SIZE.
unfoldable pub sched_copy_attr : UserAttr → CopyResult
sched_copy_attr u = if not u.access_ok then copy_refused efault else (elim u.size [
  | none ↦ copy_refused efault
  | some size ↦
      if ltb 4096 size then copy_refused e2big else copy_sized u (if size == 0 then 48 else size)
])

-- p->policy | flag, on an int.
abbrev pub or_flag : ℤ → ℕ → ℤ
or_flag (pos n) flag = pos (bit_or n flag)
or_flag (negsuc n) flag = negsuc (n - bit_and n flag)

-- `security` is the answer of the security module, `none` for 0.
unfoldable pub sched_getscheduler : (ℕ → Option ℕ) → (ℕ → Task) → Option ℕ → ℤ → (Errno ⊎ ℤ)
sched_getscheduler find tasks security (negsuc n) = inl einval
sched_getscheduler find tasks security (pos pid) = elim (find pid) [
  | none ↦ inl esrch
  | some p ↦ elim security [
    | some e ↦ inl (denied e)
    | none ↦
        inr (or_flag (tasks p).policy (if (tasks p).sched_reset_on_fork then 0x40000000 else 0))
  ]
]

-- The priority that is copied to the caller; `writable` says that copy_to_user succeeds.
unfoldable pub sched_getparam :
    (ℕ → Option ℕ) → (ℕ → Task) → Option ℕ → ℤ → Bool → Bool → (Errno ⊎ ℕ)
sched_getparam find tasks security (negsuc n) param writable = inl einval
sched_getparam find tasks security (pos pid) param writable =
    if not param then inl einval else (elim (find pid) [
      | none ↦ inl esrch
      | some p ↦ elim security [
        | some e ↦ inl (denied e)
        | none ↦
            if writable
            then inr (if rt_policy (tasks p).policy then (tasks p).rt_priority else 0)
            else inl efault
      ]
    ])

module _ {L : ListApi} (m : Methods L) where
  -- `uattr` is `none` for a NULL pointer.
  unfoldable pub sys_sched_setattr :
      Caller → Rq L → (ℕ → Option ℕ) → ℤ → Option UserAttr → ℕ → Situation → SetResult L
  sys_sched_setattr c rq find (negsuc n) uattr flags s = refused einval
  sys_sched_setattr c rq find (pos pid) none flags s = refused einval
  sys_sched_setattr c rq find (pos pid) (some u) flags s =
      if not (flags == 0) then refused einval else (elim (sched_copy_attr u) [
        | copy_refused e ↦ refused e
        | copied attr ↦ if negative attr.sched_policy then refused einval else (elim (find pid) [
          | none ↦ refused esrch
          | some p ↦ sched_setscheduler m (record c { user = true }) rq p attr true s
        ])
      ])

check_tail_lem :
    (byte : ℕ → Option ℕ) (n addr i : ℕ)
    → check_tail byte n addr ≡ none
    → addr ≤ i
    → i < addr + n
    → byte i ≡ some 0
unfolding check_tail
check_tail_lem byte zero addr i h a b = absurd (omega arith)
check_tail_lem byte (suc n) addr i h a b = ground (arith, check_tail_lem byte n (addr + 1) i)

clamped_lem :
    (o : Option SchedAttr) (attr : SchedAttr)
    → clamped o ≡ copied attr
    → (negsuc 19 ≤ℤ attr.sched_nice) × (attr.sched_nice ≤ℤ pos 19)
clamped_lem o attr h = ground arith

after_tail :
    (r : Option Errno) (o : Option SchedAttr) (attr : SchedAttr)
    → Path CopyResult (elim r [ some e ↦ copy_refused e | none ↦ clamped o ]) (copied attr)
    → (r ≡ none) × (clamped o ≡ copied attr)
after_tail none o attr h = (refl, h)
after_tail (some e) o attr h = ground arith

copy_sized-copied :
    (u : UserAttr) (attr : SchedAttr) (size i : ℕ)
    → copy_sized u size ≡ copied attr
    → 48 ≤ i
    → i < size
    → (u.byte i ≡ some 0) × (clamped (u.fields 48) ≡ copied attr)
unfolding copy_sized
copy_sized-copied u attr size i h a b =
    let long : ltb 48 size ≡ true = ground arith in
    let not_short : ltb size 48 ≡ false = ground arith in
    let (z, c) =
      after_tail (check_tail u.byte (size - 48) 48) (u.fields 48) attr
        (rw (not_short, long) at h) in
    (check_tail_lem u.byte (size - 48) 48 i z a (omega arith), c)

copied_size :
    (u : UserAttr) (attr : SchedAttr) (size i : ℕ)
    → sched_copy_attr u ≡ copied attr
    → u.size ≡ some size
    → i < size
    → (size ≤ 4096) × (copy_sized u size ≡ copied attr)
unfolding sched_copy_attr
copied_size u attr size i h e b = ground arith

-- Of a structure of more than 48 bytes that sched_copy_attr lets through, the bytes behind the 48 are
-- zero and the whole is not longer than a page; the nice value of the copy is from -20 to 19.
pub sched_copy_attr-copied :
    (u : UserAttr) (attr : SchedAttr) (size i : ℕ)
    → sched_copy_attr u ≡ copied attr
    → u.size ≡ some size
    → 48 ≤ i
    → i < size
    → (size ≤ 4096)
      × (u.byte i ≡ some 0)
      × (negsuc 19 ≤ℤ attr.sched_nice)
      × (attr.sched_nice ≤ℤ pos 19)
sched_copy_attr-copied u attr size i h e a b =
    let (small, run) = copied_size u attr size i h e b in
    let (zero_byte, c) = copy_sized-copied u attr size i run a b in
    let (low, high) = clamped_lem (u.fields 48) attr c in (small, zero_byte, low, high)

-- The seven policies.
pub valid-cases :
    (policy : ℤ)
    → valid_policy policy ≡ true
    → (n : ℕ) × (policy ≡ pos n)
      × ((n ≡ 0) ⊎ ((n ≡ 1) ⊎ ((n ≡ 2) ⊎ ((n ≡ 3) ⊎ ((n ≡ 5) ⊎ ((n ≡ 6) ⊎ (n ≡ 10)))))))
valid-cases (pos n) h = (n, refl, ground arith)
valid-cases (negsuc n) h = ground arith

module _ {L : ListApi} (m : Methods L) where
  -- An answer that names a small policy, with the flag or without.
  abbrev Decodes : ℕ → Bool → ℕ → Task → Type 0
  Decodes n reset priority t =
      let a = legacy_attr m (or_flag (pos n) (if reset then 0x40000000 else 0)) priority t in
      (a.sched_policy ≡ pos n) × (a.sched_flags ≡ (if reset then 1 else 0))

  legacy_attr-Decodes :
      (n priority : ℕ) (reset : Bool) (t : Task)
      → (n ≡ 0) ⊎ ((n ≡ 1) ⊎ ((n ≡ 2) ⊎ ((n ≡ 3) ⊎ ((n ≡ 5) ⊎ ((n ≡ 6) ⊎ (n ≡ 10))))))
      → Decodes n reset priority t
  legacy_attr-Decodes n priority true t c = elim c [
    | inl e ↦ rw e (refl, refl)
    | inr (inl e) ↦ rw e (refl, refl)
    | inr (inr (inl e)) ↦ rw e (refl, refl)
    | inr (inr (inr (inl e))) ↦ rw e (refl, refl)
    | inr (inr (inr (inr (inl e)))) ↦ rw e (refl, refl)
    | inr (inr (inr (inr (inr (inl e))))) ↦ rw e (refl, refl)
    | inr (inr (inr (inr (inr (inr e))))) ↦ rw e (refl, refl)
  ]
  legacy_attr-Decodes n priority false t c = elim c [
    | inl e ↦ rw e (refl, refl)
    | inr (inl e) ↦ rw e (refl, refl)
    | inr (inr (inl e)) ↦ rw e (refl, refl)
    | inr (inr (inr (inl e))) ↦ rw e (refl, refl)
    | inr (inr (inr (inr (inl e)))) ↦ rw e (refl, refl)
    | inr (inr (inr (inr (inr (inl e))))) ↦ rw e (refl, refl)
    | inr (inr (inr (inr (inr (inr e))))) ↦ rw e (refl, refl)
  ]

  -- The answer of sched_getscheduler for a task of a valid policy, given back as the policy to
  -- sched_setscheduler, stands for the policy of the task and for its reset flag.
  pub getscheduler-roundtrip :
      (find : ℕ → Option ℕ) (tasks : ℕ → Task) (pid p priority : ℕ) (t : Task)
      → find pid ≡ some p
      → valid_policy (tasks p).policy ≡ true
      → (answer : ℤ) × (sched_getscheduler find tasks none (pos pid) ≡ inr answer)
        × ((legacy_attr m answer priority t).sched_policy ≡ (tasks p).policy)
        × ((legacy_attr m answer priority t).sched_flags
            ≡ (if (tasks p).sched_reset_on_fork then 1 else 0))
  unfolding sched_getscheduler
  getscheduler-roundtrip find tasks pid p priority t f v =
      let (n, e, c) = valid-cases (tasks p).policy v in
      let (policy, flags) = legacy_attr-Decodes n priority (tasks p).sched_reset_on_fork t c in
      (
        or_flag (tasks p).policy (if (tasks p).sched_reset_on_fork then 0x40000000 else 0),
        rw (f, sched_getscheduler) refl,
        rw e policy,
        rw e flags,
      )
