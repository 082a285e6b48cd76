-- ===== src/Sched/Change/Access.antt =====
-- Whom __sched_setscheduler of temp/kernel/sched/core.c lets change the policy of a task.
use kenrel_learning.Common.{
  ℕ, ◌≤◌, ◌≡◌, ◌⊎◌, inl, ◌==◌, ltb, bit_and, refl, ℤ, pos, ltb_ℤ, Bool, true, false, not, ◌&&◌,
  Option, none, some, if◌then◌else◌, arith,
}
use kenrel_learning.Sched.Task.{Task, eq_ℤ, sched_ts, sched_normal}
use kenrel_learning.Sched.Policy.{
  SchedAttr, idle_policy, fair_policy, rt_policy, dl_policy, valid_policy, prio_to_nice,
}

pub data Errno : Type 0 where
  einval eperm ebusy esrch efault e2big efbig : Errno
  denied : ℕ → Errno

-- The caller, and what the kernel knows of the task besides its scheduling fields. `checkparam_dl`
-- is __checkparam_dl of deadline.c, `security` the answer of the security module.
pub record Caller : Type 0 where
  pub user : Bool
  pub capable : Bool
  pub same_owner : Bool
  pub rlimit_rtprio : ℕ
  pub can_nice : ℤ → Bool
  pub checkparam_dl : SchedAttr → Bool
  pub security : Option ℕ

abbrev pub negative : ℤ → Bool
negative z = ltb_ℤ z (pos 0)

-- The policy that is meant: a negative one stands for the task's own.
abbrev pub meant : Task → SchedAttr → ℤ
meant p attr = if negative attr.sched_policy then p.policy else attr.sched_policy

abbrev pub reset_on_fork : Task → SchedAttr → Bool
reset_on_fork p attr =
    if negative attr.sched_policy
    then p.sched_reset_on_fork
    else not (bit_and attr.sched_flags 1 == 0)

-- The parameters. MAX_USER_RT_PRIO and MAX_RT_PRIO are both 100; 0x10000007 is SCHED_FLAG_ALL | SCHED_FLAG_SUGOV.
unfoldable pub check_params : Caller → Task → SchedAttr → Option Errno
check_params c p attr =
    let policy = meant p attr in
    if not (negative attr.sched_policy) && not (valid_policy policy)
    then some einval
    else if not (bit_and attr.sched_flags 0x10000007 == attr.sched_flags)
    then some einval
    else if ltb 99 attr.sched_priority
    then some einval
    else if dl_policy policy && not (c.checkparam_dl attr)
    then some einval
    else if rt_policy policy && attr.sched_priority == 0
    then some einval
    else if not (rt_policy policy) && not (attr.sched_priority == 0)
    then some einval
    else none

-- What a caller without CAP_SYS_NICE may not do.
unfoldable pub check_user : Caller → Task → SchedAttr → Option Errno
check_user c p attr =
    let policy = meant p attr in
    let nice = prio_to_nice p.static_prio in
    if fair_policy policy && ltb_ℤ attr.sched_nice nice && not (c.can_nice attr.sched_nice)
    then some eperm
    else if rt_policy policy && not (eq_ℤ policy p.policy) && c.rlimit_rtprio == 0
    then some eperm
    else if rt_policy policy
        && ltb p.rt_priority attr.sched_priority
        && ltb c.rlimit_rtprio attr.sched_priority
    then some eperm
    else if dl_policy policy
    then some eperm
    else if idle_policy p.policy && not (idle_policy policy) && not (c.can_nice nice)
    then some eperm
    else if not c.same_owner
    then some eperm
    else if p.sched_reset_on_fork && not (reset_on_fork p attr)
    then some eperm
    else none

-- For a user: no SCHED_FLAG_SUGOV, and the security module.
abbrev pub check_security : Caller → SchedAttr → Option Errno
check_security c attr =
    if not (bit_and attr.sched_flags 0x10000000 == 0)
    then some einval
    else elim c.security [ none ↦ none | some e ↦ some (denied e) ]

abbrev pub or_error : Option Errno → Option Errno → Option Errno
or_error none o = o
or_error (some e) o = some e

-- The checks before the lock is taken, in their order; `none` lets the change go on.
unfoldable pub check_access : Caller → Task → SchedAttr → Option Errno
unfolding check_params check_user
check_access c p attr = or_error (check_params c p attr) (
    or_error (if c.user && not c.capable then check_user c p attr else none)
      (if c.user then check_security c attr else none))

check_params-none :
    (c : Caller) (p : Task) (attr : SchedAttr)
    → check_params c p attr ≡ none
    → (attr.sched_priority ≤ 99) × ((rt_policy (meant p attr) ≡ true) ⊎ (attr.sched_priority ≡ 0))
unfolding check_params
check_params-none c p attr h = ground arith

pass :
    (b : Bool) (later : Option Errno)
    → (if b then some eperm else later) ≡ none
    → (b ≡ false) × (later ≡ none)
pass true later h = absurd (cc)
pass false later h = (refl, h)

within_limit :
    (rt : Bool) (x y z : ℕ) → (rt && ltb x y && ltb z y) ≡ false → (rt ≡ false) ⊎ (y ≤ x) ⊎ (y ≤ z)
within_limit false x y z h = inl refl
within_limit true x y z h = ground arith

not-false : (b : Bool) → not b ≡ false → b ≡ true
not-false true h = refl
not-false false h = absurd (cc)

check_user-none :
    (c : Caller) (p : Task) (attr : SchedAttr)
    → check_user c p attr ≡ none
    → (c.same_owner ≡ true)
      × (dl_policy (meant p attr) ≡ false)
      × ((rt_policy (meant p attr) ≡ false)
          ⊎ (attr.sched_priority ≤ p.rt_priority)
          ⊎ (attr.sched_priority ≤ c.rlimit_rtprio))
unfolding check_user
check_user-none c p attr h =
    let (_, h1) = pass _ _ h in
    let (_, h2) = pass _ _ h1 in
    let (r, h3) = pass _ _ h2 in
    let (d, h4) = pass _ _ h3 in
    let (_, h5) = pass _ _ h4 in
    let (o, _) = pass _ _ h5 in
    (
      not-false c.same_owner o,
      d,
      within_limit (rt_policy (meant p attr)) p.rt_priority attr.sched_priority c.rlimit_rtprio r,
    )

or_error-none : (a b : Option Errno) → or_error a b ≡ none → (a ≡ none) × (b ≡ none)
or_error-none none b h = (refl, h)
or_error-none (some e) b h = absurd (cc)

check_access-parts :
    (c : Caller) (p : Task) (attr : SchedAttr)
    → c.user ≡ true
    → c.capable ≡ false
    → check_access c p attr ≡ none
    → (check_params c p attr ≡ none) × (check_user c p attr ≡ none)
unfolding check_access
check_access-parts c p attr u n h =
    let (a, b) = or_error-none (check_params c p attr) _ h in
    let (d, _) =
      or_error-none (if c.user && not c.capable then check_user c p attr else none) _ b in
    (a, rw (u, n) at d)

-- A caller without CAP_SYS_NICE that is let through owns the task, asks for no deadline policy, and
-- for a real-time priority only up to its limit or the one that the task has.
pub check_access-unprivileged :
    (c : Caller) (p : Task) (attr : SchedAttr)
    → c.user ≡ true
    → c.capable ≡ false
    → check_access c p attr ≡ none
    → (c.same_owner ≡ true)
      × (dl_policy (meant p attr) ≡ false)
      × (attr.sched_priority ≤ 99)
      × ((attr.sched_priority ≤ p.rt_priority) ⊎ (attr.sched_priority ≤ c.rlimit_rtprio))
check_access-unprivileged c p attr u n h =
    let (a, b) = check_access-parts c p attr u n h in
    ground (arith, check_params-none c p attr a, check_user-none c p attr b)

-- The owner of a SCHED_NORMAL task may give it the TS policy with no privilege and whatever the
-- limits are, though the TS class runs before the fair one.
pub check_access-ts :
    (c : Caller) (p : Task) (attr : SchedAttr)
    → c.same_owner ≡ true
    → c.security ≡ none
    → p.policy ≡ sched_normal
    → p.sched_reset_on_fork ≡ false
    → attr.sched_policy ≡ sched_ts
    → attr.sched_flags ≡ 0
    → attr.sched_priority ≡ 0
    → check_access c p attr ≡ none
unfolding check_access check_params check_user
check_access-ts c p attr o s n r t f z = ground arith
