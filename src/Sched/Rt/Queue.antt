-- ===== src/Sched/Rt/Queue.antt =====
-- enqueue_task_rt, dequeue_rt_entity and pick_next_task_rt of rt.c.
use kenrel_learning.Common.{
  ℕ, ◌+◌, ◌-◌, ◌<◌, ◌≡◌, ◌==◌, refl, ap, sym, ◌∙◌, Bool, true, false, not, ◌&&◌, inl, inr, [], ◌∷◌,
  ◌++◌, count, arith, if◌then◌else◌, Bool-cases, bit_and, remove,
}
use native.Mathlib.Decide.{ℕ_discrete}
use kenrel_learning.ListHead.{ListApi, ListLaws, IsUnlinked, IsLinkedAt}
use kenrel_learning.Sched.Rt.{
  RtTask, RtRq, set_task, move_entity, dequeue_top_rt_rq, enqueue_top_rt_rq, add_rt_entity,
  drop_rt_entity, dequeue_rt_stack, enqueue_rt_entity, dequeue_rt_entity, enqueue_task_rt,
}
use kenrel_learning.Sched.Rt.Arrays.{IsFindFirst, IsArray}
use kenrel_learning.Sched.Rt.Entities.{
  Adds-IsArray, Takes-IsArray, add_rt_entity-Adds, drop_rt_entity-Takes, add_rt_entity-queue,
  drop_rt_entity-queue,
}

-- Besides, the class is queued when it has tasks and is not throttled, and the tasks of the queue
-- are those of the other classes and, when it is queued, its own.
pub record IsRtValid {L : ListApi} (others : ℕ) (rq : RtRq L) : Type 0 where
  pub arrays : IsArray rq
  pub top : rq.rt_queued ≡ (not rq.rt_throttled && not (rq.rt_nr_running == 0))
  pub runs : rq.nr_running ≡ (if rq.rt_queued then others + rq.rt_nr_running else others)

module _ {L : ListApi} (others : ℕ) where
  abbrev pub topped : ℕ → Bool → RtRq L → RtRq L
  topped n b rq = record rq { nr_running = n; rt_queued = b }

  topped-IsArray : (n : ℕ) (b : Bool) (rq : RtRq L) → IsArray rq → IsArray (topped n b rq)
  topped-IsArray n b rq v = record {
    at_prio = v.at_prio;
    once = v.once;
    present = v.present;
    bits = v.bits;
    delimiter = v.delimiter;
    counted = v.counted;
    best = v.best;
  }

  pub branch :
      (b : Bool) (x y : RtRq L)
      → IsRtValid others x
      → IsRtValid others y
      → IsRtValid others (if b then x else y)
  branch true x y v w = v
  branch false x y v w = w

  -- The class taken out as a whole.
  abbrev pub lowered : RtRq L → RtRq L
  lowered rq = topped others false rq

  pub lowered-IsArray : (rq : RtRq L) → IsArray rq → IsArray (lowered rq)
  lowered-IsArray rq v = topped-IsArray others false rq v

  pub taken_out :
      (rq : RtRq L)
      → dequeue_top_rt_rq rq
        ≡ topped (if rq.rt_queued then rq.nr_running - rq.rt_nr_running else rq.nr_running) false rq
  unfolding dequeue_top_rt_rq
  taken_out rq = elim (Bool-cases rq.rt_queued) [ inl h ↦ rw h refl | inr h ↦ rw h refl ]

  pub dequeue_top_lem : (rq : RtRq L) → IsRtValid others rq → dequeue_top_rt_rq rq ≡ lowered rq
  dequeue_top_lem rq v = taken_out rq ∙ ap (λ n. topped n false rq) (ground (arith, v.runs))

  abbrev pub ready : RtRq L → Bool
  ready rq = not rq.rt_throttled && not (rq.rt_nr_running == 0)

  pub put_in :
      (rq : RtRq L)
      → rq.rt_queued ≡ false
      → enqueue_top_rt_rq rq
        ≡ topped
            (if ready rq then rq.nr_running + rq.rt_nr_running else rq.nr_running)
            (ready rq)
            rq
  unfolding enqueue_top_rt_rq
  put_in rq q = elim (Bool-cases rq.rt_throttled) [
    | inl h ↦ rw (q, h) refl
    | inr h ↦ elim (Bool-cases (rq.rt_nr_running == 0)) [
      | inl e ↦ rw (q, h, e) refl
      | inr e ↦ rw (q, h, e) refl
    ]
  ]

  pub enqueue_top_lem :
      (rq : RtRq L)
      → rq.rt_queued ≡ false
      → rq.nr_running ≡ others
      → IsArray rq
      → IsRtValid others (enqueue_top_rt_rq rq)
        × ((enqueue_top_rt_rq rq).queue ≡ rq.queue)
        × ((enqueue_top_rt_rq rq).tasks ≡ rq.tasks)
  enqueue_top_lem rq q n v =
      rw (put_in rq q)
        (record { arrays = topped-IsArray _ _ rq v; top = refl; runs = rw n refl }, refl, refl)

module _ {L : ListApi} (rq : RtRq L) (v : IsArray rq) (p : ℕ) where
  pub unlinked : (rq.tasks p).on_rq ≡ false → IsUnlinked L rq.queue p
  unlinked h j = elim (ℕ_discrete (count p (L.contents rq.queue j)) 0) [
    | yes e ↦ e
    | no ne ↦ (let (_, _, on) = v.at_prio p j (omega arith) in absurd (ground arith))
  ]

  pub linked : (rq.tasks p).on_rq ≡ true → IsLinkedAt L rq.queue p (rq.tasks p).prio
  linked h = record {
    here = omega (arith, v.once p (rq.tasks p).prio, v.present p h);
    elsewhere = λ j n. elim (ℕ_discrete (count p (L.contents rq.queue j)) 0) [
      | yes e ↦ e
      | no ne ↦ (let (same, _, _) = v.at_prio p j (omega arith) in absurd (n (sym same)))
    ];
  }

  pub small : (rq.tasks p).on_rq ≡ true → (rq.tasks p).prio < 100
  small h = (v.at_prio p (rq.tasks p).prio (v.present p h)).1

-- The contents of the lists after a task was added to list `k`, at the head or at the end.
abbrev pub Placed : (L : ListApi) → L.Heads → ℕ → ℕ → Bool → L.Heads → Type 0
Placed L hs p k head hs' =
    (j : ℕ)
    → L.contents hs' j ≡ (
        if j == k
        then (if head then p ∷ L.contents hs j else L.contents hs j ++ p ∷ [])
        else L.contents hs j)

module _ {L : ListApi} (laws : ListLaws L) (find : (ℕ → Bool) → ℕ) (finds : IsFindFirst find)
    (others : ℕ) where
  placed :
      (hs : L.Heads) (p k : ℕ) (head : Bool)
      → IsUnlinked L hs p
      → Placed L hs p k head (if head then L.list_add p k hs else L.list_add_tail p k hs)
  placed hs p k true u j = laws.contents-add p k j hs u
  placed hs p k false u j = laws.contents-add_tail p k j hs u

  enqueue_entity :
      (rq : RtRq L) (p flags : ℕ)
      → IsRtValid others rq
      → (rq.tasks p).on_rq ≡ false
      → (rq.tasks p).prio < 100
      → move_entity flags ≡ true
      → IsRtValid others (enqueue_rt_entity find rq p flags)
        × Placed L rq.queue p
            (rq.tasks p).prio
            (not (bit_and flags 0x10 == 0))
            (enqueue_rt_entity find rq p flags).queue
        × (((enqueue_rt_entity find rq p flags).tasks p).on_rq ≡ true)
  unfolding enqueue_rt_entity dequeue_rt_stack
  enqueue_entity rq p flags v off b m =
      let low = lowered others rq in
      let u = unlinked rq v.arrays p off in
      let adds = add_rt_entity-Adds laws low p flags m u in
      let (valid, same, tasks) =
        enqueue_top_lem others (add_rt_entity low p flags) adds.marks.rt_queued
          adds.marks.nr_running
          (Adds-IsArray low (add_rt_entity low p flags) p adds b
            (lowered-IsArray others rq v.arrays)) in
      rw (dequeue_top_lem others rq v, off)
        (
          valid,
          λ j.
              rw (same, add_rt_entity-queue laws low p flags m)
                (placed rq.queue p (rq.tasks p).prio (not (bit_and flags 0x10 == 0)) u j),
          rw tasks (adds.marks.on_rq p ∙ ground arith),
        )

  dequeue_entity :
      (rq : RtRq L) (p flags : ℕ)
      → IsRtValid others rq
      → (rq.tasks p).on_rq ≡ true
      → move_entity flags ≡ true
      → IsRtValid others (dequeue_rt_entity find rq p flags)
        × ((j : ℕ)
            → L.contents (dequeue_rt_entity find rq p flags).queue j
              ≡ remove p (L.contents rq.queue j))
        × (((dequeue_rt_entity find rq p flags).tasks p).on_rq ≡ false)
  unfolding dequeue_rt_entity dequeue_rt_stack
  dequeue_entity rq p flags v on m =
      let low = lowered others rq in
      let b = small rq v.arrays p on in
      let l = linked rq v.arrays p on in
      let low_valid = lowered-IsArray others rq v.arrays in
      let takes = drop_rt_entity-Takes laws low p flags find m low_valid b l in
      let (valid, same, tasks) =
        enqueue_top_lem others (drop_rt_entity find low p flags) takes.marks.rt_queued
          takes.marks.nr_running
          (Takes-IsArray find finds low (drop_rt_entity find low p flags) p takes b low_valid) in
      rw (dequeue_top_lem others rq v, on)
        (
          valid,
          λ j.
              rw (same, drop_rt_entity-queue laws low p flags find m)
                (laws.contents-del p (rq.tasks p).prio j rq.queue l),
          rw tasks (takes.marks.on_rq p ∙ ground arith),
        )

  -- New slices and timeouts do not matter to the invariant.
  pub renewed :
      (rq : RtRq L) (p : ℕ) (t : RtTask)
      → t.prio ≡ (rq.tasks p).prio
      → t.on_rq ≡ (rq.tasks p).on_rq
      → IsRtValid others rq
      → IsRtValid others (record rq { tasks = set_task rq.tasks p t })
  renewed rq p t e f v = record {
    arrays = record {
      at_prio = λ q i n. ground (arith, v.arrays.at_prio q i n);
      once = v.arrays.once;
      present = λ q on. ground (arith, v.arrays.present q);
      bits = v.arrays.bits;
      delimiter = v.arrays.delimiter;
      counted = v.arrays.counted;
      best = v.arrays.best;
    };
    top = v.top;
    runs = v.runs;
  }

  -- A task that is not queued, with a priority below 100, is put at the end of the list of its
  -- priority, or at its head if the flags say so, no other list changes, and the queue stays valid.
  -- The flags are not those of a task that keeps its place.
  pub enqueue_task_rt_lem :
      (rq : RtRq L) (p flags : ℕ)
      → IsRtValid others rq
      → (rq.tasks p).on_rq ≡ false
      → (rq.tasks p).prio < 100
      → move_entity flags ≡ true
      → IsRtValid others (enqueue_task_rt find rq p flags)
        × Placed L rq.queue p
            (rq.tasks p).prio
            (not (bit_and flags 0x10 == 0))
            (enqueue_task_rt find rq p flags).queue
        × (((enqueue_task_rt find rq p flags).tasks p).on_rq ≡ true)
  unfolding enqueue_task_rt
  enqueue_task_rt_lem rq p flags v off b m = elim (Bool-cases (bit_and flags 0x01 == 0)) [
    | inl h ↦ rw h (enqueue_entity rq p flags v off b m)
    | inr h ↦
        let t : RtTask = record (rq.tasks p) { timeout = 0 } in
        let at : set_task rq.tasks p t p ≡ t = ground arith in
        let r : RtRq L = record rq { tasks = set_task rq.tasks p t } in
        rw h
          (rw at at (enqueue_entity r p flags (renewed rq p t refl refl v) (rw at off) (rw at b) m))
  ]

  -- A task that is queued is taken out of its list, no other list changes, and the queue stays valid.
  pub dequeue_rt_entity_lem :
      (rq : RtRq L) (p flags : ℕ)
      → IsRtValid others rq
      → (rq.tasks p).on_rq ≡ true
      → move_entity flags ≡ true
      → IsRtValid others (dequeue_rt_entity find rq p flags)
        × ((j : ℕ)
            → L.contents (dequeue_rt_entity find rq p flags).queue j
              ≡ remove p (L.contents rq.queue j))
        × (((dequeue_rt_entity find rq p flags).tasks p).on_rq ≡ false)
  dequeue_rt_entity_lem rq p flags v on m = dequeue_entity rq p flags v on m
