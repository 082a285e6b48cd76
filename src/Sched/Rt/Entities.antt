-- ===== src/Sched/Rt/Entities.antt =====
-- __enqueue_rt_entity and __dequeue_rt_entity of rt.c keep the invariant.
use kenrel_learning.Common.{
  ℕ, ◌+◌, ◌-◌, ◌<◌, ◌≡◌, ◌==◌, ltb, refl, ◌∙◌, Bool, true, false, not, inl, inr, length, arith,
  if◌then◌else◌, Bool-cases, bit_and,
}
use kenrel_learning.ListHead.{ListApi, ListLaws, IsUnlinked, IsLinkedAt}
use kenrel_learning.Sched.Rt.{
  RtRq, write_bit, move_entity, inc_rt_prio, inc_rt_tasks, enlist_rt_entity, delist_rt_entity,
  add_rt_entity, dec_rt_prio, dec_rt_tasks, drop_rt_entity,
}
use kenrel_learning.Sched.Rt.Arrays.{
  IsFirst, IsFindFirst, IsArray, Gains, Gains-total, total, total_zero, add_tail-Gains, add-Gains,
  del-Gains, list_empty_lem,
}

-- A task moves to or from the queue: its priority and policy stay, and so do the other tasks.
pub record Marks {L : ListApi} (rq rq' : RtRq L) (p : ℕ) (b : Bool) : Type 0 where
  pub prio : (q : ℕ) → (rq'.tasks q).prio ≡ (rq.tasks q).prio
  pub policy : (q : ℕ) → (rq'.tasks q).is_rr ≡ (rq.tasks q).is_rr
  pub on_rq : (q : ℕ) → (rq'.tasks q).on_rq ≡ (if q == p then b else (rq.tasks q).on_rq)
  pub throttled : rq'.rt_throttled ≡ rq.rt_throttled
  pub rt_queued : rq'.rt_queued ≡ rq.rt_queued
  pub nr_running : rq'.nr_running ≡ rq.nr_running
  pub curr : rq'.curr ≡ rq.curr

pub record Adds {L : ListApi} (rq rq' : RtRq L) (p : ℕ) : Type 0 where
  pub marks : Marks rq rq' p true
  pub gains : Gains L rq.queue rq'.queue p (rq.tasks p).prio
  pub bitmap : rq'.bitmap ≡ write_bit true (rq.tasks p).prio rq.bitmap
  pub rt_nr_running : rq'.rt_nr_running ≡ rq.rt_nr_running + 1
  pub highest :
      rq'.highest ≡ (if ltb (rq.tasks p).prio rq.highest then (rq.tasks p).prio else rq.highest)

module _ {L : ListApi} (rq rq' : RtRq L) (p : ℕ) (a : Adds rq rq' p)
    (small : (rq.tasks p).prio < 100) (v : IsArray rq) where
  lower-IsFirst : IsFirst rq'.bitmap rq'.highest
  lower-IsFirst = elim (Bool-cases (ltb (rq.tasks p).prio rq.highest)) [
    | inl h ↦
        rw (a.bitmap, a.highest, h)
          (record {
            is_set = ground arith;
            none_below = λ j b. ground (arith, v.best.none_below j (ground arith));
          })
    | inr h ↦
        rw (a.bitmap, a.highest, h)
          (record {
            is_set = ground (arith, v.best.is_set);
            none_below = λ j b. ground (arith, v.best.none_below j b);
          })
  ]

  pub Adds-IsArray : IsArray rq'
  Adds-IsArray = record {
    at_prio = λ t i n.
        ground (arith, a.gains.members t i, a.marks.prio t, a.marks.on_rq t, v.at_prio t i);
    once = λ t i. ground (arith, a.gains.members t i, v.once t i);
    present = λ t e.
        ground (
          arith,
          a.marks.on_rq t,
          a.marks.prio t,
          a.gains.members t (rq.tasks t).prio,
          v.present t,
        );
    bits = λ i b. rw a.bitmap (ground (arith, a.gains.longer i, v.bits i b));
    delimiter = rw a.bitmap (ground (arith, v.delimiter));
    counted =
        a.rt_nr_running
        ∙ ground
            (arith, v.counted, Gains-total rq.queue rq'.queue p (rq.tasks p).prio a.gains small);
    best = lower-IsFirst;
  }

pub record Takes {L : ListApi} (find : (ℕ → Bool) → ℕ) (rq rq' : RtRq L) (p : ℕ) : Type 0 where
  pub marks : Marks rq rq' p false
  pub gains : Gains L rq'.queue rq.queue p (rq.tasks p).prio
  pub bitmap :
      (i : ℕ)
      → rq'.bitmap i ≡ (
          if i == (rq.tasks p).prio
          then not (length (L.contents rq'.queue (rq.tasks p).prio) == 0)
          else rq.bitmap i)
  pub rt_nr_running : rq'.rt_nr_running ≡ rq.rt_nr_running - 1
  pub highest : rq'.highest ≡ (
      if not (rq'.rt_nr_running == 0)
      then (if (rq.tasks p).prio == rq.highest then find rq'.bitmap else rq.highest)
      else 100)

module _ {L : ListApi} (find : (ℕ → Bool) → ℕ) (finds : IsFindFirst find) (rq rq' : RtRq L) (p : ℕ)
    (a : Takes find rq rq' p) (small : (rq.tasks p).prio < 100) (v : IsArray rq) where
  end_bit : rq'.bitmap 100 ≡ true
  end_bit = a.bitmap 100 ∙ ground (arith, v.delimiter)

  bits_left : (i : ℕ) → i < 100 → rq'.bitmap i ≡ not (length (L.contents rq'.queue i) == 0)
  bits_left i b = a.bitmap i ∙ ground (arith, a.gains.longer i, v.bits i b)

  counted_left : rq'.rt_nr_running ≡ total 100 (λ i. length (L.contents rq'.queue i))
  counted_left =
      a.rt_nr_running
      ∙ ground (arith, v.counted, Gains-total rq'.queue rq.queue p (rq.tasks p).prio a.gains small)

  left-IsFirst : IsFirst rq'.bitmap rq'.highest
  left-IsFirst = elim (Bool-cases (rq'.rt_nr_running == 0)) [
    | inl h ↦
        rw (a.highest, h)
          (record {
            is_set = end_bit;
            none_below = λ j b.
                (let z =
                    total_zero 100 j (λ i. length (L.contents rq'.queue i))
                      (ground (arith, counted_left)) b in
                  bits_left j b ∙ ground arith);
          })
    | inr h ↦ elim (Bool-cases ((rq.tasks p).prio == rq.highest)) [
      | inl e ↦ rw (a.highest, h, e) (finds rq'.bitmap end_bit)
      | inr e ↦
          rw (a.highest, h, e)
            (record {
              is_set = a.bitmap rq.highest ∙ ground (arith, v.best.is_set);
              none_below = λ j b.
                  (a.bitmap j
                    ∙ ground (
                      arith,
                      v.best.none_below j b,
                      v.best.is_set,
                      v.bits (rq.tasks p).prio small,
                      a.gains.longer (rq.tasks p).prio,
                    ));
            })
    ]
  ]

  pub Takes-IsArray : IsArray rq'
  Takes-IsArray = record {
    at_prio = λ t i n. ground (
      arith,
      a.gains.members t i,
      a.gains.absent i,
      a.marks.prio t,
      a.marks.on_rq t,
      v.at_prio t i,
    );
    once = λ t i. ground (arith, a.gains.members t i, a.gains.absent i, v.once t i);
    present = λ t e.
        ground (
          arith,
          a.marks.on_rq t,
          a.marks.prio t,
          a.gains.members t (rq.tasks t).prio,
          v.present t,
        );
    bits = bits_left;
    delimiter = end_bit;
    counted = counted_left;
    best = left-IsFirst;
  }

pub eq_self : (n : ℕ) → (n == n) ≡ true
eq_self n = ground arith

module _ {L : ListApi} where
  pub inc_rt_prio_lem :
      (rq : RtRq L) (prio : ℕ)
      → inc_rt_prio rq prio
        ≡ record rq { highest = if ltb prio rq.highest then prio else rq.highest }
  unfolding inc_rt_prio
  inc_rt_prio_lem rq prio = elim (Bool-cases (ltb prio rq.highest)) [
    | inl h ↦ rw h refl
    | inr h ↦ rw h refl
  ]

  pub dec_rt_prio_lem :
      (find : (ℕ → Bool) → ℕ) (rq : RtRq L) (prio : ℕ)
      → dec_rt_prio find rq prio ≡ record rq {
        highest =
            if not (rq.rt_nr_running == 0)
            then (if prio == rq.highest then find rq.bitmap else rq.highest)
            else 100;
      }
  unfolding dec_rt_prio
  dec_rt_prio_lem find rq prio = elim (Bool-cases (rq.rt_nr_running == 0)) [
    | inl h ↦ rw h refl
    | inr h ↦ elim (Bool-cases (prio == rq.highest)) [
      | inl e ↦ rw (h, e) refl
      | inr e ↦ rw (h, e) refl
    ]
  ]

module _ {L : ListApi} (laws : ListLaws L) (rq : RtRq L) (p flags : ℕ) where
  -- A task that is in no list is added at the head or at the end of the list of its priority.
  pub add_rt_entity-Adds :
      move_entity flags ≡ true → IsUnlinked L rq.queue p → Adds rq (add_rt_entity rq p flags) p
  unfolding add_rt_entity enlist_rt_entity inc_rt_tasks
  add_rt_entity-Adds m u =
      rw (m, eq_self p, inc_rt_prio_lem)
        (record {
          marks = record {
            prio = λ q. ground arith;
            policy = λ q. ground arith;
            on_rq = λ q. ground arith;
            throttled = refl;
            rt_queued = refl;
            nr_running = refl;
            curr = refl;
          };
          gains = elim (Bool-cases (bit_and flags 0x10 == 0)) [
            | inl h ↦ rw h (add_tail-Gains laws p (rq.tasks p).prio rq.queue u)
            | inr h ↦ rw h (add-Gains laws p (rq.tasks p).prio rq.queue u)
          ];
          bitmap = refl;
          rt_nr_running = refl;
          highest = refl;
        })

  pub add_rt_entity-queue :
      move_entity flags ≡ true
      → (add_rt_entity rq p flags).queue ≡ (
          if not (bit_and flags 0x10 == 0)
          then L.list_add p (rq.tasks p).prio rq.queue
          else L.list_add_tail p (rq.tasks p).prio rq.queue)
  unfolding add_rt_entity enlist_rt_entity inc_rt_tasks
  add_rt_entity-queue m = rw (m, inc_rt_prio_lem) refl

  pub drop_rt_entity-queue :
      (find : (ℕ → Bool) → ℕ)
      → move_entity flags ≡ true
      → (drop_rt_entity find rq p flags).queue ≡ L.list_del p rq.queue
  unfolding drop_rt_entity delist_rt_entity dec_rt_tasks
  drop_rt_entity-queue find m = rw (m, dec_rt_prio_lem) refl

  -- The bit of the list is cleared when the list has become empty.
  cleared :
      (k i : ℕ)
      → IsArray rq
      → k < 100
      → IsLinkedAt L rq.queue p k
      → (if L.list_empty k (L.list_del p rq.queue) then write_bit false k rq.bitmap else rq.bitmap)
          i
        ≡ (if i == k then not (length (L.contents (L.list_del p rq.queue) k) == 0) else rq.bitmap i)
  cleared k i v b l =
      let g = del-Gains laws p k rq.queue l in
      rw (list_empty_lem laws p k (L.list_del p rq.queue))
        (elim (Bool-cases (length (L.contents (L.list_del p rq.queue) k) == 0)) [
          | inl h ↦ rw h (ground arith)
          | inr h ↦ rw h (ground (arith, v.bits k b, g.longer k))
        ])

  -- A task that is in the list of its priority is taken out of it.
  pub drop_rt_entity-Takes :
      (find : (ℕ → Bool) → ℕ)
      → move_entity flags ≡ true
      → IsArray rq
      → (rq.tasks p).prio < 100
      → IsLinkedAt L rq.queue p (rq.tasks p).prio
      → Takes find rq (drop_rt_entity find rq p flags) p
  unfolding drop_rt_entity delist_rt_entity dec_rt_tasks
  drop_rt_entity-Takes find m v b l =
      rw (m, eq_self p, dec_rt_prio_lem)
        (record {
          marks = record {
            prio = λ q. ground arith;
            policy = λ q. ground arith;
            on_rq = λ q. ground arith;
            throttled = refl;
            rt_queued = refl;
            nr_running = refl;
            curr = refl;
          };
          gains = del-Gains laws p (rq.tasks p).prio rq.queue l;
          bitmap = λ i. cleared (rq.tasks p).prio i v b l;
          rt_nr_running = refl;
          highest = refl;
        })
