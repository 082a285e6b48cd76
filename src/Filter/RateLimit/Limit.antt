-- ===== src/Filter/RateLimit/Limit.antt =====
-- What rate_limit.c lets pass, and where its flows come from.
use native.Mathlib.Decide.{dec_lt}
use native.Mathlib.Nat.{mul_assoc}
use kenrel_learning.Common.{
  ℕ, ◌+◌, ◌-◌, ◌*◌, ◌%◌, ◌^◌, ◌==◌, Bool-cases, ◌≤◌, ◌<◌, ◌≡◌, ◌≢◌, ◌⊎◌, inl, inr, ap, sym, ◌∙◌,
  true, false, none, some, if◌then◌else◌, arith,
}
use kenrel_learning.Filter.Packet.{
  Packet, Verdict, nf_accept, nf_drop, hash, payload_len, add32, hash_lem,
}
use kenrel_learning.Filter.RateLimit.{
  Myflow, FlowTable, Env, store, index, get_flow, refill, charge, verdict, ends, oops, handle,
  drop_flow,
}

charge-limit :
    (e : Env) (f : Myflow) (len : ℕ)
    → ((charge e f len).next_limit ≡ f.next_limit) × ((charge e f len).granular ≡ f.granular)
unfolding charge
charge-limit e f len = (ground arith, ground arith)

refill-bytes :
    (e : Env) (f : Myflow)
    → ((refill e f).byte_count ≡ f.byte_count) × ((refill e f).byte_drop_count ≡ f.byte_drop_count)
unfolding refill
refill-bytes e f = (ground arith, ground arith)

charge-cases :
    (e : Env) (f : Myflow) (len : ℕ)
    → ((verdict e f ≡ nf_accept)
        × ((f.byte_count < e.threshold) ⊎ (f.byte_count < f.next_limit))
        × ((charge e f len).byte_count ≡ add32 f.byte_count len)
        × ((charge e f len).byte_drop_count ≡ f.byte_drop_count))
      ⊎ ((verdict e f ≡ nf_drop)
          × (e.threshold ≤ f.byte_count)
          × (f.next_limit ≤ f.byte_count)
          × ((charge e f len).byte_count ≡ f.byte_count)
          × ((charge e f len).byte_drop_count ≡ add32 f.byte_drop_count len))
unfolding charge verdict
charge-cases e f len = elim (dec_lt f.byte_count e.threshold) [
  | yes a ↦ inl (ground arith, inl a, ground arith, ground arith)
  | no a ↦ elim (dec_lt f.byte_count f.next_limit) [
    | yes b ↦ inl (ground arith, inr b, ground arith, ground arith)
    | no b ↦ inr (ground arith, omega arith, omega arith, ground arith, ground arith)
  ]
]

-- Above the threshold and after the time `granular` of the last growth, the limit has grown by the
-- time since then, in jiffies times `rate` times the milliseconds of a jiffy; the time counts from
-- the first such packet. The sums wrap as unsigned int.
abbrev pub IsLimit : Env → Myflow → ℕ → ℕ → Type 0
IsLimit e f limit since =
    ((e.threshold < f.byte_count)
      × (e.time_after e.jiffies f.granular ≡ true)
      × (since ≡ e.jiffies)
      × (((f.granular ≡ 0) × (limit ≡ f.next_limit % 2 ^ 32))
          ⊎ ((f.granular ≢ 0)
              × (limit
                  ≡ (f.next_limit
                      + (e.jiffies + 2 ^ 64 - f.granular) * e.rate * e.hz_to_msec_num % 2 ^ 64)
                    % 2 ^ 32))))
    ⊎ (((f.byte_count ≤ e.threshold) ⊎ (e.time_after e.jiffies f.granular ≡ false))
        × (since ≡ f.granular)
        × (limit ≡ f.next_limit))

no_time : (j r h : ℕ) → (j + 2 ^ 64 - j) * r * h % 2 ^ 64 ≡ 0
no_time j r h =
    let e : j + 2 ^ 64 - j ≡ 2 ^ 64 = omega arith in rw (e, mul_assoc (2 ^ 64) r h) (omega arith)

refill-IsLimit : (e : Env) (f : Myflow) → IsLimit e f (refill e f).next_limit (refill e f).granular
unfolding refill
refill-IsLimit e f = elim (dec_lt e.threshold f.byte_count) [
  | yes a ↦ elim (Bool-cases (e.time_after e.jiffies f.granular)) [
    | inl t ↦ elim (Bool-cases (f.granular == 0)) [
      | inl z ↦ inl (
        a,
        t,
        ground arith,
        inl (ground arith, ground (arith, no_time e.jiffies e.rate e.hz_to_msec_num)),
      )
      | inr z ↦ inl (a, t, ground arith, inr (λ g. ground (arith, g), ground arith))
    ]
    | inr t ↦ inr (inr t, ground arith, ground arith)
  ]
  | no a ↦ inr (inl (omega arith), ground arith, ground arith)
]

-- The flow of the packet has become g, and the verdict v is the limit's.
abbrev pub Limited : Env → FlowTable → Packet → Myflow → Type 0
Limited e table p f =
    (g : Myflow) × (v : Verdict) × (drop_flow e table p ≡ ends (store table (index p) (some g)) v)
    × IsLimit e f g.next_limit g.granular
    × (((v ≡ nf_accept)
          × ((f.byte_count < e.threshold) ⊎ (f.byte_count < g.next_limit))
          × (g.byte_count ≡ add32 f.byte_count (payload_len p))
          × (g.byte_drop_count ≡ f.byte_drop_count))
        ⊎ ((v ≡ nf_drop)
            × (e.threshold ≤ f.byte_count)
            × (g.next_limit ≤ f.byte_count)
            × (g.byte_count ≡ f.byte_count)
            × (g.byte_drop_count ≡ add32 f.byte_drop_count (payload_len p))))

-- A data packet that does not end its flow is passed when the flow is below the threshold or below
-- its limit, and dropped when it is below neither; its length goes to the count of bytes passed or
-- of bytes dropped, and no other entry changes. The limit grows first, if the flow is above the
-- threshold and time has passed, by that time times the rate.
pub drop_flow-limits :
    (e : Env) (table : FlowTable) (p : Packet) (f : Myflow)
    → p.is_tcp ≡ true
    → p.fin ≡ false
    → payload_len p ≢ 0
    → table (index p) ≡ some f
    → Limited e table p f
unfolding drop_flow get_flow handle
drop_flow-limits e table p f t n l h = (
  charge e (refill e f) (payload_len p),
  verdict e (refill e f),
  ground arith,
  (let (l, t) = charge-limit e (refill e f) (payload_len p) in rw (l, t) (refill-IsLimit e f)),
  (let (l, t) = charge-limit e (refill e f) (payload_len p) in
      ground (arith, charge-cases e (refill e f) (payload_len p), refill-bytes e f, l)),
)

-- A packet of another connection with the same hash, such as one of the other direction, is counted
-- on the flow that has the entry, whose addresses stay.
pub get_flow-shares :
    (e : Env) (table : FlowTable) (p : Packet) (f : Myflow)
    → table (hash p.daddr p.saddr p.dport p.sport) ≡ some f
    → get_flow e p (table (index p)) ≡ some f
unfolding get_flow
get_flow-shares e table p f h =
    ap (get_flow e p) (sym (ap table (hash_lem p.saddr p.daddr p.sport p.dport).1) ∙ h)

-- If no memory is left for a new flow, its packet is dropped; but if the packet is also the last of
-- its flow, the hook reads the counters of a flow that is not there.
pub drop_flow-no_memory :
    (e : Env) (table : FlowTable) (p : Packet)
    → p.is_tcp ≡ true
    → table (index p) ≡ none
    → e.alloc ≡ none
    → drop_flow e table p ≡ (if p.fin then oops else ends table nf_drop)
unfolding drop_flow get_flow handle
drop_flow-no_memory e table p t h a = ground arith
