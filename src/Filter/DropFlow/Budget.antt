-- ===== src/Filter/DropFlow/Budget.antt =====
-- How many bytes drop_flow_byte.c lets a flow pass.
use kenrel_learning.Common.{
  ℕ, ◌+◌, ◌≤◌, ◌<◌, ◌^◌, ◌==◌, ◌≡◌, ◌≢◌, ◌⊎◌, inl, inr, true, false, if◌then◌else◌, arith,
}
use native.Mathlib.Decide.{dec_lt}
use kenrel_learning.Filter.Packet.{
  Packet, nf_accept, nf_drop, payload_len, payload_len_lem, IsSound, add32,
}
use kenrel_learning.Filter.DropFlow.{
  Myflow, FlowTable, store, get_flow, charge, verdict, index, drop_flow,
}

-- No flow has passed a whole packet more than the budget.
abbrev pub IsWithin : ℕ → FlowTable → Type 0
IsWithin bcount table = (i : ℕ) → (table i).byte_count < bcount + 2 ^ 16

charge-within :
    (bcount : ℕ) (f : Myflow) (len : ℕ)
    → len < 2 ^ 16
    → f.byte_count < bcount + 2 ^ 16
    → (charge bcount f len).byte_count < bcount + 2 ^ 16
unfolding charge add32
charge-within bcount f len h v = ground arith

payload-lt : (p : Packet) → IsSound p → payload_len p < 2 ^ 16
payload-lt p s = omega (arith, payload_len_lem p s, s.short)

get_flow-bytes : (f : Myflow) (p : Packet) → (get_flow f p).byte_count ≡ f.byte_count
unfolding get_flow
get_flow-bytes f p = ground arith

-- The bytes that are counted as passed stay below the budget plus one packet, if the budget is
-- positive and the headers of the packet are not longer than the packet.
pub drop_flow-IsWithin :
    (port bcount : ℕ) (table : FlowTable) (p : Packet)
    → 0 < bcount
    → IsSound p
    → IsWithin bcount table
    → IsWithin bcount (drop_flow port bcount table p).0
unfolding drop_flow
drop_flow-IsWithin port bcount table p b s v i =
    let f = get_flow (table (index p)) p in
    ground (
      arith,
      get_flow-bytes (table (index p)) p,
      charge-within bcount f (payload_len p) (payload-lt p s),
      v i,
      v (index p),
    )

drop_flow-data :
    (port bcount : ℕ) (table : FlowTable) (p : Packet)
    → p.is_tcp ≡ true
    → p.fin ≡ false
    → (p.sport ≡ port) ⊎ (p.dport ≡ port)
    → payload_len p ≢ 0
    → drop_flow port bcount table p ≡ (
      store table (index p) (charge bcount (get_flow (table (index p)) p) (payload_len p)),
      verdict bcount (get_flow (table (index p)) p),
    )
unfolding drop_flow
drop_flow-data port bcount table p t n w l = ground arith

drop_flow-charges :
    (bcount : ℕ) (f : Myflow) (p : Packet)
    → let g = charge bcount (get_flow f p) (payload_len p) in
      ((f.byte_count < bcount)
        × (verdict bcount (get_flow f p) ≡ nf_accept)
        × (g.byte_count ≡ add32 f.byte_count (payload_len p))
        × (g.byte_drop_count ≡ f.byte_drop_count))
      ⊎ ((bcount ≤ f.byte_count)
          × (verdict bcount (get_flow f p) ≡ nf_drop)
          × (g.byte_count ≡ f.byte_count)
          × (g.byte_drop_count ≡ add32 f.byte_drop_count (payload_len p)))
unfolding charge verdict get_flow
drop_flow-charges bcount f p = elim (dec_lt f.byte_count bcount) [
  | yes b ↦ inl (b, ground arith, ground arith, ground arith)
  | no b ↦ inr (omega arith, ground arith, ground arith, ground arith)
]

-- The packet is passed exactly when its flow is below the budget, its length is added to the bytes
-- passed or to the bytes dropped, and no other entry changes.
abbrev pub Counted : ℕ → ℕ → FlowTable → Packet → Type 0
Counted port bcount table p =
    let f = table (index p) in
    let out = drop_flow port bcount table p in
    let f' = out.0 (index p) in
    ((j : ℕ) → out.0 j ≡ (if j == index p then f' else table j))
    × (((f.byte_count < bcount)
          × (out.1 ≡ nf_accept)
          × (f'.byte_count ≡ add32 f.byte_count (payload_len p))
          × (f'.byte_drop_count ≡ f.byte_drop_count))
        ⊎ ((bcount ≤ f.byte_count)
            × (out.1 ≡ nf_drop)
            × (f'.byte_count ≡ f.byte_count)
            × (f'.byte_drop_count ≡ add32 f.byte_drop_count (payload_len p))))

-- A TCP data packet of the watched port that does not end its flow is passed exactly when the flow
-- is below its budget, its length is then added to the bytes passed and else to the bytes dropped,
-- and no other entry of the table changes.
pub drop_flow-counts :
    (port bcount : ℕ) (table : FlowTable) (p : Packet)
    → p.is_tcp ≡ true
    → p.fin ≡ false
    → (p.sport ≡ port) ⊎ (p.dport ≡ port)
    → payload_len p ≢ 0
    → Counted port bcount table p
drop_flow-counts port bcount table p t n w l =
    let e = drop_flow-data port bcount table p t n w l in
    rw e (λ j. ground arith, ground (arith, drop_flow-charges bcount (table (index p)) p))
