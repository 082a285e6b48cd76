-- ===== src/Filter/RateLimit.antt =====
-- rate_limit.c: beyond `threshold` bytes a flow may pass what a limit allows that grows with time.
-- The flows are allocated from a kmem_cache: what the allocator hands out, the clock `jiffies` and
-- the kernel's time_after are arguments. `threshold` and `rate` are the module's parameters (not
-- negative); an unsigned long has 64 bits.
pub mod Limit
use kenrel_learning.Common.{
  ℕ, zero, suc, ◌+◌, ◌-◌, ◌*◌, ◌%◌, ◌^◌, ◌==◌, ltb, Bool, true, false, not, ◌&&◌, ◌||◌, Option,
  none, some, if◌then◌else◌,
}
use kenrel_learning.Filter.Packet.{Packet, Verdict, nf_accept, nf_drop, hash, payload_len, add32}

pub record Myflow : Type 0 where
  pub saddr : ℕ
  pub daddr : ℕ
  pub sport : ℕ
  pub dport : ℕ
  pub pkt_count : ℕ
  pub drop_count : ℕ
  pub byte_count : ℕ
  pub byte_drop_count : ℕ
  pub granular : ℕ
  pub start_granular : ℕ
  pub next_limit : ℕ

abbrev pub FlowTable : Type 0
FlowTable = ℕ → Option Myflow

-- One packet's environment. `alloc` is the object that kmem_cache_alloc returns, as its memory is:
-- the constructor reset_flow ran when the memory joined the cache, not when it is handed out again.
pub record Env : Type 0 where
  pub threshold : ℕ
  pub rate : ℕ
  pub hz_to_msec_num : ℕ
  pub jiffies : ℕ
  pub time_after : ℕ → ℕ → Bool
  pub alloc : Option Myflow

abbrev pub store : FlowTable → ℕ → Option Myflow → FlowTable
store table i f j = if j == i then f else table j

abbrev pub index : Packet → ℕ
index p = hash p.saddr p.daddr p.sport p.dport

-- The fields that get_flow sets in a new object.
abbrev pub new_flow : Env → Packet → Myflow → Myflow
new_flow e p f = record f {
  saddr = p.saddr;
  daddr = p.daddr;
  sport = p.sport;
  dport = p.dport;
  granular = 0;
  start_granular = e.jiffies;
  next_limit = e.threshold % 2 ^ 32;
}

-- get_flow, on the entry of the table that the packet's hash names.
unfoldable pub get_flow : Env → Packet → Option Myflow → Option Myflow
get_flow e p (some f) = some f
get_flow e p none = elim e.alloc [ none ↦ none | some f ↦ some (new_flow e p f) ]

-- The limit grows by the time since the last packet that came above the threshold.
abbrev pub started : Env → Myflow → Myflow
started e f = if f.granular == 0 then record f { granular = e.jiffies } else f

unfoldable pub refill : Env → Myflow → Myflow
refill e f =
    if ltb e.threshold f.byte_count && e.time_after e.jiffies f.granular
    then (let g = started e f in
        record g {
          next_limit =
              (g.next_limit
                + (e.jiffies + 2 ^ 64 - g.granular) * e.rate * e.hz_to_msec_num % 2 ^ 64)
              % 2 ^ 32;
          granular = e.jiffies;
        })
    else f

abbrev pub passes : Env → Myflow → Bool
passes e f = ltb f.byte_count e.threshold || ltb f.byte_count f.next_limit

unfoldable pub charge : Env → Myflow → ℕ → Myflow
charge e f len =
    if passes e f
    then record f { pkt_count = add32 f.pkt_count 1; byte_count = add32 f.byte_count len }
    else record f {
      drop_count = add32 f.drop_count 1;
      byte_drop_count = add32 f.byte_drop_count len;
    }

unfoldable pub verdict : Env → Myflow → Verdict
verdict e f = if passes e f then nf_accept else nf_drop

-- The hook ends with a verdict, or by a read through a NULL flow.
pub data Outcome : Type 0 where
  ends : FlowTable → Verdict → Outcome
  oops : Outcome

-- From the label `out` on: the last packet of a flow frees it, after printing its counters.
abbrev pub finish : Packet → FlowTable → Option Myflow → Verdict → Outcome
finish p table none v = if p.fin then oops else ends table v
finish p table (some f) v =
    if p.fin then ends (store table (index p) none) v else ends (store table (index p) (some f)) v

unfoldable pub handle : Env → FlowTable → Packet → Option Myflow → Outcome
handle e table p none = finish p table none nf_drop
handle e table p (some f) =
    let g = refill e f in
    if payload_len p == 0
    then finish p table (some f) nf_accept
    else finish p table (some (charge e g (payload_len p))) (verdict e g)

unfoldable pub drop_flow : Env → FlowTable → Packet → Outcome
drop_flow e table p =
    if not (p.is_tcp)
    then ends table nf_accept
    else handle e table p (get_flow e p (table (index p)))
