-- ===== src/Filter/DropFlow.antt =====
-- drop_flow_byte.c: a flow may pass `bcount` bytes, then its packets are dropped. The flows are an
-- array indexed by the hash; `port` and `bcount` are the module's parameters, as unsigned int.
pub mod Budget
use kenrel_learning.Common.{
  ℕ, zero, suc, ◌+◌, ◌==◌, ltb, Bool, true, false, not, ◌&&◌, if◌then◌else◌,
}
use kenrel_learning.Filter.Packet.{Packet, Verdict, nf_accept, nf_drop, hash, payload_len, add32}

pub record Myflow : Type 0 where
  pub saddr : ℕ
  pub daddr : ℕ
  pub sport : ℕ
  pub dport : ℕ
  pub pkt_count : ℕ
  pub drop_count : ℕ
  pub byte_count : ℕ
  pub byte_drop_count : ℕ

abbrev pub FlowTable : Type 0
FlowTable = ℕ → Myflow

-- reset_flow
abbrev pub zero_flow : Myflow
zero_flow = record {
  saddr = 0;
  daddr = 0;
  sport = 0;
  dport = 0;
  pkt_count = 0;
  drop_count = 0;
  byte_count = 0;
  byte_drop_count = 0;
}

abbrev pub store : FlowTable → ℕ → Myflow → FlowTable
store table i f j = if j == i then f else table j

-- The table after init: every entry is reset.
abbrev pub init_table : FlowTable
init_table i = zero_flow

abbrev pub is_unused : Myflow → Bool
is_unused f = f.saddr == 0 && f.daddr == 0 && f.sport == 0 && f.dport == 0

-- get_flow: the flow as it is in the table after the call.
unfoldable pub get_flow : Myflow → Packet → Myflow
get_flow f p =
    if is_unused f
    then record f { saddr = p.saddr; daddr = p.daddr; sport = p.sport; dport = p.dport }
    else f

-- Counting one packet, and what happens to it.
unfoldable pub charge : ℕ → Myflow → ℕ → Myflow
charge bcount f len =
    if ltb f.byte_count bcount
    then record f { pkt_count = add32 f.pkt_count 1; byte_count = add32 f.byte_count len }
    else record f {
      drop_count = add32 f.drop_count 1;
      byte_drop_count = add32 f.byte_drop_count len;
    }

unfoldable pub verdict : ℕ → Myflow → Verdict
verdict bcount f = if ltb f.byte_count bcount then nf_accept else nf_drop

abbrev pub index : Packet → ℕ
index p = hash p.saddr p.daddr p.sport p.dport

-- What the hook does from the label `out` on.
abbrev pub finish : Packet → FlowTable → Myflow → FlowTable
finish p table f = if p.fin then store table (index p) zero_flow else store table (index p) f

unfoldable pub drop_flow : ℕ → ℕ → FlowTable → Packet → FlowTable × Verdict
drop_flow port bcount table p =
    let f = get_flow (table (index p)) p in
    let len = payload_len p in
    if not (p.is_tcp)
    then (table, nf_accept)
    else if not (p.sport == port) && not (p.dport == port)
    then (table, nf_accept)
    else if len == 0
    then (finish p table f, nf_accept)
    else (finish p table (charge bcount f len), verdict bcount f)
