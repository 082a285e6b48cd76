-- ===== src/Filter/Examples.antt =====
-- The filters on one flow: the theorems at a concrete packet.
use kenrel_learning.Common.{◌≡◌, ◌≢◌, ltb, refl, true, false, Option, none, some, arith}
use kenrel_learning.Filter.Packet.{Packet, payload_len, IsSound}
use kenrel_learning.Filter.DropFlow
use kenrel_learning.Filter.DropFlow.Budget
use kenrel_learning.Filter.RateLimit
use kenrel_learning.Filter.RateLimit.Limit

-- 100 bytes of data to port 443.
abbrev data_packet : Packet
data_packet = record {
  is_tcp = true;
  saddr = 1;
  daddr = 2;
  sport = 5000;
  dport = 443;
  tot_len = 140;
  ihl = 5;
  doff = 5;
  fin = false;
}

data_len : payload_len data_packet ≡ 100
unfolding payload_len
data_len = refl

has_data : payload_len data_packet ≢ 0
has_data = omega (arith, data_len)

sound : IsSound data_packet
sound = record { short = ground arith; holds = ground arith }

init_table-IsWithin : DropFlow.Budget.IsWithin 1000 DropFlow.init_table
init_table-IsWithin i = ground arith

budget_example :
    DropFlow.Budget.IsWithin 1000 (DropFlow.drop_flow 443 1000 DropFlow.init_table data_packet).0
budget_example =
    DropFlow.Budget.drop_flow-IsWithin 443 1000 DropFlow.init_table data_packet (ground arith) sound
      init_table-IsWithin

abbrev flow : RateLimit.Myflow
flow = record {
  saddr = 1;
  daddr = 2;
  sport = 5000;
  dport = 443;
  pkt_count = 9;
  drop_count = 0;
  byte_count = 2000;
  byte_drop_count = 0;
  granular = 0;
  start_granular = 5;
  next_limit = 1000;
}

abbrev env : Option RateLimit.Myflow → RateLimit.Env
env a = record {
  threshold = 1000;
  rate = 2;
  hz_to_msec_num = 4;
  jiffies = 50;
  time_after = λ a b. ltb b a;
  alloc = a;
}

limits_example : RateLimit.Limit.Limited (env none) (λ i. some flow) data_packet flow
limits_example =
    RateLimit.Limit.drop_flow-limits (env none) (λ i. some flow) data_packet flow refl refl has_data
      refl
