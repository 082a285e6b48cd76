-- ===== src/Filter/Packet.antt =====
-- What both netfilter modules read of a packet, the length of its payload, and their hash function
-- (drop_flow_byte.c, rate_limit.c). An unsigned int wraps at 2 ^ 32.
use kenrel_learning.Common.{ℕ, ◌+◌, ◌-◌, ◌*◌, ◌%◌, ◌^◌, ◌≡◌, ◌≤◌, ◌<◌, Bool, arith, ap}

-- Addresses, ports in host order, tot_len in host order, and the header lengths in words.
pub record Packet : Type 0 where
  pub is_tcp : Bool
  pub saddr : ℕ
  pub daddr : ℕ
  pub sport : ℕ
  pub dport : ℕ
  pub tot_len : ℕ
  pub ihl : ℕ
  pub doff : ℕ
  pub fin : Bool

pub data Verdict : Type 0 where
  nf_accept nf_drop : Verdict

abbrev pub flow_table_size : ℕ
flow_table_size = 4096

unfoldable pub hash : ℕ → ℕ → ℕ → ℕ → ℕ
hash saddr daddr sport dport =
    (saddr % 4096 + 1)
    * (daddr % 4096 + 1)
    * (sport % 4096 + 1)
    * (dport % 4096 + 1)
    % 2 ^ 32
    % 4096

-- ntohs(tot_len) - (ihl << 2) - (doff << 2), put into an unsigned int.
unfoldable pub payload_len : Packet → ℕ
payload_len p = (p.tot_len + 2 ^ 32 - p.ihl * 4 - p.doff * 4) % 2 ^ 32

-- a + b on unsigned int.
unfoldable pub add32 : ℕ → ℕ → ℕ
add32 a b = (a + b) % 2 ^ 32

-- A packet that is as long as its headers say.
pub record IsSound (p : Packet) : Type 0 where
  pub short : p.tot_len < 2 ^ 16
  pub holds : p.ihl * 4 + p.doff * 4 ≤ p.tot_len

pub payload_len_lem : (p : Packet) → IsSound p → payload_len p + p.ihl * 4 + p.doff * 4 ≡ p.tot_len
unfolding payload_len
payload_len_lem p s = omega (arith, s.short, s.holds)

pub hash-lt : (a b c d : ℕ) → hash a b c d < flow_table_size
unfolding hash
hash-lt a b c d = omega arith

regroup : (a b c d : ℕ) → a * b * c * d ≡ b * a * d * c
regroup a b c d = grind arith

-- The index is within the table, and both directions of a connection have the same one.
pub hash_lem :
    (saddr daddr sport dport : ℕ)
    → (hash saddr daddr sport dport < flow_table_size)
      × (hash daddr saddr dport sport ≡ hash saddr daddr sport dport)
unfolding hash
hash_lem a b c d = (
  hash-lt a b c d,
  ap (λ (x : ℕ). x % 2 ^ 32 % 4096)
      (regroup (b % 4096 + 1) (a % 4096 + 1) (d % 4096 + 1) (c % 4096 + 1)),
)
