-- ===== src/Filter.antt =====
-- The two netfilter modules: drop_flow_byte.c and rate_limit.c.
pub mod Packet
pub mod DropFlow
pub mod RateLimit
mod Examples
