-- ===== src/Ebpf.antt =====
-- natto64-ebpf: the classifiers that translate between IPv6 and IPv4.
pub mod Kernel
pub mod World
pub mod Pool
pub mod Cooldown
pub mod Ports
pub mod Sessions
pub mod Packet
pub mod Ipv6
pub mod Reverse
pub mod Sampling
pub mod Forward
pub mod Consistent
pub mod Update
