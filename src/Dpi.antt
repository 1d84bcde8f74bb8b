-- ===== src/Dpi.antt =====
-- The hostname side of include/dpdk/dpi: the cache of classified hostnames and the DPI rules.
pub mod HostnameCache
pub mod Rules
