-- ===== src/Spi.antt =====
-- The rule engine of include/dpdk/spi.
pub mod Address
pub mod Dpdk
pub mod Filter
pub mod Match
pub mod Member
pub mod Tss
pub mod Compile
