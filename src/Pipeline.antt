-- ===== src/Pipeline.antt =====
-- The packet pipeline of include/dpdk/spi/spi_pipeline.hpp and .cpp: its counters, where packets are
-- sent, how a packet is classified and forwarded, and a worker's burst.
pub mod Counters
pub mod Routes
pub mod Context
pub mod Dpi
pub mod Hostname
pub mod FlowHash
pub mod Classify
pub mod Rewrite
pub mod Forward
pub mod Burst
