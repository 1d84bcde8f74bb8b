-- ===== src/Flow.antt =====
-- include/dpdk/spi/spi_flow_table.hpp and .cpp: the flow cache. Key has the flow keys, Hash what the
-- table uses of DPDK's rte_hash, Table the packed entries and the operations.
pub mod Key
pub mod Hash
pub mod Table
