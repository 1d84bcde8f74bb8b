-- ===== src/Tcp.antt =====
-- include/dpdk/spi/spi_tcp_reassembly.hpp and .cpp: the per-worker TCP reassembler. Sequence has the
-- modular arithmetic, Direction one direction of a stream, Key the stream keys, Streams the map.
pub mod Sequence
pub mod Direction
pub mod Content
pub mod Fidelity
pub mod Key
pub mod Streams
