-- ===== src/Parser.antt =====
-- The packet parser of include/dpdk/spi/spi_packet_parser.cpp: checked reads, the TLS and HTTP scans
-- for a hostname, and the headers from Ethernet to TCP and UDP.
pub mod Reads
pub mod Tls
pub mod Http
pub mod Mbuf
pub mod Headers
pub mod Payload
