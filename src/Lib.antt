-- ===== src/Lib.antt =====
-- A model of the packet classifier under include/dpdk, and what is proved of it.
--
-- The program reads packets from DPDK ports. A parser makes a `PacketMetadata` of each one; a flow
-- cache (`FlowTable`) answers for the flows seen before; on a miss the rule table classifies the
-- packet by its five-tuple (exact-match table, then the ACL chunks), and TCP payloads are put in
-- order by `TcpStreamReassembler` until a hostname can be read for the DPI rules, whose answers a
-- `HostnameCache` keeps. The files follow these parts:
--
-- - Packet: the metadata types of include/dpdk/spi/spi_rule_engine.hpp.
-- - Tcp: include/dpdk/spi/spi_tcp_reassembly.hpp and .cpp. Tcp/Direction is the state of one
--   direction (`AddSegment`, `AppendAndDrain`, `QueuePending`, `VerifyOverlap`), Tcp/Key is `MakeKey`,
--   Tcp/Streams the map of streams (`Insert`, `PurgeExpired`), an association list. Tcp/Content and
--   Tcp/Fidelity relate a direction to the byte stream that a sender has in mind.
-- - Flow: include/dpdk/spi/spi_flow_table.hpp and .cpp. Flow/Key is `FlowKey` and `MakeCanonical`,
--   Flow/Hash is rte_hash as an interface with its documented laws, Flow/Table the operations of
--   `FlowTable`, with the cells as a function of their index.
-- - Spi: include/dpdk/spi/spi_ip_address.hpp and .cpp (Spi/Address) and spi_rule_engine.hpp and .cpp.
--   Spi/Dpdk holds the interfaces of the ACL and member libraries; Spi/Filter is `CompileFilter` and
--   `BuildAclRule`, Spi/Compile the other pure parts of `CompileRuleTable` and `ResolveDpiLinks`,
--   Spi/Match is `Match` and `MatchBulk`, Spi/Member `MemberFilterBulk`, Spi/Tss the exact-match table.
-- - Dpi: include/dpdk/dpi/hostname_cache.hpp, and of dpi_rule_engine.cpp the match callback, `Match`
--   over the ids that Hyperscan reports, `EscapeRegex` and `FindByFilterGroup` (Dpi/Rules).
-- - Parser: include/dpdk/spi/spi_packet_parser.cpp. Parser/Reads has reads from a span, where a read
--   outside of it is an outcome of its own; Parser/Tls and Parser/Http are the scans of `ExtractTlsSni`
--   and `ExtractHttpHost`, Parser/Payload their versions for packets; Parser/Headers is
--   `ParsePacketOwned`, over packet buffers and fragment tables as an interface (Parser/Mbuf).
-- - Pipeline: include/dpdk/spi/spi_pipeline.hpp and .cpp. Pipeline/Counters has the counters and their
--   flushing, Pipeline/Routes `GetTransmitPort`, the L3 routes and the MAC addresses, Pipeline/FlowHash
--   `HashPacketFlow`, Pipeline/Rewrite the rewritten headers. Pipeline/Context is `WorkerContext`;
--   Pipeline/Dpi is `MatchDpi` and `TryDpiClassify`, which take hostnames from an interface that
--   Pipeline/Hostname fills with the parser; Pipeline/Classify is `ClassifyPacket`, which puts the
--   parser, the flow table, the exact-match table, the ACL and DPI together, and Pipeline/Forward is
--   `ForwardPacket`. Pipeline/Burst has `ParseReceivedPackets`, `BulkFlowLookup`,
--   `FlushTransmitBuffers` and `ResolvePacketDistribution`.
-- - Base: lists over native numbers and tests. Tests: runs on small inputs.
--
-- Each operation is a function from a state to a state and an answer. Machine integers are numbers
-- with their wrap-around written out, strings and addresses are their bytes, and the time is an
-- argument. Code of DPDK and of the system (rte_hash, rte_acl, rte_member, rte_hash_crc, inet_pton,
-- the byte order of the machine) is a parameter, with the laws that its manual gives.
--
-- Loops are recursion on lists or on a number of rounds. The drain loop of `AppendAndDrain` has one
-- round more than there are queued segments, of which each round but the last takes one; the probes
-- have the 4 or 128 rounds of the source; the scan of `PurgeExpired` has one round for each cell; the
-- loop that hands groups to a parsing thread has one round for each group that is left.
-- The loops over the bytes of a payload have as many rounds as there are bytes, of which each round
-- takes one at least; the loop over TLS extensions takes four or more.
--
-- Not modelled: locks, memory orderings and threads (an operation is one step), the FIB, which is
-- built and never read, the construction and the fallback matching of the DPI rule table, the
-- phases of `FinalizePackets` over a burst of several packets, the pipeline's reload and its worker
-- loops, configuration files, the environment and the PCAP replay.
pub mod Base
pub mod Dpi
pub mod Flow
pub mod Packet
pub mod Parser
pub mod Pipeline
pub mod Spi
pub mod Tcp
mod Tests
