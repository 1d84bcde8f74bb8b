-- ===== src/Pipeline/Context.antt =====
-- The state of a worker in include/dpdk/spi/spi_pipeline.hpp: `WorkerContext` with the counters of
-- the current burst, the tables that it reads, and its options.
use dpdk_cpp.Base.{ℕ, Bool, true, false, List, Option}
use dpdk_cpp.Dpi.HostnameCache.{Entry}
use dpdk_cpp.Dpi.Rules.{CompiledDpiFilter}
use dpdk_cpp.Flow.Hash.{RteHash}
use dpdk_cpp.Flow.Table.{FlowTable, FlowInsertResult, inserted, full, insert}
use dpdk_cpp.Flow.Key.{FlowKey}
use dpdk_cpp.Packet.{PacketMetadata, Action}
use dpdk_cpp.Parser.Mbuf.{RteMbuf}
use dpdk_cpp.Pipeline.Counters.{BurstCounters, bump}
use dpdk_cpp.Spi.Dpdk.{RteAcl}
use dpdk_cpp.Spi.Match.{CompiledFilterGroup, AclChunk}
use dpdk_cpp.Spi.Tss.{Tss}
use dpdk_cpp.Tcp.Streams.{Reassembler}

pub record Settings : Type 0 where
  pub flow_overflow_drop : Bool
  pub drop_unmatched : Bool
  pub l3_forwarding : Bool
  pub mac_updating : Bool
  pub worker_id : ℕ
  -- `flow_hash_rings.size()`.
  pub flow_hash_rings : ℕ
  -- `current_burst_tsc`, and what `rte_rdtsc` gives an insertion.
  pub current_burst_tsc : ℕ
  pub insert_tsc : ℕ

-- `DpiRuleTable` with a database and a scratch buffer: `hs_scan` gives the ids that Hyperscan reports
-- for a hostname, `none` if it fails.
pub record DpiRuleTable : Type 0 where
  pub filters : List CompiledDpiFilter
  pub generation : ℕ
  pub hs_scan : List ℕ → Option (List ℕ)

pub record RuleTable (acl : RteAcl) : Type 0 where
  pub groups : List CompiledFilterGroup
  pub acl_chunks : List (AclChunk acl)
  pub acl_ctx : Option acl.Context
  pub tss : Tss

-- What `Load` of the two table managers gives.
pub record Tables (acl : RteAcl) : Type 0 where
  pub rules : RuleTable acl
  pub dpi_rules : Option DpiRuleTable

pub record Worker (rte : RteMbuf) (hash : RteHash) : Type 0 where
  pub flow_table : FlowTable hash
  pub dpi_hostname_cache : ℕ → Entry
  pub tcp_reassembler : Option Reassembler
  pub ip_frag_tbl : Option rte.FragTable
  pub counters : BurstCounters

-- What the worker takes from the packet parser: the hostname in a packet, as `ExtractHostname` finds
-- it, and the one in a stream to a port; empty if there is none.
pub record Hostnames (rte : RteMbuf) : Type 0 where
  pub packet_hostname : rte.Mbuf → PacketMetadata → List ℕ
  pub stream_hostname : ℕ → List ℕ → List ℕ

abbrev pub count_parsed : BurstCounters → BurstCounters
count_parsed c = record c { parsed = bump c.parsed }

abbrev pub count_matched : BurstCounters → BurstCounters
count_matched c = record c { matched = bump c.matched }

abbrev pub count_unknown : BurstCounters → BurstCounters
count_unknown c = record c { unknown = bump c.unknown }

abbrev pub count_malformed : BurstCounters → BurstCounters
count_malformed c = record c { malformed = bump c.malformed }

abbrev pub count_dropped : BurstCounters → BurstCounters
count_dropped c = record c { dropped = bump c.dropped }

abbrev pub count_dropped_by_rule : BurstCounters → BurstCounters
count_dropped_by_rule c = record c { dropped_by_rule = bump c.dropped_by_rule }

abbrev pub count_cache_hit : BurstCounters → BurstCounters
count_cache_hit c = record c { flow_cache_hits = bump c.flow_cache_hits }

abbrev pub count_dpi_hit : BurstCounters → BurstCounters
count_dpi_hit c = record c { dpi_cache_hits = bump c.dpi_cache_hits }

abbrev pub count_dpi_miss : BurstCounters → BurstCounters
count_dpi_miss c = record c { dpi_cache_misses = bump c.dpi_cache_misses }

abbrev pub count_skip : BurstCounters → BurstCounters
count_skip c = record c { dpi_skipped_by_spi = bump c.dpi_skipped_by_spi }

abbrev pub count_link : BurstCounters → BurstCounters
count_link c = record c { dpi_skipped_by_link = bump c.dpi_skipped_by_link }

abbrev pub count_full : BurstCounters → BurstCounters
count_full c = record c { flow_table_full = bump c.flow_table_full }

abbrev pub is_inserted : FlowInsertResult → Bool
is_inserted inserted = true
is_inserted full = false

module _ (rte : RteMbuf) (hash : RteHash) where
  abbrev pub counted : Worker rte hash → (BurstCounters → BurstCounters) → Worker rte hash
  counted w count = record w { counters = count w.counters }

  -- `context.flow_table->Insert(key, 1, action)`, and whether it succeeds.
  unfoldable pub insert_flow :
      Settings → Worker rte hash → FlowKey → Action → Worker rte hash × Bool
  insert_flow s w key action = (record w { flow_table = put.0 }, is_inserted put.1)
    where
      put : FlowTable hash × FlowInsertResult
      put = insert hash w.flow_table key 1 action s.insert_tsc
