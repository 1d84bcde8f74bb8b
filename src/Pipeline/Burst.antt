-- ===== src/Pipeline/Burst.antt =====
-- The steps of a worker's burst in include/dpdk/spi/spi_pipeline.cpp around the decisions on its
-- packets: `ParseReceivedPackets`, `BulkFlowLookup` and `FlushTransmitBuffers`; and the choice of
-- `ResolvePacketDistribution`.
pub mod Lookup
use dpdk_cpp.Base.{
  ℕ, zero, suc, ◌-◌, Bool, not, List, [], ◌∷◌, ◌++◌, Option, none, some, ltb, leb, ◌==◌,
  if◌then◌else◌, length, take, drop, list_eq,
}
use dpdk_cpp.Flow.Hash.{RteHash}
use dpdk_cpp.Flow.Key.{FlowKey, make_canonical_from_metadata}
use dpdk_cpp.Flow.Table.{FlowTable, BulkResult, lookup_bulk}
use dpdk_cpp.Packet.{PacketMetadata}
use dpdk_cpp.Parser.Headers.{
  PacketParseStatus, complete, waiting_for_fragments, malformed, Outcome, parse_packet_owned,
}
use dpdk_cpp.Parser.Mbuf.{RteMbuf}
use dpdk_cpp.Pipeline.Context.{count_parsed, count_malformed}
use dpdk_cpp.Pipeline.Counters.{BurstCounters, add64}
use dpdk_cpp.Pipeline.Forward.{Places}

pub data PacketDistribution : Type 0 where
  queue_per_worker flow_hash : PacketDistribution

-- What `ResolvePacketDistribution` asks of the environment.
pub record Environment : Type 0 where
  pub active_ports_support_rss : Bool
  pub has_pcap_port : Bool
  pub has_software_backed_port : Bool
  pub receive_queue_count : ℕ

-- The automatic choice for several workers.
unfoldable pub automatic_distribution : Environment → ℕ → PacketDistribution
automatic_distribution environment worker_count =
    if not environment.active_ports_support_rss
    then flow_hash
    else if environment.has_pcap_port
    then queue_per_worker
    else if environment.has_software_backed_port
    then flow_hash
    else if ltb environment.receive_queue_count worker_count
    then flow_hash
    else queue_per_worker

-- The texts "queue" and "flow_hash".
abbrev pub queue_mode : List ℕ
queue_mode = 113 ∷ 117 ∷ 101 ∷ 117 ∷ 101 ∷ []

abbrev pub flow_hash_mode : List ℕ
flow_hash_mode = 102 ∷ 108 ∷ 111 ∷ 119 ∷ 95 ∷ 104 ∷ 97 ∷ 115 ∷ 104 ∷ []

unfoldable pub resolve_packet_distribution : Environment → List ℕ → ℕ → PacketDistribution
unfolding list_eq automatic_distribution
resolve_packet_distribution environment configured_mode worker_count =
    if list_eq configured_mode queue_mode
    then queue_per_worker
    else if list_eq configured_mode flow_hash_mode
    then flow_hash
    else if leb worker_count 1
    then queue_per_worker
    else automatic_distribution environment worker_count

module _ (rte : RteMbuf) where
  open rte use {Mbuf, FragTable}

  -- A received packet after `ParseReceivedPackets`: with its metadata and its key, or with one of the
  -- two marks. An unmapped packet is the one that was received.
  pub data Received : Type 0 where
    mapped : Mbuf → PacketMetadata → FlowKey → Received
    waiting : Received
    unmapped : Mbuf → Received

  pub record Parsing : Type 0 where
    pub frag_tbl : Option FragTable
    pub counters : BurstCounters
    pub received : List Received

  -- The mark of a packet without metadata, and its count.
  unfoldable pub mark_refused : Mbuf → PacketParseStatus → BurstCounters → Received × BurstCounters
  mark_refused packet waiting_for_fragments counters = (waiting, counters)
  mark_refused packet complete counters = (unmapped packet, count_malformed counters)
  mark_refused packet malformed counters = (unmapped packet, count_malformed counters)

  unfoldable pub mark_parsed : Mbuf → Outcome rte → BurstCounters → Received × BurstCounters
  unfolding mark_refused make_canonical_from_metadata
  mark_parsed packet o counters = elim o.metadata [
    | none ↦ mark_refused packet o.status counters
    | some m ↦ elim o.packet [
      -- There is a packet wherever there is metadata.
      | none ↦ mark_refused packet o.status counters
      | some left ↦ (mapped left m (make_canonical_from_metadata m), count_parsed counters)
    ]
  ]

  unfoldable pub parse_received_packets : List Mbuf → Option FragTable → ℕ → BurstCounters → Parsing
  unfolding parse_packet_owned mark_parsed
  parse_received_packets [] tbl tsc counters = record {
    frag_tbl = tbl;
    counters = counters;
    received = [];
  }
  parse_received_packets (packet ∷ packets) tbl tsc counters =
      let o = parse_packet_owned rte tbl packet tsc in
      let marked = mark_parsed packet o counters in
      let rest = parse_received_packets packets o.frag_tbl tsc marked.1 in
      record rest { received = marked.0 ∷ rest.received }

  -- One port of `FlushTransmitBuffers`: the packets that `rte_eth_tx_burst` does not send are freed.
  unfoldable pub flush_port :
      (ℕ → ℕ → ℕ) → Places rte × BurstCounters → ℕ → Places rte × BurstCounters
  flush_port tx_burst (places, counters) port = if count == 0 then (places, counters) else (
    record places {
      transmit_buffers = λ p. if p == port then [] else places.transmit_buffers p;
      freed = take (count - sent) staged ++ places.freed;
    },
    record counters {
      transmitted = add64 counters.transmitted sent;
      dropped = add64 counters.dropped (count - sent);
    },
  )
    where
      -- The packet that was staged last comes first.
      staged : List Mbuf
      staged = places.transmit_buffers port

      count : ℕ
      count = length staged

      sent : ℕ
      sent = tx_burst port count

  unfoldable pub flush_transmit_buffers :
      (ℕ → ℕ → ℕ) → Places rte × BurstCounters → List ℕ → Places rte × BurstCounters
  unfolding flush_port
  flush_transmit_buffers tx_burst s [] = s
  flush_transmit_buffers tx_burst s (port ∷ active_ports) =
      flush_transmit_buffers tx_burst (flush_port tx_burst s port) active_ports

module _ (hash : RteHash) where
  -- The loop of `BulkFlowLookup` for at most so many chunks of 64 keys.
  unfoldable pub lookup_chunks :
      FlowTable hash → ℕ → List FlowKey → ℕ → List BulkResult → FlowTable hash × List BulkResult
  unfolding lookup_bulk
  lookup_chunks t zero keys now results = (t, results)
  lookup_chunks t (suc chunks) [] now results = (t, results)
  lookup_chunks t (suc chunks) (key ∷ keys) now results =
      let chunk = take 64 (key ∷ keys) in
      let first = lookup_bulk hash t chunk now (take (length chunk) results) in
      let rest =
        lookup_chunks first.0 chunks (drop 64 (key ∷ keys)) now (drop (length chunk) results) in
      (rest.0, first.1 ++ rest.1)

  -- `BulkFlowLookup` into the results of the caller: each chunk takes a key at least.
  unfoldable pub bulk_flow_lookup :
      FlowTable hash → List FlowKey → ℕ → List BulkResult → FlowTable hash × List BulkResult
  unfolding lookup_chunks
  bulk_flow_lookup t keys now results = lookup_chunks t (length keys) keys now results
