-- ===== src/Pipeline/Dpi.antt =====
-- `MatchDpi` and `TryDpiClassify` of include/dpdk/spi/spi_pipeline.cpp.
use dpdk_cpp.Base.{
  ℕ, ◌+◌, ◌%◌, Bool, true, false, ◌&&◌, ◌||◌, not, List, [], ◌∷◌, Option, none, some, leb, ◌==◌,
  if◌then◌else◌, length, get_elem?, list_eq, min,
}
use dpdk_cpp.Dpi.HostnameCache
use dpdk_cpp.Dpi.Rules.{CompiledDpiFilter, DpiResult, match_reported}
use dpdk_cpp.Flow.Hash.{RteHash}
use dpdk_cpp.Flow.Key.{FlowKey}
use dpdk_cpp.Packet.{PacketMetadata, Action, forward, Protocol, tcp, udp}
use dpdk_cpp.Parser.Mbuf.{RteMbuf}
use dpdk_cpp.Pipeline.Context.{
  Settings, DpiRuleTable, Worker, Hostnames, count_matched, count_dpi_hit, count_dpi_miss,
  count_skip, count_link, count_full, counted, insert_flow,
}
use dpdk_cpp.Spi.Match.{ClassificationResult, no_index}
use dpdk_cpp.Tcp.Direction.{disabled, waiting, ready, conflicting_overlap, resource_limit}
use dpdk_cpp.Tcp.Streams
use dpdk_cpp.Tcp.Streams.{Reassembler, TcpReassemblyResult}

pub record DpiMatch : Type 0 where
  pub filter_group : List ℕ
  pub label : List ℕ
  pub priority : ℕ

abbrev pub match_of : CompiledDpiFilter → DpiMatch
match_of f = record { filter_group = f.filter_group; label = f.label; priority = f.priority }

unfoldable pub is_result_of : DpiResult → CompiledDpiFilter → Bool
unfolding list_eq
is_result_of result f =
    list_eq f.filter_group result.filter_group
    && list_eq f.label result.label
    && f.priority == result.priority

-- The loop of `MatchDpi` over the filters from index `i` on: the index of the first filter with the
-- result, or else of the last one; the index is cut to 16 bits.
unfoldable pub index_of_result : DpiResult → List CompiledDpiFilter → ℕ → ℕ → ℕ
unfolding is_result_of
index_of_result result [] i idx = idx
index_of_result result (f ∷ filters) i idx =
    let rest = index_of_result result filters (i + 1) (i % 65536) in
    if is_result_of result f then i % 65536 else rest

abbrev pub is_drop : Action → Bool
is_drop forward = false
is_drop Action.drop = true

abbrev pub is_tcp : Protocol → Bool
is_tcp tcp = true
is_tcp udp = false

module _ (rte : RteMbuf) (hash : RteHash) where
  open rte use {Mbuf, pktmbuf_read, be_to_cpu_16}

  unfoldable pub match_uncached :
      Worker rte hash → DpiRuleTable → List ℕ → Worker rte hash × Option DpiMatch
  unfolding match_reported index_of_result HostnameCache.insert
  match_uncached w d hostname =
      if result.matched
      then (
        record w { dpi_hostname_cache = put (index_of_result result d.filters 0 0) },
        some (record {
          filter_group = result.filter_group;
          label = result.label;
          priority = result.priority;
        }),
      )
      else (record w { dpi_hostname_cache = put HostnameCache.no_match_idx }, none)
    where
      result : DpiResult
      result = match_reported d.filters hostname (d.hs_scan hostname)

      put : ℕ → ℕ → HostnameCache.Entry
      put index = HostnameCache.insert w.dpi_hostname_cache hostname index d.generation

  unfoldable pub match_dpi :
      Worker rte hash → DpiRuleTable → List ℕ → Worker rte hash × Option DpiMatch
  unfolding match_uncached HostnameCache.lookup
  match_dpi w d [] = (w, none)
  match_dpi w d (c ∷ hostname) =
      if not (cached_idx == HostnameCache.no_match_idx)
      then (
        counted rte hash w count_dpi_hit,
        elim (get_elem? d.filters cached_idx) [ none ↦ none | some f ↦ some (match_of f) ],
      )
      else match_uncached (counted rte hash w count_dpi_miss) d (c ∷ hostname)
    where
      cached_idx : ℕ
      cached_idx = HostnameCache.lookup w.dpi_hostname_cache (c ∷ hostname) d.generation

  -- What `TryDpiClassify` leaves behind: `decided` is the action if `matched` was set.
  pub record Inspection : Type 0 where
    pub worker : Worker rte hash
    pub metadata : PacketMetadata
    pub decided : Option Action
    pub defer_spi_cache : Bool

  abbrev pub passed : Worker rte hash → PacketMetadata → Inspection
  passed w m = record { worker = w; metadata = m; decided = none; defer_spi_cache = false }

  abbrev pub deferred : Worker rte hash → PacketMetadata → Inspection
  deferred w m = record { worker = w; metadata = m; decided = none; defer_spi_cache = true }

  abbrev pub decided_as : Worker rte hash → PacketMetadata → Action → Inspection
  decided_as w m action = record {
    worker = w;
    metadata = m;
    decided = some action;
    defer_spi_cache = false;
  }

  -- The policy for a full flow table.
  unfoldable pub when_full : Settings → Worker rte hash → PacketMetadata → Inspection
  when_full s w m =
      if s.flow_overflow_drop
      then decided_as (counted rte hash (counted rte hash w count_full) count_matched) m Action.drop
      else passed (counted rte hash w count_full) m

  -- The action is put into the flow table; `linked` is whether it is that of a linked group.
  unfoldable pub cache_action :
      Settings → Worker rte hash → PacketMetadata → FlowKey → Action → Bool → Inspection
  unfolding insert_flow when_full
  cache_action s w m key action linked =
      if put.1
      then decided_as
          (counted rte hash (if linked then counted rte hash put.0 count_link else put.0)
            count_matched)
          m action
      else when_full s put.0 m
    where
      put : Worker rte hash × Bool
      put = insert_flow rte hash s w key action

  -- The end of `TryDpiClassify`: the hostname of the metadata is matched.
  unfoldable pub classify_hostname :
      Settings
      → DpiRuleTable
      → Worker rte hash
      → PacketMetadata
      → ClassificationResult
      → FlowKey
      → Inspection
  unfolding match_dpi cache_action
  classify_hostname s d w m spi key = elim dpi.1 [
    | none ↦ passed dpi.0 m
    | some found ↦ cache_action s dpi.0 m key (if spi.matched then spi.action else forward) false
  ]
    where
      dpi : Worker rte hash × Option DpiMatch
      dpi = match_dpi w d m.hostname

  module _ (names : Hostnames rte) where
    open names use {packet_hostname, stream_hostname}

    unfoldable pub classify_stream :
        Settings
        → DpiRuleTable
        → Worker rte hash
        → PacketMetadata
        → ClassificationResult
        → FlowKey
        → TcpReassemblyResult
        → Inspection
    unfolding classify_hostname
    classify_stream s d w m spi key stream = elim stream.status [
      | disabled ↦ classify_hostname s d w m spi key
      | conflicting_overlap ↦ decided_as (counted rte hash w count_matched) m Action.drop
      | resource_limit ↦ decided_as (counted rte hash w count_matched) m Action.drop
      | waiting ↦ named
      | ready ↦ named
    ]
      where
        hostname : List ℕ
        hostname = stream_hostname (be_to_cpu_16 m.destination_port_be) stream.contiguous_payload

        named : Inspection
        named =
            if list_eq hostname []
            then deferred w m
            else classify_hostname s d w (record m { hostname = hostname }) spi key

    unfoldable pub inspect_payload :
        Settings
        → DpiRuleTable
        → Worker rte hash
        → Mbuf
        → PacketMetadata
        → ClassificationResult
        → FlowKey
        → Inspection
    unfolding classify_hostname classify_stream
    inspect_payload s d w packet m spi key = elim w.tcp_reassembler [
      | none ↦ classify_hostname s d w (record m { hostname = packet_hostname packet m }) spi key
      | some r ↦ elim (pktmbuf_read packet m.tcp_payload_offset (min m.tcp_payload_length 65536)) [
        | none ↦ deferred w m
        | some payload ↦
            let stream = Streams.insert r m payload s.current_burst_tsc in
            classify_stream s d (record w { tcp_reassembler = some stream.0 }) m spi key stream.1
      ]
    ]

    -- The tests of `TryDpiClassify` on the ports.
    unfoldable pub is_inspected : PacketMetadata → Bool
    is_inspected m =
        is_tcp m.protocol
        && (dst_port == 443 || dst_port == 80)
        && not ((src_port == 80 || src_port == 443) && leb 1024 dst_port)
      where
        dst_port : ℕ
        dst_port = be_to_cpu_16 m.destination_port_be

        src_port : ℕ
        src_port = be_to_cpu_16 m.source_port_be

    unfoldable pub try_dpi_classify :
        Settings
        → Option DpiRuleTable
        → Worker rte hash
        → Mbuf
        → PacketMetadata
        → ClassificationResult
        → FlowKey
        → Inspection
    unfolding is_inspected inspect_payload cache_action
    try_dpi_classify s none w packet m spi key = passed w m
    try_dpi_classify s (some d) w packet m spi key =
        if leb (length d.filters) 0
        then passed w m
        else if spi.matched && (is_drop spi.action || not spi.l7_required)
        then passed (counted rte hash w count_skip) m
        else if spi.matched && not (spi.bound_dpi_filter_index == no_index)
        then cache_action s w m key spi.action true
        else if is_inspected m
        then inspect_payload s d w packet m spi key
        else passed (counted rte hash w count_skip) m
