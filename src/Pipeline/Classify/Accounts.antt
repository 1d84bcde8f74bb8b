-- ===== src/Pipeline/Classify/Accounts.antt =====
-- The counters of include/dpdk/spi/spi_pipeline.cpp and the outcome of a classification.
use dpdk_cpp.Base.{
  ℕ, Bool, true, false, ◌&&◌, ◌||◌, not, List, [], ◌∷◌, Option, none, some, leb, ◌==◌,
  if◌then◌else◌, length, ◌≡◌, refl, ◌∙◌, ap, if_elim, option_elim, list_eq, min,
}
use dpdk_cpp.Dpi.HostnameCache
use dpdk_cpp.Dpi.Rules.{match_reported}
use dpdk_cpp.Flow.Hash.{RteHash}
use dpdk_cpp.Flow.Key.{FlowKey}
use dpdk_cpp.Packet.{PacketMetadata, Action, forward}
use dpdk_cpp.Parser.Mbuf.{RteMbuf}
use dpdk_cpp.Pipeline.Counters.{BurstCounters, bump}
use dpdk_cpp.Pipeline.Context.{
  Settings, DpiRuleTable, Worker, Hostnames, count_matched, count_skip, counted, insert_flow,
  count_dpi_miss,
}
use dpdk_cpp.Pipeline.Dpi.{
  Inspection, passed, deferred, decided_as, when_full, cache_action, classify_hostname,
  classify_stream, inspect_payload, is_inspected, try_dpi_classify, match_dpi, match_uncached,
  is_drop, DpiMatch,
}
use dpdk_cpp.Spi.Match.{ClassificationResult, no_index}
use dpdk_cpp.Tcp.Direction.{Status, disabled, waiting, ready, conflicting_overlap, resource_limit}
use dpdk_cpp.Tcp.Streams.{TcpReassemblyResult}
use dpdk_cpp.Tcp.Streams

-- The counters that tell what became of a packet.
pub record Fates : Type 0 where
  pub parsed : ℕ
  pub matched : ℕ
  pub unknown : ℕ
  pub malformed : ℕ
  pub dropped : ℕ
  pub dropped_by_rule : ℕ
  pub flow_cache_hits : ℕ

abbrev pub fates : BurstCounters → Fates
fates c = record {
  parsed = c.parsed;
  matched = c.matched;
  unknown = c.unknown;
  malformed = c.malformed;
  dropped = c.dropped;
  dropped_by_rule = c.dropped_by_rule;
  flow_cache_hits = c.flow_cache_hits;
}

module _ (rte : RteMbuf) (hash : RteHash) where
  -- A decision counts the packet as matched, anything else counts nothing yet.
  abbrev pub Counts : BurstCounters → Option Action → BurstCounters → Type 0
  Counts c none c' = fates c' ≡ fates c
  Counts c (some action) c' = fates c' ≡ fates (count_matched c)

  unfoldable pub IsCounted : BurstCounters → Inspection rte hash → Type 0
  IsCounted c i = Counts c i.decided i.worker.counters

  when_full-IsCounted :
      (s : Settings) (w : Worker rte hash) (m : PacketMetadata)
      → IsCounted w.counters (when_full rte hash s w m)
  unfolding IsCounted when_full
  when_full-IsCounted s w m =
      if_elim (λ i. IsCounted w.counters i) s.flow_overflow_drop _ _ refl refl

  cache_action-IsCounted :
      (s : Settings) (w : Worker rte hash) (m : PacketMetadata) (key : FlowKey) (action : Action)
      (linked : Bool)
      → IsCounted w.counters (cache_action rte hash s w m key action linked)
  unfolding cache_action insert_flow IsCounted
  cache_action-IsCounted s w m key action true =
      if_elim (λ i. IsCounted w.counters i) (insert_flow rte hash s w key action).1 _ _ refl
        (when_full-IsCounted s (insert_flow rte hash s w key action).0 m)
  cache_action-IsCounted s w m key action false =
      if_elim (λ i. IsCounted w.counters i) (insert_flow rte hash s w key action).1 _ _ refl
        (when_full-IsCounted s (insert_flow rte hash s w key action).0 m)

  match_uncached-fates :
      (w : Worker rte hash) (d : DpiRuleTable) (hostname : List ℕ)
      → fates (match_uncached rte hash w d hostname).0.counters ≡ fates w.counters
  unfolding match_uncached
  match_uncached-fates w d hostname =
      if_elim (λ (r : Worker rte hash × Option DpiMatch). fates r.0.counters ≡ fates w.counters)
        (match_reported d.filters hostname (d.hs_scan hostname)).matched _ _ refl refl

  match_dpi-fates :
      (w : Worker rte hash) (d : DpiRuleTable) (hostname : List ℕ)
      → fates (match_dpi rte hash w d hostname).0.counters ≡ fates w.counters
  unfolding match_dpi
  match_dpi-fates w d [] = refl
  match_dpi-fates w d (c ∷ hostname) =
      if_elim (λ (r : Worker rte hash × Option DpiMatch). fates r.0.counters ≡ fates w.counters)
        (not (
          HostnameCache.lookup w.dpi_hostname_cache (c ∷ hostname) d.generation
          == HostnameCache.no_match_idx))
        _ _ refl (match_uncached-fates (counted rte hash w count_dpi_miss) d (c ∷ hostname))

  -- What is counted from counters with the same fates is counted from the first ones.
  IsCounted-from :
      (c c' : BurstCounters) (i : Inspection rte hash)
      → fates c' ≡ fates c
      → IsCounted c' i
      → IsCounted c i
  unfolding IsCounted
  IsCounted-from c c' i e h = from i.decided i.worker.counters h
    where
      from : (o : Option Action) (c'' : BurstCounters) → Counts c' o c'' → Counts c o c''
      from none c'' h = h ∙ e
      from (some action) c'' h = h ∙ ap (λ (f : Fates). record f { matched = bump f.matched }) e

  passed-IsCounted :
      (c : BurstCounters) (w : Worker rte hash) (m : PacketMetadata)
      → fates w.counters ≡ fates c
      → IsCounted c (passed rte hash w m)
  unfolding IsCounted
  passed-IsCounted c w m e = e

  deferred-IsCounted :
      (w : Worker rte hash) (m : PacketMetadata) → IsCounted w.counters (deferred rte hash w m)
  unfolding IsCounted
  deferred-IsCounted w m = refl

  decided_as-IsCounted :
      (w : Worker rte hash) (m : PacketMetadata) (action : Action)
      → IsCounted w.counters (decided_as rte hash (counted rte hash w count_matched) m action)
  unfolding IsCounted
  decided_as-IsCounted w m action = refl

  classify_hostname-IsCounted :
      (s : Settings) (d : DpiRuleTable) (w : Worker rte hash) (m : PacketMetadata)
      (spi : ClassificationResult) (key : FlowKey)
      → IsCounted w.counters (classify_hostname rte hash s d w m spi key)
  unfolding classify_hostname
  classify_hostname-IsCounted s d w m spi key =
      option_elim (IsCounted w.counters) (match_dpi rte hash w d m.hostname).1 _ _
        (passed-IsCounted w.counters (match_dpi rte hash w d m.hostname).0 m
          (match_dpi-fates w d m.hostname))
        λ found.
          IsCounted-from w.counters (match_dpi rte hash w d m.hostname).0.counters _
            (match_dpi-fates w d m.hostname)
            (cache_action-IsCounted s (match_dpi rte hash w d m.hostname).0 m key
              (if spi.matched then spi.action else forward) false)

  module _ (names : Hostnames rte) where
    classify_stream-IsCounted :
        (s : Settings) (d : DpiRuleTable) (w : Worker rte hash) (m : PacketMetadata)
        (spi : ClassificationResult) (key : FlowKey) (stream : TcpReassemblyResult)
        → IsCounted w.counters (classify_stream rte hash names s d w m spi key stream)
    unfolding classify_stream
    classify_stream-IsCounted s d w m spi key stream = by_status stream.status
      where
        hostname : List ℕ
        hostname =
            names.stream_hostname (rte.be_to_cpu_16 m.destination_port_be) stream.contiguous_payload

        named : Inspection rte hash
        named =
            if list_eq hostname []
            then deferred rte hash w m
            else classify_hostname rte hash s d w (record m { hostname = hostname }) spi key

        named-IsCounted : IsCounted w.counters named
        named-IsCounted =
            if_elim (IsCounted w.counters) (list_eq hostname []) _ _ (deferred-IsCounted w m)
              (classify_hostname-IsCounted s d w (record m { hostname = hostname }) spi key)

        by_status :
            (status : Status)
            → IsCounted w.counters (elim status [
              | disabled ↦ classify_hostname rte hash s d w m spi key
              | conflicting_overlap ↦
                  decided_as rte hash (counted rte hash w count_matched) m Action.drop
              | resource_limit ↦
                  decided_as rte hash (counted rte hash w count_matched) m Action.drop
              | waiting ↦ named
              | ready ↦ named
            ])
        by_status disabled = classify_hostname-IsCounted s d w m spi key
        by_status conflicting_overlap = decided_as-IsCounted w m Action.drop
        by_status resource_limit = decided_as-IsCounted w m Action.drop
        by_status waiting = named-IsCounted
        by_status ready = named-IsCounted

    inspect_payload-IsCounted :
        (s : Settings) (d : DpiRuleTable) (w : Worker rte hash) (packet : rte.Mbuf)
        (m : PacketMetadata) (spi : ClassificationResult) (key : FlowKey)
        → IsCounted w.counters (inspect_payload rte hash names s d w packet m spi key)
    unfolding inspect_payload
    inspect_payload-IsCounted s d w packet m spi key =
        option_elim (IsCounted w.counters) w.tcp_reassembler _ _
          (classify_hostname-IsCounted s d w
            (record m { hostname = names.packet_hostname packet m }) spi key)
          λ r.
            option_elim (IsCounted w.counters)
              (rte.pktmbuf_read packet m.tcp_payload_offset (min m.tcp_payload_length 65536)) _ _
              (deferred-IsCounted w m)
              λ payload.
                classify_stream-IsCounted s d
                  (record w {
                    tcp_reassembler = some (Streams.insert r m payload s.current_burst_tsc).0;
                  })
                  m spi key (Streams.insert r m payload s.current_burst_tsc).1

    pub try_dpi_classify-IsCounted :
        (s : Settings) (dpi : Option DpiRuleTable) (w : Worker rte hash) (packet : rte.Mbuf)
        (m : PacketMetadata) (spi : ClassificationResult) (key : FlowKey)
        → IsCounted w.counters (try_dpi_classify rte hash names s dpi w packet m spi key)
    unfolding try_dpi_classify
    try_dpi_classify-IsCounted s none w packet m spi key = passed-IsCounted w.counters w m refl
    try_dpi_classify-IsCounted s (some d) w packet m spi key =
        if_elim (IsCounted w.counters) (leb (length d.filters) 0) _ _
          (passed-IsCounted w.counters w m refl)
          (if_elim (IsCounted w.counters)
            (spi.matched && (is_drop spi.action || not spi.l7_required)) _ _
            (passed-IsCounted w.counters (counted rte hash w count_skip) m refl)
            (if_elim (IsCounted w.counters)
              (spi.matched && not (spi.bound_dpi_filter_index == no_index)) _ _
              (cache_action-IsCounted s w m key spi.action true)
              (if_elim (IsCounted w.counters) (is_inspected rte hash names m) _ _
                (inspect_payload-IsCounted s d w packet m spi key)
                (passed-IsCounted w.counters (counted rte hash w count_skip) m refl))))
