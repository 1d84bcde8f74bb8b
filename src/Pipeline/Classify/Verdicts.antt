-- ===== src/Pipeline/Classify/Verdicts.antt =====
-- What a classification of include/dpdk/spi/spi_pipeline.cpp counts.
use dpdk_cpp.Base.{
  ℕ, Bool, true, false, ◌&&◌, not, Option, none, some, ◌==◌, if◌then◌else◌, ◌≡◌, ◌≢◌, refl, ◌∙◌, ap,
  arith, if_elim,
}
use dpdk_cpp.Flow.Hash.{RteHash}
use dpdk_cpp.Flow.Key.{FlowKey, make_canonical_from_metadata}
use dpdk_cpp.Flow.Table.{FlowTable, lookup}
use dpdk_cpp.Packet.{PacketMetadata, Action, forward}
use dpdk_cpp.Parser.Headers.{
  PacketParseStatus, complete, waiting_for_fragments, malformed, Outcome, parse_packet_owned,
}
use dpdk_cpp.Parser.Headers.Outcomes.{Promises, IsConsistent, parse_packet_owned-IsConsistent}
use dpdk_cpp.Parser.Mbuf.{RteMbuf}
use dpdk_cpp.Pipeline.Classify.{
  PacketClassification, Classified, classified_as, not_parsed, verdict, make_matched, match_rules,
  classify_linked, classify_inspected, classify_matched, classify_parsed, is_redispatched,
  classify_outcome, classify_packet, finalize_miss, is_disabled,
}
use dpdk_cpp.Pipeline.Classify.Accounts.{
  Fates, fates, IsCounted, Counts, try_dpi_classify-IsCounted,
}
use dpdk_cpp.Pipeline.Context.{
  Settings, DpiRuleTable, Tables, Worker, Hostnames, count_parsed, count_matched, count_unknown,
  count_malformed, count_cache_hit, counted, insert_flow,
}
use dpdk_cpp.Pipeline.Counters.{BurstCounters, bump}
use dpdk_cpp.Pipeline.Dpi.{Inspection}
use dpdk_cpp.Spi.Dpdk.{RteAcl}
use dpdk_cpp.Spi.Match.{ClassificationResult, no_index}

-- What became of a parsed packet that the flow table missed, with the counters before and after it.
pub data IsSettled (before after : BurstCounters) : PacketClassification → Type 0 where
  as_matched :
      (m : PacketMetadata) (action : Action)
      → fates after ≡ fates (count_matched before)
      → IsSettled before after (classified_as m action true)
  as_unknown :
      (m : PacketMetadata)
      → fates after ≡ fates (count_unknown before)
      → IsSettled before after (classified_as m forward false)

-- What became of a received packet and, with it, what is counted and which packet is left.
pub data IsAccounted (rte : RteMbuf) (before after : BurstCounters)
    : PacketClassification → Option rte.Mbuf → Type 0 where
  settled :
      (k : PacketClassification) (packet : rte.Mbuf)
      → IsSettled (count_parsed before) after k
      → IsAccounted rte before after k (some packet)
  cached :
      (m : PacketMetadata) (action : Action) (packet : rte.Mbuf)
      → fates after ≡ fates (count_cache_hit (count_parsed before))
      → IsAccounted rte before after (classified_as m action true) (some packet)
  redispatched :
      (m : PacketMetadata) (packet : rte.Mbuf)
      → fates after ≡ fates before
      → IsAccounted rte before after
          (record (classified_as m forward false) { redispatch = true })
          (some packet)
  owned_by_table : fates after ≡ fates before → IsAccounted rte before after (not_parsed true) none
  refused :
      (packet : rte.Mbuf)
      → fates after ≡ fates (count_malformed before)
      → IsAccounted rte before after (not_parsed false) (some packet)

some_apart {ℓ} : {A : Type ℓ} {a : A} → ◌≢◌ {A = Option A} (some a) none
some_apart e = ground arith

module _ (rte : RteMbuf) (hash : RteHash) (acl : RteAcl) (rte_hash_crc : FlowKey → ℕ) where
  abbrev pub Settles : BurstCounters → Classified rte hash acl rte_hash_crc → Type 0
  Settles c r = IsSettled c r.worker.counters r.classification

  make_matched-Settles :
      (s : Settings) (w : Worker rte hash) (m : PacketMetadata) (action : Action) (key : FlowKey)
      → Settles w.counters (make_matched rte hash acl rte_hash_crc s w m action key)
  unfolding make_matched insert_flow
  make_matched-Settles s w m action key =
      if_elim (Settles w.counters) (insert_flow rte hash s w key action).1 _ _
        (as_matched m action refl)
        (if_elim (Settles w.counters) s.flow_overflow_drop _ _ (as_matched m Action.drop refl)
          (as_unknown m refl))

  classify_linked-Settles :
      (s : Settings) (w : Worker rte hash) (m : PacketMetadata) (spi : ClassificationResult)
      (key : FlowKey)
      → Settles w.counters (classify_linked rte hash acl rte_hash_crc s w m spi key)
  unfolding classify_linked insert_flow
  classify_linked-Settles s w m spi key =
      if_elim (Settles w.counters) (insert_flow rte hash s w key spi.action).1 _ _
        (as_matched m spi.action refl)
        (as_matched m (if s.flow_overflow_drop then Action.drop else spi.action) refl)

  -- From counters with the same fates on.
  IsSettled-from :
      (c c' after : BurstCounters) (k : PacketClassification)
      → fates c' ≡ fates c
      → IsSettled c' after k
      → IsSettled c after k
  IsSettled-from c c' after _ e (as_matched m action h) =
      as_matched m action (h ∙ ap (λ (f : Fates). record f { matched = bump f.matched }) e)
  IsSettled-from c c' after _ e (as_unknown m h) =
      as_unknown m (h ∙ ap (λ (f : Fates). record f { unknown = bump f.unknown }) e)

  module _ (names : Hostnames rte) where
    classify_inspected-Settles :
        (s : Settings) (c : BurstCounters) (spi : ClassificationResult) (key : FlowKey)
        (i : Inspection rte hash)
        → IsCounted rte hash c i
        → Settles c (classify_inspected rte hash acl rte_hash_crc names s spi key i)
    unfolding classify_inspected IsCounted
    classify_inspected-Settles s c spi key i h = by_decision i.decided h
      where
        by_decision :
            (o : Option Action)
            → Counts rte hash c o i.worker.counters
            → Settles c (elim o [
              | some action ↦ verdict rte hash acl rte_hash_crc i.worker i.metadata action true
              | none ↦
                  if not spi.matched
                  then verdict rte hash acl rte_hash_crc
                      (counted rte hash i.worker count_unknown)
                      i.metadata
                      forward
                      false
                  else if i.defer_spi_cache
                  then verdict rte hash acl rte_hash_crc
                      (counted rte hash i.worker count_matched)
                      i.metadata
                      spi.action
                      true
                  else make_matched rte hash acl rte_hash_crc s i.worker i.metadata spi.action key
            ])
        by_decision (some action) e = as_matched i.metadata action e
        by_decision none e =
            if_elim (Settles c) (not spi.matched) _ _
              (IsSettled-from c i.worker.counters _ _ e (as_unknown i.metadata refl))
              (if_elim (Settles c) i.defer_spi_cache _ _
                (IsSettled-from c i.worker.counters _ _ e (as_matched i.metadata spi.action refl))
                (IsSettled-from c i.worker.counters _ _ e
                  (make_matched-Settles s i.worker i.metadata spi.action key)))

    -- A packet that the flow table missed is counted once: as matched, with any action, or as unknown,
    -- and then it is to be forwarded.
    pub finalize_miss-Settles :
        (s : Settings) (tables : Tables acl) (w : Worker rte hash) (packet : rte.Mbuf)
        (m : PacketMetadata) (key : FlowKey) (spi : ClassificationResult)
        → Settles w.counters
            (finalize_miss rte hash acl rte_hash_crc names s tables w packet m key spi)
    unfolding finalize_miss
    finalize_miss-Settles s tables w packet m key spi =
        classify_inspected-Settles s w.counters spi key _
          (try_dpi_classify-IsCounted rte hash names s tables.dpi_rules w packet m spi key)

    classify_matched-Settles :
        (s : Settings) (dpi : Option DpiRuleTable) (w : Worker rte hash) (packet : rte.Mbuf)
        (m : PacketMetadata) (key : FlowKey) (spi : ClassificationResult)
        → Settles w.counters
            (classify_matched rte hash acl rte_hash_crc names s dpi w packet m key spi)
    unfolding classify_matched
    classify_matched-Settles s dpi w packet m key spi =
        if_elim (Settles w.counters) (spi.matched && not (spi.bound_dpi_filter_index == no_index)) _
          _ (classify_linked-Settles s w m spi key)
          (if_elim (Settles w.counters) (is_disabled dpi) _ _
            (if_elim (Settles w.counters) spi.matched _ _
              (make_matched-Settles s w m spi.action key) (as_unknown m refl))
            (classify_inspected-Settles s w.counters spi key _
              (try_dpi_classify-IsCounted rte hash names s dpi w packet m spi key)))

    abbrev pub Accounts :
        BurstCounters → Option rte.Mbuf → Classified rte hash acl rte_hash_crc → Type 0
    Accounts c packet r = IsAccounted rte c r.worker.counters r.classification packet

    classify_parsed-Accounts :
        (s : Settings) (tables : Tables acl) (w : Worker rte hash) (packet : rte.Mbuf)
        (m : PacketMetadata)
        → Accounts w.counters
            (some packet)
            (classify_parsed rte hash acl rte_hash_crc names s tables w packet m)
    unfolding classify_parsed
    classify_parsed-Accounts s tables w packet m =
        by_lookup (lookup hash w.flow_table (make_canonical_from_metadata m) s.current_burst_tsc)
      where
        key : FlowKey
        key = make_canonical_from_metadata m

        by_lookup :
            (found : FlowTable hash × Option Action)
            → Accounts w.counters (some packet) (elim found.1 [
              | some action ↦
                  verdict rte hash acl rte_hash_crc
                    (counted rte hash
                      (record (counted rte hash w count_parsed) { flow_table = found.0 })
                      count_cache_hit)
                    m
                    action
                    true
              | none ↦
                  classify_matched rte hash acl rte_hash_crc names s tables.dpi_rules
                    (record (counted rte hash w count_parsed) { flow_table = found.0 })
                    packet
                    m
                    key
                    (match_rules rte hash acl rte_hash_crc tables.rules key m)
            ])
        by_lookup (t, some action) = cached m action packet refl
        by_lookup (t, none) = settled _ packet (
            classify_matched-Settles s tables.dpi_rules
              (record (counted rte hash w count_parsed) { flow_table = t }) packet m key
              (match_rules rte hash acl rte_hash_crc tables.rules key m))

    outcome-Accounts :
        (s : Settings) (tables : Tables acl) (w : Worker rte hash) (port : ℕ)
        (packet : Option rte.Mbuf) (tbl : Option rte.FragTable) (status : PacketParseStatus)
        (again : Bool) (metadata : Option PacketMetadata)
        → Promises rte status packet again metadata
        → Accounts w.counters packet (
            classify_outcome rte hash acl rte_hash_crc names s tables w
              (record {
                packet = packet;
                frag_tbl = tbl;
                status = status;
                was_reassembled = again;
                metadata = metadata;
              })
              port)
    unfolding classify_outcome
    outcome-Accounts s tables w port (some packet) tbl status again (some m) h =
        if_elim (Accounts w.counters (some packet))
          (is_redispatched rte hash acl rte_hash_crc names s again (some packet) port) _ _
          (redispatched m packet refl) (classify_parsed-Accounts s tables w packet m)
    outcome-Accounts s tables w port (some packet) tbl malformed again none h = refused packet refl
    outcome-Accounts s tables w port (some packet) tbl complete again none h = absurd (h.1 refl)
    outcome-Accounts s tables w port (some packet) tbl waiting_for_fragments again none h =
        absurd (some_apart h.0)
    outcome-Accounts s tables w port none tbl waiting_for_fragments again none h =
        owned_by_table refl
    outcome-Accounts s tables w port none tbl waiting_for_fragments again (some m) h =
        absurd (some_apart h.2)
    outcome-Accounts s tables w port none tbl complete again metadata h = absurd (h.0 refl)
    outcome-Accounts s tables w port none tbl malformed again metadata h = absurd (h.0 refl)

    classify_outcome-Accounts :
        (s : Settings) (tables : Tables acl) (w : Worker rte hash) (o : Outcome rte) (port : ℕ)
        → IsConsistent rte o
        → Accounts w.counters o.packet
            (classify_outcome rte hash acl rte_hash_crc names s tables w o port)
    unfolding IsConsistent
    classify_outcome-Accounts s tables w o port h =
        outcome-Accounts s tables w port o.packet o.frag_tbl o.status o.was_reassembled o.metadata h

    -- `ClassifyPacket` counts every packet once. A parsed one is a hit of the flow cache, or matched, or
    -- unknown, and the classification says it is matched exactly in the first two cases; a packet for
    -- another worker is not counted; a malformed one is counted as such and is not matched. Unless the
    -- fragment table has taken it, a packet is left to forward or to drop. Nothing is counted as dropped.
    pub classify_packet-Accounts :
        (s : Settings) (tables : Tables acl) (w : Worker rte hash) (packet : rte.Mbuf) (port : ℕ)
        → Accounts w.counters
            (classify_packet rte hash acl rte_hash_crc names s tables w packet port).1
            (classify_packet rte hash acl rte_hash_crc names s tables w packet port).0
    unfolding classify_packet
    classify_packet-Accounts s tables w packet port =
        classify_outcome-Accounts s tables
          (record w {
            ip_frag_tbl =
                (parse_packet_owned rte w.ip_frag_tbl packet s.current_burst_tsc).frag_tbl;
          })
          (parse_packet_owned rte w.ip_frag_tbl packet s.current_burst_tsc) port
          (parse_packet_owned-IsConsistent rte w.ip_frag_tbl packet s.current_burst_tsc)
