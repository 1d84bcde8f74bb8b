-- ===== src/Pipeline/Classify.antt =====
-- The classification of one packet in include/dpdk/spi/spi_pipeline.cpp: `ClassifyPacket` of a
-- dispatched packet, and what `FinalizePackets` decides on one that its flow table misses.
pub mod Accounts
pub mod Verdicts
use dpdk_cpp.Base.{
  ℕ, ◌%◌, Bool, true, false, ◌&&◌, not, List, [], ◌∷◌, Option, none, some, leb, ◌==◌, if◌then◌else◌,
  length,
}
use dpdk_cpp.Flow.Hash.{RteHash}
use dpdk_cpp.Flow.Key.{FlowKey, make_canonical_from_metadata}
use dpdk_cpp.Flow.Table.{FlowTable, lookup}
use dpdk_cpp.Packet.{PacketMetadata, Action, forward, tcp}
use dpdk_cpp.Parser.Headers.{
  PacketParseStatus, complete, waiting_for_fragments, malformed, no_metadata, Outcome,
  parse_packet_owned,
}
use dpdk_cpp.Parser.Mbuf.{RteMbuf}
use dpdk_cpp.Pipeline.Context.{
  Settings, DpiRuleTable, RuleTable, Tables, Worker, Hostnames, count_parsed, count_matched,
  count_unknown, count_malformed, count_cache_hit, count_link, count_full, counted, insert_flow,
}
use dpdk_cpp.Pipeline.Dpi.{Inspection, try_dpi_classify}
use dpdk_cpp.Pipeline.FlowHash.{hash_packet_flow}
use dpdk_cpp.Spi.Dpdk.{RteAcl}
use dpdk_cpp.Spi.Match.{ClassificationResult, no_index, match_packet, result_for_category}
use dpdk_cpp.Spi.Tss.{probe_tss}

pub record PacketClassification : Type 0 where
  pub metadata : PacketMetadata
  pub action : Action
  pub parsed : Bool
  pub matched : Bool
  pub redispatch : Bool

abbrev pub classified_as : PacketMetadata → Action → Bool → PacketClassification
classified_as m action matched = record {
  metadata = m;
  action = action;
  parsed = true;
  matched = matched;
  redispatch = false;
}

abbrev pub not_parsed : Bool → PacketClassification
not_parsed matched = record {
  metadata = no_metadata tcp;
  action = forward;
  parsed = false;
  matched = matched;
  redispatch = false;
}

-- Whether DPI is off.
abbrev pub is_disabled : Option DpiRuleTable → Bool
is_disabled none = true
is_disabled (some d) = leb (length d.filters) 0

module _ (rte : RteMbuf) (hash : RteHash) (acl : RteAcl) (rte_hash_crc : FlowKey → ℕ) where
  open rte use {Mbuf, be_to_cpu_16}

  pub record Classified : Type 0 where
    pub worker : Worker rte hash
    pub classification : PacketClassification

  -- The worker with one more count, and the packet's classification.
  abbrev pub verdict : Worker rte hash → PacketMetadata → Action → Bool → Classified
  verdict w m action matched = record {
    worker = w;
    classification = classified_as m action matched;
  }

  unfoldable pub make_matched :
      Settings → Worker rte hash → PacketMetadata → Action → FlowKey → Classified
  unfolding insert_flow
  make_matched s w m action key =
      if put.1
      then verdict (counted rte hash put.0 count_matched) m action true
      else if s.flow_overflow_drop
      then verdict (counted rte hash (counted rte hash put.0 count_full) count_matched) m
          Action.drop true
      else verdict (counted rte hash (counted rte hash put.0 count_full) count_unknown) m forward
          false
    where
      put : Worker rte hash × Bool
      put = insert_flow rte hash s w key action

  -- The rules for a packet that the flow table misses: the exact-match table, then the ACL.
  unfoldable pub match_rules : RuleTable acl → FlowKey → PacketMetadata → ClassificationResult
  unfolding probe_tss result_for_category match_packet
  match_rules rules key m =
      if not (tss_hit == no_index)
      then result_for_category rules.groups tss_hit
      else match_packet acl be_to_cpu_16 rules.groups rules.acl_chunks rules.acl_ctx m
    where
      tss_hit : ℕ
      tss_hit = probe_tss rte_hash_crc rules.tss key

  -- The branch of `ClassifyPacket` for a group that is linked to a DPI group.
  unfoldable pub classify_linked :
      Settings → Worker rte hash → PacketMetadata → ClassificationResult → FlowKey → Classified
  unfolding insert_flow
  classify_linked s w m spi key =
      if put.1
      then verdict (counted rte hash (counted rte hash put.0 count_link) count_matched) m spi.action
          true
      else verdict (counted rte hash (counted rte hash put.0 count_full) count_matched) m
          (if s.flow_overflow_drop then Action.drop else spi.action) true
    where
      put : Worker rte hash × Bool
      put = insert_flow rte hash s w key spi.action

  module _ (names : Hostnames rte) where
    -- The end of `ClassifyPacket`, after `TryDpiClassify`.
    unfoldable pub classify_inspected :
        Settings → ClassificationResult → FlowKey → Inspection rte hash → Classified
    unfolding make_matched
    classify_inspected s spi key i = elim i.decided [
      | some action ↦ verdict i.worker i.metadata action true
      | none ↦
          if not spi.matched
          then verdict (counted rte hash i.worker count_unknown) i.metadata forward false
          else if i.defer_spi_cache
          then verdict (counted rte hash i.worker count_matched) i.metadata spi.action true
          else make_matched s i.worker i.metadata spi.action key
    ]

    unfoldable pub classify_matched :
        Settings
        → Option DpiRuleTable
        → Worker rte hash
        → Mbuf
        → PacketMetadata
        → FlowKey
        → ClassificationResult
        → Classified
    unfolding classify_linked make_matched try_dpi_classify classify_inspected
    classify_matched s dpi w packet m key spi =
        if spi.matched && not (spi.bound_dpi_filter_index == no_index)
        then classify_linked s w m spi key
        else if is_disabled dpi
        then (if spi.matched
            then make_matched s w m spi.action key
            else verdict (counted rte hash w count_unknown) m forward false)
        else classify_inspected s spi key (try_dpi_classify rte hash names s dpi w packet m spi key)

    -- From the counting of a parsed packet on.
    unfoldable pub classify_parsed :
        Settings → Tables acl → Worker rte hash → Mbuf → PacketMetadata → Classified
    unfolding lookup match_rules classify_matched make_canonical_from_metadata
    classify_parsed s tables w packet m = elim found.1 [
      | some action ↦ verdict (counted rte hash looked count_cache_hit) m action true
      | none ↦
          classify_matched s tables.dpi_rules looked packet m key (match_rules tables.rules key m)
    ]
      where
        key : FlowKey
        key = make_canonical_from_metadata m

        found : FlowTable hash × Option Action
        found = lookup hash w.flow_table key s.current_burst_tsc

        looked : Worker rte hash
        looked = record (counted rte hash w count_parsed) { flow_table = found.0 }

    -- Whether a packet that was reassembled here belongs to another worker.
    unfoldable pub is_redispatched : Settings → Bool → Option Mbuf → ℕ → Bool
    unfolding hash_packet_flow
    is_redispatched s false packet port = false
    is_redispatched s true none port = false
    is_redispatched s true (some packet) port =
        not (s.flow_hash_rings == 0)
        && not (hash_packet_flow rte packet port % s.flow_hash_rings == s.worker_id)

    unfoldable pub classify_outcome :
        Settings → Tables acl → Worker rte hash → Outcome rte → ℕ → Classified
    unfolding classify_parsed is_redispatched
    classify_outcome s tables w o port = elim o.metadata [
      | none ↦ elim o.status [
        | waiting_for_fragments ↦ record { worker = w; classification = not_parsed true }
        | complete ↦ refused
        | malformed ↦ refused
      ]
      | some m ↦
          if is_redispatched s o.was_reassembled o.packet port
          then record {
            worker = w;
            classification = record (classified_as m forward false) { redispatch = true };
          }
          else elim o.packet [
            -- There is a packet wherever there is metadata.
            | none ↦ refused
            | some packet ↦ classify_parsed s tables w packet m
          ]
    ]
      where
        refused : Classified
        refused = record {
          worker = counted rte hash w count_malformed;
          classification = not_parsed false;
        }

    -- `ClassifyPacket`, and the packet that it leaves.
    unfoldable pub classify_packet :
        Settings → Tables acl → Worker rte hash → Mbuf → ℕ → Classified × Option Mbuf
    unfolding parse_packet_owned classify_outcome
    classify_packet s tables w packet port =
        (classify_outcome s tables (record w { ip_frag_tbl = o.frag_tbl }) o port, o.packet)
      where
        o : Outcome rte
        o = parse_packet_owned rte w.ip_frag_tbl packet s.current_burst_tsc

    -- What `FinalizePackets` does with a packet that the flow table misses and its SPI match.
    unfoldable pub finalize_miss :
        Settings
        → Tables acl
        → Worker rte hash
        → Mbuf
        → PacketMetadata
        → FlowKey
        → ClassificationResult
        → Classified
    unfolding try_dpi_classify classify_inspected
    finalize_miss s tables w packet m key spi =
        classify_inspected s spi key
          (try_dpi_classify rte hash names s tables.dpi_rules w packet m spi key)
