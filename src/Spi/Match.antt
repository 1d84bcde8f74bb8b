-- ===== src/Spi/Match.antt =====
-- `RuleTable`, `Match`, `MatchBulk`, `ResultForCategory` and `FilterCount` of
-- include/dpdk/spi/spi_rule_engine.cpp and .hpp. The FIB, which nothing reads, is left out.
pub mod Hit
pub mod Bulk
use dpdk_cpp.Base.{
  ℕ, zero, suc, ◌+◌, ◌-◌, ◌*◌, ◌/◌, ◌%◌, ◌^◌, Bool, true, false, ◌&&◌, ◌||◌, not, List, [], ◌∷◌,
  ◌++◌, Option, none, some, ltb, leb, ◌==◌, if◌then◌else◌, length, get_elem?, get_or, take, drop,
  map, min,
}
use dpdk_cpp.Flow.Key.{FlowKey, word_at}
use dpdk_cpp.Packet.{Action, forward, PacketMetadata, IpVersion, ipv4, ipv6}
use dpdk_cpp.Spi.Dpdk.{RteAcl, RteMember, AclInputData}
use dpdk_cpp.Spi.Filter.{CompiledFilter, filter_matches_port_protocol, protocol_to_ip_proto}

-- Both `kNoDpiLink` and `kNoTssHit`.
abbrev pub no_index : ℕ
no_index = 4294967295

pub record ClassificationResult : Type 0 where
  pub group_name : List ℕ
  pub label : List ℕ
  pub group_precedence : ℕ
  pub bound_dpi_filter_index : ℕ
  pub action : Action
  pub matched : Bool
  pub l7_required : Bool

-- `ClassificationResult{}`.
abbrev pub no_match : ClassificationResult
no_match = record {
  group_name = [];
  label = [];
  group_precedence = 0;
  bound_dpi_filter_index = no_index;
  action = forward;
  matched = false;
  l7_required = false;
}

pub record CompiledFilterGroup : Type 0 where
  pub name : List ℕ
  pub precedence : ℕ
  pub action : Action
  pub filters : List CompiledFilter
  pub category_index : ℕ
  pub l7_required : Bool
  pub bound_dpi_filter_index : ℕ
  pub bound_dpi_name : List ℕ

unfoldable pub result_with : CompiledFilterGroup → List ℕ → ClassificationResult
result_with group label = record {
  group_name = group.name;
  label = label;
  group_precedence = group.precedence;
  bound_dpi_filter_index = group.bound_dpi_filter_index;
  action = group.action;
  matched = true;
  l7_required = group.l7_required;
}

unfoldable pub result_for_category : List CompiledFilterGroup → ℕ → ClassificationResult
unfolding result_with
result_for_category groups cat_index = elim (get_elem? groups cat_index) [
  | none ↦ no_match
  | some group ↦ result_with group []
]

unfoldable pub filter_count : List CompiledFilterGroup → ℕ
filter_count [] = 0
filter_count (group ∷ groups) = length group.filters + filter_count groups

unfoldable pub group_of : ℕ → ℕ
group_of userdata = (userdata / 65536 + 4294967295) % 2 ^ 32

unfoldable pub filter_of : ℕ → ℕ
filter_of userdata = (userdata % 65536 + 4294967295) % 2 ^ 32

acl_input_by : IpVersion → PacketMetadata → AclInputData
acl_input_by ipv4 packet = record {
  src_ip_be = packet.source_ip_be;
  dst_ip_be = packet.destination_ip_be;
  src_port_be = packet.source_port_be;
  dst_port_be = packet.destination_port_be;
  protocol = protocol_to_ip_proto packet.protocol;
}
acl_input_by ipv6 packet = record {
  src_ip_be = word_at packet.source_ip6_address 0;
  dst_ip_be = word_at packet.destination_ip6_address 0;
  src_port_be = packet.source_port_be;
  dst_port_be = packet.destination_port_be;
  protocol = protocol_to_ip_proto packet.protocol;
}

unfoldable pub acl_input : PacketMetadata → AclInputData
unfolding acl_input_by
acl_input packet = acl_input_by packet.ip_version packet

module _ (be_to_cpu_16 : ℕ → ℕ) (groups : List CompiledFilterGroup) where
  -- The result for a filter of a group, if its ports and protocol are the packet's.
  unfoldable pub checked :
      PacketMetadata → CompiledFilterGroup → Option CompiledFilter → Option ClassificationResult
  unfolding filter_matches_port_protocol result_with
  checked packet group none = none
  checked packet group (some filter) =
      if filter_matches_port_protocol be_to_cpu_16 filter packet
      then some (result_with group filter.label)
      else none

  unfoldable pub in_group :
      PacketMetadata → ℕ → Option CompiledFilterGroup → Option ClassificationResult
  unfolding checked
  in_group packet filter_idx none = none
  in_group packet filter_idx (some group) =
      checked packet group (get_elem? group.filters filter_idx)

  -- What one packet's userdata of one chunk gives; `none` is to go on with the next chunk.
  unfoldable pub classified : PacketMetadata → ℕ → Option ClassificationResult
  unfolding in_group group_of filter_of
  classified packet userdata =
      if userdata == 0
      then none
      else in_group packet (filter_of userdata) (get_elem? groups (group_of userdata))

module _ (acl : RteAcl) where
  open acl use {Context, classify}

  pub record AclChunk : Type 0 where
    pub ctx : Option Context
    pub start_group_index : ℕ
    pub group_count : ℕ

  -- The `rte_acl_classify` of one chunk; `none` if the chunk has no context or it fails.
  unfoldable pub classify_chunk : AclChunk → List AclInputData → Option (List ℕ)
  classify_chunk chunk inputs = elim chunk.ctx [ none ↦ none | some c ↦ classify c inputs ]

  module _ (be_to_cpu_16 : ℕ → ℕ) (groups : List CompiledFilterGroup) where
    unfoldable pub chunk_hit : AclChunk → PacketMetadata → Option ClassificationResult
    unfolding classify_chunk classified acl_input
    chunk_hit chunk packet = elim (classify_chunk chunk (acl_input packet ∷ [])) [
      | none ↦ none
      | some results ↦ classified be_to_cpu_16 groups packet (get_or results 0 0)
    ]

    unfoldable pub first_hit : List AclChunk → PacketMetadata → Option ClassificationResult
    unfolding chunk_hit
    first_hit [] packet = none
    first_hit (chunk ∷ chunks) packet =
        let rest = first_hit chunks packet in
        elim (chunk_hit chunk packet) [ none ↦ rest | some result ↦ some result ]

    abbrev pub or_no_match : Option ClassificationResult → ClassificationResult
    or_no_match none = no_match
    or_no_match (some result) = result

    -- `Match`; `legacy` is `acl_ctx_`, of which only the presence counts.
    unfoldable pub match_packet :
        List AclChunk → Option Context → PacketMetadata → ClassificationResult
    unfolding first_hit
    match_packet [] none packet = no_match
    match_packet [] (some legacy) packet = or_no_match (first_hit [] packet)
    match_packet (chunk ∷ chunks) legacy packet = or_no_match (first_hit (chunk ∷ chunks) packet)

    -- One packet of a chunk's results: a packet matched before keeps its result.
    unfoldable pub settle : PacketMetadata → ClassificationResult → ℕ → ClassificationResult
    unfolding classified
    settle packet result userdata =
        if result.matched then result else elim (classified be_to_cpu_16 groups packet userdata) [
          | none ↦ result
          | some hit ↦ hit
        ]

    unfoldable pub settle_all :
        List PacketMetadata → List ClassificationResult → List ℕ → List ClassificationResult
    unfolding settle
    settle_all (p ∷ packets) (r ∷ results) (u ∷ userdata) =
        settle p r u ∷ settle_all packets results userdata
    settle_all _ results _ = results

    unfoldable pub all_matched : List ClassificationResult → Bool
    all_matched [] = true
    all_matched (r ∷ results) = r.matched && all_matched results

    unfoldable pub bulk_chunks :
        List AclChunk → List PacketMetadata → List ClassificationResult → List ClassificationResult
    unfolding classify_chunk acl_input settle_all all_matched
    bulk_chunks [] packets results = results
    bulk_chunks (chunk ∷ chunks) packets results =
        elim (classify_chunk chunk (map acl_input packets)) [
          | none ↦ bulk_chunks chunks packets results
          | some flat ↦
              let settled = settle_all packets results flat in
              let rest = bulk_chunks chunks packets settled in
              if all_matched settled then settled else rest
        ]

    -- The classification of `MatchBulk`, of at most 64 packets; the results behind them keep what
    -- they held.
    unfoldable pub bulk_of :
        List AclChunk → List PacketMetadata → List ClassificationResult → List ClassificationResult
    unfolding bulk_chunks
    bulk_of chunks packets results =
        bulk_chunks chunks (take 64 packets) (map (λ _. no_match) (take 64 packets))
        ++ drop (min (length packets) 64) results

    unfoldable pub match_bulk :
        List AclChunk
        → Option Context
        → List PacketMetadata
        → List ClassificationResult
        → List ClassificationResult
    unfolding bulk_of
    match_bulk [] none packets results =
        map (λ _. no_match) packets ++ drop (length packets) results
    match_bulk [] (some legacy) packets results = bulk_of [] packets results
    match_bulk (chunk ∷ chunks) legacy packets results = bulk_of (chunk ∷ chunks) packets results
