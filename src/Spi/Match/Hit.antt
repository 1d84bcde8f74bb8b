-- ===== src/Spi/Match/Hit.antt =====
-- What `BuildAclRule` puts into a rule's userdata, read back, and where a result of `Match` of
-- include/dpdk/spi/spi_rule_engine.cpp comes from.
use dpdk_cpp.Base.{
  ℕ, ◌<◌, true, List, [], ◌∷◌, Option, none, some, ◌≡◌, arith, get_elem?, get_or, Option-cases, inl,
  inr,
}
use dpdk_cpp.Packet.{PacketMetadata}
use dpdk_cpp.Spi.Dpdk.{RteAcl}
use dpdk_cpp.Spi.Filter.{CompiledFilter, encode_userdata, filter_matches_port_protocol}
use dpdk_cpp.Spi.Match.{
  AclChunk, ClassificationResult, CompiledFilterGroup, acl_input, checked, chunk_hit, classified,
  classify_chunk, filter_of, first_hit, group_of, in_group, match_packet, or_no_match, result_with,
}

-- The group and the filter of a rule are read back from its userdata when both numbers are below
-- 65535.
pub encode_userdata_roundtrip :
    (g f : ℕ)
    → g < 65535
    → f < 65535
    → (group_of (encode_userdata g f) ≡ g) × (filter_of (encode_userdata g f) ≡ f)
unfolding encode_userdata group_of filter_of
encode_userdata_roundtrip g f hg hf = (omega arith, omega arith)

-- A result is of one filter of one group, whose ports and protocol are the packet's.
pub record IsHit (be_to_cpu_16 : ℕ → ℕ) (groups : List CompiledFilterGroup)
    (packet : PacketMetadata) (result : ClassificationResult) : Type 0 where
  pub group_index : ℕ
  pub group : CompiledFilterGroup
  pub filter_index : ℕ
  pub filter : CompiledFilter
  pub group_eq : get_elem? groups group_index ≡ some group
  pub filter_eq : get_elem? group.filters filter_index ≡ some filter
  pub matches : filter_matches_port_protocol be_to_cpu_16 filter packet ≡ true
  pub result_eq : result ≡ result_with group filter.label

module _ (be_to_cpu_16 : ℕ → ℕ) (groups : List CompiledFilterGroup) where
  pub classified-IsHit :
      (packet : PacketMetadata) (userdata : ℕ) (result : ClassificationResult)
      → classified be_to_cpu_16 groups packet userdata ≡ some result
      → IsHit be_to_cpu_16 groups packet result
  unfolding classified in_group checked
  classified-IsHit packet userdata result e =
      elim (Option-cases (get_elem? groups (group_of userdata))) [
        | inl none_e ↦ absurd (ground arith)
        | inr (group, group_e) ↦
            elim (Option-cases (get_elem? group.filters (filter_of userdata))) [
              | inl none_e ↦ absurd (ground arith)
              | inr (filter, filter_e) ↦ record {
                group_index = group_of userdata;
                group = group;
                filter_index = filter_of userdata;
                filter = filter;
                group_eq = group_e;
                filter_eq = filter_e;
                matches = ground arith;
                result_eq = ground arith;
              }
            ]
      ]

  module _ (acl : RteAcl) where
    chunk_hit-IsHit :
        (chunk : AclChunk acl) (packet : PacketMetadata) (result : ClassificationResult)
        → chunk_hit acl be_to_cpu_16 groups chunk packet ≡ some result
        → IsHit be_to_cpu_16 groups packet result
    unfolding chunk_hit
    chunk_hit-IsHit chunk packet result e =
        elim (Option-cases (classify_chunk acl chunk (acl_input packet ∷ []))) [
          | inl none_e ↦ absurd (ground arith)
          | inr (flat, flat_e) ↦ classified-IsHit packet (get_or flat 0 0) result (ground arith)
        ]

    first_hit-IsHit :
        (chunks : List (AclChunk acl)) (packet : PacketMetadata) (result : ClassificationResult)
        → first_hit acl be_to_cpu_16 groups chunks packet ≡ some result
        → IsHit be_to_cpu_16 groups packet result
    unfolding first_hit
    first_hit-IsHit [] packet result e = absurd (ground arith)
    first_hit-IsHit (chunk ∷ chunks) packet result e =
        elim (Option-cases (chunk_hit acl be_to_cpu_16 groups chunk packet)) [
          | inl none_e ↦ first_hit-IsHit chunks packet result (ground arith)
          | inr (hit, hit_e) ↦ chunk_hit-IsHit chunk packet result (ground arith)
        ]

    or_no_match-IsHit :
        (chunks : List (AclChunk acl)) (packet : PacketMetadata)
        → (or_no_match acl be_to_cpu_16 groups
            (first_hit acl be_to_cpu_16 groups chunks packet)).matched
          ≡ true
        → IsHit be_to_cpu_16 groups packet
            (or_no_match acl be_to_cpu_16 groups (first_hit acl be_to_cpu_16 groups chunks packet))
    or_no_match-IsHit chunks packet m =
        elim (Option-cases (first_hit acl be_to_cpu_16 groups chunks packet)) [
          | inl none_e ↦ absurd (ground arith)
          | inr (hit, hit_e) ↦ first_hit-IsHit chunks packet _ (ground arith)
        ]

    -- When `Match` reports a match, its result is the name, the precedence, the action, the link and
    -- the flag of one of the groups, and the label of a filter of that group whose protocol and
    -- whose ports, where it has them, are the packet's.
    pub match_packet-IsHit :
        (chunks : List (AclChunk acl)) (legacy : Option acl.Context) (packet : PacketMetadata)
        → (match_packet acl be_to_cpu_16 groups chunks legacy packet).matched ≡ true
        → IsHit be_to_cpu_16 groups packet
            (match_packet acl be_to_cpu_16 groups chunks legacy packet)
    unfolding match_packet
    match_packet-IsHit [] none packet m = absurd (ground arith)
    match_packet-IsHit [] (some legacy) packet m = or_no_match-IsHit [] packet m
    match_packet-IsHit (chunk ∷ chunks) legacy packet m =
        or_no_match-IsHit (chunk ∷ chunks) packet m
