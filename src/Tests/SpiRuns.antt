-- ===== src/Tests/SpiRuns.antt =====
-- The rule engine on a small table: two groups, a classifier that always answers with one rule, and
-- a member set of one key.
use dpdk_cpp.Base.{
  ℕ, ◌+◌, true, false, List, [], ◌∷◌, ◌++◌, none, some, ◌≡◌, refl, map, drop, length, arith, ◌==◌,
  if◌then◌else◌,
}
use dpdk_cpp.Flow.Key.{FlowKey}
use dpdk_cpp.Packet.{tcp, forward}
use dpdk_cpp.Spi.Address.{parse_cidr}
use dpdk_cpp.Spi.Address.Cidr.{IsNetwork, parse_cidr-IsNetwork}
use dpdk_cpp.Spi.Compile.{parse_ranges, resolve_dpi_links}
use dpdk_cpp.Spi.Compile.Links.{AllResolved, resolve_dpi_links-AllResolved}
use dpdk_cpp.Spi.Compile.Ranges.{Follow, parse_ranges-Follow, rules_before}
use dpdk_cpp.Spi.Dpdk.{RteAcl, RteMember}
use dpdk_cpp.Spi.Filter.{CompiledFilter, encode_userdata}
use dpdk_cpp.Spi.Match.{
  AclChunk, CompiledFilterGroup, filter_of, group_of, match_bulk, match_packet, no_index, no_match,
}
use dpdk_cpp.Spi.Match.Bulk.{match_bulk-match}
use dpdk_cpp.Spi.Match.Hit.{IsHit, encode_userdata_roundtrip, match_packet-IsHit}
use dpdk_cpp.Spi.Member.{member_filter_bulk, member_filter_bulk-each, skip_each}
use dpdk_cpp.Spi.Tss.{
  Tss, add_groups, build_tss_from_groups, filter_key, find_unused, insert_key, probe_from,
  probe_tss, unused,
}
use dpdk_cpp.Spi.Tss.Build.{IsRule, add_groups_kept, build_tss_from_groups-IsRule}
use dpdk_cpp.Spi.Tss.Probe.{probe_tss-insert_key}
use dpdk_cpp.Tests.KeyRuns.{request}

-- 10.0.0.1:1000 to 10.0.0.2:80.
abbrev pub exact_filter : CompiledFilter
exact_filter = record {
  protocol = tcp;
  source_ip_address = 167772161;
  destination_ip_address = 167772162;
  destination_network = 0;
  destination_prefix_mask = 0;
  destination_prefix_length = 0;
  source_port = 1000;
  destination_port = 80;
  match_source_ip = true;
  match_destination_ip = true;
  match_destination_cidr = false;
  match_source_port = true;
  match_destination_port = true;
  label = 1 ∷ [];
}

abbrev pub web_filter : CompiledFilter
web_filter = record exact_filter {
  match_source_ip = false;
  match_source_port = false;
  label = 2 ∷ [];
}

abbrev pub exact_group : CompiledFilterGroup
exact_group = record {
  name = 7 ∷ [];
  precedence = 10;
  action = forward;
  filters = exact_filter ∷ [];
  category_index = 0;
  l7_required = false;
  bound_dpi_filter_index = no_index;
  bound_dpi_name = [];
}

abbrev pub web_group : CompiledFilterGroup
web_group = record exact_group {
  name = 8 ∷ [];
  precedence = 20;
  filters = web_filter ∷ [];
  category_index = 1;
  bound_dpi_name = 5 ∷ [];
}

abbrev pub groups2 : List CompiledFilterGroup
groups2 = exact_group ∷ web_group ∷ []

-- Whatever its input is, the best rule is filter 0 of group 1.
abbrev pub web_acl : RteAcl
web_acl = record {
  Context = Unit;
  classify = λ c inputs. some (map (λ _. 131073) inputs);
  is_ready = λ c. true;
  best = λ c input. 131073;
  classify_each = λ c inputs. refl;
}

abbrev pub web_chunk : AclChunk web_acl
web_chunk = record { ctx = some tt; start_group_index = 0; group_count = 2 }

match_packet-IsHit_example :
    IsHit
      (λ port. port)
      groups2
      request
      (match_packet web_acl (λ port. port) groups2 (web_chunk ∷ []) none request)
unfolding match_packet
match_packet-IsHit_example =
    match_packet-IsHit (λ port. port) groups2 web_acl (web_chunk ∷ []) none request refl

match_bulk-match_example :
    match_bulk web_acl
      (λ port. port)
      groups2
      (web_chunk ∷ [])
      none
      (request ∷ request ∷ [])
      (no_match ∷ no_match ∷ no_match ∷ [])
    ≡ map
        (match_packet web_acl (λ port. port) groups2 (web_chunk ∷ []) none)
        (request ∷ request ∷ [])
      ++ drop 2 (no_match ∷ no_match ∷ no_match ∷ [])
match_bulk-match_example =
    match_bulk-match web_acl (λ port. port) groups2 (web_chunk ∷ []) none (request ∷ request ∷ [])
      (no_match ∷ no_match ∷ no_match ∷ []) (omega arith)

encode_userdata_roundtrip_example :
    (group_of (encode_userdata 300 7) ≡ 300) × (filter_of (encode_userdata 300 7) ≡ 7)
encode_userdata_roundtrip_example = encode_userdata_roundtrip 300 7 (omega arith) (omega arith)

-- A set of the keys with port 80.
abbrev pub port80 : RteMember
port80 = record {
  Setsum = Unit;
  lookup = λ s key. if key.dst_port_be == 80 then 1 else 0;
  lookup_bulk = λ s keys. map (λ key. if key.dst_port_be == 80 then 1 else 0) keys;
  lookup_bulk_each = λ s keys h. refl;
}

member_filter_bulk-each_example :
    member_filter_bulk port80
      (some tt)
      false
      (request ∷ (record request { destination_port_be = 81 }) ∷ [])
      (false ∷ false ∷ [])
    ≡ skip_each port80 tt
        (request ∷ (record request { destination_port_be = 81 }) ∷ [])
        (false ∷ false ∷ [])
member_filter_bulk-each_example =
    member_filter_bulk-each port80 tt (request ∷ (record request { destination_port_be = 81 }) ∷ [])
      (false ∷ false ∷ []) (omega arith)

abbrev pub sum_hash : FlowKey → ℕ
sum_hash key = key.src_ip + key.dst_ip + key.src_port

abbrev pub new_tss : Tss
new_tss = record { slots = unused; size = 0; has_wildcard_ip_rules = false }

probe_tss-insert_key_example :
    probe_tss sum_hash
      (insert_key sum_hash new_tss (filter_key exact_filter) 4)
      (filter_key exact_filter)
    ≡ 4
unfolding find_unused filter_key probe_from
probe_tss-insert_key_example =
    probe_tss-insert_key sum_hash new_tss (filter_key exact_filter) 4 107 refl (ground arith)

build_tss_from_groups-IsRule_example :
    IsRule
      (probe_tss sum_hash
        (build_tss_from_groups sum_hash new_tss groups2)
        (filter_key exact_filter))
      (filter_key exact_filter)
      groups2
unfolding probe_tss build_tss_from_groups filter_key
build_tss_from_groups-IsRule_example =
    build_tss_from_groups-IsRule sum_hash new_tss groups2 (filter_key exact_filter) (λ i. refl)
      (ground arith)

add_groups_kept_example :
    probe_tss sum_hash
      (add_groups sum_hash (insert_key sum_hash new_tss (filter_key exact_filter) 4) groups2)
      (filter_key exact_filter)
    ≡ probe_tss sum_hash
        (insert_key sum_hash new_tss (filter_key exact_filter) 4)
        (filter_key exact_filter)
unfolding probe_tss insert_key filter_key
add_groups_kept_example =
    add_groups_kept sum_hash (insert_key sum_hash new_tss (filter_key exact_filter) 4) groups2
      (filter_key exact_filter) (ground arith)

-- The text "1/8", with an `inet_pton` that reads only "1".
parse_cidr-IsNetwork_example :
    IsNetwork
      (λ text. if length text == 1 then some 167772161 else none)
      (λ n. n)
      (49 ∷ 47 ∷ 56 ∷ [])
      167772160
      4278190080
unfolding parse_cidr
parse_cidr-IsNetwork_example =
    parse_cidr-IsNetwork (λ text. if length text == 1 then some 167772161 else none) (λ n. n)
      (49 ∷ 47 ∷ 56 ∷ []) 167772160 4278190080 refl

abbrev pub counts3 : ℕ → ℕ
counts3 g = if g == 0 then 5 else 2

parse_ranges-Follow_example : Follow 0 3 (parse_ranges counts3 3 2 0 9)
unfolding rules_before
parse_ranges-Follow_example = parse_ranges-Follow counts3 3 1 0 9 (omega arith) refl

resolve_dpi_links-AllResolved_example :
    AllResolved (λ name. some 3) groups2 (resolve_dpi_links (λ name. some 3) groups2).0
unfolding resolve_dpi_links
resolve_dpi_links-AllResolved_example = resolve_dpi_links-AllResolved (λ name. some 3) groups2 refl
