-- ===== src/Spi/Tss.antt =====
-- The exact-match table of include/dpdk/spi/spi_rule_engine.cpp: `IsTssEligible`, `BuildTssFromGroups`
-- and `ProbeTss`. The slots are a function of their indices, the CRC of a key is a parameter.
pub mod Probe
pub mod Build
pub mod Entries
use dpdk_cpp.Base.{
  ℕ, zero, suc, ◌+◌, ◌-◌, ◌*◌, ◌%◌, ◌^◌, Bool, true, false, ◌&&◌, ◌||◌, not, List, [], ◌∷◌, ◌++◌,
  Option, none, some, ltb, ◌==◌, if◌then◌else◌,
}
use dpdk_cpp.Flow.Key.{FlowKey, flow_key_eq}
use dpdk_cpp.Packet.{Protocol, tcp, udp}
use dpdk_cpp.Spi.Filter.{CompiledFilter}
use dpdk_cpp.Spi.Match.{CompiledFilterGroup, no_index}

pub record TssEntry : Type 0 where
  pub key : FlowKey
  pub group_idx : ℕ

unfoldable pub is_tss_eligible : CompiledFilter → Bool
is_tss_eligible filter =
    filter.match_source_ip
    && filter.match_destination_ip
    && not filter.match_destination_cidr
    && filter.match_source_port
    && filter.match_destination_port

-- A filter on whose account the member pre-filter is not used.
unfoldable pub is_wildcard : CompiledFilter → Bool
is_wildcard filter =
    not filter.match_destination_ip
    && (not filter.match_destination_cidr || ltb filter.destination_prefix_length 20)

unfoldable pub filter_key : CompiledFilter → FlowKey
filter_key filter = record {
  src_ip = filter.source_ip_address;
  dst_ip = filter.destination_ip_address;
  src_port = filter.source_port;
  dst_port = filter.destination_port;
  protocol = filter.protocol;
}

pub record Tss : Type 0 where
  pub slots : ℕ → TssEntry
  pub size : ℕ
  pub has_wildcard_ip_rules : Bool

abbrev pub put : (ℕ → TssEntry) → ℕ → TssEntry → ℕ → TssEntry
put slots i v j = if j == i then v else slots j

abbrev pub slot : ℕ → ℕ → ℕ
slot hash probe = (hash + probe) % 128

-- `tss_` of a new table.
abbrev pub unused : ℕ → TssEntry
unused i = record {
  key = record { src_ip = 0; dst_ip = 0; src_port = 0; dst_port = 0; protocol = tcp };
  group_idx = no_index;
}

-- The first unused slot, probing from `probe` on for so many more rounds.
unfoldable pub find_unused : (ℕ → TssEntry) → ℕ → ℕ → ℕ → Option ℕ
find_unused slots hash probe zero = none
find_unused slots hash probe (suc rounds) =
    let rest = find_unused slots hash (probe + 1) rounds in
    if (slots (slot hash probe)).group_idx == no_index then some (slot hash probe) else rest

-- The loop of `ProbeTss` from `probe` on for so many more rounds.
unfoldable pub probe_from : (ℕ → TssEntry) → FlowKey → ℕ → ℕ → ℕ → ℕ
unfolding flow_key_eq
probe_from slots key hash probe zero = no_index
probe_from slots key hash probe (suc rounds) =
    let rest = probe_from slots key hash (probe + 1) rounds in
    let entry = slots (slot hash probe) in
    if entry.group_idx == no_index
    then no_index
    else if flow_key_eq entry.key key
    then entry.group_idx
    else rest

module _ (rte_hash_crc : FlowKey → ℕ) where
  unfoldable pub insert_key : Tss → FlowKey → ℕ → Tss
  unfolding find_unused
  insert_key t key group_idx = elim (find_unused t.slots (rte_hash_crc key) 0 128) [
    | none ↦ t
    | some i ↦ record t {
      slots = put t.slots i (record { key = key; group_idx = group_idx });
      size = t.size + 1;
    }
  ]

  unfoldable pub note_wildcard : Tss → Bool → Tss
  note_wildcard t wild = record t { has_wildcard_ip_rules = wild || t.has_wildcard_ip_rules }

  unfoldable pub add_filter : Tss → ℕ → CompiledFilter → Tss
  unfolding insert_key note_wildcard is_tss_eligible is_wildcard filter_key
  add_filter t category filter =
      if is_tss_eligible filter
      then insert_key (note_wildcard t (is_wildcard filter)) (filter_key filter) category
      else note_wildcard t (is_wildcard filter)

  unfoldable pub add_filters : Tss → ℕ → List CompiledFilter → Tss
  unfolding add_filter
  add_filters t category [] = t
  add_filters t category (filter ∷ filters) =
      add_filters (add_filter t category filter) category filters

  unfoldable pub add_groups : Tss → List CompiledFilterGroup → Tss
  unfolding add_filters
  add_groups t [] = t
  add_groups t (group ∷ groups) =
      add_groups (add_filters t group.category_index group.filters) groups

  -- `BuildTssFromGroups`: the slots are not cleared.
  unfoldable pub build_tss_from_groups : Tss → List CompiledFilterGroup → Tss
  unfolding add_groups
  build_tss_from_groups t groups =
      add_groups (record t { size = 0; has_wildcard_ip_rules = false }) groups

  unfoldable pub probe_tss : Tss → FlowKey → ℕ
  unfolding probe_from
  probe_tss t key =
      if t.size == 0 then no_index else probe_from t.slots key (rte_hash_crc key) 0 128
