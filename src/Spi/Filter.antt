-- ===== src/Spi/Filter.antt =====
-- `CompileFilter`, `BuildAclRule` and `FilterMatchesPortProtocol` of
-- include/dpdk/spi/spi_rule_engine.cpp with the types that they use. Strings are their bytes.
use dpdk_cpp.Base.{
  ℕ, ◌+◌, ◌-◌, ◌*◌, ◌%◌, ◌^◌, Bool, true, false, ◌&&◌, ◌||◌, not, List, [], ◌∷◌, Option, none, some,
  ◌==◌, if◌then◌else◌, list_eq,
}
use dpdk_cpp.Packet.{Protocol, tcp, udp, Action, forward, drop, PacketMetadata}
use dpdk_cpp.Spi.Address.{
  AddressError, Parsed, parsed, unexpected, split_at_slash, decimal, parse_ipv4_address, parse_cidr,
}

pub record SpiFilterConfig : Type 0 where
  pub protocol : List ℕ
  pub source_ip_address : Option (List ℕ)
  pub destination_ip_address : Option (List ℕ)
  pub source_port : Option ℕ
  pub destination_port : Option ℕ
  pub label : List ℕ

pub record CompiledFilter : Type 0 where
  pub protocol : Protocol
  pub source_ip_address : ℕ
  pub destination_ip_address : ℕ
  pub destination_network : ℕ
  pub destination_prefix_mask : ℕ
  pub destination_prefix_length : ℕ
  pub source_port : ℕ
  pub destination_port : ℕ
  pub match_source_ip : Bool
  pub match_destination_ip : Bool
  pub match_destination_cidr : Bool
  pub match_source_port : Bool
  pub match_destination_port : Bool
  pub label : List ℕ

-- The field of a filter that an error string names, and what is wrong with it.
pub data FilterError : Type 0 where
  bad_protocol : FilterError
  bad_source bad_destination : AddressError → FilterError

pub data Compiled (A : Type 0) : Type 0 where
  compiled : A → Compiled A
  refused : FilterError → Compiled A

-- "tcp" and "udp".
unfoldable pub parse_protocol : List ℕ → Option Protocol
unfolding list_eq
parse_protocol text =
    if list_eq text (116 ∷ 99 ∷ 112 ∷ [])
    then some tcp
    else if list_eq text (117 ∷ 100 ∷ 112 ∷ [])
    then some udp
    else none

-- "drop".
unfoldable pub parse_action : List ℕ → Action
unfolding list_eq
parse_action text = if list_eq text (100 ∷ 114 ∷ 111 ∷ 112 ∷ []) then drop else forward

abbrev pub protocol_to_ip_proto : Protocol → ℕ
protocol_to_ip_proto tcp = 6
protocol_to_ip_proto udp = 17

unfoldable pub is_cidr : List ℕ → Bool
is_cidr [] = false
is_cidr (c ∷ text) = c == 47 || is_cidr text

abbrev pub value_or : Option ℕ → ℕ
value_or none = 0
value_or (some n) = n

abbrev pub has_value {ℓ} : {A : Type ℓ} → Option A → Bool
has_value none = false
has_value (some a) = true

-- The text after the first '/' as `strtoul` reads it: `ParseCidr` has accepted only digits there.
unfoldable pub cidr_length : List ℕ → ℕ
unfolding split_at_slash decimal
cidr_length text = elim (split_at_slash text) [
  | none ↦ 0
  | some (before, after) ↦ (decimal 0 after).0
]

-- The destination of a filter as `CompileFilter` finds it out.
pub record Destination : Type 0 where
  pub ip : ℕ
  pub network : ℕ
  pub mask : ℕ
  pub prefix_len : ℕ
  pub is_network : Bool

module _ (inet_pton4 : List ℕ → Option ℕ) (be_to_cpu_32 : ℕ → ℕ) where
  unfoldable pub source_of : Option (List ℕ) → Parsed ℕ
  unfolding parse_ipv4_address
  source_of none = parsed 0
  source_of (some text) = parse_ipv4_address inet_pton4 be_to_cpu_32 text

  abbrev pub network_of : List ℕ → Parsed (ℕ × ℕ) → Parsed Destination
  network_of text (unexpected e) = unexpected e
  network_of text (parsed (network, mask)) = parsed (record {
    ip = 0;
    network = network;
    mask = mask;
    prefix_len = cidr_length text;
    is_network = true;
  })

  abbrev pub host_of : Parsed ℕ → Parsed Destination
  host_of (unexpected e) = unexpected e
  host_of (parsed ip) =
      parsed (record { ip = ip; network = 0; mask = 0; prefix_len = 0; is_network = false })

  unfoldable pub destination_of : Option (List ℕ) → Parsed Destination
  unfolding is_cidr parse_cidr parse_ipv4_address
  destination_of none = host_of (parsed 0)
  destination_of (some text) =
      if is_cidr text
      then network_of text (parse_cidr inet_pton4 be_to_cpu_32 text)
      else host_of (parse_ipv4_address inet_pton4 be_to_cpu_32 text)

  abbrev pub filter_with :
      SpiFilterConfig → Protocol → Parsed ℕ → Parsed Destination → Compiled CompiledFilter
  filter_with config protocol (unexpected e) destination = refused (bad_source e)
  filter_with config protocol (parsed source_ip) (unexpected e) = refused (bad_destination e)
  filter_with config protocol (parsed source_ip) (parsed d) = compiled (record {
    protocol = protocol;
    source_ip_address = source_ip;
    destination_ip_address = d.ip;
    destination_network = d.network;
    destination_prefix_mask = d.mask;
    destination_prefix_length = d.prefix_len;
    source_port = value_or config.source_port;
    destination_port = value_or config.destination_port;
    match_source_ip = has_value config.source_ip_address;
    match_destination_ip = has_value config.destination_ip_address && not d.is_network;
    match_destination_cidr = d.is_network;
    match_source_port = has_value config.source_port;
    match_destination_port = has_value config.destination_port;
    label = config.label;
  })

  unfoldable pub compile_filter : SpiFilterConfig → Compiled CompiledFilter
  unfolding parse_protocol source_of destination_of
  compile_filter config = elim (parse_protocol config.protocol) [
    | none ↦ refused bad_protocol
    | some protocol ↦
        filter_with config protocol (source_of config.source_ip_address)
          (destination_of config.destination_ip_address)
  ]

-- One `rte_acl_rule` as `BuildAclRule` fills it in.
pub record AclRule : Type 0 where
  pub userdata : ℕ
  pub priority : ℕ
  pub category_mask : ℕ
  pub protocol : ℕ × ℕ
  pub src_ip : ℕ × ℕ
  pub dst_ip : ℕ × ℕ
  pub src_port : ℕ × ℕ
  pub dst_port : ℕ × ℕ

-- The halves do not overlap, so that `|` adds.
unfoldable pub encode_userdata : ℕ → ℕ → ℕ
encode_userdata group_index filter_index =
    (group_index + 1) * 65536 % 2 ^ 32 + (filter_index + 1) % 65536

abbrev pub port_range : Bool → ℕ → ℕ × ℕ
port_range true port = (port, port)
port_range false port = (0, 65535)

-- `max_priority` is `RTE_ACL_MAX_PRIORITY`; the difference is the one of 32 bits.
unfoldable pub build_acl_rule : ℕ → CompiledFilter → ℕ → ℕ → ℕ → AclRule
unfolding encode_userdata
build_acl_rule max_priority filter group_index filter_index precedence = record {
  userdata = encode_userdata group_index filter_index;
  priority = (max_priority + 2 ^ 32 - precedence) % 2 ^ 32;
  category_mask = 1;
  protocol = (protocol_to_ip_proto filter.protocol, 255);
  src_ip = (filter.source_ip_address, if filter.match_source_ip then 32 else 0);
  dst_ip =
      if filter.match_destination_cidr
      then (filter.destination_network, filter.destination_prefix_length)
      else if filter.match_destination_ip
      then (filter.destination_ip_address, 32)
      else (0, 0);
  src_port = port_range filter.match_source_port filter.source_port;
  dst_port = port_range filter.match_destination_port filter.destination_port;
}

abbrev pub same_protocol : Protocol → Protocol → Bool
same_protocol tcp tcp = true
same_protocol udp udp = true
same_protocol _ _ = false

module _ (be_to_cpu_16 : ℕ → ℕ) where
  unfoldable pub filter_matches_port_protocol : CompiledFilter → PacketMetadata → Bool
  filter_matches_port_protocol filter packet =
      if not (same_protocol filter.protocol packet.protocol)
      then false
      else if filter.match_destination_port
          && not (filter.destination_port == be_to_cpu_16 packet.destination_port_be)
      then false
      else if filter.match_source_port
          && not (filter.source_port == be_to_cpu_16 packet.source_port_be)
      then false
      else true
