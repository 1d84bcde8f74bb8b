-- ===== src/Pipeline/Routes.antt =====
-- Where packets are sent in include/dpdk/spi/spi_pipeline.cpp: pairs of ports, IPv4 routes and MAC
-- addresses. The sorting of the routes is that of the standard library.
pub mod Pairs
pub mod Longest
pub mod Mac
use dpdk_cpp.Base.{
  ℕ, zero, suc, ◌+◌, ◌-◌, ◌*◌, ◌%◌, ◌^◌, Bool, true, false, ◌&&◌, ◌||◌, List, [], ◌∷◌, Option, none,
  some, ltb, leb, not, ◌==◌, if◌then◌else◌, length, get_elem?, get_or, bit_and, bit_or,
}
use dpdk_cpp.Spi.Address.{Parsed, parsed, unexpected, parse_ipv4_address, prefix_mask}
use dpdk_cpp.Packet.{PacketMetadata}
use dpdk_cpp.Parser.Reads.{Checked, ok, out_of_bounds, ◌>>=◌, read}

-- The index of a port in the list, as `std::ranges::find` gives it.
unfoldable pub index_of : List ℕ → ℕ → Option ℕ
index_of [] port = none
index_of (p ∷ ports) port =
    let rest = index_of ports port in
    if p == port then some 0 else elim rest [ none ↦ none | some i ↦ some (suc i) ]

unfoldable pub paired : List ℕ → ℕ → ℕ → ℕ
paired active_ports receive_port port_index =
    if port_index % 2 == 0 && ltb (port_index + 1) (length active_ports)
    then get_or active_ports (port_index + 1) 0
    else if not (port_index % 2 == 0)
    then get_or active_ports (port_index - 1) 0
    else receive_port

unfoldable pub get_transmit_port : List ℕ → ℕ → ℕ
unfolding index_of paired
get_transmit_port active_ports receive_port =
    if leb (length active_ports) 1
    then receive_port
    else elim (index_of active_ports receive_port) [
      | none ↦ receive_port
      | some port_index ↦ paired active_ports receive_port port_index
    ]

-- `L3ForwardConfig::Ipv4Route`.
pub record Ipv4Route : Type 0 where
  pub destination_ip_address : List ℕ
  pub prefix_length : ℕ
  pub output_port : ℕ

pub record L3RouteEntry : Type 0 where
  pub network_address : ℕ
  pub prefix_mask : ℕ
  pub prefix_length : ℕ
  pub output_port : ℕ

abbrev pub route_entry : Ipv4Route → ℕ → L3RouteEntry
route_entry route address = record {
  network_address = bit_and address (prefix_mask route.prefix_length);
  prefix_mask = prefix_mask route.prefix_length;
  prefix_length = route.prefix_length;
  output_port = route.output_port;
}

-- The comparison that `BuildL3Routes` sorts by.
unfoldable pub is_before : L3RouteEntry → L3RouteEntry → Bool
is_before lhs rhs = ltb rhs.prefix_length lhs.prefix_length

module _ (inet_pton4 : List ℕ → Option ℕ) (be_to_cpu_32 : ℕ → ℕ) where
  abbrev pub prepend_route : Ipv4Route → Parsed ℕ → List L3RouteEntry → List L3RouteEntry
  prepend_route route (unexpected e) entries = entries
  prepend_route route (parsed address) entries = route_entry route address ∷ entries

  -- The loop of `BuildL3Routes`.
  unfoldable pub route_entries : List Ipv4Route → List L3RouteEntry
  unfolding parse_ipv4_address
  route_entries [] = []
  route_entries (route ∷ routes) =
      prepend_route route (parse_ipv4_address inet_pton4 be_to_cpu_32 route.destination_ip_address)
        (route_entries routes)

  -- `BuildL3Routes`, with what `std::ranges::sort` makes of a comparison and a list.
  unfoldable pub build_l3_routes :
      ((L3RouteEntry → L3RouteEntry → Bool) → List L3RouteEntry → List L3RouteEntry)
      → List Ipv4Route
      → List L3RouteEntry
  unfolding route_entries is_before
  build_l3_routes sort routes = sort is_before (route_entries routes)

  abbrev pub is_on_route : L3RouteEntry → ℕ → Bool
  is_on_route route destination =
      bit_and (be_to_cpu_32 destination) route.prefix_mask == route.network_address

  unfoldable pub lookup_l3_transmit_port : List L3RouteEntry → PacketMetadata → Option ℕ
  lookup_l3_transmit_port [] metadata = none
  lookup_l3_transmit_port (route ∷ routes) metadata =
      let rest = lookup_l3_transmit_port routes metadata in
      if is_on_route route metadata.destination_ip_be then some route.output_port else rest

-- `HexValue`; a `char` is a byte.
unfoldable pub hex_value : ℕ → ℕ
hex_value value =
    if leb 48 value && leb value 57
    then value - 48
    else if leb 97 value && leb value 102
    then value - 97 + 10
    else (value + 256 - 65 + 10) % 256

unfoldable pub parse_mac_bytes : List ℕ → ℕ → ℕ → Checked (List ℕ)
unfolding read hex_value
parse_mac_bytes mac_address zero string_index = ok []
parse_mac_bytes mac_address (suc bytes_left) string_index = do
  high ← read mac_address string_index
  low ← read mac_address (string_index + 1)
  rest ← parse_mac_bytes mac_address bytes_left (string_index + 3)
  ok (bit_or (hex_value high * 16) (hex_value low) % 256 ∷ rest)

-- `ParseMacAddress`: the six bytes.
unfoldable pub parse_mac_address : List ℕ → Checked (List ℕ)
unfolding parse_mac_bytes
parse_mac_address mac_address = parse_mac_bytes mac_address 6 0

pub record EthernetDestinationEntry : Type 0 where
  pub port_id : ℕ
  pub mac_address : List ℕ

-- `BuildEthernetDestinations` from the ports and texts of the configuration.
unfoldable pub build_ethernet_destinations :
    List (ℕ × List ℕ) → Checked (List EthernetDestinationEntry)
unfolding parse_mac_address
build_ethernet_destinations [] = ok []
build_ethernet_destinations ((port, text) ∷ destinations) = do
  mac ← parse_mac_address text
  rest ← build_ethernet_destinations destinations
  ok (record { port_id = port; mac_address = mac } ∷ rest)

unfoldable pub get_ethernet_destination : List EthernetDestinationEntry → ℕ → Option (List ℕ)
get_ethernet_destination [] port = none
get_ethernet_destination (destination ∷ destinations) port =
    let rest = get_ethernet_destination destinations port in
    if destination.port_id == port then some destination.mac_address else rest
