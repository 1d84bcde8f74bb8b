-- ===== src/Tcp/Key.antt =====
-- `MakeKey` of include/dpdk/spi/spi_tcp_reassembly.cpp: both directions of a connection share a key.
-- A `std::uint32_t` is copied into an address byte by byte, lowest byte first (x86-64, the build's
-- target), and an address has sixteen bytes.
pub mod Symmetry
use dpdk_cpp.Base.{
  ℕ, zero, ◌/◌, ◌%◌, Bool, true, false, ◌&&◌, ◌||◌, List, [], ◌∷◌, ◌++◌, ltb, ◌==◌, if◌then◌else◌,
  list_eq, replicate,
}
use dpdk_cpp.Packet.{PacketMetadata, IpVersion, ipv4, ipv6}

pub record Endpoint : Type 0 where
  pub address : List ℕ
  pub port : ℕ

pub record StreamKey : Type 0 where
  pub first : Endpoint
  pub second : Endpoint
  pub version : IpVersion

-- `std::memcmp(lhs, rhs, n) < 0` on two arrays of one length.
unfoldable pub bytes_less : List ℕ → List ℕ → Bool
bytes_less [] ys = false
bytes_less (x ∷ xs) [] = false
bytes_less (x ∷ xs) (y ∷ ys) = ltb x y || x == y && bytes_less xs ys

unfoldable pub endpoint_less : Endpoint → Endpoint → Bool
endpoint_less l r =
    bytes_less l.address r.address || list_eq l.address r.address && ltb l.port r.port

unfoldable pub endpoint_eq : Endpoint → Endpoint → Bool
endpoint_eq l r = list_eq l.address r.address && l.port == r.port

unfoldable pub version_eq : IpVersion → IpVersion → Bool
version_eq ipv4 ipv4 = true
version_eq ipv6 ipv6 = true
version_eq _ _ = false

unfoldable pub stream_key_eq : StreamKey → StreamKey → Bool
unfolding endpoint_eq version_eq
stream_key_eq l r =
    endpoint_eq l.first r.first && endpoint_eq l.second r.second && version_eq l.version r.version

-- The sixteen bytes of an address that holds the four of `ip`.
unfoldable pub ipv4_bytes : ℕ → List ℕ
ipv4_bytes ip =
    (ip % 256) ∷ (ip / 256 % 256) ∷ (ip / 65536 % 256) ∷ (ip / 16777216 % 256) ∷ replicate 12 0

abbrev pub source : PacketMetadata → Endpoint
source m = record {
  address = elim m.ip_version [ ipv4 ↦ ipv4_bytes m.source_ip_be | ipv6 ↦ m.source_ip6_address ];
  port = m.source_port_be;
}

abbrev pub destination : PacketMetadata → Endpoint
destination m = record {
  address = elim m.ip_version [
    | ipv4 ↦ ipv4_bytes m.destination_ip_be
    | ipv6 ↦ m.destination_ip6_address
  ];
  port = m.destination_port_be;
}

-- The smaller endpoint comes first; `true` is direction 1, from the second endpoint to the first.
unfoldable pub order_endpoints : Endpoint → Endpoint → IpVersion → StreamKey × Bool
order_endpoints s d version =
    if endpoint_less s d
    then (record { first = s; second = d; version = version }, false)
    else (record { first = d; second = s; version = version }, true)

unfoldable pub make_key : PacketMetadata → StreamKey × Bool
make_key m = order_endpoints (source m) (destination m) m.ip_version
