-- ===== src/Packet.antt =====
-- The packet types of include/dpdk/spi/spi_rule_engine.hpp. Machine integers are plain numbers,
-- addresses of IPv6 are their sixteen bytes, and a
-- hostname (a pointer and a length in the source) is its bytes, empty if none was extracted.
use dpdk_cpp.Base.{ℕ, List}

pub data Protocol : Type 0 where
  tcp udp : Protocol

pub data Action : Type 0 where
  forward drop : Action

pub data IpVersion : Type 0 where
  ipv4 ipv6 : IpVersion

pub record PacketMetadata : Type 0 where
  pub source_ip6_address : List ℕ
  pub destination_ip6_address : List ℕ
  pub source_ip_be : ℕ
  pub destination_ip_be : ℕ
  pub source_port_be : ℕ
  pub destination_port_be : ℕ
  pub hostname : List ℕ
  pub tcp_sequence : ℕ
  pub tcp_payload_offset : ℕ
  pub tcp_payload_length : ℕ
  pub tcp_flags : ℕ
  pub protocol : Protocol
  pub ip_version : IpVersion

-- The packet that the other end would send.
unfoldable pub reversed : PacketMetadata → PacketMetadata
reversed m = record m {
  source_ip6_address = m.destination_ip6_address;
  destination_ip6_address = m.source_ip6_address;
  source_ip_be = m.destination_ip_be;
  destination_ip_be = m.source_ip_be;
  source_port_be = m.destination_port_be;
  destination_port_be = m.source_port_be;
}
