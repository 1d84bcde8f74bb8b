-- ===== src/Tests/KeyRuns.antt =====
-- Stream keys and flow keys of concrete packets.
use dpdk_cpp.Base.{ℕ, ◌≡◌, refl, [], ◌∷◌, replicate, false, not, inr}
use dpdk_cpp.Flow.Key.{
  make_canonical, make_canonical_from_metadata, make_canonical_from_metadata-reversed,
  make_canonical-injective, make_canonical_from_metadata-fold,
}
use dpdk_cpp.Packet.{PacketMetadata, tcp, ipv4, ipv6, reversed}
use dpdk_cpp.Tcp.Key.{endpoint_eq, source, destination, make_key}
use dpdk_cpp.Tcp.Key.Symmetry.{make_key-reversed}

abbrev pub request : PacketMetadata
request = record {
  source_ip6_address = replicate 16 0;
  destination_ip6_address = replicate 16 0;
  source_ip_be = 0x0a113201;
  destination_ip_be = 0x0a11320c;
  source_port_be = 40000;
  destination_port_be = 80;
  hostname = [];
  tcp_sequence = 4294967290;
  tcp_payload_offset = 54;
  tcp_payload_length = 20;
  tcp_flags = 16;
  protocol = tcp;
  ip_version = ipv4;
}

abbrev pub request6 : ℕ → PacketMetadata
request6 middle = record request {
  ip_version = ipv6;
  source_ip6_address = 32 ∷ 1 ∷ 13 ∷ 184 ∷ middle ∷ replicate 11 1;
  destination_ip6_address = 32 ∷ 1 ∷ 13 ∷ 184 ∷ replicate 12 2;
}

make_key-reversed_example :
    ((make_key (reversed request)).0 ≡ (make_key request).0)
    × (endpoint_eq (source request) (destination request) ≡ false
        → (make_key (reversed request)).1 ≡ not (make_key request).1)
make_key-reversed_example = make_key-reversed request refl

make_canonical_from_metadata-reversed_example :
    make_canonical_from_metadata (reversed request) ≡ make_canonical_from_metadata request
make_canonical_from_metadata-reversed_example = make_canonical_from_metadata-reversed request

make_canonical-injective_example : make_canonical 9 4 80 4000 tcp ≡ make_canonical 4 9 4000 80 tcp
make_canonical-injective_example =
    (make_canonical-injective 9 4 80 4000 4 9 4000 80 tcp tcp).1
      (refl, inr (refl, refl, refl, refl))

make_canonical_from_metadata-fold_example :
    make_canonical_from_metadata (request6 7) ≡ make_canonical_from_metadata (request6 8)
make_canonical_from_metadata-fold_example =
    make_canonical_from_metadata-fold (request6 7) (request6 8) refl refl refl refl refl
      (refl, refl) (refl, refl)
