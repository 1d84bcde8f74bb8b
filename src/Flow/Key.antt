-- ===== src/Flow/Key.antt =====
-- `FlowKey`, `MakeCanonical` and `MakeCanonicalFromMetadata` of include/dpdk/spi/spi_flow_table.hpp.
-- The three padding bytes of a key are always zero and are left out.
use dpdk_cpp.Base.{
  ◌↔◌, ◌⊎◌, ℕ, ◌+◌, ◌*◌, ◌≡◌, refl, Bool, true, false, ◌&&◌, ◌||◌, List, arith, bit_xor, ltb, ◌==◌,
  if◌then◌else◌, get_or,
}
use native.Mathlib.Decide.{ℕ_discrete}
use dpdk_cpp.Packet.{PacketMetadata, Protocol, tcp, udp, IpVersion, ipv4, ipv6, reversed}

pub record FlowKey : Type 0 where
  pub src_ip : ℕ
  pub dst_ip : ℕ
  pub src_port : ℕ
  pub dst_port : ℕ
  pub protocol : Protocol

-- `std::tie(sip, sp) > std::tie(dip, dp)`.
abbrev pub tie_greater : ℕ → ℕ → ℕ → ℕ → Bool
tie_greater sip sp dip dp = ltb dip sip || sip == dip && ltb dp sp

unfoldable pub make_canonical : ℕ → ℕ → ℕ → ℕ → Protocol → FlowKey
make_canonical sip dip sp dp proto =
    if tie_greater sip sp dip dp
    then record { src_ip = dip; dst_ip = sip; src_port = dp; dst_port = sp; protocol = proto }
    else record { src_ip = sip; dst_ip = dip; src_port = sp; dst_port = dp; protocol = proto }

-- Four bytes of an array copied into a `std::uint32_t`, lowest byte first.
abbrev pub word_at : List ℕ → ℕ → ℕ
word_at bytes i =
    get_or bytes i 0
    + 256 * get_or bytes (i + 1) 0
    + 65536 * get_or bytes (i + 2) 0
    + 16777216 * get_or bytes (i + 3) 0

-- The first word of an address against its last.
abbrev pub fold_address : List ℕ → ℕ
fold_address bytes = bit_xor (word_at bytes 0) (word_at bytes 12)

key_by_version : IpVersion → PacketMetadata → FlowKey
unfolding make_canonical
key_by_version ipv4 m =
    make_canonical m.source_ip_be m.destination_ip_be m.source_port_be m.destination_port_be
      m.protocol
key_by_version ipv6 m =
    make_canonical (fold_address m.source_ip6_address) (fold_address m.destination_ip6_address)
      m.source_port_be m.destination_port_be m.protocol

unfoldable pub make_canonical_from_metadata : PacketMetadata → FlowKey
unfolding key_by_version
make_canonical_from_metadata m = key_by_version m.ip_version m

-- Two addresses agree in their first and in their last word.
abbrev pub SameEnds : List ℕ → List ℕ → Type 0
SameEnds xs ys = (word_at xs 0 ≡ word_at ys 0) × (word_at xs 12 ≡ word_at ys 12)

protocol_eq : Protocol → Protocol → Bool
protocol_eq tcp tcp = true
protocol_eq udp udp = true
protocol_eq _ _ = false

-- The sixteen bytes of two keys are equal.
unfoldable pub flow_key_eq : FlowKey → FlowKey → Bool
unfolding protocol_eq
flow_key_eq a b =
    a.src_ip == b.src_ip
    && a.dst_ip == b.dst_ip
    && a.src_port == b.src_port
    && a.dst_port == b.dst_port
    && protocol_eq a.protocol b.protocol

pub make_canonical_comm :
    (sip dip sp dp : ℕ) (proto : Protocol)
    → make_canonical dip sip dp sp proto ≡ make_canonical sip dip sp dp proto
unfolding make_canonical
make_canonical_comm sip dip sp dp proto = ground arith

key_by_version-reversed :
    (v : IpVersion) (m : PacketMetadata) → key_by_version v (reversed m) ≡ key_by_version v m
unfolding key_by_version reversed
key_by_version-reversed ipv4 m =
    make_canonical_comm m.source_ip_be m.destination_ip_be m.source_port_be m.destination_port_be
      m.protocol
key_by_version-reversed ipv6 m =
    make_canonical_comm (fold_address m.source_ip6_address) (fold_address m.destination_ip6_address)
      m.source_port_be m.destination_port_be m.protocol

-- For every packet, of IPv4 or IPv6, the packet with its endpoints exchanged has the same flow key.
pub make_canonical_from_metadata-reversed :
    (m : PacketMetadata)
    → make_canonical_from_metadata (reversed m) ≡ make_canonical_from_metadata m
unfolding make_canonical_from_metadata reversed
make_canonical_from_metadata-reversed m = key_by_version-reversed m.ip_version m

-- Two tuples have one canonical key exactly when they have the same protocol and are the same tuple,
-- or each is the other with its endpoints exchanged.
pub make_canonical-injective :
    (a b c d : ℕ) (a' b' c' d' : ℕ) (p p' : Protocol)
    → (make_canonical a b c d p ≡ make_canonical a' b' c' d' p') ↔ (
        (p ≡ p')
        × (((a ≡ a') × (b ≡ b') × (c ≡ c') × (d ≡ d'))
            ⊎ ((a ≡ b') × (b ≡ a') × (c ≡ d') × (d ≡ c'))))
unfolding make_canonical
make_canonical-injective a b c d a' b' c' d' p p' = (λ e. ground arith, λ h. ground arith)

-- Two IPv6 packets with equal ports and protocol whose addresses agree in the first four and the last
-- four bytes have the same flow key, whatever the eight bytes between are.
pub make_canonical_from_metadata-fold :
    (m n : PacketMetadata)
    → m.ip_version ≡ ipv6
    → n.ip_version ≡ ipv6
    → m.protocol ≡ n.protocol
    → m.source_port_be ≡ n.source_port_be
    → m.destination_port_be ≡ n.destination_port_be
    → SameEnds m.source_ip6_address n.source_ip6_address
    → SameEnds m.destination_ip6_address n.destination_ip6_address
    → make_canonical_from_metadata m ≡ make_canonical_from_metadata n
unfolding make_canonical_from_metadata
make_canonical_from_metadata-fold m n vm vn e sp dp s d =
    simp (vm, vn) (rw (e, sp, dp, s.0, s.1, d.0, d.1) refl)

pub FlowKey-discrete : Discrete FlowKey
FlowKey-discrete = hlevel ℕ_discrete

protocol_eq_iff : (p q : Protocol) → (protocol_eq p q ≡ true) ↔ (p ≡ q)
unfolding protocol_eq
protocol_eq_iff p q = ground arith

pub flow_key_eq_iff : (a b : FlowKey) → (flow_key_eq a b ≡ true) ↔ (a ≡ b)
unfolding flow_key_eq
flow_key_eq_iff a b = ground (arith, protocol_eq_iff a.protocol b.protocol)
