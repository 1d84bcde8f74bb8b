-- ===== src/Tcp/Key/Symmetry.antt =====
-- The stream key does not depend on the direction of a packet.
use dpdk_cpp.Base.{
  ℕ, true, false, not, List, [], ◌∷◌, ◌≡◌, refl, inl, inr, arith, list_eq, list_eq-eq, list_eq_self,
  length, Bool-cases,
}
use dpdk_cpp.Packet.{PacketMetadata, IpVersion, reversed}
use dpdk_cpp.Tcp.Key.{
  Endpoint, bytes_less, endpoint_less, endpoint_eq, ipv4_bytes, source, destination,
  order_endpoints, make_key,
}

bytes_less_total :
    (xs ys : List ℕ)
    → length xs ≡ length ys
    → list_eq xs ys ≡ false
    → bytes_less ys xs ≡ not (bytes_less xs ys)
unfolding bytes_less list_eq
bytes_less_total [] [] e h = ground arith
bytes_less_total [] (y ∷ ys) e h = ground arith
bytes_less_total (x ∷ xs) [] e h = ground arith
bytes_less_total (x ∷ xs) (y ∷ ys) e h = ground (arith, bytes_less_total xs ys)

bytes_less_self : (xs : List ℕ) → bytes_less xs xs ≡ false
unfolding bytes_less
bytes_less_self [] = refl
bytes_less_self (x ∷ xs) = ground (arith, bytes_less_self xs)

list_eq_comm : (xs ys : List ℕ) → list_eq xs ys ≡ list_eq ys xs
unfolding list_eq
list_eq_comm [] [] = refl
list_eq_comm [] (y ∷ ys) = refl
list_eq_comm (x ∷ xs) [] = refl
list_eq_comm (x ∷ xs) (y ∷ ys) = ground (arith, list_eq_comm xs ys)

endpoint_less_total :
    (l r : Endpoint)
    → length l.address ≡ length r.address
    → endpoint_eq l r ≡ false
    → endpoint_less r l ≡ not (endpoint_less l r)
unfolding endpoint_less endpoint_eq
endpoint_less_total l r e h = elim (Bool-cases (list_eq l.address r.address)) [
  | inl alike ↦
      rw (← list_eq-eq l.address r.address alike)
        (ground (arith, list_eq_self l.address, bytes_less_self l.address))
  | inr differ ↦
      ground
        (arith, bytes_less_total l.address r.address e differ, list_eq_comm l.address r.address)
]

endpoint_eq-eq : (l r : Endpoint) → endpoint_eq l r ≡ true → l ≡ r
unfolding endpoint_eq
endpoint_eq-eq l r h = ground (arith, list_eq-eq l.address r.address)

-- Both endpoints of a packet have addresses of one length.
abbrev pub HasAddresses : PacketMetadata → Type 0
HasAddresses m = length m.source_ip6_address ≡ length m.destination_ip6_address

endpoint-length :
    (m : PacketMetadata)
    → HasAddresses m
    → length (source m).address ≡ length (destination m).address
unfolding ipv4_bytes
endpoint-length m h = ground arith

order_endpoints_swap :
    (s d : Endpoint) (v : IpVersion)
    → length s.address ≡ length d.address
    → ((order_endpoints d s v).0 ≡ (order_endpoints s d v).0)
      × (endpoint_eq s d ≡ false → (order_endpoints d s v).1 ≡ not (order_endpoints s d v).1)
unfolding order_endpoints
order_endpoints_swap s d v e = elim (Bool-cases (endpoint_eq s d)) [
  | inl alike ↦ (rw (endpoint_eq-eq s d alike), λ h. cc)
  | inr differ ↦ (
    ground (arith, endpoint_less_total s d e differ),
    λ h. ground (arith, endpoint_less_total s d e differ),
  )
]

-- For every packet whose two addresses have one length, the reversed packet has the same stream key;
-- and if its two endpoints differ, the two packets belong to the two directions of the stream.
pub make_key-reversed :
    (m : PacketMetadata)
    → HasAddresses m
    → ((make_key (reversed m)).0 ≡ (make_key m).0)
      × (endpoint_eq (source m) (destination m) ≡ false
          → (make_key (reversed m)).1 ≡ not (make_key m).1)
unfolding make_key reversed
make_key-reversed m h =
    order_endpoints_swap (source m) (destination m) m.ip_version (endpoint-length m h)
