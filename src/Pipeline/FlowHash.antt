-- ===== src/Pipeline/FlowHash.antt =====
-- The hash of include/dpdk/spi/spi_pipeline.cpp by which packets are dispatched to workers.
use dpdk_cpp.Base.{
  ℕ, zero, suc, ◌+◌, ◌*◌, ◌/◌, ◌%◌, ◌^◌, ◌&&◌, ◌||◌, not, List, [], ◌∷◌, ltb, ◌==◌, if◌then◌else◌,
  length, get_or, take, drop, bit_xor,
}
use dpdk_cpp.Flow.Key.{word_at}
use dpdk_cpp.Parser.Headers.{half_at}
use dpdk_cpp.Parser.Mbuf.{RteMbuf}

-- The loop of `MixHash` over so many bytes of a value, the lowest one first.
unfoldable pub mix_bytes : ℕ → ℕ → ℕ → ℕ
mix_bytes zero hash value = hash
mix_bytes (suc bytes) hash value =
    mix_bytes bytes (bit_xor hash (value % 256) * 16777619 % 2 ^ 32) (value / 256)

unfoldable pub mix_hash : ℕ → ℕ → ℕ
unfolding mix_bytes
mix_hash hash value = mix_bytes 4 hash value

unfoldable pub mix_all : ℕ → List ℕ → ℕ
unfolding mix_hash
mix_all hash [] = hash
mix_all hash (v ∷ values) = mix_all (mix_hash hash v) values

module _ (rte : RteMbuf) where
  open rte use {
    Mbuf, bytes_of, be_to_cpu_16, be_to_cpu_32, ipv4_hdr_len, ipv4_frag_pkt_is_fragmented,
  }

  unfoldable pub hash_ipv6 : ℕ → List ℕ → ℕ
  unfolding mix_all
  hash_ipv6 hash bytes =
      if ltb (length bytes) 54
      then hash
      else if get_or bytes 20 0 == 44 && not (ltb (length bytes) 62)
      then mix_all addresses (be_to_cpu_32 (word_at bytes 58) ∷ [])
      else addresses
    where
      addresses : ℕ
      addresses = mix_all (mix_all hash (get_or bytes 20 0 ∷ [])) (take 32 (drop 22 bytes))

  -- The ports of an IPv4 packet whose transport header starts at `l4_offset`.
  unfoldable pub hash_ports : ℕ → List ℕ → ℕ → ℕ
  unfolding mix_all
  hash_ports hash bytes l4_offset =
      if ltb (length bytes) (l4_offset + 8)
      then hash
      else if get_or bytes 23 0 == 6
      then if ltb (length bytes) (l4_offset + 20) then hash else ports
      else if get_or bytes 23 0 == 17
      then ports
      else hash
    where
      ports : ℕ
      ports = mix_all hash (
          be_to_cpu_16 (half_at bytes l4_offset)
          ∷ be_to_cpu_16 (half_at bytes (l4_offset + 2))
          ∷ [])

  unfoldable pub hash_ipv4 : ℕ → List ℕ → ℕ
  unfolding mix_all hash_ports
  hash_ipv4 hash bytes =
      if ltb header_len 20
      then hash
      else if ipv4_frag_pkt_is_fragmented (half_at bytes 20)
      then mix_all addresses (be_to_cpu_16 (half_at bytes 18) ∷ [])
      else hash_ports addresses bytes ((14 + header_len) % 2 ^ 16)
    where
      header_len : ℕ
      header_len = ipv4_hdr_len (get_or bytes 14 0)

      addresses : ℕ
      addresses = mix_all hash (
          be_to_cpu_32 (word_at bytes 26)
          ∷ be_to_cpu_32 (word_at bytes 30)
          ∷ get_or bytes 23 0
          ∷ [])

  -- `HashPacketFlow`, of the bytes of the first segment.
  unfoldable pub hash_packet_flow : Mbuf → ℕ → ℕ
  unfolding mix_hash hash_ipv6 hash_ipv4
  hash_packet_flow packet receive_port =
      if ltb (length bytes) 14
      then start
      else if ether_type == 34525
      then hash_ipv6 (mix_hash start ether_type) bytes
      else if not (ether_type == 2048) || ltb (length bytes) 34
      then mix_hash start ether_type
      else hash_ipv4 (mix_hash start ether_type) bytes
    where
      bytes : List ℕ
      bytes = bytes_of packet

      start : ℕ
      start = mix_hash 2166136261 receive_port

      ether_type : ℕ
      ether_type = be_to_cpu_16 (half_at bytes 12)
