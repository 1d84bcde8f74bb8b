-- ===== src/Pipeline/Rewrite.antt =====
-- The headers that include/dpdk/spi/spi_pipeline.cpp rewrites before a packet is sent, in the bytes of
-- its first segment: those of a parsed packet are there.
use dpdk_cpp.Base.{
  ℕ, ◌+◌, ◌-◌, ◌/◌, ◌%◌, ◌^◌, List, [], ◌∷◌, ◌++◌, Option, none, some, ltb, leb, ◌==◌,
  if◌then◌else◌, length, get_or, set, drop,
}
use dpdk_cpp.Parser.Mbuf.{RteMbuf}

-- What DPDK does to a packet that is sent: the bytes written to it, its offload flags cleared, and
-- the two checksums, as they are stored, of a header that is given by the bytes from its first one
-- on: how many of them belong to it stands in the header.
pub record RteTransmit (rte : RteMbuf) : Type 0 where
  pub with_bytes : List ℕ → rte.Mbuf → rte.Mbuf
  pub without_offload : rte.Mbuf → rte.Mbuf
  pub ipv4_cksum : List ℕ → ℕ
  pub ipv4_udptcp_cksum_mbuf : rte.Mbuf → List ℕ → ℕ → ℕ

abbrev pub set_half : List ℕ → ℕ → ℕ → List ℕ
set_half bytes i value = set (set bytes i (value % 256)) (i + 1) (value / 256)

-- The MAC addresses of the destination and of the source are the first twelve bytes.
abbrev pub with_macs : List ℕ → List ℕ → List ℕ → List ℕ
with_macs bytes dst_addr src_addr = dst_addr ++ src_addr ++ drop 12 bytes

unfoldable pub update_l2_forward_macs : List ℕ → List ℕ → ℕ → List ℕ
update_l2_forward_macs bytes src_addr transmit_port =
    with_macs bytes (2 ∷ 0 ∷ 0 ∷ 0 ∷ 0 ∷ transmit_port % 256 ∷ []) src_addr

module _ (rte : RteMbuf) (tx : RteTransmit rte) where
  open rte use {Mbuf, bytes_of, ipv4_hdr_len}
  open tx use {with_bytes, without_offload, ipv4_cksum, ipv4_udptcp_cksum_mbuf}

  -- The checksum at an offset of the transport header, which has so many bytes.
  abbrev pub with_checksum : Mbuf → List ℕ → ℕ → ℕ → ℕ → Option Mbuf
  with_checksum packet bytes l4_offset size field =
      if ltb (length bytes) (l4_offset + size)
      then none
      else some (
          with_bytes
            (set_half zeroed (l4_offset + field)
              (ipv4_udptcp_cksum_mbuf (with_bytes zeroed packet) (drop 14 zeroed) l4_offset))
            packet)
    where
      zeroed : List ℕ
      zeroed = set_half bytes (l4_offset + field) 0

  -- `RecomputeL4Checksum`; `none` where it returns false.
  unfoldable pub recompute_l4_checksum : Mbuf → List ℕ → Option Mbuf
  recompute_l4_checksum packet bytes =
      if get_or bytes 23 0 == 6
      then with_checksum (without_offload packet) bytes l4_offset 20 16
      else if get_or bytes 23 0 == 17
      then with_checksum (without_offload packet) bytes l4_offset 8 6
      else some (with_bytes bytes (without_offload packet))
    where
      l4_offset : ℕ
      l4_offset = (14 + ipv4_hdr_len (get_or bytes 14 0)) % 2 ^ 16

  -- `UpdateL3ForwardHeaders`; `none` where it returns false.
  unfoldable pub update_l3_forward_headers : Mbuf → List ℕ → List ℕ → Option Mbuf
  unfolding recompute_l4_checksum
  update_l3_forward_headers packet src_addr dst_addr =
      if leb time_to_live 1
      then none
      else recompute_l4_checksum packet (set_half unsummed 24 (ipv4_cksum (drop 14 unsummed)))
    where
      bytes : List ℕ
      bytes = with_macs (bytes_of packet) dst_addr src_addr

      time_to_live : ℕ
      time_to_live = get_or bytes 22 0

      unsummed : List ℕ
      unsummed = set_half (set bytes 22 (time_to_live - 1)) 24 0
