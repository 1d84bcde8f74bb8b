-- ===== src/Parser/Mbuf.antt =====
-- What the parser of include/dpdk/spi/spi_packet_parser.cpp uses of DPDK: packet buffers, the byte
-- order, and the reassembly of IP fragments, which are not part of this repository.
use dpdk_cpp.Base.{ℕ, Bool, List, Option}

pub record RteMbuf : Type 1 where
  pub Mbuf : Type 0
  pub FragTable : Type 0
  -- The bytes of the first segment, `data_len` many.
  pub bytes_of : Mbuf → List ℕ
  pub nb_segs : Mbuf → ℕ
  -- `rte_pktmbuf_read` at an offset, of so many bytes; `none` if the packet does not have them.
  pub pktmbuf_read : Mbuf → ℕ → ℕ → Option (List ℕ)
  pub be_to_cpu_16 : ℕ → ℕ
  pub be_to_cpu_32 : ℕ → ℕ
  -- `rte_ipv4_hdr_len` of the first byte of a header.
  pub ipv4_hdr_len : ℕ → ℕ
  -- `rte_ipv4_frag_pkt_is_fragmented` of the field `fragment_offset`.
  pub ipv4_frag_pkt_is_fragmented : ℕ → Bool
  -- The assignments to `l2_len` and `l3_len`.
  pub with_l2_l3_len : ℕ → ℕ → Mbuf → Mbuf
  -- `rte_ipv4_frag_reassemble_packet` at a time, and the freeing of the death row.
  pub ipv4_frag_reassemble_packet : FragTable → Mbuf → ℕ → FragTable × Option Mbuf
  pub ipv6_frag_reassemble_packet : FragTable → Mbuf → ℕ → FragTable × Option Mbuf
