-- ===== src/Pipeline/Forward/Rewriting.antt =====
-- What the rewriting of headers in include/dpdk/spi/spi_pipeline.cpp changes of a packet.
use dpdk_cpp.Base.{
  ℕ, ◌+◌, List, Option, none, some, ltb, leb, ◌==◌, length, get_or, if_elim, option_elim,
}
use dpdk_cpp.Flow.Hash.{RteHash}
use dpdk_cpp.Parser.Mbuf.{RteMbuf}
use dpdk_cpp.Pipeline.Context.{Settings}
use dpdk_cpp.Pipeline.Forward.{Network, rewrite_l3, prepare_and_rewrite_headers}
use dpdk_cpp.Pipeline.Rewrite.{
  RteTransmit, with_macs, recompute_l4_checksum, update_l3_forward_headers,
}
use dpdk_cpp.Pipeline.Routes.{get_ethernet_destination}

module _ (rte : RteMbuf) (tx : RteTransmit rte) where
  -- The same packet, but for its bytes and its offload flags.
  pub data IsRewriting (packet : rte.Mbuf) : rte.Mbuf → Type 0 where
    untouched : IsRewriting packet packet
    written : (bytes : List ℕ) → IsRewriting packet (tx.with_bytes bytes packet)
    summed : (bytes : List ℕ) → IsRewriting packet (tx.with_bytes bytes (tx.without_offload packet))

  unfoldable pub IsRewritten : rte.Mbuf → Option rte.Mbuf → Type 0
  IsRewritten packet none = Unit
  IsRewritten packet (some sent) = IsRewriting packet sent

  recompute_l4_checksum-IsRewritten :
      (packet : rte.Mbuf) (bytes : List ℕ)
      → IsRewritten packet (recompute_l4_checksum rte tx packet bytes)
  unfolding recompute_l4_checksum IsRewritten
  recompute_l4_checksum-IsRewritten packet bytes =
      if_elim (IsRewritten packet) (get_or bytes 23 0 == 6) _ _
        (if_elim (IsRewritten packet) (ltb (length bytes) (_ + 20)) _ _ tt (summed _))
        (if_elim (IsRewritten packet) (get_or bytes 23 0 == 17) _ _
          (if_elim (IsRewritten packet) (ltb (length bytes) (_ + 8)) _ _ tt (summed _))
          (summed bytes))

  update_l3_forward_headers-IsRewritten :
      (packet : rte.Mbuf) (src_addr dst_addr : List ℕ)
      → IsRewritten packet (update_l3_forward_headers rte tx packet src_addr dst_addr)
  unfolding update_l3_forward_headers IsRewritten
  update_l3_forward_headers-IsRewritten packet src_addr dst_addr =
      if_elim (IsRewritten packet)
        (leb (get_or (with_macs (rte.bytes_of packet) dst_addr src_addr) 22 0) 1) _ _ tt
        (search recompute_l4_checksum-IsRewritten)

  module _ (hash : RteHash) (net : Network) (s : Settings) (inet_pton4 : List ℕ → Option ℕ) where
    rewrite_l3-IsRewritten :
        (mac : List ℕ) (port : ℕ) (packet : rte.Mbuf)
        → IsRewritten packet (rewrite_l3 rte hash s net inet_pton4 tx mac port packet)
    unfolding rewrite_l3 IsRewritten
    rewrite_l3-IsRewritten mac port packet =
        option_elim (IsRewritten packet) net.ethernet_destinations _ _ tt λ destinations.
          option_elim (IsRewritten packet) (get_ethernet_destination destinations port) _ _ tt
            λ destination. update_l3_forward_headers-IsRewritten packet mac destination

    pub prepare_and_rewrite_headers-IsRewritten :
        (port : ℕ) (packet : rte.Mbuf)
        → IsRewritten packet (prepare_and_rewrite_headers rte hash s net inet_pton4 tx port packet)
    unfolding prepare_and_rewrite_headers IsRewritten
    prepare_and_rewrite_headers-IsRewritten port packet =
        option_elim (IsRewritten packet) (net.port_mac_address port) _ _ tt λ mac.
          if_elim (IsRewritten packet) s.l3_forwarding _ _ (rewrite_l3-IsRewritten mac port packet)
            (if_elim (IsRewritten packet) s.mac_updating _ _ (written _) untouched)
