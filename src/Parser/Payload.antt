-- ===== src/Parser/Payload.antt =====
-- The versions of `ExtractTlsSni` and `ExtractHttpHost` of include/dpdk/spi/spi_packet_parser.cpp that
-- take a packet and the offset of its TCP payload. The pointer that they return is the bytes there.
use dpdk_cpp.Base.{
  ℕ, ◌+◌, ◌-◌, ◌%◌, ◌^◌, true, false, List, Option, none, some, ltb, length, take, drop, min,
}
use dpdk_cpp.Parser.Http.{host_of}
use dpdk_cpp.Parser.Mbuf.{RteMbuf}
use dpdk_cpp.Parser.Reads.{Checked, ok, ◌>>=◌}
use dpdk_cpp.Parser.Tls.{extract_from}

abbrev pub name_in : List ℕ → Option (ℕ × ℕ) → Option (List ℕ)
name_in bytes none = none
name_in bytes (some (offset, size)) = some (take size (drop offset bytes))

module _ (rte : RteMbuf) where
  open rte use {Mbuf, bytes_of, pktmbuf_read}

  -- `len`: the subtraction is one of 32 bits.
  unfoldable pub inspected : Mbuf → ℕ → ℕ → ℕ
  inspected packet offset most =
      min ((length (bytes_of packet) + 2 ^ 32 - offset % 2 ^ 32) % 2 ^ 32) most

  unfoldable pub name_in_payload :
      Mbuf → ℕ → ℕ → ℕ → (List ℕ → Checked (Option (ℕ × ℕ))) → Checked (Option (List ℕ))
  unfolding inspected
  name_in_payload packet offset least most find = elim (ltb (inspected packet offset most) least) [
    | true ↦ ok none
    | false ↦ elim (pktmbuf_read packet offset (inspected packet offset most)) [
      | none ↦ ok none
      | some raw ↦ do found ← find raw; ok (name_in raw found)
    ]
  ]

  unfoldable pub packet_tls_sni : Mbuf → ℕ → Checked (Option (List ℕ))
  unfolding name_in_payload extract_from
  packet_tls_sni packet offset = name_in_payload packet offset 5 512 extract_from

  unfoldable pub packet_http_host : Mbuf → ℕ → Checked (Option (List ℕ))
  unfolding name_in_payload host_of
  packet_http_host packet offset = name_in_payload packet offset 4 256 host_of
