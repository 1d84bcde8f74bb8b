-- ===== src/Pipeline/Hostname.antt =====
-- `ExtractHostname` of include/dpdk/spi/spi_pipeline.cpp, and the hostnames that the packet parser
-- finds for `TryDpiClassify`.
use dpdk_cpp.Base.{ℕ, ◌+◌, ◌*◌, ◌/◌, true, false, List, [], Option, none, some, ltb, ◌==◌, get_or}
use dpdk_cpp.Packet.{PacketMetadata}
use dpdk_cpp.Parser.Http.{extract_http_host}
use dpdk_cpp.Parser.Mbuf.{RteMbuf}
use dpdk_cpp.Parser.Payload.{name_in, packet_tls_sni, packet_http_host}
use dpdk_cpp.Parser.Reads.{Checked, ok, out_of_bounds, ◌>>=◌, read}
use dpdk_cpp.Parser.Tls.{extract_tls_sni}
use dpdk_cpp.Pipeline.Context.{Hostnames}
use dpdk_cpp.Pipeline.Dpi.{is_tcp}

-- The hostname of the metadata, replaced by a name that is found.
abbrev pub named : List ℕ → Option (List ℕ) → List ℕ
named hostname none = hostname
named hostname (some name) = name

-- No hostname where the source reads out of bounds, which is undefined there.
abbrev pub defined : Checked (List ℕ) → List ℕ
defined (ok hostname) = hostname
defined out_of_bounds = []

module _ (rte : RteMbuf) where
  open rte use {Mbuf, bytes_of, pktmbuf_read, be_to_cpu_16, ipv4_hdr_len}

  -- The end of `ExtractHostname`, with `payload_off`.
  unfoldable pub hostname_at : Mbuf → PacketMetadata → ℕ → Checked (List ℕ)
  unfolding packet_tls_sni packet_http_host
  hostname_at packet m payload_off = elim (be_to_cpu_16 m.destination_port_be == 443) [
    | true ↦ do sni ← packet_tls_sni rte packet payload_off; ok (named m.hostname sni)
    | false ↦ elim (be_to_cpu_16 m.destination_port_be == 80) [
      | true ↦ do host ← packet_http_host rte packet payload_off; ok (named m.hostname host)
      | false ↦ ok m.hostname
    ]
  ]

  -- The hostname that `ExtractHostname` leaves in the metadata.
  unfoldable pub extract_hostname : Mbuf → PacketMetadata → Checked (List ℕ)
  unfolding read hostname_at
  extract_hostname packet m = do
    version_ihl ← read (bytes_of packet) 14
    let l4_off = 14 + ipv4_hdr_len version_ihl
    elim (is_tcp m.protocol) [
      | false ↦ hostname_at packet m l4_off
      | true ↦ elim (pktmbuf_read packet l4_off 20) [
        | none ↦ ok m.hostname
        | some hdr ↦ elim (ltb (get_or hdr 12 0 / 16 * 4) 20) [
          | true ↦ ok m.hostname
          | false ↦ hostname_at packet m (l4_off + get_or hdr 12 0 / 16 * 4)
        ]
      ]
    ]

  -- The hostname in the contiguous bytes of a stream to a port.
  unfoldable pub stream_name : ℕ → List ℕ → Checked (List ℕ)
  unfolding extract_tls_sni extract_http_host
  stream_name dst_port contiguous = elim (dst_port == 443) [
    | true ↦ do sni ← extract_tls_sni contiguous; ok (named [] (name_in contiguous sni))
    | false ↦ do host ← extract_http_host contiguous; ok (named [] (name_in contiguous host))
  ]

  unfoldable pub parser_hostnames : Hostnames rte
  unfolding extract_hostname stream_name
  parser_hostnames = record {
    packet_hostname = λ packet m. defined (extract_hostname packet m);
    stream_hostname = λ port bytes. defined (stream_name port bytes);
  }
