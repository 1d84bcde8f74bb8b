-- ===== src/Tests/ParserRuns.antt =====
-- The packet parser on small packets, with packets that are their bytes.
use dpdk_cpp.Base.{
  ℕ, ◌+◌, ◌*◌, ◌/◌, ◌%◌, ◌≡◌, refl, false, not, List, [], ◌∷◌, ◌++◌, none, some, arith, ltb, ◌==◌,
  if◌then◌else◌, length, take, drop, replicate, min,
}
use dpdk_cpp.Parser.Mbuf.{RteMbuf}
use dpdk_cpp.Parser.Reads.{ok, Returns}
use dpdk_cpp.Parser.Tls.{extract_tls_sni, find_from}
use dpdk_cpp.Parser.Tls.Safe.{IsInside, extract_tls_sni-IsInside, find_from_enough}
use dpdk_cpp.Parser.Http.{find_host_header_value, extract_http_host}
use dpdk_cpp.Parser.Http.Values.{IsScanned}
use dpdk_cpp.Parser.Http.Host.{find_host_header_value-IsScanned}
use dpdk_cpp.Parser.Headers.{finish, parse_packet_owned}
use dpdk_cpp.Parser.Headers.Outcomes.{IsConsistent, parse_packet_owned-IsConsistent}
use dpdk_cpp.Parser.Headers.Frames.{
  TcpFrame, frame_bytes, frame_metadata, IsSwap, parse_packet_owned-frame_bytes,
}

-- A ClientHello with the server name "a.b".
abbrev pub hello : List ℕ
hello =
    22
    ∷ 3
    ∷ 1
    ∷ 0
    ∷ 59
    ∷ 1
    ∷ (replicate 37 0
        ++ (0 ∷ 0 ∷ 2 ∷ 19 ∷ 1 ∷ 1 ∷ 0 ∷ 0 ∷ 12 ∷ 0 ∷ 0 ∷ 0 ∷ 8 ∷ 0 ∷ 6 ∷ 0 ∷ 0 ∷ 3 ∷ 97 ∷ 46 ∷ 98
            ∷ []))

extract_tls_sni-hello : extract_tls_sni hello ≡ ok (some (61, 3))
unfolding extract_tls_sni
extract_tls_sni-hello = refl

extract_tls_sni-IsInside_example :
    Returns (IsInside (min 512 (length hello))) (extract_tls_sni hello)
extract_tls_sni-IsInside_example = extract_tls_sni-IsInside hello (λ e. absurd (omega arith))

find_from_enough_example : find_from hello 64 64 52 ≡ find_from hello 64 12 52
find_from_enough_example = find_from_enough hello 64 12 64 52 (omega arith) (omega arith)

-- A GET request with the header "Host:  ab".
abbrev pub get_request : List ℕ
get_request =
    71 ∷ 69 ∷ 84 ∷ 32 ∷ 47 ∷ 13 ∷ 10 ∷ 72 ∷ 111 ∷ 115 ∷ 116 ∷ 58 ∷ 32 ∷ 32 ∷ 97 ∷ 98 ∷ 13 ∷ 10 ∷ []

extract_http_host-get_request : extract_http_host get_request ≡ ok (some (14, 2))
unfolding extract_http_host
extract_http_host-get_request = refl

find_host_header_value-IsScanned_example :
    Returns (IsScanned get_request 4) (find_host_header_value get_request)
find_host_header_value-IsScanned_example =
    find_host_header_value-IsScanned get_request (omega arith)

-- The exchange of two bytes.
abbrev pub swap16 : ℕ → ℕ
swap16 n = 256 * (n % 256) + n / 256

swap16-IsSwap : IsSwap swap16
swap16-IsSwap a b h k = omega arith

-- Packets of one segment; no fragment ever completes a packet.
abbrev pub plain_mbuf : RteMbuf
plain_mbuf = record {
  Mbuf = List ℕ;
  FragTable = Unit;
  bytes_of = λ bytes. bytes;
  nb_segs = λ _. 1;
  pktmbuf_read = λ bytes offset size.
      if ltb (length bytes) (offset + size) then none else some (take size (drop offset bytes));
  be_to_cpu_16 = swap16;
  be_to_cpu_32 = λ n. swap16 (n / 65536) + 65536 * swap16 (n % 65536);
  ipv4_hdr_len = λ version_ihl. version_ihl % 16 * 4;
  ipv4_frag_pkt_is_fragmented = λ field. not (swap16 field % 16384 == 0);
  with_l2_l3_len = λ l2 l3 bytes. bytes;
  ipv4_frag_reassemble_packet = λ tbl bytes tsc. (tbl, none);
  ipv6_frag_reassemble_packet = λ tbl bytes tsc. (tbl, none);
}

-- A request from port 4660 to port 443 with the ClientHello as its payload.
abbrev pub hello_frame : TcpFrame
hello_frame = record {
  macs = λ i. i;
  tos = 0;
  packet_id = λ i. i;
  ttl = 64;
  checksum = λ _. 0;
  src_addr = λ i. i + 1;
  dst_addr = λ i. i + 5;
  ports = λ i. if i == 0 then 18 else if i == 1 then 52 else if i == 2 then 1 else 187;
  sent_seq = λ i. i;
  recv_ack = λ _. 0;
  tcp_flags = 24;
  tail = λ _. 0;
  payload = hello;
}

parse_packet_owned-frame_bytes_example :
    parse_packet_owned plain_mbuf none (frame_bytes hello_frame) 7
    ≡ finish plain_mbuf none
        (frame_bytes hello_frame)
        false
        (some (frame_metadata plain_mbuf hello_frame))
parse_packet_owned-frame_bytes_example =
    parse_packet_owned-frame_bytes plain_mbuf hello_frame none (frame_bytes hello_frame) 7
      swap16-IsSwap refl refl refl refl (omega arith)

parse_packet_owned-IsConsistent_example :
    IsConsistent plain_mbuf (parse_packet_owned plain_mbuf (some tt) (frame_bytes hello_frame) 7)
parse_packet_owned-IsConsistent_example =
    parse_packet_owned-IsConsistent plain_mbuf (some tt) (frame_bytes hello_frame) 7
