-- ===== src/Parser/Headers/Frames.antt =====
-- Whole frames of TCP over IPv4 through `ParsePacketOwned` of include/dpdk/spi/spi_packet_parser.cpp.
use dpdk_cpp.Base.{
  ℕ, ◌+◌, ◌-◌, ◌*◌, ◌/◌, ◌%◌, ◌≤◌, ◌<◌, false, List, [], ◌∷◌, ◌++◌, Option, some, ltb, get_or, ◌≡◌,
  refl, ◌∙◌, ap, arith, length, take, drop, replicate,
}
use dpdk_cpp.Flow.Key.{word_at}
use dpdk_cpp.Packet.{PacketMetadata, tcp, ipv4}
use dpdk_cpp.Parser.Mbuf.{RteMbuf}
use dpdk_cpp.Parser.Headers.{
  finish, parse_ipv4, parse_packet_owned, parse_ipv4_payload, with_tcp, populate_tcp_metadata,
  half_at, read_header_fast, parse_l4, no_metadata,
}

-- A frame: its header bytes, each a function from the index of a byte, and the TCP payload.
pub record TcpFrame : Type 0 where
  pub macs : ℕ → ℕ
  pub tos : ℕ
  pub packet_id : ℕ → ℕ
  pub ttl : ℕ
  pub checksum : ℕ → ℕ
  pub src_addr : ℕ → ℕ
  pub dst_addr : ℕ → ℕ
  pub ports : ℕ → ℕ
  pub sent_seq : ℕ → ℕ
  pub recv_ack : ℕ → ℕ
  pub tcp_flags : ℕ
  pub tail : ℕ → ℕ
  pub payload : List ℕ

unfoldable pub tcp_header : TcpFrame → List ℕ
tcp_header f =
    f.ports 0
    ∷ f.ports 1
    ∷ f.ports 2
    ∷ f.ports 3
    ∷ f.sent_seq 0
    ∷ f.sent_seq 1
    ∷ f.sent_seq 2
    ∷ f.sent_seq 3
    ∷ f.recv_ack 0
    ∷ f.recv_ack 1
    ∷ f.recv_ack 2
    ∷ f.recv_ack 3
    ∷ 80
    ∷ f.tcp_flags
    ∷ f.tail 0
    ∷ f.tail 1
    ∷ f.tail 2
    ∷ f.tail 3
    ∷ f.tail 4
    ∷ f.tail 5
    ∷ []

unfoldable pub ipv4_header : TcpFrame → List ℕ
ipv4_header f =
    69
    ∷ f.tos
    ∷ (40 + length f.payload) / 256
    ∷ (40 + length f.payload) % 256
    ∷ f.packet_id 0
    ∷ f.packet_id 1
    ∷ 0
    ∷ 0
    ∷ f.ttl
    ∷ 6
    ∷ f.checksum 0
    ∷ f.checksum 1
    ∷ f.src_addr 0
    ∷ f.src_addr 1
    ∷ f.src_addr 2
    ∷ f.src_addr 3
    ∷ f.dst_addr 0
    ∷ f.dst_addr 1
    ∷ f.dst_addr 2
    ∷ f.dst_addr 3
    ∷ []

unfoldable pub ether_header : TcpFrame → List ℕ
ether_header f =
    f.macs 0
    ∷ f.macs 1
    ∷ f.macs 2
    ∷ f.macs 3
    ∷ f.macs 4
    ∷ f.macs 5
    ∷ f.macs 6
    ∷ f.macs 7
    ∷ f.macs 8
    ∷ f.macs 9
    ∷ f.macs 10
    ∷ f.macs 11
    ∷ 8
    ∷ 0
    ∷ []

-- The frame without options in its headers.
unfoldable pub frame_bytes : TcpFrame → List ℕ
unfolding ether_header ipv4_header tcp_header
frame_bytes f = ether_header f ++ ipv4_header f ++ tcp_header f ++ f.payload

abbrev pub word_of : (ℕ → ℕ) → ℕ
word_of bytes = bytes 0 + 256 * bytes 1 + 65536 * bytes 2 + 16777216 * bytes 3

-- Big-endian loads: the bytes of a loaded number exchanged.
abbrev pub IsSwap : (ℕ → ℕ) → Type 0
IsSwap be = (a b : ℕ) → a < 256 → b < 256 → be (a + 256 * b) ≡ 256 * a + b

length-frame_bytes : (f : TcpFrame) → length (frame_bytes f) ≡ 54 + length f.payload
unfolding frame_bytes ether_header ipv4_header tcp_header
length-frame_bytes f = omega arith

module _ (rte : RteMbuf) where
  open rte use {
    Mbuf, FragTable, bytes_of, nb_segs, be_to_cpu_16, be_to_cpu_32, ipv4_hdr_len,
    ipv4_frag_pkt_is_fragmented,
  }

  -- The metadata of such a frame.
  abbrev pub frame_metadata : TcpFrame → PacketMetadata
  frame_metadata f = record {
    source_ip6_address = replicate 16 0;
    destination_ip6_address = replicate 16 0;
    source_ip_be = word_of f.src_addr;
    destination_ip_be = word_of f.dst_addr;
    source_port_be = f.ports 0 + 256 * f.ports 1;
    destination_port_be = f.ports 2 + 256 * f.ports 3;
    hostname = [];
    tcp_sequence = be_to_cpu_32 (word_of f.sent_seq);
    tcp_payload_offset = 54;
    tcp_payload_length = length f.payload;
    tcp_flags = f.tcp_flags;
    protocol = tcp;
    ip_version = ipv4;
  }

  read_single :
      (packet : Mbuf) (bytes : List ℕ) (offset size : ℕ)
      → nb_segs packet ≡ 1
      → bytes_of packet ≡ bytes
      → offset + size ≤ length bytes
      → read_header_fast rte packet offset size ≡ some (take size (drop offset bytes))
  unfolding read_header_fast
  read_single packet bytes offset size e e' h = rw (e, e', fits, read_header_fast) refl
    where
      fits : ltb (length bytes) (offset + size) ≡ false
      fits = ground arith

  parse_packet_owned_ipv4 :
      (tbl : Option FragTable) (packet : Mbuf) (tsc : ℕ) (ether : List ℕ)
      → read_header_fast rte packet 0 14 ≡ some ether
      → be_to_cpu_16 (half_at ether 12) ≡ 2048
      → parse_packet_owned rte tbl packet tsc ≡ parse_ipv4 rte tbl packet tsc
  unfolding parse_packet_owned
  parse_packet_owned_ipv4 tbl packet tsc ether e e' = rw (e, e', parse_packet_owned) refl

  parse_ipv4_whole :
      (tbl : Option FragTable) (packet : Mbuf) (tsc : ℕ) (hdr : List ℕ)
      → read_header_fast rte packet 14 20 ≡ some hdr
      → ipv4_hdr_len (get_or hdr 0 0) ≡ 20
      → ipv4_frag_pkt_is_fragmented (half_at hdr 6) ≡ false
      → parse_ipv4 rte tbl packet tsc
        ≡ finish rte tbl packet false (parse_ipv4_payload rte packet hdr 20)
  unfolding parse_ipv4
  parse_ipv4_whole tbl packet tsc hdr e e' e'' = rw (e, e', e'', parse_ipv4) refl

  parse_ipv4_payload_tcp :
      (packet : Mbuf) (hdr : List ℕ) (total : ℕ)
      → get_or hdr 9 0 ≡ 6
      → be_to_cpu_16 (half_at hdr 2) ≡ 40 + total
      → parse_ipv4_payload rte packet hdr 20
        ≡ with_tcp rte packet 34 (20 + total) (parse_l4 rte packet 34 hdr tcp)
  unfolding parse_ipv4_payload
  parse_ipv4_payload_tcp packet hdr total e e' = rw (e, e', short, less, parse_ipv4_payload) refl
    where
      short : ltb (40 + total) 20 ≡ false
      short = ground arith

      less : 40 + total - 20 ≡ 20 + total
      less = omega arith

  abbrev with_payload : PacketMetadata → List ℕ → ℕ → PacketMetadata
  with_payload m hdr total = record m {
    tcp_sequence = be_to_cpu_32 (word_at hdr 4);
    tcp_payload_offset = 54;
    tcp_payload_length = total;
    tcp_flags = get_or hdr 13 0;
  }

  populate_tcp_metadata_short :
      (packet : Mbuf) (hdr : List ℕ) (total : ℕ) (m : PacketMetadata)
      → read_header_fast rte packet 34 20 ≡ some hdr
      → get_or hdr 12 0 ≡ 80
      → populate_tcp_metadata rte packet 34 (20 + total) m ≡ some (with_payload m hdr total)
  unfolding populate_tcp_metadata
  populate_tcp_metadata_short packet hdr total m e e' =
      rw (e, populate_tcp_metadata) (rw (e', long, less) refl)
    where
      long : ltb (20 + total) 20 ≡ false
      long = ground arith

      less : 20 + total - 20 ≡ total
      less = omega arith

  abbrev with_ports : List ℕ → List ℕ → PacketMetadata
  with_ports ip_hdr hdr = record (no_metadata tcp) {
    source_ip_be = word_at ip_hdr 12;
    destination_ip_be = word_at ip_hdr 16;
    source_port_be = half_at hdr 0;
    destination_port_be = half_at hdr 2;
  }

  parse_l4_ports :
      (packet : Mbuf) (ip_hdr hdr : List ℕ)
      → read_header_fast rte packet 34 20 ≡ some hdr
      → parse_l4 rte packet 34 ip_hdr tcp ≡ some (with_ports ip_hdr hdr)
  unfolding parse_l4
  parse_l4_ports packet ip_hdr hdr e = rw (e, parse_l4) refl

  with_tcp_ports :
      (packet : Mbuf) (ip_hdr hdr : List ℕ) (total : ℕ)
      → read_header_fast rte packet 34 20 ≡ some hdr
      → get_or hdr 12 0 ≡ 80
      → with_tcp rte packet 34 (20 + total) (parse_l4 rte packet 34 ip_hdr tcp)
        ≡ some (with_payload (with_ports ip_hdr hdr) hdr total)
  unfolding with_tcp
  with_tcp_ports packet ip_hdr hdr total e e' =
      ap (with_tcp rte packet 34 (20 + total)) (parse_l4_ports packet ip_hdr hdr e)
      ∙ populate_tcp_metadata_short packet hdr total (with_ports ip_hdr hdr) e e'

  length_field :
      IsSwap be_to_cpu_16 → (n : ℕ) → n < 65536 → be_to_cpu_16 (n / 256 + 256 * (n % 256)) ≡ n
  length_field swap n h = swap (n / 256) (n % 256) (omega arith) (omega arith) ∙ omega arith

  -- If loads swap the bytes, and DPDK reads a header length of 20 from the byte 69 and no fragment
  -- from a zero field, then a frame of TCP over IPv4 without options, in one segment and with a
  -- payload of at most 65495 bytes, is parsed as complete into exactly its addresses, ports, sequence
  -- number and flags, with the place and the length of its payload.
  pub parse_packet_owned-frame_bytes :
      (f : TcpFrame) (tbl : Option FragTable) (packet : Mbuf) (tsc : ℕ)
      → IsSwap be_to_cpu_16
      → ipv4_hdr_len 69 ≡ 20
      → ipv4_frag_pkt_is_fragmented 0 ≡ false
      → nb_segs packet ≡ 1
      → bytes_of packet ≡ frame_bytes f
      → length f.payload ≤ 65495
      → parse_packet_owned rte tbl packet tsc
        ≡ finish rte tbl packet false (some (frame_metadata f))
  unfolding frame_bytes ether_header ipv4_header tcp_header
  parse_packet_owned-frame_bytes f tbl packet tsc swap e_len e_frag e_segs e_bytes h =
      parse_packet_owned_ipv4 tbl packet tsc (ether_header f)
        (read_single packet (frame_bytes f) 0 14 e_segs e_bytes (inside 14 (omega arith)))
        (swap 8 0 (omega arith) (omega arith))
      ∙ parse_ipv4_whole tbl packet tsc (ipv4_header f)
          (read_single packet (frame_bytes f) 14 20 e_segs e_bytes (inside 34 (omega arith))) e_len
          e_frag
      ∙ ap (λ m. finish rte tbl packet false m)
          (parse_ipv4_payload_tcp packet (ipv4_header f) (length f.payload) refl
              (length_field swap (40 + length f.payload) (omega arith))
            ∙ with_tcp_ports packet (ipv4_header f) (tcp_header f) (length f.payload)
                (read_single packet (frame_bytes f) 34 20 e_segs e_bytes (inside 54 (omega arith)))
                refl)
    where
      inside : (n : ℕ) → n ≤ 54 → n ≤ length (frame_bytes f)
      inside n k = omega (arith, length-frame_bytes f)
