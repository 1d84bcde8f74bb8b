-- ===== src/Parser/Headers.antt =====
-- The headers from Ethernet to TCP and UDP in include/dpdk/spi/spi_packet_parser.cpp. A header is its
-- bytes, and a field of several bytes is loaded from them lowest byte first. The pointers for the
-- status and for `was_reassembled` are fields of the outcome.
pub mod Outcomes
pub mod Frames
use dpdk_cpp.Base.{
  ℕ, zero, suc, ◌+◌, ◌-◌, ◌*◌, ◌/◌, ◌%◌, ◌^◌, Bool, true, false, ◌&&◌, ◌||◌, not, List, [], ◌∷◌,
  Option, none, some, ltb, leb, ◌==◌, if◌then◌else◌, length, get_or, take, drop, replicate, bit_and,
}
use dpdk_cpp.Flow.Key.{word_at}
use dpdk_cpp.Packet.{PacketMetadata, Protocol, tcp, udp, ipv4, ipv6}
use dpdk_cpp.Parser.Mbuf.{RteMbuf}

pub data PacketParseStatus : Type 0 where
  complete waiting_for_fragments malformed : PacketParseStatus

abbrev pub half_at : List ℕ → ℕ → ℕ
half_at bytes i = get_or bytes i 0 + 256 * get_or bytes (i + 1) 0

-- `PacketMetadata{}`, but for the protocol and the version.
abbrev pub no_metadata : Protocol → PacketMetadata
no_metadata protocol = record {
  source_ip6_address = replicate 16 0;
  destination_ip6_address = replicate 16 0;
  source_ip_be = 0;
  destination_ip_be = 0;
  source_port_be = 0;
  destination_port_be = 0;
  hostname = [];
  tcp_sequence = 0;
  tcp_payload_offset = 0;
  tcp_payload_length = 0;
  tcp_flags = 0;
  protocol = protocol;
  ip_version = ipv4;
}

-- The size of `rte_tcp_hdr` and of `rte_udp_hdr`.
abbrev pub l4_size : Protocol → ℕ
l4_size tcp = 20
l4_size udp = 8

module _ (rte : RteMbuf) where
  open rte use {
    Mbuf, FragTable, bytes_of, nb_segs, pktmbuf_read, be_to_cpu_16, be_to_cpu_32, ipv4_hdr_len,
    ipv4_frag_pkt_is_fragmented, with_l2_l3_len, ipv4_frag_reassemble_packet,
    ipv6_frag_reassemble_packet,
  }

  -- `ReadHeaderFast` of a header of so many bytes, with `ReadHeader` for several segments.
  unfoldable pub read_header_fast : Mbuf → ℕ → ℕ → Option (List ℕ)
  read_header_fast packet offset size =
      if not (nb_segs packet == 1)
      then pktmbuf_read packet offset size
      else if ltb (length (bytes_of packet)) (offset + size)
      then none
      else some (take size (drop offset (bytes_of packet)))

  -- `IsValidFragment`: a first fragment has eight bytes behind its header.
  unfoldable pub is_valid_fragment : List ℕ → Bool
  is_valid_fragment hdr = not (
      offset == 0
      && not (bit_and flag_offset 8192 == 0)
      && ltb (be_to_cpu_16 (half_at hdr 2)) (ipv4_hdr_len (get_or hdr 0 0) + 8))
    where
      flag_offset : ℕ
      flag_offset = be_to_cpu_16 (half_at hdr 6)

      offset : ℕ
      offset = bit_and flag_offset 8191 * 8 % 2 ^ 16

  unfoldable pub parse_l4 : Mbuf → ℕ → List ℕ → Protocol → Option PacketMetadata
  unfolding read_header_fast
  parse_l4 packet l4_offset ipv4_hdr proto =
      elim (read_header_fast packet l4_offset (l4_size proto)) [
        | none ↦ none
        | some hdr ↦ some (record (no_metadata proto) {
          source_ip_be = word_at ipv4_hdr 12;
          destination_ip_be = word_at ipv4_hdr 16;
          source_port_be = half_at hdr 0;
          destination_port_be = half_at hdr 2;
        })
      ]

  unfoldable pub parse_l4_ipv6 : Mbuf → ℕ → List ℕ → Protocol → Option PacketMetadata
  unfolding read_header_fast
  parse_l4_ipv6 packet l4_offset ipv6_hdr proto =
      elim (read_header_fast packet l4_offset (l4_size proto)) [
        | none ↦ none
        | some hdr ↦ some (record (no_metadata proto) {
          source_port_be = half_at hdr 0;
          destination_port_be = half_at hdr 2;
          ip_version = ipv6;
          source_ip6_address = take 16 (drop 8 ipv6_hdr);
          destination_ip6_address = take 16 (drop 24 ipv6_hdr);
        })
      ]

  -- `PopulateTcpMetadata`; `none` where it returns false.
  unfoldable pub populate_tcp_metadata : Mbuf → ℕ → ℕ → PacketMetadata → Option PacketMetadata
  unfolding read_header_fast
  populate_tcp_metadata packet l4_offset l4_length metadata =
      elim (read_header_fast packet l4_offset 20) [
        | none ↦ none
        | some hdr ↦
            let tcp_header_length = get_or hdr 12 0 / 16 * 4 in
            if ltb tcp_header_length 20 || ltb l4_length tcp_header_length
            then none
            else some (record metadata {
              tcp_sequence = be_to_cpu_32 (word_at hdr 4);
              tcp_payload_offset = l4_offset + tcp_header_length;
              tcp_payload_length = l4_length - tcp_header_length;
              tcp_flags = get_or hdr 13 0;
            })
      ]

  -- The branch for TCP of either version, with the metadata of its ports.
  unfoldable pub with_tcp : Mbuf → ℕ → ℕ → Option PacketMetadata → Option PacketMetadata
  unfolding populate_tcp_metadata
  with_tcp packet l4_offset l4_length none = none
  with_tcp packet l4_offset l4_length (some metadata) =
      populate_tcp_metadata packet l4_offset l4_length metadata

  -- From the IPv4 header on, whose length is given.
  unfoldable pub parse_ipv4_payload : Mbuf → List ℕ → ℕ → Option PacketMetadata
  unfolding parse_l4 with_tcp
  parse_ipv4_payload packet hdr header_len =
      if get_or hdr 9 0 == 6
      then (if ltb total_length header_len
          then none
          else with_tcp packet (14 + header_len) (total_length - header_len)
              (parse_l4 packet (14 + header_len) hdr tcp))
      else if get_or hdr 9 0 == 17
      then parse_l4 packet (14 + header_len) hdr udp
      else none
    where
      total_length : ℕ
      total_length = be_to_cpu_16 (half_at hdr 2)

  unfoldable pub parse_ipv6_payload : Mbuf → List ℕ → Option PacketMetadata
  unfolding parse_l4_ipv6 with_tcp
  parse_ipv6_payload packet hdr =
      if get_or hdr 6 0 == 6
      then with_tcp packet 54 (be_to_cpu_16 (half_at hdr 4)) (parse_l4_ipv6 packet 54 hdr tcp)
      else if get_or hdr 6 0 == 17
      then parse_l4_ipv6 packet 54 hdr udp
      else none

  -- What `ParsePacketOwned` leaves behind: `packet` is `none` where it is set to null.
  pub record Outcome : Type 0 where
    pub packet : Option Mbuf
    pub frag_tbl : Option FragTable
    pub status : PacketParseStatus
    pub was_reassembled : Bool
    pub metadata : Option PacketMetadata

  abbrev pub finish : Option FragTable → Mbuf → Bool → Option PacketMetadata → Outcome
  finish tbl packet again none = record {
    packet = some packet;
    frag_tbl = tbl;
    status = malformed;
    was_reassembled = again;
    metadata = none;
  }
  finish tbl packet again (some metadata) = record {
    packet = some packet;
    frag_tbl = tbl;
    status = complete;
    was_reassembled = again;
    metadata = some metadata;
  }

  -- The packet that a fragment completes, if it does, is parsed from the given step on.
  abbrev pub reassembled : FragTable × Option Mbuf → (Mbuf → Option PacketMetadata) → Outcome
  reassembled (tbl, none) rest = record {
    packet = none;
    frag_tbl = some tbl;
    status = waiting_for_fragments;
    was_reassembled = false;
    metadata = none;
  }
  reassembled (tbl, some whole) rest = finish (some tbl) whole true (rest whole)

  -- The header of the whole packet is read again, but `header_len` stays that of the fragment.
  unfoldable pub parse_whole_ipv4 : ℕ → Mbuf → Option PacketMetadata
  unfolding read_header_fast parse_ipv4_payload
  parse_whole_ipv4 header_len whole = elim (read_header_fast whole 14 20) [
    | none ↦ none
    | some hdr ↦ parse_ipv4_payload whole hdr header_len
  ]

  unfoldable pub reassemble_ipv4 : FragTable → Mbuf → ℕ → ℕ → Outcome
  unfolding parse_whole_ipv4
  reassemble_ipv4 tbl packet header_len tsc =
      if ltb (length (bytes_of packet)) (14 + header_len)
      then finish (some tbl) packet false none
      else reassembled (ipv4_frag_reassemble_packet tbl (with_l2_l3_len 14 header_len packet) tsc)
          (parse_whole_ipv4 header_len)

  unfoldable pub parse_ipv4_fragment : Option FragTable → Mbuf → List ℕ → ℕ → ℕ → Outcome
  unfolding is_valid_fragment reassemble_ipv4 parse_ipv4_payload
  parse_ipv4_fragment tbl packet hdr header_len tsc =
      if not (is_valid_fragment hdr) then finish tbl packet false none else elim tbl [
        | none ↦ finish none packet false (parse_ipv4_payload packet hdr header_len)
        | some t ↦ reassemble_ipv4 t packet header_len tsc
      ]

  unfoldable pub parse_ipv4 : Option FragTable → Mbuf → ℕ → Outcome
  unfolding read_header_fast parse_ipv4_fragment parse_ipv4_payload
  parse_ipv4 tbl packet tsc = elim (read_header_fast packet 14 20) [
    | none ↦ finish tbl packet false none
    | some hdr ↦
        let header_len = ipv4_hdr_len (get_or hdr 0 0) in
        if ltb header_len 20
        then finish tbl packet false none
        else if ipv4_frag_pkt_is_fragmented (half_at hdr 6)
        then parse_ipv4_fragment tbl packet hdr header_len tsc
        else finish tbl packet false (parse_ipv4_payload packet hdr header_len)
  ]

  unfoldable pub parse_whole_ipv6 : Mbuf → Option PacketMetadata
  unfolding read_header_fast parse_ipv6_payload
  parse_whole_ipv6 whole = elim (read_header_fast whole 14 40) [
    | none ↦ none
    | some hdr ↦ parse_ipv6_payload whole hdr
  ]

  unfoldable pub parse_ipv6_fragment : Option FragTable → Mbuf → ℕ → Outcome
  unfolding read_header_fast parse_whole_ipv6
  parse_ipv6_fragment tbl packet tsc = elim (read_header_fast packet 54 8) [
    | none ↦ finish tbl packet false none
    | some fragment ↦ elim tbl [
      | none ↦ finish none packet false none
      | some t ↦
          if ltb (length (bytes_of packet)) (54 + 8)
          then finish (some t) packet false none
          else reassembled (ipv6_frag_reassemble_packet t (with_l2_l3_len 14 40 packet) tsc)
              parse_whole_ipv6
    ]
  ]

  unfoldable pub parse_ipv6 : Option FragTable → Mbuf → ℕ → Outcome
  unfolding read_header_fast parse_ipv6_fragment parse_ipv6_payload
  parse_ipv6 tbl packet tsc = elim (read_header_fast packet 14 40) [
    | none ↦ finish tbl packet false none
    | some hdr ↦
        if get_or hdr 6 0 == 44
        then parse_ipv6_fragment tbl packet tsc
        else finish tbl packet false (parse_ipv6_payload packet hdr)
  ]

  -- `ParsePacketOwned` of a packet that is not null.
  unfoldable pub parse_packet_owned : Option FragTable → Mbuf → ℕ → Outcome
  unfolding read_header_fast parse_ipv4 parse_ipv6
  parse_packet_owned tbl packet tsc = elim (read_header_fast packet 0 14) [
    | none ↦ finish tbl packet false none
    | some ether ↦
        let ether_type = be_to_cpu_16 (half_at ether 12) in
        if ether_type == 2048
        then parse_ipv4 tbl packet tsc
        else if ether_type == 34525
        then parse_ipv6 tbl packet tsc
        else finish tbl packet false none
  ]
