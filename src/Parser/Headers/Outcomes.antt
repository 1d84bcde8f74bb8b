-- ===== src/Parser/Headers/Outcomes.antt =====
-- The outcomes of `ParsePacketOwned` of include/dpdk/spi/spi_packet_parser.cpp.
use dpdk_cpp.Base.{
  if_elim, if_cases, option_elim, ℕ, ◌+◌, ◌-◌, ◌*◌, ◌/◌, ◌≤◌, Bool, true, false, ◌||◌, List, Option,
  none, some, ltb, if◌then◌else◌, get_or, ◌≡◌, ◌≢◌, refl, arith, length,
}
use dpdk_cpp.Packet.{PacketMetadata, tcp}
use mathlib.Core.Path.{subst}
use dpdk_cpp.Flow.Key.{word_at}
use dpdk_cpp.Parser.Mbuf.{RteMbuf}
use dpdk_cpp.Parser.Headers.{
  PacketParseStatus, complete, waiting_for_fragments, malformed, Outcome, finish, reassembled,
  parse_whole_ipv4, parse_whole_ipv6, reassemble_ipv4, parse_ipv4_fragment, parse_ipv4,
  parse_ipv6_fragment, parse_ipv6, parse_packet_owned, parse_ipv4_payload, with_tcp,
  populate_tcp_metadata, half_at, read_header_fast, parse_l4,
}

module _ (rte : RteMbuf) where
  open rte use {
    Mbuf, bytes_of, FragTable, ipv4_frag_reassemble_packet, ipv6_frag_reassemble_packet,
    with_l2_l3_len, ipv4_hdr_len, ipv4_frag_pkt_is_fragmented, be_to_cpu_16,
  }

  -- What each status promises of the packet, the flag and the metadata.
  abbrev pub Promises : PacketParseStatus → Option Mbuf → Bool → Option PacketMetadata → Type 0
  Promises complete packet again metadata = (packet ≢ none) × (metadata ≢ none)
  Promises waiting_for_fragments packet again metadata =
      (packet ≡ none) × (again ≡ false) × (metadata ≡ none)
  Promises malformed packet again metadata = (packet ≢ none) × (metadata ≡ none)

  unfoldable pub IsConsistent : Outcome rte → Type 0
  IsConsistent o = Promises o.status o.packet o.was_reassembled o.metadata

  some_apart {ℓ} : {A : Type ℓ} (a : A) → some a ≢ none
  some_apart a e = ground arith

  finish-IsConsistent :
      (tbl : Option FragTable) (packet : Mbuf) (again : Bool) (metadata : Option PacketMetadata)
      → IsConsistent (finish rte tbl packet again metadata)
  unfolding IsConsistent
  finish-IsConsistent tbl packet again none = (some_apart packet, refl)
  finish-IsConsistent tbl packet again (some m) = (some_apart packet, some_apart m)

  reassembled-IsConsistent :
      (r : FragTable × Option Mbuf) (rest : Mbuf → Option PacketMetadata)
      → IsConsistent (reassembled rte r rest)
  unfolding IsConsistent
  reassembled-IsConsistent (tbl, none) rest = (refl, refl, refl)
  reassembled-IsConsistent (tbl, some whole) rest =
      finish-IsConsistent (some tbl) whole true (rest whole)

  reassemble_ipv4-IsConsistent :
      (tbl : FragTable) (packet : Mbuf) (header_len tsc : ℕ)
      → IsConsistent (reassemble_ipv4 rte tbl packet header_len tsc)
  unfolding reassemble_ipv4
  reassemble_ipv4-IsConsistent tbl packet header_len tsc =
      if_elim IsConsistent (ltb (length (bytes_of packet)) (14 + header_len)) _ _
        (finish-IsConsistent (some tbl) packet false none)
        (reassembled-IsConsistent
          (ipv4_frag_reassemble_packet tbl (with_l2_l3_len 14 header_len packet) tsc)
          (parse_whole_ipv4 rte header_len))

  parse_ipv4_fragment-IsConsistent :
      (tbl : Option FragTable) (packet : Mbuf) (hdr : List ℕ) (header_len tsc : ℕ)
      → IsConsistent (parse_ipv4_fragment rte tbl packet hdr header_len tsc)
  unfolding parse_ipv4_fragment
  parse_ipv4_fragment-IsConsistent tbl packet hdr header_len tsc =
      if_elim IsConsistent _ _ _ (finish-IsConsistent tbl packet false none) (
        option_elim IsConsistent tbl _ _ (finish-IsConsistent none packet false _)
          λ t. reassemble_ipv4-IsConsistent t packet header_len tsc)

  parse_ipv4-IsConsistent :
      (tbl : Option FragTable) (packet : Mbuf) (tsc : ℕ)
      → IsConsistent (parse_ipv4 rte tbl packet tsc)
  unfolding parse_ipv4
  parse_ipv4-IsConsistent tbl packet tsc =
      option_elim IsConsistent (read_header_fast rte packet 14 20) _ _
        (finish-IsConsistent tbl packet false none)
        λ hdr. if_elim IsConsistent _ _ _ (finish-IsConsistent tbl packet false none) (
          if_elim IsConsistent _ _ _
            (parse_ipv4_fragment-IsConsistent tbl packet hdr (ipv4_hdr_len (get_or hdr 0 0)) tsc)
            (finish-IsConsistent tbl packet false _))

  parse_ipv6_fragment-IsConsistent :
      (tbl : Option FragTable) (packet : Mbuf) (tsc : ℕ)
      → IsConsistent (parse_ipv6_fragment rte tbl packet tsc)
  unfolding parse_ipv6_fragment
  parse_ipv6_fragment-IsConsistent tbl packet tsc =
      option_elim IsConsistent (read_header_fast rte packet 54 8) _ _
        (finish-IsConsistent tbl packet false none)
        λ fragment.
          option_elim IsConsistent tbl _ _ (finish-IsConsistent none packet false none) λ t.
            if_elim IsConsistent (ltb (length (bytes_of packet)) 62) _ _
              (finish-IsConsistent (some t) packet false none)
              (reassembled-IsConsistent
                (ipv6_frag_reassemble_packet t (with_l2_l3_len 14 40 packet) tsc)
                (parse_whole_ipv6 rte))

  parse_ipv6-IsConsistent :
      (tbl : Option FragTable) (packet : Mbuf) (tsc : ℕ)
      → IsConsistent (parse_ipv6 rte tbl packet tsc)
  unfolding parse_ipv6
  parse_ipv6-IsConsistent tbl packet tsc =
      option_elim IsConsistent (read_header_fast rte packet 14 40) _ _
        (finish-IsConsistent tbl packet false none)
        λ hdr.
          if_elim IsConsistent _ _ _ (parse_ipv6_fragment-IsConsistent tbl packet tsc)
            (finish-IsConsistent tbl packet false _)

  -- Whatever the packet and the fragment table: with the status complete `ParsePacketOwned` returns
  -- metadata and leaves a packet; while fragments are missing it returns none and leaves no packet,
  -- since the table owns it; and of a malformed one it returns no metadata and leaves a packet.
  pub parse_packet_owned-IsConsistent :
      (tbl : Option FragTable) (packet : Mbuf) (tsc : ℕ)
      → IsConsistent (parse_packet_owned rte tbl packet tsc)
  unfolding parse_packet_owned
  parse_packet_owned-IsConsistent tbl packet tsc =
      option_elim IsConsistent (read_header_fast rte packet 0 14) _ _
        (finish-IsConsistent tbl packet false none)
        λ ether. if_elim IsConsistent _ _ _ (parse_ipv4-IsConsistent tbl packet tsc) (
          if_elim IsConsistent _ _ _ (parse_ipv6-IsConsistent tbl packet tsc)
            (finish-IsConsistent tbl packet false none))

  -- Where the payload of a TCP packet lies, if there is metadata.
  abbrev pub PayloadEnds : ℕ → ℕ → Option PacketMetadata → Type 0
  PayloadEnds first last none = Unit
  PayloadEnds first last (some m) =
      (first ≤ m.tcp_payload_offset) × (m.tcp_payload_offset + m.tcp_payload_length ≡ last)

  populate_tcp_metadata-PayloadEnds :
      (packet : Mbuf) (l4_offset l4_length : ℕ) (m : PacketMetadata)
      → PayloadEnds
          (l4_offset + 20)
          (l4_offset + l4_length)
          (populate_tcp_metadata rte packet l4_offset l4_length m)
  unfolding populate_tcp_metadata
  populate_tcp_metadata-PayloadEnds packet l4_offset l4_length m =
      option_elim (PayloadEnds (l4_offset + 20) (l4_offset + l4_length))
        (read_header_fast rte packet l4_offset 20) _ _ tt
        λ hdr.
          placed hdr (get_or hdr 12 0 / 16 * 4)
            (ltb (get_or hdr 12 0 / 16 * 4) 20 || ltb l4_length (get_or hdr 12 0 / 16 * 4)) refl
    where
      placed :
          (hdr : List ℕ) (size : ℕ) (bad : Bool)
          → (ltb size 20 || ltb l4_length size) ≡ bad
          → PayloadEnds (l4_offset + 20) (l4_offset + l4_length) (
              if bad
              then none
              else some (record m {
                tcp_sequence = rte.be_to_cpu_32 (word_at hdr 4);
                tcp_payload_offset = l4_offset + size;
                tcp_payload_length = l4_length - size;
                tcp_flags = get_or hdr 13 0;
              }))
      placed hdr size true e = tt
      placed hdr size false e = (ground arith, ground arith)

  with_tcp-PayloadEnds :
      (packet : Mbuf) (l4_offset l4_length : ℕ) (metadata : Option PacketMetadata)
      → PayloadEnds
          (l4_offset + 20)
          (l4_offset + l4_length)
          (with_tcp rte packet l4_offset l4_length metadata)
  unfolding with_tcp
  with_tcp-PayloadEnds packet l4_offset l4_length none = tt
  with_tcp-PayloadEnds packet l4_offset l4_length (some m) =
      populate_tcp_metadata-PayloadEnds packet l4_offset l4_length m

  -- The payload of a TCP packet over IPv4 starts 20 bytes or more behind its IP header, and ends where
  -- the packet's total length says.
  pub parse_ipv4_payload-PayloadEnds :
      (packet : Mbuf) (hdr : List ℕ) (header_len : ℕ)
      → get_or hdr 9 0 ≡ 6
      → PayloadEnds
          (14 + header_len + 20)
          (14 + be_to_cpu_16 (half_at hdr 2))
          (parse_ipv4_payload rte packet hdr header_len)
  unfolding parse_ipv4_payload
  parse_ipv4_payload-PayloadEnds packet hdr header_len h = rw h (
      if_cases (PayloadEnds (14 + header_len + 20) (14 + total)) (ltb total header_len) _ _
        (λ e. tt)
        λ e.
          subst
            (λ (last : ℕ). PayloadEnds (14 + header_len + 20) last (
              with_tcp rte packet (14 + header_len) (total - header_len)
                (parse_l4 rte packet (14 + header_len) hdr tcp)))
            (ends e)
            (with_tcp-PayloadEnds packet (14 + header_len) (total - header_len)
              (parse_l4 rte packet (14 + header_len) hdr tcp)))
    where
      total : ℕ
      total = be_to_cpu_16 (half_at hdr 2)

      ends : ltb total header_len ≡ false → 14 + header_len + (total - header_len) ≡ 14 + total
      ends e = ground arith
