-- ===== src/Pipeline/Forward.antt =====
-- Forwarding in include/dpdk/spi/spi_pipeline.cpp: the decision to drop a packet or to stage it for a
-- port, and `ForwardPacket` of a dispatched packet.
pub mod Rewriting
pub mod Fate
pub mod Conserved
use dpdk_cpp.Base.{
  ℕ, ◌+◌, ◌%◌, Bool, true, false, ◌&&◌, ◌||◌, not, List, [], ◌∷◌, Option, none, some, ltb, leb,
  ◌==◌, if◌then◌else◌, length,
}
use dpdk_cpp.Flow.Hash.{RteHash}
use dpdk_cpp.Flow.Key.{FlowKey}
use dpdk_cpp.Packet.{PacketMetadata, Action}
use dpdk_cpp.Parser.Mbuf.{RteMbuf}
use dpdk_cpp.Parser.Reads.{Checked, ok, out_of_bounds}
use dpdk_cpp.Pipeline.Classify.{PacketClassification, Classified, classify_packet}
use dpdk_cpp.Pipeline.Context.{
  Settings, Tables, Worker, Hostnames, count_dropped, count_dropped_by_rule, counted,
}
use dpdk_cpp.Pipeline.Dpi.{is_drop}
use dpdk_cpp.Pipeline.FlowHash.{hash_packet_flow}
use dpdk_cpp.Pipeline.Rewrite.{RteTransmit, update_l2_forward_macs, update_l3_forward_headers}
use dpdk_cpp.Pipeline.Routes.{
  get_transmit_port, L3RouteEntry, lookup_l3_transmit_port, EthernetDestinationEntry,
  get_ethernet_destination,
}
use dpdk_cpp.Spi.Dpdk.{RteAcl}

-- The ports and what is configured for them; a null pointer is `none`.
pub record Network : Type 0 where
  pub active_ports : List ℕ
  -- `transmit_buffers.size()`, the number of ports.
  pub port_count : ℕ
  pub port_mac_address : ℕ → Option (List ℕ)
  pub l3_routes : Option (List L3RouteEntry)
  pub ethernet_destinations : Option (List EthernetDestinationEntry)

-- Where packets go: the staging buffer of each port, the last one first and `transmit_counts` many;
-- the worker rings, each packet with its ring and its port; and the freed packets.
pub record Places (rte : RteMbuf) : Type 0 where
  pub transmit_buffers : ℕ → List rte.Mbuf
  pub dispatched : List (ℕ × ℕ × rte.Mbuf)
  pub freed : List rte.Mbuf

module _ (rte : RteMbuf) (hash : RteHash) where
  open rte use {Mbuf, be_to_cpu_32}

  pub record Run : Type 0 where
    pub worker : Worker rte hash
    pub places : Places rte

  abbrev pub put_packet : (ℕ → List Mbuf) → ℕ → Mbuf → ℕ → List Mbuf
  put_packet buffers port packet p = if p == port then packet ∷ buffers p else buffers p

  -- `DropPacket`.
  unfoldable pub drop_packet : Run → Mbuf → Run
  drop_packet r packet = record {
    worker = counted rte hash r.worker count_dropped;
    places = record r.places { freed = packet ∷ r.places.freed };
  }

  -- `EnqueuePacket`: a staging buffer has room for 256 packets, and writing behind it is undefined.
  unfoldable pub enqueue_packet : Run → ℕ → Mbuf → Checked Run
  enqueue_packet r port packet = elim (leb 256 (length (r.places.transmit_buffers port))) [
    | true ↦ out_of_bounds
    | false ↦ ok (record r {
      places = record r.places {
        transmit_buffers = put_packet r.places.transmit_buffers port packet;
      };
    })
  ]

  module _ (s : Settings) (net : Network) (inet_pton4 : List ℕ → Option ℕ) where
    unfoldable pub l3_transmit_port : PacketMetadata → ℕ → Option ℕ
    unfolding lookup_l3_transmit_port
    l3_transmit_port m receive_port = elim net.l3_routes [
      | none ↦ none
      | some routes ↦ elim net.ethernet_destinations [
        | none ↦ none
        | some destinations ↦ elim (lookup_l3_transmit_port inet_pton4 be_to_cpu_32 routes m) [
          | none ↦ none
          | some port ↦ if port == receive_port then none else some port
        ]
      ]
    ]

    unfoldable pub resolve_transmit_port : PacketClassification → ℕ → Option ℕ
    unfolding get_transmit_port l3_transmit_port
    resolve_transmit_port k receive_port =
        if not s.l3_forwarding
        then some (get_transmit_port net.active_ports receive_port)
        else if k.parsed
        then l3_transmit_port k.metadata receive_port
        else none

    module _ (tx : RteTransmit rte) where
      open tx use {with_bytes}

      unfoldable pub rewrite_l3 : List ℕ → ℕ → Mbuf → Option Mbuf
      unfolding get_ethernet_destination update_l3_forward_headers
      rewrite_l3 mac port packet = elim net.ethernet_destinations [
        | none ↦ none
        | some destinations ↦ elim (get_ethernet_destination destinations port) [
          | none ↦ none
          | some destination ↦ update_l3_forward_headers rte tx packet mac destination
        ]
      ]

      -- `PrepareAndRewriteHeaders`: the rewritten packet, `none` where it returns false.
      unfoldable pub prepare_and_rewrite_headers : ℕ → Mbuf → Option Mbuf
      unfolding rewrite_l3 update_l2_forward_macs
      prepare_and_rewrite_headers port packet = elim (net.port_mac_address port) [
        | none ↦ none
        | some mac ↦
            if s.l3_forwarding
            then rewrite_l3 mac port packet
            else if s.mac_updating
            then some (with_bytes (update_l2_forward_macs (rte.bytes_of packet) mac port) packet)
            else some packet
      ]

      -- The port of a packet that is not dropped, and the packet rewritten for it.
      unfoldable pub outgoing : PacketClassification → ℕ → Mbuf → Option (ℕ × Mbuf)
      unfolding resolve_transmit_port prepare_and_rewrite_headers
      outgoing k receive_port packet = elim (resolve_transmit_port k receive_port) [
        | none ↦ none
        | some port ↦
            if leb net.port_count port
            then none
            else elim (prepare_and_rewrite_headers port packet) [
              | none ↦ none
              | some rewritten ↦ some (port, rewritten)
            ]
      ]

      -- `ApplyForwardDecision`, and the same tests at the end of `ForwardPacket`.
      unfoldable pub apply_forward_decision : Run → Mbuf → ℕ → PacketClassification → Checked Run
      unfolding drop_packet enqueue_packet outgoing
      apply_forward_decision r packet receive_port k = elim (k.matched && is_drop k.action) [
        | true ↦ ok (
            drop_packet (record r { worker = counted rte hash r.worker count_dropped_by_rule })
              packet)
        | false ↦ elim (s.drop_unmatched && not k.matched) [
          | true ↦ ok (drop_packet r packet)
          | false ↦ elim (outgoing k receive_port packet) [
            | none ↦ ok (drop_packet r packet)
            | some sent ↦ enqueue_packet r sent.0 sent.1
          ]
        ]
      ]

      module _ (acl : RteAcl) (rte_hash_crc : FlowKey → ℕ) (names : Hostnames rte)
          (ring_is_full : ℕ → Bool) where
        -- A packet put into the ring of the worker that its hash selects, or dropped.
        unfoldable pub dispatch_packet_to_worker : Run → Mbuf → ℕ → Run
        unfolding hash_packet_flow drop_packet
        dispatch_packet_to_worker r packet receive_port =
            if ring_is_full worker_id then drop_packet r packet else record r {
              places = record r.places {
                dispatched = (worker_id, receive_port, packet) ∷ r.places.dispatched;
              };
            }
          where
            worker_id : ℕ
            worker_id = hash_packet_flow rte packet receive_port % s.flow_hash_rings

        unfoldable pub forward_classified :
            Run → Option Mbuf → ℕ → PacketClassification → Checked Run
        unfolding dispatch_packet_to_worker apply_forward_decision
        forward_classified r none receive_port k = ok r
        forward_classified r (some packet) receive_port k = elim k.redispatch [
          | true ↦ ok (dispatch_packet_to_worker r packet receive_port)
          | false ↦ apply_forward_decision r packet receive_port k
        ]

        -- `ForwardPacket`.
        unfoldable pub forward_packet : Tables acl → Run → Mbuf → ℕ → Checked Run
        unfolding classify_packet forward_classified
        forward_packet tables r packet receive_port =
            forward_classified (record r { worker = classified.0.worker }) classified.1 receive_port
              classified.0.classification
          where
            classified : Classified rte hash acl rte_hash_crc × Option Mbuf
            classified =
                classify_packet rte hash acl rte_hash_crc names s tables r.worker packet
                  receive_port
