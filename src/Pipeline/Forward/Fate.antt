-- ===== src/Pipeline/Forward/Fate.antt =====
-- The places that `ForwardPacket` of include/dpdk/spi/spi_pipeline.cpp may put a packet in, and why.
use dpdk_cpp.Base.{
  ℕ, ◌%◌, ◌<◌, ◌≤◌, Bool, true, false, ◌&&◌, not, List, ◌∷◌, Option, none, some, length, ◌≡◌,
}
use dpdk_cpp.Flow.Hash.{RteHash}
use dpdk_cpp.Parser.Mbuf.{RteMbuf}
use dpdk_cpp.Pipeline.Classify.{PacketClassification}
use dpdk_cpp.Pipeline.Context.{Settings, Worker}
use dpdk_cpp.Pipeline.Counters.{BurstCounters, bump}
use dpdk_cpp.Pipeline.Dpi.{is_drop}
use dpdk_cpp.Pipeline.Forward.{
  Network, Places, Run, put_packet, resolve_transmit_port, prepare_and_rewrite_headers,
}
use dpdk_cpp.Pipeline.Forward.Rewriting.{IsRewriting}
use dpdk_cpp.Pipeline.FlowHash.{hash_packet_flow}
use dpdk_cpp.Pipeline.Rewrite.{RteTransmit}

-- How many packets are counted as dropped, and how many of them as dropped by a rule.
abbrev pub drops : BurstCounters → ℕ × ℕ
drops c = (c.dropped, c.dropped_by_rule)

-- Every staging buffer has room for one more packet.
abbrev pub HasRoom : (rte : RteMbuf) → Places rte → Type 0
HasRoom rte places = (port : ℕ) → length (places.transmit_buffers port) < 256

module _ (rte : RteMbuf) (hash : RteHash) (net : Network) (s : Settings)
    (inet_pton4 : List ℕ → Option ℕ) (tx : RteTransmit rte) (ring_is_full : ℕ → Bool)
    (receive_port : ℕ) where
  abbrev pub ring_of : rte.Mbuf → ℕ
  ring_of packet = hash_packet_flow rte packet receive_port % s.flow_hash_rings

  -- There is no port for the packet, or none of that number, or its headers cannot be rewritten.
  pub data IsUnsendable (k : PacketClassification) (packet : rte.Mbuf) : Type 0 where
    no_port :
        resolve_transmit_port rte hash s net inet_pton4 k receive_port ≡ none
        → IsUnsendable k packet
    no_such_port :
        (port : ℕ)
        → resolve_transmit_port rte hash s net inet_pton4 k receive_port ≡ some port
        → net.port_count ≤ port
        → IsUnsendable k packet
    not_rewritten :
        (port : ℕ)
        → resolve_transmit_port rte hash s net inet_pton4 k receive_port ≡ some port
        → prepare_and_rewrite_headers rte hash s net inet_pton4 tx port packet ≡ none
        → IsUnsendable k packet

  -- Where a packet is sent, and as what.
  pub record IsSendable (k : PacketClassification) (packet sent : rte.Mbuf) (port : ℕ)
      : Type 0 where
    pub resolved : resolve_transmit_port rte hash s net inet_pton4 k receive_port ≡ some port
    pub known : port < net.port_count
    pub prepared : prepare_and_rewrite_headers rte hash s net inet_pton4 tx port packet ≡ some sent
    pub rewriting : IsRewriting rte tx packet sent

  -- Why a packet is dropped: the ring of its worker is full, a rule says so, no rule matches
  -- where one has to, or it cannot be sent.
  pub data IsDropped (k : PacketClassification) (packet : rte.Mbuf) : Type 0 where
    ring_full : k.redispatch ≡ true → ring_is_full (ring_of packet) ≡ true → IsDropped k packet
    by_rule : k.redispatch ≡ false → k.matched && is_drop k.action ≡ true → IsDropped k packet
    unmatched :
        k.redispatch ≡ false
        → k.matched && is_drop k.action ≡ false
        → s.drop_unmatched && not k.matched ≡ true
        → IsDropped k packet
    unsendable :
        k.redispatch ≡ false
        → k.matched && is_drop k.action ≡ false
        → s.drop_unmatched && not k.matched ≡ false
        → IsUnsendable k packet
        → IsDropped k packet

  -- The two counts of dropped packets after a drop.
  abbrev pub with_drop :
      {k : PacketClassification} {packet : rte.Mbuf} → IsDropped k packet → ℕ × ℕ → ℕ × ℕ
  with_drop (ring_full there full) (all, ruled) = (bump all, ruled)
  with_drop (by_rule here h) (all, ruled) = (bump all, bump ruled)
  with_drop (unmatched here kept h) (all, ruled) = (bump all, ruled)
  with_drop (unsendable here kept wanted h) (all, ruled) = (bump all, ruled)

  -- Where the packet that `ClassifyPacket` leaves has gone to, given its classification; the second
  -- run is the one after. Without a packet nothing moves.
  pub data IsPlaced (k : PacketClassification) (before : Run rte hash)
      : Option rte.Mbuf → Run rte hash → Type 0 where
    freed :
        (w : Worker rte hash) (packet : rte.Mbuf) (why : IsDropped k packet)
        → drops w.counters ≡ with_drop why (drops before.worker.counters)
        → IsPlaced k before (some packet) (record {
          worker = w;
          places = record before.places { freed = packet ∷ before.places.freed };
        })
    staged :
        (w : Worker rte hash) (port : ℕ) (packet sent : rte.Mbuf)
        → k.redispatch ≡ false
        → k.matched && is_drop k.action ≡ false
        → s.drop_unmatched && not k.matched ≡ false
        → IsSendable k packet sent port
        → drops w.counters ≡ drops before.worker.counters
        → IsPlaced k before (some packet) (record {
          worker = w;
          places = record before.places {
            transmit_buffers = put_packet rte hash before.places.transmit_buffers port sent;
          };
        })
    handed_over :
        (w : Worker rte hash) (packet : rte.Mbuf)
        → k.redispatch ≡ true
        → ring_is_full (ring_of packet) ≡ false
        → drops w.counters ≡ drops before.worker.counters
        → IsPlaced k before (some packet) (record {
          worker = w;
          places = record before.places {
            dispatched = (ring_of packet, receive_port, packet) ∷ before.places.dispatched;
          };
        })
    owned_by_table :
        (w : Worker rte hash)
        → drops w.counters ≡ drops before.worker.counters
        → IsPlaced k before none (record { worker = w; places = before.places })
