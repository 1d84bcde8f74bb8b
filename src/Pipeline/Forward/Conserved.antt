-- ===== src/Pipeline/Forward/Conserved.antt =====
-- No packet is lost or sent twice by `ForwardPacket` of include/dpdk/spi/spi_pipeline.cpp.
use dpdk_cpp.Base.{
  ℕ, Bool, true, false, ◌&&◌, not, List, Option, none, some, leb, length, ◌≡◌, refl, ◌∙◌, ap, arith,
  if_cases, option_cases,
}
use dpdk_cpp.Flow.Hash.{RteHash}
use dpdk_cpp.Flow.Key.{FlowKey}
use dpdk_cpp.Parser.Mbuf.{RteMbuf}
use dpdk_cpp.Parser.Reads.{ok, Returns, Returns-elim, Returns-map}
use dpdk_cpp.Pipeline.Classify.{PacketClassification, Classified, classify_packet}
use dpdk_cpp.Pipeline.Classify.Accounts.{Fates}
use dpdk_cpp.Pipeline.Classify.Verdicts.{
  IsAccounted, IsSettled, as_matched, as_unknown, settled, cached, redispatched, refused,
  classify_packet-Accounts,
}
use dpdk_cpp.Pipeline.Classify.Verdicts
use dpdk_cpp.Pipeline.Context.{
  Settings, Tables, Worker, Hostnames, count_dropped, count_dropped_by_rule, counted,
}
use dpdk_cpp.Pipeline.Counters.{BurstCounters}
use dpdk_cpp.Pipeline.Dpi.{is_drop}
use dpdk_cpp.Pipeline.Forward.{
  Network, Run, drop_packet, enqueue_packet, outgoing, resolve_transmit_port,
  prepare_and_rewrite_headers, apply_forward_decision, dispatch_packet_to_worker,
  forward_classified, forward_packet,
}
use dpdk_cpp.Pipeline.Forward.Rewriting.{
  IsRewriting, IsRewritten, prepare_and_rewrite_headers-IsRewritten,
}
use mathlib.Core.Path.{subst}
use dpdk_cpp.Pipeline.Rewrite.{RteTransmit}
use dpdk_cpp.Spi.Dpdk.{RteAcl}
use dpdk_cpp.Pipeline.Forward.Fate.{
  HasRoom, drops, IsUnsendable, no_port, no_such_port, not_rewritten, IsSendable, ring_full,
  by_rule, unmatched, unsendable, with_drop, IsPlaced, freed, staged, handed_over, owned_by_table,
  ring_of,
}

abbrev fate_drops : Fates → ℕ × ℕ
fate_drops f = (f.dropped, f.dropped_by_rule)

module _ (rte : RteMbuf) (hash : RteHash) (net : Network) (s : Settings)
    (inet_pton4 : List ℕ → Option ℕ) (tx : RteTransmit rte) (ring_is_full : ℕ → Bool)
    (receive_port : ℕ) where
  abbrev Placed : PacketClassification → Run rte hash → Option rte.Mbuf → Run rte hash → Type 0
  Placed = IsPlaced rte hash net s inet_pton4 tx ring_is_full receive_port

  IsOutgoing : PacketClassification → rte.Mbuf → Option (ℕ × rte.Mbuf) → Type 0
  IsOutgoing k packet none =
      IsUnsendable rte hash net s inet_pton4 tx ring_is_full receive_port k packet
  IsOutgoing k packet (some sent) =
      IsSendable rte hash net s inet_pton4 tx ring_is_full receive_port k packet sent.1 sent.0

  outgoing-IsOutgoing :
      (k : PacketClassification) (packet : rte.Mbuf)
      → IsOutgoing k packet (outgoing rte hash s net inet_pton4 tx k receive_port packet)
  unfolding outgoing IsOutgoing IsRewritten
  outgoing-IsOutgoing k packet =
      option_cases (IsOutgoing k packet)
        (resolve_transmit_port rte hash s net inet_pton4 k receive_port) _ _ no_port
        λ port e.
          if_cases (IsOutgoing k packet) (leb net.port_count port) _ _
            (λ e'. no_such_port port e (ground arith))
            λ e'.
              option_cases (IsOutgoing k packet)
                (prepare_and_rewrite_headers rte hash s net inet_pton4 tx port packet) _ _
                (not_rewritten port e)
                λ sent e''. record {
                  resolved = e;
                  known = ground arith;
                  prepared = e'';
                  rewriting = rewriting_of port packet sent e'';
                }
    where
      rewriting_of :
          (port : ℕ) (packet sent : rte.Mbuf)
          → prepare_and_rewrite_headers rte hash s net inet_pton4 tx port packet ≡ some sent
          → IsRewriting rte tx packet sent
      rewriting_of port packet sent e =
          subst (IsRewritten rte tx packet) e
            (prepare_and_rewrite_headers-IsRewritten rte tx hash net s inet_pton4 port packet)

  enqueue_packet-IsPlaced :
      (r : Run rte hash) (packet sent : rte.Mbuf) (port : ℕ) (k : PacketClassification)
      → HasRoom rte r.places
      → k.redispatch ≡ false
      → k.matched && is_drop k.action ≡ false
      → s.drop_unmatched && not k.matched ≡ false
      → IsSendable rte hash net s inet_pton4 tx ring_is_full receive_port k packet sent port
      → Returns (Placed k r (some packet)) (enqueue_packet rte hash r port sent)
  unfolding enqueue_packet
  enqueue_packet-IsPlaced r packet sent port k room here kept wanted sendable =
      Returns-elim (Placed k r (some packet)) (leb 256 (length (r.places.transmit_buffers port))) _
        _ (λ e. absurd (ground (arith, room port)))
        λ e. staged r.worker port packet sent here kept wanted sendable refl

  send :
      (r : Run rte hash) (packet : rte.Mbuf) (k : PacketClassification)
      → HasRoom rte r.places
      → k.redispatch ≡ false
      → k.matched && is_drop k.action ≡ false
      → s.drop_unmatched && not k.matched ≡ false
      → (o : Option (ℕ × rte.Mbuf)) → IsOutgoing k packet o
      → Returns (Placed k r (some packet)) (elim o [
        | none ↦ ok (drop_packet rte hash r packet)
        | some sent ↦ enqueue_packet rte hash r sent.0 sent.1
      ])
  unfolding IsOutgoing drop_packet
  send r packet k room here kept wanted none h =
      freed (counted rte hash r.worker count_dropped) packet (unsendable here kept wanted h) refl
  send r packet k room here kept wanted (some sent) h =
      enqueue_packet-IsPlaced r packet sent.1 sent.0 k room here kept wanted h

  apply_forward_decision-IsPlaced :
      (r : Run rte hash) (packet : rte.Mbuf) (k : PacketClassification)
      → HasRoom rte r.places
      → k.redispatch ≡ false
      → Returns
          (Placed k r (some packet))
          (apply_forward_decision rte hash s net inet_pton4 tx r packet receive_port k)
  unfolding apply_forward_decision drop_packet
  apply_forward_decision-IsPlaced r packet k room here =
      Returns-elim (Placed k r (some packet)) (k.matched && is_drop k.action) _ _
        (λ e.
          freed (counted rte hash (counted rte hash r.worker count_dropped_by_rule) count_dropped)
            packet (by_rule here e) refl)
        λ kept.
          Returns-elim (Placed k r (some packet)) (s.drop_unmatched && not k.matched) _ _
            (λ e.
              freed (counted rte hash r.worker count_dropped) packet (unmatched here kept e) refl)
            λ wanted.
              send r packet k room here kept wanted
                (outgoing rte hash s net inet_pton4 tx k receive_port packet)
                (outgoing-IsOutgoing k packet)

  -- From a worker that has counted no drop on.
  IsPlaced-from :
      (k : PacketClassification) (r : Run rte hash) (w : Worker rte hash) (left : Option rte.Mbuf)
      (after : Run rte hash)
      → drops w.counters ≡ drops r.worker.counters
      → Placed k (record r { worker = w }) left after
      → Placed k r left after
  IsPlaced-from k r w _ _ e (freed w' packet why h) =
      freed w' packet why
        (h ∙ ap (with_drop rte hash net s inet_pton4 tx ring_is_full receive_port why) e)
  IsPlaced-from k r w _ _ e (staged w' port packet sent here kept wanted sendable h) =
      staged w' port packet sent here kept wanted sendable (h ∙ e)
  IsPlaced-from k r w _ _ e (handed_over w' packet there free h) =
      handed_over w' packet there free (h ∙ e)
  IsPlaced-from k r w _ _ e (owned_by_table w' h) = owned_by_table w' (h ∙ e)

  IsSettled-dropped :
      (c c' : BurstCounters) (k : PacketClassification) → IsSettled c c' k → drops c' ≡ drops c
  IsSettled-dropped c c' _ (as_matched m action h) = ap fate_drops h
  IsSettled-dropped c c' _ (as_unknown m h) = ap fate_drops h

  IsAccounted-dropped :
      (c c' : BurstCounters) (k : PacketClassification) (left : Option rte.Mbuf)
      → IsAccounted rte c c' k left
      → drops c' ≡ drops c
  IsAccounted-dropped c c' k _ (settled _ packet h) = IsSettled-dropped _ c' k h
  IsAccounted-dropped c c' _ _ (cached m action packet h) = ap fate_drops h
  IsAccounted-dropped c c' _ _ (redispatched m packet h) = ap fate_drops h
  IsAccounted-dropped c c' _ _ (Verdicts.owned_by_table h) = ap fate_drops h
  IsAccounted-dropped c c' _ _ (refused packet h) = ap fate_drops h

  module _ (acl : RteAcl) (rte_hash_crc : FlowKey → ℕ) (names : Hostnames rte) where
    dispatch_packet_to_worker-IsPlaced :
        (r : Run rte hash) (packet : rte.Mbuf) (k : PacketClassification)
        → k.redispatch ≡ true
        → Placed k r (some packet) (
            dispatch_packet_to_worker rte hash s net inet_pton4 tx acl rte_hash_crc names
              ring_is_full r packet receive_port)
    unfolding dispatch_packet_to_worker drop_packet
    dispatch_packet_to_worker-IsPlaced r packet k there =
        if_cases (Placed k r (some packet))
          (ring_is_full (ring_of rte hash net s inet_pton4 tx ring_is_full receive_port packet)) _ _
          (λ e. freed (counted rte hash r.worker count_dropped) packet (ring_full there e) refl)
          (λ e. handed_over r.worker packet there e refl)

    forward_classified-IsPlaced :
        (r : Run rte hash) (left : Option rte.Mbuf) (k : PacketClassification)
        → HasRoom rte r.places
        → Returns (Placed k r left) (
            forward_classified rte hash s net inet_pton4 tx acl rte_hash_crc names ring_is_full r
              left receive_port k)
    unfolding forward_classified
    forward_classified-IsPlaced r none k room = owned_by_table r.worker refl
    forward_classified-IsPlaced r (some packet) k room =
        Returns-elim (Placed k r (some packet)) k.redispatch _ _
          (λ e. dispatch_packet_to_worker-IsPlaced r packet k e)
          λ e. apply_forward_decision-IsPlaced r packet k room e

    -- What `ClassifyPacket` gives of a packet.
    abbrev pub classification_of :
        Tables acl
        → Run rte hash
        → rte.Mbuf
        → Classified rte hash acl rte_hash_crc × Option rte.Mbuf
    classification_of tables r packet =
        classify_packet rte hash acl rte_hash_crc names s tables r.worker packet receive_port

    -- While every staging buffer has room for one more packet, `ForwardPacket` writes nothing
    -- behind one and puts the packet that `ClassifyPacket` leaves (the reassembled one, where
    -- there is one) in exactly one place. With the mark to redispatch, it is in the ring of the
    -- worker that its flow hash selects, or freed if that ring is full. Without it, it is freed if
    -- a rule drops it, if no rule matches it where one has to, or if it cannot be sent, and else
    -- staged, with its headers rewritten, for the port that it is resolved to. It is counted as
    -- dropped exactly if it is freed, and as dropped by a rule exactly if a rule drops it. Where
    -- the fragment table has kept the packet, nothing moves.
    pub forward_packet-IsPlaced :
        (tables : Tables acl) (r : Run rte hash) (packet : rte.Mbuf)
        → HasRoom rte r.places
        → Returns
            (IsPlaced rte hash net s inet_pton4 tx ring_is_full receive_port
              (classification_of tables r packet).0.classification
              r
              (classification_of tables r packet).1)
            (forward_packet rte hash s net inet_pton4 tx acl rte_hash_crc names ring_is_full tables
              r packet receive_port)
    unfolding forward_packet
    forward_packet-IsPlaced tables r packet room =
        Returns-map (Placed k (record r { worker = w }) left) (Placed k r left) _
          (λ after. IsPlaced-from k r w left after (
            IsAccounted-dropped r.worker.counters w.counters k left (
              classify_packet-Accounts rte hash acl rte_hash_crc names s tables r.worker packet
                receive_port)))
          (forward_classified-IsPlaced (record r { worker = w }) left k room)
      where
        w : Worker rte hash
        w = (classification_of tables r packet).0.worker

        k : PacketClassification
        k = (classification_of tables r packet).0.classification

        left : Option rte.Mbuf
        left = (classification_of tables r packet).1
