-- ===== src/Tcp/Fidelity.antt =====
-- The reassembled bytes are the sender's: `AddSegment` against the stream of Content.
use dpdk_cpp.Base.{
  ℕ, suc, ◌+◌, ◌-◌, ◌%◌, ◌^◌, ◌≤◌, ◌<◌, ◌≡◌, refl, sym, ap, ◌∙◌, false, List, [], ◌∷◌, arith,
  length, drop, All-append, length-append, length-drop, Bool-cases, inl, inr,
}
use dpdk_cpp.Tcp.Content.{
  slice, slice-add, drop-slice, Carries, HoldsStream, Queued, Follows, add32-injective, gap,
  sequence_distance-add32,
}
use dpdk_cpp.Tcp.Direction.{
  TcpReassemblyConfig, PendingSegment, DirectionState, Buffer, queue_pending, append, absorb, drain,
  append_and_drain, add_overlapping, add_at, add_segment, start_at, ends_by, is_stream_start,
}
use dpdk_cpp.Tcp.Direction.Drain.{drain_inv}
use dpdk_cpp.Tcp.Direction.Queue.{Takes, All-Takes, queue_pending-cases, add_overlapping-cases}
use dpdk_cpp.Tcp.Sequence.{Distance, same, ahead, behind, add32, sequence_distance, seq_mod}

module _ (s : ℕ → ℕ) (isn : ℕ) where
  abbrev Live : DirectionState → Type 0
  Live d = Queued s isn d.pending × HoldsStream s isn d

  add32-add32 : (k n : ℕ) → add32 (add32 isn k) n ≡ add32 isn (k + n)
  add32-add32 k n = omega arith

  -- Bytes that follow those held already.
  append-HoldsStream :
      (d : DirectionState) (payload : List ℕ)
      → HoldsStream s isn d
      → Carries s isn d.next_sequence payload
      → HoldsStream s isn (append d d.next_sequence payload)
  append-HoldsStream d payload v c = record {
    known = v.known;
    first = v.first;
    base = v.base;
    next =
        rw (v.next, length-append d.contiguous payload)
          (omega (arith, add32-add32 (v.first + length d.contiguous) (length payload)));
    limit = rw (length-append d.contiguous payload) (omega (arith, here, c.limit));
    bytes =
        rw (length-append d.contiguous payload, slice-add) (ground (arith, v.bytes, c.bytes, here));
  }
    where
      here : c.position ≡ v.first + length d.contiguous
      here =
          add32-injective isn c.position (v.first + length d.contiguous) (omega (arith, c.limit))
            v.limit (sym c.at_position ∙ v.next)

  absorb-Live :
      (d : DirectionState) (q : PendingSegment) (rest : List PendingSegment)
      → Takes d.next_sequence d.pending q rest
      → Live d
      → Live (absorb d q rest)
  absorb-Live d q rest t v =
      let parts : Carries s isn q.sequence q.payload × Queued s isn rest = All-Takes t _ v.0 in
      let c : Carries s isn d.next_sequence q.payload = rw t.starts at parts.0 in
      let grown : HoldsStream s isn (append d d.next_sequence q.payload) =
        append-HoldsStream d q.payload v.1 c in
      (
        parts.1,
        record {
          known = grown.known;
          first = grown.first;
          base = grown.base;
          next = grown.next;
          limit = grown.limit;
          bytes = grown.bytes;
        },
      )

  append_and_drain-Live :
      (config : TcpReassemblyConfig) (b : Buffer) (payload : List ℕ)
      → Live b.direction
      → Carries s isn b.next_sequence payload
      → Live (append_and_drain config b b.next_sequence payload).0.direction
  unfolding append_and_drain
  append_and_drain-Live config b payload v c = ground (arith, drained)
    where
      grown : HoldsStream s isn (append b.direction b.next_sequence payload)
      grown = append-HoldsStream b.direction payload v.1 c

      drained :
          Live
            (drain (suc (length b.pending)) config (append b.direction b.next_sequence payload)).0
      drained =
          drain_inv config Live (λ d q rest t fits h. absorb-Live d q rest t h)
            (suc (length b.pending)) (append b.direction b.next_sequence payload)
            (
              v.0,
              record {
                known = grown.known;
                first = grown.first;
                base = grown.base;
                next = grown.next;
                limit = grown.limit;
                bytes = grown.bytes;
              },
            )

  queue_pending-Queued :
      (config : TcpReassemblyConfig) (b : Buffer) (sequence : ℕ) (payload : List ℕ)
      → Queued s isn b.pending
      → Carries s isn sequence payload
      → Queued s isn (queue_pending config b sequence payload).0.pending
  queue_pending-Queued config b sequence payload q c =
      elim (queue_pending-cases config b sequence payload) [
        | inl e ↦ rw e q
        | inr e ↦ rw e (
            All-append (λ (p : PendingSegment). Carries s isn p.sequence p.payload) b.pending
              (record { sequence = sequence; payload = payload } ∷ []) q (c, tt))
      ]

  -- Nothing but the queue changes.
  queue_pending-HoldsStream :
      (config : TcpReassemblyConfig) (b : Buffer) (sequence : ℕ) (payload : List ℕ)
      → HoldsStream s isn b.direction
      → HoldsStream s isn (queue_pending config b sequence payload).0.direction
  unfolding queue_pending
  queue_pending-HoldsStream config b sequence payload v = ground arith

  queue_pending-unstarted :
      (config : TcpReassemblyConfig) (b : Buffer) (sequence : ℕ) (payload : List ℕ)
      → b.base_known ≡ false
      → b.contiguous ≡ []
      → ((queue_pending config b sequence payload).0.base_known ≡ false)
        × ((queue_pending config b sequence payload).0.contiguous ≡ [])
  unfolding queue_pending
  queue_pending-unstarted config b sequence payload u e = ground arith

  drop-Carries :
      (k m : ℕ) (payload : List ℕ)
      → k ≤ m
      → m ≤ k + length payload
      → k + length payload < 2 ^ 31
      → payload ≡ slice s k (length payload)
      → Carries s isn (add32 isn m) (drop (m - k) payload)
  drop-Carries k m payload le fits limit e = record {
    position = m;
    at_position = refl;
    limit = omega (arith, length-drop (m - k) payload);
    bytes =
        let e' : k + (m - k) ≡ m = omega arith in
        ap (drop (m - k)) e
        ∙ drop-slice s (m - k) k (length payload)
        ∙ rw (length-drop (m - k) payload, e');
  }

  -- What the two distances of an overlapping segment say of its position.
  overlap-positions :
      (d : DirectionState) (sequence : ℕ) (payload : List ℕ) (trim : ℕ)
      → (v : HoldsStream s isn d) (c : Carries s isn sequence payload)
      → sequence_distance sequence d.next_sequence ≡ behind trim
      → ends_by (sequence_distance (add32 sequence (length payload)) d.next_sequence) ≡ false
      → (trim ≡ v.first + length d.contiguous - c.position)
        × (c.position < v.first + length d.contiguous)
        × (v.first + length d.contiguous < c.position + length payload)
  unfolding ends_by
  overlap-positions d sequence payload trim v c e after = ground (arith, at_start, at_end)
    where
      m : ℕ
      m = v.first + length d.contiguous

      at_start : gap c.position m ≡ behind trim
      at_start =
          sym (sequence_distance-add32 isn c.position m (omega (arith, c.limit)) v.limit)
          ∙ rw (← c.at_position, ← v.next) e

      at_end : ends_by (gap (c.position + length payload) m) ≡ false
      at_end =
          rw
            (
              ← sequence_distance-add32 isn (c.position + length payload) m c.limit v.limit,
              ← add32-add32 c.position (length payload),
              ← c.at_position,
              ← v.next,
            )
            after

  overlapping-Live :
      (config : TcpReassemblyConfig) (b : Buffer) (sequence : ℕ) (payload : List ℕ) (trim : ℕ)
      → Live b.direction
      → Carries s isn sequence payload
      → sequence_distance sequence b.next_sequence ≡ behind trim
      → Live (add_overlapping config b sequence payload trim).0.direction
  overlapping-Live config b sequence payload trim v c e =
      elim (add_overlapping-cases config b sequence payload trim) [
        | inl kept ↦ rw kept v
        | inr (after, grown) ↦
            let (size, low, high) =
              overlap-positions b.direction sequence payload trim v.1 c e after in
            rw (grown, size)
              (append_and_drain-Live config b _ v (
                rw v.1.next (
                  drop-Carries c.position (v.1.first + length b.contiguous) payload (omega arith)
                    (omega arith) c.limit c.bytes)))
      ]

  same-position :
      (d : DirectionState) (sequence : ℕ) (payload : List ℕ)
      → (v : HoldsStream s isn d) (c : Carries s isn sequence payload)
      → sequence_distance sequence d.next_sequence ≡ same
      → sequence ≡ d.next_sequence
  same-position d sequence payload v c e = ground (arith, v.next, c.at_position, at_start)
    where
      m : ℕ
      m = v.first + length d.contiguous

      at_start : gap c.position m ≡ same
      at_start =
          sym (sequence_distance-add32 isn c.position m (omega (arith, c.limit)) v.limit)
          ∙ rw (← c.at_position, ← v.next) e

  add_at-Live :
      (config : TcpReassemblyConfig) (b : Buffer) (sequence : ℕ) (payload : List ℕ) (d : Distance)
      → Live b.direction
      → Carries s isn sequence payload
      → sequence_distance sequence b.next_sequence ≡ d
      → Live (add_at config b sequence payload d).0.direction
  unfolding add_at
  add_at-Live config b sequence payload same v c e =
      let here : sequence ≡ b.next_sequence = same-position b.direction sequence payload v.1 c e in
      rw here (append_and_drain-Live config b payload v (rw here at c))
  add_at-Live config b sequence payload (ahead n) v c e = (
    queue_pending-Queued config b sequence payload v.0 c,
    queue_pending-HoldsStream config b sequence payload v.1,
  )
  add_at-Live config b sequence payload (behind trim) v c e =
      overlapping-Live config b sequence payload trim v c e

  start_at-Live :
      (b : Buffer) (sequence : ℕ) (payload : List ℕ)
      → Queued s isn b.pending
      → b.contiguous ≡ []
      → Carries s isn sequence payload
      → Live (start_at b sequence).direction
  start_at-Live b sequence payload q e c = (
    q,
    record {
      known = refl;
      first = c.position;
      base = c.at_position;
      next = rw e (omega (arith, c.limit, c.at_position, at_zero));
      limit = rw e (omega (arith, c.limit));
      bytes = rw e refl;
    },
  )
    where
      at_zero : sequence % seq_mod ≡ sequence
      at_zero = omega (arith, c.at_position)

  of_Live : {d : DirectionState} → Live d → Follows s isn d
  of_Live v = record { queued = v.0; state = inl v.1 }

-- Take any stream of bytes and any initial sequence number. If a direction follows that stream, and
-- a segment carries bytes of the stream at its sequence number, then the direction follows the stream
-- after `AddSegment`, on every branch: its contiguous bytes are those of the stream from the base
-- sequence number on, its next sequence number is that of the byte behind them, and every queued
-- segment carries bytes of the stream. Positions are below 2 ^ 31, sequence numbers may wrap.
pub add_segment-Follows :
    (s : ℕ → ℕ) (isn : ℕ) (config : TcpReassemblyConfig) (b : Buffer) (sequence : ℕ)
    (payload : List ℕ)
    → Follows s isn b.direction
    → Carries s isn sequence payload
    → Follows s isn (add_segment config b sequence payload).0.direction
unfolding add_segment
add_segment-Follows s isn config b sequence [] f c = f
add_segment-Follows s isn config b sequence (x ∷ xs) f c = elim f.state [
  | inl v ↦ simp v.known (
      of_Live s isn (
        add_at-Live s isn config b sequence (x ∷ xs) (sequence_distance sequence b.next_sequence)
          (f.queued, v) c refl))
  | inr (unknown, empty) ↦ simp unknown (elim (Bool-cases (is_stream_start (x ∷ xs))) [
    | inl starts ↦ simp starts (
        of_Live s isn (
          add_at-Live s isn config (start_at b sequence) sequence (x ∷ xs)
            (sequence_distance sequence sequence)
            (start_at-Live s isn b sequence (x ∷ xs) f.queued empty c) c refl))
    | inr other ↦ simp other (record {
      queued = queue_pending-Queued s isn config b sequence (x ∷ xs) f.queued c;
      state = inr (queue_pending-unstarted s isn config b sequence (x ∷ xs) unknown empty);
    })
  ])
]
