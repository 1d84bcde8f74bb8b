-- ===== src/Tcp/Direction/Progress.antt =====
-- What `AddSegment` leaves: the bytes already held stay, and nothing deliverable stays queued.
use dpdk_cpp.Base.{
  ℕ, suc, ◌+◌, ◌≡◌, refl, sym, List, [], ◌∷◌, ◌++◌, none, arith, length, drop, Bool-cases, not,
  ◌||◌, ltb, inl, inr,
}
use mathlib.Core.List.{append-nil, append_assoc}
use dpdk_cpp.Tcp.Direction.{
  TcpReassemblyConfig, ready, DirectionState, Buffer, queue_pending, append, take_pending, drain,
  append_and_drain, add_at, add_segment, start_at, has_capacity, is_stream_start,
}
use dpdk_cpp.Tcp.Direction.Drain.{drain_inv, drain_complete}
use dpdk_cpp.Tcp.Direction.Queue.{queue_pending-cases, add_overlapping-cases}
use dpdk_cpp.Tcp.Sequence.{Distance, same, ahead, behind, sequence_distance}

abbrev pub Extends : List ℕ → DirectionState → Type 0
Extends held d = (more : List ℕ) × (d.contiguous ≡ held ++ more)

drain-Extends :
    (config : TcpReassemblyConfig) (held : List ℕ) (fuel : ℕ) (d : DirectionState)
    → Extends held d
    → Extends held (drain fuel config d).0
drain-Extends config held fuel d =
    drain_inv config (Extends held)
      (λ e q rest t fits h. (h.0 ++ q.payload, rw h.1 (append_assoc held h.0 q.payload))) fuel d

unchanged : (d : DirectionState) → Extends d.contiguous d
unchanged d = ([], sym (append-nil d.contiguous))

append_and_drain-Extends :
    (config : TcpReassemblyConfig) (b : Buffer) (sequence : ℕ) (payload : List ℕ)
    → Extends b.contiguous (append_and_drain config b sequence payload).0.direction
unfolding append_and_drain
append_and_drain-Extends config b sequence payload =
    elim (Bool-cases (
      not (has_capacity config b.buffered_bytes (length payload))
      || ltb config.max_buffered_bytes_per_direction (length b.contiguous + length payload))) [
        | inl refused ↦ simp refused (unchanged b.direction)
        | inr fits ↦ simp fits (
            drain-Extends config b.contiguous (suc (length b.pending))
              (append b.direction sequence payload) (payload, refl))
      ]

queue_pending-Extends :
    (config : TcpReassemblyConfig) (b : Buffer) (sequence : ℕ) (payload : List ℕ)
    → Extends b.contiguous (queue_pending config b sequence payload).0.direction
queue_pending-Extends config b sequence payload =
    elim (queue_pending-cases config b sequence payload) [
      | inl e ↦ rw e (unchanged b.direction)
      | inr e ↦ rw e (unchanged b.direction)
    ]

add_at-Extends :
    (config : TcpReassemblyConfig) (b : Buffer) (sequence : ℕ) (payload : List ℕ) (d : Distance)
    → Extends b.contiguous (add_at config b sequence payload d).0.direction
unfolding add_at
add_at-Extends config b sequence payload same = append_and_drain-Extends config b sequence payload
add_at-Extends config b sequence payload (ahead n) = queue_pending-Extends config b sequence payload
add_at-Extends config b sequence payload (behind trim) =
    elim (add_overlapping-cases config b sequence payload trim) [
      | inl e ↦ rw e (unchanged b.direction)
      | inr (_, e) ↦ rw e (append_and_drain-Extends config b b.next_sequence (drop trim payload))
    ]

-- For every segment and every outcome: the contiguous bytes after `AddSegment` are those before it,
-- with none or more bytes behind them.
pub add_segment-Extends :
    (config : TcpReassemblyConfig) (b : Buffer) (sequence : ℕ) (payload : List ℕ)
    → Extends b.contiguous (add_segment config b sequence payload).0.direction
unfolding add_segment
add_segment-Extends config b sequence [] = unchanged b.direction
add_segment-Extends config b sequence (x ∷ xs) = elim (Bool-cases b.base_known) [
  | inl known ↦
      simp known
        (add_at-Extends config b sequence (x ∷ xs) (sequence_distance sequence b.next_sequence))
  | inr unknown ↦ simp unknown (elim (Bool-cases (is_stream_start (x ∷ xs))) [
    | inl starts ↦ simp starts (
        add_at-Extends config (start_at b sequence) sequence (x ∷ xs)
          (sequence_distance sequence sequence))
    | inr other ↦ simp other (queue_pending-Extends config b sequence (x ∷ xs))
  ])
]

-- When appending a segment reports that bytes are ready, no queued segment starts at the next
-- sequence number: the loop over the queue ended by its own test.
pub append_and_drain_complete :
    (config : TcpReassemblyConfig) (b : Buffer) (sequence : ℕ) (payload : List ℕ)
    → (append_and_drain config b sequence payload).1 ≡ ready
    → take_pending
        (append_and_drain config b sequence payload).0.next_sequence
        (append_and_drain config b sequence payload).0.pending
      ≡ none
unfolding append_and_drain
append_and_drain_complete config b sequence payload r =
    ground
      (arith, drain_complete (suc (length b.pending)) config (append b.direction sequence payload))
