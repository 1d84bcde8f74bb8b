-- ===== src/Tcp/Direction/Bounds.antt =====
-- Limits and accounting of one direction: what `AddSegment` keeps within the configured bounds.
use dpdk_cpp.Base.{ℕ, suc, ◌+◌, ◌≤◌, ◌≡◌, refl, List, [], ◌∷◌, arith, length, drop, length-append}
use dpdk_cpp.Tcp.Direction.{
  TcpReassemblyConfig, DirectionState, Buffer, memory_budget_bytes, direction_bytes, queue_pending,
  append, drain, append_and_drain, add_at, add_segment, start_at,
}
use dpdk_cpp.Tcp.Direction.Drain.{drain_inv}
use dpdk_cpp.Tcp.Sequence.{Distance, same, ahead, behind, sequence_distance}
use dpdk_cpp.Tcp.Direction.Queue.{length-Takes, pending_bytes-Takes, pending_bytes-concat}

-- The configured limits on one direction and on the whole reassembler.
pub record IsWithin (config : TcpReassemblyConfig) (b : Buffer) : Type 0 where
  pub contiguous : length b.contiguous ≤ config.max_buffered_bytes_per_direction
  pub pending : length b.pending ≤ config.max_out_of_order_segments
  pub budget : b.buffered_bytes ≤ memory_budget_bytes config

-- What the direction holds and what the reassembler accounts for, both grown by one amount.
abbrev pub SameGrowth : Buffer → Buffer → Type 0
SameGrowth b c =
    c.buffered_bytes + direction_bytes b.direction ≡ b.buffered_bytes + direction_bytes c.direction

drain_bytes :
    (config : TcpReassemblyConfig) (fuel : ℕ) (d : DirectionState)
    → direction_bytes (drain fuel config d).0 ≡ direction_bytes d
drain_bytes config fuel d =
    drain_inv config (λ e. direction_bytes e ≡ direction_bytes d)
      (λ e q rest t fits h.
        omega (arith, h, pending_bytes-Takes t, length-append e.contiguous q.payload))
      fuel d refl

abbrev Holds : TcpReassemblyConfig → ℕ → DirectionState → Type 0
Holds config n d =
    (length d.contiguous ≤ config.max_buffered_bytes_per_direction) × (length d.pending ≤ n)

drain-Holds :
    (config : TcpReassemblyConfig) (n fuel : ℕ) (d : DirectionState)
    → Holds config n d
    → Holds config n (drain fuel config d).0
drain-Holds config n fuel d =
    drain_inv config (Holds config n)
      (λ e q rest t fits h. omega (arith, length-Takes t, length-append e.contiguous q.payload))
      fuel d

module _ (config : TcpReassemblyConfig) (b : Buffer) (sequence : ℕ) (payload : List ℕ) where
  queue_pending-SameGrowth : SameGrowth b (queue_pending config b sequence payload).0
  unfolding queue_pending
  queue_pending-SameGrowth =
      ground
        (arith, pending_bytes-concat b.pending (record { sequence = sequence; payload = payload }))

  append_and_drain-SameGrowth : SameGrowth b (append_and_drain config b sequence payload).0
  unfolding append_and_drain
  append_and_drain-SameGrowth = ground (
    arith,
    drain_bytes config (suc (length b.pending)) (append b.direction sequence payload),
    length-append b.contiguous payload,
  )

  queue_pending-IsWithin :
      IsWithin config b → IsWithin config (queue_pending config b sequence payload).0
  unfolding queue_pending
  queue_pending-IsWithin v =
      ground
        (arith, length-append b.pending (record { sequence = sequence; payload = payload } ∷ []))

  append_and_drain-IsWithin :
      IsWithin config b → IsWithin config (append_and_drain config b sequence payload).0
  unfolding append_and_drain
  append_and_drain-IsWithin v = ground (
    arith,
    drain-Holds config config.max_out_of_order_segments (suc (length b.pending))
        (append b.direction sequence payload),
    length-append b.contiguous payload,
  )

add_at-SameGrowth :
    (config : TcpReassemblyConfig) (b : Buffer) (sequence : ℕ) (payload : List ℕ) (d : Distance)
    → SameGrowth b (add_at config b sequence payload d).0
unfolding add_at
add_at-SameGrowth config b sequence payload same =
    append_and_drain-SameGrowth config b sequence payload
add_at-SameGrowth config b sequence payload (ahead n) =
    queue_pending-SameGrowth config b sequence payload
add_at-SameGrowth config b sequence payload (behind trim) =
    ground (arith, append_and_drain-SameGrowth config b b.next_sequence (drop trim payload))

add_at-IsWithin :
    (config : TcpReassemblyConfig) (b : Buffer) (sequence : ℕ) (payload : List ℕ) (d : Distance)
    → IsWithin config b
    → IsWithin config (add_at config b sequence payload d).0
unfolding add_at
add_at-IsWithin config b sequence payload same = append_and_drain-IsWithin config b sequence payload
add_at-IsWithin config b sequence payload (ahead n) =
    queue_pending-IsWithin config b sequence payload
add_at-IsWithin config b sequence payload (behind trim) =
    λ v. ground (arith, append_and_drain-IsWithin config b b.next_sequence (drop trim payload))

pub add_segment-SameGrowth :
    (config : TcpReassemblyConfig) (b : Buffer) (sequence : ℕ) (payload : List ℕ)
    → SameGrowth b (add_segment config b sequence payload).0
unfolding add_segment
add_segment-SameGrowth config b sequence [] = refl
add_segment-SameGrowth config b sequence (x ∷ xs) = ground (
  arith,
  queue_pending-SameGrowth config b sequence (x ∷ xs),
  add_at-SameGrowth config b sequence (x ∷ xs) (sequence_distance sequence b.next_sequence),
  add_at-SameGrowth config (start_at b sequence) sequence (x ∷ xs)
      (sequence_distance sequence sequence),
)

-- For every segment, on every branch and error of `AddSegment`: a direction within the configured
-- limits stays within them, and so does the total of buffered bytes.
pub add_segment-IsWithin :
    (config : TcpReassemblyConfig) (b : Buffer) (sequence : ℕ) (payload : List ℕ)
    → IsWithin config b
    → IsWithin config (add_segment config b sequence payload).0
unfolding add_segment
add_segment-IsWithin config b sequence [] v = v
add_segment-IsWithin config b sequence (x ∷ xs) v = ground (
  arith,
  queue_pending-IsWithin config b sequence (x ∷ xs),
  add_at-IsWithin config b sequence (x ∷ xs) (sequence_distance sequence b.next_sequence),
  add_at-IsWithin config (start_at b sequence) sequence (x ∷ xs)
      (sequence_distance sequence sequence),
)
