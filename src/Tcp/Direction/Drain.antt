-- ===== src/Tcp/Direction/Drain.antt =====
-- The draining loop of `AppendAndDrain`: an invariant rule, and that the rounds are enough.
use dpdk_cpp.Base.{
  ℕ, zero, suc, ◌+◌, ◌≤◌, ◌<◌, ◌≡◌, List, none, arith, ltb, length, Option-cases, Bool-cases, inl,
  inr,
}
use dpdk_cpp.Tcp.Direction.{
  TcpReassemblyConfig, ready, PendingSegment, DirectionState, take_pending, absorb, drain,
}
use dpdk_cpp.Tcp.Direction.Queue.{Takes, take_pending-Takes, length-Takes}

-- A property that taking in a fitting segment keeps holds when the loop ends.
module _ {κ} (config : TcpReassemblyConfig) (P : DirectionState → Type κ)
    (keep : (d : DirectionState) (q : PendingSegment) (rest : List PendingSegment)
      → Takes d.next_sequence d.pending q rest
      → length d.contiguous + length q.payload ≤ config.max_buffered_bytes_per_direction
      → P d
      → P (absorb d q rest)) where
  pub drain_inv : (fuel : ℕ) (d : DirectionState) → P d → P (drain fuel config d).0
  unfolding drain
  drain_inv zero d h = h
  drain_inv (suc fuel) d h = elim (Option-cases (take_pending d.next_sequence d.pending)) [
    | inl e ↦ rw (e, drain) h
    | inr (a, e) ↦
        elim (Bool-cases (
          ltb config.max_buffered_bytes_per_direction (length d.contiguous + length a.0.payload))) [
            | inl over ↦ rw (e, drain, over) h
            | inr fits ↦
                rw (e, drain, fits)
                  (drain_inv fuel (absorb d a.0 a.1) (
                    keep d a.0 a.1 (take_pending-Takes d.next_sequence d.pending e) (ground arith)
                      h))
          ]
  ]

-- With more rounds than queued segments the loop ends by its own test.
pub drain_complete :
    (fuel : ℕ) (config : TcpReassemblyConfig) (d : DirectionState)
    → length d.pending < fuel
    → (drain fuel config d).1 ≡ ready
    → take_pending (drain fuel config d).0.next_sequence (drain fuel config d).0.pending ≡ none
unfolding drain
drain_complete zero config d lt r = absurd (omega arith)
drain_complete (suc fuel) config d lt r =
    elim (Option-cases (take_pending d.next_sequence d.pending)) [
      | inl e ↦ ground arith
      | inr (a, e) ↦
          elim (Bool-cases (
            ltb config.max_buffered_bytes_per_direction
              (length d.contiguous + length a.0.payload))) [
                | inl over ↦ absurd (ground arith)
                | inr fits ↦ ground (
                  arith,
                  length-Takes (take_pending-Takes d.next_sequence d.pending e),
                  drain_complete fuel config (absorb d a.0 a.1),
                )
              ]
    ]
