-- ===== src/Tcp/Direction/Queue.antt =====
-- The queue of out-of-order segments: what `take_pending` and `find_pending` find.
use dpdk_cpp.Base.{
  false, drop, ◌⊎◌, ℕ, suc, ◌+◌, ◌≡◌, List, [], ◌∷◌, ◌++◌, some, arith, ◌==◌, length, length-append,
  Option-cases, Bool-cases, inl, inr, All, All-append, All-append_left, All-append_right,
}
use dpdk_cpp.Tcp.Direction.{
  TcpReassemblyConfig, Buffer, PendingSegment, take_pending, pending_bytes, queue_pending,
  append_and_drain, add_overlapping, ends_by,
}
use dpdk_cpp.Tcp.Sequence.{sequence_distance, add32}

-- The taken segment starts at `next`, and the rest is the queue without it.
pub record Takes (next : ℕ) (ps : List PendingSegment) (q : PendingSegment)
    (rest : List PendingSegment) : Type 0 where
  pub before : List PendingSegment
  pub after : List PendingSegment
  pub queue : ps ≡ before ++ q ∷ after
  pub others : rest ≡ before ++ after
  pub starts : q.sequence ≡ next

pub take_pending-Takes :
    (next : ℕ) (ps : List PendingSegment) {q : PendingSegment} {rest : List PendingSegment}
    → take_pending next ps ≡ some (q, rest)
    → Takes next ps q rest
unfolding take_pending
take_pending-Takes next [] h = cc
take_pending-Takes next (p ∷ ps) {q} {rest} h = elim (Bool-cases (p.sequence == next)) [
  | inl hit ↦ record {
    before = [];
    after = ps;
    queue = ground arith;
    others = ground arith;
    starts = ground arith;
  }
  | inr miss ↦ elim (Option-cases (take_pending next ps)) [
    | inl e ↦ absurd (ground arith)
    | inr (a, e) ↦
        let t : Takes next ps a.0 a.1 = take_pending-Takes next ps e in
        record {
          before = p ∷ t.before;
          after = t.after;
          queue = ground arith;
          others = ground arith;
          starts = ground arith;
        }
  ]
]

pending_bytes-append :
    (ps qs : List PendingSegment) → pending_bytes (ps ++ qs) ≡ pending_bytes ps + pending_bytes qs
pending_bytes-append [] qs = omega arith
pending_bytes-append (p ∷ ps) qs = omega (arith, pending_bytes-append ps qs)

pub pending_bytes-concat :
    (ps : List PendingSegment) (q : PendingSegment)
    → pending_bytes (ps ++ q ∷ []) ≡ pending_bytes ps + length q.payload
pending_bytes-concat ps q = omega (arith, pending_bytes-append ps (q ∷ []))

module _ {next : ℕ} {ps : List PendingSegment} {q : PendingSegment} {rest : List PendingSegment}
    (t : Takes next ps q rest) where
  pub length-Takes : length ps ≡ suc (length rest)
  length-Takes =
      rw (t.queue, t.others)
        (omega (arith, length-append t.before (q ∷ t.after), length-append t.before t.after))

  pub pending_bytes-Takes : pending_bytes ps ≡ length q.payload + pending_bytes rest
  pending_bytes-Takes =
      rw (t.queue, t.others)
        (omega (
          arith,
          pending_bytes-append t.before (q ∷ t.after),
          pending_bytes-append t.before t.after,
        ))

  pub All-Takes {κ} : (P : PendingSegment → Type κ) → All P ps → P q × All P rest
  All-Takes P h =
      let split : All P (t.before ++ q ∷ t.after) = rw t.queue at h in
      let back : All P (q ∷ t.after) = All-append_right P t.before (q ∷ t.after) split in
      let front : All P t.before = All-append_left P t.before (q ∷ t.after) split in
      (back.0, rw t.others (All-append P t.before t.after front back.1))

abbrev pub enqueue : Buffer → ℕ → List ℕ → Buffer
enqueue b sequence payload = record {
  direction = record (b.direction) {
    pending = b.pending ++ record { sequence = sequence; payload = payload } ∷ [];
  };
  buffered_bytes = b.buffered_bytes + length payload;
}

pub queue_pending-cases :
    (config : TcpReassemblyConfig) (b : Buffer) (sequence : ℕ) (payload : List ℕ)
    → ((queue_pending config b sequence payload).0 ≡ b)
      ⊎ ((queue_pending config b sequence payload).0 ≡ enqueue b sequence payload)
unfolding queue_pending
queue_pending-cases config b sequence payload = ground arith

pub add_overlapping-cases :
    (config : TcpReassemblyConfig) (b : Buffer) (sequence : ℕ) (payload : List ℕ) (trim : ℕ)
    → ((add_overlapping config b sequence payload trim).0 ≡ b)
      ⊎ ((ends_by (sequence_distance (add32 sequence (length payload)) b.next_sequence) ≡ false)
          × (add_overlapping config b sequence payload trim
              ≡ append_and_drain config b b.next_sequence (drop trim payload)))
unfolding add_overlapping
add_overlapping-cases config b sequence payload trim = ground arith
