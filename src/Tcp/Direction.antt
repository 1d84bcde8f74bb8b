-- ===== src/Tcp/Direction.antt =====
-- One direction of a TCP stream: `AddSegment` of include/dpdk/spi/spi_tcp_reassembly.cpp and what it
-- calls. `buffered_bytes_`, which these methods read and raise, is passed along with the direction.
pub mod Queue
pub mod Drain
pub mod Bounds
pub mod Progress
use dpdk_cpp.Base.{
  ℕ, zero, suc, ◌+◌, ◌-◌, ◌*◌, Bool, true, false, not, ◌&&◌, ◌||◌, List, [], ◌∷◌, ◌++◌, Option,
  none, some, min, ltb, leb, ◌==◌, if◌then◌else◌, length, get_or, take, drop, list_eq,
}
use dpdk_cpp.Tcp.Sequence.{Distance, same, ahead, behind, add32, sequence_distance}

pub record TcpReassemblyConfig : Type 0 where
  pub enabled : Bool
  pub idle_timeout_sec : ℕ
  pub max_concurrent_streams : ℕ
  pub max_buffered_bytes_per_direction : ℕ
  pub max_out_of_order_segments : ℕ
  pub memory_budget_mb : ℕ
  pub drop_conflicting_overlap : Bool

pub data Status : Type 0 where
  disabled waiting ready conflicting_overlap resource_limit : Status

pub record PendingSegment : Type 0 where
  pub sequence : ℕ
  pub payload : List ℕ

pub record DirectionState : Type 0 where
  pub base_known : Bool
  pub base_sequence : ℕ
  pub next_sequence : ℕ
  pub contiguous : List ℕ
  pub pending : List PendingSegment

-- A direction, and the reassembler's `buffered_bytes_`.
pub record Buffer : Type 0 where
  pub direction : DirectionState
  pub open direction use *
  pub buffered_bytes : ℕ

abbrev pub bytes_per_mib : ℕ
bytes_per_mib = 1024 * 1024

abbrev pub memory_budget_bytes : TcpReassemblyConfig → ℕ
memory_budget_bytes config = config.memory_budget_mb * bytes_per_mib

unfoldable pub has_capacity : TcpReassemblyConfig → ℕ → ℕ → Bool
has_capacity config buffered additional =
    leb additional (memory_budget_bytes config - min (memory_budget_bytes config) buffered)

starts_with : List ℕ → List ℕ → Bool
starts_with method payload =
    leb (length method) (length payload) && list_eq method (take (length method) payload)

abbrev pub pending_bytes : List PendingSegment → ℕ
pending_bytes [] = 0
pending_bytes (p ∷ rest) = length p.payload + pending_bytes rest

-- One direction's part of `StateBytes`.
abbrev pub direction_bytes : DirectionState → ℕ
direction_bytes d = length d.contiguous + pending_bytes d.pending

-- "GET ", "POST ", "PUT ", "HEAD ", "DELETE ", "OPTIONS " and "PATCH ".
abbrev methods : List (List ℕ)
methods =
    (b'G' ∷ b'E' ∷ b'T' ∷ b' ' ∷ [])
    ∷ (b'P' ∷ b'O' ∷ b'S' ∷ b'T' ∷ b' ' ∷ [])
    ∷ (b'P' ∷ b'U' ∷ b'T' ∷ b' ' ∷ [])
    ∷ (b'H' ∷ b'E' ∷ b'A' ∷ b'D' ∷ b' ' ∷ [])
    ∷ (b'D' ∷ b'E' ∷ b'L' ∷ b'E' ∷ b'T' ∷ b'E' ∷ b' ' ∷ [])
    ∷ (b'O' ∷ b'P' ∷ b'T' ∷ b'I' ∷ b'O' ∷ b'N' ∷ b'S' ∷ b' ' ∷ [])
    ∷ (b'P' ∷ b'A' ∷ b'T' ∷ b'C' ∷ b'H' ∷ b' ' ∷ [])
    ∷ []

any_method : List (List ℕ) → List ℕ → Bool
unfolding starts_with
any_method [] payload = false
any_method (method ∷ rest) payload = starts_with method payload || any_method rest payload

-- A TLS ClientHello record or an HTTP request method.
unfoldable pub is_stream_start : List ℕ → Bool
unfolding any_method list_eq
is_stream_start payload =
    leb 6 (length payload)
      && get_or payload 0 0 == 0x16
      && get_or payload 1 0 == 0x03
      && get_or payload 5 0 == 0x01
    || any_method methods payload

abbrev reject_overlap : TcpReassemblyConfig → Status
reject_overlap config = if config.drop_conflicting_overlap then conflicting_overlap else waiting

-- `VerifyOverlap` from the offset of the segment on.
overlap_at : TcpReassemblyConfig → DirectionState → ℕ → List ℕ → Status
overlap_at config d begin payload =
    if leb (length d.contiguous) begin
    then waiting
    else if not (list_eq (take overlap payload) (take overlap (drop begin d.contiguous)))
    then reject_overlap config
    else waiting
  where
    overlap : ℕ
    overlap = min (length payload) (length d.contiguous - begin)

unfoldable pub verify_overlap : TcpReassemblyConfig → DirectionState → ℕ → List ℕ → Status
unfolding overlap_at
verify_overlap config d sequence payload = elim (sequence_distance sequence d.base_sequence) [
  | behind _ ↦ reject_overlap config
  | same ↦ overlap_at config d 0 payload
  | ahead begin ↦ overlap_at config d begin payload
]

-- The loop of `QueuePending` over the queued segments.
unfoldable pub find_pending : ℕ → List PendingSegment → Option PendingSegment
find_pending sequence [] = none
find_pending sequence (p ∷ rest) =
    if p.sequence == sequence then some p else find_pending sequence rest

unfoldable pub queue_pending : TcpReassemblyConfig → Buffer → ℕ → List ℕ → Buffer × Status
unfolding has_capacity
queue_pending config b sequence payload =
    if leb config.max_out_of_order_segments (length b.pending)
      || not (has_capacity config b.buffered_bytes (length payload))
    then (b, resource_limit)
    else elim (find_pending sequence b.pending) [
      | some p ↦ (b, if list_eq p.payload payload then waiting else conflicting_overlap)
      | none ↦ (
        record {
          direction = record (b.direction) {
            pending = b.pending ++ record { sequence = sequence; payload = payload } ∷ [];
          };
          buffered_bytes = b.buffered_bytes + length payload;
        },
        waiting,
      )
    ]

-- The inner loop of `AppendAndDrain`: the first queued segment that starts at `next`, and the queue
-- without it.
unfoldable pub take_pending :
    ℕ → List PendingSegment → Option (PendingSegment × List PendingSegment)
take_pending next [] = none
take_pending next (p ∷ rest) =
    if p.sequence == next
    then some (p, rest)
    else elim (take_pending next rest) [ none ↦ none | some (q, others) ↦ some (q, p ∷ others) ]

abbrev pub absorb : DirectionState → PendingSegment → List PendingSegment → DirectionState
absorb d p rest = record d {
  contiguous = d.contiguous ++ p.payload;
  next_sequence = add32 d.next_sequence (length p.payload);
  pending = rest;
}

-- The outer loop. Each round but the last takes one segment off the queue, so `append_and_drain`
-- gives one round more than there are segments, and the first clause is not reached.
unfoldable pub drain : ℕ → TcpReassemblyConfig → DirectionState → DirectionState × Status
drain zero config d = (d, ready)
drain (suc fuel) config d = elim (take_pending d.next_sequence d.pending) [
  | none ↦ (d, ready)
  | some (p, rest) ↦
      elim (ltb config.max_buffered_bytes_per_direction (length d.contiguous + length p.payload)) [
        | true ↦ (d, resource_limit)
        | false ↦ drain fuel config (absorb d p rest)
      ]
]

abbrev pub append : DirectionState → ℕ → List ℕ → DirectionState
append d sequence payload = record d {
  contiguous = d.contiguous ++ payload;
  next_sequence = add32 sequence (length payload);
}

unfoldable pub append_and_drain : TcpReassemblyConfig → Buffer → ℕ → List ℕ → Buffer × Status
unfolding has_capacity
append_and_drain config b sequence payload =
    if not (has_capacity config b.buffered_bytes (length payload))
      || ltb config.max_buffered_bytes_per_direction (length b.contiguous + length payload)
    then (b, resource_limit)
    else (
      record { direction = drained.0; buffered_bytes = b.buffered_bytes + length payload },
      drained.1,
    )
  where
    drained : DirectionState × Status
    drained = drain (suc (length b.pending)) config (append b.direction sequence payload)

unfoldable pub is_conflicting_overlap : Status → Bool
is_conflicting_overlap conflicting_overlap = true
is_conflicting_overlap _ = false

-- Whether the segment's end is at or before the next expected byte.
unfoldable pub ends_by : Distance → Bool
ends_by (ahead _) = false
ends_by _ = true

-- A segment that starts `trim` bytes before the next expected one.
unfoldable pub add_overlapping : TcpReassemblyConfig → Buffer → ℕ → List ℕ → ℕ → Buffer × Status
unfolding verify_overlap is_conflicting_overlap ends_by
add_overlapping config b sequence payload trim =
    if is_conflicting_overlap overlap
    then (b, overlap)
    else if ends_by (sequence_distance (add32 sequence (length payload)) b.next_sequence)
    then (b, waiting)
    else append_and_drain config b b.next_sequence (drop trim payload)
  where
    overlap : Status
    overlap = verify_overlap config b.direction sequence payload

-- `AddSegment` from the segment's distance to the next expected byte on.
unfoldable pub add_at : TcpReassemblyConfig → Buffer → ℕ → List ℕ → Distance → Buffer × Status
unfolding add_overlapping
add_at config b sequence payload same = append_and_drain config b sequence payload
add_at config b sequence payload (ahead _) = queue_pending config b sequence payload
add_at config b sequence payload (behind trim) = add_overlapping config b sequence payload trim

abbrev add_in_stream : TcpReassemblyConfig → Buffer → ℕ → List ℕ → Buffer × Status
add_in_stream config b sequence payload =
    add_at config b sequence payload (sequence_distance sequence b.next_sequence)

abbrev pub start_at : Buffer → ℕ → Buffer
start_at b sequence = record b {
  direction = record (b.direction) {
    base_known = true;
    base_sequence = sequence;
    next_sequence = sequence;
  };
}

unfoldable pub add_segment : TcpReassemblyConfig → Buffer → ℕ → List ℕ → Buffer × Status
unfolding add_at
add_segment config b sequence [] = (b, waiting)
add_segment config b sequence (x ∷ xs) =
    if b.base_known
    then add_in_stream config b sequence payload
    else if not (is_stream_start payload)
    then queue_pending config b sequence payload
    else add_in_stream config (start_at b sequence) sequence payload
  where
    payload : List ℕ
    payload = x ∷ xs
