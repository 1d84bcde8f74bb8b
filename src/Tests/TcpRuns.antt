-- ===== src/Tests/TcpRuns.antt =====
-- A GET request in three segments across the wrap of the sequence number, out of order.
use dpdk_cpp.Base.{ℕ, ◌≡◌, refl, true, List, [], ◌∷◌, arith, inr, get_or, none}
use dpdk_cpp.Tcp.Content.{Carries, Follows}
use dpdk_cpp.Tcp.Direction.{
  TcpReassemblyConfig, Status, ready, Buffer, add_segment, is_stream_start, queue_pending,
  append_and_drain, drain, take_pending, find_pending,
}
use dpdk_cpp.Tcp.Direction.Bounds.{IsWithin, add_segment-IsWithin}
use dpdk_cpp.Tcp.Direction.Progress.{Extends, add_segment-Extends, append_and_drain_complete}
use dpdk_cpp.Tcp.Fidelity.{add_segment-Follows}
use dpdk_cpp.Tcp.Streams.{create, empty_direction, run}
use dpdk_cpp.Tcp.Streams.Accounting.{IsConsistent, run-IsConsistent}
use dpdk_cpp.Tcp.Sequence.{sequence_distance}
use dpdk_cpp.Tests.KeyRuns.{request}

abbrev config : TcpReassemblyConfig
config = record {
  enabled = true;
  idle_timeout_sec = 60;
  max_concurrent_streams = 4;
  max_buffered_bytes_per_direction = 64;
  max_out_of_order_segments = 8;
  memory_budget_mb = 1;
  drop_conflicting_overlap = true;
}

-- "GET / HTTP".
abbrev text : List ℕ
text = b'G' ∷ b'E' ∷ b'T' ∷ b' ' ∷ b'/' ∷ b' ' ∷ b'H' ∷ b'T' ∷ b'T' ∷ b'P' ∷ []

abbrev byte : ℕ → ℕ
byte i = get_or text i 0

abbrev start : Buffer
start = record { direction = empty_direction; buffered_bytes = 0 }

-- "HTTP" comes first, at position 6, behind the wrap.
abbrev late : Buffer
late = (add_segment config start 0 (b'H' ∷ b'T' ∷ b'T' ∷ b'P' ∷ [])).0

abbrev whole : Buffer × Status
whole = add_segment config late 4294967290 (b'G' ∷ b'E' ∷ b'T' ∷ b' ' ∷ b'/' ∷ b' ' ∷ [])

whole_ready : (whole.1 ≡ ready) × (whole.0.contiguous ≡ text) × (whole.0.next_sequence ≡ 4)
unfolding add_segment is_stream_start queue_pending append_and_drain drain take_pending find_pending
    sequence_distance
whole_ready = (refl, refl, refl)

start-Follows : Follows byte 4294967290 start.direction
start-Follows = record { queued = tt; state = inr (refl, refl) }

late-Carries : Carries byte 4294967290 0 (b'H' ∷ b'T' ∷ b'T' ∷ b'P' ∷ [])
late-Carries = record { position = 6; at_position = refl; limit = omega arith; bytes = refl }

add_segment-Follows_example : Follows byte 4294967290 late.direction
add_segment-Follows_example =
    add_segment-Follows byte 4294967290 config start 0 (b'H' ∷ b'T' ∷ b'T' ∷ b'P' ∷ [])
      start-Follows late-Carries

add_segment-IsWithin_example : IsWithin config late
add_segment-IsWithin_example =
    add_segment-IsWithin config start 0 (b'H' ∷ b'T' ∷ b'T' ∷ b'P' ∷ []) (omega arith)

run-IsConsistent_example : IsConsistent (run (create config 1000) ((request, text, 5) ∷ []))
run-IsConsistent_example = run-IsConsistent config 1000 ((request, text, 5) ∷ [])

add_segment-Extends_example : Extends late.contiguous whole.0.direction
add_segment-Extends_example =
    add_segment-Extends config late 4294967290 (b'G' ∷ b'E' ∷ b'T' ∷ b' ' ∷ b'/' ∷ b' ' ∷ [])

-- The late segment is queued behind the first six bytes.
abbrev waiting_tail : Buffer
waiting_tail = record {
  direction = record {
    base_known = true;
    base_sequence = 4294967290;
    next_sequence = 4294967290;
    contiguous = [];
    pending = record { sequence = 0; payload = b'H' ∷ [] } ∷ [];
  };
  buffered_bytes = 1;
}

abbrev drained : Buffer × Status
drained =
    append_and_drain config waiting_tail 4294967290 (b'G' ∷ b'E' ∷ b'T' ∷ b' ' ∷ b'/' ∷ b' ' ∷ [])

append_and_drain_complete_example : take_pending drained.0.next_sequence drained.0.pending ≡ none
unfolding append_and_drain drain take_pending
append_and_drain_complete_example =
    append_and_drain_complete config waiting_tail 4294967290
      (b'G' ∷ b'E' ∷ b'T' ∷ b' ' ∷ b'/' ∷ b' ' ∷ []) refl
