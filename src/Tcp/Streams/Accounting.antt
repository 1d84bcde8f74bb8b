-- ===== src/Tcp/Streams/Accounting.antt =====
-- The reassembler's totals and limits over a whole run of `Insert`.
use dpdk_cpp.Base.{
  ℕ, ◌+◌, ◌≤◌, ◌≡◌, refl, Bool, true, false, List, [], ◌∷◌, some, arith, length, All, Bool-cases,
  Option-cases, inl, inr, leb, ◌==◌, ◌∙◌,
}
use native.Mathlib.Nat.{zero-add}
use dpdk_cpp.Packet.{PacketMetadata}
use dpdk_cpp.Tcp.Direction.{
  TcpReassemblyConfig, DirectionState, Buffer, memory_budget_bytes, add_segment, direction_bytes,
  Status,
}
use dpdk_cpp.Tcp.Direction.Bounds.{
  SameGrowth, IsWithin, add_segment-IsWithin, add_segment-SameGrowth,
}
use dpdk_cpp.Tcp.Key.{StreamKey, make_key}
use dpdk_cpp.Tcp.Streams.{
  StreamState, Reassembler, state_bytes, create, purge_expired, find, new_stream, direction_at,
  set_direction, insert_into, insert_live, insert, Arrival, run, data_sequence, is_fatal,
}
use dpdk_cpp.Tcp.Streams.Map.{
  Entry, total_bytes, stream_key_eq_self, total_bytes-erase, total_bytes-update, length-erase-le,
  length-update, All-erase, All-update, All-find, total_bytes-purge, length-purge-le, purge-le,
  All-purge,
}

pub record DirectionFits (config : TcpReassemblyConfig) (d : DirectionState) : Type 0 where
  pub contiguous : length d.contiguous ≤ config.max_buffered_bytes_per_direction
  pub pending : length d.pending ≤ config.max_out_of_order_segments

pub record StreamFits (config : TcpReassemblyConfig) (s : StreamState) : Type 0 where
  pub direction0 : DirectionFits config s.direction0
  pub direction1 : DirectionFits config s.direction1

pub record IsConsistent (r : Reassembler) : Type 0 where
  pub accounted : r.buffered_bytes ≡ total_bytes r.streams
  pub budget : r.buffered_bytes ≤ memory_budget_bytes r.config
  pub count : length r.streams ≤ r.config.max_concurrent_streams
  pub fit : All (λ (e : Entry). StreamFits r.config e.1) r.streams

create-IsConsistent :
    (config : TcpReassemblyConfig) (tsc_hz : ℕ) → IsConsistent (create config tsc_hz)
unfolding create
create-IsConsistent config tsc_hz = record {
  accounted = refl;
  budget = omega arith;
  count = omega arith;
  fit = tt;
}

purge_expired-IsConsistent :
    (r : Reassembler) (now : ℕ) → IsConsistent r → IsConsistent (purge_expired r now)
unfolding purge_expired
purge_expired-IsConsistent r now v = elim (Bool-cases (r.timeout_cycles == 0)) [
  | inl off ↦ simp off v
  | inr on ↦ simp on (record {
    accounted =
        total_bytes-purge r.timeout_cycles now r.streams 0 r.buffered_bytes
          (omega (arith, v.accounted))
        ∙ zero-add _;
    budget = omega (arith, v.budget, purge-le r.timeout_cycles now r.streams r.buffered_bytes);
    count = omega (arith, v.count, length-purge-le r.timeout_cycles now r.streams r.buffered_bytes);
    fit = All-purge r.timeout_cycles now _ r.streams r.buffered_bytes v.fit;
  })
]

direction_at-Fits :
    (config : TcpReassemblyConfig) (i : Bool) (s : StreamState)
    → StreamFits config s
    → DirectionFits config (direction_at i s)
direction_at-Fits config true s v = v.direction1
direction_at-Fits config false s v = v.direction0

set_direction-Fits :
    (config : TcpReassemblyConfig) (i : Bool) (s : StreamState) (now : ℕ) (d : DirectionState)
    → StreamFits config s
    → DirectionFits config d
    → StreamFits config (set_direction i (record s { last_seen_tsc = now }) d)
set_direction-Fits config true s now d v w = record { direction0 = v.direction0; direction1 = w }
set_direction-Fits config false s now d v w = record { direction0 = w; direction1 = v.direction1 }

state_bytes-set_direction :
    (i : Bool) (s : StreamState) (now : ℕ) (d : DirectionState)
    → state_bytes (set_direction i (record s { last_seen_tsc = now }) d)
        + direction_bytes (direction_at i s)
      ≡ state_bytes s + direction_bytes d
state_bytes-set_direction true s now d = omega arith
state_bytes-set_direction false s now d = omega arith

insert_into-IsConsistent :
    (r : Reassembler) (key : StreamKey) (i : Bool) (s : StreamState) (sequence : ℕ)
    (payload : List ℕ) (now : ℕ)
    → IsConsistent r
    → find key r.streams ≡ some s
    → IsConsistent (insert_into r key i s sequence payload now).0
unfolding insert_into
insert_into-IsConsistent r key i s sequence payload now v found =
    elim (Bool-cases (is_fatal added.1)) [
      | inl fatal ↦ simp fatal (record {
        accounted =
            omega (arith, v.accounted, grown, moved, total_bytes-erase key r.streams s found);
        budget = omega (arith, within.budget);
        count = omega (arith, v.count, length-erase-le key r.streams);
        fit = All-erase key _ r.streams v.fit;
      })
      | inr alive ↦ simp alive (record {
        accounted =
            omega
              (arith, v.accounted, grown, moved, total_bytes-update key r.streams s after found);
        budget = within.budget;
        count = omega (arith, v.count, length-update key r.streams after);
        fit = All-update key (StreamFits r.config) r.streams after v.fit (
            set_direction-Fits r.config i s now added.0.direction old
              (record { contiguous = within.contiguous; pending = within.pending }));
      })
    ]
  where
    before : Buffer
    before = record { direction = direction_at i s; buffered_bytes = r.buffered_bytes }

    added : Buffer × Status
    added = add_segment r.config before sequence payload

    after : StreamState
    after = set_direction i (record s { last_seen_tsc = now }) added.0.direction

    old : StreamFits r.config s
    old = All-find key (StreamFits r.config) r.streams s v.fit found

    within : IsWithin r.config added.0
    within =
        let d : DirectionFits r.config (direction_at i s) = direction_at-Fits r.config i s old in
        add_segment-IsWithin r.config before sequence payload
          (record { contiguous = d.contiguous; pending = d.pending; budget = v.budget })

    grown : SameGrowth before added.0
    grown = add_segment-SameGrowth r.config before sequence payload

    moved :
        state_bytes after + direction_bytes (direction_at i s)
        ≡ state_bytes s + direction_bytes added.0.direction
    moved = state_bytes-set_direction i s now added.0.direction

new_stream-IsConsistent :
    (r : Reassembler) (key : StreamKey) (now : ℕ)
    → leb r.config.max_concurrent_streams (length r.streams) ≡ false
    → IsConsistent r
    → IsConsistent (record r { streams = (key, new_stream now) ∷ r.streams })
new_stream-IsConsistent r key now room v = record {
  accounted = omega (arith, v.accounted);
  budget = v.budget;
  count = ground (arith, v.count);
  fit = (omega arith, v.fit);
}

find-new_stream :
    (key : StreamKey) (s : StreamState) (ss : List Entry) → find key ((key, s) ∷ ss) ≡ some s
unfolding find
find-new_stream key s ss = simp stream_key_eq_self

insert_live-IsConsistent :
    (r : Reassembler) (m : PacketMetadata) (payload : List ℕ) (now : ℕ)
    → IsConsistent r
    → IsConsistent (insert_live r m payload now).0
unfolding insert_live
insert_live-IsConsistent r m payload now v = elim (Option-cases (find key r.streams)) [
  | inr (s, found) ↦
      rw (found, insert_live)
        (insert_into-IsConsistent r key (make_key m).1 s (data_sequence m) payload now v found)
  | inl missing ↦ elim (Bool-cases (leb r.config.max_concurrent_streams (length r.streams))) [
    | inl full ↦ rw (missing, insert_live, full) v
    | inr room ↦
        rw (missing, insert_live, room)
          (insert_into-IsConsistent _ key (make_key m).1 (new_stream now) (data_sequence m) payload
            now (new_stream-IsConsistent r key now room v)
            (find-new_stream key (new_stream now) r.streams))
  ]
]
  where
    key : StreamKey
    key = (make_key m).0

pub insert-IsConsistent :
    (r : Reassembler) (m : PacketMetadata) (payload : List ℕ) (now : ℕ)
    → IsConsistent r
    → IsConsistent (insert r m payload now).0
unfolding insert
insert-IsConsistent r m payload now v = ground (
  arith,
  insert_live-IsConsistent (purge_expired r now) m payload now,
  purge_expired-IsConsistent r now v,
)

run_from-IsConsistent :
    (r : Reassembler) (arrivals : List Arrival) → IsConsistent r → IsConsistent (run r arrivals)
unfolding run
run_from-IsConsistent r [] v = v
run_from-IsConsistent r ((m, payload, now) ∷ rest) v =
    run_from-IsConsistent (insert r m payload now).0 rest (insert-IsConsistent r m payload now v)

-- From a new reassembler on, after any segments in any order and whatever `Insert` answers:
-- `buffered_bytes_` is the sum of the bytes of all streams and within the memory budget, the streams
-- are within their number, and both directions of each within their limits.
pub run-IsConsistent :
    (config : TcpReassemblyConfig) (tsc_hz : ℕ) (arrivals : List Arrival)
    → IsConsistent (run (create config tsc_hz) arrivals)
run-IsConsistent config tsc_hz arrivals =
    run_from-IsConsistent (create config tsc_hz) arrivals (create-IsConsistent config tsc_hz)
