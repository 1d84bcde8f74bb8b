-- ===== src/Tcp/Streams.antt =====
-- `TcpStreamReassembler` of include/dpdk/spi/spi_tcp_reassembly.cpp. The map of streams is an
-- association list, newest first. `timeout_cycles` is a field: the constructor's product of the
-- configured seconds and the clock rate. Sizes are plain numbers, times wrap at 2 ^ 64.
pub mod Map
pub mod Accounting
use dpdk_cpp.Base.{
  ℕ, ◌+◌, ◌-◌, ◌*◌, ◌%◌, ◌^◌, Bool, true, false, not, ◌||◌, List, [], ◌∷◌, Option, none, some, min,
  bit_and, ltb, leb, ◌==◌, if◌then◌else◌, length,
}
use dpdk_cpp.Packet.{PacketMetadata, Protocol, tcp, udp}
use dpdk_cpp.Tcp.Direction.{
  TcpReassemblyConfig, Status, disabled, conflicting_overlap, resource_limit, DirectionState,
  Buffer, direction_bytes, add_segment,
}
use dpdk_cpp.Tcp.Key.{StreamKey, stream_key_eq, make_key}
use dpdk_cpp.Tcp.Sequence.{add32}

pub record StreamState : Type 0 where
  pub direction0 : DirectionState
  pub direction1 : DirectionState
  pub last_seen_tsc : ℕ

pub record Reassembler : Type 0 where
  pub config : TcpReassemblyConfig
  pub timeout_cycles : ℕ
  pub buffered_bytes : ℕ
  pub streams : List (StreamKey × StreamState)

pub record TcpReassemblyResult : Type 0 where
  pub status : Status
  pub contiguous_payload : List ℕ

abbrev pub tsc_mod : ℕ
tsc_mod = 2 ^ 64

unfoldable pub create : TcpReassemblyConfig → ℕ → Reassembler
create config tsc_hz = record {
  config = config;
  timeout_cycles = config.idle_timeout_sec * tsc_hz % tsc_mod;
  buffered_bytes = 0;
  streams = [];
}

abbrev pub state_bytes : StreamState → ℕ
state_bytes s = direction_bytes s.direction0 + direction_bytes s.direction1

-- `buffered_bytes_` after `AccountRemove`.
abbrev pub account_remove : ℕ → StreamState → ℕ
account_remove buffered s = buffered - min buffered (state_bytes s)

unfoldable pub is_expired : ℕ → ℕ → StreamState → Bool
is_expired timeout now s = ltb timeout ((now + tsc_mod - s.last_seen_tsc) % tsc_mod)

-- The loop of `PurgeExpired`: the bytes that stay accounted, and the streams that stay.
unfoldable pub purge :
    ℕ → ℕ → ℕ → List (StreamKey × StreamState) → ℕ × List (StreamKey × StreamState)
purge timeout now buffered [] = (buffered, [])
purge timeout now buffered ((k, s) ∷ rest) =
    let dropped = purge timeout now (account_remove buffered s) rest in
    let kept = purge timeout now buffered rest in
    if is_expired timeout now s then dropped else (kept.0, (k, s) ∷ kept.1)

unfoldable pub purge_expired : Reassembler → ℕ → Reassembler
unfolding purge
purge_expired r now =
    if r.timeout_cycles == 0 then r else record r { buffered_bytes = purged.0; streams = purged.1 }
  where
    purged : ℕ × List (StreamKey × StreamState)
    purged = purge r.timeout_cycles now r.buffered_bytes r.streams

unfoldable pub find : StreamKey → List (StreamKey × StreamState) → Option StreamState
find key [] = none
find key ((k, s) ∷ rest) = if stream_key_eq k key then some s else find key rest

unfoldable pub erase : StreamKey → List (StreamKey × StreamState) → List (StreamKey × StreamState)
erase key [] = []
erase key ((k, s) ∷ rest) = if stream_key_eq k key then rest else (k, s) ∷ erase key rest

-- The assignments through the reference to the mapped value.
unfoldable pub update :
    StreamKey → StreamState → List (StreamKey × StreamState) → List (StreamKey × StreamState)
update key v [] = []
update key v ((k, s) ∷ rest) =
    if stream_key_eq k key then (k, v) ∷ rest else (k, s) ∷ update key v rest

abbrev pub empty_direction : DirectionState
empty_direction = record {
  base_known = false;
  base_sequence = 0;
  next_sequence = 0;
  contiguous = [];
  pending = [];
}

abbrev pub new_stream : ℕ → StreamState
new_stream now = record {
  direction0 = empty_direction;
  direction1 = empty_direction;
  last_seen_tsc = now;
}

abbrev pub direction_at : Bool → StreamState → DirectionState
direction_at false s = s.direction0
direction_at true s = s.direction1

abbrev pub set_direction : Bool → StreamState → DirectionState → StreamState
set_direction false s d = record s { direction0 = d }
set_direction true s d = record s { direction1 = d }

abbrev pub tcp_syn_flag : ℕ
tcp_syn_flag = 2

-- A SYN takes one sequence number before the data.
unfoldable pub data_sequence : PacketMetadata → ℕ
data_sequence m = add32 m.tcp_sequence (if bit_and m.tcp_flags tcp_syn_flag == 0 then 0 else 1)

-- Whether `Insert` gives the stream up.
unfoldable pub is_fatal : Status → Bool
is_fatal conflicting_overlap = true
is_fatal resource_limit = true
is_fatal _ = false

-- `Insert` from the found or new stream on: `state` is its value in `r.streams`.
unfoldable pub insert_into :
    Reassembler
    → StreamKey
    → Bool
    → StreamState
    → ℕ
    → List ℕ
    → ℕ
    → Reassembler × TcpReassemblyResult
insert_into r key index state sequence payload now =
    if is_fatal added.1
    then (
      record r {
        buffered_bytes = account_remove added.0.buffered_bytes after;
        streams = erase key r.streams;
      },
      record { status = added.1; contiguous_payload = [] },
    )
    else (
      record r { buffered_bytes = added.0.buffered_bytes; streams = update key after r.streams },
      record { status = added.1; contiguous_payload = added.0.contiguous },
    )
  where
    added : Buffer × Status
    added =
        add_segment r.config
          (record { direction = direction_at index state; buffered_bytes = r.buffered_bytes })
          sequence payload

    after : StreamState
    after = set_direction index (record state { last_seen_tsc = now }) added.0.direction

abbrev is_tcp : Protocol → Bool
is_tcp tcp = true
is_tcp udp = false

-- `Insert` once the expired streams are gone.
unfoldable pub insert_live :
    Reassembler → PacketMetadata → List ℕ → ℕ → Reassembler × TcpReassemblyResult
unfolding insert_into find
insert_live r m payload now = elim (find key r.streams) [
  | some state ↦ insert_into r key index state (data_sequence m) payload now
  | none ↦
      if leb r.config.max_concurrent_streams (length r.streams)
      then (r, record { status = resource_limit; contiguous_payload = [] })
      else insert_into (record r { streams = (key, new_stream now) ∷ r.streams }) key index
          (new_stream now) (data_sequence m) payload now
]
  where
    key : StreamKey
    key = (make_key m).0

    index : Bool
    index = (make_key m).1

unfoldable pub insert :
    Reassembler → PacketMetadata → List ℕ → ℕ → Reassembler × TcpReassemblyResult
unfolding insert_live
insert r m payload now =
    if not r.config.enabled || not (is_tcp m.protocol)
    then (r, record { status = disabled; contiguous_payload = [] })
    else insert_live (purge_expired r now) m payload now

-- Calls of `Insert` one after another: the packet, its payload and the clock.
abbrev pub Arrival : Type 0
Arrival = PacketMetadata × List ℕ × ℕ

unfoldable pub run : Reassembler → List Arrival → Reassembler
run r [] = r
run r ((m, payload, now) ∷ rest) = run (insert r m payload now).0 rest
