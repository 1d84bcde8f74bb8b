-- ===== src/Flow/Table.antt =====
-- `FlowData` and `FlowTable` of include/dpdk/spi/spi_flow_table.hpp and .cpp. `data_` is a function
-- from indices, `free_list_` holds indices with the vector's back at the head, and the clock that an
-- operation reads is an argument. The spinlocks are left out: each operation is one step.
pub mod Lookup
pub mod Ownership
pub mod Bulk
pub mod Purge
use dpdk_cpp.Base.{
  ℕ, zero, suc, ◌+◌, ◌-◌, ◌*◌, ◌/◌, ◌%◌, ◌^◌, Bool, true, false, not, List, [], ◌∷◌, ◌++◌, Option,
  none, some, ltb, leb, ◌==◌, if◌then◌else◌, map, take, ◌&&◌, length,
}
use dpdk_cpp.Base
use dpdk_cpp.Flow.Hash.{RteHash}
use dpdk_cpp.Flow.Key.{FlowKey}
use dpdk_cpp.Packet.{Action, forward, drop}

pub record FlowData : Type 0 where
  pub action_and_count : ℕ
  pub last_seen_tsc : ℕ

pub data FlowInsertResult : Type 0 where
  inserted full : FlowInsertResult

pub record BulkResult : Type 0 where
  pub action : Action
  pub valid : Bool

abbrev pub action_code : Action → ℕ
action_code forward = 0
action_code drop = 1

-- The low four bits of the count are zero before the action is put there, so that `|` adds.
unfoldable pub pack : ℕ → Action → ℕ
pack match_count action = match_count * 2 ^ 4 % 2 ^ 64 + action_code action % 2 ^ 4

-- `DecodePacked`. A word made by `pack` has no other codes.
unfoldable pub decode_packed : ℕ → Action
decode_packed packed = if packed % 2 ^ 4 == 0 then forward else drop

abbrev pub put : (ℕ → FlowData) → ℕ → FlowData → ℕ → FlowData
put cells i v j = if j == i then v else cells j

-- `free_list_` after the constructor's loop over the indices below n.
unfoldable pub all_slots : ℕ → List ℕ
all_slots zero = []
all_slots (suc n) = n ∷ all_slots n

-- `BulkResult{}`.
abbrev pub no_result : BulkResult
no_result = record { action = forward; valid = false }

-- The first result, written where a flow is found, before the others as they are left: a write
-- behind the last result changes nothing here.
abbrev pub write_result : Option Action → List BulkResult → List BulkResult → List BulkResult
write_result found [] others = []
write_result none (result ∷ results) others = result ∷ others
write_result (some a) (result ∷ results) others = record { action = a; valid = true } ∷ others

module _ (rte : RteHash) where
  open rte use {
    State, create_hash, lookup_data, lookup_bulk_data, add_key_data, del_key, get_key_with_position,
    free_key_with_position,
  }

  pub record FlowTable : Type 0 where
    pub hash : Option State
    pub cells : ℕ → FlowData
    pub max_concurrent_flows : ℕ
    pub free_list : List ℕ
    pub overflow_count : ℕ
    pub eviction_threshold : ℕ

  unfoldable pub create : ℕ → FlowTable
  unfolding all_slots
  create max = elim (create_hash max) [
    | none ↦ record {
      hash = none;
      cells = λ _. record { action_and_count = 0; last_seen_tsc = 0 };
      max_concurrent_flows = max;
      free_list = [];
      overflow_count = 0;
      eviction_threshold = 0;
    }
    | some h ↦ record {
      hash = some h;
      cells = λ _. record { action_and_count = 0; last_seen_tsc = 0 };
      max_concurrent_flows = max;
      free_list = all_slots max;
      overflow_count = 0;
      eviction_threshold = if max / 100 == 0 then 1 else max / 100;
    }
  ]

  -- What `Lookup` and `LookupBulk` do with the cell of a found key.
  unfoldable pub read_cell : FlowTable → ℕ → ℕ → FlowTable × Option Action
  unfolding decode_packed
  read_cell t now i = if packed == 0 then (t, none) else (
    record t { cells = put t.cells i (record { action_and_count = packed; last_seen_tsc = now }) },
    some (decode_packed packed),
  )
    where
      packed : ℕ
      packed = (t.cells i).action_and_count

  unfoldable pub read_found : FlowTable → ℕ → Option ℕ → FlowTable × Option Action
  unfolding read_cell
  read_found t now none = (t, none)
  read_found t now (some i) = read_cell t now i

  unfoldable pub lookup : FlowTable → FlowKey → ℕ → FlowTable × Option Action
  unfolding read_found
  lookup t key now = elim t.hash [
    | none ↦ (t, none)
    | some h ↦ read_found t now (lookup_data h key)
  ]

  -- The loop of `LookupBulk` over the hit mask and the data pointers, and the results it writes to.
  unfoldable pub read_bulk :
      FlowTable → ℕ → List (Option ℕ) → List BulkResult → FlowTable × List BulkResult
  read_bulk t now [] results = (t, results)
  read_bulk t now (found ∷ rest) results =
      let first = read_found t now found in
      let others = read_bulk first.0 now rest (Base.drop 1 results) in
      (others.0, write_result first.1 results others.1)

  overflowed : FlowTable → FlowTable × FlowInsertResult
  overflowed t = (record t { overflow_count = (t.overflow_count + 1) % 2 ^ 64 }, full)

  abbrev pub store : FlowTable → ℕ → ℕ → Action → ℕ → FlowTable
  store t i match_count action tsc = record t {
    cells =
        put t.cells i (record { action_and_count = pack match_count action; last_seen_tsc = tsc });
  }

  -- `Insert` and `InsertRaw` once a free cell is taken; `counted` is whether a failure is counted.
  add_new : FlowTable → State → FlowKey → ℕ → Action → ℕ → List ℕ → FlowTable × Bool
  add_new t h key match_count action tsc [] = (t, false)
  add_new t h key match_count action tsc (i ∷ rest) = elim (add_key_data h key i) [
    | none ↦ (store t i match_count action tsc, false)
    | some h' ↦
        (record (store t i match_count action tsc) { hash = some h'; free_list = rest }, true)
  ]

  insert_new : FlowTable → State → FlowKey → ℕ → Action → ℕ → FlowTable × FlowInsertResult
  unfolding add_new overflowed
  insert_new t h key match_count action tsc =
      if added.1 then (added.0, inserted) else overflowed added.0
    where
      added : FlowTable × Bool
      added = add_new t h key match_count action tsc t.free_list

  unfoldable pub insert : FlowTable → FlowKey → ℕ → Action → ℕ → FlowTable × FlowInsertResult
  unfolding insert_new overflowed
  insert t key match_count action tsc = elim t.hash [
    | none ↦ overflowed t
    | some h ↦ elim (lookup_data h key) [
      | some i ↦ (store t i match_count action tsc, inserted)
      | none ↦ insert_new t h key match_count action tsc
    ]
  ]

  unfoldable pub insert_raw : FlowTable → FlowKey → ℕ → Action → ℕ → FlowTable × FlowInsertResult
  unfolding add_new
  insert_raw t key match_count action tsc = elim t.hash [
    | none ↦ (t, full)
    | some h ↦
        let added = add_new t h key match_count action tsc t.free_list in
        (added.0, if added.1 then inserted else full)
  ]

  -- One round of `PurgeExpired` for the cell `i`, the hash `h` and the cells found stale so far.
  unfoldable pub purge_cell : ℕ → (ℕ → FlowData) → State → ℕ → Option ((ℕ → FlowData) × State)
  purge_cell threshold cells h i =
      if (cells i).action_and_count == 0
      then none
      else if not (ltb (cells i).last_seen_tsc threshold)
      then none
      else elim (get_key_with_position h i) [
        | none ↦ none
        | some key ↦ elim (del_key h key) [
          | none ↦ none
          | some h' ↦ some (
            put cells i (record { action_and_count = 0; last_seen_tsc = 0 }),
            free_key_with_position h' i,
          )
        ]
      ]

  pub record Scan : Type 0 where
    pub cells : ℕ → FlowData
    pub hash : State
    -- `expired_data`, the last one first.
    pub expired : List ℕ

  unfoldable pub purge_step : ℕ → ℕ → Scan → Scan
  unfolding purge_cell
  purge_step threshold i s = elim (purge_cell threshold s.cells s.hash i) [
    | none ↦ s
    | some (cells, h) ↦ record { cells = cells; hash = h; expired = i ∷ s.expired }
  ]

  -- The scan from index `i` on, for so many more rounds; `left` is `slots_until_cancel`, and
  -- `quit i` what `force_quit` holds when round `i` reads it.
  unfoldable pub purge_scan : (ℕ → Bool) → ℕ → ℕ → ℕ → ℕ → Scan → Scan
  unfolding purge_step
  purge_scan quit threshold zero i left s = s
  purge_scan quit threshold (suc rounds) i left s =
      let due = left - 1 == 0 in
      let rest =
        purge_scan quit threshold rounds (i + 1) (if due then 1024 else left - 1)
          (purge_step threshold i s) in
      if due && quit i then s else rest

  unfoldable pub purge_expired : FlowTable → ℕ → ℕ → (ℕ → Bool) → FlowTable
  unfolding purge_scan
  purge_expired t now ttl quit = elim t.hash [
    | none ↦ t
    | some h ↦
        if leb now ttl
        then t
        else let scanned =
            purge_scan quit (now - ttl) t.max_concurrent_flows 0 1024
              (record { cells = t.cells; hash = h; expired = [] }) in
          record t {
            hash = some scanned.hash;
            cells = scanned.cells;
            free_list = scanned.expired ++ t.free_list;
          }
  ]

  -- The calls that `ForEachOccupied` makes from index `i` on, for so many more rounds.
  unfoldable pub occupied : FlowTable → State → ℕ → ℕ → List (FlowKey × ℕ × Action)
  unfolding decode_packed
  occupied t h zero i = []
  occupied t h (suc rounds) i =
      let rest = occupied t h rounds (i + 1) in
      let packed = (t.cells i).action_and_count in
      if packed == 0 then rest else elim (get_key_with_position h i) [
        | none ↦ rest
        | some key ↦ (key, packed / 2 ^ 4, decode_packed packed) ∷ rest
      ]

  unfoldable pub for_each_occupied : FlowTable → List (FlowKey × ℕ × Action)
  unfolding occupied
  for_each_occupied t = elim t.hash [ none ↦ [] | some h ↦ occupied t h t.max_concurrent_flows 0 ]

  -- `LookupBulk` into the results of the caller, with what they are afterwards: of more than 64 keys
  -- only the first 64 are looked up.
  unfoldable pub lookup_bulk :
      FlowTable → List FlowKey → ℕ → List BulkResult → FlowTable × List BulkResult
  unfolding read_bulk
  lookup_bulk t keys now results = elim t.hash [
    | none ↦
        (t, map (λ _. no_result) (take (length keys) results) ++ Base.drop (length keys) results)
    | some h ↦ read_bulk t now (lookup_bulk_data h (take 64 keys)) results
  ]

  unfoldable pub reset_overflow_count : FlowTable → FlowTable
  reset_overflow_count t = record t { overflow_count = 0 }

  unfoldable pub should_evict_on_pressure : FlowTable → Bool
  should_evict_on_pressure t = leb t.eviction_threshold t.overflow_count
