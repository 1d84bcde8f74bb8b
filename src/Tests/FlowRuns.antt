-- ===== src/Tests/FlowRuns.antt =====
-- The flow table over a small hash whose positions count the keys in the order in which they came.
use dpdk_cpp.Base.{
  ℕ, ◌≡◌, ◌≢◌, ◌↔◌, refl, true, false, List, [], ◌∷◌, ◌++◌, map, Option, none, some, arith, length,
  get_elem?, if◌then◌else◌, ltb, replicate,
}
use dpdk_cpp.Flow.Hash.{RteHash}
use dpdk_cpp.Flow.Key.{FlowKey, flow_key_eq}
use dpdk_cpp.Flow.Table.{
  FlowTable, Scan, inserted, create, insert, lookup, pack, purge_step, purge_expired, lookup_bulk,
  BulkResult, no_result,
}
use dpdk_cpp.Flow.Table.Lookup.{lookup-insert}
use dpdk_cpp.Flow.Table.Bulk.{each_written, lookup_bulk-lookup_each}
use dpdk_cpp.Pipeline.Burst.{bulk_flow_lookup}
use dpdk_cpp.Pipeline.Burst.Lookup.{bulk_flow_lookup-lookup_each}
use dpdk_cpp.Flow.Table.Ownership.{
  Owns, IsOwned, create-IsOwned, insert-IsOwned, lookup-insert_other,
}
use dpdk_cpp.Flow.Table.Purge.{
  IsStale, purge_step-frees_owned, purge_step-Owns, lookup-insert_shared,
}
use dpdk_cpp.Packet.{tcp, udp, forward, drop}

pub record Table : Type 0 where
  pub room : ℕ
  pub slots : FlowKey → Option ℕ
  pub keys : List FlowKey

pub flow_key_eq-eq : (a b : FlowKey) → (flow_key_eq a b ≡ true) ↔ (a ≡ b)
unfolding flow_key_eq
flow_key_eq-eq a b = (λ h. ground arith, λ h. ground arith)

abbrev pub add_key : Table → FlowKey → ℕ → Option Table
add_key h k d =
    if ltb (length h.keys) h.room
    then some (record h {
      slots = λ j. if flow_key_eq j k then some d else h.slots j;
      keys = h.keys ++ k ∷ [];
    })
    else none

abbrev pub delete_key : Table → FlowKey → Option Table
delete_key h k = elim (h.slots k) [
  | none ↦ none
  | some _ ↦ some (record h { slots = λ j. if flow_key_eq j k then none else h.slots j })
]

pub add_self : (h h' : Table) (k : FlowKey) (d : ℕ) → add_key h k d ≡ some h' → h'.slots k ≡ some d
add_self h h' k d e = ground (arith, flow_key_eq-eq k k)

pub add_other :
    (h h' : Table) (k j : FlowKey) (d : ℕ)
    → add_key h k d ≡ some h'
    → j ≢ k
    → h'.slots j ≡ h.slots j
add_other h h' k j d e ne = ground (arith, flow_key_eq-eq j k)

pub del_self : (h h' : Table) (k : FlowKey) → delete_key h k ≡ some h' → h'.slots k ≡ none
del_self h h' k e = ground (arith, flow_key_eq-eq k k)

pub del_other :
    (h h' : Table) (k j : FlowKey) → delete_key h k ≡ some h' → j ≢ k → h'.slots j ≡ h.slots j
del_other h h' k j e ne = ground (arith, flow_key_eq-eq j k)

pub create_empty :
    (n : ℕ) (h : Table) (k : FlowKey)
    → ◌≡◌ {A = Option Table} (some (record { room = n; slots = λ _. none; keys = [] })) (some h)
    → h.slots k ≡ none
create_empty n h k e = ground arith

-- Freeing a position leaves the map alone.
abbrev pub small_hash : RteHash
small_hash = record {
  State = Table;
  create_hash = λ n. some (record { room = n; slots = λ _. none; keys = [] });
  lookup_data = λ h k. h.slots k;
  lookup_bulk_data = λ h ks. map h.slots ks;
  add_key_data = add_key;
  del_key = delete_key;
  get_key_with_position = λ h p. get_elem? h.keys p;
  free_key_with_position = λ h _. h;
  create_hash_empty = create_empty;
  lookup_bulk_each = λ h ks few. refl;
  lookup_add_self = add_self;
  lookup_add_other = add_other;
  lookup_del_self = del_self;
  lookup_del_other = del_other;
  lookup_free = λ h p k. refl;
}

abbrev pub web : FlowKey
web = record { src_ip = 1; dst_ip = 2; src_port = 1000; dst_port = 80; protocol = tcp }

abbrev dns : FlowKey
dns = record { src_ip = 1; dst_ip = 3; src_port = 1001; dst_port = 53; protocol = udp }

abbrev mail : FlowKey
mail = record { src_ip = 4; dst_ip = 5; src_port = 1002; dst_port = 25; protocol = tcp }

-- The first flow gets cell 1 and position 0 of the hash, the second cell 0 and position 1.
abbrev pub table0 : FlowTable small_hash
table0 = create small_hash 2

abbrev table1 : FlowTable small_hash
table1 = (insert small_hash table0 web 1 drop 100).0

abbrev table2 : FlowTable small_hash
table2 = (insert small_hash table1 dns 1 forward 900).0

web_first : (insert small_hash table0 web 1 drop 100).1 ≡ inserted
unfolding insert create flow_key_eq
web_first = refl

web_fresh : (lookup small_hash table2 web 7).1 ≡ some drop
unfolding insert create flow_key_eq lookup pack
web_fresh = refl

lookup-insert_example :
    (lookup small_hash (insert small_hash table0 web 1 drop 100).0 web 7).1 ≡ some drop
lookup-insert_example =
    lookup-insert small_hash table0 web 1 drop 100 7 (omega arith) (omega arith) web_first

insert-IsOwned_example : IsOwned small_hash table1
insert-IsOwned_example =
    insert-IsOwned small_hash table0 web 1 drop 100 (create-IsOwned small_hash 2)

lookup-insert_other_example :
    (lookup small_hash (insert small_hash table1 dns 1 forward 900).0 web 7).1
    ≡ (lookup small_hash table1 web 7).1
lookup-insert_other_example =
    lookup-insert_other small_hash table1 dns web 1 forward 900 7 insert-IsOwned_example
      (ground arith)

abbrev scan2 : Scan small_hash
scan2 = record {
  cells = table2.cells;
  hash = record {
    room = 2;
    slots = λ j. if flow_key_eq j dns then some 0 else if flow_key_eq j web then some 1 else none;
    keys = web ∷ dns ∷ [];
  };
  expired = [];
}

web-IsStale : IsStale small_hash scan2 500 1
unfolding insert create flow_key_eq pack
web-IsStale = record { occupied = ground arith; before = omega arith }

-- The stale cell is the web flow's, and the flow that goes is the fresh one.
purge_step-frees_owned_example :
    ((purge_step small_hash 500 1 scan2).expired ≡ 1 ∷ [])
    × ((purge_step small_hash 500 1 scan2).hash.slots web ≡ some 1)
    × ((purge_step small_hash 500 1 scan2).hash.slots dns ≡ none)
unfolding flow_key_eq
purge_step-frees_owned_example =
    purge_step-frees_owned small_hash scan2 500 1 web dns
      (record scan2.hash { slots = λ j. if flow_key_eq j dns then none else scan2.hash.slots j })
      web-IsStale refl refl (ground arith) refl

-- After a purge at time 1000 the next free cell is the web flow's, and the web flow, which was to be
-- dropped, is looked up with the action of the mail flow.
abbrev table3 : FlowTable small_hash
table3 = purge_expired small_hash table2 1000 500 (λ _. false)

mail_for_web :
    (lookup small_hash (insert small_hash table3 mail 1 forward 1001).0 web 1002).1 ≡ some forward
unfolding purge_expired insert create flow_key_eq lookup pack
mail_for_web = refl

abbrev shared : FlowTable small_hash
shared = record table2 { hash = some (record scan2.hash { keys = [] }); free_list = 1 ∷ [] }

lookup-insert_shared_example :
    (lookup small_hash (insert small_hash shared mail 1 forward 1001).0 web 1002).1 ≡ some forward
unfolding insert create flow_key_eq pack
lookup-insert_shared_example =
    lookup-insert_shared small_hash shared (record scan2.hash { keys = [] }) web mail 1 [] 1 forward
      1001 1002 refl refl refl refl (omega arith) (omega arith) refl

-- A hash whose position 1 does hold the owner of cell 1.
abbrev agreeing : Scan small_hash
agreeing = record scan2 {
  hash = record {
    room = 2;
    slots = λ j. if flow_key_eq j web then some 1 else none;
    keys = dns ∷ web ∷ [];
  };
}

agreeing-Owns : Owns small_hash agreeing.hash (0 ∷ [])
agreeing-Owns = record {
  single = λ k j i p q. ground (arith, flow_key_eq-eq k web, flow_key_eq-eq j web);
  apart = λ k i p. ground (arith, flow_key_eq-eq k web);
  distinct = (tt, tt);
}

purge_step-Owns_example :
    Owns small_hash
      (purge_step small_hash 500 1 agreeing).hash
      ((purge_step small_hash 500 1 agreeing).expired ++ 0 ∷ [])
purge_step-Owns_example =
    purge_step-Owns small_hash agreeing 500 1 (0 ∷ []) agreeing-Owns
      (λ j at. ground (arith, flow_key_eq-eq j web))

-- The first result is left from an earlier burst.
abbrev stale : List BulkResult
stale = record { action = drop; valid = true } ∷ no_result ∷ []

lookup_bulk-lookup_each_example :
    lookup_bulk small_hash shared (mail ∷ web ∷ []) 7 stale
    ≡ each_written small_hash shared (mail ∷ web ∷ []) 7 stale
lookup_bulk-lookup_each_example =
    lookup_bulk-lookup_each small_hash shared (record scan2.hash { keys = [] }) (mail ∷ web ∷ []) 7
      stale refl (omega arith)

-- Two chunks.
bulk_flow_lookup-lookup_each_example :
    bulk_flow_lookup small_hash shared (mail ∷ replicate 69 web) 7 (replicate 70 no_result)
    ≡ each_written small_hash shared (mail ∷ replicate 69 web) 7 (replicate 70 no_result)
bulk_flow_lookup-lookup_each_example =
    bulk_flow_lookup-lookup_each small_hash shared (record scan2.hash { keys = [] })
      (mail ∷ replicate 69 web) 7 (replicate 70 no_result) refl
