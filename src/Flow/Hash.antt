-- ===== src/Flow/Hash.antt =====
-- What the flow table uses of DPDK's rte_hash (created with RW_CONCURRENCY_LF, MULTI_WRITER_ADD and
-- NO_FREE_ON_DEL), which is not part of this repository. A data pointer is the index of a cell of
-- `data_`. The laws are those of the DPDK manual: what a key is mapped to changes only by adding or
-- deleting that key.
use dpdk_cpp.Base.{ℕ, List, map, Option, none, some, ◌≡◌, ◌≢◌, ◌≤◌, length}
use dpdk_cpp.Flow.Key.{FlowKey}

pub record RteHash : Type 1 where
  pub State : Type 0
  -- `rte_hash_create` for so many entries; `none` if it fails.
  pub create_hash : ℕ → Option State
  -- `rte_hash_lookup_data`; `none` if the key is absent.
  pub lookup_data : State → FlowKey → Option ℕ
  -- `rte_hash_lookup_bulk_data`, one result for each key.
  pub lookup_bulk_data : State → List FlowKey → List (Option ℕ)
  -- `rte_hash_add_key_data`; `none` for -ENOSPC.
  pub add_key_data : State → FlowKey → ℕ → Option State
  -- `rte_hash_del_key`; `none` if the key is absent.
  pub del_key : State → FlowKey → Option State
  -- `rte_hash_get_key_with_position`; `none` for an unused position.
  pub get_key_with_position : State → ℕ → Option FlowKey
  pub free_key_with_position : State → ℕ → State
  pub create_hash_empty :
      (n : ℕ) (h : State) (k : FlowKey) → create_hash n ≡ some h → lookup_data h k ≡ none
  pub lookup_bulk_each :
      (h : State) (ks : List FlowKey)
      → length ks ≤ 64
      → lookup_bulk_data h ks ≡ map (lookup_data h) ks
  pub lookup_add_self :
      (h h' : State) (k : FlowKey) (d : ℕ)
      → add_key_data h k d ≡ some h'
      → lookup_data h' k ≡ some d
  pub lookup_add_other :
      (h h' : State) (k j : FlowKey) (d : ℕ)
      → add_key_data h k d ≡ some h'
      → j ≢ k
      → lookup_data h' j ≡ lookup_data h j
  pub lookup_del_self :
      (h h' : State) (k : FlowKey) → del_key h k ≡ some h' → lookup_data h' k ≡ none
  pub lookup_del_other :
      (h h' : State) (k j : FlowKey)
      → del_key h k ≡ some h'
      → j ≢ k
      → lookup_data h' j ≡ lookup_data h j
  pub lookup_free :
      (h : State) (p : ℕ) (k : FlowKey)
      → lookup_data (free_key_with_position h p) k ≡ lookup_data h k
