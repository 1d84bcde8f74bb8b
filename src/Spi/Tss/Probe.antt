-- ===== src/Spi/Tss/Probe.antt =====
-- Probing the exact-match table of include/dpdk/spi/spi_rule_engine.cpp after an insertion.
use dpdk_cpp.Base.{
  ℕ, zero, suc, ◌+◌, none, some, ◌≡◌, ◌≢◌, refl, ap, ◌∙◌, arith, ◌==◌, if◌then◌else◌, Option-cases,
  inl, inr,
}
use dpdk_cpp.Flow.Key.{FlowKey, flow_key_eq_iff}
use dpdk_cpp.Spi.Match.{no_index}
use dpdk_cpp.Spi.Tss.{Tss, TssEntry, find_unused, insert_key, probe_from, probe_tss, put}

-- The slot found is one that is unused.
find_unused_lem :
    (slots : ℕ → TssEntry) (hash probe rounds i : ℕ)
    → find_unused slots hash probe rounds ≡ some i
    → (slots i).group_idx ≡ no_index
unfolding find_unused
find_unused_lem slots hash probe zero i e = ground arith
find_unused_lem slots hash probe (suc rounds) i e =
    ground (arith, find_unused_lem slots hash (probe + 1) rounds i)

-- A key that is found stays found when an unused slot is written.
pub probe_from-put :
    (slots : ℕ → TssEntry) (v : TssEntry) (key : FlowKey) (i hash probe rounds : ℕ)
    → (slots i).group_idx ≡ no_index
    → probe_from slots key hash probe rounds ≢ no_index
    → probe_from (put slots i v) key hash probe rounds ≡ probe_from slots key hash probe rounds
unfolding probe_from
probe_from-put slots v key i hash probe zero u h = absurd (h refl)
probe_from-put slots v key i hash probe (suc rounds) u h =
    ground (arith, probe_from-put slots v key i hash (probe + 1) rounds u)

-- A key that is not found is found where it is put.
pub probe_from_new :
    (slots : ℕ → TssEntry) (key : FlowKey) (g i hash probe rounds : ℕ)
    → find_unused slots hash probe rounds ≡ some i
    → probe_from slots key hash probe rounds ≡ no_index
    → g ≢ no_index
    → probe_from (put slots i (record { key = key; group_idx = g })) key hash probe rounds ≡ g
unfolding probe_from find_unused
probe_from_new slots key g i hash probe zero e h n = ground arith
probe_from_new slots key g i hash probe (suc rounds) e h n = ground (
  arith,
  (flow_key_eq_iff key key).1 refl,
  find_unused_lem slots hash (probe + 1) rounds i,
  probe_from_new slots key g i hash (probe + 1) rounds,
)

-- The new group for a key that was not found, the old one otherwise.
probe_from-put_either :
    (slots : ℕ → TssEntry) (key : FlowKey) (g i hash probe rounds : ℕ)
    → find_unused slots hash probe rounds ≡ some i
    → g ≢ no_index
    → probe_from (put slots i (record { key = key; group_idx = g })) key hash probe rounds ≡ (
        if probe_from slots key hash probe rounds == no_index
        then g
        else probe_from slots key hash probe rounds)
probe_from-put_either slots key g i hash probe rounds e n = ground (
  arith,
  find_unused_lem slots hash probe rounds i e,
  probe_from_new slots key g i hash probe rounds e,
  probe_from-put slots (record { key = key; group_idx = g }) key i hash probe rounds,
)

-- The number of entries does not matter once there is one.
sized : (size found : ℕ) → (if size + 1 == 0 then no_index else found) ≡ found
sized size found = ground arith

sized_kept :
    (size found found' : ℕ)
    → (found ≢ no_index → found' ≡ found)
    → (if size == 0 then no_index else found) ≢ no_index
    → (if size + 1 == 0 then no_index else found') ≡ (if size == 0 then no_index else found)
sized_kept size found found' h n = ground (arith, h)

module _ (rte_hash_crc : FlowKey → ℕ) where
  pub insert_key_at :
      (t : Tss) (key : FlowKey) (g i : ℕ)
      → find_unused t.slots (rte_hash_crc key) 0 128 ≡ some i
      → insert_key rte_hash_crc t key g ≡ record t {
        slots = put t.slots i (record { key = key; group_idx = g });
        size = t.size + 1;
      }
  unfolding insert_key
  insert_key_at t key g i e = rw (e, insert_key) refl

  pub insert_key_full :
      (t : Tss) (key : FlowKey) (g : ℕ)
      → find_unused t.slots (rte_hash_crc key) 0 128 ≡ none
      → insert_key rte_hash_crc t key g ≡ t
  unfolding insert_key
  insert_key_full t key g e = rw (e, insert_key) refl

  -- When a slot is left, a key inserted for a group (a number other than `kNoTssHit`) is found
  -- afterwards: for the group that the probing of the slots gave before, if it gave one, and for the
  -- new group otherwise.
  pub probe_tss-insert_key :
      (t : Tss) (key : FlowKey) (g i : ℕ)
      → find_unused t.slots (rte_hash_crc key) 0 128 ≡ some i
      → g ≢ no_index
      → probe_tss rte_hash_crc (insert_key rte_hash_crc t key g) key ≡ (
          if probe_from t.slots key (rte_hash_crc key) 0 128 == no_index
          then g
          else probe_from t.slots key (rte_hash_crc key) 0 128)
  unfolding probe_tss
  probe_tss-insert_key t key g i e n =
      ap (λ t'. probe_tss rte_hash_crc t' key) (insert_key_at t key g i e)
      ∙ sized t.size (
          probe_from (put t.slots i (record { key = key; group_idx = g })) key (rte_hash_crc key) 0
            128)
      ∙ probe_from-put_either t.slots key g i (rte_hash_crc key) 0 128 e n

  pub probe_tss-insert_key_kept :
      (t : Tss) (key j : FlowKey) (g : ℕ)
      → probe_tss rte_hash_crc t j ≢ no_index
      → probe_tss rte_hash_crc (insert_key rte_hash_crc t key g) j ≡ probe_tss rte_hash_crc t j
  unfolding probe_tss insert_key
  probe_tss-insert_key_kept t key j g h =
      elim (Option-cases (find_unused t.slots (rte_hash_crc key) 0 128)) [
        | inl none_e ↦ rw (none_e, insert_key) refl
        | inr (i, i_e) ↦
            ap (λ t'. probe_tss rte_hash_crc t' j) (insert_key_at t key g i i_e)
            ∙ sized_kept t.size (probe_from t.slots j (rte_hash_crc j) 0 128)
                (probe_from (put t.slots i (record { key = key; group_idx = g })) j (rte_hash_crc j)
                  0 128)
                (probe_from-put t.slots (record { key = key; group_idx = g }) j i (rte_hash_crc j) 0
                  128 (find_unused_lem t.slots (rte_hash_crc key) 0 128 i i_e))
                h
      ]
