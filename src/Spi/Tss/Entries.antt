-- ===== src/Spi/Tss/Entries.antt =====
-- A property of all entries of the exact-match table of include/dpdk/spi/spi_rule_engine.cpp.
use dpdk_cpp.Base.{
  ℕ, zero, suc, ◌+◌, Bool, true, false, Option, none, some, ◌≡◌, ◌≢◌, refl, sym, ◌==◌,
  if◌then◌else◌,
}
use dpdk_cpp.Flow.Key.{FlowKey, flow_key_eq, flow_key_eq_iff}
use dpdk_cpp.Spi.Match.{no_index}
use dpdk_cpp.Spi.Tss.Probe.{insert_key_at, insert_key_full}
use mathlib.Core.Path.{subst}
use dpdk_cpp.Spi.Tss.{Tss, TssEntry, find_unused, insert_key, probe_from, put, slot}

-- Every entry that is used has a property of its group and its key.
abbrev pub Entries {κ} : (ℕ → FlowKey → Type κ) → (ℕ → TssEntry) → Type κ
Entries P slots = (i : ℕ) → (slots i).group_idx ≢ no_index → P (slots i).group_idx (slots i).key

chosen {κ} :
    (P : ℕ → FlowKey → Type κ) (b : Bool) (v w : TssEntry)
    → P v.group_idx v.key
    → (w.group_idx ≢ no_index → P w.group_idx w.key)
    → (if b then v else w).group_idx ≢ no_index
    → P (if b then v else w).group_idx (if b then v else w).key
chosen P true v w p h n = p
chosen P false v w p h n = h n

pub put-Entries {κ} :
    (P : ℕ → FlowKey → Type κ) (slots : ℕ → TssEntry) (i : ℕ) (v : TssEntry)
    → Entries P slots
    → P v.group_idx v.key
    → Entries P (put slots i v)
put-Entries P slots i v h p j n = chosen P (j == i) v (slots j) p (h j) n

found_here {κ} :
    (P : ℕ → FlowKey → Type κ) (entry : TssEntry) (key : FlowKey) (rest : ℕ) (empty same : Bool)
    → (entry.group_idx == no_index) ≡ empty
    → flow_key_eq entry.key key ≡ same
    → (entry.group_idx ≢ no_index → P entry.group_idx entry.key)
    → (rest ≢ no_index → P rest key)
    → (if empty then no_index else if same then entry.group_idx else rest) ≢ no_index
    → P (if empty then no_index else if same then entry.group_idx else rest) key
found_here P entry key rest true same e s h r n = absurd (n refl)
found_here P entry key rest false true e s h r n =
    subst (P entry.group_idx) ((flow_key_eq_iff entry.key key).0 s) (h n)
found_here P entry key rest false false e s h r n = r n

-- What a probe gives is the group of an entry with the key.
pub probe_from-Entries {κ} :
    (P : ℕ → FlowKey → Type κ) (slots : ℕ → TssEntry) (key : FlowKey) (hash probe rounds : ℕ)
    → Entries P slots
    → probe_from slots key hash probe rounds ≢ no_index
    → P (probe_from slots key hash probe rounds) key
unfolding probe_from
probe_from-Entries P slots key hash probe zero h n = absurd (n refl)
probe_from-Entries P slots key hash probe (suc rounds) h n =
    let entry = slots (slot hash probe) in
    found_here P entry key (probe_from slots key hash (probe + 1) rounds)
      (entry.group_idx == no_index) (flow_key_eq entry.key key) refl refl (h (slot hash probe))
      (probe_from-Entries P slots key hash (probe + 1) rounds h) n

module _ (rte_hash_crc : FlowKey → ℕ) where
  pub inserted-Entries {κ} :
      (P : ℕ → FlowKey → Type κ) (t : Tss) (key : FlowKey) (g : ℕ) (found : Option ℕ)
      → find_unused t.slots (rte_hash_crc key) 0 128 ≡ found
      → Entries P t.slots
      → P g key
      → Entries P (insert_key rte_hash_crc t key g).slots
  unfolding insert_key
  inserted-Entries P t key g none e h p =
      subst (λ (t' : Tss). Entries P t'.slots) (sym (insert_key_full rte_hash_crc t key g e)) h
  inserted-Entries P t key g (some i) e h p =
      subst (λ (t' : Tss). Entries P t'.slots) (sym (insert_key_at rte_hash_crc t key g i e))
        (put-Entries P t.slots i (record { key = key; group_idx = g }) h p)
