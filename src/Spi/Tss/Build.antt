-- ===== src/Spi/Tss/Build.antt =====
-- What the exact-match table of include/dpdk/spi/spi_rule_engine.cpp holds after
-- `BuildTssFromGroups`.
use dpdk_cpp.Base.{
  ℕ, Bool, true, false, List, [], ◌∷◌, ◌≡◌, ◌≢◌, refl, sym, ◌∙◌, ap, ◌==◌, if◌then◌else◌,
  Bool-cases, inl, inr,
}
use dpdk_cpp.Flow.Key.{FlowKey}
use dpdk_cpp.Spi.Filter.{CompiledFilter}
use dpdk_cpp.Spi.Match.{CompiledFilterGroup, no_index}
use dpdk_cpp.Spi.Tss.Probe.{probe_tss-insert_key_kept}
use mathlib.Core.Path.{subst}
use dpdk_cpp.Spi.Tss.{
  Tss, add_filter, add_filters, add_groups, build_tss_from_groups, filter_key, insert_key,
  is_tss_eligible, is_wildcard, note_wildcard, probe_from, probe_tss,
}
use dpdk_cpp.Spi.Tss.Entries.{Entries, inserted-Entries, probe_from-Entries}

-- An eligible filter of the list has this key.
pub data HasKey (key : FlowKey) : List CompiledFilter → Type 0 where
  first_filter :
      (filter : CompiledFilter) (filters : List CompiledFilter)
      → is_tss_eligible filter ≡ true
      → filter_key filter ≡ key
      → HasKey key (filter ∷ filters)
  later_filter :
      (filter : CompiledFilter) (filters : List CompiledFilter)
      → HasKey key filters
      → HasKey key (filter ∷ filters)

-- A group of the list has this category and an eligible filter with this key.
pub data IsRule (category : ℕ) (key : FlowKey) : List CompiledFilterGroup → Type 0 where
  first_group :
      (group : CompiledFilterGroup) (groups : List CompiledFilterGroup)
      → group.category_index ≡ category
      → HasKey key group.filters
      → IsRule category key (group ∷ groups)
  later_group :
      (group : CompiledFilterGroup) (groups : List CompiledFilterGroup)
      → IsRule category key groups
      → IsRule category key (group ∷ groups)

module _ (rte_hash_crc : FlowKey → ℕ) where
  add_filter_eligible :
      (t : Tss) (category : ℕ) (filter : CompiledFilter)
      → is_tss_eligible filter ≡ true
      → add_filter rte_hash_crc t category filter
        ≡ insert_key rte_hash_crc
            (note_wildcard rte_hash_crc t (is_wildcard filter))
            (filter_key filter)
            category
  unfolding add_filter
  add_filter_eligible t category filter e = rw (e, add_filter) refl

  add_filter_passed :
      (t : Tss) (category : ℕ) (filter : CompiledFilter)
      → is_tss_eligible filter ≡ false
      → add_filter rte_hash_crc t category filter
        ≡ note_wildcard rte_hash_crc t (is_wildcard filter)
  unfolding add_filter
  add_filter_passed t category filter e = rw (e, add_filter) refl

  add_filter-Entries {κ} :
      (P : ℕ → FlowKey → Type κ) (t : Tss) (category : ℕ) (filter : CompiledFilter)
      → Entries P t.slots
      → (is_tss_eligible filter ≡ true → P category (filter_key filter))
      → Entries P (add_filter rte_hash_crc t category filter).slots
  unfolding add_filter note_wildcard
  add_filter-Entries P t category filter h p = elim (Bool-cases (is_tss_eligible filter)) [
    | inl e ↦
        subst (λ (t' : Tss). Entries P t'.slots) (sym (add_filter_eligible t category filter e))
          (inserted-Entries rte_hash_crc P (note_wildcard rte_hash_crc t (is_wildcard filter))
            (filter_key filter) category _ refl h (p e))
    | inr e ↦
        subst (λ (t' : Tss). Entries P t'.slots) (sym (add_filter_passed t category filter e)) h
  ]

  add_filters-Entries {κ} :
      (P : ℕ → FlowKey → Type κ) (t : Tss) (category : ℕ) (filters : List CompiledFilter)
      → Entries P t.slots
      → ((key : FlowKey) → HasKey key filters → P category key)
      → Entries P (add_filters rte_hash_crc t category filters).slots
  unfolding add_filters
  add_filters-Entries P t category [] h p = h
  add_filters-Entries P t category (filter ∷ filters) h p =
      add_filters-Entries P (add_filter rte_hash_crc t category filter) category filters
        (add_filter-Entries P t category filter h
          (λ e. p (filter_key filter) (first_filter filter filters e refl)))
        (λ key has. p key (later_filter filter filters has))

  add_groups-Entries {κ} :
      (P : ℕ → FlowKey → Type κ) (t : Tss) (groups : List CompiledFilterGroup)
      → Entries P t.slots
      → ((category : ℕ) (key : FlowKey) → IsRule category key groups → P category key)
      → Entries P (add_groups rte_hash_crc t groups).slots
  unfolding add_groups
  add_groups-Entries P t [] h p = h
  add_groups-Entries P t (group ∷ groups) h p =
      add_groups-Entries P (add_filters rte_hash_crc t group.category_index group.filters) groups
        (add_filters-Entries P t group.category_index group.filters h
          (λ key has. p group.category_index key (first_group group groups refl has)))
        (λ category key has. p category key (later_group group groups has))

  probe_tss-Entries {κ} :
      (P : ℕ → FlowKey → Type κ) (t : Tss) (key : FlowKey)
      → Entries P t.slots
      → probe_tss rte_hash_crc t key ≢ no_index
      → P (probe_tss rte_hash_crc t key) key
  unfolding probe_tss
  probe_tss-Entries P t key h n = go (t.size == 0) n
    where
      go :
          (b : Bool)
          → (if b then no_index else probe_from t.slots key (rte_hash_crc key) 0 128) ≢ no_index
          → P (if b then no_index else probe_from t.slots key (rte_hash_crc key) 0 128) key
      go true m = absurd (m refl)
      go false m = probe_from-Entries P t.slots key (rte_hash_crc key) 0 128 h m

  -- When `BuildTssFromGroups` runs on a table none of whose slots is used and `ProbeTss` then finds a
  -- key, the category found is that of one of the groups, and this group has a filter with a full
  -- five-tuple that is the key.
  pub build_tss_from_groups-IsRule :
      (t : Tss) (groups : List CompiledFilterGroup) (key : FlowKey)
      → ((i : ℕ) → (t.slots i).group_idx ≡ no_index)
      → probe_tss rte_hash_crc (build_tss_from_groups rte_hash_crc t groups) key ≢ no_index
      → IsRule (probe_tss rte_hash_crc (build_tss_from_groups rte_hash_crc t groups) key) key groups
  unfolding build_tss_from_groups
  build_tss_from_groups-IsRule t groups key u n =
      probe_tss-Entries (λ c k. IsRule c k groups) (build_tss_from_groups rte_hash_crc t groups) key
        (add_groups-Entries (λ c k. IsRule c k groups)
          (record t { size = 0; has_wildcard_ip_rules = false }) groups (λ i m. absurd (m (u i)))
          (λ c k r. r))
        n

  add_filter_kept :
      (t : Tss) (category : ℕ) (filter : CompiledFilter) (key : FlowKey)
      → probe_tss rte_hash_crc t key ≢ no_index
      → probe_tss rte_hash_crc (add_filter rte_hash_crc t category filter) key
        ≡ probe_tss rte_hash_crc t key
  unfolding note_wildcard probe_tss
  add_filter_kept t category filter key n = elim (Bool-cases (is_tss_eligible filter)) [
    | inl e ↦
        ap (λ t'. probe_tss rte_hash_crc t' key) (add_filter_eligible t category filter e)
        ∙ probe_tss-insert_key_kept rte_hash_crc (note_wildcard rte_hash_crc t (is_wildcard filter))
            (filter_key filter) key category n
    | inr e ↦ ap (λ t'. probe_tss rte_hash_crc t' key) (add_filter_passed t category filter e)
  ]

  add_filters_kept :
      (t : Tss) (category : ℕ) (filters : List CompiledFilter) (key : FlowKey)
      → probe_tss rte_hash_crc t key ≢ no_index
      → probe_tss rte_hash_crc (add_filters rte_hash_crc t category filters) key
        ≡ probe_tss rte_hash_crc t key
  unfolding add_filters
  add_filters_kept t category [] key n = refl
  add_filters_kept t category (filter ∷ filters) key n =
      add_filters_kept (add_filter rte_hash_crc t category filter) category filters key
        (λ e. n (sym (add_filter_kept t category filter key n) ∙ e))
      ∙ add_filter_kept t category filter key n

  -- A key that `ProbeTss` finds after some groups is found for the same category after any further
  -- groups, whatever their filters are.
  pub add_groups_kept :
      (t : Tss) (groups : List CompiledFilterGroup) (key : FlowKey)
      → probe_tss rte_hash_crc t key ≢ no_index
      → probe_tss rte_hash_crc (add_groups rte_hash_crc t groups) key ≡ probe_tss rte_hash_crc t key
  unfolding add_groups
  add_groups_kept t [] key n = refl
  add_groups_kept t (group ∷ groups) key n =
      add_groups_kept (add_filters rte_hash_crc t group.category_index group.filters) groups key
        (λ e. n (sym (add_filters_kept t group.category_index group.filters key n) ∙ e))
      ∙ add_filters_kept t group.category_index group.filters key n
