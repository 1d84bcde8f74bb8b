-- ===== src/Flow/Table/Ownership.antt =====
-- Which flow owns which cell of the flow table: no two flows share a cell, and no free cell belongs
-- to a flow.
use dpdk_cpp.Base.{
  ℕ, zero, suc, ◌≤◌, ◌≡◌, ◌≢◌, refl, sym, ◌∙◌, List, ◌∷◌, some, arith, Absent, IsDistinct,
  Option-cases, inl, inr,
}
use dpdk_cpp.Flow.Hash.{RteHash}
use dpdk_cpp.Flow.Key.{FlowKey, FlowKey-discrete}
use dpdk_cpp.Flow.Table.{FlowTable, FlowInsertResult, lookup, insert, create, all_slots, store}
use dpdk_cpp.Flow.Table.Lookup.{
  Inserts, insert-Inserts, updated, added, exhausted, refused, lookup-seen, lookup-unset, seen_at,
  seen_at-store,
}
use dpdk_cpp.Packet.{Action}

module _ (rte : RteHash) where
  open rte use {State, lookup_data, add_key_data, lookup_add_self, lookup_add_other}

  pub record Owns (h : State) (free : List ℕ) : Type 0 where
    pub single :
        (k j : FlowKey) (i : ℕ) → lookup_data h k ≡ some i → lookup_data h j ≡ some i → k ≡ j
    pub apart : (k : FlowKey) (i : ℕ) → lookup_data h k ≡ some i → Absent i free
    pub distinct : IsDistinct free

  abbrev pub IsOwned : FlowTable rte → Type 0
  IsOwned t = (h : State) → t.hash ≡ some h → Owns h t.free_list

  add-Owns :
      (h h' : State) (k : FlowKey) (i : ℕ) (rest : List ℕ)
      → Owns h (i ∷ rest)
      → add_key_data h k i ≡ some h'
      → Owns h' rest
  add-Owns h h' k i rest v stored = record {
    single = λ a b x pa pb. elim (FlowKey-discrete a k) [
      | yes ak ↦ elim (FlowKey-discrete b k) [
        | yes bk ↦ ak ∙ sym bk
        | no bk ↦ absurd ((v.apart b i (old b bk ∙ pb ∙ sym pa ∙ at_k a ak)).0 refl)
      ]
      | no ak ↦ elim (FlowKey-discrete b k) [
        | yes bk ↦ absurd ((v.apart a i (old a ak ∙ pa ∙ sym pb ∙ at_k b bk)).0 refl)
        | no bk ↦ v.single a b x (old a ak ∙ pa) (old b bk ∙ pb)
      ]
    ];
    apart = λ a x pa. elim (FlowKey-discrete a k) [
      | yes ak ↦ let e : x ≡ i = ground (arith, sym pa ∙ at_k a ak) in rw e v.distinct.0
      | no ak ↦ (v.apart a x (old a ak ∙ pa)).1
    ];
    distinct = v.distinct.1;
  }
    where
      at_k : (a : FlowKey) → a ≡ k → lookup_data h' a ≡ some i
      at_k a e = rw e (lookup_add_self h h' k i stored)

      old : (a : FlowKey) → a ≢ k → lookup_data h a ≡ lookup_data h' a
      old a ne = sym (lookup_add_other h h' k a i stored ne)

  -- Whatever the outcome of an insertion, no two flows share a cell afterwards, no free cell belongs
  -- to a flow and no cell is twice in the free list, if that was so before.
  pub insert-IsOwned :
      (t : FlowTable rte) (k : FlowKey) (n : ℕ) (a : Action) (tsc : ℕ)
      → IsOwned t
      → IsOwned (insert rte t k n a tsc).0
  insert-IsOwned t k n a tsc v = go (insert rte t k n a tsc) (insert-Inserts rte t k n a tsc)
    where
      go : (r : FlowTable rte × FlowInsertResult) → Inserts rte t k n a tsc r → IsOwned r.0
      go r (updated h i e found done) = rw done v
      go r (exhausted done) = rw done v
      go r (refused h i rest e missing f done) = rw done v
      go r (added h h' i rest e missing f stored done) = rw done λ g eg.
          let same : h' ≡ g = ground (arith, eg) in
          rw (← same) (add-Owns h h' k i rest (rw f at (v h e)) stored)

  -- Whatever the outcome of inserting one flow, another flow that is in the table is looked up as
  -- before, if no two flows share a cell and no free cell belongs to a flow.
  pub lookup-insert_other :
      (t : FlowTable rte) (k j : FlowKey) (n : ℕ) (a : Action) (tsc now : ℕ)
      → IsOwned t
      → j ≢ k
      → (lookup rte (insert rte t k n a tsc).0 j now).1 ≡ (lookup rte t j now).1
  lookup-insert_other t k j n a tsc now v ne =
      go (insert rte t k n a tsc) (insert-Inserts rte t k n a tsc)
    where
      unchanged :
          (h : State) (i : ℕ)
          → ((x : ℕ) → lookup_data h j ≡ some x → x ≢ i)
          → seen_at rte (store rte t i n a tsc).cells (lookup_data h j)
            ≡ seen_at rte t.cells (lookup_data h j)
      unchanged h i apart = elim (Option-cases (lookup_data h j)) [
        | inl e ↦ rw e
        | inr (x, e) ↦ rw e (seen_at-store rte t i x n a tsc (apart x e))
      ]

      go :
          (r : FlowTable rte × FlowInsertResult)
          → Inserts rte t k n a tsc r
          → (lookup rte r.0 j now).1 ≡ (lookup rte t j now).1
      go r (updated h i e found done) = rw done (
          lookup-seen rte _ h j now e
          ∙ unchanged h i (λ x at same. ne ((v h e).single j k i (at ∙ rw same) found))
          ∙ sym (lookup-seen rte t h j now e))
      go r (exhausted done) = rw done (elim (Option-cases t.hash) [
        | inl e ↦ lookup-unset rte _ j now e ∙ sym (lookup-unset rte t j now e)
        | inr (h, e) ↦ lookup-seen rte _ h j now e ∙ sym (lookup-seen rte t h j now e)
      ])
      go r (refused h i rest e missing f done) = rw done (
          lookup-seen rte _ h j now e
          ∙ unchanged h i (λ x at same. (rw f at ((v h e).apart j x at)).0 same)
          ∙ sym (lookup-seen rte t h j now e))
      go r (added h h' i rest e missing f stored done) = rw done (
          lookup-seen rte _ h' j now refl
          ∙ rw (lookup_add_other h h' k j i stored ne)
              (unchanged h i (λ x at same. (rw f at ((v h e).apart j x at)).0 same))
          ∙ sym (lookup-seen rte t h j now e))

  Absent-all_slots : (n m : ℕ) → n ≤ m → Absent m (all_slots n)
  unfolding all_slots
  Absent-all_slots zero m h = tt
  Absent-all_slots (suc n) m h = (omega arith, Absent-all_slots n m (omega arith))

  all_slots-IsDistinct : (n : ℕ) → IsDistinct (all_slots n)
  unfolding all_slots
  all_slots-IsDistinct zero = tt
  all_slots-IsDistinct (suc n) = (Absent-all_slots n n (omega arith), all_slots-IsDistinct n)

  empty-Owns : (max : ℕ) (h : State) → rte.create_hash max ≡ some h → Owns h (all_slots max)
  empty-Owns max h made = record {
    single = λ k j i e _. absurd (none_of k i e);
    apart = λ k i e. absurd (none_of k i e);
    distinct = all_slots-IsDistinct max;
  }
    where
      none_of : (k : FlowKey) (i : ℕ) → lookup_data h k ≡ some i → ⊥
      none_of k i e = cc (rte.create_hash_empty max h k made)

  created :
      (max : ℕ) (h : State)
      → (create rte max).hash ≡ some h
      → (rte.create_hash max ≡ some h) × ((create rte max).free_list ≡ all_slots max)
  unfolding create
  created max h e = ground arith

  -- A new table starts that way.
  pub create-IsOwned : (max : ℕ) → IsOwned (create rte max)
  create-IsOwned max h e = let (made, free) = created max h e in rw free (empty-Owns max h made)
