-- ===== src/Flow/Table/Purge.antt =====
-- One round of `PurgeExpired` on cell i. The code takes the key at position i of the hash for the key
-- that owns cell i; these theorems say what happens when it is that key, and when it is not.
use dpdk_cpp.Base.{
  ℕ, ◌^◌, ◌≡◌, ◌≢◌, ◌<◌, refl, sym, ◌∙◌, List, ◌∷◌, ◌++◌, none, some, arith, Option-cases,
  Bool-cases, inl, inr, ◌||◌, not, ltb, ◌==◌,
}
use dpdk_cpp.Flow.Hash.{RteHash}
use dpdk_cpp.Flow.Key.{FlowKey}
use dpdk_cpp.Flow.Table.{
  FlowTable, FlowInsertResult, inserted, lookup, insert, purge_cell, purge_step, Scan,
}
use dpdk_cpp.Flow.Table.Lookup.{
  Inserts, insert-Inserts, updated, added, exhausted, refused, lookup-seen, seen-store,
}
use dpdk_cpp.Flow.Table.Ownership.{Owns}
use dpdk_cpp.Packet.{Action}

module _ (rte : RteHash) where
  open rte use {
    State, lookup_data, get_key_with_position, del_key, free_key_with_position, lookup_del_self,
    lookup_del_other, lookup_free, lookup_add_other,
  }

  -- Cell i was last seen before the threshold.
  pub record IsStale (s : Scan rte) (threshold i : ℕ) : Type 0 where
    pub occupied : (s.cells i).action_and_count ≢ 0
    pub before : (s.cells i).last_seen_tsc < threshold

  evict :
      (s : Scan rte) (threshold i : ℕ) (j : FlowKey) (h' : State)
      → IsStale s threshold i
      → get_key_with_position s.hash i ≡ some j
      → del_key s.hash j ≡ some h'
      → ((purge_step rte threshold i s).hash ≡ free_key_with_position h' i)
        × ((purge_step rte threshold i s).expired ≡ i ∷ s.expired)
  unfolding purge_step purge_cell
  evict s threshold i j h' v at gone = ground arith

  -- Take a stale cell i that belongs to the flow k, while position i of the hash holds another flow
  -- j. Then the round deletes j, however fresh, and gives cell i back to be reused although k still
  -- refers to it.
  pub purge_step-frees_owned :
      (s : Scan rte) (threshold i : ℕ) (k j : FlowKey) (h' : State)
      → IsStale s threshold i
      → lookup_data s.hash k ≡ some i
      → get_key_with_position s.hash i ≡ some j
      → j ≢ k
      → del_key s.hash j ≡ some h'
      → ((purge_step rte threshold i s).expired ≡ i ∷ s.expired)
        × (lookup_data (purge_step rte threshold i s).hash k ≡ some i)
        × (lookup_data (purge_step rte threshold i s).hash j ≡ none)
  purge_step-frees_owned s threshold i k j h' v owner at ne gone =
      let (after, freed) = evict s threshold i j h' v at gone in
      (
        freed,
        rw after
            (lookup_free h' i k ∙ lookup_del_other s.hash h' j k gone (λ e. ne (sym e)) ∙ owner),
        rw after (lookup_free h' i j ∙ lookup_del_self s.hash h' j gone),
      )

  evict-Owns :
      (h h' : State) (j : FlowKey) (i : ℕ) (free : List ℕ)
      → Owns rte h free
      → lookup_data h j ≡ some i
      → del_key h j ≡ some h'
      → Owns rte (free_key_with_position h' i) (i ∷ free)
  evict-Owns h h' j i free v owner gone = record {
    single = λ a b x pa pb. v.single a b x (old a x pa) (old b x pb);
    apart = λ a x pa. (ne a x pa, v.apart a x (old a x pa));
    distinct = (v.apart j i owner, v.distinct);
  }
    where
      other : (a : FlowKey) (x : ℕ) → lookup_data (free_key_with_position h' i) a ≡ some x → a ≢ j
      other a x pa same = cc (lookup_free h' i a, lookup_del_self h h' j gone)

      old :
          (a : FlowKey) (x : ℕ)
          → lookup_data (free_key_with_position h' i) a ≡ some x
          → lookup_data h a ≡ some x
      old a x pa = sym (lookup_free h' i a ∙ lookup_del_other h h' j a gone (other a x pa)) ∙ pa

      ne : (a : FlowKey) (x : ℕ) → lookup_data (free_key_with_position h' i) a ≡ some x → x ≢ i
      ne a x pa same = other a x pa (v.single a j i (old a x pa ∙ rw same) owner)

  data Purges (s : Scan rte) (threshold i : ℕ) (r : Scan rte) : Type 0 where
    kept : r ≡ s → Purges s threshold i r
    evicted :
        (j : FlowKey) (h' : State)
        → IsStale s threshold i
        → get_key_with_position s.hash i ≡ some j
        → del_key s.hash j ≡ some h'
        → r.hash ≡ free_key_with_position h' i
        → r.expired ≡ i ∷ s.expired
        → Purges s threshold i r

  purge_step-Purges :
      (s : Scan rte) (threshold i : ℕ) → Purges s threshold i (purge_step rte threshold i s)
  unfolding purge_step purge_cell
  purge_step-Purges s threshold i =
      elim (Bool-cases
        ((s.cells i).action_and_count == 0 || not (ltb (s.cells i).last_seen_tsc threshold))) [
          | inl live ↦ kept (ground arith)
          | inr stale ↦ elim (Option-cases (get_key_with_position s.hash i)) [
            | inl unused ↦ kept (ground arith)
            | inr (j, at) ↦ elim (Option-cases (del_key s.hash j)) [
              | inl absent ↦ kept (ground arith)
              | inr (h', gone) ↦
                  evicted j h' (record { occupied = ground arith; before = ground arith }) at gone
                    (ground arith) (ground arith)
            ]
          ]
        ]

  -- If position i of the hash holds the flow that owns cell i, or nothing, then after the round still
  -- no two flows share a cell, and no cell that is free or about to be freed belongs to a flow.
  pub purge_step-Owns :
      (s : Scan rte) (threshold i : ℕ) (free : List ℕ)
      → Owns rte s.hash (s.expired ++ free)
      → ((j : FlowKey) → get_key_with_position s.hash i ≡ some j → lookup_data s.hash j ≡ some i)
      → Owns rte
          (purge_step rte threshold i s).hash
          ((purge_step rte threshold i s).expired ++ free)
  purge_step-Owns s threshold i free v agree =
      go (purge_step rte threshold i s) (purge_step-Purges s threshold i)
    where
      go : (r : Scan rte) → Purges s threshold i r → Owns rte r.hash (r.expired ++ free)
      go r (kept same) = rw same v
      go r (evicted j h' stale at gone after freed) =
          rw (after, freed) (evict-Owns s.hash h' j i (s.expired ++ free) v (agree j at) gone)

  -- Once the next free cell still belongs to the flow k, inserting a new flow n makes the lookup of k
  -- give the action of n.
  pub lookup-insert_shared :
      (t : FlowTable rte) (h : State) (k n : FlowKey) (i : ℕ) (rest : List ℕ) (count : ℕ)
      (a : Action) (tsc now : ℕ)
      → t.hash ≡ some h
      → t.free_list ≡ i ∷ rest
      → lookup_data h k ≡ some i
      → lookup_data h n ≡ none
      → 0 < count
      → count < 2 ^ 60
      → (insert rte t n count a tsc).1 ≡ inserted
      → (lookup rte (insert rte t n count a tsc).0 k now).1 ≡ some a
  lookup-insert_shared t h k n i rest count a tsc now e f owner missing p q ok =
      go (insert rte t n count a tsc) (insert-Inserts rte t n count a tsc) ok
    where
      ne : k ≢ n
      ne same = cc

      go :
          (r : FlowTable rte × FlowInsertResult)
          → Inserts rte t n count a tsc r
          → r.1 ≡ inserted
          → (lookup rte r.0 k now).1 ≡ some a
      go r (updated g x eg found done) s = let there : h ≡ g = ground (arith, e, eg) in cc
      go r (added g g' x others eg none' fx stored done) s =
          let here : i ≡ x = ground (arith, f, fx) in
          let there : h ≡ g = ground (arith, e, eg) in
          rw done (
            lookup-seen rte _ g' k now refl
            ∙ rw (lookup_add_other g g' n k x stored ne, ← there, owner, here)
                (seen-store rte t x count a tsc p q))
      go r (exhausted done) s = absurd (ground arith)
      go r (refused g x others eg none' fx done) s = absurd (ground arith)
