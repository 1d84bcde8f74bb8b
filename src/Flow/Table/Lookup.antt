-- ===== src/Flow/Table/Lookup.antt =====
-- `Insert` and `Lookup` of the flow table together: what a flow gets back, and the bulk lookup.
use dpdk_cpp.Base.{
  ℕ, ◌+◌, ◌^◌, ◌%◌, ◌<◌, ◌≡◌, ◌≢◌, refl, ◌∙◌, List, [], ◌∷◌, Option, none, some, arith,
  Option-cases, inl, inr, ◌==◌, if◌then◌else◌,
}
use dpdk_cpp.Flow.Hash.{RteHash}
use dpdk_cpp.Flow.Key.{FlowKey}
use dpdk_cpp.Flow.Table.{
  FlowData, FlowTable, FlowInsertResult, inserted, full, pack, decode_packed, read_found, lookup,
  insert, insert_new, add_new, store,
}
use dpdk_cpp.Packet.{Action, forward, drop}

-- A count that fits its sixty bits keeps the word from looking like an empty cell.
pack-pos :
    (match_count : ℕ) (a : Action) → 0 < match_count → match_count < 2 ^ 60 → 0 < pack match_count a
unfolding pack
pack-pos n forward p q = omega arith
pack-pos n drop p q = omega arith

decode_packed-pack : (n : ℕ) (a : Action) → decode_packed (pack n a) ≡ a
unfolding decode_packed pack
decode_packed-pack n forward = ground arith
decode_packed-pack n drop = ground arith

module _ (rte : RteHash) where
  open rte use {State, lookup_data, add_key_data, lookup_add_self, lookup_add_other}

  -- What `Lookup` answers for a cell, without the touch.
  abbrev pub seen : (ℕ → FlowData) → ℕ → Option Action
  seen cells i =
      if (cells i).action_and_count == 0
      then none
      else some (decode_packed (cells i).action_and_count)

  abbrev pub seen_at : (ℕ → FlowData) → Option ℕ → Option Action
  seen_at cells none = none
  seen_at cells (some i) = seen cells i

  read_found-seen :
      (t : FlowTable rte) (now : ℕ) (o : Option ℕ) → (read_found rte t now o).1 ≡ seen_at t.cells o
  unfolding read_found
  read_found-seen t now none = refl
  read_found-seen t now (some i) = ground arith

  pub lookup-seen :
      (t : FlowTable rte) (h : State) (k : FlowKey) (now : ℕ)
      → t.hash ≡ some h
      → (lookup rte t k now).1 ≡ seen_at t.cells (lookup_data h k)
  unfolding lookup
  lookup-seen t h k now e = rw (e, lookup) (read_found-seen _ now (lookup_data h k))

  pub lookup-unset :
      (t : FlowTable rte) (k : FlowKey) (now : ℕ) → t.hash ≡ none → (lookup rte t k now).1 ≡ none
  unfolding lookup
  lookup-unset t k now e = ground arith

  pub seen-store :
      (t : FlowTable rte) (i match_count : ℕ) (a : Action) (tsc : ℕ)
      → 0 < match_count
      → match_count < 2 ^ 60
      → seen (store rte t i match_count a tsc).cells i ≡ some a
  seen-store t i n a tsc p q = ground (arith, pack-pos n a, decode_packed-pack n a)

  -- The four ways in which an insertion ends.
  pub data Inserts (t : FlowTable rte) (k : FlowKey) (n : ℕ) (a : Action) (tsc : ℕ)
      (r : FlowTable rte × FlowInsertResult) : Type 0 where
    updated :
        (h : State) (i : ℕ)
        → t.hash ≡ some h
        → lookup_data h k ≡ some i
        → r ≡ (store rte t i n a tsc, inserted)
        → Inserts t k n a tsc r
    added :
        (h h' : State) (i : ℕ) (rest : List ℕ)
        → t.hash ≡ some h
        → lookup_data h k ≡ none
        → t.free_list ≡ i ∷ rest
        → add_key_data h k i ≡ some h'
        → r ≡ (record (store rte t i n a tsc) { hash = some h'; free_list = rest }, inserted)
        → Inserts t k n a tsc r
    exhausted :
        r ≡ (record t { overflow_count = (t.overflow_count + 1) % 2 ^ 64 }, full)
        → Inserts t k n a tsc r
    refused :
        (h : State) (i : ℕ) (rest : List ℕ)
        → t.hash ≡ some h
        → lookup_data h k ≡ none
        → t.free_list ≡ i ∷ rest
        → r ≡ (
          record (store rte t i n a tsc) { overflow_count = (t.overflow_count + 1) % 2 ^ 64 },
          full,
        )
        → Inserts t k n a tsc r

  insert_new-Inserts :
      (t : FlowTable rte) (h : State) (k : FlowKey) (n : ℕ) (a : Action) (tsc : ℕ) (free : List ℕ)
      → t.hash ≡ some h
      → lookup_data h k ≡ none
      → t.free_list ≡ free
      → Inserts t k n a tsc (insert_new rte t h k n a tsc)
  unfolding insert_new
  insert_new-Inserts t h k n a tsc [] e missing f = exhausted (rw (f, insert_new))
  insert_new-Inserts t h k n a tsc (i ∷ rest) e missing f =
      elim (Option-cases (add_key_data h k i)) [
        | inl none' ↦ refused h i rest e missing f (ground arith)
        | inr (h', stored) ↦
            added h h' i rest e missing f stored (rw (f, insert_new, stored, add_new))
      ]

  insert-insert_new :
      (t : FlowTable rte) (h : State) (k : FlowKey) (n : ℕ) (a : Action) (tsc : ℕ)
      → t.hash ≡ some h
      → lookup_data h k ≡ none
      → insert rte t k n a tsc ≡ insert_new rte t h k n a tsc
  unfolding insert
  insert-insert_new t h k n a tsc e missing = ground arith

  pub insert-Inserts :
      (t : FlowTable rte) (k : FlowKey) (n : ℕ) (a : Action) (tsc : ℕ)
      → Inserts t k n a tsc (insert rte t k n a tsc)
  unfolding insert
  insert-Inserts t k n a tsc = elim (Option-cases t.hash) [
    | inl off ↦ exhausted (ground arith)
    | inr (h, e) ↦ elim (Option-cases (lookup_data h k)) [
      | inr (i, found) ↦ updated h i e found (ground arith)
      | inl missing ↦
          rw (insert-insert_new t h k n a tsc e missing)
            (insert_new-Inserts t h k n a tsc t.free_list e missing refl)
    ]
  ]

  pub seen_at-store :
      (t : FlowTable rte) (i j n : ℕ) (a : Action) (tsc : ℕ)
      → j ≢ i
      → seen (store rte t i n a tsc).cells j ≡ seen t.cells j
  seen_at-store t i j n a tsc ne = ground arith

  -- Whatever the table held: after an insertion that reports success, a lookup of the flow gives the
  -- inserted action. The count is positive and below 2 ^ 60.
  pub lookup-insert :
      (t : FlowTable rte) (k : FlowKey) (n : ℕ) (a : Action) (tsc now : ℕ)
      → 0 < n
      → n < 2 ^ 60
      → (insert rte t k n a tsc).1 ≡ inserted
      → (lookup rte (insert rte t k n a tsc).0 k now).1 ≡ some a
  lookup-insert t k n a tsc now p q ok = go (insert rte t k n a tsc) (insert-Inserts t k n a tsc) ok
    where
      go :
          (r : FlowTable rte × FlowInsertResult)
          → Inserts t k n a tsc r
          → r.1 ≡ inserted
          → (lookup rte r.0 k now).1 ≡ some a
      go r (updated h i e found done) s =
          rw done (lookup-seen _ h k now e ∙ rw found (seen-store t i n a tsc p q))
      go r (added h h' i rest e missing f stored done) s = rw done (
          lookup-seen _ h' k now refl
          ∙ rw (lookup_add_self h h' k i stored) (seen-store t i n a tsc p q))
      go r (exhausted done) s = absurd (ground arith)
      go r (refused h i rest e missing f done) s = absurd (ground arith)
