-- ===== src/Pipeline/Burst/Lookup.antt =====
-- `BulkFlowLookup` of include/dpdk/spi/spi_pipeline.cpp against one `Lookup` after another.
use dpdk_cpp.Base.{
  ℕ, zero, suc, ap, ◌≤◌, ◌≡◌, refl, ◌∙◌, List, [], ◌∷◌, ◌++◌, some, arith, length, take, drop,
  length-take, length-drop, true, Option, none, sym,
}
use dpdk_cpp.Flow.Hash.{RteHash}
use dpdk_cpp.Flow.Key.{FlowKey}
use dpdk_cpp.Packet.{Action}
use dpdk_cpp.Flow.Table.{FlowTable, BulkResult, lookup}
use dpdk_cpp.Flow.Table.Bulk.{
  written, each_written, lookup_each, lookup_bulk-lookup_each, lookup-hash,
}
use dpdk_cpp.Pipeline.Burst.{lookup_chunks, bulk_flow_lookup}

take-drop {ℓ} : {A : Type ℓ} (n : ℕ) (xs : List A) → take n xs ++ drop n xs ≡ xs
take-drop zero xs = refl
take-drop (suc n) [] = refl
take-drop (suc n) (x ∷ xs) = ap (◌∷◌ x) (take-drop n xs)

written-append :
    (xs ys : List (Option Action)) (results : List BulkResult)
    → written xs (take (length xs) results) ++ written ys (drop (length xs) results)
      ≡ written (xs ++ ys) results
unfolding written
written-append [] ys results = refl
written-append (x ∷ xs) ys [] = refl
written-append (none ∷ xs) ys (result ∷ results) = ap (◌∷◌ result) (written-append xs ys results)
written-append (some a ∷ xs) ys (result ∷ results) =
    ap (◌∷◌ (record { action = a; valid = true })) (written-append xs ys results)

module _ (rte : RteHash) where
  open rte use {State}

  lookup_each-append :
      (ks ls : List FlowKey) (t : FlowTable rte) (now : ℕ)
      → (let first = lookup_each rte t ks now in
          let rest = lookup_each rte first.0 ls now in (rest.0, first.1 ++ rest.1))
        ≡ lookup_each rte t (ks ++ ls) now
  unfolding lookup_each
  lookup_each-append [] ls t now = refl
  lookup_each-append (k ∷ ks) ls t now =
      let first = lookup rte t k now in
      ap (λ o. (o.0, first.1 ∷ o.1)) (lookup_each-append ks ls first.0 now)

  length-lookup_each :
      (ks : List FlowKey) (t : FlowTable rte) (now : ℕ)
      → length (lookup_each rte t ks now).1 ≡ length ks
  unfolding lookup_each
  length-lookup_each [] t now = refl
  length-lookup_each (k ∷ ks) t now = ap suc (length-lookup_each ks (lookup rte t k now).0 now)

  lookup_each-hash :
      (ks : List FlowKey) (t : FlowTable rte) (now : ℕ) → (lookup_each rte t ks now).0.hash ≡ t.hash
  unfolding lookup_each
  lookup_each-hash [] t now = refl
  lookup_each-hash (k ∷ ks) t now =
      lookup_each-hash ks (lookup rte t k now).0 now ∙ lookup-hash rte t k now

  each_written_none :
      (t : FlowTable rte) (now : ℕ) (results : List BulkResult)
      → (t, results) ≡ each_written rte t [] now results
  unfolding lookup_each written
  each_written_none t now [] = refl
  each_written_none t now (result ∷ results) = refl

  each_written-append :
      (ks ls : List FlowKey) (t : FlowTable rte) (now : ℕ) (results : List BulkResult)
      → (let first = each_written rte t ks now (take (length ks) results) in
          let rest = each_written rte first.0 ls now (drop (length ks) results) in
          (rest.0, first.1 ++ rest.1))
        ≡ each_written rte t (ks ++ ls) now results
  each_written-append ks ls t now results =
      let first = lookup_each rte t ks now in
      let rest = lookup_each rte first.0 ls now in
      rw (sym (length-lookup_each ks t now)) (
        ap (λ rs. (rest.0, rs)) (written-append first.1 rest.1 results)
        ∙ ap (λ o. (o.0, written o.1 results)) (lookup_each-append ks ls t now))

  lookup_chunks-each_written :
      (chunks : ℕ) (keys : List FlowKey) (t : FlowTable rte) (h : State) (now : ℕ)
      (results : List BulkResult)
      → t.hash ≡ some h
      → length keys ≤ chunks
      → lookup_chunks rte t chunks keys now results ≡ each_written rte t keys now results
  unfolding lookup_chunks
  lookup_chunks-each_written zero [] t h now results e enough = each_written_none t now results
  lookup_chunks-each_written zero (k ∷ ks) t h now results e enough = absurd (omega (arith, enough))
  lookup_chunks-each_written (suc chunks) [] t h now results e enough =
      each_written_none t now results
  lookup_chunks-each_written (suc chunks) (k ∷ ks) t h now results e enough =
      let keys = k ∷ ks in
      let chunk = take 64 keys in
      let here = take (length chunk) results in
      let behind = drop (length chunk) results in
      let few : length chunk ≤ 64 = omega (arith, length-take 64 keys) in
      let fewer : length (drop 64 keys) ≤ chunks = omega (arith, length-drop 64 keys, enough) in
      let later =
        lookup_chunks-each_written chunks (drop 64 keys) (lookup_each rte t chunk now).0 h now
          behind (lookup_each-hash chunk t now ∙ e) fewer in
      rw (lookup_bulk-lookup_each rte t h chunk now here e few, later)
        (each_written-append chunk (drop 64 keys) t now results
          ∙ ap (λ l. each_written rte t l now results) (take-drop 64 keys))

  -- For every number of keys and a table with its hash, whatever the results held before,
  -- `BulkFlowLookup` leaves the table that one `Lookup` for each key in turn leaves, writes the answer
  -- of that lookup to the result of each key that is found, and changes no other result.
  pub bulk_flow_lookup-lookup_each :
      (t : FlowTable rte) (h : State) (keys : List FlowKey) (now : ℕ) (results : List BulkResult)
      → t.hash ≡ some h
      → bulk_flow_lookup rte t keys now results ≡ each_written rte t keys now results
  unfolding bulk_flow_lookup
  bulk_flow_lookup-lookup_each t h keys now results e =
      lookup_chunks-each_written (length keys) keys t h now results e (omega arith)
