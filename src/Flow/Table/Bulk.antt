-- ===== src/Flow/Table/Bulk.antt =====
-- `LookupBulk` against one `Lookup` after another.
use dpdk_cpp.Base.{
  ℕ, ◌≤◌, ◌≡◌, refl, ◌∙◌, List, [], ◌∷◌, map, Option, none, some, arith, length, take, take_all,
  drop, sym, true, ap, option_elim,
}
use dpdk_cpp.Packet.{Action}
use dpdk_cpp.Flow.Hash.{RteHash}
use dpdk_cpp.Flow.Key.{FlowKey}
use dpdk_cpp.Flow.Table.{
  FlowTable, BulkResult, write_result, read_found, lookup, read_bulk, lookup_bulk,
}

-- Results after some answers: a valid one for each flow that was found, and what was there before for
-- each that was not, and behind the answers.
unfoldable pub written : List (Option Action) → List BulkResult → List BulkResult
written answers [] = []
written [] (result ∷ results) = result ∷ results
written (none ∷ answers) (result ∷ results) = result ∷ written answers results
written (some a ∷ answers) (result ∷ results) =
    record { action = a; valid = true } ∷ written answers results

written_none : (results : List BulkResult) → written [] results ≡ results
unfolding written
written_none [] = refl
written_none (result ∷ results) = refl

write_result-written :
    (answer : Option Action) (answers : List (Option Action)) (results : List BulkResult)
    → write_result answer results (written answers (drop 1 results))
      ≡ written (answer ∷ answers) results
unfolding written
write_result-written answer answers [] = refl
write_result-written none answers (result ∷ results) = refl
write_result-written (some a) answers (result ∷ results) = refl

module _ (rte : RteHash) where
  open rte use {State, lookup_data}

  -- The answers of one lookup for each key in turn, with one clock value.
  unfoldable pub lookup_each :
      FlowTable rte → List FlowKey → ℕ → FlowTable rte × List (Option Action)
  lookup_each t [] now = (t, [])
  lookup_each t (k ∷ ks) now =
      let first = lookup rte t k now in
      let others = lookup_each first.0 ks now in (others.0, first.1 ∷ others.1)

  -- The table after one lookup for each key in turn, and the results with their answers.
  abbrev pub each_written :
      FlowTable rte → List FlowKey → ℕ → List BulkResult → FlowTable rte × List BulkResult
  each_written t ks now results =
      ((lookup_each t ks now).0, written (lookup_each t ks now).1 results)

  lookup-read_found :
      (t : FlowTable rte) (h : State) (k : FlowKey) (now : ℕ)
      → t.hash ≡ some h
      → lookup rte t k now ≡ read_found rte t now (lookup_data h k)
  unfolding lookup
  lookup-read_found t h k now e = ground arith

  hash-read_found :
      (t : FlowTable rte) (now : ℕ) (o : Option ℕ) → (read_found rte t now o).0.hash ≡ t.hash
  unfolding read_found
  hash-read_found t now none = refl
  hash-read_found t now (some i) = ground arith

  pub lookup-hash :
      (t : FlowTable rte) (k : FlowKey) (now : ℕ) → (lookup rte t k now).0.hash ≡ t.hash
  unfolding lookup
  lookup-hash t k now =
      option_elim (λ o. o.0.hash ≡ t.hash) t.hash (t, none)
        (λ h. read_found rte t now (lookup_data h k)) refl
        (λ h. hash-read_found t now (lookup_data h k))

  read_bulk-lookup_each :
      (ks : List FlowKey) (t : FlowTable rte) (h : State) (now : ℕ) (results : List BulkResult)
      → t.hash ≡ some h
      → read_bulk rte t now (map (lookup_data h) ks) results ≡ each_written t ks now results
  unfolding read_bulk lookup_each
  read_bulk-lookup_each [] t h now results e = ap (λ rs. (t, rs)) (sym (written_none results))
  read_bulk-lookup_each (k ∷ ks) t h now results e =
      let first = read_found rte t now (lookup_data h k) in
      let later =
        read_bulk-lookup_each ks first.0 h now (drop 1 results)
          (hash-read_found t now (lookup_data h k) ∙ e) in
      rw (lookup-read_found t h k now e, later)
        (ap (λ rs. ((lookup_each first.0 ks now).0, rs))
          (write_result-written first.1 (lookup_each first.0 ks now).1 results))

  lookup_bulk-read_bulk :
      (t : FlowTable rte) (h : State) (ks : List FlowKey) (now : ℕ) (results : List BulkResult)
      → t.hash ≡ some h
      → lookup_bulk rte t ks now results
        ≡ read_bulk rte t now (rte.lookup_bulk_data h (take 64 ks)) results
  unfolding lookup_bulk
  lookup_bulk-read_bulk t h ks now results e = rw (e) refl

  -- For at most 64 keys and a table with its hash, whatever the results held before, `LookupBulk` leaves
  -- the table that one lookup for each key in turn leaves, writes the answer of that lookup to the
  -- result of each key that is found, and changes no other result.
  pub lookup_bulk-lookup_each :
      (t : FlowTable rte) (h : State) (ks : List FlowKey) (now : ℕ) (results : List BulkResult)
      → t.hash ≡ some h
      → length ks ≤ 64
      → lookup_bulk rte t ks now results ≡ each_written t ks now results
  lookup_bulk-lookup_each t h ks now results e few =
      lookup_bulk-read_bulk t h ks now results e
      ∙ rw (take_all 64 ks few, rte.lookup_bulk_each h ks few)
          (read_bulk-lookup_each ks t h now results e)
