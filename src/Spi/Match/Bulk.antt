-- ===== src/Spi/Match/Bulk.antt =====
-- `MatchBulk` of include/dpdk/spi/spi_rule_engine.cpp against `Match`.
use dpdk_cpp.Base.{
  ℕ, ◌≤◌, true, List, [], ◌∷◌, ◌++◌, Option, none, some, ◌≡◌, refl, sym, ap, arith, length,
  take_all, drop, map, min, Option-cases, Bool-cases, inl, inr, if◌then◌else◌,
}
use dpdk_cpp.Packet.{PacketMetadata}
use dpdk_cpp.Spi.Dpdk.{RteAcl, AclInputData}
use dpdk_cpp.Spi.Match.Hit.{classified-IsHit}
use dpdk_cpp.Spi.Match.{
  AclChunk, ClassificationResult, CompiledFilterGroup, acl_input, all_matched, bulk_chunks, bulk_of,
  chunk_hit, classified, classify_chunk, result_with, first_hit, match_bulk, match_packet, no_match,
  or_no_match, settle, settle_all,
}

module _ (acl : RteAcl) (be_to_cpu_16 : ℕ → ℕ) (groups : List CompiledFilterGroup) where
  -- A packet whose result is settled keeps it, another one takes the first hit, if there is one.
  resume : List (AclChunk acl) → PacketMetadata → ClassificationResult → ClassificationResult
  resume chunks packet r =
      if r.matched
      then r
      else elim (first_hit acl be_to_cpu_16 groups chunks packet) [ none ↦ r | some hit ↦ hit ]

  resume_all :
      List (AclChunk acl)
      → List PacketMetadata
      → List ClassificationResult
      → List ClassificationResult
  unfolding resume
  resume_all chunks [] rs = rs
  resume_all chunks (p ∷ ps) [] = []
  resume_all chunks (p ∷ ps) (r ∷ rs) = resume chunks p r ∷ resume_all chunks ps rs

  resume_all_matched :
      (chunks : List (AclChunk acl)) (ps : List PacketMetadata) (rs : List ClassificationResult)
      → all_matched acl be_to_cpu_16 groups rs ≡ true
      → resume_all chunks ps rs ≡ rs
  unfolding resume_all all_matched resume
  resume_all_matched chunks [] rs m = refl
  resume_all_matched chunks (p ∷ ps) [] m = refl
  resume_all_matched chunks (p ∷ ps) (r ∷ rs) m = ground (arith, resume_all_matched chunks ps rs)

  classified_matched :
      (p : PacketMetadata) (u : ℕ) (hit : ClassificationResult)
      → classified be_to_cpu_16 groups p u ≡ some hit
      → hit.matched ≡ true
  unfolding result_with
  classified_matched p u hit e =
      ap (λ r. r.matched) (classified-IsHit be_to_cpu_16 groups p u hit e).result_eq

  resume_all_none :
      (ps : List PacketMetadata) (rs : List ClassificationResult) → resume_all [] ps rs ≡ rs
  unfolding resume_all resume first_hit
  resume_all_none [] rs = refl
  resume_all_none (p ∷ ps) [] = refl
  resume_all_none (p ∷ ps) (r ∷ rs) = ground (arith, resume_all_none ps rs)

  -- Whatever its input is, a chunk refuses it or gives what is best for each packet.
  data Classifies (chunk : AclChunk acl) : Type 0 where
    refuses :
        ((inputs : List AclInputData) → classify_chunk acl chunk inputs ≡ none) → Classifies chunk
    answers :
        (best : AclInputData → ℕ)
        → ((inputs : List AclInputData) → classify_chunk acl chunk inputs ≡ some (map best inputs))
        → Classifies chunk

  context-Classifies :
      (chunk : AclChunk acl) (c : Option acl.Context) → chunk.ctx ≡ c → Classifies chunk
  unfolding classify_chunk
  context-Classifies chunk none e = refuses (λ inputs. rw e refl)
  context-Classifies chunk (some c) e = elim (Bool-cases (acl.is_ready c)) [
    | inl ready ↦ answers (acl.best c) (λ inputs. rw (e, acl.classify_each c inputs, ready) refl)
    | inr unready ↦ refuses (λ inputs. rw (e, acl.classify_each c inputs, unready) refl)
  ]

  resume_all_refuses :
      (chunk : AclChunk acl) (chunks : List (AclChunk acl)) (ps : List PacketMetadata)
      (rs : List ClassificationResult)
      → ((inputs : List AclInputData) → classify_chunk acl chunk inputs ≡ none)
      → resume_all (chunk ∷ chunks) ps rs ≡ resume_all chunks ps rs
  unfolding resume_all resume first_hit chunk_hit
  resume_all_refuses chunk chunks [] rs h = refl
  resume_all_refuses chunk chunks (p ∷ ps) [] h = refl
  resume_all_refuses chunk chunks (p ∷ ps) (r ∷ rs) h =
      rw (h (acl_input p ∷ []), resume_all_refuses chunk chunks ps rs h) refl

  chunk_hit_answers :
      (chunk : AclChunk acl) (best : AclInputData → ℕ) (p : PacketMetadata)
      → ((inputs : List AclInputData) → classify_chunk acl chunk inputs ≡ some (map best inputs))
      → chunk_hit acl be_to_cpu_16 groups chunk p
        ≡ classified be_to_cpu_16 groups p (best (acl_input p))
  unfolding chunk_hit
  chunk_hit_answers chunk best p h = rw (h (acl_input p ∷ []), chunk_hit) refl

  resume-settle :
      (chunk : AclChunk acl) (chunks : List (AclChunk acl)) (best : AclInputData → ℕ)
      (p : PacketMetadata) (r : ClassificationResult)
      → ((inputs : List AclInputData) → classify_chunk acl chunk inputs ≡ some (map best inputs))
      → resume (chunk ∷ chunks) p r
        ≡ resume chunks p (settle acl be_to_cpu_16 groups p r (best (acl_input p)))
  unfolding resume first_hit settle
  resume-settle chunk chunks best p r h = elim (Bool-cases r.matched) [
    | inl m ↦ simp m refl
    | inr m ↦ elim (Option-cases (classified be_to_cpu_16 groups p (best (acl_input p)))) [
      | inl none_e ↦ ground (arith, chunk_hit_answers chunk best p h, none_e)
      | inr (hit, hit_e) ↦ ground (
        arith,
        chunk_hit_answers chunk best p h,
        hit_e,
        classified_matched p (best (acl_input p)) hit hit_e,
      )
    ]
  ]

  resume_all_answers :
      (chunk : AclChunk acl) (chunks : List (AclChunk acl)) (best : AclInputData → ℕ)
      (ps : List PacketMetadata) (rs : List ClassificationResult)
      → ((inputs : List AclInputData) → classify_chunk acl chunk inputs ≡ some (map best inputs))
      → resume_all (chunk ∷ chunks) ps rs
        ≡ resume_all chunks ps
            (settle_all acl be_to_cpu_16 groups ps rs (map best (map acl_input ps)))
  unfolding resume_all settle_all
  resume_all_answers chunk chunks best [] rs h = refl
  resume_all_answers chunk chunks best (p ∷ ps) [] h = refl
  resume_all_answers chunk chunks best (p ∷ ps) (r ∷ rs) h =
      rw (resume-settle chunk chunks best p r h, resume_all_answers chunk chunks best ps rs h) refl

  bulk_chunks-resume :
      (chunks : List (AclChunk acl)) (ps : List PacketMetadata) (rs : List ClassificationResult)
      → bulk_chunks acl be_to_cpu_16 groups chunks ps rs ≡ resume_all chunks ps rs
  unfolding bulk_chunks
  bulk_chunks-resume [] ps rs = sym (resume_all_none ps rs)
  bulk_chunks-resume (chunk ∷ chunks) ps rs = elim (context-Classifies chunk chunk.ctx refl) [
    | refuses h ↦
        rw (h (map acl_input ps), bulk_chunks, bulk_chunks-resume chunks ps rs)
          (sym (resume_all_refuses chunk chunks ps rs h))
    | answers best h ↦
        let settled = settle_all acl be_to_cpu_16 groups ps rs (map best (map acl_input ps)) in
        elim (Bool-cases (all_matched acl be_to_cpu_16 groups settled)) [
          | inl done ↦
              rw
                (
                  h (map acl_input ps),
                  bulk_chunks,
                  done,
                  resume_all_answers chunk chunks best ps rs h,
                )
                (sym (resume_all_matched chunks ps settled done))
          | inr open_e ↦
              rw (h (map acl_input ps), bulk_chunks, open_e, bulk_chunks-resume chunks ps settled)
                (sym (resume_all_answers chunk chunks best ps rs h))
        ]
  ]

  resume_all_fresh :
      (chunks : List (AclChunk acl)) (ps : List PacketMetadata)
      → resume_all chunks ps (map (λ _. no_match) ps)
        ≡ map
            (λ p. or_no_match acl be_to_cpu_16 groups (first_hit acl be_to_cpu_16 groups chunks p))
            ps
  unfolding resume_all resume
  resume_all_fresh chunks [] = refl
  resume_all_fresh chunks (p ∷ ps) =
      elim (Option-cases (first_hit acl be_to_cpu_16 groups chunks p)) [
        | inl none_e ↦ rw (none_e, resume_all_fresh chunks ps) refl
        | inr (hit, hit_e) ↦ rw (hit_e, resume_all_fresh chunks ps) refl
      ]

  bulk_of-match :
      (chunks : List (AclChunk acl)) (ps : List PacketMetadata)
      (results : List ClassificationResult)
      → length ps ≤ 64
      → bulk_of acl be_to_cpu_16 groups chunks ps results
        ≡ map
            (λ p. or_no_match acl be_to_cpu_16 groups (first_hit acl be_to_cpu_16 groups chunks p))
            ps
          ++ drop (length ps) results
  unfolding bulk_of
  bulk_of-match chunks ps results h =
      rw
        (
          take_all 64 ps h,
          bulk_chunks-resume chunks ps (map (λ _. no_match) ps),
          resume_all_fresh chunks ps,
          least,
        )
        refl
    where
      least : min (length ps) 64 ≡ length ps
      least = omega (arith, h)

  -- For at most 64 packets, `MatchBulk` writes for each packet what `Match` returns for it, whatever
  -- the results held before, and changes no result behind them.
  pub match_bulk-match :
      (chunks : List (AclChunk acl)) (legacy : Option acl.Context) (packets : List PacketMetadata)
      (results : List ClassificationResult)
      → length packets ≤ 64
      → match_bulk acl be_to_cpu_16 groups chunks legacy packets results
        ≡ map (match_packet acl be_to_cpu_16 groups chunks legacy) packets
          ++ drop (length packets) results
  unfolding match_bulk match_packet
  match_bulk-match [] none ps results h = refl
  match_bulk-match [] (some legacy) ps results h = bulk_of-match [] ps results h
  match_bulk-match (chunk ∷ chunks) legacy ps results h =
      bulk_of-match (chunk ∷ chunks) ps results h
