-- ===== src/Pipeline/Counters/Flush.antt =====
-- Nothing is lost between the flushes of include/dpdk/spi/spi_pipeline.cpp.
use dpdk_cpp.Base.{ℕ, ◌+◌, List, [], ◌∷◌, ◌≡◌, refl, ap, ◌∙◌, arith, leb, Bool-cases, inl, inr}
use dpdk_cpp.Pipeline.Counters.{
  BurstCounters, AtomicCounters, Tally, add64, add_burst_counters, add_dispatched_worker_counters,
  flush_atomic_counters, no_counts, tally_burst,
}

add64_assoc : (a b c : ℕ) → add64 a (add64 b c) ≡ add64 (add64 a b) c
add64_assoc a b c = omega arith

add64_zero : (a b : ℕ) → add64 (add64 a b) 0 ≡ add64 a b
add64_zero a b = omega arith

flush_atomic_counters_assoc :
    (c p b : BurstCounters)
    → flush_atomic_counters c (add_burst_counters p b)
      ≡ flush_atomic_counters (flush_atomic_counters c p) b
unfolding flush_atomic_counters add_burst_counters
flush_atomic_counters_assoc c p b i = record {
  received = add64_assoc c.received p.received b.received i;
  transmitted = add64_assoc c.transmitted p.transmitted b.transmitted i;
  parsed = add64_assoc c.parsed p.parsed b.parsed i;
  matched = add64_assoc c.matched p.matched b.matched i;
  unknown = add64_assoc c.unknown p.unknown b.unknown i;
  malformed = add64_assoc c.malformed p.malformed b.malformed i;
  dropped = add64_assoc c.dropped p.dropped b.dropped i;
  dropped_by_rule = add64_assoc c.dropped_by_rule p.dropped_by_rule b.dropped_by_rule i;
  flow_cache_hits = add64_assoc c.flow_cache_hits p.flow_cache_hits b.flow_cache_hits i;
  dpi_cache_hits = add64_assoc c.dpi_cache_hits p.dpi_cache_hits b.dpi_cache_hits i;
  dpi_cache_misses = add64_assoc c.dpi_cache_misses p.dpi_cache_misses b.dpi_cache_misses i;
  dpi_skipped_by_spi = add64_assoc c.dpi_skipped_by_spi p.dpi_skipped_by_spi b.dpi_skipped_by_spi i;
  dpi_skipped_by_link =
      add64_assoc c.dpi_skipped_by_link p.dpi_skipped_by_link b.dpi_skipped_by_link i;
  flow_table_full = add64_assoc c.flow_table_full p.flow_table_full b.flow_table_full i;
  pressure_evictions = add64_assoc c.pressure_evictions p.pressure_evictions b.pressure_evictions i;
  flow_table_resizes = add64_assoc c.flow_table_resizes p.flow_table_resizes b.flow_table_resizes i;
}

flush_atomic_counters_none :
    (c p : BurstCounters)
    → flush_atomic_counters (flush_atomic_counters c p) no_counts ≡ flush_atomic_counters c p
unfolding flush_atomic_counters add_burst_counters
flush_atomic_counters_none c p i = record {
  received = add64_zero c.received p.received i;
  transmitted = add64_zero c.transmitted p.transmitted i;
  parsed = add64_zero c.parsed p.parsed i;
  matched = add64_zero c.matched p.matched i;
  unknown = add64_zero c.unknown p.unknown i;
  malformed = add64_zero c.malformed p.malformed i;
  dropped = add64_zero c.dropped p.dropped i;
  dropped_by_rule = add64_zero c.dropped_by_rule p.dropped_by_rule i;
  flow_cache_hits = add64_zero c.flow_cache_hits p.flow_cache_hits i;
  dpi_cache_hits = add64_zero c.dpi_cache_hits p.dpi_cache_hits i;
  dpi_cache_misses = add64_zero c.dpi_cache_misses p.dpi_cache_misses i;
  dpi_skipped_by_spi = add64_zero c.dpi_skipped_by_spi p.dpi_skipped_by_spi i;
  dpi_skipped_by_link = add64_zero c.dpi_skipped_by_link p.dpi_skipped_by_link i;
  flow_table_full = add64_zero c.flow_table_full p.flow_table_full i;
  pressure_evictions = add64_zero c.pressure_evictions p.pressure_evictions i;
  flow_table_resizes = add64_zero c.flow_table_resizes p.flow_table_resizes i;
}

add_dispatched_worker_counters_assoc :
    (c p b : BurstCounters)
    → add_dispatched_worker_counters c (add_burst_counters p b)
      ≡ add_dispatched_worker_counters (add_dispatched_worker_counters c p) b
unfolding add_dispatched_worker_counters add_burst_counters
add_dispatched_worker_counters_assoc c p b i = record {
  received = c.received;
  transmitted = add64_assoc c.transmitted p.transmitted b.transmitted i;
  parsed = add64_assoc c.parsed p.parsed b.parsed i;
  matched = add64_assoc c.matched p.matched b.matched i;
  unknown = add64_assoc c.unknown p.unknown b.unknown i;
  malformed = add64_assoc c.malformed p.malformed b.malformed i;
  dropped = add64_assoc c.dropped p.dropped b.dropped i;
  dropped_by_rule = add64_assoc c.dropped_by_rule p.dropped_by_rule b.dropped_by_rule i;
  flow_cache_hits = add64_assoc c.flow_cache_hits p.flow_cache_hits b.flow_cache_hits i;
  dpi_cache_hits = add64_assoc c.dpi_cache_hits p.dpi_cache_hits b.dpi_cache_hits i;
  dpi_cache_misses = add64_assoc c.dpi_cache_misses p.dpi_cache_misses b.dpi_cache_misses i;
  dpi_skipped_by_spi = add64_assoc c.dpi_skipped_by_spi p.dpi_skipped_by_spi b.dpi_skipped_by_spi i;
  dpi_skipped_by_link =
      add64_assoc c.dpi_skipped_by_link p.dpi_skipped_by_link b.dpi_skipped_by_link i;
  flow_table_full = add64_assoc c.flow_table_full p.flow_table_full b.flow_table_full i;
  pressure_evictions = add64_assoc c.pressure_evictions p.pressure_evictions b.pressure_evictions i;
  flow_table_resizes = add64_assoc c.flow_table_resizes p.flow_table_resizes b.flow_table_resizes i;
}

add_dispatched_worker_counters_none :
    (c p : BurstCounters)
    → add_dispatched_worker_counters (add_dispatched_worker_counters c p) no_counts
      ≡ add_dispatched_worker_counters c p
unfolding add_dispatched_worker_counters
add_dispatched_worker_counters_none c p i = record {
  received = c.received;
  transmitted = add64_zero c.transmitted p.transmitted i;
  parsed = add64_zero c.parsed p.parsed i;
  matched = add64_zero c.matched p.matched i;
  unknown = add64_zero c.unknown p.unknown i;
  malformed = add64_zero c.malformed p.malformed i;
  dropped = add64_zero c.dropped p.dropped i;
  dropped_by_rule = add64_zero c.dropped_by_rule p.dropped_by_rule i;
  flow_cache_hits = add64_zero c.flow_cache_hits p.flow_cache_hits i;
  dpi_cache_hits = add64_zero c.dpi_cache_hits p.dpi_cache_hits i;
  dpi_cache_misses = add64_zero c.dpi_cache_misses p.dpi_cache_misses i;
  dpi_skipped_by_spi = add64_zero c.dpi_skipped_by_spi p.dpi_skipped_by_spi i;
  dpi_skipped_by_link = add64_zero c.dpi_skipped_by_link p.dpi_skipped_by_link i;
  flow_table_full = add64_zero c.flow_table_full p.flow_table_full i;
  pressure_evictions = add64_zero c.pressure_evictions p.pressure_evictions i;
  flow_table_resizes = add64_zero c.flow_table_resizes p.flow_table_resizes i;
}

abbrev pub Flush : Type 0
Flush = AtomicCounters → BurstCounters → AtomicCounters

-- A worker's bursts one after the other.
unfoldable pub tally_bursts : Flush → Tally → List BurstCounters → Tally
unfolding tally_burst
tally_bursts flush t [] = t
tally_bursts flush t (burst ∷ bursts) = tally_bursts flush (tally_burst flush t burst) bursts

-- The last flush of `WorkerLoop` and of `DispatchWorkerLoop`.
unfoldable pub drained : Flush → Tally → AtomicCounters
drained flush t = flush t.counters t.pending_burst

-- Every burst added to the shared counters at once.
unfoldable pub flush_each : Flush → AtomicCounters → List BurstCounters → AtomicCounters
flush_each flush c [] = c
flush_each flush c (burst ∷ bursts) = flush_each flush (flush c burst) bursts

module _ (flush : Flush)
    (assoc : (c p b : BurstCounters) → flush c (add_burst_counters p b) ≡ flush (flush c p) b)
    (none_left : (c p : BurstCounters) → flush (flush c p) no_counts ≡ flush c p) where
  drained-tally_burst :
      (t : Tally) (burst : BurstCounters)
      → drained flush (tally_burst flush t burst) ≡ flush (drained flush t) burst
  unfolding drained tally_burst
  drained-tally_burst t burst = elim (Bool-cases (leb 256 (t.bursts_since_flush + 1))) [
    | inl due ↦
        rw (due, tally_burst)
          (none_left t.counters (add_burst_counters t.pending_burst burst)
            ∙ assoc t.counters t.pending_burst burst)
    | inr early ↦ rw (early, tally_burst) (assoc t.counters t.pending_burst burst)
  ]

  drained-tally_bursts :
      (t : Tally) (bursts : List BurstCounters)
      → drained flush (tally_bursts flush t bursts) ≡ flush_each flush (drained flush t) bursts
  unfolding tally_bursts flush_each
  drained-tally_bursts t [] = refl
  drained-tally_bursts t (burst ∷ bursts) =
      drained-tally_bursts (tally_burst flush t burst) bursts
      ∙ ap (λ c. flush_each flush c bursts) (drained-tally_burst t burst)

-- Whatever the bursts of a worker: once it has drained what is pending, the shared counters are
-- those that adding every burst at once would give, and the same holds in dispatcher mode, where
-- received packets are not added.
pub tally_bursts-drained :
    (t : Tally) (bursts : List BurstCounters)
    → (drained flush_atomic_counters (tally_bursts flush_atomic_counters t bursts)
        ≡ flush_each flush_atomic_counters (drained flush_atomic_counters t) bursts)
      × (drained add_dispatched_worker_counters
            (tally_bursts add_dispatched_worker_counters t bursts)
          ≡ flush_each add_dispatched_worker_counters
              (drained add_dispatched_worker_counters t)
              bursts)
tally_bursts-drained t bursts = (
  drained-tally_bursts flush_atomic_counters flush_atomic_counters_assoc flush_atomic_counters_none
      t bursts,
  drained-tally_bursts add_dispatched_worker_counters add_dispatched_worker_counters_assoc
      add_dispatched_worker_counters_none t bursts,
)
