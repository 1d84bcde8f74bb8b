-- ===== src/Pipeline/Counters.antt =====
-- The counters of include/dpdk/spi/spi_pipeline.hpp and .cpp. The atomic counters that the workers
-- share are added to one field at a time; here such an addition is one step.
pub mod Flush
use dpdk_cpp.Base.{ℕ, ◌+◌, ◌%◌, ◌^◌, true, false, leb, if◌then◌else◌}

-- `BurstCounters`; `PipelineStats` and `AtomicCounters` have the same fields.
pub record BurstCounters : Type 0 where
  pub received : ℕ
  pub transmitted : ℕ
  pub parsed : ℕ
  pub matched : ℕ
  pub unknown : ℕ
  pub malformed : ℕ
  pub dropped : ℕ
  pub dropped_by_rule : ℕ
  pub flow_cache_hits : ℕ
  pub dpi_cache_hits : ℕ
  pub dpi_cache_misses : ℕ
  pub dpi_skipped_by_spi : ℕ
  pub dpi_skipped_by_link : ℕ
  pub flow_table_full : ℕ
  pub pressure_evictions : ℕ
  pub flow_table_resizes : ℕ

abbrev pub PipelineStats : Type 0
PipelineStats = BurstCounters

abbrev pub AtomicCounters : Type 0
AtomicCounters = BurstCounters

abbrev pub add64 : ℕ → ℕ → ℕ
add64 a b = (a + b) % 2 ^ 64

-- `++` of a counter.
abbrev pub bump : ℕ → ℕ
bump n = add64 n 1

abbrev pub no_counts : BurstCounters
no_counts = record {
  received = 0;
  transmitted = 0;
  parsed = 0;
  matched = 0;
  unknown = 0;
  malformed = 0;
  dropped = 0;
  dropped_by_rule = 0;
  flow_cache_hits = 0;
  dpi_cache_hits = 0;
  dpi_cache_misses = 0;
  dpi_skipped_by_spi = 0;
  dpi_skipped_by_link = 0;
  flow_table_full = 0;
  pressure_evictions = 0;
  flow_table_resizes = 0;
}

-- `AddBurstCounters` of a worker's accumulator.
unfoldable pub add_burst_counters : BurstCounters → BurstCounters → BurstCounters
add_burst_counters counters burst = record {
  received = add64 counters.received burst.received;
  transmitted = add64 counters.transmitted burst.transmitted;
  parsed = add64 counters.parsed burst.parsed;
  matched = add64 counters.matched burst.matched;
  unknown = add64 counters.unknown burst.unknown;
  malformed = add64 counters.malformed burst.malformed;
  dropped = add64 counters.dropped burst.dropped;
  dropped_by_rule = add64 counters.dropped_by_rule burst.dropped_by_rule;
  flow_cache_hits = add64 counters.flow_cache_hits burst.flow_cache_hits;
  dpi_cache_hits = add64 counters.dpi_cache_hits burst.dpi_cache_hits;
  dpi_cache_misses = add64 counters.dpi_cache_misses burst.dpi_cache_misses;
  dpi_skipped_by_spi = add64 counters.dpi_skipped_by_spi burst.dpi_skipped_by_spi;
  dpi_skipped_by_link = add64 counters.dpi_skipped_by_link burst.dpi_skipped_by_link;
  flow_table_full = add64 counters.flow_table_full burst.flow_table_full;
  pressure_evictions = add64 counters.pressure_evictions burst.pressure_evictions;
  flow_table_resizes = add64 counters.flow_table_resizes burst.flow_table_resizes;
}

-- `AddBurstCounters` of the shared counters, and `FlushAtomicCounters`.
unfoldable pub flush_atomic_counters : AtomicCounters → BurstCounters → AtomicCounters
unfolding add_burst_counters
flush_atomic_counters counters pending = add_burst_counters counters pending

unfoldable pub add_burst_stats : PipelineStats → BurstCounters → PipelineStats
unfolding add_burst_counters
add_burst_stats stats burst = add_burst_counters stats burst

unfoldable pub add_dispatched_worker_counters : AtomicCounters → BurstCounters → AtomicCounters
add_dispatched_worker_counters counters burst = record {
  received = counters.received;
  transmitted = add64 counters.transmitted burst.transmitted;
  parsed = add64 counters.parsed burst.parsed;
  matched = add64 counters.matched burst.matched;
  unknown = add64 counters.unknown burst.unknown;
  malformed = add64 counters.malformed burst.malformed;
  dropped = add64 counters.dropped burst.dropped;
  dropped_by_rule = add64 counters.dropped_by_rule burst.dropped_by_rule;
  flow_cache_hits = add64 counters.flow_cache_hits burst.flow_cache_hits;
  dpi_cache_hits = add64 counters.dpi_cache_hits burst.dpi_cache_hits;
  dpi_cache_misses = add64 counters.dpi_cache_misses burst.dpi_cache_misses;
  dpi_skipped_by_spi = add64 counters.dpi_skipped_by_spi burst.dpi_skipped_by_spi;
  dpi_skipped_by_link = add64 counters.dpi_skipped_by_link burst.dpi_skipped_by_link;
  flow_table_full = add64 counters.flow_table_full burst.flow_table_full;
  pressure_evictions = add64 counters.pressure_evictions burst.pressure_evictions;
  flow_table_resizes = add64 counters.flow_table_resizes burst.flow_table_resizes;
}

-- `CollectStats`.
unfoldable pub collect_stats : AtomicCounters → PipelineStats
collect_stats counters = counters

-- What a worker adds its bursts to, with the shared counters.
pub record Tally : Type 0 where
  pub counters : AtomicCounters
  pub stats : PipelineStats
  pub pending_burst : BurstCounters
  pub bursts_since_flush : ℕ

-- The end of `ProcessWorkerIteration` and of `ProcessDispatchedWorkerIteration`, which differ in how
-- they flush: the shared counters are added to once every 256 iterations.
unfoldable pub tally_burst :
    (AtomicCounters → BurstCounters → AtomicCounters) → Tally → BurstCounters → Tally
unfolding add_burst_stats add_burst_counters
tally_burst flush t burst =
    if leb 256 (t.bursts_since_flush + 1)
    then record {
      counters = flush t.counters (add_burst_counters t.pending_burst burst);
      stats = add_burst_stats t.stats burst;
      pending_burst = no_counts;
      bursts_since_flush = 0;
    }
    else record {
      counters = t.counters;
      stats = add_burst_stats t.stats burst;
      pending_burst = add_burst_counters t.pending_burst burst;
      bursts_since_flush = t.bursts_since_flush + 1;
    }
