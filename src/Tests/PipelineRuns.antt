-- ===== src/Tests/PipelineRuns.antt =====
-- The pipeline on a small network.
use dpdk_cpp.Base.{ℕ, ◌≡◌, true, false, List, [], ◌∷◌, Option, none, some, arith}
use dpdk_cpp.Dpi.HostnameCache
use dpdk_cpp.Parser.Headers.Frames.{frame_bytes}
use dpdk_cpp.Parser.Reads.{Returns}
use dpdk_cpp.Pipeline.Classify.{Classified, classify_packet}
use dpdk_cpp.Pipeline.Classify.Verdicts.{IsAccounted, classify_packet-Accounts}
use dpdk_cpp.Pipeline.Context.{Settings, Tables, Worker}
use dpdk_cpp.Pipeline.Counters.{
  BurstCounters, Tally, no_counts, flush_atomic_counters, add_dispatched_worker_counters,
}
use dpdk_cpp.Pipeline.Counters.Flush.{drained, tally_bursts, flush_each, tally_bursts-drained}
use dpdk_cpp.Pipeline.Forward.{Network, Run, forward_packet}
use dpdk_cpp.Pipeline.Forward.Fate.{IsPlaced}
use dpdk_cpp.Pipeline.Forward.Conserved.{forward_packet-IsPlaced}
use dpdk_cpp.Pipeline.Hostname.{parser_hostnames}
use dpdk_cpp.Pipeline.Rewrite.{RteTransmit}
use dpdk_cpp.Tests.FlowRuns.{small_hash, table0}
use dpdk_cpp.Tests.HostRuns.{filters2}
use dpdk_cpp.Tests.ParserRuns.{plain_mbuf, hello_frame}
use dpdk_cpp.Tests.SpiRuns.{groups2, web_acl, web_chunk, sum_hash, new_tss}

one_parsed : BurstCounters
one_parsed = record no_counts { received = 2; parsed = 1; malformed = 1 }

abbrev started : Tally
started = record {
  counters = no_counts;
  stats = no_counts;
  pending_burst = no_counts;
  bursts_since_flush = 255;
}

tally_bursts-drained_example :
    (drained flush_atomic_counters
        (tally_bursts flush_atomic_counters started (one_parsed ∷ one_parsed ∷ []))
      ≡ flush_each flush_atomic_counters
          (drained flush_atomic_counters started)
          (one_parsed ∷ one_parsed ∷ []))
    × (drained add_dispatched_worker_counters
          (tally_bursts add_dispatched_worker_counters started (one_parsed ∷ one_parsed ∷ []))
        ≡ flush_each add_dispatched_worker_counters
            (drained add_dispatched_worker_counters started)
            (one_parsed ∷ one_parsed ∷ []))
tally_bursts-drained_example = tally_bursts-drained started (one_parsed ∷ one_parsed ∷ [])

abbrev settings : Settings
settings = record {
  flow_overflow_drop = true;
  drop_unmatched = false;
  l3_forwarding = false;
  mac_updating = true;
  worker_id = 0;
  flow_hash_rings = 2;
  current_burst_tsc = 7;
  insert_tsc = 8;
}

abbrev tables : Tables web_acl
tables = record {
  rules = record { groups = groups2; acl_chunks = web_chunk ∷ []; acl_ctx = none; tss = new_tss };
  dpi_rules =
      some (record { filters = filters2; generation = 1; hs_scan = λ hostname. some (0 ∷ []) });
}

abbrev worker : Worker plain_mbuf small_hash
worker = record {
  flow_table = table0;
  dpi_hostname_cache = HostnameCache.clear;
  tcp_reassembler = none;
  ip_frag_tbl = none;
  counters = no_counts;
}

abbrev classified : Classified plain_mbuf small_hash web_acl sum_hash × Option (List ℕ)
classified =
    classify_packet plain_mbuf small_hash web_acl sum_hash (parser_hostnames plain_mbuf) settings
      tables worker (frame_bytes hello_frame) 3

classify_packet-Accounts_example :
    IsAccounted plain_mbuf no_counts classified.0.worker.counters classified.0.classification
      classified.1
classify_packet-Accounts_example =
    classify_packet-Accounts plain_mbuf small_hash web_acl sum_hash (parser_hostnames plain_mbuf)
      settings tables worker (frame_bytes hello_frame) 3

abbrev network : Network
network = record {
  active_ports = 3 ∷ 5 ∷ [];
  port_count = 6;
  port_mac_address = λ port. some (2 ∷ 0 ∷ 0 ∷ 0 ∷ 1 ∷ port ∷ []);
  l3_routes = none;
  ethernet_destinations = none;
}

abbrev no_checksums : RteTransmit plain_mbuf
no_checksums = record {
  with_bytes = λ bytes packet. bytes;
  without_offload = λ packet. packet;
  ipv4_cksum = λ bytes. 0;
  ipv4_udptcp_cksum_mbuf = λ packet header offset. 0;
}

abbrev start : Run plain_mbuf small_hash
start = record {
  worker = worker;
  places = record { transmit_buffers = λ port. []; dispatched = []; freed = [] };
}

forward_packet-IsPlaced_example :
    Returns
      (IsPlaced plain_mbuf small_hash network settings
        (λ text. none)
        no_checksums
        (λ ring. false)
        3
        classified.0.classification
        start
        classified.1)
      (forward_packet plain_mbuf small_hash settings network
        (λ text. none)
        no_checksums
        web_acl
        sum_hash
        (parser_hostnames plain_mbuf)
        (λ ring. false)
        tables
        start
        (frame_bytes hello_frame)
        3)
forward_packet-IsPlaced_example =
    forward_packet-IsPlaced plain_mbuf small_hash network settings (λ text. none) no_checksums
      (λ ring. false) 3 web_acl sum_hash (parser_hostnames plain_mbuf) tables start
      (frame_bytes hello_frame) (λ port. omega arith)
