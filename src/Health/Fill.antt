-- ===== src/Health/Fill.antt =====
-- plugins/agl_health/AglHealth.cpp: fill_memory, fill_cpu, fill_processes, fill_network,
-- fill_security and fill_scheduler. A builder is the record that it fills; the first exception ends
-- the function.
use test_runner.Prelude.{
  ℕ, zero, suc, ◌+◌, Bool, false, List, [], ◌∷◌, ◌++◌, ltb, ◌==◌, if◌then◌else◌, Bytes, codes,
}
use test_runner.Recorder.Devices.{until_nul}
use test_runner.Health.Json.{
  Fallible, ok, ◌>>=◌, JsonLibrary, value_u32, value_u64, value_double, value_string,
}
use test_runner.Health.Metrics.{
  MemorySnapshot, CoreStats, CpuSnapshot, ProcessStats, NetIfaceStats, TcpStateSnapshot,
  NetworkSnapshot, SecuritySnapshot, SchedBuckets, SchedulerSnapshot,
}

-- A text that is set from a std::string ends at its first zero byte.
abbrev pub text : Bytes → Bytes
text = until_nul

module _ (J : JsonLibrary) where
  unfoldable pub fill_memory : J.Json → Fallible MemorySnapshot
  fill_memory j = do
    ok (record {
      total_bytes = (← value_u64 J j (codes "total_bytes"));
      free_bytes = (← value_u64 J j (codes "free_bytes"));
      cached_bytes = (← value_u64 J j (codes "cached_bytes"));
      buffered_bytes = (← value_u64 J j (codes "buffered_bytes"));
      slab_bytes = (← value_u64 J j (codes "slab_bytes"));
      swap_used_bytes = (← value_u64 J j (codes "swap_used_bytes"));
      swap_free_bytes = (← value_u64 J j (codes "swap_free_bytes"));
      page_faults_minor = (← value_u64 J j (codes "page_faults_minor"));
      page_faults_major = (← value_u64 J j (codes "page_faults_major"));
      psi_some_pct_x100 = (← value_u32 J j (codes "psi_some_pct_x100"));
      psi_full_pct_x100 = (← value_u32 J j (codes "psi_full_pct_x100"));
      oom_kills_total = (← value_u64 J j (codes "oom_kills_total"));
    })

  unfoldable pub fill_core : J.Json → Fallible CoreStats
  fill_core c = do
    ok (record {
      cpu_id = (← value_u32 J c (codes "cpu_id"));
      user_ns = (← value_u64 J c (codes "user_ns"));
      system_ns = (← value_u64 J c (codes "system_ns"));
      iowait_ns = (← value_u64 J c (codes "iowait_ns"));
      irq_ns = (← value_u64 J c (codes "irq_ns"));
      softirq_ns = (← value_u64 J c (codes "softirq_ns"));
      idle_ns = (← value_u64 J c (codes "idle_ns"));
      ctx_switches = (← value_u64 J c (codes "ctx_switches"));
    })

  -- The loops `for (i = 0; i < j.size(); ++i)` over j[i], with `count` entries left from `i` on.
  unfoldable pub fill_each :
      {A : Type 0} → (J.Json → Fallible A) → J.Json → ℕ → ℕ → Fallible (List A)
  fill_each fill j zero i = ok []
  fill_each fill j (suc count) i = do
    entry ← J.index j i
    filled ← fill entry
    rest ← fill_each fill j count (i + 1)
    ok (filled ∷ rest)

  unfoldable pub fill_list : {A : Type 0} → (J.Json → Fallible A) → J.Json → Fallible (List A)
  fill_list fill j = fill_each fill j (J.size j) 0

  unfoldable pub fill_cpu : J.Json → Fallible (CpuSnapshot J.Double)
  fill_cpu j = do
    load ← J.at j (codes "load")
    load_1 ← value_double J load (codes "load_1")
    load_5 ← value_double J load (codes "load_5")
    load_15 ← value_double J load (codes "load_15")
    cores_j ← J.at j (codes "cores")
    cores ← fill_list fill_core cores_j
    ok (record { load_1 = load_1; load_5 = load_5; load_15 = load_15; cores = cores })

  -- The loop over the bytes of `comm`, with the text so far; it ends at a zero byte.
  unfoldable pub comm_bytes : List J.Json → Bytes → Fallible Bytes
  comm_bytes [] comm = ok comm
  comm_bytes (b ∷ bs) comm = do
    c ← J.get_u8 b
    if c == 0 then ok comm else comm_bytes bs (comm ++ c ∷ [])

  -- `p["comm"]` is there where contains says so, and is then what `at` gives.
  unfoldable pub comm_array : J.Json → Fallible Bool
  comm_array p =
      if J.contains p (codes "comm")
      then (do comm_j ← J.at p (codes "comm"); ok (J.is_array comm_j))
      else ok false

  unfoldable pub read_comm : J.Json → Fallible Bytes
  read_comm p = do
    array ← comm_array p
    if array
        then (do comm_j ← J.at p (codes "comm"); comm_bytes (J.elements comm_j) [])
        else value_string J p (codes "comm")

  unfoldable pub fill_process : J.Json → Fallible ProcessStats
  fill_process p = do
    ok (record {
      pid = (← value_u32 J p (codes "pid"));
      ppid = (← value_u32 J p (codes "ppid"));
      uid = (← value_u32 J p (codes "uid"));
      thread_count = (← value_u32 J p (codes "thread_count"));
      cpu_user_ns = (← value_u64 J p (codes "cpu_user_ns"));
      cpu_system_ns = (← value_u64 J p (codes "cpu_system_ns"));
      mem_rss_bytes = (← value_u64 J p (codes "mem_rss_bytes"));
      mem_vms_bytes = (← value_u64 J p (codes "mem_vms_bytes"));
      voluntary_ctx_sw = (← value_u64 J p (codes "voluntary_ctx_sw"));
      involuntary_ctx_sw = (← value_u64 J p (codes "involuntary_ctx_sw"));
      read_bytes = (← value_u64 J p (codes "read_bytes"));
      write_bytes = (← value_u64 J p (codes "write_bytes"));
      page_faults_minor = (← value_u64 J p (codes "page_faults_minor"));
      page_faults_major = (← value_u64 J p (codes "page_faults_major"));
      start_time_ns = (← value_u64 J p (codes "start_time_ns"));
      open_fds = (← value_u32 J p (codes "open_fds"));
      comm = text (← read_comm p);
    })

  unfoldable pub fill_processes : J.Json → Fallible (List ProcessStats)
  fill_processes arr = fill_list fill_process arr

  unfoldable pub fill_iface : J.Json → Fallible NetIfaceStats
  fill_iface src = do
    ok (record {
      iface_idx = (← value_u32 J src (codes "iface_idx"));
      name = text (← value_string J src (codes "name"));
      rx_bytes = (← value_u64 J src (codes "rx_bytes"));
      tx_bytes = (← value_u64 J src (codes "tx_bytes"));
      rx_packets = (← value_u64 J src (codes "rx_packets"));
      tx_packets = (← value_u64 J src (codes "tx_packets"));
      rx_drops = (← value_u64 J src (codes "rx_drops"));
      tx_drops = (← value_u64 J src (codes "tx_drops"));
      rx_errors = (← value_u64 J src (codes "rx_errors"));
      tx_errors = (← value_u64 J src (codes "tx_errors"));
    })

  unfoldable pub fill_tcp : J.Json → Fallible TcpStateSnapshot
  fill_tcp tcp = do
    ok (record {
      established = (← value_u64 J tcp (codes "established"));
      syn_sent = (← value_u64 J tcp (codes "syn_sent"));
      syn_recv = (← value_u64 J tcp (codes "syn_recv"));
      fin_wait1 = (← value_u64 J tcp (codes "fin_wait1"));
      fin_wait2 = (← value_u64 J tcp (codes "fin_wait2"));
      time_wait = (← value_u64 J tcp (codes "time_wait"));
      close_wait = (← value_u64 J tcp (codes "close_wait"));
      listen = (← value_u64 J tcp (codes "listen"));
      listen_overflows = (← value_u64 J tcp (codes "listen_overflows"));
      retransmits = (← value_u64 J tcp (codes "retransmits"));
      resets_in = (← value_u64 J tcp (codes "resets_in"));
      resets_out = (← value_u64 J tcp (codes "resets_out"));
    })

  unfoldable pub fill_network : J.Json → Fallible NetworkSnapshot
  fill_network j = do
    ifaces_j ← J.at j (codes "ifaces")
    ifaces ← fill_list fill_iface ifaces_j
    tcp_j ← J.at j (codes "tcp")
    tcp ← fill_tcp tcp_j
    ok (record { ifaces = ifaces; tcp = tcp })

  unfoldable pub fill_security : J.Json → Fallible SecuritySnapshot
  fill_security j = do
    ok (record {
      ptrace = (← value_u64 J j (codes "ptrace"));
      memfd_create = (← value_u64 J j (codes "memfd_create"));
      prctl = (← value_u64 J j (codes "prctl"));
      setuid = (← value_u64 J j (codes "setuid"));
      exec_anomaly = (← value_u64 J j (codes "exec_anomaly"));
      capability_use = (← value_u64 J j (codes "capability_use"));
    })

  -- A bucket that the array does not have is 0.
  unfoldable pub get_bucket : J.Json → ℕ → Fallible ℕ
  get_bucket buckets i =
      if ltb i (J.size buckets) then (do bucket ← J.index buckets i; J.get_u64 bucket) else ok 0

  unfoldable pub fill_buckets : J.Json → Fallible SchedBuckets
  fill_buckets buckets = do
    ok (record {
      lt_10us = (← get_bucket buckets 0);
      lt_100us = (← get_bucket buckets 1);
      lt_1ms = (← get_bucket buckets 2);
      lt_10ms = (← get_bucket buckets 3);
      lt_100ms = (← get_bucket buckets 4);
      lt_1s = (← get_bucket buckets 5);
      lt_10s = (← get_bucket buckets 6);
      ge_10s = (← get_bucket buckets 7);
    })

  unfoldable pub fill_scheduler : J.Json → Fallible SchedulerSnapshot
  fill_scheduler j = do
    hist ← J.at j (codes "histogram")
    buckets ← J.at hist (codes "buckets")
    ok (record {
      histogram = (← fill_buckets buckets);
      total_count = (← value_u64 J hist (codes "total_count"));
      total_lat_ns = (← value_u64 J hist (codes "total_latency_ns"));
      max_lat_ns = (← value_u64 J hist (codes "max_latency_ns"));
      p50_ns = (← value_u64 J j (codes "p50_ns"));
      p95_ns = (← value_u64 J j (codes "p95_ns"));
      p99_ns = (← value_u64 J j (codes "p99_ns"));
    })
