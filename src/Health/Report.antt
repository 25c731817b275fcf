-- ===== src/Health/Report.antt =====
-- The documents of agl-health-daemon, written down from the names of the metrics, and their reading by
-- plugins/agl_health/AglHealth.cpp: processes, interfaces, the scheduler and the sections.
use test_runner.Prelude.{ℕ, ◌≡◌, ◌≢◌, refl, List, [], ◌∷◌, ◌++◌, map, Bytes, codes, All}
use test_runner.Health.Json.{ok, JsonLibrary}
use test_runner.Health.Documented.{
  Documented, value_u64-object, value_u32-object, value_double-object, value_string-object,
}
use test_runner.Health.Metrics.{
  CoreStats, CpuSnapshot, ProcessStats, NetIfaceStats, NetworkSnapshot, SchedBuckets,
  SchedulerSnapshot,
}
use test_runner.Server.Recorders.Table.{until_nul_whole}
use test_runner.Health.Fill.{
  fill_core, fill_cpu, fill_list, fill_process, fill_processes, fill_iface, fill_network,
  fill_buckets, fill_scheduler,
}
use test_runner.Health.Flat.{
  CoreFits, core_members, fill_core-core_members, tcp_members, fill_tcp-tcp_members,
}
use test_runner.Health.Arrays.{IsTextByte, fill_list-array, read_comm-array, fill_buckets-numbers}
use test_runner.Health.Ranges.{ProcessFits, IfaceFits, NetworkFits, BucketsFits, SchedulerFits}

abbrev counts : SchedBuckets → List ℕ
counts h =
    h.lt_10us ∷ h.lt_100us ∷ h.lt_1ms ∷ h.lt_10ms ∷ h.lt_100ms ∷ h.lt_1s ∷ h.lt_10s ∷ h.ge_10s ∷ []

pub text_bytes : (s : Bytes) → All IsTextByte s → All (λ c. c ≢ 0) s
text_bytes [] h = tt
text_bytes (c ∷ s) h = (h.0.0, text_bytes s h.1)

module _ (J : JsonLibrary) (D : Documented J) where
  abbrev load_members : CpuSnapshot J.Double → List (Bytes × J.Json)
  load_members m =
      (codes "load_1", D.float m.load_1)
      ∷ (codes "load_5", D.float m.load_5)
      ∷ (codes "load_15", D.float m.load_15)
      ∷ []

  abbrev pub cpu_members : CpuSnapshot J.Double → List (Bytes × J.Json)
  cpu_members m =
      (codes "load", J.object (load_members m))
      ∷ (codes "cores", D.array (map (λ c. J.object (core_members J D c)) m.cores))
      ∷ []

  -- The command name comes as the bytes of a C string, in an array that may go on behind its end.
  abbrev pub process_members : List ℕ → ProcessStats → List (Bytes × J.Json)
  process_members rest m =
      (codes "pid", D.number m.pid)
      ∷ (codes "ppid", D.number m.ppid)
      ∷ (codes "uid", D.number m.uid)
      ∷ (codes "thread_count", D.number m.thread_count)
      ∷ (codes "cpu_user_ns", D.number m.cpu_user_ns)
      ∷ (codes "cpu_system_ns", D.number m.cpu_system_ns)
      ∷ (codes "mem_rss_bytes", D.number m.mem_rss_bytes)
      ∷ (codes "mem_vms_bytes", D.number m.mem_vms_bytes)
      ∷ (codes "voluntary_ctx_sw", D.number m.voluntary_ctx_sw)
      ∷ (codes "involuntary_ctx_sw", D.number m.involuntary_ctx_sw)
      ∷ (codes "read_bytes", D.number m.read_bytes)
      ∷ (codes "write_bytes", D.number m.write_bytes)
      ∷ (codes "page_faults_minor", D.number m.page_faults_minor)
      ∷ (codes "page_faults_major", D.number m.page_faults_major)
      ∷ (codes "start_time_ns", D.number m.start_time_ns)
      ∷ (codes "open_fds", D.number m.open_fds)
      ∷ (codes "comm", D.array (map D.number (m.comm ++ 0 ∷ rest)))
      ∷ []

  abbrev pub iface_members : NetIfaceStats → List (Bytes × J.Json)
  iface_members m =
      (codes "iface_idx", D.number m.iface_idx)
      ∷ (codes "name", D.string m.name)
      ∷ (codes "rx_bytes", D.number m.rx_bytes)
      ∷ (codes "tx_bytes", D.number m.tx_bytes)
      ∷ (codes "rx_packets", D.number m.rx_packets)
      ∷ (codes "tx_packets", D.number m.tx_packets)
      ∷ (codes "rx_drops", D.number m.rx_drops)
      ∷ (codes "tx_drops", D.number m.tx_drops)
      ∷ (codes "rx_errors", D.number m.rx_errors)
      ∷ (codes "tx_errors", D.number m.tx_errors)
      ∷ []

  abbrev pub network_members : NetworkSnapshot → List (Bytes × J.Json)
  network_members m =
      (codes "ifaces", D.array (map (λ i. J.object (iface_members i)) m.ifaces))
      ∷ (codes "tcp", J.object (tcp_members J D m.tcp))
      ∷ []

  abbrev pub bucket_numbers : SchedBuckets → List J.Json
  bucket_numbers h = map D.number (counts h)

  abbrev histogram_members : SchedulerSnapshot → List (Bytes × J.Json)
  histogram_members m =
      (codes "buckets", D.array (bucket_numbers m.histogram))
      ∷ (codes "total_count", D.number m.total_count)
      ∷ (codes "total_latency_ns", D.number m.total_lat_ns)
      ∷ (codes "max_latency_ns", D.number m.max_lat_ns)
      ∷ []

  abbrev pub scheduler_members : SchedulerSnapshot → List (Bytes × J.Json)
  scheduler_members m =
      (codes "histogram", J.object (histogram_members m))
      ∷ (codes "p50_ns", D.number m.p50_ns)
      ∷ (codes "p95_ns", D.number m.p95_ns)
      ∷ (codes "p99_ns", D.number m.p99_ns)
      ∷ []

  cores-array :
      (cs : List CoreStats)
      → All CoreFits cs
      → fill_list J (fill_core J) (D.array (map (λ c. J.object (core_members J D c)) cs)) ≡ ok cs
  cores-array cs h =
      fill_list-array J D (fill_core J) (λ c. J.object (core_members J D c)) CoreFits
        (fill_core-core_members J D) cs h

  pub fill_cpu-cpu_members :
      (m : CpuSnapshot J.Double)
      → All CoreFits m.cores
      → fill_cpu J (J.object (cpu_members m)) ≡ ok m
  unfolding fill_cpu
  fill_cpu-cpu_members m fits = rw (
    D.at-object (cpu_members m) (codes "load") _ refl,
    value_double-object J D (load_members m) (codes "load_1") m.load_1 refl,
    value_double-object J D (load_members m) (codes "load_5") m.load_5 refl,
    value_double-object J D (load_members m) (codes "load_15") m.load_15 refl,
    D.at-object (cpu_members m) (codes "cores") _ refl,
    cores-array m.cores fits,
  )

  fill_process-process_members :
      (rest : List ℕ) (m : ProcessStats)
      → ProcessFits m
      → fill_process J (J.object (process_members rest m)) ≡ ok m
  unfolding fill_process
  fill_process-process_members rest m fits = rw (
    value_u32-object J D (process_members rest m) (codes "pid") m.pid refl fits.pid,
    value_u32-object J D (process_members rest m) (codes "ppid") m.ppid refl fits.ppid,
    value_u32-object J D (process_members rest m) (codes "uid") m.uid refl fits.uid,
    value_u32-object J D (process_members rest m) (codes "thread_count") m.thread_count refl
        fits.thread_count,
    value_u64-object J D (process_members rest m) (codes "cpu_user_ns") m.cpu_user_ns refl
        fits.cpu_user_ns,
    value_u64-object J D (process_members rest m) (codes "cpu_system_ns") m.cpu_system_ns refl
        fits.cpu_system_ns,
    value_u64-object J D (process_members rest m) (codes "mem_rss_bytes") m.mem_rss_bytes refl
        fits.mem_rss_bytes,
    value_u64-object J D (process_members rest m) (codes "mem_vms_bytes") m.mem_vms_bytes refl
        fits.mem_vms_bytes,
    value_u64-object J D (process_members rest m) (codes "voluntary_ctx_sw") m.voluntary_ctx_sw refl
        fits.voluntary_ctx_sw,
    value_u64-object J D (process_members rest m) (codes "involuntary_ctx_sw") m.involuntary_ctx_sw
        refl fits.involuntary_ctx_sw,
    value_u64-object J D (process_members rest m) (codes "read_bytes") m.read_bytes refl
        fits.read_bytes,
    value_u64-object J D (process_members rest m) (codes "write_bytes") m.write_bytes refl
        fits.write_bytes,
    value_u64-object J D (process_members rest m) (codes "page_faults_minor") m.page_faults_minor
        refl fits.page_faults_minor,
    value_u64-object J D (process_members rest m) (codes "page_faults_major") m.page_faults_major
        refl fits.page_faults_major,
    value_u64-object J D (process_members rest m) (codes "start_time_ns") m.start_time_ns refl
        fits.start_time_ns,
    value_u32-object J D (process_members rest m) (codes "open_fds") m.open_fds refl fits.open_fds,
    read_comm-array J D (process_members rest m) m.comm rest refl fits.comm,
    until_nul_whole m.comm (text_bytes m.comm fits.comm),
  )

  pub fill_processes-process_members :
      (rest : List ℕ) (ms : List ProcessStats)
      → All ProcessFits ms
      → fill_processes J (D.array (map (λ m. J.object (process_members rest m)) ms)) ≡ ok ms
  unfolding fill_processes
  fill_processes-process_members rest ms fits =
      fill_list-array J D (fill_process J) (λ m. J.object (process_members rest m)) ProcessFits
        (fill_process-process_members rest) ms fits

  fill_iface-iface_members :
      (m : NetIfaceStats) → IfaceFits m → fill_iface J (J.object (iface_members m)) ≡ ok m
  unfolding fill_iface
  fill_iface-iface_members m fits = rw (
    value_u32-object J D (iface_members m) (codes "iface_idx") m.iface_idx refl fits.iface_idx,
    value_string-object J D (iface_members m) (codes "name") m.name refl,
    value_u64-object J D (iface_members m) (codes "rx_bytes") m.rx_bytes refl fits.rx_bytes,
    value_u64-object J D (iface_members m) (codes "tx_bytes") m.tx_bytes refl fits.tx_bytes,
    value_u64-object J D (iface_members m) (codes "rx_packets") m.rx_packets refl fits.rx_packets,
    value_u64-object J D (iface_members m) (codes "tx_packets") m.tx_packets refl fits.tx_packets,
    value_u64-object J D (iface_members m) (codes "rx_drops") m.rx_drops refl fits.rx_drops,
    value_u64-object J D (iface_members m) (codes "tx_drops") m.tx_drops refl fits.tx_drops,
    value_u64-object J D (iface_members m) (codes "rx_errors") m.rx_errors refl fits.rx_errors,
    value_u64-object J D (iface_members m) (codes "tx_errors") m.tx_errors refl fits.tx_errors,
    until_nul_whole m.name fits.name,
  )

  pub fill_network-network_members :
      (m : NetworkSnapshot) → NetworkFits m → fill_network J (J.object (network_members m)) ≡ ok m
  unfolding fill_network
  fill_network-network_members m fits = rw (
    D.at-object (network_members m) (codes "ifaces") _ refl,
    fill_list-array J D (fill_iface J) (λ i. J.object (iface_members i)) IfaceFits
        fill_iface-iface_members m.ifaces fits.ifaces,
    D.at-object (network_members m) (codes "tcp") _ refl,
    fill_tcp-tcp_members J D m.tcp fits.tcp,
  )

  fill_buckets-bucket_numbers :
      (h : SchedBuckets) → BucketsFits h → fill_buckets J (D.array (bucket_numbers h)) ≡ ok h
  fill_buckets-bucket_numbers h fits = fill_buckets-numbers J D (counts h) (
    fits.lt_10us,
    (
      fits.lt_100us,
      (
        fits.lt_1ms,
        (fits.lt_10ms, (fits.lt_100ms, (fits.lt_1s, (fits.lt_10s, (fits.ge_10s, tt))))),
      ),
    ),
  )

  pub fill_scheduler-scheduler_members :
      (m : SchedulerSnapshot)
      → SchedulerFits m
      → fill_scheduler J (J.object (scheduler_members m)) ≡ ok m
  unfolding fill_scheduler
  fill_scheduler-scheduler_members m fits = rw (
    D.at-object (scheduler_members m) (codes "histogram") _ refl,
    D.at-object (histogram_members m) (codes "buckets") _ refl,
    fill_buckets-bucket_numbers m.histogram fits.histogram,
    value_u64-object J D (histogram_members m) (codes "total_count") m.total_count refl
        fits.total_count,
    value_u64-object J D (histogram_members m) (codes "total_latency_ns") m.total_lat_ns refl
        fits.total_lat_ns,
    value_u64-object J D (histogram_members m) (codes "max_latency_ns") m.max_lat_ns refl
        fits.max_lat_ns,
    value_u64-object J D (scheduler_members m) (codes "p50_ns") m.p50_ns refl fits.p50_ns,
    value_u64-object J D (scheduler_members m) (codes "p95_ns") m.p95_ns refl fits.p95_ns,
    value_u64-object J D (scheduler_members m) (codes "p99_ns") m.p99_ns refl fits.p99_ns,
  )
