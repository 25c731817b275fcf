-- ===== src/Health/Metrics.antt =====
-- The structs of plugins/agl_health/agl_health.capnp, and their mirrors in
-- plugins/agl_health/AglHealth_Client.h: one record for both, since the fields correspond one to one.
use test_runner.Prelude.{ℕ, List, Bytes}

pub record MemorySnapshot : Type 0 where
  pub total_bytes : ℕ
  pub free_bytes : ℕ
  pub cached_bytes : ℕ
  pub buffered_bytes : ℕ
  pub slab_bytes : ℕ
  pub swap_used_bytes : ℕ
  pub swap_free_bytes : ℕ
  pub page_faults_minor : ℕ
  pub page_faults_major : ℕ
  pub psi_some_pct_x100 : ℕ
  pub psi_full_pct_x100 : ℕ
  pub oom_kills_total : ℕ

pub record CoreStats : Type 0 where
  pub cpu_id : ℕ
  pub user_ns : ℕ
  pub system_ns : ℕ
  pub iowait_ns : ℕ
  pub irq_ns : ℕ
  pub softirq_ns : ℕ
  pub idle_ns : ℕ
  pub ctx_switches : ℕ

pub record CpuSnapshot (Double : Type 0) : Type 0 where
  pub load_1 : Double
  pub load_5 : Double
  pub load_15 : Double
  pub cores : List CoreStats

pub record ProcessStats : Type 0 where
  pub pid : ℕ
  pub ppid : ℕ
  pub uid : ℕ
  pub thread_count : ℕ
  pub cpu_user_ns : ℕ
  pub cpu_system_ns : ℕ
  pub mem_rss_bytes : ℕ
  pub mem_vms_bytes : ℕ
  pub voluntary_ctx_sw : ℕ
  pub involuntary_ctx_sw : ℕ
  pub read_bytes : ℕ
  pub write_bytes : ℕ
  pub page_faults_minor : ℕ
  pub page_faults_major : ℕ
  pub start_time_ns : ℕ
  pub open_fds : ℕ
  pub comm : Bytes

pub record NetIfaceStats : Type 0 where
  pub iface_idx : ℕ
  pub name : Bytes
  pub rx_bytes : ℕ
  pub tx_bytes : ℕ
  pub rx_packets : ℕ
  pub tx_packets : ℕ
  pub rx_drops : ℕ
  pub tx_drops : ℕ
  pub rx_errors : ℕ
  pub tx_errors : ℕ

pub record TcpStateSnapshot : Type 0 where
  pub established : ℕ
  pub syn_sent : ℕ
  pub syn_recv : ℕ
  pub fin_wait1 : ℕ
  pub fin_wait2 : ℕ
  pub time_wait : ℕ
  pub close_wait : ℕ
  pub listen : ℕ
  pub listen_overflows : ℕ
  pub retransmits : ℕ
  pub resets_in : ℕ
  pub resets_out : ℕ

pub record NetworkSnapshot : Type 0 where
  pub ifaces : List NetIfaceStats
  pub tcp : TcpStateSnapshot

pub record SecuritySnapshot : Type 0 where
  pub ptrace : ℕ
  pub memfd_create : ℕ
  pub prctl : ℕ
  pub setuid : ℕ
  pub exec_anomaly : ℕ
  pub capability_use : ℕ

pub record SchedBuckets : Type 0 where
  pub lt_10us : ℕ
  pub lt_100us : ℕ
  pub lt_1ms : ℕ
  pub lt_10ms : ℕ
  pub lt_100ms : ℕ
  pub lt_1s : ℕ
  pub lt_10s : ℕ
  pub ge_10s : ℕ

pub record SchedulerSnapshot : Type 0 where
  pub histogram : SchedBuckets
  pub total_count : ℕ
  pub total_lat_ns : ℕ
  pub max_lat_ns : ℕ
  pub p50_ns : ℕ
  pub p95_ns : ℕ
  pub p99_ns : ℕ

pub record MetricSnapshot (Double : Type 0) : Type 0 where
  pub timestamp_ns : ℕ
  pub memory : MemorySnapshot
  pub cpu : CpuSnapshot Double
  pub processes : List ProcessStats
  pub network : NetworkSnapshot
  pub security : SecuritySnapshot
  pub scheduler : SchedulerSnapshot
