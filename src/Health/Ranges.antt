-- ===== src/Health/Ranges.antt =====
-- The ranges of the numbers and texts of a snapshot.
use test_runner.Prelude.{◌^◌, ◌<◌, ◌≢◌, All}
use test_runner.Health.Metrics.{
  ProcessStats, NetIfaceStats, NetworkSnapshot, SchedBuckets, SchedulerSnapshot,
}
use test_runner.Health.Flat.{TcpFits}
use test_runner.Health.Arrays.{IsTextByte}

-- The values lie in the ranges of their fields.
pub record ProcessFits (m : ProcessStats) : Type 0 where
  pub pid : m.pid < 2 ^ 32
  pub ppid : m.ppid < 2 ^ 32
  pub uid : m.uid < 2 ^ 32
  pub thread_count : m.thread_count < 2 ^ 32
  pub cpu_user_ns : m.cpu_user_ns < 2 ^ 64
  pub cpu_system_ns : m.cpu_system_ns < 2 ^ 64
  pub mem_rss_bytes : m.mem_rss_bytes < 2 ^ 64
  pub mem_vms_bytes : m.mem_vms_bytes < 2 ^ 64
  pub voluntary_ctx_sw : m.voluntary_ctx_sw < 2 ^ 64
  pub involuntary_ctx_sw : m.involuntary_ctx_sw < 2 ^ 64
  pub read_bytes : m.read_bytes < 2 ^ 64
  pub write_bytes : m.write_bytes < 2 ^ 64
  pub page_faults_minor : m.page_faults_minor < 2 ^ 64
  pub page_faults_major : m.page_faults_major < 2 ^ 64
  pub start_time_ns : m.start_time_ns < 2 ^ 64
  pub open_fds : m.open_fds < 2 ^ 32
  pub comm : All IsTextByte m.comm

-- The values lie in the ranges of their fields.
pub record IfaceFits (m : NetIfaceStats) : Type 0 where
  pub iface_idx : m.iface_idx < 2 ^ 32
  pub rx_bytes : m.rx_bytes < 2 ^ 64
  pub tx_bytes : m.tx_bytes < 2 ^ 64
  pub rx_packets : m.rx_packets < 2 ^ 64
  pub tx_packets : m.tx_packets < 2 ^ 64
  pub rx_drops : m.rx_drops < 2 ^ 64
  pub tx_drops : m.tx_drops < 2 ^ 64
  pub rx_errors : m.rx_errors < 2 ^ 64
  pub tx_errors : m.tx_errors < 2 ^ 64
  pub name : All (λ c. c ≢ 0) m.name

pub record NetworkFits (m : NetworkSnapshot) : Type 0 where
  pub ifaces : All IfaceFits m.ifaces
  pub tcp : TcpFits m.tcp

-- The values lie in the ranges of their fields.
pub record BucketsFits (m : SchedBuckets) : Type 0 where
  pub lt_10us : m.lt_10us < 2 ^ 64
  pub lt_100us : m.lt_100us < 2 ^ 64
  pub lt_1ms : m.lt_1ms < 2 ^ 64
  pub lt_10ms : m.lt_10ms < 2 ^ 64
  pub lt_100ms : m.lt_100ms < 2 ^ 64
  pub lt_1s : m.lt_1s < 2 ^ 64
  pub lt_10s : m.lt_10s < 2 ^ 64
  pub ge_10s : m.ge_10s < 2 ^ 64

-- The values lie in the ranges of their fields.
pub record SchedulerFits (m : SchedulerSnapshot) : Type 0 where
  pub total_count : m.total_count < 2 ^ 64
  pub total_lat_ns : m.total_lat_ns < 2 ^ 64
  pub max_lat_ns : m.max_lat_ns < 2 ^ 64
  pub p50_ns : m.p50_ns < 2 ^ 64
  pub p95_ns : m.p95_ns < 2 ^ 64
  pub p99_ns : m.p99_ns < 2 ^ 64
  pub histogram : BucketsFits m.histogram
