-- ===== src/Health/Client.antt =====
-- plugins/agl_health/AglHealth_Client.cpp: what the client makes of the results, and its calls.
use test_runner.Prelude.{List, map}
use test_runner.Client.{Client}
use test_runner.Client.Requests.{Response, Answer, request}
use test_runner.Health.Fill.{text}
use test_runner.Health.Metrics.{
  MemorySnapshot, CoreStats, CpuSnapshot, ProcessStats, NetIfaceStats, TcpStateSnapshot,
  NetworkSnapshot, SecuritySnapshot, SchedBuckets, SchedulerSnapshot, MetricSnapshot,
}
use test_runner.Health.Handlers.{
  Method, MethodResults, get_metrics, get_memory, get_cpu, get_network, get_security, get_scheduler,
  get_processes, set_daemon_url,
}

-- A reader is the struct that was sent; each field is copied.
unfoldable pub decode_memory : MemorySnapshot → MemorySnapshot
decode_memory r = record {
  total_bytes = r.total_bytes;
  free_bytes = r.free_bytes;
  cached_bytes = r.cached_bytes;
  buffered_bytes = r.buffered_bytes;
  slab_bytes = r.slab_bytes;
  swap_used_bytes = r.swap_used_bytes;
  swap_free_bytes = r.swap_free_bytes;
  page_faults_minor = r.page_faults_minor;
  page_faults_major = r.page_faults_major;
  psi_some_pct_x100 = r.psi_some_pct_x100;
  psi_full_pct_x100 = r.psi_full_pct_x100;
  oom_kills_total = r.oom_kills_total;
}

unfoldable pub decode_core : CoreStats → CoreStats
decode_core core = record {
  cpu_id = core.cpu_id;
  user_ns = core.user_ns;
  system_ns = core.system_ns;
  iowait_ns = core.iowait_ns;
  irq_ns = core.irq_ns;
  softirq_ns = core.softirq_ns;
  idle_ns = core.idle_ns;
  ctx_switches = core.ctx_switches;
}

unfoldable pub decode_cpu : {D : Type 0} → CpuSnapshot D → CpuSnapshot D
decode_cpu r = record {
  load_1 = r.load_1;
  load_5 = r.load_5;
  load_15 = r.load_15;
  cores = map decode_core r.cores;
}

unfoldable pub decode_process : ProcessStats → ProcessStats
decode_process p = record {
  pid = p.pid;
  ppid = p.ppid;
  uid = p.uid;
  thread_count = p.thread_count;
  cpu_user_ns = p.cpu_user_ns;
  cpu_system_ns = p.cpu_system_ns;
  mem_rss_bytes = p.mem_rss_bytes;
  mem_vms_bytes = p.mem_vms_bytes;
  voluntary_ctx_sw = p.voluntary_ctx_sw;
  involuntary_ctx_sw = p.involuntary_ctx_sw;
  read_bytes = p.read_bytes;
  write_bytes = p.write_bytes;
  page_faults_minor = p.page_faults_minor;
  page_faults_major = p.page_faults_major;
  start_time_ns = p.start_time_ns;
  open_fds = p.open_fds;
  comm = text p.comm;
}

abbrev pub decode_processes : List ProcessStats → List ProcessStats
decode_processes list = map decode_process list

unfoldable pub decode_iface : NetIfaceStats → NetIfaceStats
decode_iface iface = record {
  iface_idx = iface.iface_idx;
  name = text iface.name;
  rx_bytes = iface.rx_bytes;
  tx_bytes = iface.tx_bytes;
  rx_packets = iface.rx_packets;
  tx_packets = iface.tx_packets;
  rx_drops = iface.rx_drops;
  tx_drops = iface.tx_drops;
  rx_errors = iface.rx_errors;
  tx_errors = iface.tx_errors;
}

unfoldable pub decode_tcp : TcpStateSnapshot → TcpStateSnapshot
decode_tcp tcp = record {
  established = tcp.established;
  syn_sent = tcp.syn_sent;
  syn_recv = tcp.syn_recv;
  fin_wait1 = tcp.fin_wait1;
  fin_wait2 = tcp.fin_wait2;
  time_wait = tcp.time_wait;
  close_wait = tcp.close_wait;
  listen = tcp.listen;
  listen_overflows = tcp.listen_overflows;
  retransmits = tcp.retransmits;
  resets_in = tcp.resets_in;
  resets_out = tcp.resets_out;
}

unfoldable pub decode_network : NetworkSnapshot → NetworkSnapshot
decode_network r = record { ifaces = map decode_iface r.ifaces; tcp = decode_tcp r.tcp }

unfoldable pub decode_security : SecuritySnapshot → SecuritySnapshot
decode_security r = record {
  ptrace = r.ptrace;
  memfd_create = r.memfd_create;
  prctl = r.prctl;
  setuid = r.setuid;
  exec_anomaly = r.exec_anomaly;
  capability_use = r.capability_use;
}

unfoldable pub decode_buckets : SchedBuckets → SchedBuckets
decode_buckets h = record {
  lt_10us = h.lt_10us;
  lt_100us = h.lt_100us;
  lt_1ms = h.lt_1ms;
  lt_10ms = h.lt_10ms;
  lt_100ms = h.lt_100ms;
  lt_1s = h.lt_1s;
  lt_10s = h.lt_10s;
  ge_10s = h.ge_10s;
}

unfoldable pub decode_scheduler : SchedulerSnapshot → SchedulerSnapshot
decode_scheduler r = record {
  histogram = decode_buckets r.histogram;
  total_count = r.total_count;
  total_lat_ns = r.total_lat_ns;
  max_lat_ns = r.max_lat_ns;
  p50_ns = r.p50_ns;
  p95_ns = r.p95_ns;
  p99_ns = r.p99_ns;
}

unfoldable pub decode_metrics : {D : Type 0} → MetricSnapshot D → MetricSnapshot D
decode_metrics snap = record {
  timestamp_ns = snap.timestamp_ns;
  memory = decode_memory snap.memory;
  cpu = decode_cpu snap.cpu;
  processes = decode_processes snap.processes;
  network = decode_network snap.network;
  security = decode_security snap.security;
  scheduler = decode_scheduler snap.scheduler;
}

-- What a call returns.
unfoldable pub decode_results : (D : Type 0) (m : Method) → MethodResults D m → MethodResults D m
decode_results D get_metrics r = decode_metrics r
decode_results D get_memory r = decode_memory r
decode_results D get_cpu r = decode_cpu r
decode_results D get_network r = decode_network r
decode_results D get_security r = decode_security r
decode_results D get_scheduler r = decode_scheduler r
decode_results D (get_processes limit) r = decode_processes r
decode_results D (set_daemon_url url) r = r

-- How the RPC runtime carries a method over a connection, and what that does to the far side.
abbrev pub HealthChannel : Type 0 → Type 0 → Type 0 → Type 0
HealthChannel D C W = C → (m : Method) → W → Response (MethodResults D m) × W

unfoldable pub call_method :
    {D C W : Type 0}
    → HealthChannel D C W
    → Client C
    → (m : Method) → W
    → (Answer (MethodResults D m) × Client C) × W
call_method {D} channel c m w = request (λ conn. channel conn m) (decode_results D m) c w
