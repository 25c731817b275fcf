-- ===== src/Tests/HealthExamples.antt =====
-- The theorems on plugins/agl_health, applied to a concrete daemon.
use test_runner.Prelude.{
  ℕ, ◌≡◌, refl, ap, true, false, none, some, List, [], ◌∷◌, ◌++◌, map, ◌⊎◌, Bytes, codes, bytes_eq,
  if◌then◌else◌, arith,
}
use test_runner.Client.{Client}
use test_runner.Client.Requests.{Response, results, exception, value, request, request_over, finish}
use test_runner.Recorder.Devices.{until_nul}
use test_runner.Health.Json.{Failure, Fallible, ok, thrown, parse_error, JsonLibrary}
use test_runner.Health.Metrics.{
  MemorySnapshot, CoreStats, ProcessStats, NetIfaceStats, TcpStateSnapshot, SecuritySnapshot,
  SchedBuckets, SchedulerSnapshot, MetricSnapshot,
}
use test_runner.Health.Flat.{MemoryFits, CoreFits, TcpFits, SecurityFits}
use test_runner.Health.Fill.{read_comm, fill_buckets}
use test_runner.Health.Arrays.{read_comm-array, fill_buckets-numbers}
use test_runner.Health.Ranges.{ProcessFits, IfaceFits, BucketsFits}
use test_runner.Health.Snapshot.{MetricsFits, metrics_members, fill_metrics-metrics_members}
use test_runner.Health.Handlers.{
  Curl, PluginAglHealth, default_url, write_pieces, fetch_json, fetch_parsed, read_results,
  ask_daemon, handle_method, fill_metrics, get_metrics, set_daemon_url,
}
use test_runner.Health.Fetching.{Fetched, handle_method-Fetched}
use test_runner.Health.Answers.{handle_method-set_daemon_url}
use test_runner.Health.Client.{HealthChannel, call_method, decode_results, decode_metrics}
use test_runner.Health.Delivery.{ServesHealth, call_method-get_metrics}
use test_runner.Tests.JsonValues.{Value, library, documented}

abbrev memory_now : MemorySnapshot
memory_now = record {
  total_bytes = 1;
  free_bytes = 2;
  cached_bytes = 3;
  buffered_bytes = 4;
  slab_bytes = 5;
  swap_used_bytes = 6;
  swap_free_bytes = 7;
  page_faults_minor = 8;
  page_faults_major = 9;
  psi_some_pct_x100 = 10;
  psi_full_pct_x100 = 11;
  oom_kills_total = 12;
}

abbrev core_now : CoreStats
core_now = record {
  cpu_id = 1;
  user_ns = 2;
  system_ns = 3;
  iowait_ns = 4;
  irq_ns = 5;
  softirq_ns = 6;
  idle_ns = 7;
  ctx_switches = 8;
}

abbrev process_now : ProcessStats
process_now = record {
  pid = 1;
  ppid = 2;
  uid = 3;
  thread_count = 4;
  cpu_user_ns = 5;
  cpu_system_ns = 6;
  mem_rss_bytes = 7;
  mem_vms_bytes = 8;
  voluntary_ctx_sw = 9;
  involuntary_ctx_sw = 10;
  read_bytes = 11;
  write_bytes = 12;
  page_faults_minor = 13;
  page_faults_major = 14;
  start_time_ns = 15;
  open_fds = 16;
  comm = codes "sh";
}

abbrev iface_now : NetIfaceStats
iface_now = record {
  iface_idx = 1;
  name = codes "lo";
  rx_bytes = 2;
  tx_bytes = 3;
  rx_packets = 4;
  tx_packets = 5;
  rx_drops = 6;
  tx_drops = 7;
  rx_errors = 8;
  tx_errors = 9;
}

abbrev tcp_now : TcpStateSnapshot
tcp_now = record {
  established = 1;
  syn_sent = 2;
  syn_recv = 3;
  fin_wait1 = 4;
  fin_wait2 = 5;
  time_wait = 6;
  close_wait = 7;
  listen = 8;
  listen_overflows = 9;
  retransmits = 10;
  resets_in = 11;
  resets_out = 12;
}

abbrev security_now : SecuritySnapshot
security_now = record {
  ptrace = 1;
  memfd_create = 2;
  prctl = 3;
  setuid = 4;
  exec_anomaly = 5;
  capability_use = 6;
}

abbrev buckets_now : SchedBuckets
buckets_now = record {
  lt_10us = 1;
  lt_100us = 2;
  lt_1ms = 3;
  lt_10ms = 4;
  lt_100ms = 5;
  lt_1s = 6;
  lt_10s = 7;
  ge_10s = 8;
}

abbrev scheduler_now : SchedulerSnapshot
scheduler_now = record {
  histogram = buckets_now;
  total_count = 1;
  total_lat_ns = 2;
  max_lat_ns = 3;
  p50_ns = 4;
  p95_ns = 5;
  p99_ns = 6;
}

abbrev snapshot : MetricSnapshot ℕ
snapshot = record {
  timestamp_ns = 5;
  memory = memory_now;
  cpu = record { load_1 = 1; load_5 = 2; load_15 = 3; cores = core_now ∷ [] };
  processes = process_now ∷ [];
  network = record { ifaces = iface_now ∷ []; tcp = tcp_now };
  security = security_now;
  scheduler = scheduler_now;
}

memory_now-fits : MemoryFits memory_now
memory_now-fits = ground arith

core_now-fits : CoreFits core_now
core_now-fits = ground arith

process_now-fits : ProcessFits process_now
process_now-fits = ground arith

iface_now-fits : IfaceFits iface_now
iface_now-fits = ground arith

tcp_now-fits : TcpFits tcp_now
tcp_now-fits = ground arith

security_now-fits : SecurityFits security_now
security_now-fits = ground arith

buckets_now-fits : BucketsFits buckets_now
buckets_now-fits = ground arith

snapshot-fits : MetricsFits snapshot
snapshot-fits = record {
  timestamp_ns = omega arith;
  memory = memory_now-fits;
  cores = (core_now-fits, tt);
  processes = (process_now-fits, tt);
  network = record { ifaces = (iface_now-fits, tt); tcp = tcp_now-fits };
  security = security_now-fits;
  scheduler = record {
    total_count = omega arith;
    total_lat_ns = omega arith;
    max_lat_ns = omega arith;
    p50_ns = omega arith;
    p95_ns = omega arith;
    p99_ns = omega arith;
    histogram = buckets_now-fits;
  };
}

-- A parser that knows one body.
abbrev no_parser : Bytes → Fallible Value
no_parser body = thrown parse_error

abbrev document : Value
document =
    (library no_parser).object
      (metrics_members (library no_parser) (documented no_parser) (1 ∷ []) snapshot)

abbrev parser : Bytes → Fallible Value
parser body = if bytes_eq body (codes "{}") then ok document else thrown parse_error

abbrev json : JsonLibrary
json = library parser

abbrev daemon : Curl
daemon = record { init = true; perform = λ url. (codes "{" ∷ codes "}" ∷ [], true) }

-- It has no document but that of /metrics.
abbrev other_daemon : Curl
other_daemon = record {
  init = true;
  perform = λ url.
      if bytes_eq url (codes "http://b/metrics")
      then (codes "{" ∷ codes "}" ∷ [], true)
      else ([], false);
}

abbrev plugin : PluginAglHealth
plugin = record { daemon_url = default_url }

fill_metrics-metrics_members_example :
    fill_metrics json (json.object (metrics_members json (documented parser) (1 ∷ []) snapshot))
    ≡ ok snapshot
fill_metrics-metrics_members_example =
    fill_metrics-metrics_members json (documented parser) (1 ∷ []) snapshot snapshot-fits

abbrev comm_members : List (Bytes × Value)
comm_members =
    (
      codes "comm",
      (documented parser).array (map (documented parser).number (codes "sh" ++ 0 ∷ 9 ∷ [])),
    )
    ∷ []

read_comm-array_example : read_comm json (json.object comm_members) ≡ ok (codes "sh")
read_comm-array_example =
    read_comm-array json (documented parser) comm_members (codes "sh") (9 ∷ []) refl
      ((ground arith, omega arith), ((ground arith, omega arith), tt))

fill_buckets-numbers_example :
    fill_buckets json ((documented parser).array (map (documented parser).number (7 ∷ 8 ∷ [])))
    ≡ ok (record {
      lt_10us = 7;
      lt_100us = 8;
      lt_1ms = 0;
      lt_10ms = 0;
      lt_100ms = 0;
      lt_1s = 0;
      lt_10s = 0;
      ge_10s = 0;
    })
fill_buckets-numbers_example =
    fill_buckets-numbers json (documented parser) (7 ∷ 8 ∷ []) (omega arith, (omega arith, tt))

-- The daemon at the first URL serves it nothing.
handle_method-set_daemon_url_example :
    ((handle_method json daemon (set_daemon_url (codes "http://b" ++ 0 ∷ 9 ∷ [])) plugin).0 ≡ ok tt)
    × (handle_method json other_daemon get_metrics
          (handle_method json daemon (set_daemon_url (codes "http://b" ++ 0 ∷ 9 ∷ [])) plugin).1
        ≡ (ok snapshot, record { daemon_url = codes "http://b" }))
unfolding until_nul
handle_method-set_daemon_url_example =
    handle_method-set_daemon_url json (documented parser) (1 ∷ []) other_daemon daemon get_metrics
      (codes "http://b" ++ 0 ∷ 9 ∷ []) plugin snapshot refl snapshot-fits refl refl refl

metrics_served : (handle_method json daemon get_metrics plugin).0 ≡ ok snapshot
unfolding handle_method ask_daemon fetch_parsed fetch_json write_pieces read_results
metrics_served =
    fill_metrics-metrics_members json (documented parser) (1 ∷ []) snapshot snapshot-fits

handle_method-Fetched_example :
    ((handle_method json daemon get_metrics plugin).1 ≡ plugin)
    × (((e : Failure) × ((handle_method json daemon get_metrics plugin).0 ≡ thrown e))
        ⊎ ((r : MetricSnapshot ℕ) × (j : Value) × ((handle_method json daemon get_metrics plugin).0
              ≡ ok r)
            × Fetched json daemon plugin (codes "/metrics") j))
handle_method-Fetched_example = handle_method-Fetched json daemon get_metrics plugin refl

-- A runtime whose answers are the handler's.
abbrev of_fallible : {A : Type 0} → Fallible A → Response A
of_fallible (ok a) = results a
of_fallible (thrown e) = exception false

abbrev serve : HealthChannel ℕ ℕ PluginAglHealth
serve conn m s = let r = handle_method json daemon m s in (of_fallible r.0, r.1)

of_fallible-results : {A : Type 0} (x : Fallible A) (a : A) → of_fallible x ≡ results a → x ≡ ok a
of_fallible-results (ok b) a h = cc
of_fallible-results (thrown e) a h = cc

serve-ServesHealth : ServesHealth json daemon serve
serve-ServesHealth conn m s r h = of_fallible-results (handle_method json daemon m s).0 r h

abbrev client : Client ℕ
client = record { conn = some 1; is_connected = true; last_server_ip = none }

metrics_returned :
    (call_method serve client get_metrics plugin).0.0 ≡ value (decode_metrics snapshot)
unfolding call_method request request_over finish decode_results
metrics_returned =
    ap (λ x. (request (λ conn w. (of_fallible x, w)) decode_metrics client plugin).0.0)
      metrics_served

call_method-get_metrics_example : decode_metrics snapshot ≡ snapshot
call_method-get_metrics_example =
    call_method-get_metrics json (documented parser) daemon serve serve-ServesHealth client plugin
      snapshot (decode_metrics snapshot) (1 ∷ []) snapshot-fits refl metrics_returned
