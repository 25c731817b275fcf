-- ===== src/Health/Handlers.antt =====
-- plugins/agl_health/AglHealth.cpp: fetchJson and the handlers of the AglHealth interface. libcurl is
-- a parameter: whether a handle is made, and for a URL the pieces of the body that it writes and
-- whether the transfer succeeds.
use test_runner.Prelude.{ℕ, Bool, List, [], ◌∷◌, ◌++◌, ltb, if◌then◌else◌, Bytes, codes}
use test_runner.Recorder.Text.{decimal}
use test_runner.Health.Json.{
  curl_init_failed, curl_failed, Fallible, ok, thrown, ◌>>=◌, JsonLibrary, value_u64,
}
use test_runner.Health.Metrics.{
  MemorySnapshot, CpuSnapshot, ProcessStats, NetworkSnapshot, SecuritySnapshot, SchedulerSnapshot,
  MetricSnapshot,
}
use test_runner.Health.Fill.{
  text, fill_memory, fill_cpu, fill_processes, fill_network, fill_security, fill_scheduler,
}

pub record Curl : Type 0 where
  pub init : Bool
  pub perform : Bytes → List Bytes × Bool

-- `class PluginAglHealth`.
pub record PluginAglHealth : Type 0 where
  pub daemon_url : Bytes

abbrev pub default_url : Bytes
default_url = codes "http://127.0.0.1:7777"

-- curl_write_cb, for each piece of the body.
unfoldable pub write_pieces : Bytes → List Bytes → Bytes
write_pieces buf [] = buf
write_pieces buf (piece ∷ pieces) = write_pieces (buf ++ piece) pieces

unfoldable pub fetch_json : Curl → PluginAglHealth → Bytes → Fallible Bytes
fetch_json curl s path =
    if curl.init
    then (let r = curl.perform (s.daemon_url ++ path) in
        if r.1 then ok (write_pieces [] r.0) else thrown curl_failed)
    else thrown curl_init_failed

-- The methods of the interface, with their arguments.
pub data Method : Type 0 where
  get_metrics get_memory get_cpu get_network get_security get_scheduler : Method
  get_processes : ℕ → Method
  set_daemon_url : Bytes → Method

abbrev pub MethodResults : Type 0 → Method → Type 0
MethodResults Double get_metrics = MetricSnapshot Double
MethodResults Double get_memory = MemorySnapshot
MethodResults Double get_cpu = CpuSnapshot Double
MethodResults Double get_network = NetworkSnapshot
MethodResults Double get_security = SecuritySnapshot
MethodResults Double get_scheduler = SchedulerSnapshot
MethodResults Double (get_processes limit) = List ProcessStats
MethodResults Double (set_daemon_url url) = Unit {0}

unfoldable pub processes_path : ℕ → Bytes
processes_path limit =
    if ltb 0 limit
    then codes "/metrics/process" ++ codes "?limit=" ++ decimal limit
    else codes "/metrics/process"

-- The path that a method asks the daemon for.
abbrev pub path_of : Method → Bytes
path_of get_metrics = codes "/metrics"
path_of get_memory = codes "/metrics/memory"
path_of get_cpu = codes "/metrics/cpu"
path_of get_network = codes "/metrics/network"
path_of get_security = codes "/metrics/security"
path_of get_scheduler = codes "/metrics/scheduler"
path_of (get_processes limit) = processes_path limit
path_of (set_daemon_url url) = []

module _ (J : JsonLibrary) where
  -- The flat document of /metrics.
  unfoldable pub fill_metrics : J.Json → Fallible (MetricSnapshot J.Double)
  fill_metrics j = do
    timestamp_ns ← value_u64 J j (codes "timestamp_ns")
    memory_j ← J.at j (codes "memory")
    memory ← fill_memory J memory_j
    load_j ← J.at j (codes "load")
    cores_j ← J.at j (codes "cpu_cores")
    cpu ← fill_cpu J (J.object ((codes "load", load_j) ∷ (codes "cores", cores_j) ∷ []))
    procs_j ← J.at j (codes "top_processes")
    processes ← fill_processes J procs_j
    ifaces_j ← J.at j (codes "net_ifaces")
    tcp_j ← J.at j (codes "tcp")
    network ← fill_network J (J.object ((codes "ifaces", ifaces_j) ∷ (codes "tcp", tcp_j) ∷ []))
    security_j ← J.at j (codes "security")
    security ← fill_security J security_j
    sched_j ← J.at j (codes "sched")
    scheduler ← fill_scheduler J sched_j
    ok (record {
      timestamp_ns = timestamp_ns;
      memory = memory;
      cpu = cpu;
      processes = processes;
      network = network;
      security = security;
      scheduler = scheduler;
    })

  -- `json::parse(fetchJson(path))`.
  unfoldable pub fetch_parsed : Curl → PluginAglHealth → Bytes → Fallible J.Json
  fetch_parsed curl s path = fetch_json curl s path >>= J.parse

  -- What a method makes of the document.
  unfoldable pub read_results : (m : Method) → J.Json → Fallible (MethodResults J.Double m)
  read_results get_metrics j = fill_metrics j
  read_results get_memory j = fill_memory J j
  read_results get_cpu j = fill_cpu J j
  read_results get_network j = fill_network J j
  read_results get_security j = fill_security J j
  read_results get_scheduler j = fill_scheduler J j
  read_results (get_processes limit) j = fill_processes J j
  read_results (set_daemon_url url) j = ok tt

  -- The body that the handlers share, all but that of setDaemonUrl.
  unfoldable pub ask_daemon :
      Curl → (m : Method) → PluginAglHealth → Fallible (MethodResults J.Double m) × PluginAglHealth
  ask_daemon curl m s = (fetch_parsed curl s (path_of m) >>= read_results m, s)

  -- A handler: its results, or the exception that ends it, and the plugin. setDaemonUrl asks the
  -- daemon for nothing; its URL ends at a zero byte, where both the client and the server cut it.
  unfoldable pub handle_method :
      Curl → (m : Method) → PluginAglHealth → Fallible (MethodResults J.Double m) × PluginAglHealth
  handle_method curl (set_daemon_url url) s = (ok tt, record s { daemon_url = text url })
  handle_method curl get_metrics s = ask_daemon curl get_metrics s
  handle_method curl get_memory s = ask_daemon curl get_memory s
  handle_method curl get_cpu s = ask_daemon curl get_cpu s
  handle_method curl get_network s = ask_daemon curl get_network s
  handle_method curl get_security s = ask_daemon curl get_security s
  handle_method curl get_scheduler s = ask_daemon curl get_scheduler s
  handle_method curl (get_processes limit) s = ask_daemon curl (get_processes limit) s
