-- ===== src/Health/Snapshot.antt =====
-- plugins/agl_health/AglHealth.cpp: the document of /metrics.
use test_runner.Prelude.{ℕ, ◌^◌, ◌<◌, ◌≡◌, refl, List, [], ◌∷◌, map, Bytes, codes, All}
use test_runner.Health.Json.{ok, JsonLibrary}
use test_runner.Health.Documented.{Documented, value_u64-object}
use test_runner.Health.Metrics.{CpuSnapshot, ProcessStats, NetworkSnapshot}
use test_runner.Health.Metrics.{MetricSnapshot}
use test_runner.Health.Flat.{
  MemoryFits, memory_members, fill_memory-memory_members, CoreFits, SecurityFits, security_members,
  fill_security-security_members, tcp_members, core_members,
}
use test_runner.Health.Report.{
  process_members, iface_members, scheduler_members, fill_cpu-cpu_members,
  fill_processes-process_members, fill_network-network_members, fill_scheduler-scheduler_members,
}
use test_runner.Health.Ranges.{ProcessFits, NetworkFits, SchedulerFits}
use test_runner.Health.Handlers.{fill_metrics}

-- The values lie in the ranges of their fields, the cores and texts included.
pub record MetricsFits {Double : Type 0} (m : MetricSnapshot Double) : Type 0 where
  pub timestamp_ns : m.timestamp_ns < 2 ^ 64
  pub memory : MemoryFits m.memory
  pub cores : All CoreFits m.cpu.cores
  pub processes : All ProcessFits m.processes
  pub network : NetworkFits m.network
  pub security : SecurityFits m.security
  pub scheduler : SchedulerFits m.scheduler

module _ (J : JsonLibrary) (D : Documented J) (rest : List ℕ) where
  abbrev load_of : CpuSnapshot J.Double → J.Json
  load_of c = J.object (
      (codes "load_1", D.float c.load_1)
      ∷ (codes "load_5", D.float c.load_5)
      ∷ (codes "load_15", D.float c.load_15)
      ∷ [])

  abbrev cores_of : CpuSnapshot J.Double → J.Json
  cores_of c = D.array (map (λ k. J.object (core_members J D k)) c.cores)

  abbrev ifaces_of : NetworkSnapshot → J.Json
  ifaces_of n = D.array (map (λ i. J.object (iface_members J D i)) n.ifaces)

  abbrev processes_of : List ProcessStats → J.Json
  processes_of ps = D.array (map (λ p. J.object (process_members J D rest p)) ps)

  -- The sections of the processor and of the network stand in the document itself.
  abbrev pub metrics_members : MetricSnapshot J.Double → List (Bytes × J.Json)
  metrics_members m =
      (codes "timestamp_ns", D.number m.timestamp_ns)
      ∷ (codes "memory", J.object (memory_members J D m.memory))
      ∷ (codes "load", load_of m.cpu)
      ∷ (codes "cpu_cores", cores_of m.cpu)
      ∷ (codes "top_processes", processes_of m.processes)
      ∷ (codes "net_ifaces", ifaces_of m.network)
      ∷ (codes "tcp", J.object (tcp_members J D m.network.tcp))
      ∷ (codes "security", J.object (security_members J D m.security))
      ∷ (codes "sched", J.object (scheduler_members J D m.scheduler))
      ∷ []

  -- The document that holds a snapshot under the names of its metrics is read back as that snapshot:
  -- every number, load, core, process, interface and bucket. The values lie in the ranges of their
  -- fields, command names and interface names have no zero byte, and the array of a command name may
  -- go on behind its zero byte in any way.
  pub fill_metrics-metrics_members :
      (m : MetricSnapshot J.Double)
      → MetricsFits m
      → fill_metrics J (J.object (metrics_members m)) ≡ ok m
  unfolding fill_metrics
  fill_metrics-metrics_members m fits =
      let members = metrics_members m in
      rw (
        value_u64-object J D members (codes "timestamp_ns") m.timestamp_ns refl fits.timestamp_ns,
        D.at-object members (codes "memory") _ refl,
        fill_memory-memory_members J D m.memory fits.memory,
        D.at-object members (codes "load") _ refl,
        D.at-object members (codes "cpu_cores") _ refl,
        fill_cpu-cpu_members J D m.cpu fits.cores,
        D.at-object members (codes "top_processes") _ refl,
        fill_processes-process_members J D rest m.processes fits.processes,
        D.at-object members (codes "net_ifaces") _ refl,
        D.at-object members (codes "tcp") _ refl,
        fill_network-network_members J D m.network fits.network,
        D.at-object members (codes "security") _ refl,
        fill_security-security_members J D m.security fits.security,
        D.at-object members (codes "sched") _ refl,
        fill_scheduler-scheduler_members J D m.scheduler fits.scheduler,
      )
