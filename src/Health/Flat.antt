-- ===== src/Health/Flat.antt =====
-- The flat documents of agl-health-daemon, written down from the names of the metrics, and their
-- reading by plugins/agl_health/AglHealth.cpp: memory, cores, TCP states and security.
use test_runner.Prelude.{◌^◌, ◌<◌, ◌≡◌, refl, List, [], ◌∷◌, Bytes, codes}
use test_runner.Health.Json.{ok, JsonLibrary}
use test_runner.Health.Documented.{Documented, value_u64-object, value_u32-object}
use test_runner.Health.Metrics.{MemorySnapshot, CoreStats, TcpStateSnapshot, SecuritySnapshot}
use test_runner.Health.Fill.{fill_memory, fill_core, fill_tcp, fill_security}

-- The values lie in the ranges of their fields.
pub record MemoryFits (m : MemorySnapshot) : Type 0 where
  pub total_bytes : m.total_bytes < 2 ^ 64
  pub free_bytes : m.free_bytes < 2 ^ 64
  pub cached_bytes : m.cached_bytes < 2 ^ 64
  pub buffered_bytes : m.buffered_bytes < 2 ^ 64
  pub slab_bytes : m.slab_bytes < 2 ^ 64
  pub swap_used_bytes : m.swap_used_bytes < 2 ^ 64
  pub swap_free_bytes : m.swap_free_bytes < 2 ^ 64
  pub page_faults_minor : m.page_faults_minor < 2 ^ 64
  pub page_faults_major : m.page_faults_major < 2 ^ 64
  pub psi_some_pct_x100 : m.psi_some_pct_x100 < 2 ^ 32
  pub psi_full_pct_x100 : m.psi_full_pct_x100 < 2 ^ 32
  pub oom_kills_total : m.oom_kills_total < 2 ^ 64

-- The values lie in the ranges of their fields.
pub record CoreFits (m : CoreStats) : Type 0 where
  pub cpu_id : m.cpu_id < 2 ^ 32
  pub user_ns : m.user_ns < 2 ^ 64
  pub system_ns : m.system_ns < 2 ^ 64
  pub iowait_ns : m.iowait_ns < 2 ^ 64
  pub irq_ns : m.irq_ns < 2 ^ 64
  pub softirq_ns : m.softirq_ns < 2 ^ 64
  pub idle_ns : m.idle_ns < 2 ^ 64
  pub ctx_switches : m.ctx_switches < 2 ^ 64

-- The values lie in the ranges of their fields.
pub record TcpFits (m : TcpStateSnapshot) : Type 0 where
  pub established : m.established < 2 ^ 64
  pub syn_sent : m.syn_sent < 2 ^ 64
  pub syn_recv : m.syn_recv < 2 ^ 64
  pub fin_wait1 : m.fin_wait1 < 2 ^ 64
  pub fin_wait2 : m.fin_wait2 < 2 ^ 64
  pub time_wait : m.time_wait < 2 ^ 64
  pub close_wait : m.close_wait < 2 ^ 64
  pub listen : m.listen < 2 ^ 64
  pub listen_overflows : m.listen_overflows < 2 ^ 64
  pub retransmits : m.retransmits < 2 ^ 64
  pub resets_in : m.resets_in < 2 ^ 64
  pub resets_out : m.resets_out < 2 ^ 64

-- The values lie in the ranges of their fields.
pub record SecurityFits (m : SecuritySnapshot) : Type 0 where
  pub ptrace : m.ptrace < 2 ^ 64
  pub memfd_create : m.memfd_create < 2 ^ 64
  pub prctl : m.prctl < 2 ^ 64
  pub setuid : m.setuid < 2 ^ 64
  pub exec_anomaly : m.exec_anomaly < 2 ^ 64
  pub capability_use : m.capability_use < 2 ^ 64

-- The documents.
module _ (J : JsonLibrary) (D : Documented J) where
  abbrev pub memory_members : MemorySnapshot → List (Bytes × J.Json)
  memory_members m =
      (codes "total_bytes", D.number m.total_bytes)
      ∷ (codes "free_bytes", D.number m.free_bytes)
      ∷ (codes "cached_bytes", D.number m.cached_bytes)
      ∷ (codes "buffered_bytes", D.number m.buffered_bytes)
      ∷ (codes "slab_bytes", D.number m.slab_bytes)
      ∷ (codes "swap_used_bytes", D.number m.swap_used_bytes)
      ∷ (codes "swap_free_bytes", D.number m.swap_free_bytes)
      ∷ (codes "page_faults_minor", D.number m.page_faults_minor)
      ∷ (codes "page_faults_major", D.number m.page_faults_major)
      ∷ (codes "psi_some_pct_x100", D.number m.psi_some_pct_x100)
      ∷ (codes "psi_full_pct_x100", D.number m.psi_full_pct_x100)
      ∷ (codes "oom_kills_total", D.number m.oom_kills_total)
      ∷ []

  abbrev pub core_members : CoreStats → List (Bytes × J.Json)
  core_members m =
      (codes "cpu_id", D.number m.cpu_id)
      ∷ (codes "user_ns", D.number m.user_ns)
      ∷ (codes "system_ns", D.number m.system_ns)
      ∷ (codes "iowait_ns", D.number m.iowait_ns)
      ∷ (codes "irq_ns", D.number m.irq_ns)
      ∷ (codes "softirq_ns", D.number m.softirq_ns)
      ∷ (codes "idle_ns", D.number m.idle_ns)
      ∷ (codes "ctx_switches", D.number m.ctx_switches)
      ∷ []

  abbrev pub tcp_members : TcpStateSnapshot → List (Bytes × J.Json)
  tcp_members m =
      (codes "established", D.number m.established)
      ∷ (codes "syn_sent", D.number m.syn_sent)
      ∷ (codes "syn_recv", D.number m.syn_recv)
      ∷ (codes "fin_wait1", D.number m.fin_wait1)
      ∷ (codes "fin_wait2", D.number m.fin_wait2)
      ∷ (codes "time_wait", D.number m.time_wait)
      ∷ (codes "close_wait", D.number m.close_wait)
      ∷ (codes "listen", D.number m.listen)
      ∷ (codes "listen_overflows", D.number m.listen_overflows)
      ∷ (codes "retransmits", D.number m.retransmits)
      ∷ (codes "resets_in", D.number m.resets_in)
      ∷ (codes "resets_out", D.number m.resets_out)
      ∷ []

  abbrev pub security_members : SecuritySnapshot → List (Bytes × J.Json)
  security_members m =
      (codes "ptrace", D.number m.ptrace)
      ∷ (codes "memfd_create", D.number m.memfd_create)
      ∷ (codes "prctl", D.number m.prctl)
      ∷ (codes "setuid", D.number m.setuid)
      ∷ (codes "exec_anomaly", D.number m.exec_anomaly)
      ∷ (codes "capability_use", D.number m.capability_use)
      ∷ []

  pub fill_memory-memory_members :
      (m : MemorySnapshot) → MemoryFits m → fill_memory J (J.object (memory_members m)) ≡ ok m
  unfolding fill_memory
  fill_memory-memory_members m fits = rw (
    value_u64-object J D (memory_members m) (codes "total_bytes") m.total_bytes refl
        fits.total_bytes,
    value_u64-object J D (memory_members m) (codes "free_bytes") m.free_bytes refl fits.free_bytes,
    value_u64-object J D (memory_members m) (codes "cached_bytes") m.cached_bytes refl
        fits.cached_bytes,
    value_u64-object J D (memory_members m) (codes "buffered_bytes") m.buffered_bytes refl
        fits.buffered_bytes,
    value_u64-object J D (memory_members m) (codes "slab_bytes") m.slab_bytes refl fits.slab_bytes,
    value_u64-object J D (memory_members m) (codes "swap_used_bytes") m.swap_used_bytes refl
        fits.swap_used_bytes,
    value_u64-object J D (memory_members m) (codes "swap_free_bytes") m.swap_free_bytes refl
        fits.swap_free_bytes,
    value_u64-object J D (memory_members m) (codes "page_faults_minor") m.page_faults_minor refl
        fits.page_faults_minor,
    value_u64-object J D (memory_members m) (codes "page_faults_major") m.page_faults_major refl
        fits.page_faults_major,
    value_u32-object J D (memory_members m) (codes "psi_some_pct_x100") m.psi_some_pct_x100 refl
        fits.psi_some_pct_x100,
    value_u32-object J D (memory_members m) (codes "psi_full_pct_x100") m.psi_full_pct_x100 refl
        fits.psi_full_pct_x100,
    value_u64-object J D (memory_members m) (codes "oom_kills_total") m.oom_kills_total refl
        fits.oom_kills_total,
  )

  pub fill_core-core_members :
      (m : CoreStats) → CoreFits m → fill_core J (J.object (core_members m)) ≡ ok m
  unfolding fill_core
  fill_core-core_members m fits = rw (
    value_u32-object J D (core_members m) (codes "cpu_id") m.cpu_id refl fits.cpu_id,
    value_u64-object J D (core_members m) (codes "user_ns") m.user_ns refl fits.user_ns,
    value_u64-object J D (core_members m) (codes "system_ns") m.system_ns refl fits.system_ns,
    value_u64-object J D (core_members m) (codes "iowait_ns") m.iowait_ns refl fits.iowait_ns,
    value_u64-object J D (core_members m) (codes "irq_ns") m.irq_ns refl fits.irq_ns,
    value_u64-object J D (core_members m) (codes "softirq_ns") m.softirq_ns refl fits.softirq_ns,
    value_u64-object J D (core_members m) (codes "idle_ns") m.idle_ns refl fits.idle_ns,
    value_u64-object J D (core_members m) (codes "ctx_switches") m.ctx_switches refl
        fits.ctx_switches,
  )

  pub fill_tcp-tcp_members :
      (m : TcpStateSnapshot) → TcpFits m → fill_tcp J (J.object (tcp_members m)) ≡ ok m
  unfolding fill_tcp
  fill_tcp-tcp_members m fits = rw (
    value_u64-object J D (tcp_members m) (codes "established") m.established refl fits.established,
    value_u64-object J D (tcp_members m) (codes "syn_sent") m.syn_sent refl fits.syn_sent,
    value_u64-object J D (tcp_members m) (codes "syn_recv") m.syn_recv refl fits.syn_recv,
    value_u64-object J D (tcp_members m) (codes "fin_wait1") m.fin_wait1 refl fits.fin_wait1,
    value_u64-object J D (tcp_members m) (codes "fin_wait2") m.fin_wait2 refl fits.fin_wait2,
    value_u64-object J D (tcp_members m) (codes "time_wait") m.time_wait refl fits.time_wait,
    value_u64-object J D (tcp_members m) (codes "close_wait") m.close_wait refl fits.close_wait,
    value_u64-object J D (tcp_members m) (codes "listen") m.listen refl fits.listen,
    value_u64-object J D (tcp_members m) (codes "listen_overflows") m.listen_overflows refl
        fits.listen_overflows,
    value_u64-object J D (tcp_members m) (codes "retransmits") m.retransmits refl fits.retransmits,
    value_u64-object J D (tcp_members m) (codes "resets_in") m.resets_in refl fits.resets_in,
    value_u64-object J D (tcp_members m) (codes "resets_out") m.resets_out refl fits.resets_out,
  )

  pub fill_security-security_members :
      (m : SecuritySnapshot)
      → SecurityFits m
      → fill_security J (J.object (security_members m)) ≡ ok m
  unfolding fill_security
  fill_security-security_members m fits = rw (
    value_u64-object J D (security_members m) (codes "ptrace") m.ptrace refl fits.ptrace,
    value_u64-object J D (security_members m) (codes "memfd_create") m.memfd_create refl
        fits.memfd_create,
    value_u64-object J D (security_members m) (codes "prctl") m.prctl refl fits.prctl,
    value_u64-object J D (security_members m) (codes "setuid") m.setuid refl fits.setuid,
    value_u64-object J D (security_members m) (codes "exec_anomaly") m.exec_anomaly refl
        fits.exec_anomaly,
    value_u64-object J D (security_members m) (codes "capability_use") m.capability_use refl
        fits.capability_use,
  )
