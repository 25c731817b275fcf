-- ===== src/Health/Delivery.antt =====
-- plugins/agl_health/AglHealth_Client.cpp over plugins/agl_health/AglHealth.cpp: from the daemon's
-- document to what the client returns.
use test_runner.Prelude.{ℕ, ◌≡◌, refl, sym, ap, ◌∙◌, List, [], ◌∷◌, ◌++◌, map, All, codes}
use test_runner.Health.Json.{ok, JsonLibrary}
use test_runner.Health.Documented.{Documented}
use test_runner.Health.Metrics.{
  CoreStats, CpuSnapshot, ProcessStats, NetIfaceStats, NetworkSnapshot,
}
use test_runner.Server.Recorders.Table.{until_nul_whole}
use test_runner.Client.{Client}
use test_runner.Client.Requests.{results, value, request-value}
use test_runner.Health.Metrics.{MetricSnapshot}
use test_runner.Health.Report.{text_bytes}
use test_runner.Health.Ranges.{ProcessFits, IfaceFits, NetworkFits}
use test_runner.Health.Snapshot.{MetricsFits, metrics_members, fill_metrics-metrics_members}
use test_runner.Health.Handlers.{
  Curl, PluginAglHealth, Method, MethodResults, get_metrics, read_results, handle_method,
}
use test_runner.Health.Fetching.{joined, handle_method-read_results}
use test_runner.Health.Client.{
  decode_memory, decode_core, decode_cpu, decode_process, decode_iface, decode_tcp, decode_network,
  decode_security, decode_buckets, decode_scheduler, decode_metrics, decode_results, HealthChannel,
  call_method,
}

module _ {ℓ κ} {A : Type ℓ} (f : A → A) (P : A → Type κ) (fixed : (a : A) → P a → f a ≡ a) where
  map-fixed : (xs : List A) → All P xs → map f xs ≡ xs
  map-fixed [] h = refl
  map-fixed (x ∷ xs) h = cc (fixed x h.0, map-fixed xs h.1)

decode_core_self : (c : CoreStats) → decode_core c ≡ c
unfolding decode_core
decode_core_self c = refl

decode_process_self : (p : ProcessStats) → ProcessFits p → decode_process p ≡ p
unfolding decode_process
decode_process_self p h = rw (until_nul_whole p.comm (text_bytes p.comm h.comm))

decode_iface_self : (i : NetIfaceStats) → IfaceFits i → decode_iface i ≡ i
unfolding decode_iface
decode_iface_self i h = rw (until_nul_whole i.name h.name)

decode_network_self : (n : NetworkSnapshot) → NetworkFits n → decode_network n ≡ n
unfolding decode_network decode_tcp
decode_network_self n h = rw (map-fixed decode_iface IfaceFits decode_iface_self n.ifaces h.ifaces)

All-unit {ℓ} : {A : Type ℓ} (xs : List A) → All (λ x. Unit {0}) xs
All-unit [] = tt
All-unit (x ∷ xs) = (tt, All-unit xs)

decode_cpu_self : {D : Type 0} (c : CpuSnapshot D) → decode_cpu c ≡ c
unfolding decode_cpu
decode_cpu_self c =
    rw
      (map-fixed decode_core (λ x. Unit {0}) (λ x u. decode_core_self x) c.cores (All-unit c.cores))

decode_metrics_self : {D : Type 0} (m : MetricSnapshot D) → MetricsFits m → decode_metrics m ≡ m
unfolding decode_metrics decode_memory decode_security decode_scheduler decode_buckets
decode_metrics_self m h = rw (
  decode_cpu_self m.cpu,
  map-fixed decode_process ProcessFits decode_process_self m.processes h.processes,
  decode_network_self m.network h.network,
)

-- What the client relies on in the RPC runtime: where results come back, they are those of the
-- server's handler.
abbrev pub ServesHealth :
    {C : Type 0} (J : JsonLibrary) → Curl → HealthChannel J.Double C PluginAglHealth → Type 0
ServesHealth {C} J curl channel =
    (conn : C) (m : Method) (s : PluginAglHealth) (r : MethodResults J.Double m)
    → (channel conn m s).0 ≡ results r
    → (handle_method J curl m s).0 ≡ ok r

ok-injective : {A : Type 0} {a b : A} → ok a ≡ ok b → a ≡ b
ok-injective h = cc

module _ (J : JsonLibrary) (D : Documented J) (curl : Curl) {C : Type 0}
    (channel : HealthChannel J.Double C PluginAglHealth)
    (serves : ServesHealth J curl channel) where
  -- From the daemon to the caller: where the body that the plugin fetches for /metrics parses as the
  -- document that holds a snapshot under the names of its metrics, and GetMetrics returns, over a
  -- runtime that gives the results of the server's handlers, it returns that snapshot. The values lie in
  -- the ranges of their fields, and the texts have no zero byte.
  pub call_method-get_metrics :
      (c : Client C) (s : PluginAglHealth) (m returned : MetricSnapshot J.Double) (rest : List ℕ)
      → MetricsFits m
      → J.parse (joined (curl.perform (s.daemon_url ++ codes "/metrics")).0)
        ≡ ok (J.object (metrics_members J D rest m))
      → (call_method channel c get_metrics s).0.0 ≡ value returned
      → returned ≡ m
  unfolding call_method decode_results read_results
  call_method-get_metrics c s m returned rest fits document h =
      let (conn, r, _, e, v, _) =
        request-value (λ conn. channel conn get_metrics) decode_metrics c s h in
      let (j, f, g) =
        handle_method-read_results J curl get_metrics s r refl (serves conn get_metrics s r e) in
      let same : j ≡ J.object (metrics_members J D rest m) = ok-injective (sym f.2 ∙ document) in
      let read : r ≡ m = ok-injective (
        sym g
        ∙ ap (read_results J get_metrics) same
        ∙ fill_metrics-metrics_members J D rest m fits) in
      v ∙ ap decode_metrics read ∙ decode_metrics_self m fits
