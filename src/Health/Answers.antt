-- ===== src/Health/Answers.antt =====
-- plugins/agl_health/AglHealth.cpp: what each handler answers from the daemon's document, and from
-- which daemon.
use test_runner.Prelude.{ℕ, ◌≡◌, refl, sym, ap, ◌∙◌, subst, true, List, [], ◌++◌, Bytes, map, All}
use test_runner.Recorder.Devices.{until_nul}
use test_runner.Health.Json.{ok, ◌>>=◌, JsonLibrary}
use test_runner.Health.Documented.{Documented}
use test_runner.Health.Flat.{
  MemoryFits, memory_members, fill_memory-memory_members, CoreFits, SecurityFits, security_members,
  fill_security-security_members,
}
use test_runner.Health.Ranges.{ProcessFits, NetworkFits, SchedulerFits}
use test_runner.Health.Report.{
  cpu_members, process_members, network_members, scheduler_members, fill_cpu-cpu_members,
  fill_processes-process_members, fill_network-network_members, fill_scheduler-scheduler_members,
}
use test_runner.Health.Snapshot.{MetricsFits, metrics_members, fill_metrics-metrics_members}
use test_runner.Health.Handlers.{
  Curl, PluginAglHealth, Method, MethodResults, get_metrics, get_memory, get_cpu, get_network,
  get_security, get_scheduler, get_processes, set_daemon_url, path_of, fetch_json, fetch_parsed,
  read_results, ask_daemon, handle_method,
}
use test_runner.Health.Fetching.{
  joined, write_pieces-joined, is_query, path_for, path_of-path_for, Fetched,
  handle_method-ask_daemon,
}

-- The values of a method's results lie in the ranges of their fields.
abbrev pub ResultsFit : (Double : Type 0) (m : Method) → MethodResults Double m → Type 0
ResultsFit D get_metrics r = MetricsFits r
ResultsFit D get_memory r = MemoryFits r
ResultsFit D get_cpu r = All CoreFits r.cores
ResultsFit D get_network r = NetworkFits r
ResultsFit D get_security r = SecurityFits r
ResultsFit D get_scheduler r = SchedulerFits r
ResultsFit D (get_processes limit) r = All ProcessFits r
ResultsFit D (set_daemon_url url) r = Unit {0}

module _ (J : JsonLibrary) (D : Documented J) (rest : List ℕ) where
  -- The document that describes a method's results, under the names that the daemon gives them.
  abbrev pub document_of : (m : Method) → MethodResults J.Double m → J.Json
  document_of get_metrics r = J.object (metrics_members J D rest r)
  document_of get_memory r = J.object (memory_members J D r)
  document_of get_cpu r = J.object (cpu_members J D r)
  document_of get_network r = J.object (network_members J D r)
  document_of get_security r = J.object (security_members J D r)
  document_of get_scheduler r = J.object (scheduler_members J D r)
  document_of (get_processes limit) r = D.array (map (λ p. J.object (process_members J D rest p)) r)
  document_of (set_daemon_url url) r = J.object []

  read_results-document_of :
      (m : Method) (r : MethodResults J.Double m)
      → ResultsFit J.Double m r
      → read_results J m (document_of m r) ≡ ok r
  unfolding read_results
  read_results-document_of get_metrics r fits = fill_metrics-metrics_members J D rest r fits
  read_results-document_of get_memory r fits = fill_memory-memory_members J D r fits
  read_results-document_of get_cpu r fits = fill_cpu-cpu_members J D r fits
  read_results-document_of get_network r fits = fill_network-network_members J D r fits
  read_results-document_of get_security r fits = fill_security-security_members J D r fits
  read_results-document_of get_scheduler r fits = fill_scheduler-scheduler_members J D r fits
  read_results-document_of (get_processes limit) r fits =
      fill_processes-process_members J D rest r fits
  read_results-document_of (set_daemon_url url) r fits = refl

  fetch_parsed_lem :
      (curl : Curl) (s : PluginAglHealth) (path : Bytes) (j : J.Json)
      → Fetched J curl s path j
      → fetch_parsed J curl s path ≡ ok j
  unfolding fetch_parsed fetch_json
  fetch_parsed_lem curl s path j (i, p, h) = simp (i, p, write_pieces-joined, h)

  handle_method-document_of :
      (curl : Curl) (m : Method) (s : PluginAglHealth) (r : MethodResults J.Double m)
      → is_query m ≡ true
      → ResultsFit J.Double m r
      → Fetched J curl s (path_for m) (document_of m r)
      → handle_method J curl m s ≡ (ok r, s)
  unfolding ask_daemon
  handle_method-document_of curl m s r q fits f =
      let g : Fetched J curl s (path_of m) (document_of m r) =
        subst (λ path. Fetched J curl s path (document_of m r)) (sym (path_of-path_for m)) f in
      handle_method-ask_daemon J curl m s q
      ∙ ap (λ x. (x >>= read_results J m, s)) (fetch_parsed_lem curl s (path_of m) _ g)
      ∙ ap (λ x. (x, s)) (read_results-document_of m r fits)

  -- setDaemonUrl, whatever curl does meanwhile, gives no exception and points the plugin to the daemon
  -- at its URL, up to the first zero byte: a method that asks the daemon then answers with what the
  -- document served there, under that URL followed by the method's path, describes. The values lie in
  -- the ranges of their fields, curl makes a handle, the transfer succeeds, and the pieces of its body,
  -- put together, parse as that document. The method leaves the plugin with that URL.
  pub handle_method-set_daemon_url :
      (curl curl0 : Curl) (m : Method) (url : Bytes) (s : PluginAglHealth)
      (r : MethodResults J.Double m)
      → is_query m ≡ true
      → ResultsFit J.Double m r
      → curl.init ≡ true
      → (curl.perform (until_nul url ++ path_for m)).1 ≡ true
      → J.parse (joined (curl.perform (until_nul url ++ path_for m)).0) ≡ ok (document_of m r)
      → ((handle_method J curl0 (set_daemon_url url) s).0 ≡ ok tt)
        × (handle_method J curl m (handle_method J curl0 (set_daemon_url url) s).1
            ≡ (ok r, record { daemon_url = until_nul url }))
  handle_method-set_daemon_url curl curl0 m url s r q fits i p parsed =
      unfold handle_method in
      (
        refl,
        handle_method-document_of curl m (record { daemon_url = until_nul url }) r q fits
            (i, p, parsed),
      )
