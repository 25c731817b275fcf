-- ===== src/Health/Fetching.antt =====
-- plugins/agl_health/AglHealth.cpp: what the handlers ask the daemon for, and what an answer takes.
use test_runner.Prelude.{
  zero, suc, ◌≡◌, refl, sym, ap, ◌∙◌, subst, Bool, true, false, List, [], ◌∷◌, ◌++◌, Bytes, codes,
  Bool-cases, ltb, ◌⊎◌, inl, inr, arith,
}
use mathlib.Core.List.{append_assoc, append-nil}
use test_runner.Health.Json.{Failure, Fallible, ok, thrown, ◌>>=◌, JsonLibrary}
use test_runner.Recorder.Text.{decimal}
use test_runner.Health.Handlers.{
  Curl, PluginAglHealth, write_pieces, fetch_json, Method, MethodResults, get_metrics, get_memory,
  get_cpu, get_network, get_security, get_scheduler, get_processes, set_daemon_url, processes_path,
  path_of, fetch_parsed, read_results, ask_daemon, handle_method,
}

abbrev pub joined : List Bytes → Bytes
joined [] = []
joined (piece ∷ pieces) = piece ++ joined pieces

pub write_pieces-joined :
    (buf : Bytes) (pieces : List Bytes) → write_pieces buf pieces ≡ buf ++ joined pieces
unfolding write_pieces
write_pieces-joined buf [] = sym (append-nil buf)
write_pieces-joined buf (piece ∷ pieces) =
    write_pieces-joined (buf ++ piece) pieces ∙ append_assoc buf piece (joined pieces)

-- The methods that ask the daemon for a document.
abbrev pub is_query : Method → Bool
is_query (set_daemon_url url) = false
is_query _ = true

-- The daemon's paths, as they stand in the handlers. A limit of processes is in decimal, where there
-- is one.
abbrev pub path_for : Method → Bytes
path_for get_metrics = codes "/metrics"
path_for get_memory = codes "/metrics/memory"
path_for get_cpu = codes "/metrics/cpu"
path_for get_network = codes "/metrics/network"
path_for get_security = codes "/metrics/security"
path_for get_scheduler = codes "/metrics/scheduler"
path_for (get_processes zero) = codes "/metrics/process"
path_for (get_processes (suc n)) = codes "/metrics/process?limit=" ++ decimal (suc n)
path_for (set_daemon_url url) = []

pub path_of-path_for : (m : Method) → path_of m ≡ path_for m
unfolding processes_path
path_of-path_for get_metrics = refl
path_of-path_for get_memory = refl
path_of-path_for get_cpu = refl
path_of-path_for get_network = refl
path_of-path_for get_security = refl
path_of-path_for get_scheduler = refl
path_of-path_for (get_processes zero) = refl
path_of-path_for (get_processes (suc n)) =
    let positive : ltb 0 (suc n) ≡ true = ground arith in rw positive
path_of-path_for (set_daemon_url url) = refl

module _ (J : JsonLibrary) where
  pub handle_method-ask_daemon :
      (curl : Curl) (m : Method) (s : PluginAglHealth)
      → is_query m ≡ true
      → handle_method J curl m s ≡ ask_daemon J curl m s
  unfolding handle_method
  handle_method-ask_daemon curl (set_daemon_url url) s q = ground arith
  handle_method-ask_daemon curl get_metrics s q = refl
  handle_method-ask_daemon curl get_memory s q = refl
  handle_method-ask_daemon curl get_cpu s q = refl
  handle_method-ask_daemon curl get_network s q = refl
  handle_method-ask_daemon curl get_security s q = refl
  handle_method-ask_daemon curl get_scheduler s q = refl
  handle_method-ask_daemon curl (get_processes limit) s q = refl

  -- A document was fetched, from the plugin's URL and this path, in these pieces.
  abbrev pub Fetched : Curl → PluginAglHealth → Bytes → J.Json → Type 0
  Fetched curl s path j =
      (curl.init ≡ true)
      × ((curl.perform (s.daemon_url ++ path)).1 ≡ true)
      × (J.parse (joined (curl.perform (s.daemon_url ++ path)).0) ≡ ok j)

  >>=-ok :
      {A B : Type 0} (x : Fallible A) (f : A → Fallible B) (b : B)
      → (x >>= f) ≡ ok b
      → (a : A) × (x ≡ ok a) × (f a ≡ ok b)
  >>=-ok (ok a) f b h = (a, refl, h)
  >>=-ok (thrown e) f b h = cc

  fetch_parsed-Fetched :
      (curl : Curl) (s : PluginAglHealth) (path : Bytes) (j : J.Json)
      → fetch_parsed J curl s path ≡ ok j
      → Fetched curl s path j
  unfolding fetch_parsed fetch_json
  fetch_parsed-Fetched curl s path j h = elim (Bool-cases curl.init) [
    | inr i ↦ ground arith
    | inl i ↦ elim (Bool-cases (curl.perform (s.daemon_url ++ path)).1) [
      | inr p ↦ ground arith
      | inl p ↦ (i, p, simp (i, p, write_pieces-joined) at h)
    ]
  ]

  ok_or_thrown :
      {A : Type 0} (x : Fallible A) → ((e : Failure) × (x ≡ thrown e)) ⊎ ((a : A) × (x ≡ ok a))
  ok_or_thrown (ok a) = inr (a, refl)
  ok_or_thrown (thrown e) = inl (e, refl)

  pub handle_method-read_results :
      (curl : Curl) (m : Method) (s : PluginAglHealth) (r : MethodResults J.Double m)
      → is_query m ≡ true
      → (handle_method J curl m s).0 ≡ ok r
      → (j : J.Json) × Fetched curl s (path_of m) j × (read_results J m j ≡ ok r)
  unfolding ask_daemon
  handle_method-read_results curl m s r q h =
      let e = handle_method-ask_daemon curl m s q in
      let (j, f, g) =
        >>=-ok (fetch_parsed J curl s (path_of m)) (read_results J m) r
          (sym (ap (λ x. x.0) e) ∙ h) in
      (j, fetch_parsed-Fetched curl s (path_of m) j f, g)

  handle_method-plugin :
      (curl : Curl) (m : Method) (s : PluginAglHealth)
      → is_query m ≡ true
      → (handle_method J curl m s).1 ≡ s
  unfolding ask_daemon
  handle_method-plugin curl m s q = ap (λ x. x.1) (handle_method-ask_daemon curl m s q)

  -- A method that asks the daemon, so any but setDaemonUrl, leaves the plugin as it was, and either an
  -- exception ends it, or it gives results and has fetched a document: curl made a handle, the
  -- transfer from the plugin's URL followed by the method's path succeeded, and the pieces of the
  -- body, put together, parse.
  pub handle_method-Fetched :
      (curl : Curl) (m : Method) (s : PluginAglHealth)
      → is_query m ≡ true
      → ((handle_method J curl m s).1 ≡ s)
        × (((e : Failure) × ((handle_method J curl m s).0 ≡ thrown e))
            ⊎ ((r : MethodResults J.Double m) × (j : J.Json) × ((handle_method J curl m s).0 ≡ ok r)
                × Fetched curl s (path_for m) j))
  handle_method-Fetched curl m s q = (
    handle_method-plugin curl m s q,
    elim (ok_or_thrown (handle_method J curl m s).0) [
      | inl (e, h) ↦ inl (e, h)
      | inr (r, h) ↦
          let (j, f, _) = handle_method-read_results curl m s r q h in
          inr (r, j, h, subst (λ path. Fetched curl s path j) (path_of-path_for m) f)
    ],
  )
