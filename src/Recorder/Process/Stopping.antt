-- ===== src/Recorder/Process/Stopping.antt =====
-- What Stop() and Start() do: Stop() on a running recorder returns, and where they fail.
use test_runner.Prelude.{
  ℕ, ◌≡◌, refl, ap, ◌∙◌, ◌≢◌, Bool, true, false, not, some, List, [], ◌∷◌, ◌++◌, arith,
  if◌then◌else◌, Bytes,
}
use test_runner.Recorder.{returned}
use test_runner.Recorder.Buffer.{trim_buffer, finish_buffer}
use test_runner.Recorder.Process.{
  Env, Worker, absent, spawned, draining, ended, BufferWorker, no_buffer, looping, waiting,
  finishing, finished, Process, is_active, request_stop, Action, joins_buffer, buffer_tests,
  buffer_finishes, on_joins_buffer, on_buffer_tests, on_buffer_trims, on_buffer_finishes, step, run,
  has_ended, join_worker, stop,
}
use test_runner.Recorder.Process.Invariant.{request_stop-IsWf}
use test_runner.Recorder.Process.WellFormed.{IsWf, is_absent, going}
use test_runner.Recorder.Process.Parking.{
  worker_steps, buffer_steps, run-append, Parks, worker_steps-Parks,
}

-- The buffer thread ends, and with it the recorder thread that waits for it.
abbrev Ends : Env → Process → List Action → Type 0
Ends env p schedule =
    (q : Process) × (run env schedule p ≡ some q) × (q.worker ≡ ended) × (q.recorder.stop ≡ true)

finished-Ends :
    (env : Env) (p : Process)
    → p.worker ≡ draining
    → p.buffer_worker ≡ finished
    → p.recorder.stop ≡ true
    → Ends env p (joins_buffer ∷ [])
unfolding run step
finished-Ends env p w b s = (record p { worker = ended }, rw (w, b, on_joins_buffer), refl, s)

finishing-Ends :
    (env : Env) (p : Process)
    → p.worker ≡ draining
    → p.buffer_worker ≡ finishing
    → p.recorder.stop ≡ true
    → Ends env p (buffer_finishes [] ∷ joins_buffer ∷ [])
unfolding run step finish_buffer
finishing-Ends env p w b s =
    rw (b, on_buffer_finishes)
      (let r = finish_buffer [] p.recorder in
        finished-Ends env
          (record p { recorder = r.0; buffer_worker = finished; files = r.1 ∷ p.files }) w refl s)

Ends-cons :
    (env : Env) (a : Action) (rest : List Action) (p q : Process)
    → step env a p ≡ some q
    → Ends env q rest
    → Ends env p (a ∷ rest)
unfolding run
Ends-cons env a rest p q e (r, h, w, s) = (r, rw (e, run) h, w, s)

buffer_sees_stop :
    (b : BufferWorker) (p : Process)
    → b ≡ looping
    → p.recorder.stop ≡ true
    → on_buffer_tests b p ≡ some (record p { buffer_worker = finishing })
unfolding on_buffer_tests
buffer_sees_stop b p e s =
    rw e (ap (λ t. some (record p { buffer_worker = (if t then finishing else waiting) })) s)

looping-Ends :
    (env : Env) (p : Process)
    → p.worker ≡ draining
    → p.buffer_worker ≡ looping
    → p.recorder.stop ≡ true
    → Ends env p (buffer_tests ∷ buffer_finishes [] ∷ joins_buffer ∷ [])
looping-Ends env p w b s =
    Ends-cons env buffer_tests (buffer_finishes [] ∷ joins_buffer ∷ []) p
      (record p { buffer_worker = finishing })
      (unfold step in buffer_sees_stop p.buffer_worker p b s)
      (finishing-Ends env (record p { buffer_worker = finishing }) w refl s)

buffer_steps-Ends :
    (env : Env) (b : BufferWorker) (p : Process)
    → p.worker ≡ draining
    → p.buffer_worker ≡ b
    → b ≢ no_buffer
    → p.recorder.stop ≡ true
    → Ends env p (buffer_steps b)
unfolding buffer_steps
buffer_steps-Ends env no_buffer p w b n s = absurd (n refl)
buffer_steps-Ends env looping p w b n s = looping-Ends env p w b s
buffer_steps-Ends env waiting p w b n s =
    unfold run step trim_buffer in
    rw (b, on_buffer_trims)
      (looping-Ends env (record p { recorder = trim_buffer 0 p.recorder; buffer_worker = looping })
        w refl s)
buffer_steps-Ends env finishing p w b n s = finishing-Ends env p w b s
buffer_steps-Ends env finished p w b n s = finished-Ends env p w b s

-- The steps that let Stop() return.
pub winding_steps : Worker → BufferWorker → Bool → List Action
winding_steps ended b continuous = []
winding_steps w b continuous =
    if continuous then worker_steps w ++ buffer_steps b else worker_steps w

going_sound : (b : BufferWorker) → going b ≡ true → b ≢ no_buffer
going_sound no_buffer g = cc
going_sound _ g = λ e. cc

Parks-Ends :
    (env : Env) (w : Worker) (p : Process) (c : Bool)
    → p.recorder.continuous ≡ c
    → going p.buffer_worker ≡ c
    → Parks env p (worker_steps w)
    → Ends env p (if c then worker_steps w ++ buffer_steps p.buffer_worker else worker_steps w)
Parks-Ends env w p false e g (q, r, qw, qs, qc, qj, qb) =
    (q, r, qw ∙ ap (λ c. if c then draining else ended) e, qs)
Parks-Ends env w p true e g (q, r, qw, qs, qc, qj, qb) =
    let (z, h, zw, zs) =
      buffer_steps-Ends env p.buffer_worker q (qw ∙ ap (λ c. if c then draining else ended) e) qb
        (going_sound p.buffer_worker g) qs in
    (z, run-append env (worker_steps w) (buffer_steps p.buffer_worker) p q r ∙ h, zw, zs)

winding_steps-Ends :
    (env : Env) (w : Worker) (p : Process)
    → p.worker ≡ w
    → w ≢ absent
    → w ≢ spawned
    → IsWf p
    → p.recorder.stop ≡ true
    → Ends env p (winding_steps w p.buffer_worker p.recorder.continuous)
unfolding winding_steps
winding_steps-Ends env ended p e m n v s = unfold run in (p, refl, e, s)
winding_steps-Ends env absent p e m n v s = absurd (m refl)
winding_steps-Ends env spawned p e m n v s = absurd (n refl)
winding_steps-Ends env w p e m n v s =
    Parks-Ends env w p p.recorder.continuous refl (ground arith)
      (worker_steps-Parks env w p e refl n (λ f. cc) v s)

join_ended :
    (z : Process)
    → z.worker ≡ ended
    → join_worker (some z)
      ≡ returned (
        z.recorder.recording_path,
        record z { recorder = record z.recorder { joinable = false }; worker = absent },
      )
join_ended z e = let ends : has_ended z.worker ≡ true = ap has_ended e in simp ends

pub stop_joins :
    (env : Env) (now : ℕ) (schedule : List Action) (p : Process)
    → p.recorder.joinable ≡ true
    → stop env now schedule p ≡ join_worker (run env schedule (request_stop now p))
unfolding stop
stop_joins env now schedule p j =
    let same : (request_stop now p).recorder.joinable ≡ true = unfold request_stop in j in simp same

pub present_sound : (w : Worker) → w ≢ absent → is_absent w ≡ false
present_sound absent h = absurd (h refl)
present_sound _ h = refl

-- Stop() on a recorder whose thread has begun returns: there is a schedule of its threads on which
-- the join ends, whatever they were doing, and then no thread is left and the recorder is inactive.
-- The state is any that keeps the invariant.
pub stop_returns :
    (env : Env) (now : ℕ) (p : Process)
    → IsWf p
    → p.worker ≢ absent
    → p.worker ≢ spawned
    → (schedule : List Action) × (path : Bytes) × (q : Process) × (stop env now schedule p
        ≡ returned (path, q))
      × (q.worker ≡ absent)
      × (is_active q.recorder ≡ false)
unfolding request_stop
stop_returns env now p v m n =
    let p1 = request_stop now p in
    let (z, h, zw, zs) =
      winding_steps-Ends env p.worker p1 (unfold request_stop in refl) m n
        (request_stop-IsWf now p v) refl in
    (
      winding_steps p.worker p.buffer_worker p.recorder.continuous,
      z.recorder.recording_path,
      record z { recorder = record z.recorder { joinable = false }; worker = absent },
      stop_joins env now _ p (v.thread ∙ ap not (present_sound p.worker m))
          ∙ ap join_worker h
          ∙ join_ended z zw,
      refl,
      rw zs,
    )
