-- ===== src/Recorder/Process.antt =====
-- The threads of a recorder: Start(), Stop(), isActive(), is_done(), the body of Record() and its
-- buffer thread. A step is a part of a thread's code that runs under one lock or touches only the
-- thread's own variables; a schedule is a list of steps, with the clock readings and the kernel's
-- replies that each one meets.
pub mod Stuck
pub mod Parking
pub mod WellFormed
pub mod Kept
pub mod Lost
pub mod Races
pub mod Stopping
pub mod Invariant
use test_runner.Prelude.{
  ℕ, zero, suc, ◌+◌, ◌-◌, ◌*◌, ◌/◌, ◌%◌, ◌^◌, ◌≤◌, ◌<◌, ◌≡◌, refl, sym, ap, ◌∙◌, subst, ◌≢◌, ◌↔◌,
  ◌⊎◌, inl, inr, Bool, true, false, ◌&&◌, ◌||◌, not, Option, none, some, List, [], ◌∷◌, ◌++◌, map,
  arith, ltb, leb, ◌==◌, if◌then◌else◌, Bool-cases, Option-cases, Bytes, codes, bytes_eq, length,
  get_elem?, get_or, set, take, drop, All, All-append, length-append, length-set,
  get_elem?-set_self, get_elem?-set_ne,
}
use test_runner.Prelude.Int.{
  ℤ, pos, negsuc, pos_part, neg_part, sub_ℕ, ◌-ℤ◌, ◌≤ℤ◌, ltb_ℤ, eqb_ℤ, to_unsigned, to_signed,
  wrap_signed,
}
use test_runner.Linux.{
  InputEvent, ev_key, ev_abs, abs_x, abs_y, abs_mt_position_x, abs_mt_position_y, key_esc,
}
use test_runner.Recorder.{
  DeviceType, keyboard, Device, InputRecord, XkbState, Recorder, Outcome, returned, threw,
  terminated, blocked,
}
use test_runner.Recorder.Mask.{devices_to_record}
use test_runner.Recorder.Touch.{Floats, Axis, x_axis, y_axis, transform_touch_coordinates}
use test_runner.Recorder.Text.{header, record_line}
use test_runner.Recorder.Buffer.{trim_buffer, finish_buffer}

-- The arithmetic of `double`, and xkb_state_key_get_one_sym after the given updates.
pub record Env : Type 1 where
  pub floats : Floats
  pub one_sym : XkbState → ℕ → ℕ

-- A device that FD_ISSET reports, with what `read` returns for it.
pub record Reading : Type 0 where
  pub device : Device
  pub bytes_read : ℤ
  pub event : InputEvent

-- Where the recorder thread stands: no thread, started and nothing run, before a test of the loop,
-- before select, with devices still to read, waiting for the buffer thread, returned.
pub data Worker : Type 0 where
  absent spawned testing selecting : Worker
  reading : List Reading → Worker
  draining ended : Worker

-- Where the buffer thread stands: no thread, before a test of the loop, in its wait, past the loop,
-- returned.
pub data BufferWorker : Type 0 where
  no_buffer looping waiting finishing finished : BufferWorker

-- A recorder with its threads, and the files written so far, the latest first.
pub record Process : Type 0 where
  pub recorder : Recorder
  pub worker : Worker
  pub buffer_worker : BufferWorker
  pub selected : List Device
  pub files : List (Bytes × Bytes)

abbrev pub is_active : Recorder → Bool
is_active r = not r.stop

-- is_done() at the given time: the answer, and the recorder with m_stop set at the end of a
-- fixed-length recording.
unfoldable pub is_done : ℕ → Recorder → Bool × Recorder
is_done now r =
    if r.stop
    then (true, r)
    else if r.continuous
    then (false, r)
    else if ltb_ℤ (pos now -ℤ pos r.start_time) (pos r.recording_length)
    then (false, r)
    else (true, record r { stop = true })

-- Start(). Assigning to a joinable std::thread calls std::terminate.
unfoldable pub start : Process → Outcome Process
start p =
    if is_active p.recorder
    then returned p
    else if p.recorder.joinable
    then terminated
    else returned (record p { recorder = record p.recorder { joinable = true }; worker = spawned })

-- The first part of Stop().
unfoldable pub request_stop : ℕ → Process → Process
request_stop now p = record p { recorder = record p.recorder { stop = true; stop_time = now } }

-- The coordinates of a touch, scaled; other events are unchanged.
unfoldable pub scaled : Floats → Device → InputEvent → InputEvent
scaled fl d ev =
    if ev.type == ev_abs
    then if ev.code == abs_mt_position_x || ev.code == abs_x
      then record ev { value = transform_touch_coordinates fl d ev.value x_axis }
      else if ev.code == abs_mt_position_y || ev.code == abs_y
      then record ev { value = transform_touch_coordinates fl d ev.value y_axis }
      else ev
    else ev

abbrev pub is_keyboard : DeviceType → Bool
is_keyboard keyboard = true
is_keyboard _ = false

-- The keysym of a keyboard's key event, and the xkb state updated by a press or a release.
pub resolve : (XkbState → ℕ → ℕ) → Option XkbState → Bool → InputEvent → ℕ × Option XkbState
resolve one_sym none from_keyboard ev = (0, none)
resolve one_sym (some st) from_keyboard ev =
    if ev.type == ev_key && from_keyboard
    then (
      one_sym st (ev.code + 8),
      some (
          if eqb_ℤ ev.value (pos 1)
          then (ev.code + 8, true) ∷ st
          else if eqb_ℤ ev.value (pos 0)
          then (ev.code + 8, false) ∷ st
          else st),
    )
    else (0, some st)

-- A write to the open file.
abbrev pub append_text : Bytes → List (Bytes × Bytes) → List (Bytes × Bytes)
append_text s [] = []
append_text s ((path, text) ∷ files) = (path, text ++ s) ∷ files

-- A resolved event goes to the file, or to the buffer of a continuous recording.
unfoldable pub store : InputRecord → Process → Process
store rec p =
    if p.recorder.continuous
    then record p { recorder = record p.recorder { input_buf = p.recorder.input_buf ++ rec ∷ [] } }
    else record p { files = append_text (record_line rec) p.files }

abbrev pub is_esc : InputEvent → Bool
is_esc ev = ev.type == ev_key && ev.code == key_esc

-- A scaled event read at time `ts`; `later` is the clock when the escape key stops the recording.
unfoldable pub handle_event : Env → Device → InputEvent → ℕ → ℕ → Process → Process
handle_event env d ev ts later p =
    if is_esc ev
    then request_stop later p
    else let r = resolve env.one_sym p.recorder.xkb_state (is_keyboard d.type) ev in
      store
        (record {
          ts_abs = ts;
          dev_type = d.type;
          input_type = ev.type;
          input_code = ev.code;
          input_val = ev.value;
          keysym = r.0;
        })
        (record p { recorder = record p.recorder { xkb_state = r.1 } })

-- What follows one read: an event, or nothing (an error is only logged).
unfoldable pub handle_reading : Env → Reading → ℕ → ℕ → Process → Process
handle_reading env rd ts later p =
    if ltb_ℤ (pos 0) rd.bytes_read
    then handle_event env rd.device (scaled env.floats rd.device rd.event) ts later p
    else p

-- The entry of Record(): the flags, the buffer thread, the devices, and the file of a fixed-length
-- recording with its header.
unfoldable pub begin_record : ℕ → Process → Process
begin_record now p =
    let r = record p.recorder { stop = false; start_time = now } in
    record p {
      recorder = r;
      worker = testing;
      buffer_worker = (if r.continuous then looping else no_buffer);
      selected = devices_to_record r;
      files = (if r.continuous then p.files else (r.filename, header now) ∷ p.files);
    }

pub data Action : Type 0 where
  begins : ℕ → Action
  tests : ℕ → Action
  select_ready : List Reading → Action
  select_empty select_error : Action
  handles : ℕ → ℕ → Action
  joins_buffer : Action
  buffer_tests : Action
  buffer_trims : ℕ → Action
  buffer_finishes : Bytes → Action

-- The exit of the loop.
abbrev pub leave_loop : Process → Process
leave_loop p = record p { worker = (if p.recorder.continuous then draining else ended) }

-- The steps, by where the thread stands; `none` is a step that is not there to be made.
pub on_begins : ℕ → Worker → Process → Option Process
on_begins now spawned p = some (begin_record now p)
on_begins now _ p = none

pub on_tests : ℕ → Worker → Process → Option Process
on_tests now testing p =
    let done = is_done now p.recorder in
    let q = record p { recorder = done.1 } in
    some (if done.0 then leave_loop q else record q { worker = selecting })
on_tests now _ p = none

pub on_select : Worker → Worker → Process → Option Process
on_select next selecting p = some (record p { worker = next })
on_select next _ p = none

pub on_select_error : Worker → Process → Option Process
on_select_error selecting p = some (leave_loop p)
on_select_error _ p = none

pub on_handles : Env → ℕ → ℕ → Worker → Process → Option Process
on_handles env ts later (reading []) p = some (record p { worker = testing })
on_handles env ts later (reading (rd ∷ rest)) p =
    some (handle_reading env rd ts later (record p { worker = reading rest }))
on_handles env ts later _ p = none

pub on_joins_buffer : Worker → BufferWorker → Process → Option Process
on_joins_buffer draining finished p = some (record p { worker = ended })
on_joins_buffer _ _ p = none

pub on_buffer_tests : BufferWorker → Process → Option Process
on_buffer_tests looping p =
    some (record p { buffer_worker = (if p.recorder.stop then finishing else waiting) })
on_buffer_tests _ p = none

pub on_buffer_trims : ℕ → BufferWorker → Process → Option Process
on_buffer_trims now waiting p =
    some (record p { recorder = trim_buffer now p.recorder; buffer_worker = looping })
on_buffer_trims now _ p = none

pub on_buffer_finishes : Bytes → BufferWorker → Process → Option Process
on_buffer_finishes file_ts finishing p =
    let r = finish_buffer file_ts p.recorder in
    some (record p { recorder = r.0; buffer_worker = finished; files = r.1 ∷ p.files })
on_buffer_finishes file_ts _ p = none

unfoldable pub step : Env → Action → Process → Option Process
unfolding on_begins on_tests on_select on_select_error on_handles on_joins_buffer on_buffer_tests
    on_buffer_trims on_buffer_finishes
step env (begins now) p = on_begins now p.worker p
step env (tests now) p = on_tests now p.worker p
step env (select_ready readings) p = on_select (reading readings) p.worker p
step env select_empty p = on_select testing p.worker p
step env select_error p = on_select_error p.worker p
step env (handles ts later) p = on_handles env ts later p.worker p
step env joins_buffer p = on_joins_buffer p.worker p.buffer_worker p
step env buffer_tests p = on_buffer_tests p.buffer_worker p
step env (buffer_trims now) p = on_buffer_trims now p.buffer_worker p
step env (buffer_finishes file_ts) p = on_buffer_finishes file_ts p.buffer_worker p

-- A schedule of steps of the two threads.
unfoldable pub run : Env → List Action → Process → Option Process
run env [] p = some p
run env (a ∷ as_) p = elim (step env a p) [ none ↦ none | some q ↦ run env as_ q ]

abbrev pub has_ended : Worker → Bool
has_ended ended = true
has_ended _ = false

-- The join of Stop(), and its result.
abbrev pub join_worker : Option Process → Outcome (Bytes × Process)
join_worker none = blocked
join_worker (some p) =
    if has_ended p.worker
    then returned (
      p.recorder.recording_path,
      record p { recorder = record p.recorder { joinable = false }; worker = absent },
    )
    else blocked

-- Stop() at time `now`, while the recorder's threads run the given schedule. Joining no thread
-- throws std::system_error.
unfoldable pub stop : Env → ℕ → List Action → Process → Outcome (Bytes × Process)
stop env now schedule p =
    let q = request_stop now p in
    if q.recorder.joinable then join_worker (run env schedule q) else threw
