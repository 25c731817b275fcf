-- ===== src/Screenshot.antt =====
-- plugins/weston_screenshooter/WestonScreenshooter.cpp: the capture of a screenshot over Wayland. The
-- compositor and the kernel are parameters: a `Machine` says what they answer and which events they
-- deliver. The calls that acquire and release something are kept, in order.
pub mod Quiet
pub mod Client
pub mod Selection
pub mod Capture
use test_runner.Prelude.{
  ℕ, zero, suc, ◌+◌, ◌-◌, ◌*◌, ◌/◌, ◌%◌, ◌^◌, ◌≤◌, ◌<◌, ◌≡◌, refl, sym, ap, ◌∙◌, subst, ◌≢◌, ◌↔◌,
  ◌⊎◌, inl, inr, Bool, true, false, ◌&&◌, ◌||◌, not, Option, none, some, List, [], ◌∷◌, ◌++◌, map,
  arith, ltb, leb, ◌==◌, if◌then◌else◌, Bool-cases, Option-cases, Bytes, codes, bytes_eq, length,
  get_elem?, get_or, set, take, drop, All, All-append, length-append, length-set,
  get_elem?-set_self, get_elem?-set_ne,
}
use test_runner.Prelude.Int.{
  ℤ, pos, negsuc, pos_part, neg_part, sub_ℕ, ◌-ℤ◌, ◌≤ℤ◌, ltb_ℤ, eqb_ℤ, to_unsigned, to_signed,
  wrap_signed,
}

-- `struct OutputInfo`; a proxy is a number.
pub record OutputInfo : Type 0 where
  pub output : ℕ
  pub model : Bytes
  pub width : ℤ
  pub height : ℤ

-- `struct CaptureState` without the display and the registry, which live as long as it does.
pub record CaptureState : Type 0 where
  pub shooter : Option ℕ
  pub shm : Option ℕ
  pub outputs : List OutputInfo
  pub finished : Bool

abbrev pub new_state : CaptureState
new_state = record { shooter = none; shm = none; outputs = []; finished = false }

-- The events that the listeners get. `global` carries the proxy that wl_registry_bind returns.
pub data Event : Type 0 where
  global : Bytes → ℕ → Event
  geometry : ℕ → Option Bytes → Event
  mode : ℕ → Bool → ℤ → ℤ → Event
  shoot_done : Event

-- find_output_info, with the change made to the output that it finds.
unfoldable pub update_output : ℕ → (OutputInfo → OutputInfo) → List OutputInfo → List OutputInfo
update_output output f [] = []
update_output output f (o ∷ os) =
    let rest = update_output output f os in if o.output == output then f o ∷ os else o ∷ rest

abbrev pub model_of : Option Bytes → Bytes
model_of none = []
model_of (some model) = model

-- A proxy that wl_registry_bind may have failed to make: 0 is a null pointer.
abbrev pub nonnull : ℕ → Option ℕ
nonnull proxy = if proxy == 0 then none else some proxy

unfoldable pub on_registry_global : Bytes → ℕ → CaptureState → CaptureState
on_registry_global interface proxy s =
    if bytes_eq interface (codes "weston_screenshooter")
    then record s { shooter = nonnull proxy }
    else if bytes_eq interface (codes "wl_shm")
    then record s { shm = nonnull proxy }
    else if bytes_eq interface (codes "wl_output")
    then record s {
      outputs =
          s.outputs ++ (record { output = proxy; model = []; width = pos 0; height = pos 0 }) ∷ [];
    }
    else s

unfoldable pub on_output_geometry : ℕ → Option Bytes → CaptureState → CaptureState
on_output_geometry output model s = record s {
  outputs = update_output output (λ o. record o { model = model_of model }) s.outputs;
}

-- `current` is the flag WL_OUTPUT_MODE_CURRENT.
unfoldable pub on_output_mode : ℕ → Bool → ℤ → ℤ → CaptureState → CaptureState
on_output_mode output current width height s =
    if current
    then record s {
      outputs = update_output output (λ o. record o { width = width; height = height }) s.outputs;
    }
    else s

unfoldable pub on_event : Event → CaptureState → CaptureState
on_event (global interface proxy) s = on_registry_global interface proxy s
on_event (geometry output model) s = on_output_geometry output model s
on_event (mode output current width height) s = on_output_mode output current width height s
on_event shoot_done s = record s { finished = true }

unfoldable pub on_events : List Event → CaptureState → CaptureState
on_events [] s = s
on_events (e ∷ es) s = on_events es (on_event e s)

-- The loop on wl_display_dispatch: each round delivers events, or fails (`none`). Where the rounds
-- are used up the loop still waits.
unfoldable pub await_done : List (Option (List Event)) → CaptureState → Option CaptureState
await_done [] s = if s.finished then some s else none
await_done (none ∷ rounds) s = some s
await_done (some es ∷ rounds) s =
    let rest = await_done rounds (on_events es s) in if s.finished then some s else rest

-- The first output of the model DP-1.
unfoldable pub find_dp1 : List OutputInfo → Option OutputInfo
find_dp1 [] = none
find_dp1 (o ∷ os) =
    let rest = find_dp1 os in if bytes_eq o.model (codes "DP-1") then some o else rest

abbrev pub first : List OutputInfo → Option OutputInfo
first [] = none
first (o ∷ os) = some o

unfoldable pub select_output : List OutputInfo → Option OutputInfo
select_output os = elim (find_dp1 os) [ none ↦ first os | some o ↦ some o ]

-- The calls that acquire or release: their answers are with those that acquire.
pub data Step : Type 0 where
  memfd_create : ℤ → Step
  mmap : Bool → Step
  close_fd : ℤ → Step
  create_pool : ℤ → ℤ → Step
  create_buffer : ℕ → ℕ → ℤ → Step
  pool_destroy : Step
  shoot : ℕ → Step
  buffer_destroy munmap : Step
  output_destroy shm_destroy shooter_destroy : ℕ → Step
  registry_destroy display_disconnect : Step

-- What the compositor and the kernel answer. `pixels` is the shared memory after the loop.
pub record Machine : Type 0 where
  pub connects : Bool
  pub globals : List Event
  pub details : List Event
  pub memfd : ℤ
  pub ftruncate : ℤ
  pub maps : Bool
  pub makes_buffer : Bool
  pub rounds : List (Option (List Event))
  pub pixels : ℕ → ℕ

-- `ScreenshotResult`.
pub record ScreenshotResult : Type 0 where
  pub image_data : Bytes
  pub width : ℕ
  pub height : ℕ
  pub error : Bytes

abbrev pub failure : Bytes → ScreenshotResult
failure error = record { image_data = []; width = 0; height = 0; error = error }

-- `size`: the stride is an int32_t, the product a size_t.
unfoldable pub image_size : ℕ → ℕ → ℕ
image_size width height =
    to_unsigned (2 ^ 64) (wrap_signed (2 ^ 32) (pos (width * 4))) * height % 2 ^ 64

unfoldable pub copy : ℕ → (ℕ → ℕ) → Bytes
copy zero pixels = []
copy (suc n) pixels = pixels 0 ∷ copy n (λ i. pixels (suc i))

unfoldable pub destroy_outputs : List OutputInfo → List Step
destroy_outputs [] = []
destroy_outputs (o ∷ os) =
    let rest = destroy_outputs os in if o.output == 0 then rest else output_destroy o.output ∷ rest

abbrev pub destroy_with : (ℕ → Step) → Option ℕ → List Step
destroy_with f none = []
destroy_with f (some p) = f p ∷ []

-- The label `cleanup`.
unfoldable pub cleanup : CaptureState → List Step
cleanup s =
    destroy_outputs s.outputs
    ++ (destroy_with shm_destroy s.shm
        ++ (destroy_with shooter_destroy s.shooter ++ registry_destroy ∷ display_disconnect ∷ []))

abbrev pub Capture : Type 0
Capture = Option (ScreenshotResult × List Step)

-- The way out by `goto cleanup`, after the given steps.
abbrev pub fail : Bytes → List Step → CaptureState → Capture
fail error steps s = some (failure error, steps ++ cleanup s)

-- `stride`, an int32_t.
abbrev pub stride : ℕ → ℤ
stride width = wrap_signed (2 ^ 32) (pos (width * 4))

-- The calls from a mapping to the end of the shot: the pool with its size as an int32_t, the buffer in
-- it, which may be null, and the shot itself.
unfoldable pub shot_steps : Machine → OutputInfo → ℕ → ℕ → List Step → List Step
shot_steps m o width height end =
    memfd_create m.memfd
    ∷ mmap true
    ∷ create_pool m.memfd (to_signed (2 ^ 32) (image_size width height % 2 ^ 32))
    ∷ create_buffer width height (stride width)
    ∷ pool_destroy
    ∷ close_fd m.memfd
    ∷ shoot o.output
    ∷ (if m.makes_buffer then buffer_destroy ∷ munmap ∷ end else munmap ∷ end)

-- From the shared memory on; the output's size is positive.
unfoldable pub shoot_output : Machine → OutputInfo → ℕ → ℕ → CaptureState → Capture
shoot_output m o width height s =
    if ltb_ℤ m.memfd (pos 0)
    then fail (codes "memfd_create failed") (memfd_create m.memfd ∷ []) s
    else if ltb_ℤ m.ftruncate (pos 0)
    then fail (codes "ftruncate failed") (memfd_create m.memfd ∷ close_fd m.memfd ∷ []) s
    else if m.maps
    then elim (await_done m.rounds s) [
      | none ↦ none
      | some t ↦ some (
        record {
          image_data = copy (image_size width height) m.pixels;
          width = width;
          height = height;
          error = [];
        },
        shot_steps m o width height (cleanup t),
      )
    ]
    else fail (codes "mmap failed") (memfd_create m.memfd ∷ mmap false ∷ close_fd m.memfd ∷ []) s

unfoldable pub shoot_selected : Machine → Option OutputInfo → CaptureState → Capture
shoot_selected m none s = fail (codes "no wl_output found") [] s
shoot_selected m (some o) s =
    if ltb_ℤ (pos 0) o.width && ltb_ℤ (pos 0) o.height
    then shoot_output m o (pos_part o.width) (pos_part o.height) s
    else fail (codes "wl_output dimensions not received") [] s

unfoldable pub has_globals : Machine → CaptureState → Capture
has_globals m s = elim s.shooter [
  | none ↦ fail (codes "weston_screenshooter global not found") [] s
  | some shooter ↦ elim s.shm [
    | none ↦ fail (codes "wl_shm global not found") [] s
    | some shm ↦ shoot_selected m (select_output s.outputs) s
  ]
]

-- The state after the two round trips.
abbrev pub bound : Machine → CaptureState
bound m = on_events m.details (on_events m.globals new_state)

-- The text has a dash between the two sentences, which is three bytes.
abbrev pub connect_error : Bytes
connect_error =
    codes "wl_display_connect failed " ++ (0xe2 ∷ 0x80 ∷ 0x94 ∷ codes " is WAYLAND_DISPLAY set?")

-- capture(); `none` where the loop still waits.
unfoldable pub capture : Machine → Capture
capture m = if m.connects then has_globals m (bound m) else some (failure connect_error, [])

-- The answer of takeScreenshot: the results, or an exception with the error.
pub data TakenScreenshot : Type 0 where
  screenshot : Bytes → ℕ → ℕ → TakenScreenshot
  screenshot_failed : Bytes → TakenScreenshot

abbrev pub answer_with : Bytes → ScreenshotResult → TakenScreenshot
answer_with [] r = screenshot r.image_data r.width r.height
answer_with (c ∷ error) r = screenshot_failed (c ∷ error)

abbrev pub take_screenshot : ScreenshotResult → TakenScreenshot
take_screenshot r = answer_with r.error r
