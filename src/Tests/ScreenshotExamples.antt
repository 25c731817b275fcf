-- ===== src/Tests/ScreenshotExamples.antt =====
-- The theorems on plugins/weston_screenshooter/WestonScreenshooter.cpp, applied to a concrete capture.
use test_runner.Prelude.{
  ◌*◌, ◌≡◌, refl, sym, ap, ◌∙◌, inl, inr, Option, Option-cases, false, ◌≢◌, ◌⊎◌, true, none, some,
  List, [], ◌∷◌, arith, codes,
}
use test_runner.Prelude.Int.{pos}
use test_runner.Screenshot.{
  OutputInfo, global, geometry, mode, shoot_done, update_output, on_registry_global,
  on_output_geometry, on_output_mode, on_event, on_events, await_done, find_dp1, select_output,
  Step, memfd_create, mmap, create_pool, create_buffer, pool_destroy, close_fd, shoot,
  buffer_destroy, munmap, output_destroy, shm_destroy, shooter_destroy, registry_destroy,
  display_disconnect, Machine, ScreenshotResult, image_size, copy, destroy_outputs, cleanup,
  capture, has_globals, shoot_selected, shoot_output, shot_steps, take_screenshot, screenshot,
  TakenScreenshot, screenshot_failed,
}
use test_runner.Client.{Client}
use test_runner.Client.Requests.{Response, results, exception, value, request, request_over, finish}
use test_runner.Screenshot.Client.{
  Shot, call_take_screenshot, ServesShots, call_take_screenshot-capture,
}
use test_runner.Screenshot.Capture.{IsBalanced, capture-IsBalanced, Shows, capture-Shows}
use test_runner.Screenshot.Selection.{Chosen, select_output-Chosen, image_size-exact}

-- A compositor with two outputs, of which the second is DP-1, two pixels wide and one high.
abbrev machine : Machine
machine = record {
  connects = true;
  globals =
      global (codes "weston_screenshooter") 1
      ∷ global (codes "wl_shm") 2
      ∷ global (codes "wl_output") 3
      ∷ global (codes "wl_output") 4
      ∷ [];
  details = geometry 4 (some (codes "DP-1")) ∷ mode 4 true (pos 2) (pos 1) ∷ [];
  memfd = pos 9;
  ftruncate = pos 0;
  maps = true;
  makes_buffer = true;
  rounds = some (shoot_done ∷ []) ∷ [];
  pixels = λ i. i;
}

abbrev shot : ScreenshotResult
shot = record { image_data = 0 ∷ 1 ∷ 2 ∷ 3 ∷ 4 ∷ 5 ∷ 6 ∷ 7 ∷ []; width = 2; height = 1; error = [] }

abbrev trace : List Step
trace =
    memfd_create (pos 9)
    ∷ mmap true
    ∷ create_pool (pos 9) (pos 8)
    ∷ create_buffer 2 1 (pos 8)
    ∷ pool_destroy
    ∷ close_fd (pos 9)
    ∷ shoot 4
    ∷ buffer_destroy
    ∷ munmap
    ∷ output_destroy 3
    ∷ output_destroy 4
    ∷ shm_destroy 2
    ∷ shooter_destroy 1
    ∷ registry_destroy
    ∷ display_disconnect
    ∷ []

capture-machine : capture machine ≡ some (shot, trace)
unfolding capture has_globals shoot_selected shoot_output shot_steps select_output find_dp1
    on_events on_event on_registry_global on_output_geometry on_output_mode update_output await_done
    image_size copy cleanup destroy_outputs
capture-machine = refl

-- The same capture where the dispatch fails before the compositor is done: no error is reported.
capture-failed_dispatch :
    (steps : List Step) × (capture (record machine { rounds = none ∷ [] }) ≡ some (shot, steps))
unfolding capture has_globals shoot_selected shoot_output shot_steps select_output find_dp1
    on_events on_event on_registry_global on_output_geometry on_output_mode update_output await_done
    image_size copy cleanup destroy_outputs
capture-failed_dispatch = (trace, refl)

capture-IsBalanced_example : IsBalanced trace
capture-IsBalanced_example =
    capture-IsBalanced machine {result = shot} {steps = trace} capture-machine

capture-Shows_example : (shot.error ≢ []) ⊎ Shows machine shot
capture-Shows_example = capture-Shows machine {result = shot} {steps = trace} capture-machine

abbrev outputs : List OutputInfo
outputs =
    record { output = 3; model = codes "HDMI-1"; width = pos 2; height = pos 1 }
    ∷ record { output = 4; model = codes "DP-1"; width = pos 2; height = pos 1 }
    ∷ []

select_output-Chosen_example : Chosen outputs (select_output outputs)
select_output-Chosen_example = select_output-Chosen outputs

image_size-exact_example : image_size 1920 1080 ≡ 1920 * 4 * 1080
image_size-exact_example = image_size-exact 1920 1080 (omega arith) (omega arith)

take_screenshot-shot : take_screenshot shot ≡ screenshot shot.image_data 2 1
take_screenshot-shot = refl

-- A runtime that hands over the results of the server's handler, or else an exception.
abbrev shot_response : TakenScreenshot → Response Shot
shot_response (screenshot image_data width height) =
    results (record { image_data = image_data; width = width; height = height })
shot_response (screenshot_failed error) = exception false

abbrev capture_response : Option (ScreenshotResult × List Step) → Response Shot
capture_response none = exception false
capture_response (some (r, steps)) = shot_response (take_screenshot r)

abbrev shots : Unit {0} → Machine → Response Shot × Machine
shots conn m = (capture_response (capture m), m)

shot_or : Response Shot → Shot → Shot
shot_or (results a) d = a
shot_or (exception b) d = d

shot_response-taken :
    (t : TakenScreenshot) (a : Shot)
    → shot_response t ≡ results a
    → t ≡ screenshot a.image_data a.width a.height
unfolding shot_or
shot_response-taken (screenshot image_data width height) a h =
    ap (λ r. let s = shot_or r a in screenshot s.image_data s.width s.height) h
shot_response-taken (screenshot_failed error) a h = cc

shots-serves : ServesShots shots
shots-serves conn m a h = elim (Option-cases (capture m)) [
  | inl n ↦ cc (sym (ap capture_response n) ∙ h)
  | inr ((r, steps), n) ↦
      (r, steps, n, shot_response-taken (take_screenshot r) a (sym (ap capture_response n) ∙ h))
]

abbrev viewer : Client (Unit {0})
viewer = record { conn = some tt; is_connected = true; last_server_ip = none }

viewer-sees : (call_take_screenshot shots viewer machine).0.0 ≡ value shot
unfolding call_take_screenshot request request_over finish capture has_globals shoot_selected
    shoot_output select_output find_dp1 on_events on_event on_registry_global on_output_geometry
    on_output_mode update_output await_done image_size copy cleanup destroy_outputs
viewer-sees = refl

call_take_screenshot-capture_example :
    (steps : List Step) × (capture machine ≡ some (shot, steps)) × (shot.error ≡ [])
call_take_screenshot-capture_example =
    call_take_screenshot-capture shots shots-serves viewer machine shot viewer-sees
