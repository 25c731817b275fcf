-- ===== src/Screenshot/Client.antt =====
-- plugins/weston_screenshooter/WestonScreenshooter_Client.cpp: TakeScreenshot.
use test_runner.Prelude.{ℕ, ◌≡◌, sym, ap, ◌∙◌, some, List, [], ◌∷◌, Bytes}
use test_runner.Client.{Client}
use test_runner.Client.Requests.{Response, results, Answer, value, request, request-value}
use test_runner.Screenshot.{
  Step, Machine, ScreenshotResult, capture, TakenScreenshot, screenshot, screenshot_failed,
  take_screenshot,
}

-- The results of the call.
pub record Shot : Type 0 where
  pub image_data : List ℕ
  pub width : ℕ
  pub height : ℕ

-- The client's result keeps the empty error that it starts with.
abbrev pub decode_shot : Shot → ScreenshotResult
decode_shot r = record { image_data = r.image_data; width = r.width; height = r.height; error = [] }

unfoldable pub call_take_screenshot :
    {C W : Type 0}
    → (C → W → Response Shot × W)
    → Client C
    → W
    → (Answer ScreenshotResult × Client C) × W
call_take_screenshot exchange c w = request exchange decode_shot c w

-- What the client relies on in the RPC runtime: where results come back, they are those of the server's
-- handler, which has captured the screen without an error.
abbrev pub ServesShots : {C : Type 0} → (C → Machine → Response Shot × Machine) → Type 0
ServesShots {C} exchange =
    (conn : C) (m : Machine) (a : Shot)
    → (exchange conn m).0 ≡ results a
    → (shot : ScreenshotResult) × (steps : List Step) × (capture m ≡ some (shot, steps))
      × (take_screenshot shot ≡ screenshot a.image_data a.width a.height)

image_of : TakenScreenshot → Shot
image_of (screenshot image_data width height) = record {
  image_data = image_data;
  width = width;
  height = height;
}
image_of (screenshot_failed error) = record { image_data = []; width = 0; height = 0 }

-- An answer without an error is the whole result of the capture.
answer_with-screenshot :
    (error image_data : Bytes) (width height : ℕ) (a : Shot)
    → take_screenshot
        (record { image_data = image_data; width = width; height = height; error = error })
      ≡ screenshot a.image_data a.width a.height
    → record { image_data = image_data; width = width; height = height; error = error }
      ≡ decode_shot a
unfolding image_of
answer_with-screenshot [] image_data width height a h = ap (λ t. decode_shot (image_of t)) h
answer_with-screenshot (c ∷ error) image_data width height a h = cc

module _ {C : Type 0} (exchange : C → Machine → Response Shot × Machine)
    (serves : ServesShots exchange) where
  -- Over a runtime that gives the results of the server's handler, a screenshot that the client
  -- returns is the result of a capture() on the server, which ended without an error.
  pub call_take_screenshot-capture :
      (c : Client C) (m : Machine) (r : ScreenshotResult)
      → (call_take_screenshot exchange c m).0.0 ≡ value r
      → (steps : List Step) × (capture m ≡ some (r, steps)) × (r.error ≡ [])
  unfolding call_take_screenshot
  call_take_screenshot-capture c m r h =
      let (conn, a, _, e, v, _) = request-value exchange decode_shot c m h in
      let (shot, steps, captured, taken) = serves conn m a e in
      let same : shot ≡ r =
        answer_with-screenshot shot.error shot.image_data shot.width shot.height a taken ∙ sym v in
      (steps, captured ∙ ap (λ s. some (s, steps)) same, ap (λ (s : ScreenshotResult). s.error) v)
