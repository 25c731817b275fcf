-- ===== src/Screenshot/Capture.antt =====
-- plugins/weston_screenshooter/WestonScreenshooter.cpp: what a capture returns and what it leaves
-- behind.
use test_runner.Prelude.{
  ℕ, zero, suc, ◌<◌, ◌≡◌, refl, sym, ap, ◌∙◌, subst, ◌≢◌, ◌⊎◌, inl, inr, ◌&&◌, false, Option, none,
  some, List, [], ◌∷◌, arith, Bool-cases, Option-cases, Bytes, length,
}
use test_runner.Prelude.Int.{ℤ, pos, negsuc, pos_part, ltb_ℤ}
use mathlib.Core.Option.{some-injective}
use test_runner.Screenshot.{
  OutputInfo, CaptureState, await_done, select_output, Step, Machine, ScreenshotResult, failure,
  image_size, copy, cleanup, Capture, shot_steps, shoot_output, shoot_selected, has_globals, bound,
  capture, connect_error,
}
use test_runner.Screenshot.Quiet.{opened, closed, mapped, unmapped, cleanup-IsQuiet}

-- What a run has acquired it has released.
abbrev pub IsBalanced : List Step → Type 0
IsBalanced steps = (closed steps ≡ opened steps) × (unmapped steps ≡ mapped steps)

-- A capture that returns has the property.
abbrev Ends : (ScreenshotResult × List Step → Type 0) → Capture → Type 0
Ends P none = Unit
Ends P (some x) = P x

abbrev Balances : ScreenshotResult × List Step → Type 0
Balances x = IsBalanced x.1

quiet-IsBalanced : (s : CaptureState) → IsBalanced (cleanup s)
quiet-IsBalanced s =
    let q = cleanup-IsQuiet s in (q.no_close ∙ sym q.no_open, q.no_unmap ∙ sym q.no_map)

shot_steps-IsBalanced :
    (m : Machine) (o : OutputInfo) (width height : ℕ) (end : List Step)
    → ltb_ℤ m.memfd (pos 0) ≡ false
    → IsBalanced end
    → IsBalanced (shot_steps m o width height end)
unfolding shot_steps
shot_steps-IsBalanced m o width height end f h = elim (Bool-cases m.makes_buffer) [
  | inl b ↦ simp (f, b) (ap (λ l. m.memfd ∷ l) h.0, ap suc h.1)
  | inr b ↦ simp (f, b) (ap (λ l. m.memfd ∷ l) h.0, ap suc h.1)
]

shoot_output-Balances :
    (m : Machine) (o : OutputInfo) (width height : ℕ) (s : CaptureState)
    → Ends Balances (shoot_output m o width height s)
unfolding shoot_output
shoot_output-Balances m o width height s = elim (Bool-cases (ltb_ℤ m.memfd (pos 0))) [
  | inl f ↦ simp (f) (quiet-IsBalanced s)
  | inr f ↦ elim (Bool-cases (ltb_ℤ m.ftruncate (pos 0))) [
    | inl t ↦ simp (f, t) (let b = quiet-IsBalanced s in (ap (λ l. m.memfd ∷ l) b.0, b.1))
    | inr t ↦ elim (Bool-cases m.maps) [
      | inr a ↦ simp (f, t, a) (let b = quiet-IsBalanced s in (ap (λ l. m.memfd ∷ l) b.0, b.1))
      | inl a ↦ elim (Option-cases (await_done m.rounds s)) [
        | inl w ↦ simp (f, t, a, w) tt
        | inr (z, w) ↦
            simp (f, t, a, w)
              (shot_steps-IsBalanced m o width height (cleanup z) f (quiet-IsBalanced z))
      ]
    ]
  ]
]

shoot_selected-Ends :
    (P : ScreenshotResult × List Step → Type 0) (m : Machine) (s : CaptureState)
    (selected : Option OutputInfo)
    → ((error : Bytes) → error ≢ [] → P (failure error, cleanup s))
    → ((o : OutputInfo)
        → selected ≡ some o
        → 0 < pos_part o.width
        → 0 < pos_part o.height
        → Ends P (shoot_output m o (pos_part o.width) (pos_part o.height) s))
    → Ends P (shoot_selected m selected s)
unfolding shoot_selected
shoot_selected-Ends P m s none fails shoots = fails _ (λ e. ground arith)
shoot_selected-Ends P m s (some o) fails shoots =
    elim (Bool-cases (ltb_ℤ (pos 0) o.width && ltb_ℤ (pos 0) o.height)) [
      | inl e ↦ simp e (shoots o refl (ground arith) (ground arith))
      | inr e ↦ simp e (fails _ (λ d. ground arith))
    ]

has_globals-Ends :
    (P : ScreenshotResult × List Step → Type 0) (m : Machine) (s : CaptureState)
    → ((error : Bytes) → error ≢ [] → P (failure error, cleanup s))
    → ((o : OutputInfo)
        → select_output s.outputs ≡ some o
        → 0 < pos_part o.width
        → 0 < pos_part o.height
        → Ends P (shoot_output m o (pos_part o.width) (pos_part o.height) s))
    → Ends P (has_globals m s)
unfolding has_globals
has_globals-Ends P m s fails shoots = elim (Option-cases s.shooter) [
  | inl e ↦ rw (e, has_globals) (fails _ (λ d. ground arith))
  | inr (a, e) ↦ elim (Option-cases s.shm) [
    | inl f ↦ rw (e, f, has_globals) (fails _ (λ d. ground arith))
    | inr (b, f) ↦ rw (e, f, has_globals) (shoot_selected-Ends P m s _ fails shoots)
  ]
]

ends_some :
    (P : ScreenshotResult × List Step → Type 0) (c : Capture) {x : ScreenshotResult × List Step}
    → Ends P c
    → c ≡ some x
    → P x
ends_some P none h e = cc
ends_some P (some y) h e = subst P (some-injective _ _ e) h

capture-Ends :
    (P : ScreenshotResult × List Step → Type 0) (m : Machine)
    → P (failure connect_error, [])
    → Ends P (has_globals m (bound m))
    → Ends P (capture m)
unfolding capture
capture-Ends P m d h = elim (Bool-cases m.connects) [ inl e ↦ simp e h | inr e ↦ simp e d ]

-- Whatever the compositor and the kernel answer, and whichever events arrive, a capture that returns
-- has closed every descriptor that it was given, in order, and no other, and has undone every
-- mapping: on every way out, the errors included.
pub capture-IsBalanced :
    (m : Machine) {result : ScreenshotResult} {steps : List Step}
    → capture m ≡ some (result, steps)
    → IsBalanced steps
capture-IsBalanced m e =
    ends_some Balances (capture m)
      (capture-Ends Balances m (refl, refl)
        (has_globals-Ends Balances m (bound m) (λ error n. quiet-IsBalanced (bound m))
          (λ o s w h. shoot_output-Balances m o _ _ (bound m))))
      e

-- An image: the size is that of the selected output, which is positive, and the data are the first
-- bytes of the shared memory, as many as the code computes for that size.
abbrev pub Shows : Machine → ScreenshotResult → Type 0
Shows m r =
    (o : OutputInfo) × (select_output (bound m).outputs ≡ some o)
    × (0 < r.width)
    × (0 < r.height)
    × (pos r.width ≡ o.width)
    × (pos r.height ≡ o.height)
    × (r.image_data ≡ copy (image_size r.width r.height) m.pixels)
    × (length r.image_data ≡ image_size r.width r.height)

length-copy : (n : ℕ) (pixels : ℕ → ℕ) → length (copy n pixels) ≡ n
unfolding copy
length-copy zero pixels = refl
length-copy (suc n) pixels = ap suc (length-copy n _)

pos-pos_part : (z : ℤ) → 0 < pos_part z → pos (pos_part z) ≡ z
pos-pos_part (pos n) h = refl
pos-pos_part (negsuc n) h = absurd (omega arith)

abbrev Imaged : Machine → ScreenshotResult × List Step → Type 0
Imaged m x = (x.0.error ≢ []) ⊎ Shows m x.0

shoot_output-Imaged :
    (m : Machine) (o : OutputInfo)
    → select_output (bound m).outputs ≡ some o
    → 0 < pos_part o.width
    → 0 < pos_part o.height
    → Ends (Imaged m) (shoot_output m o (pos_part o.width) (pos_part o.height) (bound m))
unfolding shoot_output
shoot_output-Imaged m o e w h = elim (Bool-cases (ltb_ℤ m.memfd (pos 0))) [
  | inl f ↦ simp (f) (inl (λ d. ground arith))
  | inr f ↦ elim (Bool-cases (ltb_ℤ m.ftruncate (pos 0))) [
    | inl t ↦ simp (f, t) (inl (λ d. ground arith))
    | inr t ↦ elim (Bool-cases m.maps) [
      | inr a ↦ simp (f, t, a) (inl (λ d. ground arith))
      | inl a ↦ elim (Option-cases (await_done m.rounds (bound m))) [
        | inl z ↦ simp (f, t, a, z) tt
        | inr (z, g) ↦
            simp (f, t, a, g)
              (inr (
                o,
                e,
                w,
                h,
                pos-pos_part o.width w,
                pos-pos_part o.height h,
                refl,
                length-copy _ _,
              ))
      ]
    ]
  ]
]

-- A capture that returns either has an error or gives the image of the output that was selected after
-- the two round trips: its width and height, which are positive, and the bytes of the shared memory,
-- as many as image_size computes from them.
pub capture-Shows :
    (m : Machine) {result : ScreenshotResult} {steps : List Step}
    → capture m ≡ some (result, steps)
    → (result.error ≢ []) ⊎ Shows m result
capture-Shows m e =
    ends_some (Imaged m) (capture m)
      (capture-Ends (Imaged m) m (inl (λ d. ground arith)) (
        has_globals-Ends (Imaged m) m (bound m) (λ error n. inl n)
          (λ o s w h. shoot_output-Imaged m o s w h)))
      e
