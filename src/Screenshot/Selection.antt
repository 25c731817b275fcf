-- ===== src/Screenshot/Selection.antt =====
-- plugins/weston_screenshooter/WestonScreenshooter.cpp: the choice of the output, and the image size.
use test_runner.Prelude.{
  ℕ, ◌*◌, ◌%◌, ◌^◌, ◌<◌, ◌≡◌, refl, ap, subst, ◌⊎◌, inl, inr, Bool, true, false, Option, none, some,
  List, [], ◌∷◌, ◌++◌, arith, Bool-cases, Option-cases, codes, bytes_eq, All,
}
use test_runner.Prelude.Int.{pos, to_unsigned, wrap_signed}
use test_runner.Screenshot.{OutputInfo, find_dp1, first, select_output, image_size}

abbrev is_dp1 : OutputInfo → Bool
is_dp1 o = bytes_eq o.model (codes "DP-1")

-- No output of the list has the model DP-1.
abbrev pub NoDp1 : List OutputInfo → Type 0
NoDp1 os = All (λ o. bytes_eq o.model (codes "DP-1") ≡ false) os

-- The first output of the model DP-1, or the first of all where none has that model; nothing only
-- from an empty list.
abbrev pub Chosen : List OutputInfo → Option OutputInfo → Type 0
Chosen os none = os ≡ []
Chosen os (some o) =
    ((before : List OutputInfo) × (after : List OutputInfo) × (os ≡ before ++ o ∷ after)
      × NoDp1 before
      × (bytes_eq o.model (codes "DP-1") ≡ true))
    ⊎ ((after : List OutputInfo) × (os ≡ o ∷ after) × NoDp1 os)

abbrev Found : List OutputInfo → Option OutputInfo → Type 0
Found os none = NoDp1 os
Found os (some o) =
    (before : List OutputInfo) × (after : List OutputInfo) × (os ≡ before ++ o ∷ after)
    × NoDp1 before
    × (bytes_eq o.model (codes "DP-1") ≡ true)

skip-Found :
    (o : OutputInfo) (os : List OutputInfo) (r : Option OutputInfo)
    → bytes_eq o.model (codes "DP-1") ≡ false
    → Found os r
    → Found (o ∷ os) r
skip-Found o os none e h = (e, h)
skip-Found o os (some p) e (before, after, s, n, t) = (o ∷ before, after, ap (◌∷◌ o) s, (e, n), t)

find_dp1-Found : (os : List OutputInfo) → Found os (find_dp1 os)
unfolding find_dp1
find_dp1-Found [] = tt
find_dp1-Found (o ∷ os) = elim (Bool-cases (bytes_eq o.model (codes "DP-1"))) [
  | inl e ↦ simp e ([], os, refl, tt, refl)
  | inr e ↦ simp e (skip-Found o os (find_dp1 os) e (find_dp1-Found os))
]

first-Chosen : (os : List OutputInfo) → NoDp1 os → Chosen os (first os)
first-Chosen [] n = refl
first-Chosen (o ∷ os) n = inr (os, refl, n)

-- For every list of outputs, the selected output is the first of the model DP-1, and where none has
-- that model the first of the list; none is selected only from the empty list.
pub select_output-Chosen : (os : List OutputInfo) → Chosen os (select_output os)
unfolding select_output
select_output-Chosen os = elim (Option-cases (find_dp1 os)) [
  | inl e ↦ rw (e, select_output) (first-Chosen os (subst (Found os) e (find_dp1-Found os)))
  | inr (o, e) ↦ rw (e, select_output) (inl (subst (Found os) e (find_dp1-Found os)))
]

stride_exact :
    (w : ℕ) → w < 2 ^ 29 → to_unsigned (2 ^ 64) (wrap_signed (2 ^ 32) (pos (w * 4))) ≡ w * 4
stride_exact w h = ground arith

mod_small : (n : ℕ) → n < 2 ^ 64 → n % 2 ^ 64 ≡ n
mod_small n h = omega arith

-- For a width below 2^29 and an image below 2^64 bytes, the size is four bytes for each pixel: neither
-- the stride nor the product wraps.
pub image_size-exact :
    (width height : ℕ)
    → width < 2 ^ 29
    → width * 4 * height < 2 ^ 64
    → image_size width height ≡ width * 4 * height
unfolding image_size
image_size-exact width height w h = rw (stride_exact width w) (mod_small (width * 4 * height) h)
