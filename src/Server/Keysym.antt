-- ===== src/Server/Keysym.antt =====
-- TestRunnerServer::resolve_keysym: the key code that types a keysym.
pub mod Search
use test_runner.Prelude.{
  ℕ, zero, suc, ◌+◌, ◌-◌, ◌*◌, ◌/◌, ◌%◌, ◌^◌, ◌≤◌, ◌<◌, ◌≡◌, refl, sym, ap, ◌∙◌, subst, ◌≢◌, ◌↔◌,
  ◌⊎◌, inl, inr, Bool, true, false, ◌&&◌, ◌||◌, not, Option, none, some, List, [], ◌∷◌, ◌++◌, map,
  arith, ltb, leb, ◌==◌, if◌then◌else◌, Bool-cases, Option-cases, Bytes, codes, bytes_eq, length,
  get_elem?, get_or, set, take, drop, All, All-append, length-append, length-set,
  get_elem?-set_self, get_elem?-set_ne,
}
use test_runner.Prelude.Int.{
  ℤ, pos, negsuc, pos_part, neg_part, sub_ℕ, ◌-ℤ◌, ◌≤ℤ◌, ltb_ℤ, eqb_ℤ, to_unsigned, to_signed,
  wrap_signed,
}
use test_runner.Linux.{key_esc, key_max}
use test_runner.Xkb.{Keymap}

-- `for (i = 0; i < n; i++) if (syms[i] == target) …`
unfoldable pub has_sym : ℕ → List ℕ → Bool
has_sym target [] = false
has_sym target (s ∷ syms) = if s == target then true else has_sym target syms

-- The loop over layouts, with `count` of them left from `layout` on.
unfoldable pub layouts_have : Keymap → ℕ → ℕ → ℕ → ℕ → ℕ → Bool
unfolding has_sym
layouts_have km target level code zero layout = false
layouts_have km target level code (suc count) layout =
    if has_sym target (km.key_get_syms_by_level code layout level)
    then true
    else layouts_have km target level code count (layout + 1)

-- Does the key of this evdev code give the keysym at this level, in some layout?
unfoldable pub key_types : Keymap → ℕ → ℕ → ℕ → Bool
unfolding layouts_have
key_types km target level evdev =
    layouts_have km target level (evdev + 8) (km.num_layouts_for_key (evdev + 8)) 0

-- The loop over evdev codes, with `count` of them left from `evdev` on.
unfoldable pub search_codes : Keymap → ℕ → ℕ → ℕ → ℕ → Option ℕ
unfolding key_types
search_codes km target level zero evdev = none
search_codes km target level (suc count) evdev =
    let rest = search_codes km target level count (evdev + 1) in
    if key_types km target level evdev then some evdev else rest

-- The loop over levels, with `count` of them left from `level` on.
unfoldable pub search_levels : Keymap → ℕ → ℕ → ℕ → ℕ
unfolding search_codes
search_levels km target zero level = 0
search_levels km target (suc count) level =
    let rest = search_levels km target count (level + 1) in
    elim (search_codes km target level (key_max - key_esc) key_esc) [
      | none ↦ rest
      | some evdev ↦ evdev
    ]

unfoldable pub resolve_keysym : Option Keymap → ℕ → ℕ
unfolding search_levels
resolve_keysym none target = 0
resolve_keysym (some km) target = search_levels km target 2 0
