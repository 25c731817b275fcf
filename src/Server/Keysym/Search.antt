-- ===== src/Server/Keysym/Search.antt =====
-- TestRunnerServer::resolve_keysym finds a key that types the keysym, and the simplest one.
use test_runner.Prelude.{
  ℕ, zero, suc, ◌+◌, ◌-◌, ◌≤◌, ◌<◌, ◌≡◌, refl, sym, ap, ◌∙◌, ◌↔◌, ◌⊎◌, inl, inr, true, false,
  Option, none, some, List, [], ◌∷◌, arith, ◌==◌, Bool-cases, get_elem?,
}
use test_runner.Linux.{key_esc, key_max}
use test_runner.Xkb.{Keymap}
use test_runner.Server.Keysym.{
  has_sym, layouts_have, key_types, search_codes, search_levels, resolve_keysym,
}

-- The key of this evdev code gives the keysym at this level in one of its layouts.
abbrev pub Types : Keymap → ℕ → ℕ → ℕ → Type 0
Types km target level evdev =
    (layout : ℕ) × (layout < km.num_layouts_for_key (evdev + 8))
    × (i : ℕ) × (get_elem? (km.key_get_syms_by_level (evdev + 8) layout level) i ≡ some target)

has_sym_sound :
    (target : ℕ) (syms : List ℕ)
    → has_sym target syms ≡ true
    → (i : ℕ) × (get_elem? syms i ≡ some target)
unfolding has_sym
has_sym_sound target [] h = cc
has_sym_sound target (s ∷ syms) h = elim (Bool-cases (s == target)) [
  | inl e ↦ (0, ap some (ground arith))
  | inr e ↦ let r = has_sym_sound target syms (rw e at h) in (suc r.0, r.1)
]

has_sym_complete :
    (target : ℕ) (syms : List ℕ) (i : ℕ)
    → get_elem? syms i ≡ some target
    → has_sym target syms ≡ true
unfolding has_sym
has_sym_complete target [] i h = cc
has_sym_complete target (s ∷ syms) zero h = ground arith
has_sym_complete target (s ∷ syms) (suc i) h = ground (arith, has_sym_complete target syms i h)

layouts_have_sound :
    (km : Keymap) (target level code count layout : ℕ)
    → layouts_have km target level code count layout ≡ true
    → (l : ℕ) × (l < layout + count)
      × (i : ℕ) × (get_elem? (km.key_get_syms_by_level code l level) i ≡ some target)
unfolding layouts_have
layouts_have_sound km target level code zero layout h = cc
layouts_have_sound km target level code (suc count) layout h =
    elim (Bool-cases (has_sym target (km.key_get_syms_by_level code layout level))) [
      | inl e ↦ let r = has_sym_sound target _ e in (layout, omega arith, r.0, r.1)
      | inr e ↦
          let r = layouts_have_sound km target level code count (layout + 1) (rw e at h) in
          (r.0, omega (arith, r.1), r.2, r.3)
    ]

layouts_have_complete :
    (km : Keymap) (target level code count layout l i : ℕ)
    → layout ≤ l
    → l < layout + count
    → get_elem? (km.key_get_syms_by_level code l level) i ≡ some target
    → layouts_have km target level code count layout ≡ true
unfolding layouts_have
layouts_have_complete km target level code zero layout l i lo hi h = absurd (omega arith)
layouts_have_complete km target level code (suc count) layout l i lo hi h =
    elim (Bool-cases (layout == l)) [
      | inl e ↦
          let same : layout ≡ l = ground arith in
          rw (has_sym_complete target (km.key_get_syms_by_level code layout level) i (rw same h))
      | inr e ↦ ground (
        arith,
        layouts_have_complete km target level code count (layout + 1) l i (ground arith)
            (omega arith) h,
      )
    ]

key_types_iff :
    (km : Keymap) (target level evdev : ℕ)
    → (key_types km target level evdev ≡ true) ↔ Types km target level evdev
unfolding key_types
key_types_iff km target level evdev = (
  λ h.
      let r = layouts_have_sound km target level (evdev + 8) _ 0 h in
      (r.0, omega (arith, r.1), r.2, r.3),
  λ t.
      layouts_have_complete km target level (evdev + 8) _ 0 t.0 t.2 (omega arith)
        (omega (arith, t.1)) t.3,
)

-- No key of the range gives the keysym at this level.
abbrev pub Untyped : Keymap → ℕ → ℕ → ℕ → ℕ → Type 0
Untyped km target level lo hi = (c : ℕ) → lo ≤ c → c < hi → ¬ Types km target level c

-- `r` is the first key of the range that gives the keysym at this level.
abbrev pub First : Keymap → ℕ → ℕ → ℕ → ℕ → ℕ → Type 0
First km target level lo hi r =
    (lo ≤ r) × (r < hi) × Types km target level r × Untyped km target level lo r

abbrev Searched : Keymap → ℕ → ℕ → ℕ → ℕ → Option ℕ → Type 0
Searched km target level lo hi none = Untyped km target level lo hi
Searched km target level lo hi (some r) = First km target level lo hi r

-- A key that does not type the keysym may be put before a searched range.
Untyped-extend :
    (km : Keymap) (target level lo hi : ℕ)
    → ¬ Types km target level lo
    → Untyped km target level (lo + 1) hi
    → Untyped km target level lo hi
Untyped-extend km target level lo hi not_here h = λ c low high t. elim (Bool-cases (lo == c)) [
  | inl e ↦ let same : lo ≡ c = ground arith in not_here (rw same t)
  | inr e ↦ h c (ground arith) high t
]

Searched-extend :
    (km : Keymap) (target level lo hi : ℕ) (r : Option ℕ)
    → ¬ Types km target level lo
    → Searched km target level (lo + 1) hi r
    → Searched km target level lo hi r
Searched-extend km target level lo hi none not_here h =
    Untyped-extend km target level lo hi not_here h
Searched-extend km target level lo hi (some r) not_here h =
    (omega (arith, h.0), h.1, h.2, Untyped-extend km target level lo r not_here h.3)

search_codes-Searched :
    (km : Keymap) (target level count evdev : ℕ)
    → Searched km target level evdev (evdev + count) (search_codes km target level count evdev)
unfolding search_codes
search_codes-Searched km target level zero evdev = λ c lo hi. absurd (omega arith)
search_codes-Searched km target level (suc count) evdev =
    elim (Bool-cases (key_types km target level evdev)) [
      | inl e ↦ rw e (
        omega arith,
        omega arith,
        (key_types_iff km target level evdev).0 e,
        λ c lo hi. absurd (omega arith),
      )
      | inr e ↦ rw e (
          Searched-extend km target level evdev (evdev + suc count) _
            (λ t. let f : false ≡ true = sym e ∙ (key_types_iff km target level evdev).1 t in cc f)
            (let same : evdev + suc count ≡ evdev + 1 + count = omega arith in
              rw same (search_codes-Searched km target level count (evdev + 1))))
    ]

-- What a caller may rely on: zero means that no key gives the keysym, plain or shifted, and any
-- other result is the first key that gives it at the lowest level where one does.
abbrev pub Resolved : Keymap → ℕ → ℕ → Type 0
Resolved km target r =
    ((r ≡ 0) × Untyped km target 0 key_esc key_max × Untyped km target 1 key_esc key_max)
    ⊎ (First km target 0 key_esc key_max r
        ⊎ (Untyped km target 0 key_esc key_max × First km target 1 key_esc key_max r))

levels_resolve :
    (km : Keymap) (target : ℕ) (low high : Option ℕ)
    → search_codes km target 0 (key_max - key_esc) key_esc ≡ low
    → search_codes km target 1 (key_max - key_esc) key_esc ≡ high
    → Searched km target 0 key_esc key_max low
    → Searched km target 1 key_esc key_max high
    → Resolved km target (search_levels km target 2 0)
unfolding search_levels
levels_resolve km target (some r) high e f a b = rw (e, search_levels) (inr (inl a))
levels_resolve km target none (some r) e f a b = rw (e, f, search_levels) (inr (inr (a, b)))
levels_resolve km target none none e f a b = rw (e, f, search_levels) (inl (refl, a, b))

-- For every keymap and keysym, `resolve_keysym` returns 0 exactly where no key code below KEY_MAX
-- gives the keysym at level 0 or 1, and otherwise the least code that gives it at level 0, or at
-- level 1 where none does at level 0.
pub resolve_keysym-Resolved :
    (km : Keymap) (target : ℕ) → Resolved km target (resolve_keysym (some km) target)
unfolding resolve_keysym
resolve_keysym-Resolved km target =
    levels_resolve km target _ _ refl refl
      (search_codes-Searched km target 0 (key_max - key_esc) key_esc)
      (search_codes-Searched km target 1 (key_max - key_esc) key_esc)

Resolved-lt : (km : Keymap) (target r : ℕ) → Resolved km target r → r < key_max
Resolved-lt km target r (inl h) = rw h.0 (omega arith)
Resolved-lt km target r (inr (inl h)) = h.1
Resolved-lt km target r (inr (inr h)) = h.1.1

pub resolve_keysym-lt : (km : Option Keymap) (target : ℕ) → resolve_keysym km target < key_max
resolve_keysym-lt none target = unfold resolve_keysym in omega arith
resolve_keysym-lt (some km) target = Resolved-lt km target _ (resolve_keysym-Resolved km target)
