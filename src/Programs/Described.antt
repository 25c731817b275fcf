-- ===== src/Programs/Described.antt =====
-- The options of server/main.cpp against a description: the last argument of each option counts, and
-- the first option that is none of the settings ends the program.
use test_runner.Prelude.{
  ℕ, ◌≡◌, refl, sym, ap, ◌∙◌, ◌⊎◌, inl, inr, true, false, ◌||◌, Option, none, some, List, [], ◌∷◌,
  arith, ◌==◌, if◌then◌else◌, Bool-cases, Option-cases, Bytes,
}
use test_runner.Programs.{
  GivenOption, Ending, exit_success, exit_failure, null_pointer, Parsed, parsed, ends,
}
use test_runner.Programs.Server.{ServerOptions, server_option, parse_options}

-- The argument of the last option with a character.
abbrev pub last_of : ℕ → List GivenOption → Option Bytes
last_of ch [] = none
last_of ch (opt ∷ opts) = elim (last_of ch opts) [
  | some a ↦ some a
  | none ↦ if opt.ch == ch then opt.optarg else none
]

abbrev or_else : Bytes → Option Bytes → Bytes
or_else d none = d
or_else d (some a) = a

abbrev pub last_or : ℕ → List GivenOption → Bytes → Bytes
last_or ch opts d = or_else d (last_of ch opts)

-- What one option ends the program with, if it does.
pub ending_at : GivenOption → Option Ending
ending_at opt =
    if opt.ch == b'l' || opt.ch == b'L' || opt.ch == b'V' || opt.ch == b'M'
    then elim opt.optarg [ none ↦ some null_pointer | some a ↦ none ]
    else some (if opt.ch == b'h' then exit_success else exit_failure)

abbrev pub first_ending : List GivenOption → Option Ending
first_ending [] = none
first_ending (opt ∷ opts) = elim (ending_at opt) [ some e ↦ some e | none ↦ first_ending opts ]

-- The options with their last arguments, over the values from before.
abbrev pub described : List GivenOption → ServerOptions → ServerOptions
described opts o = record {
  listen_addr = last_or b'l' opts o.listen_addr;
  xkb_cfg = record o.xkb_cfg {
    layout = last_or b'L' opts o.xkb_cfg.layout;
    variant = last_or b'V' opts o.xkb_cfg.variant;
    model = last_or b'M' opts o.xkb_cfg.model;
  };
}

abbrev pub described_result :
    List GivenOption → ServerOptions → Option Ending → Parsed ServerOptions
described_result opts o none = parsed (described opts o)
described_result opts o (some e) = ends e

last_or_hit :
    (ch : ℕ) (opt : GivenOption) (opts : List GivenOption) (a d : Bytes)
    → opt.ch == ch ≡ true
    → opt.optarg ≡ some a
    → last_or ch (opt ∷ opts) d ≡ last_or ch opts a
last_or_hit ch opt opts a d h e = elim (Option-cases (last_of ch opts)) [
  | inl n ↦ simp (n, h, e)
  | inr (b, n) ↦ simp n
]

last_or_miss :
    (ch : ℕ) (opt : GivenOption) (opts : List GivenOption) (d : Bytes)
    → opt.ch == ch ≡ false
    → last_or ch (opt ∷ opts) d ≡ last_or ch opts d
last_or_miss ch opt opts d h = elim (Option-cases (last_of ch opts)) [
  | inl n ↦ simp (n, h)
  | inr (b, n) ↦ simp n
]

-- What one option does, next to what the description says of it.
abbrev OptionStep : GivenOption → ServerOptions → Type 0
OptionStep opt o =
    ((p : ServerOptions) × (server_option opt o ≡ parsed p)
      × (ending_at opt ≡ none)
      × ((opts : List GivenOption) → described (opt ∷ opts) o ≡ described opts p))
    ⊎ ((e : Ending) × (server_option opt o ≡ ends e) × (ending_at opt ≡ some e))

listen-OptionStep : (opt : GivenOption) (o : ServerOptions) → opt.ch ≡ b'l' → OptionStep opt o
unfolding server_option ending_at
listen-OptionStep opt o h = elim (Option-cases opt.optarg) [
  | inl n ↦ inr (null_pointer, rw (h, n) refl, rw (h, n) refl)
  | inr (a, n) ↦ inl (
    record o { listen_addr = a },
    rw (h, n) refl,
    rw (h, n) refl,
    λ opts. rw (
      last_or_hit b'l' opt opts a o.listen_addr (ap (λ c. c == b'l') h) n,
      last_or_miss b'L' opt opts o.xkb_cfg.layout (ap (λ c. c == b'L') h),
      last_or_miss b'V' opt opts o.xkb_cfg.variant (ap (λ c. c == b'V') h),
      last_or_miss b'M' opt opts o.xkb_cfg.model (ap (λ c. c == b'M') h),
    ),
  )
]

layout-OptionStep : (opt : GivenOption) (o : ServerOptions) → opt.ch ≡ b'L' → OptionStep opt o
unfolding server_option ending_at
layout-OptionStep opt o h = elim (Option-cases opt.optarg) [
  | inl n ↦ inr (null_pointer, rw (h, n) refl, rw (h, n) refl)
  | inr (a, n) ↦ inl (
    record o { xkb_cfg = record o.xkb_cfg { layout = a } },
    rw (h, n) refl,
    rw (h, n) refl,
    λ opts. rw (
      last_or_miss b'l' opt opts o.listen_addr (ap (λ c. c == b'l') h),
      last_or_hit b'L' opt opts a o.xkb_cfg.layout (ap (λ c. c == b'L') h) n,
      last_or_miss b'V' opt opts o.xkb_cfg.variant (ap (λ c. c == b'V') h),
      last_or_miss b'M' opt opts o.xkb_cfg.model (ap (λ c. c == b'M') h),
    ),
  )
]

variant-OptionStep : (opt : GivenOption) (o : ServerOptions) → opt.ch ≡ b'V' → OptionStep opt o
unfolding server_option ending_at
variant-OptionStep opt o h = elim (Option-cases opt.optarg) [
  | inl n ↦ inr (null_pointer, rw (h, n) refl, rw (h, n) refl)
  | inr (a, n) ↦ inl (
    record o { xkb_cfg = record o.xkb_cfg { variant = a } },
    rw (h, n) refl,
    rw (h, n) refl,
    λ opts. rw (
      last_or_miss b'l' opt opts o.listen_addr (ap (λ c. c == b'l') h),
      last_or_miss b'L' opt opts o.xkb_cfg.layout (ap (λ c. c == b'L') h),
      last_or_hit b'V' opt opts a o.xkb_cfg.variant (ap (λ c. c == b'V') h) n,
      last_or_miss b'M' opt opts o.xkb_cfg.model (ap (λ c. c == b'M') h),
    ),
  )
]

model-OptionStep : (opt : GivenOption) (o : ServerOptions) → opt.ch ≡ b'M' → OptionStep opt o
unfolding server_option ending_at
model-OptionStep opt o h = elim (Option-cases opt.optarg) [
  | inl n ↦ inr (null_pointer, rw (h, n) refl, rw (h, n) refl)
  | inr (a, n) ↦ inl (
    record o { xkb_cfg = record o.xkb_cfg { model = a } },
    rw (h, n) refl,
    rw (h, n) refl,
    λ opts. rw (
      last_or_miss b'l' opt opts o.listen_addr (ap (λ c. c == b'l') h),
      last_or_miss b'L' opt opts o.xkb_cfg.layout (ap (λ c. c == b'L') h),
      last_or_miss b'V' opt opts o.xkb_cfg.variant (ap (λ c. c == b'V') h),
      last_or_hit b'M' opt opts a o.xkb_cfg.model (ap (λ c. c == b'M') h) n,
    ),
  )
]

help-OptionStep : (opt : GivenOption) (o : ServerOptions) → opt.ch ≡ b'h' → OptionStep opt o
unfolding server_option ending_at
help-OptionStep opt o h = inr (exit_success, rw h refl, rw h refl)

other-OptionStep :
    (opt : GivenOption) (o : ServerOptions)
    → opt.ch == b'l' ≡ false
    → opt.ch == b'L' ≡ false
    → opt.ch == b'V' ≡ false
    → opt.ch == b'M' ≡ false
    → opt.ch == b'h' ≡ false
    → OptionStep opt o
unfolding server_option ending_at
other-OptionStep opt o l c v m h = inr (exit_failure, simp (l, c, v, m, h), simp (l, c, v, m, h))

equal_sound : (m n : ℕ) → m == n ≡ true → m ≡ n
equal_sound m n h = ground arith

option_step : (opt : GivenOption) (o : ServerOptions) → OptionStep opt o
option_step opt o = elim (Bool-cases (opt.ch == b'l')) [
  | inl l ↦ listen-OptionStep opt o (equal_sound _ _ l)
  | inr l ↦ elim (Bool-cases (opt.ch == b'L')) [
    | inl c ↦ layout-OptionStep opt o (equal_sound _ _ c)
    | inr c ↦ elim (Bool-cases (opt.ch == b'V')) [
      | inl v ↦ variant-OptionStep opt o (equal_sound _ _ v)
      | inr v ↦ elim (Bool-cases (opt.ch == b'M')) [
        | inl m ↦ model-OptionStep opt o (equal_sound _ _ m)
        | inr m ↦ elim (Bool-cases (opt.ch == b'h')) [
          | inl h ↦ help-OptionStep opt o (equal_sound _ _ h)
          | inr h ↦ other-OptionStep opt o l c v m h
        ]
      ]
    ]
  ]
]

described_result-step :
    (opt : GivenOption) (opts : List GivenOption) (o p : ServerOptions) (e : Option Ending)
    → described (opt ∷ opts) o ≡ described opts p
    → described_result (opt ∷ opts) o e ≡ described_result opts p e
described_result-step opt opts o p none h = ap parsed h
described_result-step opt opts o p (some e) h = refl

-- Whatever options the server is given: if one of them is neither -l, -L, -V nor -M, or lacks its
-- argument, the first such one ends the program, with success for -h; otherwise each variable has the
-- argument of the last option that sets it, or its value from before.
pub parse_options-described :
    (opts : List GivenOption) (o : ServerOptions)
    → parse_options opts o ≡ described_result opts o (first_ending opts)
unfolding parse_options
parse_options-described [] o = refl
parse_options-described (opt ∷ opts) o = elim (option_step opt o) [
  | inl (p, s, n, d) ↦
      rw (s, parse_options, first_ending, n)
        (parse_options-described opts p
          ∙ sym (described_result-step opt opts o p (first_ending opts) (d opts)))
  | inr (e, s, n) ↦ rw (s, parse_options, first_ending, n) refl
]
