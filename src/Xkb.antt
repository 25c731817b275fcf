-- ===== src/Xkb.antt =====
-- The calls of libxkbcommon that the server and the recorder make, as a parameter.
use test_runner.Prelude.{ℕ, Bool, Option, List, Bytes}

-- `xkb_rule_names`; `none` is a null pointer.
pub record RuleNames : Type 0 where
  pub rules : Option Bytes
  pub model : Option Bytes
  pub layout : Option Bytes
  pub variant : Option Bytes
  pub options : Option Bytes

-- `xkb_keymap`: the layouts of a key, and the keysyms of a key by layout and level.
pub record Keymap : Type 0 where
  pub num_layouts_for_key : ℕ → ℕ
  pub key_get_syms_by_level : ℕ → ℕ → ℕ → List ℕ

-- Whether a context and a state are made, the keymap compiled from names, and keysyms by name.
pub record Xkb : Type 0 where
  pub context_new : Bool
  pub keymap_new_from_names : RuleNames → Option Keymap
  pub state_new : Keymap → Bool
  pub keysym_from_name : Bytes → ℕ

-- XKB_KEY_NoSymbol.
abbrev pub no_symbol : ℕ
no_symbol = 0
