-- ===== src/Health/Json.antt =====
-- The part of nlohmann::json that plugins/agl_health/AglHealth.cpp uses, as a parameter, with the
-- exceptions of the plugin as values.
use test_runner.Prelude.{ℕ, Bool, Option, none, some, List, [], Bytes}

-- What ends a handler early: KJ_REQUIRE on curl, or one of the library's exceptions.
pub data Failure : Type 0 where
  curl_init_failed curl_failed parse_error type_error out_of_range : Failure

pub data Fallible (A : Type 0) : Type 0 where
  ok : A → Fallible A
  thrown : Failure → Fallible A

infixl 5 ◌>>=◌
abbrev pub ◌>>=◌ : {A B : Type 0} → Fallible A → (A → Fallible B) → Fallible B
ok a >>= f = f a
thrown e >>= f = thrown e

pub record JsonLibrary : Type 1 where
  pub Json : Type 0
  pub Double : Type 0
  pub zero_double : Double
  -- `json::parse`
  pub parse : Bytes → Fallible Json
  -- the member that `value` reads, if there is one
  pub find : Json → Bytes → Fallible (Option Json)
  pub at : Json → Bytes → Fallible Json
  pub contains : Json → Bytes → Bool
  pub size : Json → ℕ
  -- `operator[]` with a number
  pub index : Json → ℕ → Fallible Json
  pub is_array : Json → Bool
  -- what a range-based for goes through
  pub elements : Json → List Json
  pub get_u8 : Json → Fallible ℕ
  pub get_u32 : Json → Fallible ℕ
  pub get_u64 : Json → Fallible ℕ
  pub get_double : Json → Fallible Double
  pub get_string : Json → Fallible Bytes
  -- the constructor from a list of keys and values
  pub object : List (Bytes × Json) → Json

module _ (J : JsonLibrary) where
  -- `value(key, fallback)`: the member converted, or the fallback if there is none.
  abbrev pub value_as : {A : Type 0} → (J.Json → Fallible A) → A → J.Json → Bytes → Fallible A
  value_as convert fallback j key =
      J.find j key >>= λ m. elim m [ none ↦ ok fallback | some v ↦ convert v ]

  unfoldable pub value_u32 : J.Json → Bytes → Fallible ℕ
  value_u32 j key = value_as J.get_u32 0 j key

  unfoldable pub value_u64 : J.Json → Bytes → Fallible ℕ
  value_u64 j key = value_as J.get_u64 0 j key

  unfoldable pub value_double : J.Json → Bytes → Fallible J.Double
  value_double j key = value_as J.get_double J.zero_double j key

  unfoldable pub value_string : J.Json → Bytes → Fallible Bytes
  value_string j key = value_as J.get_string [] j key
