-- ===== src/Health/Documented.antt =====
-- What the plugin relies on in nlohmann::json: documents built from numbers, texts, arrays and
-- objects are read back.
use test_runner.Prelude.{
  ℕ, ◌^◌, ◌<◌, ◌≡◌, Bool, true, false, Option, none, some, List, [], ◌∷◌, Bytes, bytes_eq, length,
  get_elem?, if◌then◌else◌,
}
use test_runner.Health.Json.{ok, JsonLibrary, value_u32, value_u64, value_double, value_string}

-- The member of a key in a list of members, the first if there are several.
abbrev pub member : {A : Type 0} → List (Bytes × A) → Bytes → Option A
member [] key = none
member ((k, v) ∷ members) key =
    let rest = member members key in if bytes_eq k key then some v else rest

abbrev pub is_some : {A : Type 0} → Option A → Bool
is_some none = false
is_some (some a) = true

pub record Documented (J : JsonLibrary) : Type 0 where
  pub number : ℕ → J.Json
  pub float : J.Double → J.Json
  pub string : Bytes → J.Json
  pub array : List J.Json → J.Json
  -- `value` and `at` of an object look its members up
  pub find-object :
      (members : List (Bytes × J.Json)) (key : Bytes)
      → J.find (J.object members) key ≡ ok (member members key)
  pub at-object :
      (members : List (Bytes × J.Json)) (key : Bytes) (v : J.Json)
      → member members key ≡ some v
      → J.at (J.object members) key ≡ ok v
  pub contains-object :
      (members : List (Bytes × J.Json)) (key : Bytes)
      → J.contains (J.object members) key ≡ is_some (member members key)
  -- the conversions of a value that the target type holds
  pub get_u8-number : (n : ℕ) → n < 2 ^ 8 → J.get_u8 (number n) ≡ ok n
  pub get_u32-number : (n : ℕ) → n < 2 ^ 32 → J.get_u32 (number n) ≡ ok n
  pub get_u64-number : (n : ℕ) → n < 2 ^ 64 → J.get_u64 (number n) ≡ ok n
  pub get_double-float : (d : J.Double) → J.get_double (float d) ≡ ok d
  pub get_string-string : (s : Bytes) → J.get_string (string s) ≡ ok s
  -- arrays
  pub is_array-array : (js : List J.Json) → J.is_array (array js) ≡ true
  pub is_array-string : (s : Bytes) → J.is_array (string s) ≡ false
  pub elements-array : (js : List J.Json) → J.elements (array js) ≡ js
  pub size-array : (js : List J.Json) → J.size (array js) ≡ length js
  pub index-array :
      (js : List J.Json) (i : ℕ) (v : J.Json)
      → get_elem? js i ≡ some v
      → J.index (array js) i ≡ ok v

module _ (J : JsonLibrary) (D : Documented J) (members : List (Bytes × J.Json)) (key : Bytes) where
  pub value_u32-object :
      (n : ℕ)
      → member members key ≡ some (D.number n)
      → n < 2 ^ 32
      → value_u32 J (J.object members) key ≡ ok n
  unfolding value_u32
  value_u32-object n e h = simp (D.find-object members key, e, D.get_u32-number n h)

  pub value_u64-object :
      (n : ℕ)
      → member members key ≡ some (D.number n)
      → n < 2 ^ 64
      → value_u64 J (J.object members) key ≡ ok n
  unfolding value_u64
  value_u64-object n e h = simp (D.find-object members key, e, D.get_u64-number n h)

  pub value_double-object :
      (d : J.Double)
      → member members key ≡ some (D.float d)
      → value_double J (J.object members) key ≡ ok d
  unfolding value_double
  value_double-object d e = simp (D.find-object members key, e, D.get_double-float d)

  pub value_string-object :
      (s : Bytes)
      → member members key ≡ some (D.string s)
      → value_string J (J.object members) key ≡ ok s
  unfolding value_string
  value_string-object s e = simp (D.find-object members key, e, D.get_string-string s)
