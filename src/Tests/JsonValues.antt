-- ===== src/Tests/JsonValues.antt =====
-- A concrete JSON library for the tests of plugins/agl_health: documents as trees. Its parser is left
-- open, as a function on the body.
use test_runner.Prelude.{
  ℕ, ◌%◌, ◌^◌, ◌≡◌, refl, ap, ◌∙◌, Bool, true, false, Option, none, some, List, [], ◌∷◌, Bytes,
  length, get_elem?, arith,
}
use test_runner.Health.Json.{Fallible, ok, thrown, type_error, out_of_range, JsonLibrary}
use test_runner.Health.Documented.{Documented, member, is_some}

mutual
  pub data Value : Type 0 where
    number : ℕ → Value
    text : Bytes → Value
    array : Values → Value
    object : Members → Value

  pub data Values : Type 0 where
    no_values : Values
    first_value : Value → Values → Values

  pub data Members : Type 0 where
    no_members : Members
    first_member : Bytes → Value → Members → Members

abbrev of_values : Values → List Value
of_values no_values = []
of_values (first_value v vs) = v ∷ of_values vs

abbrev to_values : List Value → Values
to_values [] = no_values
to_values (v ∷ vs) = first_value v (to_values vs)

abbrev of_members : Members → List (Bytes × Value)
of_members no_members = []
of_members (first_member k v ms) = (k, v) ∷ of_members ms

abbrev to_members : List (Bytes × Value) → Members
to_members [] = no_members
to_members ((k, v) ∷ ms) = first_member k v (to_members ms)

pub of_values-to_values : (vs : List Value) → of_values (to_values vs) ≡ vs
of_values-to_values [] = refl
of_values-to_values (v ∷ vs) = ap (◌∷◌ v) (of_values-to_values vs)

pub of_members-to_members : (ms : List (Bytes × Value)) → of_members (to_members ms) ≡ ms
of_members-to_members [] = refl
of_members-to_members ((k, v) ∷ ms) = ap (◌∷◌ (k, v)) (of_members-to_members ms)

abbrev find_member : Value → Bytes → Fallible (Option Value)
find_member (object ms) key = ok (member (of_members ms) key)
find_member (number n) key = thrown type_error
find_member (text s) key = thrown type_error
find_member (array vs) key = thrown type_error

abbrev found : {A : Type 0} → Option A → Fallible A
found none = thrown out_of_range
found (some a) = ok a

abbrev at_member : Value → Bytes → Fallible Value
at_member (object ms) key = found (member (of_members ms) key)
at_member (number n) key = thrown type_error
at_member (text s) key = thrown type_error
at_member (array vs) key = thrown type_error

abbrev has_member : Value → Bytes → Bool
has_member (object ms) key = is_some (member (of_members ms) key)
has_member (number n) key = false
has_member (text s) key = false
has_member (array vs) key = false

abbrev entries : Value → List Value
entries (array vs) = of_values vs
entries (object ms) = []
entries (number n) = number n ∷ []
entries (text s) = text s ∷ []

abbrev entry_at : Value → ℕ → Fallible Value
entry_at (array vs) i = found (get_elem? (of_values vs) i)
entry_at (object ms) i = thrown type_error
entry_at (number n) i = thrown type_error
entry_at (text s) i = thrown type_error

abbrev array_value : Value → Bool
array_value (array vs) = true
array_value (object ms) = false
array_value (number n) = false
array_value (text s) = false

abbrev as_number : ℕ → Value → Fallible ℕ
as_number m (number n) = ok (n % m)
as_number m (text s) = thrown type_error
as_number m (array vs) = thrown type_error
as_number m (object ms) = thrown type_error

abbrev as_double : Value → Fallible ℕ
as_double (number n) = ok n
as_double (text s) = thrown type_error
as_double (array vs) = thrown type_error
as_double (object ms) = thrown type_error

abbrev as_text : Value → Fallible Bytes
as_text (text s) = ok s
as_text (number n) = thrown type_error
as_text (array vs) = thrown type_error
as_text (object ms) = thrown type_error

-- Loads are whole numbers here.
abbrev pub library : (Bytes → Fallible Value) → JsonLibrary
library parse = record {
  Json = Value;
  Double = ℕ;
  zero_double = 0;
  parse = parse;
  find = find_member;
  at = at_member;
  contains = has_member;
  size = λ v. length (entries v);
  index = entry_at;
  is_array = array_value;
  elements = entries;
  get_u8 = as_number (2 ^ 8);
  get_u32 = as_number (2 ^ 32);
  get_u64 = as_number (2 ^ 64);
  get_double = as_double;
  get_string = as_text;
  object = λ ms. object (to_members ms);
}

abbrev pub documented : (parse : Bytes → Fallible Value) → Documented (library parse)
documented parse = record {
  number = number;
  float = number;
  string = text;
  array = λ vs. array (to_values vs);
  find-object = λ ms key. ap (λ x. ok (member x key)) (of_members-to_members ms);
  at-object = λ ms key v e. ap (λ x. found (member x key)) (of_members-to_members ms) ∙ ap found e;
  contains-object = λ ms key. ap (λ x. is_some (member x key)) (of_members-to_members ms);
  get_u8-number = λ n h. ap ok (omega arith);
  get_u32-number = λ n h. ap ok (omega arith);
  get_u64-number = λ n h. ap ok (omega arith);
  get_double-float = λ d. refl;
  get_string-string = λ s. refl;
  is_array-array = λ vs. refl;
  is_array-string = λ s. refl;
  elements-array = λ vs. of_values-to_values vs;
  size-array = λ vs. ap length (of_values-to_values vs);
  index-array = λ vs i v e. ap (λ x. found (get_elem? x i)) (of_values-to_values vs) ∙ ap found e;
}
