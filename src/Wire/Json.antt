-- ===== src/Wire/Json.antt =====
-- What the bridge uses of the third-party crate serde_json, as a parameter of the development.
use infinity_wasm_bridge.Prelude.{
  ℤ, pos, ℕ, ◌<◌, ◌^◌, String, ◌≡◌, Bool, true, false, ◌&&◌, ◌||◌, not, if◌then◌else◌, Option, none,
  some, List, [], ◌∷◌, ◌==◌, string_eq, Result, ok, arith,
}

-- The first value that stands under a key.
unfoldable pub field {ℓ} : {A : Type ℓ} → List (String × A) → String → Option A
field [] k = none
field ((j, v) ∷ fs) k = if j == k then some v else field fs k

-- Whether a key stands in a list of fields.
unfoldable pub has_key {ℓ} : {A : Type ℓ} → List (String × A) → String → Bool
has_key [] k = false
has_key ((j, v) ∷ fs) k = j == k || has_key fs k

-- No key twice.
unfoldable pub distinct_keys {ℓ} : {A : Type ℓ} → List (String × A) → Bool
unfolding has_key
distinct_keys [] = true
distinct_keys ((j, v) ∷ fs) = not (has_key fs j) && distinct_keys fs

-- The JSON values (`serde_json::Value`) with the constructors and accessors that the bridge and
-- its derived code go through, printing and parsing, and their documented laws. An error of
-- serde_json appears as the text that it displays. A value here is one whose printed text is read
-- back exactly.
pub record Json : Type 1 where
  pub Value : Type 0
  -- The texts, `String` in the source: the bridge passes them on and never looks inside.
  pub Text : Type 0
  pub null : Value
  pub bool : Bool → Value
  pub u64 : ℕ → Value
  pub i64 : ℤ → Value
  pub string : String → Value
  pub array : List Value → Value
  pub object : List (String × Value) → Value
  -- `Value::get`, `is_null`, `as_bool`, `as_u64`, `as_str`, `as_array`.
  pub get : Value → String → Option Value
  pub is_null : Value → Bool
  pub as_bool : Value → Option Bool
  pub as_u64 : Value → Option ℕ
  pub as_str : Value → Option String
  pub as_array : Value → Option (List Value)
  pub to_string : Value → Result String Text
  pub from_str : Text → Result String Value
  pub get-object :
      (fs : List (String × Value)) (k : String)
      → distinct_keys fs ≡ true
      → get (object fs) k ≡ field fs k
  pub is_null-null : is_null null ≡ true
  pub eq-null_of_is_null : (v : Value) → is_null v ≡ true → v ≡ null
  pub is_null-bool : (b : Bool) → is_null (bool b) ≡ false
  pub is_null-u64 : (n : ℕ) → is_null (u64 n) ≡ false
  pub is_null-string : (s : String) → is_null (string s) ≡ false
  pub as_bool-bool : (b : Bool) → as_bool (bool b) ≡ some b
  pub as_u64-u64 : (n : ℕ) → n < 2 ^ 64 → as_u64 (u64 n) ≡ some n
  pub as_u64-lt : (v : Value) (n : ℕ) → as_u64 v ≡ some n → n < 2 ^ 64
  pub i64-pos : (n : ℕ) → i64 (pos n) ≡ u64 n
  pub as_str-string : (s : String) → as_str (string s) ≡ some s
  pub as_array-array : (vs : List Value) → as_array (array vs) ≡ some vs
  pub prints : (v : Value) → (s : Text) × (to_string v ≡ ok s) × (from_str s ≡ ok v)

-- A printed text is read back as the value.
pub parsed_of_printed :
    (j : Json) (v : j.Value) (text : j.Text) → j.to_string v ≡ ok text → j.from_str text ≡ ok v
parsed_of_printed j v text e =
    let (again, printed, parsed) = j.prints v in
    let same : again ≡ text = ground arith in rw (← same) parsed
