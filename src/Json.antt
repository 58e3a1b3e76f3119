-- ===== src/Json.antt =====
-- `serde_json::Value` as the crates use it: the values, the readers that they call and the `json!`
-- macro's objects.
use atlas_bot.Common.{
  ℕ, String, Text, Bool, Option, none, some, List, [], ◌∷◌, ◌≡◌, refl, str_eq, if◌then◌else◌,
  ◌or_else◌, trim, is_empty,
}

-- A number is a `u64`, a negative integer (`neg n` is -(n + 1)) or a float, of which the code reads
-- only what `f as u64` makes of it.
mutual
  pub data Json : Type 0 where
    null : Json
    bool : Bool → Json
    num : ℕ → Json
    neg : ℕ → Json
    float : ℕ → Json
    str : Text → Json
    arr : Items → Json
    obj : Fields → Json

  pub data Items : Type 0 where
    nil : Items
    cons : Json → Items → Items

  pub data Fields : Type 0 where
    end : Fields
    field : String → Json → Fields → Fields

unfoldable pub items : List Json → Items
items [] = nil
items (v ∷ vs) = cons v (items vs)

unfoldable pub elems : Items → List Json
elems nil = []
elems (cons v vs) = v ∷ elems vs

pub elems-items : (vs : List Json) → elems (items vs) ≡ vs
unfolding elems items
elems-items [] = refl
elems-items (v ∷ vs) = rw (elems-items vs)

abbrev pub fields : List (String × Json) → Fields
fields [] = end
fields ((k, v) ∷ kvs) = field k v (fields kvs)

-- `json!({ … })`, `json!([ … ])`
abbrev pub object : List (String × Json) → Json
object kvs = obj (fields kvs)

abbrev pub array : List Json → Json
array vs = arr (items vs)

find_field : String → Fields → Option Json
find_field k end = none
find_field k (field j v fs) = if str_eq j k then some v else find_field k fs

-- `Value::get` with a key: none on what is no object
unfoldable pub get_key : String → Json → Option Json
unfolding find_field
get_key k (obj fs) = find_field k fs
get_key k _ = none

abbrev pub as_str : Json → Option Text
as_str (str s) = some s
as_str _ = none

abbrev pub as_bool : Json → Option Bool
as_bool (bool b) = some b
as_bool _ = none

unfoldable pub as_array : Json → Option (List Json)
unfolding elems
as_array (arr vs) = some (elems vs)
as_array _ = none

abbrev pub as_u64 : Json → Option ℕ
as_u64 (num n) = some n
as_u64 _ = none

-- `as_f64().map(|f| f as u64)`: truncated, and 0 for what is negative
abbrev pub as_f64_as_u64 : Json → Option ℕ
as_f64_as_u64 (num n) = some n
as_f64_as_u64 (neg n) = some 0
as_f64_as_u64 (float t) = some t
as_f64_as_u64 _ = none

abbrev pub and_then {ℓ κ} : {A : Type ℓ} {B : Type κ} → Option A → (A → Option B) → Option B
and_then none f = none
and_then (some a) f = f a

-- `v.get(key).and_then(|v| v.as_…())`
unfoldable pub get_str : String → Json → Option Text
unfolding get_key
get_str k v = and_then (get_key k v) as_str

unfoldable pub get_bool : String → Json → Option Bool
unfolding get_key
get_bool k v = and_then (get_key k v) as_bool

unfoldable pub get_array : String → Json → Option (List Json)
unfolding get_key as_array
get_array k v = and_then (get_key k v) as_array

-- `and_then(|v| v.as_u64().or_else(|| v.as_f64().map(|f| f as u64)))`
unfoldable pub get_count : String → Json → Option ℕ
unfolding get_key
get_count k v = and_then (get_key k v) (λ n. as_u64 n or_else as_f64_as_u64 n)

-- `map(str::trim).filter(|s| !s.is_empty())`
unfoldable pub nonempty : Text → Option Text
nonempty s = if is_empty (trim s) then none else some (trim s)

unfoldable pub get_nonempty : String → Json → Option Text
unfolding get_str nonempty
get_nonempty k v = and_then (get_str k v) nonempty
