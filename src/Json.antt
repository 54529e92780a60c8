-- ===== src/Json.antt =====
-- JSON documents as Python's json module gives them, and the dict operations of the program.
pub mod Laws
use fedora_config.Base.{
  ℕ, suc, ◌+◌, ◌^◌, ◌*◌, ◌-◌, ◌==◌, leb, pos, negsuc, ℤ, pos_part, neg_part, Dyadic,
}
use fedora_config.Base.{Bool, true, false, not, ◌&&◌, ◌||◌, Option, none, some, List, [], ◌∷◌}
use fedora_config.Base.{String, str_eq, if◌then◌else◌, ◌≡◌}

-- A dict is its entries in insertion order. `constant` is one of the literals NaN, Infinity and
-- -Infinity, and `infinite` a decimal literal beyond the doubles (true: negative).
mutual
  pub data Value : Type 0 where
    null : Value
    bool : Bool → Value
    int : ℤ → Value
    float : Dyadic → Value
    infinite : Bool → Value
    constant : String → Value
    str : String → Value
    arr : Items → Value
    obj : Fields → Value

  pub data Fields : Type 0 where
    end : Fields
    field : String → Value → Fields → Fields

  pub data Items : Type 0 where
    nil : Items
    cons : Value → Items → Items

-- `fields.get(key)`
unfoldable pub get : String → Fields → Option Value
get key end = none
get key (field k v rest) = if str_eq k key then some v else get key rest

-- `key in fields`
unfoldable pub has : String → Fields → Bool
has key end = false
has key (field k v rest) = str_eq k key || has key rest

-- `fields[key] = value`: a present key keeps its place.
unfoldable pub put : String → Value → Fields → Fields
put key v end = field key v end
put key v (field k w rest) = if str_eq k key then field key v rest else field k w (put key v rest)

-- `fields.pop(key, None)`
unfoldable pub remove : String → Fields → Fields
remove key end = end
remove key (field k v rest) =
    let rest' = remove key rest in if str_eq k key then rest' else field k v rest'

-- `{**fields, **others}`, and `fields.update(others)`.
unfoldable pub merge : Fields → Fields → Fields
unfolding put
merge fields end = fields
merge fields (field k v rest) = merge (put k v fields) rest

unfoldable pub keys : Fields → List String
keys end = []
keys (field k v rest) = k ∷ keys rest

unfoldable pub size : Fields → ℕ
size end = 0
size (field k v rest) = suc (size rest)

unfoldable pub items : Items → List Value
items nil = []
items (cons v rest) = v ∷ items rest

-- No key twice, as in every Python dict.
abbrev pub NodupFields : Fields → Type 0
NodupFields end = Unit
NodupFields (field k v rest) = (has k rest ≡ false) × NodupFields rest

-- The text of a value, if it is one.
unfoldable pub as_text : Value → Option String
as_text (str s) = some s
as_text _ = none

unfoldable pub as_object : Value → Option Fields
as_object (obj fs) = some fs
as_object _ = none

-- `value == 'text'`
unfoldable pub is_text : String → Value → Bool
is_text s (str t) = str_eq t s
is_text s _ = false

-- `isinstance(value, dict)`
unfoldable pub is_object : Value → Bool
is_object (obj fs) = true
is_object _ = false

-- A missing key and a null read alike through `dict.get`.
unfoldable pub or_null : Option Value → Value
or_null none = null
or_null (some v) = v

-- `fields.get(key, default)`
unfoldable pub get_or : Value → Option Value → Value
get_or d none = d
get_or d (some v) = v

-- Python's truth of a JSON value.
unfoldable pub is_true : Value → Bool
is_true null = false
is_true (bool b) = b
is_true (int (pos n)) = not (n == 0)
is_true (float x) = elim x.mantissa [ pos n ↦ not (n == 0) | _ ↦ true ]
is_true (str s) = not (str_eq s "")
is_true (arr nil) = false
is_true (obj end) = false
is_true _ = true
