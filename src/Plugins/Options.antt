-- ===== src/Plugins/Options.antt =====
-- `options` and `preferences` of user-plugins.py.
use fedora_config.Base.{
  ℕ, ◌==◌, leb, ℤ, pos, Bool, true, false, not, ◌&&◌, Option, none, some, String,
}
use fedora_config.Base.{if◌then◌else◌, Result, ok, raised, value_error, os_error}
use fedora_config.Base.Fallible.{◌>>=◌, ◌>>◌, raise_if}
use fedora_config.Json.{
  Value, bool, int, infinite, constant, arr, obj, Items, nil, cons, Fields, end, field, get, get_or,
}

pub record Options : Type 0 where
  pub enabled : Bool
  pub width : ℕ
  pub order : ℤ
  pub settings : Fields

unfoldable pub read_enabled : Value → Result Bool
read_enabled (bool b) = ok b
read_enabled _ = raised (value_error "enabled must be a boolean")

unfoldable pub read_width : Value → Result ℕ
read_width (int (pos n)) =
    if leb 24 n && leb n 320
    then ok n
    else raised (value_error "width must be an integer from 24 to 320")
read_width _ = raised (value_error "width must be an integer from 24 to 320")

unfoldable pub read_order : Value → Result ℤ
read_order (int n) = ok n
read_order _ = raised (value_error "order must be an integer")

-- `if not isinstance(value, dict): raise ValueError(problem)`
unfoldable pub read_dict : String → Value → Result Fields
read_dict problem (obj fields) = ok fields
read_dict problem _ = raised (value_error problem)

unfoldable pub options_of : Fields → Result Options
options_of value = do
  enabled ← read_enabled (get_or (bool false) (get "enabled" value))
  width ← read_width (get_or (int (pos 120)) (get "width" value))
  order ← read_order (get_or (int (pos 0)) (get "order" value))
  settings ← read_dict "settings must be an object" (get_or (obj end) (get "settings" value))
  ok (record { enabled = enabled; width = width; order = order; settings = settings })

unfoldable pub options : Value → Result Options
options (obj value) = options_of value
options _ = raised (value_error "Plugin preferences must be an object")

-- A JSON file: not there, not readable, or its size and what it parses to.
pub data Document : Type 0 where
  missing unreadable : Document
  contents : ℕ → Option Value → Document

-- `json.dumps(value, allow_nan=False)` succeeds.
unfoldable mutual
  pub is_finite : Value → Bool
  is_finite (constant s) = false
  is_finite (infinite b) = false
  is_finite (arr xs) = finite_items xs
  is_finite (obj fs) = finite_fields fs
  is_finite _ = true

  pub finite_items : Items → Bool
  finite_items nil = true
  finite_items (cons x xs) = is_finite x && finite_items xs

  pub finite_fields : Fields → Bool
  finite_fields end = true
  finite_fields (field k v fs) = is_finite v && finite_fields fs

-- `read_object`; the error of a missing file is an `OSError`.
unfoldable pub read_object : Document → Result Fields
read_object (contents size parsed) =
    if leb size 1048576
    then elim parsed [
      | none ↦ raised (value_error "the file does not parse")
      | some value ↦
          if is_finite value
          then read_dict "the file must contain a JSON object" value
          else raised (value_error "Out of range float values are not JSON compliant")
    ]
    else raised (value_error "the file exceeds 1 MiB")
read_object _ = raised os_error

-- `type(value) is int and value == 1`
unfoldable pub is_one : Option Value → Bool
is_one (some (int (pos n))) = n == 1
is_one _ = false

unfoldable pub is_dict : Option Value → Bool
is_dict (some (obj fields)) = true
is_dict _ = false

unfoldable pub check_preferences : Fields → Result Fields
check_preferences value = do
  raise_if (not (is_one (get "v" value)))
      (value_error "Unsupported plugins.json version; preferences were preserved")
  raise_if (not (is_dict (get "plugins" value)))
      (value_error "plugins.json must have a plugins object")
  ok value

unfoldable pub preferences : Document → Result Fields
preferences missing = ok (field "v" (int (pos 1)) (field "plugins" (obj end) end))
preferences file = read_object file >>= check_preferences
