-- ===== src/Displays/Document.antt =====
-- `reject_duplicates`, `loads`, `validate_document` and `encode` of display-settings.py.
use Prim.Native.String.{compare}
use Prim.Native.Nat.{Ordering}
use fedora_config.Base.{ℕ, leb_dyadic, whole, ◌&&◌, ltb, pos, ◌==◌, Bool, false}
use fedora_config.Base.{Option, some, List, [], ◌∷◌, if◌then◌else◌, String, ◌<>◌}
use fedora_config.Base.{Result, ok, raised, value_error}
use fedora_config.Base.Fallible.{◌>>=◌}
use fedora_config.Json.{Value, null, bool, int, float, infinite, constant, str, arr, obj}
use fedora_config.Json.{
  Items, nil, cons, Fields, end, field, get, has, put, keys, size, or_null, get_or,
}
use fedora_config.Displays.Entry.{validate_entry}

abbrev pub max_bytes : ℕ
max_bytes = 262144

abbrev pub max_entries : ℕ
max_entries = 64

-- `for key, value in pairs: if key in result: raise ...; result[key] = value`
unfoldable pub reject_duplicates : Fields → Fields → Result Value
reject_duplicates result end = ok (obj result)
reject_duplicates result (field key value pairs) =
    let rest = reject_duplicates (put key value result) pairs in
    if has key result then raised (value_error "duplicate key") else rest

-- What json.loads does with the hooks of `loads`: `reject_duplicates` is called with the pairs of
-- an object once its values are read, and `reject_constant` with a literal NaN or Infinity. The
-- input is the parser's tree, in which an object's pairs may repeat a key.
unfoldable mutual
  pub hooks : Value → Result Value
  hooks null = ok null
  hooks (bool b) = ok (bool b)
  hooks (int n) = ok (int n)
  hooks (float x) = ok (float x)
  hooks (infinite b) = ok (infinite b)
  hooks (constant s) = raised (value_error ("invalid number " <> s))
  hooks (str s) = ok (str s)
  hooks (arr xs) = hooks_items xs >>= λ ys. ok (arr ys)
  hooks (obj fs) = hooks_fields fs >>= λ gs. reject_duplicates end gs

  pub hooks_items : Items → Result Items
  hooks_items nil = ok nil
  hooks_items (cons x xs) = hooks x >>= λ y. hooks_items xs >>= λ ys. ok (cons y ys)

  pub hooks_fields : Fields → Result Fields
  hooks_fields end = ok end
  hooks_fields (field k v fs) = hooks v >>= λ w. hooks_fields fs >>= λ gs. ok (field k w gs)

-- `document.get('v') != 1 or isinstance(document.get('v'), bool)`: 1 and 1.0 pass.
unfoldable pub is_version_one : Option Value → Bool
is_version_one (some (int (pos n))) = n == 1
is_version_one (some (float x)) = leb_dyadic x (whole (pos 1)) && leb_dyadic (whole (pos 1)) x
is_version_one _ = false

-- `sorted(...)` on texts: by code points, which is the order of `compare`.
unfoldable pub insert_sorted : String → List String → List String
insert_sorted k [] = k ∷ []
insert_sorted k (j ∷ js) =
    let rest = insert_sorted k js in elim (compare j k) [ Ordering.gt ↦ k ∷ j ∷ js | _ ↦ j ∷ rest ]

unfoldable pub sort : List String → List String
unfolding insert_sorted
sort [] = []
sort (k ∷ ks) = insert_sorted k (sort ks)

unfoldable pub validate_entries : List String → Fields → Result (Unit {0})
validate_entries [] monitors = ok tt
validate_entries (key ∷ ks) monitors =
    validate_entry key (or_null (get key monitors)) >>= λ _. validate_entries ks monitors

unfoldable pub validate_monitors : Value → Result (Unit {0})
unfolding validate_entries
validate_monitors (obj monitors) =
    if ltb max_entries (size monitors)
    then raised (value_error "more than 64 displays")
    else validate_entries (sort (keys monitors)) monitors
validate_monitors _ = raised (value_error "monitors is not an object")

unfoldable pub validate_document : Value → Result Value
unfolding validate_monitors
validate_document (obj document) =
    if is_version_one (get "v" document)
    then (validate_monitors (get_or (obj end) (get "monitors" document)) >>= λ _. ok (obj document))
    else raised (value_error "unsupported version (expected v = 1)")
validate_document _ = raised (value_error "the document is not an object")
