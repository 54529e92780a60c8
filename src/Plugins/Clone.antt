-- ===== src/Plugins/Clone.antt =====
-- The registry's part of `clone` and `remove` of user-plugins.py.
use fedora_config.Base.{
  Bool, true, false, none, some, String, if◌then◌else◌, Result, ok, raised, value_error,
  attribute_error, type_error,
}
use fedora_config.Base.Fallible.{◌>>=◌}
use fedora_config.Json.{
  Value, bool, str, arr, obj, Fields, end, field, get, get_or, or_null, put, remove, is_text,
}
use fedora_config.Plugins.Options.{options, read_dict}
use fedora_config.Plugins.Scan.{as_fields}
use fedora_config.Json.{is_true}
use fedora_config.Plugins.Commands.{plugins_of, with_plugins}

-- `value.get("bar", {}).get("id") == plugin_id`
unfoldable pub is_bar : String → Fields → Result Bool
is_bar plugin_id registry = elim (get_or (obj end) (get "bar" registry)) [
  | obj bar ↦ ok (is_text plugin_id (or_null (get "id" bar)))
  | _ ↦ raised attribute_error
]

-- `value["bar"]["id"] = v`
unfoldable pub set_bar : Value → Fields → Fields
set_bar v registry =
    put "bar" (obj (put "id" v (as_fields (get_or (obj end) (get "bar" registry))))) registry

-- `{"id": ..., "enabled": ..., "bar": ...}`
unfoldable pub restore_of : String → Fields → Bool → Fields
restore_of plugin_id original was_bar = field "id" (str plugin_id) (
    field "enabled" (get_or (bool false) (get "enabled" original)) (field "bar" (bool was_bar) end))

unfoldable pub clone_entry : String → Fields → Bool → Fields
clone_entry plugin_id original was_bar =
    put "cloneRestore" (obj (restore_of plugin_id original was_bar))
      (put "enabled" (bool true) original)

-- `if args.id in value["plugins"]: ...["enabled"] = False`
unfoldable pub disable_original : String → Fields → Fields
disable_original plugin_id plugins = elim (get plugin_id plugins) [
  | none ↦ plugins
  | some v ↦ put plugin_id (obj (put "enabled" (bool false) (as_fields v))) plugins
]

-- The registry once `plugin_packages.clone` has made the package `new_id`.
unfoldable pub clone_registry : String → String → Fields → Result Fields
clone_registry plugin_id new_id registry = do
  _ ← options (get_or (obj end) (get plugin_id (plugins_of registry)))
  was_bar ← is_bar plugin_id registry
  let original = as_fields (get_or (obj end) (get plugin_id (plugins_of registry)))
  let plugins =
      disable_original plugin_id
        (put new_id (obj (clone_entry plugin_id original was_bar)) (plugins_of registry))
  let cloned = with_plugins plugins registry
  ok (if was_bar then set_bar (str new_id) cloned else cloned)

-- `original["enabled"] = restore["enabled"]`
unfoldable pub restore_original : String → Fields → Fields → Result Fields
restore_original plugin_id restore plugins = elim (get plugin_id plugins) [
  | none ↦ ok plugins
  | some (obj original) ↦ elim (get "enabled" restore) [
    | some (bool b) ↦ ok (put plugin_id (obj (put "enabled" (bool b) original)) plugins)
    | _ ↦ raised (value_error "Invalid original plugin preferences")
  ]
  | some _ ↦ raised (value_error "Invalid original plugin preferences")
]

-- `if restore.get("id") in value["plugins"]`; a list or an object has no hash.
unfoldable pub restore_plugins : Fields → Fields → Result Fields
restore_plugins restore plugins = elim (get "id" restore) [
  | some (str plugin_id) ↦ restore_original plugin_id restore plugins
  | some (arr xs) ↦ raised type_error
  | some (obj fs) ↦ raised type_error
  | _ ↦ ok plugins
]

-- The bar that takes the removed plugin's place.
unfoldable pub bar_after : Fields → Value
bar_after restore =
    if is_true (or_null (get "bar" restore)) then get_or (str "") (get "id" restore) else str ""

-- `removed["enabled"] = False` acts on the entry that the original's may be.
unfoldable pub disable_removed : String → Fields → Fields
disable_removed plugin_id plugins =
    put plugin_id
      (obj (put "enabled" (bool false) (as_fields (get_or (obj end) (get plugin_id plugins)))))
      plugins

-- The registry once the package is to be removed.
unfoldable pub remove_registry : String → Fields → Result Fields
remove_registry plugin_id registry = do
  removed ←
      read_dict "Plugin preferences must be an object"
        (get_or (obj end) (get plugin_id (plugins_of registry)))
  restore ←
      read_dict "Invalid clone restoration metadata" (get_or (obj end) (get "cloneRestore" removed))
  restored ←
      restore_plugins restore
        (put plugin_id (obj (remove "cloneRestore" removed)) (plugins_of registry))
  was_bar ← is_bar plugin_id registry
  let after = with_plugins (disable_removed plugin_id restored) registry
  ok (if was_bar then set_bar (bar_after restore) after else after)
