-- ===== src/Plugins/Commands.antt =====
-- The commands of user-plugins.py that change one plugin's preferences, on the registry.
use fedora_config.Base.{ℤ, Bool, true, false, not, ◌||◌, Option, none, some, [], ◌∷◌, is_member}
use fedora_config.Base.{
  String, str_eq, if◌then◌else◌, Result, ok, raised, value_error, attribute_error, type_error,
}
use fedora_config.Base.Fallible.{◌>>=◌, ◌>>◌, raise_if}
use fedora_config.Json.{
  Value, bool, int, str, obj, Fields, end, field, get, get_or, or_null, put, remove, merge, is_text,
}
use fedora_config.Plugins.Ids.{valid_id}
use fedora_config.Plugins.Options.{Document, options, read_dict, preferences}
use fedora_config.Plugins.Manifest.{Packages, Descriptor, read_package}
use fedora_config.Plugins.Scan.{allows_multiple, as_fields}
use fedora_config.Plugins.Layout.{apply_layout}

-- `registry["plugins"]`, and the registry with other plugins.
unfoldable pub plugins_of : Fields → Fields
plugins_of registry = as_fields (get_or (obj end) (get "plugins" registry))

unfoldable pub with_plugins : Fields → Fields → Fields
with_plugins plugins registry = put "plugins" (obj plugins) registry

-- The options of a command line that set a key of the preferences.
pub record Given : Type 0 where
  pub section : Option String
  pub width : Option ℤ
  pub order : Option ℤ

unfoldable pub put_given : String → Option Value → Fields → Fields
put_given key none fields = fields
put_given key (some v) fields = put key v fields

unfoldable pub as_int : Option ℤ → Option Value
as_int none = none
as_int (some n) = some (int n)

unfoldable pub as_str : Option String → Option Value
as_str none = none
as_str (some s) = some (str s)

-- `instance`, and `enable`, which writes a new key in another order.
unfoldable pub with_given : Given → Fields → Fields
with_given given fields =
    put_given "order" (as_int given.order)
      (put_given "width" (as_int given.width) (put_given "section" (as_str given.section) fields))

unfoldable pub with_enabled : Given → Fields → Fields
with_enabled given entry = put_given "section" (as_str given.section) (
    put_given "order" (as_int given.order) (
      put_given "width" (as_int given.width)
        (put "widgetEnabled" (bool true) (put "enabled" (bool true) entry))))

pub data Change : Type 0 where
  remove_instance : String → Change
  configure_instance : String → Given → Change
  enable_plugin : Given → Change
  disable_plugin : Change
  merge_settings : Option String → Option Value → Change
  set_setting : Option String → String → Option Value → Change

-- `json.loads` of an argument.
unfoldable pub read_json : Option Value → Result Value
read_json none = raised (value_error "the argument does not parse")
read_json (some v) = ok v

-- `entry.get("instances", {}).get(name)`, which must be an object.
unfoldable pub instance_of : String → Fields → Result Fields
instance_of name entry = elim (get_or (obj end) (get "instances" entry)) [
  | obj instances ↦
      read_dict "Unknown instance; create it with the instance command"
        (or_null (get name instances))
  | _ ↦ raised attribute_error
]

unfoldable pub target_of : Option String → Fields → Result Fields
target_of none entry = ok entry
target_of (some name) entry = if str_eq name "" then ok entry else instance_of name entry

-- The target is a part of the entry, so that the entry changes with it.
unfoldable pub with_target : Option String → Fields → Fields → Fields
with_target none target entry = target
with_target (some name) target entry =
    if str_eq name ""
    then target
    else put "instances"
        (obj (put name (obj target) (as_fields (get_or (obj end) (get "instances" entry))))) entry

-- `settings = target.setdefault("settings", {})`, changed.
unfoldable pub change_settings : Option String → (Fields → Result Fields) → Fields → Result Fields
change_settings name change entry = do
  target ← target_of name entry
  settings ←
      read_dict "Plugin settings must be an object" (get_or (obj end) (get "settings" target))
  changed ← change settings
  ok (with_target name (put "settings" (obj changed) target) entry)

-- `settings.update(...)` with the patch, less its id.
unfoldable pub merged_patch : Option Value → Fields → Result Fields
merged_patch patch settings = do
  v ← read_json patch
  fields ← read_dict "Settings patch must be a JSON object" v
  ok (merge settings (remove "id" fields))

-- `options(entry)` before the registry is written.
unfoldable pub checked_entry : Fields → Result Fields
checked_entry entry = options (obj entry) >>= λ _. ok entry

-- `manifest.get("omarchy", {}).get("clonedFrom")`; `package` has checked that it is an object.
unfoldable pub cloned_from : Fields → Option Value
cloned_from manifest = get "clonedFrom" (as_fields (get_or (obj end) (get "omarchy" manifest)))

unfoldable pub same_text : Option Value → Value → Bool
same_text (some (str s)) origin = is_text s origin
same_text _ origin = false

-- `other_id == origin or related == origin`; a package that is not accepted is left alone.
unfoldable pub is_relative : Value → String → Result Descriptor → Bool
is_relative origin other_id (ok other) =
    is_text other_id origin || same_text (cloned_from other.manifest) origin
is_relative origin other_id (raised e) = false

-- `register` of the command add: a new package is disabled.
unfoldable pub register : String → Fields → Result Fields
register plugin_id registry =
    read_dict "Plugin preferences must be an object"
      (get_or (obj end) (get plugin_id (plugins_of registry)))
    >>= λ entry. ok (
        with_plugins (put plugin_id (obj (put "enabled" (bool false) entry)) (plugins_of registry))
          registry)

module _ (disk : Packages) where
  unfoldable pub change_instance : String → String → Given → Fields → Fields → Result Fields
  change_instance plugin_id name given instances entry = do
    candidate ← read_package disk plugin_id
    multiple ← allows_multiple candidate.manifest
    raise_if (not multiple) (value_error "Plugin does not allow multiple instances")
    configured ← read_dict "Instance must be an object" (get_or (obj end) (get name instances))
    _ ← options (obj (merge entry (with_given given configured)))
    ok (put "instances" (obj (put name (obj (with_given given configured)) instances)) entry)

  -- `instances = entry.setdefault("instances", {})`
  unfoldable pub read_instances : String → Fields → Result Fields
  read_instances name entry = do
    raise_if (not (valid_id name)) (value_error "Invalid instance name")
    read_dict "instances must be an object" (get_or (obj end) (get "instances" entry))

  -- The change of the plugin's own preferences.
  unfoldable pub change_entry : String → Change → Fields → Result Fields
  change_entry plugin_id (remove_instance name) entry = read_instances name entry >>= λ instances.
      ok (put "instances" (obj (remove name instances)) entry)
  change_entry plugin_id (configure_instance name given) entry =
      read_instances name entry >>= λ instances.
      change_instance plugin_id name given instances entry
  change_entry plugin_id (enable_plugin given) entry = checked_entry (with_enabled given entry)
  change_entry plugin_id disable_plugin entry = ok (put "enabled" (bool false) entry)
  change_entry plugin_id (merge_settings name patch) entry =
      change_settings name (merged_patch patch) entry >>= checked_entry
  change_entry plugin_id (set_setting name key json) entry =
      change_settings name (λ settings. read_json json >>= λ v. ok (put key v settings)) entry
      >>= checked_entry

  unfoldable pub disable_other : String → Value → String → Value → Value
  disable_other plugin_id origin other_id (obj other) =
      if str_eq other_id plugin_id
      then obj other
      else if is_relative origin other_id (read_package disk other_id)
      then obj (put "enabled" (bool false) other)
      else obj other
  disable_other plugin_id origin other_id v = v

  -- The loop of `enable`: of a plugin and its clones, one is enabled.
  unfoldable pub disable_relatives : String → Value → Fields → Fields
  disable_relatives plugin_id origin end = end
  disable_relatives plugin_id origin (field other_id v rest) =
      field other_id (disable_other plugin_id origin other_id v)
        (disable_relatives plugin_id origin rest)

  -- What a command does to the other plugins.
  unfoldable pub change_others : String → Change → Fields → Result Fields
  change_others plugin_id (enable_plugin given) plugins = do
    candidate ← read_package disk plugin_id
    ok (
        disable_relatives plugin_id (get_or (str plugin_id) (cloned_from candidate.manifest))
          plugins)
  change_others plugin_id change plugins = ok plugins

  -- The end of `main`: instance, enable, disable, merge and set.
  unfoldable pub change_plugin : String → Change → Fields → Result Fields
  change_plugin plugin_id change registry = do
    raise_if (not (valid_id plugin_id)) (value_error "Invalid plugin id")
    entry ←
        read_dict "Plugin preferences must be an object"
          (get_or (obj end) (get plugin_id (plugins_of registry)))
    others ← change_others plugin_id change (plugins_of registry)
    changed ← change_entry plugin_id change entry
    ok (with_plugins (put plugin_id (obj changed) others) registry)

  -- The command `bar`: another bar, or the native one.
  unfoldable pub enable_bar : String → Fields → Result Fields
  enable_bar plugin_id plugins = elim (get_or (obj end) (get plugin_id plugins)) [
    | obj entry ↦ ok (put plugin_id (obj (put "enabled" (bool true) entry)) plugins)
    | _ ↦ raised type_error
  ]

  unfoldable pub choose_plugins : String → Fields → Result Fields
  choose_plugins plugin_id plugins =
      if str_eq plugin_id "native"
      then ok plugins
      else (read_package disk plugin_id >>= λ candidate.
          if is_member "bar" candidate.kinds
          then enable_bar plugin_id plugins
          else raised (value_error "Selected plugin does not declare a bar"))

  unfoldable pub select_bar : String → Option String → Fields → Result Fields
  select_bar plugin_id position registry = do
    raise_if (not (valid_id plugin_id)) (value_error "Invalid plugin id")
    plugins ← choose_plugins plugin_id (plugins_of registry)
    current ← read_dict "bar must be an object" (get_or (obj end) (get "bar" registry))
    ok (
        put "bar"
          (obj (
            put_given "position" (as_str position)
              (put "id" (str (if str_eq plugin_id "native" then "" else plugin_id)) current)))
          (with_plugins plugins registry))

  unfoldable pub is_position : Value → Bool
  is_position (str s) = is_member s ("top" ∷ "bottom" ∷ "left" ∷ "right" ∷ [])
  is_position _ = false

  -- `if "layout" in incoming: apply_layout(...)`
  unfoldable pub apply_given_layout : Option Value → Fields → Result Fields
  apply_given_layout none registry = ok registry
  apply_given_layout (some layout) registry = apply_layout disk registry layout

  -- The command `bar-config`: a bar changes its presentation and the layout, not which bar runs.
  unfoldable pub configure_bar : Option Value → Fields → Result Fields
  configure_bar json registry = do
    v ← read_json json
    incoming ← read_dict "Invalid replacement bar configuration" v
    raise_if (not (is_position (get_or (str "top") (get "position" incoming))))
        (value_error "Invalid replacement bar configuration")
    current ← read_dict "bar must be an object" (get_or (obj end) (get "bar" registry))
    apply_given_layout (get "layout" incoming)
        (put "bar" (obj (merge current (remove "layout" (remove "id" incoming)))) registry)

  unfoldable pub on_preferences : (Fields → Result Fields) → Document → Result (Option Fields)
  on_preferences command config = do
    value ← preferences config
    changed ← command value
    ok (some changed)
