-- ===== src/Plugins/Scan.antt =====
-- `scan` of user-plugins.py: the plugins and widgets that the shell shows.
use Prim.Native.String.{compare}
use Prim.Native.Nat.{Ordering}
use fedora_config.Base.{
  ℕ, ℤ, pos, leb_ℤ, Bool, true, false, not, ◌&&◌, ◌||◌, Option, none, some, List, [], ◌∷◌, ◌++◌,
  is_member, sort_by,
}
use fedora_config.Base.{String, ◌<>◌, str_eq, if◌then◌else◌}
use fedora_config.Base.{
  Result, ok, raised, value_error, os_error, attribute_error, Exec, lift, gets,
}
use fedora_config.Base.Fallible
use fedora_config.Base.Fallible.{raise_if}
use fedora_config.Base.Action.{◌>>=◌, ◌>>◌}
use fedora_config.Json.{is_true}
use fedora_config.Json.{Value, bool, str, obj, Fields, end, field, get, get_or, merge, keys}
use fedora_config.Displays.Document.{sort}
use fedora_config.Plugins.Ids.{valid_id}
use fedora_config.Plugins.Options.{Options, Document, options, preferences, read_dict, is_dict}
use fedora_config.Plugins.Manifest.{
  Packages, Descriptor, read_package, read_section, built_in, built_in_reason,
}

-- A descriptor while `scan` fills it in; `section` is raw until it has been checked.
pub record Item : Type 0 where
  pub id : String
  pub name : String
  pub enabled : Bool
  pub order : ℤ
  pub width : ℕ
  pub settings : Fields
  pub error : Option String
  pub found : Option Descriptor
  pub section : Option Value
  pub data_path : String

-- A copy of the descriptor, with what belongs to one widget.
pub record Widget : Type 0 where
  pub item : Item
  pub key : String
  pub instance_name : String

-- `saved.get(plugin_id, {})`, once `options` has accepted it.
unfoldable pub as_fields : Value → Fields
as_fields (obj fields) = fields
as_fields _ = end

-- `manifest.get("barWidget", {}).get("allowMultiple", False)`
unfoldable pub allows_multiple : Fields → Result Bool
allows_multiple manifest = elim (get "barWidget" manifest) [
  | none ↦ ok false
  | some (obj widget) ↦ ok (is_true (get_or (bool false) (get "allowMultiple" widget)))
  | some _ ↦ raised attribute_error
]

unfoldable pub read_flag : String → Value → Result Bool
read_flag problem (bool b) = ok b
read_flag problem _ = raised (value_error problem)

unfoldable pub is_empty_fields : Fields → Bool
is_empty_fields end = true
is_empty_fields (field k v fs) = false

-- `if instances and not allowMultiple: raise ...`
unfoldable pub check_multiple : Fields → Fields → Result (Unit {0})
check_multiple end manifest = ok tt
check_multiple instances manifest =
    Fallible.◌>>=◌ (allows_multiple manifest)
      (λ multiple. raise_if (not multiple) (value_error "Plugin does not allow multiple instances"))

unfoldable pub fresh_item : String → Item
fresh_item plugin_id = record {
  id = plugin_id;
  name = plugin_id;
  enabled = false;
  order = pos 0;
  width = 120;
  settings = end;
  error = none;
  found = none;
  section = none;
  data_path = "";
}

-- `descriptor.update(...)` with the options, and with the package.
unfoldable pub with_options : Options → Item → Item
with_options chosen item = record item {
  enabled = chosen.enabled;
  width = chosen.width;
  order = chosen.order;
  settings = chosen.settings;
}

unfoldable pub with_package : Descriptor → Value → Item → Item
with_package d section item = record item {
  id = d.id;
  name = d.name;
  found = some d;
  settings = merge d.defaults item.settings;
  section = some section;
}

unfoldable pub with_data_path : String → Item → Item
with_data_path path item = record item { data_path = path }

unfoldable pub widget_of : Item → Bool → Widget
widget_of item enabled = record {
  item = record item { enabled = enabled };
  key = item.id;
  instance_name = "";
}

module _ (item : Item) (saved : Fields) (section : Value) (shown : Bool) where
  -- One entry of the plugin's instances.
  unfoldable pub instance_widget : String → Value → Result Widget
  instance_widget name instance_value =
      Fallible.◌>>◌
        (raise_if (not (valid_id name) || not (is_dict (some instance_value)))
          (value_error "Invalid widget instance"))
        (Fallible.◌>>=◌ (options (obj (merge saved (as_fields instance_value)))) (λ configured.
          Fallible.◌>>=◌
            (read_section "Invalid instance section"
              (get_or section (get "section" (as_fields instance_value))))
            (λ place. ok (record {
              item = record item {
                width = configured.width;
                order = configured.order;
                settings = merge item.settings configured.settings;
                enabled = item.enabled && (shown && configured.enabled);
                section = some (str place);
              };
              key = item.id <> "#" <> name;
              instance_name = name;
            }))))

  unfoldable pub instance_widgets : Fields → Result (List Widget)
  instance_widgets end = ok []
  instance_widgets (field name instance_value rest) =
      Fallible.◌>>=◌ (instance_widget name instance_value)
        (λ widget. Fallible.◌>>=◌ (instance_widgets rest) (λ widgets. ok (widget ∷ widgets)))

-- The widgets of a plugin that has the kind bar-widget.
unfoldable pub bar_widgets : Item → Fields → Value → Fields → Result (List Widget)
bar_widgets item saved section instances =
    Fallible.◌>>=◌
      (read_flag "widgetEnabled must be a boolean" (get_or (bool true) (get "widgetEnabled" saved)))
      (λ shown.
        if is_empty_fields instances
        then ok (widget_of item (item.enabled && shown) ∷ [])
        else instance_widgets item saved section shown instances)

module _ (disk : Packages) where
  unfoldable pub update_item : (Item → Item) → Exec Item (Unit {0})
  update_item f item = (ok tt, f item)

  -- The `try` of the loop.
  unfoldable pub fill_item : String → Value → Exec Item (List Widget)
  fill_item plugin_id entry = do
    chosen ← lift (options entry)
    update_item (with_options chosen)
    d ← lift (read_package disk plugin_id)
    update_item (with_package d (get_or (str d.section) (get "section" (as_fields entry))))
    section ← lift (
        read_section "section must be left, center or right"
          (get_or (str d.section) (get "section" (as_fields entry))))
    update_item (with_data_path (disk.data_path plugin_id))
    instances ← lift (
        read_dict "instances must be an object"
          (get_or (obj end) (get "instances" (as_fields entry))))
    lift (check_multiple instances d.manifest)
    item ← gets (λ item. item)
    lift (
        if is_member "bar-widget" d.kinds
        then bar_widgets item (as_fields entry) (str section) instances
        else ok [])

  -- The `except` clause.
  unfoldable pub failed_item : String → Item → Item × List Widget
  failed_item problem item =
      let item' = record item { error = some problem } in
      (item', if item.enabled then widget_of item' true ∷ [] else [])

  unfoldable pub settle_item : Result (List Widget) × Item → Result (Item × List Widget)
  settle_item (ok widgets, item) = ok (item, widgets)
  settle_item (raised (value_error problem), item) = ok (failed_item problem item)
  settle_item (raised os_error, item) = ok (failed_item "the package could not be read" item)
  settle_item (raised e, item) = raised e

  unfoldable pub scan_plugin : Fields → String → Result (List Item × List Widget)
  scan_plugin saved plugin_id =
      if str_eq plugin_id built_in
      then ok (
        if disk.is_dir plugin_id
            then record (fresh_item plugin_id) { error = some built_in_reason } ∷ []
            else [],
        [],
      )
      else Fallible.◌>>=◌
          (settle_item
            (fill_item plugin_id (get_or (obj end) (get plugin_id saved)) (fresh_item plugin_id)))
          (λ (item, widgets). ok (item ∷ [], widgets))

  unfoldable pub scan_plugins : Fields → List String → Result (List Item × List Widget)
  scan_plugins saved [] = ok ([], [])
  scan_plugins saved (plugin_id ∷ ids) =
      Fallible.◌>>=◌ (scan_plugin saved plugin_id) (λ (items, widgets).
        Fallible.◌>>=◌ (scan_plugins saved ids)
          (λ (more_items, more_widgets). ok (items ++ more_items, widgets ++ more_widgets)))

  -- `set(saved)` and the installed packages.
  unfoldable pub with_installed : List String → List String → List String
  with_installed known [] = known
  with_installed known (name ∷ names) =
      let rest = with_installed known names in if is_member name known then rest else name ∷ rest

  -- The orders of the two sorts: by the order, then by the key.
  unfoldable pub is_before : ℤ → String → ℤ → String → Bool
  is_before m j n k =
      if leb_ℤ n m
      then (if leb_ℤ m n then elim (compare j k) [ Ordering.gt ↦ false | _ ↦ true ] else false)
      else true

  pub record Scan : Type 0 where
    pub error : String
    pub bar : Fields
    pub widgets : List Widget
    pub plugins : List Item

  unfoldable pub failed_scan : String → Scan
  failed_scan problem = record { error = problem; bar = end; widgets = []; plugins = [] }

  -- The registry, and its replacement bar.
  unfoldable pub read_bar : Fields → Result Fields
  read_bar registry =
      Fallible.◌>>=◌
        (read_dict "Invalid replacement bar configuration" (get_or (obj end) (get "bar" registry)))
        (λ bar. elim (get_or (str "top") (get "position" bar)) [
          | str position ↦
              if is_member position ("top" ∷ "bottom" ∷ "left" ∷ "right" ∷ [])
              then ok bar
              else raised (value_error "Invalid replacement bar configuration")
          | _ ↦ raised (value_error "Invalid replacement bar configuration")
        ])

  unfoldable pub scan_registry : Fields → Fields → Result Scan
  scan_registry saved bar = Fallible.◌>>=◌ disk.installed (λ installed.
      Fallible.◌>>=◌ (scan_plugins saved (sort (with_installed (keys saved) installed)))
        (λ (items, widgets). ok (record {
          error = "";
          bar = bar;
          widgets = sort_by (λ v w. is_before v.item.order v.key w.item.order w.key) widgets;
          plugins = sort_by (λ v w. is_before v.order v.id w.order w.id) items;
        })))

  unfoldable pub scan_from : Fields → Result Fields → Result Scan
  scan_from registry (ok bar) =
      scan_registry (as_fields (get_or (obj end) (get "plugins" registry))) bar
  scan_from registry (raised (value_error problem)) = ok (failed_scan problem)
  scan_from registry (raised e) = raised e

  unfoldable pub scan_preferences : Result Fields → Result Scan
  scan_preferences (ok registry) = scan_from registry (read_bar registry)
  scan_preferences (raised (value_error problem)) = ok (failed_scan problem)
  scan_preferences (raised os_error) = ok (failed_scan "plugins.json could not be read")
  scan_preferences (raised e) = raised e

  unfoldable pub scan : Document → Result Scan
  scan config = scan_preferences (preferences config)
