-- ===== src/Plugins/Widgets.antt =====
-- `configure-widget` and `move-widget` of user-plugins.py: changes from the bar's own menu.
use fedora_config.Base.{
  ℕ, suc, ◌-◌, leb, ltb, ℤ, pos, Bool, true, false, not, ◌&&◌, ◌||◌, Option, none, some, List, [],
  ◌∷◌, is_member, all, length,
}
use fedora_config.Base.{
  String, str_eq, if◌then◌else◌, Result, ok, raised, value_error, key_error, type_error,
}
use fedora_config.Base.Fallible.{◌>>=◌, ◌>>◌, raise_if}
use fedora_config.Json.{
  Value, bool, int, str, obj, Fields, end, get, get_or, has, put, keys, is_text,
}
use fedora_config.Plugins.Options.{Document, preferences, read_dict, read_width}
use fedora_config.Plugins.Manifest.{Packages, sections, is_bool}
use fedora_config.Plugins.Scan.{Widget, scan, is_empty_fields}
use fedora_config.Plugins.Edit.{insert_at}
use fedora_config.Plugins.Commands.{plugins_of, with_plugins, read_json}

unfoldable pub find_widget : String → List Widget → Option Widget
find_widget key [] = none
find_widget key (w ∷ ws) =
    let later = find_widget key ws in if str_eq w.key key then some w else later

-- `item.get("section", "right") == section`
unfoldable pub is_in : String → Widget → Bool
is_in section w = is_text section (get_or (str "right") w.item.section)

-- `[item for item in widgets if ...]`
unfoldable pub select : (Widget → Bool) → List Widget → List Widget
select p [] = []
select p (w ∷ ws) = let rest = select p ws in if p w then w ∷ rest else rest

-- `destination.index(moving)`; two widgets with one key would be one widget.
unfoldable pub index_of : String → List Widget → Option ℕ
index_of key [] = none
index_of key (w ∷ ws) =
    if str_eq w.key key
    then some 0
    else elim (index_of key ws) [ none ↦ none | some n ↦ some (suc n) ]

-- `destination.remove(moving)`
unfoldable pub remove_widget : String → List Widget → List Widget
remove_widget key [] = []
remove_widget key (w ∷ ws) =
    let rest = remove_widget key ws in if str_eq w.key key then ws else w ∷ rest

-- The index once the widget is taken out.
unfoldable pub shifted : Option ℕ → ℕ → ℕ
shifted none index = index
shifted (some old) index = if ltb old index then index - 1 else index

-- The section's widgets in their new order.
unfoldable pub reorder : Widget → ℕ → List Widget → List Widget
reorder moving index destination =
    insert_at (shifted (index_of moving.key destination) index) moving
      (remove_widget moving.key destination)

-- `entry = plugins[id]`, or one of its instances, changed in place.
unfoldable pub update_instance : String → (Fields → Fields) → Fields → Result Fields
update_instance name change entry = elim (get "instances" entry) [
  | some (obj instances) ↦ elim (get name instances) [
    | some (obj target) ↦
        ok (put "instances" (obj (put name (obj (change target)) instances)) entry)
    | some _ ↦ raised type_error
    | none ↦ raised key_error
  ]
  | some _ ↦ raised type_error
  | none ↦ raised key_error
]

unfoldable pub update_part : String → (Fields → Fields) → Fields → Result Fields
update_part name change entry =
    if str_eq name "" then ok (change entry) else update_instance name change entry

unfoldable pub update_widget : Widget → (Fields → Fields) → Fields → Result Fields
update_widget w change plugins = elim (get w.item.id plugins) [
  | some (obj entry) ↦
      (update_part w.instance_name change entry >>= λ changed.
      ok (put w.item.id (obj changed) plugins))
  | some _ ↦ raised type_error
  | none ↦ raised key_error
]

-- `setdefault(id, {})` first.
unfoldable pub default_entry : String → Fields → Fields
default_entry id plugins = if has id plugins then plugins else put id (obj end) plugins

unfoldable pub put_place : String → ℕ → Fields → Fields
put_place section order target = put "order" (int (pos order)) (put "section" (str section) target)

-- `for order, widget in enumerate(destination)`
unfoldable pub place_widgets : String → ℕ → List Widget → Fields → Result Fields
place_widgets section order [] plugins = ok plugins
place_widgets section order (w ∷ ws) plugins =
    update_widget w (put_place section order) plugins >>= λ next.
    place_widgets section (suc order) ws next

unfoldable pub read_index : ℤ → Result ℕ
read_index (pos n) = ok n
read_index _ = raised (value_error "Invalid widget drop index")

unfoldable pub found_widget : String → Option Widget → Result Widget
found_widget problem none = raised (value_error problem)
found_widget problem (some w) = ok w

unfoldable pub move_to : List Widget → String → String → ℤ → Fields → Result Fields
move_to widgets key section index registry = do
  moving ← found_widget "Widget is no longer enabled" (find_widget key widgets)
  at ← read_index index
  raise_if (not (leb at (length (select (is_in section) widgets))))
      (value_error "Invalid widget drop index")
  plugins ←
      place_widgets section 0 (reorder moving at (select (is_in section) widgets))
        (plugins_of registry)
  ok (with_plugins plugins registry)

-- The argument of `configure-widget`.
unfoldable pub read_changes : Option Value → Result Fields
read_changes json = do
  v ← read_json json
  changes ← read_dict "Widget changes must contain enabled, width or section" v
  raise_if
      (is_empty_fields changes
        || not (all (λ key. is_member key ("enabled" ∷ "width" ∷ "section" ∷ [])) (keys changes)))
      (value_error "Widget changes must contain enabled, width or section")
  ok changes

unfoldable pub is_section : Value → Bool
is_section (str s) = is_member s sections
is_section _ = false

unfoldable pub is_yes : Option Value → Bool
is_yes (some (bool b)) = b
is_yes _ = false

unfoldable pub check_section : Option Value → Option Value → Result (Unit {0})
check_section none enabled = ok tt
check_section (some section) enabled =
    raise_if (not (is_section section) || not (is_yes enabled))
      (value_error "A section can only be chosen when adding a widget")

unfoldable pub check_flag : Option Value → Result (Unit {0})
check_flag none = ok tt
check_flag (some v) = raise_if (not (is_bool v)) (value_error "enabled must be a boolean")

unfoldable pub check_width : Option Value → Result (Unit {0})
check_width none = ok tt
check_width (some v) = read_width v >>= λ _. ok tt

unfoldable pub check_changes : Fields → Result (Unit {0})
check_changes changes = do
  check_section (get "section" changes) (get "enabled" changes)
  check_flag (get "enabled" changes)
  check_width (get "width" changes)

-- `if changes.get("enabled") and widget["error"]: raise ...`
unfoldable pub check_usable : Option Value → Widget → Result (Unit {0})
check_usable enabled w = elim w.item.error [
  | none ↦ ok tt
  | some problem ↦ raise_if (is_yes enabled) (value_error problem)
]

unfoldable pub set_width : Option Value → Widget → Fields → Result Fields
set_width none w plugins = ok plugins
set_width (some width) w plugins = update_widget w (put "width" width) plugins

unfoldable pub place_peers : ℕ → List Widget → Fields → Result Fields
place_peers order [] plugins = ok plugins
place_peers order (peer ∷ peers) plugins =
    update_widget peer (put "order" (int (pos order))) (default_entry peer.item.id plugins)
    >>= λ next. place_peers (suc order) peers next

-- The other widgets of a section, and the widget after them.
unfoldable pub peers_of : String → String → List Widget → List Widget
peers_of section key widgets =
    select (λ item. item.item.enabled && (not (str_eq item.key key) && is_in section item)) widgets

unfoldable pub set_section : Option Value → Widget → List Widget → Fields → Result Fields
set_section (some (str section)) w widgets plugins =
    place_peers 0 (peers_of section w.key widgets) plugins >>= λ placed.
    update_widget w (put_place section (length (peers_of section w.key widgets))) placed
set_section _ w widgets plugins = ok plugins

-- `entry["widgetEnabled"] = ...`, of the plugin itself.
unfoldable pub update_plugin : Widget → (Fields → Fields) → Fields → Result Fields
update_plugin w change plugins = update_widget (record w { instance_name = "" }) change plugins

unfoldable pub set_enabled : Option Value → Widget → Fields → Result Fields
set_enabled (some (bool b)) w plugins =
    (if str_eq w.instance_name ""
      then update_plugin w (put "widgetEnabled" (bool b)) plugins
      else update_widget w (put "enabled" (bool b)) plugins)
    >>= λ next.
        if b
        then update_plugin w
            (λ entry. put "widgetEnabled" (bool true) (put "enabled" (bool true) entry)) next
        else ok next
set_enabled _ w plugins = ok plugins

unfoldable pub configure : List Widget → String → Fields → Fields → Result Fields
configure widgets key changes registry = do
  w ← found_widget "Widget is no longer installed" (find_widget key widgets)
  check_usable (get "enabled" changes) w
  let plugins = default_entry w.item.id (plugins_of registry)
  wide ← set_width (get "width" changes) w plugins
  placed ← set_section (get "section" changes) w widgets wide
  shown ← set_enabled (get "enabled" changes) w placed
  ok (with_plugins shown registry)

module _ (disk : Packages) where
  -- `move-widget`
  unfoldable pub move_widget : Document → String → String → ℤ → Result (Option Fields)
  move_widget config key section index = do
    snapshot ← scan disk config
    raise_if (not (str_eq snapshot.error "")) (value_error snapshot.error)
    value ← preferences config
    moved ← move_to (select (λ w. w.item.enabled) snapshot.widgets) key section index value
    ok (some moved)

  -- `configure-widget`
  unfoldable pub configure_widget : Document → String → Option Value → Result (Option Fields)
  configure_widget config key json = do
    changes ← read_changes json
    check_changes changes
    snapshot ← scan disk config
    raise_if (not (str_eq snapshot.error "")) (value_error snapshot.error)
    value ← preferences config
    configured ← configure snapshot.widgets key changes value
    ok (some configured)
