-- ===== src/Plugins/Layout.antt =====
-- `apply_layout` of user-plugins.py: a layout of widgets written into the registry.
use fedora_config.Base.{
  ℕ, suc, ◌+◌, leb, pos, Bool, true, false, not, ◌&&◌, ◌||◌, some, List, [], ◌∷◌, ◌++◌, is_member,
  length,
}
use fedora_config.Base.{
  String, ◌<>◌, str_eq, if◌then◌else◌, Result, ok, raised, value_error, os_error,
}
use fedora_config.Base.Fallible.{◌>>=◌, ◌>>◌, raise_if}
use fedora_config.Json.{
  Value, bool, int, str, arr, obj, Fields, end, field, get, get_or, has, put, remove, merge, keys,
  items, size,
}
use fedora_config.Hypridle.Render.{decimal}
use fedora_config.Plugins.Ids.{valid_id}
use fedora_config.Plugins.Options.{options, read_dict}
use fedora_config.Plugins.Manifest.{Packages, Descriptor, read_package, sections, same_names}
use fedora_config.Plugins.Scan.{allows_multiple, as_fields, is_empty_fields}
use fedora_config.Json.{is_true}

-- One entry of the layout, with its place.
pub record Row : Type 0 where
  pub section : String
  pub order : ℕ
  pub item : Fields

abbrev pub Groups : Type 0
Groups = List (String × List Row)

-- `grouped.setdefault(id, []).append(row)`
unfoldable pub add_row : String → Row → Groups → Groups
add_row id row [] = (id, row ∷ []) ∷ []
add_row id row ((other, rows) ∷ groups) =
    let rest = add_row id row groups in
    if str_eq other id then (other, rows ++ (row ∷ [])) ∷ groups else (other, rows) ∷ rest

unfoldable pub entry_id : Value → Result (String × Fields)
entry_id (obj item) = elim (get "id" item) [
  | some (str id) ↦ ok (id, item)
  | _ ↦ raised (value_error "layout entries must contain an id")
]
entry_id _ = raised (value_error "layout entries must contain an id")

-- `for order, item in enumerate(entries)`
unfoldable pub group_entries : String → ℕ → List Value → Groups → Result Groups
group_entries section order [] groups = ok groups
group_entries section order (v ∷ vs) groups = entry_id v >>= λ (id, item).
    group_entries section (suc order) vs
      (add_row id (record { section = section; order = order; item = item }) groups)

unfoldable pub group_section : String → Value → Groups → Result Groups
group_section section (arr entries) groups = group_entries section 0 (items entries) groups
group_section section _ groups = raised (value_error "layout sections must be arrays")

-- `for section, entries in layout.items()`
unfoldable pub group_sections : Fields → Groups → Result Groups
group_sections end groups = ok groups
group_sections (field section entries rest) groups =
    group_section section entries groups >>= λ more. group_sections rest more

unfoldable pub is_grouped : String → Groups → Bool
is_grouped id [] = false
is_grouped id ((other, rows) ∷ groups) = str_eq other id || is_grouped id groups

-- `item` without its identity.
unfoldable pub settings_of : Fields → Fields
settings_of item = remove "__cybexInstance" (remove "id" item)

-- `name = item.get(...)`, or the next free number where a plugin has several widgets.
unfoldable pub instance_name : Bool → Fields → Fields → Value
instance_name several instances item =
    let named = get_or (str "") (get "__cybexInstance" item) in
    if not (is_true named) && several
    then str ("instance" <> decimal (size instances + 1))
    else named

abbrev pub name_problem : String
name_problem = "Invalid or duplicate widget instance name"

-- The name of an instance, empty for the plugin's only widget.
unfoldable pub read_instance_name : Bool → Fields → Value → Result String
read_instance_name multiple instances (str name) =
    if str_eq name ""
    then ok ""
    else if multiple && (valid_id name && not (has name instances))
    then ok name
    else raised (value_error name_problem)
read_instance_name multiple instances v =
    if is_true v then raised (value_error name_problem) else ok ""

-- `{"section": section, "order": order, "settings": settings}`, over what is there.
unfoldable pub place_fields : Row → Fields → Fields
place_fields row fields =
    put "settings" (obj (settings_of row.item))
      (put "order" (int (pos row.order)) (put "section" (str row.section) fields))

-- One row: the plugin's instances and its own preferences afterwards.
unfoldable pub place_row : Bool → Bool → Fields → Row → Fields × Fields → Result (Fields × Fields)
place_row several multiple previous row (instances, saved) = do
  name ← read_instance_name multiple instances (instance_name several instances row.item)
  if str_eq name ""
      then ok (instances, place_fields row saved)
      else (read_dict "Instance must be an object" (get_or (obj end) (get name previous))
          >>= λ before.
              options (obj (merge saved (place_fields row (put "enabled" (bool true) before))))
              >>= λ _. ok (
                put name (obj (place_fields row (put "enabled" (bool true) before))) instances,
                saved,
              ))

unfoldable pub place_rows :
    Bool → Bool → Fields → List Row → Fields × Fields → Result (Fields × Fields)
place_rows several multiple previous [] placed = ok placed
place_rows several multiple previous (row ∷ rows) placed =
    place_row several multiple previous row placed >>= λ next.
    place_rows several multiple previous rows next

-- `if instances or "instances" in saved: saved["instances"] = instances`
unfoldable pub with_instances : Fields × Fields → Fields
with_instances (instances, saved) =
    if not (is_empty_fields instances) || has "instances" saved
    then put "instances" (obj instances) saved
    else saved

unfoldable pub is_bar_widget : Descriptor → Bool
is_bar_widget d = d.is_omarchy && is_member "bar-widget" d.kinds

-- `saved.update(enabled=True, widgetEnabled=True)`
unfoldable pub switched_on : Fields → Fields
switched_on saved = put "widgetEnabled" (bool true) (put "enabled" (bool true) saved)

module _ (disk : Packages) where
  -- The body of the loop over `grouped`, on the registry's plugins.
  unfoldable pub apply_group : String → List Row → Fields → Result Fields
  apply_group plugin_id rows plugins = do
    candidate ← read_package disk plugin_id
    raise_if (not (is_bar_widget candidate))
        (value_error "Replacement layout entry is not an Omarchy widget")
    multiple ← allows_multiple candidate.manifest
    raise_if (not (leb (length rows) 1) && not multiple)
        (value_error "Plugin does not allow multiple instances")
    saved ←
        read_dict "Plugin preferences must be an object" (get_or (obj end) (get plugin_id plugins))
    previous ←
        read_dict "instances must be an object"
          (get_or (obj end) (get "instances" (switched_on saved)))
    placed ← place_rows (not (leb (length rows) 1)) multiple previous rows (end, switched_on saved)
    _ ← options (obj (with_instances placed))
    ok (put plugin_id (obj (with_instances placed)) plugins)

  unfoldable pub apply_groups : Groups → Fields → Result Fields
  apply_groups [] plugins = ok plugins
  apply_groups ((plugin_id, rows) ∷ groups) plugins =
      apply_group plugin_id rows plugins >>= λ next. apply_groups groups next

  -- A widget that the layout leaves out; another's preferences stay.
  unfoldable pub hide_plugin : Result Descriptor → Value → Result Value
  hide_plugin (ok candidate) (obj saved) =
      ok (obj (if is_bar_widget candidate then put "widgetEnabled" (bool false) saved else saved))
  hide_plugin (ok candidate) v = ok v
  hide_plugin (raised (value_error problem)) v = ok v
  hide_plugin (raised os_error) v = ok v
  hide_plugin (raised e) v = raised e

  -- `if plugin_id in grouped or not isinstance(saved, dict): continue`
  unfoldable pub hide_missing : Groups → String → Value → Result Value
  hide_missing groups plugin_id (obj saved) =
      if is_grouped plugin_id groups
      then ok (obj saved)
      else hide_plugin (read_package disk plugin_id) (obj saved)
  hide_missing groups plugin_id v = ok v

  -- The last loop.
  unfoldable pub hide_others : Groups → Fields → Result Fields
  hide_others groups end = ok end
  hide_others groups (field plugin_id saved rest) = hide_missing groups plugin_id saved >>= λ shown.
      hide_others groups rest >>= λ others. ok (field plugin_id shown others)

  unfoldable pub read_groups : Value → Result Groups
  read_groups (obj layout) =
      if same_names (keys layout) sections
      then group_sections layout []
      else raised (value_error "layout must contain left, center and right arrays")
  read_groups _ = raised (value_error "layout must contain left, center and right arrays")

  -- `apply_layout`, on `registry["plugins"]`.
  unfoldable pub apply_layout : Fields → Value → Result Fields
  apply_layout registry layout = read_groups layout >>= λ groups.
      apply_groups groups (as_fields (get_or (obj end) (get "plugins" registry))) >>= λ plugins.
      hide_others groups plugins >>= λ shown. ok (put "plugins" (obj shown) registry)
