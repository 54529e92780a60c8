-- ===== src/Plugins/Example.antt =====
-- Data for the tests of the plugin commands: two Omarchy packages, the weather widget and its
-- clone, and a registry that enables both.
use fedora_config.Base.{ℕ, pos, true, false, some, [], ◌∷◌, is_member, insert_by, sort_by}
use fedora_config.Base.{
  String, ◌<>◌, str_eq, Result, ok, raised, starts_with, strip, if◌then◌else◌, gets, lift,
}
use fedora_config.Base.Fallible.{raise_if}
use fedora_config.Base.Action
use fedora_config.Json.{
  null, bool, int, str, arr, obj, nil, cons, Fields, end, field, get, get_or, or_null, has, put,
  remove, merge, keys, items, size, is_text,
}
use fedora_config.Displays.Document.{sort, insert_sorted}
use fedora_config.Plugins.Ids.{matches_package_id, has_dots, valid_id, valid_id_value, matches_id}
use fedora_config.Plugins.Options.{
  Options, Document, contents, missing, read_enabled, read_width, read_order, read_dict, options_of,
  options, is_finite, finite_items, finite_fields, read_object, is_one, is_dict, check_preferences,
  preferences,
}
use fedora_config.Plugins.Manifest.{
  Packages, Descriptor, entry_of, read_section, is_bool, read_kind, read_kind_list, read_kinds,
  entry_names, same_names, read_entries, is_no_bool, omarchy_format, native_format, read_name,
  check_clone, public_fields, read_source, read_sources, public_manifest, read_format, describe,
  read_package,
}
use fedora_config.Plugins.Scan.{
  as_fields, allows_multiple, read_flag, is_empty_fields, check_multiple, fresh_item, with_options,
  with_package, with_data_path, widget_of, instance_widget, instance_widgets, bar_widgets,
  update_item, fill_item, failed_item, settle_item, scan_plugin, scan_plugins, with_installed,
  is_before, failed_scan, read_bar, scan_registry, scan_from, scan_preferences, scan,
}
use fedora_config.Json.{is_true}
use fedora_config.Plugins.Layout.{
  add_row, entry_id, group_entries, group_section, group_sections, is_grouped, settings_of,
  instance_name, read_instance_name, place_fields, place_row, place_rows, with_instances,
  is_bar_widget, switched_on, apply_group, apply_groups, hide_plugin, hide_missing, hide_others,
  read_groups, apply_layout,
}
use fedora_config.Plugins.Edit.{
  entries_in, with_entries, has_id, is_index, is_asked, find_entry, found_or, find_in, entry_at,
  remove_at, insert_at, popped, read_target, read_index, place_of, target_of, insert_on, place_on,
  home_of, new_entry, edit_found, read_selector, read_source_index, selected, edit_board,
}
use fedora_config.Plugins.Write.{run_locked, write_preferences, replace_file}
use fedora_config.Plugins.Commands.{
  plugins_of, with_plugins, with_enabled, put_given, as_int, as_str, checked_entry, change_entry,
  is_relative, disable_other, disable_relatives, change_others, change_plugin, cloned_from,
  same_text, read_json, configure_bar, apply_given_layout, is_position,
}
use fedora_config.Plugins.Clone.{
  is_bar, set_bar, restore_of, clone_entry, disable_original, clone_registry, restore_original,
  restore_plugins, bar_after, disable_removed, remove_registry,
}
use fedora_config.Plugins.Widgets.{index_of, remove_widget, shifted, reorder}

abbrev pub weather_manifest : Fields
weather_manifest = field "id" (str "weather") (
    field "schemaVersion" (int (pos 1)) (
      field "kinds" (arr (cons (str "bar-widget") nil)) (
        field "entryPoints" (obj (field "barWidget" (str "Weather.qml") end))
          (field "name" (str "Weather") (field "version" (str "1.0") end)))))

abbrev pub clone_manifest : Fields
clone_manifest =
    put "omarchy" (obj (field "clonedFrom" (str "weather") end))
      (put "id" (str "weather-2") weather_manifest)

abbrev pub manifests : String → Document
manifests id =
    if str_eq id "weather"
    then contents 200 (some (obj weather_manifest))
    else if str_eq id "weather-2"
    then contents 240 (some (obj clone_manifest))
    else missing

abbrev pub disk : Packages
disk = record {
  manifest = manifests;
  path = λ id. "/plugins/" <> id;
  is_absolute = λ entry. starts_with entry "/";
  parts = λ entry. entry ∷ [];
  suffix = λ entry. ".qml";
  is_inside = λ id entry. true;
  is_file = λ id entry. true;
  uri = λ id entry. "file:///plugins/" <> id <> "/" <> entry;
  is_dir = λ id. false;
  installed = ok ("weather" ∷ "weather-2" ∷ []);
  data_path = λ id. "/data/" <> id;
}

-- What the tests compute with.
unfoldable pub everything : ℕ
unfolding get get_or or_null has put remove merge keys items size is_text sort insert_sorted
    matches_package_id has_dots valid_id valid_id_value matches_id read_enabled read_width
    read_order read_dict options_of options is_finite finite_items finite_fields read_object is_one
    is_dict check_preferences preferences entry_of read_section is_bool read_kind read_kind_list
    read_kinds entry_names same_names read_entries is_no_bool omarchy_format native_format read_name
    check_clone public_fields read_source read_sources public_manifest read_format describe
    read_package as_fields is_true allows_multiple read_flag is_empty_fields check_multiple
    fresh_item with_options with_package with_data_path widget_of instance_widget instance_widgets
    bar_widgets update_item fill_item failed_item settle_item scan_plugin scan_plugins
    with_installed is_before failed_scan read_bar scan_registry scan_from scan_preferences scan
    add_row entry_id group_entries group_section group_sections is_grouped settings_of instance_name
    read_instance_name place_fields place_row place_rows with_instances is_bar_widget switched_on
    apply_group apply_groups hide_plugin hide_missing hide_others read_groups apply_layout
    entries_in with_entries has_id is_index is_asked find_entry found_or find_in entry_at remove_at
    insert_at popped read_target read_index place_of target_of insert_on place_on home_of new_entry
    edit_found read_selector read_source_index selected edit_board run_locked write_preferences
    replace_file plugins_of with_plugins with_enabled put_given as_int as_str checked_entry
    change_entry is_relative disable_other disable_relatives change_others change_plugin cloned_from
    same_text read_json configure_bar apply_given_layout is_position is_bar set_bar restore_of
    clone_entry disable_original clone_registry restore_original restore_plugins bar_after
    disable_removed remove_registry index_of remove_widget shifted reorder sort_by insert_by
    is_member strip Action.◌>>=◌ raise_if gets lift
everything = 0

abbrev pub value_or {ℓ} : {A : Type ℓ} → A → Result A → A
value_or a (ok x) = x
value_or a (raised e) = a

abbrev pub no_options : Options
no_options = record { enabled = false; width = 0; order = pos 0; settings = end }

abbrev pub no_descriptor : Descriptor
no_descriptor = record {
  id = "";
  name = "";
  version = "";
  sources = end;
  kinds = [];
  manifest = end;
  keep_loaded = null;
  package_path = "";
  section = "";
  is_omarchy = false;
  defaults = end;
}

abbrev pub saved_weather : Fields
saved_weather = field "enabled" (bool true) (field "order" (int (pos 2)) end)

abbrev pub saved_plugins : Fields
saved_plugins =
    field "weather" (obj saved_weather)
      (field "weather-2" (obj (field "enabled" (bool true) end)) (field "other" (obj end) end))

abbrev pub bar : Fields
bar = field "id" (str "weather") (field "position" (str "top") end)

abbrev pub registry : Fields
registry = field "v" (int (pos 1)) (field "plugins" (obj saved_plugins) (field "bar" (obj bar) end))

abbrev pub config : Document
config = contents 300 (some (obj registry))
