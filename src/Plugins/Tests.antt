-- ===== src/Plugins/Tests.antt =====
-- Concrete runs of the plugin commands, and the theorems at concrete data: two Omarchy packages,
-- the weather widget and its clone.
use fedora_config.Base.{
  ℕ, ◌+◌, ◌≤◌, ◌<◌, false, ◌≡◌, ◌⊎◌, refl, arith, Option, none, some, List, [], ◌∷◌, length, All,
}
use fedora_config.Base.{String, str_eq, Result, ok}
use fedora_config.Base.Fallible
use fedora_config.Base.Fallible.{raise_if}
use fedora_config.Json.{Value, bool, str, arr, obj, nil, cons, Fields, end, field, get}
use fedora_config.Plugins.Options.{Document, options, preferences}
use fedora_config.Plugins.Manifest.{Descriptor, read_package}
use fedora_config.Plugins.Sound.{IsSound, read_package-IsSound}
use fedora_config.Plugins.Scan.{Item, Widget, Scan, fresh_item, failed_scan, scan}
use fedora_config.Plugins.Drawn.{IsDrawn, scan-AllDrawn}
use fedora_config.Plugins.Layout.{Groups, read_groups, apply_layout}
use fedora_config.Plugins.Edit.{move, Board, has_id, new_entry}
use fedora_config.Plugins.Moved.{IsMoved, edit_board-IsMoved}
use fedora_config.Plugins.Write.{unsynced, IsWritten, run_locked, run_locked-IsWritten}
use fedora_config.Plugins.Commands.{Given, enable_plugin, plugins_of, change_plugin, configure_bar}
use fedora_config.Plugins.Alone.{IsAlone, enable-IsAlone}
use fedora_config.Plugins.Guarded.{configure_bar-keeps}
use fedora_config.Plugins.Clone.{clone_registry, remove_registry}
use fedora_config.Plugins.Restored.{clone-remove}
use fedora_config.Plugins.Widgets.{index_of, remove_widget, reorder}
use fedora_config.Plugins.Reordered.{reorder-keeps}
use fedora_config.Plugins.Example.{
  disk, everything, value_or, no_options, no_descriptor, saved_weather, bar, registry, config,
}

abbrev weather : Descriptor
unfolding everything
weather = value_or no_descriptor (read_package disk "weather")

read_package-IsSound_example : IsSound disk "weather" weather
unfolding everything
read_package-IsSound_example = read_package-IsSound disk "weather" weather refl

abbrev seen : Scan disk
seen = value_or (failed_scan disk "") (scan disk config)

scan_count : length seen.widgets ≡ 2
unfolding everything
scan_count = refl

scan-AllDrawn_example : All (IsDrawn disk) seen.widgets
unfolding everything
scan-AllDrawn_example = scan-AllDrawn disk config seen refl

abbrev layout : Value
layout = obj (
    field "left" (arr (cons (obj (field "id" (str "weather") (field "unit" (str "C") end))) nil))
      (field "center" (arr nil) (field "right" (arr nil) end)))

abbrev groups : Groups
groups = value_or [] (read_groups disk layout)

abbrev laid_out : Fields
laid_out = value_or end (apply_layout disk registry layout)

abbrev board : Board
board = record {
  left = field "id" (str "weather") end ∷ [];
  center = field "id" (str "clock") end ∷ [];
  right = [];
}

abbrev to_right : Fields
to_right = field "section" (str "right") end

abbrev item_of : String → Item
item_of id = fresh_item id

abbrev moved : Board
moved = record {
  left = [];
  center = field "id" (str "clock") end ∷ [];
  right = field "id" (str "weather") end ∷ [];
}

edit_board-IsMoved_example :
    IsMoved (has_id (str "weather")) move (new_entry (item_of "weather")) board moved
unfolding everything
edit_board-IsMoved_example =
    edit_board-IsMoved (has_id (str "weather")) move to_right (item_of "weather") board moved
      (λ e. cc e) refl

abbrev no_given : Given
no_given = record { section = none; width = none; order = none }

abbrev enable_command : Document → Result (Option Fields)
enable_command file = Fallible.◌>>=◌ (preferences file) (λ value.
    Fallible.◌>>=◌ (change_plugin disk "weather" (enable_plugin no_given) value)
      (λ changed. ok (some changed)))

abbrev IsRun : Result (Unit {0}) × Document → Type 0
IsRun p =
    (p.1 ≡ config × (p.0 ≡ ok tt → enable_command config ≡ ok none))
    ⊎ ((value : Fields) × (false ≡ false)
        × (enable_command config ≡ ok (some value))
        × IsWritten (λ v. 300) value config p)

run_locked-IsWritten_example : IsRun (run_locked (λ v. 300) false unsynced enable_command config)
run_locked-IsWritten_example = run_locked-IsWritten (λ v. 300) false unsynced enable_command config

abbrev enabled_weather : Fields
enabled_weather = value_or end (change_plugin disk "weather" (enable_plugin no_given) registry)

enable-IsAlone_example :
    IsAlone disk "weather" weather (plugins_of registry) (plugins_of enabled_weather)
unfolding everything
enable-IsAlone_example =
    enable-IsAlone disk "weather" no_given weather registry enabled_weather refl refl

clone_disabled :
    get "weather-2" (plugins_of enabled_weather) ≡ some (obj (field "enabled" (bool false) end))
unfolding everything
clone_disabled = refl

abbrev bar_patch : Fields
bar_patch = field "id" (str "other") (field "position" (str "bottom") (field "layout" layout end))

abbrev configured : Fields
configured = value_or end (configure_bar disk (some (obj bar_patch)) registry)

configure_bar-keeps_example :
    ((bar' : Fields) × (get "bar" configured ≡ some (obj bar')) × (get "id" bar' ≡ get "id" bar))
    × ((key : String)
        → str_eq "plugins" key ≡ false
        → str_eq "bar" key ≡ false
        → get key configured ≡ get key registry)
unfolding everything
configure_bar-keeps_example =
    configure_bar-keeps disk (some (obj bar_patch)) registry configured bar refl refl

abbrev cloned : Fields
cloned = value_or end (clone_registry "weather" "weather-3" registry)

abbrev uncloned : Fields
uncloned = value_or end (remove_registry "weather-3" cloned)

clone-remove_example :
    (kept : Fields) × (get "weather" (plugins_of uncloned) ≡ some (obj kept))
    × (options (obj kept) ≡ ok (value_or no_options (options (obj saved_weather))))
    × ((key : String) → str_eq "enabled" key ≡ false → get key kept ≡ get key saved_weather)
unfolding everything
clone-remove_example =
    clone-remove "weather" "weather-3" registry saved_weather refl refl
      (value_or no_options (options (obj saved_weather))) cloned uncloned refl refl refl

abbrev widget : String → Widget
widget key = record { item = item_of key; key = key; instance_name = "" }

abbrev row : List Widget
row = widget "a" ∷ widget "b" ∷ widget "c" ∷ []

reordered : index_of "a" (reorder (widget "a") 3 row) ≡ some 2
unfolding everything
reordered = refl

reorder-keeps_example :
    ((index_of "a" row ≡ none → index_of "a" (reorder (widget "a") 3 row) ≡ some 3)
      × ((from : ℕ)
          → index_of "a" row ≡ some from
          → 3 ≤ from
          → index_of "a" (reorder (widget "a") 3 row) ≡ some 3)
      × ((from : ℕ)
          → index_of "a" row ≡ some from
          → from < 3
          → (n : ℕ) × (index_of "a" (reorder (widget "a") 3 row) ≡ some n) × (n + 1 ≡ 3)))
    × (remove_widget "a" (reorder (widget "a") 3 row) ≡ remove_widget "a" row)
unfolding everything
reorder-keeps_example = reorder-keeps (widget "a") 3 row refl (omega (arith))
