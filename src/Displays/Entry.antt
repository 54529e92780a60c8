-- ===== src/Displays/Entry.antt =====
-- `validate_entry` of display-settings.py, one helper for each field that it reads.
use fedora_config.Base.{ℤ, pos, negsuc, Bool, true, false, not, ◌&&◌, ◌||◌, leb}
use fedora_config.Base.{Option, none, some, if◌then◌else◌, whole}
use fedora_config.Base.{String, str_eq, ◌<>◌, codes, length, any, utf8_length}
use fedora_config.Base.{Result, ok, raised, value_error}
use fedora_config.Base.Fallible.{◌>>◌, and_then}
use fedora_config.Json.{Value, null, bool, str, arr, obj, Fields, get, items}
use fedora_config.Displays.Numbers.{is_int, is_number}
use fedora_config.Displays.Keys.{valid_name, matches_connector, has_control}

-- `raise ValueError(f'{key}: ...')`
abbrev pub entry_error {ℓ} : {A : Type ℓ} → String → String → Result A
entry_error key problem = raised (value_error (key <> ": " <> problem))

unfoldable pub check_description : String → Option Value → Result (Unit {0})
check_description key none = ok tt
check_description key (some null) = ok tt
check_description key (some (str s)) =
    if leb (utf8_length (codes s)) 256 && not (has_control (codes s))
    then ok tt
    else entry_error key "invalid description"
check_description key (some _) = entry_error key "invalid description"

unfoldable pub check_connector : String → Option Value → Result (Unit {0})
check_connector key none = ok tt
check_connector key (some null) = ok tt
check_connector key (some (str s)) =
    if matches_connector s then ok tt else entry_error key "invalid connector"
check_connector key (some _) = entry_error key "invalid connector"

-- A companion that is no identifier, or the display itself.
unfoldable pub bad_companion : String → Value → Bool
bad_companion key (str s) = not (valid_name s) || str_eq s key
bad_companion key _ = true

unfoldable pub check_companions : String → Option Value → Result (Unit {0})
unfolding bad_companion
check_companions key (some (arr companions)) =
    let n = length (items companions) in
    if leb 1 n && leb n 16
    then (if any (bad_companion key) (items companions)
        then entry_error key "invalid disabledWith identifier"
        else ok tt)
    else entry_error key "a disabled display needs 1-16 disabledWith identifiers"
check_companions key _ = entry_error key "a disabled display needs 1-16 disabledWith identifiers"

unfoldable pub check_enabled : String → Option Value → Option Value → Result (Unit {0})
unfolding check_companions
check_enabled key none companions = ok tt
check_enabled key (some (bool true)) companions = ok tt
check_enabled key (some (bool false)) companions = check_companions key companions
check_enabled key (some _) companions = entry_error key "enabled must be true or false"

unfoldable pub mode_fits : Fields → Result Bool
mode_fits mode = and_then (is_int (get "width" mode) (pos 1) (pos 16384)) (
    and_then (is_int (get "height" mode) (pos 1) (pos 16384))
      (ok (is_number (get "refresh" mode) (whole (pos 1)) (whole (pos 1000)))))

unfoldable pub position_fits : Fields → Result Bool
position_fits position =
    and_then (is_int (get "x" position) (negsuc 65535) (pos 65536))
      (is_int (get "y" position) (negsuc 65535) (pos 65536))

-- `if not test: raise ...`
abbrev pub demand : Result Bool → String → String → Result (Unit {0})
demand (ok true) key problem = ok tt
demand (ok false) key problem = entry_error key problem
demand (raised e) key problem = raised e

unfoldable pub check_mode : String → Option Value → Result (Unit {0})
check_mode key none = ok tt
check_mode key (some null) = ok tt
check_mode key (some (str s)) =
    if str_eq s "preferred" then ok tt else entry_error key "invalid mode"
check_mode key (some (obj mode)) = demand (mode_fits mode) key "invalid mode"
check_mode key (some _) = entry_error key "invalid mode"

unfoldable pub check_position : String → Option Value → Result (Unit {0})
check_position key none = ok tt
check_position key (some null) = ok tt
check_position key (some (str s)) =
    if str_eq s "auto" then ok tt else entry_error key "invalid position"
check_position key (some (obj position)) = demand (position_fits position) key "invalid position"
check_position key (some _) = entry_error key "invalid position"

unfoldable pub check_scale : String → Option Value → Result (Unit {0})
check_scale key none = ok tt
check_scale key (some null) = ok tt
check_scale key (some (str s)) = if str_eq s "auto" then ok tt else entry_error key "invalid scale"
check_scale key (some v) =
    if is_number (some v) (record { mantissa = pos 1; exponent = 2 }) (whole (pos 10))
    then ok tt
    else entry_error key "invalid scale"

-- `if name in entry and not is_int(entry[name], 0, high): raise ...`
unfoldable pub check_code : String → Option Value → ℤ → String → Result (Unit {0})
check_code key none high problem = ok tt
check_code key (some v) high problem = demand (is_int (some v) (pos 0) high) key problem

unfoldable pub check_mirror : String → Option Value → Result (Unit {0})
check_mirror key none = ok tt
check_mirror key (some null) = ok tt
check_mirror key (some (str s)) =
    if (not (str_eq s "") && not (valid_name s)) || str_eq s key
    then entry_error key "invalid mirror"
    else ok tt
check_mirror key (some _) = entry_error key "invalid mirror"

unfoldable pub validate_fields : String → Fields → Result (Unit {0})
validate_fields key entry = do
  check_description key (get "description" entry)
  check_connector key (get "connector" entry)
  check_enabled key (get "enabled" entry) (get "disabledWith" entry)
  check_mode key (get "mode" entry)
  check_position key (get "position" entry)
  check_scale key (get "scale" entry)
  check_code key (get "transform" entry) (pos 7) "invalid transform"
  check_code key (get "vrr" entry) (pos 3) "invalid vrr"
  check_mirror key (get "mirror" entry)

-- The error quotes the key by `repr`, which is left out of the text here.
unfoldable pub validate_entry : String → Value → Result (Unit {0})
unfolding validate_fields
validate_entry key (obj entry) =
    if valid_name key
    then validate_fields key entry
    else raised (value_error ("invalid display identifier " <> key))
validate_entry key _ =
    if valid_name key
    then entry_error key "the entry is not an object"
    else raised (value_error ("invalid display identifier " <> key))
