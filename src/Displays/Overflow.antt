-- ===== src/Displays/Overflow.antt =====
-- What display-settings.py answers to a request with an integer beyond the doubles.
use fedora_config.Base.{
  ℤ, pos, pos_part, neg_part, ◌+◌, ◌≤◌, ◌≡◌, refl, true, String, ltb-false_of_le, ok,
  overflow_error, raised, eq_refl, some,
}
use fedora_config.Base.Action.{◌>>=◌}
use fedora_config.Json.{Value, str, int, obj, field, end, get, get_or, or_null, keys, size}
use fedora_config.Displays.Numbers.{float_limit}
use fedora_config.Displays.Valid.{is_int_overflow_iff}
use fedora_config.Displays.Keys.{valid_name}
use fedora_config.Displays.Entry.{
  validate_entry, validate_fields, check_description, check_connector, check_enabled, check_mode,
  check_position, position_fits,
}
use fedora_config.Displays.Document.{
  max_bytes, validate_document, validate_monitors, validate_entries, is_version_one, sort,
  insert_sorted,
}
use fedora_config.Displays.Host.{Codec, Host}
use fedora_config.Displays.Store.{World, loads}
use fedora_config.Displays.Requests.{apply}
use fedora_config.Displays.Serve.{main, answer, crash}

-- An `apply` request that moves one display to x = n.
abbrev pub move_to : String → ℤ → Value
move_to key n = obj (
    field "action" (str "apply") (
      field "document"
        (obj (
          field "v" (int (pos 1)) (
            field "monitors"
              (obj (field key (obj (field "position" (obj (field "x" (int n) end)) end)) end))
              end)))
        end))

position_overflow :
    (n : ℤ)
    → float_limit ≤ pos_part n + neg_part n
    → position_fits (field "x" (int n) end) ≡ raised overflow_error
unfolding position_fits get
position_overflow n l = rw ((is_int_overflow_iff (some (int n)) _ _).1 (n, refl, l))

entry_overflow :
    (key : String) (n : ℤ)
    → valid_name key ≡ true
    → float_limit ≤ pos_part n + neg_part n
    → validate_entry key (obj (field "position" (obj (field "x" (int n) end)) end))
      ≡ raised overflow_error
unfolding validate_entry validate_fields check_description check_connector check_enabled check_mode
    check_position get
entry_overflow key n named l = rw (named, position_overflow n l)

document_overflow :
    (key : String) (n : ℤ)
    → valid_name key ≡ true
    → float_limit ≤ pos_part n + neg_part n
    → validate_document (
        obj (
          field "v" (int (pos 1)) (
            field "monitors"
              (obj (field key (obj (field "position" (obj (field "x" (int n) end)) end)) end))
              end)))
      ≡ raised overflow_error
unfolding validate_document validate_monitors validate_entries is_version_one sort insert_sorted get
    get_or or_null keys size
document_overflow key n named l = simp (eq_refl, entry_overflow key n named l)

-- A well-formed `apply` request that moves a display, any display, to an integer too large for a
-- double ends the helper with an uncaught OverflowError: it prints no answer, and changes nothing.
pub main_overflow :
    (c : Codec) (h : Host c) (w : World c h) (raw : c.Bytes) (key : String) (n : ℤ)
    → valid_name key ≡ true
    → float_limit ≤ pos_part n + neg_part n
    → c.size raw ≤ max_bytes
    → loads c raw ≡ ok (move_to key n)
    → main c h raw w ≡ (crash overflow_error, w)
unfolding main apply ◌>>=◌ answer get or_null
main_overflow c h w raw key n named l short loaded =
    rw (ltb-false_of_le max_bytes (c.size raw) short, loaded, document_overflow key n named l)
