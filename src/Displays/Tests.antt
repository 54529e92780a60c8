-- ===== src/Displays/Tests.antt =====
-- Concrete runs of the display settings model, and its theorems at concrete data. The session below
-- answers every command with success and prints documents as themselves.
use fedora_config.Base.{
  ℕ, ◌+◌, ◌*◌, ◌^◌, ◌≤◌, pos, true, false, none, some, String, ◌≡◌, refl, arith, Result, ok, raised,
  value_error, overflow_error,
}
use fedora_config.Json.{
  Value, null, bool, int, str, arr, obj, nil, cons, Fields, field, end, get, get_or, or_null, has,
  put, keys, size, is_text, float, items,
}
use fedora_config.Displays.Numbers.{is_int, fits_float, float_limit, is_number}
use fedora_config.Displays.Keys.{valid_name, matches_token}
use fedora_config.Displays.Entry.{validate_entry}
use fedora_config.Displays.Document.{
  validate_document, validate_monitors, is_version_one, sort, insert_sorted, hooks,
  reject_duplicates,
}
use fedora_config.Displays.Strict.{hooks_iff}
use fedora_config.Displays.Valid.{validate_document-entry, validate_entry-Companions, Companions}
use fedora_config.Displays.Host.{Codec, Host, IsStrict, finished, replaced}
use fedora_config.Base.Action.{◌>>=◌, on_value_error, ignore_value_error}
use fedora_config.Displays.Entry.{
  check_description, check_connector, check_enabled, check_mode, check_position, check_scale,
  check_code, check_mirror, check_companions,
}
use fedora_config.Displays.Clock.{lasts_past, is_past, seconds}
use fedora_config.Displays.Lua.{lua_string, first_line}
use fedora_config.Displays.Store.{
  absent, regular, World, Trial, loads, encode, load_document, read_store, read_trial_state,
  atomic_write, clear_trial, write_file, unlink,
}
use fedora_config.Displays.Session.{
  reason, run, hyprctl, reload_hyprland, arm_watchdog, disarm_watchdog, locked, watchdog_command,
}
use fedora_config.Displays.Requests.{
  apply, apply_locked, start_trial, start_from, next_token, write_trial, show_trial, reject_trial,
  drop_stale, read_saved, confirm, confirm_trial, keep_trial, save_document, undo, undo_saying,
  or_undo, rollback, rollback_trial, disarm_value, expire, expire_trial, load_candidate, checkpoint,
  state_document, shown_answer,
}
use fedora_config.Displays.Serve.{
  main, answer, crash, keep_monitors, keep_keys, monitor_list, monitors as list_monitors,
  read_runtime, snapshot,
}
use fedora_config.Displays.Frame.{config_frame}
use fedora_config.Displays.Confirm.{Written, confirm-Written}
use fedora_config.Displays.Stale.{IsStale, IsStale-frame, apply_busy}
use fedora_config.Displays.Clock.{is_past}
use fedora_config.Displays.Shown.{Started, apply-Started}
use fedora_config.Displays.Calls.{Units}
use fedora_config.Displays.Overflow.{move_to, main_overflow}
use fedora_config.Base.{Exn, ltb→lt, str_eq, ◌↔◌}

abbrev strings : Codec
strings = record {
  Bytes = Value;
  parse = λ v. some v;
  parse_text =
      λ s. some (arr (cons (obj (field "id" (int (pos 0)) (field "serial" null end))) nil));
  print = λ v. some v;
  size = λ v. 1;
  cut = λ n v. v;
  sha256 = λ v. "digest";
  text_of = λ v. "";
}

abbrev desk : Host strings
desk = record {
  Desk = ℕ;
  now = λ d. d * 1024;
  token_hex = λ d. ("0123456789abcdef", d);
  run = λ command d. (finished 0 "ok" "", d + 1);
  storage = λ target b d. replaced;
  environ = λ name. none;
  python = "python3";
  script = "display-settings.py";
  config_path = "/home/user/.config/cybexos/displays.json";
  trial_path = "/run/user/1000/cybexos/displays-trial.json";
}

abbrev laptop_off : Fields
laptop_off = field "enabled" (bool false) (field "disabledWith" (arr (cons (str "DP-1") nil)) end)

abbrev monitors : Fields
monitors = field "eDP-1" (obj laptop_off) (field "DP-1" (obj end) end)

abbrev document : Fields
document = field "v" (int (pos 1)) (field "monitors" (obj monitors) end)

-- What the tests compute with.
everything : ℕ
unfolding validate_document validate_entry sort insert_sorted get get_or or_null keys size items
    is_version_one validate_monitors check_description check_connector check_enabled check_mode
    check_position check_scale check_code check_mirror check_companions is_int is_number is_text
    valid_name matches_token hooks fits_float lasts_past is_past seconds loads encode load_document
    read_store read_trial_state load_candidate reason lua_string first_line apply apply_locked
    start_trial start_from next_token write_trial show_trial reject_trial drop_stale read_saved
    confirm confirm_trial keep_trial save_document undo undo_saying or_undo rollback rollback_trial
    disarm_value expire expire_trial run hyprctl reload_hyprland arm_watchdog disarm_watchdog locked
    atomic_write clear_trial write_file unlink main answer watchdog_command ◌>>=◌ on_value_error
    ignore_value_error reject_duplicates has put keep_monitors keep_keys monitor_list list_monitors
    read_runtime snapshot
everything = 0

accepts_newline : (valid_name "DP-1\n" ≡ true) × (valid_name "DP-1\n\n" ≡ false)
unfolding everything
accepts_newline = (refl, refl)

document_ok : validate_document (obj document) ≡ ok (obj document)
unfolding everything
document_ok = refl

laptop_ok : validate_entry "eDP-1" (obj laptop_off) ≡ ok tt
unfolding everything
laptop_ok = refl

abbrev idle : World strings desk
idle = record {
  config = absent;
  trial = absent;
  state = absent;
  status = absent;
  runtime = true;
  desk = 100;
}

listed_fields : Result Value → Fields
listed_fields (ok (obj fs)) = fs
listed_fields _ = end

abbrev apply_request : Fields
apply_request = field "action" (str "apply") (field "document" (obj document) end)

abbrev token : String
token = "0123456789abcdef"

abbrev pending : World strings desk
pending = record idle {
  trial = regular (obj document);
  state = regular (state_document strings desk token 102400 "absent");
  desk = 102;
}

apply_runs :
    apply strings desk apply_request idle ≡ (ok (shown_answer strings desk token 102400), pending)
unfolding everything
apply_runs = refl

shows_trial :
    get "trial" (listed_fields (snapshot strings desk pending).0)
    ≡ some (
        obj (
          field "checkpoint"
            (str token)
            (field "expires" (float (record { mantissa = pos 115; exponent = 0 })) end)))
unfolding everything listed_fields
shows_trial = refl

abbrev keep_request : Fields
keep_request = field "checkpoint" (str token) end

confirm_runs : confirm strings desk keep_request pending ≡ (
  ok (obj (field "message" (str "Display settings saved.") end)),
  record idle { config = regular (obj document); desk = 104 },
)
unfolding everything
confirm_runs = refl

abbrev pending_trial : Trial strings
pending_trial = record {
  token = str token;
  expires = record { mantissa = pos 115; exponent = 0 };
  base_digest = str "absent";
}

hooks_iff_example :
    (hooks (obj document) ≡ ok (obj document))
    ↔ ((obj document ≡ obj document) × IsStrict (obj document))
hooks_iff_example = hooks_iff (obj document) (obj document)

validate_document-entry_example :
    (size monitors ≤ 64)
    × ((k : String) (v : Value) → get k monitors ≡ some v → validate_entry k v ≡ ok tt)
unfolding everything
validate_document-entry_example =
    validate_document-entry document monitors (obj document) document_ok refl

validate_entry-Companions_example : Companions "eDP-1" (get "disabledWith" laptop_off)
unfolding get
validate_entry-Companions_example = validate_entry-Companions "eDP-1" laptop_off laptop_ok refl

config_frame_example :
    ((request : Fields) → (apply strings desk request pending).1.config ≡ absent)
    × ((request : Fields) → (rollback strings desk request pending).1.config ≡ absent)
    × ((k : String) → (expire strings desk k pending).1.config ≡ absent)
config_frame_example = config_frame strings desk pending

confirm-Written_example :
    Written strings desk absent
      (regular (obj document))
      (confirm strings desk keep_request pending).1
confirm-Written_example = confirm-Written strings desk keep_request pending

apply_busy_example :
    ((e : Exn) × (apply strings desk apply_request pending ≡ (raised e, pending)))
    × ((d : Value) (b : Value)
        → validate_document (or_null (get "document" apply_request)) ≡ ok d
        → encode strings d ≡ ok b
        → pending.runtime ≡ true
        → apply strings desk apply_request pending
          ≡ (raised (value_error "Keep or revert the current display change first."), pending))
unfolding everything
apply_busy_example =
    apply_busy strings desk pending apply_request pending_trial refl (ltb→lt _ _ refl)

IsStale-frame_example :
    ((request : Fields)
      → IsStale strings desk (checkpoint strings desk request) (read_trial_state strings idle.state)
      → (confirm strings desk request idle).1 ≡ idle)
    × ((k : String)
        → IsStale strings desk k (read_trial_state strings idle.state)
        → (expire strings desk k idle).1 ≡ idle)
    × ((request : Fields)
        → IsStale strings desk
            (checkpoint strings desk request)
            (read_trial_state strings idle.state)
        → str_eq (checkpoint strings desk request) "" ≡ false
        → (rollback strings desk request idle).1 ≡ idle)
IsStale-frame_example = IsStale-frame strings desk idle

abbrev kept : World strings desk
kept = record idle { config = regular (obj document); desk = 104 }

abbrev AnyTimer : String → ℕ → Type 0
AnyTimer _ _ = Unit

any_units : Units strings desk AnyTimer
any_units = record { arms = λ a output error d d' e. tt; stays = λ a arguments d b. tt }

apply-Started_example :
    Started strings desk AnyTimer any_units apply_request idle pending
      (shown_answer strings desk token 102400)
apply-Started_example =
    apply-Started strings desk AnyTimer any_units apply_request idle pending
      (shown_answer strings desk token 102400) apply_runs

main_overflow_example :
    main strings desk (move_to "DP-1" (pos (2 ^ 1024))) idle ≡ (crash overflow_error, idle)
unfolding everything float_limit
main_overflow_example =
    main_overflow strings desk idle (move_to "DP-1" (pos (2 ^ 1024))) "DP-1" (pos (2 ^ 1024)) refl
      (omega arith) (omega arith) refl
