-- ===== src/Displays/Store.antt =====
-- The files of display-settings.py: reading and validating the saved rules, atomic writes, and the
-- pending trial.
use fedora_config.Base.{ltb, pos, Bool, Option, none, some, String, ◌<>◌}
use fedora_config.Base.{if◌then◌else◌, Dyadic, whole, Result, ok, raised, value_error, os_error}
use fedora_config.Base.{Exec}
use fedora_config.Base.Fallible
use fedora_config.Base.Action.{◌>>◌}
use fedora_config.Json.{Value, int, float, str, obj, get, or_null, get_or}
use fedora_config.Displays.Numbers.{is_number}
use fedora_config.Displays.Keys.{matches_token}
use fedora_config.Displays.Document.{hooks, validate_document, max_bytes}
use fedora_config.Displays.Host.{Codec, Host, Outcome, refused, unsynced, replaced}
use fedora_config.Displays.Host.{Target, config_file, trial_file, state_file}

-- What stands at a path; a symlink with what lies behind it, if that can be read.
pub data File (B : Type 0) : Type 0 where
  absent : File B
  regular : B → File B
  unreadable : File B
  symlink : Option B → File B
  directory : File B

module _ (c : Codec) where
  open c use {Bytes, parse, print, size, cut, sha256, text_of}

  -- `runtime` says that XDG_RUNTIME_DIR is set.
  pub record World (h : Host c) : Type 0 where
    pub config : File Bytes
    pub trial : File Bytes
    pub state : File Bytes
    pub status : File Bytes
    pub runtime : Bool
    pub desk : h.Desk

  unfoldable pub hooked : Option Value → Result Value
  hooked none = raised (value_error "the document does not parse")
  hooked (some tree) = hooks tree

  -- `loads`
  unfoldable pub loads : Bytes → Result Value
  unfolding hooked
  loads b = hooked (parse b)

  unfoldable pub sized : Option Bytes → Result Bytes
  sized none = raised (value_error "Out of range float values are not JSON compliant")
  sized (some b) =
      if ltb max_bytes (size b)
      then raised (value_error "The display settings are too large to save.")
      else ok b

  unfoldable pub encode : Value → Result Bytes
  unfolding sized
  encode document = sized (print document)

  pub record Saved : Type 0 where
    pub document : Option Value
    pub digest : String
    pub error : String

  unfoldable pub load_document : Bytes → Result Value
  load_document b = Fallible.◌>>=◌ (loads b) validate_document

  -- The `try` around the checks of a file that was read: a `ValueError` becomes the error text.
  pub checked : String → Result Value → Result Saved
  checked d (ok v) = ok (record { document = some v; digest = d; error = "" })
  checked d (raised (value_error e)) = ok (record {
    document = none;
    digest = d;
    error = "The saved display settings are invalid and were ignored: " <> e <> ".";
  })
  checked d (raised e) = raised e

  unfoldable pub read_store : File Bytes → Result Saved
  unfolding checked load_document
  read_store absent = ok (record { document = none; digest = "absent"; error = "" })
  read_store (regular b) = checked ("sha256:" <> sha256 b) (
      if ltb max_bytes (size b)
      then raised (value_error "the file is too large")
      else load_document b)
  read_store unreadable = ok (record {
    document = none;
    digest = "unreadable";
    error = "The display settings file could not be read.";
  })
  read_store _ = ok (record {
    document = none;
    digest = "unsupported";
    error = "The display settings file is not a regular file.";
  })

  abbrev pub succeeded : Result Value → Option Value
  succeeded (ok v) = some v
  succeeded (raised e) = none

  unfoldable pub read_json_file : File Bytes → Option Value
  read_json_file (regular b) = succeeded (loads (cut max_bytes b))
  read_json_file _ = none

  -- The fields of the state file that the program reads.
  pub record Trial : Type 0 where
    pub token : Value
    pub expires : Dyadic
    pub base_digest : Value

  -- `str(value)`
  abbrev pub to_text : Value → String
  to_text (str s) = s
  to_text v = text_of v

  -- A number, once `is_number` has accepted it.
  abbrev pub number_of : Option Value → Dyadic
  number_of (some (int n)) = whole n
  number_of (some (float x)) = x
  number_of _ = whole (pos 0)

  pub trial_of : Option Value → Option Trial
  trial_of (some (obj state)) =
      if matches_token (to_text (get_or (str "") (get "token" state)))
      then (if is_number (get "expires" state) (whole (pos 0)) (whole (pos 1000000000000))
          then some (record {
            token = get_or (str "") (get "token" state);
            expires = number_of (get "expires" state);
            base_digest = or_null (get "baseDigest" state);
          })
          else none)
      else none
  trial_of _ = none

  unfoldable pub read_trial_state : File Bytes → Option Trial
  unfolding read_json_file trial_of
  read_trial_state state = trial_of (read_json_file state)

  module _ (h : Host c) where
    abbrev pub Act : Type 0 → Type 0
    Act A = Exec (World h) A

    -- The replacement of a file that may be replaced, with the way in which the disk behaves.
    abbrev pub store : Outcome → Bytes → File Bytes → Result (Unit {0}) × File Bytes
    store refused b old = (raised os_error, old)
    store unsynced b old = (raised os_error, regular b)
    store replaced b old = (ok tt, regular b)

    -- `atomic_write` on the file `old`: what it returns, and the file afterwards.
    unfoldable pub write_file :
        Outcome → String → Bytes → File Bytes → Result (Unit {0}) × File Bytes
    write_file o name b (symlink x) =
        (raised (value_error (name <> " is not a regular file; nothing was saved.")), symlink x)
    write_file o name b directory =
        (raised (value_error (name <> " is not a regular file; nothing was saved.")), directory)
    write_file o name b absent = store o b absent
    write_file o name b (regular a) = store o b (regular a)
    write_file o name b unreadable = store o b unreadable

    unfoldable pub atomic_write : Target → Bytes → Act (Unit {0})
    unfolding write_file
    atomic_write config_file b w =
        let (r, f) = write_file (h.storage config_file b w.desk) "displays.json" b w.config in
        (r, record w { config = f })
    atomic_write trial_file b w =
        let (r, f) = write_file (h.storage trial_file b w.desk) "displays-trial.json" b w.trial in
        (r, record w { trial = f })
    atomic_write state_file b w =
        let (r, f) =
          write_file (h.storage state_file b w.desk) "displays-trial-state.json" b w.state in
        (r, record w { state = f })

    -- `path.unlink()` under `except FileNotFoundError`
    unfoldable pub unlink : File Bytes → Result (Unit {0}) × File Bytes
    unlink directory = (raised os_error, directory)
    unlink _ = (ok tt, absent)

    unfoldable pub unlink_trial : Act (Unit {0})
    unlink_trial w = let (r, f) = unlink w.trial in (r, record w { trial = f })

    unfoldable pub unlink_state : Act (Unit {0})
    unlink_state w = let (r, f) = unlink w.state in (r, record w { state = f })

    unfoldable pub clear_trial : Act (Unit {0})
    unfolding unlink unlink_trial unlink_state
    clear_trial = do unlink_trial; unlink_state
