-- ===== src/Displays/Requests.antt =====
-- The requests of display-settings.py that change the session: apply, confirm, rollback, and the
-- timer's expire. Each runs under TrialLock, so that two of them do not overlap.
use fedora_config.Base.{ℕ, ◌+◌, ◌*◌, Bool, true, false, not, ◌&&◌}
use fedora_config.Base.{Option, none, some, [], ◌∷◌, String, ◌<>◌, str_eq}
use fedora_config.Base.{if◌then◌else◌, Result, ok, raised, value_error, type_error, os_error}
use fedora_config.Base.{pure, raise, lift, gets}
use fedora_config.Base.Action.{◌>>=◌, ◌>>◌, refuse_if, on_value_error, ignore_value_error}
use fedora_config.Json.{Value, null, float, str, obj, Fields, end, field, get, or_null, get_or}
use fedora_config.Json.{is_text}
use fedora_config.Displays.Keys.{matches_token}
use fedora_config.Displays.Document.{validate_document}
use fedora_config.Displays.Clock.{seconds, lasts_past, is_past}
use fedora_config.Displays.Clock.{trial_seconds, watchdog_seconds, confirm_grace_seconds}
use fedora_config.Displays.Host.{Codec, Host, config_file, trial_file, state_file}
use fedora_config.Displays.Lua.{lua_string}
use fedora_config.Displays.Store.{File, regular, symlink, load_document, encode, Saved, read_store}
use fedora_config.Displays.Store.{Trial, read_trial_state, to_text, atomic_write, clear_trial}
use fedora_config.Displays.Session.{Do, reason, hyprctl}
use fedora_config.Displays.Session.{refused, reload_hyprland, arm_watchdog, disarm_watchdog, locked}

abbrev pub unreadable_candidate : String
unreadable_candidate = "The pending display change was unreadable and has been undone."

abbrev pub changed_elsewhere : String
changed_elsewhere = "The saved display settings changed elsewhere; the new arrangement was undone."

abbrev pub too_late : String
too_late = "The display change expired, and the previous settings were restored."

module _ (c : Codec) (h : Host c) where
  -- The JSON of the state file that `apply` writes.
  abbrev pub state_document : String → ℕ → String → Value
  state_document token now digest = obj (
      field "token" (str token) (
        field "expires" (float (seconds (now + trial_seconds * 1024)))
          (field "baseDigest" (str digest) end)))

  abbrev pub is_pending : Option (Trial c) → ℕ → Bool
  is_pending none now = false
  is_pending (some t) now = lasts_past t.expires watchdog_seconds now

  -- `if state: clear_trial()`
  unfoldable pub drop_stale : Option (Trial c) → Do c h (Unit {0})
  drop_stale none = pure tt
  drop_stale (some t) = clear_trial c h

  -- `request.get('baseDigest') not in (None, store['digest'])`
  abbrev pub other_digest : Value → String → Bool
  other_digest null digest = false
  other_digest (str d) digest = not (str_eq d digest)
  other_digest v digest = true

  -- `read_store()`
  unfoldable pub read_saved : Do c h (Saved c)
  read_saved w = (read_store c w.config, w)

  unfoldable pub next_token : Do c h String
  next_token w = let (token, desk) = h.token_hex w.desk in (ok token, record w { desk = desk })

  -- Hyprland refused the candidate: give up the trial, and go back to the files on disk.
  unfoldable pub reject_trial : String → String → Do c h (Unit {0})
  reject_trial token why = do
    disarm_watchdog c h token
    clear_trial c h
    ignore_value_error (reload_hyprland c h)
    raise (value_error ("Hyprland rejected the display settings: " <> why))

  -- From the hyprctl call on.
  unfoldable pub show_trial : String → Do c h (Unit {0})
  show_trial token = do
    (code, output, error) ←
        hyprctl c h
          ("eval" ∷ ("require(\"displays\").apply_trial(" <> lua_string h.trial_path <> ")") ∷ [])
    if refused c h code output then reject_trial token (reason output error) else pure tt

  unfoldable pub write_trial : c.Bytes → Value → Do c h (Unit {0})
  write_trial candidate document = do
    atomic_write c h trial_file candidate
    state ← lift (encode c document)
    atomic_write c h state_file state

  -- What `apply` answers: the new trial's token, and when it ends.
  abbrev pub shown_answer : String → ℕ → Value
  shown_answer token now = obj (
      field "message" (str "Showing the new arrangement for 15 seconds.") (
        field "checkpoint" (str token)
          (field "expires" (float (seconds (now + trial_seconds * 1024))) end)))

  unfoldable pub start_from : c.Bytes → String → String → ℕ → Do c h Value
  start_from candidate digest token now = do
    write_trial candidate (state_document token now digest)
    on_value_error (arm_watchdog c h token) (clear_trial c h)
    show_trial token
    pure (shown_answer token now)

  -- From the call of secrets.token_hex on.
  unfoldable pub start_trial : c.Bytes → String → Do c h Value
  start_trial candidate digest = do
    token ← next_token
    now ← gets (λ w. h.now w.desk)
    start_from candidate digest token now

  unfoldable pub apply_locked : Value → c.Bytes → Do c h Value
  apply_locked base candidate = do
    state ← gets (λ w. read_trial_state c w.state)
    now ← gets (λ w. h.now w.desk)
    refuse_if (is_pending state now)
        (value_error "Keep or revert the current display change first.")
    drop_stale state
    saved ← read_saved
    refuse_if (other_digest base saved.digest)
        (value_error "The saved display settings changed elsewhere. Reload the page and try again.")
    start_trial candidate saved.digest

  unfoldable pub apply : Fields → Do c h Value
  apply request = do
    document ← lift (validate_document (or_null (get "document" request)))
    candidate ← lift (encode c document)
    locked c h (apply_locked (or_null (get "baseDigest" request)) candidate)

  -- The trial is given up: its files go, and Hyprland rereads the saved ones.
  unfoldable pub undo : Do c h (Unit {0})
  undo = do clear_trial c h; reload_hyprland c h

  -- `clear_trial(); reload_hyprland(); raise ValueError(message)`
  unfoldable pub undo_saying : String → Do c h Value
  undo_saying message = do undo; raise (value_error message)

  -- `trial_path.read_text()` follows a symlink.
  abbrev pub read_bytes : File c.Bytes → Result c.Bytes
  read_bytes (regular b) = ok b
  read_bytes (symlink (some b)) = ok b
  read_bytes _ = raised os_error

  abbrev pub load_bytes : Result c.Bytes → Result Value
  load_bytes (ok b) = load_document c b
  load_bytes (raised e) = raised e

  unfoldable pub load_candidate : File c.Bytes → Result Value
  load_candidate file = load_bytes (read_bytes file)

  -- The `except (OSError, ValueError, UnicodeDecodeError)` around that.
  unfoldable pub or_undo : Result Value → Do c h Value
  or_undo (raised (value_error e)) = undo_saying unreadable_candidate
  or_undo (raised os_error) = undo_saying unreadable_candidate
  or_undo r = lift r

  unfoldable pub save_document : Value → Do c h Value
  save_document document = do
    bytes ← lift (encode c document)
    atomic_write c h config_file bytes
    clear_trial c h
    pure (obj (field "message" (str "Display settings saved.") end))

  -- The end of `confirm`, for a trial that is its own and still counts.
  unfoldable pub keep_trial : Trial c → Do c h Value
  keep_trial t = do
    file ← gets (λ w. w.trial)
    document ← or_undo (load_candidate file)
    saved ← read_saved
    if is_text saved.digest t.base_digest
        then save_document document
        else undo_saying changed_elsewhere

  unfoldable pub confirm_trial : String → Option (Trial c) → Do c h Value
  confirm_trial token none =
      raise
        (value_error "That display change already ended, and the previous settings were restored.")
  confirm_trial token (some t) =
      if is_text token t.token
      then (do
        disarm_watchdog c h token
        now ← gets (λ w. h.now w.desk)
        if is_past t.expires confirm_grace_seconds now then undo_saying too_late else keep_trial t)
      else raise (
          value_error "That display change already ended, and the previous settings were restored.")

  abbrev pub checkpoint : Fields → String
  checkpoint request = to_text c (get_or (str "") (get "checkpoint" request))

  unfoldable pub confirm : Fields → Do c h Value
  confirm request =
      locked c h (λ w. confirm_trial (checkpoint request) (read_trial_state c w.state) w)

  -- `disarm_watchdog(state['token'])`, where a token that is no text cannot be joined to a name.
  unfoldable pub disarm_value : Value → Do c h (Unit {0})
  disarm_value (str token) = disarm_watchdog c h token
  disarm_value _ = raise type_error

  unfoldable pub rollback_trial : String → Option (Trial c) → Do c h Value
  rollback_trial token none =
      pure (obj (field "message" (str "The previous display settings are in effect.") end))
  rollback_trial token (some t) =
      if not (str_eq token "") && not (is_text token t.token)
      then raise (value_error "A different display change is pending.")
      else (do
        disarm_value t.token
        undo
        pure (obj (field "message" (str "The previous display settings were restored.") end)))

  unfoldable pub rollback : Fields → Do c h Value
  rollback request =
      locked c h (λ w. rollback_trial (checkpoint request) (read_trial_state c w.state) w)

  unfoldable pub expire_trial : String → Option (Trial c) → Do c h ℕ
  expire_trial token none = pure 0
  expire_trial token (some t) = if is_text token t.token then (do undo; pure 0) else pure 0

  -- `expire`, which the timer runs; the exit status.
  unfoldable pub expire : String → Do c h ℕ
  expire token =
      if matches_token token
      then locked c h (λ w. expire_trial token (read_trial_state c w.state) w)
      else pure 2
