-- ===== src/Displays/Serve.antt =====
-- The read-only request of display-settings.py, snapshot, and `main`, which serves one request.
use fedora_config.Base.{◌==◌, ltb, not, Option, some, List, [], ◌∷◌, String, str_eq}
use fedora_config.Base.{
  if◌then◌else◌, Result, ok, raised, Exn, value_error, type_error, os_error, subprocess_error, pure,
  raise, lift, gets,
}
use fedora_config.Base.Action.{◌>>=◌, ◌>>◌, refuse_if}
use fedora_config.Json.{
  Value, null, str, arr, obj, Items, nil, cons, Fields, end, field, get, has, or_null,
}
use fedora_config.Displays.Document.{max_bytes}
use fedora_config.Displays.Host.{Codec, Host}
use fedora_config.Displays.Store.{World, loads, Saved, Trial, read_json_file, read_trial_state}
use fedora_config.Displays.Session.{Do, hyprctl, locked}
use fedora_config.Displays.Requests.{read_saved, apply, confirm, rollback}

abbrev kept : List String
kept =
    "id" ∷ "name" ∷ "description" ∷ "make" ∷ "model" ∷ "width" ∷ "height" ∷ "physicalWidth"
    ∷ "physicalHeight" ∷ "refreshRate" ∷ "x" ∷ "y" ∷ "scale" ∷ "transform" ∷ "disabled" ∷ "mirrorOf"
    ∷ "vrr" ∷ "focused" ∷ "availableModes" ∷ []

-- `{key: item.get(key) for key in keep if key in item}`
unfoldable pub keep_keys : List String → Fields → Fields
keep_keys [] item = end
keep_keys (key ∷ ks) item =
    let rest = keep_keys ks item in
    if has key item then field key (or_null (get key item)) rest else rest

unfoldable pub keep_monitors : Items → Items
unfolding keep_keys
keep_monitors nil = nil
keep_monitors (cons (obj item) rest) = cons (obj (keep_keys kept item)) (keep_monitors rest)
keep_monitors (cons v rest) = keep_monitors rest

-- The reply to `hyprctl -j monitors all`, parsed.
unfoldable pub monitor_list : Option Value → Result Value
unfolding keep_monitors
monitor_list (some (arr listed)) = ok (arr (keep_monitors listed))
monitor_list _ = raised (value_error "Hyprland returned an unreadable display list.")

module _ (c : Codec) (h : Host c) where
  unfoldable pub monitors : Do c h Value
  unfolding monitor_list
  monitors = do
    (code, output, error) ← hyprctl c h ("-j" ∷ "monitors" ∷ "all" ∷ [])
    refuse_if (not (code == 0))
        (value_error "Hyprland did not report its displays. Is this a Hyprland session?")
    lift (monitor_list (c.parse_text output))

  abbrev store_value : Saved c → Value
  store_value saved = obj (
      field "path" (str h.config_path) (
        field "document" (or_null saved.document)
          (field "digest" (str saved.digest) (field "error" (str saved.error) end))))

  -- `status if isinstance(status, dict) else None`
  abbrev only_object : Option Value → Value
  only_object (some (obj fs)) = obj fs
  only_object _ = null

  -- `{'checkpoint': state['token'], 'expires': state['expires']}`, from the state file once
  -- `read_trial_state` has accepted it.
  abbrev shown_trial : Option (Trial c) → Option Value → Value
  shown_trial (some t) (some (obj state)) =
      obj (field "checkpoint" t.token (field "expires" (or_null (get "expires" state)) end))
  shown_trial _ _ = null

  -- What `snapshot` reads of the runtime directory, which `locked` requires.
  unfoldable pub read_runtime : World c h → Value × Value
  read_runtime w = (
    only_object (read_json_file c w.status),
    shown_trial (read_trial_state c w.state) (read_json_file c w.state),
  )

  -- `snapshot` takes no lock; `locked` stands for the runtime directory alone.
  unfoldable pub snapshot : Do c h Value
  snapshot = do
    saved ← read_saved c h
    (status, trial) ← locked c h (gets (read_runtime))
    shown ← monitors
    pure (
        obj (
          field "monitors" shown
            (field "store" (store_value saved) (field "status" status (field "trial" trial end)))))

  -- What `main` prints, or the exception that leaves it.
  pub data Answer : Type 0 where
    success : Value → Answer
    failure : String → Answer
    crash : Exn → Answer

  unfoldable pub answer : Result Value → Answer
  answer (ok v) = success v
  answer (raised (value_error e)) = failure e
  answer (raised os_error) =
      failure "The display settings helper could not finish. Retry, or check the session journal."
  answer (raised subprocess_error) =
      failure "The display settings helper could not finish. Retry, or check the session journal."
  answer (raised e) = crash e

  -- The dispatch on `request['action']`. A list or an object has no hash, so that looking it up
  -- among the actions is a `TypeError`.
  abbrev pub dispatch : Option Value → Fields → Do c h Value
  dispatch (some (str action)) request =
      if str_eq action "apply"
      then apply c h request
      else if str_eq action "confirm"
      then confirm c h request
      else if str_eq action "rollback"
      then rollback c h request
      else if str_eq action "snapshot"
      then snapshot
      else raise (value_error "Unknown display request.")
  dispatch (some (arr xs)) request = raise type_error
  dispatch (some (obj fs)) request = raise type_error
  dispatch _ request = raise (value_error "Unknown display request.")

  abbrev pub serve_value : Result Value → Do c h Value
  serve_value (ok (obj request)) = dispatch (get "action" request) request
  serve_value (ok v) = raise (value_error "Unknown display request.")
  serve_value (raised e) = raise e

  -- `main` on one request line.
  unfoldable pub main : c.Bytes → World c h → Answer × World c h
  main raw w =
      let (r, w') =
        (if ltb max_bytes (c.size raw)
            then raise (value_error "The display request is too large.")
            else serve_value (loads c raw))
          w in
      (answer r, w')
