-- ===== src/Displays/Frame.antt =====
-- The saved rules, displays.json, across the requests: which of them can write that file.
use fedora_config.Base.{arith, Option, none, some, String, List, ◌≡◌, refl}
use fedora_config.Base.{gets, ℕ}
use fedora_config.Base.Action.{
  ◌>>=◌, Keeps, Keeps-raise, Keeps-if, Keeps-pure, Keeps-gets, keeps_rules,
}
use fedora_config.Json.{Value, str, Fields}
use fedora_config.Displays.Host.{Codec, Host, trial_file, state_file}
use fedora_config.Displays.Store.{File, World, Trial, atomic_write, clear_trial, read_trial_state}
use fedora_config.Displays.Session.{
  Do, run, hyprctl, reload_hyprland, arm_watchdog, disarm_watchdog, locked,
}
use fedora_config.Displays.Requests.{drop_stale, read_saved, next_token, reject_trial, show_trial}
use fedora_config.Displays.Requests.{
  start_trial, start_from, write_trial, apply_locked, apply, undo, disarm_value,
}
use fedora_config.Displays.Requests.{rollback_trial, rollback, expire_trial, expire, checkpoint}
use fedora_config.Displays.Serve.{snapshot, monitors, read_runtime}

module _ (c : Codec) (h : Host c) (f : File c.Bytes) where
  abbrev pub Same : World c h → Type 0
  Same w = w.config ≡ f

  pub run-Same : (command : List String) → Keeps Same (run c h command)
  unfolding run
  run-Same command = record { at = λ w e. e }

  hyprctl-Same : (arguments : List String) → Keeps Same (hyprctl c h arguments)
  unfolding hyprctl
  hyprctl-Same arguments = search (keeps_rules, run-Same)

  pub reload-Same : Keeps Same (reload_hyprland c h)
  unfolding reload_hyprland
  reload-Same = search (keeps_rules, hyprctl-Same)

  arm-Same : (token : String) → Keeps Same (arm_watchdog c h token)
  unfolding arm_watchdog
  arm-Same token = search (keeps_rules, run-Same)

  pub disarm-Same : (token : String) → Keeps Same (disarm_watchdog c h token)
  unfolding disarm_watchdog
  disarm-Same token = search (keeps_rules, run-Same)

  pub clear-Same : Keeps Same (clear_trial c h)
  unfolding clear_trial ◌>>=◌
  clear-Same = record { at = λ w e. ground arith }

  write_candidate-Same : (b : c.Bytes) → Keeps Same (atomic_write c h trial_file b)
  unfolding atomic_write
  write_candidate-Same b = record { at = λ w e. e }

  write_state-Same : (b : c.Bytes) → Keeps Same (atomic_write c h state_file b)
  unfolding atomic_write
  write_state-Same b = record { at = λ w e. e }

  pub read_saved-Same : Keeps Same (read_saved c h)
  unfolding read_saved
  read_saved-Same = record { at = λ w e. e }

  next_token-Same : Keeps Same (next_token c h)
  unfolding next_token
  next_token-Same = record { at = λ w e. e }

  pub undo-Same : Keeps Same (undo c h)
  unfolding undo
  undo-Same = search (keeps_rules, clear-Same, reload-Same)

  pub drop_stale-Same : (t : Option (Trial c)) → Keeps Same (drop_stale c h t)
  unfolding drop_stale
  drop_stale-Same none = search keeps_rules
  drop_stale-Same (some t) = clear-Same

  ruleset steps = (
    keeps_rules, run-Same, hyprctl-Same, reload-Same, arm-Same, disarm-Same, clear-Same,
    write_candidate-Same, write_state-Same, read_saved-Same, next_token-Same, undo-Same,
    drop_stale-Same,
  )

  reject_trial-Same : (token why : String) → Keeps Same (reject_trial c h token why)
  unfolding reject_trial
  reject_trial-Same token why = search steps

  show_trial-Same : (token : String) → Keeps Same (show_trial c h token)
  unfolding show_trial
  show_trial-Same token = search (steps, reject_trial-Same)

  write_trial-Same : (b : c.Bytes) (v : Value) → Keeps Same (write_trial c h b v)
  unfolding write_trial
  write_trial-Same b v = search steps

  start_from-Same :
      (b : c.Bytes) (digest token : String) (now : ℕ)
      → Keeps Same (start_from c h b digest token now)
  unfolding start_from
  start_from-Same b digest token now = search (steps, write_trial-Same, show_trial-Same) depth 8

  start_trial-Same : (b : c.Bytes) (digest : String) → Keeps Same (start_trial c h b digest)
  unfolding start_trial
  start_trial-Same b digest = search (steps, start_from-Same) depth 8

  pub apply_locked-Same : (base : Value) (b : c.Bytes) → Keeps Same (apply_locked c h base b)
  unfolding apply_locked
  apply_locked-Same base b = search (steps, start_trial-Same) depth 12

  pub locked-Same : {A : Type 0} (m : Do c h A) → Keeps Same m → Keeps Same (locked c h m)
  unfolding locked
  locked-Same m k = record { at = λ w e. ground (arith, k.at w e) }

  pub apply-Same : (request : Fields) → Keeps Same (apply c h request)
  unfolding apply
  apply-Same request = search (steps, locked-Same, apply_locked-Same) depth 8

  disarm_value-Same : (v : Value) → Keeps Same (disarm_value c h v)
  unfolding disarm_value
  disarm_value-Same (str token) = disarm-Same token
  disarm_value-Same _ = Keeps-raise _

  rollback_trial-Same :
      (token : String) (t : Option (Trial c)) → Keeps Same (rollback_trial c h token t)
  unfolding rollback_trial
  rollback_trial-Same token none = search steps
  rollback_trial-Same token (some t) = search (steps, disarm_value-Same) depth 8

  pub rollback-Same : (request : Fields) → Keeps Same (rollback c h request)
  unfolding rollback
  rollback-Same request = locked-Same _ (record {
    at = λ w e. (rollback_trial-Same (checkpoint c h request) (read_trial_state c w.state)).at w e;
  })

  expire_trial-Same :
      (token : String) (t : Option (Trial c)) → Keeps Same (expire_trial c h token t)
  unfolding expire_trial
  expire_trial-Same token none = search steps
  expire_trial-Same token (some t) = search steps depth 8

  pub expire-Same : (token : String) → Keeps Same (expire c h token)
  unfolding expire
  expire-Same token =
      Keeps-if _ _ _
        (locked-Same _
          (record { at = λ w e. (expire_trial-Same token (read_trial_state c w.state)).at w e }))
        (Keeps-pure _)

  monitors-Same : Keeps Same (monitors c h)
  unfolding monitors
  monitors-Same = search (steps) depth 8

  runtime-Same : Keeps Same (locked c h (gets (read_runtime c h)))
  runtime-Same = locked-Same _ (Keeps-gets _)

  pub snapshot-Same : Keeps Same (snapshot c h)
  unfolding snapshot
  snapshot-Same = search (steps, monitors-Same, runtime-Same) depth 8

module _ (c : Codec) (h : Host c) (w : World c h) where
  pub snapshot_frame : (snapshot c h w).1.config ≡ w.config
  snapshot_frame = (snapshot-Same c h w.config).at w refl

  -- Showing a trial, restoring the saved rules and the timer's expiry leave displays.json as it
  -- is, whether they succeed or fail at any point.
  pub config_frame :
      ((request : Fields) → (apply c h request w).1.config ≡ w.config)
      × ((request : Fields) → (rollback c h request w).1.config ≡ w.config)
      × ((token : String) → (expire c h token w).1.config ≡ w.config)
  config_frame = (
    λ request. (apply-Same c h w.config request).at w refl,
    λ request. (rollback-Same c h w.config request).at w refl,
    λ token. (expire-Same c h w.config token).at w refl,
  )
