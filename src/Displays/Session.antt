-- ===== src/Displays/Session.antt =====
-- The requests of display-settings.py: apply, confirm, rollback, expire, snapshot and `main`.
-- Each runs under TrialLock, so two requests do not overlap.
use fedora_config.Base.{ℕ, ◌==◌, Bool, not, ◌||◌}
use fedora_config.Base.{none, some, List, [], ◌∷◌, ◌++◌, String, ◌<>◌, str_eq, codes, strip}
use fedora_config.Base.{
  if◌then◌else◌, Result, ok, raised, value_error, os_error, subprocess_error, Exec, pure,
}
use fedora_config.Base.Action.{◌>>=◌, ◌>>◌, refuse_if}
use fedora_config.Displays.Keys.{has_control}
use fedora_config.Displays.Host.{Codec, Host, Reply, missing, timed_out, finished}
use fedora_config.Displays.Lua.{first_line}
use fedora_config.Displays.Store.{World, Act}

-- `first_line(output) or first_line(error) or 'no reply'`
unfoldable pub reason : String → String → String
reason output error =
    if str_eq (first_line output) ""
    then (if str_eq (first_line error) "" then "no reply" else first_line error)
    else first_line output

abbrev pub outcome : Reply → Result (ℕ × String × String)
outcome missing = raised os_error
outcome timed_out = raised subprocess_error
outcome (finished code output error) = ok (code, output, error)

module _ (c : Codec) (h : Host c) where
  abbrev pub Do : Type 0 → Type 0
  Do A = Act c h A

  unfoldable pub run : List String → Do (ℕ × String × String)
  run command w =
      let (reply, desk) = h.run command w.desk in (outcome reply, record w { desk = desk })

  unfoldable pub hyprctl : List String → Do (ℕ × String × String)
  unfolding run
  hyprctl arguments = do
    (code, output, error) ← run ("hyprctl" ∷ arguments)
    pure (code, strip output, strip error)

  -- `code != 0 or output != 'ok'`
  abbrev pub refused : ℕ → String → Bool
  refused code output = not (code == 0) || not (str_eq output "ok")

  unfoldable pub reload_hyprland : Do (Unit {0})
  unfolding reason
  reload_hyprland = do
    (code, output, error) ← hyprctl ("reload" ∷ [])
    refuse_if (refused code output)
        (value_error ("Hyprland could not reload its configuration: " <> reason output error))

  abbrev pub unit_name : String → String
  unit_name token = "cybexos-display-trial-" <> token

  abbrev pub setenv : String → List String
  setenv name = elim (h.environ name) [
    | none ↦ []
    | some value ↦
        if str_eq value "" || has_control (codes value)
        then []
        else ("--setenv=" <> name <> "=" <> value) ∷ []
  ]

  unfoldable pub watchdog_command : String → List String
  watchdog_command token =
      "systemd-run"
      ∷ "--user"
      ∷ "--quiet"
      ∷ "--collect"
      ∷ ("--unit=" <> unit_name token)
      ∷ "--on-active=20s"
      ∷ "--timer-property=AccuracySec=500ms"
      ∷ (setenv "HYPRLAND_INSTANCE_SIGNATURE"
          ++ (setenv "XDG_RUNTIME_DIR"
              ++ (setenv "XDG_CONFIG_HOME"
                  ++ (setenv "PATH"
                      ++ (setenv "HOME"
                          ++ ("--" ∷ h.python ∷ "-B" ∷ h.script ∷ "expire" ∷ token ∷ []))))))

  unfoldable pub arm_watchdog : String → Do (Unit {0})
  arm_watchdog token = do
    (code, output, error) ← run (watchdog_command token)
    refuse_if (not (code == 0))
        (value_error "Automatic restore could not be scheduled, so nothing was changed.")

  unfoldable pub disarm_watchdog : String → Do (Unit {0})
  disarm_watchdog token = do
    run ("systemctl" ∷ "--user" ∷ "stop" ∷ (unit_name token <> ".timer") ∷ [])
    run ("systemctl" ∷ "--user" ∷ "stop" ∷ (unit_name token <> ".service") ∷ [])
    pure tt

  -- `with TrialLock():` fails where there is no runtime directory.
  unfoldable pub locked {κ} : {A : Type κ} → Exec (World c h) A → Exec (World c h) A
  locked m w = if w.runtime then m w else (
    raised (value_error "XDG_RUNTIME_DIR is not set; display changes need a desktop session."),
    w,
  )
