-- ===== src/Plugins/Write.antt =====
-- `locked` and `write_preferences` of user-plugins.py: the registry on disk.
use fedora_config.Base.{
  ℕ, leb, Bool, true, false, Option, none, some, ◌≡◌, ◌⊎◌, inl, inr, refl, Bool-cases,
}
use fedora_config.Base.{
  if◌then◌else◌, Result, Result-cases, ok, raised, value_error, os_error, Exec,
}
use fedora_config.Json.{obj, Fields}
use fedora_config.Plugins.Options.{Document, contents, is_finite, read_object, read_dict}

-- How the writes end: an error before the file is replaced, one after (the fsync of the directory),
-- or none.
pub data Writes : Type 0 where
  refused unsynced replaced : Writes

module _ (printed : Fields → ℕ) where
  unfoldable pub replace_file : Writes → Fields → Document → Result (Unit {0}) × Document
  replace_file refused value old = (raised os_error, old)
  replace_file unsynced value old = (raised os_error, contents (printed value) (some (obj value)))
  replace_file replaced value old = (ok tt, contents (printed value) (some (obj value)))

  -- `write_preferences`; `printed` is the size of the text that `json.dumps` gives.
  unfoldable pub write_preferences : Writes → Fields → Exec Document (Unit {0})
  write_preferences disk value old =
      if is_finite (obj value)
      then (if leb (printed value) 1048576 then replace_file disk value old else (
        raised (
            value_error
              "plugins.json would exceed 1 MiB; store large data in the plugin data directory"),
        old,
      ))
      else (raised (value_error "Out of range float values are not JSON compliant"), old)

  -- A command under the lock: it computes a registry, which is written unless there is none. The
  -- flag says that plugins.json is a symlink.
  unfoldable pub run_locked :
      Bool → Writes → (Document → Result (Option Fields)) → Exec Document (Unit {0})
  run_locked is_link disk command old =
      if is_link
      then (raised (value_error "Refusing to replace a symlinked plugins.json"), old)
      else elim (command old) [
        | raised e ↦ (raised e, old)
        | ok none ↦ (ok tt, old)
        | ok (some value) ↦ write_preferences disk value old
      ]

  -- The file is what it was or reads as the registry, and it is the latter after a return.
  abbrev pub IsWritten : Fields → Document → Result (Unit {0}) × Document → Type 0
  IsWritten value old (answer, file) =
      ((file ≡ old) ⊎ (read_object file ≡ ok value))
      × (answer ≡ ok tt → read_object file ≡ ok value)

  replace_file-IsWritten :
      (disk : Writes) (value : Fields) (old : Document)
      → is_finite (obj value) ≡ true
      → leb (printed value) 1048576 ≡ true
      → IsWritten value old (replace_file disk value old)
  unfolding replace_file read_object read_dict
  replace_file-IsWritten refused value old f s = (inl refl, λ e. absurd (cc e))
  replace_file-IsWritten unsynced value old f s =
      (inr (rw (read_object, s, f) refl), λ e. absurd (cc e))
  replace_file-IsWritten replaced value old f s =
      (inr (rw (read_object, s, f) refl), λ _. rw (read_object, s, f) refl)

  write_preferences-IsWritten :
      (disk : Writes) (value : Fields) (old : Document)
      → IsWritten value old (write_preferences disk value old)
  unfolding write_preferences
  write_preferences-IsWritten disk value old = elim (Bool-cases (is_finite (obj value))) [
    | inr n ↦ rw (write_preferences, n) (inl refl, λ e. absurd (cc e))
    | inl f ↦ elim (Bool-cases (leb (printed value) 1048576)) [
      | inr n ↦ rw (write_preferences, f, n) (inl refl, λ e. absurd (cc e))
      | inl s ↦ rw (write_preferences, f, s) (replace_file-IsWritten disk value old f s)
    ]
  ]

  -- A command under the lock leaves plugins.json as it was, or it has written the registry that the
  -- command computed from it, which the next reader gets; a command that returned has written its
  -- registry or computed none. A symlink is never replaced.
  pub run_locked-IsWritten :
      (is_link : Bool) (disk : Writes) (command : Document → Result (Option Fields))
      (old : Document)
      → ((run_locked is_link disk command old).1 ≡ old
          × ((run_locked is_link disk command old).0 ≡ ok tt → command old ≡ ok none))
        ⊎ ((value : Fields) × (is_link ≡ false)
            × (command old ≡ ok (some value))
            × IsWritten value old (run_locked is_link disk command old))
  unfolding run_locked
  run_locked-IsWritten true disk command old = inl (refl, λ e. absurd (cc e))
  run_locked-IsWritten false disk command old = elim (Result-cases (command old)) [
    | inl (none, e) ↦ rw (run_locked, e) (inl (refl, λ _. refl))
    | inl (some value, e) ↦
        rw (run_locked, e) (inr (value, refl, refl, write_preferences-IsWritten disk value old))
    | inr (x, e) ↦ rw (run_locked, e) (inl (refl, λ q. absurd (cc q)))
  ]
