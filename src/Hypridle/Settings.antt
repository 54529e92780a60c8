-- ===== src/Hypridle/Settings.antt =====
-- `load_settings` of hypridle-config.py: the shell's idle settings, with defaults.
use fedora_config.Base.{ℕ, ◌==◌, ◌≡◌, refl, Bool, true, Option, none, some, List, [], ◌∷◌, any, pos}
use fedora_config.Base.{if◌then◌else◌, Bool-cases, inl, inr, Result, ok, raised, value_error}
use fedora_config.Json.{Value, bool, int, obj, Fields, end, get}

pub record Settings : Type 0 where
  pub lock_mins : ℕ
  pub screen_off_mins : ℕ
  pub suspend_mins : ℕ
  pub battery_only : Bool

abbrev pub defaults : Settings
defaults = record { lock_mins = 5; screen_off_mins = 10; suspend_mins = 30; battery_only = true }

abbrev pub lock_choices : List ℕ
lock_choices = 0 ∷ 1 ∷ 2 ∷ 5 ∷ 10 ∷ 15 ∷ 30 ∷ []

abbrev pub suspend_choices : List ℕ
suspend_choices = 0 ∷ 15 ∷ 30 ∷ 60 ∷ 120 ∷ []

abbrev pub is_choice : ℕ → List ℕ → Bool
is_choice n choices = any (λ m. n == m) choices

-- `type(value) is int and value in choices`, else the default.
unfoldable pub choose : List ℕ → ℕ → Option Value → ℕ
choose choices default (some (int (pos n))) = if is_choice n choices then n else default
choose choices default _ = default

unfoldable pub flag : Bool → Option Value → Bool
flag default (some (bool b)) = b
flag default _ = default

unfoldable pub settings_of_fields : Fields → Settings
unfolding choose flag
settings_of_fields raw = record {
  lock_mins = choose lock_choices 5 (get "idleLockMins" raw);
  screen_off_mins = choose lock_choices 10 (get "idleScreenOffMins" raw);
  suspend_mins = choose suspend_choices 30 (get "idleSuspendMins" raw);
  battery_only = flag true (get "idleSuspendBatteryOnly" raw);
}

-- The file at the path: none, one that json.load refuses, or a document.
pub data Source : Type 0 where
  no_file unparsable : Source
  document : Value → Source

unfoldable pub load_settings : Source → Result Settings
unfolding settings_of_fields
load_settings no_file = ok (settings_of_fields end)
load_settings unparsable = raised (value_error "the settings do not parse")
load_settings (document (obj raw)) = ok (settings_of_fields raw)
load_settings (document _) = ok (settings_of_fields end)

-- Every setting is one of the choices that the shell offers.
pub record IsOffered (s : Settings) : Type 0 where
  pub lock : is_choice s.lock_mins lock_choices ≡ true
  pub screen_off : is_choice s.screen_off_mins lock_choices ≡ true
  pub suspend : is_choice s.suspend_mins suspend_choices ≡ true

choose-is_choice :
    (choices : List ℕ) (default : ℕ) (v : Option Value)
    → is_choice default choices ≡ true
    → is_choice (choose choices default v) choices ≡ true
unfolding choose
choose-is_choice choices default (some (int (pos n))) h = elim (Bool-cases (is_choice n choices)) [
  | inl y ↦ rw y y
  | inr q ↦ rw q h
]
choose-is_choice choices default none h = h
choose-is_choice choices default (some _) h = h

ok_injective : {A : Type 0} {a b : A} → ok a ≡ ok b → a ≡ b
ok_injective e = cc

settings_of_fields-IsOffered : (raw : Fields) → IsOffered (settings_of_fields raw)
unfolding settings_of_fields
settings_of_fields-IsOffered raw = record {
  lock = choose-is_choice lock_choices 5 (get "idleLockMins" raw) refl;
  screen_off = choose-is_choice lock_choices 10 (get "idleScreenOffMins" raw) refl;
  suspend = choose-is_choice suspend_choices 30 (get "idleSuspendMins" raw) refl;
}

-- Whatever the settings file holds, if it can be read at all, the timeouts are among the choices
-- that the shell offers: a value outside them, or of another type, is as good as absent.
pub load_settings-IsOffered :
    (source : Source) (s : Settings) → load_settings source ≡ ok s → IsOffered s
unfolding load_settings
load_settings-IsOffered no_file s e = rw (← ok_injective e) (settings_of_fields-IsOffered end)
load_settings-IsOffered unparsable s e = absurd (cc)
load_settings-IsOffered (document (obj raw)) s e =
    rw (← ok_injective e) (settings_of_fields-IsOffered raw)
load_settings-IsOffered (document (bool b)) s e =
    rw (← ok_injective e) (settings_of_fields-IsOffered end)
load_settings-IsOffered (document _) s e = rw (← ok_injective e) (settings_of_fields-IsOffered end)
