-- ===== src/Hypridle/Tests.antt =====
-- Concrete runs of the idle configuration, and its theorems at concrete data.
use fedora_config.Base.{ℕ, ◌≡◌, ◌↔◌, refl, ok, true, pos, List, [], ◌∷◌}
use fedora_config.Json.{int, str, Fields, field, end, get, obj}
use fedora_config.Hypridle.Settings.{
  Settings, defaults, IsOffered, document, load_settings, load_settings-IsOffered,
  settings_of_fields, choose, flag,
}
use fedora_config.Hypridle.Render.{
  Listener, listeners, sort, insert, lock_listeners, locked_listeners, screen_listeners,
  suspend_listeners,
}
use fedora_config.Hypridle.Timeline.{timeline, In, Wanted, InOrder}

-- 3 minutes is no choice, and no text is one.
abbrev odd_settings : Fields
odd_settings =
    field "idleLockMins" (int (pos 3))
      (field "idleScreenOffMins" (int (pos 2)) (field "idleSuspendMins" (str "15") end))

abbrev chosen : Settings
chosen = record { lock_mins = 5; screen_off_mins = 2; suspend_mins = 30; battery_only = true }

loads_odd : load_settings (document (obj odd_settings)) ≡ ok chosen
unfolding load_settings settings_of_fields choose flag get
loads_odd = refl

timeouts : List Listener → List ℕ
timeouts [] = []
timeouts (l ∷ ls) = l.timeout ∷ timeouts ls

default_timeouts :
    timeouts (sort (listeners defaults "session")) ≡ (60 ∷ 300 ∷ 360 ∷ 600 ∷ 1800 ∷ [])
unfolding timeouts sort insert listeners lock_listeners locked_listeners screen_listeners
    suspend_listeners
default_timeouts = refl

load_settings-IsOffered_example : IsOffered chosen
load_settings-IsOffered_example =
    load_settings-IsOffered (document (obj odd_settings)) chosen loads_odd

timeline_example :
    ((l : Listener) → In l (sort (listeners chosen "session")) ↔ Wanted chosen "session" l)
    × InOrder (sort (listeners chosen "session"))
timeline_example = timeline chosen "session"
