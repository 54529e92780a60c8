-- ===== src/Hypridle/Render.antt =====
-- `listener` and `render` of hypridle-config.py.
use fedora_config.Base.{
  ℕ, zero, suc, ◌+◌, ◌*◌, ◌/◌, ◌%◌, ◌==◌, ltb, leb, Bool, true, false, List, [], ◌∷◌, ◌++◌,
}
use fedora_config.Base.{if◌then◌else◌, String, ◌<>◌, str_eq}
use fedora_config.Hypridle.Settings.{Settings}
use fedora_config.Displays.Lua.{digit}

-- The decimal digits of a number, in front of a text; `fuel` bounds their count.
decimal_before : ℕ → ℕ → String → String
decimal_before zero n rest = rest
decimal_before (suc fuel) n rest =
    let more = decimal_before fuel (n / 10) (String.◌∷◌ (digit (n % 10)) rest) in
    if ltb n 10 then String.◌∷◌ (digit n) rest else more

-- `str(n)`
unfoldable pub decimal : ℕ → String
unfolding decimal_before digit
decimal n = decimal_before (suc n) n ""

abbrev pub lock_command : String
lock_command = "systemctl --user start cybexos-session-lock.service"

abbrev pub dpms_off : String
dpms_off = "hyprctl eval 'hl.dispatch(hl.dsp.dpms({ action = \"off\" }))'"

abbrev pub dpms_on : String
dpms_on = "hyprctl eval 'hl.dispatch(hl.dsp.dpms({ action = \"on\" }))'"

abbrev pub is_locked : String
is_locked = "hyprctl locked | grep -qx true"

abbrev pub battery_retry_secs : ℕ
battery_retry_secs = 60

abbrev pub locked_screen_off_secs : ℕ
locked_screen_off_secs = 60

-- The arguments of one call of `listener`.
pub record Listener : Type 0 where
  pub timeout : ℕ
  pub on_timeout : String
  pub on_resume : String
  pub condition : String
  pub retry : ℕ

abbrev line_if : Bool → String → String
line_if true text = "  " <> text <> "\n"
line_if false text = ""

-- `listener`
unfoldable pub listener_text : Listener → String
listener_text l =
    "listener {\n"
    <> line_if true ("timeout = " <> decimal l.timeout)
    <> line_if (if str_eq l.condition "" then false else true) ("condition_cmd = " <> l.condition)
    <> line_if (if l.retry == 0 then false else true) ("condition_retry = " <> decimal l.retry)
    <> line_if true ("on-timeout = " <> l.on_timeout)
    <> line_if (if str_eq l.on_resume "" then false else true) ("on-resume = " <> l.on_resume)
    <> "}\n"

abbrev pub plain : ℕ → String → Listener
plain timeout command = record {
  timeout = timeout;
  on_timeout = command;
  on_resume = "";
  condition = "";
  retry = 0;
}

abbrev pub screen_off_listener : ℕ → Listener
screen_off_listener timeout = record (plain timeout dpms_off) { on_resume = dpms_on }

-- The screen of a session that is already locked.
abbrev pub locked_off_listener : ℕ → Listener
locked_off_listener timeout = record (screen_off_listener timeout) { condition = is_locked }

abbrev pub battery_listener : ℕ → String → Listener
battery_listener timeout action = record {
  timeout = timeout;
  on_timeout = action <> " idle-suspend on-battery";
  on_resume = "";
  condition = action <> " on-battery";
  retry = battery_retry_secs;
}

unfoldable pub lock_listeners : ℕ → List Listener
lock_listeners lock = if lock == 0 then [] else plain lock lock_command ∷ []

-- `for timeout in locked_off: if timeout < screen_off: ...`
unfoldable pub locked_listeners : List ℕ → ℕ → List Listener
locked_listeners [] screen_off = []
locked_listeners (timeout ∷ rest) screen_off =
    let more = locked_listeners rest screen_off in
    if ltb timeout screen_off then locked_off_listener timeout ∷ more else more

abbrev pub locked_off : ℕ → List ℕ
locked_off lock =
    if lock == 0
    then locked_screen_off_secs ∷ []
    else locked_screen_off_secs ∷ (lock + locked_screen_off_secs) ∷ []

unfoldable pub screen_listeners : ℕ → ℕ → List Listener
unfolding locked_listeners
screen_listeners lock screen_off =
    if screen_off == 0
    then []
    else locked_listeners (locked_off lock) screen_off ++ (screen_off_listener screen_off ∷ [])

unfoldable pub suspend_listeners : ℕ → Bool → String → List Listener
suspend_listeners suspend battery_only action =
    if suspend == 0
    then []
    else if battery_only
    then battery_listener suspend action ∷ []
    else plain suspend (action <> " idle-suspend") ∷ []

-- The listeners before the sort.
unfoldable pub listeners : Settings → String → List Listener
unfolding lock_listeners screen_listeners suspend_listeners
listeners s action =
    lock_listeners (s.lock_mins * 60)
    ++ (screen_listeners (s.lock_mins * 60) (s.screen_off_mins * 60)
        ++ suspend_listeners (s.suspend_mins * 60) s.battery_only action)

-- `listeners.sort(key=...)`, which is stable.
unfoldable pub insert : Listener → List Listener → List Listener
insert l [] = l ∷ []
insert l (k ∷ ks) =
    let rest = k ∷ insert l ks in if leb l.timeout k.timeout then l ∷ k ∷ ks else rest

unfoldable pub sort : List Listener → List Listener
unfolding insert
sort [] = []
sort (l ∷ ls) = insert l (sort ls)

abbrev general : String → String
general action =
    "general {\n"
    <> ("  lock_cmd = " <> lock_command <> "\n")
    <> ("  before_sleep_cmd = " <> action <> " lock\n")
    <> ("  after_sleep_cmd = " <> dpms_on <> "\n")
    <> "  inhibit_sleep = 3\n"
    <> "}\n"

-- `"\n".join([general] + ...)`
join_blocks : String → List Listener → String
join_blocks text [] = text
join_blocks text (l ∷ ls) = join_blocks (text <> "\n" <> listener_text l) ls

unfoldable pub render : Settings → String → String
unfolding join_blocks
render s action = join_blocks (general action) (sort (listeners s action))
