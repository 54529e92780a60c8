-- ===== src/Displays/Clock.antt =====
-- Times of display-settings.py. The clock is read as a number of 1024ths of a second, which doubles
-- hold exactly; `seconds` is the float, in lowest terms, that `time.time()` returns.
use fedora_config.Base.{
  ℕ, zero, suc, ◌+◌, ◌*◌, ◌/◌, ◌%◌, ◌^◌, ◌==◌, ltb, pos, pos_part, Bool, Dyadic,
}
use fedora_config.Base.{if◌then◌else◌, whole}

abbrev pub trial_seconds : ℕ
trial_seconds = 15

-- `TRIAL_SECONDS + 5`
abbrev pub watchdog_seconds : ℕ
watchdog_seconds = 20

abbrev pub confirm_grace_seconds : ℕ
confirm_grace_seconds = 3

unfoldable pub reduce : ℕ → ℕ → Dyadic
reduce n zero = whole (pos n)
reduce n (suc e) =
    let half = reduce (n / 2) e in
    if n % 2 == 0 then half else record { mantissa = pos n; exponent = suc e }

unfoldable pub seconds : ℕ → Dyadic
unfolding reduce
seconds now = reduce now 10

-- `time + extra > now`, for a time that is not negative.
unfoldable pub lasts_past : Dyadic → ℕ → ℕ → Bool
lasts_past time extra now =
    ltb (now * 2 ^ time.exponent) ((pos_part time.mantissa + extra * 2 ^ time.exponent) * 1024)

-- `now > time + extra`
unfoldable pub is_past : Dyadic → ℕ → ℕ → Bool
is_past time extra now =
    ltb ((pos_part time.mantissa + extra * 2 ^ time.exponent) * 1024) (now * 2 ^ time.exponent)
