-- ===== src/Displays/Numbers.antt =====
-- `is_int` and `is_number` of display-settings.py over JSON values.
use fedora_config.Base.{ℕ, ℤ, pos_part, neg_part, ◌+◌, ◌-◌, ◌^◌}
use fedora_config.Base.{Bool, false, ◌&&◌, Option, some, leb_ℤ, ltb}
use fedora_config.Base.{Dyadic, whole, leb_dyadic, is_integer, if◌then◌else◌}
use fedora_config.Base.{Result, ok, raised, overflow_error}
use fedora_config.Json.{Value, int, float}

-- `float(n)` of an int rounds to the nearest double, ties to even, and raises `OverflowError`
-- from 2 ^ 1024 - 2 ^ 970 on.
unfoldable pub float_limit : ℕ
float_limit = 2 ^ 1024 - 2 ^ 970

unfoldable pub fits_float : ℤ → Bool
fits_float n = ltb (pos_part n + neg_part n) float_limit

-- The bounds are ints in every call.
unfoldable pub is_int : Option Value → ℤ → ℤ → Result Bool
is_int (some (int n)) low high =
    if fits_float n then ok (leb_ℤ low n && leb_ℤ n high) else raised overflow_error
is_int (some (float x)) low high =
    ok (is_integer x && leb_dyadic (whole low) x && leb_dyadic x (whole high))
is_int _ low high = ok false

unfoldable pub is_number : Option Value → Dyadic → Dyadic → Bool
is_number (some (int n)) low high = leb_dyadic low (whole n) && leb_dyadic (whole n) high
is_number (some (float x)) low high = leb_dyadic low x && leb_dyadic x high
is_number _ low high = false
