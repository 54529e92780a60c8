-- ===== src/Calendar/Text.antt =====
-- `text` and `COLOR_RE` of calendar-events.py.
use Prim.Native.Char.{code}
use fedora_config.Base.{
  ℕ, ◌==◌, leb, Bool, false, ◌&&◌, ◌||◌, Option, none, some, List, [], ◌∷◌, all, length,
}
use fedora_config.Base.{String, str_eq, codes, strip, take_chars, is_hex, if◌then◌else◌}

-- `.replace("\x00", "")`
unfoldable pub remove_nul : String → String
remove_nul String.[] = String.[]
remove_nul (String.◌∷◌ c s) =
    let rest = remove_nul s in if code c == 0 then rest else String.◌∷◌ c rest

-- `value or fallback`; `None` is no text.
unfoldable pub or_fallback : Option String → String → String
or_fallback none fallback = fallback
or_fallback (some s) fallback = if str_eq s "" then fallback else s

unfoldable pub clean : String → ℕ → String
clean s limit = take_chars limit (strip (remove_nul s))

-- `text(value, fallback, limit)` of a text, and of an exception, which is never false.
unfoldable pub text : Option String → String → ℕ → String
text value fallback limit = clean (or_fallback value fallback) limit

unfoldable pub text_of_error : String → ℕ → String
text_of_error message limit = clean message limit

abbrev pub default_color : String
default_color = "#62a0ea"

-- `[0-9a-fA-F]`
unfoldable pub is_hex_digit : ℕ → Bool
is_hex_digit c = is_hex c || (leb b'A' c && leb c b'F')

-- `COLOR_RE.fullmatch(text)`
unfoldable pub is_color : List ℕ → Bool
is_color [] = false
is_color (c ∷ cs) = c == b'#' && ((length cs == 6 || length cs == 8) && all is_hex_digit cs)

unfoldable pub color_of : Option String → String
color_of value =
    let color = text value default_color 16 in
    if is_color (codes color) then color else default_color
