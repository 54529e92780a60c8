-- ===== src/Displays/Lua.antt =====
-- `first_line` and `lua_string` of display-settings.py.
use Prim.Native.Char.{Char, code}
use fedora_config.Base.{ℕ, ◌+◌, ◌/◌, ◌%◌, leb, ◌==◌, Bool, ◌||◌, ◌&&◌, List, [], ◌∷◌}
use fedora_config.Base.{String, ◌<>◌, is_alnum, is_control, strip, take_chars, if◌then◌else◌}

-- The characters at which `str.splitlines` ends a line.
unfoldable pub is_line_end : ℕ → Bool
is_line_end c =
    (leb 10 c && leb c 13) || (leb 28 c && leb c 30) || c == 133 || c == 8232 || c == 8233

unfoldable pub until_line_end : String → String
until_line_end String.[] = String.[]
until_line_end (String.◌∷◌ c s) =
    let rest = until_line_end s in if is_line_end (code c) then String.[] else String.◌∷◌ c rest

-- `CONTROL.sub(' ', text)`
unfoldable pub blank_controls : String → String
blank_controls String.[] = String.[]
blank_controls (String.◌∷◌ c s) =
    String.◌∷◌ (if is_control (code c) then " " else c) (blank_controls s)

unfoldable pub first_line : String → String
unfolding until_line_end blank_controls is_line_end strip take_chars
first_line text = take_chars 200 (blank_controls (until_line_end (strip text)))

-- The bytes of a character's UTF-8.
unfoldable pub utf8 : ℕ → List ℕ
utf8 c =
    if leb c 127
    then c ∷ []
    else if leb c 2047
    then (192 + c / 64) ∷ (128 + c % 64) ∷ []
    else if leb c 65535
    then (224 + c / 4096) ∷ (128 + c / 64 % 64) ∷ (128 + c % 64) ∷ []
    else (240 + c / 262144) ∷ (128 + c / 4096 % 64) ∷ (128 + c / 64 % 64) ∷ (128 + c % 64) ∷ []

-- `[A-Za-z0-9/_.\- ]`
unfoldable pub is_plain : ℕ → Bool
is_plain c = is_alnum c || c == b'/' || c == b'_' || c == b'.' || c == b'-' || c == 32

-- A digit below ten as a character.
unfoldable pub digit : ℕ → Char
digit n =
    if n == 0
    then "0"
    else if n == 1
    then "1"
    else if n == 2
    then "2"
    else if n == 3
    then "3"
    else if n == 4
    then "4"
    else if n == 5
    then "5"
    else if n == 6
    then "6"
    else if n == 7
    then "7"
    else if n == 8
    then "8"
    else "9"

-- `f'\\{b:03d}'`
unfoldable pub escape_byte : ℕ → String → String
escape_byte b rest = String.◌∷◌ "\\" (
    String.◌∷◌ (digit (b / 100))
      (String.◌∷◌ (digit (b / 10 % 10)) (String.◌∷◌ (digit (b % 10)) rest)))

unfoldable pub escape_bytes : List ℕ → String → String
escape_bytes [] rest = rest
escape_bytes (b ∷ bs) rest = escape_byte b (escape_bytes bs rest)

unfoldable pub lua_body : String → String
lua_body String.[] = String.[]
lua_body (String.◌∷◌ c s) =
    let rest = lua_body s in
    if is_plain (code c) then String.◌∷◌ c rest else escape_bytes (utf8 (code c)) rest

unfoldable pub lua_string : String → String
unfolding lua_body
lua_string s = "\"" <> lua_body s <> "\""
