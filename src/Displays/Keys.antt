-- ===== src/Displays/Keys.antt =====
-- Display identifiers: the regular expressions and `valid_key` of display-settings.py.
use fedora_config.Base.{ℕ, Bool, false, not, ◌&&◌, ◌||◌, ◌==◌, leb, List, if◌then◌else◌}
use fedora_config.Base.{String, str_eq, starts_with, codes, length, all, any}
use fedora_config.Base.{is_alnum, is_hex, is_control, strip, drop_chars, drop_newline}
use fedora_config.Json.{Value, str}

-- `[A-Za-z0-9_.-]`
unfoldable pub is_connector_char : ℕ → Bool
is_connector_char c = is_alnum c || c == b'_' || c == b'.' || c == b'-'

-- `CONNECTOR.match(text)`
unfoldable pub matches_connector : String → Bool
unfolding is_connector_char drop_newline
matches_connector s =
    let name = drop_newline (codes s) in
    all is_connector_char name && leb 1 (length name) && leb (length name) 64

-- `TOKEN.match(text)`
unfoldable pub matches_token : String → Bool
unfolding drop_newline
matches_token s = let name = drop_newline (codes s) in all is_hex name && length name == 16

-- `CONTROL.search(text)`
unfoldable pub has_control : List ℕ → Bool
has_control cs = any is_control cs

unfoldable pub valid_name : String → Bool
unfolding matches_connector has_control strip drop_chars
valid_name key =
    let description = drop_chars 5 key in
    if starts_with key "desc:"
    then leb (length (codes key)) 261
      && not (str_eq description "")
      && str_eq (strip description) description
      && not (has_control (codes description))
    else matches_connector key

unfoldable pub valid_key : Value → Bool
unfolding valid_name
valid_key (str key) = valid_name key
valid_key _ = false
