-- ===== src/Plugins/Ids.antt =====
-- Plugin identifiers of user-plugins.py: `PACKAGE_ID`, `ID` and `valid_id`.
use fedora_config.Base.{ℕ, ◌==◌, Bool, true, false, not, ◌&&◌, ◌||◌, List, [], ◌∷◌, all}
use fedora_config.Base.{String, codes, is_alnum, is_digit, is_lower, is_upper}
use fedora_config.Json.{Value, str}

-- `[A-Za-z0-9_.-]`
unfoldable pub is_package_char : ℕ → Bool
is_package_char c = is_alnum c || c == b'_' || c == b'.' || c == b'-'

-- `PACKAGE_ID.fullmatch(text)`
unfoldable pub matches_package_id : List ℕ → Bool
unfolding is_package_char
matches_package_id [] = false
matches_package_id (c ∷ cs) = (is_lower c || is_upper c) && all is_package_char cs

-- `'..' in text`
unfoldable pub has_dots : List ℕ → Bool
has_dots [] = false
has_dots (c ∷ []) = false
has_dots (c ∷ d ∷ cs) = (c == b'.' && d == b'.') || has_dots (d ∷ cs)

unfoldable pub valid_id : String → Bool
unfolding matches_package_id has_dots
valid_id plugin_id = matches_package_id (codes plugin_id) && not (has_dots (codes plugin_id))

-- `valid_id` of any value: what is no text is no identifier.
unfoldable pub valid_id_value : Value → Bool
unfolding valid_id
valid_id_value (str plugin_id) = valid_id plugin_id
valid_id_value _ = false

unfoldable pub is_native_char : ℕ → Bool
is_native_char c = is_lower c || is_digit c

unfoldable pub is_separator : ℕ → Bool
is_separator c = c == b'.' || c == b'-'

-- The rest of a match of `ID`, after a letter or digit, and after a separator.
unfoldable mutual
  pub after_char : List ℕ → Bool
  after_char [] = true
  after_char (c ∷ cs) =
      let rest = after_char cs in
      let next = after_separator cs in (is_native_char c && rest) || (is_separator c && next)

  pub after_separator : List ℕ → Bool
  after_separator [] = false
  after_separator (c ∷ cs) = let rest = after_char cs in is_native_char c && rest

-- `ID.fullmatch(text)`
unfoldable pub matches_id : List ℕ → Bool
matches_id [] = false
matches_id (c ∷ cs) = is_lower c && after_char cs
