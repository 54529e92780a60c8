-- ===== src/Downloads/Pins.antt =====
-- `pins` of image/download_cache.py: the contract that the inventory makes, and the import by it.
use Prim.Native.Char.{code}
use fedora_config.Base.{ℕ, ◌==◌, Bool, ◌&&◌, ◌||◌, Option, none, some, List, [], ◌∷◌, ◌++◌}
use fedora_config.Base.{String, ◌<>◌, str_eq, starts_with, drop_chars, is_alnum, if◌then◌else◌}
use fedora_config.Base.{Result, ok, raised, attribute_error, key_error, type_error, Exec, lift}
use fedora_config.Base.Fallible.{◌>>=◌}
use fedora_config.Base.Action
use fedora_config.Json.{Value, null, str, arr, obj, nil, end, get, get_or, is_true, items}
use fedora_config.Displays.Store.{File}
use fedora_config.Downloads.Import.{Paths, Pin, Manifest, Writes, import_cache}

abbrev pub upstream_root : String
upstream_root = "/var/cache/cybexos-upstream/"

abbrev pub fonts_root : String
fonts_root = "/usr/local/share/fonts/"

abbrev pub copr_key : String
copr_key = "/home/builder/build/hyprland.gpg"

abbrev pub copr_sha256 : String
copr_sha256 = "581bd602d10705eb89003680335ffc3684b922c587073b6e52c371f949843fd7"

-- `[A-Za-z0-9._+-]`
unfoldable pub is_plain_char : ℕ → Bool
is_plain_char c = is_alnum c || (c == b'.' || (c == b'_' || (c == b'+' || c == b'-')))

-- `re.sub(r"[^A-Za-z0-9._+-]", "_", text)`
unfoldable pub sanitize : String → String
sanitize String.[] = String.[]
sanitize (String.◌∷◌ c s) =
    let rest = sanitize s in if is_plain_char (code c) then String.◌∷◌ c rest else "_" <> rest

-- `checksum.removeprefix("sha256:")`
unfoldable pub digest_of : Value → Result String
digest_of (str s) = ok (if starts_with s "sha256:" then drop_chars 7 s else s)
digest_of _ = raised attribute_error

-- `value[key]`
unfoldable pub item : String → Value → Result Value
item key (obj fields) = elim (get key fields) [ none ↦ raised key_error | some v ↦ ok v ]
item key _ = raised type_error

-- What a `for` loop whose body takes `value[key]` first has of a value.
unfoldable pub elements : Value → Result (List Value)
elements (arr vs) = ok (items vs)
elements (obj end) = ok []
elements (str s) = if str_eq s "" then ok [] else raised type_error
elements _ = raised type_error

-- `a + b`
unfoldable pub joined : Value → Value → Result (List Value)
joined (arr vs) (arr ws) = ok (items vs ++ items ws)
joined (str s) (str t) = if str_eq s "" && str_eq t "" then ok [] else raised type_error
joined _ _ = raised type_error

-- What `allowed` makes of a pattern: a value that is false is an empty one, and any other than a
-- text is refused, here and not at its first use.
unfoldable pub pattern_of : Value → Result (Option String)
pattern_of null = ok none
pattern_of (str s) = ok (some s)
pattern_of v = if is_true v then raised type_error else ok (some "")

-- `text_of` is `str` of a value that is no text.
module _ (text_of : Value → String) where
  unfoldable pub shown : Value → String
  shown (str s) = s
  shown v = text_of v

  unfoldable pub app_pin : Value → Result Pin
  app_pin app = item "version" app >>= λ version. item "checksum" app >>= λ checksum.
      digest_of checksum >>= λ digest. item "name" app >>= λ name.
      item "asset_regex" app >>= λ regex. pattern_of regex >>= λ pattern. ok (record {
        checksum = digest;
        location = upstream_root <> (shown name <> "/" <> sanitize (shown version) <> "/");
        pattern = pattern;
      })

  unfoldable pub archive_pin : Value → Result Pin
  archive_pin font = item "checksum" font >>= λ checksum. digest_of checksum >>= λ digest.
      item "name" font >>= λ name. item "version" font >>= λ version. ok (record {
        checksum = digest;
        location = upstream_root <> (shown name <> "/" <> shown version <> ".zip");
        pattern = none;
      })

  unfoldable pub file_pin : String → String → Value → Result Pin
  file_pin checksum_key filename_key font = item checksum_key font >>= λ checksum.
      digest_of checksum >>= λ digest. item "name" font >>= λ name.
      item "version" font >>= λ version. item filename_key font >>= λ filename. ok (record {
        checksum = digest;
        location = fonts_root <> (shown name <> "/" <> shown version <> "/" <> shown filename);
        pattern = none;
      })

  -- One pin for each value.
  unfoldable pub pin_each : (Value → Result Pin) → List Value → Result (List Pin)
  pin_each f [] = ok []
  pin_each f (v ∷ vs) = f v >>= λ pin. pin_each f vs >>= λ pins. ok (pin ∷ pins)

  unfoldable pub file_pins : List Value → Result (List Pin)
  file_pins [] = ok []
  file_pins (font ∷ fonts) = file_pin "checksum" "filename" font >>= λ file.
      file_pin "license_checksum" "license_filename" font >>= λ license.
      file_pins fonts >>= λ pins. ok (file ∷ license ∷ pins)

  unfoldable pub pins : Value → Result (List Pin)
  pins (obj inventory) =
      joined (get_or (arr nil) (get "github_release_apps" inventory))
        (get_or (arr nil) (get "nerd_font_apps" inventory))
      >>= λ apps. pin_each app_pin apps >>= λ app_pins.
          elements (get_or (arr nil) (get "pinned_font_archives" inventory)) >>= λ archives.
          pin_each archive_pin archives >>= λ archive_pins.
          elements (get_or (arr nil) (get "pinned_font_files" inventory)) >>= λ fonts.
          file_pins fonts >>= λ font_pins. ok (
            app_pins
            ++ archive_pins
            ++ font_pins
            ++ (record { checksum = copr_sha256; location = copr_key; pattern = none } ∷ []))
  pins _ = raised attribute_error

  -- `main` with the action `import`.
  unfoldable pub import_pinned :
      (paths : Paths) {B : Type 0} (sha256 : B → String) (blobs : String → File B)
      (is_linked takes : String → Bool)
      → Value
      → Manifest
      → Exec (Writes paths sha256 blobs) (Unit {0})
  import_pinned paths sha256 blobs is_linked takes inventory manifest =
      Action.◌>>=◌ (lift (pins inventory))
        (λ contract. import_cache paths sha256 blobs is_linked takes contract manifest)
