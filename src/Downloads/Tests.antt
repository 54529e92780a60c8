-- ===== src/Downloads/Tests.antt =====
-- Concrete runs of the download cache, in which a text is its own digest, and its theorems at
-- concrete data.
use fedora_config.Base.{
  ℕ, ◌==◌, ◌≡◌, refl, arith, true, false, some, [], ◌∷◌, String, if◌then◌else◌, ok, Result, All,
  List, Option, str_eq, drop_chars, none,
}
use fedora_config.Base.Action.{◌>>=◌}
use fedora_config.Json.{
  get, get_or, or_null, is_text, items, str, arr, obj, nil, cons, field, end, put, Value,
}
use fedora_config.Displays.Store.{File, absent, regular}
use fedora_config.Downloads.Fetch.{
  Attempt, refused, cut_short, received, Cache, cached_download, use_target, download, attempts,
  try_once, replace_target,
}
use fedora_config.Downloads.Verified.{IsSound, cached_download-IsSound, cached_download-returns}
use fedora_config.Downloads.Import.{
  Paths, Pin, Manifest, parsed, import_cache, import_all, import_entry, import_file, copy_file,
  copy_bytes, verified_entries, entries_of, iterate, if_allowed, blob_fits, has_digest,
  is_plain_path, verify_all, is_verified, allowed, allowed_at, is_pinned, fits_pattern, missing,
}
use fedora_config.Downloads.Merge.{
  arrived, Shared, merge_cache, merge_entries, merge_entry, merge_blob, refresh_blob, is_stale,
  unlink_temporary, copy_blob, keep_blob, set_blob, write_manifest, add_entry, add_entries,
}
use fedora_config.Downloads.Shared.{IsShared, merge_cache-IsShared}
use fedora_config.Downloads.Export.{Builder, Exported, export_cache}
use fedora_config.Downloads.Pins.{
  pins, pin_each, file_pins, app_pin, item, elements, joined, digest_of, pattern_of, shown,
  sanitize, is_plain_char, copr_key, copr_sha256, import_pinned,
}
use fedora_config.Downloads.Confined.{IsConfined, import_pinned-IsConfined}

abbrev self : String → String
self b = b

-- A refused connection, a short answer, a wrong file, and then the right one.
fetch : ℕ → Attempt String
fetch attempt =
    if attempt == 1
    then refused "connection refused"
    else if attempt == 2
    then cut_short "timed out" "im"
    else if attempt == 3
    then received "page"
    else received "image"

abbrev fresh : Cache String
fresh = record { target = absent; temporary = absent; problems = []; waits = [] }

fourth_succeeds : cached_download self "" "image" fetch fresh ≡ (
  ok tt,
  record {
    target = regular "image";
    temporary = absent;
    problems = (3, "checksum mismatch") ∷ (2, "timed out") ∷ (1, "connection refused") ∷ [];
    waits = 30 ∷ 20 ∷ 10 ∷ [];
  },
)
unfolding cached_download use_target download attempts try_once replace_target fetch
fourth_succeeds = refl

cached_download-IsSound_example :
    let (r, t) = cached_download self "" "image" fetch fresh in
    IsSound self "" "image" absent r t.target × (t.temporary ≡ absent)
cached_download-IsSound_example = cached_download-IsSound self "" "image" fetch fresh refl

cached_download-returns_example : (cached_download self "" "image" fetch fresh).0 ≡ ok tt
unfolding fetch
cached_download-returns_example =
    cached_download-returns self "" "image" fetch 4 "image" refl refl fresh (omega arith)
      (omega arith) refl (λ e. cc e)

abbrev flat : Paths
flat = record {
  parts = λ path. path ∷ [];
  parent = λ path. "/fonts";
  name = λ path. path;
  search = λ pattern name. true;
}

abbrev font_pin : Pin
font_pin = record { checksum = "font"; location = "/fonts/"; pattern = some "zip$" }

abbrev blobs : String → File String
blobs name = regular name

abbrev listing : Manifest
listing = parsed (
    obj (
      field "entries"
        (arr (
          cons (obj (field "path" (str "/fonts/a.zip") (field "sha256" (str "font") end))) (
            cons (obj (field "path" (str "/fonts/b.zip") (field "sha256" (str "other") end))) nil)))
        end))

imports_one :
    import_cache flat self blobs (λ path. false) (λ path. true) (font_pin ∷ []) listing []
    ≡ (ok tt, ("/fonts/a.zip", some "font") ∷ [])
unfolding import_cache import_all import_entry import_file copy_file copy_bytes verified_entries
    entries_of iterate verify_all is_verified if_allowed blob_fits has_digest allowed allowed_at
    is_pinned is_plain_path fits_pattern get get_or or_null is_text items ◌>>=◌
imports_one = refl

-- One application and no fonts.
abbrev inventory : Value
inventory = obj (
    field "github_release_apps"
      (arr (
        cons
          (obj (
            field "version" (str "v1 beta") (
              field "checksum" (str "sha256:font")
                (field "name" (str "app") (field "asset_regex" (str "zip$") end)))))
          nil))
      end)

pins_of_one :
    pins (λ v. "") inventory
    ≡ ok (
        record {
          checksum = "font";
          location = "/var/cache/cybexos-upstream/app/v1_beta/";
          pattern = some "zip$";
        }
        ∷ record { checksum = copr_sha256; location = copr_key; pattern = none }
        ∷ [])
unfolding pins pin_each file_pins app_pin item elements joined digest_of pattern_of shown sanitize
    is_plain_char drop_chars get get_or items
pins_of_one = refl

-- The directory of the application's one release, and a listing of a file in it.
abbrev cached : Paths
cached = record {
  parts = λ path. path ∷ [];
  parent = λ path. "/var/cache/cybexos-upstream/app/v1_beta";
  name = λ path. path;
  search = λ pattern name. true;
}

abbrev release_path : String
release_path = "/var/cache/cybexos-upstream/app/v1_beta/a.zip"

abbrev releases : Manifest
releases = parsed (
    obj (
      field "entries"
        (arr (cons (obj (field "path" (str release_path) (field "sha256" (str "font") end))) nil))
        end))

abbrev imported : List (String × Option String)
imported =
    (import_pinned (λ v. "") cached self blobs (λ path. false) (λ path. true) inventory releases
      []).1

imports_pinned : imported ≡ (release_path, some "font") ∷ []
unfolding import_pinned pins pin_each file_pins app_pin item elements joined digest_of pattern_of
    shown sanitize is_plain_char drop_chars import_cache import_all import_entry import_file
    copy_file copy_bytes verified_entries entries_of iterate verify_all is_verified if_allowed
    blob_fits has_digest allowed allowed_at is_pinned is_plain_path fits_pattern get get_or or_null
    is_text items ◌>>=◌
imports_pinned = refl

import_pinned-IsConfined_example : All (IsConfined cached self (λ path. false)) imported
import_pinned-IsConfined_example =
    import_pinned-IsConfined cached self (λ path. false) blobs (λ path. true) (λ v. "") inventory
      releases

-- The shared cache has no blob of the font, whose download arrives whole.
abbrev shared : Shared String
shared = record { blobs = λ name. absent; temporary = absent; manifest = missing }

abbrev merged : Result (Unit {0}) × Shared String
merged =
    merge_cache self (λ sha. arrived sha) (λ sha. true) flat blobs (font_pin ∷ []) listing true
      shared

merges_font : merged.1.blobs "font" ≡ regular "font"
unfolding merge_cache merge_entries merge_entry merge_blob refresh_blob is_stale unlink_temporary
    copy_blob keep_blob set_blob write_manifest add_entry add_entries verified_entries entries_of
    iterate verify_all is_verified if_allowed blob_fits has_digest allowed allowed_at is_pinned
    is_plain_path fits_pattern get get_or or_null put is_text items ◌>>=◌
merges_font = refl

merge_cache-IsShared_example : IsShared self (λ sha. arrived sha) (λ sha. true) shared merged.1
merge_cache-IsShared_example =
    merge_cache-IsShared self (λ sha. arrived sha) (λ sha. true) shared flat blobs (font_pin ∷ [])
      listing true refl

-- A builder with two fonts, one of which has another digest than the pin's.
abbrev builder : Builder String
builder = record {
  stands = λ path.
      if str_eq path "/fonts/a.zip"
      then regular "font"
      else if str_eq path "/fonts/b.zip"
      then regular "other"
      else absent;
  path_of = λ location. "/fonts";
  children = λ path. some (ok ("/fonts/a.zip" ∷ "/fonts/b.zip" ∷ []));
}

abbrev collecting : Exported String
collecting = record { blobs = λ name. absent; manifest = missing; entries = [] }

abbrev exported : Result (Unit {0}) × Exported String
exported =
    export_cache self builder flat (λ name. true) (λ bytes. "") (font_pin ∷ []) true collecting
