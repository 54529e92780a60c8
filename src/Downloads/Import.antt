-- ===== src/Downloads/Import.antt =====
-- `allowed`, `verified_entries` and `import_cache` of image/download_cache.py: which cached files
-- the image build copies into place. pathlib and re are parameters (`Paths`), and so is the disk.
use fedora_config.Base.{
  ◌==◌, Bool, true, false, not, ◌&&◌, ◌||◌, Option, none, some, List, [], ◌∷◌, any,
}
use fedora_config.Base.{String, ◌<>◌, str_eq, starts_with, codes, if◌then◌else◌}
use fedora_config.Base.{
  Result, ok, raised, value_error, os_error, attribute_error, key_error, type_error, Exec, pure,
  raise, lift,
}
use fedora_config.Base.Fallible
use fedora_config.Base.Action.{◌>>=◌, ◌>>◌}
use fedora_config.Json.{Value, str, arr, obj, end, get, get_or, or_null, is_text, items}
use fedora_config.Displays.Store.{File, regular, unreadable, symlink}

-- `PurePosixPath(path)`'s parts, parent and name, and `re.search`.
pub record Paths : Type 0 where
  pub parts : String → List String
  pub parent : String → String
  pub name : String → String
  pub search : String → String → Bool

-- One tuple of the contract that `pins` reads from the inventory.
pub record Pin : Type 0 where
  pub checksum : String
  pub location : String
  pub pattern : Option String

pub data Manifest : Type 0 where
  missing unparsable : Manifest
  parsed : Value → Manifest

module _ (paths : Paths) where
  unfoldable pub fits_pattern : Option String → Pin → String → Bool
  fits_pattern none pin path = str_eq path pin.location
  fits_pattern (some pattern) pin path =
      not (str_eq pattern "")
      && (str_eq (paths.parent path <> "/") pin.location && paths.search pattern (paths.name path))

  -- The loop of `allowed`.
  unfoldable pub is_pinned : List Pin → String → Value → Bool
  is_pinned [] path sha = false
  is_pinned (pin ∷ pins) path sha =
      (is_text pin.checksum sha && fits_pattern pin.pattern pin path) || is_pinned pins path sha

  -- `path.startswith("/") and ".." not in parts and "\x00" not in path`
  unfoldable pub is_plain_path : String → Bool
  is_plain_path path =
      starts_with path "/"
      && (not (any (λ part. str_eq part "..") (paths.parts path))
          && not (any (λ c. c == 0) (codes path)))

  unfoldable pub allowed_at : List Pin → Value → Value → Result Bool
  allowed_at contract (str path) sha = ok (is_plain_path path && is_pinned contract path sha)
  allowed_at contract _ sha = raised attribute_error

  unfoldable pub allowed : List Pin → Value → Result Bool
  unfolding allowed_at
  allowed contract (obj entry) =
      allowed_at contract (get_or (str "") (get "path" entry)) (or_null (get "sha256" entry))
  allowed contract _ = raised attribute_error

  module _ {B : Type 0} (sha256 : B → String) (blobs : String → File B) where
    -- `not blob.is_symlink() and blob.is_file() and digest(blob) == entry["sha256"]`
    unfoldable pub has_digest : File B → String → Result Bool
    has_digest (regular b) sha = ok (str_eq (sha256 b) sha)
    has_digest unreadable sha = raised os_error
    has_digest _ sha = ok false

    unfoldable pub blob_fits : Option Value → Result Bool
    unfolding has_digest
    blob_fits (some (str sha)) = has_digest (blobs sha) sha
    blob_fits (some _) = raised type_error
    blob_fits none = raised key_error

    unfoldable pub if_allowed : Result Bool → Option Value → Result Bool
    unfolding blob_fits
    if_allowed (ok true) sha = blob_fits sha
    if_allowed r sha = r

    -- The body of the loop of `verified_entries`: whether the entry is appended.
    unfoldable pub is_verified : List Pin → Value → Result Bool
    unfolding if_allowed
    is_verified contract (obj entry) =
        if_allowed (allowed contract (obj entry)) (get "sha256" entry)
    is_verified contract v = raised attribute_error

    unfoldable pub verify_all : List Pin → List Value → Result (List Value)
    unfolding is_verified
    verify_all contract [] = ok []
    verify_all contract (e ∷ es) = Fallible.◌>>=◌ (is_verified contract e) (λ good.
        Fallible.◌>>=◌ (verify_all contract es) (λ rest. ok (if good then e ∷ rest else rest)))

    -- What a `for` loop takes from a JSON value. The characters of a text and the keys of an object
    -- have no `get`, so that the first of them ends the loop.
    unfoldable pub iterate : Option Value → Result (List Value)
    iterate (some (arr xs)) = ok (items xs)
    iterate (some (obj end)) = ok []
    iterate (some (obj fs)) = raised attribute_error
    iterate (some (str s)) = if str_eq s "" then ok [] else raised attribute_error
    iterate (some _) = raised type_error
    iterate none = raised key_error

    -- `json.loads(...)["entries"]`, to iterate.
    unfoldable pub entries_of : Manifest → Result (List Value)
    unfolding iterate
    entries_of missing = ok []
    entries_of unparsable = raised (value_error "the manifest does not parse")
    entries_of (parsed (obj fs)) = iterate (get "entries" fs)
    entries_of (parsed _) = raised type_error

    unfoldable pub verified_entries : List Pin → Manifest → Result (List Value)
    unfolding verify_all entries_of
    verified_entries contract manifest = Fallible.◌>>=◌ (entries_of manifest) (verify_all contract)

    -- The files that were written, latest first; `none` is a copy that the disk cut short.
    abbrev pub Writes : Type 0
    Writes = List (String × Option B)

    module _ (is_linked takes : String → Bool) where
      -- `shutil.copyfile(blob, target)`, which follows a link.
      unfoldable pub copy_bytes : B → String → Exec Writes (Unit {0})
      copy_bytes b path w =
          if takes path then (ok tt, (path, some b) ∷ w) else (raised os_error, (path, none) ∷ w)

      unfoldable pub copy_file : File B → String → Exec Writes (Unit {0})
      unfolding copy_bytes
      copy_file (regular b) path w = copy_bytes b path w
      copy_file (symlink (some b)) path w = copy_bytes b path w
      copy_file _ path w = (raised os_error, w)

      unfoldable pub import_file : Value → Value → Exec Writes (Unit {0})
      unfolding copy_file
      import_file (str path) (str sha) w =
          if is_linked path
          then (raised (value_error "Refusing a symlink in download cache destination"), w)
          else copy_file (blobs sha) path w
      import_file _ _ w = (raised type_error, w)

      unfoldable pub import_entry : Value → Exec Writes (Unit {0})
      unfolding import_file
      import_entry (obj entry) =
          import_file (or_null (get "path" entry)) (or_null (get "sha256" entry))
      import_entry _ = raise type_error

      unfoldable pub import_all : List Value → Exec Writes (Unit {0})
      unfolding import_entry
      import_all [] = pure tt
      import_all (e ∷ es) = do import_entry e; import_all es

      -- `import_cache`
      unfoldable pub import_cache : List Pin → Manifest → Exec Writes (Unit {0})
      import_cache contract manifest = do
        entries ← lift (verified_entries contract manifest)
        import_all entries
