-- ===== src/Downloads/Merge.antt =====
-- `merge_cache` of image/download_cache.py: verified downloads added to a shared cache.
use fedora_config.Base.{
  Bool, true, false, not, Option, none, some, List, [], ◌∷◌, String, str_eq, if◌then◌else◌,
}
use fedora_config.Base.{
  Result, ok, raised, value_error, os_error, key_error, type_error, Exec, pure, raise, lift,
}
use fedora_config.Base.Action.{◌>>=◌}
use fedora_config.Json.{Value, str, arr, obj, Items, nil, cons, Fields, field, end, get, put}
use fedora_config.Displays.Store.{File, absent, regular, symlink, unreadable}
use fedora_config.Downloads.Import.{Paths, Pin, Manifest, parsed, verified_entries}

-- What a copy of a blob into a temporary file gives.
pub data Transfer (B : Type 0) : Type 0 where
  failed : Transfer B
  arrived : B → Transfer B

-- The shared directory: the blobs by name, and the manifest. The temporary file of a blob is
-- unlinked before the next one is made.
pub record Shared (B : Type 0) : Type 0 where
  pub blobs : String → File B
  pub temporary : File B
  pub manifest : Manifest

-- `value for value in existing.values()`
unfoldable pub values : Fields → Items
values end = nil
values (field path entry rest) = cons entry (values rest)

-- `existing[entry["path"]] = entry`
unfoldable pub add_entry : Value → Fields → Result Fields
add_entry (obj entry) existing = elim (get "path" entry) [
  | some (str path) ↦ ok (put path (obj entry) existing)
  | some _ ↦ raised type_error
  | none ↦ raised key_error
]
add_entry _ existing = raised type_error

unfoldable pub add_entries : List Value → Fields → Result Fields
add_entries [] existing = ok existing
add_entries (e ∷ es) existing = elim (add_entry e existing) [
  | ok more ↦ add_entries es more
  | raised x ↦ raised x
]

module _ {B : Type 0} (sha256 : B → String) where
  -- `not target.is_file() or digest(target) != sha`, where `is_file` follows a link.
  unfoldable pub is_stale : File B → String → Result Bool
  is_stale (regular b) sha = ok (not (str_eq (sha256 b) sha))
  is_stale (symlink (some b)) sha = ok (not (str_eq (sha256 b) sha))
  is_stale unreadable sha = raised os_error
  is_stale _ sha = ok true

  unfoldable pub set_blob : String → File B → Shared B → Shared B
  set_blob sha file w = record w { blobs = λ name. if str_eq name sha then file else w.blobs name }

  module _ (transfer : String → Transfer B) (takes : String → Bool) where
    -- The `try`, with the copy in the temporary file.
    unfoldable pub keep_blob : String → B → Exec (Shared B) (Unit {0})
    keep_blob sha b w =
        if str_eq (sha256 b) sha
        then (if takes sha then (ok tt, set_blob sha (regular b) w) else (raised os_error, w))
        else (raised (value_error "Download cache changed during transfer"), w)

    unfoldable pub copy_blob : Transfer B → String → Exec (Shared B) (Unit {0})
    copy_blob failed sha w = (raised os_error, w)
    copy_blob (arrived b) sha w = keep_blob sha b (record w { temporary = regular b })

    -- `finally: temporary.unlink(missing_ok=True)`
    unfoldable pub unlink_temporary : Result (Unit {0}) × Shared B → Result (Unit {0}) × Shared B
    unlink_temporary (r, w) = (r, record w { temporary = absent })

    unfoldable pub refresh_blob : Result Bool → String → Exec (Shared B) (Unit {0})
    refresh_blob (ok true) sha w = unlink_temporary (copy_blob (transfer sha) sha w)
    refresh_blob (ok false) sha w = (ok tt, w)
    refresh_blob (raised e) sha w = (raised e, w)

    unfoldable pub merge_blob : Option Value → Exec (Shared B) (Unit {0})
    merge_blob (some (str sha)) w = refresh_blob (is_stale (w.blobs sha) sha) sha w
    merge_blob (some _) w = (raised type_error, w)
    merge_blob none w = (raised key_error, w)

    unfoldable pub merge_entry : Value → Exec (Shared B) (Unit {0})
    merge_entry (obj entry) = merge_blob (get "sha256" entry)
    merge_entry _ = raise type_error

    unfoldable pub merge_entries : List Value → Fields → Exec (Shared B) Fields
    merge_entries [] existing = pure existing
    merge_entries (e ∷ es) existing =
        merge_entry e >>= λ _. lift (add_entry e existing) >>= λ more. merge_entries es more

    -- `atomic_json(destination / "manifest.json", ...)`; `written` says that it succeeds.
    unfoldable pub write_manifest : Bool → Fields → Exec (Shared B) (Unit {0})
    write_manifest true existing w =
        (ok tt, record w { manifest = parsed (obj (field "entries" (arr (values existing)) end)) })
    write_manifest false existing w = (raised os_error, w)

    module _ (paths : Paths) (source : String → File B) where
      -- `merge_cache`, under the lock; `source` and `incoming` are the other cache.
      unfoldable pub merge_cache : List Pin → Manifest → Bool → Exec (Shared B) (Unit {0})
      merge_cache contract incoming written = do
        verified ← (λ w. (verified_entries paths sha256 w.blobs contract w.manifest, w))
        existing ← lift (add_entries verified end)
        entries ← lift (verified_entries paths sha256 source contract incoming)
        merged ← merge_entries entries existing
        write_manifest written merged
