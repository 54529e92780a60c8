-- ===== src/Downloads/Export.antt =====
-- `export_cache` of image/download_cache.py: the pinned downloads of a builder, collected.
use fedora_config.Base.{
  Bool, true, false, Option, none, some, List, [], ◌∷◌, ◌++◌, String, str_eq, if◌then◌else◌,
}
use fedora_config.Base.{Result, ok, raised, os_error, Exec, pure, raise, lift}
use fedora_config.Base.Action.{◌>>=◌, ◌>>◌}
use fedora_config.Json.{Value, str, arr, obj, Items, nil, cons, field, end}
use fedora_config.Displays.Store.{File, regular, symlink, unreadable}
use fedora_config.Downloads.Import.{Paths, Pin, Manifest, parsed, allowed}

-- The builder's files: what stands at a path, what `Path` makes of a location, and what `iterdir`
-- gives of a directory; `none` is no directory.
pub record Builder (B : Type 0) : Type 0 where
  pub stands : String → File B
  pub path_of : String → String
  pub children : String → Option (Result (List String))

-- The directory that the files are collected in, with the list `entries`.
pub record Exported (B : Type 0) : Type 0 where
  pub blobs : String → File B
  pub manifest : Manifest
  pub entries : List Value

abbrev pub entry_at : String → String → Value
entry_at path sha = obj (field "path" (str path) (field "sha256" (str sha) end))

unfoldable pub as_items : List Value → Items
as_items [] = nil
as_items (v ∷ vs) = cons v (as_items vs)

module _ {B : Type 0} (sha256 : B → String) (builder : Builder B) where
  -- The candidates of a pin; an empty pattern is none.
  unfoldable pub below : Option (Result (List String)) → Result (List String)
  below none = ok []
  below (some listed) = listed

  unfoldable pub candidates : Pin → Result (List String)
  candidates pin = elim pin.pattern [
    | none ↦ ok (builder.path_of pin.location ∷ [])
    | some pattern ↦
        if str_eq pattern ""
        then ok (builder.path_of pin.location ∷ [])
        else below (builder.children (builder.path_of pin.location))
  ]

  module _ (paths : Paths) (takes : String → Bool) (cut : B → B) (contract : List Pin) where
    abbrev pub replace_blob : String → File B → Exported B → Exported B
    replace_blob sha file w = record w {
      blobs = λ name. if str_eq name sha then file else w.blobs name;
    }

    -- What a copy to a name leaves there, which follows a link.
    unfoldable pub written_over : File B → B → File B
    written_over (symlink f) b = symlink (some b)
    written_over _ b = regular b

    unfoldable pub write_blob : String → B → Exec (Exported B) (Unit {0})
    write_blob sha b w = (ok tt, replace_blob sha (written_over (w.blobs sha) b) w)

    -- `shutil.copyfile(candidate, directory / checksum)`; a copy that fails may leave a part.
    unfoldable pub copy_out : B → String → Exec (Exported B) (Unit {0})
    copy_out b sha =
        if takes sha then write_blob sha b else write_blob sha (cut b) >> raise os_error

    unfoldable pub append_entry : String → String → Exec (Exported B) (Unit {0})
    append_entry path sha w = (ok tt, record w { entries = w.entries ++ (entry_at path sha ∷ []) })

    unfoldable pub export_bytes : String → B → String → Exec (Exported B) (Unit {0})
    export_bytes path b sha =
        if str_eq (sha256 b) sha then copy_out b sha >> append_entry path sha else pure tt

    -- What stands at an allowed candidate.
    unfoldable pub export_file : String → File B → String → Exec (Exported B) (Unit {0})
    export_file path (regular b) sha = export_bytes path b sha
    export_file path unreadable sha = lift (raised os_error)
    export_file path _ sha = pure tt

    -- `not candidate.is_file() or candidate.is_symlink()`
    unfoldable pub is_skipped : File B → Bool
    is_skipped (regular b) = false
    is_skipped unreadable = false
    is_skipped _ = true

    unfoldable pub export_candidate : String → String → Exec (Exported B) (Unit {0})
    export_candidate sha path =
        if is_skipped (builder.stands path)
        then pure tt
        else lift (allowed paths contract (entry_at path sha)) >>= λ good.
            if good then export_file path (builder.stands path) sha else pure tt

    unfoldable pub export_candidates : String → List String → Exec (Exported B) (Unit {0})
    export_candidates sha [] = pure tt
    export_candidates sha (path ∷ rest) = export_candidate sha path >> export_candidates sha rest

    unfoldable pub export_pins : List Pin → Exec (Exported B) (Unit {0})
    export_pins [] = pure tt
    export_pins (pin ∷ pins) =
        lift (candidates pin) >>= λ found. export_candidates pin.checksum found >> export_pins pins

    -- `atomic_json(directory / "manifest.json", {"entries": entries})`
    unfoldable pub write_entries : Bool → Exec (Exported B) (Unit {0})
    write_entries true w = (
      ok tt,
      record w { manifest = parsed (obj (field "entries" (arr (as_items w.entries)) end)) },
    )
    write_entries false w = (raised os_error, w)

    unfoldable pub export_cache : Bool → Exec (Exported B) (Unit {0})
    export_cache written = export_pins contract >> write_entries written
