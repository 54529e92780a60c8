-- ===== src/Downloads/Restored.antt =====
-- What `export_cache` collects on one builder, `import_cache` puts in place on the next.
use fedora_config.Base.{◌≡◌, Bool, true, false, Option, some, List, All, any}
use fedora_config.Base.{String, str_eq, ok}
use fedora_config.Base.Triple.{Triple}
use fedora_config.Json.{Value, arr, obj, field, end}
use fedora_config.Displays.Store.{File, regular}
use fedora_config.Downloads.Import.{Paths, Pin, parsed, allowed}
use fedora_config.Downloads.Export.{Builder, Exported, entry_at, as_items, candidates}
use fedora_config.Downloads.Collected.{IsCollected, AreCollected}
use fedora_config.Downloads.Exported.{IsDone}

module _ {B : Type 0} (sha256 : B → String) (builder : Builder B) (paths : Paths)
    (takes : String → Bool) (cut : B → B) (contract : List Pin) where
  abbrev Good : (String → File B) → Value → Type 0
  Good = IsCollected sha256 builder paths takes cut contract

  -- The bytes have the digest of the builder's file at the path.
  abbrev pub IsSame : String × Option B → Type 0
  IsSame (path, content) =
      (b : B) × (file : B) × (content ≡ some b)
      × (builder.stands path ≡ regular file)
      × (sha256 b ≡ sha256 file)

  module _ (blobs : String → File B) where
    abbrev written_at : String → List (String × Option B) → Bool
    written_at path = any (λ x. str_eq x.0 path)

    abbrev take_all : String → Bool
    take_all path = true

    abbrev link_none : String → Bool
    link_none path = false

  -- The export's manifest lists its entries.
  abbrev IsExport : Exported B → Type 0
  IsExport v =
      AreCollected sha256 builder paths takes cut contract v
      × All (IsDone sha256 builder paths takes cut contract v.entries) contract
      × (v.manifest ≡ parsed (obj (field "entries" (arr (as_items v.entries)) end)))

  -- The pinned files of the builder that are written.
  abbrev pub AreWritten : List (String × Option B) → Pin → Type 0
  AreWritten ws pin =
      (found : List String) × (candidates sha256 builder pin ≡ ok found)
      × All
          (λ path.
            (b : B)
            → builder.stands path ≡ regular b
            → allowed paths contract (entry_at path pin.checksum) ≡ ok true
            → str_eq (sha256 b) pin.checksum ≡ true
            → any (λ x. str_eq x.0 path) ws ≡ true)
          found
