-- ===== src/Downloads/Shared.antt =====
-- What `merge_cache` does to the blobs of the shared cache.
use fedora_config.Base.{
  ◌≡◌, ◌⊎◌, inl, inr, refl, ◌∙◌, Bool, true, false, Bool-cases, Option, none, some, List, [], ◌∷◌,
  String, str_eq, eq_iff,
}
use fedora_config.Base.{Result, ok, raised}
use fedora_config.Base.Action.{Keeps, Keeps-bind, Keeps-lift, Keeps-pure, Keeps-raise}
use fedora_config.Json.{Value, str, obj, Fields, get}
use fedora_config.Displays.Store.{File, absent, regular}
use fedora_config.Downloads.Import.{Paths, Pin, Manifest}
use fedora_config.Downloads.Merge.{
  Transfer, failed, arrived, Shared, set_blob, keep_blob, copy_blob, unlink_temporary, refresh_blob,
  merge_blob, merge_entry, merge_entries, write_manifest, merge_cache,
}

module _ {B : Type 0} (sha256 : B → String) (transfer : String → Transfer B) (takes : String → Bool)
    (start : Shared B) where
  -- A blob is the one that was there, or has the digest that is its name.
  abbrev pub AreBlobs : (String → File B) → Type 0
  AreBlobs blobs =
      (name : String)
      → (blobs name ≡ start.blobs name) ⊎ ((b : B) × (blobs name ≡ regular b) × (sha256 b ≡ name))

  abbrev pub IsShared : Shared B → Type 0
  IsShared w = AreBlobs w.blobs × (w.temporary ≡ absent)

  set_blob-AreBlobs :
      (sha : String) (b : B) (w : Shared B)
      → sha256 b ≡ sha
      → AreBlobs w.blobs
      → AreBlobs (set_blob sha256 sha (regular b) w).blobs
  unfolding set_blob
  set_blob-AreBlobs sha b w good h name = elim (Bool-cases (str_eq name sha)) [
    | inl y ↦ rw y (inr (b, refl, good ∙ sym_eq ((eq_iff name sha).0 y)))
    | inr n ↦ rw n (h name)
  ]
    where
      sym_eq : {s t : String} → s ≡ t → t ≡ s
      sym_eq e = cc

  keep_blob-AreBlobs :
      (sha : String) (b : B) (w : Shared B)
      → AreBlobs w.blobs
      → AreBlobs (keep_blob sha256 transfer takes sha b w).1.blobs
  unfolding keep_blob
  keep_blob-AreBlobs sha b w h = elim (Bool-cases (str_eq (sha256 b) sha)) [
    | inr n ↦ rw (keep_blob, n) h
    | inl y ↦ elim (Bool-cases (takes sha)) [
      | inr n ↦ rw (keep_blob, y, n) h
      | inl t ↦ rw (keep_blob, y, t) (set_blob-AreBlobs sha b w ((eq_iff (sha256 b) sha).0 y) h)
    ]
  ]

  copy_blob-AreBlobs :
      (t : Transfer B) (sha : String) (w : Shared B)
      → AreBlobs w.blobs
      → AreBlobs (copy_blob sha256 transfer takes t sha w).1.blobs
  unfolding copy_blob
  copy_blob-AreBlobs failed sha w h = h
  copy_blob-AreBlobs (arrived b) sha w h =
      keep_blob-AreBlobs sha b (record w { temporary = regular b }) h

  refresh_blob-IsShared :
      (r : Result Bool) (sha : String) (w : Shared B)
      → IsShared w
      → IsShared (refresh_blob sha256 transfer takes r sha w).1
  unfolding refresh_blob unlink_temporary
  refresh_blob-IsShared (ok true) sha w (h, t) = (copy_blob-AreBlobs (transfer sha) sha w h, refl)
  refresh_blob-IsShared (ok false) sha w h = h
  refresh_blob-IsShared (raised e) sha w h = h

  merge_blob-Keeps : (o : Option Value) → Keeps IsShared (merge_blob sha256 transfer takes o)
  unfolding merge_blob
  merge_blob-Keeps (some (str sha)) = record { at = λ w h. refresh_blob-IsShared _ sha w h }
  merge_blob-Keeps (some _) = record { at = λ w h. h }
  merge_blob-Keeps none = record { at = λ w h. h }

  merge_entry-Keeps : (v : Value) → Keeps IsShared (merge_entry sha256 transfer takes v)
  unfolding merge_entry
  merge_entry-Keeps (obj entry) = merge_blob-Keeps (get "sha256" entry)
  merge_entry-Keeps _ = Keeps-raise _

  merge_entries-Keeps :
      (es : List Value) (existing : Fields)
      → Keeps IsShared (merge_entries sha256 transfer takes es existing)
  unfolding merge_entries
  merge_entries-Keeps [] existing = Keeps-pure existing
  merge_entries-Keeps (e ∷ es) existing =
      Keeps-bind _ _ (merge_entry-Keeps e)
        (λ _. Keeps-bind _ _ (Keeps-lift _) (λ more. merge_entries-Keeps es more))

  write_manifest-Keeps :
      (written : Bool) (existing : Fields)
      → Keeps IsShared (write_manifest sha256 transfer takes written existing)
  unfolding write_manifest
  write_manifest-Keeps true existing = record { at = λ w h. h }
  write_manifest-Keeps false existing = record { at = λ w h. h }

  module _ (paths : Paths) (source : String → File B) (contract : List Pin) (incoming : Manifest)
      (written : Bool) where
    merge_cache-Keeps :
        Keeps IsShared (merge_cache sha256 transfer takes paths source contract incoming written)
    unfolding merge_cache
    merge_cache-Keeps =
        Keeps-bind _ _ (record { at = λ w h. h })
          (λ verified. Keeps-bind _ _ (Keeps-lift _) (λ existing.
            Keeps-bind _ _ (Keeps-lift _) (λ entries.
              Keeps-bind _ _ (merge_entries-Keeps entries existing)
                (λ merged. write_manifest-Keeps written merged))))

    -- Whatever the two caches hold and wherever merge_cache stops, every blob of the shared cache is
    -- the one that was there or has the digest that is its name, and no temporary file stays.
    pub merge_cache-IsShared :
        start.temporary ≡ absent
        → IsShared
            (merge_cache sha256 transfer takes paths source contract incoming written start).1
    merge_cache-IsShared clean = merge_cache-Keeps.at start ((λ name. inl refl), clean)
