-- ===== src/Downloads/Collected.antt =====
-- What `export_cache` has collected, and what another blob leaves of it.
use fedora_config.Base.{
  ◌≡◌, ◌⊎◌, inl, inr, refl, sym, subst, Bool, true, Bool-cases, List, [], ◌∷◌, ◌++◌, All,
}
use fedora_config.Base.{String, str_eq, eq_iff, ok}
use fedora_config.Json.{Value}
use fedora_config.Displays.Store.{File, absent, regular, symlink, unreadable, directory}
use fedora_config.Downloads.Import.{Paths, Pin, allowed}
use fedora_config.Downloads.Export.{Builder, Exported, entry_at, written_over, replace_blob}

-- The value is one of the list.
abbrev pub Listed : Value → List Value → Type 0
Listed v [] = ⊥
Listed v (e ∷ es) = (v ≡ e) ⊎ Listed v es

pub Listed-append_one :
    (v : Value) (es : List Value) (e : Value) → Listed v es → Listed v (es ++ (e ∷ []))
Listed-append_one v [] e h = absurd h
Listed-append_one v (f ∷ es) e (inl same) = inl same
Listed-append_one v (f ∷ es) e (inr later) = inr (Listed-append_one v es e later)

pub Listed-last : (es : List Value) (e : Value) → Listed e (es ++ (e ∷ []))
Listed-last [] e = inl refl
Listed-last (f ∷ es) e = inr (Listed-last es e)

module _ {B : Type 0} (sha256 : B → String) (builder : Builder B) (paths : Paths)
    (takes : String → Bool) (cut : B → B) (contract : List Pin) where
  -- The entry of a file of the builder, and its blob, both with the digest of the entry.
  pub record IsCollected (blobs : String → File B) (e : Value) : Type 0 where
    pub path : String
    pub sha : String
    pub file : B
    pub bytes : B
    pub entry : e ≡ entry_at path sha
    pub allowed_there : allowed paths contract (entry_at path sha) ≡ ok true
    pub stands : builder.stands path ≡ regular file
    pub file_digest : str_eq (sha256 file) sha ≡ true
    pub blob : blobs sha ≡ regular bytes
    pub blob_digest : str_eq (sha256 bytes) sha ≡ true

  -- A name of the directory is no symlink.
  abbrev pub IsNoLink : File B → Type 0
  IsNoLink (symlink f) = ⊥
  IsNoLink _ = Unit

  abbrev pub AreCollected : Exported B → Type 0
  AreCollected w = ((name : String) → IsNoLink (w.blobs name)) × All (IsCollected w.blobs) w.entries

  written_over-regular :
      (f : File B) (b : B)
      → IsNoLink f
      → written_over sha256 builder paths takes cut contract f b ≡ regular b
  unfolding written_over
  written_over-regular (symlink f) b h = absurd h
  written_over-regular absent b h = refl
  written_over-regular (regular c) b h = refl
  written_over-regular unreadable b h = refl
  written_over-regular directory b h = refl

  module _ (sha : String) (b : B) (good : str_eq (sha256 b) sha ≡ true) (w : Exported B)
      (unlinked : (name : String) → IsNoLink (w.blobs name)) where
    abbrev pub new : File B
    new = written_over sha256 builder paths takes cut contract (w.blobs sha) b

    pub new-regular : new ≡ regular b
    new-regular = written_over-regular (w.blobs sha) b (unlinked sha)

    replaced-IsCollected :
        (e : Value)
        → IsCollected w.blobs e
        → IsCollected (replace_blob sha256 builder paths takes cut contract sha new w).blobs e
    replaced-IsCollected e c = elim (Bool-cases (str_eq c.sha sha)) [
      | inl y ↦ record {
        path = c.path;
        sha = c.sha;
        file = c.file;
        bytes = b;
        entry = c.entry;
        allowed_there = c.allowed_there;
        stands = c.stands;
        file_digest = c.file_digest;
        blob = rw y new-regular;
        blob_digest = subst (λ s. str_eq (sha256 b) s ≡ true) (sym ((eq_iff c.sha sha).0 y)) good;
      }
      | inr n ↦ record {
        path = c.path;
        sha = c.sha;
        file = c.file;
        bytes = c.bytes;
        entry = c.entry;
        allowed_there = c.allowed_there;
        stands = c.stands;
        file_digest = c.file_digest;
        blob = rw n c.blob;
        blob_digest = c.blob_digest;
      }
    ]

    pub replaced-All :
        (es : List Value)
        → All (IsCollected w.blobs) es
        → All
            (IsCollected (replace_blob sha256 builder paths takes cut contract sha new w).blobs)
            es
    replaced-All [] cs = tt
    replaced-All (e ∷ es) (c, cs) = (replaced-IsCollected e c, replaced-All es cs)

    pub replaced-unlinked :
        (name : String)
        → IsNoLink ((replace_blob sha256 builder paths takes cut contract sha new w).blobs name)
    replaced-unlinked name = elim (Bool-cases (str_eq name sha)) [
      | inl y ↦ rw (y, new-regular) tt
      | inr n ↦ rw n (unlinked name)
    ]
