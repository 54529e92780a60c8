-- ===== src/Downloads/Pinned.antt =====
-- Which files `import_cache` can write, and what it writes into them.
use fedora_config.Base.{
  ◌≡◌, ◌⊎◌, inl, inr, refl, ◌∙◌, Bool, true, false, ◌&&◌, ◌||◌, Bool-cases, Option, none, some,
  List, [], ◌∷◌, All,
}
use fedora_config.Base.{String, str_eq, eq_iff, if◌then◌else◌, Result, ok, raised, lift}
use fedora_config.Base.Fallible
use fedora_config.Base.Action.{◌>>=◌, Keeps, Keeps-pure, Keeps-bind}
use fedora_config.Json.{Value, null, str, obj, get, get_or, or_null, is_text}
use fedora_config.Displays.Store.{File, regular, unreadable}
use fedora_config.Downloads.Import.{
  Paths, Pin, Manifest, fits_pattern, is_pinned, is_plain_path, allowed_at, allowed, has_digest,
  blob_fits, if_allowed, is_verified, verify_all, verified_entries, copy_bytes, copy_file,
  import_file, import_entry, import_all, import_cache,
}

-- Some pin of the contract has the property.
abbrev pub AnyPin : (Pin → Type 0) → List Pin → Type 0
AnyPin P [] = ⊥
AnyPin P (pin ∷ pins) = P pin ⊎ AnyPin P pins

split_and : (a b : Bool) → (a && b) ≡ true → (a ≡ true) × (b ≡ true)
split_and true true h = (refl, refl)
split_and true false h = absurd (cc)
split_and false b h = absurd (cc)

split_or : (a b : Bool) → (a || b) ≡ true → (a ≡ true) ⊎ (b ≡ true)
split_or true b h = inl refl
split_or false b h = inr h

ok_eq : {A : Type 0} {a b : A} → ok a ≡ ok b → a ≡ b
ok_eq h = cc

module _ (paths : Paths) {B : Type 0} (sha256 : B → String) (blobs : String → File B)
    (is_linked takes : String → Bool) (contract : List Pin) where
  -- The contract has a pin for the path, and the bytes are the ones that it pins; a copy that was
  -- cut short has no bytes to compare.
  abbrev pub IsPinnedWrite : String × Option B → Type 0
  IsPinnedWrite (path, content) =
      (is_plain_path paths path ≡ true)
      × (is_linked path ≡ false)
      × AnyPin
          (λ pin.
            (fits_pattern paths pin.pattern pin path ≡ true)
            × ((b : B) → content ≡ some b → sha256 b ≡ pin.checksum))
          contract

  pinned-AnyPin :
      (pins : List Pin) (path sha : String) (content : Option B)
      → ((b : B) → content ≡ some b → sha256 b ≡ sha)
      → is_pinned paths pins path (str sha) ≡ true
      → AnyPin
          (λ pin.
            (fits_pattern paths pin.pattern pin path ≡ true)
            × ((b : B) → content ≡ some b → sha256 b ≡ pin.checksum))
          pins
  unfolding is_pinned is_text
  pinned-AnyPin [] path sha content good h = absurd (cc)
  pinned-AnyPin (pin ∷ pins) path sha content good h = elim (split_or _ _ h) [
    | inl here ↦
        let (digest, place) = split_and _ _ here in
        inl (place, λ b e. good b e ∙ (eq_iff sha pin.checksum).0 digest)
    | inr later ↦ inr (pinned-AnyPin pins path sha content good later)
  ]

  -- What `verified_entries` has found of an entry that it keeps.
  record IsFound (named digest : Option Value) : Type 0 where
    path : String
    sha : String
    bytes : B
    has_path : named ≡ some (str path)
    has_sha : digest ≡ some (str sha)
    blob : blobs sha ≡ regular bytes
    checked : str_eq (sha256 bytes) sha ≡ true
    is_plain : is_plain_path paths path ≡ true
    pinned : is_pinned paths contract path (str sha) ≡ true

  has_digest-inv :
      (f : File B) (sha : String)
      → has_digest paths sha256 blobs f sha ≡ ok true
      → (b : B) × (f ≡ regular b) × (str_eq (sha256 b) sha ≡ true)
  unfolding has_digest
  has_digest-inv (regular b) sha h = (b, refl, cc h)
  has_digest-inv unreadable sha h = absurd (cc)
  has_digest-inv _ sha h = absurd (cc)

  fitting-IsFound :
      (path : String) (digest : Option Value)
      → blob_fits paths sha256 blobs digest ≡ ok true
      → (is_plain_path paths path && is_pinned paths contract path (or_null digest)) ≡ true
      → IsFound (some (str path)) digest
  unfolding blob_fits or_null
  fitting-IsFound path none h both = absurd (cc)
  fitting-IsFound path (some (str sha)) h both =
      let (b, blob, good) = has_digest-inv (blobs sha) sha h in
      let (plain, pinned) = split_and _ _ both in
      record {
        path = path;
        sha = sha;
        bytes = b;
        has_path = refl;
        has_sha = refl;
        blob = blob;
        checked = good;
        is_plain = plain;
        pinned = pinned;
      }
  fitting-IsFound path (some _) h both = absurd (cc)

  named-IsFound :
      (path : String) (digest : Option Value)
      → if_allowed paths sha256 blobs (allowed_at paths contract (str path) (or_null digest)) digest
        ≡ ok true
      → IsFound (some (str path)) digest
  unfolding allowed_at if_allowed blob_fits
  named-IsFound path digest h =
      elim (Bool-cases
        (is_plain_path paths path && is_pinned paths contract path (or_null digest))) [
          | inl y ↦ fitting-IsFound path digest (rw y at h) y
          | inr n ↦ absurd (cc (rw n at h))
        ]

  entry-IsFound :
      (named digest : Option Value)
      → if_allowed paths sha256 blobs
          (allowed_at paths contract (get_or (str "") named) (or_null digest))
          digest
        ≡ ok true
      → IsFound named digest
  unfolding get_or allowed_at if_allowed is_plain_path
  entry-IsFound none digest h = absurd (cc)
  entry-IsFound (some (str path)) digest h = named-IsFound path digest h
  entry-IsFound (some _) digest h = absurd (cc)

  -- The entry is an object that `verified_entries` keeps.
  abbrev Kept : Value → Type 0
  Kept (obj entry) = IsFound (get "path" entry) (get "sha256" entry)
  Kept _ = ⊥

  is_verified-Kept : (e : Value) → is_verified paths sha256 blobs contract e ≡ ok true → Kept e
  unfolding is_verified allowed
  is_verified-Kept (obj entry) h = entry-IsFound (get "path" entry) (get "sha256" entry) h
  is_verified-Kept _ h = absurd (cc)

  append-Kept :
      (good : Bool) (e : Value) (rest : List Value)
      → (good ≡ true → Kept e)
      → All Kept rest
      → All Kept (if good then e ∷ rest else rest)
  append-Kept true e rest k ks = (k refl, ks)
  append-Kept false e rest k ks = ks

  verify_all-Kept :
      (es kept : List Value) → verify_all paths sha256 blobs contract es ≡ ok kept → All Kept kept
  unfolding verify_all
  verify_all-Kept [] kept h = rw (← ok_eq h) tt
  verify_all-Kept (e ∷ es) kept h =
      let (good, found, h1) = Fallible.bind-eq-ok (is_verified paths sha256 blobs contract e) _ h in
      let (rest, others, h2) =
        Fallible.bind-eq-ok (verify_all paths sha256 blobs contract es) _ h1 in
      rw (← ok_eq h2) (
        append-Kept good e rest (λ y. is_verified-Kept e (rw y at found))
          (verify_all-Kept es rest others))

  abbrev pub Pinned : List (String × Option B) → Type 0
  Pinned w = All IsPinnedWrite w

  copy_bytes-Pinned :
      (b : B) (path : String) (w : List (String × Option B))
      → IsPinnedWrite (path, some b)
      → IsPinnedWrite (path, none)
      → Pinned w
      → Pinned (copy_bytes paths sha256 blobs is_linked takes b path w).1
  unfolding copy_bytes
  copy_bytes-Pinned b path w whole cut ps = elim (Bool-cases (takes path)) [
    | inl y ↦ rw y (whole, ps)
    | inr n ↦ rw n (cut, ps)
  ]

  import_file-Pinned :
      (named digest : Option Value) (w : List (String × Option B))
      → IsFound named digest
      → Pinned w
      → Pinned (import_file paths sha256 blobs is_linked takes (or_null named) (or_null digest) w).1
  unfolding import_file copy_file or_null
  import_file-Pinned named digest w found ps =
      let same = (eq_iff (sha256 found.bytes) found.sha).0 found.checked in
      let pins = pinned-AnyPin contract found.path found.sha in
      elim (Bool-cases (is_linked found.path)) [
        | inl y ↦ rw (found.has_path, found.has_sha, y) ps
        | inr n ↦
            rw (found.has_path, found.has_sha, n, found.blob)
              (copy_bytes-Pinned found.bytes found.path w
                (
                  found.is_plain,
                  n,
                  pins (some found.bytes) (λ b e. rw (← same) (cc e)) found.pinned,
                )
                (found.is_plain, n, pins none (λ b e. absurd (cc e)) found.pinned) ps)
      ]

  import_entry-Pinned :
      (e : Value) → Kept e → Keeps Pinned (import_entry paths sha256 blobs is_linked takes e)
  unfolding import_entry
  import_entry-Pinned (obj entry) found = record {
    at = λ w ps. import_file-Pinned (get "path" entry) (get "sha256" entry) w found ps;
  }
  import_entry-Pinned null found = absurd found
  import_entry-Pinned _ found = absurd found

  import_all-Pinned :
      (es : List Value)
      → All Kept es
      → Keeps Pinned (import_all paths sha256 blobs is_linked takes es)
  unfolding import_all
  import_all-Pinned [] ks = Keeps-pure _
  import_all-Pinned (e ∷ es) (k, ks) =
      Keeps-bind _ _ (import_entry-Pinned e k) (λ _. import_all-Pinned es ks)

  import_entries :
      (r : Result (List Value))
      → ((es : List Value) → r ≡ ok es → All Kept es)
      → Keeps Pinned (lift r >>= import_all paths sha256 blobs is_linked takes)
  unfolding ◌>>=◌
  import_entries (ok es) kept = import_all-Pinned es (kept es refl)
  import_entries (raised x) kept = record { at = λ w ps. ps }

  -- Whatever the manifest and the blobs of a cache hold, and wherever the import stops, every file
  -- that it wrote has an absolute path without `..` that some pin of the contract names, is reached
  -- through no symlink, and, if its copy was not cut short, has the bytes that this pin names.
  pub import_cache-Pinned :
      (manifest : Manifest) (w : List (String × Option B))
      → Pinned w
      → Pinned (import_cache paths sha256 blobs is_linked takes contract manifest w).1
  unfolding import_cache verified_entries
  import_cache-Pinned manifest w ps =
      (import_entries (verified_entries paths sha256 blobs contract manifest) (λ es h.
          let (listed, a, b) = Fallible.bind-eq-ok _ (verify_all paths sha256 blobs contract) h in
          verify_all-Kept listed es b)).at
        w ps
