-- ===== src/Downloads/Confined.antt =====
-- Where an import by the inventory's pins can write.
use fedora_config.Base.{
  ◌≡◌, ◌⊎◌, inl, inr, refl, subst, Bool, true, false, Option, some, List, [], ◌∷◌, ◌++◌, All,
}
use fedora_config.Base.{String, ◌<>◌, Result, ok, raised, lift}
use fedora_config.Base.Action
use fedora_config.Base.Fallible.{bind-eq-ok}
use fedora_config.Json.{Value, obj}
use fedora_config.Displays.Store.{File}
use fedora_config.Downloads.Import.{Paths, Pin, Manifest, fits_pattern, is_plain_path, import_cache}
use fedora_config.Downloads.Pinned.{AnyPin, Pinned, import_cache-Pinned}
use fedora_config.Downloads.Pins.{
  upstream_root, fonts_root, copr_key, item, elements, joined, digest_of, pattern_of, app_pin,
  archive_pin, file_pin, pin_each, file_pins, pins, import_pinned,
}

-- Below one of the two directories, or the key of the builder.
abbrev pub IsRooted : String → Type 0
IsRooted location =
    ((rest : String) × (location ≡ upstream_root <> rest))
    ⊎ (((rest : String) × (location ≡ fonts_root <> rest)) ⊎ (location ≡ copr_key))

abbrev AreRooted : List Pin → Type 0
AreRooted = All (λ pin. IsRooted pin.location)

AreRooted-append : (ps qs : List Pin) → AreRooted ps → AreRooted qs → AreRooted (ps ++ qs)
AreRooted-append [] qs a b = b
AreRooted-append (p ∷ ps) qs (a, rest) b = (a, AreRooted-append ps qs rest b)

pin_eq : {p q : Pin} → ok p ≡ ok q → p ≡ q
pin_eq e = cc

pins_eq : {ps qs : List Pin} → ok ps ≡ ok qs → ps ≡ qs
pins_eq e = cc

module _ (text_of : Value → String) where
  app_pin-IsRooted : (v : Value) (pin : Pin) → app_pin text_of v ≡ ok pin → IsRooted pin.location
  unfolding app_pin
  app_pin-IsRooted v pin h =
      let (version, a, h1) = bind-eq-ok (item "version" v) _ h in
      let (checksum, b, h2) = bind-eq-ok (item "checksum" v) _ h1 in
      let (digest, c, h3) = bind-eq-ok (digest_of checksum) _ h2 in
      let (name, d, h4) = bind-eq-ok (item "name" v) _ h3 in
      let (regex, e, h5) = bind-eq-ok (item "asset_regex" v) _ h4 in
      let (pattern, f, h6) = bind-eq-ok (pattern_of regex) _ h5 in
      subst (λ p. IsRooted p.location) (pin_eq h6) (inl (_, refl))

  archive_pin-IsRooted :
      (v : Value) (pin : Pin) → archive_pin text_of v ≡ ok pin → IsRooted pin.location
  unfolding archive_pin
  archive_pin-IsRooted v pin h =
      let (checksum, a, h1) = bind-eq-ok (item "checksum" v) _ h in
      let (digest, b, h2) = bind-eq-ok (digest_of checksum) _ h1 in
      let (name, c, h3) = bind-eq-ok (item "name" v) _ h2 in
      let (version, d, h4) = bind-eq-ok (item "version" v) _ h3 in
      subst (λ p. IsRooted p.location) (pin_eq h4) (inl (_, refl))

  file_pin-IsRooted :
      (k f : String) (v : Value) (pin : Pin)
      → file_pin text_of k f v ≡ ok pin
      → IsRooted pin.location
  unfolding file_pin
  file_pin-IsRooted k f v pin h =
      let (checksum, a, h1) = bind-eq-ok (item k v) _ h in
      let (digest, b, h2) = bind-eq-ok (digest_of checksum) _ h1 in
      let (name, c, h3) = bind-eq-ok (item "name" v) _ h2 in
      let (version, d, h4) = bind-eq-ok (item "version" v) _ h3 in
      let (filename, e, h5) = bind-eq-ok (item f v) _ h4 in
      subst (λ p. IsRooted p.location) (pin_eq h5) (inr (inl (_, refl)))

  pin_each-AreRooted :
      (f : Value → Result Pin)
      → ((v : Value) (pin : Pin) → f v ≡ ok pin → IsRooted pin.location)
      → (vs : List Value) (ps : List Pin) → pin_each text_of f vs ≡ ok ps
      → AreRooted ps
  unfolding pin_each
  pin_each-AreRooted f rooted [] ps h = subst AreRooted (pins_eq h) tt
  pin_each-AreRooted f rooted (v ∷ vs) ps h =
      let (pin, a, h1) = bind-eq-ok (f v) _ h in
      let (rest, b, h2) = bind-eq-ok (pin_each text_of f vs) _ h1 in
      subst AreRooted (pins_eq h2) (rooted v pin a, pin_each-AreRooted f rooted vs rest b)

  file_pins-AreRooted :
      (vs : List Value) (ps : List Pin) → file_pins text_of vs ≡ ok ps → AreRooted ps
  unfolding file_pins
  file_pins-AreRooted [] ps h = subst AreRooted (pins_eq h) tt
  file_pins-AreRooted (v ∷ vs) ps h =
      let (file, a, h1) = bind-eq-ok (file_pin text_of "checksum" "filename" v) _ h in
      let (license, b, h2) =
        bind-eq-ok (file_pin text_of "license_checksum" "license_filename" v) _ h1 in
      let (rest, c, h3) = bind-eq-ok (file_pins text_of vs) _ h2 in
      subst AreRooted (pins_eq h3) (
        file_pin-IsRooted _ _ v file a,
        (file_pin-IsRooted _ _ v license b, file_pins-AreRooted vs rest c),
      )

  pins-AreRooted :
      (inventory : Value) (contract : List Pin)
      → pins text_of inventory ≡ ok contract
      → AreRooted contract
  unfolding pins
  pins-AreRooted (obj inventory) contract h =
      let (apps, a, h1) = bind-eq-ok (joined _ _) _ h in
      let (app_pins, b, h2) = bind-eq-ok (pin_each text_of (app_pin text_of) apps) _ h1 in
      let (archives, c, h3) = bind-eq-ok (elements _) _ h2 in
      let (archive_pins, d, h4) =
        bind-eq-ok (pin_each text_of (archive_pin text_of) archives) _ h3 in
      let (fonts, e, h5) = bind-eq-ok (elements _) _ h4 in
      let (font_pins, f, h6) = bind-eq-ok (file_pins text_of fonts) _ h5 in
      subst AreRooted (pins_eq h6) (
        AreRooted-append _ (_ ∷ [])
          (AreRooted-append (app_pins ++ archive_pins) font_pins
            (AreRooted-append app_pins archive_pins
              (pin_each-AreRooted (app_pin text_of) app_pin-IsRooted apps app_pins b)
              (pin_each-AreRooted (archive_pin text_of) archive_pin-IsRooted archives archive_pins
                d))
            (file_pins-AreRooted fonts font_pins f))
          (inr (inr refl), tt))
  pins-AreRooted _ contract h = absurd (cc)

module _ (paths : Paths) {B : Type 0} (sha256 : B → String) (is_linked : String → Bool) where
  -- A file at a plain path, behind no symlink, that a pin below one of the two directories, or that
  -- of the key, names; with the bytes that this pin names, unless its copy was cut short.
  abbrev pub IsConfined : String × Option B → Type 0
  IsConfined (path, content) =
      (is_plain_path paths path ≡ true)
      × (is_linked path ≡ false)
      × ((pin : Pin) × IsRooted pin.location
          × (fits_pattern paths pin.pattern pin path ≡ true)
          × ((b : B) → content ≡ some b → sha256 b ≡ pin.checksum))

  module _ (blobs : String → File B) (takes : String → Bool) where
    AnyPin-AreRooted :
        (path : String) (content : Option B) (contract : List Pin)
        → AreRooted contract
        → AnyPin
            (λ pin.
              (fits_pattern paths pin.pattern pin path ≡ true)
              × ((b : B) → content ≡ some b → sha256 b ≡ pin.checksum))
            contract
        → (pin : Pin) × IsRooted pin.location
          × (fits_pattern paths pin.pattern pin path ≡ true)
          × ((b : B) → content ≡ some b → sha256 b ≡ pin.checksum)
    AnyPin-AreRooted path content [] rooted h = absurd h
    AnyPin-AreRooted path content (pin ∷ pins) (here, rest) (inl (fits, good)) =
        (pin, here, fits, good)
    AnyPin-AreRooted path content (pin ∷ pins) (here, rest) (inr later) =
        AnyPin-AreRooted path content pins rest later

    Pinned-IsConfined :
        (contract : List Pin) (ws : List (String × Option B))
        → AreRooted contract
        → Pinned paths sha256 blobs is_linked takes contract ws
        → All IsConfined ws
    Pinned-IsConfined contract [] rooted ps = tt
    Pinned-IsConfined contract ((path, content) ∷ ws) rooted ((plain, unlinked, pinned), ps) = (
      (plain, unlinked, AnyPin-AreRooted path content contract rooted pinned),
      Pinned-IsConfined contract ws rooted ps,
    )

    -- Whatever the inventory, the manifest and the blobs hold, and wherever it stops, every file that
    -- the import writes has an absolute path without `..`, is reached through no symlink, and is
    -- named by a pin whose location is below /var/cache/cybexos-upstream or /usr/local/share/fonts,
    -- or is the builder's key; and it has the bytes that this pin names, unless its copy was cut
    -- short.
    pub import_pinned-IsConfined :
        (text_of : Value → String) (inventory : Value) (manifest : Manifest)
        → All IsConfined
            (import_pinned text_of paths sha256 blobs is_linked takes inventory manifest []).1
    unfolding import_pinned Action.◌>>=◌
    import_pinned-IsConfined text_of inventory manifest = by_contract (pins text_of inventory) refl
      where
        by_contract :
            (r : Result (List Pin))
            → pins text_of inventory ≡ r
            → All IsConfined
                (Action.◌>>=◌
                  (lift r)
                  (λ contract. import_cache paths sha256 blobs is_linked takes contract manifest)
                  []).1
        by_contract (raised e) same = tt
        by_contract (ok contract) same =
            Pinned-IsConfined contract _ (pins-AreRooted text_of inventory contract same)
              (import_cache-Pinned paths sha256 blobs is_linked takes contract manifest [] tt)
