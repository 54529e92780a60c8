-- ===== src/Plugins/Sound.antt =====
-- What holds of a package that user-plugins.py accepts, and of its preferences.
use fedora_config.Base.{
  ℕ, ◌≤◌, leb, pos, ◌≡◌, inl, inr, refl, sym, Bool, true, false, not, ◌&&◌, ◌||◌, Bool-cases,
  Option, none, some, Option-cases, List, [], ◌∷◌, All, is_member, arith,
}
use fedora_config.Base.{String, str_eq, eq_iff, ok}
use fedora_config.Base.Fallible.{bind-eq-ok, passed, not_refused, unrefused, ok_injective, of_ok}
use fedora_config.Json.{Value, int, str, arr, obj, cons, Fields, end, field, items, has}
use fedora_config.Plugins.Ids.{valid_id}
use fedora_config.Plugins.Options.{
  Options, read_object, options, options_of, read_enabled, read_width, read_order, read_dict,
}
use fedora_config.Plugins.Manifest.{
  Packages, Descriptor, Format, entry_of, built_in, sections, read_section, read_kind,
  read_kind_list, read_kinds, read_entries, omarchy_format, native_format, read_format, check_clone,
  read_name, read_source, read_sources, describe, read_package,
}

read_width-inv : (v : Value) (n : ℕ) → read_width v ≡ ok n → (24 ≤ n) × (n ≤ 320)
unfolding read_width
read_width-inv (int (pos m)) n h =
    let (inside, same) = passed (leb 24 m && leb m 320) (ok m) _ h in
    of_ok (λ k. (24 ≤ k) × (k ≤ 320)) same (ground (arith, inside))
read_width-inv (int _) n h = absurd (cc)
read_width-inv _ n h = absurd (cc)

-- Preferences that `options` accepts have a width from 24 to 320.
pub options-width : (v : Value) (o : Options) → options v ≡ ok o → (24 ≤ o.width) × (o.width ≤ 320)
unfolding options options_of
options-width (obj value) o h =
    let (enabled, a, h1) = bind-eq-ok (read_enabled _) _ h in
    let (width, b, h2) = bind-eq-ok (read_width _) _ h1 in
    let (order, c, h3) = bind-eq-ok (read_order _) _ h2 in
    let (settings, d, h4) = bind-eq-ok (read_dict _ _) _ h3 in
    of_ok (λ (o : Options). (24 ≤ o.width) × (o.width ≤ 320)) h4 (read_width-inv _ width b)
options-width _ o h = absurd (cc)

-- No text twice.
abbrev pub IsDistinct : List String → Type 0
IsDistinct [] = Unit
IsDistinct (k ∷ ks) = (is_member k ks ≡ false) × IsDistinct ks

abbrev pub IsSupported : String → Type 0
IsSupported kind = (entry : String) × (entry_of kind ≡ some entry)

abbrev pub AreKinds : List String → Type 0
AreKinds kinds = All IsSupported kinds × IsDistinct kinds

read_kind-IsSupported : (v : Value) (kind : String) → read_kind v ≡ ok kind → IsSupported kind
unfolding read_kind
read_kind-IsSupported (str k) kind h = elim (Option-cases (entry_of k)) [
  | inl n ↦ absurd (cc (rw (read_kind, n) at h))
  | inr (entry, e) ↦
      let same : ok k ≡ ok kind = rw (read_kind, e) at h in of_ok IsSupported same (entry, e)
]
read_kind-IsSupported _ kind h = absurd (cc)

read_kind_list-AreKinds :
    (vs : List Value) (kinds : List String) → read_kind_list vs ≡ ok kinds → AreKinds kinds
unfolding read_kind_list
read_kind_list-AreKinds [] kinds h = of_ok AreKinds h (tt, tt)
read_kind_list-AreKinds (v ∷ vs) kinds h =
    let (kind, a, h1) = bind-eq-ok (read_kind v) _ h in
    let (rest, b, h2) = bind-eq-ok (read_kind_list vs) _ h1 in
    let (fresh, same) = not_refused (is_member kind rest) (ok (kind ∷ rest)) _ h2 in
    let (supported, distinct) = read_kind_list-AreKinds vs rest b in
    of_ok AreKinds same ((read_kind-IsSupported v kind a, supported), (fresh, distinct))

read_kinds-AreKinds :
    (v : Option Value) (kinds : List String) → read_kinds v ≡ ok kinds → AreKinds kinds
unfolding read_kinds
read_kinds-AreKinds (some (arr (cons v vs))) kinds h =
    read_kind_list-AreKinds (v ∷ items vs) kinds h
read_kinds-AreKinds (some (arr _)) kinds h = absurd (cc)
read_kinds-AreKinds (some _) kinds h = absurd (cc)
read_kinds-AreKinds none kinds h = absurd (cc)

pub read_section-inv :
    (problem : String) (v : Value) (s : String)
    → read_section problem v ≡ ok s
    → (v ≡ str s) × (is_member s sections ≡ true)
unfolding read_section
read_section-inv problem (str t) s h =
    let (inside, same) = passed (is_member t sections) (ok t) _ h in
    of_ok (λ k. (str t ≡ str k) × (is_member k sections ≡ true)) same (refl, inside)
read_section-inv problem _ s h = absurd (cc)

-- The kinds and the section that either format gives.
abbrev IsFormat : Format → Type 0
IsFormat f = AreKinds f.kinds × (is_member f.section sections ≡ true)

omarchy_format-IsFormat : (m : Fields) (f : Format) → omarchy_format m ≡ ok f → IsFormat f
unfolding omarchy_format
omarchy_format-IsFormat m f h =
    let (_, h1) = unrefused _ _ _ h in
    let (_, h2) = unrefused _ _ _ h1 in
    let (kinds, k, h3) = bind-eq-ok (read_kinds _) _ h2 in
    let (entries, _, h4) = bind-eq-ok (read_entries _ _) _ h3 in
    let (_, h5) = unrefused _ _ _ h4 in
    let (widget, _, h6) = bind-eq-ok (read_dict _ _) _ h5 in
    let (defaults, _, h7) = bind-eq-ok (read_dict _ _) _ h6 in
    let (_, h8) = unrefused _ _ _ h7 in
    let (section, s, h9) = bind-eq-ok (read_section _ _) _ h8 in
    of_ok IsFormat h9 (read_kinds-AreKinds _ kinds k, (read_section-inv _ _ section s).1)

native_format-IsFormat :
    (id : String) (m : Fields) (f : Format) → native_format id m ≡ ok f → IsFormat f
unfolding native_format entry_of is_member
native_format-IsFormat id m f h =
    let (_, h1) = unrefused _ _ _ h in
    let (_, h2) = unrefused _ _ _ h1 in
    of_ok IsFormat h2 (((("barWidget", refl), tt), (refl, tt)), refl)

module _ (disk : Packages) (plugin_id : String) where
  -- The file of an entry point: relative, a .qml file, and inside the package once resolved.
  pub record IsEntry (uri : String) : Type 0 where
    pub entry : String
    pub is_relative : disk.is_absolute entry ≡ false
    pub inside : disk.is_inside plugin_id entry ≡ true
    pub file : disk.is_file plugin_id entry ≡ true
    pub suffix : disk.suffix entry ≡ ".qml"
    pub named : uri ≡ disk.uri plugin_id entry

  abbrev pub AllSources : Fields → Type 0
  AllSources end = Unit
  AllSources (field kind (str uri) rest) = IsEntry uri × AllSources rest
  AllSources (field kind _ rest) = ⊥

  not-true : (b : Bool) → not b ≡ false → b ≡ true
  not-true true h = refl
  not-true false h = absurd (cc)

  or_false : (a b : Bool) → (a || b) ≡ false → (a ≡ false) × (b ≡ false)
  or_false true b h = absurd (cc)
  or_false false b h = (refl, h)

  read_source-IsEntry :
      (v : Value) (uri : String) → read_source disk plugin_id v ≡ ok uri → IsEntry uri
  unfolding read_source
  read_source-IsEntry v uri h =
      let (entry, _, h1) = bind-eq-ok (read_name _ v) _ h in
      let (plain, h2) = unrefused _ _ _ h1 in
      let (found, h3) = unrefused _ _ _ h2 in
      let (path, suffix) = or_false _ _ plain in
      let (relative, _) = or_false _ _ path in
      let (inside, file) = or_false _ _ found in
      record {
        entry = entry;
        is_relative = relative;
        inside = not-true _ inside;
        file = not-true _ file;
        suffix = (eq_iff _ _).0 (not-true _ suffix);
        named = sym (ok_injective h3);
      }

  read_sources-AllSources :
      (entries sources : Fields)
      → read_sources disk plugin_id entries ≡ ok sources
      → AllSources sources
  unfolding read_sources
  read_sources-AllSources end sources h = of_ok AllSources h tt
  read_sources-AllSources (field kind v rest) sources h =
      let (uri, a, h1) = bind-eq-ok (read_source disk plugin_id v) _ h in
      let (others, b, h2) = bind-eq-ok (read_sources disk plugin_id rest) _ h1 in
      of_ok AllSources h2 (read_source-IsEntry v uri a, read_sources-AllSources rest others b)

  read_format-IsFormat :
      (m : Fields) (f : Format) → read_format disk plugin_id m ≡ ok f → IsFormat f
  unfolding read_format
  read_format-IsFormat m f h = elim (Bool-cases (has "schemaVersion" m)) [
    | inl y ↦ omarchy_format-IsFormat m f (rw y at h)
    | inr n ↦ native_format-IsFormat plugin_id m f (rw n at h)
  ]

  -- What the shell relies on in a descriptor.
  pub record IsSound (d : Descriptor) : Type 0 where
    pub valid : valid_id plugin_id ≡ true
    pub own : d.id ≡ plugin_id
    pub replaced : str_eq plugin_id built_in ≡ false
    pub kinds : AreKinds d.kinds
    pub section : is_member d.section sections ≡ true
    pub sources : AllSources d.sources

  -- An accepted package has a valid identifier, its own, which no built-in widget has replaced;
  -- supported kinds, none twice; one of the three sections; and entry points that are .qml files
  -- given by relative paths and resolve inside the package.
  pub read_package-IsSound : (d : Descriptor) → read_package disk plugin_id ≡ ok d → IsSound d
  unfolding read_package describe
  read_package-IsSound d h =
      let (valid, h1) = unrefused _ _ _ h in
      let (other, h2) = unrefused _ _ _ h1 in
      let (manifest, _, h3) = bind-eq-ok (read_object _) _ h2 in
      let (_, h4) = unrefused _ _ _ h3 in
      let (_, _, h5) = bind-eq-ok (check_clone _) _ h4 in
      let (format, f, h6) = bind-eq-ok (read_format disk plugin_id manifest) _ h5 in
      let (name, _, h7) = bind-eq-ok (read_name _ _) _ h6 in
      let (version, _, h8) = bind-eq-ok (read_name _ _) _ h7 in
      let (sources, s, h9) = bind-eq-ok (read_sources disk plugin_id format.entries) _ h8 in
      let (kinds, section) = read_format-IsFormat manifest format f in
      of_ok IsSound h9 (record {
        valid = not-true _ valid;
        own = refl;
        replaced = other;
        kinds = kinds;
        section = section;
        sources = read_sources-AllSources format.entries sources s;
      })
