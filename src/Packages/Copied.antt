-- ===== src/Packages/Copied.antt =====
-- What `clone` copies, and its new manifest.
use fedora_config.Base.{
  ap, eq_iff, Bool-cases, [], ◌∷◌, ◌≡◌, ◌⊎◌, inl, inr, refl, ◌∙◌, subst, true, false, Option, none,
  some, List, String, ok, lift, pure,
}
use fedora_config.Base.Fallible.{bind-eq-ok, ok_injective}
use fedora_config.Base.Action.{◌>>=◌}
use fedora_config.Base.Triple.{
  Ends, Triple, Triple-lift, Triple-bind, Triple-bind_lift, Triple-pure, Triple-if,
}
use fedora_config.Json.{Value, is_text, or_null, str, obj, Fields, end, get, get_or, put, remove}
use fedora_config.Json.Laws.{get-put, get-remove}
use fedora_config.Packages.Store.{Entry, Entries, World, Site, directory, link, other, lookup}
use fedora_config.Packages.Copier.{Built, Copier, find_builtin, edit_manifest, as_dict, copy_parts}
use fedora_config.Packages.Parts.{IsMadeOfParts, copy_parts-IsMadeOfParts}
use fedora_config.Packages.Clone.{package_at, as_built, find_source, copy_source}

-- The manifest of the copy: its id, and the plugin that it was cloned from.
pub record IsEdited (id new_id : String) (manifest : Fields) : Type 0 where
  named : get "id" manifest ≡ some (str new_id)
  omarchy : Fields
  marked : get "omarchy" manifest ≡ some (obj omarchy)
  origin : get "clonedFrom" omarchy ≡ some (str id)
  unmapped : get "clonePaths" omarchy ≡ none

pub edit_manifest-IsEdited :
    (id new_id : String) (old manifest : Fields)
    → edit_manifest id new_id old ≡ ok manifest
    → IsEdited id new_id manifest
unfolding edit_manifest
edit_manifest-IsEdited id new_id old manifest h =
    let (omarchy, d, h1) = bind-eq-ok (as_dict (get_or (obj end) (get "omarchy" old)) _) _ h in
    subst (IsEdited id new_id) (ok_eq h1) (record {
      named = get-put "omarchy" "id" _ _ ∙ get-put "id" "id" _ old;
      omarchy = remove "clonePaths" (put "clonedFrom" (str id) omarchy);
      marked = get-put "omarchy" "omarchy" _ _;
      origin = get-remove "clonePaths" "clonedFrom" _ ∙ get-put "clonedFrom" "clonedFrom" _ omarchy;
      unmapped = get-remove "clonePaths" "clonePaths" _;
    })
  where
    ok_eq : {a b : Fields} → ok a ≡ ok b → a ≡ b
    ok_eq e = cc

named_by :
    (id : String) (found : Option Value) → is_text id (or_null found) ≡ true → found ≡ some (str id)
unfolding is_text or_null
named_by id (some (str s)) h = ap (λ (t : String). some (str t)) ((eq_iff s id).0 h)
named_by id none h = absurd (cc)
named_by id (some _) h = absurd (cc)

module _ {Tree : Type 0} (id : String) where
  -- A readable manifest of the list with this id.
  abbrev pub IsFound : List (Built Tree) → Built Tree → Type 0
  IsFound [] b = ⊥
  IsFound (m ∷ ms) b =
      ((m ≡ b) × ((fields : Fields) × (b.fields ≡ ok fields) × (get "id" fields ≡ some (str id))))
      ⊎ IsFound ms b

  find_builtin-IsFound :
      (ms : List (Built Tree)) (b : Built Tree) → find_builtin id ms ≡ ok b → IsFound ms b
  unfolding find_builtin
  find_builtin-IsFound [] b h = absurd (cc)
  find_builtin-IsFound (m ∷ ms) b h =
      let (fields, read, h1) = bind-eq-ok m.fields _ h in
      elim (Bool-cases (is_text id (or_null (get "id" fields)))) [
        | inl y ↦
            let same : m ≡ b = ok_injective (rw y at h1) in
            inl (same, (fields, subst (λ c. c.fields ≡ ok fields) same read, named_by id _ y))
        | inr n ↦ inr (find_builtin-IsFound ms b (rw n at h1))
      ]

module _ {Tree Registry : Type 0} (site : Site Tree Registry) (copier : Copier Tree)
    (start : Entries Tree) (id : String) where
  -- The package that is copied: of the directory, where it is valid, or of the built-in ones.
  abbrev pub IsSource : Option (List (Built Tree)) → Built Tree → Type 0
  IsSource none b =
      (tree : Tree) × (lookup id start ≡ some (directory tree))
      × (site.validate id tree ≡ ok tt)
      × (b ≡ as_built site copier tree)
  IsSource (some manifests) b = IsFound id manifests b

  -- The tree is a copy of the source's, or is made of the source's parts.
  abbrev pub IsCopy : Built Tree → Tree → Type 0
  IsCopy b tree =
      ((b.is_plain ≡ true) × (copier.copytree b.source ≡ ok tree))
      ⊎ ((b.is_plain ≡ false)
          × ((fields : Fields) × (b.fields ≡ ok fields)
              × IsMadeOfParts copier b.source fields tree))

  pub copy_source-Triple :
      (b : Built Tree)
      → Triple
          (λ w. w.entries ≡ start)
          (λ p w. (w.entries ≡ start) × IsCopy b p.0)
          (λ e w. w.entries ≡ start)
          (copy_source site copier b)
  unfolding copy_source
  copy_source-Triple b =
      Triple-if b.is_plain _ _
        (λ plain.
          Triple-bind_lift (copier.copytree b.source) _
            (λ tree copied.
              Triple-bind_lift (copier.read_manifest tree) _
                (λ manifest read. Triple-pure _ (λ w h. (h, inl (plain, copied)))) (λ e w h. h))
            (λ e w h. h))
        (λ parts.
          Triple-bind_lift b.fields _
            (λ fields read.
              Triple-bind_lift (copy_parts copier b.source fields) _
                (λ tree copied. Triple-pure _ (λ w h. (
                  h,
                  inr (
                    parts,
                    (fields, read, copy_parts-IsMadeOfParts copier b.source tree fields copied),
                  ),
                )))
                (λ e w h. h))
            (λ e w h. h))

  pub find_source-Triple :
      (found : Option (List (Built Tree)))
      → Triple
          (λ w. w.entries ≡ start)
          (λ b w. (w.entries ≡ start) × IsSource found b)
          (λ e w. w.entries ≡ start)
          (find_source site copier found id)
  unfolding find_source package_at
  find_source-Triple (some manifests) =
      Triple-lift (find_builtin id manifests)
        (λ b found w h. (h, find_builtin-IsFound id manifests b found)) (λ e lost w h. h)
  find_source-Triple none =
      Triple-bind (λ tree w. (w.entries ≡ start) × (lookup id start ≡ some (directory tree))) _ _
        (record {
          at = λ w h.
              kept (lookup id w.entries) w h
                (subst (λ es. lookup id es ≡ lookup id w.entries) h refl);
        })
        (λ tree. record { at = λ w (h, found). (rest tree found).at w h })
    where
      kept :
          (found : Option (Entry Tree)) (w : World Tree Registry)
          → w.entries ≡ start
          → lookup id start ≡ found
          → Ends
              (λ tree v. (v.entries ≡ start) × (lookup id start ≡ some (directory tree)))
              (λ e v. v.entries ≡ start)
              (package_at site copier found w)
      kept none w h at = h
      kept (some link) w h at = h
      kept (some other) w h at = h
      kept (some (directory tree)) w h at = (h, at)

      rest :
          (tree : Tree)
          → lookup id start ≡ some (directory tree)
          → Triple {S = World Tree Registry}
              (λ w. w.entries ≡ start)
              (λ b w. (w.entries ≡ start) × IsSource none b)
              (λ e w. w.entries ≡ start)
              (lift (site.validate id tree) >>= λ u. pure (as_built site copier tree))
      rest tree found =
          Triple-bind_lift (site.validate id tree) _
            (λ u valid. Triple-pure _ (λ w h. (h, (tree, found, valid, refl)))) (λ e w h. h)
