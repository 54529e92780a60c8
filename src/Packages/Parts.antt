-- ===== src/Packages/Parts.antt =====
-- The trees that `clone` of plugin_packages.py makes of the parts of a built-in plugin.
use fedora_config.Base.{
  ◌≡◌, refl, subst, Bool, true, false, not, ◌||◌, Option, none, some, List, [], ◌∷◌, String, ok,
  raised, Exn, key_error,
}
use fedora_config.Base.Fallible.{refuse_if, bind-eq-ok, ok_injective}
use fedora_config.Json.{Value, str, obj, Fields, Items, nil, cons, get}
use fedora_config.Packages.Copier.{
  Copier, mappings_of, as_path, path_in, copy_mapping, copy_mappings, replace_mappings,
  rewrite_files, copy_parts,
}

-- What `mapping[key]` is where a path is used.
path_in-eq :
    (key : String) (mapping : Value) (path : String)
    → path_in key mapping ≡ ok path
    → (fields : Fields) × (mapping ≡ obj fields) × (get key fields ≡ some (str path))
unfolding path_in as_path
path_in-eq key (obj fields) path h = (fields, refl, by_entry (get key fields) h)
  where
    by_entry :
        (found : Option Value)
        → (elim found [ none ↦ raised key_error | some v ↦ as_path v ]) ≡ ok path
        → found ≡ some (str path)
    by_entry (some (str s)) e = cc
    by_entry none e = absurd (cc)
    by_entry (some _) e = absurd (cc)
path_in-eq key _ path h = absurd (cc)

module _ {Tree : Type 0} (copier : Copier Tree) where
  -- The mapping names its source and its target.
  abbrev pub Maps : Value → String → String → Type 0
  Maps mapping origin target =
      (fields : Fields) × (mapping ≡ obj fields)
      × (get "source" fields ≡ some (str origin))
      × (get "target" fields ≡ some (str target))

  paths-Maps :
      (mapping : Value) (origin target : String)
      → path_in "source" mapping ≡ ok origin
      → path_in "target" mapping ≡ ok target
      → Maps mapping origin target
  paths-Maps mapping origin target o t =
      let (fields, object, from) = path_in-eq "source" mapping origin o in
      let (fields', object', to) = path_in-eq "target" mapping target t in
      let same : fields' ≡ fields = cc in
      (fields, object, from, subst (λ fs. get "target" fs ≡ some (str target)) same to)

  -- One tree becomes the other as the part of each mapping is copied to its target, from inside the
  -- built-in root to inside the copy.
  abbrev pub AreCopied : Tree → Items → Tree → Tree → Type 0
  AreCopied source nil candidate copied = candidate ≡ copied
  AreCopied source (cons mapping rest) candidate copied =
      (origin : String) × (target : String) × (next : Tree) × Maps mapping origin target
      × (copier.origin_inside source origin ≡ true)
      × (copier.target_inside target ≡ true)
      × (copier.copy_part source origin target candidate ≡ ok next)
      × AreCopied source rest next copied

  both_true : (a b : Bool) → (not a || not b) ≡ false → (a ≡ true) × (b ≡ true)
  both_true true true h = (refl, refl)
  both_true true false h = absurd (cc)
  both_true false b h = absurd (cc)

  unraised : (b : Bool) (e : Exn) {u : Unit {0}} → refuse_if b e ≡ ok u → b ≡ false
  unraised true e h = absurd (cc)
  unraised false e h = refl

  copy_mappings-AreCopied :
      (source : Tree) (mappings : Items) (candidate copied : Tree)
      → copy_mappings copier source mappings candidate ≡ ok copied
      → AreCopied source mappings candidate copied
  unfolding copy_mappings copy_mapping
  copy_mappings-AreCopied source nil candidate copied h = ok_injective h
  copy_mappings-AreCopied source (cons mapping rest) candidate copied h =
      let (next, h1, h2) = bind-eq-ok (copy_mapping copier source mapping candidate) _ h in
      let (origin, o, h3) = bind-eq-ok (path_in "source" mapping) _ h1 in
      let (target, t, h4) = bind-eq-ok (path_in "target" mapping) _ h3 in
      let (u, fine, put) =
        bind-eq-ok
          (refuse_if (not (copier.origin_inside source origin) || not (copier.target_inside target))
            _)
          _ h4 in
      let (from, to) =
        both_true (copier.origin_inside source origin) (copier.target_inside target)
          (unraised _ _ fine) in
      (
        origin,
        target,
        next,
        paths-Maps mapping origin target o t,
        from,
        to,
        put,
        copy_mappings-AreCopied source rest next copied h2,
      )

  -- The text after each mapping's source has been replaced by its target, in order.
  abbrev pub IsReplaced : Items → String → String → Type 0
  IsReplaced nil text changed = text ≡ changed
  IsReplaced (cons mapping rest) text changed =
      (origin : String) × (target : String) × Maps mapping origin target
      × IsReplaced rest (copier.replace origin target text) changed

  replace_mappings-IsReplaced :
      (source : Tree) (mappings : Items) (text changed : String)
      → replace_mappings copier source mappings text ≡ ok changed
      → IsReplaced mappings text changed
  unfolding replace_mappings
  replace_mappings-IsReplaced source nil text changed h = ok_injective h
  replace_mappings-IsReplaced source (cons mapping rest) text changed h =
      let (origin, o, h1) = bind-eq-ok (path_in "source" mapping) _ h in
      let (target, t, h2) = bind-eq-ok (path_in "target" mapping) _ h1 in
      (
        origin,
        target,
        paths-Maps mapping origin target o t,
        replace_mappings-IsReplaced source rest _ changed h2,
      )

  -- One tree becomes the other as each file is written with its paths replaced.
  abbrev pub AreRewritten : Items → List String → Tree → Tree → Type 0
  AreRewritten mappings [] candidate tree = candidate ≡ tree
  AreRewritten mappings (path ∷ paths) candidate tree =
      (text : String) × (changed : String) × (next : Tree) × (copier.read_text path candidate
        ≡ ok text)
      × IsReplaced mappings text changed
      × (copier.write_text path changed candidate ≡ ok next)
      × AreRewritten mappings paths next tree

  rewrite_files-AreRewritten :
      (source : Tree) (mappings : Items) (paths : List String) (candidate tree : Tree)
      → rewrite_files copier source mappings paths candidate ≡ ok tree
      → AreRewritten mappings paths candidate tree
  unfolding rewrite_files
  rewrite_files-AreRewritten source mappings [] candidate tree h = ok_injective h
  rewrite_files-AreRewritten source mappings (path ∷ paths) candidate tree h =
      let (text, read, h1) = bind-eq-ok (copier.read_text path candidate) _ h in
      let (changed, c, h2) = bind-eq-ok (replace_mappings copier source mappings text) _ h1 in
      let (next, written, h3) = bind-eq-ok (copier.write_text path changed candidate) _ h2 in
      (
        text,
        changed,
        next,
        read,
        replace_mappings-IsReplaced source mappings text changed c,
        written,
        rewrite_files-AreRewritten source mappings paths next tree h3,
      )

  -- A new tree that the parts were copied to, its code files rewritten.
  pub record IsMadeOfParts (source : Tree) (fields : Fields) (tree : Tree) : Type 0 where
    pub empty : Tree
    pub mappings : Items
    pub parts : Tree
    pub new : copier.empty ≡ ok empty
    pub listed : mappings_of fields ≡ ok mappings
    pub copied : AreCopied source mappings empty parts
    pub rewritten : AreRewritten mappings (copier.code_files parts) parts tree

  pub copy_parts-IsMadeOfParts :
      (source tree : Tree) (fields : Fields)
      → copy_parts copier source fields ≡ ok tree
      → IsMadeOfParts source fields tree
  unfolding copy_parts
  copy_parts-IsMadeOfParts source tree fields h =
      let (empty, new, h1) = bind-eq-ok copier.empty _ h in
      let (mappings, listed, h2) = bind-eq-ok (mappings_of fields) _ h1 in
      let (parts, c, h3) = bind-eq-ok (copy_mappings copier source mappings empty) _ h2 in
      record {
        empty = empty;
        mappings = mappings;
        parts = parts;
        new = new;
        listed = listed;
        copied = copy_mappings-AreCopied source mappings empty parts c;
        rewritten = rewrite_files-AreRewritten source mappings _ parts tree h3;
      }
