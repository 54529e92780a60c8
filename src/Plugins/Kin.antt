-- ===== src/Plugins/Kin.antt =====
-- Which plugins `enable` of user-plugins.py takes for relatives.
use fedora_config.Base.{
  ◌≡◌, ◌⊎◌, refl, sym, ◌∙◌, ap, Bool, true, false, ◌||◌, Bool-cases, inl, inr, Option, none, some,
  String, str_eq, eq_iff, ok,
}
use fedora_config.Json.{Value, str, obj, Fields, end, get, get_or, is_text}
use fedora_config.Plugins.Scan.{as_fields}
use fedora_config.Plugins.Manifest.{Descriptor}
use fedora_config.Plugins.Commands.{cloned_from, same_text, is_relative}

-- `manifest.get("omarchy", {}).get("clonedFrom", args.id)`
abbrev pub origin_of : String → Descriptor → Value
origin_of plugin_id d = get_or (str plugin_id) (cloned_from d.manifest)

-- The manifest has this `clonedFrom` in its `omarchy` object.
abbrev pub IsMarked : Fields → Value → Type 0
IsMarked manifest v =
    (omarchy : Fields) × (get "omarchy" manifest ≡ some (obj omarchy))
    × (get "clonedFrom" omarchy ≡ some v)

-- The plugin was cloned from `source`, or it is `source` and no clone.
abbrev pub HasOrigin : String → Descriptor → String → Type 0
HasOrigin plugin_id d source =
    IsMarked d.manifest (str source)
    ⊎ ((plugin_id ≡ source) × ((v : Value) → IsMarked d.manifest v → ⊥))

-- The other plugin is the origin of the plugin, or a clone of it.
abbrev pub IsKin : String → Descriptor → String → Descriptor → Type 0
IsKin plugin_id d id other =
    (source : String) × HasOrigin plugin_id d source
    × ((id ≡ source) ⊎ IsMarked other.manifest (str source))

IsMarked-cloned_from :
    (manifest : Fields) (v : Value) → IsMarked manifest v → cloned_from manifest ≡ some v
unfolding cloned_from as_fields get_or
IsMarked-cloned_from manifest v (omarchy, found, marked) = rw (found, marked) refl

cloned_from-IsMarked :
    (manifest : Fields) (v : Value) → cloned_from manifest ≡ some v → IsMarked manifest v
unfolding cloned_from as_fields get_or get
cloned_from-IsMarked manifest v h = by_entry (get "omarchy" manifest) refl h
  where
    by_entry :
        (found : Option Value)
        → get "omarchy" manifest ≡ found
        → get "clonedFrom" (as_fields (get_or (obj end) found)) ≡ some v
        → IsMarked manifest v
    by_entry (some (obj omarchy)) e h = (omarchy, e, h)
    by_entry none e h = absurd (cc)
    by_entry (some _) e h = absurd (cc)

HasOrigin-origin_of :
    (plugin_id : String) (d : Descriptor) (source : String)
    → HasOrigin plugin_id d source
    → origin_of plugin_id d ≡ str source
unfolding get_or
HasOrigin-origin_of plugin_id d source (inl marked) =
    rw (IsMarked-cloned_from d.manifest (str source) marked) refl
HasOrigin-origin_of plugin_id d source (inr (same, unmarked)) =
    by_mark (cloned_from d.manifest) refl
  where
    by_mark :
        (o : Option Value) → cloned_from d.manifest ≡ o → get_or (str plugin_id) o ≡ str source
    by_mark none e = ap (λ (s : String). str s) same
    by_mark (some v) e = absurd (unmarked v (cloned_from-IsMarked d.manifest v e))

origin_of-HasOrigin :
    (plugin_id : String) (d : Descriptor) (source : String)
    → origin_of plugin_id d ≡ str source
    → HasOrigin plugin_id d source
unfolding get_or
origin_of-HasOrigin plugin_id d source h = by_mark (cloned_from d.manifest) refl h
  where
    by_mark :
        (o : Option Value)
        → cloned_from d.manifest ≡ o
        → get_or (str plugin_id) o ≡ str source
        → HasOrigin plugin_id d source
    by_mark none e same =
        inr
          ((cc), λ v marked. (let found = IsMarked-cloned_from d.manifest v marked in absurd (cc)))
    by_mark (some v) e same =
        inl (cloned_from-IsMarked d.manifest (str source) (e ∙ ap (λ (x : Value). some x) same))

text_of : (s : String) (v : Value) → is_text s v ≡ true → v ≡ str s
unfolding is_text
text_of s (str t) h = ap (λ (x : String). str x) ((eq_iff t s).0 h)
text_of s _ h = absurd (cc)

pub IsKin-is_relative :
    (plugin_id : String) (d : Descriptor) (id : String) (other : Descriptor)
    → IsKin plugin_id d id other
    → is_relative (origin_of plugin_id d) id (ok other) ≡ true
unfolding is_relative same_text is_text
IsKin-is_relative plugin_id d id other (source, from, inl same) =
    rw (HasOrigin-origin_of plugin_id d source from, sym same, (eq_iff id id).1 refl) refl
IsKin-is_relative plugin_id d id other (source, from, inr marked) =
    rw
      (
        HasOrigin-origin_of plugin_id d source from,
        IsMarked-cloned_from other.manifest (str source) marked,
        (eq_iff source source).1 refl,
      )
      (or_true (str_eq source id))
  where
    or_true : (b : Bool) → (b || true) ≡ true
    or_true true = refl
    or_true false = refl

pub is_relative-IsKin :
    (plugin_id : String) (d : Descriptor) (id : String) (other : Descriptor)
    → is_relative (origin_of plugin_id d) id (ok other) ≡ true
    → IsKin plugin_id d id other
unfolding is_relative same_text
is_relative-IsKin plugin_id d id other h = elim (Bool-cases (is_text id (origin_of plugin_id d))) [
  | inl y ↦ (id, origin_of-HasOrigin plugin_id d id (text_of id _ y), inl refl)
  | inr n ↦ by_mark (cloned_from other.manifest) refl (rw n at h)
]
  where
    by_mark :
        (o : Option Value)
        → cloned_from other.manifest ≡ o
        → same_text o (origin_of plugin_id d) ≡ true
        → IsKin plugin_id d id other
    by_mark (some (str s)) e h = (
      s,
      origin_of-HasOrigin plugin_id d s (text_of s _ h),
      inr (cloned_from-IsMarked other.manifest (str s) e),
    )
    by_mark none e h = absurd (cc)
    by_mark (some _) e h = absurd (cc)
