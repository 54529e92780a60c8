-- ===== src/Plugins/Alone.antt =====
-- `enable` of user-plugins.py: of a plugin and its clones, one is enabled.
use fedora_config.Base.{
  ◌≡◌, refl, sym, ◌∙◌, ap, subst, true, false, Bool-cases, inl, inr, Option, none, some,
}
use fedora_config.Base.{String, str_eq, eq_iff, Exn, ok, raised}
use fedora_config.Base.Fallible.{bind-eq-ok, unrefused, of_ok, ok_injective}
use fedora_config.Json.{Value, bool, obj, Fields, end, field, get, put}
use fedora_config.Json.Laws.{str_eq-flip}
use fedora_config.Plugins.Options.{Options, options, read_dict}
use fedora_config.Plugins.Manifest.{Packages, Descriptor, read_package}
use fedora_config.Plugins.Kin.{origin_of, IsKin, IsKin-is_relative, is_relative-IsKin}
use fedora_config.Plugins.Applied.{get-other, get-same, IsOn, applied_from}
use fedora_config.Plugins.Commands.{
  Given, enable_plugin, with_enabled, put_given, plugins_of, checked_entry, change_entry,
  disable_other, disable_relatives, change_others, change_plugin, is_relative,
}
use fedora_config.Plugins.Restored.{plugins-with_plugins}

put_given-other :
    (key other : String) (v : Option Value) (fs : Fields)
    → str_eq key other ≡ false
    → get other (put_given key v fs) ≡ get other fs
unfolding put_given
put_given-other key other none fs d = refl
put_given-other key other (some v) fs d = get-other key other v fs d

with_enabled-IsOn : (given : Given) (entry : Fields) → IsOn (with_enabled given entry)
unfolding with_enabled
with_enabled-IsOn given entry = (
  put_given-other "section" "enabled" _ _ refl
      ∙ put_given-other "order" "enabled" _ _ refl
      ∙ put_given-other "width" "enabled" _ _ refl
      ∙ get-other "widgetEnabled" "enabled" _ _ refl
      ∙ get-same "enabled" _ entry,
  put_given-other "section" "widgetEnabled" _ _ refl
      ∙ put_given-other "order" "widgetEnabled" _ _ refl
      ∙ put_given-other "width" "widgetEnabled" _ _ refl
      ∙ get-same "widgetEnabled" _ _,
)

module _ (disk : Packages) where
  -- The other plugins, each changed by itself.
  get-disable_relatives :
      (plugin_id id : String) (origin v : Value) (plugins : Fields)
      → get id plugins ≡ some v
      → get id (disable_relatives disk plugin_id origin plugins)
        ≡ some (disable_other disk plugin_id origin id v)
  unfolding disable_relatives get
  get-disable_relatives plugin_id id origin v end found = absurd (cc)
  get-disable_relatives plugin_id id origin v (field other w rest) found =
      elim (Bool-cases (str_eq other id)) [
        | inl y ↦ let same : w ≡ v = cc (rw y at found) in rw (y, (eq_iff other id).0 y, same) refl
        | inr n ↦ rw n (get-disable_relatives plugin_id id origin v rest (rw n at found))
      ]

  disable_other-off :
      (plugin_id id : String) (origin : Value) (saved : Fields)
      → str_eq id plugin_id ≡ false
      → is_relative origin id (read_package disk id) ≡ true
      → disable_other disk plugin_id origin id (obj saved) ≡ obj (put "enabled" (bool false) saved)
  unfolding disable_other
  disable_other-off plugin_id id origin saved d r = rw (disable_other, d, r) refl

  disable_other-same :
      (plugin_id id : String) (origin : Value) (saved : Fields)
      → is_relative origin id (read_package disk id) ≡ false
      → disable_other disk plugin_id origin id (obj saved) ≡ obj saved
  unfolding disable_other
  disable_other-same plugin_id id origin saved r = elim (Bool-cases (str_eq id plugin_id)) [
    | inl y ↦ rw (disable_other, y) refl
    | inr n ↦ rw (disable_other, n, r) refl
  ]

  unrelated :
      (plugin_id : String) (d : Descriptor) (id : String) (other : Descriptor)
      → (IsKin plugin_id d id other → ⊥)
      → is_relative (origin_of plugin_id d) id (ok other) ≡ false
  unrelated plugin_id d id other strange =
      elim (Bool-cases (is_relative (origin_of plugin_id d) id (ok other))) [
        | inl y ↦ absurd (strange (is_relative-IsKin plugin_id d id other y))
        | inr n ↦ n
      ]

  -- The plugins once `plugin_id` is enabled.
  pub record IsAlone (plugin_id : String) (d : Descriptor) (before after : Fields) : Type 0 where
    pub saved : Fields
    pub stored : get plugin_id after ≡ some (obj saved)
    pub on : IsOn saved
    pub valid : (o : Options) × (options (obj saved) ≡ ok o)
    pub relatives :
        (id : String) (entry : Fields) (other : Descriptor)
        → str_eq plugin_id id ≡ false
        → read_package disk id ≡ ok other
        → IsKin plugin_id d id other
        → get id before ≡ some (obj entry)
        → get id after ≡ some (obj (put "enabled" (bool false) entry))
    pub others :
        (id : String) (entry : Fields) (other : Descriptor)
        → str_eq plugin_id id ≡ false
        → read_package disk id ≡ ok other
        → (IsKin plugin_id d id other → ⊥)
        → get id before ≡ some (obj entry)
        → get id after ≡ some (obj entry)
    pub unaccepted :
        (id : String) (entry : Fields) (e : Exn)
        → str_eq plugin_id id ≡ false
        → read_package disk id ≡ raised e
        → get id before ≡ some (obj entry)
        → get id after ≡ some (obj entry)

  changed_others :
      (plugin_id : String) (given : Given) (d : Descriptor) (plugins others : Fields)
      → read_package disk plugin_id ≡ ok d
      → change_others disk plugin_id (enable_plugin given) plugins ≡ ok others
      → disable_relatives disk plugin_id (origin_of plugin_id d) plugins ≡ others
  unfolding change_others
  changed_others plugin_id given d plugins others p h =
      ok_injective (applied_from (read_package disk plugin_id) d _ others p h)

  enabled_entry :
      (plugin_id : String) (given : Given) (entry changed : Fields)
      → change_entry disk plugin_id (enable_plugin given) entry ≡ ok changed
      → IsOn changed × ((o : Options) × (options (obj changed) ≡ ok o))
  unfolding change_entry checked_entry
  enabled_entry plugin_id given entry changed h =
      let (o, valid, h1) = bind-eq-ok (options _) _ h in
      of_ok (λ changed. IsOn changed × ((o : Options) × (options (obj changed) ≡ ok o))) h1
        (with_enabled-IsOn given entry, (o, valid))

  -- After `enable`, the plugin is on with preferences that `options` accepts. Its origin is the
  -- `clonedFrom` of its manifest, or itself where there is none: of the other plugins, each one whose
  -- package is accepted and which is that origin or is marked as cloned from it is disabled and
  -- otherwise as it was; the preferences of every other one, and of those whose package is not
  -- accepted, are untouched.
  pub enable-IsAlone :
      (plugin_id : String) (given : Given) (d : Descriptor) (registry after : Fields)
      → read_package disk plugin_id ≡ ok d
      → change_plugin disk plugin_id (enable_plugin given) registry ≡ ok after
      → IsAlone plugin_id d (plugins_of registry) (plugins_of after)
  unfolding change_plugin is_relative
  enable-IsAlone plugin_id given d registry after p h =
      let (_, h1) = unrefused _ _ _ h in
      let (entry, _, h2) = bind-eq-ok (read_dict _ _) _ h1 in
      let (others, a, h3) = bind-eq-ok (change_others disk plugin_id _ _) _ h2 in
      let (changed, b, h4) = bind-eq-ok (change_entry disk plugin_id _ _) _ h3 in
      let known = changed_others plugin_id given d (plugins_of registry) others p a in
      let (on, valid) = enabled_entry plugin_id given entry changed b in
      let origin = origin_of plugin_id d in
      let now : (id : String) (saved : Fields)
          → str_eq plugin_id id ≡ false
          → get id (plugins_of registry) ≡ some (obj saved)
          → get id (put plugin_id (obj changed) others)
            ≡ some (disable_other disk plugin_id origin id (obj saved)) =
        λ id saved n found.
          get-other plugin_id id _ others n
          ∙ ap (get id) (sym known)
          ∙ get-disable_relatives plugin_id id origin (obj saved) (plugins_of registry) found in
      of_ok (λ after. IsAlone plugin_id d (plugins_of registry) (plugins_of after)) h4
        (subst (IsAlone plugin_id d (plugins_of registry)) (sym (plugins-with_plugins _ registry))
          (record {
            saved = changed;
            stored = get-same plugin_id _ others;
            on = on;
            valid = valid;
            relatives = λ id saved other n r kin found.
                now id saved n found
                ∙ ap some (
                    disable_other-off plugin_id id origin saved (str_eq-flip id plugin_id n)
                      (rw r (IsKin-is_relative plugin_id d id other kin)));
            others = λ id saved other n r strange found.
                now id saved n found
                ∙ ap some (
                    disable_other-same plugin_id id origin saved
                      (rw r (unrelated plugin_id d id other strange)));
            unaccepted = λ id saved e n r found.
                now id saved n found
                ∙ ap some (disable_other-same plugin_id id origin saved (rw r refl));
          }))
