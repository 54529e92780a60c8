-- ===== src/Plugins/Restored.antt =====
-- A clone that is removed gives its original back as it was.
use fedora_config.Base.{
  ◌≡◌, refl, sym, ◌∙◌, ap, Bool, true, false, some, String, str_eq, if◌then◌else◌, ok,
}
use fedora_config.Base.Fallible.{bind-eq-ok, of_ok, ok_injective}
use fedora_config.Json.{Value, bool, str, obj, Fields, end, get, get_or, put, remove}
use fedora_config.Json.Laws.{str_eq-flip}
use fedora_config.Plugins.Options.{Options, options, options_of, read_enabled, read_dict}
use fedora_config.Plugins.Scan.{as_fields}
use fedora_config.Plugins.Applied.{get-other, get-same}
use fedora_config.Plugins.Commands.{plugins_of, with_plugins}
use fedora_config.Plugins.Clone.{
  is_bar, set_bar, restore_of, clone_entry, disable_original, clone_registry, restore_original,
  restore_plugins, bar_after, disable_removed, remove_registry,
}

pub plugins-with_plugins :
    (plugins registry : Fields) → plugins_of (with_plugins plugins registry) ≡ plugins
unfolding plugins_of with_plugins as_fields get_or
plugins-with_plugins plugins registry = rw (get-same "plugins" (obj plugins) registry) refl

plugins-set_bar :
    (v : Value) (registry : Fields) → plugins_of (set_bar v registry) ≡ plugins_of registry
unfolding plugins_of set_bar
plugins-set_bar v registry =
    rw
      (get-other "bar" "plugins"
        (obj (put "id" v (as_fields (get_or (obj end) (get "bar" registry))))) registry refl)
      refl

plugins-bar :
    (b : Bool) (v : Value) (plugins registry : Fields)
    → plugins_of
        (if b then set_bar v (with_plugins plugins registry) else with_plugins plugins registry)
      ≡ plugins
plugins-bar true v plugins registry = plugins-set_bar v _ ∙ plugins-with_plugins plugins registry
plugins-bar false v plugins registry = plugins-with_plugins plugins registry

-- What `options` reads.
options-same :
    (f g : Fields)
    → get_or (bool false) (get "enabled" f) ≡ get_or (bool false) (get "enabled" g)
    → ((key : String) → str_eq "enabled" key ≡ false → get key f ≡ get key g)
    → options (obj f) ≡ options (obj g)
unfolding options options_of
options-same f g e k = rw (e, k "width" refl, k "order" refl, k "settings" refl) refl

-- Accepted preferences have a Boolean under `enabled`, if anything.
enabled-bool : (v : Value) (b : Bool) → read_enabled v ≡ ok b → v ≡ bool b
unfolding read_enabled
enabled-bool (bool c) b h = ap bool (ok_injective h)
enabled-bool _ b h = absurd (cc)

options-enabled :
    (saved : Fields) (o : Options)
    → options (obj saved) ≡ ok o
    → (b : Bool) × (get_or (bool false) (get "enabled" saved) ≡ bool b)
unfolding options options_of
options-enabled saved o h =
    let (b, a, h1) = bind-eq-ok (read_enabled _) _ h in (b, enabled-bool _ b a)

module _ (plugin_id new_id : String) (registry saved : Fields)
    (other : str_eq new_id plugin_id ≡ false)
    (there : get plugin_id (plugins_of registry) ≡ some (obj saved)) where
  -- The plugins after the clone.
  abbrev cloned_plugins : Bool → Fields
  cloned_plugins was_bar =
      disable_original plugin_id
        (put new_id (obj (clone_entry plugin_id saved was_bar)) (plugins_of registry))

  get-original :
      (was_bar : Bool)
      → get plugin_id (cloned_plugins was_bar) ≡ some (obj (put "enabled" (bool false) saved))
  unfolding disable_original as_fields
  get-original was_bar =
      let found =
        get-other new_id plugin_id (obj (clone_entry plugin_id saved was_bar)) (plugins_of registry)
          other
        ∙ there in
      rw (disable_original, found) (get-same plugin_id _ _)

  get-clone :
      (was_bar : Bool)
      → get new_id (cloned_plugins was_bar) ≡ some (obj (clone_entry plugin_id saved was_bar))
  unfolding disable_original as_fields
  get-clone was_bar =
      let entry = obj (clone_entry plugin_id saved was_bar) in
      let found = get-other new_id plugin_id entry (plugins_of registry) other ∙ there in
      rw (disable_original, found)
        (get-other plugin_id new_id _ (put new_id entry (plugins_of registry))
            (str_eq-flip plugin_id new_id other)
          ∙ get-same new_id entry (plugins_of registry))

  same_original :
      (was_bar : Bool)
      → disable_original plugin_id (
          put new_id
            (obj (
              clone_entry plugin_id
                (as_fields (get_or (obj end) (get plugin_id (plugins_of registry))))
                was_bar))
            (plugins_of registry))
        ≡ cloned_plugins was_bar
  unfolding as_fields get_or
  same_original was_bar = rw there refl

  clone-plugins :
      (after : Fields)
      → clone_registry plugin_id new_id registry ≡ ok after
      → (was_bar : Bool) × (plugins_of after ≡ cloned_plugins was_bar)
  unfolding clone_registry
  clone-plugins after h =
      let (_, _, h1) = bind-eq-ok (options _) _ h in
      let (was_bar, _, h2) = bind-eq-ok (is_bar _ _) _ h1 in
      (
        was_bar,
        of_ok (λ after. plugins_of after ≡ cloned_plugins was_bar) h2
            (plugins-bar was_bar (str new_id) _ registry ∙ same_original was_bar),
      )

  -- The original's own entry, enabled as it was.
  restored-original :
      (was_bar b : Bool) (plugins restored : Fields)
      → get_or (bool false) (get "enabled" saved) ≡ bool b
      → get plugin_id plugins ≡ some (obj (put "enabled" (bool false) saved))
      → restore_plugins (restore_of plugin_id saved was_bar) plugins ≡ ok restored
      → get plugin_id restored
        ≡ some (obj (put "enabled" (bool b) (put "enabled" (bool false) saved)))
  unfolding restore_plugins restore_of restore_original get
  restored-original was_bar b plugins restored e found h =
      of_ok
        (λ r.
          get plugin_id r ≡ some (obj (put "enabled" (bool b) (put "enabled" (bool false) saved))))
        (rw (restore_original, found, e) at h) (get-same plugin_id _ plugins)

  own_entry :
      (was_bar : Bool) (plugins removed : Fields)
      → plugins ≡ cloned_plugins was_bar
      → read_dict "Plugin preferences must be an object" (get_or (obj end) (get new_id plugins))
        ≡ ok removed
      → clone_entry plugin_id saved was_bar ≡ removed
  unfolding read_dict get_or
  own_entry was_bar plugins removed same h =
      let found = ap (get new_id) same ∙ get-clone was_bar in
      ok_injective (rw (read_dict, found) at h)

  own_restore :
      (was_bar : Bool) (removed restore : Fields)
      → clone_entry plugin_id saved was_bar ≡ removed
      → read_dict "Invalid clone restoration metadata"
          (get_or (obj end) (get "cloneRestore" removed))
        ≡ ok restore
      → restore_of plugin_id saved was_bar ≡ restore
  unfolding read_dict clone_entry get_or
  own_restore was_bar removed restore same h =
      let found =
        ap (get "cloneRestore") (sym same)
        ∙ get-same "cloneRestore" (obj (restore_of plugin_id saved was_bar)) _ in
      ok_injective (rw (read_dict, found) at h)

  get-removed :
      (registry restored : Fields) (v : Value) (was_bar : Bool)
      → get plugin_id (
          plugins_of (
            if was_bar
            then set_bar v (with_plugins (disable_removed new_id restored) registry)
            else with_plugins (disable_removed new_id restored) registry))
        ≡ get plugin_id restored
  unfolding disable_removed
  get-removed registry restored v was_bar =
      ap (get plugin_id) (plugins-bar was_bar v (disable_removed new_id restored) registry)
      ∙ get-other new_id plugin_id _ restored other

  remove-original :
      (was_bar b : Bool) (cloned after : Fields)
      → plugins_of cloned ≡ cloned_plugins was_bar
      → get_or (bool false) (get "enabled" saved) ≡ bool b
      → remove_registry new_id cloned ≡ ok after
      → get plugin_id (plugins_of after)
        ≡ some (obj (put "enabled" (bool b) (put "enabled" (bool false) saved)))
  unfolding remove_registry
  remove-original was_bar b cloned after same e h =
      let (removed, a, h1) = bind-eq-ok (read_dict _ _) _ h in
      let (restore, c, h2) = bind-eq-ok (read_dict _ _) _ h1 in
      let (restored, d, h3) = bind-eq-ok (restore_plugins _ _) _ h2 in
      let (bar, _, h4) = bind-eq-ok (is_bar _ _) _ h3 in
      let own : clone_entry plugin_id saved was_bar ≡ removed =
        own_entry was_bar (plugins_of cloned) removed same a in
      let known : restore_of plugin_id saved was_bar ≡ restore =
        own_restore was_bar removed restore own c in
      let stored = ap (get plugin_id) same ∙ get-original was_bar in
      of_ok
        (λ after.
          get plugin_id (plugins_of after)
          ≡ some (obj (put "enabled" (bool b) (put "enabled" (bool false) saved))))
        h4
        (get-removed cloned restored (bar_after restore) bar
          ∙ restored-original was_bar b _ restored e
              (get-other new_id plugin_id (obj (remove "cloneRestore" removed)) (plugins_of cloned)
                  other
                ∙ stored)
              (rw (← known) at d))

  -- A clone that is made and removed again leaves the original's preferences as they were: `options`
  -- reads the same from them, and all but `enabled` is untouched.
  pub clone-remove :
      (o : Options) (cloned after : Fields)
      → options (obj saved) ≡ ok o
      → clone_registry plugin_id new_id registry ≡ ok cloned
      → remove_registry new_id cloned ≡ ok after
      → (kept : Fields) × (get plugin_id (plugins_of after) ≡ some (obj kept))
        × (options (obj kept) ≡ ok o)
        × ((key : String) → str_eq "enabled" key ≡ false → get key kept ≡ get key saved)
  unfolding get_or
  clone-remove o cloned after valid made gone =
      let (b, e) = options-enabled saved o valid in
      let (was_bar, same) = clone-plugins cloned made in
      let rest : (key : String)
          → str_eq "enabled" key ≡ false
          → get key (put "enabled" (bool b) (put "enabled" (bool false) saved)) ≡ get key saved =
        λ key d. get-other "enabled" key _ _ d ∙ get-other "enabled" key _ saved d in
      (
        put "enabled" (bool b) (put "enabled" (bool false) saved),
        remove-original was_bar b cloned after same e gone,
        options-same (put "enabled" (bool b) (put "enabled" (bool false) saved)) saved
              (ap (get_or (bool false))
                  (get-same "enabled" (bool b) (put "enabled" (bool false) saved))
                ∙ sym e)
              rest
            ∙ valid,
        rest,
      )
