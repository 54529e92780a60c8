-- ===== src/Plugins/Applied.antt =====
-- What `apply_layout` does to the plugins that a layout names, and to those that it leaves out.
use fedora_config.Base.{◌≡◌, refl, subst, true, false, none, some}
use fedora_config.Base.{String, str_eq, eq_iff, Result, ok, raised}
use fedora_config.Base.Fallible.{◌>>=◌, ok_injective}
use fedora_config.Json.{is_object, Value, bool, obj, Fields, end, get, get_or, put}
use fedora_config.Json.Laws.{get-put}
use fedora_config.Plugins.Options.{Options, options}
use fedora_config.Plugins.Manifest.{Packages}
use fedora_config.Plugins.Scan.{as_fields}
use fedora_config.Plugins.Layout.{Groups, is_grouped}

pub get-other :
    (k j : String) (v : Value) (fs : Fields) → str_eq k j ≡ false → get j (put k v fs) ≡ get j fs
get-other k j v fs h = rw (get-put k j v fs, h) refl

pub get-same : (k : String) (v : Value) (fs : Fields) → get k (put k v fs) ≡ some v
get-same k v fs = rw (get-put k k v fs, (eq_iff k k).1 refl) refl

-- The widget is switched on.
abbrev pub IsOn : Fields → Type 0
IsOn saved =
    (get "enabled" saved ≡ some (bool true)) × (get "widgetEnabled" saved ≡ some (bool true))

pub applied_from :
    {A B : Type 0} (r : Result A) (a : A) (f : A → Result B) (b : B)
    → r ≡ ok a
    → (r >>= f) ≡ ok b
    → f a ≡ ok b
applied_from (ok x) a f b e h = subst (λ z. f z ≡ ok b) (ok_injective e) h
applied_from (raised x) a f b e h = absurd (cc)

module _ (disk : Packages) where
  -- The plugin is shown: it is switched on, and its preferences are in order.
  abbrev pub IsShown : String → Fields → Type 0
  IsShown id plugins =
      (saved : Fields) × (get id plugins ≡ some (obj saved))
      × IsOn saved
      × ((o : Options) × (options (obj saved) ≡ ok o))

  -- All but `widgetEnabled` is the same.
  abbrev pub IsKept : Fields → Fields → Type 0
  IsKept saved saved' =
      (key : String) → str_eq "widgetEnabled" key ≡ false → get key saved' ≡ get key saved

  -- The registry after a layout that names the plugins of `groups`.
  pub record IsApplied (groups : Groups) (registry after : Fields) : Type 0 where
    pub plugins : Fields
    pub stored : get "plugins" after ≡ some (obj plugins)
    pub shown : (id : String) → is_grouped id groups ≡ true → IsShown id plugins
    pub kept :
        (id : String) (saved : Fields)
        → is_grouped id groups ≡ false
        → get id (as_fields (get_or (obj end) (get "plugins" registry))) ≡ some (obj saved)
        → (saved' : Fields) × (get id plugins ≡ some (obj saved')) × IsKept saved saved'
    pub unadded :
        (id : String)
        → is_grouped id groups ≡ false
        → get id (as_fields (get_or (obj end) (get "plugins" registry))) ≡ none
        → get id plugins ≡ none
    pub unchanged :
        (id : String) (v : Value)
        → is_grouped id groups ≡ false
        → get id (as_fields (get_or (obj end) (get "plugins" registry))) ≡ some v
        → is_object v ≡ false
        → get id plugins ≡ some v
    pub rest : (key : String) → str_eq "plugins" key ≡ false → get key after ≡ get key registry
