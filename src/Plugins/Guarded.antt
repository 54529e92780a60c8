-- ===== src/Plugins/Guarded.antt =====
-- What the commands of user-plugins.py leave alone.
use fedora_config.Base.{
  ◌≡◌, refl, sym, ◌∙◌, ap, Bool, true, false, ◌||◌, Bool-cases, inl, inr, Option, none, some,
}
use fedora_config.Base.{String, str_eq, ok}
use fedora_config.Base.Fallible.{bind-eq-ok, unrefused, of_ok, ok_injective}
use fedora_config.Json.{Value, obj, Fields, end, field, get, get_or, has, put, remove, merge}
use fedora_config.Plugins.Options.{read_dict}
use fedora_config.Plugins.Manifest.{Packages}
use fedora_config.Plugins.Layout.{read_groups, apply_groups, hide_others, apply_layout}
use fedora_config.Plugins.Applied.{get-other, get-same}
use fedora_config.Plugins.Commands.{configure_bar, apply_given_layout, read_json}

-- A key that the patch has not keeps its value.
get-merge :
    (key : String) (fields patch : Fields)
    → has key patch ≡ false
    → get key (merge fields patch) ≡ get key fields
unfolding merge has
get-merge key fields end h = refl
get-merge key fields (field k v rest) h =
    let (other, later) = neither (str_eq k key) (has key rest) h in
    get-merge key (put k v fields) rest later ∙ get-other k key v fields other
  where
    neither : (a b : Bool) → (a || b) ≡ false → (a ≡ false) × (b ≡ false)
    neither true b q = absurd (cc)
    neither false b q = (refl, q)

has-remove :
    (key other : String) (fields : Fields)
    → has key fields ≡ false
    → has key (remove other fields) ≡ false
unfolding has remove
has-remove key other end h = refl
has-remove key other (field k v rest) h = elim (Bool-cases (str_eq k other)) [
  | inl y ↦ rw y (has-remove key other rest (right_false (str_eq k key) _ h))
  | inr n ↦
      rw (n, left_false (str_eq k key) _ h)
        (has-remove key other rest (right_false (str_eq k key) _ h))
]
  where
    right_false : (a b : Bool) → (a || b) ≡ false → b ≡ false
    right_false true b q = absurd (cc)
    right_false false b q = q

    left_false : (a b : Bool) → (a || b) ≡ false → a ≡ false
    left_false true b q = absurd (cc)
    left_false false b q = refl

removed-has : (key : String) (fields : Fields) → has key (remove key fields) ≡ false
unfolding has remove
removed-has key end = refl
removed-has key (field k v rest) = elim (Bool-cases (str_eq k key)) [
  | inl y ↦ rw y (removed-has key rest)
  | inr n ↦ rw (n, n) (removed-has key rest)
]

read_dict-obj : (problem : String) (fs : Fields) → read_dict problem (obj fs) ≡ ok fs
unfolding read_dict
read_dict-obj problem fs = refl

read_dict-eq :
    (problem : String) (v : Value) (before fs : Fields)
    → v ≡ obj before
    → read_dict problem v ≡ ok fs
    → fs ≡ before
read_dict-eq problem v before fs e r =
    ok_injective (sym r ∙ ap (read_dict problem) e ∙ read_dict-obj problem before)

module _ (disk : Packages) where
  apply_layout-rest :
      (registry after : Fields) (layout : Value) (key : String)
      → str_eq "plugins" key ≡ false
      → apply_layout disk registry layout ≡ ok after
      → get key after ≡ get key registry
  unfolding apply_layout
  apply_layout-rest registry after layout key d h =
      let (groups, _, h1) = bind-eq-ok (read_groups disk layout) _ h in
      let (next, _, h2) = bind-eq-ok (apply_groups disk groups _) _ h1 in
      let (shown, _, h3) = bind-eq-ok (hide_others disk groups next) _ h2 in
      of_ok (λ after. get key after ≡ get key registry) h3 (get-other "plugins" key _ registry d)

  -- `apply_layout` leaves what is not under `plugins`.
  layout-rest :
      (layout : Option Value) (registry after : Fields) (key : String)
      → str_eq "plugins" key ≡ false
      → apply_given_layout disk layout registry ≡ ok after
      → get key after ≡ get key registry
  unfolding apply_given_layout
  layout-rest none registry after key d h = ap (get key) (sym (ok_injective h))
  layout-rest (some layout) registry after key d h = apply_layout-rest registry after layout key d h

  -- `bar-config` does not choose another bar: the bar's id stays, and so does everything of the
  -- registry but the bar and the plugins.
  pub configure_bar-keeps :
      (json : Option Value) (registry after bar : Fields)
      → get_or (obj end) (get "bar" registry) ≡ obj bar
      → configure_bar disk json registry ≡ ok after
      → ((bar' : Fields) × (get "bar" after ≡ some (obj bar')) × (get "id" bar' ≡ get "id" bar))
        × ((key : String)
            → str_eq "plugins" key ≡ false
            → str_eq "bar" key ≡ false
            → get key after ≡ get key registry)
  unfolding configure_bar
  configure_bar-keeps json registry after bar here h =
      let (v, _, h1) = bind-eq-ok (read_json json) _ h in
      let (incoming, _, h2) = bind-eq-ok (read_dict _ v) _ h1 in
      let (_, h3) = unrefused _ _ _ h2 in
      let (current, c, h4) = bind-eq-ok (read_dict _ _) _ h3 in
      let known = read_dict-eq _ _ bar current here c in
      let patch = remove "layout" (remove "id" incoming) in
      (
        (
          merge current patch,
          layout-rest _ _ after "bar" refl h4 ∙ get-same "bar" _ registry,
          get-merge "id" current patch (has-remove "id" "layout" _ (removed-has "id" incoming))
              ∙ ap (get "id") known,
        ),
        λ key p b. layout-rest _ _ after key p h4 ∙ get-other "bar" key _ registry b,
      )
