-- ===== src/Plugins/Drawn.antt =====
-- What holds of every widget that a scan lists without an error.
use fedora_config.Base.{
  ◌≤◌, ◌≡◌, inl, inr, refl, sym, ap, subst, Bool, true, false, ◌&&◌, Bool-cases, none, some, List,
  [], ◌∷◌, ◌++◌, All, All-sort_by, is_member,
}
use fedora_config.Base.{
  String, str_eq, if◌then◌else◌, Result, ok, raised, value_error, os_error, Exec, lift, gets,
  result,
}
use fedora_config.Base.Fallible
use fedora_config.Base.Fallible.{of_ok, ok_injective, unrefused}
use fedora_config.Base.Action.{◌>>=◌, ◌>>◌, bind_lift-eq-ok}
use fedora_config.Json.{Value, str, obj, Fields, end, field, get, get_or}
use fedora_config.Plugins.Options.{Options, Document, options, preferences, read_dict}
use fedora_config.Plugins.Manifest.{
  Packages, Descriptor, read_package, read_section, sections, built_in,
}
use fedora_config.Plugins.Sound.{options-width, read_package-IsSound, read_section-inv}
use fedora_config.Plugins.Scan.{
  Item, Widget, Scan, as_fields, read_flag, check_multiple, is_empty_fields, with_options,
  with_package, with_data_path, widget_of, fresh_item, instance_widget, instance_widgets,
  bar_widgets, update_item, fill_item, failed_item, settle_item, scan_plugin, scan_plugins,
  scan_registry, failed_scan, scan_from, scan_preferences, scan, read_bar,
}

module _ (disk : Packages) where
  -- The package is accepted, the width is in its bounds, and the section is one of the three.
  pub record IsPlaced (item : Item) : Type 0 where
    pub descriptor : Descriptor
    pub accepted : read_package disk item.id ≡ ok descriptor
    pub described : item.found ≡ some descriptor
    pub least : 24 ≤ item.width
    pub most : item.width ≤ 320
    pub place : String
    pub placed : item.section ≡ some (str place)
    pub inside : is_member place sections ≡ true

  abbrev pub IsDrawn : Widget → Type 0
  IsDrawn w = w.item.error ≡ none → IsPlaced w.item

  widget_of-IsPlaced : (item : Item) (b : Bool) → IsPlaced item → IsPlaced (widget_of item b).item
  unfolding widget_of
  widget_of-IsPlaced item b p = record {
    descriptor = p.descriptor;
    accepted = p.accepted;
    described = p.described;
    least = p.least;
    most = p.most;
    place = p.place;
    placed = p.placed;
    inside = p.inside;
  }

  module _ (item : Item) (saved : Fields) (section : Value) (shown : Bool) (p : IsPlaced item) where
    instance_widget-IsPlaced :
        (name : String) (v : Value) (w : Widget)
        → instance_widget item saved section shown name v ≡ ok w
        → IsPlaced w.item
    unfolding instance_widget
    instance_widget-IsPlaced name v w h =
        let (_, h1) = unrefused _ _ _ h in
        let (configured, c, h2) = Fallible.bind-eq-ok (options _) _ h1 in
        let (place, s, h3) = Fallible.bind-eq-ok (read_section _ _) _ h2 in
        let (low, high) = options-width _ configured c in
        of_ok (λ (w : Widget). IsPlaced w.item) h3
          (record {
            descriptor = p.descriptor;
            accepted = p.accepted;
            described = p.described;
            least = low;
            most = high;
            place = place;
            placed = refl;
            inside = (read_section-inv _ _ place s).1;
          })

    instance_widgets-IsPlaced :
        (instances : Fields) (ws : List Widget)
        → instance_widgets item saved section shown instances ≡ ok ws
        → All (λ (w : Widget). IsPlaced w.item) ws
    unfolding instance_widgets
    instance_widgets-IsPlaced end ws h = of_ok (All (λ (w : Widget). IsPlaced w.item)) h tt
    instance_widgets-IsPlaced (field name v rest) ws h =
        let (w, a, h1) =
          Fallible.bind-eq-ok (instance_widget item saved section shown name v) _ h in
        let (others, b, h2) =
          Fallible.bind-eq-ok (instance_widgets item saved section shown rest) _ h1 in
        of_ok (All (λ (w : Widget). IsPlaced w.item)) h2
          (instance_widget-IsPlaced name v w a, instance_widgets-IsPlaced rest others b)

  abbrev pub AllPlaced : List Widget → Type 0
  AllPlaced ws = All (λ (w : Widget). IsPlaced w.item) ws

  bar_widgets-AllPlaced :
      (item : Item) (saved : Fields) (section : Value) (instances : Fields) (ws : List Widget)
      → IsPlaced item
      → bar_widgets item saved section instances ≡ ok ws
      → AllPlaced ws
  unfolding bar_widgets
  bar_widgets-AllPlaced item saved section instances ws p h =
      let (shown, _, h1) = Fallible.bind-eq-ok (read_flag _ _) _ h in
      elim (Bool-cases (is_empty_fields instances)) [
        | inl y ↦
            of_ok AllPlaced (rw y at h1) (widget_of-IsPlaced item (item.enabled && shown) p, tt)
        | inr n ↦ instance_widgets-IsPlaced item saved section shown p instances ws (rw n at h1)
      ]

  update-bind :
      {A : Type 0} (f : Item → Item) (k : Exec Item A) (s t : Item) (a : A)
      → (update_item disk f >> k) s ≡ (ok a, t)
      → k (f s) ≡ (ok a, t)
  unfolding update_item ◌>>=◌
  update-bind f k s t a h = h

  get-bind :
      {A : Type 0} (k : Item → Exec Item A) (s t : Item) (a : A)
      → (gets (λ item. item) >>= k) s ≡ (ok a, t)
      → k s s ≡ (ok a, t)
  unfolding gets ◌>>=◌
  get-bind k s t a h = h

  filled-IsPlaced :
      (plugin_id path : String) (entry v : Value) (chosen : Options) (d : Descriptor)
      (place : String)
      → options entry ≡ ok chosen
      → read_package disk plugin_id ≡ ok d
      → v ≡ str place
      → is_member place sections ≡ true
      → IsPlaced
          (with_data_path path (with_package d v (with_options chosen (fresh_item plugin_id))))
  unfolding with_data_path with_package with_options
  filled-IsPlaced plugin_id path entry v chosen d place c found placed inside =
      let (low, high) = options-width entry chosen c in
      record {
        descriptor = d;
        accepted =
            subst (λ i. read_package disk i ≡ ok d)
              (sym (read_package-IsSound disk plugin_id d found).own) found;
        described = refl;
        least = low;
        most = high;
        place = place;
        placed = ap some placed;
        inside = inside;
      }

  lifted-AllPlaced :
      (b : Bool) (r : Result (List Widget)) (s t : Item) (ws : List Widget)
      → ((vs : List Widget) → r ≡ ok vs → AllPlaced vs)
      → lift (if b then r else ok []) s ≡ (ok ws, t)
      → AllPlaced ws
  unfolding lift
  lifted-AllPlaced true r s t ws k h = k ws (ap result h)
  lifted-AllPlaced false r s t ws k h = of_ok AllPlaced (ap result h) tt

  -- The `try` returns.
  fill_item-AllPlaced :
      (plugin_id : String) (entry : Value) (item : Item) (ws : List Widget)
      → fill_item disk plugin_id entry (fresh_item plugin_id) ≡ (ok ws, item)
      → AllPlaced ws
  unfolding fill_item
  fill_item-AllPlaced plugin_id entry item ws h =
      let (chosen, c, h1) = bind_lift-eq-ok (options entry) _ _ ws item h in
      let h2 = update-bind _ _ _ item ws h1 in
      let (d, found, h3) = bind_lift-eq-ok (read_package disk plugin_id) _ _ ws item h2 in
      let h4 = update-bind _ _ _ item ws h3 in
      let (section, s, h5) = bind_lift-eq-ok (read_section _ _) _ _ ws item h4 in
      let h6 = update-bind _ _ _ item ws h5 in
      let (instances, _, h7) = bind_lift-eq-ok (read_dict _ _) _ _ ws item h6 in
      let (_, _, h8) = bind_lift-eq-ok (check_multiple _ _) _ _ ws item h7 in
      let h9 = get-bind _ _ item ws h8 in
      let (raw, inside) = read_section-inv _ _ section s in
      let placed =
        filled-IsPlaced plugin_id (disk.data_path plugin_id) entry _ chosen d section c found raw
          inside in
      lifted-AllPlaced _ _ _ item ws
        (λ vs e. bar_widgets-AllPlaced _ (as_fields entry) (str section) instances vs placed e) h9

  failed_item-IsDrawn :
      (problem : String) (item : Item) → All IsDrawn (failed_item disk problem item).1
  unfolding failed_item widget_of
  failed_item-IsDrawn problem item = elim (Bool-cases item.enabled) [
    | inl y ↦ rw y (λ e. absurd (cc e), tt)
    | inr n ↦ rw n tt
  ]

  AllPlaced-IsDrawn : (ws : List Widget) → AllPlaced ws → All IsDrawn ws
  AllPlaced-IsDrawn [] ps = tt
  AllPlaced-IsDrawn (w ∷ ws) ps = (λ e. ps.0, AllPlaced-IsDrawn ws ps.1)

  abbrev AllDrawn : List Item × List Widget → Type 0
  AllDrawn (items, ws) = All IsDrawn ws

  settle_item-AllDrawn :
      (r : Result (List Widget)) (item : Item) (p : Item × List Widget)
      → ((ws : List Widget) → r ≡ ok ws → AllPlaced ws)
      → settle_item disk (r, item) ≡ ok p
      → All IsDrawn p.1
  unfolding settle_item
  settle_item-AllDrawn (ok ws) item p k h =
      of_ok (λ (p : Item × List Widget). All IsDrawn p.1) h (AllPlaced-IsDrawn ws (k ws refl))
  settle_item-AllDrawn (raised (value_error problem)) item p k h =
      of_ok (λ (p : Item × List Widget). All IsDrawn p.1) h (failed_item-IsDrawn problem item)
  settle_item-AllDrawn (raised os_error) item p k h =
      of_ok (λ (p : Item × List Widget). All IsDrawn p.1) h (failed_item-IsDrawn _ item)
  settle_item-AllDrawn (raised _) item p k h = absurd (cc)

  scan_plugin-AllDrawn :
      (saved : Fields) (plugin_id : String) (p : List Item × List Widget)
      → scan_plugin disk saved plugin_id ≡ ok p
      → AllDrawn p
  unfolding scan_plugin
  scan_plugin-AllDrawn saved plugin_id p h = elim (Bool-cases (str_eq plugin_id built_in)) [
    | inl y ↦ of_ok AllDrawn (rw (scan_plugin, y) at h) tt
    | inr n ↦
        let filled =
          fill_item disk plugin_id (get_or (obj end) (get plugin_id saved))
            (fresh_item plugin_id) in
        let (q, a, h1) =
          Fallible.bind-eq-ok (settle_item disk filled) _ (rw (scan_plugin, n) at h) in
        of_ok AllDrawn h1 (
          settle_item-AllDrawn filled.0 filled.1 q
            (λ ws e. fill_item-AllPlaced plugin_id _ filled.1 ws (λ i. (e i, filled.1))) a)
  ]

  All-append : (P : Widget → Type 0) (vs ws : List Widget) → All P vs → All P ws → All P (vs ++ ws)
  All-append P [] ws ps qs = qs
  All-append P (v ∷ vs) ws ps qs = (ps.0, All-append P vs ws ps.1 qs)

  scan_plugins-AllDrawn :
      (saved : Fields) (ids : List String) (p : List Item × List Widget)
      → scan_plugins disk saved ids ≡ ok p
      → AllDrawn p
  unfolding scan_plugins
  scan_plugins-AllDrawn saved [] p h = of_ok AllDrawn h tt
  scan_plugins-AllDrawn saved (plugin_id ∷ ids) p h =
      let (q, a, h1) = Fallible.bind-eq-ok (scan_plugin disk saved plugin_id) _ h in
      let (r, b, h2) = Fallible.bind-eq-ok (scan_plugins disk saved ids) _ h1 in
      of_ok AllDrawn h2 (
        All-append IsDrawn q.1 r.1 (scan_plugin-AllDrawn saved plugin_id q a)
          (scan_plugins-AllDrawn saved ids r b))

  scan_from-AllDrawn :
      (registry : Fields) (bar : Result Fields) (s : Scan disk)
      → scan_from disk registry bar ≡ ok s
      → All IsDrawn s.widgets
  unfolding scan_from scan_registry failed_scan
  scan_from-AllDrawn registry (ok bar) s h =
      let (installed, _, h1) = Fallible.bind-eq-ok disk.installed _ h in
      let (p, a, h2) = Fallible.bind-eq-ok (scan_plugins disk _ _) _ h1 in
      of_ok (λ (s : Scan disk). All IsDrawn s.widgets) h2
        (All-sort_by _ IsDrawn p.1 (scan_plugins-AllDrawn _ _ p a))
  scan_from-AllDrawn registry (raised (value_error problem)) s h =
      of_ok (λ (s : Scan disk). All IsDrawn s.widgets) h tt
  scan_from-AllDrawn registry (raised _) s h = absurd (cc)

  scan_preferences-AllDrawn :
      (registry : Result Fields) (s : Scan disk)
      → scan_preferences disk registry ≡ ok s
      → All IsDrawn s.widgets
  unfolding scan_preferences failed_scan
  scan_preferences-AllDrawn (ok registry) s h =
      scan_from-AllDrawn registry (read_bar disk registry) s h
  scan_preferences-AllDrawn (raised (value_error problem)) s h =
      of_ok (λ (s : Scan disk). All IsDrawn s.widgets) h tt
  scan_preferences-AllDrawn (raised os_error) s h =
      of_ok (λ (s : Scan disk). All IsDrawn s.widgets) h tt
  scan_preferences-AllDrawn (raised _) s h = absurd (cc)

  -- Every widget that a scan lists without an error has a package that is accepted now, a width
  -- from 24 to 320 and one of the three sections, whatever the registry and the packages hold.
  pub scan-AllDrawn :
      (config : Document) (s : Scan disk) → scan disk config ≡ ok s → All IsDrawn s.widgets
  unfolding scan
  scan-AllDrawn config s h = scan_preferences-AllDrawn (preferences config) s h
