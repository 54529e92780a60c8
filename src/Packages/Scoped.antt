-- ===== src/Packages/Scoped.antt =====
-- What a block leaves that has a temporary directory, or holds the lock.
use fedora_config.Base.{
  ◌≡◌, ◌⊎◌, inl, inr, refl, Bool, false, ◌||◌, Option, none, some, String, Result, ok, raised, Exn,
  Exec,
}
use fedora_config.Base.Action.{◌>>=◌}
use fedora_config.Base.Triple.{Ends, Triple, Triple-lift, Triple-bind}
use fedora_config.Packages.Store.{
  Entry, Entries, lookup, is_some, is_present, World, Site, set_temporary, end_temporary,
  within_temporary, await_lock, locked,
}

module _ {Tree Registry : Type 0} (site : Site Tree Registry) where
  pub absent :
      (id : String) (w : World Tree Registry)
      → is_present site id w ≡ false
      → lookup id w.entries ≡ none
  unfolding is_present
  absent id w h = nothing _ (lookup id w.entries) h
    where
      nothing :
          (b : Bool) (found : Option (Entry Tree))
          → (is_some site found || b) ≡ false
          → found ≡ none
      nothing b none h = refl
      nothing b (some entry) h = absurd (cc)

  -- The conditions read the entries only.
  abbrev pub OnEntries :
      {A : Type 0} → (A → Entries Tree → Type 0) → A → World Tree Registry → Type 0
  OnEntries Q a w = Q a w.entries

  -- The temporary directory is gone, or it could not be removed or was not made.
  abbrev pub IsCleared : World Tree Registry → Type 0
  IsCleared w =
      (w.temporary ≡ none)
      ⊎ (((x : Exn) × (site.cleaned ≡ raised x)) ⊎ ((x : Exn) × (site.made_temporary ≡ raised x)))

  module _ {A : Type 0} (P : Entries Tree → Type 0) (Q : A → Entries Tree → Type 0)
      (E : Exn → Entries Tree → Type 0)
      (unclean_value : (x : Exn)
        → site.cleaned ≡ raised x
        → (a : A) (es : Entries Tree) → Q a es
        → E x es)
      (unclean_error : (x : Exn)
        → site.cleaned ≡ raised x
        → (e : Exn) (es : Entries Tree) → E e es
        → E x es) where
    end_temporary-Ends :
        (cleaned : Result (Unit {0})) (r : Result A × World Tree Registry)
        → site.cleaned ≡ cleaned
        → Ends (OnEntries Q) (OnEntries E) r
        → Ends
            (λ a w. Q a w.entries × IsCleared w)
            (λ e w. E e w.entries × IsCleared w)
            (end_temporary site cleaned r)
    unfolding end_temporary
    end_temporary-Ends (ok u) (ok a, w) same h = (h, inl refl)
    end_temporary-Ends (ok u) (raised e, w) same h = (h, inl refl)
    end_temporary-Ends (raised x) (ok a, w) same h =
        (unclean_value x same a w.entries h, inr (inl (x, same)))
    end_temporary-Ends (raised x) (raised e, w) same h =
        (unclean_error x same e w.entries h, inr (inl (x, same)))

    pub within_temporary-Triple :
        (m : Exec (World Tree Registry) A)
        → ((x : Exn) (es : Entries Tree) → P es → E x es)
        → Triple (λ w. P w.entries) (OnEntries Q) (OnEntries E) m
        → Triple
            (λ w. P w.entries)
            (λ a w. Q a w.entries × IsCleared w)
            (λ e w. E e w.entries × IsCleared w)
            (within_temporary site m)
    unfolding within_temporary set_temporary ◌>>=◌
    within_temporary-Triple m unmade k =
        Triple-bind (λ name w. P w.entries) _ _
          (Triple-lift site.made_temporary (λ name made w h. h)
            (λ x made w h. (unmade x w.entries h, inr (inr (x, made)))))
          (λ name. record {
            at = λ w h.
                end_temporary-Ends site.cleaned _ refl
                  (k.at (record w { temporary = some name }) h);
          })

  pub locked-Triple :
      {A : Type 0} {Q : A → World Tree Registry → Type 0} {E : Exn → World Tree Registry → Type 0}
      (P P' : Entries Tree → Type 0) (m : Exec (World Tree Registry) A)
      → ((es : Entries Tree) → P es → P' (site.others es))
      → ((x : Exn) (w : World Tree Registry) → P' w.entries → E x w)
      → Triple (λ w. P' w.entries) Q E m
      → Triple (λ w. P w.entries) Q E (locked site m)
  unfolding locked await_lock
  locked-Triple {E = E} P P' m moved refused k =
      Triple-bind (λ u w. P' w.entries) _ _
        (record {
          at = λ w h.
              await_lock-Ends site.lock
                (record w {
                  entries = site.others w.entries;
                  registry = site.others_registry w.registry;
                })
                (moved w.entries h);
        })
        (λ u. k)
    where
      await_lock-Ends :
          (r : Result (Unit {0})) (w : World Tree Registry)
          → P' w.entries
          → Ends (λ u v. P' v.entries) E (r, w)
      await_lock-Ends (ok u) w h = h
      await_lock-Ends (raised x) w h = refused x w h
