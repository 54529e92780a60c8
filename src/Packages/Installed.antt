-- ===== src/Packages/Installed.antt =====
-- What `install` leaves.
use fedora_config.Base.{
  ◌≡◌, ◌⊎◌, inl, inr, refl, ◌∙◌, ap, subst, true, false, Bool-cases, Option, none, some, String,
  str_eq, if◌then◌else◌, Result, ok, raised, Exn, lift, gets, raise,
}
use fedora_config.Base.Action.{◌>>=◌, ◌>>◌}
use fedora_config.Base.Triple.{
  Ends, Triple, Triple-lift, Triple-bind, Triple-bind_lift, Triple-pure, Triple-refuse_if,
}
use fedora_config.Json.{get}
use fedora_config.Packages.Store.{
  Entries, World, Site, directory, lookup, put_entry, drop_entry, set_entry, clear_entry,
}
use fedora_config.Packages.Laws.{drop_entry-put_entry}
use fedora_config.Packages.Scoped.{
  absent, OnEntries, IsCleared, within_temporary-Triple, locked-Triple,
}
use fedora_config.Packages.Install.{
  is_plain_name, id_text, check_id, is_exception, remove_package, after_commit, run_commit, place,
  fetch_and_place, install,
}

module _ {Tree Registry : Type 0} (site : Site Tree Registry) (start : Entries Tree)
    (source : String) where
  -- The directory as the lock found it, and the clone beside it, which was validated under its id.
  pub record IsAdded (id : String) (tree : Tree) (es : Entries Tree) : Type 0 where
    plain : is_plain_name id ≡ true
    cloned : site.cloned source ≡ ok tree
    validated : site.validate id tree ≡ ok tt
    absent : lookup id (site.others start) ≡ none
    added : es ≡ put_entry id (directory tree) (site.others start)

  abbrev pub IsInstalled : String → Entries Tree → Type 0
  IsInstalled id es = (tree : Tree) × IsAdded id tree es

  -- What lets a package stay though `install` raises.
  abbrev pub IsExcused : Exn → String → Type 0
  IsExcused e id =
      ((x : Exn) × (site.cleaned ≡ raised x))
      ⊎ (((x : Exn) × (site.removed id ≡ raised x)) ⊎ (is_exception e ≡ false))

  abbrev pub IsUndone : Exn → Entries Tree → Type 0
  IsUndone e es =
      ((es ≡ start) ⊎ (es ≡ site.others start))
      ⊎ ((id : String) × IsExcused e id × IsInstalled id es)

  module _ (id : String) (tree : Tree) (plain : is_plain_name id ≡ true)
      (cloned : site.cloned source ≡ ok tree) (validated : site.validate id tree ≡ ok tt) where
    -- `rmtree`, with the exception of the commit or its own.
    removed-Ends :
        (e : Exn) (r : Result (Unit {0})) (w : World Tree Registry)
        → site.removed id ≡ r
        → IsAdded id tree w.entries
        → Ends {A = Unit {0}}
            (λ u. OnEntries site IsInstalled id)
            (OnEntries site IsUndone)
            ((lift r >> clear_entry site id >> raise e) w)
    unfolding clear_entry ◌>>=◌
    removed-Ends e (ok u) w same a = inl (
        inr (
          ap (drop_entry id) a.added
          ∙ drop_entry-put_entry id (directory tree) (site.others start) a.absent))
    removed-Ends e (raised x) w same a = inr (id, inr (inl (x, same)), (tree, a))

    after_commit-Ends :
        (r : Result (Unit {0})) (w : World Tree Registry)
        → IsAdded id tree w.entries
        → Ends
            (λ u. OnEntries site IsInstalled id)
            (OnEntries site IsUndone)
            (after_commit site id (r, w))
    unfolding after_commit remove_package raise
    after_commit-Ends (ok u) w a = (tree, a)
    after_commit-Ends (raised e) w a = elim (Bool-cases (is_exception e)) [
      | inl y ↦ rw y (removed-Ends e (site.removed id) w refl a)
      | inr n ↦ rw n (inr (id, inr (inr n), (tree, a)))
    ]

    run_commit-Ends :
        (commit : Option (String → Registry → Result (Unit {0}) × Registry))
        (w : World Tree Registry)
        → IsAdded id tree w.entries
        → Ends
            (λ u. OnEntries site IsInstalled id)
            (OnEntries site IsUndone)
            (run_commit site commit id w)
    unfolding run_commit
    run_commit-Ends none w a = (tree, a)
    run_commit-Ends (some commit) w a =
        let (r, registry) = commit id w.registry in
        after_commit-Ends r (record w { registry = registry }) a

    place-Triple :
        Triple
          (λ w. w.entries ≡ site.others start)
          (λ u. OnEntries site IsInstalled id)
          (OnEntries site IsUndone)
          (place site id tree)
    unfolding place gets set_entry
    place-Triple =
        Triple-bind
          (λ present w.
            (w.entries ≡ site.others start)
            × (present ≡ false → lookup id (site.others start) ≡ none))
          _ _
          (record {
            at = λ w h. (h, λ free. subst (λ es. lookup id es ≡ none) h (absent site id w free));
          })
          (λ present.
            Triple-bind
              (λ u w. (w.entries ≡ site.others start) × (lookup id (site.others start) ≡ none)) _ _
              (Triple-refuse_if present _ (λ free w h. (h.0, h.1 free)) (λ w h. inl (inr h.0)))
              (λ u.
                Triple-bind
                  (λ v w. (w.entries ≡ site.others start) × (lookup id (site.others start) ≡ none))
                  _ _
                  (Triple-lift (site.placed id) (λ v moved w h. h) (λ x refused w h. inl (inr h.0)))
                  (λ v.
                    Triple-bind (λ t w. IsAdded id tree w.entries) _ _
                      (record {
                        at = λ w h. record {
                          plain = plain;
                          cloned = cloned;
                          validated = validated;
                          absent = h.1;
                          added = ap (put_entry id (directory tree)) h.0;
                        };
                      })
                      (λ t. record { at = run_commit-Ends site.commit }))))

  check_id-plain : (v : Option String) (id : String) → check_id v ≡ ok id → is_plain_name id ≡ true
  unfolding check_id
  check_id-plain none id h = absurd (cc)
  check_id-plain (some name) id h = elim (Bool-cases (is_plain_name name)) [
    | inl y ↦ subst (λ k. is_plain_name k ≡ true) (ok_eq (rw y at h)) y
    | inr n ↦ absurd (cc (rw n at h))
  ]
    where
      ok_eq : {a b : String} → ok a ≡ ok b → a ≡ b
      ok_eq e = cc

  fetch_and_place-Triple :
      Triple
        (λ w. w.entries ≡ start)
        (OnEntries site IsInstalled)
        (OnEntries site IsUndone)
        (fetch_and_place site source)
  unfolding fetch_and_place
  fetch_and_place-Triple =
      Triple-bind_lift (site.cloned source) _
        (λ tree cloned.
          Triple-bind_lift (site.manifest tree) _
            (λ manifest read.
              Triple-bind_lift (check_id (id_text (get "id" manifest))) _
                (λ id checked.
                  Triple-bind_lift (if str_eq id "checkout" then ok tt else site.renamed id) _
                    (λ u renamed.
                      Triple-bind_lift (site.validate id tree) _
                        (λ v valid.
                          Triple-bind (λ t. OnEntries site IsInstalled id) _ _
                            (locked-Triple site (λ es. es ≡ start) (λ es. es ≡ site.others start) _
                              (λ es h. ap site.others h) (λ x w h. inl (inr h))
                              (place-Triple id tree (check_id-plain _ id checked) cloned valid))
                            (λ t. Triple-pure id (λ w h. h)))
                        unlocked)
                    unlocked)
                unlocked)
            unlocked)
        unlocked
    where
      unlocked : (e : Exn) (w : World Tree Registry) → w.entries ≡ start → IsUndone e w.entries
      unlocked e w h = inl (inl h)

  unclean_value :
      (x : Exn)
      → site.cleaned ≡ raised x
      → (id : String) (es : Entries Tree) → IsInstalled id es
      → IsUndone x es
  unclean_value x unclean id es h = inr (id, inl (x, unclean), h)

  unclean_error :
      (x : Exn)
      → site.cleaned ≡ raised x
      → (e : Exn) (es : Entries Tree) → IsUndone e es
      → IsUndone x es
  unclean_error x unclean e es (inl h) = inl h
  unclean_error x unclean e es (inr (id, excuse, h)) = inr (id, inl (x, unclean), h)

-- Whatever the outside answers. If `install` returns an id, it is a plain file name that the
-- directory did not have when the lock was taken, the clone was validated under it, and the
-- directory is as the lock found it with the clone added. If it raises, the directory is as it was
-- at the start or as the lock found it, or it has such a package too, which happens only where the
-- temporary directory or the package could not be removed or the commit was interrupted. The
-- temporary directory is gone, or its making or its removal failed.
pub install-Installed :
    {Tree Registry : Type 0} (site : Site Tree Registry) (source : String) (w : World Tree Registry)
    → w.temporary ≡ none
    → Ends
        (λ id v. IsInstalled site w.entries source id v.entries × IsCleared site v)
        (λ e v. IsUndone site w.entries source e v.entries × IsCleared site v)
        (install site source w)
unfolding install
install-Installed site source w clear =
    (Triple-bind (λ u v. v.entries ≡ w.entries) _ _
        (Triple-lift {P = λ v. (v.entries ≡ w.entries) × (v.temporary ≡ none)} site.made_packages
          (λ u made v h. h.0) (λ x e v h. (inl (inl h.0), inl h.1)))
        (λ u.
          within_temporary-Triple site (λ es. es ≡ w.entries) (IsInstalled site w.entries source)
            (IsUndone site w.entries source) (unclean_value site w.entries source)
            (unclean_error site w.entries source) (fetch_and_place site source)
            (λ x es h. inl (inl h)) (fetch_and_place-Triple site w.entries source))).at
      w (refl, clear)
