-- ===== src/Packages/Merged.antt =====
-- What the locked part of `update` leaves.
use fedora_config.Base.{
  ◌≡◌, inl, inr, refl, sym, subst, Bool, true, false, not, some, List, String, str_eq,
  if◌then◌else◌, Result, ok, raised, Exn, pure,
}
use fedora_config.Base.Action.{◌>>=◌}
use fedora_config.Base.Triple.{
  Ends, Triple, Triple-bind, Triple-pure, Triple-refuse_if, Triple-weaken,
}
use fedora_config.Packages.Store.{
  Entries, World, Site, directory, lookup, put_entry, git_at, git_in, locked,
}
use fedora_config.Packages.Quiet.{
  IsQuiet, asks_head, asks_status, Held, Answered, git_in-Held, managed_directory-Held,
}
use fedora_config.Packages.Scoped.{within_temporary-Triple, locked-Triple}
use fedora_config.Packages.Update.{
  head_args, status_args, merge_args, try_candidate, merge_unchanged, apply_update,
}
use fedora_config.Packages.Outcome.{
  Same, IsTried, IsStarted, IsMerged, IsUnmerged, IsShown, try_candidate-Triple, Answered-stable,
  same_text,
}

module _ {Tree Registry Code : Type 0} (site : Site Tree Registry) (code : Tree → Code)
    (keeps : (args : List String) (tree : Tree)
      → IsQuiet args
      → code (site.git args tree).1 ≡ code tree)
    (start : Entries Tree) (id : String) where
  -- Under the lock, which found `ds`.
  module _ (ds : Entries Tree) (as_start : Same site code keeps start id start ds)
      (previous upstream : String) (started : IsStarted site code keeps start id previous upstream)
      (tried : IsTried site code keeps start id upstream) where
    abbrev Found : (Tree → Type 0) → Entries Tree → Type 0
    Found F = Held site code keeps (site.others ds) id F

    lost :
        (e : Exn) (w : World Tree Registry)
        → Same site code keeps start id (site.others ds) w.entries
        → IsUnmerged site code keeps start id e w.entries
    lost e w same = inl (inr (ds, as_start, same))

    abbrev AtHead : String → Tree → Type 0
    AtHead a t = Unit {0} × Answered site code keeps head_args a t

    asked-Triple :
        (F : Tree → Type 0) (args : List String)
        → IsQuiet args
        → ((t u : Tree) → code t ≡ code u → F t → F u)
        → Triple
            (λ w. Found F w.entries)
            (λ a w. Found (λ t. F t × Answered site code keeps args a t) w.entries)
            (λ e w. IsUnmerged site code keeps start id e w.entries)
            (git_in site id args)
    asked-Triple F args quiet stable =
        Triple-weaken (git_in site id args) (λ w h. h) (λ a w h. h) lost
          (git_in-Held site code keeps (site.others ds) id F args quiet stable)

    put_entry-IsMerged :
        (r : Result String) (es : Entries Tree) (tree : Tree)
        → Same site code keeps start id (site.others ds) es
        → lookup id es ≡ some (directory tree)
        → Answered site code keeps head_args previous tree
        → Answered site code keeps status_args "" tree
        → (site.git (merge_args upstream) tree).0 ≡ r
        → IsMerged site code keeps start id r
            (put_entry id (directory (site.git (merge_args upstream) tree).1) es)
    put_entry-IsMerged r es tree same found head clean answer = record {
      before = es;
      tree = tree;
      previous = previous;
      upstream = upstream;
      started = started;
      as_found = (ds, as_start, same);
      installed = found;
      at_head = head;
      clean = clean;
      tried = tried;
      answer = answer;
      merged = refl;
    }

    merge-Triple :
        Triple
          (λ w.
            Found (λ t. AtHead previous t × Answered site code keeps status_args "" t) w.entries)
          (λ a w. IsMerged site code keeps start id (ok a) w.entries)
          (λ e w. IsUnmerged site code keeps start id e w.entries)
          (git_in site id (merge_args upstream))
    unfolding git_in git_at
    merge-Triple = record {
      at = λ w (tree, same, found, ((u, head), clean)).
          subst
            (λ l.
              Ends (λ a v. IsMerged site code keeps start id (ok a) v.entries)
                (λ e v. IsUnmerged site code keeps start id e v.entries)
                (git_at site l id (merge_args upstream) w))
            (sym found)
            (merged (site.git (merge_args upstream) tree).0 w tree same found head clean refl);
    }
      where
        merged :
            (r : Result String) (w : World Tree Registry) (tree : Tree)
            → Same site code keeps start id (site.others ds) w.entries
            → lookup id w.entries ≡ some (directory tree)
            → Answered site code keeps head_args previous tree
            → Answered site code keeps status_args "" tree
            → (site.git (merge_args upstream) tree).0 ≡ r
            → Ends
                (λ a v. IsMerged site code keeps start id (ok a) v.entries)
                (λ e v. IsUnmerged site code keeps start id e v.entries)
                (
                  r,
                  record w {
                    entries =
                        put_entry id (directory (site.git (merge_args upstream) tree).1) w.entries;
                  },
                )
        merged (ok a) w tree same found head clean answer =
            put_entry-IsMerged (ok a) w.entries tree same found head clean answer
        merged (raised e) w tree same found head clean answer =
            inr (put_entry-IsMerged (raised e) w.entries tree same found head clean answer)

    merge_unchanged-Triple :
        Triple
          (λ w. Same site code keeps start id (site.others ds) w.entries)
          (λ a w. IsMerged site code keeps start id (ok a) w.entries)
          (λ e w. IsUnmerged site code keeps start id e w.entries)
          (merge_unchanged site id previous upstream)
    unfolding merge_unchanged
    merge_unchanged-Triple =
        Triple-bind (λ u w. Found (λ t. Unit) w.entries) _ _
          (Triple-weaken _ (λ w h. h) (λ u w h. h) lost
            (managed_directory-Held site code keeps (site.others ds) id))
          (λ u.
            Triple-bind (λ a w. Found (AtHead a) w.entries) _ _
              (asked-Triple (λ t. Unit) head_args asks_head (λ t v eq f. f))
              (λ head.
                Triple-bind (λ v w. Found (AtHead previous) w.entries) _ _
                  (Triple-refuse_if (not (str_eq head previous)) _
                    (λ unmoved w h.
                      subst (λ a. Found (AtHead a) w.entries)
                        (same_text site code keeps start id head previous unmoved) h)
                    (λ w h. lost _ w h.1))
                  (λ v.
                    Triple-bind
                      (λ a w.
                        Found (λ t. AtHead previous t × Answered site code keeps status_args a t)
                          w.entries)
                      _ _
                      (asked-Triple (AtHead previous) status_args asks_status (λ t v eq (f, g).
                        (f, Answered-stable site code keeps start id head_args previous t v eq g)))
                      (λ status.
                        Triple-bind
                          (λ v w.
                            Found
                              (λ t. AtHead previous t × Answered site code keeps status_args "" t)
                              w.entries)
                          _ _
                          (Triple-refuse_if (not (str_eq status "")) _
                            (λ unmoved w h.
                              subst
                                (λ a.
                                  Found
                                    (λ t.
                                      AtHead previous t × Answered site code keeps status_args a t)
                                    w.entries)
                                (same_text site code keeps start id status "" unmoved) h)
                            (λ w h. lost _ w h.1))
                          (λ v. merge-Triple)))))

  apply_update-Triple :
      (previous upstream : String)
      → IsStarted site code keeps start id previous upstream
      → Triple
          (λ w. Same site code keeps start id start w.entries)
          (λ u w. (a : String) × IsMerged site code keeps start id (ok a) w.entries)
          (λ e w. IsUnmerged site code keeps start id e w.entries)
          (apply_update site id previous upstream)
  unfolding apply_update
  apply_update-Triple previous upstream started =
      Triple-bind
        (λ u w.
          Same site code keeps start id start w.entries × IsTried site code keeps start id upstream)
        _ _
        (Triple-weaken _ (λ w h. h) (λ u w h. h.0) (λ e w h. inl (inl h.0))
          (within_temporary-Triple site (Same site code keeps start id start)
            (λ u es.
              Same site code keeps start id start es × IsTried site code keeps start id upstream)
            (λ e es. Same site code keeps start id start es) (λ x unclean u es h. h.0)
            (λ x unclean e es h. h) (try_candidate site id upstream) (λ x es h. h)
            (try_candidate-Triple site code keeps start id upstream)))
        (λ u. record { at = λ w (same, tried). (under_lock w.entries same tried).at w refl })
    where
      under_lock :
          (ds : Entries Tree)
          → Same site code keeps start id start ds
          → IsTried site code keeps start id upstream
          → Triple {S = World Tree Registry}
              (λ w. w.entries ≡ ds)
              (λ u w. (a : String) × IsMerged site code keeps start id (ok a) w.entries)
              (λ e w. IsUnmerged site code keeps start id e w.entries)
              (locked site (merge_unchanged site id previous upstream) >>= λ a. pure tt)
      under_lock ds same tried =
          Triple-bind (λ a w. IsMerged site code keeps start id (ok a) w.entries) _ _
            (locked-Triple site (λ es. es ≡ ds) (Same site code keeps start id (site.others ds)) _
              (λ es at.
                subst (λ fs. Same site code keeps start id (site.others ds) (site.others fs))
                  (sym at) (λ k. refl))
              (λ x w h. inl (inr (ds, same, h)))
              (merge_unchanged-Triple ds same previous upstream started tried))
            (λ a. Triple-pure tt (λ w h. (a, h)))

  pub apply_unless-Triple :
      (preview : Bool) (previous upstream : String)
      → IsStarted site code keeps start id previous upstream
      → Triple
          (λ w. Same site code keeps start id start w.entries)
          (λ u w. IsShown site code keeps start id preview w.entries)
          (λ e w. IsUnmerged site code keeps start id e w.entries)
          (if preview then pure tt else apply_update site id previous upstream)
  apply_unless-Triple true previous upstream started = Triple-pure tt (λ w h. h)
  apply_unless-Triple false previous upstream started =
      apply_update-Triple previous upstream started
