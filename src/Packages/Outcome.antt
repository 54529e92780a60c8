-- ===== src/Packages/Outcome.antt =====
-- What `update` may leave, and its candidate.
use fedora_config.Base.{
  ◌≡◌, ◌⊎◌, inl, inr, refl, ◌∙◌, Bool, true, false, not, Bool-cases, Option, none, some, List,
  String, str_eq, eq_iff, Result, ok, raised, Exn, lift,
}
use fedora_config.Base.Action.{◌>>=◌}
use fedora_config.Base.Triple.{Ends, Triple, Triple-lift, Triple-bind, Triple-bind_lift}
use fedora_config.Packages.Store.{
  Entries, World, Site, Entry, directory, link, other, lookup, put_entry,
}
use fedora_config.Packages.Quiet.{IsQuiet, code_of, SameCode, Answered}
use fedora_config.Packages.Update.{
  head_args, upstream_args, ancestor_args, status_args, merge_args, detach_args, copy_at,
  copy_package, try_candidate,
}

module _ {Tree Registry Code : Type 0} (site : Site Tree Registry) (code : Tree → Code)
    (keeps : (args : List String) (tree : Tree)
      → IsQuiet args
      → code (site.git args tree).1 ≡ code tree)
    (start : Entries Tree) (id : String) where
  abbrev pub Same : Entries Tree → Entries Tree → Type 0
  Same = SameCode site code keeps

  -- The entries as the lock found them, up to what queries and a fetch keep.
  abbrev pub AsFound : Entries Tree → Type 0
  AsFound es = (ds : Entries Tree) × Same start ds × Same (site.others ds) es

  -- A copy of a package, detached at the commit, was validated.
  abbrev pub IsTried : String → Type 0
  IsTried upstream =
      (tree : Tree) × (copy : Tree) × (site.copied tree ≡ ok copy)
      × (site.validate id (site.git (detach_args upstream) copy).1 ≡ ok tt)

  -- At the start the package was at `previous`, an ancestor of the upstream branch's commit.
  pub record IsStarted (previous upstream : String) : Type 0 where
    pub tree : Tree
    pub installed : code_of site code keeps (lookup id start) ≡ some (directory (code tree))
    pub at_upstream : Answered site code keeps upstream_args upstream tree
    pub at_head : Answered site code keeps head_args previous tree
    pub ancestor : (a : String) × Answered site code keeps (ancestor_args previous upstream) a tree

  -- `merge --ff-only` was run in the package as the lock found it: its HEAD was still the commit
  -- that the update started from, it was clean, and the merged commit was validated.
  pub record IsMerged (result : Result String) (es : Entries Tree) : Type 0 where
    pub before : Entries Tree
    pub tree : Tree
    pub previous : String
    pub upstream : String
    pub started : IsStarted previous upstream
    pub as_found : AsFound before
    pub installed : lookup id before ≡ some (directory tree)
    pub at_head : Answered site code keeps head_args previous tree
    pub clean : Answered site code keeps status_args "" tree
    pub tried : IsTried upstream
    pub answer : (site.git (merge_args upstream) tree).0 ≡ result
    pub merged : es ≡ put_entry id (directory (site.git (merge_args upstream) tree).1) before

  -- What an exception leaves.
  abbrev pub IsUnmerged : Exn → Entries Tree → Type 0
  IsUnmerged e es = (Same start es ⊎ AsFound es) ⊎ IsMerged (raised e) es

  -- A preview, or an update that was merged.
  abbrev pub IsShown : Bool → Entries Tree → Type 0
  IsShown true es = Same start es
  IsShown false es = (a : String) × IsMerged (ok a) es

  pub try_candidate-Triple :
      (upstream : String)
      → Triple
          (λ w. Same start w.entries)
          (λ u w. Same start w.entries × IsTried upstream)
          (λ e w. Same start w.entries)
          (try_candidate site id upstream)
  unfolding try_candidate copy_package copy_at
  try_candidate-Triple upstream =
      Triple-bind (λ copy w. Same start w.entries × ((tree : Tree) × (site.copied tree ≡ ok copy)))
        _ _ (record { at = λ w same. copied_from w same (lookup id w.entries) })
        (λ copy. record { at = λ w (same, (tree, from)). (rest tree copy from).at w same })
    where
      copied :
          (r : Result Tree) (w : World Tree Registry) (tree : Tree)
          → site.copied tree ≡ r
          → Same start w.entries
          → Ends
              (λ copy v. Same start v.entries × ((t : Tree) × (site.copied t ≡ ok copy)))
              (λ e v. Same start v.entries)
              (r, w)
      copied (ok copy) w tree eq same = (same, (tree, eq))
      copied (raised e) w tree eq same = same

      copied_from :
          (w : World Tree Registry)
          → Same start w.entries
          → (found : Option (Entry Tree))
          → Ends
              (λ copy v. Same start v.entries × ((t : Tree) × (site.copied t ≡ ok copy)))
              (λ e v. Same start v.entries)
              (copy_at site found w)
      copied_from w same none = same
      copied_from w same (some link) = same
      copied_from w same (some other) = same
      copied_from w same (some (directory tree)) = copied (site.copied tree) w tree refl same

      rest :
          (tree copy : Tree)
          → site.copied tree ≡ ok copy
          → Triple {S = World Tree Registry}
              (λ w. Same start w.entries)
              (λ u w. Same start w.entries × IsTried upstream)
              (λ e w. Same start w.entries)
              (lift (site.git (detach_args upstream) copy).0 >>= λ a.
                lift (site.validate id (site.git (detach_args upstream) copy).1))
      rest tree copy from =
          Triple-bind_lift (site.git (detach_args upstream) copy).0 _
            (λ a answer.
              Triple-lift _ (λ u valid w same. (same, (tree, copy, from, valid)))
                (λ e invalid w same. same))
            (λ e w same. same)

  pub Answered-stable :
      (args : List String) (a : String) (t u : Tree)
      → code t ≡ code u
      → Answered site code keeps args a t
      → Answered site code keeps args a u
  Answered-stable args a t u eq (v, old, answer) = (v, old ∙ eq, answer)

  pub same_text : (a b : String) → not (str_eq a b) ≡ false → a ≡ b
  same_text a b h = elim (Bool-cases (str_eq a b)) [
    | inl y ↦ (eq_iff a b).0 y
    | inr n ↦ absurd (cc (rw n at h))
  ]
