-- ===== src/Packages/Quiet.antt =====
-- The directory up to what Git keeps under .git: what its queries and a fetch leave as it is.
use fedora_config.Base.{
  ◌≡◌, inl, inr, refl, sym, ◌∙◌, ap, subst, true, Bool-cases, Option, none, some, List, [], ◌∷◌,
  String, ◌<>◌, str_eq, eq_iff, Result, ok, raised,
}
use fedora_config.Base.Triple.{Ends, Triple}
use fedora_config.Packages.Store.{
  Entry, Entries, World, Site, directory, link, other, lookup, put_entry, managed_at,
  managed_directory, git_at, git_in,
}
use fedora_config.Packages.Update.{head_args, status_args, upstream_args, ancestor_args, diff_args}
use fedora_config.Packages.Laws.{lookup-put_entry}

-- The calls of Git in which `update` reads, and its `fetch` of a remote by name, which adds objects
-- and remote-tracking refs.
pub data IsQuiet : List String → Type 0 where
  asks_top : IsQuiet ("rev-parse" ∷ "--show-toplevel" ∷ [])
  asks_status : IsQuiet status_args
  asks_branch : IsQuiet ("symbolic-ref" ∷ "--quiet" ∷ "--short" ∷ "HEAD" ∷ [])
  asks_remote :
      (branch : String) → IsQuiet ("config" ∷ "--get" ∷ ("branch." <> branch <> ".remote") ∷ [])
  fetches : (remote : String) → IsQuiet ("fetch" ∷ "--" ∷ remote ∷ [])
  asks_upstream : IsQuiet upstream_args
  asks_head : IsQuiet head_args
  asks_ancestor : (previous upstream : String) → IsQuiet (ancestor_args previous upstream)
  asks_diff : (previous upstream : String) → IsQuiet (diff_args previous upstream)

-- `code` is a package's branch, commit, index and files.
module _ {Tree Registry Code : Type 0} (site : Site Tree Registry) (code : Tree → Code)
    (keeps : (args : List String) (tree : Tree)
      → IsQuiet args
      → code (site.git args tree).1 ≡ code tree) where
  abbrev pub code_of : Option (Entry Tree) → Option (Entry Code)
  code_of none = none
  code_of (some (directory tree)) = some (directory (code tree))
  code_of (some link) = some link
  code_of (some other) = some other

  -- Each name has the same code in both.
  abbrev pub SameCode : Entries Tree → Entries Tree → Type 0
  SameCode ds es = (k : String) → code_of (lookup k ds) ≡ code_of (lookup k es)

  pub SameCode-put :
      (ds es : Entries Tree) (id : String) (tree tree' : Tree)
      → SameCode ds es
      → lookup id es ≡ some (directory tree)
      → code tree' ≡ code tree
      → SameCode ds (put_entry id (directory tree') es)
  SameCode-put ds es id tree tree' same found eq k = same k ∙ elim (Bool-cases (str_eq id k)) [
    | inl y ↦ rw (lookup-put_entry k id (directory tree') es, y, eq) (here k y)
    | inr n ↦ rw (lookup-put_entry k id (directory tree') es, n) refl
  ]
    where
      here :
          (k : String) → str_eq id k ≡ true → code_of (lookup k es) ≡ some (directory (code tree))
      here k y =
          ap code_of (subst (λ j. lookup j es ≡ some (directory tree)) ((eq_iff id k).0 y) found)

  -- The package is a directory with `F`, in entries with the code of `ds`.
  abbrev pub Held : Entries Tree → String → (Tree → Type 0) → Entries Tree → Type 0
  Held ds id F es = (tree : Tree) × SameCode ds es × (lookup id es ≡ some (directory tree)) × F tree

  -- A tree with this code has answered so.
  abbrev pub Answered : List String → String → Tree → Type 0
  Answered args a tree = (t : Tree) × (code t ≡ code tree) × ((site.git args t).0 ≡ ok a)

  pub git_in-Held :
      (ds : Entries Tree) (id : String) (F : Tree → Type 0) (args : List String)
      → IsQuiet args
      → ((t u : Tree) → code t ≡ code u → F t → F u)
      → Triple
          (λ w. Held ds id F w.entries)
          (λ a w. Held ds id (λ t. F t × Answered args a t) w.entries)
          (λ e w. SameCode ds w.entries)
          (git_in site id args)
  unfolding git_in git_at
  git_in-Held ds id F args quiet stable = record {
    at = λ w (tree, same, found, f).
        subst
          (λ l.
            Ends (λ a v. Held ds id (λ t. F t × Answered args a t) v.entries)
              (λ e v. SameCode ds v.entries) (git_at site l id args w))
          (sym found)
          (after (site.git args tree).0 w tree same found f refl
            (SameCode-put ds w.entries id tree _ same found (keeps args tree quiet)));
  }
    where
      after :
          (r : Result String) (w : World Tree Registry) (tree : Tree)
          → SameCode ds w.entries
          → lookup id w.entries ≡ some (directory tree)
          → F tree
          → (site.git args tree).0 ≡ r
          → SameCode ds (put_entry id (directory (site.git args tree).1) w.entries)
          → Ends
              (λ a v. Held ds id (λ t. F t × Answered args a t) v.entries)
              (λ e v. SameCode ds v.entries)
              (r, record w { entries = put_entry id (directory (site.git args tree).1) w.entries })
      after (raised e) w tree same found f answer same' = same'
      after (ok a) w tree same found f answer same' =
          let eq = keeps args tree quiet in
          (
            (site.git args tree).1,
            same',
            lookup-put_entry id id _ w.entries ∙ rw ((eq_iff id id).1 refl) refl,
            (stable tree _ (sym eq) f, (tree, sym eq, answer)),
          )

  pub git_in-Same :
      (ds : Entries Tree) (id : String) (args : List String)
      → IsQuiet args
      → Triple
          (λ w. SameCode ds w.entries)
          (λ a w. SameCode ds w.entries)
          (λ e w. SameCode ds w.entries)
          (git_in site id args)
  unfolding git_in git_at
  git_in-Same ds id args quiet = record { at = λ w same. after w same (lookup id w.entries) refl }
    where
      settled :
          (r : Result String) (w : World Tree Registry)
          → SameCode ds w.entries
          → Ends (λ a v. SameCode ds v.entries) (λ e v. SameCode ds v.entries) (r, w)
      settled (ok a) w same = same
      settled (raised e) w same = same

      after :
          (w : World Tree Registry)
          → SameCode ds w.entries
          → (found : Option (Entry Tree)) → lookup id w.entries ≡ found
          → Ends
              (λ a v. SameCode ds v.entries)
              (λ e v. SameCode ds v.entries)
              (git_at site found id args w)
      after w same none absent = same
      after w same (some link) found = same
      after w same (some other) found = same
      after w same (some (directory tree)) found =
          settled (site.git args tree).0 _
            (SameCode-put ds w.entries id tree _ same found (keeps args tree quiet))

  pub managed_directory-Held :
      (ds : Entries Tree) (id : String)
      → Triple
          (λ w. SameCode ds w.entries)
          (λ u w. Held ds id (λ t. Unit) w.entries)
          (λ e w. SameCode ds w.entries)
          (managed_directory site id)
  unfolding managed_directory managed_at
  managed_directory-Held ds id = record { at = λ w same. after w same (lookup id w.entries) refl }
    where
      after :
          (w : World Tree Registry)
          → SameCode ds w.entries
          → (found : Option (Entry Tree)) → lookup id w.entries ≡ found
          → Ends
              (λ u v. Held ds id (λ t. Unit) v.entries)
              (λ e v. SameCode ds v.entries)
              (managed_at site found w)
      after w same none absent = same
      after w same (some link) found = same
      after w same (some other) found = same
      after w same (some (directory tree)) found = (tree, same, found, tt)
