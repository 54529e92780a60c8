-- ===== src/Packages/Update.antt =====
-- `update` of plugin_packages.py.
use fedora_config.Base.{Bool, not, Option, some, List, [], ◌∷◌, String, str_eq, ◌<>◌, if◌then◌else◌}
use fedora_config.Base.{raised, value_error, Exec, pure, lift}
use fedora_config.Base.Action.{refuse_if, ◌>>=◌, ◌>>◌}
use fedora_config.Packages.Store.{
  Entry, World, Site, directory, lookup, within_temporary, locked, managed_directory, git_in,
}

abbrev pub head_args : List String
head_args = "rev-parse" ∷ "HEAD" ∷ []

abbrev pub status_args : List String
status_args = "status" ∷ "--porcelain" ∷ "--untracked-files=all" ∷ []

abbrev pub upstream_args : List String
upstream_args = "rev-parse" ∷ "@{upstream}" ∷ []

abbrev pub ancestor_args : String → String → List String
ancestor_args previous upstream = "merge-base" ∷ "--is-ancestor" ∷ previous ∷ upstream ∷ []

abbrev pub diff_args : String → String → List String
diff_args previous upstream = "diff" ∷ "--stat" ∷ previous ∷ upstream ∷ []

abbrev pub merge_args : String → List String
merge_args upstream = "merge" ∷ "--ff-only" ∷ upstream ∷ []

abbrev pub detach_args : String → List String
detach_args upstream = "checkout" ∷ "--detach" ∷ upstream ∷ []

-- `diff or "Already up to date"`
unfoldable pub summary_of : String → String
summary_of diff = if str_eq diff "" then "Already up to date" else diff

module _ {Tree Registry : Type 0} (site : Site Tree Registry) where
  unfoldable pub copy_at : Option (Entry Tree) → Exec (World Tree Registry) Tree
  copy_at (some (directory tree)) w = (site.copied tree, w)
  copy_at _ w = (raised (value_error "Git operation failed"), w)

  -- `git clone` of a package to the candidate.
  unfoldable pub copy_package : String → Exec (World Tree Registry) Tree
  copy_package id w = copy_at (lookup id w.entries) w

  -- The body of the `with` over the temporary directory.
  unfoldable pub try_candidate : String → String → Exec (World Tree Registry) (Unit {0})
  try_candidate id upstream = do
    candidate ← copy_package id
    lift (site.git (detach_args upstream) candidate).0
    lift (site.validate id (site.git (detach_args upstream) candidate).1)

  -- What is done under the lock. HEAD is compared first, and the status is not asked for where it
  -- differs.
  unfoldable pub merge_unchanged : String → String → String → Exec (World Tree Registry) String
  merge_unchanged id previous upstream = do
    managed_directory site id
    head ← git_in site id head_args
    refuse_if (not (str_eq head previous))
        (value_error "Plugin changed during validation; update was not applied")
    status ← git_in site id status_args
    refuse_if (not (str_eq status ""))
        (value_error "Plugin changed during validation; update was not applied")
    git_in site id (merge_args upstream)

  unfoldable pub apply_update : String → String → String → Exec (World Tree Registry) (Unit {0})
  apply_update id previous upstream = do
    within_temporary site (try_candidate id upstream)
    locked site (merge_unchanged id previous upstream)
    pure tt

  -- Up to the fetch.
  unfoldable pub fetch_update : String → Exec (World Tree Registry) (Unit {0})
  fetch_update id = do
    managed_directory site id
    top ← git_in site id ("rev-parse" ∷ "--show-toplevel" ∷ [])
    refuse_if (not (str_eq top (site.resolved id)))
        (value_error "Plugin must be its own Git checkout")
    status ← git_in site id status_args
    refuse_if (not (str_eq status ""))
        (value_error "Plugin has local changes; commit or stash them before updating")
    branch ← git_in site id ("symbolic-ref" ∷ "--quiet" ∷ "--short" ∷ "HEAD" ∷ [])
    remote ← git_in site id ("config" ∷ "--get" ∷ ("branch." <> branch <> ".remote") ∷ [])
    git_in site id ("fetch" ∷ "--" ∷ remote ∷ [])
    pure tt

  -- From the diff on.
  unfoldable pub finish_update : String → Bool → String → String → Exec (World Tree Registry) String
  finish_update id preview previous upstream = do
    diff ← git_in site id (diff_args previous upstream)
    if preview then pure tt else apply_update id previous upstream
    pure (summary_of diff)

  unfoldable pub update : String → Bool → Exec (World Tree Registry) String
  update id preview = do
    fetch_update id
    upstream ← git_in site id upstream_args
    previous ← git_in site id head_args
    git_in site id (ancestor_args previous upstream)
    finish_update id preview previous upstream
