-- ===== src/Packages/Clone.antt =====
-- `clone` of plugin_packages.py, which its caller calls under the lock.
use fedora_config.Base.{true, Option, none, some, List, String, if◌then◌else◌}
use fedora_config.Base.{ok, raised, value_error, Exec, pure, lift, gets}
use fedora_config.Base.Action.{refuse_if, ◌>>=◌, ◌>>◌}
use fedora_config.Json.{Fields}
use fedora_config.Packages.Store.{
  Entry, World, Site, directory, lookup, set_entry, is_present, within_temporary,
}
use fedora_config.Packages.Copier.{Built, Copier, find_builtin, edit_manifest, copy_parts}

module _ {Tree Registry : Type 0} (site : Site Tree Registry) (copier : Copier Tree) where
  unfoldable pub package_at : Option (Entry Tree) → Exec (World Tree Registry) Tree
  package_at (some (directory tree)) w = (ok tree, w)
  package_at _ w = (raised (value_error "Expected a local plugin directory, not a symlink"), w)

  unfoldable pub as_built : Tree → Built Tree
  as_built tree = record { fields = copier.read_manifest tree; source = tree; is_plain = true }

  -- Where the copy is made from.
  unfoldable pub find_source :
      Option (List (Built Tree)) → String → Exec (World Tree Registry) (Built Tree)
  find_source (some manifests) id = lift (find_builtin id manifests)
  find_source none id = do
    tree ← λ w. package_at (lookup id w.entries) w
    lift (site.validate id tree)
    pure (as_built tree)

  -- The candidate and its manifest.
  unfoldable pub copy_source : Built Tree → Exec (World Tree Registry) (Tree × Fields)
  copy_source b =
      if b.is_plain
      then (do
        tree ← lift (copier.copytree b.source)
        manifest ← lift (copier.read_manifest tree)
        pure (tree, manifest))
      else (do
        manifest ← lift b.fields
        tree ← lift (copy_parts copier b.source manifest)
        pure (tree, manifest))

  -- The body of the `with`.
  unfoldable pub build_clone : String → String → Built Tree → Exec (World Tree Registry) (Unit {0})
  build_clone id new_id b = do
    copied ← copy_source b
    manifest ← lift (edit_manifest id new_id copied.1)
    tree ← lift (copier.write_manifest manifest copied.0)
    lift (site.validate new_id tree)
    lift (site.placed new_id)
    set_entry site new_id (directory tree)

  unfoldable pub clone :
      String → String → Option (List (Built Tree)) → Exec (World Tree Registry) (Unit {0})
  clone id new_id builtin = do
    b ← find_source builtin id
    present ← gets (is_present site new_id)
    refuse_if present (value_error "Clone destination already exists")
    within_temporary site (build_clone id new_id b)
