-- ===== src/Packages/Install.antt =====
-- `install` of plugin_packages.py.
use fedora_config.Base.{
  ◌==◌, Bool, true, false, ◌||◌, any, Option, none, some, String, str_eq, codes, if◌then◌else◌,
}
use fedora_config.Base.{
  Result, ok, raised, Exn, value_error, interrupted, Exec, pure, raise, lift, gets,
}
use fedora_config.Base.Action.{refuse_if, ◌>>=◌, ◌>>◌}
use fedora_config.Json.{Value, str, get}
use fedora_config.Packages.Store.{
  World, Site, directory, set_entry, clear_entry, is_present, within_temporary, locked,
}

unfoldable pub is_plain_name : String → Bool
is_plain_name id =
    if str_eq id "" || any (λ c. c == b'/') (codes id)
    then false
    else if str_eq id "." || str_eq id ".."
    then false
    else true

-- `plugin_id` where it is a string.
unfoldable pub id_text : Option Value → Option String
id_text (some (str id)) = some id
id_text _ = none

-- The test of the manifest's `id`.
unfoldable pub check_id : Option String → Result String
check_id none = raised (value_error "Invalid manifest id")
check_id (some id) = if is_plain_name id then ok id else raised (value_error "Invalid manifest id")

-- `except Exception`: an interrupt is none.
unfoldable pub is_exception : Exn → Bool
is_exception interrupted = false
is_exception _ = true

module _ {Tree Registry : Type 0} (site : Site Tree Registry) where
  -- `shutil.rmtree(destination)`
  unfoldable pub remove_package : String → Exec (World Tree Registry) (Unit {0})
  remove_package id = lift (site.removed id) >> clear_entry site id

  unfoldable pub after_commit :
      String → Result (Unit {0}) × World Tree Registry → Result (Unit {0}) × World Tree Registry
  after_commit id (ok u, w) = (ok tt, w)
  after_commit id (raised e, w) =
      (if is_exception e then remove_package id >> raise e else raise e) w

  unfoldable pub run_commit :
      Option (String → Registry → Result (Unit {0}) × Registry)
      → String
      → Exec (World Tree Registry) (Unit {0})
  run_commit none id w = (ok tt, w)
  run_commit (some commit) id w =
      let (r, registry) = commit id w.registry in
      after_commit id (r, record w { registry = registry })

  -- What is done under the lock.
  unfoldable pub place : String → Tree → Exec (World Tree Registry) (Unit {0})
  place id tree = do
    present ← gets (is_present site id)
    refuse_if present (value_error "Plugin already installed")
    lift (site.placed id)
    set_entry site id (directory tree)
    run_commit site.commit id

  -- The body of the outer `with`.
  unfoldable pub fetch_and_place : String → Exec (World Tree Registry) String
  fetch_and_place source = do
    checkout ← lift (site.cloned source)
    manifest ← lift (site.manifest checkout)
    id ← lift (check_id (id_text (get "id" manifest)))
    lift (if str_eq id "checkout" then ok tt else site.renamed id)
    lift (site.validate id checkout)
    locked site (place id checkout)
    pure id

  unfoldable pub install : String → Exec (World Tree Registry) String
  install source = lift site.made_packages >> within_temporary site (fetch_and_place source)
