-- ===== src/Packages/Store.antt =====
-- The packages directory of plugin_packages.py, its temporary directories and its lock.
use fedora_config.Base.{
  Bool, true, false, ◌||◌, Option, none, some, List, [], ◌∷◌, String, str_eq, if◌then◌else◌,
}
use fedora_config.Base.{Result, ok, raised, value_error, Exec, lift}
use fedora_config.Base.Action.{◌>>=◌, ◌>>◌}
use fedora_config.Json.{Fields}

-- What a name of the directory is: a directory, a symbolic link, or anything else.
pub data Entry (Tree : Type 0) : Type 0 where
  directory : Tree → Entry Tree
  link other : Entry Tree

abbrev pub Entries : Type 0 → Type 0
Entries Tree = List (String × Entry Tree)

-- `temporary` is the name of the temporary directory, which stands in the packages directory too.
pub record World (Tree Registry : Type 0) : Type 0 where
  pub entries : Entries Tree
  pub temporary : Option String
  pub registry : Registry

-- What the calls of the outside give: the file system's, the validation's and Git's. `commit` is
-- the caller's, and writes its registry. `others` and `others_registry` are what the other programs
-- have done when the lock is taken.
pub record Site (Tree Registry : Type 0) : Type 0 where
  pub made_packages : Result (Unit {0})
  pub made_temporary : Result String
  pub cleaned : Result (Unit {0})
  pub lock : Result (Unit {0})
  pub others : Entries Tree → Entries Tree
  pub others_registry : Registry → Registry
  pub cloned : String → Result Tree
  pub manifest : Tree → Result Fields
  pub renamed : String → Result (Unit {0})
  pub validate : String → Tree → Result (Unit {0})
  pub placed : String → Result (Unit {0})
  pub commit : Option (String → Registry → Result (Unit {0}) × Registry)
  pub removed : String → Result (Unit {0})
  pub resolved : String → String
  pub copied : Tree → Result Tree
  pub git : List String → Tree → Result String × Tree

module _ {Tree : Type 0} where
  unfoldable pub lookup : String → Entries Tree → Option (Entry Tree)
  lookup id [] = none
  lookup id ((name, entry) ∷ rest) = if str_eq name id then some entry else lookup id rest

  unfoldable pub put_entry : String → Entry Tree → Entries Tree → Entries Tree
  put_entry id entry [] = (id, entry) ∷ []
  put_entry id entry ((name, old) ∷ rest) =
      let later = put_entry id entry rest in
      if str_eq name id then (name, entry) ∷ rest else (name, old) ∷ later

  unfoldable pub drop_entry : String → Entries Tree → Entries Tree
  drop_entry id [] = []
  drop_entry id ((name, entry) ∷ rest) =
      let later = drop_entry id rest in if str_eq name id then later else (name, entry) ∷ later

module _ {Tree Registry : Type 0} (site : Site Tree Registry) where
  unfoldable pub set_temporary : Option String → Exec (World Tree Registry) (Unit {0})
  set_temporary name w = (ok tt, record w { temporary = name })

  unfoldable pub set_entry : String → Entry Tree → Exec (World Tree Registry) (Unit {0})
  set_entry id entry w = (ok tt, record w { entries = put_entry id entry w.entries })

  unfoldable pub clear_entry : String → Exec (World Tree Registry) (Unit {0})
  clear_entry id w = (ok tt, record w { entries = drop_entry id w.entries })

  abbrev pub is_some : {A : Type 0} → Option A → Bool
  is_some none = false
  is_some (some a) = true

  abbrev pub is_temporary : String → Option String → Bool
  is_temporary id none = false
  is_temporary id (some name) = str_eq name id

  -- `destination.exists() or destination.is_symlink()`
  unfoldable pub is_present : String → World Tree Registry → Bool
  is_present id w = is_some (lookup id w.entries) || is_temporary id w.temporary

  -- The end of the `with` block: the directory is removed, or stays where that fails.
  unfoldable pub end_temporary :
      {A : Type 0}
      → Result (Unit {0})
      → Result A × World Tree Registry
      → Result A × World Tree Registry
  end_temporary (ok u) (r, w) = (r, record w { temporary = none })
  end_temporary (raised e) (r, w) = (raised e, w)

  -- `with tempfile.TemporaryDirectory(...): m`
  unfoldable pub within_temporary :
      {A : Type 0} → Exec (World Tree Registry) A → Exec (World Tree Registry) A
  within_temporary m = lift site.made_temporary >>= λ name.
      λ w. end_temporary site.cleaned ((set_temporary (some name) >> m) w)

  unfoldable pub await_lock : Exec (World Tree Registry) (Unit {0})
  await_lock w = (
    site.lock,
    record w { entries = site.others w.entries; registry = site.others_registry w.registry },
  )

  -- `with lock(): m`
  unfoldable pub locked : {A : Type 0} → Exec (World Tree Registry) A → Exec (World Tree Registry) A
  locked m = await_lock >> m

  unfoldable pub managed_at : Option (Entry Tree) → Exec (World Tree Registry) (Unit {0})
  managed_at (some (directory tree)) w = (ok tt, w)
  managed_at _ w = (raised (value_error "Expected a local plugin directory, not a symlink"), w)

  -- `managed_directory`
  unfoldable pub managed_directory : String → Exec (World Tree Registry) (Unit {0})
  managed_directory id w = managed_at (lookup id w.entries) w

  unfoldable pub git_at :
      Option (Entry Tree) → String → List String → Exec (World Tree Registry) String
  git_at (some (directory tree)) id args w =
      let (r, tree') = site.git args tree in
      (r, record w { entries = put_entry id (directory tree') w.entries })
  git_at _ id args w = (raised (value_error "Git operation failed"), w)

  -- `git(directory, *args)` in a package.
  unfoldable pub git_in : String → List String → Exec (World Tree Registry) String
  git_in id args w = git_at (lookup id w.entries) id args w
