-- ===== src/Packages/Tests.antt =====
-- The theorems on plugin_packages.py at concrete inputs: a tree is the commit that is checked out.
use fedora_config.Base.{
  ◌≡◌, refl, Bool, true, false, none, some, List, [], ◌∷◌, is_member, String, ◌<>◌, str_eq,
  if◌then◌else◌, Result, ok,
}
use fedora_config.Base.Triple.{Ends}
use fedora_config.Json.{str, obj, field, end, get, get_or, items}
use fedora_config.Packages.Store.{World, Site, directory}
use fedora_config.Packages.Scoped.{IsCleared}
use fedora_config.Packages.Install.{install}
use fedora_config.Packages.Installed.{IsInstalled, IsUndone, install-Installed}
use fedora_config.Base.Fallible.{refuse_if, ◌>>=◌, ◌>>◌}
use fedora_config.Packages.Copier.{
  Built, Copier, as_path, iterated, entry_mappings, append_items, entry_points, as_dict,
  mappings_of, path_in, copy_mapping, copy_mappings, replace_mappings, rewrite_files, copy_parts,
}

abbrev last : List String → String
last [] = ""
last (arg ∷ []) = arg
last (arg ∷ args) = last args

abbrev answer : String → String → Result String
answer arg tree =
    if str_eq arg "HEAD"
    then ok tree
    else if str_eq arg "--show-toplevel"
    then ok "/packages/clock"
    else if str_eq arg "--untracked-files=all"
    then ok ""
    else ok "new"

-- A merge and a checkout move the package to their last argument.
abbrev is_move : List String → Bool
is_move [] = false
is_move (command ∷ args) = is_member command ("merge" ∷ "checkout" ∷ "clone" ∷ [])

abbrev run_git : List String → String → Result String × String
run_git args tree = if is_move args then (ok "", last args) else (answer (last args) tree, tree)

abbrev site : Site String (List String)
site = record {
  made_packages = ok tt;
  made_temporary = ok ".temporary";
  cleaned = ok tt;
  lock = ok tt;
  others = λ es. es;
  others_registry = λ ids. ids;
  cloned = λ source. ok "new";
  manifest = λ tree. ok (field "id" (str "weather") end);
  renamed = λ id. ok tt;
  validate = λ id tree. ok tt;
  placed = λ id. ok tt;
  commit = some (λ id ids. (ok tt, id ∷ ids));
  removed = λ id. ok tt;
  resolved = λ id. "/packages/clock";
  copied = λ tree. ok tree;
  git = run_git;
}

abbrev world : World String (List String)
world = record { entries = ("clock", directory "old") ∷ []; temporary = none; registry = [] }

install-Installed_example :
    Ends
      (λ id v. IsInstalled site world.entries "url" id v.entries × IsCleared site v)
      (λ e v. IsUndone site world.entries "url" e v.entries × IsCleared site v)
      (install site "url" world)
install-Installed_example = install-Installed site "url" world refl

abbrev copier : Copier String
copier = record {
  copytree = λ tree. ok tree;
  read_manifest = λ tree. ok (field "id" (str "clock") end);
  write_manifest = λ fields tree. ok tree;
  empty = ok "";
  copy_part = λ source origin target tree. ok (tree <> source <> "/" <> origin <> ";");
  origin_inside = λ source path. true;
  target_inside = λ path. true;
  code_files = λ tree. "Clock.qml" ∷ [];
  read_text = λ path tree. ok "import";
  write_text = λ path text tree. ok tree;
  replace = λ old new text. text;
}

-- A built-in plugin of one part.
abbrev built_in : Built String
built_in = record {
  fields = ok (
      field "id" (str "clock") (field "entryPoints" (obj (field "bar" (str "Clock.qml") end)) end));
  source = "shell";
  is_plain = false;
}

-- The copy holds the part.
copies_part :
    copy_parts copier "shell" (field "entryPoints" (obj (field "bar" (str "Clock.qml") end)) end)
    ≡ ok "shell/Clock.qml;"
unfolding copy_parts mappings_of entry_points entry_mappings as_dict iterated append_items
    copy_mappings copy_mapping path_in as_path refuse_if rewrite_files replace_mappings get get_or
    ◌>>=◌ ◌>>◌ items
copies_part = refl
