-- ===== src/Packages/Copier.antt =====
-- The manifest and the parts that `clone` of plugin_packages.py gives the copy of a package.
use fedora_config.Base.{
  Bool, not, ◌||◌, Option, none, some, List, [], ◌∷◌, String, str_eq, if◌then◌else◌,
}
use fedora_config.Base.{
  Result, ok, raised, Exn, value_error, key_error, type_error, attribute_error,
}
use fedora_config.Base.Fallible.{◌>>=◌, ◌>>◌, refuse_if}
use fedora_config.Json.{
  Value, str, arr, obj, Fields, end, field, Items, nil, cons, get, get_or, or_null, put, remove,
  is_text,
}

-- A manifest of the built-in plugins: what `read_object` gives, the directory that it stands in, and
-- whether its name is manifest.json.
pub record Built (Tree : Type 0) : Type 0 where
  pub fields : Result Fields
  pub source : Tree
  pub is_plain : Bool

-- The calls of the file system: `copytree`, `mkdir`, the copy of one part to its target, and the
-- texts of the .qml and .js files of a tree. `origin_inside` and `target_inside` say whether a path,
-- resolved, lies in the built-in root and in the candidate; `replace` is `str.replace`.
pub record Copier (Tree : Type 0) : Type 0 where
  pub copytree : Tree → Result Tree
  pub read_manifest : Tree → Result Fields
  pub write_manifest : Fields → Tree → Result Tree
  pub empty : Result Tree
  pub copy_part : Tree → String → String → Tree → Result Tree
  pub origin_inside : Tree → String → Bool
  pub target_inside : String → Bool
  pub code_files : Tree → List String
  pub read_text : String → Tree → Result String
  pub write_text : String → String → Tree → Result Tree
  pub replace : String → String → String → String

-- `for path in rglob(...): if read_object(path).get("id") == plugin_id: ...`
unfoldable pub find_builtin : {Tree : Type 0} → String → List (Built Tree) → Result (Built Tree)
find_builtin id [] =
    raised (value_error "Built-in plugin not found in the supplied Omarchy checkout")
find_builtin id (b ∷ bs) =
    let rest = find_builtin id bs in
    b.fields >>= λ fields. if is_text id (or_null (get "id" fields)) then ok b else rest

-- `path` of `source / path`.
unfoldable pub as_path : Value → Result String
as_path (str s) = ok s
as_path _ = raised type_error

-- The values that iterating a value gives; a text's characters are as little a mapping as the text.
unfoldable pub iterated : Value → Result Items
iterated (arr items) = ok items
iterated (obj end) = ok nil
iterated (obj (field key v rest)) = ok (cons (str key) nil)
iterated (str s) = if str_eq s "" then ok nil else ok (cons (str s) nil)
iterated _ = raised type_error

-- `{"source": path, "target": path} for path in entry_points.values()`
unfoldable pub entry_mappings : Fields → Items
entry_mappings end = nil
entry_mappings (field key path rest) =
    cons (obj (field "source" path (field "target" path end))) (entry_mappings rest)

unfoldable pub append_items : Items → Items → Items
append_items nil others = others
append_items (cons v rest) others = cons v (append_items rest others)

-- `manifest["entryPoints"]`, whose `values` are asked for.
unfoldable pub entry_points : Option Value → Result Fields
entry_points none = raised key_error
entry_points (some (obj fields)) = ok fields
entry_points (some _) = raised attribute_error

unfoldable pub as_dict : Value → Exn → Result Fields
as_dict (obj fields) e = ok fields
as_dict _ e = raised e

-- `mappings`
unfoldable pub mappings_of : Fields → Result Items
mappings_of manifest = entry_points (get "entryPoints" manifest) >>= λ points.
    as_dict (get_or (obj end) (get "omarchy" manifest)) attribute_error >>= λ omarchy.
    iterated (get_or (arr nil) (get "clonePaths" omarchy)) >>= λ more.
    ok (append_items (entry_mappings points) more)

-- `mapping[key]`
unfoldable pub path_in : String → Value → Result String
path_in key (obj mapping) = elim (get key mapping) [
  | none ↦ raised key_error
  | some path ↦ as_path path
]
path_in key _ = raised type_error

-- `manifest["id"] = ...` and what follows it.
unfoldable pub edit_manifest : String → String → Fields → Result Fields
edit_manifest id new_id manifest =
    as_dict (get_or (obj end) (get "omarchy" manifest)) type_error >>= λ omarchy. ok (
      put "omarchy" (obj (remove "clonePaths" (put "clonedFrom" (str id) omarchy)))
        (put "id" (str new_id) manifest))

module _ {Tree : Type 0} (copier : Copier Tree) (source : Tree) where
  -- One round of the loop over the mappings.
  unfoldable pub copy_mapping : Value → Tree → Result Tree
  copy_mapping mapping candidate = path_in "source" mapping >>= λ origin.
      path_in "target" mapping >>= λ target.
      refuse_if (not (copier.origin_inside source origin) || not (copier.target_inside target))
        (value_error "Clone path escapes source or destination")
      >> copier.copy_part source origin target candidate

  unfoldable pub copy_mappings : Items → Tree → Result Tree
  copy_mappings nil candidate = ok candidate
  copy_mappings (cons mapping rest) candidate =
      copy_mapping mapping candidate >>= λ next. copy_mappings rest next

  -- `text = text.replace(mapping["source"], mapping["target"])` for each mapping.
  unfoldable pub replace_mappings : Items → String → Result String
  replace_mappings nil text = ok text
  replace_mappings (cons mapping rest) text = path_in "source" mapping >>= λ origin.
      path_in "target" mapping >>= λ target.
      replace_mappings rest (copier.replace origin target text)

  unfoldable pub rewrite_files : Items → List String → Tree → Result Tree
  rewrite_files mappings [] candidate = ok candidate
  rewrite_files mappings (path ∷ paths) candidate = copier.read_text path candidate >>= λ text.
      replace_mappings mappings text >>= λ changed.
      copier.write_text path changed candidate >>= λ next. rewrite_files mappings paths next

  -- A built-in package whose manifest has another name: its parts only.
  unfoldable pub copy_parts : Fields → Result Tree
  copy_parts manifest = copier.empty >>= λ candidate. mappings_of manifest >>= λ mappings.
      copy_mappings mappings candidate >>= λ copied.
      rewrite_files mappings (copier.code_files copied) copied
