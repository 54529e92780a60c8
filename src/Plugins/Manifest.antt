-- ===== src/Plugins/Manifest.antt =====
-- `package` of user-plugins.py: what a package's manifest.json must be.
use fedora_config.Base.{
  Bool, true, false, not, ◌&&◌, ◌||◌, Option, none, some, List, [], ◌∷◌, all, is_member,
}
use fedora_config.Base.{String, str_eq, starts_with, strip, codes, if◌then◌else◌}
use fedora_config.Base.{Result, ok, raised, value_error}
use fedora_config.Base.Fallible.{◌>>=◌, ◌>>◌, raise_if}
use fedora_config.Json.{
  Value, bool, str, arr, obj, nil, cons, Fields, end, field, get, get_or, or_null, has, put, keys,
  items, is_text,
}
use fedora_config.Plugins.Ids.{valid_id, valid_id_value, matches_id}
use fedora_config.Plugins.Options.{Document, read_object, read_dict, is_one}

-- The packages on disk: their manifests, and what pathlib says of an entry point of a package.
-- `is_inside` compares the resolved paths; `installed` lists the package directories that are not
-- hidden, none where there is no directory of packages.
pub record Packages : Type 0 where
  pub manifest : String → Document
  pub path : String → String
  pub is_absolute : String → Bool
  pub parts : String → List String
  pub suffix : String → String
  pub is_inside : String → String → Bool
  pub is_file : String → String → Bool
  pub uri : String → String → String
  pub is_dir : String → Bool
  pub installed : Result (List String)
  pub data_path : String → String

pub record Descriptor : Type 0 where
  pub id : String
  pub name : String
  pub version : String
  pub sources : Fields
  pub kinds : List String
  pub manifest : Fields
  pub keep_loaded : Value
  pub package_path : String
  pub section : String
  pub is_omarchy : Bool
  pub defaults : Fields

-- `KINDS`
unfoldable pub entry_of : String → Option String
entry_of kind =
    if str_eq kind "bar-widget"
    then some "barWidget"
    else if is_member kind ("panel" ∷ "overlay" ∷ "menu" ∷ "service" ∷ "bar" ∷ [])
    then some kind
    else none

abbrev pub built_in : String
built_in = "digitalpals.model-usage"

abbrev pub built_in_reason : String
built_in_reason =
    "Model Usage is built into CybexOS. Add it from Settings → Bar, then remove this plugin."

abbrev pub sections : List String
sections = "left" ∷ "center" ∷ "right" ∷ []

-- `value in ("left", "center", "right")`, else an error.
unfoldable pub read_section : String → Value → Result String
read_section problem (str s) = if is_member s sections then ok s else raised (value_error problem)
read_section problem _ = raised (value_error problem)

unfoldable pub is_bool : Value → Bool
is_bool (bool b) = true
is_bool _ = false

abbrev kind_problem : String
kind_problem = "Unsupported or duplicate Omarchy plugin kind"

unfoldable pub read_kind : Value → Result String
read_kind (str kind) = elim (entry_of kind) [
  | none ↦ raised (value_error kind_problem)
  | some entry ↦ ok kind
]
read_kind _ = raised (value_error kind_problem)

-- Each one supported, and none twice.
unfoldable pub read_kind_list : List Value → Result (List String)
read_kind_list [] = ok []
read_kind_list (v ∷ vs) = do
  kind ← read_kind v
  kinds ← read_kind_list vs
  if is_member kind kinds then raised (value_error kind_problem) else ok (kind ∷ kinds)

unfoldable pub read_kinds : Option Value → Result (List String)
read_kinds (some (arr (cons v vs))) = read_kind_list (v ∷ items vs)
read_kinds _ = raised (value_error kind_problem)

-- `{KINDS[kind] for kind in kinds}`
unfoldable pub entry_names : List String → List String
entry_names [] = []
entry_names (kind ∷ kinds) =
    let rest = entry_names kinds in elim (entry_of kind) [ none ↦ rest | some entry ↦ entry ∷ rest ]

-- `set(entries) == names`
unfoldable pub same_names : List String → List String → Bool
same_names xs ys = all (λ x. is_member x ys) xs && all (λ y. is_member y xs) ys

unfoldable pub read_entries : List String → Option Value → Result Fields
read_entries kinds (some (obj entries)) =
    if same_names (keys entries) (entry_names kinds)
    then ok entries
    else raised (value_error "Omarchy entryPoints must match the declared kinds")
read_entries kinds _ = raised (value_error "Omarchy entryPoints must match the declared kinds")

-- What the two manifest formats give.
pub record Format : Type 0 where
  pub kinds : List String
  pub entries : Fields
  pub defaults : Fields
  pub section : String
  pub is_omarchy : Bool

-- `name in fields and type(fields[name]) is not bool`
unfoldable pub is_no_bool : Option Value → Bool
is_no_bool none = false
is_no_bool (some v) = not (is_bool v)

unfoldable pub omarchy_format : Fields → Result Format
omarchy_format manifest = do
  raise_if (has "apiVersion" manifest)
      (value_error "Manifest cannot mix native and Omarchy formats")
  raise_if (not (is_one (get "schemaVersion" manifest)))
      (value_error "Unsupported Omarchy schemaVersion; host supports 1")
  kinds ← read_kinds (get "kinds" manifest)
  entries ← read_entries kinds (get "entryPoints" manifest)
  raise_if (is_no_bool (get "keepLoaded" manifest)) (value_error "keepLoaded must be a boolean")
  widget ←
      read_dict "Omarchy barWidget and defaults must be objects"
        (get_or (obj end) (get "barWidget" manifest))
  defaults ←
      read_dict "Omarchy barWidget and defaults must be objects"
        (get_or (obj end) (get "defaults" widget))
  raise_if (is_no_bool (get "allowMultiple" widget))
      (value_error "barWidget.allowMultiple must be a boolean")
  section ←
      read_section "Invalid barWidget.defaultSection"
        (get_or (str "center") (get "defaultSection" widget))
  ok (record {
    kinds = kinds;
    entries = entries;
    defaults = defaults;
    section = section;
    is_omarchy = true;
  })

unfoldable pub native_format : String → Fields → Result Format
native_format plugin_id manifest = do
  raise_if (not (matches_id (codes plugin_id)))
      (value_error "Native plugin ids must use lowercase letters, digits, dots or hyphens")
  raise_if (not (is_one (get "apiVersion" manifest))) (value_error "Unsupported widget API")
  ok (record {
    kinds = "bar-widget" ∷ [];
    entries = field "barWidget" (or_null (get "entrypoint" manifest)) end;
    defaults = end;
    section = "right";
    is_omarchy = false;
  })

-- `isinstance(value, str) and value.strip()`
unfoldable pub read_name : String → Value → Result String
read_name problem (str s) = if str_eq (strip s) "" then raised (value_error problem) else ok s
read_name problem _ = raised (value_error problem)

-- `manifest.get("omarchy", {})`
unfoldable pub check_clone : Value → Result (Unit {0})
check_clone (obj metadata) = elim (get "clonedFrom" metadata) [
  | none ↦ ok tt
  | some origin ↦
      if valid_id_value origin then ok tt else raised (value_error "Invalid Omarchy clone metadata")
]
check_clone _ = raised (value_error "Invalid Omarchy clone metadata")

-- The keys that the shell may see.
unfoldable pub public_fields : Fields → Fields
public_fields end = end
public_fields (field k v fs) =
    let rest = public_fields fs in if starts_with k "__" then rest else field k v rest

module _ (disk : Packages) (plugin_id : String) where
  -- One entry point, as the URI of its file.
  unfoldable pub read_source : Value → Result String
  read_source v = do
    entry ← read_name "Manifest needs a nonempty QML entrypoint" v
    raise_if
        (disk.is_absolute entry
          || is_member ".." (disk.parts entry)
          || not (str_eq (disk.suffix entry) ".qml"))
        (value_error "Entrypoint must be a relative .qml path inside the package")
    raise_if (not (disk.is_inside plugin_id entry) || not (disk.is_file plugin_id entry))
        (value_error "Entrypoint is missing or resolves outside the package")
    ok (disk.uri plugin_id entry)

  unfoldable pub read_sources : Fields → Result Fields
  read_sources end = ok end
  read_sources (field kind v fs) = do
    source ← read_source v
    rest ← read_sources fs
    ok (field kind (str source) rest)

  unfoldable pub public_manifest : Fields → Fields
  public_manifest manifest = put "__hostCapabilities" (arr nil) (
      put "__isFirstParty" (bool false)
        (put "__sourceDir" (str (disk.path plugin_id)) (public_fields manifest)))

  unfoldable pub read_format : Fields → Result Format
  read_format manifest =
      if has "schemaVersion" manifest
      then omarchy_format manifest
      else native_format plugin_id manifest

  unfoldable pub describe : Fields → Result Descriptor
  describe manifest = do
    raise_if (not (is_text plugin_id (or_null (get "id" manifest))))
        (value_error "Manifest id must match its directory name")
    check_clone (get_or (obj end) (get "omarchy" manifest))
    format ← read_format manifest
    name ← read_name "Manifest needs a nonempty name" (or_null (get "name" manifest))
    version ← read_name "Manifest needs a nonempty version" (or_null (get "version" manifest))
    sources ← read_sources format.entries
    ok (record {
      id = plugin_id;
      name = name;
      version = version;
      sources = sources;
      kinds = format.kinds;
      manifest = public_manifest manifest;
      keep_loaded = get_or (bool false) (get "keepLoaded" manifest);
      package_path = disk.path plugin_id;
      section = format.section;
      is_omarchy = format.is_omarchy;
      defaults = format.defaults;
    })

  -- `package`
  unfoldable pub read_package : Result Descriptor
  read_package = do
    raise_if (not (valid_id plugin_id))
        (value_error "Invalid plugin id (use letters, digits, dots, underscores or hyphens)")
    raise_if (str_eq plugin_id built_in) (value_error built_in_reason)
    manifest ← read_object (disk.manifest plugin_id)
    describe manifest
