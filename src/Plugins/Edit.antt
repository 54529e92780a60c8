-- ===== src/Plugins/Edit.antt =====
-- `edit_layout` of user-plugins.py: one edit of the bar's layout.
use fedora_config.Base.{
  ℕ, zero, suc, ◌==◌, leb, pos, Bool, true, false, not, ◌&&◌, ◌||◌, Option, none, some, List, [],
  ◌∷◌, ◌++◌, is_member, length,
}
use fedora_config.Base.{String, str_eq, if◌then◌else◌, Result, ok, raised, value_error, type_error}
use fedora_config.Base.Fallible.{◌>>=◌, ◌>>◌, raise_if}
use fedora_config.Json.{
  Value, null, int, str, arr, obj, Items, nil, cons, Fields, end, field, get, get_or, or_null, put,
  is_text,
}
use fedora_config.Plugins.Options.{Document, preferences, read_dict}
use fedora_config.Plugins.Manifest.{Packages, sections}
use fedora_config.Plugins.Scan.{Item, Widget, scan}
use fedora_config.Json.{is_true}
use fedora_config.Plugins.Layout.{apply_layout, is_bar_widget}

pub data Action : Type 0 where
  enable put_widget move set_value : Action

-- `layout`, a list of entries for each section.
pub record Board : Type 0 where
  pub left : List Fields
  pub center : List Fields
  pub right : List Fields

unfoldable pub entries_in : String → Board → List Fields
entries_in section board =
    if str_eq section "left"
    then board.left
    else if str_eq section "center"
    then board.center
    else if str_eq section "right"
    then board.right
    else []

unfoldable pub with_entries : String → List Fields → Board → Board
with_entries section entries board =
    if str_eq section "left"
    then record board { left = entries }
    else if str_eq section "center"
    then record board { center = entries }
    else if str_eq section "right"
    then record board { right = entries }
    else board

-- `{**widget["settings"], "id": ..., "__cybexInstance": ...}`
unfoldable pub entry_of_widget : Widget → Fields
entry_of_widget w =
    put "__cybexInstance" (str w.instance_name) (put "id" (str w.item.id) w.item.settings)

unfoldable pub section_name : Option Value → String
section_name (some (str section)) = section
section_name _ = ""

-- `widget["enabled"] and not widget["error"] and widget["format"] == "omarchy"`
unfoldable pub is_listed : Item → Bool
is_listed item = elim item.error [
  | some problem ↦ false
  | none ↦ elim item.found [ none ↦ false | some d ↦ item.enabled && d.is_omarchy ]
]

unfoldable pub board_of : List Widget → Board → Board
board_of [] board = board
board_of (w ∷ ws) board =
    let section = section_name w.item.section in
    let kept = board_of ws board in
    let added =
      board_of ws
        (with_entries section (entries_in section board ++ (entry_of_widget w ∷ [])) board) in
    if is_listed w.item then added else kept

-- `entry["id"] == value`
unfoldable pub has_id : Value → Fields → Bool
has_id (str id) entry = is_text id (or_null (get "id" entry))
has_id v entry = false

-- `source_index is None or source_index == index`
unfoldable pub is_index : Option ℕ → ℕ → Bool
is_index none at = true
is_index (some i) at = i == at

-- The index of an entry, from `at` on; `index` is `source_index`.
unfoldable pub find_entry : Value → Option ℕ → ℕ → List Fields → Option ℕ
find_entry id index at [] = none
find_entry id index at (entry ∷ entries) =
    let later = find_entry id index (suc at) entries in
    if has_id id entry && is_index index at then some at else later

-- `section` is not skipped: no section is asked for, or this one.
unfoldable pub is_asked : Value → String → Bool
is_asked asked section = if is_true asked then is_text section asked else true

-- The first of two places.
unfoldable pub found_or : String → Option ℕ → Option (String × ℕ) → Option (String × ℕ)
found_or section (some at) later = some (section, at)
found_or section none later = later

unfoldable pub find_in : List String → Value → Value → Option ℕ → Board → Option (String × ℕ)
find_in [] asked id index board = none
find_in (section ∷ rest) asked id index board =
    let later = find_in rest asked id index board in
    if is_asked asked section
    then found_or section (find_entry id index 0 (entries_in section board)) later
    else later

unfoldable pub entry_at : ℕ → List Fields → Option Fields
entry_at n [] = none
entry_at zero (entry ∷ entries) = some entry
entry_at (suc n) (entry ∷ entries) = entry_at n entries

-- `entries.pop(n)`, `entries.insert(n, entry)`, and an assignment to `entries[n]`.
unfoldable pub remove_at : ℕ → List Fields → List Fields
remove_at n [] = []
remove_at zero (entry ∷ entries) = entries
remove_at (suc n) (entry ∷ entries) = entry ∷ remove_at n entries

unfoldable pub insert_at {ℓ} : {A : Type ℓ} → ℕ → A → List A → List A
insert_at zero new entries = new ∷ entries
insert_at (suc n) new [] = new ∷ []
insert_at (suc n) new (entry ∷ entries) = entry ∷ insert_at n new entries

unfoldable pub replace_at : ℕ → Fields → List Fields → List Fields
replace_at n new [] = []
replace_at zero new (entry ∷ entries) = new ∷ entries
replace_at (suc n) new (entry ∷ entries) = entry ∷ replace_at n new entries

-- `selector.get("fromSection", ...)`, and the same for the index.
unfoldable pub selected : Action → String → String → Fields → Value
selected set_value named fallback selector =
    get_or (or_null (get fallback selector)) (get named selector)
selected action named fallback selector = or_null (get named selector)

unfoldable pub read_selector : Action → Fields → Result Fields
read_selector set_value payload =
    read_dict "Invalid selector" (get_or (obj end) (get "selector" payload))
read_selector action payload = ok payload

unfoldable pub read_source_index : Value → Value → Result (Option ℕ)
read_source_index source_section null = ok none
read_source_index source_section (int (pos n)) =
    if is_true source_section then ok (some n) else raised (value_error "Invalid source index")
read_source_index source_section _ = raised (value_error "Invalid source index")

-- The entry that the edit is about, taken off the board: where it was, and the entry itself.
unfoldable pub popped : Option (String × ℕ) → Fields → Board → Fields × Board
popped none new board = (new, board)
popped (some (section, at)) new board = elim (entry_at at (entries_in section board)) [
  | none ↦ (new, board)
  | some entry ↦ (entry, with_entries section (remove_at at (entries_in section board)) board)
]

unfoldable pub set_entry : String × ℕ → String → Value → Board → Board
set_entry (section, at) key value board = elim (entry_at at (entries_in section board)) [
  | none ↦ board
  | some entry ↦
      with_entries section (replace_at at (put key value entry) (entries_in section board)) board
]

unfoldable pub read_key : Value → Result String
read_key (str key) =
    if str_eq key "id" || str_eq key "__cybexInstance"
    then raised (value_error "Cannot change widget identity")
    else ok key
read_key _ = raised (value_error "Setting mutation needs key and value")

-- The action `set`.
unfoldable pub set_on : Fields → String × ℕ → Board → Result Board
set_on payload found board = elim (get "value" payload) [
  | none ↦ raised (value_error "Setting mutation needs key and value")
  | some value ↦
      (read_key (or_null (get "key" payload)) >>= λ key. ok (set_entry found key value board))
]

-- `if section not in layout: raise ...`; a list or an object has no hash.
unfoldable pub read_target : Value → Result String
read_target (str section) =
    if is_member section sections then ok section else raised (value_error "Invalid section")
read_target (arr xs) = raised type_error
read_target (obj fs) = raised type_error
read_target _ = raised (value_error "Invalid section")

unfoldable pub read_index : Value → Result ℕ
read_index (int (pos n)) = ok n
read_index _ = raised (value_error "Invalid index")

-- Where the entry goes: the section and the index, once the entry is off the board.
unfoldable pub place_of :
    Action → Fields → String → Option (String × ℕ) → Board → Result (String × Value)
place_of action payload section (some (name, at)) board =
    ok (name, int (pos (if is_true (or_null (get "after" payload)) then suc at else at)))
place_of put_widget payload section none board =
    ok (section, get_or (int (pos (length (entries_in section board)))) (get "index" payload))
place_of action payload section none board = raised (value_error "Relative widget not found")

unfoldable pub target_of : Action → Fields → String → Board → Result (String × Value)
target_of action payload section board =
    let relative = get_or (or_null (get "after" payload)) (get "before" payload) in
    let asked = if is_true (or_null (get "section" payload)) then str section else null in
    if is_true relative
    then place_of action payload section (find_in sections asked relative none board) board
    else ok (section, get_or (int (pos (length (entries_in section board)))) (get "index" payload))

unfoldable pub insert_on : String × Value → Fields → Board → Result Board
insert_on (section, index) entry board = read_index index >>= λ at.
    if leb at (length (entries_in section board))
    then ok (with_entries section (insert_at at entry (entries_in section board)) board)
    else raised (value_error "Invalid index")

-- The other actions: the entry, or a new one, is put where the payload says.
unfoldable pub place_on :
    Action → Fields → Value → Fields → Option (String × ℕ) → Board → Result Board
place_on action payload home new found board = do
  section ← read_target (get_or home (get "section" payload))
  raise_if (is_true (or_null (get "before" payload)) && is_true (or_null (get "after" payload)))
      (value_error "Choose before or after")
  let (entry, rest) = popped found new board
  target ← target_of action payload section rest
  insert_on target entry rest

-- `found[0] if found else item["section"]`
unfoldable pub home_of : Option (String × ℕ) → Item → Value
home_of (some (section, at)) item = str section
home_of none item = or_null item.section

unfoldable pub new_entry : Item → Fields
new_entry item = put "id" (str item.id) item.settings

unfoldable pub edit_found :
    Action → Fields → Item → Option (String × ℕ) → Board → Result (Option Board)
edit_found put_widget payload item (some found) board = ok none
edit_found set_value payload item none board =
    raised (value_error "Widget not found at source position")
edit_found move payload item none board = raised (value_error "Widget not found at source position")
edit_found set_value payload item (some found) board =
    set_on payload found board >>= λ edited. ok (some edited)
edit_found action payload item found board =
    place_on action payload (home_of found item) (new_entry item) found board >>= λ edited.
    ok (some edited)

-- The edit of the board; none where `put` finds the widget there already.
unfoldable pub edit_board : Action → Fields → Item → Board → Result (Option Board)
edit_board action payload item board = do
  selector ← read_selector action payload
  let source_section = selected action "fromSection" "section" selector
  index ← read_source_index source_section (selected action "fromIndex" "index" selector)
  edit_found action payload item (find_in sections source_section (str item.id) index board) board

unfoldable pub items_of : List Fields → Items
items_of [] = nil
items_of (entry ∷ entries) = cons (obj entry) (items_of entries)

unfoldable pub layout_of : Board → Value
layout_of board = obj (
    field "left" (arr (items_of board.left)) (
      field "center" (arr (items_of board.center))
        (field "right" (arr (items_of board.right)) end)))

-- The plugin of that name that has no error.
unfoldable pub find_item : String → List Item → Option Item
find_item plugin_id [] = none
find_item plugin_id (item ∷ items) =
    let later = find_item plugin_id items in
    elim item.error [
      | some problem ↦ later
      | none ↦ if str_eq item.id plugin_id then some item else later
    ]

unfoldable pub is_editable : Item → Bool
is_editable item = elim item.found [ none ↦ false | some d ↦ is_bar_widget d ]

-- `if not item or item["format"] != "omarchy" or ...`
unfoldable pub read_item : Option Item → Result Item
read_item none = raised (value_error "Unknown Omarchy widget")
read_item (some item) =
    if is_editable item then ok item else raised (value_error "Unknown Omarchy widget")

abbrev pub empty_board : Board
empty_board = record { left = []; center = []; right = [] }

module _ (disk : Packages) where
  -- The registry that the edit writes; none where nothing is written.
  unfoldable pub apply_board : Document → Option Board → Result (Option Fields)
  apply_board config none = ok none
  apply_board config (some board) = do
    value ← preferences config
    edited ← apply_layout disk value (layout_of board)
    ok (some edited)

  -- `edit_layout`, up to the write.
  unfoldable pub edit_layout : Document → Action → String → Fields → Result (Option Fields)
  edit_layout config action plugin_id payload = do
    info ← scan disk config
    raise_if (not (str_eq info.error "")) (value_error info.error)
    item ← read_item (find_item plugin_id info.plugins)
    board ← edit_board action payload item (board_of info.widgets empty_board)
    apply_board config board
