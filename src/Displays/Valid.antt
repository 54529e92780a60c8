-- ===== src/Displays/Valid.antt =====
-- What an accepted document of display-settings.py guarantees of each of its entries.
use fedora_config.Base.{
  ℕ, ℤ, pos_part, neg_part, ◌+◌, ◌≤◌, leb, ltb, Bool, true, false, not, ◌&&◌, ◌||◌, Option, none,
  some,
}
use fedora_config.Base.{
  ◌≡◌, ◌≢◌, inl, inr, refl, ◌∙◌, arith, eq_iff, str_eq, String, List, [], ◌∷◌, any, All, length,
  ◌↔◌,
}
use fedora_config.Base.{
  if◌then◌else◌, Bool-cases, le_of_ltb-false, ltb-false_of_le, ok, raised, overflow_error,
}
use fedora_config.Base.Fallible.{bind-eq-ok, passed, not_refused}
use fedora_config.Json.{
  Value, null, bool, int, str, arr, obj, Items, items, Fields, end, field, get, keys, size, or_null,
  get_or,
}
use fedora_config.Displays.Numbers.{is_int, fits_float, float_limit}
use fedora_config.Displays.Keys.{valid_name}
use fedora_config.Displays.Entry.{
  bad_companion, check_companions, check_enabled, check_description, check_connector,
  validate_fields, validate_entry,
}
use fedora_config.Displays.Document.{
  insert_sorted, sort, validate_entries, validate_monitors, is_version_one, max_entries,
  validate_document,
}

-- `key` is among the names.
abbrev listed : String → List String → Bool
listed k js = any (str_eq k) js

listed-insert_sorted :
    (k j : String) (js : List String) → listed k (insert_sorted j js) ≡ (str_eq k j || listed k js)
unfolding insert_sorted
listed-insert_sorted k j [] = refl
listed-insert_sorted k j (i ∷ is) = ground (arith, listed-insert_sorted k j is)

listed-sort : (k : String) (js : List String) → listed k (sort js) ≡ listed k js
unfolding sort
listed-sort k [] = refl
listed-sort k (j ∷ js) = rw (listed-insert_sorted k j (sort js), listed-sort k js)

listed-keys : (k : String) (v : Value) (fs : Fields) → get k fs ≡ some v → listed k (keys fs) ≡ true
unfolding get keys
listed-keys k v end e = absurd (cc)
listed-keys k v (field j w fs) e = ground (arith, eq_iff k j, eq_iff j k, listed-keys k v fs)

validate_entries-entry :
    (k : String) (js : List String) (fs : Fields)
    → validate_entries js fs ≡ ok tt
    → listed k js ≡ true
    → validate_entry k (or_null (get k fs)) ≡ ok tt
unfolding validate_entries
validate_entries-entry k [] fs e l = absurd (cc)
validate_entries-entry k (j ∷ js) fs e l =
    let (u, first, rest) =
      bind-eq-ok (validate_entry j (or_null (get j fs))) (λ _. validate_entries js fs) e in
    elim (Bool-cases (str_eq k j)) [
      | inl same ↦ rw ((eq_iff k j).0 same) first
      | inr other ↦ validate_entries-entry k js fs rest (ground arith)
    ]

validate_monitors-entries :
    (monitors : Fields)
    → validate_monitors (obj monitors) ≡ ok tt
    → (size monitors ≤ max_entries) × (validate_entries (sort (keys monitors)) monitors ≡ ok tt)
unfolding validate_monitors
validate_monitors-entries monitors e =
    let (few, entries) =
      not_refused (ltb max_entries (size monitors))
        (validate_entries (sort (keys monitors)) monitors) _ e in
    (le_of_ltb-false max_entries (size monitors) few, entries)

validate_document-monitors :
    (document : Fields) (d : Value)
    → validate_document (obj document) ≡ ok d
    → validate_monitors (get_or (obj end) (get "monitors" document)) ≡ ok tt
unfolding validate_document
validate_document-monitors document d e =
    let (version, rest) = passed (is_version_one (get "v" document)) _ _ e in
    (bind-eq-ok (validate_monitors (get_or (obj end) (get "monitors" document)))
      (λ _. ok (obj document)) rest).1

-- In an accepted document there are at most 64 displays, and `validate_entry` accepts each one of
-- them.
pub validate_document-entry :
    (document monitors : Fields) (d : Value)
    → validate_document (obj document) ≡ ok d
    → get "monitors" document ≡ some (obj monitors)
    → (size monitors ≤ max_entries)
      × ((k : String) (v : Value) → get k monitors ≡ some v → validate_entry k v ≡ ok tt)
unfolding get_or or_null
validate_document-entry document monitors d e m =
    let (few, entries) =
      validate_monitors-entries monitors
        (rw (m, get_or) at (validate_document-monitors document d e)) in
    (
      few,
      λ k v found.
          rw (found, or_null) at
            (validate_entries-entry k (sort (keys monitors)) monitors entries
              (listed-sort k (keys monitors) ∙ listed-keys k v monitors found)),
    )

-- A text that names another display than `key`.
abbrev IsCompanion : String → Value → Type 0
IsCompanion key v = (s : String) × (v ≡ str s) × (valid_name s ≡ true) × (s ≢ key)

good_companion :
    (key s : String) (rest : Bool)
    → ((not (valid_name s) || str_eq s key) || rest) ≡ false
    → (valid_name s ≡ true) × (str_eq s key ≡ false) × (rest ≡ false)
good_companion key s rest e = ground arith

companions-All :
    (key : String) (vs : List Value) → any (bad_companion key) vs ≡ false → All (IsCompanion key) vs
unfolding bad_companion
companions-All key [] e = tt
companions-All key (str s ∷ vs) e =
    let (valid, other, rest) = good_companion key s (any (bad_companion key) vs) e in
    ((s, refl, valid, λ q. cc ((eq_iff s key).1 q, other)), companions-All key vs rest)
companions-All key (null ∷ vs) e = absurd (cc)
companions-All key (_ ∷ vs) e = absurd (cc)

-- The identifiers that keep a disabled display company.
pub record Companions (key : String) (v : Option Value) : Type 0 where
  pub list : Items
  pub given : v ≡ some (arr list)
  pub at_least : 1 ≤ length (items list)
  pub at_most : length (items list) ≤ 16
  pub each : All (IsCompanion key) (items list)

in_range : (n : ℕ) → (leb 1 n && leb n 16) ≡ true → (1 ≤ n) × (n ≤ 16)
in_range n e = ground arith

check_companions-ok :
    (key : String) (v : Option Value) → check_companions key v ≡ ok tt → Companions key v
unfolding check_companions
check_companions-ok key none e = absurd (cc)
check_companions-ok key (some (arr xs)) e =
    let n = length (items xs) in
    let (fits, rest) = passed (leb 1 n && leb n 16) _ _ e in
    let (good, u) = not_refused (any (bad_companion key) (items xs)) _ _ rest in
    let (low, high) = in_range n fits in
    record {
      list = xs;
      given = refl;
      at_least = low;
      at_most = high;
      each = companions-All key (items xs) good;
    }
check_companions-ok key (some null) e = absurd (cc)
check_companions-ok key (some _) e = absurd (cc)

-- An accepted entry that turns its display off names one to sixteen others: valid
-- identifiers, none of which is the display itself.
pub validate_entry-Companions :
    (key : String) (entry : Fields)
    → validate_entry key (obj entry) ≡ ok tt
    → get "enabled" entry ≡ some (bool false)
    → Companions key (get "disabledWith" entry)
unfolding validate_entry validate_fields check_enabled
validate_entry-Companions key entry e off =
    let (named, e1) = passed (valid_name key) (validate_fields key entry) _ e in
    let (u1, p1, e2) = bind-eq-ok (check_description key (get "description" entry)) _ e1 in
    let (u2, p2, e3) = bind-eq-ok (check_connector key (get "connector" entry)) _ e2 in
    let (u3, p3, e4) =
      bind-eq-ok (check_enabled key (get "enabled" entry) (get "disabledWith" entry)) _ e3 in
    check_companions-ok key (get "disabledWith" entry) (rw (off, check_enabled) at p3)

too_large :
    (n : ℤ) (r : Bool)
    → ((if fits_float n then ok r else raised overflow_error) ≡ raised overflow_error)
      ↔ (float_limit ≤ pos_part n + neg_part n)
unfolding fits_float
too_large n r = elim (Bool-cases (ltb (pos_part n + neg_part n) float_limit)) [
  | inl y ↦ (λ e. absurd (cc (rw y at e)), λ l. absurd (cc (y, ltb-false_of_le _ _ l)))
  | inr q ↦ (λ e. le_of_ltb-false _ _ q, λ l. rw q)
]

-- `is_int` raises `OverflowError` exactly on an int too large for a double, of either sign,
-- whatever the bounds.
pub is_int_overflow_iff :
    (v : Option Value) (low high : ℤ)
    → (is_int v low high ≡ raised overflow_error)
      ↔ ((n : ℤ) × (v ≡ some (int n)) × (float_limit ≤ pos_part n + neg_part n))
unfolding is_int
is_int_overflow_iff (some (int n)) low high = (
  λ e. (n, refl, (too_large n _).0 e),
  λ (m, e, l). let q : m ≡ n = cc e in (too_large n _).1 (rw (← q) l),
)
is_int_overflow_iff none low high = (λ e. absurd (cc), λ (m, e, l). absurd (cc e))
is_int_overflow_iff (some _) low high = (λ e. absurd (cc), λ (m, e, l). absurd (cc e))
