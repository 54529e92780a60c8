-- ===== src/Plugins/Moved.antt =====
-- Edits of the layout that place a widget: every entry is kept, and at most one is new.
use fedora_config.Base.{
  ℕ, suc, ◌+◌, ◌≡◌, ◌≢◌, ◌⊎◌, inl, inr, refl, ◌∙◌, subst, Bool, true, false, ◌&&◌, ◌||◌, Bool-cases,
  Option, none, some, Option-cases, List, [], ◌∷◌, is_member, arith, eq_iff,
}
use fedora_config.Base.{String, str_eq, if◌then◌else◌, ok}
use fedora_config.Base.Fallible.{◌>>=◌, bind-eq-ok, unrefused, of_ok, ok_injective, passed}
use fedora_config.Json.{Value, null, str, arr, obj, Fields, get, get_or, or_null}
use fedora_config.Plugins.Manifest.{sections}
use fedora_config.Plugins.Scan.{Item}
use fedora_config.Json.{is_true}
use fedora_config.Plugins.Edit.{
  Action, enable, put_widget, move, set_value, Board, entries_in, has_id, is_index, is_asked,
  find_entry, found_or, find_in, entry_at, popped, read_target, place_of, target_of, place_on,
  new_entry, home_of, edit_found, read_selector, read_source_index, edit_board,
}
use fedora_config.Plugins.Edited.{count_board, count-popped, count-insert_on}

-- The entry that was found stands there, and has the id.
find_entry-at :
    (id : Value) (index : Option ℕ) (start at : ℕ) (entries : List Fields)
    → find_entry id index start entries ≡ some at
    → (k : ℕ) × (at ≡ start + k)
      × ((e : Fields) × (entry_at k entries ≡ some e) × (has_id id e ≡ true))
unfolding find_entry entry_at
find_entry-at id index start at [] h = absurd (cc)
find_entry-at id index start at (entry ∷ entries) h =
    elim (Bool-cases (has_id id entry && is_index index start)) [
      | inl y ↦
          let same : some start ≡ some at = rw y at h in
          (0, omega (arith, some_injective same), (entry, refl, (and_left _ _ y)))
      | inr n ↦
          let (k, e, there) = find_entry-at id index (suc start) at entries (rw n at h) in
          (suc k, omega (arith, e), there)
    ]
  where
    some_injective : {a b : ℕ} → some a ≡ some b → a ≡ b
    some_injective q = cc

    and_left : (a b : Bool) → (a && b) ≡ true → a ≡ true
    and_left true b q = refl
    and_left false b q = absurd (cc)

abbrev pub IsFoundAt : Value → Board → String × ℕ → Type 0
IsFoundAt id board (section, at) =
    (e : Fields) × (entry_at at (entries_in section board) ≡ some e) × (has_id id e ≡ true)

find_in-IsFoundAt :
    (names : List String) (asked id : Value) (index : Option ℕ) (board : Board) (f : String × ℕ)
    → find_in names asked id index board ≡ some f
    → (is_member f.0 names ≡ true) × IsFoundAt id board f
unfolding find_in found_or is_member
find_in-IsFoundAt [] asked id index board f h = absurd (cc)
find_in-IsFoundAt (section ∷ names) asked id index board f h =
    let later = find_in names asked id index board in
    let deeper : later ≡ some f → (is_member f.0 (section ∷ names) ≡ true) × IsFoundAt id board f =
      λ e.
        let (inside, there) = find_in-IsFoundAt names asked id index board f e in
        (or_right (str_eq section f.0) _ inside, there) in
    elim (Bool-cases (is_asked asked section)) [
      | inl y ↦ elim (Option-cases (find_entry id index 0 (entries_in section board))) [
        | inl n ↦ deeper (rw (find_in, y, n) at h)
        | inr (at, e) ↦
            let (k, same, there) = find_entry-at id index 0 at (entries_in section board) e in
            let here : f ≡ (section, at) = found_injective (rw (find_in, y, e) at h) in
            rw here (or_left _ _ ((eq_iff section section).1 refl), rw (zero_plus at k same) there)
      ]
      | inr n ↦ deeper (rw (find_in, n) at h)
    ]
  where
    found_injective : {a b : String × ℕ} → some a ≡ some b → b ≡ a
    found_injective q = cc

    or_right : (a b : Bool) → b ≡ true → (a || b) ≡ true
    or_right true b q = refl
    or_right false b q = q

    or_left : (a b : Bool) → a ≡ true → (a || b) ≡ true
    or_left true b q = refl
    or_left false b q = absurd (cc)

    zero_plus : (a k : ℕ) → a ≡ 0 + k → a ≡ k
    zero_plus a k q = omega (arith, q)

-- The section that an entry is put into is one of the three.
place_of-section :
    (action : Action) (payload : Fields) (section : String) (f : Option (String × ℕ))
    (board : Board) (t : String × Value)
    → is_member section sections ≡ true
    → ((g : String × ℕ) → f ≡ some g → is_member g.0 sections ≡ true)
    → place_of action payload section f board ≡ ok t
    → is_member t.0 sections ≡ true
unfolding place_of
place_of-section action payload section (some (name, at)) board t s k h =
    of_ok (λ (t : String × Value). is_member t.0 sections ≡ true) h (k (name, at) refl)
place_of-section put_widget payload section none board t s k h =
    of_ok (λ (t : String × Value). is_member t.0 sections ≡ true) h s
place_of-section _ payload section none board t s k h = absurd (cc)

target_of-section :
    (action : Action) (payload : Fields) (section : String) (board : Board) (t : String × Value)
    → is_member section sections ≡ true
    → target_of action payload section board ≡ ok t
    → is_member t.0 sections ≡ true
unfolding target_of
target_of-section action payload section board t s h =
    let relative = get_or (or_null (get "after" payload)) (get "before" payload) in
    let asked = if is_true (or_null (get "section" payload)) then str section else null in
    elim (Bool-cases (is_true relative)) [
      | inl y ↦
          place_of-section action payload section (find_in sections asked relative none board) board
            t s (λ g e. (find_in-IsFoundAt sections asked relative none board g e).0)
            (rw (target_of, y) at h)
      | inr n ↦
          of_ok (λ (t : String × Value). is_member t.0 sections ≡ true) (rw (target_of, n) at h) s
    ]

read_target-section :
    (v : Value) (section : String) → read_target v ≡ ok section → is_member section sections ≡ true
unfolding read_target
read_target-section (str s) section h =
    let (inside, same) = passed (is_member s sections) (ok s) _ h in
    of_ok (λ k. is_member k sections ≡ true) same inside
read_target-section (arr xs) section h = absurd (cc)
read_target-section (obj fs) section h = absurd (cc)
read_target-section _ section h = absurd (cc)

module _ (p : Fields → Bool) where
  -- As many as before, for a widget that was on the board, and else the new entry besides.
  abbrev Counted : Option (String × ℕ) → Fields → Board → Board → Type 0
  Counted none new board after =
      count_board p after ≡ (if p new then 1 else 0) + count_board p board
  Counted (some f) new board after = count_board p after ≡ count_board p board

  taken :
      (id : Value) (f : Option (String × ℕ)) (new : Fields) (board after : Board)
      → ((g : String × ℕ) → f ≡ some g → IsFoundAt id board g)
      → count_board p after
        ≡ (if p (popped f new board).0 then 1 else 0) + count_board p (popped f new board).1
      → Counted f new board after
  unfolding popped
  taken id none new board after there c = c
  taken id (some (section, at)) new board after there c =
      let (e, found, _) = there (section, at) refl in
      elim (count-popped p section at new board) [
        | inl same ↦ c ∙ same
        | inr (n, _, _) ↦ absurd (cc (n, found))
      ]

  place_on-Counted :
      (action : Action) (payload : Fields) (home id : Value) (new : Fields)
      (f : Option (String × ℕ)) (board after : Board)
      → ((g : String × ℕ) → f ≡ some g → IsFoundAt id board g)
      → place_on action payload home new f board ≡ ok after
      → Counted f new board after
  unfolding place_on
  place_on-Counted action payload home id new f board after there h =
      let (section, a, h1) = bind-eq-ok (read_target _) _ h in
      let (_, h2) = unrefused _ _ _ h1 in
      let (target, b, h3) = bind-eq-ok (target_of _ _ _ _) _ h2 in
      let inside =
        target_of-section action payload section (popped f new board).1 target
          (read_target-section _ section a) b in
      let counted =
        count-insert_on p target.0 target.1 (popped f new board).0 (popped f new board).1 after
          inside h3 in
      taken id f new board after there counted

  -- The entries of a board after an edit that places a widget.
  abbrev pub IsMoved : Action → Fields → Board → Board → Type 0
  IsMoved action new board after =
      (count_board p after ≡ count_board p board)
      ⊎ ((action ≢ move) × (count_board p after ≡ (if p new then 1 else 0) + count_board p board))

  Counted-IsMoved :
      (action : Action) (f : Option (String × ℕ)) (new : Fields) (board after : Board)
      → (f ≡ none → action ≢ move)
      → Counted f new board after
      → IsMoved action new board after
  Counted-IsMoved action none new board after free c = inr (free refl, c)
  Counted-IsMoved action (some f) new board after free c = inl c

  some_eq : (a b : Board) → some a ≡ some b → a ≡ b
  some_eq a b e = cc

  placed-IsMoved :
      (action : Action) (payload : Fields) (item : Item) (id : Value) (f : Option (String × ℕ))
      (board after : Board)
      → ((g : String × ℕ) → f ≡ some g → IsFoundAt id board g)
      → (f ≡ none → action ≢ move)
      → (place_on action payload (home_of f item) (new_entry item) f board >>= λ edited.
          ok (some edited))
        ≡ ok (some after)
      → IsMoved action (new_entry item) board after
  placed-IsMoved action payload item id f board after there free h =
      let (edited, a, h1) = bind-eq-ok (place_on _ _ _ _ _ _) _ h in
      subst (IsMoved action (new_entry item) board) (some_eq _ _ (ok_injective h1)) (
        Counted-IsMoved action f (new_entry item) board edited free
          (place_on-Counted action payload _ id (new_entry item) f board edited there a))

  edit_found-IsMoved :
      (action : Action) (payload : Fields) (item : Item) (id : Value) (f : Option (String × ℕ))
      (board after : Board)
      → action ≢ set_value
      → ((g : String × ℕ) → f ≡ some g → IsFoundAt id board g)
      → edit_found action payload item f board ≡ ok (some after)
      → IsMoved action (new_entry item) board after
  unfolding edit_found
  edit_found-IsMoved put_widget payload item id (some g) board after q there h = absurd (cc)
  edit_found-IsMoved put_widget payload item id none board after q there h =
      placed-IsMoved put_widget payload item id none board after there (λ _ e. cc e) h
  edit_found-IsMoved set_value payload item id f board after q there h = absurd (q refl)
  edit_found-IsMoved move payload item id none board after q there h = absurd (cc)
  edit_found-IsMoved move payload item id (some g) board after q there h =
      placed-IsMoved move payload item id (some g) board after there (λ e. absurd (cc e)) h
  edit_found-IsMoved enable payload item id f board after q there h =
      placed-IsMoved enable payload item id f board after there (λ _ e. cc e) h

  -- After an edit other than `set`, the board has the entries that it had, with all their settings
  -- and each as often, or one more, the widget that `enable` or `put` has added.
  pub edit_board-IsMoved :
      (action : Action) (payload : Fields) (item : Item) (board after : Board)
      → action ≢ set_value
      → edit_board action payload item board ≡ ok (some after)
      → IsMoved action (new_entry item) board after
  unfolding edit_board
  edit_board-IsMoved action payload item board after q h =
      let (selector, _, h1) = bind-eq-ok (read_selector _ _) _ h in
      let (index, _, h2) = bind-eq-ok (read_source_index _ _) _ h1 in
      edit_found-IsMoved action payload item (str item.id) _ board after q
        (λ g e. (find_in-IsFoundAt sections _ (str item.id) index board g e).1) h2
