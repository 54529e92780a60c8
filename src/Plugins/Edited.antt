-- ===== src/Plugins/Edited.antt =====
-- What an edit of the layout does to the entries: none is lost, copied or given another identity.
use fedora_config.Base.{
  ℕ, zero, suc, ◌+◌, ◌≡◌, ◌⊎◌, inl, inr, refl, Bool, true, false, Bool-cases, none, some,
  Option-cases, List, [], ◌∷◌, arith, is_member,
}
use fedora_config.Base.{String, str_eq, if◌then◌else◌, ok}
use fedora_config.Base.Fallible.{bind-eq-ok, of_ok, passed}
use fedora_config.Json.{Value, Fields}
use fedora_config.Json.Laws.{str_eq-flip}
use fedora_config.Plugins.Manifest.{sections}
use fedora_config.Plugins.Edit.{
  Board, entries_in, with_entries, entry_at, remove_at, insert_at, popped, read_index, insert_on,
}

outside :
    (section : String)
    → str_eq section "left" ≡ false
    → str_eq section "center" ≡ false
    → str_eq section "right" ≡ false
    → is_member section sections ≡ true
    → ⊥
unfolding is_member
outside section l c r h = cc (
    rw (str_eq-flip "left" section l, str_eq-flip "center" section c, str_eq-flip "right" section r)
      at h)

module _ (p : Fields → Bool) where
  -- How many entries of the list have the property.
  abbrev pub count : List Fields → ℕ
  count [] = 0
  count (entry ∷ entries) = (if p entry then 1 else 0) + count entries

  -- How many on the whole board.
  abbrev pub count_board : Board → ℕ
  count_board board = count board.left + count board.center + count board.right

  count-insert_at :
      (n : ℕ) (new : Fields) (entries : List Fields)
      → count (insert_at n new entries) ≡ (if p new then 1 else 0) + count entries
  unfolding insert_at
  count-insert_at zero new entries = refl
  count-insert_at (suc n) new [] = refl
  count-insert_at (suc n) new (entry ∷ entries) = omega (arith, count-insert_at n new entries)

  count-remove_at :
      (n : ℕ) (entry : Fields) (entries : List Fields)
      → entry_at n entries ≡ some entry
      → (if p entry then 1 else 0) + count (remove_at n entries) ≡ count entries
  unfolding remove_at entry_at
  count-remove_at n entry [] h = absurd (cc)
  count-remove_at zero entry (e ∷ entries) h = let same : e ≡ entry = cc h in rw same refl
  count-remove_at (suc n) entry (e ∷ entries) h = omega (arith, count-remove_at n entry entries h)

  -- Fewer entries in one section.
  count-shrink :
      (section : String) (entries : List Fields) (board : Board) (m : ℕ)
      → m + count entries ≡ count (entries_in section board)
      → m + count_board (with_entries section entries board) ≡ count_board board
  unfolding with_entries entries_in
  count-shrink section entries board m h = elim (Bool-cases (str_eq section "left")) [
    | inl l ↦ rw l (omega (arith, rw l at h))
    | inr nl ↦ elim (Bool-cases (str_eq section "center")) [
      | inl c ↦ rw (nl, c) (omega (arith, rw (nl, c) at h))
      | inr nc ↦ elim (Bool-cases (str_eq section "right")) [
        | inl r ↦ rw (nl, nc, r) (omega (arith, rw (nl, nc, r) at h))
        | inr nr ↦ rw (nl, nc, nr) (omega (arith, rw (nl, nc, nr) at h))
      ]
    ]
  ]

  -- More entries in one of the three sections.
  count-grow :
      (section : String) (entries : List Fields) (board : Board) (m : ℕ)
      → is_member section sections ≡ true
      → count entries ≡ m + count (entries_in section board)
      → count_board (with_entries section entries board) ≡ m + count_board board
  unfolding with_entries entries_in
  count-grow section entries board m inside h = elim (Bool-cases (str_eq section "left")) [
    | inl l ↦ rw l (omega (arith, rw l at h))
    | inr nl ↦ elim (Bool-cases (str_eq section "center")) [
      | inl c ↦ rw (nl, c) (omega (arith, rw (nl, c) at h))
      | inr nc ↦ elim (Bool-cases (str_eq section "right")) [
        | inl r ↦ rw (nl, nc, r) (omega (arith, rw (nl, nc, r) at h))
        | inr nr ↦ absurd (outside section nl nc nr inside)
      ]
    ]
  ]

  -- What is taken off the board, and what is left of it.
  pub count-popped :
      (section : String) (at : ℕ) (new : Fields) (board : Board)
      → let (entry, rest) = popped (some (section, at)) new board in
        ((if p entry then 1 else 0) + count_board rest ≡ count_board board)
        ⊎ ((entry_at at (entries_in section board) ≡ none) × (entry ≡ new) × (rest ≡ board))
  unfolding popped
  count-popped section at new board = elim (Option-cases (entry_at at (entries_in section board))) [
    | inl n ↦ rw (popped, n) (inr (refl, refl, refl))
    | inr (entry, e) ↦
        rw (popped, e)
          (inl (
            count-shrink section (remove_at at (entries_in section board)) board
              (if p entry then 1 else 0) (count-remove_at at entry (entries_in section board) e)))
  ]

  pub count-insert_on :
      (section : String) (index : Value) (entry : Fields) (board after : Board)
      → is_member section sections ≡ true
      → insert_on (section, index) entry board ≡ ok after
      → count_board after ≡ (if p entry then 1 else 0) + count_board board
  unfolding insert_on
  count-insert_on section index entry board after inside h =
      let (at, _, h1) = bind-eq-ok (read_index index) _ h in
      let (_, h2) = passed _ _ _ h1 in
      of_ok (λ after. count_board after ≡ (if p entry then 1 else 0) + count_board board) h2
        (count-grow section (insert_at at entry (entries_in section board)) board
          (if p entry then 1 else 0) inside (count-insert_at at entry (entries_in section board)))
