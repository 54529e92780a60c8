-- ===== src/Plugins/Reordered.antt =====
-- What `move-widget` makes of the order of a section.
use fedora_config.Base.{
  ℕ, zero, suc, ◌+◌, ◌-◌, ◌≤◌, ◌<◌, ◌≡◌, ◌∙◌, refl, true, false, Bool-cases, inl, inr, none, some,
  Option, Option-cases, List, [], ◌∷◌, length, ltb, le_of_ltb-false, arith, tests, ◌⊎◌,
}
use fedora_config.Base.{String, str_eq, eq_iff}
use fedora_config.Plugins.Scan.{Widget}
use fedora_config.Plugins.Edit.{insert_at}
use fedora_config.Plugins.Widgets.{index_of, remove_widget, shifted, reorder}

same_key : (w : Widget) → str_eq w.key w.key ≡ true
same_key w = (eq_iff w.key w.key).1 refl

index_of-later :
    (key : String) (w : Widget) (ws : List Widget)
    → index_of key (w ∷ ws) ≡ none
    → (str_eq w.key key ≡ false) × (index_of key ws ≡ none)
unfolding index_of
index_of-later key w ws h = elim (Bool-cases (str_eq w.key key)) [
  | inl y ↦ absurd (cc (rw (index_of, y) at h))
  | inr n ↦ elim (Option-cases (index_of key ws)) [
    | inl e ↦ (n, e)
    | inr (k, e) ↦ absurd (cc (rw (index_of, n, e) at h))
  ]
]

-- A widget that was not there stands where it was put, and the others are as they were.
index_of-insert_at :
    (w : Widget) (n : ℕ) (ws : List Widget)
    → index_of w.key ws ≡ none
    → n ≤ length ws
    → index_of w.key (insert_at n w ws) ≡ some n
unfolding index_of insert_at
index_of-insert_at w zero ws h l = rw (same_key w) refl
index_of-insert_at w (suc n) [] h l = absurd (omega (arith, l))
index_of-insert_at w (suc n) (v ∷ ws) h l =
    let (other, later) = index_of-later w.key v ws h in
    rw (other, index_of-insert_at w n ws later (omega (arith, l))) refl

remove_widget-insert_at :
    (w : Widget) (n : ℕ) (ws : List Widget)
    → index_of w.key ws ≡ none
    → remove_widget w.key (insert_at n w ws) ≡ ws
unfolding remove_widget insert_at
remove_widget-insert_at w zero ws h = rw (same_key w) refl
remove_widget-insert_at w (suc n) [] h = rw (same_key w) refl
remove_widget-insert_at w (suc n) (v ∷ ws) h =
    let (other, later) = index_of-later w.key v ws h in
    rw (other, remove_widget-insert_at w n ws later) refl

-- Taking the widget out makes room for its index.
length-remove_widget :
    (key : String) (ws : List Widget)
    → ((index_of key ws ≡ none) × (length (remove_widget key ws) ≡ length ws))
      ⊎ ((n : ℕ) × (index_of key ws ≡ some n)
          × (n < length ws)
          × (length (remove_widget key ws) + 1 ≡ length ws))
unfolding index_of remove_widget
length-remove_widget key [] = inl (refl, refl)
length-remove_widget key (w ∷ ws) = elim (Bool-cases (str_eq w.key key)) [
  | inl y ↦ rw y (inr (0, refl, omega arith, omega arith))
  | inr q ↦ elim (length-remove_widget key ws) [
    | inl (e, l) ↦ rw (q, e) (inl (refl, omega (arith, l)))
    | inr (n, e, small, l) ↦ rw (q, e) (inr (suc n, refl, omega (arith, small), omega (arith, l)))
  ]
]

shifted-le :
    (key : String) (index : ℕ) (ws : List Widget)
    → index ≤ length ws
    → shifted (index_of key ws) index ≤ length (remove_widget key ws)
unfolding shifted
shifted-le key index ws h = elim (length-remove_widget key ws) [
  | inl (e, l) ↦ rw e (omega (arith, h, l))
  | inr (n, e, small, l) ↦ elim (Bool-cases (ltb n index)) [
    | inl y ↦ rw (e, shifted, y) (omega (tests, h, l, y))
    | inr q ↦ rw (e, shifted, q) (omega (arith, le_of_ltb-false n index q, small, l))
  ]
]

-- The place of the moved widget, of what its place was.
place-shifted :
    (old : Option ℕ) (index : ℕ) (now : Option ℕ)
    → now ≡ some (shifted old index)
    → (old ≡ none → now ≡ some index)
      × ((from : ℕ) → old ≡ some from → index ≤ from → now ≡ some index)
      × ((from : ℕ) → old ≡ some from → from < index → (n : ℕ) × (now ≡ some n) × (n + 1 ≡ index))
unfolding shifted
place-shifted none index now h = (λ _. h, λ from e. absurd (cc e), λ from e. absurd (cc e))
place-shifted (some old) index now h = elim (Bool-cases (ltb old index)) [
  | inl y ↦ (
    λ e. absurd (cc e),
    λ from e l. let same : old ≡ from = cc in absurd (omega (tests, y, l, same)),
    λ from e l. (index - 1, h ∙ rw (shifted, y) refl, omega (arith, l)),
  )
  | inr q ↦ (
    λ e. absurd (cc e),
    λ from e l. h ∙ rw (shifted, q) refl,
    λ from e l.
        let same : old ≡ from = cc in absurd (omega (arith, le_of_ltb-false old index q, l, same)),
  )
]

-- A widget that is dropped at an index of a section, among widgets with other keys, stands at that
-- index if it is new there or came from that index or behind, and one place earlier if it came from
-- before; the others keep their order.
pub reorder-keeps :
    (moving : Widget) (index : ℕ) (destination : List Widget)
    → index_of moving.key (remove_widget moving.key destination) ≡ none
    → index ≤ length destination
    → ((index_of moving.key destination ≡ none
          → index_of moving.key (reorder moving index destination) ≡ some index)
        × ((from : ℕ)
            → index_of moving.key destination ≡ some from
            → index ≤ from
            → index_of moving.key (reorder moving index destination) ≡ some index)
        × ((from : ℕ)
            → index_of moving.key destination ≡ some from
            → from < index
            → (n : ℕ) × (index_of moving.key (reorder moving index destination) ≡ some n)
              × (n + 1 ≡ index)))
      × (remove_widget moving.key (reorder moving index destination)
          ≡ remove_widget moving.key destination)
unfolding reorder
reorder-keeps moving index destination alone inside = (
  place-shifted _ index _
      (index_of-insert_at moving _ _ alone (shifted-le moving.key index destination inside)),
  remove_widget-insert_at moving _ _ alone,
)
