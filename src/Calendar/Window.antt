-- ===== src/Calendar/Window.antt =====
-- `parse_range` of calendar-events.py.
use fedora_config.Base.{
  ℕ, ◌+◌, ◌<◌, ◌≤◌, leb, ltb, arith, ℤ, pos, negsuc, Option, none, some, List, [], ◌∷◌, ◌≡◌, ◌↔◌,
  refl, ap, ◌∙◌, inl, inr, Option-cases,
}
use fedora_config.Base.{String, if◌then◌else◌, Result, ok, raised, value_error}
use fedora_config.Base.Fallible.{◌>>=◌, not_refused, of_ok, bind-eq-ok}

abbrev pub max_range : ℕ
max_range = 31968000

-- `int(value)`, where `read` says what a text is as a number.
unfoldable pub read_int : (String → Option ℤ) → String → Result ℤ
read_int read s = elim (read s) [
  | none ↦ raised (value_error "invalid literal for int()")
  | some n ↦ ok n
]

unfoldable pub check_window : ℤ → ℤ → Result (ℕ × ℕ)
check_window (pos start) (pos end) =
    if leb end start
    then raised (value_error "the event window is not valid")
    else if ltb (start + max_range) end
    then raised (value_error "the event window is larger than 370 days")
    else ok (start, end)
check_window start end = raised (value_error "the event window is not valid")

unfoldable pub parse_range : (String → Option ℤ) → List String → Result (ℕ × ℕ)
parse_range read (first ∷ second ∷ []) =
    read_int read first >>= λ start. read_int read second >>= λ end. check_window start end
parse_range read arguments = raised (value_error "expected a start and end Unix timestamp")

check_window-bounds :
    (start end : ℤ) (window : ℕ × ℕ)
    → check_window start end ≡ ok window
    → (window.0 < window.1) × (window.1 ≤ window.0 + max_range)
unfolding check_window
check_window-bounds (pos start) (pos end) window h =
    let (later, h1) = not_refused (leb end start) _ _ h in
    let (near, same) = not_refused (ltb (start + max_range) end) _ _ h1 in
    of_ok (λ (w : ℕ × ℕ). (w.0 < w.1) × (w.1 ≤ w.0 + max_range)) same (ground (arith, later, near))
check_window-bounds (pos start) (negsuc end) window h = absurd (cc)
check_window-bounds (negsuc start) end window h = absurd (cc)

parse_range-bounds :
    (read : String → Option ℤ) (arguments : List String) (window : ℕ × ℕ)
    → parse_range read arguments ≡ ok window
    → (window.0 < window.1) × (window.1 ≤ window.0 + max_range)
unfolding parse_range
parse_range-bounds read (first ∷ second ∷ []) window h =
    let (start, _, h1) = bind-eq-ok (read_int read first) _ h in
    let (end, _, h2) = bind-eq-ok (read_int read second) _ h1 in
    check_window-bounds start end window h2
parse_range-bounds read [] window h = absurd (cc)
parse_range-bounds read (first ∷ []) window h = absurd (cc)
parse_range-bounds read (first ∷ second ∷ third ∷ rest) window h = absurd (cc)

check_window-ok :
    (start end : ℕ)
    → start < end
    → end ≤ start + max_range
    → check_window (pos start) (pos end) ≡ ok (start, end)
unfolding check_window
check_window-ok start end later near = ground (arith, later, near)

check_window-same :
    (start end : ℤ) (window : ℕ × ℕ)
    → check_window start end ≡ ok window
    → (start ≡ pos window.0) × (end ≡ pos window.1)
unfolding check_window
check_window-same (pos start) (pos end) window h =
    let (later, h1) = not_refused (leb end start) _ _ h in
    let (near, same) = not_refused (ltb (start + max_range) end) _ _ h1 in
    of_ok (λ (w : ℕ × ℕ). (pos start ≡ pos w.0) × (pos end ≡ pos w.1)) same (refl, refl)
check_window-same (pos start) (negsuc end) window h = absurd (cc)
check_window-same (negsuc start) end window h = absurd (cc)

read_int-ok :
    (read : String → Option ℤ) (s : String) (n : ℤ) → read_int read s ≡ ok n → read s ≡ some n
unfolding read_int
read_int-ok read s n h = elim (Option-cases (read s)) [
  | inl none_read ↦ absurd (cc (rw (read_int, none_read) at h))
  | inr (m, found) ↦ found ∙ ap some (ok_eq (rw (read_int, found) at h))
]
  where
    ok_eq : {a b : ℤ} → ok a ≡ ok b → a ≡ b
    ok_eq e = cc

read_int-some :
    (read : String → Option ℤ) (s : String) (n : ℤ) → read s ≡ some n → read_int read s ≡ ok n
unfolding read_int
read_int-some read s n h = rw (read_int, h) refl

-- Two texts that are read as the window's start and end, with the end later and not too late.
abbrev pub AreWindow : (String → Option ℤ) → List String → ℕ × ℕ → Type 0
AreWindow read (first ∷ second ∷ []) (start, end) =
    (read first ≡ some (pos start))
    × (read second ≡ some (pos end))
    × (start < end)
    × (end ≤ start + max_range)
AreWindow read arguments window = ⊥

parse_range-AreWindow :
    (read : String → Option ℤ) (arguments : List String) (window : ℕ × ℕ)
    → parse_range read arguments ≡ ok window
    → AreWindow read arguments window
unfolding parse_range
parse_range-AreWindow read (first ∷ second ∷ []) window h =
    let (start, a, h1) = bind-eq-ok (read_int read first) _ h in
    let (end, b, h2) = bind-eq-ok (read_int read second) _ h1 in
    let (s, e) = check_window-same start end window h2 in
    let (later, near) = parse_range-bounds read (first ∷ second ∷ []) window h in
    (read_int-ok read first _ a ∙ ap some s, read_int-ok read second _ b ∙ ap some e, later, near)
parse_range-AreWindow read [] window h = absurd (cc)
parse_range-AreWindow read (first ∷ []) window h = absurd (cc)
parse_range-AreWindow read (first ∷ second ∷ third ∷ rest) window h = absurd (cc)

AreWindow-parse_range :
    (read : String → Option ℤ) (arguments : List String) (window : ℕ × ℕ)
    → AreWindow read arguments window
    → parse_range read arguments ≡ ok window
unfolding parse_range
AreWindow-parse_range read (first ∷ second ∷ []) window (a, b, later, near) =
    rw (read_int-some read first _ a, read_int-some read second _ b)
      (check_window-ok window.0 window.1 later near)
AreWindow-parse_range read [] window h = absurd h
AreWindow-parse_range read (first ∷ []) window h = absurd h
AreWindow-parse_range read (first ∷ second ∷ third ∷ rest) window h = absurd h

-- The arguments are accepted as a window exactly if they are two texts that are read as its start
-- and its end, which are not negative, the window is not empty, and it is not longer than 370 days.
pub parse_range_iff :
    (read : String → Option ℤ) (arguments : List String) (window : ℕ × ℕ)
    → (parse_range read arguments ≡ ok window) ↔ AreWindow read arguments window
parse_range_iff read arguments window =
    (parse_range-AreWindow read arguments window, AreWindow-parse_range read arguments window)
