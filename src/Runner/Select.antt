-- ===== src/Runner/Select.antt =====
-- What the list comprehensions of release_runner.py keep.
use fedora_config.Base.{
  ◌≡◌, ◌⊎◌, refl, sym, ◌∙◌, Bool, true, false, inl, inr, List, [], ◌∷◌, All, Result, ok,
  if◌then◌else◌,
}
use fedora_config.Base.Fallible.{bind-eq-ok, of_ok, ok_injective}
use fedora_config.Json.{Value}
use fedora_config.Runner.Job.{select}

-- The value is in the list.
abbrev pub IsIn : Value → List Value → Type 0
IsIn v [] = ⊥
IsIn v (w ∷ ws) = (v ≡ w) ⊎ IsIn v ws

pub select-IsIn :
    (p : Value → Result Bool) (vs found : List Value) (v : Value)
    → select p vs ≡ ok found
    → IsIn v found
    → IsIn v vs
unfolding select
select-IsIn p [] found v h i = absurd (of_ok (λ ws. IsIn v ws → ⊥) h (λ e. e) i)
select-IsIn p (w ∷ ws) found v h i =
    let (chosen, a, h1) = bind-eq-ok (p w) _ h in
    let (rest, b, h2) = bind-eq-ok (select p ws) _ h1 in
    let later : IsIn v rest → IsIn v ws = select-IsIn p ws rest v b in
    of_ok (λ ws'. IsIn v ws' → IsIn v (w ∷ ws)) h2 (split v w rest ws later chosen) i
  where
    split :
        (v w : Value) (rest ws : List Value)
        → (IsIn v rest → IsIn v ws)
        → (c : Bool) → IsIn v (if c then w ∷ rest else rest)
        → IsIn v (w ∷ ws)
    split v w rest ws later true (inl q) = inl q
    split v w rest ws later true (inr q) = inr (later q)
    split v w rest ws later false q = inr (later q)

-- Every other value fails the test.
pub select-All :
    (p : Value → Result Bool) (vs found : List Value)
    → select p vs ≡ ok found
    → All (λ v. p v ≡ ok true → IsIn v found) vs
unfolding select
select-All p [] found h = tt
select-All p (w ∷ ws) found h =
    let (chosen, a, h1) = bind-eq-ok (p w) _ h in
    let (rest, b, h2) = bind-eq-ok (select p ws) _ h1 in
    of_ok (λ found. All (λ v. p v ≡ ok true → IsIn v found) (w ∷ ws)) h2
      (
        λ e. rw (ok_injective (sym a ∙ e)) (inl refl),
        widen chosen w rest ws (select-All p ws rest b),
      )
  where
    widen :
        (c : Bool) (w : Value) (rest vs : List Value)
        → All (λ v. p v ≡ ok true → IsIn v rest) vs
        → All (λ v. p v ≡ ok true → IsIn v (if c then w ∷ rest else rest)) vs
    widen c w rest [] k = tt
    widen true w rest (v ∷ vs) (k, ks) = (λ e. inr (k e), widen true w rest vs ks)
    widen false w rest (v ∷ vs) (k, ks) = (k, widen false w rest vs ks)
