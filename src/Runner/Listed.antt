-- ===== src/Runner/Listed.antt =====
-- Which registration `owned_runner` of release_runner.py finds in a listing.
use fedora_config.Base.{
  ◌≡◌, refl, ◌∙◌, ap, subst, Bool, true, inl, inr, Option, none, some, List, [], ◌∷◌, All, String,
  eq_iff, Result, ok, raised, key_error, false, if◌then◌else◌,
}
use fedora_config.Base.Fallible.{bind-eq-ok, ok_injective}
use fedora_config.Json.{Value, str, obj, Fields, get, or_null, is_text}
use fedora_config.Runner.Job.{as_answer, select}
use fedora_config.Runner.Reviewed.{text_of, as_answer-obj}
use fedora_config.Runner.Github.{field_of, is_named, identifier_of, find_owned}
use fedora_config.Runner.Select.{IsIn, select-IsIn, select-All}

-- The entry has the name.
abbrev pub HasName : String → Value → Type 0
HasName name v = (fields : Fields) × (v ≡ obj fields) × (get "name" fields ≡ some (str name))

-- The entry of the list with the name, alone, has the identifier.
pub record IsOnly (name : String) (runners : List Value) (id : Value) : Type 0 where
  pub runner : Value
  pub fields : Fields
  pub listed : IsIn runner runners
  pub named : HasName name runner
  pub object : runner ≡ obj fields
  pub identifier : get "id" fields ≡ some id
  pub alone : All (λ other. HasName name other → other ≡ runner) runners

HasName-is_named : (name : String) (v : Value) → HasName name v → is_named name v ≡ ok true
unfolding is_named as_answer or_null is_text
HasName-is_named name v (fields, object, named) = rw (object, named, (eq_iff name name).1 refl) refl

is_named-HasName : (name : String) (v : Value) → is_named name v ≡ ok true → HasName name v
unfolding is_named
is_named-HasName name v h =
    let (fields, a, h1) = bind-eq-ok (as_answer v) _ h in
    (fields, as_answer-obj v fields a, text_of _ name (ok_injective h1))

-- What is selected passes the test.
select-passes :
    (p : Value → Result Bool) (vs found : List Value)
    → select p vs ≡ ok found
    → All (λ v. p v ≡ ok true) found
unfolding select
select-passes p [] found h = subst (All (λ v. p v ≡ ok true)) (ok_injective h) tt
select-passes p (w ∷ ws) found h =
    let (chosen, a, h1) = bind-eq-ok (p w) _ h in
    let (rest, b, h2) = bind-eq-ok (select p ws) _ h1 in
    subst (All (λ v. p v ≡ ok true)) (ok_injective h2)
      (by_test chosen rest a (select-passes p ws rest b))
  where
    by_test :
        (c : Bool) (rest : List Value)
        → p w ≡ ok c
        → All (λ v. p v ≡ ok true) rest
        → All (λ v. p v ≡ ok true) (if c then w ∷ rest else rest)
    by_test true rest a k = (a, k)
    by_test false rest a k = k

field_of-eq :
    (v id : Value)
    → field_of "id" v ≡ ok id
    → (fields : Fields) × (v ≡ obj fields) × (get "id" fields ≡ some id)
unfolding field_of
field_of-eq (obj fields) id h = (fields, refl, by_entry (get "id" fields) h)
  where
    by_entry :
        (o : Option Value)
        → elim o [ none ↦ raised key_error | some v ↦ ok v ] ≡ ok id
        → o ≡ some id
    by_entry none e = absurd (cc)
    by_entry (some v) e = ap (λ (x : Value). some x) (ok_injective e)
field_of-eq _ id h = absurd (cc)

pub find_owned-IsOnly :
    (name : String) (runners : List Value) (id : Value)
    → find_owned name runners ≡ ok (some id)
    → IsOnly name runners id
unfolding find_owned identifier_of
find_owned-IsOnly name runners id h =
    let (found, chosen, h1) = bind-eq-ok (select (is_named name) runners) _ h in
    by_found found chosen h1
  where
    single :
        (v : Value) (vs : List Value)
        → All (λ w. is_named name w ≡ ok true → IsIn w (v ∷ [])) vs
        → All (λ w. HasName name w → w ≡ v) vs
    single v [] k = tt
    single v (w ∷ ws) (k, ks) = (
      λ named. elim (k (HasName-is_named name w named)) [ inl q ↦ q | inr q ↦ absurd q ],
      single v ws ks,
    )

    by_found :
        (found : List Value)
        → select (is_named name) runners ≡ ok found
        → identifier_of found ≡ ok (some id)
        → IsOnly name runners id
    by_found [] chosen e = absurd (cc)
    by_found (v ∷ w ∷ rest) chosen e = absurd (cc)
    by_found (v ∷ []) chosen e =
        let (id', read, e1) = bind-eq-ok (field_of "id" v) _ e in
        let same : id' ≡ id = cc in
        let (fields, object, got) = field_of-eq v id (read ∙ ap (λ (x : Value). ok x) same) in
        let (passes, _) = select-passes (is_named name) runners (v ∷ []) chosen in
        record {
          runner = v;
          fields = fields;
          listed = select-IsIn (is_named name) runners (v ∷ []) v chosen (inl refl);
          named = is_named-HasName name v passes;
          object = object;
          identifier = got;
          alone = single v runners (select-All (is_named name) runners (v ∷ []) chosen);
        }
