-- ===== src/Packages/Laws.antt =====
-- Lookups in the packages directory after an entry was put there or dropped.
use fedora_config.Base.{
  ◌≡◌, inl, inr, refl, sym, ◌∙◌, ap, Bool, true, false, Bool-cases, none, some, [], ◌∷◌, String,
  str_eq, eq_iff, if◌then◌else◌,
}
use fedora_config.Packages.Store.{Entry, Entries, lookup, put_entry, drop_entry}

module _ {Tree : Type 0} where
  pub lookup-put_entry :
      (k id : String) (entry : Entry Tree) (es : Entries Tree)
      → lookup k (put_entry id entry es) ≡ (if str_eq id k then some entry else lookup k es)
  unfolding lookup put_entry
  lookup-put_entry k id entry [] = refl
  lookup-put_entry k id entry ((name, old) ∷ rest) = elim (Bool-cases (str_eq name id)) [
    | inl y ↦ rw (y, (eq_iff name id).0 y) (if_same (str_eq id k))
    | inr n ↦ elim (Bool-cases (str_eq name k)) [
      | inl y ↦ rw (n, y) (other_name y n)
      | inr d ↦ rw (n, d) (lookup-put_entry k id entry rest)
    ]
  ]
    where
      if_same :
          (b : Bool)
          → (if b then some entry else lookup k rest)
            ≡ (if b then some entry else (if b then some old else lookup k rest))
      if_same true = refl
      if_same false = refl

      other_name :
          str_eq name k ≡ true
          → str_eq name id ≡ false
          → some old ≡ (if str_eq id k then some entry else some old)
      other_name y n = elim (Bool-cases (str_eq id k)) [
        | inl e ↦
            absurd (cc (((eq_iff name id).1 ((eq_iff name k).0 y ∙ sym ((eq_iff id k).0 e))), n))
        | inr d ↦ rw d refl
      ]

  -- Putting a new entry and dropping it changes nothing.
  pub drop_entry-put_entry :
      (id : String) (entry : Entry Tree) (es : Entries Tree)
      → lookup id es ≡ none
      → drop_entry id (put_entry id entry es) ≡ es
  unfolding lookup put_entry drop_entry
  drop_entry-put_entry id entry [] h = rw ((eq_iff id id).1 refl) refl
  drop_entry-put_entry id entry ((name, old) ∷ rest) h = elim (Bool-cases (str_eq name id)) [
    | inl y ↦ absurd (cc (rw y at h))
    | inr n ↦
        rw (n, n) (ap (λ es. (name, old) ∷ es) (drop_entry-put_entry id entry rest (rw n at h)))
  ]
