-- ===== src/Calendar/Google.antt =====
-- The loop of `source_is_google` ends, and finds what it looks for.
use fedora_config.Base.{
  ℕ, zero, suc, ◌<◌, arith, ◌≡◌, ◌⊎◌, inl, inr, refl, sym, ◌∙◌, ap, subst, Bool, true, false,
  Bool-cases, Option, none, some, List, [], ◌∷◌, is_member, length, String, str_eq, eq_iff,
}
use fedora_config.Calendar.Text.{text}
use fedora_config.Calendar.Sources.{
  Node, uid_of, is_google_name, is_google_node, parent_of, climb, source_is_google,
}
use fedora_config.Calendar.Visited.{unvisited, unvisited-length, unvisited-lt}

some_eq : {A : Type 0} {a b : A} → some a ≡ some b → a ≡ b
some_eq e = cc

module _ (registry : String → Option Node) (accounts : List String) (lower : String → String) where
  -- `m` is the source `n`, or a parent of it, or one of that, and so on.
  pub data Above : Node → Node → Type 0 where
    itself : {n : Node} → Above n n
    above : {n p m : Node} → parent_of registry accounts lower n ≡ some p → Above p m → Above n m

  -- The backend is Google's, or that of a source above.
  abbrev pub IsGoogle : Node → Option String → Type 0
  IsGoogle source backend =
      (is_google_name registry accounts lower backend ≡ true)
      ⊎ ((m : Node) × Above source m × (is_google_node registry accounts lower m ≡ true))

  module _ (known : List String)
      (finite : (k : String) (n : Node) → registry k ≡ some n → is_member k known ≡ true)
      (keyed : (k : String) (n : Node) → registry k ≡ some n → uid_of n ≡ k) where
    abbrev IsListed : Node → Type 0
    IsListed n = registry (uid_of n) ≡ some n

    parent-IsListed : (n p : Node) → parent_of registry accounts lower n ≡ some p → IsListed p
    unfolding parent_of
    parent-IsListed n p h = elim (Bool-cases (str_eq (text n.parent "" 500) "")) [
      | inl y ↦ absurd (cc (rw y at h))
      | inr d ↦
          let found : registry (text n.parent "" 500) ≡ some p = rw d at h in
          subst (λ k. registry k ≡ some p) (sym (keyed _ p found)) found
    ]

    -- What was visited is not Google's, and its parents were visited too or come next.
    abbrev IsSwept : List String → Option Node → Type 0
    IsSwept visited next =
        (v : String) (n : Node)
        → is_member v visited ≡ true
        → registry v ≡ some n
        → (is_google_node registry accounts lower n ≡ false)
          × ((p : Node)
              → parent_of registry accounts lower n ≡ some p
              → (is_member (uid_of p) visited ≡ true) ⊎ (next ≡ some p))

    member-here : (u : String) (us : List String) → is_member u (u ∷ us) ≡ true
    unfolding is_member
    member-here u us = rw ((eq_iff u u).1 refl) refl

    member-later :
        (u v : String) (us : List String) → is_member v us ≡ true → is_member v (u ∷ us) ≡ true
    unfolding is_member
    member-later u v us m = elim (Bool-cases (str_eq u v)) [ inl y ↦ rw y refl | inr d ↦ rw d m ]

    IsSwept-cons :
        (visited : List String) (n : Node)
        → IsListed n
        → is_google_node registry accounts lower n ≡ false
        → IsSwept visited (some n)
        → IsSwept (uid_of n ∷ visited) (parent_of registry accounts lower n)
    unfolding is_member
    IsSwept-cons visited n listed clear swept v m inside found =
        elim (Bool-cases (str_eq (uid_of n) v)) [
          | inl y ↦
              let own : uid_of n ≡ v = (eq_iff (uid_of n) v).0 y in
              let same : n ≡ m = some_eq (sym listed ∙ ap registry own ∙ found) in
              (
                subst (λ k. is_google_node registry accounts lower k ≡ false) same clear,
                λ p e. inr (ap (parent_of registry accounts lower) same ∙ e),
              )
          | inr d ↦
              let (dark, parents) = swept v m (rw d at inside) found in
              (
                dark,
                λ p e. elim (parents p e) [
                  | inl old ↦ inl (member-later (uid_of n) (uid_of p) visited old)
                  | inr now ↦ inl (
                      subst (λ q. is_member (uid_of q) (uid_of n ∷ visited) ≡ true) (some_eq now)
                        (member-here (uid_of n) visited))
                ],
              )
        ]

    -- The loop's answer, in the number of rounds that is enough.
    abbrev Answer : List String → Option Node → Option Bool → Type 0
    Answer visited next r =
        ((r ≡ some true)
          × ((n m : Node) × (next ≡ some n)
              × Above n m
              × (is_google_node registry accounts lower m ≡ true)))
        ⊎ ((r ≡ some false)
            × ((all : List String) × ((v : String)
                  → is_member v visited ≡ true
                  → is_member v all ≡ true)
                × ((n : Node) → next ≡ some n → is_member (uid_of n) all ≡ true)
                × IsSwept all none))

    climb-none :
        (fuel : ℕ) (visited : List String)
        → climb registry accounts lower fuel visited none ≡ some false
    unfolding climb
    climb-none zero visited = refl
    climb-none (suc fuel) visited = refl

    onward :
        (n : Node) (visited : List String) {r : Option Bool}
        → Answer (uid_of n ∷ visited) (parent_of registry accounts lower n) r
        → Answer visited (some n) r
    onward n visited (inl (e, (p, m, up, path, g))) = inl (e, (n, m, refl, above up path, g))
    onward n visited (inr (e, (all, more, next, swept))) = inr (
      e,
      (
        all,
        λ v inside. more v (member-later (uid_of n) v visited inside),
        λ m q.
            subst (λ k. is_member (uid_of k) all ≡ true) (some_eq q)
              (more (uid_of n) (member-here (uid_of n) visited)),
        swept,
      ),
    )

    climb-Answer :
        (fuel : ℕ) (visited : List String) (next : Option Node)
        → unvisited known visited < fuel
        → ((n : Node) → next ≡ some n → IsListed n)
        → IsSwept visited next
        → Answer visited next (climb registry accounts lower fuel visited next)
    unfolding climb
    climb-Answer fuel visited none enough listed swept = inr (
      climb-none fuel visited,
      (
        visited,
        λ v inside. inside,
        λ n e. absurd (cc e),
        λ v n inside found.
            let (dark, parents) = swept v n inside found in
            (dark, λ p e. elim (parents p e) [ inl old ↦ inl old | inr now ↦ absurd (cc now) ]),
      ),
    )
    climb-Answer zero visited (some n) enough listed swept = absurd (omega (arith, enough))
    climb-Answer (suc fuel) visited (some n) enough listed swept =
        elim (Bool-cases (is_member (uid_of n) visited)) [
          | inl y ↦
              rw (climb, y)
                (inr (
                  refl,
                  (
                    visited,
                    λ v inside. inside,
                    λ m e. subst (λ q. is_member (uid_of q) visited ≡ true) (some_eq e) y,
                    λ v m inside found.
                        let (dark, parents) = swept v m inside found in
                        (
                          dark,
                          λ p e. elim (parents p e) [
                            | inl old ↦ inl old
                            | inr now ↦
                                inl
                                  (subst (λ q. is_member (uid_of q) visited ≡ true) (some_eq now) y)
                          ],
                        ),
                  ),
                ))
          | inr d ↦ elim (Bool-cases (is_google_node registry accounts lower n)) [
            | inl g ↦ rw (climb, d, g) (inl (refl, (n, n, refl, itself, g)))
            | inr c ↦
                let own = listed n refl in
                rw (climb, d, c)
                  (onward n visited (
                    climb-Answer fuel (uid_of n ∷ visited) (parent_of registry accounts lower n)
                      (omega
                        (arith, enough, unvisited-lt known visited (uid_of n) (finite _ n own) d))
                      (λ p e. parent-IsListed n p e) (IsSwept-cons visited n own c swept)))
          ]
        ]

    -- Whatever is above a source that was visited was visited.
    Above-dark :
        (all : List String) (n m : Node)
        → IsSwept all none
        → Above n m
        → IsListed n
        → is_member (uid_of n) all ≡ true
        → is_google_node registry accounts lower m ≡ false
    Above-dark all n m swept itself listed inside = (swept (uid_of n) n inside listed).0
    Above-dark all n m swept (above {p = p} up path) listed inside =
        elim ((swept (uid_of n) n inside listed).1 p up) [
          | inl old ↦ Above-dark all p m swept path (parent-IsListed n p up) old
          | inr now ↦ absurd (cc now)
        ]

    -- In a registry of finitely many sources, each found under its uid, the loop ends, also where
    -- the parents go round in a circle, within one round more than there are sources; and its answer
    -- is whether the source's backend or a source above it, itself included, is Google's.
    pub source_is_google-decides :
        (source : Node) (backend : Option String)
        → registry (uid_of source) ≡ some source
        → (b : Bool) × (source_is_google registry accounts lower (suc (length known)) source backend
            ≡ some b)
          × (b ≡ true → IsGoogle source backend)
          × (IsGoogle source backend → b ≡ true)
    unfolding source_is_google is_member
    source_is_google-decides source backend listed =
        elim (Bool-cases (is_google_name registry accounts lower backend)) [
          | inl y ↦ (true, rw (source_is_google, y) refl, λ _. inl y, λ _. refl)
          | inr n ↦ by_climb n (
              climb-Answer (suc (length known)) [] (some source)
                (omega (arith, unvisited-length known)) (λ m e. subst IsListed (some_eq e) listed)
                (λ v m inside found. absurd (nothing_visited v inside)))
        ]
      where
        nothing_visited : (v : String) → is_member v [] ≡ true → ⊥
        nothing_visited v h = cc

        by_climb :
            is_google_name registry accounts lower backend ≡ false
            → Answer []
                (some source)
                (climb registry accounts lower (suc (length known)) [] (some source))
            → (b : Bool) × (source_is_google registry accounts lower
                  (suc (length known))
                  source
                  backend
                ≡ some b)
              × (b ≡ true → IsGoogle source backend)
              × (IsGoogle source backend → b ≡ true)
        by_climb n (inl (e, (p, m, q, path, g))) = (
          true,
          rw (source_is_google, n) e,
          λ _. inr (m, subst (λ k. Above k m) (sym (some_eq q)) path, g),
          λ _. refl,
        )
        by_climb n (inr (e, (all, _, next, swept))) = (
          false,
          rw (source_is_google, n) e,
          λ q. absurd (cc q),
          λ g. elim g [
            | inl y ↦ absurd (cc (n, y))
            | inr (m, path, y) ↦
                absurd (cc (y, Above-dark all source m swept path listed (next source refl)))
          ],
        )
