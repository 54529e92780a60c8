-- ===== src/Calendar/Visited.antt =====
-- The names that the loop of `source_is_google` has not visited, counted.
use fedora_config.Base.{
  ℕ, ◌+◌, ◌≤◌, ◌<◌, arith, ◌≡◌, inl, inr, refl, true, false, Bool-cases, List, [], ◌∷◌, is_member,
  length, String, str_eq, eq_iff, if◌then◌else◌,
}

-- How many of the texts were not visited.
abbrev pub unvisited : List String → List String → ℕ
unvisited [] visited = 0
unvisited (k ∷ ks) visited = (if is_member k visited then 0 else 1) + unvisited ks visited

pub unvisited-le :
    (ks visited : List String) (u : String) → unvisited ks (u ∷ visited) ≤ unvisited ks visited
unfolding is_member
unvisited-le [] visited u = omega arith
unvisited-le (k ∷ ks) visited u = elim (Bool-cases (is_member k visited)) [
  | inl y ↦ elim (Bool-cases (str_eq u k)) [
    | inl s ↦ rw (y, s) (omega (arith, unvisited-le ks visited u))
    | inr d ↦ rw (d, y) (omega (arith, unvisited-le ks visited u))
  ]
  | inr n ↦ elim (Bool-cases (str_eq u k)) [
    | inl s ↦ rw (n, s) (omega (arith, unvisited-le ks visited u))
    | inr d ↦ rw (d, n) (omega (arith, unvisited-le ks visited u))
  ]
]

pub unvisited-length : (ks : List String) → unvisited ks [] ≡ length ks
unfolding is_member
unvisited-length [] = refl
unvisited-length (k ∷ ks) = omega (arith, unvisited-length ks)

pub unvisited-lt :
    (ks visited : List String) (u : String)
    → is_member u ks ≡ true
    → is_member u visited ≡ false
    → unvisited ks (u ∷ visited) < unvisited ks visited
unfolding is_member
unvisited-lt [] visited u m f = absurd (cc)
unvisited-lt (k ∷ ks) visited u m f = elim (Bool-cases (str_eq k u)) [
  | inl s ↦
      let same = (eq_iff k u).0 s in
      rw (same, f, (eq_iff u u).1 refl) (omega (arith, unvisited-le ks visited u))
  | inr d ↦
      let less = unvisited-lt ks visited u (rw d at m) f in
      elim (Bool-cases (is_member k visited)) [
        | inl y ↦ elim (Bool-cases (str_eq u k)) [
          | inl s ↦ rw (y, s) (omega (arith, less))
          | inr n ↦ rw (n, y) (omega (arith, less))
        ]
        | inr o ↦ elim (Bool-cases (str_eq u k)) [
          | inl s ↦ rw (o, s) (omega (arith, less))
          | inr n ↦ rw (n, o) (omega (arith, less))
        ]
      ]
]
