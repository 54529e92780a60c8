-- ===== src/Base/Action.antt =====
-- `do` blocks of actions on a state, and the properties of the state that an action keeps.
use mathlib.Core.Path.{◌≡◌, refl, ap}
use mathlib.Core.Bool.{Bool, true, false}
use fedora_config.Base.Tests.{if◌then◌else◌}
use fedora_config.Base.Errors.{
  Result, ok, raised, Exn, value_error, Exec, pure, raise, lift, gets, result, final,
}

-- `if test: raise error`
unfoldable pub refuse_if {ℓ} : {S : Type ℓ} → Bool → Exn → Exec S (Unit {0})
refuse_if true e s = (raised e, s)
refuse_if false e s = (ok tt, s)

module _ {ℓ κ} {S A : Type ℓ} {B : Type κ} where
  abbrev pub continue : Result A → (A → Exec S B) → Exec S B
  continue (ok a) f s = f a s
  continue (raised e) f s = (raised e, s)

  infixl 5 ◌>>=◌
  -- Opening this opens the actions above too.
  unfoldable pub ◌>>=◌ : Exec S A → (A → Exec S B) → Exec S B
  unfolding pure raise lift gets refuse_if
  ◌>>=◌ m f s = let (r, s') = m s in continue r f s'

  infixl 5 ◌>>◌
  abbrev pub ◌>>◌ : Exec S A → Exec S B → Exec S B
  ◌>>◌ m k = m >>= λ _. k

abbrev forgive : Result (Unit {0}) → Result (Unit {0})
forgive (raised (value_error e)) = ok tt
forgive r = r

module _ {S : Type 0} where
  abbrev after_value_error : Result (Unit {0}) → Exec S (Unit {0}) → Exec S (Unit {0})
  after_value_error (raised (value_error e)) handler = handler >>= λ _. raise (value_error e)
  after_value_error r handler = lift r

  -- `try: m; except ValueError: handler; raise`
  unfoldable pub on_value_error : Exec S (Unit {0}) → Exec S (Unit {0}) → Exec S (Unit {0})
  unfolding ◌>>=◌
  on_value_error m handler s = let (r, s') = m s in after_value_error r handler s'

  -- `try: m; except ValueError: pass`
  unfoldable pub ignore_value_error : Exec S (Unit {0}) → Exec S (Unit {0})
  ignore_value_error m s = let (r, s') = m s in (forgive r, s')

-- `m` keeps `P`, whether it returns or raises.
pub record Keeps {S A : Type 0} (P : S → Type 0) (m : Exec S A) : Type 0 where
  pub at : (s : S) → P s → P (m s).1

module _ {S A : Type 0} {P : S → Type 0} where
  -- What leaves the state alone keeps every property of it.
  pub Keeps-gets : (f : S → A) → Keeps P (gets f)
  unfolding gets
  Keeps-gets f = record { at = λ s p. p }

  pub Keeps-raise : (e : Exn) → Keeps P (raise {A = A} e)
  unfolding raise
  Keeps-raise e = record { at = λ s p. p }

  pub Keeps-pure : (a : A) → Keeps P (pure a)
  unfolding pure
  Keeps-pure a = record { at = λ s p. p }

  pub Keeps-lift : (r : Result A) → Keeps P (lift r)
  unfolding lift
  Keeps-lift r = record { at = λ s p. p }

  pub Keeps-if : (b : Bool) (m n : Exec S A) → Keeps P m → Keeps P n → Keeps P (if b then m else n)
  Keeps-if true m n km kn = km
  Keeps-if false m n km kn = kn

  -- An action that is chosen by the state.
  pub Keeps-read : (f : S → Exec S A) → ((s : S) → Keeps P (f s)) → Keeps P (λ s. f s s)
  Keeps-read f k = record { at = λ s h. (k s).at s h }

module _ {S : Type 0} {P : S → Type 0} where
  pub Keeps-refuse_if : (b : Bool) (e : Exn) → Keeps P (refuse_if b e)
  unfolding refuse_if
  Keeps-refuse_if true e = record { at = λ s h. h }
  Keeps-refuse_if false e = record { at = λ s h. h }

module _ {S A B : Type 0} {P : S → Type 0} where
  continue-Keeps :
      (r : Result A) (f : A → Exec S B)
      → ((a : A) → Keeps P (f a))
      → (s : S) → P s
      → P (continue r f s).1
  continue-Keeps (ok a) f kf s h = (kf a).at s h
  continue-Keeps (raised e) f kf s h = h

  pub Keeps-bind :
      (first : Exec S A) (next : A → Exec S B)
      → Keeps P first
      → ((a : A) → Keeps P (next a))
      → Keeps P (first >>= next)
  unfolding ◌>>=◌
  Keeps-bind first next kf kn = record {
    at = λ s p. continue-Keeps (first s).0 next kn (first s).1 (kf.at s p);
  }

module _ {S : Type 0} {P : S → Type 0} where
  after_value_error-Keeps :
      (r : Result (Unit {0})) (k : Exec S (Unit {0})) → Keeps P k → Keeps P (after_value_error r k)
  after_value_error-Keeps (raised (value_error e)) k kk = Keeps-bind k _ kk (λ _. Keeps-raise _)
  after_value_error-Keeps _ k kk = Keeps-lift _

  pub Keeps-on_value_error :
      (m k : Exec S (Unit {0})) → Keeps P m → Keeps P k → Keeps P (on_value_error m k)
  unfolding on_value_error
  Keeps-on_value_error m k km kk = record {
    at = λ s h. (after_value_error-Keeps (m s).0 k kk).at (m s).1 (km.at s h);
  }

  pub Keeps-ignore_value_error :
      (m : Exec S (Unit {0})) → Keeps P m → Keeps P (ignore_value_error m)
  unfolding ignore_value_error
  Keeps-ignore_value_error m km = record { at = λ s h. km.at s h }

pub ruleset keeps_rules = (
  Keeps-pure, Keeps-raise, Keeps-lift, Keeps-gets, Keeps-if, Keeps-refuse_if, Keeps-bind,
  Keeps-on_value_error, Keeps-ignore_value_error,
)

module _ {S A B : Type 0} where
  continue-eq-ok :
      (r : Result A) (t : S) (f : A → Exec S B) (b : B) (s' : S)
      → continue r f t ≡ (ok b, s')
      → (a : A) × (r ≡ ok a) × (f a t ≡ (ok b, s'))
  continue-eq-ok (ok a) t f b s' e = (a, refl, e)
  continue-eq-ok (raised x) t f b s' e = absurd (cc (ap (λ (p : Result B × S). p.0) e))

  -- What a `do` block that returned went through.
  pub bind-eq-ok :
      (m : Exec S A) (f : A → Exec S B) (s : S) (b : B) (s' : S)
      → (m >>= f) s ≡ (ok b, s')
      → (a : A) × (t : S) × (m s ≡ (ok a, t)) × (f a t ≡ (ok b, s'))
  unfolding ◌>>=◌
  bind-eq-ok m f s b s' e =
      let (a, p, q) = continue-eq-ok (m s).0 (m s).1 f b s' e in
      (a, (m s).1, λ i. (p i, (m s).1), q)

  -- The same for a step that only computes.
  pub bind_lift-eq-ok :
      (r : Result A) (f : A → Exec S B) (s : S) (b : B) (s' : S)
      → (lift r >>= f) s ≡ (ok b, s')
      → (a : A) × (r ≡ ok a) × (f a s ≡ (ok b, s'))
  unfolding ◌>>=◌
  bind_lift-eq-ok (ok a) f s b s' e = (a, refl, e)
  bind_lift-eq-ok (raised x) f s b s' e = absurd (cc (ap result e))

  -- An action that ends in a `raise` does not return.
  pub raise-ne_ok :
      (m : Exec S A) (x : Exn) (s : S) (b : B) (v : S) → (m >>= λ _. raise x) s ≡ (ok b, v) → ⊥
  unfolding raise
  raise-ne_ok m x s b v e = let (a, t, p, q) = bind-eq-ok m _ s b v e in cc (ap result q)

module _ {S : Type 0} where
  after_value_error-ok :
      (r : Result (Unit {0})) (k : Exec S (Unit {0})) (s v : S)
      → after_value_error r k s ≡ (ok tt, v)
      → (r ≡ ok tt) × (s ≡ v)
  unfolding lift
  after_value_error-ok (ok u) k s v e = (ap result e, ap final e)
  after_value_error-ok (raised (value_error x)) k s v e = absurd (raise-ne_ok k _ s tt v e)
  after_value_error-ok (raised _) k s v e = absurd (cc (ap result e))

  pub on_value_error-ok :
      (m k : Exec S (Unit {0})) (s v : S) → on_value_error m k s ≡ (ok tt, v) → m s ≡ (ok tt, v)
  unfolding on_value_error
  on_value_error-ok m k s v e =
      let (p, q) = after_value_error-ok (m s).0 k (m s).1 v e in λ i. (p i, q i)
