-- ===== src/Displays/Strict.antt =====
-- What `loads` of display-settings.py accepts: the tree itself, if no object repeats a key and no
-- literal NaN or Infinity stands in it.
use fedora_config.Base.{◌≡◌, refl, ap, ◌∙◌, inl, inr, ◌↔◌, false, arith, eq_iff, ◌||◌}
use fedora_config.Base.{Bool-cases, ok, String}
use fedora_config.Base.Fallible.{◌>>=◌, bind-eq-ok}
use fedora_config.Json.{Value, null, bool, int, float, infinite, constant, str, arr, obj}
use fedora_config.Json.Laws.{has-put}
use fedora_config.Json.{Items, nil, cons, Fields, end, field, has, put, NodupFields}
use fedora_config.Displays.Document.{reject_duplicates, hooks, hooks_items, hooks_fields}
use fedora_config.Displays.Host.{IsStrict, StrictItems, StrictFields}

-- Entries of the second behind those of the first.
join : Fields → Fields → Fields
join end gs = gs
join (field k v fs) gs = field k v (join fs gs)

put_new :
    (k : String) (v : Value) (fs : Fields) → has k fs ≡ false → put k v fs ≡ join fs (field k v end)
unfolding join has put
put_new k v end h = refl
put_new k v (field j w fs) h = ground (arith, put_new k v fs)

join_assoc : (fs gs ks : Fields) → join (join fs gs) ks ≡ join fs (join gs ks)
unfolding join
join_assoc end gs ks = refl
join_assoc (field k v fs) gs ks = ap (field k v) (join_assoc fs gs ks)

join_end : (fs : Fields) → join fs end ≡ fs
unfolding join
join_end end = refl
join_end (field k v fs) = ap (field k v) (join_end fs)

has-join : (k : String) (fs gs : Fields) → has k (join fs gs) ≡ (has k fs || has k gs)
unfolding join has
has-join k end gs = refl
has-join k (field j v fs) gs = ground (arith, has-join k fs gs)

-- No key of the pairs is in `result`.
abbrev Apart : Fields → Fields → Type 0
Apart result end = Unit
Apart result (field k v fs) = (has k result ≡ false) × Apart result fs

Apart-put :
    (k : String) (v : Value) (r fs : Fields) → Apart r fs → has k fs ≡ false → Apart (put k v r) fs
unfolding has
Apart-put k v r end h n = tt
Apart-put k v r (field j w fs) h n =
    (ground (arith, has-put k j v r, eq_iff j k, eq_iff k j), Apart-put k v r fs h.1 (ground arith))

Apart-of_put :
    (k : String) (v : Value) (r fs : Fields)
    → Apart (put k v r) fs
    → Apart r fs × (has k fs ≡ false)
unfolding has
Apart-of_put k v r end h = (tt, refl)
Apart-of_put k v r (field j w fs) h =
    let ih = Apart-of_put k v r fs h.1 in
    (
      (ground (arith, has-put k j v r), ih.0),
      ground (arith, has-put k j v r, eq_iff j k, eq_iff k j, ih.1),
    )

Apart-end : (fs : Fields) → Apart end fs
unfolding has
Apart-end end = tt
Apart-end (field k v fs) = (refl, Apart-end fs)

join-put :
    (k : String) (v : Value) (r fs : Fields)
    → has k r ≡ false
    → join (put k v r) fs ≡ join r (field k v fs)
unfolding join
join-put k v r fs h = rw (put_new k v r h) (rw join_assoc)

reject_duplicates_ok :
    (r fs : Fields) → Apart r fs → NodupFields fs → reject_duplicates r fs ≡ ok (obj (join r fs))
unfolding reject_duplicates
reject_duplicates_ok r end h n = rw join_end
reject_duplicates_ok r (field k v fs) h n = rw (
  h.0,
  reject_duplicates_ok (put k v r) fs (Apart-put k v r fs h.1 n.0) n.1,
  join-put k v r fs h.0,
)

reject_duplicates-inv :
    (r fs : Fields) {d : Value}
    → reject_duplicates r fs ≡ ok d
    → (d ≡ obj (join r fs)) × Apart r fs × NodupFields fs
unfolding reject_duplicates
reject_duplicates-inv r end h = (ground (arith, join_end r), tt, tt)
reject_duplicates-inv r (field k v fs) {d} h = elim (Bool-cases (has k r)) [
  | inl old ↦ absurd (cc (rw old at h))
  | inr new ↦
      let ih = reject_duplicates-inv (put k v r) fs {d = d} (rw new at h) in
      let apart = Apart-of_put k v r fs ih.1 in
      (ih.0 ∙ ap obj (join-put k v r fs new), (new, apart.0), (apart.1, ih.2))
]

accepted : (fs : Fields) → NodupFields fs → reject_duplicates end fs ≡ ok (obj fs)
unfolding join
accepted fs n = reject_duplicates_ok end fs (Apart-end fs) n

rejected :
    (fs gs : Fields) (d : Value)
    → gs ≡ fs
    → reject_duplicates end gs ≡ ok d
    → (d ≡ obj fs) × NodupFields fs
unfolding join
rejected fs gs d e h = let r = reject_duplicates-inv end fs {d = d} (rw e at h) in (r.0, r.2)

mutual
  unfolding hooks

  hooks_ok : (v : Value) → IsStrict v → hooks v ≡ ok v
  hooks_ok null h = refl
  hooks_ok (bool b) h = refl
  hooks_ok (int n) h = refl
  hooks_ok (float x) h = refl
  hooks_ok (infinite b) h = refl
  hooks_ok (constant s) h = absurd h
  hooks_ok (str s) h = refl
  hooks_ok (arr xs) h = rw (hooks_items_ok xs h)
  hooks_ok (obj fs) h = rw (hooks_fields_ok fs h.1) (accepted fs h.0)

  hooks_items_ok : (xs : Items) → StrictItems xs → hooks_items xs ≡ ok xs
  hooks_items_ok nil h = refl
  hooks_items_ok (cons x xs) h = rw (hooks_ok x h.0, hooks_items_ok xs h.1)

  hooks_fields_ok : (fs : Fields) → StrictFields fs → hooks_fields fs ≡ ok fs
  hooks_fields_ok end h = refl
  hooks_fields_ok (field k v fs) h = rw (hooks_ok v h.0, hooks_fields_ok fs h.1)

mutual
  unfolding hooks

  hooks-inv : (v d : Value) → hooks v ≡ ok d → (d ≡ v) × IsStrict v
  hooks-inv null d h = ground arith
  hooks-inv (bool b) d h = ground arith
  hooks-inv (int n) d h = ground arith
  hooks-inv (float x) d h = ground arith
  hooks-inv (infinite b) d h = ground arith
  hooks-inv (constant s) d h = absurd (cc)
  hooks-inv (str s) d h = ground arith
  hooks-inv (arr xs) d h =
      let (ys, e, q) = bind-eq-ok (hooks_items xs) (λ ys. ok (arr ys)) h in
      let ih = hooks_items-inv xs ys e in (cc (q, ih.0), ih.1)
  hooks-inv (obj fs) d h =
      let (gs, e, q) = bind-eq-ok (hooks_fields fs) (λ gs. reject_duplicates end gs) h in
      let ih = hooks_fields-inv fs gs e in let r = rejected fs gs d ih.0 q in (r.0, (r.1, ih.1))

  hooks_items-inv : (xs ys : Items) → hooks_items xs ≡ ok ys → (ys ≡ xs) × StrictItems xs
  hooks_items-inv nil ys h = ground arith
  hooks_items-inv (cons x xs) ys h =
      let (y, e, q) = bind-eq-ok (hooks x) (λ y. hooks_items xs >>= λ ys. ok (cons y ys)) h in
      let (zs, e', q') = bind-eq-ok (hooks_items xs) (λ ys. ok (cons y ys)) q in
      let hx = hooks-inv x y e in
      let hxs = hooks_items-inv xs zs e' in (cc (q', hx.0, hxs.0), (hx.1, hxs.1))

  hooks_fields-inv : (fs gs : Fields) → hooks_fields fs ≡ ok gs → (gs ≡ fs) × StrictFields fs
  hooks_fields-inv end gs h = ground arith
  hooks_fields-inv (field k v fs) gs h =
      let (w, e, q) = bind-eq-ok (hooks v) (λ w. hooks_fields fs >>= λ gs. ok (field k w gs)) h in
      let (gs', e', q') = bind-eq-ok (hooks_fields fs) (λ gs. ok (field k w gs)) q in
      let hv = hooks-inv v w e in
      let hfs = hooks_fields-inv fs gs' e' in (cc (q', hv.0, hfs.0), (hv.1, hfs.1))

-- A tree passes the hooks of `loads` exactly if no object in it repeats a key and it holds no
-- literal NaN or Infinity, and then it passes unchanged.
pub hooks_iff : (v d : Value) → (hooks v ≡ ok d) ↔ ((d ≡ v) × IsStrict v)
hooks_iff v d = (hooks-inv v d, λ h. rw (h.0) (hooks_ok v h.1))
