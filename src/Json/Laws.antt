-- ===== src/Json/Laws.antt =====
-- Laws of dict entries, in terms of one key.
use fedora_config.Base.{
  ◌≡◌, refl, arith, eq_iff, str_eq, String, if◌then◌else◌, ◌||◌, some, none, false, Bool-cases, inl,
  inr, sym,
}
use fedora_config.Json.{Value, Fields, end, field, get, has, put, remove, NodupFields}

pub get-put :
    (k j : String) (v : Value) (fs : Fields)
    → get j (put k v fs) ≡ (if str_eq k j then some v else get j fs)
unfolding get put
get-put k j v end = refl
get-put k j v (field i w rest) =
    ground (arith, eq_iff k j, eq_iff i k, eq_iff i j, get-put k j v rest)

pub get-remove :
    (k j : String) (fs : Fields) → get j (remove k fs) ≡ (if str_eq k j then none else get j fs)
unfolding get remove
get-remove k j end = ground arith
get-remove k j (field i w rest) =
    ground (arith, eq_iff k j, eq_iff i k, eq_iff i j, get-remove k j rest)

pub has-put :
    (k j : String) (v : Value) (fs : Fields) → has j (put k v fs) ≡ (str_eq k j || has j fs)
unfolding has put
has-put k j v end = refl
has-put k j v (field i w rest) =
    ground (arith, eq_iff k j, eq_iff i k, eq_iff i j, has-put k j v rest)

pub put-NodupFields :
    (k : String) (v : Value) (fs : Fields) → NodupFields fs → NodupFields (put k v fs)
unfolding put has
put-NodupFields k v end h = ground arith
put-NodupFields k v (field i w rest) h =
    ground (arith, eq_iff i k, eq_iff k i, put-NodupFields k v rest h.1, has-put k i v rest)

pub str_eq-flip : (a b : String) → str_eq b a ≡ false → str_eq a b ≡ false
str_eq-flip a b h = elim (Bool-cases (str_eq a b)) [
  | inl y ↦ absurd (cc (h, (eq_iff b a).1 (sym ((eq_iff a b).0 y))))
  | inr n ↦ n
]
