-- ===== src/PrintAgent/Fields.antt =====
-- The fields of an object after one of them was set or deleted.
use shipping_core.Base.{◌≡◌, refl, ap, String, false, some, List, [], ◌∷◌, Bool-cases, inl, inr}
use shipping_core.Base.Text.{str_eq, eq_iff}
use shipping_core.PrintAgent.Payload.{
  Json, Fields, no_fields, field, get_field, put_field, delete_field, objects_of, items_of,
}

pub get-put_same : (k : String) (v : Json) (m : Fields) → get_field k (put_field k v m) ≡ some v
get-put_same k v no_fields = rw ((eq_iff k k).1 refl) refl
get-put_same k v (field j u m) = elim (Bool-cases (str_eq j k)) [
  | inl e ↦ rw (e, (eq_iff k k).1 refl) refl
  | inr e ↦ rw (e, e) (get-put_same k v m)
]

pub get-put_other :
    (j k : String) (v : Json) (m : Fields)
    → str_eq j k ≡ false
    → get_field k (put_field j v m) ≡ get_field k m
get-put_other j k v no_fields h = rw h refl
get-put_other j k v (field i u m) h = elim (Bool-cases (str_eq i j)) [
  | inl e ↦ rw (e, h, (eq_iff i j).0 e, h) refl
  | inr e ↦ elim (Bool-cases (str_eq i k)) [
    | inl d ↦ rw (e, d) refl
    | inr d ↦ rw (e, d) (get-put_other j k v m h)
  ]
]

pub get-delete_other :
    (j k : String) (m : Fields)
    → str_eq j k ≡ false
    → get_field k (delete_field j m) ≡ get_field k m
get-delete_other j k no_fields h = refl
get-delete_other j k (field i u m) h = elim (Bool-cases (str_eq i j)) [
  | inl e ↦ rw (e, (eq_iff i j).0 e, h) (get-delete_other j k m h)
  | inr e ↦ elim (Bool-cases (str_eq i k)) [
    | inl d ↦ rw (e, d) refl
    | inr d ↦ rw (e, d) (get-delete_other j k m h)
  ]
]

pub objects-items : (os : List Fields) → objects_of (items_of os) ≡ os
objects-items [] = refl
objects-items (o ∷ os) = ap (λ rest. o ∷ rest) (objects-items os)
