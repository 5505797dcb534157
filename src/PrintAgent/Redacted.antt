-- ===== src/PrintAgent/Redacted.antt =====
-- A task that is shown does not show the helper's password.
use shipping_core.Base.{
  ◌≡◌, refl, ◌∙◌, String, true, false, Option, none, some, is_some, Bool-cases, inl, inr,
}
use shipping_core.Base.Text.{str_eq}
use shipping_core.PrintAgent.Payload.{
  Json, bool, Fields, no_fields, field, get_field, put_field, delete_field,
}
use shipping_core.PrintAgent.Fields.{get-put_other, get-delete_other}
use shipping_core.PrintAgent.Login.{redact_fields, redact_print_payload}

get-delete_same : (k : String) (m : Fields) → get_field k (delete_field k m) ≡ none
get-delete_same k no_fields = refl
get-delete_same k (field j v m) = elim (Bool-cases (str_eq j k)) [
  | inl e ↦ rw e (get-delete_same k m)
  | inr e ↦ rw (e, e) (get-delete_same k m)
]

is_some-false : (v : Option Json) → is_some v ≡ false → v ≡ none
is_some-false none h = refl
is_some-false (some v) h = cc

redact_fields-password : (m : Fields) → get_field "kdzsPassword" (redact_fields m) ≡ none
redact_fields-password m = elim (Bool-cases (is_some (get_field "kdzsPassword" m))) [
  | inl e ↦ rw e (get-delete_same "kdzsPassword" (put_field "kdzsPasswordSet" (bool true) m))
  | inr e ↦ rw e (is_some-false (get_field "kdzsPassword" m) e)
]

redact_fields-other :
    (k : String) (m : Fields)
    → str_eq "kdzsPassword" k ≡ false
    → str_eq "kdzsPasswordSet" k ≡ false
    → get_field k (redact_fields m) ≡ get_field k m
redact_fields-other k m h h' = elim (Bool-cases (is_some (get_field "kdzsPassword" m))) [
  | inl e ↦ rw e (
      get-delete_other "kdzsPassword" k (put_field "kdzsPasswordSet" (bool true) m) h
      ∙ get-put_other "kdzsPasswordSet" k (bool true) m h')
  | inr e ↦ rw e refl
]

-- A print task is shown without the helper's password: what is shown of a payload that is a JSON
-- object is the text of an object without the field kdzsPassword, and every field but that one and
-- kdzsPasswordSet is as in the payload.
pub redact_print_payload-password :
    (unmarshal : String → Option Fields) (marshal : Fields → String) (raw k : String) (m : Fields)
    → unmarshal raw ≡ some m
    → str_eq "kdzsPassword" k ≡ false
    → str_eq "kdzsPasswordSet" k ≡ false
    → (shown : Fields) × (redact_print_payload unmarshal marshal raw ≡ marshal shown)
      × (get_field "kdzsPassword" shown ≡ none)
      × (get_field k shown ≡ get_field k m)
unfolding redact_print_payload
redact_print_payload-password unmarshal marshal raw k m read h h' =
    (redact_fields m, rw read refl, redact_fields-password m, redact_fields-other k m h h')
