-- ===== src/PrintAgent/Login.antt =====
-- The login that a print task is given (resolvePrintLogin), and what a task shows of its payload
-- (redactPrintPayload). `unmarshal` is `json.Unmarshal` into an object, `marshal` is `json.Marshal`.
use shipping_core.Base.{
  ℕ, String, Bool, true, false, ◌&&◌, ◌||◌, Option, none, some, List, ◌==◌, ltb, if◌then◌else◌,
  filter, is_some,
}
use shipping_core.Base.Int.{ℤ, ltb_ℤ}
use shipping_core.Base.Text.{is_empty, trim_space, str_eq}
use shipping_core.Base.Table.{first}
use shipping_core.Base.Order.{order_by, head_of}
use shipping_core.Errors.{Result, ok, err, bad_request}
use shipping_core.PrintAgent.State.{KdzsSetting}
use shipping_core.PrintAgent.Payload.{bool, Fields, get_field, put_field, delete_field}

pub record KdzsAccount : Type 0 where
  pub id : ℕ
  pub tenant_id : ℕ
  pub code : String
  pub name : String
  pub role : String
  pub mobile : String
  pub password : String
  pub sort_order : ℤ
  pub enabled : Bool
  pub source : String

pub record PrintLogin : Type 0 where
  pub mobile : String
  pub password : String
  pub code : String
  pub name : String

abbrev or_text : String → String → String
or_text fallback s = if is_empty s then fallback else s

-- The code that the tenant's setting names.
abbrev setting_code : Option KdzsSetting → String
setting_code none = ""
setting_code (some st) =
    or_text (trim_space st.default_account_code) (trim_space st.active_account_code)

-- `Order("sort_order ASC, id ASC")`
abbrev pub account_before : KdzsAccount → KdzsAccount → Bool
account_before a b =
    if ltb_ℤ a.sort_order b.sort_order
    then true
    else if ltb_ℤ b.sort_order a.sort_order
    then false
    else ltb a.id b.id

abbrev account_code : Option KdzsAccount → String
account_code none = ""
account_code (some a) = a.code

abbrev pub is_usable : ℕ → KdzsAccount → Bool
is_usable tenant a = a.tenant_id == tenant && a.enabled

-- The code of the account: the one asked for, the setting's, or the first enabled account's.
unfoldable pub login_code : ℕ → String → List KdzsSetting → List KdzsAccount → String
login_code tenant asked settings accounts =
    let set = setting_code (first (λ (st : KdzsSetting). st.tenant_id == tenant) settings) in
    let any =
      account_code (head_of (order_by account_before (filter (is_usable tenant) accounts))) in
    or_text (or_text any set) (trim_space asked)

abbrev pub login_of : Option KdzsAccount → Result PrintLogin
login_of none = err bad_request
login_of (some a) =
    if is_empty (trim_space a.mobile) || is_empty a.password
    then err bad_request
    else ok (record {
      mobile = trim_space a.mobile;
      password = a.password;
      code = a.code;
      name = or_text (trim_space a.mobile) (trim_space a.name);
    })

abbrev pub has_code : ℕ → String → KdzsAccount → Bool
has_code tenant code' a = is_usable tenant a && str_eq a.code code'

unfoldable pub resolve_print_login :
    ℕ → String → List KdzsSetting → List KdzsAccount → Result PrintLogin
resolve_print_login tenant asked settings accounts =
    let code' = login_code tenant asked settings accounts in
    if is_empty code' then err bad_request else login_of (first (has_code tenant code') accounts)

abbrev pub redact_fields : Fields → Fields
redact_fields m =
    if is_some (get_field "kdzsPassword" m)
    then delete_field "kdzsPassword" (put_field "kdzsPasswordSet" (bool true) m)
    else m

module _ (unmarshal : String → Option Fields) (marshal : Fields → String) where
  abbrev redact_read : String → Option Fields → String
  redact_read raw none = raw
  redact_read raw (some m) = marshal (redact_fields m)

  unfoldable pub redact_print_payload : String → String
  redact_print_payload raw = redact_read raw (unmarshal raw)
