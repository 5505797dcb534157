-- ===== src/PrintAgent/AutoConfirm.antt =====
-- A print task that is done confirms the shipping of its order (maybeAutoConfirmShip). Outside are:
-- whether a token can be issued, the reading of JSON (`unmarshal` into an object, `read_order` of a
-- value as an order), and the jobs that the agents' centre answers with.
use shipping_core.Base.{
  ℕ, zero, suc, String, Bool, true, false, not, ◌&&◌, ◌||◌, Option, none, some, List, ◌==◌,
  if◌then◌else◌,
}
use shipping_core.Base.Text.{is_empty, trim_space, str_eq, str_contains}
use shipping_core.Base.Table.{update_where}
use shipping_core.Errors.{Err, order_core, Result, ok, err}
use shipping_core.Plan.Rows.{PlanTable}
use shipping_core.Shipment.Model.{Shipment}
use shipping_core.Shipment.World.{Outside, World, Answer}
use shipping_core.Shipment.Snapshot.{OrderSnapshotDto}
use shipping_core.Shipment.Confirm.{
  ConfirmKdzsShipDto, is_order_already_shipped_err, confirm_kdzs_ship,
}
use shipping_core.PrintAgent.State.{
  TaskStatus, pending, claimed, done, failed, cancelled, PrintTask,
}
use shipping_core.PrintAgent.Payload.{
  Json, null, text, array, object, no_items, item, Fields, get_field,
}
use shipping_core.PrintAgent.Numbers.{parse_payload_uint64, payload_bool, parse_mail_no_from_result}

-- The times are what the texts read as, none where they are absent or no times.
pub record JobStatus : Type 0 where
  pub id : ℕ
  pub status : String
  pub error_message : String
  pub result_json : String
  pub started_at : Option ℕ
  pub finished_at : Option ℕ

pub record SyncState : Type 0 where
  pub tasks : List PrintTask
  pub world : World
  pub plans : PlanTable

pub record SyncOutside : Type 0 where
  pub order_centre : Outside
  -- whether the agents' centre, and the shipments and tokens, are configured; whether a token can be
  -- issued
  pub has_agents : Bool
  pub can_confirm : Bool
  pub can_issue : Bool
  pub get_jobs : ℕ → List ℕ → Answer (List JobStatus)
  pub unmarshal : String → Option Fields
  pub read_order : Json → Option OrderSnapshotDto
  -- `fmt.Sprint` on values that are not texts
  pub sprint : Json → String

-- `Model(r).Update`: columns of the row with the task's key.
abbrev pub write : ℕ → (PrintTask → PrintTask) → SyncState → SyncState
write id f st = record st { tasks = update_where (λ (t : PrintTask). t.id == id) f st.tasks }

abbrev pub status_eq : TaskStatus → TaskStatus → Bool
status_eq pending pending = true
status_eq claimed claimed = true
status_eq done done = true
status_eq failed failed = true
status_eq cancelled cancelled = true
status_eq _ _ = false

abbrev pub is_none {ℓ} : {A : Type ℓ} → Option A → Bool
is_none none = true
is_none (some a) = false

-- A task that is done and whose shipping is not confirmed.
abbrev pub is_unconfirmed : PrintTask → Bool
is_unconfirmed t = status_eq t.status done && is_none t.ship_confirmed_at

-- The first order of a payload with exactly one, and whether there are several.
abbrev only_order : Option Json → Option Fields
only_order (some (array (item (object o) no_items))) = some o
only_order v = none

abbrev pub has_many : Option Json → Bool
has_many (some (array (item v (item w rest)))) = true
has_many v = false

abbrev order_id_of : Option Fields → ℕ
order_id_of none = 0
order_id_of (some o) = parse_payload_uint64 (get_field "orderId" o)

unfoldable pub payload_order_id : Fields → ℕ
payload_order_id m =
    let top = parse_payload_uint64 (get_field "orderId" m) in
    let only = order_id_of (only_order (get_field "orders" m)) in if top == 0 then only else top

-- Whether the payload switches the confirmation off.
abbrev pub is_off : Option Bool → Bool
is_off (some false) = true
is_off v = false

abbrev is_on : Option Bool → Bool
is_on (some true) = true
is_on v = false

abbrev some_positive : ℕ → Option ℕ
some_positive zero = none
some_positive (suc n) = some (suc n)

-- `NormalizeTenantID`
abbrev pub normal_tenant : ℕ → ℕ
normal_tenant tenant = if tenant == 0 then 1 else tenant

-- The errors after which the shipping counts as confirmed.
abbrev pub counts_as_confirmed : Err → Bool
counts_as_confirmed (order_core reason) =
    is_order_already_shipped_err (order_core reason) || str_contains reason "发货单已存在"
counts_as_confirmed e = false

module _ (o : SyncOutside) (now : ℕ) where
  abbrev shown_value : Option Json → String
  shown_value none = "<nil>"
  shown_value (some null) = "<nil>"
  shown_value (some (text s)) = s
  shown_value (some v) = o.sprint v

  abbrev company_of : Fields → String
  company_of m =
      let c = trim_space (shown_value (get_field "expressCompany" m)) in
      if is_empty c || str_eq c "<nil>" then "快递" else c

  abbrev pub request_of : Fields → ℕ → String → OrderSnapshotDto → ConfirmKdzsShipDto
  request_of m order_id mail_no order = record {
    order_id = order_id;
    express_no = mail_no;
    express_company = company_of m;
    order = order;
    group_id = some_positive (parse_payload_uint64 (get_field "groupId" m));
    reship = is_on (payload_bool (get_field "reship" m));
  }

  abbrev pub confirmed_row : String → PrintTask → PrintTask
  confirmed_row mail_no t = record t { mail_no = mail_no; ship_confirmed_at = some now }

  abbrev pub confirm_answered :
      PrintTask → String → List PrintTask → Result Shipment × World × PlanTable → SyncState
  confirm_answered t mail_no tasks (ok s, w, plans) =
      write t.id (confirmed_row mail_no) (record { tasks = tasks; world = w; plans = plans })
  confirm_answered t mail_no tasks (err e, w, plans) =
      let st : SyncState = record { tasks = tasks; world = w; plans = plans } in
      if counts_as_confirmed e then write t.id (confirmed_row mail_no) st else st

  abbrev pub confirm_order :
      PrintTask → Fields → ℕ → String → SyncState → Option OrderSnapshotDto → SyncState
  confirm_order t m order_id mail_no st none = st
  confirm_order t m order_id mail_no st (some order) =
      let confirmed =
        confirm_kdzs_ship o.order_centre (normal_tenant t.tenant_id) now
          (request_of m order_id mail_no order) st.world st.plans in
      if o.can_issue then confirm_answered t mail_no st.tasks confirmed else st

  abbrev pub read_some : Option Json → Option OrderSnapshotDto
  read_some none = none
  read_some (some null) = none
  read_some (some v) = o.read_order v

  abbrev pub set_mail_no : String → PrintTask → PrintTask
  set_mail_no mail_no t = record t { mail_no = mail_no }

  abbrev pub with_mail_no : PrintTask → Fields → ℕ → String → SyncState → SyncState
  with_mail_no t m order_id mail_no st =
      let st' = if str_eq t.mail_no mail_no then st else write t.id (set_mail_no mail_no) st in
      if is_empty mail_no
      then st
      else confirm_order t m order_id mail_no st' (read_some (get_field "order" m))

  abbrev pub mail_no_of : PrintTask → String → String
  mail_no_of t result =
      let found = parse_mail_no_from_result o.unmarshal result in
      if is_empty (trim_space t.mail_no) then found else trim_space t.mail_no

  abbrev pub confirm_payload : PrintTask → String → SyncState → Option Fields → SyncState
  confirm_payload t result st none = st
  confirm_payload t result st (some m) =
      let order_id = payload_order_id m in
      if order_id == 0
        || is_off (payload_bool (get_field "autoConfirmShip" m))
        || has_many (get_field "orders" m)
      then st
      else with_mail_no t m order_id (mail_no_of t result) st

  -- `maybeAutoConfirmShip`
  unfoldable pub maybe_auto_confirm_ship : PrintTask → String → SyncState → SyncState
  maybe_auto_confirm_ship t result st =
      if not (is_none t.ship_confirmed_at) || not o.can_confirm
      then st
      else confirm_payload t result st (o.unmarshal t.payload)
