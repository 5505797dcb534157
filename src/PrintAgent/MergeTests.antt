-- ===== src/PrintAgent/MergeTests.antt =====
-- The theorem on merged payloads, at two payloads that share an order.
use shipping_core.Base.{
  Option, none, String, ℕ, ◌≡◌, refl, true, false, some, [], ◌∷◌, ◌++◌, map, length, All,
}
use shipping_core.Base.Int.{pos}
use shipping_core.Base.Text.{codes_eq, trim_space, is_empty, decimal}
use shipping_core.Shipment.Cargo.{decimal_int}
use mathlib.Core.List.{Memᴰ}
use shipping_core.PrintAgent.Payload.{
  print_merge_key, text, get_field, Json, Fields, number, array, no_fields, field, items_of,
  payload_string, order_dedupe_key, extract_orders, merge_orders, merged_orders,
  merge_print_payload, parse_uint, is_seen, text_less, earlier,
}
use shipping_core.Base.Order.{order_by}
use shipping_core.Errors.{ok, Result}
use shipping_core.PrintAgent.State.{PrintTask, claimed}
use shipping_core.PrintAgent.Create.{
  Agents, job, TaskBoard, TaskAnswer, create_task, try_merge_pending, with_login, with_defaults,
  alike_tasks, cancel_absorbed, cancel_jobs,
}
use shipping_core.PrintAgent.Login.{
  KdzsAccount, login_code, resolve_print_login, redact_print_payload,
}
use shipping_core.PrintAgent.Kept.{create_task-kept}
use shipping_core.PrintAgent.Redacted.{redact_print_payload-password}
use shipping_core.PrintAgent.Merged.{Distinct, merge_print_payload-orders}

abbrev order_of : ℕ → Fields
order_of n = field "orderId" (number (pos n) false) no_fields

abbrev first_task : Fields
first_task = field "orders" (array (items_of (order_of 1 ∷ order_of 2 ∷ []))) no_fields

abbrev second_task : Fields
second_task = field "orders" (array (items_of (order_of 2 ∷ order_of 3 ∷ []))) no_fields

abbrev nothing : Json → String
nothing v = ""

key_test : order_dedupe_key nothing nothing (order_of 2) ≡ "orderId=2"
unfolding order_dedupe_key payload_string decimal_int decimal
key_test = refl

merged_test :
    merged_orders nothing nothing first_task second_task ≡ order_of 1 ∷ order_of 2 ∷ order_of 3 ∷ []
unfolding merged_orders merge_orders extract_orders order_dedupe_key payload_string decimal_int
    decimal
merged_test = refl

parse_test : parse_uint "1024" ≡ some 1024
unfolding parse_uint
parse_test = refl

earlier_test : earlier "2026-02-01" "2026-01-31" ≡ "2026-01-31"
unfolding earlier text_less
earlier_test = refl

third_has_key : is_empty (order_dedupe_key nothing nothing (order_of 3)) ≡ false
unfolding order_dedupe_key payload_string decimal_int decimal
third_has_key = refl

third_there : Memᴰ (order_of 3) (extract_orders first_task ++ extract_orders second_task)
unfolding extract_orders
third_there = Memᴰ.tail (Memᴰ.tail (Memᴰ.tail (Memᴰ.head refl)))

merge_print_payload-orders_example :
    let merged = merge_print_payload nothing nothing 5 first_task second_task in
    let keys = map (order_dedupe_key nothing nothing) (extract_orders merged.0) in
    Distinct keys
    × All
        (λ p. Memᴰ p (extract_orders first_task ++ extract_orders second_task))
        (extract_orders merged.0)
    × (is_seen (order_dedupe_key nothing nothing (order_of 3)) keys ≡ true)
    × (merged.1 ≡ length (extract_orders merged.0))
merge_print_payload-orders_example =
    merge_print_payload-orders nothing nothing 5 first_task second_task (order_of 3) third_there
      third_has_key

abbrev with_password : Fields
with_password = field "platform" (text "p") (field "kdzsPassword" (text "s") no_fields)

abbrev read_always : String → Option Fields
read_always raw = some with_password

abbrev written : Fields → String
written m = "shown"

redact_print_payload-password_example :
    (shown : Fields) × (redact_print_payload read_always written "raw" ≡ written shown)
    × (get_field "kdzsPassword" shown ≡ none)
    × (get_field "platform" shown ≡ get_field "platform" with_password)
redact_print_payload-password_example =
    redact_print_payload-password read_always written "raw" "platform" with_password refl refl refl

abbrev helper_account : KdzsAccount
helper_account = record {
  id = 1;
  tenant_id = 1;
  code = "m";
  name = "";
  role = "merchant";
  mobile = " 138 ";
  password = "s";
  sort_order = pos 0;
  enabled = true;
  source = "local";
}

-- Without a setting the first enabled account is taken, under its number.
login_test :
    resolve_print_login 1 " " [] (helper_account ∷ [])
    ≡ ok (record { mobile = "138"; password = "s"; code = "m"; name = "138" })
unfolding resolve_print_login login_code order_by trim_space
login_test = refl

abbrev kind : Fields
kind =
    field "platform" (text "p")
      (field "templateId" (text "t") (field "kdzsAccountCode" (text "m") first_task))

abbrev read_kind : String → Option Fields
read_kind raw = some kind

abbrev same_case : String → String
same_case s = s

abbrev taking : Agents
taking = record { is_configured = true; on_update = λ _. true; on_create = λ _. job 5 }

abbrev no_tasks : TaskBoard
no_tasks = record { tasks = []; next_task = 1; calls = [] }

abbrev create_once : TaskBoard → Result TaskAnswer × TaskBoard
create_once b =
    create_task same_case nothing nothing read_kind taking 1 0 9 2 3 "" "{}" "" []
      (helper_account ∷ []) b

-- A second task of the same kind joins the first one: there is still one task.
joined_test : map (λ (t : PrintTask). t.id) (create_once (create_once no_tasks).1).1.tasks ≡ 1 ∷ []
unfolding create_task resolve_print_login login_code order_by trim_space try_merge_pending
    print_merge_key payload_string with_login with_defaults alike_tasks codes_eq cancel_absorbed
    cancel_jobs
joined_test = refl

abbrev at_printer : PrintTask
at_printer = record {
  id = 1;
  tenant_id = 1;
  device_id = 3;
  status = claimed;
  payload = "{}";
  error_message = [];
  mail_no = "";
  ship_confirmed_at = none;
  agents_job_id = 4;
  created_by = 2;
  claimed_at = some 1;
  finished_at = none;
}

abbrev busy : TaskBoard
busy = record { tasks = at_printer ∷ []; next_task = 2; calls = [] }

create_task-kept_example : Memᴰ at_printer (create_once busy).1.tasks
create_task-kept_example =
    create_task-kept same_case nothing nothing read_kind taking 1 0 9 at_printer 2 3 "" "{}" "" []
      (helper_account ∷ []) busy refl (Memᴰ.head refl)
