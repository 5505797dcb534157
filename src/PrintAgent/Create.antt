-- ===== src/PrintAgent/Create.antt =====
-- A print task is created, or its orders join a task that waits (CreateTask,
-- tryMergePendingPrintTask). The agents' centre is outside: its answer may depend on all calls, the
-- latest first. `unmarshal` is `json.Unmarshal` into an object; the JSON null, on which the code
-- panics, is no object here. An operation runs as one step, and an answer holds the task whose
-- payload is shown by redact_print_payload.
use shipping_core.Base.{
  ℕ, ◌+◌, String, Bool, true, false, not, ◌&&◌, ◌||◌, Option, none, some, List, [], ◌∷◌, ◌++◌, ◌==◌,
  if◌then◌else◌, filter,
}
use shipping_core.Base.Text.{is_empty, trim_space, decimal, bytes, str_contains, codes_eq, ◌+++◌}
use shipping_core.Base.Table.{update_where}
use shipping_core.Base.Order.{order_by}
use shipping_core.Errors.{
  Result, ok, err, bad_request, agents_unavailable, device_offline, device_not_found,
}
use shipping_core.PrintAgent.State.{pending, cancelled, is_pending, PrintTask, KdzsSetting}
use shipping_core.PrintAgent.Tasks.{task_before}
use shipping_core.PrintAgent.Payload.{
  Json, text, bool, object, Fields, get_field, put_field, is_nil_value, payload_string,
  print_merge_key, merge_print_payload,
}
use shipping_core.PrintAgent.Login.{KdzsAccount, PrintLogin, resolve_print_login}

pub data AgentCall : Type 0 where
  -- a job's id and its payload, a job's id and the reason, a device and a payload
  update_job : ℕ → String → AgentCall
  cancel_job : ℕ → String → AgentCall
  create_job : ℕ → String → AgentCall

pub data JobAnswer : Type 0 where
  job : ℕ → JobAnswer
  no_job : String → JobAnswer

pub record Agents : Type 0 where
  pub is_configured : Bool
  pub on_update : List AgentCall → Bool
  pub on_create : List AgentCall → JobAnswer

pub record TaskBoard : Type 0 where
  pub tasks : List PrintTask
  pub next_task : ℕ
  pub calls : List AgentCall

-- A task, and for a merged one the number of its orders.
pub record TaskAnswer : Type 0 where
  pub task : PrintTask
  pub merged : Option ℕ

module _ (to_upper : String → String) (sprint marshal : Json → String)
    (unmarshal : String → Option Fields) (agents : Agents) (tenant now_ms now : ℕ) where
  abbrev same_key : Option (List ℕ) → Option (List ℕ) → Bool
  same_key (some a) (some b) = codes_eq a b
  same_key _ _ = false

  abbrev key_of : Option Fields → Option (List ℕ)
  key_of none = none
  key_of (some m) = print_merge_key sprint to_upper m

  -- The tasks of the device that wait, with the key of the payload, in the order of their ids.
  abbrev is_alike : ℕ → Option (List ℕ) → PrintTask → Bool
  is_alike device key t =
      t.tenant_id == tenant
      && t.device_id == device
      && is_pending t.status
      && same_key (key_of (unmarshal t.payload)) key

  unfoldable pub alike_tasks : ℕ → Option (List ℕ) → List PrintTask → List PrintTask
  alike_tasks device key tasks = order_by task_before (filter (is_alike device key) tasks)

  abbrev merge_read : Fields → Option Fields → Fields
  merge_read base none = base
  merge_read base (some other) = (merge_print_payload sprint marshal now_ms base other).0

  unfoldable pub merge_absorbed : Fields → List PrintTask → Fields
  merge_absorbed base [] = base
  merge_absorbed base (t ∷ ts) = merge_absorbed (merge_read base (unmarshal t.payload)) ts

  abbrev merged_reason : ℕ → String
  merged_reason id = "已合并到批量任务 #" +++ decimal id

  abbrev pub is_waiting : ℕ → PrintTask → Bool
  is_waiting id t = t.id == id && t.tenant_id == tenant && is_pending t.status

  abbrev pub absorbed : ℕ → PrintTask → PrintTask
  absorbed survivor t = record t {
    status = cancelled;
    error_message = bytes (merged_reason survivor);
    finished_at = some now;
  }

  unfoldable pub cancel_absorbed : ℕ → List PrintTask → List PrintTask → List PrintTask
  cancel_absorbed survivor [] rows = rows
  cancel_absorbed survivor (t ∷ ts) rows =
      cancel_absorbed survivor ts (update_where (is_waiting t.id) (absorbed survivor) rows)

  unfoldable pub cancel_jobs : ℕ → List PrintTask → List AgentCall → List AgentCall
  cancel_jobs survivor [] calls = calls
  cancel_jobs survivor (t ∷ ts) calls = cancel_jobs survivor ts (
      if t.agents_job_id == 0
      then calls
      else cancel_job t.agents_job_id (merged_reason survivor) ∷ calls)

  abbrev pub with_payload : String → PrintTask → PrintTask
  with_payload raw t = record t { payload = raw }

  abbrev pub store_merged :
      PrintTask → List PrintTask → String → ℕ → TaskBoard → Option TaskAnswer × TaskBoard
  store_merged survivor rest raw count b =
      let rows = update_where (is_waiting survivor.id) (with_payload raw) b.tasks in
      (
        some (record { task = with_payload raw survivor; merged = some count }),
        record b {
          tasks = cancel_absorbed survivor.id rest rows;
          calls = cancel_jobs survivor.id rest b.calls;
        },
      )

  abbrev pub ask_update :
      PrintTask → List PrintTask → Fields × ℕ → TaskBoard → Option TaskAnswer × TaskBoard
  ask_update survivor rest (m, count) b =
      let raw = marshal (object m) in
      let b' = record b { calls = update_job survivor.agents_job_id raw ∷ b.calls } in
      if agents.on_update b'.calls then store_merged survivor rest raw count b' else (none, b')

  abbrev pub merge_into :
      Fields
      → PrintTask
      → List PrintTask
      → Option Fields
      → TaskBoard
      → Option TaskAnswer × TaskBoard
  merge_into incoming survivor rest none b = (none, b)
  merge_into incoming survivor rest (some base) b =
      if survivor.agents_job_id == 0
      then (none, b)
      else ask_update survivor rest
          (merge_print_payload sprint marshal now_ms (merge_absorbed base rest) incoming) b

  abbrev pub merge_alike : Fields → List PrintTask → TaskBoard → Option TaskAnswer × TaskBoard
  merge_alike incoming [] b = (none, b)
  merge_alike incoming (t ∷ ts) b = merge_into incoming t ts (unmarshal t.payload) b

  abbrev pub merge_keyed : ℕ → Fields → Option (List ℕ) → TaskBoard → Option TaskAnswer × TaskBoard
  merge_keyed device incoming none b = (none, b)
  merge_keyed device incoming (some key) b =
      merge_alike incoming (alike_tasks device (some key) b.tasks) b

  -- `tryMergePendingPrintTask`
  unfoldable pub try_merge_pending : ℕ → Fields → TaskBoard → Option TaskAnswer × TaskBoard
  try_merge_pending device incoming b =
      if agents.is_configured
      then merge_keyed device incoming (print_merge_key sprint to_upper incoming) b
      else (none, b)

  -- The payload with the login, the printing and the tenant's printer filled in.
  unfoldable pub with_login : PrintLogin → Fields → Fields
  with_login l m = put_field "kdzsAccountName" (text l.name) (
      put_field "kdzsAccountCode" (text l.code)
        (put_field "kdzsPassword" (text l.password) (put_field "kdzsMobile" (text l.mobile) m)))

  unfoldable pub with_defaults : String → Fields → Fields
  with_defaults printer m =
      let m' =
        if is_nil_value (get_field "autoPrint" m) then put_field "autoPrint" (bool true) m else m in
      if is_empty (payload_string sprint m' "printerName") && not (is_empty printer)
      then put_field "printerName" (text printer) m'
      else m'

  abbrev new_task : ℕ → ℕ → ℕ → String → ℕ → PrintTask
  new_task id user device raw job_id = record {
    id = id;
    tenant_id = tenant;
    device_id = device;
    status = pending;
    payload = raw;
    error_message = [];
    mail_no = "";
    ship_confirmed_at = none;
    agents_job_id = job_id;
    created_by = user;
    claimed_at = none;
    finished_at = none;
  }

  abbrev pub job_answered : ℕ → ℕ → String → TaskBoard → JobAnswer → Result TaskAnswer × TaskBoard
  job_answered user device raw b (no_job reason) = (
    err (
        if str_contains reason "离线"
        then device_offline
        else if str_contains reason "不存在"
        then device_not_found
        else agents_unavailable),
    b,
  )
  job_answered user device raw b (job id) =
      let t = new_task b.next_task user device raw id in
      (
        ok (record { task = t; merged = none }),
        record b { tasks = b.tasks ++ t ∷ []; next_task = b.next_task + 1 },
      )

  abbrev pub create_unless_merged :
      ℕ → ℕ → Fields → Option TaskAnswer × TaskBoard → Result TaskAnswer × TaskBoard
  create_unless_merged user device m (some a, b) = (ok a, b)
  create_unless_merged user device m (none, b) =
      let raw = marshal (object m) in
      let b' = record b { calls = create_job device raw ∷ b.calls } in
      job_answered user device raw b' (agents.on_create b'.calls)

  abbrev pub create_with_login :
      ℕ → ℕ → String → Fields → TaskBoard → Result PrintLogin → Result TaskAnswer × TaskBoard
  create_with_login user device printer m b (err e) = (err e, b)
  create_with_login user device printer m b (ok l) =
      let m' = with_defaults printer (with_login l m) in
      create_unless_merged user device m' (try_merge_pending device m' b)

  abbrev pub create_read :
      ℕ → ℕ → String → Result PrintLogin → TaskBoard → Option Fields → Result TaskAnswer × TaskBoard
  create_read user device printer login b none = (err bad_request, b)
  create_read user device printer login b (some m) = create_with_login user device printer m b login

  -- `CreateTask`, with the device, the account asked for, the payload and the tenant's printer.
  unfoldable pub create_task :
      ℕ
      → ℕ
      → String
      → String
      → String
      → List KdzsSetting
      → List KdzsAccount
      → TaskBoard
      → Result TaskAnswer × TaskBoard
  create_task user device asked raw printer settings accounts b =
      if device == 0 || is_empty raw
      then (err bad_request, b)
      else if not agents.is_configured
      then (err agents_unavailable, b)
      else create_read user device (trim_space printer)
          (resolve_print_login tenant asked settings accounts) b (unmarshal raw)
