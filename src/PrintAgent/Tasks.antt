-- ===== src/PrintAgent/Tasks.antt =====
-- A device claims the oldest task that waits for it, and reports how a task ended.
use shipping_core.Base.{
  ℕ, String, Bool, true, false, ◌&&◌, ◌||◌, Option, none, some, List, ◌==◌, ltb, if◌then◌else◌,
  filter,
}
use shipping_core.Base.Text.{str_eq, trim_space, cut_bytes}
use shipping_core.Base.Table.{first, update_where}
use shipping_core.Base.Order.{order_by, head_of}
use shipping_core.Errors.{Result, ok, err, bad_request, not_found, no_task}
use shipping_core.PrintAgent.State.{
  TaskStatus, pending, claimed, done, failed, is_pending, PrintTask, PrintDevice, AgentDb,
}
use shipping_core.PrintAgent.Devices.{authenticate_device, touch}

-- The state that the agents' centre reports for a job, as `mapAgentsJobStatus` reads it; the text
-- of an error goes with a failure only.
unfoldable pub map_agents_job_status : String → String → Option TaskStatus × String
map_agents_job_status status error_message =
    let st = trim_space status in
    if str_eq st "pending"
    then (some pending, "")
    else if str_eq st "claimed" || str_eq st "running"
    then (some claimed, "")
    else if str_eq st "succeeded"
    then (some done, "")
    else if str_eq st "failed" || str_eq st "cancelled"
    then (some failed, trim_space error_message)
    else (none, "")

abbrev pub waits_for : PrintDevice → PrintTask → Bool
waits_for d t = t.tenant_id == d.tenant_id && t.device_id == d.id && is_pending t.status

abbrev pub task_before : PrintTask → PrintTask → Bool
task_before a b = ltb a.id b.id

-- `ORDER BY id ASC` with `First`
unfoldable pub oldest_waiting : PrintDevice → List PrintTask → Option PrintTask
oldest_waiting d tasks = head_of (order_by task_before (filter (waits_for d) tasks))

module _ (hash : String → String) (now : ℕ) where
  abbrev pub claim : PrintTask → PrintTask
  claim t = record t { status = claimed; claimed_at = some now }

  abbrev pub claim_found : AgentDb → Option PrintTask → Result PrintTask × AgentDb
  claim_found db none = (err no_task, db)
  claim_found db (some t) =
      (ok (claim t), record db { tasks = update_where (λ r. r.id == t.id) claim db.tasks })

  abbrev pub claim_by : AgentDb → Result PrintDevice → Result PrintTask × AgentDb
  claim_by db (err e) = (err e, db)
  claim_by db (ok d) = claim_found (touch hash now d db) (oldest_waiting d db.tasks)

  unfoldable pub claim_next : String → String → AgentDb → Result PrintTask × AgentDb
  claim_next device_key secret db = claim_by db (authenticate_device hash device_key secret db)

pub record ReportInput : Type 0 where
  pub status : String
  pub error_message : String

-- The two states that a report may name.
unfoldable pub reported_status : String → Option TaskStatus
reported_status text =
    if str_eq (trim_space text) "done"
    then some done
    else if str_eq (trim_space text) "failed"
    then some failed
    else none

abbrev pub is_open : TaskStatus → Bool
is_open claimed = true
is_open pending = true
is_open _ = false

abbrev pub is_reported : PrintDevice → ℕ → PrintTask → Bool
is_reported d id t = t.id == id && t.tenant_id == d.tenant_id && t.device_id == d.id

module _ (hash : String → String) (now : ℕ) where
  abbrev pub finish : TaskStatus → String → PrintTask → PrintTask
  finish failed message t = record t {
    status = failed;
    finished_at = some now;
    error_message = cut_bytes 1000 (trim_space message);
  }
  finish st message t = record t { status = st; finished_at = some now }

  abbrev pub report_found :
      TaskStatus → String → AgentDb → Option PrintTask → Result PrintTask × AgentDb
  report_found st message db none = (err not_found, db)
  report_found st message db (some t) =
      if is_open t.status
      then (
        ok (finish st message t),
        record db { tasks = update_where (λ r. r.id == t.id) (finish st message) db.tasks },
      )
      else (err bad_request, db)

  abbrev pub report_as :
      PrintDevice → ℕ → String → AgentDb → Option TaskStatus → Result PrintTask × AgentDb
  report_as d task_id message db none = (err bad_request, db)
  report_as d task_id message db (some st) =
      report_found st message db (first (is_reported d task_id) db.tasks)

  abbrev pub report_by : ℕ → ReportInput → AgentDb → Result PrintDevice → Result PrintTask × AgentDb
  report_by task_id inp db (err e) = (err e, db)
  report_by task_id inp db (ok d) =
      report_as d task_id inp.error_message db (reported_status inp.status)

  unfoldable pub report_task :
      String → String → ℕ → ReportInput → AgentDb → Result PrintTask × AgentDb
  report_task device_key secret task_id inp db =
      report_by task_id inp db (authenticate_device hash device_key secret db)
