-- ===== src/PrintAgent/SyncTests.antt =====
-- The alignment of print tasks, at a task that is done and whose order is to be confirmed.
use shipping_core.Base.{◌≡◌, refl, true, false, none, some, [], ◌∷◌, map}
use shipping_core.Base.Int.{pos}
use shipping_core.Base.Text.{trim_space}
use shipping_core.Shipment.World.{answer, ship_order_core, get_shipment, found_shipment}
use shipping_core.Shipment.Model.{Shipment}
use shipping_core.Shipment.SyncTests.{snapshot, helper_world, plans, IsSingle-parcel, closed}
use shipping_core.Shipment.Single.{IsSingle}
use shipping_core.PrintAgent.State.{is_print_task_terminal, PrintTask, claimed, done}
use shipping_core.PrintAgent.Payload.{object, number, no_fields, field, Fields}
use shipping_core.PrintAgent.Numbers.{payload_bool, parse_payload_uint64}
use shipping_core.PrintAgent.AutoConfirm.{
  JobStatus, SyncState, SyncOutside, payload_order_id, maybe_auto_confirm_ship,
}
use shipping_core.PrintAgent.Sync.{adopt_rows, sync_rows, sync_tasks_from_agents}
use shipping_core.PrintAgent.Tasks.{map_agents_job_status}
use shipping_core.Shipment.Confirm.{confirm_kdzs_ship, find_active_kdzs_shipment}
use shipping_core.PrintAgent.Confirmed.{marks}
use shipping_core.PrintAgent.Aligned.{sync_tasks_from_agents-IsSingle}

abbrev payload : Fields
payload = field "orderId" (number (pos 7) false) (field "order" (object no_fields) no_fields)

abbrev job : JobStatus
job = record {
  id = 3;
  status = "succeeded";
  error_message = "";
  result_json = "运单号：SF12345678";
  started_at = none;
  finished_at = some 60;
}

abbrev outside : SyncOutside
outside = record {
  order_centre = closed;
  has_agents = true;
  can_confirm = true;
  can_issue = true;
  get_jobs = λ tenant ids. answer (job ∷ []);
  unmarshal = λ raw. some payload;
  read_order = λ v. some snapshot;
  sprint = λ v. "";
}

abbrev printed_task : PrintTask
printed_task = record {
  id = 4;
  tenant_id = 1;
  device_id = 2;
  status = claimed;
  payload = "{}";
  error_message = [];
  mail_no = " SF1 ";
  ship_confirmed_at = none;
  agents_job_id = 3;
  created_by = 1;
  claimed_at = some 20;
  finished_at = none;
}

abbrev state : SyncState
state = record { tasks = printed_task ∷ []; world = helper_world; plans = plans }

sync_tasks_from_agents-IsSingle_example :
    IsSingle 1 (sync_tasks_from_agents outside 70 1 (printed_task ∷ []) state).world.shipments
sync_tasks_from_agents-IsSingle_example =
    sync_tasks_from_agents-IsSingle outside 70 1 1 (printed_task ∷ []) state (refl, tt)
      IsSingle-parcel

-- The task is done, its shipping is confirmed under the number that it holds, and the order's
-- shipment with another number stays beside the new one.
run_test :
    let st = sync_tasks_from_agents outside 70 1 (printed_task ∷ []) state in
    (marks st ≡ some 70 ∷ [])
    × (map (λ (t : PrintTask). t.mail_no) st.tasks ≡ "SF1" ∷ [])
    × (map (λ (s : Shipment). s.mail_no) st.world.shipments ≡ "K1" ∷ "SF1" ∷ [])
unfolding sync_tasks_from_agents is_print_task_terminal sync_rows map_agents_job_status trim_space
    maybe_auto_confirm_ship payload_order_id parse_payload_uint64 payload_bool confirm_kdzs_ship
    find_active_kdzs_shipment adopt_rows ship_order_core get_shipment found_shipment
run_test = (refl, refl, refl)

abbrev running : SyncOutside
running = record outside {
  get_jobs = λ tenant ids. answer (record job { status = "running" } ∷ []);
}

abbrev done_task : PrintTask
done_task = record printed_task { status = done; finished_at = some 30 }

-- A task that is done, and whose shipping is not confirmed, is open again when its job is reported as
-- running.
reopened :
    map
      (λ (t : PrintTask). t.status)
      (sync_tasks_from_agents running 70 1
        (done_task ∷ [])
        (record state { tasks = done_task ∷ [] })).tasks
    ≡ claimed ∷ []
unfolding sync_tasks_from_agents is_print_task_terminal sync_rows map_agents_job_status trim_space
    maybe_auto_confirm_ship adopt_rows
reopened = refl
