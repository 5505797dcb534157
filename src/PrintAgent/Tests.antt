-- ===== src/PrintAgent/Tests.antt =====
-- The theorems on remote printing at a tenant with one machine and three tasks.
use shipping_core.Base.{ℕ, ◌≡◌, refl, String, true, false, none, some, [], ◌∷◌, arith}
use mathlib.Core.List.{Memᴰ}
use shipping_core.Base.Order.{order_by}
use shipping_core.Base.Table.{UniqueKeys}
use shipping_core.Base.Text.{trim_space, is_empty, bytes, cut_bytes, codes_eq}
use shipping_core.Errors.{ok}
use shipping_core.PrintAgent.State.{
  TaskStatus, pending, claimed, done, PrintTask, PrintDevice, KdzsSetting, AgentDb,
  is_print_task_terminal,
}
use shipping_core.PrintAgent.Devices.{
  RegisterInput, RegisterResult, authenticate_device, register_machine, save_machine,
}
use shipping_core.PrintAgent.Tasks.{ReportInput, oldest_waiting, claim_next, report_task}
use shipping_core.PrintAgent.Claims.{Waits, IsOldest, claim_next-IsOldest}
use shipping_core.PrintAgent.Reports.{report_task_keeps_terminal}
use shipping_core.PrintAgent.Machines.{
  UniqueMachines, register_machine-UniqueMachines, KeyFree, IsPlain, register-authenticate,
}

abbrev hash : String → String
hash s = s

abbrev device : PrintDevice
device = record {
  id = 3;
  tenant_id = 1;
  user_id = 0;
  machine_id = bytes "pc";
  name = bytes "desk";
  device_key = "k";
  secret_hash = "s";
  last_seen_at = none;
  enabled = true;
}

abbrev task : ℕ → TaskStatus → PrintTask
task id st = record {
  id = id;
  tenant_id = 1;
  device_id = 3;
  status = st;
  payload = "{}";
  error_message = [];
  mail_no = "";
  ship_confirmed_at = none;
  agents_job_id = 0;
  created_by = 0;
  claimed_at = none;
  finished_at = none;
}

abbrev setting : KdzsSetting
setting = record {
  tenant_id = 1;
  default_account_code = "";
  active_account_code = "";
  auto_sync_from_ssa = false;
  print_enroll_token = "enroll";
  last_synced_at = none;
}

abbrev db : AgentDb
db = record {
  settings = setting ∷ [];
  devices = device ∷ [];
  next_device = 4;
  tasks = task 9 pending ∷ task 7 done ∷ task 8 pending ∷ [];
}

-- The older of the two waiting tasks is handed out.
abbrev claimed_eight : PrintTask
claimed_eight = record (task 8 pending) { status = claimed; claimed_at = some 50 }

claimed_task : (claim_next hash 50 "k" "s" db).0 ≡ ok claimed_eight
unfolding claim_next authenticate_device oldest_waiting trim_space order_by
claimed_task = refl

claim_next-IsOldest_example :
    (d : PrintDevice) × (t : PrintTask) × (authenticate_device hash "k" "s" db ≡ ok d)
    × Memᴰ t db.tasks
    × Waits d t
    × IsOldest d t db.tasks
    × (claimed_eight ≡ record t { status = claimed; claimed_at = some 50 })
    × Memᴰ claimed_eight (claim_next hash 50 "k" "s" db).1.tasks
claim_next-IsOldest_example = claim_next-IsOldest hash 50 "k" "s" db claimed_eight claimed_task

unique_tasks : UniqueKeys (λ (t : PrintTask). t.id) db.tasks
unique_tasks = ((ground arith, (ground arith, tt)), ((ground arith, tt), (tt, tt)))

done_task : Memᴰ (task 7 done) db.tasks
done_task = Memᴰ.tail (Memᴰ.head refl)

abbrev report : ReportInput
report = record { status = " done "; error_message = "" }

abbrev ended : PrintTask
ended = record (task 8 pending) { status = done; finished_at = some 60 }

done_is_final : is_print_task_terminal done ≡ true
unfolding is_print_task_terminal
done_is_final = refl

report_task_keeps_terminal_example :
    Memᴰ (task 7 done) (report_task hash 60 "k" "s" 7 report db).1.tasks
report_task_keeps_terminal_example =
    report_task_keeps_terminal hash 60 "k" "s" 7 report db (task 7 done) unique_tasks done_task
      done_is_final

abbrev enrolment : RegisterInput
enrolment = record { enroll_token = "enroll"; machine_id = "m2"; name = "" }

abbrev handed_out : RegisterResult
handed_out = record {
  device_id = 4;
  device_key = "k2";
  device_secret = "s2";
  machine_id = cut_bytes 128 "m2";
  name = cut_bytes 64 "m2";
  tenant_id = 1;
}

registered : (register_machine hash 70 "k2" "s2" enrolment db).0 ≡ ok handed_out
unfolding register_machine save_machine trim_space cut_bytes bytes codes_eq
registered = refl

register_machine-UniqueMachines_example :
    UniqueMachines (register_machine hash 70 "k2" "s2" enrolment db).1.devices
register_machine-UniqueMachines_example =
    register_machine-UniqueMachines hash 70 "k2" "s2" enrolment db (tt, tt)

IsPlain-key : IsPlain "k2"
unfolding trim_space
IsPlain-key = (refl, refl)

IsPlain-secret : IsPlain "s2"
unfolding trim_space
IsPlain-secret = (refl, refl)

key_free : KeyFree "k2" db.devices
key_free = (refl, tt)

register-authenticate_example :
    (d : PrintDevice) × (authenticate_device hash "k2" "s2"
        (register_machine hash 70 "k2" "s2" enrolment db).1
      ≡ ok d)
    × (d.id ≡ 4)
    × (handed_out.device_key ≡ "k2")
    × (handed_out.device_secret ≡ "s2")
register-authenticate_example =
    register-authenticate hash 70 "k2" "s2" enrolment db handed_out registered key_free IsPlain-key
      IsPlain-secret

plain_token : is_empty (trim_space "fresh") ≡ false
unfolding trim_space
plain_token = refl
