-- ===== src/PrintAgent/State.antt =====
-- The tables of devices, tasks and settings. Times are nanoseconds, and `none` is a null column.
use shipping_core.Base.{ℕ, String, Bool, true, false, Option, List}

pub data TaskStatus : Type 0 where
  pending claimed done failed cancelled : TaskStatus

abbrev pub is_pending : TaskStatus → Bool
is_pending pending = true
is_pending _ = false

-- `isPrintTaskTerminal`
unfoldable pub is_print_task_terminal : TaskStatus → Bool
is_print_task_terminal done = true
is_print_task_terminal failed = true
is_print_task_terminal cancelled = true
is_print_task_terminal _ = false

pub record PrintTask : Type 0 where
  pub id : ℕ
  pub tenant_id : ℕ
  pub device_id : ℕ
  pub status : TaskStatus
  pub payload : String
  -- bytes: a report's text is cut at a byte
  pub error_message : List ℕ
  pub mail_no : String
  pub ship_confirmed_at : Option ℕ
  pub agents_job_id : ℕ
  pub created_by : ℕ
  pub claimed_at : Option ℕ
  pub finished_at : Option ℕ

pub record PrintDevice : Type 0 where
  pub id : ℕ
  pub tenant_id : ℕ
  pub user_id : ℕ
  -- bytes: both texts are cut at a byte
  pub machine_id : List ℕ
  pub name : List ℕ
  pub device_key : String
  pub secret_hash : String
  pub last_seen_at : Option ℕ
  pub enabled : Bool

pub record KdzsSetting : Type 0 where
  pub tenant_id : ℕ
  pub default_account_code : String
  pub active_account_code : String
  pub auto_sync_from_ssa : Bool
  pub print_enroll_token : String
  pub last_synced_at : Option ℕ

pub record AgentDb : Type 0 where
  pub settings : List KdzsSetting
  pub devices : List PrintDevice
  pub next_device : ℕ
  pub tasks : List PrintTask
