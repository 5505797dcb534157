-- ===== src/PrintAgent/Sync.antt =====
-- Print tasks are brought in line with the jobs of the agents' centre (syncTasksFromAgents,
-- pollOpenTasks). The rows are worked on one after the other; what is written to a row is written to
-- its copy too.
use shipping_core.Base.{
  map, take, ℕ, String, Bool, false, not, ◌&&◌, ◌||◌, Option, none, some, List, [], ◌∷◌, ◌==◌, ltb,
  if◌then◌else◌, filter,
}
use shipping_core.Base.Text.{is_empty, bytes, codes_eq}
use shipping_core.Base.Order.{order_by}
use shipping_core.Shipment.World.{Answer, answer, refusal}
use shipping_core.PrintAgent.State.{
  TaskStatus, pending, claimed, done, failed, is_print_task_terminal, PrintTask,
}
use shipping_core.PrintAgent.Tasks.{map_agents_job_status}
use shipping_core.PrintAgent.Numbers.{parse_agents_job_id}
use shipping_core.PrintAgent.AutoConfirm.{
  JobStatus, SyncState, SyncOutside, write, status_eq, is_none, is_unconfirmed,
  maybe_auto_confirm_ship,
}

-- The number of a job that an older version kept in the text of the error.
abbrev pub has_old_job : PrintTask → Bool
has_old_job t = t.agents_job_id == 0 && not (parse_agents_job_id t.error_message == 0)

abbrev pub with_job : ℕ → PrintTask → PrintTask
with_job id t = record t { agents_job_id = id; error_message = [] }

abbrev pub adopt_job : PrintTask → PrintTask
adopt_job t = if has_old_job t then with_job (parse_agents_job_id t.error_message) t else t

abbrev pub adopt_row : PrintTask → SyncState → SyncState
adopt_row t st =
    if has_old_job t then write t.id (with_job (parse_agents_job_id t.error_message)) st else st

abbrev pub is_needed : PrintTask → Bool
is_needed t =
    not (t.agents_job_id == 0) && (not (is_print_task_terminal t.status) || is_unconfirmed t)

abbrev pub needed_jobs : List PrintTask → List ℕ
needed_jobs [] = []
needed_jobs (t ∷ ts) =
    let rest = needed_jobs ts in if is_needed t then t.agents_job_id ∷ rest else rest

-- `byID[id]`: the last of the jobs with the number.
abbrev pub job_by_id : ℕ → List JobStatus → Option JobStatus
job_by_id id [] = none
job_by_id id (j ∷ js) =
    let here' = if j.id == id then some j else none in
    elim (job_by_id id js) [ none ↦ here' | some k ↦ some k ]

abbrev parsed_or : ℕ → Option ℕ → ℕ
parsed_or now none = now
parsed_or now (some t) = t

module _ (o : SyncOutside) (now : ℕ) where
  -- The columns of a task whose job is in another state.
  abbrev begun : JobStatus → TaskStatus → PrintTask → PrintTask
  begun j st t =
      if status_eq st claimed && is_none t.claimed_at
      then record t { claimed_at = some (parsed_or now j.started_at) }
      else t

  abbrev ended_message : TaskStatus → String → List ℕ → List ℕ
  ended_message failed message old = bytes message
  ended_message done message old = []
  ended_message st message old = old

  abbrev pub moved : JobStatus → TaskStatus → String → PrintTask → PrintTask
  moved j st message t =
      let t' = begun j st t in
      if is_print_task_terminal st
      then record t' {
        status = st;
        finished_at = some (parsed_or now j.finished_at);
        error_message = ended_message st message t'.error_message;
      }
      else record t' { status = st }

  abbrev pub confirm_done : PrintTask → String → SyncState → SyncState
  confirm_done t result st =
      if is_unconfirmed t then maybe_auto_confirm_ship o now t result st else st

  -- The state of the task is the job's, or the job has none that is known.
  abbrev pub unmoved : JobStatus → Bool → String → PrintTask → SyncState → SyncState
  unmoved j is_failed message t st =
      let told = write t.id (λ (r : PrintTask). record r { error_message = bytes message }) st in
      let st' =
        if is_failed && not (is_empty message) && not (codes_eq t.error_message (bytes message))
        then told
        else st in
      confirm_done t j.result_json st'

  abbrev pub sync_moved : JobStatus → TaskStatus → String → PrintTask → SyncState → SyncState
  sync_moved j to message t st =
      if status_eq to t.status
      then unmoved j (status_eq to failed) message t st
      else confirm_done (moved j to message t) j.result_json (write t.id (moved j to message) st)

  abbrev pub sync_as : JobStatus → Option TaskStatus × String → PrintTask → SyncState → SyncState
  sync_as j (none, message) t st = unmoved j false message t st
  sync_as j (some to, message) t st = sync_moved j to message t st

  abbrev pub sync_with : Option JobStatus → PrintTask → SyncState → SyncState
  sync_with none t st = st
  sync_with (some j) t st = sync_as j (map_agents_job_status j.status j.error_message) t st

  -- The two loops over the rows.
  unfoldable pub adopt_rows : List PrintTask → SyncState → SyncState
  adopt_rows [] st = st
  adopt_rows (t ∷ ts) st = adopt_rows ts (adopt_row t st)

  unfoldable pub sync_rows : List JobStatus → List PrintTask → SyncState → SyncState
  sync_rows jobs [] st = st
  sync_rows jobs (t ∷ ts) st = sync_rows jobs ts (sync_with (job_by_id t.agents_job_id jobs) t st)

  abbrev pub jobs_answered : List PrintTask → SyncState → Answer (List JobStatus) → SyncState
  jobs_answered rows st (refusal reason) = st
  jobs_answered rows st (answer jobs) = sync_rows jobs rows st

  abbrev pub ask_jobs : ℕ → List PrintTask → List ℕ → SyncState → SyncState
  ask_jobs tenant rows [] st = st
  ask_jobs tenant rows (id ∷ ids) st = jobs_answered rows st (o.get_jobs tenant (id ∷ ids))

  -- `syncTasksFromAgents`
  unfoldable pub sync_tasks_from_agents : ℕ → List PrintTask → SyncState → SyncState
  sync_tasks_from_agents tenant rows st =
      let copies = map adopt_job rows in
      let synced = ask_jobs tenant copies (needed_jobs copies) (adopt_rows rows st) in
      if o.has_agents then synced else st

  -- The tasks that a round of the background looks at.
  abbrev pub is_polled : PrintTask → Bool
  is_polled t =
      not (t.agents_job_id == 0)
      && (status_eq t.status pending || status_eq t.status claimed || is_unconfirmed t)

  abbrev newer : PrintTask → PrintTask → Bool
  newer a b = ltb b.id a.id

  unfoldable pub polled : List PrintTask → List PrintTask
  polled tasks = take 80 (order_by newer (filter is_polled tasks))

  abbrev of_tenant : ℕ → PrintTask → Bool
  of_tenant tenant t = t.tenant_id == tenant

  unfoldable pub poll_tenants : List ℕ → List PrintTask → SyncState → SyncState
  poll_tenants [] rows st = st
  poll_tenants (tenant ∷ tenants) rows st =
      poll_tenants tenants rows (sync_tasks_from_agents tenant (filter (of_tenant tenant) rows) st)

  -- `pollOpenTasks`, with the tenants of the rows in the order in which the map is walked.
  unfoldable pub poll_open_tasks : List ℕ → SyncState → SyncState
  poll_open_tasks tenants st = poll_tenants tenants (polled st.tasks) st
