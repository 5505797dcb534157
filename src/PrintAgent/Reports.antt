-- ===== src/PrintAgent/Reports.antt =====
-- What a report changes: one open task of the device, to a final state.
use shipping_core.Base.{
  ℕ, ◌≡◌, String, true, false, some, ◌==◌, ◌⊎◌, Bool-cases, Option-cases, arith, inl, inr,
}
use mathlib.Core.List.{Memᴰ}
use shipping_core.Base.Text.{trim_space, cut_bytes}
use shipping_core.Base.Table.{UniqueKeys, Memᴰ-update_where, Memᴰ-unique, first, first-Memᴰ}
use shipping_core.Errors.{Result-cases}
use shipping_core.PrintAgent.State.{
  TaskStatus, pending, claimed, done, failed, cancelled, is_print_task_terminal, PrintTask,
  PrintDevice, AgentDb,
}
use shipping_core.PrintAgent.Devices.{authenticate_device}
use shipping_core.PrintAgent.Tasks.{
  ReportInput, reported_status, is_open, is_reported, finish, report_task,
}

-- The row of a task after a report of a state and a message: nothing but the state, the time and,
-- for a failure, the message has changed, of which the first 1000 bytes are kept.
abbrev pub Ended : ℕ → TaskStatus → String → PrintTask → PrintTask → Type 0
Ended now failed message t t' = t' ≡ record t {
  status = failed;
  finished_at = some now;
  error_message = cut_bytes 1000 (trim_space message);
}
Ended now st message t t' = t' ≡ record t { status = st; finished_at = some now }

-- A task of the device that has been claimed or still waits.
abbrev pub IsReportable : PrintDevice → ℕ → PrintTask → Type 0
IsReportable d id t =
    (t.id ≡ id)
    × (t.tenant_id ≡ d.tenant_id)
    × (t.device_id ≡ d.id)
    × ((t.status ≡ claimed) ⊎ (t.status ≡ pending))

terminal-not-open : (s : TaskStatus) → is_print_task_terminal s ≡ true → is_open s ≡ true → ⊥
unfolding is_print_task_terminal
terminal-not-open pending a b = cc
terminal-not-open claimed a b = cc
terminal-not-open done a b = cc
terminal-not-open failed a b = cc
terminal-not-open cancelled a b = cc

module _ (hash : String → String) (now : ℕ) (key secret : String) (task_id : ℕ) (inp : ReportInput)
    (db : AgentDb) where
  -- A finished or cancelled task is never changed by a report. The primary keys of the tasks are
  -- taken to be unique.
  pub report_task_keeps_terminal :
      (r : PrintTask)
      → UniqueKeys (λ (t : PrintTask). t.id) db.tasks
      → Memᴰ r db.tasks
      → is_print_task_terminal r.status ≡ true
      → Memᴰ r (report_task hash now key secret task_id inp db).1.tasks
  unfolding report_task
  report_task_keeps_terminal r u m final =
      elim (Result-cases (authenticate_device hash key secret db)) [
        | inr (x, e) ↦ rw e m
        | inl (d, e) ↦ elim (Option-cases (reported_status inp.status)) [
          | inl nothing ↦ rw (e, nothing) m
          | inr (st, named) ↦ elim (Option-cases (first (is_reported d task_id) db.tasks)) [
            | inl nothing ↦ rw (e, named, nothing) m
            | inr (t, found) ↦ elim (Bool-cases (is_open t.status)) [
              | inr shut ↦ rw (e, named, found, shut) m
              | inl opened ↦
                  rw (e, named, found, opened)
                    (Memᴰ-update_where (λ x. x.id == t.id) (finish hash now st inp.error_message)
                      db.tasks r m
                      (other t (first-Memᴰ (is_reported d task_id) db.tasks t found) opened))
            ]
          ]
        ]
      ]
    where
      other : (t : PrintTask) → Memᴰ t db.tasks → is_open t.status ≡ true → (r.id == t.id) ≡ false
      other t listed opened = elim (Bool-cases (r.id == t.id)) [
        | inr no_match ↦ no_match
        | inl same ↦
            let e = Memᴰ-unique (λ (x : PrintTask). x.id) db.tasks r t u m listed (ground arith) in
            absurd (terminal-not-open t.status (rw (← e) final) opened)
      ]
