-- ===== src/PrintAgent/Kept.antt =====
-- Creating a task leaves the tasks alone that are claimed or over, and those of other tenants.
use shipping_core.Base.{
  ℕ, ◌≡◌, String, false, not, ◌&&◌, ◌||◌, Option, none, some, List, [], ◌∷◌, ◌++◌, ◌==◌, if_holds,
  arith,
}
use mathlib.Core.List.{Memᴰ}
use shipping_core.Base.Text.{is_empty, trim_space}
use shipping_core.Base.Table.{update_where, Memᴰ-update_where}
use shipping_core.Errors.{Result, ok, err}
use shipping_core.PrintAgent.State.{is_pending, PrintTask, KdzsSetting}
use shipping_core.PrintAgent.Payload.{Json, object, Fields}
use shipping_core.PrintAgent.Login.{KdzsAccount, PrintLogin, resolve_print_login}
use shipping_core.PrintAgent.Create.{
  update_job, create_job, Agents, JobAnswer, job, no_job, TaskBoard, TaskAnswer, is_waiting,
  absorbed, with_payload, cancel_absorbed, store_merged, ask_update, merge_into, merge_alike,
  merge_keyed, try_merge_pending, job_answered, create_unless_merged, create_with_login,
  create_read, create_task,
}

module _ (to_upper : String → String) (sprint marshal : Json → String)
    (unmarshal : String → Option Fields) (agents : Agents) (tenant now_ms now : ℕ) (t : PrintTask)
    (other : (t.tenant_id == tenant && is_pending t.status) ≡ false) where
  Memᴰ-waiting :
      (id : ℕ) (f : PrintTask → PrintTask) (rows : List PrintTask)
      → Memᴰ t rows
      → Memᴰ t (
          update_where
            (is_waiting to_upper sprint marshal unmarshal agents tenant now_ms now id)
            f
            rows)
  Memᴰ-waiting id f rows m = Memᴰ-update_where _ f rows t m (ground arith)

  Memᴰ-cancel_absorbed :
      (survivor : ℕ) (rest rows : List PrintTask)
      → Memᴰ t rows
      → Memᴰ t (
          cancel_absorbed to_upper sprint marshal unmarshal agents tenant now_ms now survivor rest
            rows)
  unfolding cancel_absorbed
  Memᴰ-cancel_absorbed survivor [] rows m = m
  Memᴰ-cancel_absorbed survivor (x ∷ rest) rows m = Memᴰ-cancel_absorbed survivor rest _ (
      Memᴰ-waiting x.id
        (absorbed to_upper sprint marshal unmarshal agents tenant now_ms now survivor) rows m)

  abbrev HasTask : Option TaskAnswer × TaskBoard → Type 0
  HasTask (a, b) = Memᴰ t b.tasks

  store_merged-HasTask :
      (s : PrintTask) (rest : List PrintTask) (raw : String) (count : ℕ) (b : TaskBoard)
      → Memᴰ t b.tasks
      → HasTask (
          store_merged to_upper sprint marshal unmarshal agents tenant now_ms now s rest raw count
            b)
  store_merged-HasTask s rest raw count b m = Memᴰ-cancel_absorbed s.id rest _ (
      Memᴰ-waiting s.id
        (with_payload to_upper sprint marshal unmarshal agents tenant now_ms now raw) b.tasks m)

  ask_update-HasTask :
      (s : PrintTask) (rest : List PrintTask) (x : Fields × ℕ) (b : TaskBoard)
      → Memᴰ t b.tasks
      → HasTask (ask_update to_upper sprint marshal unmarshal agents tenant now_ms now s rest x b)
  ask_update-HasTask s rest (f, count) b m =
      let raw = marshal (object f) in
      let b' : TaskBoard = record b { calls = update_job s.agents_job_id raw ∷ b.calls } in
      if_holds HasTask (agents.on_update b'.calls) _ _ (store_merged-HasTask s rest raw count b' m)
        m

  merge_into-HasTask :
      (incoming : Fields) (s : PrintTask) (rest : List PrintTask) (base : Option Fields)
      (b : TaskBoard)
      → Memᴰ t b.tasks
      → HasTask (
          merge_into to_upper sprint marshal unmarshal agents tenant now_ms now incoming s rest base
            b)
  merge_into-HasTask incoming s rest none b m = m
  merge_into-HasTask incoming s rest (some base) b m =
      if_holds HasTask (s.agents_job_id == 0) _ _ m (ask_update-HasTask s rest _ b m)

  merge_alike-HasTask :
      (incoming : Fields) (ts : List PrintTask) (b : TaskBoard)
      → Memᴰ t b.tasks
      → HasTask
          (merge_alike to_upper sprint marshal unmarshal agents tenant now_ms now incoming ts b)
  merge_alike-HasTask incoming [] b m = m
  merge_alike-HasTask incoming (s ∷ ts) b m =
      merge_into-HasTask incoming s ts (unmarshal s.payload) b m

  merge_keyed-HasTask :
      (device : ℕ) (incoming : Fields) (key : Option (List ℕ)) (b : TaskBoard)
      → Memᴰ t b.tasks
      → HasTask (
          merge_keyed to_upper sprint marshal unmarshal agents tenant now_ms now device incoming key
            b)
  merge_keyed-HasTask device incoming none b m = m
  merge_keyed-HasTask device incoming (some key) b m = merge_alike-HasTask incoming _ b m

  try_merge_pending-HasTask :
      (device : ℕ) (incoming : Fields) (b : TaskBoard)
      → Memᴰ t b.tasks
      → HasTask (
          try_merge_pending to_upper sprint marshal unmarshal agents tenant now_ms now device
            incoming b)
  unfolding try_merge_pending
  try_merge_pending-HasTask device incoming b m =
      if_holds HasTask agents.is_configured _ _ (merge_keyed-HasTask device incoming _ b m) m

  Memᴰ-append : (rows : List PrintTask) (x : PrintTask) → Memᴰ t rows → Memᴰ t (rows ++ x ∷ [])
  Memᴰ-append [] x m = elim m [ ]
  Memᴰ-append (r ∷ rows) x (Memᴰ.head e) = Memᴰ.head e
  Memᴰ-append (r ∷ rows) x (Memᴰ.tail m) = Memᴰ.tail (Memᴰ-append rows x m)

  job_answered-kept :
      (user device : ℕ) (raw : String) (b : TaskBoard) (j : JobAnswer)
      → Memᴰ t b.tasks
      → Memᴰ t
          (job_answered to_upper sprint marshal unmarshal agents tenant now_ms now user device raw b
            j).1.tasks
  job_answered-kept user device raw b (no_job reason) m = m
  job_answered-kept user device raw b (job id) m = Memᴰ-append b.tasks _ m

  create_unless_merged-kept :
      (user device : ℕ) (f : Fields) (x : Option TaskAnswer × TaskBoard)
      → HasTask x
      → Memᴰ t
          (create_unless_merged to_upper sprint marshal unmarshal agents tenant now_ms now user
            device f x).1.tasks
  create_unless_merged-kept user device f (some a, b) m = m
  create_unless_merged-kept user device f (none, b) m =
      let raw = marshal (object f) in
      let b' : TaskBoard = record b { calls = create_job device raw ∷ b.calls } in
      job_answered-kept user device raw b' (agents.on_create b'.calls) m

  create_with_login-kept :
      (user device : ℕ) (printer : String) (f : Fields) (b : TaskBoard) (l : Result PrintLogin)
      → Memᴰ t b.tasks
      → Memᴰ t
          (create_with_login to_upper sprint marshal unmarshal agents tenant now_ms now user device
            printer f b l).1.tasks
  create_with_login-kept user device printer f b (err e) m = m
  create_with_login-kept user device printer f b (ok l) m =
      create_unless_merged-kept user device _ _ (try_merge_pending-HasTask device _ b m)

  create_read-kept :
      (user device : ℕ) (printer : String) (l : Result PrintLogin) (b : TaskBoard)
      (f : Option Fields)
      → Memᴰ t b.tasks
      → Memᴰ t
          (create_read to_upper sprint marshal unmarshal agents tenant now_ms now user device
            printer l b f).1.tasks
  create_read-kept user device printer l b none m = m
  create_read-kept user device printer l b (some f) m =
      create_with_login-kept user device printer f b l m

-- CreateTask, also when it merges, changes no task but those of the tenant that wait: a task of
-- another tenant, or one that a machine has claimed or that is over, stands in the table as before,
-- whatever the agents' centre answers.
pub create_task-kept :
    (to_upper : String → String) (sprint marshal : Json → String)
    (unmarshal : String → Option Fields) (agents : Agents) (tenant now_ms now : ℕ) (t : PrintTask)
    (user device : ℕ) (asked raw printer : String) (settings : List KdzsSetting)
    (accounts : List KdzsAccount) (b : TaskBoard)
    → (t.tenant_id == tenant && is_pending t.status) ≡ false
    → Memᴰ t b.tasks
    → Memᴰ t
        (create_task to_upper sprint marshal unmarshal agents tenant now_ms now user device asked
          raw printer settings accounts b).1.tasks
unfolding create_task
create_task-kept to_upper sprint marshal unmarshal agents tenant now_ms now t user device asked raw
      printer settings accounts b other m =
    let there = λ (x : Result TaskAnswer × TaskBoard). Memᴰ t x.1.tasks in
    if_holds there (device == 0 || is_empty raw) _ _ m (
      if_holds there (not agents.is_configured) _ _ m (
        create_read-kept to_upper sprint marshal unmarshal agents tenant now_ms now t other user
          device (trim_space printer) (resolve_print_login tenant asked settings accounts) b
          (unmarshal raw) m))
