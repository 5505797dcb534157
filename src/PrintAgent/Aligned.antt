-- ===== src/PrintAgent/Aligned.antt =====
-- The alignment of the print tasks adds no second shipment.
use shipping_core.Base.{
  ℕ, ◌≡◌, sym, subst, String, Bool, false, not, ◌&&◌, ◌||◌, Option, none, some, List, [], ◌∷◌, ◌==◌,
  map, if_holds, All,
}
use shipping_core.Base.Text.{is_empty, str_eq, codes_eq, bytes}
use shipping_core.Errors.{Result, ok, err}
use shipping_core.Plan.Rows.{PlanTable}
use shipping_core.Shipment.Model.{Shipment}
use shipping_core.Shipment.World.{World, Answer, answer, refusal}
use shipping_core.Shipment.Snapshot.{OrderSnapshotDto}
use shipping_core.Shipment.Confirm.{confirm_kdzs_ship}
use shipping_core.Shipment.Single.{IsSingle, confirm_kdzs_ship-IsSingle}
use shipping_core.PrintAgent.State.{TaskStatus, failed, PrintTask, is_print_task_terminal}
use shipping_core.PrintAgent.Payload.{Fields, get_field}
use shipping_core.PrintAgent.Tasks.{map_agents_job_status}
use shipping_core.PrintAgent.Numbers.{payload_bool}
use shipping_core.PrintAgent.AutoConfirm.{
  JobStatus, SyncState, SyncOutside, write, is_none, is_unconfirmed, status_eq, payload_order_id,
  has_many, is_off, normal_tenant, counts_as_confirmed, request_of, confirm_answered, confirm_order,
  read_some, with_mail_no, mail_no_of, confirm_payload, maybe_auto_confirm_ship,
}
use shipping_core.PrintAgent.Sync.{
  has_old_job, adopt_job, adopt_rows, job_by_id, needed_jobs, moved, confirm_done, unmoved, sync_as,
  sync_with, sync_rows, jobs_answered, ask_jobs, sync_tasks_from_agents,
}

-- No order of the tenant has two active shipments under one number.
abbrev Single : ℕ → SyncState → Type 0
Single tenant st = IsSingle tenant st.world.shipments

abbrev pub Owns : ℕ → PrintTask → Type 0
Owns tenant t = normal_tenant t.tenant_id ≡ tenant

module _ (o : SyncOutside) (now tenant : ℕ) where
  confirm_answered-Single :
      (t : PrintTask) (mail_no : String) (tasks : List PrintTask)
      (x : Result Shipment × World × PlanTable)
      → IsSingle tenant x.1.shipments
      → Single tenant (confirm_answered o now t mail_no tasks x)
  confirm_answered-Single t mail_no tasks (ok s, w, plans) h = h
  confirm_answered-Single t mail_no tasks (err e, w, plans) h =
      if_holds (Single tenant) (counts_as_confirmed e) _ _ h h

  confirm_order-Single :
      (t : PrintTask) (m : Fields) (order_id : ℕ) (mail_no : String) (st : SyncState)
      (order : Option OrderSnapshotDto)
      → Owns tenant t
      → Single tenant st
      → Single tenant (confirm_order o now t m order_id mail_no st order)
  confirm_order-Single t m order_id mail_no st none own h = h
  confirm_order-Single t m order_id mail_no st (some order) own h =
      let inp = request_of o now m order_id mail_no order in
      let kept =
        subst
          (λ k.
            IsSingle tenant
              (confirm_kdzs_ship o.order_centre k now inp st.world st.plans).1.shipments)
          (sym own)
          (confirm_kdzs_ship-IsSingle o.order_centre tenant now inp st.world st.plans h) in
      if_holds (Single tenant) o.can_issue _ _
        (confirm_answered-Single t mail_no st.tasks
          (confirm_kdzs_ship o.order_centre (normal_tenant t.tenant_id) now inp st.world st.plans)
          kept)
        h

  module _ (t : PrintTask) (result : String) (own : Owns tenant t) where
    with_mail_no-Single :
        (m : Fields) (order_id : ℕ) (mail_no : String) (st : SyncState)
        → Single tenant st
        → Single tenant (with_mail_no o now t m order_id mail_no st)
    with_mail_no-Single m order_id mail_no st h =
        if_holds (Single tenant) (is_empty mail_no) _ _ h (
          confirm_order-Single t m order_id mail_no _ (read_some o now (get_field "order" m)) own
            (if_holds (Single tenant) (str_eq t.mail_no mail_no) st _ h h))

    confirm_payload-Single :
        (st : SyncState) (read : Option Fields)
        → Single tenant st
        → Single tenant (confirm_payload o now t result st read)
    confirm_payload-Single st none h = h
    confirm_payload-Single st (some m) h =
        if_holds (Single tenant)
          (payload_order_id m == 0
            || is_off (payload_bool (get_field "autoConfirmShip" m))
            || has_many (get_field "orders" m))
          _ _ h (with_mail_no-Single m (payload_order_id m) (mail_no_of o now t result) st h)

    confirm_done-Single :
        (st : SyncState) → Single tenant st → Single tenant (confirm_done o now t result st)
    unfolding maybe_auto_confirm_ship
    confirm_done-Single st h =
        if_holds (Single tenant) (is_unconfirmed t) _ _
          (if_holds (Single tenant) (not (is_none t.ship_confirmed_at) || not o.can_confirm) _ _ h
            (confirm_payload-Single st (o.unmarshal t.payload) h))
          h

  moved-Owns :
      (j : JobStatus) (to : TaskStatus) (message : String) (t : PrintTask)
      → Owns tenant t
      → Owns tenant (moved o now j to message t)
  moved-Owns j to message t own =
      if_holds (Owns tenant) (is_print_task_terminal to) _ _
        (if_holds (Owns tenant) (status_eq to TaskStatus.claimed && is_none t.claimed_at) _ t own
          own)
        (if_holds (Owns tenant) (status_eq to TaskStatus.claimed && is_none t.claimed_at) _ t own
          own)

  unmoved-Single :
      (j : JobStatus) (is_failed : Bool) (message : String) (t : PrintTask) (st : SyncState)
      → Owns tenant t
      → Single tenant st
      → Single tenant (unmoved o now j is_failed message t st)
  unmoved-Single j is_failed message t st own h = confirm_done-Single t j.result_json own _ (
      if_holds (Single tenant)
        (is_failed && not (is_empty message) && not (codes_eq t.error_message (bytes message))) _ st
        h h)

  sync_as-Single :
      (j : JobStatus) (x : Option TaskStatus × String) (t : PrintTask) (st : SyncState)
      → Owns tenant t
      → Single tenant st
      → Single tenant (sync_as o now j x t st)
  sync_as-Single j (none, message) t st own h = unmoved-Single j false message t st own h
  sync_as-Single j (some to, message) t st own h =
      if_holds (Single tenant) (status_eq to t.status) _ _
        (unmoved-Single j (status_eq to failed) message t st own h)
        (confirm_done-Single (moved o now j to message t) j.result_json
          (moved-Owns j to message t own) (write t.id (moved o now j to message) st) h)

  sync_with-Single :
      (found : Option JobStatus) (t : PrintTask) (st : SyncState)
      → Owns tenant t
      → Single tenant st
      → Single tenant (sync_with o now found t st)
  sync_with-Single none t st own h = h
  sync_with-Single (some j) t st own h =
      sync_as-Single j (map_agents_job_status j.status j.error_message) t st own h

  sync_rows-Single :
      (jobs : List JobStatus) (rows : List PrintTask) (st : SyncState)
      → All (Owns tenant) rows
      → Single tenant st
      → Single tenant (sync_rows o now jobs rows st)
  unfolding sync_rows
  sync_rows-Single jobs [] st own h = h
  sync_rows-Single jobs (t ∷ ts) st (own, rest) h =
      sync_rows-Single jobs ts _ rest (sync_with-Single (job_by_id t.agents_job_id jobs) t st own h)

  adopt_rows-Single :
      (rows : List PrintTask) (st : SyncState)
      → Single tenant st
      → Single tenant (adopt_rows o now rows st)
  unfolding adopt_rows
  adopt_rows-Single [] st h = h
  adopt_rows-Single (t ∷ ts) st h =
      adopt_rows-Single ts _ (if_holds (Single tenant) (has_old_job t) _ st h h)

  adopted-Owns :
      (rows : List PrintTask) → All (Owns tenant) rows → All (Owns tenant) (map adopt_job rows)
  adopted-Owns [] own = tt
  adopted-Owns (t ∷ ts) (own, rest) =
      (if_holds (Owns tenant) (has_old_job t) _ t own own, adopted-Owns ts rest)

  jobs_answered-Single :
      (rows : List PrintTask) (st : SyncState) (x : Answer (List JobStatus))
      → All (Owns tenant) rows
      → Single tenant st
      → Single tenant (jobs_answered o now rows st x)
  jobs_answered-Single rows st (refusal reason) own h = h
  jobs_answered-Single rows st (answer jobs) own h = sync_rows-Single jobs rows st own h

  ask_jobs-Single :
      (asked : ℕ) (rows : List PrintTask) (ids : List ℕ) (st : SyncState)
      → All (Owns tenant) rows
      → Single tenant st
      → Single tenant (ask_jobs o now asked rows ids st)
  ask_jobs-Single asked rows [] st own h = h
  ask_jobs-Single asked rows (id ∷ ids) st own h =
      jobs_answered-Single rows st (o.get_jobs asked (id ∷ ids)) own h

  -- Aligning the print tasks of a tenant adds no second active shipment: if no order has two
  -- shipments of the tenant under one number that are not cancelled, none has afterwards, whatever
  -- jobs the agents' centre reports, how often it reports them, and whatever the order centre answers
  -- to the confirmations.
  pub sync_tasks_from_agents-IsSingle :
      (asked : ℕ) (rows : List PrintTask) (st : SyncState)
      → All (Owns tenant) rows
      → IsSingle tenant st.world.shipments
      → IsSingle tenant (sync_tasks_from_agents o now asked rows st).world.shipments
  unfolding sync_tasks_from_agents
  sync_tasks_from_agents-IsSingle asked rows st own h =
      if_holds (Single tenant) o.has_agents _ st
        (ask_jobs-Single asked (map adopt_job rows) (needed_jobs (map adopt_job rows))
          (adopt_rows o now rows st) (adopted-Owns rows own) (adopt_rows-Single rows st h))
        h
