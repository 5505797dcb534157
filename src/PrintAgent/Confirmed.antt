-- ===== src/PrintAgent/Confirmed.antt =====
-- What the automatic confirmation does to tasks and shipments.
use shipping_core.Base.{ℕ, ◌≡◌, ◌≢◌, String, true, false, Option, some, List, map, All, ◌⊎◌}
use shipping_core.Base.Text.{is_empty, str_contains}
use shipping_core.Errors.{Err, order_core, Result, ok, err}
use shipping_core.Shipment.Model.{Shipment}
use shipping_core.Shipment.World.{World}
use shipping_core.Shipment.Snapshot.{OrderSnapshotDto}
use shipping_core.Shipment.Confirm.{confirm_kdzs_ship}
use shipping_core.PrintAgent.State.{PrintTask}
use shipping_core.PrintAgent.Payload.{Fields}
use shipping_core.PrintAgent.Spared.{besides}
use shipping_core.PrintAgent.AutoConfirm.{
  SyncState, SyncOutside, payload_order_id, normal_tenant, request_of,
}

-- The marks of the tasks, which tell whether their shipping is confirmed.
abbrev pub marks : SyncState → List (Option ℕ)
marks st = map (λ (t : PrintTask). t.ship_confirmed_at) st.tasks

-- An error of the order centre that says that the goods have been shipped, or that the shipment is
-- there.
abbrev pub SaysDone : Err → Type 0
SaysDone (order_core reason) =
    (str_contains reason "超过剩余可发" ≡ true)
    ⊎ (str_contains reason "已全部发货" ≡ true)
    ⊎ (str_contains reason "无需重复发货" ≡ true)
    ⊎ (str_contains reason "已发货" ≡ true)
    ⊎ (str_contains reason "发货单已存在" ≡ true)
SaysDone _ = ⊥

-- An answer of ConfirmKdzsShip after which a task gets the mark.
abbrev pub IsConfirmed : Result Shipment → Type 0
IsConfirmed (ok s) = Unit
IsConfirmed (err e) = SaysDone e

-- Every row with the key has the mark and the parcel's number.
abbrev pub Marked : ℕ → ℕ → String → List PrintTask → Type 0
Marked id now mail_no tasks =
    All (λ (r : PrintTask). r.id ≡ id → (r.ship_confirmed_at ≡ some now) × (r.mail_no ≡ mail_no))
      tasks

module _ (o : SyncOutside) (now : ℕ) (t : PrintTask) where
  -- What became of the marks: no task got another mark; or ConfirmKdzsShip was run, with a number, for
  -- the payload's order, its answer counts as confirmed, its tables are the new ones, and the task's
  -- rows have the mark and the number.
  abbrev pub Marking : SyncState → SyncState → Type 0
  Marking st st' =
      (marks st' ≡ marks st)
      ⊎ ((m : Fields) × (mail_no : String) × (order : OrderSnapshotDto) × (o.unmarshal t.payload
            ≡ some m)
          × (payload_order_id m ≢ 0)
          × (is_empty mail_no ≡ false)
          × (let x =
                confirm_kdzs_ship o.order_centre (normal_tenant t.tenant_id) now
                  (request_of o now m (payload_order_id m) mail_no order) st.world st.plans in
              IsConfirmed x.0
              × (st'.world ≡ x.1)
              × (st'.plans ≡ x.2)
              × Marked t.id now mail_no st'.tasks))

  abbrev pub Outcome : SyncState → SyncState → Type 0
  Outcome st st' = (map (besides t.id) st'.tasks ≡ map (besides t.id) st.tasks) × Marking st st'
