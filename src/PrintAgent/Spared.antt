-- ===== src/PrintAgent/Spared.antt =====
-- What the automatic confirmation leaves alone.
use shipping_core.Base.{
  ℕ, ◌≡◌, refl, ap₂, ◌∙◌, String, true, not, ◌||◌, Option, none, some, List, [], ◌∷◌, ◌==◌,
  if◌then◌else◌, map, if_holds, if_cases, Bool-cases, inl, inr,
}
use shipping_core.Base.Text.{is_empty, str_eq}
use shipping_core.Base.Table.{update_where}
use shipping_core.Errors.{Result, ok, err}
use shipping_core.Plan.Rows.{PlanTable}
use shipping_core.Shipment.Model.{Shipment}
use shipping_core.Shipment.World.{World}
use shipping_core.Shipment.Snapshot.{OrderSnapshotDto}
use shipping_core.Shipment.Confirm.{confirm_kdzs_ship}
use shipping_core.PrintAgent.State.{PrintTask}
use shipping_core.PrintAgent.Payload.{Fields, get_field}
use shipping_core.PrintAgent.Numbers.{payload_bool}
use shipping_core.PrintAgent.AutoConfirm.{
  SyncState, SyncOutside, write, is_none, payload_order_id, has_many, is_off, normal_tenant,
  counts_as_confirmed, request_of, confirmed_row, confirm_answered, confirm_order, read_some,
  set_mail_no, with_mail_no, mail_no_of, confirm_payload, maybe_auto_confirm_ship,
}

-- The tasks, without the two columns that a confirmation writes for those with the key.
abbrev pub besides : ℕ → PrintTask → PrintTask
besides id r = if r.id == id then record r { mail_no = ""; ship_confirmed_at = none } else r

besides-update :
    (id : ℕ) (f : PrintTask → PrintTask) (rows : List PrintTask)
    → ((r : PrintTask) → (r.id == id) ≡ true → besides id (f r) ≡ besides id r)
    → map (besides id) (update_where (λ (t : PrintTask). t.id == id) f rows) ≡ map (besides id) rows
besides-update id f [] same = refl
besides-update id f (r ∷ rows) same =
    ap₂ ◌∷◌ (if_cases (λ x. besides id x ≡ besides id r) (r.id == id) (f r) r (same r) (λ e. refl))
      (besides-update id f rows same)

module _ (o : SyncOutside) (now : ℕ) (t : PrintTask) where
  -- The other tasks, and the other columns of the task, stay.
  abbrev pub Spares : List PrintTask → SyncState → Type 0
  Spares tasks st' = map (besides t.id) st'.tasks ≡ map (besides t.id) tasks

  confirm_answered-Spares :
      (mail_no : String) (tasks : List PrintTask) (x : Result Shipment × World × PlanTable)
      → Spares tasks (confirm_answered o now t mail_no tasks x)
  confirm_answered-Spares mail_no tasks (ok s, w, plans) =
      besides-update t.id (confirmed_row o now mail_no) tasks (λ r e. rw e refl)
  confirm_answered-Spares mail_no tasks (err e, w, plans) =
      if_holds (Spares tasks) (counts_as_confirmed e) _ _
        (besides-update t.id (confirmed_row o now mail_no) tasks (λ r e. rw e refl)) refl

  confirm_order-Spares :
      (m : Fields) (order_id : ℕ) (mail_no : String) (st : SyncState)
      (order : Option OrderSnapshotDto)
      → Spares st.tasks (confirm_order o now t m order_id mail_no st order)
  confirm_order-Spares m order_id mail_no st none = refl
  confirm_order-Spares m order_id mail_no st (some order) =
      if_holds (Spares st.tasks) o.can_issue _ _
        (confirm_answered-Spares mail_no st.tasks (
          confirm_kdzs_ship o.order_centre (normal_tenant t.tenant_id) now
            (request_of o now m order_id mail_no order) st.world st.plans))
        refl

  with_mail_no-Spares :
      (m : Fields) (order_id : ℕ) (mail_no : String) (st : SyncState)
      → Spares st.tasks (with_mail_no o now t m order_id mail_no st)
  with_mail_no-Spares m order_id mail_no st = elim (Bool-cases (is_empty mail_no)) [
    | inl e ↦ rw e refl
    | inr e ↦ elim (Bool-cases (str_eq t.mail_no mail_no)) [
      | inl d ↦
          rw (e, d)
            (confirm_order-Spares m order_id mail_no st (read_some o now (get_field "order" m)))
      | inr d ↦
          rw (e, d)
            (confirm_order-Spares m order_id mail_no (write t.id (set_mail_no o now mail_no) st)
                (read_some o now (get_field "order" m))
              ∙ besides-update t.id (set_mail_no o now mail_no) st.tasks (λ r e. rw e refl))
    ]
  ]

  confirm_payload-Spares :
      (result : String) (st : SyncState) (read : Option Fields)
      → Spares st.tasks (confirm_payload o now t result st read)
  confirm_payload-Spares result st none = refl
  confirm_payload-Spares result st (some m) =
      if_holds (Spares st.tasks)
        (payload_order_id m == 0
          || is_off (payload_bool (get_field "autoConfirmShip" m))
          || has_many (get_field "orders" m))
        _ _ refl (with_mail_no-Spares m (payload_order_id m) (mail_no_of o now t result) st)

  pub maybe_auto_confirm_ship-Spares :
      (result : String) (st : SyncState)
      → Spares st.tasks (maybe_auto_confirm_ship o now t result st)
  unfolding maybe_auto_confirm_ship
  maybe_auto_confirm_ship-Spares result st =
      if_holds (Spares st.tasks) (not (is_none t.ship_confirmed_at) || not o.can_confirm) _ _ refl
        (confirm_payload-Spares result st (o.unmarshal t.payload))
