-- ===== src/Shipment/Sync.antt =====
-- What the order centre tells: `UpsertKdzsFromSync`, `SyncShippedAtByMailNo` and
-- `DeleteByOrderCore`. A time in a request stands as `parseFlexibleTime` reads it.
use shipping_core.Base.{
  ℕ, String, Bool, false, not, ◌&&◌, ◌||◌, Option, none, some, ◌==◌, ltb, if◌then◌else◌, filter,
  length,
}
use shipping_core.Base.Text.{is_empty, trim_space, str_eq, equal_fold}
use shipping_core.Base.Table.{update_where, delete_where}
use shipping_core.Errors.{Result, ok, err, bad_request}
use shipping_core.Shipment.Model.{Shipment, is_cancelled}
use shipping_core.Shipment.Channel.{is_sf_managed_shipment, has_sf_evidence}
use shipping_core.Shipment.World.{Outside, World, get_shipment}
use shipping_core.Shipment.Snapshot.{OrderSnapshotDto, express_company_or, new_shipment}
use shipping_core.Shipment.Confirm.{find_active_kdzs_shipment, update_row, add_shipment, time_or}

pub record UpsertKdzsFromSyncDto : Type 0 where
  pub order_id : ℕ
  pub express_no : String
  pub express_company : String
  pub shipped_at : Option ℕ
  pub order : OrderSnapshotDto

-- The shipment is the carrier's, which the helper's synchronisation must not take away.
abbrev pub stays_with_carrier : Shipment → Bool
stays_with_carrier s =
    is_sf_managed_shipment s || has_sf_evidence s || equal_fold (trim_space s.ship_via) "sf"

abbrev pub set_time : Option ℕ → Shipment → Shipment
set_time none s = s
set_time (some t) s = record s { shipped_at = some t }

abbrev pub set_company : String → Shipment → Shipment
set_company company s =
    if is_empty (trim_space s.express_company) then record s { express_company = company } else s

-- The updates of a shipment of the carrier, and of one of the helper.
unfoldable pub carrier_updates : String → Option ℕ → Shipment → Shipment
carrier_updates company t s =
    let s' = set_company company (set_time t s) in
    if equal_fold (trim_space s.ship_via) "sf" then s' else record s' { ship_via = "sf" }

unfoldable pub helper_updates : String → Option ℕ → Shipment → Shipment
helper_updates company t s =
    set_company company (set_time t (record s { printed_at = none; ship_via = "kdzs" }))

module _ (o : Outside) (tenant now : ℕ) where
  abbrev pub upsert_found :
      UpsertKdzsFromSyncDto → World → Option Shipment → Result Shipment × World
  upsert_found inp w (some s) =
      let company = express_company_or inp.express_company in
      let w' =
        update_row tenant s.id
          (if stays_with_carrier s
            then carrier_updates company inp.shipped_at
            else helper_updates company inp.shipped_at)
          w in
      (get_shipment o tenant s.id w', w')
  upsert_found inp w none =
      let s =
        new_shipment w.next_shipment tenant inp.order_id (trim_space inp.express_no)
          (express_company_or inp.express_company) none false (time_or now inp.shipped_at)
          inp.order in
      let w' = add_shipment s w in (get_shipment o tenant s.id w', w')

  unfoldable pub upsert_kdzs_from_sync : UpsertKdzsFromSyncDto → World → Result Shipment × World
  upsert_kdzs_from_sync inp w =
      if inp.order_id == 0 || is_empty (trim_space inp.express_no)
      then (err bad_request, w)
      else upsert_found inp w
          (find_active_kdzs_shipment tenant inp.order_id (trim_space inp.express_no) w.shipments)

abbrev pub is_mailed : ℕ → ℕ → String → Shipment → Bool
is_mailed tenant order_id mail_no r =
    r.tenant_id == tenant
    && str_eq r.mail_no mail_no
    && not (is_cancelled r.status)
    && (order_id == 0 || r.order_core_order_id == order_id)

abbrev pub sync_time : ℕ → ℕ → String → World → Option ℕ → Result ℕ × World
sync_time tenant order_id mail_no w none = (err bad_request, w)
sync_time tenant order_id mail_no w (some t) = if is_empty mail_no then (err bad_request, w) else (
  ok (length (filter (is_mailed tenant order_id mail_no) w.shipments)),
  record w {
    shipments =
        update_where (is_mailed tenant order_id mail_no) (λ r. record r { shipped_at = some t })
          w.shipments;
  },
)

-- The result is the number of rows that were updated.
unfoldable pub sync_shipped_at_by_mail_no : ℕ → ℕ → String → Option ℕ → World → Result ℕ × World
sync_shipped_at_by_mail_no tenant order_id mail_no shipped_at w =
    sync_time tenant order_id (trim_space mail_no) w shipped_at

-- The rows of an order, or with a source's number, or both.
abbrev pub belongs_to : ℕ → ℕ → String → Shipment → Bool
belongs_to tenant order_id source r =
    r.tenant_id == tenant
    && ((ltb 0 order_id && r.order_core_order_id == order_id)
        || (not (is_empty source) && (str_eq r.source_ref source || str_eq r.source_tid source)))

-- The result is the number of rows that were deleted; a row goes with its items.
unfoldable pub delete_by_order_core : ℕ → ℕ → String → World → Result ℕ × World
delete_by_order_core tenant order_id source_ref w =
    let source = trim_space source_ref in
    if order_id == 0 && is_empty source then (err bad_request, w) else (
      ok (length (filter (belongs_to tenant order_id source) w.shipments)),
      record w { shipments = delete_where (belongs_to tenant order_id source) w.shipments },
    )
