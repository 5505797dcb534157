-- ===== src/Shipment/Synced.antt =====
-- What the synchronisation with the order centre keeps, and what a deletion removes.
use shipping_core.Base.{
  ℕ, ◌+◌, ◌≡◌, refl, ◌∙◌, subst, String, Bool, true, false, ◌&&◌, ◌||◌, Option, none, some, List,
  [], ◌∷◌, ◌==◌, if◌then◌else◌, filter, length, Bool-cases, Option-cases, arith, inl, inr,
}
use shipping_core.Base.Text.{is_empty, trim_space, equal_fold}
use shipping_core.Base.Table.{delete_where}
use shipping_core.Errors.{ok, ok-injective}
use shipping_core.Shipment.Model.{Shipment}
use shipping_core.Shipment.World.{Outside, World, is_row}
use shipping_core.Shipment.Confirm.{find_active_kdzs_shipment}
use shipping_core.Shipment.Snapshot.{express_company_or}
use shipping_core.Shipment.Sync.{
  UpsertKdzsFromSyncDto, stays_with_carrier, set_time, set_company, carrier_updates, helper_updates,
  upsert_kdzs_from_sync, belongs_to, delete_by_order_core,
}
use shipping_core.Shipment.Single.{Keeps, IsSingle, IsSingle-append, IsSingle-update, find-none}

Keeps-set_time : (t : Option ℕ) → Keeps (set_time t)
Keeps-set_time none r = (refl, refl, refl, refl)
Keeps-set_time (some t) r = (refl, refl, refl, refl)

Keeps-set_company : (company : String) → Keeps (set_company company)
Keeps-set_company company r = elim (Bool-cases (is_empty (trim_space r.express_company))) [
  | inl e ↦ rw e (refl, refl, refl, refl)
  | inr e ↦ rw e (refl, refl, refl, refl)
]

Keeps-both : (f g : Shipment → Shipment) → Keeps f → Keeps g → Keeps (λ r. f (g r))
Keeps-both f g hf hg r =
    let (a, b, c, d) = hg r in let (a', b', c', d') = hf (g r) in (a' ∙ a, b' ∙ b, c' ∙ c, d' ∙ d)

Keeps-helper : (company : String) (t : Option ℕ) → Keeps (helper_updates company t)
unfolding helper_updates
Keeps-helper company t =
    Keeps-both (set_company company)
      (λ r. set_time t (record r { printed_at = none; ship_via = "kdzs" }))
      (Keeps-set_company company)
      (Keeps-both (set_time t) (λ r. record r { printed_at = none; ship_via = "kdzs" })
        (Keeps-set_time t) (λ r. (refl, refl, refl, refl)))

Keeps-carrier : (company : String) (t : Option ℕ) → Keeps (carrier_updates company t)
unfolding carrier_updates
Keeps-carrier company t r =
    let keeps =
      Keeps-both (set_company company) (set_time t) (Keeps-set_company company) (Keeps-set_time t)
        r in
    elim (Bool-cases (equal_fold (trim_space r.ship_via) "sf")) [
      | inl e ↦ rw e keeps
      | inr e ↦ rw e keeps
    ]

Keeps-upsert :
    (b : Bool) (company : String) (t : Option ℕ)
    → Keeps (if b then carrier_updates company t else helper_updates company t)
Keeps-upsert true company t = Keeps-carrier company t
Keeps-upsert false company t = Keeps-helper company t

-- UpsertKdzsFromSync adds no second active shipment: if no order has two shipments of the tenant
-- under one number that are not cancelled, none has afterwards.
pub upsert_kdzs_from_sync-IsSingle :
    (o : Outside) (tenant now : ℕ) (inp : UpsertKdzsFromSyncDto) (w : World)
    → IsSingle tenant w.shipments
    → IsSingle tenant (upsert_kdzs_from_sync o tenant now inp w).1.shipments
unfolding upsert_kdzs_from_sync
upsert_kdzs_from_sync-IsSingle o tenant now inp w single =
    elim (Bool-cases (inp.order_id == 0 || is_empty (trim_space inp.express_no))) [
      | inl e ↦ rw e single
      | inr e ↦
          elim (Option-cases (
            find_active_kdzs_shipment tenant inp.order_id (trim_space inp.express_no)
              w.shipments)) [
                | inl free ↦
                    let unused = find-none tenant inp.order_id inp.express_no w.shipments e free in
                    rw (e, free) (IsSingle-append tenant w.shipments single _ unused)
                | inr (s, found) ↦
                    let company = express_company_or inp.express_company in
                    rw (e, found)
                      (IsSingle-update tenant w.shipments single (is_row tenant s.id)
                        (if stays_with_carrier s
                          then carrier_updates company inp.shipped_at
                          else helper_updates company inp.shipped_at)
                        (Keeps-upsert (stays_with_carrier s) company inp.shipped_at))
              ]
    ]

filter-delete : (p : Shipment → Bool) (rows : List Shipment) → filter p (delete_where p rows) ≡ []
filter-delete p [] = refl
filter-delete p (r ∷ rs) = ground (arith, filter-delete p rs)

length-delete :
    (p : Shipment → Bool) (rows : List Shipment)
    → length (delete_where p rows) + length (filter p rows) ≡ length rows
length-delete p [] = refl
length-delete p (r ∷ rs) = ground (arith, length-delete p rs)

-- A deletion that succeeds leaves no row of the order or with the source's number in the tenant, and
-- its result is the number of rows that are gone.
pub delete_by_order_core_counts :
    (tenant order_id n : ℕ) (source_ref : String) (w : World)
    → (delete_by_order_core tenant order_id source_ref w).0 ≡ ok n
    → let rows' = (delete_by_order_core tenant order_id source_ref w).1.shipments in
      (filter (belongs_to tenant order_id (trim_space source_ref)) rows' ≡ [])
      × (length rows' + n ≡ length w.shipments)
unfolding delete_by_order_core
delete_by_order_core_counts tenant order_id n source_ref w h =
    let p = belongs_to tenant order_id (trim_space source_ref) in
    elim (Bool-cases (order_id == 0 && is_empty (trim_space source_ref))) [
      | inl e ↦ cc (rw e at h)
      | inr e ↦
          let same : length (filter p w.shipments) ≡ n = ok-injective (rw e at h) in
          rw e (
            filter-delete p w.shipments,
            subst (λ (k : ℕ). length (delete_where p w.shipments) + k ≡ length w.shipments) same
                (length-delete p w.shipments),
          )
    ]
