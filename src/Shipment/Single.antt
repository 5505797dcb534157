-- ===== src/Shipment/Single.antt =====
-- An order has at most one shipment under a parcel number that is not cancelled.
use shipping_core.Base.{
  ℕ, ◌+◌, ◌≤◌, ◌≡◌, ◌≢◌, refl, sym, subst, String, Bool, true, false, ◌||◌, Option, none, some,
  List, [], ◌∷◌, ◌++◌, ◌==◌, if◌then◌else◌, filter, length, map, Bool-cases, Option-cases, arith,
  inl, inr,
}
use shipping_core.Base.Text.{is_empty, trim_space, str_eq, eq_iff, first_non_empty_trim}
use shipping_core.Base.Text.Trim.{trim_space_idempotent}
use shipping_core.Base.Table.{first, update_where}
use shipping_core.Errors.{Result, ok, err}
use shipping_core.Plan.Rows.{PlanTable}
use shipping_core.Shipment.Model.{Shipment}
use shipping_core.Shipment.World.{Outside, World, is_row, ship_order_core}
use shipping_core.Shipment.Waybill.{reported_items}
use shipping_core.Shipment.Snapshot.{express_company_or, goods_item}
use shipping_core.Shipment.Confirm.{
  ConfirmKdzsShipDto, is_active, find_active_kdzs_shipment, aligned, grouped, reuse_answered,
  create_answered, is_order_already_shipped_err, confirm_kdzs_ship,
}
use shipping_core.Shipment.Issued.{ship_order_core-shipments}

-- How many shipments of the order are active under the number.
abbrev pub active : ℕ → ℕ → String → List Shipment → ℕ
active tenant order_id no' rows = length (filter (is_active tenant order_id no') rows)

-- A change that keeps what the count reads.
abbrev pub Keeps : (Shipment → Shipment) → Type 0
Keeps f =
    (r : Shipment)
    → ((f r).tenant_id ≡ r.tenant_id)
      × ((f r).order_core_order_id ≡ r.order_core_order_id)
      × ((f r).mail_no ≡ r.mail_no)
      × ((f r).status ≡ r.status)

module _ (tenant order_id : ℕ) (no' : String) where
  active-Keeps :
      (f : Shipment → Shipment) (r : Shipment)
      → Keeps f
      → is_active tenant order_id no' (f r) ≡ is_active tenant order_id no' r
  active-Keeps f r h = let (a, b, c, d) = h r in rw (a, b, c, d)

  active-update :
      (p : Shipment → Bool) (f : Shipment → Shipment) (rows : List Shipment)
      → Keeps f
      → active tenant order_id no' (update_where p f rows) ≡ active tenant order_id no' rows
  active-update p f [] h = refl
  active-update p f (r ∷ rs) h =
      let rest = active-update p f rs h in
      let same = active-Keeps f r h in
      elim (Bool-cases (p r)) [
        | inl e ↦ rw (e, same) (ground (arith))
        | inr e ↦ rw e (ground arith)
      ]

  active-append :
      (rows : List Shipment) (s : Shipment)
      → active tenant order_id no' (rows ++ s ∷ []) ≤ active tenant order_id no' rows + 1
  active-append [] s = ground arith
  active-append (r ∷ rs) s = ground (arith, active-append rs s)

  active-none :
      (rows : List Shipment)
      → first (is_active tenant order_id no') rows ≡ none
      → active tenant order_id no' rows ≡ 0
  active-none [] h = refl
  active-none (r ∷ rs) h = ground (arith, active-none rs)

  active-append_other :
      (rows : List Shipment) (s : Shipment)
      → is_active tenant order_id no' s ≡ false
      → active tenant order_id no' (rows ++ s ∷ []) ≡ active tenant order_id no' rows
  active-append_other [] s e = rw e
  active-append_other (r ∷ rs) s e = ground (arith, active-append_other rs s)

-- No order has two shipments of the tenant under one parcel number that are not cancelled.
abbrev pub IsSingle : ℕ → List Shipment → Type 0
IsSingle tenant rows =
    (order_id : ℕ) (no' : String)
    → order_id ≢ 0
    → is_empty no' ≡ false
    → active tenant order_id no' rows ≤ 1

module _ (tenant : ℕ) (rows : List Shipment) (single : IsSingle tenant rows) where
  pub IsSingle-append :
      (s : Shipment)
      → first (is_active tenant s.order_core_order_id s.mail_no) rows ≡ none
      → IsSingle tenant (rows ++ s ∷ [])
  IsSingle-append s free order_id no' nz full =
      elim (Bool-cases (is_active tenant order_id no' s)) [
        | inr e ↦
            let same = active-append_other tenant order_id no' rows s e in
            let one = single order_id no' nz full in omega (arith, same, one)
        | inl e ↦
            let order_eq : s.order_core_order_id ≡ order_id = ground arith in
            let no_eq : str_eq s.mail_no no' ≡ true = ground arith in
            let free' : first (is_active tenant order_id no') rows ≡ none =
              subst (λ k. first (is_active tenant k no') rows ≡ none) order_eq
                (subst (λ k. first (is_active tenant s.order_core_order_id k) rows ≡ none)
                  ((eq_iff s.mail_no no').0 no_eq) free) in
            let zero_before = active-none tenant order_id no' rows free' in
            let at_most = active-append tenant order_id no' rows s in
            omega (arith, zero_before, at_most)
      ]

  pub IsSingle-update :
      (p : Shipment → Bool) (f : Shipment → Shipment)
      → Keeps f
      → IsSingle tenant (update_where p f rows)
  IsSingle-update p f h order_id no' nz full =
      let same = active-update tenant order_id no' p f rows h in
      let one = single order_id no' nz full in omega (arith, same, one)

Keeps-confirmed : (group t : Option ℕ) → Keeps (λ r. grouped group (aligned t r))
Keeps-confirmed none none r = (refl, refl, refl, refl)
Keeps-confirmed none (some t) r = (refl, refl, refl, refl)
Keeps-confirmed (some g) none r = (refl, refl, refl, refl)
Keeps-confirmed (some g) (some t) r = (refl, refl, refl, refl)

-- A search for a trimmed number that finds nothing.
pub find-none :
    (tenant order_id : ℕ) (no' : String) (rows : List Shipment)
    → (order_id == 0 || is_empty (trim_space no')) ≡ false
    → find_active_kdzs_shipment tenant order_id (trim_space no') rows ≡ none
    → first (is_active tenant order_id (trim_space no')) rows ≡ none
unfolding find_active_kdzs_shipment
find-none tenant order_id no' rows valid h = rw (trim_space_idempotent no', valid) at h

module _ (o : Outside) (tenant now : ℕ) (inp : ConfirmKdzsShipDto) (plans : PlanTable) (w : World)
    (single : IsSingle tenant w.shipments) where
  reuse_answered-IsSingle :
      (s : Shipment) (x : Result (Option ℕ) × World)
      → x.1.shipments ≡ w.shipments
      → IsSingle tenant (reuse_answered o tenant now inp s x).1.shipments
  reuse_answered-IsSingle s (ok t, w') same =
      let before = subst (IsSingle tenant) (sym same) single in
      IsSingle-update tenant w'.shipments before (is_row tenant s.id)
        (λ r. grouped inp.group_id (aligned t r)) (Keeps-confirmed inp.group_id t)
  reuse_answered-IsSingle s (err e, w') same =
      let before = subst (IsSingle tenant) (sym same) single in
      elim (Bool-cases (is_order_already_shipped_err e)) [
        | inl h ↦ rw h before
        | inr h ↦ rw h before
      ]

  create_answered-IsSingle :
      (x : Result (Option ℕ) × World)
      → x.1.shipments ≡ w.shipments
      → first (is_active tenant inp.order_id (trim_space inp.express_no)) w.shipments ≡ none
      → IsSingle tenant (create_answered o tenant now inp plans x).1.shipments
  create_answered-IsSingle (err e, w') same free = subst (IsSingle tenant) (sym same) single
  create_answered-IsSingle (ok t, w') same free =
      let before = subst (IsSingle tenant) (sym same) single in
      IsSingle-append tenant w'.shipments before _ (
        subst
          (λ rows. first (is_active tenant inp.order_id (trim_space inp.express_no)) rows ≡ none)
          (sym same) free)

-- ConfirmKdzsShip adds no second active shipment: if no order has two shipments of the tenant under
-- one number that are not cancelled, none has afterwards, whatever the order centre answers.
pub confirm_kdzs_ship-IsSingle :
    (o : Outside) (tenant now : ℕ) (inp : ConfirmKdzsShipDto) (w : World) (plans : PlanTable)
    → IsSingle tenant w.shipments
    → IsSingle tenant (confirm_kdzs_ship o tenant now inp w plans).1.shipments
unfolding confirm_kdzs_ship
confirm_kdzs_ship-IsSingle o tenant now inp w plans single =
    elim (Bool-cases (inp.order_id == 0 || is_empty (trim_space inp.express_no))) [
      | inl e ↦ rw e single
      | inr e ↦
          elim (Option-cases (
            find_active_kdzs_shipment tenant inp.order_id (trim_space inp.express_no)
              w.shipments)) [
                | inl free ↦
                    let told =
                      ship_order_core o inp.order_id (express_company_or inp.express_company)
                        (trim_space inp.express_no)
                        (if inp.reship then [] else map goods_item inp.order.goods) false w in
                    rw (e, free)
                      (create_answered-IsSingle o tenant now inp plans w single told
                        (ship_order_core-shipments o inp.order_id _ _ _ false w)
                        (find-none tenant inp.order_id inp.express_no w.shipments e free))
                | inr (s, found) ↦ elim (Bool-cases inp.reship) [
                  | inl again ↦ rw (e, found, again) single
                  | inr plain ↦
                      let company =
                        first_non_empty_trim
                          (express_company_or inp.express_company ∷ s.express_company ∷ []) in
                      let told =
                        ship_order_core o inp.order_id company (trim_space inp.express_no)
                          (reported_items s) false w in
                      rw (e, found, plain)
                        (reuse_answered-IsSingle o tenant now inp plans w single s told
                          (ship_order_core-shipments o inp.order_id company _ _ false w))
                ]
              ]
    ]
