-- ===== src/Shipment/Parcels.antt =====
-- A split order is confirmed parcel by parcel: what it keeps and what it refuses.
use shipping_core.Base.{
  ℕ, ◌+◌, ◌≡◌, refl, String, Bool, true, false, ◌&&◌, ◌||◌, List, [], ◌∷◌, ◌==◌, Bool-cases, inl,
  inr,
}
use shipping_core.Errors.{Result, ok, err, bad_request}
use shipping_core.Plan.Rows.{PlanTable}
use shipping_core.Shipment.Model.{Shipment}
use shipping_core.Shipment.World.{Outside, World}
use shipping_core.Shipment.Confirm.{confirm_kdzs_ship}
use shipping_core.Shipment.Single.{IsSingle, confirm_kdzs_ship-IsSingle}
use shipping_core.Shipment.Split.{
  SplitShipLineDto, ConfirmKdzsSplitShipDto, ShipmentGroup, GroupTable, PkgBucket, Confirmed,
  split_line_ok, bucket_lines, put_line, goods_first, with_shipment, after_parcel, confirm_parcels,
  parcel_request, split_confirmed, split_bucketed, confirm_kdzs_split_ship, create_shipment_group,
  group_request, is_nil,
}

with_shipment-world : (s : Shipment) (x : Confirmed) → (with_shipment s x).1 ≡ x.1
with_shipment-world s (err e, w, plans) = refl
with_shipment-world s (ok ss, w, plans) = refl

after_parcel-IsSingle :
    (tenant : ℕ) (no' : String) (rest : World → PlanTable → Confirmed)
    (x : Result Shipment × World × PlanTable)
    → IsSingle tenant x.1.shipments
    → ((w : World) (plans : PlanTable)
        → IsSingle tenant w.shipments
        → IsSingle tenant (rest w plans).1.shipments)
    → IsSingle tenant (after_parcel no' rest x).1.shipments
after_parcel-IsSingle tenant no' rest (err e, w, plans) h next = h
after_parcel-IsSingle tenant no' rest (ok s, w, plans) h next =
    rw (with_shipment-world s (rest w plans)) (next w plans h)

module _ (o : Outside) (tenant : ℕ) (clock : ℕ → ℕ) (inp : ConfirmKdzsSplitShipDto)
    (group : ℕ) where
  confirm_parcels-IsSingle :
      (i : ℕ) (bs : List PkgBucket) (w : World) (plans : PlanTable)
      → IsSingle tenant w.shipments
      → IsSingle tenant (confirm_parcels o tenant clock inp group i bs w plans).1.shipments
  unfolding confirm_parcels
  confirm_parcels-IsSingle i [] w plans h = h
  confirm_parcels-IsSingle i (b ∷ bs) w plans h =
      after_parcel-IsSingle tenant b.express_no
        (λ w' plans'. confirm_parcels o tenant clock inp group (i + 1) bs w' plans')
        (confirm_kdzs_ship o tenant (clock i) (parcel_request inp group b) w plans)
        (confirm_kdzs_ship-IsSingle o tenant (clock i) (parcel_request inp group b) w plans h)
        (λ w' plans' h'. confirm_parcels-IsSingle (i + 1) bs w' plans' h')

split_confirmed-world :
    (tenant : ℕ) (lines : List SplitShipLineDto) (c : ShipmentGroup × GroupTable) (x : Confirmed)
    → (split_confirmed tenant lines c x).1 ≡ x.1
split_confirmed-world tenant lines (g, groups) (err e, w, plans) = refl
split_confirmed-world tenant lines (g, groups) (ok ss, w, plans) = refl

module _ (to_upper : String → String) (o : Outside) (tenant : ℕ) (clock : ℕ → ℕ) where
  split_bucketed-IsSingle :
      (inp : ConfirmKdzsSplitShipDto) (w : World) (plans : PlanTable) (groups : GroupTable)
      (bs : Result (List PkgBucket))
      → IsSingle tenant w.shipments
      → IsSingle tenant (split_bucketed to_upper o tenant clock inp w plans groups bs).1.shipments
  split_bucketed-IsSingle inp w plans groups (err e) h = h
  split_bucketed-IsSingle inp w plans groups (ok bs) h =
      let c = create_shipment_group tenant (group_request inp) groups in
      let done = confirm_parcels o tenant clock inp c.0.id 0 (goods_first bs) w plans in
      rw (split_confirmed-world tenant inp.lines c done)
        (confirm_parcels-IsSingle o tenant clock inp c.0.id 0 (goods_first bs) w plans h)

-- ConfirmKdzsSplitShip adds no second active shipment: if no order has two shipments of the tenant
-- under one number that are not cancelled, none has afterwards, also when a parcel in the middle is
-- refused and the operation ends early.
pub confirm_kdzs_split_ship-IsSingle :
    (to_upper : String → String) (o : Outside) (tenant : ℕ) (clock : ℕ → ℕ)
    (inp : ConfirmKdzsSplitShipDto) (w : World) (plans : PlanTable) (groups : GroupTable)
    → IsSingle tenant w.shipments
    → IsSingle tenant
        (confirm_kdzs_split_ship to_upper o tenant clock inp w plans groups).1.shipments
unfolding confirm_kdzs_split_ship
confirm_kdzs_split_ship-IsSingle to_upper o tenant clock inp w plans groups h =
    elim (Bool-cases (inp.order_id == 0 || is_nil inp.lines)) [
      | inl e ↦ rw e h
      | inr e ↦ rw e (
          split_bucketed-IsSingle to_upper o tenant clock inp w plans groups
            (bucket_lines to_upper [] inp.lines) h)
    ]

-- Whether every line passes the tests.
abbrev pub all_ok : List SplitShipLineDto → Bool
all_ok [] = true
all_ok (l ∷ ls) = split_line_ok l && all_ok ls

bucket_lines_refused :
    (to_upper : String → String) (bs : List PkgBucket) (ls : List SplitShipLineDto)
    → all_ok ls ≡ false
    → bucket_lines to_upper bs ls ≡ err bad_request
unfolding bucket_lines
bucket_lines_refused to_upper bs [] h = cc
bucket_lines_refused to_upper bs (l ∷ ls) h = elim (Bool-cases (split_line_ok l)) [
  | inl e ↦ rw e (bucket_lines_refused to_upper (put_line to_upper l bs) ls (rw e at h))
  | inr e ↦ rw e refl
]

-- ConfirmKdzsSplitShip checks all lines before it acts: if one of them is refused, wherever it
-- stands, the answer is the error, no group is created, nothing is told to the order centre, and
-- neither shipments nor plan change.
pub confirm_kdzs_split_ship_refused :
    (to_upper : String → String) (o : Outside) (tenant : ℕ) (clock : ℕ → ℕ)
    (inp : ConfirmKdzsSplitShipDto) (w : World) (plans : PlanTable) (groups : GroupTable)
    → all_ok inp.lines ≡ false
    → confirm_kdzs_split_ship to_upper o tenant clock inp w plans groups
      ≡ (err bad_request, w, plans, groups)
unfolding confirm_kdzs_split_ship
confirm_kdzs_split_ship_refused to_upper o tenant clock inp w plans groups h =
    elim (Bool-cases (inp.order_id == 0 || is_nil inp.lines)) [
      | inl e ↦ rw e refl
      | inr e ↦ rw (e, bucket_lines_refused to_upper [] inp.lines h) refl
    ]
