-- ===== src/Shipment/Goods.antt =====
-- The goods that a parcel's confirmation names, against the entries of the request.
use shipping_core.Base.{
  ℕ, ◌+◌, ◌-◌, ◌<◌, ◌≤◌, ◌≡◌, ◌≢◌, refl, sym, ap, ◌∙◌, subst, inl, inr, true, false, ◌||◌, Option,
  none, some, List, [], ◌∷◌, ◌++◌, ◌==◌, if◌then◌else◌, Bool-cases, if_cases, All, All-weaken,
  contains, is_some, length, arith,
}
use shipping_core.Base.Int.{ℤ, ◌+ℤ◌, wrap64}
use shipping_core.Shipment.Snapshot.{OrderGoodsDto}
use shipping_core.Shipment.Split.{
  ConfirmKdzsSplitShipDto, PkgBucket, parcel_request, PkgGoods, Merging, find_merged, set_merged,
  add_num, merged_row, free_key, merge_bound, merge_free, merge_one, merge_goods, no_merging,
  snap_goods, goods_by_id, no_goods,
}
use shipping_core.Shipment.Merged.{
  MergedMap, rows_at, nums, find-set, row_at-same, rows_at-fresh, rows_at-append, nums-append,
  contains-append, fresh_of_contains, Valid, Valid-append, Valid-set, Valid-fresh, nums-own,
  nums-fresh, nums-other,
}

-- The quantities of an article after one more entry: added to the one that is there, in an `int` that
-- wraps around.
abbrev pub add_entry : ℤ → List ℤ → List ℤ
add_entry n [] = n ∷ []
add_entry n (m ∷ ms) = wrap64 (m +ℤ n) ∷ ms

-- The quantities of the article `k` after an entry; entries without an article, for 0, stay apart.
abbrev pub with_entry : ℕ → List ℤ → PkgGoods → List ℤ
with_entry k acc g =
    if g.order_item_id == k then if k == 0 then acc ++ g.qty ∷ [] else add_entry g.qty acc else acc

abbrev pub entries : ℕ → List ℤ → List PkgGoods → List ℤ
entries k acc [] = acc
entries k acc (g ∷ gs) = entries k (with_entry k acc g) gs

abbrev rows_of : Merging → List OrderGoodsDto
rows_of st = rows_at st.merged st.merge_order

-- The keys are those of the rows, and the order list names exactly the keys of the map.
abbrev Inv : ℕ → Merging → Type 0
Inv b st =
    Valid b (free_key st.free_idx) st.merged st.merge_order
    × ((j : ℕ) → is_some (find_merged j st.merged) ≡ contains j st.merge_order)

-- One more row, under a new key.
module _ (b low low' j : ℕ) (row : OrderGoodsDto) (m : MergedMap) (ks : List ℕ)
    (fresh : All (λ x. x ≢ j) ks) where
  append-nums :
      (k : ℕ)
      → nums k (rows_at (set_merged j row m) (ks ++ j ∷ [])) ≡ (
          if row.order_item_id == k
          then nums k (rows_at m ks) ++ row.num ∷ []
          else nums k (rows_at m ks))
  append-nums k =
      rw
        (
          rows_at-append (set_merged j row m) ks j,
          row_at-same j row m,
          rows_at-fresh j row m ks fresh,
        )
        (nums-append k (rows_at m ks) row)

  append-known :
      ((i : ℕ) → is_some (find_merged i m) ≡ contains i ks)
      → (i : ℕ) → is_some (find_merged i (set_merged j row m)) ≡ contains i (ks ++ j ∷ [])
  append-known known i =
      rw (find-set j i row m, contains-append i j ks, ← known i) (go (find_merged i m))
    where
      go :
          (x : Option OrderGoodsDto)
          → is_some (if j == i then some row else x) ≡ (is_some x || j == i)
      go none = ground arith
      go (some r) = ground arith

module _ (b : ℕ) (base : OrderGoodsDto) (g : PkgGoods) (st : Merging) (lt : g.order_item_id < b)
    (room : b + st.free_idx + 1 ≤ 18446744073709551615) (inv : Inv b st) where
  -- What one entry does: the invariant holds on, and the entry is counted.
  abbrev Counts : Merging → Type 0
  Counts st' =
      Inv b st'
      × (st'.free_idx ≤ st.free_idx + 1)
      × ((k : ℕ) → nums k (rows_of st') ≡ with_entry k (nums k (rows_of st)) g)

  merge_free-Counts : g.order_item_id ≡ 0 → Counts (merge_free (merged_row base g) st)
  merge_free-Counts free =
      let j = free_key (st.free_idx + 1) in
      let row = merged_row base g in
      let fresh =
        Valid-fresh b (free_key st.free_idx) j st.merged st.merge_order (omega arith) (omega arith)
          inv.0 in
      (
        (
          Valid-append b (free_key st.free_idx) j j row st.merged st.merge_order (omega arith) fresh
              (inr (omega arith, free)) inv.0,
          append-known b j j j row st.merged st.merge_order fresh inv.1,
        ),
        omega arith,
        λ k. append-nums b j j j row st.merged st.merge_order fresh k ∙ counted k,
      )
    where
      counted :
          (k : ℕ)
          → (if g.order_item_id == k
              then nums k (rows_of st) ++ g.qty ∷ []
              else nums k (rows_of st))
            ≡ with_entry k (nums k (rows_of st)) g
      counted k = elim (Bool-cases (g.order_item_id == k)) [
        | inl e ↦ let zero_key : (k == 0) ≡ true = ground arith in rw (e, zero_key) refl
        | inr e ↦ rw e refl
      ]

  merge_new-Counts :
      0 < g.order_item_id
      → find_merged g.order_item_id st.merged ≡ none
      → Counts (merge_bound g (merged_row base g) st none)
  merge_new-Counts gt absent =
      let j = g.order_item_id in
      let row = merged_row base g in
      let unlisted : contains j st.merge_order ≡ false =
        sym (inv.1 j) ∙ ap (λ (x : Option OrderGoodsDto). is_some x) absent in
      let fresh = fresh_of_contains j st.merge_order unlisted in
      (
        (
          Valid-append b (free_key st.free_idx) (free_key st.free_idx) j row st.merged
              st.merge_order (omega arith) fresh (inl (lt, gt, refl)) inv.0,
          append-known b j j j row st.merged st.merge_order fresh inv.1,
        ),
        omega arith,
        λ k. append-nums b j j j row st.merged st.merge_order fresh k ∙ counted fresh k,
      )
    where
      counted :
          All (λ x. x ≢ g.order_item_id) st.merge_order
          → (k : ℕ)
          → (if g.order_item_id == k
              then nums k (rows_of st) ++ g.qty ∷ []
              else nums k (rows_of st))
            ≡ with_entry k (nums k (rows_of st)) g
      counted fresh k = elim (Bool-cases (g.order_item_id == k)) [
        | inl e ↦
            let same : g.order_item_id ≡ k = ground arith in
            let bound : (k == 0) ≡ false = ground arith in
            let missing =
              nums-fresh b (free_key st.free_idx) k st.merged st.merge_order (omega arith)
                (subst (λ y. All (λ x. x ≢ y) st.merge_order) same fresh) inv.0 in
            rw (e, bound, missing) refl
        | inr e ↦ rw e refl
      ]

  merge_again-Counts :
      (cur : OrderGoodsDto)
      → 0 < g.order_item_id
      → find_merged g.order_item_id st.merged ≡ some cur
      → Counts (merge_bound g (merged_row base g) st (some cur))
  merge_again-Counts cur gt found =
      let j = g.order_item_id in
      let row = add_num g.qty cur in
      let ks = st.merge_order in
      let low = free_key st.free_idx in
      let listed : contains j ks ≡ true =
        sym (inv.1 j) ∙ ap (λ (x : Option OrderGoodsDto). is_some x) found in
      let (one, own) = nums-own b low j st.merged ks gt (omega arith) listed inv.0 in
      let mine : cur.order_item_id ≡ j = rw found at own in
      let valid = Valid-set b low j row st.merged ks lt gt mine inv.0 in
      let (one', own') =
        nums-own b low j (set_merged j row st.merged) ks gt (omega arith) listed valid in
      let known : (i : ℕ) → is_some (find_merged i (set_merged j row st.merged)) ≡ contains i ks =
        λ i. elim (Bool-cases (j == i)) [
          | inl e ↦
              let same : j ≡ i = ground arith in
              rw (find-set j i row st.merged, e)
                (sym (subst (λ x. contains x ks ≡ true) same listed))
          | inr e ↦ rw (find-set j i row st.merged, e) (inv.1 i)
        ] in
      let at_own : nums j (rows_at (set_merged j row st.merged) ks)
          ≡ with_entry j (nums j (rows_of st)) g =
        let own_key : (j == j) ≡ true = ground arith in
        let bound : (j == 0) ≡ false = ground arith in
        rw (one', row_at-same j row st.merged, one, found, own_key, bound) refl in
      (
        (valid, known),
        omega arith,
        λ k. elim (Bool-cases (j == k)) [
          | inl e ↦
              let same : j ≡ k = ground arith in
              subst
                (λ x.
                  nums x (rows_at (set_merged j row st.merged) ks)
                  ≡ with_entry x (nums x (rows_of st)) g)
                same at_own
          | inr e ↦
              let other : k ≢ j = ground arith in
              rw e (nums-other j k row st.merged ks other mine own)
        ],
      )

  merge_bound-Counts :
      (x : Option OrderGoodsDto)
      → 0 < g.order_item_id
      → find_merged g.order_item_id st.merged ≡ x
      → Counts (merge_bound g (merged_row base g) st x)
  merge_bound-Counts none gt e = merge_new-Counts gt e
  merge_bound-Counts (some cur) gt e = merge_again-Counts cur gt e

module _ (order_goods : List OrderGoodsDto) where
  merge_one-Counts :
      (b : ℕ) (g : PkgGoods) (st : Merging) (lt : g.order_item_id < b)
      (room : b + st.free_idx + 1 ≤ 18446744073709551615) (inv : Inv b st)
      → Counts b
          (goods_by_id g.order_item_id no_goods order_goods)
          g
          st
          lt
          room
          inv
          (merge_one order_goods st g)
  unfolding merge_one
  merge_one-Counts b g st lt room inv =
      let base = goods_by_id g.order_item_id no_goods order_goods in
      if_cases (Counts b base g st lt room inv) (g.order_item_id == 0) _ _
        (λ e. merge_free-Counts b base g st lt room inv (ground arith))
        (λ e.
          merge_bound-Counts b base g st lt room inv (find_merged g.order_item_id st.merged)
            (ground arith) refl)

  merge_goods-nums :
      (b : ℕ) (gs : List PkgGoods) (st : Merging) (k : ℕ)
      → All (λ g. g.order_item_id < b) gs
      → b + st.free_idx + length gs ≤ 18446744073709551615
      → Inv b st
      → nums k (rows_of (merge_goods order_goods st gs)) ≡ entries k (nums k (rows_of st)) gs
  unfolding merge_goods
  merge_goods-nums b [] st k lts room inv = refl
  merge_goods-nums b (g ∷ gs) st k (lt, lts) room inv =
      let (inv', le, counts) = merge_one-Counts b g st lt (omega arith) inv in
      merge_goods-nums b gs (merge_one order_goods st g) k lts (omega arith) inv'
      ∙ ap (λ acc. entries k acc gs) (counts k)

entries-parcel :
    (order_goods : List OrderGoodsDto) (gs : List PkgGoods) (k : ℕ)
    → All (λ (g : PkgGoods). g.order_item_id + length gs < 18446744073709551615) gs
    → nums k (snap_goods (merge_goods order_goods no_merging gs)) ≡ entries k [] gs
unfolding snap_goods merge_goods
entries-parcel order_goods [] k h = refl
entries-parcel order_goods (g ∷ gs) k h =
    let n = length (g ∷ gs) in
    let room = h.0 in
    merge_goods-nums order_goods (18446744073709551615 - n) (g ∷ gs) no_merging k
      (All-weaken (g ∷ gs) (λ x lt. omega arith) h) (omega arith) (tt, λ j. refl)

-- The goods that the confirmation of a parcel names are those of its entries in the request: of each
-- article that has an entry one row, with the first quantity and each further one added to it in an
-- `int` that wraps around, no row of any other article, and of the entries without an article, for
-- `k` 0, one row each with its quantity, in their order. The articles' ids must lie below the keys of
-- the entries without one, which are counted down from 2 ^ 64 - 2.
pub parcel_request-entries :
    (inp : ConfirmKdzsSplitShipDto) (group : ℕ) (b : PkgBucket) (k : ℕ)
    → All (λ (g : PkgGoods). g.order_item_id + length b.goods < 18446744073709551615) b.goods
    → nums k (parcel_request inp group b).order.goods ≡ entries k [] b.goods
unfolding parcel_request
parcel_request-entries inp group b k h = entries-parcel inp.order.goods b.goods k h
