-- ===== src/Shipment/Merged.antt =====
-- The goods of one parcel: the map and the order list of the merging stand for one row of each
-- article, and one row of each entry without an article.
use shipping_core.Base.{
  ℕ, ◌<◌, ◌≤◌, ◌≡◌, ◌≢◌, refl, sym, ap, ◌∙◌, subst, ◌⊎◌, inl, inr, true, false, ◌||◌, some, List,
  [], ◌∷◌, ◌++◌, map, ◌==◌, if◌then◌else◌, Bool-cases, All, contains, arith,
}
use shipping_core.Base.Int.{ℤ}
use shipping_core.Shipment.Snapshot.{OrderGoodsDto}
use shipping_core.Shipment.Split.{find_merged, set_merged, merged_or}

abbrev pub MergedMap : Type 0
MergedMap = List (ℕ × OrderGoodsDto)

abbrev pub row_at : MergedMap → ℕ → OrderGoodsDto
row_at m k = merged_or (find_merged k m)

abbrev pub rows_at : MergedMap → List ℕ → List OrderGoodsDto
rows_at m ks = map (λ k. merged_or (find_merged k m)) ks

-- The quantities of the rows of an article; those of the rows without an article, for 0.
abbrev pub nums : ℕ → List OrderGoodsDto → List ℤ
nums k [] = []
nums k (r ∷ rs) = let rest = nums k rs in if r.order_item_id == k then r.num ∷ rest else rest

pub find-set :
    (j k : ℕ) (row : OrderGoodsDto) (m : MergedMap)
    → find_merged k (set_merged j row m) ≡ (if j == k then some row else find_merged k m)
unfolding set_merged
find-set j k row [] = ground arith
find-set j k row ((i, r) ∷ m) = ground (arith, find-set j k row m)

pub row_at-same :
    (j : ℕ) (row : OrderGoodsDto) (m : MergedMap) → row_at (set_merged j row m) j ≡ row
row_at-same j row m = let e : (j == j) ≡ true = ground arith in rw (find-set j j row m, e) refl

row_at-other :
    (j k : ℕ) (row : OrderGoodsDto) (m : MergedMap)
    → k ≢ j
    → row_at (set_merged j row m) k ≡ row_at m k
row_at-other j k row m ne =
    let e : (j == k) ≡ false = ground arith in rw (find-set j k row m, e) refl

pub rows_at-fresh :
    (j : ℕ) (row : OrderGoodsDto) (m : MergedMap) (ks : List ℕ)
    → All (λ x. x ≢ j) ks
    → rows_at (set_merged j row m) ks ≡ rows_at m ks
rows_at-fresh j row m [] h = refl
rows_at-fresh j row m (k ∷ ks) (ne, h) =
    rw (row_at-other j k row m ne, rows_at-fresh j row m ks h) refl

pub rows_at-append :
    (m : MergedMap) (ks : List ℕ) (j : ℕ)
    → rows_at m (ks ++ j ∷ []) ≡ rows_at m ks ++ row_at m j ∷ []
rows_at-append m [] j = refl
rows_at-append m (k ∷ ks) j = ap (λ l. row_at m k ∷ l) (rows_at-append m ks j)

pub nums-append :
    (k : ℕ) (rows : List OrderGoodsDto) (r : OrderGoodsDto)
    → nums k (rows ++ r ∷ [])
      ≡ (if r.order_item_id == k then nums k rows ++ r.num ∷ [] else nums k rows)
nums-append k [] r = ground arith
nums-append k (x ∷ rows) r = ground (arith, nums-append k rows r)

pub contains-append :
    (j k : ℕ) (ks : List ℕ) → contains j (ks ++ k ∷ []) ≡ (contains j ks || k == j)
contains-append j k [] = ground arith
contains-append j k (x ∷ ks) = ground (arith, contains-append j k ks)

pub fresh_of_contains : (j : ℕ) (ks : List ℕ) → contains j ks ≡ false → All (λ x. x ≢ j) ks
fresh_of_contains j [] h = tt
fresh_of_contains j (x ∷ ks) h = ground (arith, fresh_of_contains j ks)

not_contains-fresh : (j : ℕ) (ks : List ℕ) → All (λ x. x ≢ j) ks → contains j ks ≡ false
not_contains-fresh j [] h = refl
not_contains-fresh j (x ∷ ks) (ne, h) = ground (arith, not_contains-fresh j ks h)

-- A key is the article of its row, below `b`, or one of the keys from `low` on, of a row without an
-- article.
abbrev pub OfKey : ℕ → ℕ → ℕ → OrderGoodsDto → Type 0
OfKey b low j r = ((j < b) × (0 < j) × (r.order_item_id ≡ j)) ⊎ ((low ≤ j) × (r.order_item_id ≡ 0))

abbrev pub Valid : ℕ → ℕ → MergedMap → List ℕ → Type 0
Valid b low m [] = Unit
Valid b low m (j ∷ ks) = OfKey b low j (row_at m j) × All (λ x. x ≢ j) ks × Valid b low m ks

All-append : (j k : ℕ) (ks : List ℕ) → All (λ x. x ≢ j) ks → k ≢ j → All (λ x. x ≢ j) (ks ++ k ∷ [])
All-append j k [] h ne = (ne, tt)
All-append j k (x ∷ ks) (e, h) ne = (e, All-append j k ks h ne)

OfKey-lower :
    (b low low' j : ℕ) (r : OrderGoodsDto) → low' ≤ low → OfKey b low j r → OfKey b low' j r
OfKey-lower b low low' j r le (inl h) = inl h
OfKey-lower b low low' j r le (inr (h, e)) = inr (omega arith, e)

-- A new key at the end.
pub Valid-append :
    (b low low' j : ℕ) (row : OrderGoodsDto) (m : MergedMap) (ks : List ℕ)
    → low' ≤ low
    → All (λ x. x ≢ j) ks
    → OfKey b low' j row
    → Valid b low m ks
    → Valid b low' (set_merged j row m) (ks ++ j ∷ [])
Valid-append b low low' j row m [] le fresh own h = (rw (row_at-same j row m) own, tt, tt)
Valid-append b low low' j row m (k ∷ ks) le (ne, fresh) own (key, apart, h) = (
  rw (row_at-other j k row m ne) (OfKey-lower b low low' k (row_at m k) le key),
  All-append k j ks apart (λ e. ne (sym e)),
  Valid-append b low low' j row m ks le fresh own h,
)

-- A key that is written again.
pub Valid-set :
    (b low j : ℕ) (row : OrderGoodsDto) (m : MergedMap) (ks : List ℕ)
    → j < b
    → 0 < j
    → row.order_item_id ≡ j
    → Valid b low m ks
    → Valid b low (set_merged j row m) ks
Valid-set b low j row m [] lt gt own h = tt
Valid-set b low j row m (k ∷ ks) lt gt own (key, apart, h) = (
  elim (Bool-cases (k == j)) [
    | inl e ↦
        let same : j ≡ k = ground arith in
        subst (λ x. OfKey b low x (row_at (set_merged j row m) x)) same
          (rw (row_at-same j row m) (inl (lt, gt, own)))
    | inr e ↦ let other : k ≢ j = ground arith in rw (row_at-other j k row m other) key
  ],
  apart,
  Valid-set b low j row m ks lt gt own h,
)

-- The keys of rows without an article count down.
pub Valid-fresh :
    (b low j : ℕ) (m : MergedMap) (ks : List ℕ)
    → b ≤ j
    → j < low
    → Valid b low m ks
    → All (λ x. x ≢ j) ks
Valid-fresh b low j m [] le lt h = tt
Valid-fresh b low j m (k ∷ ks) le lt (inl (below, gt, own), apart, h) =
    (λ e. absurd (omega arith), Valid-fresh b low j m ks le lt h)
Valid-fresh b low j m (k ∷ ks) le lt (inr (above, own), apart, h) =
    (λ e. absurd (omega arith), Valid-fresh b low j m ks le lt h)

pub nums-fresh :
    (b low k : ℕ) (m : MergedMap) (ks : List ℕ)
    → 0 < k
    → All (λ x. x ≢ k) ks
    → Valid b low m ks
    → nums k (rows_at m ks) ≡ []
nums-fresh b low k m [] gt fresh h = refl
nums-fresh b low k m (j ∷ ks) gt (ne, fresh) (inl (below, pos', own), apart, h) =
    let other : ((row_at m j).order_item_id == k) ≡ false = ground arith in
    rw other (nums-fresh b low k m ks gt fresh h)
nums-fresh b low k m (j ∷ ks) gt (ne, fresh) (inr (above, own), apart, h) =
    let other : ((row_at m j).order_item_id == k) ≡ false = ground arith in
    rw other (nums-fresh b low k m ks gt fresh h)

-- An article with a key has its one row.
pub nums-own :
    (b low k : ℕ) (m : MergedMap) (ks : List ℕ)
    → 0 < k
    → k < low
    → contains k ks ≡ true
    → Valid b low m ks
    → (nums k (rows_at m ks) ≡ (row_at m k).num ∷ []) × ((row_at m k).order_item_id ≡ k)
nums-own b low k m [] gt lt listed h = cc
nums-own b low k m (j ∷ ks) gt lt listed (key, apart, h) = elim (Bool-cases (j == k)) [
  | inl e ↦
      let same : j ≡ k = ground arith in
      let own : (row_at m j).order_item_id ≡ j = own_of key same in
      let mine : ((row_at m j).order_item_id == k) ≡ true = ground arith in
      (
        rw mine (
            ap (λ l. (row_at m j).num ∷ l)
              (nums-fresh b low k m ks gt (subst (λ x. All (λ y. y ≢ x) ks) same apart) h)
            ∙ ap (λ x. (row_at m x).num ∷ []) same),
        subst (λ x. (row_at m x).order_item_id ≡ x) same own,
      )
  | inr e ↦
      let more : contains k ks ≡ true = ground arith in
      let other : ((row_at m j).order_item_id == k) ≡ false = other_of key e in
      let (one, own) = nums-own b low k m ks gt lt more h in (rw other one, own)
]
  where
    own_of : OfKey b low j (row_at m j) → j ≡ k → (row_at m j).order_item_id ≡ j
    own_of (inl (below, gt', own)) same = own
    own_of (inr (above, own)) same = absurd (omega arith)

    other_of :
        OfKey b low j (row_at m j) → (j == k) ≡ false → ((row_at m j).order_item_id == k) ≡ false
    other_of (inl (below, gt', own)) e = ground arith
    other_of (inr (above, own)) e = ground arith

-- Writing a row of the same article again leaves the other articles alone.
pub nums-other :
    (j k : ℕ) (row : OrderGoodsDto) (m : MergedMap) (ks : List ℕ)
    → k ≢ j
    → row.order_item_id ≡ j
    → (row_at m j).order_item_id ≡ j
    → nums k (rows_at (set_merged j row m) ks) ≡ nums k (rows_at m ks)
nums-other j k row m [] ne own old = refl
nums-other j k row m (x ∷ ks) ne own old = elim (Bool-cases (x == j)) [
  | inl e ↦
      let same : j ≡ x = ground arith in
      let new : ((row_at (set_merged j row m) x).order_item_id == k) ≡ false =
        subst (λ y. ((row_at (set_merged j row m) y).order_item_id == k) ≡ false) same
          (rw (row_at-same j row m) (ground arith)) in
      let before : ((row_at m x).order_item_id == k) ≡ false =
        subst (λ y. ((row_at m y).order_item_id == k) ≡ false) same (ground arith) in
      rw (new, before) (nums-other j k row m ks ne own old)
  | inr e ↦
      let other : x ≢ j = ground arith in
      rw (row_at-other j x row m other, nums-other j k row m ks ne own old) refl
]
