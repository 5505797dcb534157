-- ===== src/Plan/Replacement.antt =====
-- What `PutShipPlan` does to the table: the pending lines of the order are exactly the saved ones,
-- and all other rows are left alone, whatever the order centre answers.
use shipping_core.Base.{
  ℕ, zero, suc, ◌+◌, ◌≡◌, refl, sym, subst, ◌≢◌, ◌∙◌, ap, String, Bool, true, not, ◌&&◌, ◌||◌, List,
  [], ◌∷◌, map, ◌==◌, filter, filter-append, All, Bool-cases, ==-false, arith, inl, inr, Option,
  none, some,
}
use mathlib.Core.List.{append-nil}
use shipping_core.Base.Table.{update_where, delete_where}
use shipping_core.Base.Text.{is_empty, trim_space}
use shipping_core.Base.Int.{ℤ, pos, negsuc}
use shipping_core.Errors.{Result, ok, err}
use shipping_core.Plan.Rows.{pending, is_pending, ShipPlanLine, PlanTable}
use shipping_core.Plan.Save.{
  ShipPlanLineInput, prepared_line, SplitItemResult, SyncSplitItems, SplitMode, assign_ids,
  replace_pending, set_split, record_split, record_splits, sync_split_items, put_ship_plan,
  check_plan, split_mode, plan_answer, after_sync,
}
use shipping_core.Plan.Validation.{
  IsReady, check_plan-IsReady, IsAcceptable, IsUniform, AllMade, check_plan-AllMade, check_plan_iff,
}

-- A row without the column that the order centre's answer fills in.
abbrev pub without_split : ShipPlanLine → ShipPlanLine
without_split r = record r { split_order_item_id = 0 }

-- The rows that pass a test, without that column.
abbrev pub rows_where : (ShipPlanLine → Bool) → List ShipPlanLine → List ShipPlanLine
rows_where p rows = map without_split (filter p rows)

module _ (p : ShipPlanLine → Bool)
    (p_split : (id : ℕ) (r : ShipPlanLine) → p (set_split id r) ≡ p r) where
  rows_where-update :
      (q : ShipPlanLine → Bool) (id : ℕ) (rows : List ShipPlanLine)
      → rows_where p (update_where q (set_split id) rows) ≡ rows_where p rows
  rows_where-update q id [] = refl
  rows_where-update q id (r ∷ rs) = ground (arith, rows_where-update q id rs, p_split id r)

  rows_where-record_split :
      (tenant : ℕ) (line : SplitItemResult) (rows : List ShipPlanLine)
      → rows_where p (record_split tenant line rows) ≡ rows_where p rows
  unfolding record_split
  rows_where-record_split tenant line rows =
      elim (Bool-cases (line.ship_plan_line_id == 0 || line.id == 0)) [
        | inl e ↦ rw e
        | inr e ↦ rw e (rows_where-update _ line.id rows)
      ]

  rows_where-record_splits :
      (tenant : ℕ) (lines : List SplitItemResult) (rows : List ShipPlanLine)
      → rows_where p (record_splits tenant lines rows) ≡ rows_where p rows
  unfolding record_splits
  rows_where-record_splits tenant [] rows = refl
  rows_where-record_splits tenant (line ∷ lines) rows =
      rows_where-record_splits tenant lines (record_split tenant line rows)
      ∙ rows_where-record_split tenant line rows

  rows_where-after_sync :
      (tenant : ℕ) (t : PlanTable) (answer : Result (List SplitItemResult))
      → rows_where p (after_sync tenant t answer).1.rows ≡ rows_where p t.rows
  rows_where-after_sync tenant t (err e) = refl
  rows_where-after_sync tenant t (ok answer) = rows_where-record_splits tenant answer t.rows

  rows_where-sync :
      (client : Option SyncSplitItems) (tenant : ℕ) (token : String) (order_core_id : ℕ)
      (mode : SplitMode) (saved : List ShipPlanLine) (t : PlanTable)
      → rows_where p (sync_split_items client tenant token order_core_id mode saved t).1.rows
        ≡ rows_where p t.rows
  unfolding sync_split_items
  rows_where-sync none tenant token order_core_id mode saved t = refl
  rows_where-sync (some client) tenant token order_core_id mode saved t =
      elim (Bool-cases (is_empty (trim_space token))) [
        | inl e ↦ rw e
        | inr e ↦ rw e (rows_where-after_sync tenant t _)
      ]

plan_answer-table :
    (tenant order_core_id : ℕ) (p : Result (Unit {0}) × PlanTable)
    → (plan_answer tenant order_core_id p).1 ≡ p.1
plan_answer-table tenant order_core_id (ok _, t) = refl
plan_answer-table tenant order_core_id (err e, t) = refl

module _ (tenant order_core_id : ℕ) where
  -- A pending line of the order in the tenant.
  abbrev pub own : ShipPlanLine → Bool
  own r = r.tenant_id == tenant && r.order_core_id == order_core_id && is_pending r.status

  abbrev pub other : ShipPlanLine → Bool
  other r = not (own r)

  other-delete :
      (rows : List ShipPlanLine) → filter other (delete_where own rows) ≡ filter other rows
  other-delete [] = refl
  other-delete (r ∷ rs) = ground (arith, other-delete rs)

  own-delete : (rows : List ShipPlanLine) → filter own (delete_where own rows) ≡ []
  own-delete [] = refl
  own-delete (r ∷ rs) = ground (arith, own-delete rs)

  IsReady-own :
      (r : ShipPlanLine) (id : ℕ)
      → IsReady tenant order_core_id r
      → own (record r { id = id }) ≡ true
  IsReady-own r id h = ground arith

  own-assign :
      (next : ℕ) (rs : List ShipPlanLine)
      → All (IsReady tenant order_core_id) rs
      → filter own (assign_ids next rs) ≡ assign_ids next rs
  own-assign next [] h = refl
  own-assign next (r ∷ rs) (ready, h) = rw (IsReady-own r next ready, own-assign (next + 1) rs h)

  other-assign :
      (next : ℕ) (rs : List ShipPlanLine)
      → All (IsReady tenant order_core_id) rs
      → filter other (assign_ids next rs) ≡ []
  other-assign next [] h = refl
  other-assign next (r ∷ rs) (ready, h) =
      rw (IsReady-own r next ready, other-assign (next + 1) rs h)

  replace-other :
      (rs : List ShipPlanLine) (t : PlanTable)
      → All (IsReady tenant order_core_id) rs
      → filter other (replace_pending tenant order_core_id rs t).rows ≡ filter other t.rows
  unfolding replace_pending
  replace-other rs t h =
      rw (filter-append, other-delete t.rows, other-assign t.next_id rs h) (append-nil _)

  replace-own :
      (rs : List ShipPlanLine) (t : PlanTable)
      → All (IsReady tenant order_core_id) rs
      → filter own (replace_pending tenant order_core_id rs t).rows ≡ assign_ids t.next_id rs
  unfolding replace_pending
  replace-own rs t h = rw (filter-append, own-delete t.rows, own-assign t.next_id rs h)

-- The number that a row is sorted by: that of the line, or, where it is 0, the line's place from 1.
abbrev pub SortNo : ℕ → ℤ → ℤ → Type 0
SortNo i (pos zero) n = n ≡ pos (i + 1)
SortNo i (pos (suc k)) n = n ≡ pos (suc k)
SortNo i (negsuc k) n = n ≡ negsuc k

-- The rows of the lines of a request, of which the first has the id and stands at the place `i`.
abbrev pub Saved : ℕ → ℕ → ℕ → ℕ → List ShipPlanLineInput → List ShipPlanLine → Type 0
Saved tenant order_core_id id i [] [] = Unit
Saved tenant order_core_id id i (l ∷ ls) (r ∷ rs) =
    (r ≡ record {
      id = id;
      tenant_id = tenant;
      order_core_id = order_core_id;
      order_item_id = l.order_item_id;
      split_order_item_id = 0;
      sku_name = trim_space l.sku_name;
      qty = l.qty;
      sort_no = r.sort_no;
      status = pending;
    })
    × SortNo i l.sort_no r.sort_no
    × Saved tenant order_core_id (id + 1) (i + 1) ls rs
Saved tenant order_core_id id i _ _ = ⊥

sort_no-SortNo :
    (tenant order_core_id i : ℕ) (l : ShipPlanLineInput)
    → SortNo i l.sort_no (prepared_line tenant order_core_id i l).sort_no
sort_no-SortNo tenant order_core_id i l = go l.sort_no refl
  where
    go :
        (n : ℤ)
        → l.sort_no ≡ n
        → SortNo i l.sort_no (prepared_line tenant order_core_id i l).sort_no
    go (pos zero) e = rw e refl
    go (pos (suc k)) e = rw e (ground arith)
    go (negsuc k) e = rw e (ground arith)

AllMade-Saved :
    (tenant order_core_id id i : ℕ) (ls : List ShipPlanLineInput) (rs : List ShipPlanLine)
    → AllMade tenant order_core_id i ls rs
    → Saved tenant order_core_id id i ls (map without_split (assign_ids id rs))
AllMade-Saved tenant order_core_id id i [] [] m = tt
AllMade-Saved tenant order_core_id id i [] (r ∷ rs) m = absurd m
AllMade-Saved tenant order_core_id id i (l ∷ ls) [] m = absurd m
AllMade-Saved tenant order_core_id id i (l ∷ ls) (r ∷ rs) ((e, a), m) = (
  rw e refl,
  rw e (sort_no-SortNo tenant order_core_id i l),
  AllMade-Saved tenant order_core_id (id + 1) (i + 1) ls rs m,
)

put_ship_plan-tables :
    (client : Option SyncSplitItems) (tenant : ℕ) (token : String) (order_core_id : ℕ)
    (lines : List ShipPlanLineInput) (rs : List ShipPlanLine) (t : PlanTable)
    → order_core_id ≢ 0
    → check_plan tenant order_core_id lines ≡ ok rs
    → let t' = (put_ship_plan client tenant token order_core_id lines t).1 in
      (rows_where (own tenant order_core_id) t'.rows ≡ map without_split (assign_ids t.next_id rs))
      × (rows_where (other tenant order_core_id) t'.rows
          ≡ rows_where (other tenant order_core_id) t.rows)
unfolding put_ship_plan
put_ship_plan-tables client tenant token order_core_id lines rs t nz e =
    let ready = check_plan-IsReady tenant order_core_id lines rs e in
    let mine = own tenant order_core_id in
    let others = other tenant order_core_id in
    let saved = assign_ids t.next_id rs in
    let replaced = replace_pending tenant order_core_id rs t in
    let synced =
      sync_split_items client tenant token order_core_id (split_mode rs) saved replaced in
    let same = ap (λ (u : PlanTable). u.rows) (plan_answer-table tenant order_core_id synced) in
    rw (e, ==-false order_core_id nz)
      (
        ap (rows_where mine) same
            ∙ rows_where-sync mine (λ id r. refl) client tenant token order_core_id _ saved replaced
            ∙ ap (map without_split) (replace-own tenant order_core_id rs t ready),
        ap (rows_where others) same
            ∙ rows_where-sync others (λ id r. refl) client tenant token order_core_id _ saved
                replaced
            ∙ ap (map without_split) (replace-other tenant order_core_id rs t ready),
      )

-- A request for an order whose number is not 0, of which every line names a specification and a
-- positive quantity and either all lines or no line are bound to an order item, replaces the pending
-- lines of the order. They are then one row for each line of the request, in its order, numbered on
-- from the table's sequence, with the line's order item, name (without the blanks around it),
-- quantity and sort number, or its place where that number is 0. Every other row (of other orders,
-- of other tenants, already shipped) is as before. Both hold up to the column that the order centre's
-- answer fills in, and whether or not the order centre can be told.
pub put_ship_plan_replaces :
    (client : Option SyncSplitItems) (tenant : ℕ) (token : String) (order_core_id : ℕ)
    (lines : List ShipPlanLineInput) (t : PlanTable)
    → order_core_id ≢ 0
    → All IsAcceptable lines
    → IsUniform lines
    → let t' = (put_ship_plan client tenant token order_core_id lines t).1 in
      Saved tenant order_core_id t.next_id 0 lines (rows_where (own tenant order_core_id) t'.rows)
      × (rows_where (other tenant order_core_id) t'.rows
          ≡ rows_where (other tenant order_core_id) t.rows)
put_ship_plan_replaces client tenant token order_core_id lines t nz good uniform =
    let (rs, e) = (check_plan_iff tenant order_core_id lines).1 (good, uniform) in
    let (mine, others) = put_ship_plan-tables client tenant token order_core_id lines rs t nz e in
    (
      subst (Saved tenant order_core_id t.next_id 0 lines) (sym mine) (
          AllMade-Saved tenant order_core_id t.next_id 0 lines rs
            (check_plan-AllMade tenant order_core_id lines rs e)),
      others,
    )
