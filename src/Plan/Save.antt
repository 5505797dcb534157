-- ===== src/Plan/Save.antt =====
-- `PutShipPlan` and `syncSplitItemsToOrderCore`: the pending lines of an order are replaced, and
-- the order centre is told of them.
use shipping_core.Base.{
  ℕ, ◌+◌, String, Bool, false, ◌&&◌, ◌||◌, Option, none, some, List, [], ◌∷◌, ◌++◌, ◌==◌, ltb,
  if◌then◌else◌, length,
}
use shipping_core.Base.Int.{ℤ, pos, leb_ℤ}
use shipping_core.Base.Text.{is_empty, trim_space}
use shipping_core.Base.Table.{update_where, delete_where}
use shipping_core.Errors.{Result, ok, err, bad_request, ◌>>=◌}
use shipping_core.Plan.Rows.{
  pending, is_pending, ShipPlanLine, PlanTable, ShipPlanLineDto, get_ship_plan,
}

pub record ShipPlanLineInput : Type 0 where
  pub order_item_id : ℕ
  pub sku_name : String
  pub qty : ℤ
  pub sort_no : ℤ

abbrev is_zero : ℤ → Bool
is_zero n = leb_ℤ n (pos 0) && leb_ℤ (pos 0) n

-- The row that a line of the request becomes; `i` counts from 0.
abbrev pub prepared_line : ℕ → ℕ → ℕ → ShipPlanLineInput → ShipPlanLine
prepared_line tenant order_core_id i line = record {
  id = 0;
  tenant_id = tenant;
  order_core_id = order_core_id;
  order_item_id = line.order_item_id;
  split_order_item_id = 0;
  sku_name = trim_space line.sku_name;
  qty = line.qty;
  sort_no = if is_zero line.sort_no then pos (i + 1) else line.sort_no;
  status = pending;
}

-- One round of the loop that checks the request.
unfoldable pub prepare_line : ℕ → ℕ → ℕ → ShipPlanLineInput → Result ShipPlanLine
prepare_line tenant order_core_id i line =
    if is_empty (trim_space line.sku_name)
    then err bad_request
    else if leb_ℤ line.qty (pos 0)
    then err bad_request
    else ok (prepared_line tenant order_core_id i line)

unfoldable pub prepare_from : ℕ → ℕ → ℕ → List ShipPlanLineInput → Result (List ShipPlanLine)
unfolding prepare_line
prepare_from tenant order_core_id i [] = ok []
prepare_from tenant order_core_id i (line ∷ lines) = do
  prepared ← prepare_line tenant order_core_id i line
  more ← prepare_from tenant order_core_id (i + 1) lines
  ok (prepared ∷ more)

unfoldable pub has_bound : List ShipPlanLine → Bool
has_bound [] = false
has_bound (l ∷ ls) = ltb 0 l.order_item_id || has_bound ls

unfoldable pub has_free : List ShipPlanLine → Bool
has_free [] = false
has_free (l ∷ ls) = l.order_item_id == 0 || has_free ls

pub data SplitMode : Type 0 where
  no_mode full partial : SplitMode

unfoldable pub split_mode : List ShipPlanLine → SplitMode
split_mode [] = no_mode
split_mode (l ∷ ls) = if has_free (l ∷ ls) then full else partial

-- The loop and the test behind it: what is saved, or the refusal.
unfoldable pub check_plan : ℕ → ℕ → List ShipPlanLineInput → Result (List ShipPlanLine)
check_plan tenant order_core_id lines = do
  prepared ← prepare_from tenant order_core_id 0 lines
  if has_bound prepared && has_free prepared then err bad_request else ok prepared

-- `Create` numbers the rows by the table's sequence.
abbrev pub assign_ids : ℕ → List ShipPlanLine → List ShipPlanLine
assign_ids next [] = []
assign_ids next (l ∷ ls) = record l { id = next } ∷ assign_ids (next + 1) ls

abbrev pub is_own_pending : ℕ → ℕ → ShipPlanLine → Bool
is_own_pending tenant order_core_id r =
    r.tenant_id == tenant && r.order_core_id == order_core_id && is_pending r.status

-- The transaction.
unfoldable pub replace_pending : ℕ → ℕ → List ShipPlanLine → PlanTable → PlanTable
replace_pending tenant order_core_id prepared t = record {
  rows = delete_where (is_own_pending tenant order_core_id) t.rows ++ assign_ids t.next_id prepared;
  next_id = t.next_id + length prepared;
}

pub record SyncSplitItemLine : Type 0 where
  pub parent_order_item_id : ℕ
  pub sku_name : String
  pub qty : ℤ
  pub ship_plan_line_id : ℕ

-- A line of the order centre's answer: its own id, and the plan line that it stands for.
pub record SplitItemResult : Type 0 where
  pub id : ℕ
  pub ship_plan_line_id : ℕ

-- The order centre's client: token, order, mode, lines.
abbrev pub SyncSplitItems : Type 0
SyncSplitItems = String → ℕ → SplitMode → List SyncSplitItemLine → Result (List SplitItemResult)

sync_lines : List ShipPlanLine → List SyncSplitItemLine
sync_lines [] = []
sync_lines (p ∷ ps) =
    let rest = sync_lines ps in
    if p.id == 0
    then rest
    else record {
      parent_order_item_id = p.order_item_id;
      sku_name = p.sku_name;
      qty = p.qty;
      ship_plan_line_id = p.id;
    }
      ∷ rest

-- Cancelling a split is reported too, under the mode "partial".
request_mode : SplitMode → List SyncSplitItemLine → SplitMode
request_mode no_mode [] = partial
request_mode m _ = m

abbrev pub set_split : ℕ → ShipPlanLine → ShipPlanLine
set_split id r = record r { split_order_item_id = id }

unfoldable pub record_split : ℕ → SplitItemResult → List ShipPlanLine → List ShipPlanLine
record_split tenant line rows =
    if line.ship_plan_line_id == 0 || line.id == 0
    then rows
    else update_where (λ r. r.tenant_id == tenant && r.id == line.ship_plan_line_id)
        (set_split line.id) rows

unfoldable pub record_splits : ℕ → List SplitItemResult → List ShipPlanLine → List ShipPlanLine
unfolding record_split
record_splits tenant [] rows = rows
record_splits tenant (line ∷ lines) rows =
    record_splits tenant lines (record_split tenant line rows)

abbrev pub after_sync :
    ℕ → PlanTable → Result (List SplitItemResult) → Result (Unit {0}) × PlanTable
after_sync tenant t (err e) = (err e, t)
after_sync tenant t (ok answer) = (ok tt, record t { rows = record_splits tenant answer t.rows })

unfoldable pub sync_split_items :
    Option SyncSplitItems
    → ℕ
    → String
    → ℕ
    → SplitMode
    → List ShipPlanLine
    → PlanTable
    → Result (Unit {0}) × PlanTable
unfolding sync_lines request_mode
sync_split_items none tenant token order_core_id mode saved t = (err bad_request, t)
sync_split_items (some client) tenant token order_core_id mode saved t =
    let lines = sync_lines saved in
    if is_empty (trim_space token)
    then (err bad_request, t)
    else after_sync tenant t (client token order_core_id (request_mode mode lines) lines)

abbrev pub plan_answer :
    ℕ → ℕ → Result (Unit {0}) × PlanTable → Result (List ShipPlanLineDto) × PlanTable
plan_answer tenant order_core_id (err e, t) = (err e, t)
plan_answer tenant order_core_id (ok _, t) = (get_ship_plan tenant order_core_id "" t, t)

abbrev pub save_plan :
    Option SyncSplitItems
    → ℕ
    → String
    → ℕ
    → PlanTable
    → Result (List ShipPlanLine)
    → Result (List ShipPlanLineDto) × PlanTable
save_plan client tenant token order_core_id t (err e) = (err e, t)
save_plan client tenant token order_core_id t (ok prepared) = plan_answer tenant order_core_id (
    sync_split_items client tenant token order_core_id (split_mode prepared)
      (assign_ids t.next_id prepared) (replace_pending tenant order_core_id prepared t))

unfoldable pub put_ship_plan :
    Option SyncSplitItems
    → ℕ
    → String
    → ℕ
    → List ShipPlanLineInput
    → PlanTable
    → Result (List ShipPlanLineDto) × PlanTable
unfolding split_mode
put_ship_plan client tenant token order_core_id lines t =
    if order_core_id == 0
    then (err bad_request, t)
    else save_plan client tenant token order_core_id t (check_plan tenant order_core_id lines)
