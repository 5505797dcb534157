-- ===== src/PrintAgent/Payload.antt =====
-- The payload of a print task, a JSON object, and the merging of two (mergePrintPayload and what it
-- uses). `sprint` is `fmt.Sprint` on values that are neither texts nor numbers, `marshal` is
-- `json.Marshal`, and `to_upper` is `strings.ToUpper`.
use shipping_core.Base.{
  ℕ, zero, suc, ◌+◌, ◌-◌, ◌*◌, String, Bool, true, false, not, ◌&&◌, ◌||◌, Option, none, some, List,
  [], ◌∷◌, ◌++◌, ◌==◌, leb, ltb, if◌then◌else◌, length,
}
use shipping_core.Base.Int.{ℤ, pos}
use shipping_core.Base.Text.{is_empty, trim_space, str_eq, codes, ◌+++◌}
use shipping_core.Shipment.Cargo.{decimal_int}

-- A number is a `float64`: its value as an `int64`, and whether it is zero. A field's name occurs once.
mutual
  pub data Json : Type 0 where
    null : Json
    bool : Bool → Json
    number : ℤ → Bool → Json
    text : String → Json
    array : Items → Json
    object : Fields → Json

  pub data Items : Type 0 where
    no_items : Items
    item : Json → Items → Items

  pub data Fields : Type 0 where
    no_fields : Fields
    field : String → Json → Fields → Fields

-- `m[k]`
abbrev pub get_field : String → Fields → Option Json
get_field k no_fields = none
get_field k (field j v m) = let rest = get_field k m in if str_eq j k then some v else rest

-- `m[k] = v`
abbrev pub put_field : String → Json → Fields → Fields
put_field k v no_fields = field k v no_fields
put_field k v (field j u m) =
    let rest = put_field k v m in if str_eq j k then field k v m else field j u rest

-- `delete(m, k)`
abbrev pub delete_field : String → Fields → Fields
delete_field k no_fields = no_fields
delete_field k (field j v m) =
    let rest = delete_field k m in if str_eq j k then rest else field j v rest

-- Whether `m[k] == nil`.
abbrev pub is_nil_value : Option Json → Bool
is_nil_value none = true
is_nil_value (some null) = true
is_nil_value (some v) = false

module _ (sprint : Json → String) where
  abbrev pub value_string : Option Json → String
  value_string none = ""
  value_string (some null) = ""
  value_string (some (text t)) = trim_space t
  value_string (some (number n is_zero)) = if is_zero then "" else decimal_int n
  value_string (some v) = trim_space (sprint v)

  unfoldable pub payload_string : Fields → String → String
  payload_string m k = value_string (get_field k m)

  -- `printMergeKey`, as the characters of the key, with 0 between its parts.
  unfoldable pub print_merge_key : (String → String) → Fields → Option (List ℕ)
  print_merge_key to_upper m =
      let platform = to_upper (payload_string m "platform") in
      let tpl_id = payload_string m "templateId" in
      let tpl_name = payload_string m "templateName" in
      if is_empty platform || (is_empty tpl_id && is_empty tpl_name)
      then none
      else some (
          codes platform
          ++ 0 ∷ codes tpl_id
          ++ 0 ∷ codes tpl_name
          ++ 0 ∷ codes (payload_string m "kdzsAccountCode"))

  abbrev dedupe_names : List String
  dedupe_names =
      "orderId" ∷ "platformSysTid" ∷ "sysTid" ∷ "platformOrderId" ∷ "tid" ∷ "orderNo" ∷ []

  abbrev first_named : List String → String → Fields → String
  first_named [] raw o = raw
  first_named (k ∷ ks) raw o =
      let rest = first_named ks raw o in
      if is_empty (payload_string o k) then rest else k +++ "=" +++ payload_string o k

  -- `orderDedupeKey`
  unfoldable pub order_dedupe_key : (Json → String) → Fields → String
  order_dedupe_key marshal o = first_named dedupe_names (marshal (object o)) o

-- `extractOrders`: the objects of the array under `orders`.
abbrev pub objects_of : Items → List Fields
objects_of no_items = []
objects_of (item (object o) rest) = o ∷ objects_of rest
objects_of (item v rest) = objects_of rest

abbrev pub orders_of : Option Json → List Fields
orders_of (some (array items)) = objects_of items
orders_of v = []

unfoldable pub extract_orders : Fields → List Fields
extract_orders m = orders_of (get_field "orders" m)

abbrev pub is_seen : String → List String → Bool
is_seen k [] = false
is_seen k (j ∷ js) = str_eq j k || is_seen k js

abbrev pub items_of : List Fields → Items
items_of [] = no_items
items_of (o ∷ os) = item (object o) (items_of os)

-- `strconv.ParseUint(s, 10, 64)`
abbrev digits_value : ℕ → List ℕ → Option ℕ
digits_value n [] = some n
digits_value n (c ∷ cs) =
    let rest = digits_value (n * 10 + (c - 48)) cs in if leb 48 c && leb c 57 then rest else none

abbrev in_uint64 : Option ℕ → Option ℕ
in_uint64 none = none
in_uint64 (some n) = if ltb n 18446744073709551616 then some n else none

unfoldable pub parse_uint : String → Option ℕ
parse_uint s = if is_empty s then none else in_uint64 (digits_value 0 (codes s))

-- `a < b` on texts.
abbrev codes_less : List ℕ → List ℕ → Bool
codes_less as' [] = false
codes_less [] (b ∷ bs) = true
codes_less (a ∷ as') (b ∷ bs) =
    let rest = codes_less as' bs in if ltb a b then true else if a == b then rest else false

unfoldable pub text_less : String → String → Bool
text_less a b = codes_less (codes a) (codes b)

-- The union of the two periods.
unfoldable pub earlier : String → String → String
earlier a b = if not (is_empty b) && (is_empty a || text_less b a) then b else a

unfoldable pub later : String → String → String
later a b = if not (is_empty b) && (is_empty a || text_less a b) then b else a

module _ (sprint marshal : Json → String) where
  -- The loop over the orders, with the keys that were seen.
  unfoldable pub merge_orders : List String → List Fields → List Fields
  merge_orders seen [] = []
  merge_orders seen (o ∷ os) =
      let k = order_dedupe_key sprint marshal o in
      let skipped = merge_orders seen os in
      let kept = merge_orders (k ∷ seen) os in
      if is_empty k then skipped else if is_seen k seen then skipped else o ∷ kept

  unfoldable pub merged_orders : Fields → Fields → List Fields
  merged_orders base incoming = merge_orders [] (extract_orders base ++ extract_orders incoming)

  abbrev put_some : String → Option Json → Fields → Fields
  put_some k none m = m
  put_some k (some v) m = put_field k v m

  -- Credentials, template and platform: the base's where it has one.
  unfoldable pub keep_field : Fields → Fields → String → Fields → Fields
  keep_field base incoming k m =
      put_some k
        (if is_empty (payload_string sprint base k) then get_field k incoming else get_field k base)
        m

  abbrev kept_names : List String
  kept_names =
      "kdzsMobile" ∷ "kdzsPassword" ∷ "kdzsAccountCode" ∷ "kdzsAccountName" ∷ "templateId"
      ∷ "templateName" ∷ "platform" ∷ []

  abbrev keep_fields : Fields → Fields → List String → Fields → Fields
  keep_fields base incoming [] m = m
  keep_fields base incoming (k ∷ ks) m = keep_fields base incoming ks (keep_field base incoming k m)

  -- The new printer where one is named.
  unfoldable pub put_printer : Fields → Fields → Fields → Fields
  put_printer base incoming m =
      let new' = payload_string sprint incoming "printerName" in
      let old = payload_string sprint base "printerName" in
      if not (is_empty new')
      then put_field "printerName" (text new') m
      else if not (is_empty old)
      then put_field "printerName" (text old) m
      else m

  abbrev value_or_true : Option Json → Json
  value_or_true none = bool true
  value_or_true (some null) = bool true
  value_or_true (some v) = v

  unfoldable pub put_auto_print : Fields → Fields → Fields
  put_auto_print incoming m =
      if is_nil_value (get_field "autoPrint" m)
      then put_field "autoPrint" (value_or_true (get_field "autoPrint" incoming)) m
      else m

  abbrev pub put_order_id : Option ℕ → Fields → Fields
  put_order_id none m = m
  put_order_id (some zero) m = m
  put_order_id (some (suc n)) m = put_field "orderId" (number (pos (suc n)) false) m

  -- Fields of a single order: none for a batch.
  unfoldable pub single_fields : List Fields → Fields → Fields
  single_fields [] m = m
  single_fields (o ∷ []) m = put_order_id (parse_uint (payload_string sprint o "orderId")) m
  single_fields (o ∷ p ∷ os) m =
      delete_field "autoConfirmShip" (delete_field "order" (delete_field "orderId" m))

  abbrev pub put_text : String → String → Fields → Fields
  put_text k s m = if is_empty s then m else put_field k (text s) m

  unfoldable pub put_period : Fields → Fields → Fields → Fields
  put_period base incoming m =
      let from =
        earlier (payload_string sprint base "orderTimeFrom")
          (payload_string sprint incoming "orderTimeFrom") in
      let to =
        later (payload_string sprint base "orderTimeTo")
          (payload_string sprint incoming "orderTimeTo") in
      put_text "orderTimeTo" to (put_text "orderTimeFrom" from m)

  -- The fields other than the orders and what depends on them.
  unfoldable pub kept_fields : Fields → Fields → Fields
  kept_fields base incoming =
      put_auto_print incoming
        (put_printer base incoming (keep_fields base incoming kept_names base))

  unfoldable pub with_orders : List Fields → Fields → Fields
  with_orders orders m = single_fields orders (put_field "orders" (array (items_of orders)) m)

  unfoldable pub stamped : ℕ → Fields → Fields
  stamped now m =
      put_field "v" (number (pos 1) false) (put_field "createdAt" (number (pos now) (now == 0)) m)

  -- `mergePrintPayload`, at a time in milliseconds.
  unfoldable pub merge_print_payload : ℕ → Fields → Fields → Fields × ℕ
  merge_print_payload now base incoming =
      let orders = merged_orders base incoming in
      (
        stamped now (put_period base incoming (with_orders orders (kept_fields base incoming))),
        length orders,
      )
