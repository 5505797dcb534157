-- ===== src/PrintAgent/Merged.antt =====
-- A merged payload holds every order of the two payloads once.
use shipping_core.Base.{
  ℕ, ◌==◌, zero, suc, ◌≡◌, refl, sym, ap, ◌∙◌, subst, String, Bool, true, false, ◌||◌, Option, none,
  some, List, [], ◌∷◌, ◌++◌, map, length, All, All-weaken, Bool-cases, arith, inl, inr,
}
use shipping_core.Base.Int.{pos}
use shipping_core.Base.Text.{is_empty, str_eq, eq_iff}
use mathlib.Core.List.{Memᴰ}
use shipping_core.PrintAgent.Fields.{get-put_same, get-put_other, get-delete_other, objects-items}
use shipping_core.PrintAgent.Payload.{
  Json, Fields, array, get_field, put_field, delete_field, orders_of, items_of, is_seen,
  order_dedupe_key, extract_orders, merge_orders, merged_orders, merge_print_payload, single_fields,
  put_order_id, put_text, put_period, parse_uint, payload_string, text, number, earlier, later,
  stamped, with_orders, kept_fields,
}

put_order_id-orders :
    (sprint marshal : Json → String) (n : Option ℕ) (m : Fields)
    → get_field "orders" (put_order_id sprint marshal n m) ≡ get_field "orders" m
put_order_id-orders sprint marshal none m = refl
put_order_id-orders sprint marshal (some zero) m = refl
put_order_id-orders sprint marshal (some (suc n)) m = get-put_other "orderId" "orders" _ m refl

-- Texts that all differ.
abbrev pub Distinct : List String → Type 0
Distinct [] = Unit
Distinct (k ∷ ks) = (is_seen k ks ≡ false) × Distinct ks

or_swap : (a b c : Bool) → ((a || b) || c) ≡ true → (b || (a || c)) ≡ true
or_swap true true c h = refl
or_swap true false c h = refl
or_swap false true c h = refl
or_swap false false c h = h

All-Memᴰ : {P : Fields → Type 0} (os : List Fields) → ((o : Fields) → Memᴰ o os → P o) → All P os
All-Memᴰ [] h = tt
All-Memᴰ (o ∷ os) h = (h o (Memᴰ.head refl), All-Memᴰ os (λ p m. h p (Memᴰ.tail m)))

module _ (sprint marshal : Json → String) where
  abbrev pub key : Fields → String
  key o = order_dedupe_key sprint marshal o

  seen_less :
      (p o : Fields) (seen : List String)
      → is_seen (key p) (key o ∷ seen) ≡ false
      → is_seen (key p) seen ≡ false
  seen_less p o seen h = ground arith

  seen_only :
      (p o : Fields) (seen : List String)
      → is_seen (key p) (key o ∷ seen) ≡ false
      → is_seen (key p) (key o ∷ []) ≡ false
  seen_only p o seen h = ground arith

  -- No order that is kept has a key that was seen.
  merge_orders-fresh :
      (seen : List String) (os : List Fields)
      → All (λ o. is_seen (key o) seen ≡ false) (merge_orders sprint marshal seen os)
  unfolding merge_orders
  merge_orders-fresh seen [] = tt
  merge_orders-fresh seen (o ∷ os) = elim (Bool-cases (is_empty (key o))) [
    | inl e ↦ rw e (merge_orders-fresh seen os)
    | inr e ↦ elim (Bool-cases (is_seen (key o) seen)) [
      | inl d ↦ rw (e, d) (merge_orders-fresh seen os)
      | inr d ↦
          rw (e, d)
            (
              d,
              All-weaken (merge_orders sprint marshal (key o ∷ seen) os)
                  (λ p h. seen_less p o seen h) (merge_orders-fresh (key o ∷ seen) os),
            )
    ]
  ]

  merge_orders-covers :
      (seen : List String) (os : List Fields) (o : Fields)
      → Memᴰ o os
      → is_empty (key o) ≡ false
      → (is_seen (key o) seen || is_seen (key o) (map key (merge_orders sprint marshal seen os)))
        ≡ true
  unfolding merge_orders
  merge_orders-covers seen [] o m h = elim m [ ]
  merge_orders-covers seen (x ∷ os) o (Memᴰ.head same) h =
      let full : is_empty (key x) ≡ false = subst (λ y. is_empty (key y) ≡ false) same h in
      elim (Bool-cases (is_seen (key x) seen)) [
        | inl d ↦ rw (same, full, d) refl
        | inr d ↦ rw (same, full, d, (eq_iff (key x) (key x)).1 refl) refl
      ]
  merge_orders-covers seen (x ∷ os) o (Memᴰ.tail m) h =
      let skipped = merge_orders-covers seen os o m h in
      let kept = merge_orders-covers (key x ∷ seen) os o m h in
      elim (Bool-cases (is_empty (key x))) [
        | inl e ↦ rw e skipped
        | inr e ↦ elim (Bool-cases (is_seen (key x) seen)) [
          | inl d ↦ rw (e, d) skipped
          | inr d ↦
              rw (e, d)
                (or_swap (str_eq (key x) (key o)) (is_seen (key o) seen)
                  (is_seen (key o) (map key (merge_orders sprint marshal (key x ∷ seen) os))) kept)
        ]
      ]

  merge_orders-from :
      (P : Fields → Type 0) (seen : List String) (os : List Fields)
      → All P os
      → All P (merge_orders sprint marshal seen os)
  unfolding merge_orders
  merge_orders-from P seen [] h = tt
  merge_orders-from P seen (o ∷ os) (h, hs) = elim (Bool-cases (is_empty (key o))) [
    | inl e ↦ rw e (merge_orders-from P seen os hs)
    | inr e ↦ elim (Bool-cases (is_seen (key o) seen)) [
      | inl d ↦ rw (e, d) (merge_orders-from P seen os hs)
      | inr d ↦ rw (e, d) (h, merge_orders-from P (key o ∷ seen) os hs)
    ]
  ]

  fresh-not_seen :
      (x : Fields) (os : List Fields)
      → All (λ o. is_seen (key o) (key x ∷ []) ≡ false) os
      → is_seen (key x) (map key os) ≡ false
  fresh-not_seen x [] h = refl
  fresh-not_seen x (o ∷ os) (h, hs) =
      let rest = fresh-not_seen x os hs in
      elim (Bool-cases (str_eq (key o) (key x))) [
        | inl e ↦
            let back = (eq_iff (key x) (key o)).1 (sym ((eq_iff (key o) (key x)).0 e)) in
            ground (arith)
        | inr e ↦ rw e rest
      ]

  merge_orders-Distinct :
      (seen : List String) (os : List Fields)
      → Distinct (map key (merge_orders sprint marshal seen os))
  unfolding merge_orders
  merge_orders-Distinct seen [] = tt
  merge_orders-Distinct seen (o ∷ os) = elim (Bool-cases (is_empty (key o))) [
    | inl e ↦ rw e (merge_orders-Distinct seen os)
    | inr e ↦ elim (Bool-cases (is_seen (key o) seen)) [
      | inl d ↦ rw (e, d) (merge_orders-Distinct seen os)
      | inr d ↦
          let rest = merge_orders sprint marshal (key o ∷ seen) os in
          rw (e, d)
            (
              fresh-not_seen o rest (
                  All-weaken rest (λ p h. seen_only p o seen h)
                    (merge_orders-fresh (key o ∷ seen) os)),
              merge_orders-Distinct (key o ∷ seen) os,
            )
    ]
  ]

  single_fields-orders :
      (os : List Fields) (m : Fields)
      → get_field "orders" (single_fields sprint marshal os m) ≡ get_field "orders" m
  unfolding single_fields
  single_fields-orders [] m = refl
  single_fields-orders (o ∷ []) m =
      put_order_id-orders sprint marshal (parse_uint (payload_string sprint o "orderId")) m
  single_fields-orders (o ∷ p ∷ os) m =
      get-delete_other "autoConfirmShip" "orders" (delete_field "order" (delete_field "orderId" m))
        refl
      ∙ get-delete_other "order" "orders" (delete_field "orderId" m) refl
      ∙ get-delete_other "orderId" "orders" m refl

  put_text-orders :
      (k s : String) (m : Fields)
      → str_eq k "orders" ≡ false
      → get_field "orders" (put_text sprint marshal k s m) ≡ get_field "orders" m
  put_text-orders k s m h = elim (Bool-cases (is_empty s)) [
    | inl e ↦ rw e refl
    | inr e ↦ rw e (get-put_other k "orders" (text s) m h)
  ]

  put_period-orders :
      (base incoming m : Fields)
      → get_field "orders" (put_period sprint marshal base incoming m) ≡ get_field "orders" m
  unfolding put_period
  put_period-orders base incoming m =
      let value = payload_string sprint in
      let from = earlier (value base "orderTimeFrom") (value incoming "orderTimeFrom") in
      let to = later (value base "orderTimeTo") (value incoming "orderTimeTo") in
      put_text-orders "orderTimeTo" to (put_text sprint marshal "orderTimeFrom" from m) refl
      ∙ put_text-orders "orderTimeFrom" from m refl

  stamped-orders :
      (now : ℕ) (m : Fields)
      → get_field "orders" (stamped sprint marshal now m) ≡ get_field "orders" m
  unfolding stamped
  stamped-orders now m =
      let created = number (pos now) (now == 0) in
      get-put_other "v" "orders" (number (pos 1) false) (put_field "createdAt" created m) refl
      ∙ get-put_other "createdAt" "orders" created m refl

  with_orders-orders :
      (os : List Fields) (m : Fields)
      → get_field "orders" (with_orders sprint marshal os m) ≡ some (array (items_of os))
  unfolding with_orders
  with_orders-orders os m =
      single_fields-orders os (put_field "orders" (array (items_of os)) m)
      ∙ get-put_same "orders" (array (items_of os)) m

  -- The orders of the merged payload are the orders that were collected.
  extract-merge_print_payload :
      (now : ℕ) (base incoming : Fields)
      → extract_orders (merge_print_payload sprint marshal now base incoming).0
        ≡ merged_orders sprint marshal base incoming
  unfolding extract_orders merge_print_payload
  extract-merge_print_payload now base incoming =
      let orders = merged_orders sprint marshal base incoming in
      let kept = kept_fields sprint marshal base incoming in
      let filled = with_orders sprint marshal orders kept in
      ap orders_of (
        stamped-orders now (put_period sprint marshal base incoming filled)
        ∙ put_period-orders base incoming filled
        ∙ with_orders-orders orders kept)
      ∙ objects-items orders

merge_print_payload-count :
    (sprint marshal : Json → String) (now : ℕ) (base incoming : Fields)
    → (merge_print_payload sprint marshal now base incoming).1
      ≡ length (merged_orders sprint marshal base incoming)
unfolding merge_print_payload
merge_print_payload-count sprint marshal now base incoming = refl

-- A merged print task has every order once: the orders of the merged payload have different keys and
-- are orders of the two payloads, every order of the two that has a key is among them under its key,
-- and the count that is returned is their number.
pub merge_print_payload-orders :
    (sprint marshal : Json → String) (now : ℕ) (base incoming o : Fields)
    → Memᴰ o (extract_orders base ++ extract_orders incoming)
    → is_empty (order_dedupe_key sprint marshal o) ≡ false
    → let merged = merge_print_payload sprint marshal now base incoming in
      let keys = map (order_dedupe_key sprint marshal) (extract_orders merged.0) in
      Distinct keys
      × All (λ p. Memᴰ p (extract_orders base ++ extract_orders incoming)) (extract_orders merged.0)
      × (is_seen (order_dedupe_key sprint marshal o) keys ≡ true)
      × (merged.1 ≡ length (extract_orders merged.0))
unfolding merged_orders
merge_print_payload-orders sprint marshal now base incoming o m h =
    let all = extract_orders base ++ extract_orders incoming in
    rw (extract-merge_print_payload sprint marshal now base incoming) (
      merge_orders-Distinct sprint marshal [] all,
      merge_orders-from sprint marshal (λ p. Memᴰ p all) [] all (All-Memᴰ all (λ p k. k)),
      merge_orders-covers sprint marshal [] all o m h,
      merge_print_payload-count sprint marshal now base incoming,
    )
