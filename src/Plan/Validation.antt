-- ===== src/Plan/Validation.antt =====
-- When `PutShipPlan` accepts a request, and what a refused request leaves behind.
use shipping_core.Base.{
  ℕ, ◌+◌, ◌<◌, ◌≡◌, refl, ◌↔◌, ◌⊎◌, inl, inr, String, false, ◌&&◌, List, [], ◌∷◌, All, Bool-cases,
  arith, subst,
}
use shipping_core.Base.Int.{pos, ◌≤ℤ◌}
use shipping_core.Base.Text.{is_empty, trim_space}
use shipping_core.Errors.{Err, Result-cases, ok, err, bad_request, ok_of_bind, ok-injective}
use shipping_core.Plan.Rows.{pending, ShipPlanLine, PlanTable}
use shipping_core.Plan.Save.{
  ShipPlanLineInput, prepared_line, prepare_line, prepare_from, has_bound, has_free, check_plan,
  SyncSplitItems, put_ship_plan,
}
use mathlib.Core.Option.{Option}

-- A line of the request that names a specification and a positive quantity.
abbrev pub IsAcceptable : ShipPlanLineInput → Type 0
IsAcceptable l = (is_empty (trim_space l.sku_name) ≡ false) × (pos 1 ≤ℤ l.qty)

-- Every line is bound to an order item, or none is.
abbrev pub IsUniform : List ShipPlanLineInput → Type 0
IsUniform ls = All (λ l. 0 < l.order_item_id) ls ⊎ All (λ l. l.order_item_id ≡ 0) ls

-- A line that is ready to be saved.
pub record IsReady (tenant order_core_id : ℕ) (l : ShipPlanLine) : Type 0 where
  pub tenant_eq : l.tenant_id ≡ tenant
  pub order_eq : l.order_core_id ≡ order_core_id
  pub named : is_empty l.sku_name ≡ false
  pub positive : pos 1 ≤ℤ l.qty
  pub status_eq : l.status ≡ pending

abbrev Bound : List ShipPlanLineInput → Type 0
Bound = All (λ l. 0 < l.order_item_id)

abbrev Free : List ShipPlanLineInput → Type 0
Free = All (λ l. l.order_item_id ≡ 0)

module _ (tenant order_core_id : ℕ) where
  -- What one request line and the row made of it have in common.
  abbrev pub Made : ℕ → ShipPlanLineInput → ShipPlanLine → Type 0
  Made i l r = (r ≡ prepared_line tenant order_core_id i l) × IsAcceptable l

  abbrev pub AllMade : ℕ → List ShipPlanLineInput → List ShipPlanLine → Type 0
  AllMade i [] [] = Unit
  AllMade i (l ∷ ls) (r ∷ rs) = Made i l r × AllMade (i + 1) ls rs
  AllMade i _ _ = ⊥

  prepare_line-Made :
      (i : ℕ) (l : ShipPlanLineInput) (r : ShipPlanLine)
      → prepare_line tenant order_core_id i l ≡ ok r
      → Made i l r
  unfolding prepare_line
  prepare_line-Made i l r h = ground arith

  prepare_line_of_IsAcceptable :
      (i : ℕ) (l : ShipPlanLineInput)
      → IsAcceptable l
      → prepare_line tenant order_core_id i l ≡ ok (prepared_line tenant order_core_id i l)
  unfolding prepare_line
  prepare_line_of_IsAcceptable i l h = ground arith

  prepare_from-AllMade :
      (i : ℕ) (ls : List ShipPlanLineInput) (rs : List ShipPlanLine)
      → prepare_from tenant order_core_id i ls ≡ ok rs
      → AllMade i ls rs
  unfolding prepare_from
  prepare_from-AllMade i [] [] h = tt
  prepare_from-AllMade i [] (r ∷ rs) h = cc
  prepare_from-AllMade i (l ∷ ls) rs h =
      let (r, h', e) = ok_of_bind _ (prepare_line tenant order_core_id i l) h in
      let (more, h'', e') = ok_of_bind _ (prepare_from tenant order_core_id (i + 1) ls) h' in
      subst (AllMade i (l ∷ ls)) (ok-injective h'')
        (prepare_line-Made i l r e, prepare_from-AllMade (i + 1) ls more e')

  prepare_from_total :
      (i : ℕ) (ls : List ShipPlanLineInput)
      → All IsAcceptable ls
      → (rs : List ShipPlanLine) × (prepare_from tenant order_core_id i ls ≡ ok rs)
  unfolding prepare_from
  prepare_from_total i [] h = ([], refl)
  prepare_from_total i (l ∷ ls) (a, h) =
      let (more, e) = prepare_from_total (i + 1) ls h in
      (prepared_line tenant order_core_id i l ∷ more, rw (prepare_line_of_IsAcceptable i l a, e))

  AllMade-bound :
      (i : ℕ) (ls : List ShipPlanLineInput) (rs : List ShipPlanLine)
      → AllMade i ls rs
      → (has_free rs ≡ false) ↔ All (λ l. 0 < l.order_item_id) ls
  unfolding has_free
  AllMade-bound i [] [] m = (λ _. tt, λ _. refl)
  AllMade-bound i [] (r ∷ rs) m = absurd m
  AllMade-bound i (l ∷ ls) [] m = absurd m
  AllMade-bound i (l ∷ ls) (r ∷ rs) (made, m) = ground (arith, AllMade-bound (i + 1) ls rs m)

  AllMade-free :
      (i : ℕ) (ls : List ShipPlanLineInput) (rs : List ShipPlanLine)
      → AllMade i ls rs
      → (has_bound rs ≡ false) ↔ All (λ l. l.order_item_id ≡ 0) ls
  unfolding has_bound
  AllMade-free i [] [] m = (λ _. tt, λ _. refl)
  AllMade-free i [] (r ∷ rs) m = absurd m
  AllMade-free i (l ∷ ls) [] m = absurd m
  AllMade-free i (l ∷ ls) (r ∷ rs) (made, m) = ground (arith, AllMade-free (i + 1) ls rs m)

  AllMade-IsAcceptable :
      (i : ℕ) (ls : List ShipPlanLineInput) (rs : List ShipPlanLine)
      → AllMade i ls rs
      → All IsAcceptable ls
  AllMade-IsAcceptable i [] [] m = tt
  AllMade-IsAcceptable i [] (r ∷ rs) m = absurd m
  AllMade-IsAcceptable i (l ∷ ls) [] m = absurd m
  AllMade-IsAcceptable i (l ∷ ls) (r ∷ rs) (made, m) =
      (made.1, AllMade-IsAcceptable (i + 1) ls rs m)

  AllMade-IsReady :
      (i : ℕ) (ls : List ShipPlanLineInput) (rs : List ShipPlanLine)
      → AllMade i ls rs
      → All (IsReady tenant order_core_id) rs
  AllMade-IsReady i [] [] m = tt
  AllMade-IsReady i [] (r ∷ rs) m = absurd m
  AllMade-IsReady i (l ∷ ls) [] m = absurd m
  AllMade-IsReady i (l ∷ ls) (r ∷ rs) ((e, a), m) = (
    rw e (record {
      tenant_eq = refl;
      order_eq = refl;
      named = a.0;
      positive = a.1;
      status_eq = refl;
    }),
    AllMade-IsReady (i + 1) ls rs m,
  )

  prepare_from_error :
      (i : ℕ) (ls : List ShipPlanLineInput) (e : Err)
      → prepare_from tenant order_core_id i ls ≡ err e
      → e ≡ bad_request
  unfolding prepare_from prepare_line
  prepare_from_error i [] e h = cc
  prepare_from_error i (l ∷ ls) e h = ground (arith, prepare_from_error (i + 1) ls e)

  module _ (lines : List ShipPlanLineInput) where
    check_plan-parts :
        (rs : List ShipPlanLine)
        → check_plan tenant order_core_id lines ≡ ok rs
        → (prepare_from tenant order_core_id 0 lines ≡ ok rs)
          × ((has_bound rs && has_free rs) ≡ false)
    unfolding check_plan
    check_plan-parts rs h =
        let (ps, h', e) = ok_of_bind _ (prepare_from tenant order_core_id 0 lines) h in
        elim (Bool-cases (has_bound ps && has_free ps)) [
          | inl mixed ↦ cc (rw mixed at h')
          | inr plain ↦
              let same : ps ≡ rs = ok-injective (rw plain at h') in
              (rw (← same) e, rw (← same) plain)
        ]

    IsUniform-of-parts :
        (rs : List ShipPlanLine)
        → AllMade 0 lines rs
        → ((has_bound rs && has_free rs) ≡ false)
        → IsUniform lines
    IsUniform-of-parts rs m h = elim (Bool-cases (has_bound rs)) [
      | inl b ↦ inl ((AllMade-bound 0 lines rs m).0 (ground arith))
      | inr nb ↦ inr ((AllMade-free 0 lines rs m).0 nb)
    ]

    parts-of-uniform :
        (rs : List ShipPlanLine)
        → AllMade 0 lines rs
        → IsUniform lines
        → (has_bound rs && has_free rs) ≡ false
    parts-of-uniform rs m (inl b) = let e = (AllMade-bound 0 lines rs m).1 b in ground arith
    parts-of-uniform rs m (inr f) = let e = (AllMade-free 0 lines rs m).1 f in ground arith

    -- What is accepted is ready to be saved: in the tenant, for the order, pending, named, with a
    -- positive quantity.
    pub check_plan-IsReady :
        (rs : List ShipPlanLine)
        → check_plan tenant order_core_id lines ≡ ok rs
        → All (IsReady tenant order_core_id) rs
    check_plan-IsReady rs h =
        AllMade-IsReady 0 lines rs (prepare_from-AllMade 0 lines rs (check_plan-parts rs h).0)

    -- What is saved is made of the lines of the request.
    pub check_plan-AllMade :
        (rs : List ShipPlanLine)
        → check_plan tenant order_core_id lines ≡ ok rs
        → AllMade 0 lines rs
    check_plan-AllMade rs h = prepare_from-AllMade 0 lines rs (check_plan-parts rs h).0

    -- A request is accepted exactly when every line names a specification and a positive quantity,
    -- and either all lines or no line are bound to an order item.
    pub check_plan_iff :
        ((rs : List ShipPlanLine) × (check_plan tenant order_core_id lines ≡ ok rs))
        ↔ (All IsAcceptable lines × IsUniform lines)
    unfolding check_plan
    check_plan_iff = (
      λ p.
          let (e, plain) = check_plan-parts p.0 p.1 in
          let m = prepare_from-AllMade 0 lines p.0 e in
          (AllMade-IsAcceptable 0 lines p.0 m, IsUniform-of-parts p.0 m plain),
      λ q.
          let (rs, e) = prepare_from_total 0 lines q.0 in
          let plain = parts-of-uniform rs (prepare_from-AllMade 0 lines rs e) q.1 in
          (rs, rw (e, plain)),
    )

    check_plan_error : (e : Err) → check_plan tenant order_core_id lines ≡ err e → e ≡ bad_request
    unfolding check_plan
    check_plan_error e h = ground (arith, prepare_from_error 0 lines e)

    -- A request with a line that names no specification or no positive quantity, or with lines of
    -- both kinds, is refused, and the table stays as it was.
    pub put_ship_plan_refused :
        (client : Option SyncSplitItems) (token : String) (t : PlanTable)
        → ¬ (All IsAcceptable lines × IsUniform lines)
        → put_ship_plan client tenant token order_core_id lines t ≡ (err bad_request, t)
    unfolding put_ship_plan
    put_ship_plan_refused client token t bad =
        elim (Result-cases (check_plan tenant order_core_id lines)) [
          | inl (rs, e) ↦ absurd (bad (check_plan_iff.0 (rs, e)))
          | inr (x, e) ↦ ground (arith, check_plan_error x)
        ]
