-- ===== src/Shipment/Rows.antt =====
-- Reading a shipment back from the table, and what is stored after a save.
use shipping_core.Base.{
  ℕ, ◌≡◌, refl, sym, ap, ◌∙◌, Bool, true, Option, none, some, List, [], ◌∷◌, Bool-cases, arith, inl,
  inr,
}
use shipping_core.Base.Table.{first, first-holds, update_where}
use shipping_core.Errors.{ok, ok-injective}
use shipping_core.Shipment.Model.{Shipment, CarrierAccount}
use shipping_core.Shipment.World.{
  Outside, World, is_row, loaded, get_shipment, save_shipment, found_shipment, found_carrier,
}

-- The row with a key, as it stands in the table.
abbrev pub stored : ℕ → ℕ → World → Option Shipment
stored tenant id w = first (is_row tenant id) w.shipments

first-replace :
    (p : Shipment → Bool) (rows : List Shipment) (r s : Shipment)
    → first p rows ≡ some r
    → p s ≡ true
    → first p (update_where p (λ _. s) rows) ≡ some s
first-replace p [] r s h e = cc
first-replace p (x ∷ rows) r s h e = ground (arith, first-replace p rows r s)

-- Loading rewrites an address only.
loaded-key :
    (o : Outside) (r : Shipment) → ((loaded o r).tenant_id ≡ r.tenant_id) × ((loaded o r).id ≡ r.id)
unfolding loaded
loaded-key o r = elim (Bool-cases o.has_store) [ inl e ↦ (rw e, rw e) | inr e ↦ (rw e, rw e) ]

found-ok :
    (o : Outside) (x : Option Shipment) (s : Shipment)
    → found_shipment o x ≡ ok s
    → (r : Shipment) × (x ≡ some r) × (loaded o r ≡ s)
unfolding found_shipment
found-ok o none s h = cc
found-ok o (some r) s h = (r, refl, ok-injective h)

module _ (o : Outside) (tenant id : ℕ) (w : World) (s : Shipment)
    (got : get_shipment o tenant id w ≡ ok s) where
  pub got_row : (r : Shipment) × (stored tenant id w ≡ some r) × (loaded o r ≡ s)
  unfolding get_shipment
  got_row = found-ok o (stored tenant id w) s got

  -- The shipment that was read has the key that was asked for.
  pub got_key : (s.tenant_id ≡ tenant) × (s.id ≡ id)
  got_key =
      let (r, e, same) = got_row in
      let h : is_row tenant id r ≡ true = first-holds (is_row tenant id) w.shipments r e in
      let k : (r.tenant_id ≡ tenant) × (r.id ≡ id) = ground arith in
      (
        sym (ap (λ (x : Shipment). x.tenant_id) same) ∙ (loaded-key o r).0 ∙ k.0,
        sym (ap (λ (x : Shipment). x.id) same) ∙ (loaded-key o r).1 ∙ k.1,
      )

  -- What is saved under that key is what is stored, whatever else has been recorded.
  pub stored-save :
      (s' : Shipment) (w' : World)
      → w'.shipments ≡ w.shipments
      → s'.id ≡ s.id
      → s'.tenant_id ≡ s.tenant_id
      → stored tenant id (save_shipment tenant s' w') ≡ some s'
  unfolding save_shipment
  stored-save s' w' same i t =
      let (r, e, _) = got_row in
      let k : s'.id ≡ id = i ∙ got_key.1 in
      let k' : s'.tenant_id ≡ tenant = t ∙ got_key.0 in
      let own : is_row tenant id s' ≡ true = ground arith in
      let replaced = first-replace (is_row tenant id) w.shipments r s' e own in
      ap
        (λ (key : ℕ).
          first (is_row tenant id) (update_where (is_row tenant key) (λ _. s') w'.shipments))
        k
      ∙ ap
          (λ (rows : List Shipment).
            first (is_row tenant id) (update_where (is_row tenant id) (λ _. s') rows))
          same
      ∙ replaced

-- The account that is found.
pub found_carrier-ok :
    (found : Option CarrierAccount) (c : CarrierAccount)
    → found_carrier found ≡ ok c
    → found ≡ some c
found_carrier-ok none c h = cc
found_carrier-ok (some r) c h = ap some (ok-injective h)
