-- ===== src/Helper/Tidy.antt =====
-- Tables of the helper's accounts in which the keys, and the codes of a tenant, occur once.
use shipping_core.Base.{
  ℕ, ◌+◌, ◌<◌, ◌≡◌, ◌≢◌, sym, ap, ◌∙◌, Bool, false, not, List, [], ◌∷◌, ◌++◌, ◌==◌, arith, inl, inr,
}
use shipping_core.Base.Table.{
  update_where, delete_where, Memᴰ-filter, Memᴰ-of-update_where, Memᴰ-of-append,
}
use shipping_core.PrintAgent.Login.{KdzsAccount}
use mathlib.Core.List.{Memᴰ}

-- The keys of the accounts and their codes within a tenant tell the accounts apart, and the keys lie
-- below the table's sequence.
pub record IsTidy (accounts : List KdzsAccount) (next : ℕ) : Type 0 where
  pub ids : (r s : KdzsAccount) → Memᴰ r accounts → Memᴰ s accounts → r.id ≡ s.id → r ≡ s
  pub codes :
      (r s : KdzsAccount)
      → Memᴰ r accounts
      → Memᴰ s accounts
      → r.tenant_id ≡ s.tenant_id
      → r.code ≡ s.code
      → r ≡ s
  pub below : (r : KdzsAccount) → Memᴰ r accounts → r.id < next

module _ (accounts : List KdzsAccount) (next : ℕ) (tidy : IsTidy accounts next) where
  -- A new account with the next key and a code that the tenant does not have.
  module _ (a : KdzsAccount) (numbered : a.id ≡ next)
      (free : (r : KdzsAccount)
        → Memᴰ r accounts
        → r.tenant_id ≡ a.tenant_id
        → r.code ≢ a.code) where
    pub IsTidy-insert : IsTidy (accounts ++ a ∷ []) (next + 1)
    IsTidy-insert = record {
      ids = λ r s m k e. elim (Memᴰ-of-append accounts a r m) [
        | inl m' ↦ elim (Memᴰ-of-append accounts a s k) [
          | inl k' ↦ tidy.ids r s m' k' e
          | inr d ↦ let low = tidy.below r m' in let same = ap (λ x. x.id) d in absurd (omega arith)
        ]
        | inr d ↦ elim (Memᴰ-of-append accounts a s k) [
          | inl k' ↦
              let low = tidy.below s k' in let same = ap (λ x. x.id) d in absurd (omega arith)
          | inr d' ↦ d ∙ sym d'
        ]
      ];
      codes = λ r s m k te ce. elim (Memᴰ-of-append accounts a r m) [
        | inl m' ↦ elim (Memᴰ-of-append accounts a s k) [
          | inl k' ↦ tidy.codes r s m' k' te ce
          | inr d ↦ absurd (free r m' (te ∙ ap (λ x. x.tenant_id) d) (ce ∙ ap (λ x. x.code) d))
        ]
        | inr d ↦ elim (Memᴰ-of-append accounts a s k) [
          | inl k' ↦
              absurd (free s k' (sym te ∙ ap (λ x. x.tenant_id) d) (sym ce ∙ ap (λ x. x.code) d))
          | inr d' ↦ d ∙ sym d'
        ]
      ];
      below = λ r m. elim (Memᴰ-of-append accounts a r m) [
        | inl m' ↦ let low = tidy.below r m' in omega arith
        | inr d ↦ let same = ap (λ x. x.id) d in omega arith
      ];
    }

  -- An account of the table is saved with other values and the same key, tenant and code.
  module _ (a b : KdzsAccount) (there : Memᴰ a accounts) (same_id : b.id ≡ a.id)
      (same_tenant : b.tenant_id ≡ a.tenant_id) (same_code : b.code ≡ a.code) where
    abbrev pub is_b : KdzsAccount → Bool
    is_b r = r.id == b.id

    -- A row that has the key, or the tenant and code, of the saved account is not another row.
    other-id : (r : KdzsAccount) → is_b r ≡ false → r.id ≢ b.id
    other-id r e d = ground arith

    other-code :
        (r : KdzsAccount)
        → Memᴰ r accounts
        → is_b r ≡ false
        → r.tenant_id ≡ b.tenant_id
        → r.code ≢ b.code
    other-code r m e te ce =
        let same = tidy.codes r a m there (te ∙ same_tenant) (ce ∙ same_code) in
        other-id r e (ap (λ x. x.id) same ∙ sym same_id)

    pub IsTidy-save : IsTidy (update_where is_b (λ _. b) accounts) next
    IsTidy-save = record {
      ids = λ r s m k e. elim (Memᴰ-of-update_where is_b (λ _. b) accounts r m) [
        | inl (m', n) ↦ elim (Memᴰ-of-update_where is_b (λ _. b) accounts s k) [
          | inl (k', o) ↦ tidy.ids r s m' k' e
          | inr (y, ky, o, d) ↦ absurd (other-id r n (e ∙ ap (λ x. x.id) d))
        ]
        | inr (x, mx, n, d) ↦ elim (Memᴰ-of-update_where is_b (λ _. b) accounts s k) [
          | inl (k', o) ↦ absurd (other-id s o (sym e ∙ ap (λ x. x.id) d))
          | inr (y, ky, o, d') ↦ d ∙ sym d'
        ]
      ];
      codes = λ r s m k te ce. elim (Memᴰ-of-update_where is_b (λ _. b) accounts r m) [
        | inl (m', n) ↦ elim (Memᴰ-of-update_where is_b (λ _. b) accounts s k) [
          | inl (k', o) ↦ tidy.codes r s m' k' te ce
          | inr (y, ky, o, d) ↦
              absurd (other-code r m' n (te ∙ ap (λ x. x.tenant_id) d) (ce ∙ ap (λ x. x.code) d))
        ]
        | inr (x, mx, n, d) ↦ elim (Memᴰ-of-update_where is_b (λ _. b) accounts s k) [
          | inl (k', o) ↦
              absurd
                (other-code s k' o (sym te ∙ ap (λ x. x.tenant_id) d) (sym ce ∙ ap (λ x. x.code) d))
          | inr (y, ky, o, d') ↦ d ∙ sym d'
        ]
      ];
      below = λ r m. elim (Memᴰ-of-update_where is_b (λ _. b) accounts r m) [
        | inl (m', n) ↦ tidy.below r m'
        | inr (x, mx, n, d) ↦
            let low = tidy.below a there in let same = ap (λ x. x.id) d in omega arith
      ];
    }

  pub IsTidy-delete : (p : KdzsAccount → Bool) → IsTidy (delete_where p accounts) next
  IsTidy-delete p =
      let kept = λ (r : KdzsAccount). Memᴰ-filter (λ x. not (p x)) accounts r in
      record {
        ids = λ r s m k e. tidy.ids r s (kept r m).0 (kept s k).0 e;
        codes = λ r s m k te ce. tidy.codes r s (kept r m).0 (kept s k).0 te ce;
        below = λ r m. tidy.below r (kept r m).0;
      }
