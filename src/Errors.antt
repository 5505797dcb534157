-- ===== src/Errors.antt =====
-- internal/service/errors.go, the errors of the print agent's service, and those of the services that
-- the program calls. An error that wraps one of the sentinel errors is that sentinel: no caller but
-- the HTTP layer reads more.
use shipping_core.Base.{String, ◌≡◌, refl, ap, ◌⊎◌, inl, inr}

pub data Err : Type 0 where
  not_found duplicate_code invalid_status bad_request : Err
  not_configured : Err
  agents_unavailable device_offline device_not_found : Err
  enroll_token_invalid device_auth no_task : Err
  -- of the helper's accounts: a field is blank, the code is taken, the account is missing or
  -- disabled, in use, without a password; there is none; the agent's answer cannot be read
  account_blank account_taken account_missing account_in_use account_locked no_account : Err
  bad_answer : Err
  -- the carrier has answered without a label
  no_label : Err
  -- an error of the stores' agent, with its text
  store_agent : String → Err
  -- an error of the order centre, and of the carrier, with its text
  order_core carrier : String → Err

pub data Result {ℓ} (A : Type ℓ) : Type ℓ where
  err : Err → Result A
  ok : A → Result A

-- An error ends the chain.
infixl 5 ◌>>=◌
abbrev pub ◌>>=◌ {ℓ} : {A B : Type ℓ} → Result A → (A → Result B) → Result B
err e >>= next = err e
ok a >>= next = next a

-- What a chain that succeeds did in its first step.
pub ok_of_bind {ℓ} :
    {A B : Type ℓ} {b : B} (next : A → Result B) (first : Result A)
    → (first >>= next) ≡ ok b
    → (a : A) × (next a ≡ ok b) × (first ≡ ok a)
ok_of_bind next (err e) h = cc
ok_of_bind next (ok a) h = (a, h, refl)

abbrev value_or {ℓ} : {A : Type ℓ} → A → Result A → A
value_or a (ok b) = b
value_or a (err e) = a

pub ok-injective {ℓ} : {A : Type ℓ} {a b : A} → ok a ≡ ok b → a ≡ b
ok-injective {a} h = ap (value_or a) h

pub Result-cases {ℓ} :
    {A : Type ℓ} (r : Result A) → ((a : A) × (r ≡ ok a)) ⊎ ((e : Err) × (r ≡ err e))
Result-cases (ok a) = inl (a, refl)
Result-cases (err e) = inr (e, refl)
