-- ===== src/PrintAgent/Machines.antt =====
-- Registration: a machine is registered once per tenant, and what it is handed opens the door.
use shipping_core.Base.{
  ℕ, ◌≡◌, refl, ◌≢◌, String, Bool, true, false, ◌&&◌, ◌||◌, none, some, List, [], ◌∷◌, ◌++◌, ◌==◌,
  All, Bool-cases, Option-cases, ==-false, ==_refl, arith, inl, inr,
}
use shipping_core.Base.Text.{str_eq, trim_space, is_empty, codes_eq}
use text.Mathlib.TextPositions.{eq_refl}
use mathlib.Core.List.{Memᴰ}
use shipping_core.Base.Table.{first, first-Memᴰ, update_where}
use shipping_core.Errors.{ok, ok-injective}
use shipping_core.PrintAgent.State.{PrintDevice, KdzsSetting, AgentDb}
use shipping_core.PrintAgent.Devices.{
  RegisterInput, RegisterResult, is_machine, renew, new_device, save_machine, register_machine,
  authenticate_device, has_key, of_tenant, ensure_print_enroll_token, new_setting, set_token,
}

-- No other device of the list stands for the same machine of the same tenant.
abbrev pub NotMachine : ℕ → List ℕ → List PrintDevice → Type 0
NotMachine tenant machine_id = All (λ d. is_machine tenant machine_id d ≡ false)

abbrev pub UniqueMachines : List PrintDevice → Type 0
UniqueMachines [] = Unit
UniqueMachines (d ∷ ds) = NotMachine d.tenant_id d.machine_id ds × UniqueMachines ds

first-none-All :
    (p : PrintDevice → Bool) (ds : List PrintDevice) → first p ds ≡ none → All (λ d. p d ≡ false) ds
first-none-All p [] h = tt
first-none-All p (d ∷ ds) h = elim (Bool-cases (p d)) [
  | inl e ↦ cc (rw e at h)
  | inr e ↦ (e, first-none-All p ds (rw e at h))
]

codes_eq-sym : (a b : List ℕ) → codes_eq a b ≡ codes_eq b a
unfolding codes_eq
codes_eq-sym [] [] = refl
codes_eq-sym [] (y ∷ ys) = refl
codes_eq-sym (x ∷ xs) [] = refl
codes_eq-sym (x ∷ xs) (y ∷ ys) = ground (arith, codes_eq-sym xs ys)

module _ (hash : String → String) (now : ℕ) (key secret : String) (name : List ℕ) where
  renewed : ℕ → List PrintDevice → List PrintDevice
  renewed id ds = update_where (λ r. r.id == id) (renew hash now key secret name) ds

  NotMachine-renewed :
      (id tenant : ℕ) (machine_id : List ℕ) (ds : List PrintDevice)
      → NotMachine tenant machine_id ds
      → NotMachine tenant machine_id (renewed id ds)
  unfolding renewed
  NotMachine-renewed id tenant machine_id [] h = tt
  NotMachine-renewed id tenant machine_id (d ∷ ds) (e, h) =
      (ground arith, NotMachine-renewed id tenant machine_id ds h)

  UniqueMachines-renewed :
      (id : ℕ) (ds : List PrintDevice) → UniqueMachines ds → UniqueMachines (renewed id ds)
  unfolding renewed
  UniqueMachines-renewed id [] h = tt
  UniqueMachines-renewed id (d ∷ ds) (f, h) = elim (Bool-cases (d.id == id)) [
    | inl e ↦
        rw e (NotMachine-renewed id d.tenant_id d.machine_id ds f, UniqueMachines-renewed id ds h)
    | inr e ↦
        rw e (NotMachine-renewed id d.tenant_id d.machine_id ds f, UniqueMachines-renewed id ds h)
  ]

  NotMachine-snoc :
      (tenant : ℕ) (machine_id : List ℕ) (ds : List PrintDevice) (d : PrintDevice)
      → NotMachine tenant machine_id ds
      → is_machine tenant machine_id d ≡ false
      → NotMachine tenant machine_id (ds ++ d ∷ [])
  NotMachine-snoc tenant machine_id [] d h e = (e, tt)
  NotMachine-snoc tenant machine_id (x ∷ ds) d (a, h) e =
      (a, NotMachine-snoc tenant machine_id ds d h e)

  UniqueMachines-snoc :
      (ds : List PrintDevice) (d : PrintDevice)
      → UniqueMachines ds
      → NotMachine d.tenant_id d.machine_id ds
      → UniqueMachines (ds ++ d ∷ [])
  UniqueMachines-snoc [] d h n = (tt, tt)
  UniqueMachines-snoc (x ∷ ds) d (f, h) (e, n) = (
    NotMachine-snoc x.tenant_id x.machine_id ds d f
        (ground (arith, codes_eq-sym d.machine_id x.machine_id)),
    UniqueMachines-snoc ds d h n,
  )

  save_machine-UniqueMachines :
      (tenant : ℕ) (machine_id : List ℕ) (db : AgentDb)
      → UniqueMachines db.devices
      → UniqueMachines (save_machine hash now tenant key secret machine_id name db).1.devices
  unfolding save_machine renewed
  save_machine-UniqueMachines tenant machine_id db u =
      elim (Option-cases (first (is_machine tenant machine_id) db.devices)) [
        | inl e ↦ rw e (
            UniqueMachines-snoc db.devices
              (new_device hash now db.next_device tenant key secret machine_id name) u
              (first-none-All (is_machine tenant machine_id) db.devices e))
        | inr (d, e) ↦ rw e (UniqueMachines-renewed d.id db.devices u)
      ]

-- Registering keeps the machines of a tenant unique: if no two devices have the same tenant and
-- machine, none have afterwards, whether the request is accepted or refused.
pub register_machine-UniqueMachines :
    (hash : String → String) (now : ℕ) (key secret : String) (inp : RegisterInput) (db : AgentDb)
    → UniqueMachines db.devices
    → UniqueMachines (register_machine hash now key secret inp db).1.devices
unfolding register_machine
register_machine-UniqueMachines hash now key secret inp db u =
    elim (Bool-cases
      (is_empty (trim_space inp.enroll_token) || is_empty (trim_space inp.machine_id))) [
        | inl e ↦ rw e u
        | inr e ↦
            elim (Option-cases (
              first (λ s. str_eq s.print_enroll_token (trim_space inp.enroll_token)) db.settings)) [
                | inl none_found ↦ rw (e, none_found) u
                | inr (st, found) ↦
                    rw (e, found)
                      (save_machine-UniqueMachines hash now key secret _ st.tenant_id _ db u)
              ]
      ]

-- No device of the list has the key.
abbrev pub KeyFree : String → List PrintDevice → Type 0
KeyFree key = All (λ d. str_eq d.device_key key ≡ false)

-- A text that `randomHex` may return: not empty, and without space around it.
abbrev pub IsPlain : String → Type 0
IsPlain s = (trim_space s ≡ s) × (is_empty s ≡ false)

-- What the device found under a key has to do with what was handed out.
abbrev Holds : (String → String) → String → ℕ → PrintDevice → Type 0
Holds hash secret id d = (d.id ≡ id) × (d.secret_hash ≡ hash secret)

module _ (hash : String → String) (now : ℕ) (key secret : String) (name : List ℕ) where
  first-renewed :
      (id : ℕ) (ds : List PrintDevice) (d : PrintDevice)
      → KeyFree key ds
      → Memᴰ d ds
      → d.id ≡ id
      → (x : PrintDevice) × (first (has_key key) (renewed hash now key secret name id ds) ≡ some x)
        × Holds hash secret id x
  unfolding renewed
  first-renewed id [] d f m e = elim m [ ]
  first-renewed id (x ∷ ds) d (g, f) (Memᴰ.head same) e =
      let e' : x.id ≡ id = rw (← same) e in
      (renew hash now key secret name x, ground (arith, eq_refl key), (e', refl))
  first-renewed id (x ∷ ds) d (g, f) (Memᴰ.tail m) e = elim (Bool-cases (x.id == id)) [
    | inl hit ↦
        (renew hash now key secret name x, ground (arith, eq_refl key), (ground arith, refl))
    | inr miss ↦ let (y, found, holds) = first-renewed id ds d f m e in (y, ground arith, holds)
  ]

  first-snoc :
      (ds : List PrintDevice) (d : PrintDevice)
      → KeyFree key ds
      → has_key key d ≡ true
      → first (has_key key) (ds ++ d ∷ []) ≡ some d
  first-snoc [] d f h = rw h
  first-snoc (x ∷ ds) d (g, f) h = ground (arith, first-snoc ds d f h)

  saved-found :
      (tenant : ℕ) (machine_id : List ℕ) (db : AgentDb)
      → KeyFree key db.devices
      → let (id, db') = save_machine hash now tenant key secret machine_id name db in
        (x : PrintDevice) × (first (has_key key) db'.devices ≡ some x) × Holds hash secret id x
  unfolding save_machine renewed
  saved-found tenant machine_id db f =
      elim (Option-cases (first (is_machine tenant machine_id) db.devices)) [
        | inl e ↦
            let d = new_device hash now db.next_device tenant key secret machine_id name in
            rw e (d, first-snoc db.devices d f (eq_true key), (refl, refl))
        | inr (d, e) ↦ rw e (
            first-renewed d.id db.devices d f
              (first-Memᴰ (is_machine tenant machine_id) db.devices d e) refl)
      ]
    where
      eq_true : (k : String) → (str_eq k k && true) ≡ true
      eq_true k = rw (eq_refl k)

authenticate_of_first :
    (hash : String → String) (key secret : String) (db : AgentDb) (x : PrintDevice)
    → IsPlain key
    → IsPlain secret
    → first (has_key key) db.devices ≡ some x
    → x.secret_hash ≡ hash secret
    → authenticate_device hash key secret db ≡ ok x
unfolding authenticate_device
authenticate_of_first hash key secret db x (tk, nk) (ts, ns) found same =
    rw (tk, ts, nk, ns, found, same, eq_refl)

-- What a machine is handed when it registers opens the door: the new key and secret authenticate
-- the device with the id that was returned. The key must not be in use, and key and secret must be
-- texts without space around them, as random hexadecimal texts are.
pub register-authenticate :
    (hash : String → String) (now : ℕ) (key secret : String) (inp : RegisterInput) (db : AgentDb)
    (r : RegisterResult)
    → (register_machine hash now key secret inp db).0 ≡ ok r
    → KeyFree key db.devices
    → IsPlain key
    → IsPlain secret
    → (d : PrintDevice) × (authenticate_device hash key secret
          (register_machine hash now key secret inp db).1
        ≡ ok d)
      × (d.id ≡ r.device_id)
      × (r.device_key ≡ key)
      × (r.device_secret ≡ secret)
unfolding register_machine
register-authenticate hash now key secret inp db r h free pk ps =
    elim (Bool-cases
      (is_empty (trim_space inp.enroll_token) || is_empty (trim_space inp.machine_id))) [
        | inl e ↦ cc (rw e at h)
        | inr e ↦
            elim (Option-cases (
              first (λ s. str_eq s.print_enroll_token (trim_space inp.enroll_token)) db.settings)) [
                | inl none_found ↦ cc (rw (e, none_found) at h)
                | inr (st, found) ↦
                    let same = ok-injective (rw (e, found) at h) in
                    let (x, at_key, holds) =
                      saved-found hash now key secret _ st.tenant_id _ db free in
                    rw (← same, e, found)
                      (
                        x,
                        authenticate_of_first hash key secret _ x pk ps at_key holds.1,
                        holds.0,
                        refl,
                        refl,
                      )
              ]
      ]

-- Asking for the enrolment token of a tenant (not 0) a second time returns the same token and changes
-- nothing, whatever random text is at hand then; the first call's random text is not blank.
pub ensure_print_enroll_token_idempotent :
    (tenant : ℕ) (fresh fresh' : String) (db : AgentDb)
    → tenant ≢ 0
    → is_empty (trim_space fresh) ≡ false
    → let (r, db') = ensure_print_enroll_token tenant fresh db in
      ensure_print_enroll_token tenant fresh' db' ≡ (r, db')
unfolding ensure_print_enroll_token
ensure_print_enroll_token_idempotent tenant fresh fresh' db nz plain =
    elim (Option-cases (first (of_tenant tenant) db.settings)) [
      | inl e ↦ rw (==-false tenant nz, e) (rw (first-added db.settings e) (rw plain))
      | inr (st, e) ↦ elim (Bool-cases (is_empty (trim_space st.print_enroll_token))) [
        | inr kept ↦ rw (==-false tenant nz, e, kept) (rw (e, kept))
        | inl missing ↦
            rw (==-false tenant nz, e, missing) (rw (first-stored db.settings st e) (rw plain))
      ]
    ]
  where
    first-added :
        (ss : List KdzsSetting)
        → first (of_tenant tenant) ss ≡ none
        → first (of_tenant tenant) (ss ++ new_setting tenant fresh ∷ [])
          ≡ some (new_setting tenant fresh)
    first-added [] h = rw (==_refl tenant)
    first-added (s ∷ ss) h = ground (arith, first-added ss)

    first-stored :
        (ss : List KdzsSetting) (st : KdzsSetting)
        → first (of_tenant tenant) ss ≡ some st
        → first (of_tenant tenant) (update_where (of_tenant tenant) (set_token fresh) ss)
          ≡ some (set_token fresh st)
    first-stored [] st h = cc
    first-stored (s ∷ ss) st h = ground (arith, first-stored ss st)
