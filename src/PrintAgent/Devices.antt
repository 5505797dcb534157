-- ===== src/PrintAgent/Devices.antt =====
-- Registration, authentication and heartbeat of the machines, and the tenant's enrolment token.
-- The hash of a secret and the random texts come from outside: `hash` is SHA-256 in hexadecimal,
-- `key`, `secret` and `fresh` are the results of `randomHex`, and `now` is the clock.
use shipping_core.Base.{
  ℕ, ◌+◌, ◌-◌, String, Bool, true, false, ◌&&◌, ◌||◌, Option, none, some, List, [], ◌∷◌, ◌++◌, ◌==◌,
  ltb, leb, if◌then◌else◌,
}
use shipping_core.Base.Text.{str_eq, is_empty, trim_space, cut_bytes, codes_eq}
use shipping_core.Base.Table.{first, update_where}
use shipping_core.Errors.{Result, ok, err, bad_request, enroll_token_invalid, device_auth}
use shipping_core.PrintAgent.State.{PrintDevice, KdzsSetting, AgentDb}

pub record RegisterInput : Type 0 where
  pub enroll_token : String
  pub machine_id : String
  pub name : String

pub record RegisterResult : Type 0 where
  pub device_id : ℕ
  pub device_key : String
  pub device_secret : String
  pub machine_id : List ℕ
  pub name : List ℕ
  pub tenant_id : ℕ

abbrev pub is_machine : ℕ → List ℕ → PrintDevice → Bool
is_machine tenant machine_id d = d.tenant_id == tenant && codes_eq d.machine_id machine_id

abbrev pub has_key : String → PrintDevice → Bool
has_key key d = str_eq d.device_key key && d.enabled

module _ (hash : String → String) where
  abbrev pub check_secret : String → Option PrintDevice → Result PrintDevice
  check_secret sec none = err device_auth
  check_secret sec (some d) = if str_eq d.secret_hash (hash sec) then ok d else err device_auth

  unfoldable pub authenticate_device : String → String → AgentDb → Result PrintDevice
  authenticate_device device_key secret db =
      let key = trim_space device_key in
      let sec = trim_space secret in
      if is_empty key || is_empty sec
      then err device_auth
      else check_secret sec (first (has_key key) db.devices)

module _ (hash : String → String) (now : ℕ) where
  abbrev pub renew : String → String → List ℕ → PrintDevice → PrintDevice
  renew key secret name d = record d {
    device_key = key;
    secret_hash = hash secret;
    name = name;
    enabled = true;
    last_seen_at = some now;
  }

  abbrev pub new_device : ℕ → ℕ → String → String → List ℕ → List ℕ → PrintDevice
  new_device id tenant key secret machine_id name = record {
    id = id;
    tenant_id = tenant;
    user_id = 0;
    machine_id = machine_id;
    name = name;
    device_key = key;
    secret_hash = hash secret;
    last_seen_at = some now;
    enabled = true;
  }

  abbrev pub save_found :
      ℕ → String → String → List ℕ → List ℕ → AgentDb → Option PrintDevice → ℕ × AgentDb
  save_found tenant key secret machine_id name db (some d) = (
    d.id,
    record db { devices = update_where (λ r. r.id == d.id) (renew key secret name) db.devices },
  )
  save_found tenant key secret machine_id name db none = (
    db.next_device,
    record db {
      devices = db.devices ++ new_device db.next_device tenant key secret machine_id name ∷ [];
      next_device = db.next_device + 1;
    },
  )

  -- The transaction of `RegisterMachine`: the device's id, and the tables afterwards.
  unfoldable pub save_machine : ℕ → String → String → List ℕ → List ℕ → AgentDb → ℕ × AgentDb
  save_machine tenant key secret machine_id name db =
      save_found tenant key secret machine_id name db
        (first (is_machine tenant machine_id) db.devices)

  abbrev pub register_with :
      String
      → String
      → List ℕ
      → List ℕ
      → AgentDb
      → Option KdzsSetting
      → Result RegisterResult × AgentDb
  register_with key secret machine_id name db none = (err enroll_token_invalid, db)
  register_with key secret machine_id name db (some st) =
      let (id, db') = save_machine st.tenant_id key secret machine_id name db in
      (
        ok (record {
          device_id = id;
          device_key = key;
          device_secret = secret;
          machine_id = machine_id;
          name = name;
          tenant_id = st.tenant_id;
        }),
        db',
      )

  unfoldable pub register_machine :
      String → String → RegisterInput → AgentDb → Result RegisterResult × AgentDb
  register_machine key secret inp db =
      let token = trim_space inp.enroll_token in
      let machine_id = trim_space inp.machine_id in
      let name = if is_empty (trim_space inp.name) then machine_id else trim_space inp.name in
      if is_empty token || is_empty machine_id
      then (err bad_request, db)
      else register_with key secret (cut_bytes 128 machine_id) (cut_bytes 64 name) db
          (first (λ s. str_eq s.print_enroll_token token) db.settings)

  abbrev pub seen : PrintDevice → PrintDevice
  seen d = record d { last_seen_at = some now }

  abbrev pub touch : PrintDevice → AgentDb → AgentDb
  touch d db = record db { devices = update_where (λ r. r.id == d.id) seen db.devices }

  abbrev pub heartbeat_of : AgentDb → Result PrintDevice → Result PrintDevice × AgentDb
  heartbeat_of db (err e) = (err e, db)
  heartbeat_of db (ok d) = (ok (seen d), touch d db)

  unfoldable pub heartbeat : String → String → AgentDb → Result PrintDevice × AgentDb
  heartbeat device_key secret db = heartbeat_of db (authenticate_device hash device_key secret db)

  -- `deviceOnline`, with 90 seconds of grace; a time in the future counts as just now.
  unfoldable pub device_online : Option ℕ → Bool
  device_online none = false
  device_online (some last) = leb (now - last) 90000000000

  abbrev is_stale : PrintDevice → Bool
  is_stale d =
      d.enabled
      && elim d.last_seen_at [ none ↦ true | some last ↦ ltb (last + 259200000000000) now ]

  unfoldable pub prune_stale_devices : ℕ → AgentDb → AgentDb
  prune_stale_devices tenant db = record db {
    devices =
        update_where (λ d. d.tenant_id == tenant && is_stale d) (λ d. record d { enabled = false })
          db.devices;
  }

abbrev pub of_tenant : ℕ → KdzsSetting → Bool
of_tenant tenant s = s.tenant_id == tenant

abbrev pub new_setting : ℕ → String → KdzsSetting
new_setting tenant token = record {
  tenant_id = tenant;
  default_account_code = "";
  active_account_code = "";
  auto_sync_from_ssa = true;
  print_enroll_token = token;
  last_synced_at = none;
}

abbrev pub set_token : String → KdzsSetting → KdzsSetting
set_token token s = record s { print_enroll_token = token }

abbrev pub store_token : ℕ → String → AgentDb → AgentDb
store_token tenant token db = record db {
  settings = update_where (of_tenant tenant) (set_token token) db.settings;
}

abbrev pub add_setting : ℕ → String → AgentDb → AgentDb
add_setting tenant token db = record db { settings = db.settings ++ new_setting tenant token ∷ [] }

abbrev pub ensured : ℕ → String → AgentDb → Option KdzsSetting → Result String × AgentDb
ensured tenant fresh db none = (ok fresh, add_setting tenant fresh db)
ensured tenant fresh db (some st) =
    if is_empty (trim_space st.print_enroll_token)
    then (ok fresh, store_token tenant fresh db)
    else (ok st.print_enroll_token, db)

unfoldable pub ensure_print_enroll_token : ℕ → String → AgentDb → Result String × AgentDb
ensure_print_enroll_token tenant fresh db =
    if tenant == 0
    then (err bad_request, db)
    else ensured tenant fresh db (first (of_tenant tenant) db.settings)

abbrev pub rotated : ℕ → String → AgentDb → Option KdzsSetting → Result String × AgentDb
rotated tenant fresh db none = (ok fresh, add_setting tenant fresh db)
rotated tenant fresh db (some st) = (ok fresh, store_token tenant fresh db)

unfoldable pub rotate_print_enroll_token : ℕ → String → AgentDb → Result String × AgentDb
rotate_print_enroll_token tenant fresh db =
    if tenant == 0
    then (err bad_request, db)
    else rotated tenant fresh db (first (of_tenant tenant) db.settings)
