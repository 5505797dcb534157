-- ===== src/Pickup/Window.antt =====
-- `CheckPickupTime`: the carrier is asked for its window at the shipper's address. `ask` is the client
-- of the carrier: it gets the account, the address, the code of the city and the time.
use shipping_core.Base.{
  ℕ, zero, suc, ◌-◌, String, Bool, not, List, [], ◌∷◌, ◌==◌, if◌then◌else◌, length,
}
use shipping_core.Base.Text.{is_empty, trim_space, ◌+++◌, codes_eq, codes, codes_prefix}
use shipping_core.Errors.{carrier, Result, ok, err, ◌>>=◌, bad_request}
use shipping_core.Shipment.Model.{CarrierAccount}
use shipping_core.Shipment.World.{Answer, answer, refusal}
use shipping_core.Carrier.Accounts.{CarrierTable, get_raw}
use shipping_core.Pickup.Slots.{
  LocalTime, Clock, PickupAppointDayOption, build_pickup_appoint_options,
}

pub record CheckPickupTimeRequest : Type 0 where
  pub carrier_account_id : ℕ
  pub province : String
  pub city : String
  pub county : String
  pub address : String
  pub city_code : String

pub record PickupWindow : Type 0 where
  pub start_tm : String
  pub end_tm : String
  pub status : Bool
  pub exception_reason : String

pub record CheckPickupTimeResult : Type 0 where
  pub start_tm : String
  pub end_tm : String
  pub status : Bool
  pub exception_reason : String
  pub city_code : String
  pub address : String
  pub options : List PickupAppointDayOption

-- `joinShipperAddress`: the parts, trimmed, one after another.
unfoldable pub join_shipper_address : String → String → String → String → String
join_shipper_address province city county address =
    trim_space province +++ trim_space city +++ trim_space county +++ trim_space address

-- `strings.ReplaceAll(s, t, "")` at a text `t` that is not empty; `skip` characters are still to be
-- dropped.
remove_codes : List ℕ → ℕ → List ℕ → List ℕ
remove_codes t skip [] = []
remove_codes t (suc skip) (c ∷ s) = remove_codes t skip s
remove_codes t zero (c ∷ s) =
    let dropped = remove_codes t (length t - 1) s in
    let kept = remove_codes t zero s in if codes_prefix t (c ∷ s) then dropped else c ∷ kept

-- The name of a city without the words for the kind of place.
unfoldable pub city_key : String → String → List ℕ
unfolding remove_codes
city_key province city =
    let name = if is_empty (trim_space city) then trim_space province else trim_space city in
    remove_codes (codes "自治州") 0
      (remove_codes (codes "地区") 0 (remove_codes (codes "市") 0 (codes name)))

abbrev sf_city_codes : List (String × String)
sf_city_codes =
    ("深圳", "755")
    ∷ ("广州", "020")
    ∷ ("东莞", "769")
    ∷ ("佛山", "757")
    ∷ ("珠海", "756")
    ∷ ("中山", "760")
    ∷ ("惠州", "752")
    ∷ ("汕头", "754")
    ∷ ("湛江", "759")
    ∷ ("杭州", "571")
    ∷ ("宁波", "574")
    ∷ ("温州", "577")
    ∷ ("金华", "579")
    ∷ ("嘉兴", "573")
    ∷ ("绍兴", "575")
    ∷ ("上海", "021")
    ∷ ("南京", "025")
    ∷ ("苏州", "512")
    ∷ ("无锡", "510")
    ∷ ("常州", "519")
    ∷ ("南通", "513")
    ∷ ("徐州", "516")
    ∷ ("北京", "010")
    ∷ ("天津", "022")
    ∷ ("重庆", "023")
    ∷ ("成都", "028")
    ∷ ("武汉", "027")
    ∷ ("长沙", "731")
    ∷ ("郑州", "371")
    ∷ ("西安", "029")
    ∷ ("青岛", "532")
    ∷ ("济南", "531")
    ∷ ("大连", "411")
    ∷ ("沈阳", "024")
    ∷ ("哈尔滨", "451")
    ∷ ("长春", "431")
    ∷ ("福州", "591")
    ∷ ("厦门", "592")
    ∷ ("泉州", "595")
    ∷ ("合肥", "551")
    ∷ ("南昌", "791")
    ∷ ("昆明", "871")
    ∷ ("贵阳", "851")
    ∷ ("南宁", "771")
    ∷ ("海口", "898")
    ∷ ("石家庄", "311")
    ∷ ("太原", "351")
    ∷ ("呼和浩特", "471")
    ∷ ("兰州", "931")
    ∷ ("乌鲁木齐", "991")
    ∷ []

unfoldable pub code_of : List ℕ → List (String × String) → String
code_of key [] = ""
code_of key ((name, code) ∷ m) = if codes_eq key (codes name) then code else code_of key m

unfoldable pub resolve_sf_city_code : String → String → String
resolve_sf_city_code province city = code_of (city_key province city) sf_city_codes

abbrev or_text : String → String → String
or_text fallback s = if is_empty s then fallback else s

module _ (ask : CarrierAccount → String → String → String → Answer PickupWindow)
    (format_local_dt : LocalTime → String) where
  abbrev window_answered :
      Clock → String → String → Answer PickupWindow → Result CheckPickupTimeResult
  window_answered c city_code full_addr (refusal text) = err (carrier text)
  window_answered c city_code full_addr (answer win) =
      let start = or_text "0800" (trim_space win.start_tm) in
      let until = or_text "2000" (trim_space win.end_tm) in
      ok (record {
        start_tm = start;
        end_tm = until;
        status = win.status;
        exception_reason = win.exception_reason;
        city_code = city_code;
        address = full_addr;
        options = build_pickup_appoint_options format_local_dt c start until;
      })

  abbrev pub check_with :
      Clock → CheckPickupTimeRequest → CarrierAccount → Result CheckPickupTimeResult
  check_with c inp acc =
      let full_addr = join_shipper_address inp.province inp.city inp.county inp.address in
      let city_code =
        or_text (resolve_sf_city_code inp.province inp.city) (trim_space inp.city_code) in
      if not acc.enabled
      then err bad_request
      else if is_empty full_addr
      then err bad_request
      else window_answered c city_code full_addr
          (ask acc full_addr city_code (format_local_dt c.now))

  -- `CheckPickupTime`
  unfoldable pub check_pickup_time :
      ℕ → Clock → CheckPickupTimeRequest → CarrierTable → Result CheckPickupTimeResult
  check_pickup_time tenant c inp t =
      if inp.carrier_account_id == 0
      then err bad_request
      else get_raw tenant inp.carrier_account_id t >>= (λ acc. check_with c inp acc)
