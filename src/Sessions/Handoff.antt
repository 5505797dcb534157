-- ===== src/Sessions/Handoff.antt =====
-- admin/kdzs_helper_handoff.go: a task waits under a token until it is fetched once or its time has
-- passed. Times are nanoseconds. `is_object` is whether `json.Unmarshal` reads the text as an
-- object; a token is what the handler makes of a new UUID.
use shipping_core.Base.{
  ℕ, ◌+◌, String, Bool, ◌||◌, Option, none, some, List, [], ◌∷◌, ◌==◌, ltb, not, if◌then◌else◌,
  length,
}
use shipping_core.Base.Text.{is_empty, trim_space, str_eq, bytes}
use shipping_core.Base.Table.{first, delete_where}

pub record Session : Type 0 where
  pub token : String
  pub tenant_id : ℕ
  pub user_id : ℕ
  pub payload : String
  pub expire_at : ℕ

abbrev pub handoff_ttl : ℕ
handoff_ttl = 1800000000000

abbrev pub max_payload_bytes : ℕ
max_payload_bytes = 524288

-- `now.After(s.ExpireAt)`
abbrev pub is_over : ℕ → Session → Bool
is_over now s = ltb s.expire_at now

abbrev pub has_token : String → Session → Bool
has_token token s = str_eq s.token token

-- `delete(h.sessions, token)`
abbrev pub drop_token : String → List Session → List Session
drop_token token ss = delete_where (has_token token) ss

-- `h.sessions[token] = s`
abbrev pub put_session : Session → List Session → List Session
put_session s ss = s ∷ drop_token s.token ss

-- One round of `cleanupLoop`
unfoldable pub clean : ℕ → List Session → List Session
clean now ss = delete_where (is_over now) ss

abbrev pub get_found : ℕ → List Session → Option Session → Option Session × List Session
get_found now ss none = (none, ss)
get_found now ss (some s) = if is_over now s then (none, drop_token s.token ss) else (some s, ss)

-- `get`
unfoldable pub get : ℕ → String → List Session → Option Session × List Session
get now token ss = get_found now ss (first (has_token token) ss)

abbrev pub take_found : ℕ → List Session → Option Session → Option Session × List Session
take_found now ss none = (none, ss)
take_found now ss (some s) =
    if is_over now s then (none, drop_token s.token ss) else (some s, drop_token s.token ss)

-- `take`
unfoldable pub take_session : ℕ → String → List Session → Option Session × List Session
take_session now token ss = take_found now ss (first (has_token token) ss)

-- The answers of the handlers: an error's status, or the session that the answer shows.
pub data Reply : Type 0 where
  fail : ℕ → Reply
  shown : Session → Reply

abbrev pub new_session : ℕ → ℕ → String → ℕ → String → Session
new_session tenant user token now payload = record {
  token = token;
  tenant_id = tenant;
  user_id = user;
  payload = payload;
  expire_at = now + handoff_ttl;
}

module _ (is_object : String → Bool) where
  unfoldable pub is_refused : String → Bool
  is_refused payload =
      length (bytes payload) == 0
      || ltb max_payload_bytes (length (bytes payload))
      || not (is_object payload)

  -- `CreateSession`; a body that cannot be read has no payload.
  abbrev pub create_with : ℕ → ℕ → String → ℕ → Option String → List Session → Reply × List Session
  create_with tenant user token now none ss = (fail 400, ss)
  create_with tenant user token now (some payload) ss =
      if is_refused payload then (fail 400, ss) else (
        shown (new_session tenant user token now payload),
        put_session (new_session tenant user token now payload) ss,
      )

  unfoldable pub create_session :
      ℕ → ℕ → String → ℕ → Option String → List Session → Reply × List Session
  create_session tenant user token now payload ss = create_with tenant user token now payload ss

abbrev pub reply_taken : Option Session × List Session → Reply × List Session
reply_taken (none, ss) = (fail 404, ss)
reply_taken (some s, ss) = (shown s, ss)

-- `MobileGet`; a payload that was stored was read as an object and can be read again.
unfoldable pub mobile_get : ℕ → String → List Session → Reply × List Session
mobile_get now param ss =
    if is_empty (trim_space param) || ltb 64 (length (bytes (trim_space param)))
    then (fail 400, ss)
    else reply_taken (take_session now (trim_space param) ss)

-- The requests and the rounds of the cleaning, in the order in which they get the lock.
pub data Event : Type 0 where
  -- tenant, user, token, time and payload
  created : ℕ → ℕ → String → ℕ → Option String → Event
  fetched : ℕ → String → Event
  cleaned : ℕ → Event

-- How often the session of a token is handed out.
abbrev pub hands_out : String → Reply → ℕ
hands_out token (fail n) = 0
hands_out token (shown s) = if str_eq s.token token then 1 else 0

unfoldable pub delivered : String → Event → List Session → ℕ
delivered token (created tenant user t now payload) ss = 0
delivered token (fetched now param) ss = hands_out token (mobile_get now param ss).0
delivered token (cleaned now) ss = 0

module _ (is_object : String → Bool) where
  unfoldable pub after : Event → List Session → List Session
  after (created tenant user token now payload) ss =
      (create_session is_object tenant user token now payload ss).1
  after (fetched now param) ss = (mobile_get now param ss).1
  after (cleaned now) ss = clean now ss

  unfoldable pub run : List Event → List Session → List Session
  run [] ss = ss
  run (e ∷ es) ss = run es (after e ss)

  unfoldable pub deliveries : String → List Event → List Session → ℕ
  deliveries token [] ss = 0
  deliveries token (e ∷ es) ss = delivered token e ss + deliveries token es (after e ss)

-- How often a session is created under a token.
abbrev pub creates : String → Event → ℕ
creates token (created tenant user t now payload) = if str_eq t token then 1 else 0
creates token (fetched now param) = 0
creates token (cleaned now) = 0

unfoldable pub creations : String → List Event → ℕ
creations token [] = 0
creations token (e ∷ es) = creates token e + creations token es
