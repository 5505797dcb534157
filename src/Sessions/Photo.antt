-- ===== src/Sessions/Photo.antt =====
-- admin/upload_session.go: photos are uploaded from a phone into a session that a page of the shop
-- has opened. An upload takes the lock twice, and stores the file between. Times are nanoseconds.
use shipping_core.Base.{
  ℕ, ◌+◌, String, Bool, true, false, ◌&&◌, ◌||◌, Option, none, some, List, [], ◌∷◌, ◌++◌, ltb, leb,
  not, if◌then◌else◌, length,
}
use shipping_core.Base.Text.{is_empty, str_eq, lower_is, has_prefix, ◌+++◌}
use shipping_core.Base.Table.{first, delete_where, update_where}
use Prim.Native.Char.{Char}

pub data PhotoStatus : Type 0 where
  pending done : PhotoStatus

pub record PhotoSession : Type 0 where
  pub token : String
  pub subdir : String
  pub tenant_id : ℕ
  pub url : String
  pub items : List String
  pub status : PhotoStatus
  pub expire_at : ℕ

abbrev photo_session_ttl : ℕ
photo_session_ttl = 600000000000

abbrev photo_session_keep_alive : ℕ
photo_session_keep_alive = 120000000000

abbrev pub three_minutes : ℕ
three_minutes = 180000000000

abbrev pub max_photo_session_items : ℕ
max_photo_session_items = 20

abbrev max_image_size : ℕ
max_image_size = 10485760

abbrev pub is_over : ℕ → PhotoSession → Bool
is_over now s = ltb s.expire_at now

abbrev pub has_token : String → PhotoSession → Bool
has_token token s = str_eq s.token token

abbrev pub drop_token : String → List PhotoSession → List PhotoSession
drop_token token ss = delete_where (has_token token) ss

-- One round of `cleanupLoop`
unfoldable pub clean : ℕ → List PhotoSession → List PhotoSession
clean now ss = delete_where (is_over now) ss

abbrev pub get_found :
    ℕ → List PhotoSession → Option PhotoSession → Option PhotoSession × List PhotoSession
get_found now ss none = (none, ss)
get_found now ss (some s) = if is_over now s then (none, drop_token s.token ss) else (some s, ss)

-- `get`
unfoldable pub get : ℕ → String → List PhotoSession → Option PhotoSession × List PhotoSession
get now token ss = get_found now ss (first (has_token token) ss)

-- `strings.Trim(s, "/")`
trim_slashes_left : String → String
trim_slashes_left String.[] = ""
trim_slashes_left (String.◌∷◌ c s) =
    let rest = trim_slashes_left s in if str_eq (String.◌∷◌ c "") "/" then rest else String.◌∷◌ c s

drop_slash : Bool → Char → String → String
drop_slash is_slash c String.[] = if is_slash then "" else String.◌∷◌ c ""
drop_slash is_slash c (String.◌∷◌ d s) = String.◌∷◌ c (String.◌∷◌ d s)

trim_slashes_right : String → String
unfolding drop_slash
trim_slashes_right String.[] = ""
trim_slashes_right (String.◌∷◌ c s) =
    drop_slash (str_eq (String.◌∷◌ c "") "/") c (trim_slashes_right s)

unfoldable pub trim_slashes : String → String
unfolding trim_slashes_left trim_slashes_right
trim_slashes s = trim_slashes_right (trim_slashes_left s)

abbrev pub new_photo_session : ℕ → String → ℕ → String → PhotoSession
new_photo_session tenant token now subdir = record {
  token = token;
  subdir = if is_empty (trim_slashes subdir) then "products" else trim_slashes subdir;
  tenant_id = tenant;
  url = "";
  items = [];
  status = pending;
  expire_at = now + photo_session_ttl;
}

-- `CreateSession`, which stores the session in place of one with the same token.
unfoldable pub create_session :
    ℕ → String → ℕ → String → List PhotoSession → PhotoSession × List PhotoSession
create_session tenant token now subdir ss = (
  new_photo_session tenant token now subdir,
  new_photo_session tenant token now subdir ∷ drop_token token ss,
)

-- The answers of the handlers: an error's status, or the session that the answer shows.
pub data Reply : Type 0 where
  fail : ℕ → Reply
  shown : PhotoSession → Reply

abbrev pub is_done : PhotoStatus → Bool
is_done done = true
is_done pending = false

-- What the first part of an upload comes to: an answer, or the directory for the file.
pub data Begun : Type 0 where
  answered : Reply → Begun
  upload_to : String → Begun

abbrev pub begin_found : ℕ → List PhotoSession → Option PhotoSession → Begun × List PhotoSession
begin_found now ss none = (answered (fail 404), ss)
begin_found now ss (some s) =
    if is_over now s
    then (answered (fail 404), drop_token s.token ss)
    else if is_done s.status && ltb 0 (length s.items)
    then (answered (shown s), ss)
    else if leb max_photo_session_items (length s.items)
    then (answered (fail 400), ss)
    else (upload_to s.subdir, ss)

-- `MobileUpload`, up to the first release of the lock.
unfoldable pub begin_upload : ℕ → String → List PhotoSession → Begun × List PhotoSession
begin_upload now token ss = begin_found now ss (first (has_token token) ss)

-- The file of the form.
pub record UploadFile : Type 0 where
  pub size : ℕ
  pub filename : String
  pub content_type : String

-- `filepath.Ext`: from the last dot of the last part of the path; `ext` is what the characters
-- before come to.
unfoldable pub path_ext : String → String → String
path_ext ext String.[] = ext
path_ext ext (String.◌∷◌ c s) =
    path_ext
      (if str_eq (String.◌∷◌ c "") "/"
        then ""
        else if str_eq (String.◌∷◌ c "") "."
        then "."
        else if is_empty ext
        then ""
        else ext +++ String.◌∷◌ c "")
      s

-- `strings.ToLower(ext)` is one of the known extensions.
unfoldable pub is_image_ext : String → Bool
is_image_ext ext =
    lower_is ext ".jpg"
    || lower_is ext ".jpeg"
    || lower_is ext ".png"
    || lower_is ext ".gif"
    || lower_is ext ".webp"
    || lower_is ext ".bmp"
    || lower_is ext ".heic"

unfoldable pub file_fault : Option UploadFile → Bool
file_fault none = true
file_fault (some f) =
    if ltb max_image_size f.size
    then true
    else not (is_image_ext (path_ext "" f.filename)) && not (has_prefix f.content_type "image/")

-- The photo is added; `later` is the time at which the new deadline is computed.
abbrev pub with_photo : ℕ → Bool → String → PhotoSession → PhotoSession
with_photo later final url s =
    let items' = s.items ++ url ∷ [] in
    if final || leb max_photo_session_items (length items')
    then record s {
      items = items';
      url = url;
      status = done;
      expire_at = later + photo_session_keep_alive;
    }
    else if ltb s.expire_at (later + three_minutes)
    then record s { items = items'; url = url; expire_at = later + photo_session_ttl }
    else record s { items = items'; url = url }

abbrev pub finish_found :
    ℕ → ℕ → Bool → String → List PhotoSession → Option PhotoSession → Reply × List PhotoSession
finish_found now later final url ss none = (fail 404, ss)
finish_found now later final url ss (some s) =
    if is_over now s then (fail 404, ss) else if is_done s.status then (shown s, ss) else (
      shown (with_photo later final url s),
      update_where (has_token s.token) (λ _. with_photo later final url s) ss,
    )

-- `MobileUpload`, from the second taking of the lock on, when the file has been stored under `url`.
unfoldable pub finish_upload :
    ℕ → ℕ → Bool → String → String → List PhotoSession → Reply × List PhotoSession
finish_upload now later final url token ss =
    finish_found now later final url ss (first (has_token token) ss)

-- The sessions, and the tokens of the uploads that are between their two parts.
pub record PhotoState : Type 0 where
  pub sessions : List PhotoSession
  pub uploads : List String

-- What `begin_upload` leaves under way.
abbrev pub under_way : String → List String → Begun → List String
under_way token us (answered r) = us
under_way token us (upload_to dir) = token ∷ us

-- The parts of the handlers and the rounds of the cleaning, as they get the lock one after another.
-- An upload whose file is refused or cannot be stored ends after its first part.
pub data Step : PhotoState → PhotoState → Type 0 where
  creates :
      (st : PhotoState) (tenant now : ℕ) (token subdir : String)
      → Step st (record st { sessions = (create_session tenant token now subdir st.sessions).1 })
  looks :
      (st : PhotoState) (now : ℕ) (token : String)
      → Step st (record st { sessions = (get now token st.sessions).1 })
  cleans : (st : PhotoState) (now : ℕ) → Step st (record st { sessions = clean now st.sessions })
  begins :
      (st : PhotoState) (now : ℕ) (token : String)
      → Step st (record {
        sessions = (begin_upload now token st.sessions).1;
        uploads = under_way token st.uploads (begin_upload now token st.sessions).0;
      })
  gives_up :
      (ss : List PhotoSession) (us vs : List String) (token : String)
      → Step
          (record { sessions = ss; uploads = us ++ token ∷ vs })
          (record { sessions = ss; uploads = us ++ vs })
  finishes :
      (ss : List PhotoSession) (us vs : List String) (now later : ℕ) (final : Bool)
      (url token : String)
      → Step
          (record { sessions = ss; uploads = us ++ token ∷ vs })
          (record { sessions = (finish_upload now later final url token ss).1; uploads = us ++ vs })

pub data Reached : PhotoState → Type 0 where
  starts : Reached (record { sessions = []; uploads = [] })
  goes_on : {st st' : PhotoState} → Reached st → Step st st' → Reached st'
