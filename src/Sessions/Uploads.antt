-- ===== src/Sessions/Uploads.antt =====
-- However uploads interleave, a session holds at most 20 photos.
use shipping_core.Base.{
  ℕ, ◌+◌, ◌<◌, ◌≤◌, ◌≡◌, refl, String, Bool, false, ◌||◌, ◌&&◌, Option, none, some, List, [], ◌∷◌,
  ◌++◌, leb, ltb, if_holds, length, length-append, All, Bool-cases, arith, inl, inr,
}
use shipping_core.Base.Table.{All-delete_where, All-update_where, first, first-All}
use shipping_core.Sessions.Photo.{
  PhotoSession, PhotoState, Step, creates, looks, cleans, begins, gives_up, finishes, Reached,
  starts, goes_on, is_done, max_photo_session_items, with_photo, finish_found, finish_upload,
  begin_found, begin_upload, get_found, get, create_session, clean, three_minutes, has_token,
  is_over, Begun,
}

-- At most 20 photos, and fewer unless the session is done.
abbrev pub IsBounded : PhotoSession → Type 0
IsBounded s = (length s.items ≤ 20) × (is_done s.status ≡ false → length s.items < 20)

with_photo-IsBounded :
    (later : ℕ) (final : Bool) (url : String) (s : PhotoSession)
    → length s.items < 20
    → IsBounded (with_photo later final url s)
with_photo-IsBounded later final url s h =
    let more = length-append s.items (url ∷ []) in
    elim (Bool-cases (final || leb max_photo_session_items (length (s.items ++ url ∷ [])))) [
      | inl e ↦ rw e (omega (arith, more, h), λ k. ground arith)
      | inr e ↦
          let below : length (s.items ++ url ∷ []) < 20 = ground arith in
          elim (Bool-cases (ltb s.expire_at (later + three_minutes))) [
            | inl d ↦ rw (e, d) (omega (arith, below), λ k. below)
            | inr d ↦ rw (e, d) (omega (arith, below), λ k. below)
          ]
    ]

-- Of every session in the table.
abbrev Bounded : List PhotoSession → Type 0
Bounded ss = All IsBounded ss

begin_found-Bounded :
    (now : ℕ) (ss : List PhotoSession) (found : Option PhotoSession)
    → Bounded ss
    → Bounded (begin_found now ss found).1
begin_found-Bounded now ss none h = h
begin_found-Bounded now ss (some s) h =
    let at_end = λ (x : Begun × List PhotoSession). Bounded x.1 in
    if_holds at_end (is_over now s) _ _ (All-delete_where IsBounded (has_token s.token) ss h) (
      if_holds at_end (is_done s.status && ltb 0 (length s.items)) _ _ h
        (if_holds at_end (leb max_photo_session_items (length s.items)) _ _ h h))

get_found-Bounded :
    (now : ℕ) (ss : List PhotoSession) (found : Option PhotoSession)
    → Bounded ss
    → Bounded (get_found now ss found).1
get_found-Bounded now ss none h = h
get_found-Bounded now ss (some s) h =
    if_holds (λ (x : Option PhotoSession × List PhotoSession). Bounded x.1) (is_over now s) _ _
      (All-delete_where IsBounded (has_token s.token) ss h) h

finish_found-Bounded :
    (now later : ℕ) (final : Bool) (url : String) (ss : List PhotoSession)
    (found : Option PhotoSession)
    → ((s : PhotoSession) → found ≡ some s → IsBounded s)
    → Bounded ss
    → Bounded (finish_found now later final url ss found).1
finish_found-Bounded now later final url ss none k h = h
finish_found-Bounded now later final url ss (some s) k h = elim (Bool-cases (is_over now s)) [
  | inl e ↦ rw e h
  | inr e ↦ elim (Bool-cases (is_done s.status)) [
    | inl d ↦ rw (e, d) h
    | inr d ↦
        let added = with_photo-IsBounded later final url s ((k s refl).1 d) in
        rw (e, d)
          (All-update_where IsBounded (has_token s.token) (λ _. with_photo later final url s) ss
            (λ r _. added) h)
  ]
]

Step-Bounded : {st st' : PhotoState} → Step st st' → Bounded st.sessions → Bounded st'.sessions
unfolding create_session get clean begin_upload finish_upload
Step-Bounded (creates st tenant now token subdir) h =
    ((omega arith, λ e. omega arith), All-delete_where IsBounded (has_token token) st.sessions h)
Step-Bounded (looks st now token) h =
    get_found-Bounded now st.sessions (first (has_token token) st.sessions) h
Step-Bounded (cleans st now) h = All-delete_where IsBounded (is_over now) st.sessions h
Step-Bounded (begins st now token) h =
    begin_found-Bounded now st.sessions (first (has_token token) st.sessions) h
Step-Bounded (gives_up ss us vs token) h = h
Step-Bounded (finishes ss us vs now later final url token) h =
    finish_found-Bounded now later final url ss (first (has_token token) ss)
      (λ s e. first-All (has_token token) IsBounded ss s h e) h

-- A session never holds more than 20 photos: in every state that the requests and the cleaning reach,
-- in whatever order the two parts of any number of uploads get the lock, each session has at most 20
-- photos, and one that has 20 is done, so that it takes no more.
pub Reached-Bounded : {st : PhotoState} → Reached st → All IsBounded st.sessions
Reached-Bounded starts = tt
Reached-Bounded (goes_on r s) = Step-Bounded s (Reached-Bounded r)
