-- ===== src/Sessions/Delivered.antt =====
-- A task is handed out once for each session that was created for it, and within its time it is
-- handed out when it is fetched.
use shipping_core.Base.{
  ℕ, ◌+◌, ◌≤◌, ◌≡◌, refl, sym, subst, ◌∙◌, ltb, ◌||◌, String, Bool, false, if_holds, Option, none,
  some, List, [], ◌∷◌, if◌then◌else◌, length, filter, Bool-cases, arith, inl, inr,
}
use shipping_core.Base.Text.{str_eq, eq_iff, is_empty, trim_space, bytes}
use shipping_core.Base.Table.{first, first-holds, delete_where}
use shipping_core.Sessions.Handoff.{
  Session, Event, created, fetched, cleaned, has_token, drop_token, put_session, is_over, clean,
  take_session, take_found, mobile_get, create_session, is_refused, new_session, after, delivered,
  deliveries, creates, creations, hands_out, reply_taken, create_with, new_session, is_refused,
  create_session, clean, fetched, Reply, fail,
}

-- How many sessions are kept under a token.
abbrev kept : String → List Session → ℕ
kept token ss = length (filter (has_token token) ss)

kept-delete :
    (token : String) (p : Session → Bool) (ss : List Session)
    → kept token (delete_where p ss) ≤ kept token ss
kept-delete token p [] = omega arith
kept-delete token p (s ∷ ss) = ground (arith, kept-delete token p ss)

kept-drop : (token : String) (ss : List Session) → kept token (drop_token token ss) ≡ 0
kept-drop token [] = refl
kept-drop token (s ∷ ss) = ground (arith, kept-drop token ss)

kept-first :
    (token : String) (ss : List Session) (s : Session)
    → first (has_token token) ss ≡ some s
    → 1 ≤ kept token ss
kept-first token [] s h = cc
kept-first token (x ∷ ss) s h = ground (arith, kept-first token ss s)

kept-put :
    (token : String) (s : Session) (ss : List Session)
    → kept token (put_session s ss) ≤ (if str_eq s.token token then 1 else 0) + kept token ss
kept-put token s ss = elim (Bool-cases (str_eq s.token token)) [
  | inl e ↦
      let none_left : kept token (drop_token s.token ss) ≡ 0 =
        subst (λ k. kept k (drop_token s.token ss) ≡ 0) ((eq_iff s.token token).0 e)
          (kept-drop s.token ss) in
      rw e (omega (arith, none_left))
  | inr e ↦ let fewer = kept-delete token (has_token s.token) ss in rw e (omega (arith, fewer))
]

-- A fetch hands out no more than it takes away.
abbrev IsBalanced : String → List Session → Reply × List Session → Type 0
IsBalanced token ss (reply, ss') = hands_out token reply + kept token ss' ≤ kept token ss

taken-balance :
    (token t : String) (now : ℕ) (ss : List Session) (found : Option Session)
    → first (has_token t) ss ≡ found
    → hands_out token (reply_taken (take_found now ss found)).0
        + kept token (reply_taken (take_found now ss found)).1
      ≤ kept token ss
taken-balance token t now ss none e = omega arith
taken-balance token t now ss (some s) e =
    let fewer = kept-delete token (has_token s.token) ss in
    elim (Bool-cases (is_over now s)) [
      | inl over ↦ rw over (omega (arith, fewer))
      | inr alive ↦ elim (Bool-cases (str_eq s.token token)) [
        | inl same ↦
            let at_t = (eq_iff s.token t).0 (first-holds (has_token t) ss s e) in
            let at_token = (eq_iff s.token token).0 same in
            let none_left : kept token (drop_token s.token ss) ≡ 0 =
              subst (λ k. kept k (drop_token s.token ss) ≡ 0) at_token (kept-drop s.token ss) in
            let one : 1 ≤ kept token ss =
              kept-first token ss s
                (subst (λ k. first (has_token k) ss ≡ some s) (sym at_t ∙ at_token) e) in
            rw (alive, same) (omega (arith, none_left, one))
        | inr other ↦ rw (alive, other) (omega (arith, fewer))
      ]
    ]

created-balance :
    (is_object : String → Bool) (token : String) (tenant user : ℕ) (t : String) (now : ℕ)
    (payload : Option String) (ss : List Session)
    → kept token (create_with is_object tenant user t now payload ss).1
      ≤ (if str_eq t token then 1 else 0) + kept token ss
created-balance is_object token tenant user t now none ss = omega arith
created-balance is_object token tenant user t now (some payload) ss =
    let put = kept-put token (new_session tenant user t now payload) ss in
    elim (Bool-cases (is_refused is_object payload)) [
      | inl e ↦ rw e (omega arith)
      | inr e ↦ rw e put
    ]

event-balance :
    (is_object : String → Bool) (token : String) (e : Event) (ss : List Session)
    → delivered token e ss + kept token (after is_object e ss) ≤ creates token e + kept token ss
unfolding delivered after create_session mobile_get take_session clean
event-balance is_object token (created tenant user t now payload) ss =
    let put = created-balance is_object token tenant user t now payload ss in omega (arith, put)
event-balance is_object token (fetched now param) ss =
    let all =
      if_holds (IsBalanced token ss)
        (is_empty (trim_space param) || ltb 64 (length (bytes (trim_space param)))) (fail 400, ss) _
        (omega arith) (taken-balance token (trim_space param) now ss _ refl) in
    omega (arith, all)
event-balance is_object token (cleaned now) ss =
    let fewer = kept-delete token (is_over now) ss in omega (arith, fewer)

deliveries-from :
    (is_object : String → Bool) (token : String) (es : List Event) (ss : List Session)
    → deliveries is_object token es ss ≤ creations token es + kept token ss
unfolding deliveries creations
deliveries-from is_object token [] ss = omega arith
deliveries-from is_object token (e ∷ es) ss =
    let step = event-balance is_object token e ss in
    let rest = deliveries-from is_object token es (after is_object e ss) in
    omega (arith, step, rest)

-- A task is handed out at most once: whatever requests and rounds of the cleaning get the lock, in
-- whatever order and at whatever times, the session of a token is handed out no more often than a
-- session was created under that token.
pub deliveries-le :
    (is_object : String → Bool) (token : String) (es : List Event)
    → deliveries is_object token es [] ≤ creations token es
deliveries-le is_object token es =
    let all = deliveries-from is_object token es [] in omega (arith, all)

-- What an event leaves alone: it neither creates nor fetches the token, and the cleaning comes before
-- the deadline.
abbrev pub IsQuiet : String → ℕ → Event → Type 0
IsQuiet token deadline (created tenant user t now payload) = str_eq t token ≡ false
IsQuiet token deadline (fetched now param) = str_eq (trim_space param) token ≡ false
IsQuiet token deadline (cleaned now) = now ≤ deadline

module _ (token : String) (s : Session) where
  -- The session is still the one that its token finds.
  abbrev Stays : List Session → Type 0
  Stays ss = first (has_token token) ss ≡ some s
