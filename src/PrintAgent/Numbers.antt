-- ===== src/PrintAgent/Numbers.antt =====
-- What the synchronisation reads out of texts: a job's id (parseAgentsJobID), numbers and switches
-- of a payload (parsePayloadUint64, payloadBool), and the number of a parcel in a job's result
-- (parseMailNoFromResult, extractMailNoFromText with its regular expression).
use shipping_core.Base.{
  ◌≡◌, refl, ℕ, zero, suc, ◌+◌, ◌-◌, ◌*◌, String, Bool, true, false, not, ◌&&◌, ◌||◌, Option, none,
  some, List, [], ◌∷◌, ◌==◌, leb, ltb, if◌then◌else◌,
}
use shipping_core.Base.Int.{pos}
use shipping_core.Base.Text.{is_empty, trim_space, codes, bytes, fold_code, lower_is, char_count}
use shipping_core.Base.Text.Blanks.{skip_blanks, is_blank}
use shipping_core.PrintAgent.Payload.{Json, null, bool, number, text, Fields, get_field}
use Prim.Native.Char.{code}

abbrev is_digit : ℕ → Bool
is_digit c = leb 48 c && leb c 57

abbrev uint64_max : ℕ
uint64_max = 18446744073709551615

-- `n, _ := strconv.ParseUint(s, 10, 64)`, from the digits read so far: the greatest number where
-- they are too many, 0 where something else than a digit comes first.
abbrev uint_loop : ℕ → List ℕ → ℕ
uint_loop n [] = n
uint_loop n (c ∷ cs) =
    let m = n * 10 + (c - 48) in
    let rest = uint_loop m cs in
    if not (is_digit c) then 0 else if ltb uint64_max m then uint64_max else rest

unfoldable pub parse_uint_or_zero : String → ℕ
parse_uint_or_zero s = uint_loop 0 (codes s)

-- The same on bytes that space may follow.
abbrev job_loop : ℕ → Bool → List ℕ → ℕ
job_loop n begun [] = n
job_loop n begun (c ∷ cs) =
    let m = n * 10 + (c - 48) in
    let rest = job_loop m true cs in
    if not (is_digit c)
    then (if begun && is_blank (c ∷ cs) then n else 0)
    else if ltb uint64_max m
    then uint64_max
    else rest

abbrev after_mark : List ℕ → List ℕ → Option (List ℕ)
after_mark [] bs = some bs
after_mark (a ∷ p) [] = none
after_mark (a ∷ p) (b ∷ bs) = let rest = after_mark p bs in if a == b then rest else none

abbrev job_after : Option (List ℕ) → ℕ
job_after none = 0
job_after (some bs) = job_loop 0 false bs

-- `parseAgentsJobID`
unfoldable pub parse_agents_job_id : List ℕ → ℕ
unfolding bytes skip_blanks is_blank
parse_agents_job_id msg = job_after (after_mark (bytes "agentsJobId=") (skip_blanks msg))

-- `parsePayloadUint64`; a number is below 2 ^ 63.
unfoldable pub parse_payload_uint64 : Option Json → ℕ
unfolding parse_uint_or_zero
parse_payload_uint64 (some (number (pos n) is_zero)) = n
parse_payload_uint64 (some (text s)) = parse_uint_or_zero (trim_space s)
parse_payload_uint64 _ = 0

abbrev text_bool : String → Bool
text_bool s =
    lower_is (trim_space s) "true" || lower_is (trim_space s) "1" || lower_is (trim_space s) "yes"

-- `payloadBool`: a value that is there counts as `false` unless it says otherwise.
unfoldable pub payload_bool : Option Json → Option Bool
payload_bool none = none
payload_bool (some null) = none
payload_bool (some (bool b)) = some b
payload_bool (some (text s)) = some (text_bool s)
payload_bool (some (number n is_zero)) = some (not is_zero)
payload_bool (some v) = some false

-- The space of the expression, `\s`.
abbrev is_re_space : ℕ → Bool
is_re_space n = n == 9 || n == 10 || n == 12 || n == 13 || n == 32

skip_re_space : String → String
skip_re_space String.[] = ""
skip_re_space (String.◌∷◌ c s) =
    let rest = skip_re_space s in if is_re_space (code c) then rest else String.◌∷◌ c s

skip_colon : String → String
skip_colon String.[] = ""
skip_colon (String.◌∷◌ c s) = if code c == 58 || code c == 0xff1a then s else String.◌∷◌ c s

-- `[A-Za-z0-9]` without regard to case
abbrev is_alnum : ℕ → Bool
is_alnum c = is_digit c || (leb 97 (fold_code c) && leb (fold_code c) 122)

take_alnum : ℕ → String → String
take_alnum zero s = ""
take_alnum (suc n) String.[] = ""
take_alnum (suc n) (String.◌∷◌ c s) =
    let rest = take_alnum n s in if is_alnum (code c) then String.◌∷◌ c rest else ""

-- The text after a label that it begins with, without regard to case.
strip_label : List ℕ → String → Option String
strip_label [] s = some s
strip_label (a ∷ p) String.[] = none
strip_label (a ∷ p) (String.◌∷◌ c s) =
    let rest = strip_label p s in if fold_code (code c) == a then rest else none

abbrev strip_no : Option String → Option String
strip_no none = none
strip_no (some s) = strip_label (codes "no") (skip_re_space s)

abbrev or_else : Option String → Option String → Option String
or_else next none = next
or_else next (some s) = some s

after_label : String → Option String
unfolding strip_label skip_re_space
after_label s =
    or_else
      (or_else
        (or_else
          (or_else (strip_label (codes "tracking") s) (strip_no (strip_label (codes "mail") s)))
          (strip_label (codes "面单号") s))
        (strip_label (codes "快递单号") s))
      (strip_label (codes "运单号") s)

abbrev long_enough : String → Option String
long_enough n = if leb 8 (char_count n) then some n else none

abbrev number_after : Option String → Option String
number_after none = none
number_after (some s) = long_enough (take_alnum 32 (skip_re_space (skip_colon (skip_re_space s))))

-- The group of the leftmost match of `mailNoInTextRe`.
find_mail_no : String → Option String
unfolding after_label
find_mail_no String.[] = none
find_mail_no (String.◌∷◌ c s) =
    let later = find_mail_no s in or_else later (number_after (after_label (String.◌∷◌ c s)))

abbrev text_or_empty : Option String → String
text_or_empty none = ""
text_or_empty (some s) = trim_space s

unfoldable pub extract_mail_no : String → String
unfolding find_mail_no take_alnum skip_colon skip_re_space
extract_mail_no s = text_or_empty (find_mail_no (trim_space s))

abbrev text_value : Option Json → String
text_value (some (text s)) = trim_space s
text_value _ = ""

abbrev first_text : List String → String → Fields → String
first_text [] other m = other
first_text (k ∷ ks) other m =
    let rest = first_text ks other m in
    if is_empty (text_value (get_field k m)) then rest else text_value (get_field k m)

abbrev number_in_fields : String → Option Fields → String
number_in_fields raw none = extract_mail_no raw
number_in_fields raw (some m) =
    let message = extract_mail_no (text_value (get_field "message" m)) in
    first_text ("mailNo" ∷ "expressNo" ∷ "waybillNo" ∷ "trackingNo" ∷ [])
      (if is_empty message then extract_mail_no raw else message) m

-- `parseMailNoFromResult`
unfoldable pub parse_mail_no_from_result : (String → Option Fields) → String → String
parse_mail_no_from_result unmarshal result =
    let raw = trim_space result in if is_empty raw then "" else number_in_fields raw (unmarshal raw)

job_id_test : parse_agents_job_id (bytes " agentsJobId=42 ") ≡ 42
unfolding parse_agents_job_id
job_id_test = refl

mail_no_test : extract_mail_no "已打印并发货，运单号： SF12345678 等" ≡ "SF12345678"
unfolding extract_mail_no trim_space fold_code
mail_no_test = refl

-- Seven characters are too few.
short_no_test : extract_mail_no "Mail No:SF12345" ≡ ""
unfolding extract_mail_no trim_space fold_code
short_no_test = refl
