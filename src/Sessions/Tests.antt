-- ===== src/Sessions/Tests.antt =====
-- The theorems on sessions, at a task that is fetched and a photo that is uploaded.
use shipping_core.Base.{String, Bool, true, ◌≤◌, ◌≡◌, refl, some, [], ◌∷◌, List, All}
use shipping_core.Base.Text.{trim_space, str_eq, bytes}
use shipping_core.Sessions.Handoff.{
  Event, created, fetched, cleaned, is_refused, mobile_get, create_session, deliveries, delivered,
  creations, after, take_session, clean,
}
use shipping_core.Sessions.Delivered.{deliveries-le}
use shipping_core.Sessions.Photo.{PhotoState, Reached, starts, goes_on, creates, begins, finishes}
use shipping_core.Sessions.Photo
use shipping_core.Sessions.Uploads.{IsBounded, Reached-Bounded}

abbrev is_braces : String → Bool
is_braces s = str_eq s "{}"

abbrev task_events : List Event
task_events = created 1 2 "t" 0 (some "{}") ∷ fetched 5 " t" ∷ cleaned 6 ∷ fetched 7 "t" ∷ []

-- The first request gets the task, the second one nothing.
deliveries_test : deliveries is_braces "t" task_events [] ≡ 1
unfolding deliveries delivered after create_session is_refused mobile_get take_session clean
    trim_space bytes
deliveries_test = refl

deliveries-le_example : deliveries is_braces "t" task_events [] ≤ creations "t" task_events
deliveries-le_example = deliveries-le is_braces "t" task_events

abbrev others : List Event
others = created 1 2 "u" 1 (some "{}") ∷ cleaned 9 ∷ fetched 9 "u" ∷ []

abbrev opened : PhotoState
opened = record { sessions = (Photo.create_session 1 "t" 0 "" []).1; uploads = [] }

abbrev uploading : PhotoState
uploading = record {
  sessions = (Photo.begin_upload 5 "t" opened.sessions).1;
  uploads = Photo.under_way "t" [] (Photo.begin_upload 5 "t" opened.sessions).0;
}

Reached-uploading : Reached uploading
Reached-uploading =
    goes_on (goes_on starts (creates (record { sessions = []; uploads = [] }) 1 0 "t" ""))
      (begins opened 5 "t")

-- The upload that is under way is the one that began.
abbrev uploaded : PhotoState
uploaded = record {
  sessions = (Photo.finish_upload 8 9 true "url" "t" uploading.sessions).1;
  uploads = [];
}

Reached-uploaded : Reached uploaded
unfolding Photo.begin_upload Photo.create_session
Reached-uploaded = goes_on Reached-uploading (finishes uploading.sessions [] [] 8 9 true "url" "t")

Reached-Bounded_example : All IsBounded uploaded.sessions
Reached-Bounded_example = Reached-Bounded Reached-uploaded
