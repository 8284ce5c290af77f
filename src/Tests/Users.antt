-- ===== src/Tests/Users.antt =====
-- The theorems on profiles, calls and suggestions, applied to one profile.
use running_hackathon.Prelude.{
  ◌+◌, ◌*◌, ◌≤◌, ◌≢◌, ◌≡◌, refl, none, some, [], ◌∷◌, arith, All, length, str_eq,
}
use running_hackathon.Clock.{Time, minute, day}
use running_hackathon.Sql
use running_hackathon.Db.{Event, Transcript, Store}
use running_hackathon.Users.{has_id}
use running_hackathon.Users.Calls.{call_max_duration}
use running_hackathon.Users.Identity.{profiles}
use running_hackathon.Interests.{interest_list}
use running_hackathon.Matching.{split_preferences, rank_events}
use running_hackathon.Matching.Eligible.{IsEligible, rank_events-IsEligible}
use running_hackathon.Transcripts.{transcripts}
use running_hackathon.Transcripts.Owned.{IsCallOf, transcripts-owned}
use running_hackathon.Transcripts.Saved.{copies}
use running_hackathon.Tests.{noon, ada, ada_store}

one_ada : Sql.count (has_id 1) ada_store.users.rows ≤ 1
unfolding Sql.count
one_ada = omega arith

just_one_ada : Sql.count (has_id 1) ada_store.users.rows ≡ 1
unfolding Sql.count
just_one_ada = refl

found_ada : Sql.first (has_id 1) ada_store.users.rows ≡ some ada
unfolding Sql.first
found_ada = refl

never_called : (t : Time) → ada.call_started_at ≡ some t → noon ≢ t + call_max_duration
never_called t h e = absurd (none_is_not_some h)
  where
    none_is_not_some : none ≡ some t → ⊥
    none_is_not_some h = cc

one_profile : profiles "+447700900123" ada_store ≤ 1
unfolding Sql.count
one_profile = omega arith

abbrev hack_night : Event
hack_night = record {
  id = 1;
  title = "Hack night";
  starts_at = noon + 3 * day;
  city = "London";
  url = "https://example.org/hack";
  tags = "non_uni_hackathon";
}

rank_events-IsEligible_example :
    All
      (IsEligible
        (split_preferences (interest_list ada)).0
        (split_preferences (interest_list ada)).1
        noon)
      (rank_events ada (hack_night ∷ []) noon)
rank_events-IsEligible_example = rank_events-IsEligible ada (hack_night ∷ []) noon

abbrev call : Transcript
call = record {
  id = 0;
  user_id = 1;
  phone = "+447700900123";
  conversation_id = "conv_1";
  call_sid = "CA1";
  direction = "outbound";
  status = "done";
  source = "webhook";
  summary = "Ada is well";
  body = "[00:00] agent: hello";
  turns = 1;
  duration = minute;
  started_at = noon;
  received_at = 0;
}

abbrev called_store : Store
called_store = record ada_store {
  transcripts = record { rows = record call { id = 1 } ∷ []; next_id = 2 };
}

one_copy : copies "conv_1" called_store ≤ 1
unfolding Sql.count
one_copy = omega arith

transcripts-owned_example :
    All (IsCallOf 1 called_store) (transcripts str_eq 1 "" 20 0 called_store).0
    × (length (transcripts str_eq 1 "" 20 0 called_store).0 ≤ 100)
transcripts-owned_example = transcripts-owned str_eq 1 "" 20 0 called_store
