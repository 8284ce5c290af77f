-- ===== src/Tests/Checklist.antt =====
-- The theorems on the checklist, applied to the onboarding of a person who has just signed up.
use running_hackathon.Prelude.{◌+◌, ◌<◌, true, ◌≡◌, refl, none, some, List, [], ◌∷◌, All}
use running_hackathon.Clock.{minute}
use running_hackathon.Outcome.{ok, err, unusable_answer}
use running_hackathon.Sql
use running_hackathon.Db.{ChecklistItem, Store}
use running_hackathon.Checklist.Template.{ChecklistQuestion, onboarding_template, template_for}
use running_hackathon.Checklist.Sessions.{opened, ensure_session, create_session, carry_forward}
use running_hackathon.Checklist.Sessions.Open.{ensure_session_twice}
use running_hackathon.Checklist.Answers.{
  checklist, next_checklist_item, of_session, record_checklist_answer, is_settled,
}
use running_hackathon.Checklist.Answers.Current.{Settles, record_answer_in_order}
use running_hackathon.Checklist.Answers.Refused.{record_answer_error}
use running_hackathon.Checklist.Answers.Progress.{unsettled, Reply, unsettled-record_lt}
use running_hackathon.Tests.{noon, newcomer, newcomer_store}

abbrev begun : Store
begun = (ensure_session (some newcomer) "sms" "onboarding" noon newcomer_store).1

abbrev first_item : ChecklistItem
first_item = record {
  id = 1;
  user_id = 1;
  session_id = 1;
  key = "name";
  position = 0;
  prompt = "Hi, I'm CheckIn. Before anything else - what should I call you?";
  status = "unanswered";
  answer = "";
  source = "conversation";
  asked_at = none;
  answered_at = none;
}

session_opened :
    (ensure_session (some newcomer) "sms" "onboarding" noon newcomer_store).0
    ≡ ok (opened 1 "sms" "onboarding" noon 1)
unfolding ensure_session Sql.top
session_opened = refl

ensure_session_twice_example :
    ensure_session (some newcomer) "sms" "onboarding" (noon + minute) begun
    ≡ (ok (opened 1 "sms" "onboarding" noon 1), begun)
ensure_session_twice_example =
    ensure_session_twice newcomer "sms" "onboarding" noon (noon + minute) newcomer_store
      (opened 1 "sms" "onboarding" noon 1) session_opened

no_items : Sql.count (of_session 1 1) newcomer_store.checklist_items.rows ≡ 0
unfolding Sql.count
no_items = refl

first_asked : next_checklist_item 1 1 begun ≡ some first_item
unfolding ensure_session next_checklist_item Sql.insert Sql.first Sql.top Sql.select Sql.order_by
    checklist template_for carry_forward running_hackathon.Str.trim_space
    running_hackathon.Checklist.Template.display_name
    running_hackathon.Checklist.Sessions.last_settled
first_asked = refl

-- The answer has no name in it: the transaction has written the item by then.
nameless :
    (record_checklist_answer newcomer 1 "name" "answered" "123" (noon + minute) begun).0
    ≡ err unusable_answer
unfolding ensure_session next_checklist_item Sql.insert Sql.first Sql.top Sql.select Sql.order_by
    record_checklist_answer running_hackathon.Str.trim_space checklist template_for carry_forward
    running_hackathon.Checklist.Template.display_name
    running_hackathon.Checklist.Sessions.last_settled
    running_hackathon.Checklist.Answers.persist_answer
    running_hackathon.Checklist.Template.question_by_key
    running_hackathon.Checklist.Replies.normalise_name running_hackathon.Str.trim
    running_hackathon.Str.fields_count running_hackathon.Str.has_letter
nameless = refl

record_answer_error_example :
    ((record_checklist_answer newcomer 1 "name" "answered" "123" (noon + minute) begun).1
      ≡ newcomer)
    × ((record_checklist_answer newcomer 1 "name" "answered" "123" (noon + minute) begun).2 ≡ begun)
record_answer_error_example =
    record_answer_error newcomer 1 "name" "answered" "123" (noon + minute) begun unusable_answer
      nameless

abbrev named : ChecklistItem
named = record first_item {
  status = "answered";
  answer = "Ada";
  answered_at = some (noon + minute);
}

name_recorded :
    (record_checklist_answer newcomer 1 "name" "answered" "Ada" (noon + minute) begun).0 ≡ ok named
unfolding ensure_session next_checklist_item Sql.insert Sql.first Sql.top Sql.select Sql.order_by
    record_checklist_answer running_hackathon.Str.trim_space checklist template_for carry_forward
    running_hackathon.Checklist.Template.display_name
    running_hackathon.Checklist.Sessions.last_settled
    running_hackathon.Checklist.Answers.persist_answer
    running_hackathon.Checklist.Template.question_by_key
    running_hackathon.Checklist.Replies.normalise_name running_hackathon.Str.trim
    running_hackathon.Str.fields_count running_hackathon.Str.has_letter
name_recorded = refl

abbrev answered_store : Store
answered_store =
    (record_checklist_answer newcomer 1 "name" "answered" "Ada" (noon + minute) begun).2

record_answer_in_order_example :
    Settles newcomer 1 "name" "answered" "Ada"
      (noon + minute)
      begun
      named
      (record_checklist_answer newcomer 1 "name" "answered" "Ada" (noon + minute) begun).1
      answered_store
    × All
        (λ (d : ChecklistItem). d.position < named.position → is_settled d ≡ true)
        (checklist 1 1 begun)
record_answer_in_order_example =
    record_answer_in_order newcomer 1 "name" "answered" "Ada" (noon + minute) begun named
      name_recorded

unsettled-record_lt_example : unsettled 1 1 answered_store < unsettled 1 1 begun
unsettled-record_lt_example =
    unsettled-record_lt newcomer 1 "name" "answered" "Ada" (noon + minute) begun named name_recorded

abbrev replies : List Reply
replies =
    record { key = "name"; status = "answered"; answer = "Ada"; at = noon }
    ∷ record { key = "name"; status = "skipped"; answer = ""; at = noon }
    ∷ []
