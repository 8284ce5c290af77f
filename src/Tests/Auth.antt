-- ===== src/Tests/Auth.antt =====
-- The theorems on login codes, sessions and the limiter, applied to concrete requests.
use running_hackathon.Prelude.{
  ℕ, ◌+◌, ◌≤◌, String, false, ◌≡◌, ◌≢◌, refl, some, List, [], ◌∷◌, arith, All, str_eq,
}
use running_hackathon.Clock.{Time, minute, second}
use running_hackathon.Outcome.{ok, err, code_invalid}
use running_hackathon.Str.{trim_space}
use running_hackathon.Sql
use running_hackathon.Db.{Store, fresh_store}
use running_hackathon.Auth.Codes.{
  is_outstanding, login_code_rate, issue_login_code, consume_login_code,
}
use running_hackathon.Auth.Codes.OneCode.{outstanding, consume-issue, consume_twice}
use running_hackathon.Auth.Codes.Guesses.{attempts, guess_budget}
use running_hackathon.Auth.Codes.History.{
  CodeOp, issue, consume, sweep, history, recent, history-recent-le,
}
use running_hackathon.Auth.Codes.Slots.{HasTtl}
use running_hackathon.Auth.Sessions.{
  phone_verified, auth_session_ttl, auth_session_user, start_auth_session, revoke_auth_session,
  revoke_all_auth_sessions, user_by_id, has_token,
}
use running_hackathon.Auth.Sessions.Access.{
  SignedIn, session-SignedIn, session-revoke, session-revoke_all, session-start,
}
use running_hackathon.Tests.{digest, noon, ada, ada_store, differ}

abbrev phone : String
phone = "+447700900123"

abbrev texted : Store
texted = (issue_login_code digest "123456" phone noon fresh_store).1

was_issued : (issue_login_code digest "123456" phone noon fresh_store).0 ≡ ok "123456"
unfolding issue_login_code Sql.count
was_issued = refl

consume-issue_example : (consume_login_code digest phone "123456" (noon + minute) texted).0 ≡ ok tt
consume-issue_example =
    consume-issue digest "123456" phone noon (noon + minute) fresh_store was_issued (omega arith)

one_outstanding : outstanding phone texted ≤ 1
unfolding issue_login_code Sql.count Sql.update Sql.update_rows Sql.insert is_outstanding
one_outstanding = omega arith

consume_twice_example :
    consume_login_code digest phone "123456"
      (noon + second)
      (consume_login_code digest phone "123456" (noon + minute) texted).1
    ≡ (err code_invalid, (consume_login_code digest phone "123456" (noon + minute) texted).1)
consume_twice_example =
    consume_twice digest phone "123456" "123456" (noon + minute) (noon + second) texted
      one_outstanding
      (consume-issue digest "123456" phone noon (noon + minute) fresh_store was_issued
        (omega arith))

abbrev guesses : List (String × Time)
guesses =
    ("000000", noon)
    ∷ ("000001", noon)
    ∷ ("000002", noon)
    ∷ ("000003", noon)
    ∷ ("000004", noon)
    ∷ []

guess_budget_example :
    (consume_login_code digest phone "123456"
      (noon + minute)
      (attempts digest phone guesses texted)).0
    ≢ ok tt
guess_budget_example =
    guess_budget digest phone "123456" noon fresh_store guesses "123456" (noon + minute) was_issued
      (
        differ "123456#" "000000#" refl,
        (
          differ "123456#" "000001#" refl,
          (
            differ "123456#" "000002#" refl,
            (differ "123456#" "000003#" refl, (differ "123456#" "000004#" refl, tt)),
          ),
        ),
      )
      (omega arith)

abbrev requests : List (ℕ × CodeOp)
requests =
    (minute, issue "111111" phone)
    ∷ (minute, issue "222222" phone)
    ∷ (minute, consume phone "333333")
    ∷ (minute, issue "444444" phone)
    ∷ (minute, sweep)
    ∷ (minute, issue "555555" phone)
    ∷ []

no_recent : recent phone noon fresh_store ≤ login_code_rate
unfolding Sql.count
no_recent = omega arith

history-recent-le_example :
    recent phone
      (history digest requests noon fresh_store).0
      (history digest requests noon fresh_store).1
    ≤ login_code_rate
history-recent-le_example = history-recent-le digest requests phone noon fresh_store no_recent

none_outstanding : outstanding phone fresh_store ≤ 1
unfolding Sql.count
none_outstanding = omega arith

texted-HasTtl : All HasTtl texted.login_codes.rows
unfolding issue_login_code Sql.count Sql.update Sql.update_rows Sql.insert
texted-HasTtl = (record { ttl = refl }, tt)

abbrev signed_in : Store
signed_in = (start_auth_session digest "token" 1 noon ada_store).1

found_ada : user_by_id 1 ada_store ≡ some ada
unfolding user_by_id Sql.first
found_ada = refl

no_token : Sql.count (has_token digest "token") ada_store.auth_sessions.rows ≡ 0
unfolding Sql.count
no_token = refl

not_blank : str_eq (trim_space "token") "" ≡ false
unfolding trim_space
not_blank = refl

session-SignedIn_example : SignedIn digest "token" (noon + minute) signed_in ada
session-SignedIn_example = session-SignedIn digest "token" (noon + minute) signed_in ada (
    session-start digest "token" 1 noon (noon + minute) ada_store ada not_blank no_token found_ada
      refl (omega arith))

still_signed_in :
    (auth_session_user digest "token"
      (noon + minute)
      (revoke_all_auth_sessions 2 (noon + second) signed_in).1).0
    ≡ ok ada
unfolding auth_session_user start_auth_session revoke_all_auth_sessions trim_space user_by_id
    Sql.first Sql.insert Sql.update Sql.update_rows Sql.count
    running_hackathon.Auth.Sessions.is_active
still_signed_in = refl

session-revoke_all_example : ada.id ≢ 2
session-revoke_all_example =
    session-revoke_all digest "token" 2 (noon + second) (noon + minute) signed_in ada
      still_signed_in

session-revoke_example :
    (auth_session_user digest "token"
      (noon + minute)
      (revoke_auth_session digest "token" (noon + second) signed_in)).0
    ≢ ok ada
session-revoke_example = session-revoke digest "token" (noon + second) (noon + minute) signed_in ada
