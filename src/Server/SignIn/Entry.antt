-- ===== src/Server/SignIn/Entry.antt =====
-- auth_http.go: the code that was issued signs its owner in.
use running_hackathon.Prelude.{
  ◌+◌, ◌≤◌, ◌<◌, String, true, false, ◌≡◌, refl, ap, ◌∙◌, some, arith, ◌==◌, str_eq, eq_refl,
  coalesce,
}
use running_hackathon.Clock.{Time}
use running_hackathon.Outcome.{Result, ok, err}
use running_hackathon.Sql
use running_hackathon.Sql.Laws.{first-last, first-update}
use running_hackathon.Json.{Response}
use running_hackathon.Phone.{normalise_phone, is_e164}
use running_hackathon.Str.{trim_space}
use running_hackathon.Db.{User, Store}
use running_hackathon.Auth.Codes.{login_code_ttl, issue_login_code, consume_login_code}
use running_hackathon.Auth.Codes.OneCode.{consume-issue}
use running_hackathon.Auth.Codes.Frame.{consume-frame, issue-frame}
use running_hackathon.Auth.Sessions.{
  auth_session_ttl, started, has_token, phone_verified, user_by_id, start_auth_session,
  record_auth_event, auth_session_user,
}
use running_hackathon.Auth.Sessions.Access.{resolve_row}
use running_hackathon.Limiter.{allow}
use running_hackathon.Users.{has_id, user_by_phone, mark_phone_verified}
use running_hackathon.Server.State.{ServerState, current_user, signed_in}
use running_hackathon.Server.SignIn.Verify.{
  signed_in_answer, checked, session_for, verify_for, verify_allowed, handle_auth_verify,
}

-- The profile once its number is proved.
abbrev pub proved_by_code : Time → User → User
proved_by_code now u = record u {
  phone_verified_at = coalesce u.phone_verified_at (some now);
  phone_verified_via = "otp";
}

is_proved : (now : Time) (u : User) → phone_verified (proved_by_code now u) ≡ true
is_proved now u = ground arith

module _ (hash_secret : String → String) (drawn phone : String) (u : User) (now : Time) where
  -- What a proved code leaves of a store.
  entered : Store → Store
  entered s =
      record_auth_event phone u.id "login_ok" "" now
        (mark_phone_verified u.id "otp" now (start_auth_session hash_secret drawn u.id now s).1)

  entered-signs_in :
      (later : Time) (s : Store)
      → str_eq (trim_space drawn) "" ≡ false
      → Sql.count (has_token hash_secret drawn) s.auth_sessions.rows ≡ 0
      → user_by_id u.id s ≡ some u
      → later < now + auth_session_ttl
      → (auth_session_user hash_secret drawn later (entered s)).0 ≡ ok (proved_by_code now u)
  unfolding entered auth_session_user record_auth_event mark_phone_verified start_auth_session
      Sql.insert Sql.update user_by_id
  entered-signs_in later s given fresh owner early =
      let row = started hash_secret drawn u.id now s.auth_sessions.next_id in
      rw
        (
          given,
          first-last (has_token hash_secret drawn) s.auth_sessions.rows row fresh
              (eq_refl (hash_secret drawn)),
        )
        (resolve_row row later (entered s) (proved_by_code now u) refl early
          (first-update (has_id u.id)
            (λ v. record v {
              phone_verified_at = coalesce v.phone_verified_at (some now);
              phone_verified_via = "otp";
            })
            (λ r k. k) s.users.rows u owner)
          (is_proved now u))

  checked-entered :
      (r : Result (Unit {0}) × Store) (st : ServerState)
      → r.0 ≡ ok tt
      → checked hash_secret r phone u drawn now st
        ≡ (signed_in_answer hash_secret drawn u now, record st { store = entered r.1 })
  unfolding checked session_for entered start_auth_session
  checked-entered (err e, s) st h = absurd (cc)
  checked-entered (ok done, s) st h = refl

-- A code and its number as they are typed in and as they are kept.
pub record IsTyped (field code phone typed : String) : Type 0 where
  pub number : normalise_phone field ≡ phone
  pub well_formed : is_e164 phone ≡ true
  pub read_code : trim_space typed ≡ code
  pub given : str_eq code "" ≡ false

-- The token that is drawn is not blank, and no session has it.
pub record IsFresh (hash_secret : String → String) (drawn : String) (s : Store) : Type 0 where
  pub not_blank : str_eq (trim_space drawn) "" ≡ false
  pub unused : Sql.count (has_token hash_secret drawn) s.auth_sessions.rows ≡ 0

module _ (hash_secret : String → String) (client field typed code phone drawn : String)
    (u : User) where
  verified-entered :
      (now : Time) (st : ServerState)
      → IsTyped field code phone typed
      → user_by_phone phone st.store ≡ some u
      → (allow client now st.limits.login_limiter).0 ≡ true
      → (consume_login_code hash_secret phone code now st.store).0 ≡ ok tt
      → handle_auth_verify hash_secret true client field typed drawn now st ≡ (
        signed_in_answer hash_secret drawn u now,
        record st {
          limits = record st.limits {
            login_limiter = (allow client now st.limits.login_limiter).1;
          };
          store =
              entered hash_secret drawn phone u now
                (consume_login_code hash_secret phone code now st.store).1;
        },
      )
  unfolding handle_auth_verify verify_allowed verify_for
  verified-entered now st t registered allowed right =
      rw (t.number, t.well_formed, t.read_code, t.given, allowed, registered)
        (checked-entered hash_secret drawn phone u now
          (consume_login_code hash_secret phone code now st.store) _ right)

  -- A code that was issued to a registered number and is typed in before it expires is answered with the
  -- session's cookie, and for thirty days that cookie is the profile, its number verified: where the client
  -- is under its limit, the profile's id is its own, and the token that is drawn is new and not blank.
  pub handle_auth_verify-issued :
      (at now later : Time) (st : ServerState)
      → (issue_login_code hash_secret code phone at st.store).0 ≡ ok code
      → now ≤ at + login_code_ttl
      → IsTyped field code phone typed
      → IsFresh hash_secret drawn st.store
      → user_by_phone phone st.store ≡ some u
      → user_by_id u.id st.store ≡ some u
      → (allow client now st.limits.login_limiter).0 ≡ true
      → later < now + auth_session_ttl
      → let issued = record st {
        store = (issue_login_code hash_secret code phone at st.store).1;
      } in
        let answer = handle_auth_verify hash_secret true client field typed drawn now issued in
        (answer.0 ≡ signed_in_answer hash_secret drawn u now)
        × ((current_user hash_secret (some drawn) later answer.1).0 ≡ some (proved_by_code now u))
  unfolding current_user signed_in user_by_phone user_by_id
  handle_auth_verify-issued at now later st sent soon t fresh registered owner allowed early =
      let issued = record st { store = (issue_login_code hash_secret code phone at st.store).1 } in
      let framed = issue-frame hash_secret code phone at st.store in
      let users = ap (λ (s : Store). s.users) framed in
      let spent = (consume_login_code hash_secret phone code now issued.store).1 in
      let spending = consume-frame hash_secret phone code now issued.store in
      let entry =
        verified-entered now issued t
          (ap (λ (v : Sql.Table User). Sql.first (λ (w : User). str_eq w.phone phone) v.rows) users
            ∙ registered)
          allowed (consume-issue hash_secret code phone at now st.store sent soon) in
      let signed =
        entered-signs_in hash_secret drawn phone u now later spent fresh.not_blank
          (ap (λ (s : Store). Sql.count (has_token hash_secret drawn) s.auth_sessions.rows) spending
            ∙ ap (λ (s : Store). Sql.count (has_token hash_secret drawn) s.auth_sessions.rows)
                framed
            ∙ fresh.unused)
          (ap (λ (s : Store). Sql.first (λ (w : User). w.id == u.id) s.users.rows) spending
            ∙ ap (λ (s : Store). Sql.first (λ (w : User). w.id == u.id) s.users.rows) framed
            ∙ owner)
          early in
      (
        ap (λ (r : Response × ServerState). r.0) entry,
        ap
              (λ (r : Response × ServerState).
                signed_in (auth_session_user hash_secret drawn later r.1.store).0)
              entry
            ∙ ap signed_in signed,
      )
