-- ===== src/Server/SignIn/Proof.antt =====
-- auth_http.go, handleAuthVerify: what it takes to be signed in.
use running_hackathon.Prelude.{
  ℕ, ◌+◌, String, Bool, true, false, not, ◌||◌, ◌≡◌, ◌≢◌, refl, ap, ◌∙◌, Option, none, some, arith,
  inl, inr, Bool-cases, str_eq, [], ◌∷◌, ◌++◌,
}
use running_hackathon.Sql
use running_hackathon.Clock.{Time}
use running_hackathon.Outcome.{Result, ok, err}
use running_hackathon.Json.{Response}
use running_hackathon.Phone.{normalise_phone, is_e164}
use running_hackathon.Str.{trim_space}
use running_hackathon.Db.{User, AuthSession, Store}
use running_hackathon.Auth.Codes.{consume_login_code}
use running_hackathon.Auth.Codes.Frame.{consume-frame}
use running_hackathon.Auth.Sessions.{
  auth_session_ttl, started, start_auth_session, record_auth_event,
}
use running_hackathon.Limiter.{allow}
use running_hackathon.Users.{user_by_phone, mark_phone_verified}
use running_hackathon.Server.State.{ServerState}
use running_hackathon.Server.SignIn.Verify.{
  checked, session_for, verify_for, verify_allowed, handle_auth_verify,
}

-- The number belongs to a profile, the code was the number's, the one new session is of that profile and
-- opened by the drawn token alone, and the answer sets the cookie to that token.
pub record IsProved (hash_secret : String → String) (phone code drawn : String) (now : Time)
    (s s' : Store) (r : Response) : Type 0 where
  pub person : User
  pub registered : user_by_phone phone s ≡ some person
  pub consumed : (consume_login_code hash_secret phone code now s).0 ≡ ok tt
  pub cookie :
      r.cookie
      ≡ some record { value = drawn; expires = now + auth_session_ttl; forget = str_eq drawn "" }
  pub session : AuthSession
  pub added : s'.auth_sessions.rows ≡ s.auth_sessions.rows ++ session ∷ []
  pub owner : session.user_id ≡ person.id
  pub token : session.token_hash ≡ hash_secret drawn
  pub until : session.expires_at ≡ now + auth_session_ttl
  pub unrevoked : session.revoked_at ≡ none

module _ (hash_secret : String → String) where
  not_ok : ◌≢◌ {A = ℕ} 400 200
  not_ok e = ground arith

  checked-ok :
      (r : Result (Unit {0}) × Store) (phone : String) (u : User) (drawn : String) (now : Time)
      (st : ServerState)
      → (checked hash_secret r phone u drawn now st).0.status ≡ 200
      → (r.0 ≡ ok tt)
        × ((checked hash_secret r phone u drawn now st).0.cookie
            ≡ some record {
              value = drawn;
              expires = now + auth_session_ttl;
              forget = str_eq drawn "";
            })
        × ((checked hash_secret r phone u drawn now st).1.store.auth_sessions.rows
            ≡ r.1.auth_sessions.rows
              ++ started hash_secret drawn u.id now r.1.auth_sessions.next_id ∷ [])
  unfolding checked session_for start_auth_session Sql.insert mark_phone_verified record_auth_event
  checked-ok (err e, s) phone u drawn now st h = absurd (ground arith)
  checked-ok (ok done, s) phone u drawn now st h = (refl, refl, refl)

  verify_for-IsProved :
      (o : Option User) (phone code drawn : String) (now : Time) (st : ServerState)
      → user_by_phone phone st.store ≡ o
      → (verify_for hash_secret o phone code drawn now st).0.status ≡ 200
      → IsProved hash_secret phone code drawn now st.store
          (verify_for hash_secret o phone code drawn now st).1.store
          (verify_for hash_secret o phone code drawn now st).0
  unfolding verify_for
  verify_for-IsProved none phone code drawn now st found h = absurd (ground arith)
  verify_for-IsProved (some u) phone code drawn now st found h =
      let (consumed, cookie, added) =
        checked-ok (consume_login_code hash_secret phone code now st.store) phone u drawn now st
          h in
      record {
        person = u;
        registered = found;
        consumed = consumed;
        cookie = cookie;
        session =
            started hash_secret drawn u.id now
              (consume_login_code hash_secret phone code now st.store).1.auth_sessions.next_id;
        added =
            added
            ∙ ap
                (λ (t : Store).
                  t.auth_sessions.rows
                  ++ started hash_secret drawn u.id now
                      (consume_login_code hash_secret phone code now
                        st.store).1.auth_sessions.next_id
                    ∷ [])
                (consume-frame hash_secret phone code now st.store);
        owner = refl;
        token = refl;
        until = refl;
        unrevoked = refl;
      }

  verify_allowed-IsProved :
      (allowed : Bool) (phone code drawn : String) (now : Time) (st : ServerState)
      → (verify_allowed hash_secret allowed phone code drawn now st).0.status ≡ 200
      → IsProved hash_secret phone code drawn now st.store
          (verify_allowed hash_secret allowed phone code drawn now st).1.store
          (verify_allowed hash_secret allowed phone code drawn now st).0
  unfolding verify_allowed
  verify_allowed-IsProved false phone code drawn now st h = absurd (ground arith)
  verify_allowed-IsProved true phone code drawn now st h =
      verify_for-IsProved (user_by_phone phone st.store) phone code drawn now st refl h

  -- Nobody is signed in but the owner of the number: where the answer is 200, the number is a profile's, the
  -- code was accepted for that number, the sessions are those of before and one more, which is of that
  -- profile, kept under the digest of the drawn token, not revoked and good for thirty days, and the cookie
  -- is that token, for thirty days.
  pub handle_auth_verify-IsProved :
      (post : Bool) (client field code drawn : String) (now : Time) (st : ServerState)
      → (handle_auth_verify hash_secret post client field code drawn now st).0.status ≡ 200
      → IsProved hash_secret
          (normalise_phone field)
          (trim_space code)
          drawn
          now
          st.store
          (handle_auth_verify hash_secret post client field code drawn now st).1.store
          (handle_auth_verify hash_secret post client field code drawn now st).0
  unfolding handle_auth_verify
  handle_auth_verify-IsProved false client field code drawn now st h = absurd (ground arith)
  handle_auth_verify-IsProved true client field code drawn now st h =
      elim (Bool-cases (not (is_e164 (normalise_phone field)) || str_eq (trim_space code) "")) [
        | inl malformed ↦ absurd (not_ok (rw malformed at h))
        | inr fine ↦ rw fine (
            verify_allowed-IsProved (allow client now st.limits.login_limiter).0
              (normalise_phone field) (trim_space code) drawn now
              (record st {
                limits = record st.limits {
                  login_limiter = (allow client now st.limits.login_limiter).1;
                };
              })
              (rw fine at h))
      ]

module _ (hash_secret : String → String) where
  checked-sessions :
      (r : Result (Unit {0}) × Store) (phone : String) (u : User) (drawn : String) (now : Time)
      (st : ServerState)
      → (checked hash_secret r phone u drawn now st).0.status ≢ 200
      → (checked hash_secret r phone u drawn now st).1.store.auth_sessions ≡ r.1.auth_sessions
  unfolding checked session_for start_auth_session record_auth_event
  checked-sessions (err e, s) phone u drawn now st h = refl
  checked-sessions (ok done, s) phone u drawn now st h = absurd (h refl)

  verify_for-sessions :
      (o : Option User) (phone code drawn : String) (now : Time) (st : ServerState)
      → (verify_for hash_secret o phone code drawn now st).0.status ≢ 200
      → (verify_for hash_secret o phone code drawn now st).1.store.auth_sessions
        ≡ st.store.auth_sessions
  unfolding verify_for record_auth_event
  verify_for-sessions none phone code drawn now st h = refl
  verify_for-sessions (some u) phone code drawn now st h =
      checked-sessions (consume_login_code hash_secret phone code now st.store) phone u drawn now st
        h
      ∙ ap (λ (t : Store). t.auth_sessions) (consume-frame hash_secret phone code now st.store)

  verify_allowed-sessions :
      (allowed : Bool) (phone code drawn : String) (now : Time) (st : ServerState)
      → (verify_allowed hash_secret allowed phone code drawn now st).0.status ≢ 200
      → (verify_allowed hash_secret allowed phone code drawn now st).1.store.auth_sessions
        ≡ st.store.auth_sessions
  unfolding verify_allowed
  verify_allowed-sessions false phone code drawn now st h = refl
  verify_allowed-sessions true phone code drawn now st h =
      verify_for-sessions (user_by_phone phone st.store) phone code drawn now st h

  -- An attempt that is not answered 200, for whatever reason, leaves the sessions as they were.
  pub handle_auth_verify-refused :
      (post : Bool) (client field code drawn : String) (now : Time) (st : ServerState)
      → (handle_auth_verify hash_secret post client field code drawn now st).0.status ≢ 200
      → (handle_auth_verify hash_secret post client field code drawn now st).1.store.auth_sessions
        ≡ st.store.auth_sessions
  unfolding handle_auth_verify
  handle_auth_verify-refused false client field code drawn now st h = refl
  handle_auth_verify-refused true client field code drawn now st h =
      elim (Bool-cases (not (is_e164 (normalise_phone field)) || str_eq (trim_space code) "")) [
        | inl malformed ↦ rw malformed refl
        | inr fine ↦ rw fine (
            verify_allowed-sessions (allow client now st.limits.login_limiter).0
              (normalise_phone field) (trim_space code) drawn now
              (record st {
                limits = record st.limits {
                  login_limiter = (allow client now st.limits.login_limiter).1;
                };
              })
              (rw fine at h))
      ]
