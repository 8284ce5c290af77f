-- ===== src/Server/SignIn/Oracle.antt =====
-- auth_http.go, handleAuthRequest: what it tells of who is registered.
use running_hackathon.Prelude.{
  String, Bool, true, false, not, ◌≡◌, refl, sym, ap, ◌∙◌, Option, none, some, arith, leb, inl, inr,
  Bool-cases,
}
use running_hackathon.Clock.{Time}
use running_hackathon.Outcome.{Result, ok, err, is_ok}
use running_hackathon.Sql
use running_hackathon.Json.{Response}
use running_hackathon.Outside.{Outside}
use running_hackathon.Phone.{normalise_phone, is_e164}
use running_hackathon.Db.{User, Store}
use running_hackathon.Auth.Codes.{login_code_rate, is_recent, issue_login_code}
use running_hackathon.Limiter.{Limits, Throttle, pass, blocked, too_soon, too_many, throttle_code}
use running_hackathon.Limiter.Verdict.{throttle-verdict, throttle-store}
use running_hackathon.Server.State.{ServerState}
use running_hackathon.Server.SignIn.{
  generic_answer, throttle, told, deliver_code, issue_and_deliver, code_for, request_passed,
  handle_auth_request,
}

-- Whether fewer codes than the rate were issued for the number lately.
abbrev pub under_rate : String → Time → Store → Bool
under_rate phone now s =
    not (leb login_code_rate (Sql.count (is_recent phone now) s.login_codes.rows))

true_is_not_false : ◌≡◌ {A = Bool} true false → ⊥
true_is_not_false e = cc

under_rate-issue :
    (hash_secret : String → String) (code phone : String) (now : Time) (s : Store)
    → under_rate phone now s ≡ true
    → is_ok (issue_login_code hash_secret code phone now s).0 ≡ true
unfolding issue_login_code
under_rate-issue hash_secret code phone now s h = ground arith

module _ (hash_secret : String → String) (outside : Outside) where
  delivered-generic :
      (code phone : String) (u : User) (detail : String) (now : Time) (st : ServerState)
      → (deliver_code hash_secret outside code phone u detail generic_answer generic_answer now
          st).0
        ≡ generic_answer
  unfolding deliver_code
  delivered-generic code phone u detail now st = ground arith

  issued-generic :
      (r : Result String × Store) (phone : String) (u : User) (failed : Response) (now : Time)
      (st : ServerState)
      → is_ok r.0 ≡ true
      → (issue_and_deliver hash_secret outside r phone u "" generic_answer generic_answer failed now
          st).0
        ≡ generic_answer
  unfolding issue_and_deliver
  issued-generic (ok code, s) phone u failed now st h = delivered-generic code phone u "" now _
  issued-generic (err e, s) phone u failed now st h = absurd (true_is_not_false (sym h))

  code_for-generic :
      (o : Option User) (drawn phone : String) (now : Time) (st : ServerState)
      → under_rate phone now st.store ≡ true
      → (code_for hash_secret outside o drawn phone now st).0 ≡ generic_answer
  unfolding code_for
  code_for-generic none drawn phone now st h = refl
  code_for-generic (some u) drawn phone now st h =
      issued-generic (issue_login_code hash_secret drawn phone now st.store) phone u _ now st
        (under_rate-issue hash_secret drawn phone now st.store h)

  passed-generic :
      (v : Throttle) (st : ServerState) (drawn phone : String) (now : Time)
      → (v ≡ pass → under_rate phone now st.store ≡ true)
      → (request_passed hash_secret outside (told v, st) drawn phone now).0
        ≡ elim (told v) [ none ↦ generic_answer | some r ↦ r ]
  unfolding told request_passed
  passed-generic pass st drawn phone now h = code_for-generic _ drawn phone now st (h refl)
  passed-generic blocked st drawn phone now h = refl
  passed-generic (too_soon wait) st drawn phone now h = refl
  passed-generic (too_many wait) st drawn phone now h = refl

  -- What a request for a code is answered is told by the limiters alone.
  answer_by :
      (client field drawn : String) (now : Time) (st : ServerState)
      → under_rate field now st.store ≡ true
      → (request_passed hash_secret outside (throttle client field now st) drawn field now).0
        ≡ elim (told (throttle_code client field now st.limits st.store).0) [
          | none ↦ generic_answer
          | some r ↦ r
        ]
  unfolding throttle
  answer_by client field drawn now st h =
      passed-generic (throttle_code client field now st.limits st.store).0 _ drawn field now
        (λ e. rw (throttle-store field now client st.limits st.store e) h)

  -- A request for a code is answered the same from any two states whose limiters are the same and in which
  -- the number is under the rate of codes: whether the number is registered, whether the code was delivered
  -- and which code was drawn do not show.
  pub handle_auth_request-oracle :
      (post : Bool) (client field drawn redrawn : String) (now : Time) (st other : ServerState)
      → st.limits ≡ other.limits
      → under_rate (normalise_phone field) now st.store ≡ true
      → under_rate (normalise_phone field) now other.store ≡ true
      → (handle_auth_request hash_secret outside post client field drawn now st).0
        ≡ (handle_auth_request hash_secret outside post client field redrawn now other).0
  unfolding handle_auth_request
  handle_auth_request-oracle false client field drawn redrawn now st other same h k = refl
  handle_auth_request-oracle true client field drawn redrawn now st other same h k =
      let phone = normalise_phone field in
      elim (Bool-cases (is_e164 phone)) [
        | inr invalid ↦ rw invalid refl
        | inl valid ↦ rw valid (
            answer_by client phone drawn now st h
            ∙ ap (λ (v : Throttle). elim (told v) [ none ↦ generic_answer | some r ↦ r ])
                (ap (λ (l : Limits). (throttle_code client phone now l st.store).0) same
                  ∙ throttle-verdict phone now client other.limits st.store other.store)
            ∙ sym (answer_by client phone redrawn now other k))
      ]
