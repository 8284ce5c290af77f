-- ===== src/Auth/Sessions/Access.antt =====
-- Who a session token resolves to.
use running_hackathon.Prelude.{
  ℕ, ◌+◌, ◌<◌, String, true, false, ◌≡◌, ◌≢◌, refl, sym, ◌∙◌, ◌&&◌, Option, none, some, arith, ◌==◌,
  ==_iff, str_eq, eq_refl, Bool-cases, inl, inr, is_some, not, All,
}
use running_hackathon.Clock.{Time}
use running_hackathon.Outcome.{ok}
use running_hackathon.Sql
use running_hackathon.Sql.Laws.{first-All, first-passes, first-last, All-update_each}
use running_hackathon.Db.{User, AuthSession, Store}
use running_hackathon.Str.{trim_space}
use running_hackathon.Auth.Sessions.{
  is_active, phone_verified, has_token, started, start_auth_session, user_by_id, resolve,
  auth_session_user, revoke_auth_session, revoke_all_auth_sessions, is_live_session_of,
  auth_session_ttl,
}

-- Only a row that a token resolves to, that is not revoked and not expired, and that belongs to a profile
-- whose number is verified, signs anybody in.
resolve_sound :
    (o : Option AuthSession) (now : Time) (s : Store) (u : User)
    → (resolve o now s).0 ≡ ok u
    → (a : AuthSession) × (o ≡ some a)
      × (a.revoked_at ≡ none)
      × (now < a.expires_at)
      × (user_by_id a.user_id s ≡ some u)
      × (phone_verified u ≡ true)
unfolding resolve is_active user_by_id
resolve_sound none now s u h = absurd (cc)
resolve_sound (some a) now s u h = (a, refl, ground arith, ground arith, ground arith, ground arith)

pub resolve_row :
    (a : AuthSession) (now : Time) (s : Store) (u : User)
    → a.revoked_at ≡ none
    → now < a.expires_at
    → user_by_id a.user_id s ≡ some u
    → phone_verified u ≡ true
    → (resolve (some a) now s).0 ≡ ok u
unfolding resolve is_active user_by_id
resolve_row a now s u live early owner verified = ground arith

not_both : (o : Option Time) → o ≡ none → is_some o ≡ true → ⊥
not_both o e h = ground arith

user_by_id-id : (id : ℕ) (s : Store) (u : User) → user_by_id id s ≡ some u → u.id ≡ id
unfolding user_by_id
user_by_id-id id s u h =
    (==_iff u.id id).0 (first-passes (λ (u : User). u.id == id) s.users.rows u h)

-- What a successful sign-in by a token rests on: a row with the token's digest, not revoked, not expired,
-- whose owner is the profile returned, with a verified number.
pub record SignedIn (hash_secret : String → String) (token : String) (now : Time) (s : Store)
    (u : User) : Type 0 where
  pub row : AuthSession
  pub found : Sql.first (has_token hash_secret token) s.auth_sessions.rows ≡ some row
  pub not_revoked : row.revoked_at ≡ none
  pub not_expired : now < row.expires_at
  pub owner : user_by_id row.user_id s ≡ some u
  pub verified : phone_verified u ≡ true

module _ (hash_secret : String → String) where
  -- A token that signs somebody in has a row that is not revoked and not expired, and the profile of that
  -- row is the one signed in, with a verified number.
  pub session-SignedIn :
      (token : String) (now : Time) (s : Store) (u : User)
      → (auth_session_user hash_secret token now s).0 ≡ ok u
      → SignedIn hash_secret token now s u
  unfolding auth_session_user
  session-SignedIn token now s u h = elim (Bool-cases (str_eq (trim_space token) "")) [
    | inl blank ↦ absurd (refused blank)
    | inr given ↦
        let (a, found, live, early, owner, verified) =
          resolve_sound (Sql.first (has_token hash_secret token) s.auth_sessions.rows) now s u
            (rw given at h) in
        record {
          row = a;
          found = found;
          not_revoked = live;
          not_expired = early;
          owner = owner;
          verified = verified;
        }
  ]
    where
      refused : str_eq (trim_space token) "" ≡ true → ⊥
      refused blank = ground arith

  All-revoked :
      (token : String) (at : Time) (s : Store)
      → All
          (λ a. has_token hash_secret token a ≡ true → is_some a.revoked_at ≡ true)
          (revoke_auth_session hash_secret token at s).auth_sessions.rows
  unfolding revoke_auth_session Sql.update
  All-revoked token at s =
      All-update_each (λ a. has_token hash_secret token a ≡ true → is_some a.revoked_at ≡ true)
        (λ a. has_token hash_secret token a && not (is_some a.revoked_at))
        (λ a. record a { revoked_at = some at }) (λ r e t. refl) (λ r e t. ground arith)
        s.auth_sessions.rows

  -- Revoking a token ends it: at any later time it signs nobody in.
  pub session-revoke :
      (token : String) (at now : Time) (s : Store) (u : User)
      → (auth_session_user hash_secret token now (revoke_auth_session hash_secret token at s)).0
        ≢ ok u
  session-revoke token at now s u h =
      let signed = session-SignedIn token now (revoke_auth_session hash_secret token at s) u h in
      let revoked =
        first-All (λ a. has_token hash_secret token a ≡ true → is_some a.revoked_at ≡ true)
          (has_token hash_secret token)
          (revoke_auth_session hash_secret token at s).auth_sessions.rows signed.row
          (All-revoked token at s) signed.found
          (first-passes (has_token hash_secret token)
            (revoke_auth_session hash_secret token at s).auth_sessions.rows signed.row
            signed.found) in
      not_both signed.row.revoked_at signed.not_revoked revoked

  none_live :
      (user_id : ℕ) (at : Time) (s : Store)
      → All
          (λ a. a.user_id ≡ user_id → is_some a.revoked_at ≡ true)
          (revoke_all_auth_sessions user_id at s).1.auth_sessions.rows
  unfolding revoke_all_auth_sessions Sql.update
  none_live user_id at s =
      All-update_each (λ a. a.user_id ≡ user_id → is_some a.revoked_at ≡ true)
        (is_live_session_of user_id) (λ a. record a { revoked_at = some at }) (λ r e t. refl)
        (λ r e t. ground arith) s.auth_sessions.rows

  -- After every session of a profile is revoked, no token at all signs anybody in as that profile.
  pub session-revoke_all :
      (token : String) (user_id : ℕ) (at now : Time) (s : Store) (u : User)
      → (auth_session_user hash_secret token now (revoke_all_auth_sessions user_id at s).1).0 ≡ ok u
      → u.id ≢ user_id
  session-revoke_all token user_id at now s u h same =
      let after = (revoke_all_auth_sessions user_id at s).1 in
      let signed = session-SignedIn token now after u h in
      let owner = user_by_id-id signed.row.user_id after u signed.owner in
      let revoked =
        first-All (λ a. a.user_id ≡ user_id → is_some a.revoked_at ≡ true)
          (has_token hash_secret token) after.auth_sessions.rows signed.row (none_live user_id at s)
          signed.found (sym owner ∙ same) in
      not_both signed.row.revoked_at signed.not_revoked revoked

  -- A fresh token signs its owner in for thirty days: where the token is not blank, no session has its
  -- digest yet, and the profile exists with a verified number.
  pub session-start :
      (token : String) (user_id : ℕ) (at now : Time) (s : Store) (u : User)
      → (str_eq (trim_space token) "") ≡ false
      → Sql.count (has_token hash_secret token) s.auth_sessions.rows ≡ 0
      → user_by_id user_id s ≡ some u
      → phone_verified u ≡ true
      → now < at + auth_session_ttl
      → (auth_session_user hash_secret token now
          (start_auth_session hash_secret token user_id at s).1).0
        ≡ ok u
  unfolding auth_session_user start_auth_session Sql.insert user_by_id
  session-start token user_id at now s u given fresh owner verified early =
      let row = started hash_secret token user_id at s.auth_sessions.next_id in
      rw
        (
          given,
          first-last (has_token hash_secret token) s.auth_sessions.rows row fresh
              (eq_refl (hash_secret token)),
        )
        (resolve_row row now (start_auth_session hash_secret token user_id at s).1 u refl early
          owner verified)
