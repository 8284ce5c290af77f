-- ===== src/Checklist/Sessions/Frame.antt =====
-- checklist.go, EnsureSession: what it leaves alone.
use running_hackathon.Prelude.{
  String, not, ◌≡◌, refl, Option, none, some, arith, inl, inr, Bool-cases, ◌==◌,
}
use running_hackathon.Clock.{Time}
use running_hackathon.Sql
use running_hackathon.Db.{User, Session, Store}
use running_hackathon.Guarded.{guarded}
use running_hackathon.Checklist.Sessions.{
  create_session, resume_or_create, ensure_for, ensure_session, is_channel, is_flow, newer_session,
  is_open_session,
}

resume-users :
    (o : Option Session) (u : User) (channel flow : String) (now : Time) (s : Store)
    → (resume_or_create o u channel flow now s).1.users ≡ s.users
unfolding resume_or_create create_session
resume-users none u channel flow now s = refl
resume-users (some sess) u channel flow now s = refl

ensure_for-users :
    (u : User) (channel flow : String) (now : Time) (s : Store)
    → (ensure_for u channel flow now s).1.users ≡ s.users
unfolding ensure_for
ensure_for-users u channel flow now s = ground (
  arith,
  resume-users (Sql.top newer_session (is_open_session u.id channel flow) s.sessions.rows) u channel
      flow now s,
)

-- Opening a session changes no profile.
pub ensure_session-users :
    (o : Option User) (channel flow : String) (now : Time) (s : Store)
    → (ensure_session o channel flow now s).1.users ≡ s.users
unfolding ensure_session
ensure_session-users none channel flow now s = refl
ensure_session-users (some u) channel flow now s = ensure_for-users u channel flow now s

resume-guarded :
    (o : Option Session) (u : User) (channel flow : String) (now : Time) (s : Store)
    → guarded (resume_or_create o u channel flow now s).1 ≡ guarded s
unfolding resume_or_create create_session
resume-guarded none u channel flow now s = refl
resume-guarded (some sess) u channel flow now s = refl

ensure_for-guarded :
    (u : User) (channel flow : String) (now : Time) (s : Store)
    → guarded (ensure_for u channel flow now s).1 ≡ guarded s
unfolding ensure_for
ensure_for-guarded u channel flow now s = elim (Bool-cases (u.id == 0)) [
  | inl nobody ↦ rw nobody refl
  | inr somebody ↦ elim (Bool-cases (not (is_channel channel))) [
    | inl strange ↦ rw (somebody, strange) refl
    | inr usual ↦ elim (Bool-cases (not (is_flow flow))) [
      | inl strange ↦ rw (somebody, usual, strange) refl
      | inr known ↦
          rw (somebody, usual, known)
            (resume-guarded
              (Sql.top newer_session (is_open_session u.id channel flow) s.sessions.rows) u channel
              flow now s)
    ]
  ]
]

pub ensure_session-guarded :
    (o : Option User) (channel flow : String) (now : Time) (s : Store)
    → guarded (ensure_session o channel flow now s).1 ≡ guarded s
unfolding ensure_session
ensure_session-guarded none channel flow now s = refl
ensure_session-guarded (some u) channel flow now s = ensure_for-guarded u channel flow now s
