-- ===== src/Server/Checkins/Spared.antt =====
-- server.go, TriggerCheckin: what it does for one person spares every other.
use running_hackathon.Prelude.{
  ℕ, String, Bool, true, false, ◌≡◌, ◌≢◌, refl, ap, ◌∙◌, Option, none, some, inl, inr, arith,
  str_eq, eq_iff, Bool-cases,
}
use running_hackathon.Clock.{Time}
use running_hackathon.Outcome.{Result, ok, err}
use running_hackathon.Outside.{Outside}
use running_hackathon.Sql
use running_hackathon.Sql.Laws.{select-append_other, select-update_same}
use running_hackathon.Db.{User, Session, Store}
use running_hackathon.Checklist.Template.{onboarded, flow_for}
use running_hackathon.Checklist.Sessions.{ensure_session, last_settled, settled_status}
use running_hackathon.Checklist.Sessions.Frame.{ensure_session-users}
use running_hackathon.Checklist.Sessions.Others.{ensure_session-others}
use running_hackathon.Scheduler.{Calendar, due_now}
use running_hackathon.Users.{has_id, set_user, set_call_sid, mark_triggered}
use running_hackathon.Users.Calls.{is_free, start_call, end_call}
use running_hackathon.Activity.{add_message}
use running_hackathon.VoiceContext.{dynamic_variables}
use running_hackathon.Server.State.{ServerState, send_sms}
use running_hackathon.Server.Checkins.{
  items_of, caller_context, with_store, opted_out, answered, ring_up, claimed, place_call, texted,
  opening_message, checkin_on, trigger_checkin,
}

-- From `st` to `st'` the number was neither rung nor texted, and the rows of the profile and what the person
-- last settled on check-ins are as they were.
pub record IsSpared (id : ℕ) (phone : String) (st st' : ServerState) : Type 0 where
  pub rings :
      Sql.select (λ number. str_eq number phone) st'.rung
      ≡ Sql.select (λ number. str_eq number phone) st.rung
  pub texts :
      Sql.select (λ (text : String × String). str_eq text.0 phone) st'.sent
      ≡ Sql.select (λ (text : String × String). str_eq text.0 phone) st.sent
  pub profile :
      Sql.select (has_id id) st'.store.users.rows ≡ Sql.select (has_id id) st.store.users.rows
  pub settled :
      last_settled id "checkin_consent" st'.store ≡ last_settled id "checkin_consent" st.store

module _ (id : ℕ) (phone : String) where
  pub IsSpared-refl : (st : ServerState) → IsSpared id phone st st
  IsSpared-refl st = record { rings = refl; texts = refl; profile = refl; settled = refl }

  pub IsSpared-trans :
      (a b c : ServerState) → IsSpared id phone a b → IsSpared id phone b c → IsSpared id phone a c
  IsSpared-trans a b c h k = record {
    rings = k.rings ∙ h.rings;
    texts = k.texts ∙ h.texts;
    profile = k.profile ∙ h.profile;
    settled = k.settled ∙ h.settled;
  }

  pub opted_out-same :
      (s t : Store)
      → last_settled id "checkin_consent" t ≡ last_settled id "checkin_consent" s
      → opted_out id t ≡ opted_out id s
  unfolding settled_status
  opted_out-same s t h = rw (opted_out, settled_status, h) refl

-- Writes to the profile of somebody else.
set_user-other :
    (id other : ℕ) (f : User → User) (s : Store)
    → other ≢ id
    → ((v : User) → (f v).id ≡ v.id)
    → Sql.select (has_id id) (set_user other f s).users.rows ≡ Sql.select (has_id id) s.users.rows
unfolding Sql.update
set_user-other id other f s ne h =
    select-update_same (has_id id) (has_id other) f (λ r k. ground arith)
      (λ r k. rw (h r) (ground arith)) s.users.rows

start_call-other :
    (id other : ℕ) (now : Time) (s : Store)
    → other ≢ id
    → Sql.select (has_id id) (start_call other now s).1.users.rows
      ≡ Sql.select (has_id id) s.users.rows
unfolding start_call Sql.update
start_call-other id other now s ne =
    select-update_same (has_id id) (is_free other now)
      (λ v. record v { call_started_at = some now }) (λ r k. ground arith) (λ r k. ground arith)
      s.users.rows

not_it : (number phone : String) → number ≢ phone → str_eq number phone ≡ false
not_it number phone ne = elim (Bool-cases (str_eq number phone)) [
  | inl same ↦ absurd (ne ((eq_iff number phone).0 same))
  | inr other ↦ other
]

-- What is done for somebody else than `id`, on another number than `phone`.
module _ (outside : Outside) (id : ℕ) (phone : String) (u : User) (ne : u.id ≢ id)
    (elsewhere : u.phone ≢ phone) where
  answered-IsSpared :
      (o : Option String) (st : ServerState) → IsSpared id phone st (answered outside o u st).1
  unfolding answered set_call_sid end_call last_settled
  answered-IsSpared none st = record {
    rings = refl;
    texts = refl;
    profile =
        set_user-other id u.id (λ v. record v { call_started_at = none }) st.store ne (λ v. refl);
    settled = refl;
  }
  answered-IsSpared (some sid) st = record {
    rings =
        select-append_other (λ number. str_eq number phone) st.rung u.phone
          (not_it u.phone phone elsewhere);
    texts = refl;
    profile =
        set_user-other id u.id (λ v. record v { last_call_sid = sid }) st.store ne (λ v. refl);
    settled = refl;
  }

  items_of-store : (r : Result Session × Store) → (items_of r u).1 ≡ r.1
  unfolding items_of
  items_of-store (err e, s) = refl
  items_of-store (ok sess, s) = refl

  context-IsSpared :
      (now : Time) (st : ServerState)
      → IsSpared id phone st (with_store st (caller_context u now st.store).1)
  unfolding caller_context
  context-IsSpared now st =
      let opened =
        items_of-store (ensure_session (some u) "call" (flow_for (some u)) now st.store) in
      record {
        rings = refl;
        texts = refl;
        profile =
            ap (λ (s : Store). Sql.select (has_id id) s.users.rows) opened
            ∙ ap (λ (t : Sql.Table User). Sql.select (has_id id) t.rows)
                (ensure_session-users (some u) "call" (flow_for (some u)) now st.store);
        settled =
            ap (λ (s : Store). last_settled id "checkin_consent" s) opened
            ∙ ensure_session-others id "checkin_consent" u "call" (flow_for (some u)) now st.store
                ne;
      }

  claimed-IsSpared :
      (r : Bool × Store) (now : Time) (st : ServerState)
      → IsSpared id phone (with_store st r.1) (claimed outside r u now st).1
  unfolding claimed ring_up
  claimed-IsSpared (false, s) now st = IsSpared-refl id phone (with_store st s)
  claimed-IsSpared (true, s) now st =
      let (context, s') = caller_context u now s in
      IsSpared-trans id phone (with_store st s) (with_store st (caller_context u now s).1) _
        (context-IsSpared now (with_store st s))
        (answered-IsSpared
          (outside.ring u.phone u.name (onboarded u) (dynamic_variables (caller_context u now s).0))
          (with_store st (caller_context u now s).1))

  place_call-IsSpared :
      (now : Time) (st : ServerState) → IsSpared id phone st (place_call outside u now st).1
  unfolding place_call
  place_call-IsSpared now st =
      IsSpared-trans id phone st (with_store st (start_call u.id now st.store).1) _
        record {
          rings = refl;
          texts = refl;
          profile = start_call-other id u.id now st.store ne;
          settled = unfold start_call last_settled in refl;
        }
        (claimed-IsSpared (start_call u.id now st.store) now st)

  texted-IsSpared :
      (body : String) (st : ServerState)
      → IsSpared id phone st (texted outside (send_sms outside u.phone body st) u body).1
  unfolding texted send_sms add_message last_settled
  texted-IsSpared body st = elim (Bool-cases (outside.takes_sms u.phone body)) [
    | inl taken ↦ rw taken record {
      rings = refl;
      texts =
          select-append_other (λ (text : String × String). str_eq text.0 phone) st.sent
            (u.phone, body) (not_it u.phone phone elsewhere);
      profile = refl;
      settled = refl;
    }
    | inr refused ↦ rw refused (IsSpared-refl id phone st)
  ]

  checkin_on-IsSpared :
      (gcal channel : String) (now : Time) (st : ServerState)
      → onboarded u ≡ true
      → IsSpared id phone st (checkin_on outside gcal u channel now st).1
  unfolding checkin_on
  checkin_on-IsSpared gcal channel now st known = elim (Bool-cases (str_eq channel "call")) [
    | inl calls ↦ rw calls (place_call-IsSpared now st)
    | inr texts ↦ rw (texts, known) (texted-IsSpared (opening_message outside gcal u) st)
  ]

  pub due-onboarded :
      (calendar : Calendar) (now : Time) → due_now calendar u now ≡ true → onboarded u ≡ true
  unfolding due_now
  due-onboarded calendar now due = ground arith

  pub trigger-IsSpared :
      (gcal : String) (now : Time) (st : ServerState)
      → onboarded u ≡ true
      → IsSpared id phone st (trigger_checkin outside gcal u now st).1
  unfolding trigger_checkin mark_triggered
  trigger-IsSpared gcal now st known =
      let came = checkin_on outside gcal u u.channel now st in
      IsSpared-trans id phone st came.1 _ (checkin_on-IsSpared gcal u.channel now st known) record {
        rings = refl;
        texts = refl;
        profile =
            set_user-other id u.id (λ v. record v { last_triggered_at = some now }) came.1.store ne
              (λ v. refl);
        settled = unfold last_settled in refl;
      }
