-- ===== src/Server/Webhooks/Once.antt =====
-- ingest.go, handleIngest: an observation that is delivered twice.
use running_hackathon.Prelude.{ℕ, true, false, ◌≡◌, ◌≢◌, refl, ap, ◌∙◌, some, arith, str_eq}
use running_hackathon.Clock.{Time}
use running_hackathon.Outcome.{Result, ok, err, is_ok}
use running_hackathon.Sql
use running_hackathon.Json.{Response}
use running_hackathon.Outside.{Outside}
use running_hackathon.Phone.{normalise_phone}
use running_hackathon.Db.{User, Signal, Store}
use running_hackathon.Users.{user_by_phone}
use running_hackathon.Signals.Observations.{ingest_signal}
use running_hackathon.Signals.Webhooks.{delivered, remember_webhook, remember-store, remember_again}
use running_hackathon.Server.Webhooks.{
  IngestRequest, observation, ingested, ingest_once, ingest_at, ingest_of, handle_ingest,
  replayed_answer,
}

ingest_signal-users :
    (id : ℕ) (sig : Signal) (now : Time) (s : Store)
    → (ingest_signal id sig now s).1.users ≡ s.users
unfolding ingest_signal
ingest_signal-users id sig now s = ground arith

ingest_signal-deliveries :
    (id : ℕ) (sig : Signal) (now : Time) (s : Store)
    → (ingest_signal id sig now s).1.webhook_events ≡ s.webhook_events
unfolding ingest_signal
ingest_signal-deliveries id sig now s = ground arith

ingest_signal-refused :
    (id : ℕ) (sig : Signal) (now : Time) (s : Store)
    → is_ok (ingest_signal id sig now s).0 ≡ false
    → (ingest_signal id sig now s).1.signals ≡ s.signals
unfolding ingest_signal
ingest_signal-refused id sig now s h = ground arith

ingested-store : (outside : Outside) (r : Result Signal × Store) → (ingested outside r).1 ≡ r.1
unfolding ingested
ingested-store outside (err e, s) = refl
ingested-store outside (ok sig, s) = refl

ingested-refused :
    (outside : Outside) (r : Result Signal × Store)
    → (ingested outside r).0.status ≢ 200
    → is_ok r.0 ≡ false
unfolding ingested
ingested-refused outside (err e, s) h = refl
ingested-refused outside (ok sig, s) h = absurd (h refl)

-- What the person is known by, when and under which key the observation was made.
pub record IsKeyed (req : IngestRequest) (u : User) (observed : Time) (s : Store) : Type 0 where
  pub person : user_by_phone (normalise_phone req.phone) s ≡ some u
  pub time : req.observed_at ≡ some observed
  pub key : str_eq req.idempotency_key "" ≡ false

module _ (outside : Outside) (req : IngestRequest) (u : User) (observed : Time) where
  keyed :
      (now : Time) (s : Store)
      → IsKeyed req u observed s
      → handle_ingest outside (some req) now s
        ≡ ingest_once outside
            (remember_webhook "/ingest" req.idempotency_key u.id "" s)
            u
            req
            observed
            now
  unfolding handle_ingest ingest_of ingest_at
  keyed now s k = rw k.person (rw k.time (rw k.key refl))

  -- The store in which the first delivery is answered.
  noted : Store → Store
  noted s = record s {
    webhook_events = Sql.insert (delivered "/ingest" req.idempotency_key u.id "") s.webhook_events;
  }

  first_ingest :
      (now : Time) (s : Store)
      → IsKeyed req u observed s
      → (remember_webhook "/ingest" req.idempotency_key u.id "" s).0.0 ≡ true
      → handle_ingest outside (some req) now s
        ≡ ingested outside (ingest_signal u.id (observation req observed) now (noted s))
  unfolding noted ingest_once
  first_ingest now s k h =
      keyed now s k ∙ rw (remember-store "/ingest" req.idempotency_key u.id "" s h) refl

  first-store :
      (now : Time) (s : Store)
      → IsKeyed req u observed s
      → (remember_webhook "/ingest" req.idempotency_key u.id "" s).0.0 ≡ true
      → (handle_ingest outside (some req) now s).1
        ≡ (ingest_signal u.id (observation req observed) now (noted s)).1
  first-store now s k h = rw (first_ingest now s k h) (ingested-store outside _)

  -- An observation that names its person, its time and a new key, and is delivered a second time, is answered
  -- as a repeat, and the second delivery changes nothing, whatever the first was answered.
  pub handle_ingest-again :
      (now later : Time) (s : Store)
      → IsKeyed req u observed s
      → (remember_webhook "/ingest" req.idempotency_key u.id "" s).0.0 ≡ true
      → handle_ingest outside (some req) later (handle_ingest outside (some req) now s).1
        ≡ (replayed_answer, (handle_ingest outside (some req) now s).1)
  unfolding noted ingest_once user_by_phone
  handle_ingest-again now later s k h =
      let after = (handle_ingest outside (some req) now s).1 in
      let sig = observation req observed in
      let users =
        ap (λ (t : Store). t.users) (first-store now s k h)
        ∙ ingest_signal-users u.id sig now (noted s) in
      let deliveries =
        ap (λ (t : Store). t.webhook_events) (first-store now s k h)
        ∙ ingest_signal-deliveries u.id sig now (noted s) in
      keyed later after record {
        person =
            ap
              (λ (t : Sql.Table User).
                Sql.first (λ (v : User). str_eq v.phone (normalise_phone req.phone)) t.rows)
              users
            ∙ k.person;
        time = k.time;
        key = k.key;
      }
      ∙ rw (remember_again "/ingest" req.idempotency_key u.id u.id "" "" s after h deliveries) refl

  -- An observation that is turned away, delivered again under its key, is confirmed, and yet the store holds
  -- the observations that it held before: the key is used up by the delivery that was turned away.
  pub handle_ingest-lost :
      (now later : Time) (s : Store)
      → IsKeyed req u observed s
      → (remember_webhook "/ingest" req.idempotency_key u.id "" s).0.0 ≡ true
      → (handle_ingest outside (some req) now s).0.status ≢ 200
      → let retried =
          handle_ingest outside (some req) later (handle_ingest outside (some req) now s).1 in
        (retried.0 ≡ replayed_answer) × (retried.1.signals ≡ s.signals)
  unfolding noted
  handle_ingest-lost now later s k h refused =
      let again = handle_ingest-again now later s k h in
      let failed =
        ingested-refused outside _
          (λ e. refused (ap (λ (r : Response × Store). r.0.status) (first_ingest now s k h) ∙ e)) in
      (
        ap (λ (r : Response × Store). r.0) again,
        ap (λ (r : Response × Store). r.1.signals) again
            ∙ ap (λ (t : Store). t.signals) (first-store now s k h)
            ∙ ingest_signal-refused u.id (observation req observed) now (noted s) failed,
      )
