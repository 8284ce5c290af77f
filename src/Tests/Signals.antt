-- ===== src/Tests/Signals.antt =====
-- The theorems on consents, observations and deliveries, applied to a person who shares a heart rate.
use running_hackathon.Prelude.{
  ◌+◌, ◌*◌, ◌≤◌, String, true, false, ◌≡◌, refl, [], ◌∷◌, arith, All, ◌<◌,
}
use running_hackathon.Clock.{Time, minute, second}
use running_hackathon.Outcome.{ok, err, no_consent}
use running_hackathon.Sql
use running_hackathon.Db.{Signal, Store}
use running_hackathon.Signals.Consents.{signal_ttl, valid_signal_kind, set_consent, has_consent}
use running_hackathon.Signals.Consents.Decisions.{decisions}
use running_hackathon.Signals.Consents.Scope.{GrantedBy, has_consent-set_consent}
use running_hackathon.Signals.Observations.{
  ingest_signal, unknown_reading, is_signal_of, latest_signal, signal_retention,
  purge_expired_signals,
}
use running_hackathon.Signals.Observations.Ingest.{revoke-ingest, IsAttributed, latest-ingest}
use running_hackathon.Signals.Observations.Retention.{
  HasExpiry, NonePast, fresh_of, purge_expired_signals-exact,
}
use running_hackathon.Signals.Webhooks.{remember_webhook, store_webhook_response}
use running_hackathon.Signals.Forget.{
  IsForgotten, forget_user, forget_user-IsForgotten, IsUntouched, forget_user-IsUntouched,
}
use running_hackathon.Tests.{noon, ada_store}

abbrev consented : Store
consented = (set_consent 1 "heart_rate" true "dashboard" noon ada_store).1

one_decision : decisions 1 "heart_rate" consented ≤ 1
unfolding set_consent Sql.count Sql.insert_ignore Sql.insert Sql.update Sql.update_rows
    running_hackathon.Signals.Consents.is_for
one_decision = omega arith

granted_by : All (GrantedBy (noon + minute)) consented.consents.rows
unfolding set_consent Sql.count Sql.insert_ignore Sql.insert Sql.update Sql.update_rows
    running_hackathon.Signals.Consents.is_for
granted_by = (λ t h. ground arith, tt)

known_kind : valid_signal_kind "heart_rate" ≡ true
unfolding valid_signal_kind
known_kind = refl

has_consent-set_consent_example :
    has_consent 1 "heart_rate"
      (set_consent 1 "heart_rate" false "dashboard" (noon + minute) consented).1
    ≡ false
has_consent-set_consent_example =
    has_consent-set_consent 1 1 "heart_rate" "heart_rate" false "dashboard" (noon + minute)
      consented known_kind one_decision granted_by

abbrev pulse : Signal
pulse = record {
  id = 0;
  user_id = 1;
  kind = "heart_rate";
  value = "61";
  unit = "bpm";
  source = "watch";
  observed_at = noon;
  ingested_at = 0;
  expires_at = 0;
}

abbrev show : Time → String
show at = "some time ago"

revoke-ingest_example :
    (ingest_signal 1 pulse
        (noon + minute)
        (set_consent 1 "heart_rate" false "dashboard" (noon + minute) consented).1
      ≡ (
        err no_consent,
        (set_consent 1 "heart_rate" false "dashboard" (noon + minute) consented).1,
      ))
    × (latest_signal show 1 "heart_rate"
          (noon + minute)
          (set_consent 1 "heart_rate" false "dashboard" (noon + minute) consented).1
        ≡ unknown_reading "heart_rate" "no consent on file")
revoke-ingest_example =
    revoke-ingest show 1 pulse "dashboard" (noon + minute) (noon + minute) consented known_kind
      one_decision granted_by

abbrev kept_pulse : Signal
kept_pulse = record pulse { id = 1; ingested_at = noon + second; expires_at = noon + 120 * minute }

accepted : (ingest_signal 1 pulse (noon + second) consented).0 ≡ ok kept_pulse
unfolding ingest_signal set_consent has_consent Sql.first
    running_hackathon.Signals.Consents.consents Sql.order_by Sql.select Sql.update Sql.update_rows
    Sql.insert_ignore running_hackathon.Signals.Consents.is_for
    running_hackathon.Signals.Consents.is_active running_hackathon.Str.trim_space
accepted = refl

none_on_file :
    All
      (λ (r : Signal). is_signal_of 1 "heart_rate" r ≡ true → r.observed_at < pulse.observed_at)
      consented.signals.rows
unfolding set_consent
none_on_file = tt

latest-ingest_example :
    IsAttributed 1 pulse consented
    × (latest_signal show 1 "heart_rate"
          (noon + minute)
          (ingest_signal 1 pulse (noon + second) consented).1
        ≡ record {
          kind = "heart_rate";
          known = true;
          value = "61";
          unit = "bpm";
          source = "watch";
          as_of = noon;
          unknown = "";
        })
unfolding signal_ttl set_consent
latest-ingest_example =
    latest-ingest show 1 pulse kept_pulse (noon + second) (noon + minute) consented accepted
      none_on_file (omega arith)

abbrev sampled : Store
sampled = record ada_store { signals = record { rows = kept_pulse ∷ []; next_id = 2 } }

sampled-HasExpiry : All HasExpiry sampled.signals.rows
unfolding signal_ttl
sampled-HasExpiry = (refl, tt)

purge_expired_signals-exact_example :
    NonePast signal_retention
      (noon + minute)
      (purge_expired_signals (noon + minute) sampled).1.signals.rows
    × (Sql.count
          (fresh_of 1 "heart_rate" (noon + minute))
          (purge_expired_signals (noon + minute) sampled).1.signals.rows
        ≡ Sql.count (fresh_of 1 "heart_rate" (noon + minute)) sampled.signals.rows)
purge_expired_signals-exact_example =
    purge_expired_signals-exact 1 "heart_rate" (noon + minute) sampled sampled-HasExpiry

first_delivery : (remember_webhook "/ingest" "k1" 1 "" ada_store).0.0 ≡ true
unfolding remember_webhook Sql.first
first_delivery = refl

abbrev answered : Store
answered =
    store_webhook_response "/ingest" "k1" "done" (remember_webhook "/ingest" "k1" 1 "" ada_store).1

forget_user-IsForgotten_example : IsForgotten 1 sampled.users (forget_user 1 sampled)
forget_user-IsForgotten_example = forget_user-IsForgotten 1 sampled

forget_user-IsUntouched_example : IsUntouched 1 2 sampled (forget_user 1 sampled)
forget_user-IsUntouched_example =
    forget_user-IsUntouched 1 2 sampled (λ e. omega (arith, e)) (λ e. omega (arith, e))
