-- ===== src/Tests/Hooks.antt =====
-- The theorems on deliveries and texts that come in, applied to concrete ones.
use running_hackathon.Prelude.{
  ◌+◌, String, true, false, ◌≡◌, ◌≢◌, refl, ap, ◌∙◌, some, List, [], ◌∷◌, arith, str_eq,
}
use running_hackathon.Clock.{minute}
use running_hackathon.Sql
use running_hackathon.Str.{◌+s◌}
use running_hackathon.Db.{User, Store}
use running_hackathon.Phone.{normalise_phone}
use running_hackathon.Users.{has_phone, user_by_phone}
use running_hackathon.Signals.Webhooks.{remember_webhook}
use running_hackathon.Signals.Webhooks.Cache.{
  Call, arrived, answered, code_calls, spec_calls, cached, calls_refine,
}
use running_hackathon.Server.Webhooks.{
  IngestRequest, handle_ingest, replayed_answer, twilio_signature, verify_twilio,
}
use running_hackathon.Server.Webhooks.Once.{IsKeyed, handle_ingest-lost}
use running_hackathon.Server.Inbox.{Inbound, handle_sms}
use running_hackathon.Server.Inbox.Signed.{handle_sms-forged}
use running_hackathon.Server.Inbox.Retry.{IsSigned, IsKnown, handle_sms-retried}
use running_hackathon.Tests.{noon, ada, ada_store, quiet}

abbrev calls : List Call
calls = arrived "/sms" "SM1" 1 "" ∷ answered "/sms" "SM1" "Hello." ∷ arrived "/sms" "SM1" 1 "" ∷ []

calls_refine_example :
    ((code_calls calls ada_store).0 ≡ (spec_calls calls (cached ada_store)).0)
    × (cached (code_calls calls ada_store).1 ≡ (spec_calls calls (cached ada_store)).1)
calls_refine_example = calls_refine calls ada_store

-- A heart rate for which there is no consent.
abbrev measured : IngestRequest
measured = record {
  phone = "+447700900123";
  kind = "heart_rate";
  value = "61";
  unit = "bpm";
  source = "watch";
  observed_at = some noon;
  idempotency_key = "k1";
}

measured-IsKeyed : IsKeyed measured ada noon ada_store
unfolding running_hackathon.Users.user_by_phone Sql.first running_hackathon.Phone.normalise_phone
    running_hackathon.Str.has_prefix running_hackathon.Str.trim_space
measured-IsKeyed = record { person = refl; time = refl; key = refl }

new_key : (remember_webhook "/ingest" "k1" 1 "" ada_store).0.0 ≡ true
unfolding remember_webhook Sql.first
new_key = refl

forbidden : (handle_ingest quiet (some measured) noon ada_store).0.status ≡ 403
unfolding handle_ingest running_hackathon.Users.user_by_phone Sql.first
    running_hackathon.Phone.normalise_phone running_hackathon.Str.has_prefix
    running_hackathon.Str.trim_space remember_webhook
    running_hackathon.Signals.Observations.ingest_signal
    running_hackathon.Signals.Consents.valid_signal_kind
    running_hackathon.Signals.Consents.has_consent running_hackathon.Signals.Consents.consents
    Sql.order_by Sql.select
forbidden = refl

was_turned_away : (handle_ingest quiet (some measured) noon ada_store).0.status ≢ 200
was_turned_away e = absurd (ground (arith, forbidden, e))

handle_ingest-lost_example :
    let retried =
      handle_ingest quiet
        (some measured)
        (noon + minute)
        (handle_ingest quiet (some measured) noon ada_store).1 in
    (retried.0 ≡ replayed_answer) × (retried.1.signals ≡ ada_store.signals)
handle_ingest-lost_example =
    handle_ingest-lost quiet measured ada noon noon (noon + minute) ada_store measured-IsKeyed
      new_key was_turned_away

abbrev mac : String → String → String
mac token signed = token +s signed

abbrev texted : Inbound
texted = record {
  from = "+447700900123";
  body = "hello";
  message_sid = "SM1";
  url = "/sms";
  signature = "secret/smsFrom+447700900123";
  form = ("From", "+447700900123" ∷ []) ∷ [];
}

abbrev forgery : Inbound
forgery = record texted { signature = "guess" }

bad_signature : str_eq "guess" (twilio_signature mac "secret" "/sms" forgery.form) ≡ false
unfolding twilio_signature Sql.order_by
bad_signature = refl

handle_sms-forged_example :
    (handle_sms mac "secret" quiet "" true (some forgery) noon ada_store).1 ≡ ada_store
handle_sms-forged_example =
    handle_sms-forged mac "secret" quiet "" true forgery noon ada_store refl bad_signature

good_signature : verify_twilio mac "secret" texted.signature "/sms" texted.form ≡ true
unfolding verify_twilio twilio_signature Sql.order_by
good_signature = refl

texted-IsSigned : IsSigned mac "secret" texted
unfolding running_hackathon.Phone.normalise_phone running_hackathon.Str.has_prefix
    running_hackathon.Str.trim_space
texted-IsSigned = record { sender = refl; keyed = refl; signed = good_signature }

new_text : (remember_webhook "/sms" "SM1" 1 "" ada_store).0.0 ≡ true
unfolding remember_webhook Sql.first
new_text = refl

-- A store that kept the delivery of the text.
abbrev kept_text : Store
kept_text = record ada_store {
  webhook_events =
      (handle_sms mac "secret" quiet "" true (some texted) noon ada_store).1.webhook_events;
}

called : user_by_phone (normalise_phone texted.from) ada_store ≡ some ada
unfolding user_by_phone Sql.first normalise_phone running_hackathon.Str.has_prefix
    running_hackathon.Str.trim_space
called = refl

texted-IsKnown : (s : Store) → s.users ≡ ada_store.users → IsKnown texted ada s
unfolding user_by_phone
texted-IsKnown s same = record {
  found =
      ap (λ (t : Sql.Table User). Sql.first (has_phone (normalise_phone texted.from)) t.rows) same
      ∙ called;
  verified = refl;
}

handle_sms-retried_example :
    handle_sms mac "secret" quiet "" true (some texted) (noon + minute) kept_text
    ≡ ((handle_sms mac "secret" quiet "" true (some texted) noon ada_store).0, kept_text)
handle_sms-retried_example =
    handle_sms-retried mac "secret" quiet "" texted ada ada noon (noon + minute) ada_store kept_text
      texted-IsSigned (texted-IsKnown ada_store refl) new_text (texted-IsKnown kept_text refl) refl
