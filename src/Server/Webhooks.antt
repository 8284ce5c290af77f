-- ===== src/Server/Webhooks.antt =====
-- ingest.go: consent, ingestion, erasure, and the signature of inbound texts.
pub mod Once
use running_hackathon.Prelude.{
  ℕ, String, Bool, true, false, not, ◌&&◌, Option, none, some, List, [], ◌∷◌, ◌++◌, str_eq,
  if◌then◌else◌, map,
}
use Prim.Native.String.{compare}
use package.text.Mathlib.Text.{is_lt}
use running_hackathon.Clock.{Time}
use running_hackathon.Outcome.{Error, error_text, Result, ok, err, no_consent}
use running_hackathon.Str.{has_prefix, ◌+s◌}
use running_hackathon.Sql.{order_by}
use running_hackathon.Json.{Json, flag, text, arr, items, object, Response, write_json}
use running_hackathon.Outside.{Outside}
use running_hackathon.Phone.{normalise_phone}
use running_hackathon.Db.{User, Consent, Signal, Store}
use running_hackathon.Users.{user_by_phone}
use running_hackathon.Signals.Consents.{is_active, set_consent, consents}
use running_hackathon.Signals.Observations.{Reading, ingest_signal, readings}
use running_hackathon.Signals.Webhooks.{remember_webhook}
use running_hackathon.Signals.Forget.{forget_user}
use running_hackathon.Server.SignIn.{json_error}

-- The text that Twilio signs: the address, and every parameter by name. `form` has each name once.
abbrev pub by_name : String × List String → String × List String → Bool
by_name a b = is_lt (compare a.0 b.0)

all_values : List String → String
all_values [] = ""
all_values (v ∷ vs) = v +s all_values vs

parameters : List (String × List String) → String
unfolding all_values
parameters [] = ""
parameters ((k, vs) ∷ form) = k +s all_values vs +s parameters form

-- `mac` is the base64 of the HMAC-SHA1 of a text under a token.
unfoldable pub twilio_signature :
    (String → String → String) → String → String → List (String × List String) → String
unfolding parameters
twilio_signature mac token url form = mac token (url +s parameters (order_by by_name form))

unfoldable pub verify_twilio :
    (String → String → String) → String → String → String → List (String × List String) → Bool
verify_twilio mac token sig url form =
    if str_eq token ""
    then true
    else if str_eq sig ""
    then false
    else str_eq sig (twilio_signature mac token url form)

-- publicURL: `tls` says that the connection is encrypted.
unfoldable pub public_url : String → Bool → String → String → String → String
public_url forwarded_proto tls host forwarded_host uri =
    (if not (str_eq forwarded_proto "")
      then forwarded_proto
      else if not tls && has_prefix host "localhost"
      then "http"
      else "https")
    +s "://"
    +s (if not (str_eq forwarded_host "") then forwarded_host else host)
    +s uri

abbrev pub unknown_user : Response
unknown_user = json_error 404 "unknown user"

pub record ConsentRequest : Type 0 where
  pub phone : String
  pub scope : String
  pub granted : Option Bool
  pub source : String

consented : Result (Unit {0}) × Store → String → Bool → Response × Store
consented (err e, s) scope granted = (json_error 400 (error_text e), s)
consented (ok done, s) scope granted =
    (write_json 200 (("ok", flag true) ∷ ("scope", text scope) ∷ ("granted", flag granted) ∷ []), s)

consent_of : Option User → ConsentRequest → Time → Store → Response × Store
unfolding consented
consent_of none req now s = (unknown_user, s)
consent_of (some u) req now s = elim req.granted [
  | none ↦ (json_error 400 "granted must be true or false", s)
  | some granted ↦
      consented
        (set_consent u.id req.scope granted
          (if str_eq req.source "" then "operator" else req.source) now s)
        req.scope granted
]

unfoldable pub handle_consent : Option ConsentRequest → Time → Store → Response × Store
unfolding consent_of
handle_consent none now s = (json_error 400 "invalid json", s)
handle_consent (some req) now s = consent_of (user_by_phone (normalise_phone req.phone) s) req now s

-- `observed_at` is what the time parses to, if it does.
pub record IngestRequest : Type 0 where
  pub phone : String
  pub kind : String
  pub value : String
  pub unit : String
  pub source : String
  pub observed_at : Option Time
  pub idempotency_key : String

abbrev pub observation : IngestRequest → Time → Signal
observation req observed = record {
  id = 0;
  user_id = 0;
  kind = req.kind;
  value = req.value;
  unit = req.unit;
  source = req.source;
  observed_at = observed;
  ingested_at = 0;
  expires_at = 0;
}

abbrev pub stamp : String
stamp = "2006-01-02T15:04:05Z07:00"

abbrev pub refused_as : Error → ℕ
refused_as no_consent = 403
refused_as _ = 400

abbrev pub replayed_answer : Response
replayed_answer = write_json 200 (("ok", flag true) ∷ ("replayed", flag true) ∷ [])

module _ (outside : Outside) where
  ingested : Result Signal × Store → Response × Store
  ingested (err e, s) =
      (write_json (refused_as e) (("ok", flag false) ∷ ("error", text (error_text e)) ∷ []), s)
  ingested (ok sig, s) = (
    write_json 200 (
        ("ok", flag true)
        ∷ ("kind", text sig.kind)
        ∷ ("observed_at", text (outside.format stamp sig.observed_at))
        ∷ ("expires_at", text (outside.format stamp sig.expires_at))
        ∷ []),
    s,
  )

  ingest_once : (Bool × String) × Store → User → IngestRequest → Time → Time → Response × Store
  unfolding ingested
  ingest_once ((true, cached), s) u req observed now =
      ingested (ingest_signal u.id (observation req observed) now s)
  ingest_once ((false, cached), s) u req observed now = (replayed_answer, s)

  ingest_at : Option Time → User → IngestRequest → Time → Store → Response × Store
  unfolding ingest_once
  ingest_at none u req now s = (json_error 400 "observed_at must be RFC3339", s)
  ingest_at (some observed) u req now s =
      if str_eq req.idempotency_key ""
      then ingested (ingest_signal u.id (observation req observed) now s)
      else ingest_once (remember_webhook "/ingest" req.idempotency_key u.id "" s) u req observed now

  ingest_of : Option User → IngestRequest → Time → Store → Response × Store
  unfolding ingest_at
  ingest_of none req now s = (unknown_user, s)
  ingest_of (some u) req now s = ingest_at req.observed_at u req now s

  unfoldable pub handle_ingest : Option IngestRequest → Time → Store → Response × Store
  unfolding ingest_of
  handle_ingest none now s = (json_error 400 "invalid json", s)
  handle_ingest (some req) now s = ingest_of (user_by_phone (normalise_phone req.phone) s) req now s

  reading_row : Reading → Json
  reading_row r =
      if r.known
      then object (
          ("kind", text r.kind)
          ∷ ("known", flag true)
          ∷ ("value", text r.value)
          ∷ ("unit", text r.unit)
          ∷ ("source", text r.source)
          ∷ ("observed_at", text (outside.format stamp r.as_of))
          ∷ [])
      else object
          (("kind", text r.kind) ∷ ("known", flag false) ∷ ("unknown_because", text r.unknown) ∷ [])

  consent_row : Consent → Json
  consent_row c =
      object
        (("scope", text c.scope) ∷ ("active", flag (is_active c)) ∷ ("source", text c.source) ∷ [])

  -- The signals as the agent is told them.
  unfoldable pub handle_signals : String → Time → Store → Response
  unfolding reading_row consent_row
  handle_signals phone now s = elim (user_by_phone (normalise_phone phone) s) [
    | none ↦ unknown_user
    | some u ↦ write_json 200 (
        (
          "signals",
          arr (items (map reading_row (readings (outside.format "Mon 2 Jan 15:04") u.id now s))),
        )
        ∷ ("consents", arr (items (map consent_row (consents u.id s))))
        ∷ [])
  ]

abbrev pub erased_answer : Response
erased_answer = write_json 200 (("ok", flag true) ∷ ("erased", flag true) ∷ [])

unfoldable pub handle_forget : String → Store → Response × Store
handle_forget phone s = elim (user_by_phone (normalise_phone phone) s) [
  | none ↦ (unknown_user, s)
  | some u ↦ (erased_answer, forget_user u.id s)
]
