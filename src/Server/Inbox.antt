-- ===== src/Server/Inbox.antt =====
-- server.go, handleSMS: a text that came in. A form that does not parse is `none`.
pub mod Signed
pub mod Retry
use running_hackathon.Prelude.{
  ℕ, String, Bool, true, false, not, ◌&&◌, Option, none, some, List, str_eq, if◌then◌else◌,
}
use running_hackathon.Clock.{Time}
use running_hackathon.Str.{trim_space}
use running_hackathon.Json.{Response, http_error, write_twiml}
use running_hackathon.Outside.{Outside}
use running_hackathon.Phone.{normalise_phone}
use running_hackathon.Db.{User, Store}
use running_hackathon.Auth.Sessions.{phone_verified}
use running_hackathon.Signals.Webhooks.{remember_webhook, store_webhook_response}
use running_hackathon.Users.{user_by_phone, ensure_user, mark_phone_verified}
use running_hackathon.Brain.Turns.{fallback_reply}
use running_hackathon.Brain.Model.{reply}
use running_hackathon.Server.SignIn.{method_not_allowed}
use running_hackathon.Server.Webhooks.{verify_twilio}

-- The parameters that are read, the address that was signed, the signature, and all parameters of the body.
pub record Inbound : Type 0 where
  pub from : String
  pub body : String
  pub message_sid : String
  pub url : String
  pub signature : String
  pub form : List (String × List String)

abbrev pub sms_endpoint : String
sms_endpoint = "/sms"

module _ (mac : String → String → String) (token : String) (outside : Outside) (gcal : String) where
  -- A signed text from a number proves that the person holds it.
  abbrev pub proved : User → Time → Store → User × Store
  proved u now s =
      if not (str_eq token "") && not (phone_verified u)
      then (let marked = mark_phone_verified u.id "twilio_inbound_sms" now s in
          (elim (user_by_phone u.phone marked) [ none ↦ u | some v ↦ v ], marked))
      else (u, s)

  answered : Inbound → String × User × Store → Response × Store
  answered inbound (line, u, s) = (
    write_twiml line,
    if str_eq inbound.message_sid ""
        then s
        else store_webhook_response sms_endpoint inbound.message_sid line s,
  )

  turn : User → Inbound → Time → Store → Response × Store
  unfolding answered
  turn u inbound now s = answered inbound (reply outside gcal u (trim_space inbound.body) now s)

  turn_once : (Bool × String) × Store → User → Inbound → Time → Response × Store
  unfolding turn
  turn_once ((true, cached), s) u inbound now = turn u inbound now s
  turn_once ((false, cached), s) u inbound now = (write_twiml cached, s)

  turn_of : User × Store → Inbound → Time → Response × Store
  unfolding turn_once
  turn_of (u, s) inbound now =
      if str_eq inbound.message_sid ""
      then turn u inbound now s
      else turn_once (remember_webhook sms_endpoint inbound.message_sid u.id "" s) u inbound now

  text_of : Option User × Store → Inbound → Time → Response × Store
  unfolding turn_of
  text_of (none, s) inbound now = (write_twiml fallback_reply, s)
  text_of (some u, s) inbound now = turn_of (proved u now s) inbound now

  unfoldable pub handle_sms : Bool → Option Inbound → Time → Store → Response × Store
  unfolding text_of
  handle_sms false inbound now s = (method_not_allowed, s)
  handle_sms true none now s = (http_error 400 "bad form", s)
  handle_sms true (some inbound) now s =
      if str_eq (normalise_phone inbound.from) ""
      then (write_twiml "Sorry, I couldn't work out who this is from.", s)
      else if not (verify_twilio mac token inbound.signature inbound.url inbound.form)
      then (http_error 403 "bad signature", s)
      else text_of (ensure_user (normalise_phone inbound.from) now s) inbound now
