-- ===== src/Server/Inbox/Retry.antt =====
-- server.go, handleSMS: a text that the provider delivers again.
use running_hackathon.Prelude.{
  String, true, false, ◌≡◌, refl, sym, ap, ◌∙◌, Option, some, str_eq, arith,
}
use running_hackathon.Clock.{Time}
use running_hackathon.Str.{trim_space}
use running_hackathon.Sql
use running_hackathon.Sql.{Table}
use running_hackathon.Json.{Response, write_twiml}
use running_hackathon.Outside.{Outside}
use running_hackathon.Phone.{normalise_phone}
use running_hackathon.Db.{User, Store}
use running_hackathon.Guarded.{Guarded}
use running_hackathon.Auth.Sessions.{phone_verified}
use running_hackathon.Signals.Webhooks.{
  delivered, remember_webhook, store_webhook_response, remember-store, remember_answered,
}
use running_hackathon.Users.{user_by_phone, ensure_user}
use running_hackathon.Users.Identity.{ensure_user-known}
use running_hackathon.Brain.Model.{reply}
use running_hackathon.Brain.Model.Reach.{reply-guarded}
use running_hackathon.Server.Webhooks.{verify_twilio}
use running_hackathon.Server.Inbox.{
  Inbound, sms_endpoint, proved, answered, turn, turn_once, turn_of, text_of, handle_sms,
}

-- A text with an id of its own, signed as the service wants it.
pub record IsSigned (mac : String → String → String) (token : String) (inbound : Inbound)
    : Type 0 where
  pub sender : str_eq (normalise_phone inbound.from) "" ≡ false
  pub keyed : str_eq inbound.message_sid "" ≡ false
  pub signed : verify_twilio mac token inbound.signature inbound.url inbound.form ≡ true

-- The sender is a profile whose number is verified.
pub record IsKnown (inbound : Inbound) (u : User) (s : Store) : Type 0 where
  pub found : user_by_phone (normalise_phone inbound.from) s ≡ some u
  pub verified : phone_verified u ≡ true

module _ (mac : String → String → String) (token : String) (outside : Outside) (gcal : String)
    (inbound : Inbound) where
  proved-verified :
      (u : User) (now : Time) (s : Store)
      → phone_verified u ≡ true
      → proved mac token outside gcal u now s ≡ (u, s)
  proved-verified u now s h = ground (arith, h)

  turn_of-keyed :
      (u : User) (now : Time) (s : Store)
      → str_eq inbound.message_sid "" ≡ false
      → turn_of mac token outside gcal (u, s) inbound now
        ≡ turn_once mac token outside gcal
            (remember_webhook sms_endpoint inbound.message_sid u.id "" s)
            u
            inbound
            now
  unfolding turn_of
  turn_of-keyed u now s h = rw h refl

  -- A text from somebody who is known is a turn of theirs, or a repeat.
  known_turn :
      (u : User) (now : Time) (s : Store)
      → IsSigned mac token inbound
      → IsKnown inbound u s
      → handle_sms mac token outside gcal true (some inbound) now s
        ≡ turn_once mac token outside gcal
            (remember_webhook sms_endpoint inbound.message_sid u.id "" s)
            u
            inbound
            now
  unfolding handle_sms text_of
  known_turn u now s g k =
      let entry : handle_sms mac token outside gcal true (some inbound) now s
          ≡ text_of mac token outside gcal (ensure_user (normalise_phone inbound.from) now s)
              inbound now =
        rw (g.sender, g.signed) refl in
      entry
      ∙ ap (λ (p : Option User × Store). text_of mac token outside gcal p inbound now)
          (ensure_user-known (normalise_phone inbound.from) now s u k.found)
      ∙ ap (λ (p : User × Store). turn_of mac token outside gcal p inbound now)
          (proved-verified u now s k.verified)
      ∙ turn_of-keyed u now s g.keyed

  noted : User → Store → Store
  noted u s = record s {
    webhook_events =
        Sql.insert (delivered sms_endpoint inbound.message_sid u.id "") s.webhook_events;
  }

  -- The first turn: what is said, and the store with that answer kept.
  first_turn :
      (u : User) (now : Time) (s : Store)
      → IsSigned mac token inbound
      → IsKnown inbound u s
      → (remember_webhook sms_endpoint inbound.message_sid u.id "" s).0.0 ≡ true
      → let said = reply outside gcal u (trim_space inbound.body) now (noted u s) in
        handle_sms mac token outside gcal true (some inbound) now s ≡ (
          write_twiml said.0,
          store_webhook_response sms_endpoint inbound.message_sid said.0 said.2,
        )
  unfolding turn_once turn answered noted
  first_turn u now s g k first =
      known_turn u now s g k
      ∙ rw (remember-store sms_endpoint inbound.message_sid u.id "" s first) (rw g.keyed refl)

  -- A signed text with a MessageSid that is not empty, from a profile whose number is verified, that was new
  -- when it was answered and is delivered again, at any time, in any store that holds the deliveries that the
  -- first answer left and a profile of the sender whose number is verified: the same words are said, no turn
  -- is taken and nothing in the store changes.
  pub handle_sms-retried :
      (u v : User) (now later : Time) (s t : Store)
      → IsSigned mac token inbound
      → IsKnown inbound u s
      → (remember_webhook sms_endpoint inbound.message_sid u.id "" s).0.0 ≡ true
      → IsKnown inbound v t
      → t.webhook_events
        ≡ (handle_sms mac token outside gcal true (some inbound) now s).1.webhook_events
      → handle_sms mac token outside gcal true (some inbound) later t
        ≡ ((handle_sms mac token outside gcal true (some inbound) now s).0, t)
  unfolding turn_once noted
  handle_sms-retried u v now later s t g k first k' same =
      let said = reply outside gcal u (trim_space inbound.body) now (noted u s) in
      let answer = first_turn u now s g k first in
      let again =
        remember_answered sms_endpoint inbound.message_sid u.id v.id "" "" said.0 s said.2 t first
          (ap (λ (a : Guarded). a.webhook_events)
            (reply-guarded outside gcal u (trim_space inbound.body) now (noted u s)))
          (same ∙ ap (λ (r : Response × Store). r.1.webhook_events) answer) in
      known_turn v later t g k' ∙ rw again (ap (λ (r : Response × Store). (r.0, t)) (sym answer))
