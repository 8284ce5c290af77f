-- ===== src/Server/Inbox/Signed.antt =====
-- server.go, handleSMS: the signature.
use running_hackathon.Prelude.{
  String, Bool, true, false, ◌≡◌, refl, some, inl, inr, Bool-cases, str_eq, arith,
}
use running_hackathon.Clock.{Time}
use running_hackathon.Outside.{Outside}
use running_hackathon.Phone.{normalise_phone}
use running_hackathon.Db.{Store}
use running_hackathon.Server.Webhooks.{twilio_signature, verify_twilio}
use running_hackathon.Server.Inbox.{Inbound, handle_sms}

forged :
    (mac : String → String → String) (token : String) (inbound : Inbound)
    → str_eq token "" ≡ false
    → str_eq inbound.signature (twilio_signature mac token inbound.url inbound.form) ≡ false
    → verify_twilio mac token inbound.signature inbound.url inbound.form ≡ false
unfolding verify_twilio
forged mac token inbound t h = ground (arith, t, h)

-- Where the service has a token, a text whose signature is not that of its address and parameters changes
-- nothing: it starts no profile, verifies no number and takes no turn, whoever it says that it is from.
pub handle_sms-forged :
    (mac : String → String → String) (token : String) (outside : Outside) (gcal : String)
    (post : Bool) (inbound : Inbound) (now : Time) (s : Store)
    → str_eq token "" ≡ false
    → str_eq inbound.signature (twilio_signature mac token inbound.url inbound.form) ≡ false
    → (handle_sms mac token outside gcal post (some inbound) now s).1 ≡ s
unfolding handle_sms
handle_sms-forged mac token outside gcal false inbound now s t h = refl
handle_sms-forged mac token outside gcal true inbound now s t h =
    elim (Bool-cases (str_eq (normalise_phone inbound.from) "")) [
      | inl nobody ↦ rw nobody refl
      | inr sender ↦ rw (sender, forged mac token inbound t h) refl
    ]
