-- ===== src/Brain/Model/Gate.antt =====
-- brain.go, Reply: somebody who has not been introduced is never handed to the language model.
use running_hackathon.Prelude.{String, false, ◌≡◌, refl}
use running_hackathon.Clock.{Time}
use running_hackathon.Outside.{Outside}
use running_hackathon.Db.{User, Store}
use running_hackathon.Checklist.Template.{onboarded}
use running_hackathon.Brain.Model.{reply}

-- What is said to somebody who has not been introduced, what their profile becomes and what is stored depend
-- on nothing of the outside but the layout of dates: not on the language model, on any calendar or feed, nor
-- on the provider of texts.
pub reply-introduction :
    (outside other : Outside) (gcal feed : String) (u : User) (inbound : String) (now : Time)
    (s : Store)
    → onboarded u ≡ false
    → outside.format ≡ other.format
    → reply outside gcal u inbound now s ≡ reply other feed u inbound now s
unfolding reply
reply-introduction outside other gcal feed u inbound now s new same = rw new (rw same refl)
