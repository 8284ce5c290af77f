-- ===== src/Outside.antt =====
-- What the program asks of the outside: packages of Go that format, encode and digest, the providers of
-- texts, calls and the language model, and the calendar feed. It is an argument of what uses it.
use running_hackathon.Prelude.{ℕ, String, Bool, Option, List}
use running_hackathon.Clock.{Time}
use running_hackathon.Json.{Json}

-- An event of a calendar: When is "all day" or the time of the day (ics.go).
pub record CalendarEvent : Type 0 where
  pub summary : String
  pub start : Time
  pub when : String
  pub all_day : Bool

-- The content of a message to or from the language model.
pub data Block : Type 0 where
  said : String → Block
  tool_use : String → String → String → Block
  tool_result : String → String → Block
  other_block : Block

pub record Message : Type 0 where
  pub role : String
  pub content : List Block

-- The arguments of the tool save_checkin; a field that is missing or of another type is Go's zero value.
pub record CheckinArgs : Type 0 where
  pub mood : Option ℕ
  pub summary : String
  pub topics : String

pub record Outside : Type 0 where
  -- t.In(londonLoc).Format(layout)
  pub format : String → Time → String
  -- t.UTC().Format(time.RFC3339)
  pub format_utc : Time → String
  -- encoding/json
  pub encode : Json → String
  pub decode_checkin : String → CheckinArgs
  -- Calendar.Today, by the address of the feed
  pub today : String → List CalendarEvent
  -- AnthropicClient.CreateMessage: `none` for an error; the outer `none` for no client
  pub create_message : Option (List Message → Option (List Block))
  -- Telephony.SendSMS to a number: whether the provider took the text
  pub takes_sms : String → String → Bool
  -- Voice.Call, by the number, the name, whether they are onboarded, and the variables of the agent: the
  -- SID of the call, or `none` for an error
  pub ring : String → String → Bool → List (String × String) → Option String
