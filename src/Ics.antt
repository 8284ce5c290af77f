-- ===== src/Ics.antt =====
-- ics.go: the parser of a calendar feed. `Zones` is what package time does: a text read by a layout in a
-- zone (none is Europe/London), whether a zone is known by its name, the time of the day in Europe/London, and
-- whether two instants fall on one of its days.
pub mod Kept
use Prim.Native.Char.{Char, code}
use running_hackathon.Prelude.{
  ℕ, String, Bool, true, false, not, ◌&&◌, ◌||◌, Option, none, some, List, [], ◌∷◌, ◌++◌, ◌==◌,
  str_eq, if◌then◌else◌,
}
use running_hackathon.Clock.{Time, is_zero_time}
use running_hackathon.Sql.{select}
use running_hackathon.Str.{
  trim_space, trim, split, to_upper, has_prefix, has_suffix, after, byte_len, ◌+s◌,
}
use running_hackathon.Outside.{CalendarEvent}

pub record Zones : Type 0 where
  pub read_in : String → String → Option String → Option Time
  pub is_known_zone : String → Bool
  pub hour_and_minute : Time → String
  pub is_same_day : Time → Time → Bool

-- "\r\n" and then "\r" become "\n"; the flag says that the character before was "\r".
unix_lines : Bool → String → String
unix_lines after_return String.[] = String.[]
unix_lines after_return (String.◌∷◌ c s) =
    let rest = unix_lines (code c == 13) s in
    if code c == 13
    then "\n" +s rest
    else if after_return && code c == 10
    then rest
    else String.◌∷◌ c rest

-- What a folded line continues with, if the line is folded.
continued : String → Option String
continued String.[] = none
continued (String.◌∷◌ c s) = if code c == 32 || code c == 9 then some s else none

extend_last : String → List String → List String
extend_last more [] = []
extend_last more (l ∷ []) = (l +s more) ∷ []
extend_last more (l ∷ m ∷ ls) = l ∷ extend_last more (m ∷ ls)

-- A line that is folded and has nothing before it stands as it is.
continue_or_start : Option String → String → List String → List String
unfolding extend_last
continue_or_start none line out = out ++ line ∷ []
continue_or_start (some more) line [] = line ∷ []
continue_or_start (some more) line (l ∷ ls) = extend_last more (l ∷ ls)

add_line : String → List String → List String
unfolding continued continue_or_start
add_line line out = if str_eq line "" then out else continue_or_start (continued line) line out

add_lines : List String → List String → List String
unfolding add_line
add_lines [] out = out
add_lines (line ∷ lines) out = add_lines lines (add_line line out)

unfoldable pub unfold_ics : String → List String
unfolding unix_lines add_lines
unfold_ics raw = add_lines (split (unix_lines false raw) "\n") []

before_colon : String → String
before_colon String.[] = String.[]
before_colon (String.◌∷◌ c s) =
    let rest = before_colon s in if code c == 58 then String.[] else String.◌∷◌ c rest

after_colon : String → String
after_colon String.[] = String.[]
after_colon (String.◌∷◌ c s) = let rest = after_colon s in if code c == 58 then s else rest

unfoldable pub split_prop : String → String × String
unfolding before_colon after_colon
split_prop line = (before_colon line, after_colon line)

-- What stands for a backslash and the character behind it.
escaped : Char → String → String
escaped c rest =
    if code c == 110 || code c == 78
    then " " +s rest
    else if code c == 44 || code c == 59 || code c == 92
    then String.◌∷◌ c rest
    else "\\" +s String.◌∷◌ c rest

-- The flag says that the character before was a backslash that is still to be read.
unescape : Bool → String → String
unfolding escaped
unescape false String.[] = String.[]
unescape true String.[] = "\\"
unescape false (String.◌∷◌ c s) =
    let rest = unescape (code c == 92) s in if code c == 92 then rest else String.◌∷◌ c rest
unescape true (String.◌∷◌ c s) = escaped c (unescape false s)

unfoldable pub unescape_ics_text : String → String
unfolding unescape
unescape_ics_text s = trim_space (unescape false s)

module _ (zones : Zones) where
  -- The last TZID that names a known zone.
  zone_of : List String → Option String → Option String
  zone_of [] zone = zone
  zone_of (param ∷ params) zone =
      let name = trim (after "TZID=" param) "\"" in
      zone_of params (
        if has_prefix (to_upper param) "TZID=" && zones.is_known_zone name then some name else zone)

  behind_first : List String → List String
  behind_first [] = []
  behind_first (p ∷ ps) = ps

  or_try : Option Time → Bool → Option (Time × Bool) → Option (Time × Bool)
  or_try none all_day next = next
  or_try (some t) all_day next = some (t, all_day)

  unfoldable pub parse_ics_time : String → String → Option (Time × Bool)
  unfolding zone_of behind_first or_try
  parse_ics_time name value =
      let text = trim_space value in
      let zone = zone_of (behind_first (split name ";")) none in
      or_try
        (if has_suffix text "Z" then zones.read_in "20060102T150405Z" text (some "UTC") else none)
        false
        (or_try (if byte_len text == 15 then zones.read_in "20060102T150405" text zone else none)
          false
          (or_try (if byte_len text == 8 then zones.read_in "20060102" text none else none) true
            none))

  unfoldable pub format_when : CalendarEvent → String
  format_when e = if e.all_day then "all day" else zones.hour_and_minute e.start

  abbrev blank_event : CalendarEvent
  blank_event = record { summary = ""; start = 0; when = ""; all_day = false }

  -- The end of an event: it is kept if it has a start.
  ended : Option CalendarEvent → List CalendarEvent → List CalendarEvent
  ended none out = out
  ended (some e) out =
      if is_zero_time e.start then out else out ++ record e { when = format_when e } ∷ []

  with_start : Option (Time × Bool) → CalendarEvent → CalendarEvent
  with_start none e = e
  with_start (some start) e = record e { start = start.0; all_day = start.1 }

  in_event : String → CalendarEvent → CalendarEvent
  unfolding with_start
  in_event line e =
      if has_prefix (to_upper line) "SUMMARY"
      then record e { summary = unescape_ics_text (split_prop line).1 }
      else if has_prefix (to_upper line) "DTSTART"
      then with_start (parse_ics_time (split_prop line).0 (split_prop line).1) e
      else e

  in_current : String → Option CalendarEvent → Option CalendarEvent
  in_current line none = none
  in_current line (some e) = some (in_event line e)

  parse_lines : List String → Option CalendarEvent → List CalendarEvent → List CalendarEvent
  unfolding ended in_current in_event
  parse_lines [] cur out = out
  parse_lines (line ∷ lines) cur out =
      if str_eq (to_upper line) "BEGIN:VEVENT"
      then parse_lines lines (some blank_event) out
      else if str_eq (to_upper line) "END:VEVENT"
      then parse_lines lines none (ended cur out)
      else parse_lines lines (in_current line cur) out

  unfoldable pub parse_ics : String → List CalendarEvent
  unfolding parse_lines
  parse_ics raw = parse_lines (unfold_ics raw) none []

  unfoldable pub events_on : List CalendarEvent → Time → List CalendarEvent
  events_on events day = select (λ (e : CalendarEvent). zones.is_same_day e.start day) events
