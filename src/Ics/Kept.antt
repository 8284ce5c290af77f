-- ===== src/Ics/Kept.antt =====
-- ics.go, ParseICS: what an event that is kept has.
use running_hackathon.Prelude.{
  String, false, ◌≡◌, refl, Option, none, some, List, [], ◌∷◌, All, All-append, inl, inr,
  Bool-cases, str_eq,
}
use running_hackathon.Clock.{is_zero_time}
use running_hackathon.Str.{to_upper}
use running_hackathon.Outside.{CalendarEvent}
use running_hackathon.Ics.{
  Zones, format_when, blank_event, ended, in_current, parse_lines, unfold_ics, parse_ics,
}

module _ (zones : Zones) where
  -- An event with a start, and with the text that belongs to its start.
  pub record IsDated (e : CalendarEvent) : Type 0 where
    pub has_start : is_zero_time e.start ≡ false
    pub shown : e.when ≡ format_when zones e

  ended-All :
      (o : Option CalendarEvent) (out : List CalendarEvent)
      → All IsDated out
      → All IsDated (ended zones o out)
  unfolding ended format_when
  ended-All none out h = h
  ended-All (some e) out h = elim (Bool-cases (is_zero_time e.start)) [
    | inl undated ↦ rw undated h
    | inr dated ↦ rw dated (
        All-append IsDated out (record e { when = format_when zones e } ∷ []) h
          (record { has_start = dated; shown = refl }, tt))
  ]

  lines-All :
      (lines : List String) (cur : Option CalendarEvent) (out : List CalendarEvent)
      → All IsDated out
      → All IsDated (parse_lines zones lines cur out)
  unfolding parse_lines
  lines-All [] cur out h = h
  lines-All (line ∷ lines) cur out h = elim (Bool-cases (str_eq (to_upper line) "BEGIN:VEVENT")) [
    | inl begins ↦ rw begins (lines-All lines (some (blank_event zones)) out h)
    | inr other ↦ elim (Bool-cases (str_eq (to_upper line) "END:VEVENT")) [
      | inl ends ↦
          rw (other, ends) (lines-All lines none (ended zones cur out) (ended-All cur out h))
      | inr inside ↦ rw (other, inside) (lines-All lines (in_current zones line cur) out h)
    ]
  ]

  -- Every event that is read from a feed, whatever the feed holds, has a start, and says "all day" or the time
  -- of the day of that start.
  pub parse_ics-IsDated : (raw : String) → All IsDated (parse_ics zones raw)
  unfolding parse_ics
  parse_ics-IsDated raw = lines-All (unfold_ics raw) none [] tt
