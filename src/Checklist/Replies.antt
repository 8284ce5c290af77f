-- ===== src/Checklist/Replies.antt =====
-- checklist.go, what a reply means: normaliseName, normaliseFrequency, isYes, classifyReply; and db.go,
-- validFrequency.
use running_hackathon.Prelude.{
  String, Bool, false, not, ◌&&◌, ◌||◌, List, [], ◌∷◌, ltb, str_eq, if◌then◌else◌,
}
use running_hackathon.Str.{
  trim_space, trim, to_lower, contains, has_prefix, after, byte_len, fields_count, has_letter,
  first_chars, equal_fold,
}
use running_hackathon.Checklist.Template.{
  status_unanswered, status_answered, status_skipped, status_declined,
}

abbrev name_prefixes : List String
name_prefixes =
    "my name is " ∷ "my name's " ∷ "i'm " ∷ "im " ∷ "i am " ∷ "it's " ∷ "its " ∷ "this is "
    ∷ "call me " ∷ []

-- The loop over the prefixes, which stops at the first that fits.
strip_name_prefix : List String → String → String
strip_name_prefix [] name = name
strip_name_prefix (prefix ∷ prefixes) name =
    let rest = strip_name_prefix prefixes name in
    if ltb (byte_len prefix) (byte_len name) && equal_fold (first_chars prefix name) prefix
    then trim_space (after prefix name)
    else rest

unfoldable pub normalise_name : String → String
unfolding strip_name_prefix
normalise_name answer =
    let name = trim (strip_name_prefix name_prefixes (trim_space answer)) ".!," in
    if str_eq name ""
      || ltb 4 (fields_count name)
      || ltb 60 (byte_len name)
      || not (has_letter name)
    then ""
    else name

unfoldable pub normalise_frequency : String → String
normalise_frequency answer =
    let lower = to_lower (trim_space answer) in
    if contains lower "twice" || contains lower "two times" || contains lower "2x"
    then "twice-daily"
    else if contains lower "weekday" || contains lower "week day" || contains lower "work day"
    then "weekdays"
    else if contains lower "daily" || contains lower "every day" || contains lower "each day"
    then "daily"
    else ""

unfoldable pub valid_frequency : String → Bool
valid_frequency f = str_eq f "daily" || str_eq f "twice-daily" || str_eq f "weekdays"

-- Whether the text is one of a switch's cases.
unfoldable pub one_of : List String → String → Bool
one_of [] s = false
one_of (w ∷ ws) s = str_eq s w || one_of ws s

abbrev yes_words : List String
yes_words =
    "y" ∷ "yes" ∷ "yeah" ∷ "yep" ∷ "yes please" ∷ "go on" ∷ "go on then" ∷ "sure" ∷ "ok" ∷ "okay"
    ∷ "please do" ∷ "sign me up" ∷ "put me down" ∷ "do it" ∷ []

unfoldable pub is_yes : String → Bool
unfolding one_of
is_yes answer =
    let lower = to_lower (trim (trim_space answer) ".!? ") in
    one_of yes_words lower
    || has_prefix lower "yes "
    || has_prefix lower "yeah "
    || has_prefix lower "sign me up"

abbrev skip_words : List String
skip_words = "skip" ∷ "pass" ∷ "next" ∷ "later" ∷ []

abbrev decline_words : List String
decline_words =
    "stop" ∷ "decline" ∷ "no thanks" ∷ "don't ask" ∷ "dont ask" ∷ "rather not" ∷ "prefer not to say"
    ∷ []

-- The status and the answer of an inbound message.
unfoldable pub classify_reply : String → String × String
unfolding one_of
classify_reply body =
    let trimmed = trim_space body in
    let word = to_lower (trim trimmed ".!? ") in
    if str_eq trimmed ""
    then (status_unanswered, "")
    else if one_of skip_words word
    then (status_skipped, "")
    else if one_of decline_words word
    then (status_declined, "")
    else (status_answered, trimmed)
