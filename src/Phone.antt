-- ===== src/Phone.antt =====
-- server.go: normalisePhone and the E.164 pattern; auth_http.go: maskPhone.
use Prim.Native.Char.{Char, code}
use running_hackathon.Prelude.{
  ℕ, zero, suc, ◌-◌, String, Bool, true, false, ◌&&◌, leb, if◌then◌else◌,
}
use running_hackathon.Str.{trim_space, has_prefix, after, in_cutset, byte_len, ◌+s◌}

-- The replacer of the punctuation by nothing.
remove : String → String → String
unfolding in_cutset
remove chars String.[] = String.[]
remove chars (String.◌∷◌ c s) =
    let rest = remove chars s in if in_cutset chars c then rest else String.◌∷◌ c rest

unfoldable pub normalise_phone : String → String
unfolding remove
normalise_phone p =
    let kept = remove " -()." (trim_space p) in
    if has_prefix kept "00" then "+" +s after "00" kept else kept

is_digit : Char → Bool
is_digit c = leb 48 (code c) && leb (code c) 57

-- Only digits, and how many.
all_digits : String → Bool
all_digits String.[] = true
all_digits (String.◌∷◌ c s) = is_digit c && all_digits s

-- [1-9]\d{7,14}
national : String → Bool
unfolding all_digits is_digit
national String.[] = false
national (String.◌∷◌ c s) =
    leb 49 (code c) && leb (code c) 57 && all_digits s && leb 7 (byte_len s) && leb (byte_len s) 14

-- e164.MatchString(phone): ^\+[1-9]\d{7,14}$
unfoldable pub is_e164 : String → Bool
unfolding national
is_e164 phone = has_prefix phone "+" && national (after "+" phone)

drop_bytes : ℕ → String → String
drop_bytes zero s = s
drop_bytes (suc n) String.[] = String.[]
drop_bytes (suc n) (String.◌∷◌ c s) = drop_bytes n s

-- The last four digits, of a number in ASCII.
unfoldable pub mask_phone : String → String
unfolding drop_bytes
mask_phone phone =
    let digits = trim_space phone in
    if leb (byte_len digits) 4 then digits else "•••• " +s drop_bytes (byte_len digits - 4) digits
