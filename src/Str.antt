-- ===== src/Str.antt =====
-- Go's package strings, as far as the program uses it. A Go string is a text of Unicode characters;
-- `len` of the library counts its UTF-8 bytes as Go's `len` does. Case is mapped for the letters of
-- ASCII, and a letter is one of ASCII: the tables of Unicode are not modelled.
pub mod Laws
use Prim.Native.Char.{Char, code}
use Prim.Native.String.{len, ◌++◌ as append}
use text.Mathlib.Text.{starts_with, find?}
use running_hackathon.Prelude.{
  ℕ, String, Bool, true, false, not, ◌&&◌, ◌||◌, Option, none, some, List, [], ◌∷◌, leb, ltb, ◌==◌,
  str_eq, if◌then◌else◌, is_some,
}

-- unicode.IsSpace
pub is_space : Char → Bool
is_space c =
    let n = code c in
    (leb 9 n && leb n 13)
    || n == 32
    || n == 133
    || n == 160
    || n == 5760
    || (leb 8192 n && leb n 8202)
    || n == 8232
    || n == 8233
    || n == 8239
    || n == 8287
    || n == 12288

-- Whether the text of a cutset holds the character.
unfoldable pub in_cutset : String → Char → Bool
in_cutset String.[] c = false
in_cutset (String.◌∷◌ d s) c = (code c == code d) || in_cutset s c

is_empty : String → Bool
is_empty String.[] = true
is_empty (String.◌∷◌ c s) = false

-- strings.TrimLeftFunc and strings.TrimRightFunc
pub trim_left : (Char → Bool) → String → String
trim_left p String.[] = String.[]
trim_left p (String.◌∷◌ c s) = let rest = trim_left p s in if p c then rest else String.◌∷◌ c s

pub trim_right : (Char → Bool) → String → String
trim_right p String.[] = String.[]
trim_right p (String.◌∷◌ c s) =
    let rest = trim_right p s in if is_empty rest && p c then String.[] else String.◌∷◌ c rest

-- strings.TrimSpace(s)
unfoldable pub trim_space : String → String
unfolding trim_left trim_right is_space is_empty
trim_space s = trim_right is_space (trim_left is_space s)

-- strings.Trim(s, cutset)
unfoldable pub trim : String → String → String
unfolding trim_left trim_right in_cutset is_empty
trim s cutset = trim_right (in_cutset cutset) (trim_left (in_cutset cutset) s)

-- strings.TrimRight(s, cutset)
unfoldable pub trim_right_set : String → String → String
unfolding trim_right in_cutset is_empty
trim_right_set s cutset = trim_right (in_cutset cutset) s

-- The character of `to` that stands where `from` holds the character.
swap_char : String → String → Char → Char
swap_char (String.◌∷◌ a from) (String.◌∷◌ b to) c =
    let rest = swap_char from to c in if code a == code c then b else rest
swap_char _ _ c = c

map_chars : (Char → Char) → String → String
map_chars f String.[] = String.[]
map_chars f (String.◌∷◌ c s) = String.◌∷◌ (f c) (map_chars f s)

abbrev upper_letters : String
upper_letters = "ABCDEFGHIJKLMNOPQRSTUVWXYZ"

abbrev lower_letters : String
lower_letters = "abcdefghijklmnopqrstuvwxyz"

-- strings.ToLower(s)
unfoldable pub to_lower : String → String
unfolding map_chars swap_char
to_lower s = map_chars (swap_char upper_letters lower_letters) s

-- strings.ToUpper(s)
unfoldable pub to_upper : String → String
unfolding map_chars swap_char
to_upper s = map_chars (swap_char lower_letters upper_letters) s

-- strings.EqualFold(s, t)
unfoldable pub equal_fold : String → String → Bool
unfolding to_lower
equal_fold s t = str_eq (to_lower s) (to_lower t)

-- strings.HasPrefix(s, prefix)
unfoldable pub has_prefix : String → String → Bool
has_prefix s prefix = starts_with s prefix

-- The text without its first characters, as many as the first text has.
drop_chars : String → String → String
drop_chars String.[] s = s
drop_chars (String.◌∷◌ a p) String.[] = String.[]
drop_chars (String.◌∷◌ a p) (String.◌∷◌ c s) = drop_chars p s

-- s[len(prefix):], for a prefix of ASCII and a text that begins with as many ASCII characters
unfoldable pub after : String → String → String
unfolding drop_chars
after prefix s = drop_chars prefix s

take_chars : String → String → String
take_chars String.[] s = String.[]
take_chars (String.◌∷◌ a p) String.[] = String.[]
take_chars (String.◌∷◌ a p) (String.◌∷◌ c s) = String.◌∷◌ c (take_chars p s)

-- s[:len(prefix)], for a prefix of ASCII and a text that begins with as many ASCII characters
unfoldable pub first_chars : String → String → String
unfolding take_chars
first_chars prefix s = take_chars prefix s

-- strings.TrimPrefix(s, prefix)
unfoldable pub trim_prefix : String → String → String
unfolding has_prefix after
trim_prefix s prefix = if has_prefix s prefix then after prefix s else s

-- strings.HasSuffix(s, suffix)
unfoldable pub has_suffix : String → String → Bool
has_suffix String.[] suffix = str_eq String.[] suffix
has_suffix (String.◌∷◌ c s) suffix = str_eq (String.◌∷◌ c s) suffix || has_suffix s suffix

-- strings.TrimSuffix(s, suffix)
unfoldable pub trim_suffix : String → String → String
trim_suffix String.[] suffix = String.[]
trim_suffix (String.◌∷◌ c s) suffix =
    let rest = trim_suffix s suffix in
    if str_eq (String.◌∷◌ c s) suffix then String.[] else String.◌∷◌ c rest

-- strings.Contains(s, sub)
unfoldable pub contains : String → String → Bool
contains s sub = is_some (find? s sub)

-- The first part of a split, and the parts behind it.
push_char : Char → List String → List String
push_char c [] = String.◌∷◌ c String.[] ∷ []
push_char c (p ∷ ps) = String.◌∷◌ c p ∷ ps

-- strings.Split(s, sep) for a separator of one character
split_char : String → Char → List String
unfolding push_char
split_char String.[] sep = String.[] ∷ []
split_char (String.◌∷◌ c s) sep =
    let rest = split_char s sep in if code c == code sep then String.[] ∷ rest else push_char c rest

unfoldable pub split : String → String → List String
unfolding split_char
split s String.[] = s ∷ []
split s (String.◌∷◌ sep _) = split_char s sep

-- strings.Join(parts, sep)
unfoldable pub join : List String → String → String
join [] sep = ""
join (p ∷ []) sep = p
join (p ∷ q ∷ ps) sep = append p (append sep (join (q ∷ ps) sep))

-- len(strings.Fields(s)): the flag says that the character before was inside a field
count_fields : Bool → String → ℕ
unfolding is_space
count_fields inside String.[] = 0
count_fields inside (String.◌∷◌ c s) =
    let blank = count_fields false s in
    let more = count_fields true s in
    if is_space c then blank else if inside then more else ℕ.suc more

unfoldable pub fields_count : String → ℕ
unfolding count_fields
fields_count s = count_fields false s

is_letter : Char → Bool
is_letter c = let n = code c in (leb 65 n && leb n 90) || (leb 97 n && leb n 122)

-- strings.ContainsFunc(s, unicode.IsLetter)
unfoldable pub has_letter : String → Bool
unfolding is_letter
has_letter String.[] = false
has_letter (String.◌∷◌ c s) = is_letter c || has_letter s

-- len(s)
abbrev pub byte_len : String → ℕ
byte_len s = len s

infixr 65 ◌+s◌
-- s + t
abbrev pub ◌+s◌ : String → String → String
s +s t = append s t
