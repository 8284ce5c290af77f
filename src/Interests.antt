-- ===== src/Interests.antt =====
-- matching.go, normaliseInterests, and db.go, InterestList and interestStem.
use running_hackathon.Prelude.{
  String, Bool, false, ◌&&◌, ◌||◌, List, [], ◌∷◌, ◌++◌, ltb, str_eq, if◌then◌else◌,
}
use running_hackathon.Db.{User}
use running_hackathon.Str.{
  trim_space, trim, to_lower, split, join, has_suffix, trim_suffix, byte_len,
}

-- The map `seen`, as the list of its keys.
unfoldable pub is_seen : String → List String → Bool
is_seen p [] = false
is_seen p (q ∷ seen) = str_eq p q || is_seen p seen

abbrev clean_part : String → String
clean_part part = trim (to_lower (trim_space part)) ".!?"

-- The loop over the parts; `out` has the same texts as `seen`.
unfoldable pub add_parts : List String → List String → List String
unfolding is_seen
add_parts [] out = out
add_parts (part ∷ parts) out =
    let p = clean_part part in
    add_parts parts (if str_eq p "" || is_seen p out then out else out ++ p ∷ [])

unfoldable pub normalise_interests : String → String
unfolding add_parts
normalise_interests raw = join (add_parts (split raw ",") []) ", "

unfoldable pub interest_stem : String → String
interest_stem s =
    let t = trim (to_lower (trim_space s)) ".!?" in
    if ltb 4 (byte_len t) && has_suffix t "s" then trim_suffix t "s" else t

stems : List String → List String
stems [] = []
stems (p ∷ parts) =
    let rest = stems parts in if str_eq (interest_stem p) "" then rest else interest_stem p ∷ rest

unfoldable pub interest_list : User → List String
unfolding stems interest_stem
interest_list u = stems (split u.interests ",")
