-- ===== src/Str/Laws.antt =====
-- Laws and runs of the functions on texts.
use running_hackathon.Prelude.{◌≡◌, refl, true, [], ◌∷◌}
use running_hackathon.Str.{
  trim_space, trim, to_lower, split, join, contains, trim_suffix, fields_count, trim_prefix,
}

trim_space_run : trim_space "  it's  Sam\n " ≡ "it's  Sam"
unfolding trim_space
trim_space_run = refl

trim_run : trim "..yes please!" ".!? " ≡ "yes please"
unfolding trim
trim_run = refl

to_lower_run : to_lower "Yes PLEASE" ≡ "yes please"
unfolding to_lower
to_lower_run = refl

split_run : split "a,,b" "," ≡ "a" ∷ "" ∷ "b" ∷ []
unfolding split
split_run = refl

join_run : join ("a" ∷ "b" ∷ "c" ∷ []) ", " ≡ "a, b, c"
unfolding join
join_run = refl

contains_run : contains "twice a day" "ice" ≡ true
unfolding contains
contains_run = refl

trim_suffix_run : trim_suffix "hackathons" "s" ≡ "hackathon"
unfolding trim_suffix
trim_suffix_run = refl

trim_prefix_run : trim_prefix "no talks" "no " ≡ "talks"
unfolding trim_prefix
trim_prefix_run = refl

fields_run : fields_count " my name  is Sam " ≡ 4
unfolding fields_count
fields_run = refl
