-- ===== src/Matching/Rules.antt =====
-- matching.go: the vocabulary of the events export and the rules on an event's audience.
pub mod OptedIn
use running_hackathon.Prelude.{
  String, Bool, true, false, not, ◌&&◌, ◌||◌, List, [], ◌∷◌, str_eq, if◌then◌else◌,
}
use running_hackathon.Str.{contains}
use running_hackathon.Interests.{interest_stem}

pub record AudienceRule : Type 0 where
  pub label : String
  pub markers : List String
  pub opt_in : List String

abbrev pub audience_rules : List AudienceRule
audience_rules =
    record {
      label = "aimed at women in tech";
      markers =
          "women in" ∷ "women who" ∷ "women's" ∷ "womens " ∷ "womxn" ∷ "female founder"
          ∷ "females in" ∷ "girls who code" ∷ "ladies " ∷ [];
      opt_in = "women" ∷ "womxn" ∷ "female" ∷ "girls who code" ∷ [];
    }
    ∷ record {
      label = "aimed at students";
      markers =
          "students only" ∷ "student-only" ∷ "student only" ∷ "university students"
          ∷ "undergraduate" ∷ "freshers" ∷ "sixth_form" ∷ "sixth form" ∷ [];
      opt_in = "student" ∷ "university" ∷ "undergrad" ∷ "sixth form" ∷ [];
    }
    ∷ record {
      label = "aimed at a specific community";
      markers =
          "black in tech" ∷ "black tech" ∷ "lgbtq" ∷ "queer " ∷ "pride in tech" ∷ "muslims in"
          ∷ "jewish tech" ∷ "latinx" ∷ [];
      opt_in = "black in tech" ∷ "lgbtq" ∷ "queer" ∷ "pride" ∷ "muslim" ∷ "jewish" ∷ "latinx" ∷ [];
    }
    ∷ record {
      label = "invite-only or members-only";
      markers =
          "invite only" ∷ "invite-only" ∷ "members only" ∷ "members-only" ∷ "by invitation"
          ∷ "private dinner" ∷ [];
      opt_in = [];
    }
    ∷ record {
      label = "aimed at executives";
      markers = "c-suite" ∷ "cto only" ∷ "executive roundtable" ∷ "board members" ∷ [];
      opt_in = "executive" ∷ "c-suite" ∷ "cto" ∷ "leadership" ∷ [];
    }
    ∷ []

abbrev pub preferred_city : String
preferred_city = "london"

-- The map interestTags: no tags for an interest that it does not name.
unfoldable pub interest_tags : String → List String
interest_tags p =
    if str_eq p "hackathon"
    then "hackathon" ∷ []
    else if str_eq p "meetup"
    then "meetup" ∷ "networking" ∷ []
    else if str_eq p "conference"
    then "conference" ∷ "summit" ∷ "expo" ∷ []
    else if str_eq p "workshop"
    then "workshop" ∷ "talk" ∷ "training" ∷ "course" ∷ []
    else if str_eq p "social"
    then "social" ∷ "drinks" ∷ "party" ∷ "networking" ∷ []
    else if str_eq p "ai"
    then "ai" ∷ "ml" ∷ "machine_learning" ∷ "llm" ∷ "data_science" ∷ []
    else if str_eq p "web"
    then "web" ∷ "software" ∷ "frontend" ∷ "backend" ∷ "javascript" ∷ "dev" ∷ []
    else if str_eq p "data"
    then "data" ∷ "data_science" ∷ "analytics" ∷ []
    else if str_eq p "hardware"
    then "hardware" ∷ "robotics" ∷ "iot" ∷ "electronics" ∷ []
    else if str_eq p "startup"
    then "startup" ∷ "founder" ∷ "founder_vc" ∷ "vc" ∷ "entrepreneur" ∷ []
    else if str_eq p "design"
    then "design" ∷ "ux" ∷ "product" ∷ []
    else if str_eq p "security"
    then "security" ∷ "infosec" ∷ "cyber" ∷ []
    else []

unfoldable pub contains_any : String → List String → Bool
contains_any hay [] = false
contains_any hay (n ∷ needles) = (not (str_eq n "") && contains hay n) || contains_any hay needles

unfoldable pub matches_interest : String → String → Bool
unfolding contains_any interest_tags
matches_interest hay interest =
    let stem = interest_stem interest in
    if str_eq stem ""
    then false
    else if contains hay stem
    then true
    else contains_any hay (interest_tags stem)

names : String → List String → Bool
names w [] = false
names w (o ∷ opt_in) = contains w o || contains o w || names w opt_in

-- With no opt-in text nobody is opted in.
unfoldable pub opted_in : List String → List String → Bool
unfolding names
opted_in [] opt_in = false
opted_in (w ∷ wanted) opt_in = names w opt_in || opted_in wanted opt_in

unfoldable pub mentions_city : List String → String → Bool
mentions_city [] city = false
mentions_city (w ∷ wanted) city = contains city w || contains w city || mentions_city wanted city
