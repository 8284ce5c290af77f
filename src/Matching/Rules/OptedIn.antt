-- ===== src/Matching/Rules/OptedIn.antt =====
-- matching.go, optedIn: what it takes to be opted in.
use running_hackathon.Prelude.{
  String, Bool, true, false, ◌||◌, ◌≡◌, refl, ◌⊎◌, inl, inr, List, [], ◌∷◌, arith,
}
use running_hackathon.Str.{contains}
use running_hackathon.Sql.Laws.{Stored}
use running_hackathon.Matching.Rules.{names, opted_in}

-- Some interest contains some opt-in word of the audience, or is contained in one, whole words or not.
pub record IsOptedIn (wanted opt_in : List String) : Type 0 where
  pub interest : String
  pub word : String
  pub wished : Stored interest wanted
  pub listed : Stored word opt_in
  pub overlap : (contains interest word ≡ true) ⊎ (contains word interest ≡ true)

or-cases : (a b : Bool) → (a || b) ≡ true → (a ≡ true) ⊎ (b ≡ true)
or-cases true b h = inl refl
or-cases false b h = inr h

names-IsOptedIn :
    (w : String) (wanted opt_in : List String)
    → names w opt_in ≡ true
    → IsOptedIn (w ∷ wanted) opt_in
unfolding names
names-IsOptedIn w wanted [] h = absurd (ground arith)
names-IsOptedIn w wanted (o ∷ opt_in) h =
    elim (or-cases (contains w o || contains o w) (names w opt_in) h) [
      | inl overlap ↦ record {
        interest = w;
        word = o;
        wished = inl refl;
        listed = inl refl;
        overlap = or-cases (contains w o) (contains o w) overlap;
      }
      | inr later ↦
          let found = names-IsOptedIn w wanted opt_in later in
          record {
            interest = found.interest;
            word = found.word;
            wished = found.wished;
            listed = inr found.listed;
            overlap = found.overlap;
          }
    ]

pub opted_in-IsOptedIn :
    (wanted opt_in : List String) → opted_in wanted opt_in ≡ true → IsOptedIn wanted opt_in
unfolding opted_in
opted_in-IsOptedIn [] opt_in h = absurd (ground arith)
opted_in-IsOptedIn (w ∷ wanted) opt_in h =
    elim (or-cases (names w opt_in) (opted_in wanted opt_in) h) [
      | inl named ↦ names-IsOptedIn w wanted opt_in named
      | inr later ↦
          let found = opted_in-IsOptedIn wanted opt_in later in
          record {
            interest = found.interest;
            word = found.word;
            wished = inr found.wished;
            listed = found.listed;
            overlap = found.overlap;
          }
    ]
