-- ===== src/Server/Dashboard/Erasure.antt =====
-- account.go, handleForgetMe: whose data goes.
use running_hackathon.Prelude.{ℕ, String, true, ◌≡◌, ◌≢◌, refl, sym, ap, ◌∙◌, Option, some}
use mathlib.Core.Path.{subst}
use running_hackathon.Clock.{Time}
use running_hackathon.Json.{Response}
use running_hackathon.Db.{User, Store}
use running_hackathon.Signals.Forget.{
  IsForgotten, IsUntouched, forget_user-IsForgotten, forget_user-IsUntouched,
}
use running_hackathon.Server.State.{ServerState, current_user}
use running_hackathon.Server.Dashboard.{erased, forget_me_of, handle_forget_me}

-- The answer, the person erased, and everybody else.
pub record IsErased (u : User) (before : Store) (r : Response × ServerState) : Type 0 where
  pub answer : r.0 ≡ erased
  pub gone : IsForgotten u.id before.users r.1.store
  pub others : (other : ℕ) → u.id ≢ other → other ≢ 0 → IsUntouched u.id other before r.1.store

module _ (hash_secret : String → String) where
  erased_as :
      (cookie : Option String) (now : Time) (st : ServerState)
      → handle_forget_me hash_secret true cookie "DELETE" now st
        ≡ forget_me_of (current_user hash_secret cookie now st)
  unfolding handle_forget_me
  erased_as cookie now st = refl

  -- A confirmed request erases the profile that the session resolves to: nothing is left under its id, nor of
  -- the codes, audit rows and unowned calls under its number. What every table holds under the id of anybody
  -- else is as it was after the session was looked up, but for audit rows under the number that is erased; so
  -- are the login codes of every other number, and the calls and audit rows under neither.
  pub handle_forget_me-IsErased :
      (cookie : Option String) (now : Time) (st looked_up : ServerState) (u : User)
      → current_user hash_secret cookie now st ≡ (some u, looked_up)
      → IsErased u looked_up.store (handle_forget_me hash_secret true cookie "DELETE" now st)
  unfolding forget_me_of
  handle_forget_me-IsErased cookie now st looked_up u session =
      subst (IsErased u looked_up.store) (sym (erased_as cookie now st ∙ ap forget_me_of session))
        record {
          answer = refl;
          gone = forget_user-IsForgotten u.id looked_up.store;
          others = λ other ne owned. forget_user-IsUntouched u.id other looked_up.store ne owned;
        }
