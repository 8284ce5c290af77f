-- ===== src/Signals/Webhooks/Cache.antt =====
-- signals.go, ingest.go: the deliveries as a cache of answers, and the statements on the table as its
-- operations.
use running_hackathon.Prelude.{
  ℕ, String, Bool, true, false, ◌&&◌, ◌≡◌, refl, sym, ap, ◌∙◌, ◌++◌, inl, inr, Bool-cases, Option,
  none, some, List, [], ◌∷◌, arith, str_eq, eq_iff, eq_refl, if◌then◌else◌, is_some,
}
use mathlib.Core.Path.{fun_ext, subst}
use running_hackathon.Sql
use running_hackathon.Sql.Laws.{first-last, first-update, first-update_none, none_of_first}
use running_hackathon.Db.{WebhookEvent, Store}
use running_hackathon.Signals.Webhooks.{
  is_delivery, delivered, remember, remember_by, own_delivery, remember_webhook,
  store_webhook_response,
}

-- What an endpoint answered to a key, if it came before.
abbrev pub Cache : Type 0
Cache = String → String → Option String

answer_of : Option WebhookEvent → Option String
answer_of none = none
answer_of (some e) = some e.response

-- The cache that the table stands for.
pub cached : Store → Cache
unfolding answer_of
cached s endpoint key = answer_of (Sql.first (is_delivery endpoint key) s.webhook_events.rows)

abbrev same_key : String → String → String → String → Bool
same_key endpoint key e k = str_eq endpoint e && str_eq key k

-- The calls of the program, and what each does to a cache.
pub data Call : Type 0 where
  arrived : String → String → ℕ → String → Call
  answered : String → String → String → Call

pub entered : Option String → String → String
entered none response = response
entered (some answer) response = answer

pub spec_call : Call → Cache → Cache
unfolding entered
spec_call (arrived endpoint key user_id response) m =
    λ e k. if same_key endpoint key e k then some (entered (m endpoint key) response) else m e k
spec_call (answered endpoint key response) m =
    λ e k. if same_key endpoint key e k && is_some (m endpoint key) then some response else m e k

told : Option String → Bool × String
told none = (true, "")
told (some answer) = (false, answer)

-- What the caller is told: whether the delivery is the first, and the answer that was kept.
pub spec_told : Call → Cache → Option (Bool × String)
unfolding told
spec_told (arrived endpoint key user_id response) m = some (told (m endpoint key))
spec_told (answered endpoint key response) m = none

pub code_call : Call → Store → Store
code_call (arrived endpoint key user_id response) s =
    (remember_webhook endpoint key user_id response s).1
code_call (answered endpoint key response) s = store_webhook_response endpoint key response s

pub code_told : Call → Store → Option (Bool × String)
code_told (arrived endpoint key user_id response) s =
    some (remember_webhook endpoint key user_id response s).0
code_told (answered endpoint key response) s = none

pub code_calls : List Call → Store → List (Option (Bool × String)) × Store
code_calls [] s = ([], s)
code_calls (c ∷ cs) s = let rest = code_calls cs (code_call c s) in (code_told c s ∷ rest.0, rest.1)

pub spec_calls : List Call → Cache → List (Option (Bool × String)) × Cache
spec_calls [] m = ([], m)
spec_calls (c ∷ cs) m = let rest = spec_calls cs (spec_call c m) in (spec_told c m ∷ rest.0, rest.1)

true_is_not_false : ◌≡◌ {A = Bool} true false → ⊥
true_is_not_false e = cc

key_of : (endpoint key e k : String) → same_key endpoint key e k ≡ true → (endpoint ≡ e) × (key ≡ k)
key_of endpoint key e k h = ((eq_iff endpoint e).0 (ground arith), (eq_iff key k).0 (ground arith))

-- A row of one key is no row of another.
other_row :
    (endpoint key e k : String) (r : WebhookEvent)
    → same_key endpoint key e k ≡ false
    → is_delivery e k r ≡ true
    → is_delivery endpoint key r ≡ false
other_row endpoint key e k r h hr = elim (Bool-cases (is_delivery endpoint key r)) [
  | inr other ↦ other
  | inl here ↦
      let (a, b) = key_of r.endpoint r.idempotency_key endpoint key here in
      let (c, d) = key_of r.endpoint r.idempotency_key e k hr in
      absurd (
        true_is_not_false (
          sym (ground (arith, (eq_iff endpoint e).1 (sym a ∙ c), (eq_iff key k).1 (sym b ∙ d)))
          ∙ h))
]

true_same : (endpoint key : String) → same_key endpoint key endpoint key ≡ true
true_same endpoint key = ground (arith, eq_refl endpoint, eq_refl key)

-- An insertion is seen under its own key, where nothing was there, and nowhere else.
first_grown :
    (p : WebhookEvent → Bool) (rs : List WebhookEvent) (r : WebhookEvent)
    → p r ≡ false
    → Sql.first p (rs ++ r ∷ []) ≡ Sql.first p rs
unfolding Sql.first
first_grown p [] r h = ground arith
first_grown p (x ∷ rs) r h = ground (arith, first_grown p rs r h)

first_kept :
    (p q : WebhookEvent → Bool) (f : WebhookEvent → WebhookEvent) (rs : List WebhookEvent)
    → ((r : WebhookEvent) → p r ≡ true → q r ≡ false)
    → ((r : WebhookEvent) → p (f r) ≡ p r)
    → Sql.first p (Sql.update_rows q f rs) ≡ Sql.first p rs
unfolding Sql.first Sql.update_rows
first_kept p q f [] h g = refl
first_kept p q f (x ∷ rs) h g = ground (arith, h x, g x, first_kept p q f rs h g)

-- Two caches agree where they agree at the key and at every other.
by_key :
    (m n : Cache) (endpoint key : String)
    → m endpoint key ≡ n endpoint key
    → ((e k : String) → same_key endpoint key e k ≡ false → m e k ≡ n e k)
    → m ≡ n
by_key m n endpoint key here elsewhere = fun_ext (λ e. fun_ext (λ k.
    elim (Bool-cases (same_key endpoint key e k)) [
      | inr other ↦ elsewhere e k other
      | inl same ↦
          let (a, b) = key_of endpoint key e k same in
          subst (λ (d : String). m d k ≡ n d k) a
            (subst (λ (d : String). m endpoint d ≡ n endpoint d) b here)
    ]))

module _ (endpoint key : String) (user_id : ℕ) (response : String) (s : Store) where
  after_arrival : Option WebhookEvent → Store
  after_arrival o = (remember o endpoint key user_id response s).1

  arrived-here :
      (o : Option WebhookEvent)
      → Sql.first (is_delivery endpoint key) s.webhook_events.rows ≡ o
      → cached (after_arrival o) endpoint key ≡ some (entered (answer_of o) response)
  unfolding cached after_arrival remember answer_of entered Sql.insert
  arrived-here none h =
      rw
        (first-last (is_delivery endpoint key) s.webhook_events.rows
          (delivered endpoint key user_id response s.webhook_events.next_id)
          (none_of_first (is_delivery endpoint key) s.webhook_events.rows h)
          (own_delivery endpoint key user_id response s.webhook_events.next_id))
        refl
  arrived-here (some row) h = rw h refl

  arrived-elsewhere :
      (o : Option WebhookEvent) (e k : String)
      → same_key endpoint key e k ≡ false
      → cached (after_arrival o) e k ≡ cached s e k
  unfolding cached after_arrival remember Sql.insert
  arrived-elsewhere none e k h = ap answer_of (
      first_grown (is_delivery e k) s.webhook_events.rows
        (delivered endpoint key user_id response s.webhook_events.next_id) h)
  arrived-elsewhere (some row) e k h = refl

  told_by :
      (o : Option WebhookEvent)
      → (remember o endpoint key user_id response s).0 ≡ told (answer_of o)
  unfolding remember told answer_of
  told_by none = refl
  told_by (some row) = refl

answered-here :
    (o : Option WebhookEvent) (endpoint key response : String) (s : Store)
    → Sql.first (is_delivery endpoint key) s.webhook_events.rows ≡ o
    → cached (store_webhook_response endpoint key response s) endpoint key
      ≡ (if is_some (answer_of o) then some response else answer_of o)
unfolding cached store_webhook_response Sql.update answer_of
answered-here none endpoint key response s h =
    rw
      (first-update_none (is_delivery endpoint key) (λ e. record e { response = response })
        s.webhook_events.rows h)
      refl
answered-here (some row) endpoint key response s h =
    rw
      (first-update (is_delivery endpoint key) (λ e. record e { response = response }) (λ r g. g)
        s.webhook_events.rows row h)
      refl

answered-elsewhere :
    (endpoint key response : String) (s : Store) (e k : String)
    → same_key endpoint key e k ≡ false
    → cached (store_webhook_response endpoint key response s) e k ≡ cached s e k
unfolding cached store_webhook_response Sql.update
answered-elsewhere endpoint key response s e k h = ap answer_of (
    first_kept (is_delivery e k) (is_delivery endpoint key) (λ r. record r { response = response })
      s.webhook_events.rows (λ r. other_row endpoint key e k r h) (λ r. refl))

spec-here : (c : Bool) (a b : Option String) → c ≡ true → (if c then a else b) ≡ a
spec-here c a b h = rw h refl

spec-elsewhere : (c : Bool) (a b : Option String) → c ≡ false → (if c then a else b) ≡ b
spec-elsewhere c a b h = rw h refl

call_refines : (c : Call) (s : Store) → cached (code_call c s) ≡ spec_call c (cached s)
unfolding code_call spec_call cached remember after_arrival
call_refines (arrived endpoint key user_id response) s =
    let wrote =
      remember_by (Sql.first (is_delivery endpoint key) s.webhook_events.rows) endpoint key user_id
        response s refl in
    by_key _ _ endpoint key
      (ap (λ (r : (Bool × String) × Store). cached r.1 endpoint key) wrote
        ∙ arrived-here endpoint key user_id response s _ refl
        ∙ sym (spec-here (same_key endpoint key endpoint key) _ _ (true_same endpoint key)))
      (λ e k h.
        ap (λ (r : (Bool × String) × Store). cached r.1 e k) wrote
        ∙ arrived-elsewhere endpoint key user_id response s _ e k h
        ∙ sym (spec-elsewhere (same_key endpoint key e k) _ _ h))
call_refines (answered endpoint key response) s =
    by_key _ _ endpoint key
      (answered-here _ endpoint key response s refl
        ∙ ap
            (λ (b : Bool).
              if b && is_some (cached s endpoint key) then some response else cached s endpoint key)
            (sym (true_same endpoint key)))
      (λ e k h.
        answered-elsewhere endpoint key response s e k h
        ∙ ap
            (λ (b : Bool).
              if b && is_some (cached s endpoint key) then some response else cached s e k)
            (sym h))

told_refines : (c : Call) (s : Store) → code_told c s ≡ spec_told c (cached s)
unfolding code_told spec_told cached remember_webhook remember
told_refines (arrived endpoint key user_id response) s =
    ap some (told_by endpoint key user_id response s _)
told_refines (answered endpoint key response) s = refl

-- Any sequence of the statements on the deliveries tells its callers what the cache tells, and leaves a table
-- that stands for what the cache holds: a key is taken by its first delivery, keeps its answer until another
-- is stored for it, and no other key changes.
pub calls_refine :
    (cs : List Call) (s : Store)
    → ((code_calls cs s).0 ≡ (spec_calls cs (cached s)).0)
      × (cached (code_calls cs s).1 ≡ (spec_calls cs (cached s)).1)
unfolding code_calls spec_calls
calls_refine [] s = (refl, refl)
calls_refine (c ∷ cs) s =
    let (said, kept) = calls_refine cs (code_call c s) in
    rw (sym (call_refines c s)) (
      rw (sym (told_refines c s))
        (ap (λ (l : List (Option (Bool × String))). code_told c s ∷ l) said, kept))
