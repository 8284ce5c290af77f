-- ===== src/Signals/Webhooks.antt =====
-- signals.go, RememberWebhook, and ingest.go, StoreWebhookResponse: a delivery that a provider repeats is
-- answered from the first one.
pub mod Cache
use running_hackathon.Prelude.{
  ℕ, String, Bool, true, false, ◌&&◌, ◌≡◌, refl, ap, ◌∙◌, ◌++◌, Option, none, some, [], ◌∷◌, arith,
  str_eq, eq_refl,
}
use running_hackathon.Sql
use running_hackathon.Sql.Laws.{first-last, first-update, none_of_first}
use running_hackathon.Db.{WebhookEvent, Store}

abbrev pub is_delivery : String → String → WebhookEvent → Bool
is_delivery endpoint key e = str_eq e.endpoint endpoint && str_eq e.idempotency_key key

abbrev pub delivered : String → String → ℕ → String → ℕ → WebhookEvent
delivered endpoint key user_id response id = record {
  endpoint = endpoint;
  idempotency_key = key;
  user_id = user_id;
  response = response;
}

pub remember : Option WebhookEvent → String → String → ℕ → String → Store → (Bool × String) × Store
remember (some e) endpoint key user_id response s = ((false, e.response), s)
remember none endpoint key user_id response s = (
  (true, ""),
  record s {
    webhook_events = Sql.insert (delivered endpoint key user_id response) s.webhook_events;
  },
)

-- Whether the delivery is the first, the answer that was cached, and the store. One connection at a time:
-- the insert that loses a race to another is not modelled.
unfoldable pub remember_webhook : String → String → ℕ → String → Store → (Bool × String) × Store
unfolding remember
remember_webhook endpoint key user_id response s =
    remember (Sql.first (is_delivery endpoint key) s.webhook_events.rows) endpoint key user_id
      response s

unfoldable pub store_webhook_response : String → String → String → Store → Store
store_webhook_response endpoint key response s = record s {
  webhook_events =
      Sql.update (is_delivery endpoint key) (λ e. record e { response = response })
        s.webhook_events;
}

pub remember_by :
    (o : Option WebhookEvent) (endpoint key : String) (user_id : ℕ) (response : String) (s : Store)
    → Sql.first (is_delivery endpoint key) s.webhook_events.rows ≡ o
    → remember_webhook endpoint key user_id response s ≡ remember o endpoint key user_id response s
unfolding remember_webhook
remember_by o endpoint key user_id response s h = rw h

pub own_delivery :
    (endpoint key : String) (user_id : ℕ) (response : String) (id : ℕ)
    → is_delivery endpoint key (delivered endpoint key user_id response id) ≡ true
own_delivery endpoint key user_id response id = ground (arith, eq_refl endpoint, eq_refl key)

first_is_new :
    (o : Option WebhookEvent) (endpoint key : String) (user_id : ℕ) (response : String) (s : Store)
    → (remember o endpoint key user_id response s).0.0 ≡ true
    → o ≡ none
unfolding remember
first_is_new none endpoint key user_id response s h = refl
first_is_new (some e) endpoint key user_id response s h = absurd (ground arith)

-- A delivery that was the first, and whose answer was then stored, is from then on a repeat: it is told so,
-- it gets that answer, and the store does not change, whatever the repeat carries.
pub webhook_replay :
    (endpoint key : String) (user_id again : ℕ) (response other answer : String) (s : Store)
    → (remember_webhook endpoint key user_id response s).0.0 ≡ true
    → remember_webhook endpoint key again other (
        store_webhook_response endpoint key answer
          (remember_webhook endpoint key user_id response s).1)
      ≡ (
        (false, answer),
        store_webhook_response endpoint key answer
            (remember_webhook endpoint key user_id response s).1,
      )
webhook_replay endpoint key user_id again response other answer s h =
    let nobody =
      first_is_new (Sql.first (is_delivery endpoint key) s.webhook_events.rows) endpoint key user_id
        response s (unfold remember_webhook in h) in
    let wrote = remember_by none endpoint key user_id response s nobody in
    let row = delivered endpoint key user_id response s.webhook_events.next_id in
    let answered = record row { response = answer } in
    rw wrote (
      remember_by (some answered) endpoint key again other
        (store_webhook_response endpoint key answer
          (remember none endpoint key user_id response s).1)
        (unfold store_webhook_response remember Sql.update Sql.insert in
          first-update (is_delivery endpoint key) (λ e. record e { response = answer }) (λ r k. k)
            (s.webhook_events.rows ++ row ∷ []) row
            (first-last (is_delivery endpoint key) s.webhook_events.rows row
              (none_of_first (is_delivery endpoint key) s.webhook_events.rows nobody)
              (own_delivery endpoint key user_id response s.webhook_events.next_id)))
      ∙ (unfold remember in refl))

first_delivery :
    (endpoint key : String) (user_id : ℕ) (response : String) (s : Store)
    → (remember_webhook endpoint key user_id response s).0.0 ≡ true
    → Sql.first (is_delivery endpoint key) s.webhook_events.rows ≡ none
first_delivery endpoint key user_id response s h =
    first_is_new (Sql.first (is_delivery endpoint key) s.webhook_events.rows) endpoint key user_id
      response s (unfold remember_webhook in h)

-- What a first delivery leaves, but for the deliveries: everything.
pub remember-store :
    (endpoint key : String) (user_id : ℕ) (response : String) (s : Store)
    → (remember_webhook endpoint key user_id response s).0.0 ≡ true
    → remember_webhook endpoint key user_id response s ≡ (
      (true, ""),
      record s {
        webhook_events = Sql.insert (delivered endpoint key user_id response) s.webhook_events;
      },
    )
unfolding remember
remember-store endpoint key user_id response s h =
    remember_by none endpoint key user_id response s
      (first_delivery endpoint key user_id response s h)

-- A delivery is a repeat as long as the deliveries stand as the first one left them.
pub remember_again :
    (endpoint key : String) (user_id again : ℕ) (response other : String) (s t : Store)
    → (remember_webhook endpoint key user_id response s).0.0 ≡ true
    → t.webhook_events ≡ Sql.insert (delivered endpoint key user_id response) s.webhook_events
    → remember_webhook endpoint key again other t ≡ ((false, response), t)
unfolding remember Sql.insert
remember_again endpoint key user_id again response other s t h same =
    let row = delivered endpoint key user_id response s.webhook_events.next_id in
    remember_by (some row) endpoint key again other t (
      ap (λ (e : Sql.Table WebhookEvent). Sql.first (is_delivery endpoint key) e.rows) same
      ∙ first-last (is_delivery endpoint key) s.webhook_events.rows row
          (none_of_first (is_delivery endpoint key) s.webhook_events.rows
            (first_delivery endpoint key user_id response s h))
          (own_delivery endpoint key user_id response s.webhook_events.next_id))

-- Once the answer to a first delivery is stored, a repeat gets it, as long as the deliveries stand.
pub remember_answered :
    (endpoint key : String) (user_id again : ℕ) (response other answer : String) (s t v : Store)
    → (remember_webhook endpoint key user_id response s).0.0 ≡ true
    → t.webhook_events ≡ Sql.insert (delivered endpoint key user_id response) s.webhook_events
    → v.webhook_events ≡ (store_webhook_response endpoint key answer t).webhook_events
    → remember_webhook endpoint key again other v ≡ ((false, answer), v)
unfolding remember store_webhook_response Sql.update Sql.insert
remember_answered endpoint key user_id again response other answer s t v h wrote same =
    let row = delivered endpoint key user_id response s.webhook_events.next_id in
    let keep = λ (e : WebhookEvent). record e { response = answer } in
    remember_by (some (keep row)) endpoint key again other v (
      ap (λ (e : Sql.Table WebhookEvent). Sql.first (is_delivery endpoint key) e.rows) same
      ∙ ap
          (λ (e : Sql.Table WebhookEvent).
            Sql.first (is_delivery endpoint key)
              (Sql.update_rows (is_delivery endpoint key) keep e.rows))
          wrote
      ∙ first-update (is_delivery endpoint key) keep (λ r k. k) (s.webhook_events.rows ++ row ∷ [])
          row
          (first-last (is_delivery endpoint key) s.webhook_events.rows row
            (none_of_first (is_delivery endpoint key) s.webhook_events.rows
              (first_delivery endpoint key user_id response s h))
            (own_delivery endpoint key user_id response s.webhook_events.next_id)))
