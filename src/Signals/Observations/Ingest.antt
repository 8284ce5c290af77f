-- ===== src/Signals/Observations/Ingest.antt =====
-- What is stored, and that a revocation stops it.
use running_hackathon.Prelude.{
  ℕ, ◌+◌, ◌≤◌, ◌<◌, String, Bool, true, false, ◌&&◌, ◌≡◌, ◌≢◌, refl, ◌∙◌, some, arith, ltb, ◌==◌,
  str_eq, eq_iff, eq_refl, if◌then◌else◌, All, All-mono, lt→ltb,
}
use running_hackathon.Clock.{Time}
use running_hackathon.Outcome.{ok, err, no_consent}
use running_hackathon.Sql
use running_hackathon.Sql.Laws.{top-newest}
use running_hackathon.Db.{Signal, Store}
use running_hackathon.Str.{trim_space}
use running_hackathon.Signals.Consents.{
  signal_ttl, valid_signal_kind, consents, has_consent, set_consent,
}
use running_hackathon.Signals.Consents.Decisions.{decisions}
use running_hackathon.Signals.Consents.Scope.{GrantedBy, has_consent-set_consent}
use running_hackathon.Signals.Observations.{
  ttl_or_zero, stored, ingest_signal, is_signal_of, observed_later, latest_signal, unknown_reading,
}

unconsented :
    (user_id : ℕ) (sig : Signal) (now : Time) (s : Store)
    → valid_signal_kind sig.kind ≡ true
    → has_consent user_id sig.kind s ≡ false
    → ingest_signal user_id sig now s ≡ (err no_consent, s)
unfolding ingest_signal
unconsented user_id sig now s valid no_grant = rw (valid, no_grant)

unread :
    (show_time : Time → String) (user_id : ℕ) (kind : String) (now : Time) (s : Store)
    → has_consent user_id kind s ≡ false
    → latest_signal show_time user_id kind now s ≡ unknown_reading kind "no consent on file"
unfolding latest_signal
unread show_time user_id kind now s h = rw h

-- Right after a person revokes the consent for a known kind, an observation of that kind is refused
-- and not stored, and nothing that was stored before is read out, at any time: where the table has at
-- most one decision of the person on the kind, and no grant is later than the revocation.
pub revoke-ingest :
    (show_time : Time → String) (user_id : ℕ) (sig : Signal) (source : String) (at now : Time)
    (s : Store)
    → valid_signal_kind sig.kind ≡ true
    → decisions user_id sig.kind s ≤ 1
    → All (GrantedBy at) s.consents.rows
    → (ingest_signal user_id sig now (set_consent user_id sig.kind false source at s).1
        ≡ (err no_consent, (set_consent user_id sig.kind false source at s).1))
      × (latest_signal show_time user_id sig.kind now
            (set_consent user_id sig.kind false source at s).1
          ≡ unknown_reading sig.kind "no consent on file")
revoke-ingest show_time user_id sig source at now s valid unique grants =
    let revoked =
      has_consent-set_consent user_id user_id sig.kind sig.kind false source at s valid unique
        grants
      ∙ own_branch (has_consent user_id sig.kind s) in
    (
      unconsented user_id sig now (set_consent user_id sig.kind false source at s).1 valid revoked,
      unread show_time user_id sig.kind now (set_consent user_id sig.kind false source at s).1
          revoked,
    )
  where
    own_branch :
        (b : Bool) → (if (user_id == user_id) && str_eq sig.kind sig.kind then false else b) ≡ false
    own_branch b = ground (arith, eq_refl sig.kind)

-- What a stored observation has passed.
pub record IsAttributed (user_id : ℕ) (sig : Signal) (s : Store) : Type 0 where
  pub kind_known : valid_signal_kind sig.kind ≡ true
  pub consented : has_consent user_id sig.kind s ≡ true
  pub has_source : trim_space sig.source ≢ ""
  pub has_value : trim_space sig.value ≢ ""
  pub has_time : sig.observed_at ≢ 0

ingest-IsAttributed :
    (user_id : ℕ) (sig got : Signal) (now : Time) (s : Store)
    → (ingest_signal user_id sig now s).0 ≡ ok got
    → IsAttributed user_id sig s
      × (got ≡ stored user_id sig now s.signals.next_id)
      × ((ingest_signal user_id sig now s).1
          ≡ record s { signals = Sql.insert (stored user_id sig now) s.signals })
unfolding ingest_signal
ingest-IsAttributed user_id sig got now s h = (
  record {
    kind_known = ground arith;
    consented = ground arith;
    has_source = ground (arith, eq_iff (trim_space sig.source) "");
    has_value = ground (arith, eq_iff (trim_space sig.value) "");
    has_time = ground arith;
  },
  ground arith,
  ground arith,
)

consent_kept :
    (user_id : ℕ) (kind : String) (t : Sql.Table Signal) (s : Store)
    → has_consent user_id kind (record s { signals = t }) ≡ has_consent user_id kind s
unfolding has_consent consents
consent_kept user_id kind t s = refl

read_fresh :
    (show_time : Time → String) (user_id : ℕ) (sig : Signal) (now : Time) (t : Store)
    → has_consent user_id sig.kind t ≡ true
    → Sql.top observed_later (is_signal_of user_id sig.kind) t.signals.rows ≡ some sig
    → now < sig.expires_at
    → latest_signal show_time user_id sig.kind now t ≡ record {
      kind = sig.kind;
      known = true;
      value = sig.value;
      unit = sig.unit;
      source = sig.source;
      as_of = sig.observed_at;
      unknown = "";
    }
unfolding latest_signal
read_fresh show_time user_id sig now t consented found early =
    rw (consented, found, lt→ltb now sig.expires_at early)

read_inserted :
    (show_time : Time → String) (user_id : ℕ) (sig : Signal) (at now : Time) (s : Store)
    → has_consent user_id sig.kind s ≡ true
    → All
        (λ r. is_signal_of user_id sig.kind r ≡ true → r.observed_at < sig.observed_at)
        s.signals.rows
    → now < sig.observed_at + ttl_or_zero (signal_ttl sig.kind)
    → latest_signal show_time user_id sig.kind now
        (record s { signals = Sql.insert (stored user_id sig at) s.signals })
      ≡ record {
        kind = sig.kind;
        known = true;
        value = sig.value;
        unit = sig.unit;
        source = sig.source;
        as_of = sig.observed_at;
        unknown = "";
      }
read_inserted show_time user_id sig at now s consented newest early =
    read_fresh show_time user_id (stored user_id sig at s.signals.next_id) now
      (record s { signals = Sql.insert (stored user_id sig at) s.signals })
      (consent_kept user_id sig.kind (Sql.insert (stored user_id sig at) s.signals) s ∙ consented)
      (unfold Sql.insert in
        top-newest observed_later (is_signal_of user_id sig.kind) s.signals.rows
          (stored user_id sig at s.signals.next_id) (own user_id sig)
          (All-mono (λ r. is_signal_of user_id sig.kind r ≡ true → r.observed_at < sig.observed_at)
            (λ r. is_signal_of user_id sig.kind r ≡ true → ltb r.observed_at sig.observed_at ≡ true)
            (λ r k e. lt→ltb r.observed_at sig.observed_at (k e)) s.signals.rows newest))
      early
  where
    own : (user_id : ℕ) (sig : Signal) → ((user_id == user_id) && str_eq sig.kind sig.kind) ≡ true
    own user_id sig = ground (arith, eq_refl sig.kind)

-- An accepted observation has a known kind, an active consent, a source, a value and a time; and until its
-- time to live is over it is what is read out for that kind, with its value, unit, source and time, if every
-- observation of the kind on file was made earlier.
pub latest-ingest :
    (show_time : Time → String) (user_id : ℕ) (sig got : Signal) (at now : Time) (s : Store)
    → (ingest_signal user_id sig at s).0 ≡ ok got
    → All
        (λ r. is_signal_of user_id sig.kind r ≡ true → r.observed_at < sig.observed_at)
        s.signals.rows
    → now < sig.observed_at + ttl_or_zero (signal_ttl sig.kind)
    → IsAttributed user_id sig s
      × (latest_signal show_time user_id sig.kind now (ingest_signal user_id sig at s).1 ≡ record {
        kind = sig.kind;
        known = true;
        value = sig.value;
        unit = sig.unit;
        source = sig.source;
        as_of = sig.observed_at;
        unknown = "";
      })
latest-ingest show_time user_id sig got at now s h newest early =
    let (attributed, _, wrote) = ingest-IsAttributed user_id sig got at s h in
    (attributed, rw wrote (read_back attributed.consented))
  where
    read_back :
        has_consent user_id sig.kind s ≡ true
        → latest_signal show_time user_id sig.kind now
            (record s { signals = Sql.insert (stored user_id sig at) s.signals })
          ≡ record {
            kind = sig.kind;
            known = true;
            value = sig.value;
            unit = sig.unit;
            source = sig.source;
            as_of = sig.observed_at;
            unknown = "";
          }
    read_back consented = read_inserted show_time user_id sig at now s consented newest early
