-- ===== src/Signals/Observations.antt =====
-- signals.go, the observations: Fresh, IngestSignal, LatestSignal, Readings, PurgeExpiredSignals. `show_time`
-- stands for the formatting of a time in Europe/London.
pub mod Ingest
pub mod Retention
use running_hackathon.Prelude.{
  ℕ, ◌+◌, ◌*◌, String, Bool, true, false, not, ◌&&◌, Option, none, some, List, [], ◌∷◌, ltb, leb,
  ◌==◌, str_eq, if◌then◌else◌,
}
use running_hackathon.Clock.{Time, Duration, day, is_zero_time}
use running_hackathon.Outcome.{Result, ok, err, message, no_consent}
use running_hackathon.Sql
use running_hackathon.Db.{Signal, Store}
use running_hackathon.Str.{trim_space, ◌+s◌}
use running_hackathon.Signals.Consents.{
  kind_heart_rate, kind_location, kind_calendar, kind_commitments, signal_ttl, valid_signal_kind,
  has_consent,
}

-- Signal.Fresh
abbrev pub is_fresh : Time → Signal → Bool
is_fresh now sig = ltb now sig.expires_at

-- A missing key of a Go map reads as zero.
abbrev pub ttl_or_zero : Option Duration → Duration
ttl_or_zero none = 0
ttl_or_zero (some d) = d

abbrev pub stored : ℕ → Signal → Time → ℕ → Signal
stored user_id sig now id = record sig {
  id = id;
  user_id = user_id;
  ingested_at = now;
  expires_at = sig.observed_at + ttl_or_zero (signal_ttl sig.kind);
}

unfoldable pub ingest_signal : ℕ → Signal → Time → Store → Result Signal × Store
ingest_signal user_id sig now s =
    if not (valid_signal_kind sig.kind)
    then (err (message ("unknown signal kind " +s sig.kind)), s)
    else if not (has_consent user_id sig.kind s)
    then (err no_consent, s)
    else if str_eq (trim_space sig.source) ""
    then (err (message "signal needs a source"), s)
    else if str_eq (trim_space sig.value) ""
    then (err (message "signal needs a value"), s)
    else if is_zero_time sig.observed_at
    then (err (message "signal needs an observed_at timestamp"), s)
    else (
      ok (stored user_id sig now s.signals.next_id),
      record s { signals = Sql.insert (stored user_id sig now) s.signals },
    )

pub record Reading : Type 0 where
  pub kind : String
  pub known : Bool
  pub value : String
  pub unit : String
  pub source : String
  pub as_of : Time
  pub unknown : String

abbrev pub unknown_reading : String → String → Reading
unknown_reading kind why = record {
  kind = kind;
  known = false;
  value = "";
  unit = "";
  source = "";
  as_of = 0;
  unknown = why;
}

-- WHERE user_id=? AND kind=?
abbrev pub is_signal_of : ℕ → String → Signal → Bool
is_signal_of user_id kind sig = (sig.user_id == user_id) && str_eq sig.kind kind

-- ORDER BY observed_at DESC, which leaves open which of two rows of one time comes first: here the one that
-- was inserted first, as the index of the repository has it.
abbrev pub observed_later : Signal → Signal → Bool
observed_later s r = ltb r.observed_at s.observed_at

module _ (show_time : Time → String) where
  read_signal : String → Time → Option Signal → Reading
  read_signal kind now none = unknown_reading kind "no data received"
  read_signal kind now (some sig) =
      if not (is_fresh now sig)
      then unknown_reading kind ("stale, last observed " +s show_time sig.observed_at)
      else record {
        kind = kind;
        known = true;
        value = sig.value;
        unit = sig.unit;
        source = sig.source;
        as_of = sig.observed_at;
        unknown = "";
      }

  unfoldable pub latest_signal : ℕ → String → Time → Store → Reading
  unfolding read_signal
  latest_signal user_id kind now s =
      if not (has_consent user_id kind s)
      then unknown_reading kind "no consent on file"
      else read_signal kind now (Sql.top observed_later (is_signal_of user_id kind) s.signals.rows)

  -- The keys of signalTTL, sorted.
  unfoldable pub readings : ℕ → Time → Store → List Reading
  unfolding latest_signal
  readings user_id now s =
      latest_signal user_id kind_calendar now s
      ∷ latest_signal user_id kind_commitments now s
      ∷ latest_signal user_id kind_heart_rate now s
      ∷ latest_signal user_id kind_location now s
      ∷ []

-- signalRetention
abbrev pub signal_retention : List (String × Duration)
signal_retention =
    (kind_heart_rate, 7 * day)
    ∷ (kind_location, day)
    ∷ (kind_calendar, 7 * day)
    ∷ (kind_commitments, 30 * day)
    ∷ []

-- WHERE kind=? AND observed_at < now - keep
abbrev pub is_past : String → Duration → Time → Signal → Bool
is_past kind keep now sig = str_eq sig.kind kind && ltb (sig.observed_at + keep) now

purge_kinds : List (String × Duration) → Time → List Signal → List Signal
purge_kinds [] now rows = rows
purge_kinds ((kind, keep) ∷ rules) now rows =
    purge_kinds rules now (Sql.delete_rows (is_past kind keep now) rows)

count_kinds : List (String × Duration) → Time → List Signal → ℕ
count_kinds [] now rows = 0
count_kinds ((kind, keep) ∷ rules) now rows =
    Sql.count (is_past kind keep now) rows
    + count_kinds rules now (Sql.delete_rows (is_past kind keep now) rows)

-- The number of rows deleted, and the store.
unfoldable pub purge_expired_signals : Time → Store → ℕ × Store
unfolding purge_kinds count_kinds
purge_expired_signals now s = (
  count_kinds signal_retention now s.signals.rows,
  record s {
    signals = record s.signals { rows = purge_kinds signal_retention now s.signals.rows };
  },
)
