-- ===== src/Signals/Observations/Retention.antt =====
-- The retention sweep of the observations: all that is past its window goes, and nothing that is fresh.
use running_hackathon.Prelude.{
  ℕ, ◌+◌, ◌≤◌, String, Bool, true, false, ◌&&◌, ◌≡◌, refl, sym, ◌∙◌, List, [], ◌∷◌, arith, eq_iff,
  All, All-mono,
}
use mathlib.Core.Path.{subst}
use running_hackathon.Clock.{Time, Duration}
use running_hackathon.Sql
use running_hackathon.Sql.Laws.{count-delete_same, count-delete_le, count-delete_zero, All-delete}
use running_hackathon.Db.{Signal, Store}
use running_hackathon.Signals.Consents.{signal_ttl}
use running_hackathon.Signals.Observations.{
  ttl_or_zero, is_fresh, is_signal_of, is_past, purge_kinds, signal_retention,
  purge_expired_signals,
}

-- The expiry that ingest_signal writes.
abbrev pub HasExpiry : Signal → Type 0
HasExpiry sig = sig.expires_at ≡ sig.observed_at + ttl_or_zero (signal_ttl sig.kind)

-- The window of a kind is at least its time to live.
abbrev OutlivesTtl : String × Duration → Type 0
OutlivesTtl rule = ttl_or_zero (signal_ttl rule.0) ≤ rule.1

abbrev pub fresh_of : ℕ → String → Time → Signal → Bool
fresh_of user_id kind now sig = is_signal_of user_id kind sig && is_fresh now sig

past_is_stale :
    (user_id : ℕ) (kind of : String) (keep : Duration) (now : Time) (sig : Signal)
    → OutlivesTtl (of, keep)
    → HasExpiry sig
    → is_past of keep now sig ≡ true
    → fresh_of user_id kind now sig ≡ false
past_is_stale user_id kind of keep now sig wide expiry past = stale (
    subst (λ (k : String). ttl_or_zero (signal_ttl k) ≤ keep) (sym (kind_is sig of keep now past))
      wide)
  where
    kind_is :
        (sig : Signal) (of : String) (keep : Duration) (now : Time)
        → is_past of keep now sig ≡ true
        → sig.kind ≡ of
    kind_is sig of keep now past = (eq_iff sig.kind of).0 (ground arith)

    stale : ttl_or_zero (signal_ttl sig.kind) ≤ keep → fresh_of user_id kind now sig ≡ false
    stale wide' = ground arith

purge_keeps_fresh :
    (rules : List (String × Duration)) (user_id : ℕ) (kind : String) (now : Time)
    (rows : List Signal)
    → All OutlivesTtl rules
    → All HasExpiry rows
    → Sql.count (fresh_of user_id kind now) (purge_kinds rules now rows)
      ≡ Sql.count (fresh_of user_id kind now) rows
unfolding purge_kinds
purge_keeps_fresh [] user_id kind now rows wide expiry = refl
purge_keeps_fresh ((of, keep) ∷ rules) user_id kind now rows (w, wide) expiry =
    purge_keeps_fresh rules user_id kind now (Sql.delete_rows (is_past of keep now) rows) wide
      (All-delete HasExpiry (is_past of keep now) rows expiry)
    ∙ count-delete_same (fresh_of user_id kind now) (is_past of keep now) rows (
        All-mono HasExpiry (λ r. is_past of keep now r ≡ true → fresh_of user_id kind now r ≡ false)
          (λ r e past. past_is_stale user_id kind of keep now r w e past) rows expiry)

purge-le :
    (rules : List (String × Duration)) (p : Signal → Bool) (now : Time) (rows : List Signal)
    → Sql.count p (purge_kinds rules now rows) ≤ Sql.count p rows
unfolding purge_kinds
purge-le [] p now rows = omega arith
purge-le ((of, keep) ∷ rules) p now rows = omega (
  arith,
  purge-le rules p now (Sql.delete_rows (is_past of keep now) rows),
  count-delete_le p (is_past of keep now) rows,
)

-- None of the rules finds a row any more.
abbrev pub NonePast : List (String × Duration) → Time → List Signal → Type 0
NonePast rules now rows =
    All (λ (rule : String × Duration). Sql.count (is_past rule.0 rule.1 now) rows ≡ 0) rules

purge-NonePast :
    (rules : List (String × Duration)) (now : Time) (rows : List Signal)
    → NonePast rules now (purge_kinds rules now rows)
unfolding purge_kinds
purge-NonePast [] now rows = tt
purge-NonePast ((of, keep) ∷ rules) now rows =
    let rest = Sql.delete_rows (is_past of keep now) rows in
    (
      omega (
        arith,
        purge-le rules (is_past of keep now) now rest,
        count-delete_zero (is_past of keep now) (is_past of keep now) (λ r h. h) rows,
      ),
      purge-NonePast rules now rest,
    )

-- Where every observation expires its kind's time to live after it was made, a sweep leaves no
-- observation of any kind past its retention window, and deletes no fresh observation of anybody.
pub purge_expired_signals-exact :
    (user_id : ℕ) (kind : String) (now : Time) (s : Store)
    → All HasExpiry s.signals.rows
    → NonePast signal_retention now (purge_expired_signals now s).1.signals.rows
      × (Sql.count (fresh_of user_id kind now) (purge_expired_signals now s).1.signals.rows
          ≡ Sql.count (fresh_of user_id kind now) s.signals.rows)
unfolding purge_expired_signals
purge_expired_signals-exact user_id kind now s expiry = (
  purge-NonePast signal_retention now s.signals.rows,
  purge_keeps_fresh signal_retention user_id kind now s.signals.rows windows_are_wide expiry,
)
  where
    windows_are_wide : All OutlivesTtl signal_retention
    windows_are_wide = unfold signal_ttl in omega arith
