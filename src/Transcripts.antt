-- ===== src/Transcripts.antt =====
-- transcripts.go: what people said on their calls, kept under one owner each. The database's LIKE is the
-- parameter `like` (a pattern, then a text). A page and an offset are numbers from 0 up, so that the
-- guard on a negative offset has no case here.
pub mod Owned
pub mod Saved
use running_hackathon.Prelude.{
  ℕ, ◌+◌, ◌*◌, ◌/◌, String, Bool, true, false, not, ◌&&◌, ◌||◌, Option, none, some, List, [], ◌∷◌,
  length, take, drop, ltb, leb, ◌==◌, str_eq, if◌then◌else◌,
}
use running_hackathon.Clock.{Time, Duration, second, day, is_zero_time}
use running_hackathon.Outcome.{Result, ok, err, message}
use running_hackathon.Str.{trim_space, to_lower, ◌+s◌}
use running_hackathon.Sql
use running_hackathon.Db.{Transcript, Store}
use running_hackathon.Users.{phone_of_user, is_phone}

abbrev pub transcript_from_webhook : String
transcript_from_webhook = "webhook"

abbrev pub transcript_from_sync : String
transcript_from_sync = "sync"

abbrev pub transcript_retention : Duration
transcript_retention = 90 * day

abbrev pub is_conversation : String → Transcript → Bool
is_conversation conversation t = str_eq t.conversation_id conversation

-- The defaults of a start time and a source that the caller left out.
abbrev pub completed : Time → Transcript → Transcript
completed now t = record t {
  started_at = if is_zero_time t.started_at then now else t.started_at;
  source = if str_eq t.source "" then transcript_from_webhook else t.source;
}

-- The columns that both statements write; the length is kept in whole seconds.
abbrev pub written : Transcript → Time → ℕ → ℕ → Transcript
written t now owner id = record t {
  id = id;
  user_id = owner;
  duration = t.duration / second * second;
  received_at = now;
}

-- COALESCE(?, user_id), where 0 is NULL.
abbrev pub kept_owner : ℕ → ℕ → ℕ
kept_owner given before = if given == 0 then before else given

-- The UPDATE on the provider's id of the call, and the INSERT where it touched no row.
unfoldable pub write_transcript : Transcript → Time → Store → Transcript × Store
write_transcript t now s =
    if leb 1 (Sql.count (is_conversation t.conversation_id) s.transcripts.rows)
    then (
      t,
      record s {
        transcripts =
            Sql.update (is_conversation t.conversation_id)
              (λ r. written t now (kept_owner t.user_id r.user_id) r.id) s.transcripts;
      },
    )
    else (
      record t { id = s.transcripts.next_id },
      record s { transcripts = Sql.insert (written t now t.user_id) s.transcripts },
    )

unfoldable pub save_transcript : Transcript → Time → Store → Result Transcript × Store
save_transcript t now s =
    if (t.user_id == 0) && str_eq (trim_space t.phone) ""
    then (err (message "transcript needs an owner or a number"), s)
    else if str_eq (trim_space t.conversation_id) ""
    then (err (message "transcript needs a conversation id"), s)
    else let saved = write_transcript (completed now t) now s in (ok saved.0, saved.1)

-- transcriptOwned: attached to the profile, or unowned under the number of the profile. A NULL user_id is 0,
-- and as in SQL it equals nothing.
unfoldable pub is_owned : ℕ → Option String → Transcript → Bool
is_owned user_id phone t =
    (not (t.user_id == 0) && (t.user_id == user_id))
    || ((t.user_id == 0) && not (str_eq t.phone "") && is_phone phone t.phone)

-- ORDER BY started_at DESC, id DESC
abbrev pub newer_call : Transcript → Transcript → Bool
newer_call a b = ltb b.started_at a.started_at || ((a.started_at == b.started_at) && ltb b.id a.id)

abbrev pub page_size : ℕ → ℕ
page_size limit = if (limit == 0) || ltb 100 limit then 20 else limit

unfoldable pub mentions : (String → String → Bool) → String → Transcript → Bool
mentions like query t =
    str_eq (trim_space query) ""
    || like ("%" +s to_lower (trim_space query) +s "%") (to_lower t.body)
    || like ("%" +s to_lower (trim_space query) +s "%") (to_lower t.summary)

abbrev pub found : (String → String → Bool) → ℕ → String → Store → Transcript → Bool
found like user_id query s t = is_owned user_id (phone_of_user user_id s) t && mentions like query t

-- One page of a person's calls, and how many there are on all pages.
unfoldable pub transcripts :
    (String → String → Bool) → ℕ → String → ℕ → ℕ → Store → List Transcript × ℕ
transcripts like user_id query limit offset s = (
  take (page_size limit) (
      drop offset
        (Sql.order_by newer_call (Sql.select (found like user_id query s) s.transcripts.rows))),
  Sql.count (found like user_id query s) s.transcripts.rows,
)

abbrev pub is_call_of : ℕ → ℕ → Store → Transcript → Bool
is_call_of user_id id s t = (t.id == id) && is_owned user_id (phone_of_user user_id s) t

unfoldable pub transcript : ℕ → ℕ → Store → Option Transcript
transcript user_id id s = Sql.first (is_call_of user_id id s) s.transcripts.rows

unfoldable pub delete_transcript : ℕ → ℕ → Store → Bool × Store
delete_transcript user_id id s = (
  leb 1 (Sql.count (is_call_of user_id id s) s.transcripts.rows),
  record s { transcripts = Sql.delete (is_call_of user_id id s) s.transcripts },
)

-- started_at < now.Add(-transcriptRetention)
abbrev pub is_old_call : Time → Transcript → Bool
is_old_call now t = ltb (t.started_at + transcript_retention) now

unfoldable pub purge_expired_transcripts : Time → Store → ℕ × Store
purge_expired_transcripts now s = (
  Sql.count (is_old_call now) s.transcripts.rows,
  record s { transcripts = Sql.delete (is_old_call now) s.transcripts },
)
