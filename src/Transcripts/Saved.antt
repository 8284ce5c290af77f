-- ===== src/Transcripts/Saved.antt =====
-- A call is one row, whichever of the webhook and the sync delivers it and however often.
use running_hackathon.Prelude.{
  ℕ, ◌+◌, ◌≤◌, sym, ap, String, true, false, ◌&&◌, ◌≡◌, arith, ◌==◌, leb, str_eq, eq_iff,
  Bool-cases, inl, inr, if◌then◌else◌,
}
use mathlib.Core.Path.{subst}
use running_hackathon.Clock.{Time}
use running_hackathon.Str.{trim_space}
use running_hackathon.Sql
use running_hackathon.Sql.Laws.{count-snoc, count-update_eq}
use running_hackathon.Db.{Transcript, Store}
use running_hackathon.Transcripts.{
  is_conversation, completed, written, kept_owner, write_transcript, save_transcript,
}

abbrev pub copies : String → Store → ℕ
copies conversation s = Sql.count (is_conversation conversation) s.transcripts.rows

same_call :
    (conversation : String) (t r : Transcript)
    → is_conversation t.conversation_id r ≡ true
    → str_eq t.conversation_id conversation ≡ is_conversation conversation r
same_call conversation t r e =
    ap (λ (c : String). str_eq c conversation)
      (sym ((eq_iff r.conversation_id t.conversation_id).0 e))

insert-copies :
    (conversation : String) (t : Transcript) (now : Time) (s : Store)
    → leb 1 (copies t.conversation_id s) ≡ false
    → copies conversation s ≤ 1
    → Sql.count
        (is_conversation conversation)
        (Sql.insert (written t now t.user_id) s.transcripts).rows
      ≤ 1
unfolding Sql.insert
insert-copies conversation t now s new h =
    elim (Bool-cases (str_eq t.conversation_id conversation)) [
      | inl same ↦ fresh same (count-snoc (is_conversation conversation) s.transcripts.rows _) (
          subst (λ (c : String). leb 1 (copies c s) ≡ false)
            ((eq_iff t.conversation_id conversation).0 same) new)
      | inr other ↦ beside other (count-snoc (is_conversation conversation) s.transcripts.rows _)
    ]
  where
    fresh :
        {n : ℕ}
        → str_eq t.conversation_id conversation ≡ true
        → n ≡ copies conversation s + (if str_eq t.conversation_id conversation then 1 else 0)
        → leb 1 (copies conversation s) ≡ false
        → n ≤ 1
    fresh same e none_here = ground arith

    beside :
        {n : ℕ}
        → str_eq t.conversation_id conversation ≡ false
        → n ≡ copies conversation s + (if str_eq t.conversation_id conversation then 1 else 0)
        → n ≤ 1
    beside other e = ground arith

write-copies :
    (conversation : String) (t : Transcript) (now : Time) (s : Store)
    → copies conversation s ≤ 1
    → copies conversation (write_transcript t now s).1 ≤ 1
unfolding write_transcript Sql.update
write-copies conversation t now s h = elim (Bool-cases (leb 1 (copies t.conversation_id s))) [
  | inl known ↦ rw known (
      subst (λ n. n ≤ 1)
        (sym (
          count-update_eq (is_conversation conversation) (is_conversation t.conversation_id)
            (λ r. written t now (kept_owner t.user_id r.user_id) r.id) (same_call conversation t)
            s.transcripts.rows))
        h)
  | inr new ↦ rw new (insert-copies conversation t now s new h)
]

-- However a call is delivered, a conversation of which the store holds at most one copy has at most
-- one copy after it.
pub save_transcript-one :
    (conversation : String) (t : Transcript) (now : Time) (s : Store)
    → copies conversation s ≤ 1
    → copies conversation (save_transcript t now s).1 ≤ 1
unfolding save_transcript
save_transcript-one conversation t now s h =
    elim (Bool-cases ((t.user_id == 0) && str_eq (trim_space t.phone) "")) [
      | inl e ↦ rw e h
      | inr e ↦ rw e (elim (Bool-cases (str_eq (trim_space t.conversation_id) "")) [
        | inl f ↦ rw f h
        | inr f ↦ rw f (write-copies conversation (completed now t) now s h)
      ])
    ]
