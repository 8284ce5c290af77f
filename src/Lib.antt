-- ===== src/Lib.antt =====
-- CheckIn: a check-in service over calls and texts, in Go, and a model of the part of it that decides what
-- is stored, what is accepted and what is shown to whom.
--
-- The program keeps everything in one database. A person is a profile under a number (db.go). A number is
-- proved by a login code (auth.go), which opens a session whose token guards the pages with personal data.
-- A conversation, by voice or by text, walks through a checklist of questions (checklist.go), whose answers
-- are persisted one at a time. Wellness data is taken in under a consent for each kind (signals.go), repeated
-- deliveries are answered from the first (signals.go, ingest.go), calls are kept as transcripts
-- (transcripts.go), and events are suggested by rules that explain themselves (matching.go).
--
-- The files, and what they model:
-- - Sql: the statements of store_sql.go over one table, a list of rows in the order of insertion. Sql/Laws
--   and Sql/Order have the lemmas.
-- - Db: the rows of the tables and the store, which every operation takes and gives back.
-- - Prelude, Clock, Outcome, Str: shared notation; time.Time and time.Duration as nanoseconds on ℕ, from Go's
--   zero time; the program's errors; the functions of the package strings that the program calls.
-- - Auth/Codes: IssueLoginCode (issue_login_code), DiscardLoginCode, ConsumeLoginCode. Auth/Sessions:
--   StartAuthSession, AuthSessionUser, the revocations, the audit trail. Auth/Purge: PurgeExpiredAuth.
-- - Limiter: ipLimiter (take_hit is its method take) and throttleCode of auth_http.go.
-- - Interests: normaliseInterests, interestStem, InterestList. Matching: matching.go.
-- - Checklist/Template, Replies, Sessions, Answers: the questions, the reading of replies, EnsureSession with
--   what it carries forward, and RecordChecklistAnswer.
-- - Signals/Consents, Observations, Webhooks, Forget: signals.go, and StoreWebhookResponse of ingest.go.
-- - Users: the profile operations of db.go. Users/Calls: StartCall, EndCall, CallInProgress.
-- - Transcripts: the store's operations of transcripts.go.
-- - Scheduler: slotHours and DueNow of scheduler.go.
-- - Activity: the check-ins, messages, events and suggestions of db.go. Guarded: the tables that a
--   conversation has no business with.
-- - Json, Outside, Phone, Decimal: the JSON of answers, what the program asks of other programs (the
--   providers of texts, calls and the language model, the calendar feed, the packages that format and
--   encode), normalisePhone with the pattern of E.164, and numbers as texts.
-- - Brain/Suggest, Turns, Model: brain.go. Suggest has SaveCheckin, SuggestEvent and AcceptSuggestion, Turns
--   the introduction (onboarding_turn) and the checklist (interview_reply), Model the loop with the language
--   model and its tools (reply is Brain.Reply).
-- - Ics: the parser of calendar feeds of ics.go.
-- - VoiceContext: buildCallerContext and DynamicVariables of voice_context.go.
-- - Server/State: the state of the server, which is the store, the limiters, and what the providers took.
--   Server/SignIn and Verify: the handlers of auth_http.go. Server/Tools and Webhooks: ingest.go.
--   Server/Checkins: placeCall, checkinOn, TriggerCheckin, endCall, callState, and the scheduler's tick. Server/Dashboard:
--   handleCall, handleCheckinNow, handleSignup, handleTrigger, handleSettings and handleForgetMe.
--   Server/Inbox: handleSMS. Server/Voice: the voice tools of server.go. Server/Pages: the pages, and the
--   calls of the person who is signed in.
-- - Tests: concrete inputs at which the theorems are applied.
--
-- Conventions. An operation takes one reading of the clock, and gives the store back beside its result. A
-- profile that Go changes through a pointer is given back as well, beside an error too. The digest of
-- crypto/sha256, the random codes and tokens, the layout of times in a text, the calendar of Europe/London,
-- the database's LIKE, the HMAC of a signature, and the fields of Outside are parameters. A NULL user_id is
-- 0, which is the key of no row: keys start at 1. A time that the database sets is the operation's reading of
-- the clock. An object of JSON has its fields in the order in which the code enters them. Of the headers of a
-- response only the cookie of the session is kept. The loop with the language model has Go's bound of five
-- answers. Case and letters are those of ASCII. The database's statements succeed, and run one at a time: a
-- transaction is one step, and the race of two connections is not modelled. Recursion is on the list that Go loops over; the digits of a number
-- take the number itself as fuel, which is enough because each digit makes the rest smaller.
--
-- Not modelled: routing and templates, the providers' clients (Twilio, ElevenLabs, Anthropic), the goroutine
-- that warms the calendar and the timers that run a tick or a hang-up (the step that they run is modelled),
-- the calendar's cache and fetch (ics.go), events input (events.go), the sync of transcripts
-- (transcript_sync.go), metrics (timing.go), migrations and configuration.
pub mod Prelude
pub mod Clock
pub mod Outcome
pub mod Sql
pub mod Str
pub mod Db
pub mod Auth
pub mod Interests
pub mod Checklist
pub mod Signals
pub mod Users
pub mod Transcripts
pub mod Matching
pub mod Limiter
pub mod Scheduler
pub mod Decimal
pub mod Json
pub mod Outside
pub mod Phone
pub mod Server
pub mod Activity
pub mod Brain
pub mod VoiceContext
pub mod Guarded
pub mod Ics
pub mod Tests
