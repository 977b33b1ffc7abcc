-- ===== src/Lib.antt =====
-- ShaidaGo's platform service (services/platform): citizens report problems of public projects in
-- private, reviewers decide on the reports, and a report's history is append-only. This library
-- models the rules of the service and proves what they promise. Source paths in the modules are
-- written from the repository's root.
--
-- A report is a row of app.reports with a status, a version and a history of status events. Two
-- components write the history: a reviewer's decision (Report.Decision, `decide` of
-- services/platform/src/shaidago/review/decisions.py) and a reporter's answer to a follow-up question
-- (Report.FollowUp, `submit` of reports/follow_ups.py and the database function app.follow_up_submit
-- of migrations/versions/0013_follow_up_answers.py). Both use the tables of Report.Tables, with their
-- constraints and triggers, and seal what they store with the data keys of Crypto; the moves that
-- they may make are those of Report.Machine. What a caller is told is a problem of Problems.
--
-- - Base: tests, lists, results and text that the modules share; Text is a list of code points, and
--   only the white space of `str.strip()` is read off a character.
-- - Problems (shared/problems.py): the catalogue, `problem_for_status`.
-- - Crypto (shared/crypto.py, shared/data_keys.py): `encrypt`, `decrypt`, `field_context`, the key ring
--   with `wrap` and `unwrap`, and `create`, `load`, `load_many`, `find` and `destroy` of data keys (the
--   reads of several rows are in Crypto.Many), and `rotate` in Crypto.Rotation, which takes the
--   rows in the order of the list and finds none of them locked by another transaction. A new key meets
--   the checks, the primary key and the unique constraint of app.data_keys (migration 0009), and
--   Crypto.Shredding follows a destroyed key through later calls. AES-GCM is not part of the
--   repository: the record Aead states its round trip and the length of its output.
-- - Report.Machine (review/state_machine.py, and the pairs of migrations/versions/
--   0010_private_reports.py): the table of transitions, `find_transition`, `is_legal`.
-- - Report.Tables (migrations 0010, 0014 and 0015): rows, check constraints, foreign keys, the version
--   trigger `bump_report_version` and the deferred trigger `projection_holds`.
-- - Report.Decision: `clean`, `decide`, and `committed`, the unit of work around it.
-- - Report.Questions (review/follow_up_questions.py): `ask` and `withdraw_question`. Report.FollowUp reads
--   the same table, without the columns that an answer does not ask for.
-- - Report.FollowUp: `follow_up_submit`, statement by statement, and `submit`.
-- - Publication, the way from a verified report to what the public reads. A status change never publishes
--   (Report.Machine only leads to verified_for_public_update); a reviewer of Report.Decision drafts an
--   update, previews it and confirms the preview. Publication.Sources (sources/publication.py): what a
--   claim has to cite, `publication_gaps`, and the service that makes a claim public. Publication.Words
--   (review/private_references.py): words, shared runs of words and guarded terms. Publication.Tables
--   (migrations 0017 and 0004): the tables of drafts, sources and public rows, the triggers
--   `public_updates_guard` and `verify_citation_passage`, and app.publish_public_update.
--   Publication.Drafts and Publication.Preview (review/publication.py): `create_draft` and `withdraw`,
--   `build_preview` and `publish`. Publication.Lifecycle: the specification of an update's life that
--   the calls refine, the invariant of the tables, and what stays of an update that is settled. A preview takes from the record Surroundings the digest (JSON and SHA-256),
--   the order of labels in the database, and the findings of `find_private_references` on the
--   decrypted texts of a report, whose regular expressions are not modelled. A date is the number of its day.
-- - Pagination (shared/pagination.py): `encode_cursor`, `decode_cursor`, `build_page`; the record Codec
--   stands for base64, JSON, HMAC-SHA-256 and UUID texts, and IsLawful says what they are documented to
--   do. Pagination.Queue (review/queue.py, api/v1/reviewer_reports.py): the queue's query and its route,
--   a client of the cursors, and Pagination.Walk, a caller who reads it page after page; the fuel of
--   `walk` is the number of requests.
-- - Handle (reports/handles.py, reports/handle_store.py, migration 0012): `normalise_handle`,
--   `authenticate` and the functions of the database that count failures and close a handle for a
--   while. Password verification is a parameter. Attempts run one after another; the row is read
--   without a lock, and what attempts that overlap may do is not modelled.
-- - Idempotency (shared/idempotency.py, migration 0002): `claim`, `complete_record` and `purge` of the
--   database, `seal`, `unseal`, `begin` and `complete`. The keyed hash and the key derivation are
--   parameters. A purge takes its batch in the order of the list, which stands for any order of a scan.
-- - Worker.Machine (worker/machine.py): the table of a run's transitions and the moves that the trigger of
--   migration 0021 lets through. Worker.Store (worker/store.py): `acquire`, `load`, `transition`,
--   `progress` and `release` on the row of a run; each is a unit of work of its own, and what others do
--   to the row in between, and the clock, are given by the number of the unit of work. Worker.Process
--   (worker/process.py): `process_run`, with the stages as the interface Pipeline; its loop runs on a
--   fuel of four turns, which is enough since every turn brings the run forward.
-- - Tracking (reports/tracking.py): the alphabet, `luhn_mod32`, `generate`, `formatted`, `normalise`. The
--   upper case of a character outside ASCII is a parameter.
-- - RateLimit (shared/ratelimit.py): the script of the sliding window with the expiry of its key, and
--   `RedisRateLimiter.hit`, on milliseconds of the Redis clock.
-- - Session (auth/sessions.py): `issue`, `resolve`, `revoke_token` and `revoke_all` on the table of
--   sessions; the keyed hash of a token is a parameter.
-- An operation takes the tables and returns them, or an error that leaves the caller's tables as they
-- were, which is what a rolled-back transaction does. Row locks make the operations on one report run
-- one after another, so a sequence of operations is a sequence of calls. What the code draws from the
-- clock, the random source and the identifiers enters as a record of draws; an identifier drawn for an
-- audit row is taken as new. Times are microseconds. The only other fuel is that of `decimal`:
-- a number is written with at most as many digits as one more than itself.
--
-- Not modelled: reading for display, HTTP and its schemas, configuration and logging, seeding, the
-- services that the code calls (mail, search, language models, scanners) and the web frontend.
pub mod Base
pub mod Report
pub mod Worker
pub mod Tracking
pub mod RateLimit
pub mod Session
pub mod Crypto
pub mod Problems
pub mod Publication
pub mod Idempotency
pub mod Pagination
pub mod Handle
