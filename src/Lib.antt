-- ===== src/Lib.antt =====
-- localmail archives IMAP mailboxes in Postgres and serves the archive to readers over HTTP and
-- MCP. This library models the parts of the Python package src/localmail that decide what becomes
-- of a message or of a credential, and the small rules that pace its workers.
--
-- The parts, how they correspond to the code, and how they interact:
--
-- Sync models the pass over one mailbox.
--   Sync/Uids     src/localmail/uids.py: synthetic UIDs, and the resume point of a pass.
--   Sync/Store    the tables that the pass reads and writes, as lists of records.
--   Sync/Holds    src/localmail/fetch_retry.py: the rows of transient_fetches, which hold the
--                 resume point at a UID whose body does not come, and become tombstones.
--   Sync/Order    _filter_new_uids, sorted and _batches of src/localmail/sync.py.
--   Sync/Messages upsert_message, upsert_label, process_one_message, record_failed_message.
--   Sync/Env      what the server and Postgres answer in one pass, and the variables of the loop.
--   Sync/Pass     sync_mailbox: `step` is the body of the loop for one UID, `checkpoint` the end of
--                 a batch, `sync_batches` the loop over batches with its commits.
--   Sync/Retry    retry_failed_messages.
-- The state of a pass is the record Pass around the record Db. A batch that raises gives back the
-- Db that was committed before it. An exception is a value of Fault: contention aborts the pass,
-- any other is recorded with the message. A savepoint that is rolled back leaves the Db as it was.
--
-- Oauth models src/localmail/mcp/oauth/refresh.py and codes.py, over the predicate of
-- src/localmail/api/revocation_sql.py. What other sessions commit between the statements of a
-- rotation is a function on the store for each gap (the record Gaps). Oauth/Refresh/Rotation is on
-- what it takes to mint a token, Replay on a token presented twice, Successor on the new token.
--
-- Auth models src/localmail/api/auth.py and the routes of src/localmail/serve/routes/auth.py, with
-- revoke_key of src/localmail/api/admin/api_keys.py and mint_access of
-- src/localmail/mcp/oauth/access.py.
--   Auth/Store    the tables, the settings of AuthConfig, and the record Worker: what is committed,
--                 what the open transaction sees, and when the process last swept.
--   Auth/Limits   record_login_attempt, _sweep_login_attempts, _maybe_sweep and
--                 check_login_rate_limits; Limits/Window is on what a later login counts.
--   Auth/Tokens   issue_token, verify_token, whoami, logout, refresh_token, change_password,
--                 create_user, mint_access and revoke_key; Tokens/Refresh is on the token that a
--                 refresh gives.
--   Auth/Login    login and its route, which commits or rolls back; Login/Audit is on what is left
--                 committed, Login/Lockout on a sequence of guesses.
--   Auth/Keys     the invariant on tokens and keys, by operation (Keys/Steps) and over sequences of
--                 requests (Keys/Sequence).
-- It shares credential_valid with Oauth. Other workers do not commit within a request.
--
-- Query models src/localmail/search/query.py and src/localmail/cli_search_query.py.
--   Query/Text    the methods of str that they call, on texts as lists of code points.
--   Query/Tokens  _tokenize with its variables (Scanner), quoted_filter_value, semantic_text and
--                 excluded_text; Tokens/Whole is on words that are read as one token.
--   Query/Fields  the operators, the errors, and the variables of the loop of parse_query.
--   Query/Parse   parse_query: `read_token` is what one token means or why it is refused, `apply`
--                 what it does to the variables. Parse/Prefix is on filters before free text,
--                 Parse/Storable on what Postgres cannot store.
--   Query/Compose compose_cli_query, with its theorems in Compose/Sound and Compose/FreeText.
--
-- Keyset models src/localmail/search/date_keyset.py and _date_keyset_search of
-- src/localmail/search/searcher.py, over the messages that match the query, on one snapshot.
--   Keyset         the clauses, the two statements of a page, and the cursor of the next one.
--   Keyset/Ordered ORDER BY as a sort, and WHERE before it.
--   Keyset/Walk    the order of dates and ids; Keyset/Pages is on one page, Keyset/Client on a
--                  client that follows the cursors.
--
-- Paging models src/localmail/text_window.py, and a client that follows next_offset.
-- Daemon models src/localmail/retry.py, src/localmail/shutdown_budget.py, and
-- src/localmail/daemon_reconcile.py with the loops of src/localmail/daemon.py that carry it out.
-- Search models src/localmail/search/failure_pacing.py, sweep_pacing.py and page_cache.py,
-- split_by_tokens of src/localmail/search/chunking.py, and the extraction of attachments.
--   Search/Extract  the queue of src/localmail/search/extract_queue.py over four tables;
--                   Extract/Worker is one sweep of src/localmail/search/extract_worker.py, with the
--                   savepoint of a blob as the choice of what it writes; Extract/Queue is the report.
--   Extract/Partition is on the report; Budget, Claimed, Share and Sweep lead to Extract/Drains, on
--                   the end of the queue.
--
-- Api models rules of the HTTP API.
--   Api/Ranges    src/localmail/api/range_requests.py; Ranges/Header cuts the fields out of the text,
--                 with Python's int as a parameter.
--   Api/Blobs     src/localmail/api/conditional.py and serve/routes/blob_response.py: the entity tags and
--                 the responses to a request for an attachment, over Api/Ranges; Blobs/Stream is on the
--                 loop that streams, whose fuel is one read for each byte to send.
--   Api/Acl       src/localmail/api/acl.py.
--   Api/Filters   the filters of src/localmail/api/search.py and the query composed from them, over
--                 the tokenizer and the parser of Query; Filters/Decimal is on printed ids.
--   Api/Scope     _scope_filters_by_acl, and the clamp and the account clause of
--                 src/localmail/search/searcher.py and arms.py: the two places that hold a search to
--                 its ACL, with Scope/Request on the first, Scope/Clamp on the second and
--                 Scope/Searched on both.
--   Api/Cursors   src/localmail/api/browse_cursor.py and search_cursor.py: the codecs, Cursors/Next for
--                 the cursor of a response, Cursors/Plan for the plan of the next request, with
--                 src/localmail/search/sort_axes.py and keyset_walk.py.
--
-- Import models src/localmail/importer/runner.py and job_state.py: the variables of the loop and the
-- open transaction are the record Runner, and each message's fate is an Outcome. Import/Jobs models the
-- table of jobs: src/localmail/api/admin/imports.py and importer/ownership.py, with the runner's
-- statements on a status and the cascade of a deleted account. Where an operation sends two statements, what other sessions commit between
-- them is an argument, and Import/Jobs/Guard has their interleavings as a relation, Follows.
--
-- Common holds the shared types, tests, tables and lemmas.
--
-- Conventions. Numbers are the native naturals; UIDs, ids and moments never go below 0, and where
-- the code admits a negative number (a configured limit, an offset of a request) it is a ℤ.
-- Durations are whole seconds or milliseconds. SQL statements are functions on lists of rows by
-- their WHERE clause (Common/Table); ON CONFLICT is the test for a row with the key. A statement's
-- now() is an argument.
--
-- Bounds and fuel. `batches` has the number of items as fuel and each batch takes one at least.
-- `retry_from` has the number of attempts as fuel, and the theorem on it says how many are enough.
-- `windows` has the number of tokens as fuel, and each window takes one at least.
-- `read_pages` has the number of calls as fuel; one more than the characters left is enough.
-- `walk` has the number of calls as fuel; one more than the messages is enough.
-- `decimal` has one more round than the number as fuel, which is more than its digits.
-- `sweeps` has the number of sweeps, and the theorem on it says how many are enough.
--
-- Parameters, since their code is not in this repository or is I/O: the answers of the IMAP server,
-- parse_message and write_attachments, argon2, hash_token and the random tokens, Postgres' substring,
-- the tokenizer of the embedding models, base64 and the ISO form of a moment, and str.lower,
-- str.isalnum, strptime and Path.suffix of Python. The answers of the text extractors, the condition
-- of the allowlists as Postgres answers it, the errors that it raises in a login, and the fate of an
-- imported message are arguments, of which the theorems assume nothing.
--
-- Not modelled: log lines and progress messages; the words of error messages; the columns of messages
-- that no modelled statement reads (subject, addresses, headers, bodies); the SQL of ranked search and
-- of embedding, and its floating-point scores; the text extractors; the readers of mbox and maildir and
-- the header parser; the HTTP routes but those of logins, the MCP tools, the command line but its
-- query, the keyring and the configuration files.
pub mod Common
pub mod Sync
pub mod Api
pub mod Auth
pub mod Daemon
pub mod Import
pub mod Keyset
pub mod Oauth
pub mod Paging
pub mod Query
pub mod Search
