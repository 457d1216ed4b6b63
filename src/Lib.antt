-- ===== src/Lib.antt =====
-- Book Translator Hub: the Python service that translates paragraphs of e-books by calling language
-- models, for readers such as Calibre-Web-Automated and Kavita. This library models the parts of the
-- service that bound the work of a request, share it between callers, call the providers, group the
-- paragraphs, and keep the browser sessions.
--
-- How the parts interact. A request has one `WorkBudget` (work_budget.py). translator.py groups the
-- paragraphs (`translation_groups`), runs an operation for a group under a `SingleFlight`
-- (singleflight.py), and completes it with `_complete`, which calls the primary provider and, where
-- it may, the fallback; each call reserves its work in the budget and takes a slot of the
-- process-wide semaphore. reader_session.py says who the browser is. server.py admits a request
-- before all this (`before_request_hook`), with auth.py to say whose it is, and serves its paragraphs
-- (`_translate_paragraphs`) from the translations that cache.py keeps.
--
-- The files:
--   Prelude and below: tests into Bool, lists over native numbers, results of code that may raise,
--     the dynamic values that a constructor validates, Python strings as lists of code points.
--   Budget (work_budget.py): `WorkBudget`; each method under the lock is one step, and a history is
--     the list of calls in the order of the lock. Below it Limits, Ledger, Cancel.
--   Batch (translator.py): `_estimate_tokens`, `_output_cap`, `translation_groups`, and the check of
--     `selected_groups` in `translate_batch_detailed`. Below it Partition, Greedy, Selected.
--   Provider (translator.py): one attempt of `_call_provider`. Provider/Call: its retry loop,
--     `_eligible_providers` and `_complete`. Provider/Stream: `translate_text_stream` and
--     `_call_provider_stream`. Balance, Retry, Complete, Starved and Resumed are about them; Rules has
--     the induction steps of the retry loop.
--   Flight (singleflight.py): `SingleFlight`. `run` is split where its lock is released: `enter`,
--     `finish` by the leader, `stop_waiting` and `follower_reply` by a follower. Flight/Steps: the
--     threads, in any order that the lock allows. Registry, Sound, Enter, Invariant, Shared and
--     Capacity are about them.
--   Recovery (translator.py): `BatchRecoveryTracker`; the call of the sink, which comes after the
--     lock, is a step of its own. Recovery/Tracked is about it.
--   Envelope (translator.py): `_parse_segment_envelope`, `_reject_duplicate_json_keys` and
--     `_build_context_block`. Envelope/Group: `_translate_group_operation`, with what a tracker
--     recorded as a list. Envelope/Contract: `single_cache_contract` and `batch_cache_contract`.
--     Accepted, Origin and Delivered are about the first two.
--   Response (translator.py): `_read_capped_json_response` for a response with `iter_content`,
--     `_validate_provider_text` and `_retry_after_seconds`. Response/Capped is about them. An attempt
--     of Provider takes the outcome of its transport from the environment and does not run them.
--   Session (reader_session.py): the cookie header and the bindings. Session/Credentials:
--     `_credentials`. Session/Probe: `_probe` and `_read_bounded_json`. Session/Broker: `exchange`,
--     `authenticate`, `revoke`. Store, Owner, Revoked, Only, Kept and Forwarded are about them.
--   Window (translator.py): `translate_batch_detailed`; each group is in a slot that says whether it is
--     pending, submitted or done. Below it Results, Order, Answered, Ends and Loop.
--   Cache (cache.py): the rows of `translations_v2`, the keys, and what each SQL statement does.
--     Cache/Store: `CacheStore`, its operations, with transactions that commit or fail. Bounded, Cap,
--     Provenance, Answers, Latest, Spared, Kept and Written are about them.
--   Dict: the dictionaries of the source, in the order of insertion.
--   Admission (server.py): `_check_window_rate_limit`, `_cleanup_rate_limits`,
--     `_acquire_auth_inflight` and `_release_auth_inflight`. Below it Active, Tracked, Window and
--     Inflight.
--   Gate (server.py): `_resolved_trusted_proxy_addresses`, `_client_ip` and `before_request_hook`,
--     with what the authority says as an argument. Below it Address and Admitted.
--   Auth (auth.py): `_ValidationCache`, `authenticate` and its five modes. Below it Bounded, Probed,
--     Forwarded and Vouched.
--   Paragraphs (server.py, and translator.py for the models to look up): the cache lookups of
--     `_translate_paragraphs`. Paragraphs/Collect: what it does with the translated groups, and the
--     whole call. Paragraphs/Lookup: `_cache_lookup`. Hits, Found, Probed, Atomic, Collected, Whole and Written
--     are about them.
--   Metrics (server.py): the recording functions and the dictionaries that they update. Below it Labels
--     and Balanced.
--   Validation (server.py): `_request_cache_namespace`, `_cloud_fallback_consent`,
--     `_stale_provider_policy`, `_token_matches`, `_clean_single_ip` and `_is_origin_allowed`. Below it
--     Namespace.
--   Digest: a digest without collisions, for the tests.
--   Tests in each of these are runs on concrete inputs.
--
-- Conventions. Times are natural numbers of thousandths of a second, and each reading of a clock is
-- an argument. A Python string is a list of code points where its characters matter and a native
-- string where only equality or order does. An exception is a value of a result type. What the
-- network, the clock, the resolver, the random source and other threads decide is a record of the
-- environment, and the theorems hold for every one. `hmac.digest` under the broker's key, SHA-256,
-- `json.loads` and `ipaddress` are parameters. The factor of the output cap is in thousandths.
--
-- Steps that are coarser than the source's. A logout takes the lock of the broker twice, to authenticate
-- and to remove the session, and is one step here; so is a lookup in the validation cache of auth.py
-- with the probe and the store after it. The sink of a recovery tracker is called for the newest
-- increment that is pending, while the threads of the source may call it in any order.
--
-- Loops. Loops over lists are structural. The retry loop counts its rounds down from `max_retries`.
-- The eviction loop of the registry and the slices of a list have as many rounds as there are
-- entries, which is enough, since each round takes one away; it is proved for the registry, and for
-- the slices by the theorem that they hold every index. The loop that draws segment ids runs over
-- what the random source gives, and its end without enough fresh ids is a result of its own.
--
-- Not modelled: the HTTP transport and its pinned sockets, logging, metrics output, where a
-- response keeps its text, a caller that closes a stream early, the start-up configuration and the key
-- file of the broker, the tables, connections and files of the cache, the routes of server.py
-- and its sink of the segment recovery, the probe and the start-up configuration of auth.py, the operator's command line, the proxy, and the browser's JavaScript.
pub mod Prelude
pub mod Dict
pub mod Digest
pub mod Budget
pub mod Batch
pub mod Provider
pub mod Flight
pub mod Session
pub mod Recovery
pub mod Envelope
pub mod Response
pub mod Cache
pub mod Window
pub mod Admission
pub mod Gate
pub mod Auth
pub mod Paragraphs
pub mod Metrics
pub mod Validation
