-- ===== src/Lib.antt =====
-- This library models the parts of the eucalAI backend that decide where money and requests go.
-- The backend is three Python services: the user service keeps accounts, API keys, balances and
-- their ledger; the router service takes API requests, has them classified by the inference
-- service, selects an upstream channel for each and reports the calls to the user service; the
-- admin service manages models, channels and users.
--
-- - Prelude is shared: the library names, Python's integers (Prelude.Int, over the native
--   numbers), tables with a primary key (Prelude.Keyed), lists (Prelude.Lists), texts
--   (Prelude.Text) and Boolean tests. A table is an association list that keeps the order of
--   insertion, as a Python dictionary does.
-- - Wallet models services/user-service. Wallet.Models holds the rows of src/models.
--   Wallet.Session models the database session of src/common/db/runtime.py: an action takes what
--   is committed and what the session sees, and a raise keeps what is committed. It has the
--   repositories' queries too. Wallet.Balance is src/services/balance_service.py, one action for
--   each method, and the billing of src/controllers/internal_call_logs.py. Wallet.Orders,
--   Wallet.Vouchers and Wallet.Keys are src/services/topup_order_service.py, voucher_service.py
--   and api_key_service.py; Wallet.Keys.Policy is src/utils/api_key_policy.py. Wallet.Ledger
--   says what the ledger promises, and Wallet.History runs any sequence of calls.
-- - Account.Codes models services/user-service/src/services/email_service.py and the table of
--   verification codes. Account.Logins models src/services/auth_service.py: logins and their
--   lock, sessions, refresh tokens and the change of a password; Account.Recovery joins the two:
--   registration, and what a mailed code is used for.
-- - Router models services/router-service. Router.Channels is src/services/channel_selector.py:
--   the state of ChannelSelector is a record, and select, report_failure, report_success,
--   update_health_cache and is_channel_available are functions on it, given the readings of the
--   clock. Router.Inference is src/services/inference_client.py, given the answers to its posts.
--   Router.Upstream is src/services/retry_policy.py and the check of a URL in
--   src/services/upstream.py; Router.Routing is src/services/routing.py and the resolution of a
--   target, and Router.Calls the retries of src/services/upstream_caller.py. Router.Anthropic is
--   the AnthropicStreamConverter of src/services/anthropic_convert.py; Router.Anthropic.Protocol
--   has the client that it is measured by, and Router.Anthropic.Texts what becomes of a text.
--   Router.Responses is the ResponsesStreamConverter of src/services/responses_convert.py with
--   the end of its stream in src/controllers/responses.py; Router.Responses.Client is the client
--   that it is measured by. Router.Streams has what the two converters share. Router.CallLog is
--   src/services/calllog_buffer.py; a flush is two steps, between which other calls run.
-- - Internal models services/router-service/src/common/internal.py, which the other services
--   have too. Internal.Signatures is the canonical form of a request, its signature and its
--   check; Internal.Requests is request_internal_json and the circuit breakers.
-- - Inference models services/inference-service/src/inference_service: Inference and
--   Inference.Normalize are normalize_inference_config of utils/runtime_config.py, the score
--   bands of utils/scoring.py, and the choice of a model at the end of predict_chat_messages
--   (services/router_engine.py). Floats and Python's conversions are parameters.
--
-- A session runs alone: the row locks that the services take are not modelled, nor two sessions
-- that interleave. SHA-256, the password hash, the ipaddress module and the parsing of an
-- integer are parameters, about which nothing is assumed; a voucher code is a list of ASCII
-- codes. Times are numbers. No loop needs fuel: all recurse on a list or on a number.
--
-- Not modelled are the HTTP controllers, the schemas, logging, the listings that only read, the
-- migrations and the gateways, nor rate limits, the conversion of whole requests and responses,
-- the usage statistics, the admin service, and of the inference service the network and the
-- weighting of its scores.
pub mod Prelude
pub mod Wallet
pub mod Account
pub mod Inference
pub mod Internal
pub mod Router
