-- ===== src/Lib.antt =====
-- The steward of majordomo: models of its core logic and theorems about them.
--
-- The steward is an HTTP proxy before the APIs of language-model providers. A request carries an API key of
-- the steward, and possibly a proxy key; both are resolved with a cache before the database. The provider is
-- detected from a header or the path, an experiment may assign another model, and the request is forwarded
-- with its headers filtered. A proxy key is replaced by the provider key that it stands for. The provider's
-- response is parsed for its token usage, which the pricing service turns into a cost. The request log is sent
-- to Butler, the control plane, in batches; Butler hands out work that a ticker dispatches to the
-- synchronisation clients, and organisations whose workers a manager starts and stops.
--
-- Files and the code they model:
-- - Prelude: texts, lists and maps over the native numbers, 64-bit integers with their wrap-around, and the
--   outcomes of Go code (a value, an error, a panic, or no fuel left). Strings are lists of bytes.
-- - Provider: internal/provider/provider.go (detect, normalize_openai_path, get_parser).
--   - Provider/BedrockPath: ExtractBedrockModelFromPath of internal/provider/bedrock.go.
--   - Provider/EventStream: parseEventStreamResponse and isEventStreamResponse there, with slices that panic
--     out of bounds. The loop is on fuel; each round moves the offset by at least 16, so one more than the
--     length of the body is enough.
--   - Provider/Metrics: the builders of usage metrics of anthropic.go, bedrock.go, openai.go and gemini.go.
--   - Provider/Streaming: ParseResponse and parseStreamingResponse of anthropic.go, openai.go and gemini.go.
--   - Provider/Translator: the translations of internal/provider/translator.go over decoded records.
-- - Proxy/Region: resolveBedrockRegion and its helpers of internal/proxy/handler.go.
-- - Proxy/Experiment: internal/proxy/experimentrouter.go; OverrideModel is in Proxy/Experiment/Override.
-- - Proxy/Headers: copyHeaders and copyResponseHeaders of internal/proxy/upstream.go, extractHeaders and
--   extractCustomMetadata of internal/proxy/handler.go.
-- - Proxy/Compression: internal/proxy/compression.go.
-- - Proxy/Request: the stages of ServeHTTP of internal/proxy/handler.go up to the proxy key, where an error is
--   the refusal that the client gets. Proxy/Handler/Plan: the redirect of a deprecated model, the assignment to
--   an experiment, the translation, and the request of Forward and ForwardStream of
--   internal/proxy/upstream.go. Proxy/Handler: ServeHTTP and logAndFinish as the list of the calls that a
--   request makes, and the caches after it. What the stores, the policy and the provider answer are arguments;
--   the client takes the whole response. Proxy/Handler/Runs has the two kinds of runs, on which the theorems
--   stand.
-- - Proxy/CloudConfig, Proxy/Bodies and Proxy/RequestLog: logRequest of internal/proxy/handler.go, which that
--   call ends with: the row of the log, the cached configurations of cloud storage, and where the bodies go.
-- - ClaudeCode: internal/claudecode/parser.go.
-- - RequestLog/Writer: internal/requestlog/writer.go, whose write loop, callers and the statements of Close are
--   steps in any order, with the timer of the HLL manager. A second Close ends a run. RequestLog/ActiveKeys and RequestLog/Hll: active_keys_cache.go and hll_manager.go of
--   internal/repositories.
-- - Auth/Resolver and Auth/ProxyResolver: internal/auth/resolver.go and proxy_resolver.go. Auth/Lru is the
--   interface of the LRU cache that both use; time is a number that each call is given.
-- - StewardClient/Reporter: flush and send of internal/stewardclient/reporter.go over the table that
--   FetchUnsyncedRecords and MarkSynced of internal/repositories/steward.go read and write. The loop is on
--   fuel; without new rows, more fuel than unsynced rows is enough.
-- - StewardClient/WorkTicker: tick, dispatch, fetchWork and markResult of internal/stewardclient/workticker.go,
--   with the deadline that the items of a tick share.
-- - StewardClient/KeySync: Sync and fetch of internal/stewardclient/keysync.go. The loop is on fuel; fuel past
--   a request that Butler answers with a page that is not full is enough. It models fetch of
--   internal/stewardclient/experimentsync.go too. The keys are written as UpsertAPIKeys of
--   internal/repositories/steward.go writes them, one by one and without a transaction.
-- - StewardClient/ProviderKeySync: internal/stewardclient/providerkeysync.go.
-- - StewardClient/Results: internal/stewardclient/resultsreporter.go over the tables that the queries of
--   internal/repositories/replay.go and eval.go read and write, with the rows of internal/models in
--   StewardClient/Results/Rows. Other changes of the tables between a query and its update are an argument.
-- - Steward/Workers: internal/steward/workers.go, with the workers as the calls of Start and Stop that it makes.
--   StewardClient/Managed: poll, fetchPending and handleAssignment of internal/stewardclient/managed.go over
--   that manager and the rows that RegisterOrg of internal/repositories/steward.go writes.
-- - Pricing: internal/pricing/service.go, over a type of floating-point numbers with its operations.
-- - Secrets: internal/secrets/aes.go.
-- - Deprecated: internal/deprecated/service.go.
--
-- Parameters stand for what is not code of this repository: SHA-256, AES-GCM, the LRU cache, rand.Intn,
-- encoding/json, encoding/base64, compress/gzip, bufio.Scanner, the sketches of hyperloglog, float64, the
-- clock, the database, the providers and Butler. The resolvers and syncers take the encryption and decryption
-- of Secrets as functions that may fail. Not modelled are the other synchronisation clients, the replay and
-- eval executor of internal/steward, HTTP routing, SQL text, object storage and configuration.
pub mod Prelude
pub mod Provider
pub mod Proxy
pub mod Auth
pub mod StewardClient
pub mod Pricing
pub mod Deprecated
pub mod ClaudeCode
pub mod RequestLog
pub mod Steward
pub mod Secrets
