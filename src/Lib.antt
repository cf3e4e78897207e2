-- ===== src/Lib.antt =====
-- The quota, check-in, login, model catalog and account logic of the workbuddy plugin for CLIProxyAPI,
-- a Go program in workbuddy/. The plugin executes chat requests on accounts of an upstream; this library
-- is about what it decides between requests.
--
-- A failed chat request goes through `chatErrorFields` and `classifyChatFailure` (Chat), which name a
-- reason and a scope. `recordUpstreamFailureWithHeaders` (Recording) turns these, with the headers,
-- into a hold that `markQuotaFreeze` keeps in a process-local table (Cooldown), which
-- `guardExecutorQuota` asks before each request. The daily check-in (Checkin), which Schedule starts,
-- asks the upstream for a status, claims, and asks again; its results stand in `checkinRuns`, and the
-- statuses it reads in the account cache (Cache), which the panel's fetches also write. The decisions of
-- Policy are carried out on account files by Lifecycle, for the keepalive and the reconciliation alike.
-- Login makes such a file. Readiness discovers the models of an account, which Overlay then edits.
-- Payload, Models and Credits stand beside this: the rewriting of a request, the facts on models, and
-- their prices.
--
-- Files and code:
-- - Base: numbers, tests, text, Go maps and integers. A Go map is an association list, whose order
--   stands for the order in which the runtime happens to walk it. Text is compared as code points.
-- - Json: decoded JSON; decoding is encoding/json's and a parameter.
-- - Accounts: `creditsSummary`, `checkinSummary` (workbuddy/management.go), `isCreditsExhausted` and
--   `isGlobalDomain` (workbuddy/billing.go), and the fields read of `storedAuth`.
-- - Billing: `packageRemainUsed` and `aggregatePackages` of workbuddy/billing.go. Sums wrap in 64 bits.
-- - Cooldown: workbuddy/cooldown.go and workbuddy/quota_freeze.go without the parts in Recording. A
--   call is a function of the clock reading, the arguments and the table. Entries and Invariant hold
--   the invariant, View what readers see, Marking, Blocking and Clearing the effects of each call,
--   Eviction the full table, History sequences of calls.
-- - Chat: workbuddy/chat_error.go. Classify has one test for each pattern list, Frames the error frames
--   of a stream, Scope and Surface the theorems.
-- - Recording: `quotaRetryAt`, `recordUpstreamFailureWithHeaders` and `guardExecutorQuota`. The header
--   map, http.ParseTime and the regular expression for reset times are parameters.
-- - Checkin: `confirmedCheckinAttempt` as a protocol of calls and replies (Attempt, Claims), the store
--   `checkinRunStore` of workbuddy/checkin_state.go (Runs, Bounds, Kept, Counted), the handler
--   `checkinOneAccountFrom` of workbuddy/checkin.go (Account, Handler, Checkpoint) and sequences of
--   calls (History, Retries).
-- - Payload: workbuddy/payload.go, the tool choice, the model name and the system message of a request.
--   `strings.EqualFold` is a parameter.
-- - Models: workbuddy/model_class.go (Classes) and the context windows of workbuddy/model_context.go
--   (Context, Lengths).
-- - Policy: the decisions of workbuddy/policy.go.
-- - Lifecycle: workbuddy/lifecycle.go, `buildAuthFileJSONFrom` of workbuddy/authfile.go and
--   `refreshOneAuth` with `markSessionDead` of workbuddy/keepalive.go (Steps). Keepalive, Inherited and
--   Provenance are about what happens to an account that is disabled.
-- - Login: the state machine of workbuddy/oauth_pending_flow.go (Poll), the records of
--   workbuddy/oauth_pending.go with the cookies of workbuddy/oauth_pending_cookies.go (Kept, Checked),
--   and the map of pending logins in workbuddy/oauth.go (Register). A poll gets the replies of upstream,
--   the outcome of each write and the clock as a `World`.
-- - Readiness: workbuddy/model_readiness.go. A slot's operations hold its mutex, so that a sequence of
--   steps is an interleaving of goroutines (Calls).
-- - Overlay: `applyModelOverlay` and its helpers in workbuddy/model_config.go.
-- - Credits: workbuddy/model_credits.go.
-- - Schedule: the times of workbuddy/checkin.go and workbuddy/keepalive.go.
-- - Cache: workbuddy/cache.go, `mergeCheckinCache` and `invalidateCredits`, whose load and store
--   are two steps (Soft, Pruned, Snapshots).
--
-- Times are natural numbers of nanoseconds, and 0 is `time.Time{}`: they count from Go's zero time,
-- and in Login from the Unix epoch. The local date of a time is a parameter, as are the local zone
-- of Schedule, unicode.ToLower and the upstream, which is any pair of functions on a state.
-- Generations are 64-bit counters that wrap (`next64`); where an order of generations is needed, a
-- hypothesis says that the counter has room for the steps taken. Loops recurse on lists, so no fuel
-- is used. Each method under a mutex and each compare-and-swap loop is one step; calls of the
-- check-in handler are taken one after another, as its per-account lock makes them for one account.
--
-- Parameters that stand for code outside the repository or for text: the encodings of JSON, the test
-- that net/http makes of a cookie, and the text of an account's note (`display_note`). A login's cookie
-- jar is the list of its cookies, and the contents of a model catalog are a value of any type.
--
-- Not modelled: network and host calls, logging, the panel, SSE streams and usage records, files and
-- their locks, the replies to billing requests, promotions, the merge of model sources, and the other
-- parts that the program's modules name.
pub mod Base
pub mod Json
pub mod Accounts
pub mod Chat
pub mod Cooldown
pub mod Recording
pub mod Billing
pub mod Cache
pub mod Checkin
pub mod Payload
pub mod Models
pub mod Policy
pub mod Readiness
pub mod Login
pub mod Overlay
pub mod Schedule
pub mod Lifecycle
pub mod Credits
