-- ===== src/Lib.antt =====
-- authara is a server for accounts, sessions and organizations. This library models the parts of it
-- that decide who gets in and who is in charge: the rate limiter of the log-in routes, the session
-- service, the codes that are sent by e-mail with the actions that wait for them, the queues of
-- webhook events and e-mails, and the ends and owners of organizations, with the statements that these
-- run on the database.
--
-- Modules, and the code that they are about:
--
--   Prelude, Prelude/*      names shared by the other modules; Go's strings as code points (Text)
--   RateLimiter/Config      internal/ratelimiter/memory.go: LimiterConfig and its defaults
--   RateLimiter/Keys        normalizeKey, normalizeIP
--   RateLimiter/Table       one map of counters: getCounterLocked, retryAfter, sweep, clearMap
--   RateLimiter/Memory      InMemoryLimiter: allowIP, allow, and the eight Allow...Attempt methods;
--                           its children hold the maps together (Maps), the bound on their entries
--                           (Apart, Eviction, Excess), one attempt (Charges, Attempts), histories of attempts
--                           (Budget) and waiting times (Windows)
--   RateLimiter/Cache       internal/ratelimiter/cache.go, with the cache as a parameter;
--                           Cache/Attempts has its eight methods, and Cache/Redis the script of
--                           internal/cache/redis.go
--   RateLimiter/Agreement   the two limiters beside one another
--   Store/Rows, Store/Exec  internal/domain and internal/store/tx: rows, the database, transactions
--   Store/Users, Sessions   the queries and statements of internal/store that the services run
--   Store/Keeps             rules for invariants of the database
--   Session/Roles, Token    internal/session/roles, internal/session/token
--   Session/Services        what session.Service is built from, and checks that its methods share
--   Session/Refresh         internal/session/service.go: RefreshSession, revokeReusedRefreshToken
--   Store/Queue             rows in an order, batches of them, and statements on them; its children
--                           hold the lemmas (Counts, Batches, Selected)
--   Store/Verifications     internal/store/email_verification.go, and statements of users.go
--   Store/Emails            internal/store/email.go: claims and transitions of e-mails
--   Store/Webhooks          internal/store/webhook.go
--   Webhook/Sender          internal/webhook/sender.go: sendOnce, for an answer of the HTTP client
--   Webhook/Publisher       internal/webhook/queue.go, internal/webhook/filter.go
--   Webhook/Worker          internal/webhook/worker.go: runOnce, reapStale, CleanupExpiredEventsBatch
--   Webhook/Steps           what workers and upkeep can do to the queue, in any order
--   Webhook/Histories, Delivered, Late, Upkeep, Runs
--                           the theorems on the queue; Attempts, Claims, Answers have lemmas for them
--   Challenge/Services      internal/challenge/service.go: what the service is built from, its checks
--   Challenge/Codes         internal/challenge/verification_code_service.go
--   Challenge/Create        CreateOpaqueChallenge, createChallenge
--   Challenge/Resend        ResendChallenge
--   Challenge/Verify        verifyChallenge, and internal/challenge/signup.go
--   Challenge/PasswordReset internal/challenge/password_reset.go
--   Challenge/EmailChange   internal/challenge/email_change.go
--   Challenge/EmailVerification
--                           internal/challenge/email_verification.go
--   Challenge/Verifications, Addressed
--                           what a required verification finds and leaves
--   Challenge/Worker        internal/challenge/worker.go: processJob, runOnce, emailRetryDelay
--   Challenge/Delivered, Delays
--                           the code in an e-mail, and the wait for another attempt
--   Challenge/Guesses, History, Once, Spacing, Replaced
--                           histories of codes given for a challenge, and what a right one does; the
--                           other files of Challenge hold lemmas for these
--   Session/Create          createSession, behind CreateSession and CreatePasskeySession
--   Session/Switch          SwitchSessionOrganization
--   Session/Recent          RequireRecentAuthentication, MarkRecentlyAuthenticated, and the methods
--                           of the authentication challenges
--   Session/Revocation      Logout with a refresh token, RevokeAllSessions, RevokeUserSession,
--                           RevokeOtherUserSessions, ListUserSessions
--   Session/Pages           internal/session/pagination.go: ListUserSessionsPage, its query (Order), and
--                           a client that follows the cursors (Walk)
--   Session/Calls           histories of calls of these methods
--   Store/Outbox            internal/email/queue.go: Enqueue
--   Store/Pending           internal/domain: challenges, and the actions that wait for them
--   Store/Challenges        internal/store: challange.go, pending_action.go, and the statements of
--                           auth_providers.go, allowed_emails.go that the challenges need
--   Store/Organizations     internal/store/organizations.go, with the single-owner index and foreign keys
--   Keyset, Keyset/*        internal/keyset/pagination.go: Decode and Finish, with the encoding of cursors
--                           (JSON in base64) as a parameter
--   Organization/Services   internal/organization/mode.go, and what organization.Service is built from
--   Organization/Lifecycle  internal/organization/lifecycle.go: removal of members, transfer of ownership
--   Organization/Deletion   DeleteOrganization
--   Organization/Members    internal/organization/service.go: UpdateOrganizationMember
--   Organization/Ownership  the owner under each statement and method, and histories of them
--   Session/Fixtures        data for tests; the modules named Examples hold the theorems at concrete
--                           inputs
--
--
-- Modelling. Times are natural numbers of nanoseconds, identifiers are natural numbers, nil
-- pointers are Option. A map is a list of entries in the order in which a range visits it, which Go
-- leaves open, so that the theorems hold for each order. A table of the database is a list of rows.
-- A method that runs on the database is a function Exec from a World, with what is committed, what
-- the open transaction sees, and what the cache of revocations was told; its result carries Go's
-- error. A transaction that ends in an error returns to what is committed; what the cache was told
-- stays. Other transactions may commit where a method waits for the lock of a row that it reads FOR
-- UPDATE or FOR KEY SHARE, and where SwitchSessionOrganization waits to update its session and to
-- delete the refresh tokens of it: by READ COMMITTED that deletion does not see a token that is
-- inserted while it waits, and the others then are others_deleting of the Services. What they commit
-- between other statements is not modelled. At the locks they are the function others of the Services, about which a theorem assumes only what it names; while the row of a
-- challenge is locked it is others_holding. Signatures, hashes, random bytes, the e-mail access
-- policy, and lower-casing are parameters. Of the modelled loops, the one of reapStale is given
-- fuel, one batch more than there are stale events, and a theorem shows that this is enough; each
-- other loop is a recursion on a list. The client of Session/Pages/Walk is given a number of pages,
-- and one more than there are sessions is enough.
--
-- Not modelled: failures of the database itself, contexts that are cancelled, logging, the texts of
-- e-mails, and the HTTP layer. In the rate limiter the mutex makes each attempt one step.
pub mod Prelude
pub mod RateLimiter
pub mod Store
pub mod Session
pub mod Keyset
pub mod Organization
pub mod Challenge
pub mod Webhook
