-- ===== src/Lib.antt =====
-- thirdweb Engine: the transaction pipeline of the server, its store in Redis, and its authentication.
--
-- A request queues a transaction (Insert). The send worker gives it a nonce and sends it (SendWorker,
-- Nonce), the mine worker looks for its receipt and resends or gives up (MineWorker), and routes
-- cancel or retry it (Cancel, Retry). Its state is kept under its queue ID in Redis (TransactionDb).
-- For each wallet Redis holds the last used nonce, the recycled nonces and the sent nonces, which the
-- workers move nonces between (NoncePool); other workers cancel recycled nonces (Cancel), recycle
-- skipped ones (NonceResync) and tell whether a queue is stuck (NonceHealth). Every request passes
-- the authentication first (Auth), and a rate limit (Middleware). Transactions of an older version are
-- moved from Postgres to Redis (Migration).
--
-- Contracts can be subscribed to (Subscriptions). Each subscribed chain has an indexer, which hands
-- ranges of blocks to two queues (ChainIndexer); their workers store the event logs and the receipts
-- (Processing), and like the pipeline they hand jobs to the queue of webhooks (Delivery). Clients read
-- what is stored page by page (Queries), and follow a transaction over a websocket (Websocket).
--
-- What models what:
-- - Base: shared names, the integers over the native numbers, lists, texts, decimals.
-- - Transaction, Transaction/WellFormed: the types of src/utils/transaction/types.ts. The source has
--   one object type for each status and spreads objects of one into the next; here one record has all
--   properties, and IsWellFormed says what each status demands.
-- - Redis, Redis/Values: the Redis server as a parameter, a record of commands with the equations
--   that its documentation states, one for the value at every key after each command. Redis/Memory is
--   a store in memory of which they all hold.
-- - Engine: a run of a handler, as a function from a world to a result and a world. A world is the
--   store and the list of what was handed to the queues, the RPC and the webhooks, in order. What is
--   written before a throw stays written.
-- - Env: what a run meets outside the repository, as one record of answers: the clock, the RPC, the
--   thirdweb SDK, the configuration.
-- - Nonce (Acquire, Frame, Sync): src/db/wallets/walletNonce.ts and nonceMap.ts. acquire_nonce is
--   acquireNonce, and so on.
-- - NoncePool (Tokens, Steps, Acquires, Runs): no function of the source, but the life of a wallet's nonces as a
--   step relation over the functions of Nonce and Cancel, with its invariant.
-- - TransactionDb (Stored, Batches): the class TransactionDB of src/db/transactions/db.ts.
-- - Errors, Block, Webhook: src/utils/error.ts, src/utils/block.ts, src/utils/transaction/webhook.ts.
-- - SendWorker (Prepare, Outcomes, Resends): src/worker/tasks/sendTransactionWorker.ts.
-- - MineWorker (Outcomes, Receipts): src/worker/tasks/mineTransactionWorker.ts.
-- - Lifecycle: the results of both workers against the types of their statuses.
-- - Cancel (Outcomes): src/server/routes/transaction/cancel.ts,
--   src/utils/transaction/cancelTransaction.ts, src/worker/tasks/cancelRecycledNoncesWorker.ts.
-- - Retry (Failed, Synced): retry.ts, syncRetry.ts and retry-failed.ts of src/server/routes/transaction/.
-- - Insert (Outcomes): src/utils/transaction/insertTransaction.ts and queueTransation.ts.
-- - NonceResync (Missing), NonceHealth (Stuck): the workers of these names in src/worker/tasks/.
-- - Auth (Endpoints, Access, Requests): src/server/middleware/auth.ts.
-- - NonceReset (Counters): src/server/routes/backend-wallet/resetNonces.ts.
-- - Subscriptions: the tables of the subscriptions and webhooks, as a parameter with the equations of
--   its update, and the queries of src/db/contractSubscriptions, src/db/webhooks and src/db/chainIndexers.
-- - Subscribing (Added, Indexed, Removed): src/server/routes/contract/subscriptions/addContractSubscription.ts
--   and removeContractSubscription.ts, and the queries that create, delete and revoke rows. The writes
--   are a parameter with what they leave in the tables.
-- - ChainIndexer (Progress, Coverage, Registry): src/worker/tasks/chainIndexer.ts and
--   manageChainIndexers.ts, src/worker/indexers/chainIndexerRegistry.ts, and the queues of ranges.
-- - Delivery (Jobs, Once, Events, Schemas, Requests, Responses): src/worker/queues/sendWebhookQueue.ts,
--   src/worker/tasks/sendWebhookWorker.ts, src/utils/webhook.ts, src/utils/cache/getWebhook.ts, and the
--   schemas of transactions, event logs and receipts in src/server/schemas/.
-- - Processing (Logs, Receipts, Notified, Selected): src/worker/tasks/processEventLogsWorker.ts and
--   processTransactionReceiptsWorker.ts.
-- - Queries (Order, Cursors, RoundTrip, Pages, Skipped, Routes, Answered): the queries of event logs and
--   receipts in src/db/contractEventLogs and src/db/contractTransactionReceipts, with the cursors of
--   their pages, and the routes that answer them in src/server/routes/contract/.
-- - Websocket (Unique, Messages): src/server/utils/websocket.ts, src/server/routes/transaction/status.ts
--   and src/server/listeners/updateTxListener.ts.
-- - Configuration (Row, Secrets, Repaired): src/db/configuration/getConfiguration.ts and
--   updateConfiguration.ts, src/schema/config.ts, src/utils/cache/getConfig.ts.
-- - Accounts (Keys, Cached): src/utils/account.ts, src/utils/cache/getWallet.ts and the wallets of
--   src/server/utils/wallets/.
-- - NonceMap (Hydrated): getNonceMap of src/db/wallets/nonceMap.ts and
--   src/server/routes/backend-wallet/getTransactionsByNonce.ts.
-- - Cron (Bounds): src/utils/cron/isValidCron.ts.
-- - Migration (Rows, Moved): src/worker/tasks/migratePostgresTransactionsWorker.ts.
-- - Relayer (Access): src/server/routes/relayer/index.ts and src/db/relayer/getRelayerById.ts.
-- - NonceDetails (Failing): src/server/routes/admin/nonces.ts.
-- - Middleware (Limits): rateLimit.ts, engineMode.ts and error.ts of src/server/middleware/.
-- - Examples: the theorems at concrete inputs.
--
-- Bounds. Numbers are unbounded, as the source's bigints are; its nonces and times are JavaScript
-- numbers, taken to stay below 2 ^ 53. The loops over batches of bulkGet and bulkDelete run on as many
-- rounds as there are IDs, which is enough for batches of one or more; the batches of
-- the nonce health worker on as many as there are wallets, in batches of 500; the text of a number `n`
-- on `n + 1` for its digits; a client that reads pages on as many as the table has rows. All other
-- loops are over lists or a given number of rounds.
--
-- Not modelled. Log lines, tracing and the contents of usage reports, metrics and webhooks; the text
-- form of Redis keys (an idempotency key such as `queued` would make a transaction's key that of a
-- list: here the two kinds of key are distinct) and of the keys of jobs; superjson, which is taken
-- to read back what it wrote; failures of Redis itself; steps of two handlers between two commands
-- of one handler (a step of a run is a whole operation on the nonces). Within one run the same
-- question to the outside has the same answer, so a second answer of the RPC that differs from the
-- first is out of reach. The simulation's and the receipts' contents are parameters. The queue of
-- webhooks is a parameter, whose jobs stay; ABIs, the decoding of calls, HTTP and the settings that
-- an indexer computes in floating point are parameters too. The CORS handler is an adapted copy of a
-- library. Base 64, the encryption of secrets, the loading of local wallets and the parser of
-- schedules are parameters. Contract and wallet routes and the tables of permissions and tokens are
-- left out.
pub mod Base
pub mod Transaction
pub mod Redis
pub mod Engine
pub mod Env
pub mod Nonce
pub mod TransactionDb
pub mod Errors
pub mod Block
pub mod Webhook
pub mod SendWorker
pub mod MineWorker
pub mod Cancel
pub mod ChainIndexer
pub mod Subscribing
pub mod Subscriptions
pub mod Migration
pub mod NonceDetails
pub mod Middleware
pub mod Queries
pub mod Relayer
pub mod Processing
pub mod Delivery
pub mod Retry
pub mod Insert
pub mod NonceReset
pub mod NonceResync
pub mod NonceHealth
pub mod Auth
mod Examples
pub mod Lifecycle
pub mod NoncePool
pub mod Websocket
pub mod Configuration
pub mod Accounts
pub mod NonceMap
pub mod Cron
