-- ===== src/Lib.antt =====
-- The back end of a food ordering system, service by service.
--
-- The system. Customers fill a cart (apps/cart), which asks the catalog (apps/catalog) for prices,
-- and place an order (apps/order), which takes the cart's items, prices them again in the catalog,
-- writes the order with its outbox row in one transaction and empties the cart. A relay sends the
-- outbox to Kafka; a worker reads the order back from there, charges it and announces the result.
-- Customers cancel orders that are pending, administrators any order. The identity service
-- (apps/identity) registers users, logs them in by password or by a one-time code, rotates their
-- refresh tokens and ends their sessions. The notification service (apps/notification) turns the
-- messages of the others into mails and other notifications. The gateway (apps/gateway) lets HTTP
-- requests through to them and turns their errors into HTTP answers.
--
-- Files.
--   Prelude, Prelude/*   lists, tests, sorting and integers that the services share.
--   Effect               promises that may reject, over a state: `Action W A` is a function from the
--                        state to an answer or an error and the state. A method that throws keeps
--                        what it wrote before. The classes of domain/errors.ts.
--   Effect/Keeps         invariants of such actions, a rule for each way to build one.
--   Text                 `trim`, `startsWith`, `endsWith` on the strings of JavaScript.
--   Domain               libs/domain/src/index.ts and libs/kafka/src/index.ts: enumerations, topics,
--                        payloads and the envelope of a message.
--   Runtime              floating-point numbers, clock and random identifiers, as parameters.
--   Keyed                stores addressed by text.
--   Grpc                 answers and status codes of gRPC handlers.
--   Order/Model          domain/types.ts, ports.ts and the tables of apps/order/src.
--   Order/Repository     TypeOrmOrderRepository; a method with a transaction is one step.
--   Order/Ports          the checkout lock in Redis, the Kafka publisher, the catalog gateway and the
--                        cash provider.
--   Order/Service        OrderService: placeOrder, getOrder, cancelOrder.
--   Order/Settlement     OrderService: lists and finalizeOrder; the worker and the outbox relay.
--   Order/Controller     order.grpc.controller.ts, handler by handler.
--   Order/Tables         lemmas on the table of orders.
--   Order/Placement, Order/Lifecycle, Order/Cancellation, Order/Settling, Order/Queue, Order/Outbox,
--   Order/Pages, Order/Locking
--                        the theorems, by what they are about.
--   Cart/Model           domain/cart.ts and ports.ts of apps/cart/src; the hash in Redis, the row of
--                        a snapshot.
--   Cart/Store           RedisCartStore and TypeOrmCartSnapshotRepository.
--   Cart/Service         CartService, method by method.
--   Cart/Controller      cart.grpc.controller.ts, handler by handler.
--   Cart/Items           the items as a multiset of variants.
--   Cart/Shuffle         items whose fields Redis gives in another order.
--   Cart/RoundTrip, Cart/Requests, Cart/Guarantees, Cart/Quantities, Cart/Prices
--                        the theorems: reading back, each request's outcome, what requests keep and
--                        leave behind, quantities, prices.
--   Catalog/Model        domain/types.ts and ports.ts of apps/catalog/src, the tables and the cache.
--   Catalog/Repository   TypeOrmProductRepository.
--   Catalog/Cache        RedisCatalogCache.
--   Catalog/Service      CatalogService, method by method, and its Kafka publisher.
--   Catalog/Controller   catalog.grpc.controller.ts, handler by handler.
--   Catalog/Frames, Catalog/Coherence, Catalog/Mutations, Catalog/Reads, Catalog/Freshness
--                        the cache against the tables: what a change leaves alone, what each call
--                        leaves in the cache, and what reads answer after sequences of calls.
--   Catalog/Access       who may change the catalog.
--   Catalog/Overwrites   what an update over gRPC does to the columns of a product.
--   Identity/Model       domain/types.ts and ports.ts of apps/identity/src, the tables and the keys in
--                        Redis.
--   Identity/Security    domain/security.ts.
--   Identity/Users, Identity/Sessions, Identity/RefreshTokens, Identity/Audit
--                        the repositories of typeorm.repositories.ts and its transactions.
--   Identity/Redis       one-time codes, the list of denied tokens and the rate limiter.
--   Identity/Service     IdentityService: registering and logging in.
--   Identity/Account     IdentityService: refreshing, logging out, introspection, roles and sessions.
--   Identity/Controller  identity.grpc.controller.ts, handler by handler.
--   Identity/Calls       the calls of the service and the time between them.
--   Identity/Kept, Identity/Tokens
--                        what all calls keep, from what their parts keep.
--   Identity/Distinct    the theorem on the emails and phones of users.
--   Identity/Families, Identity/Rotation, Identity/Reuse, Identity/Ends
--                        the theorems on refresh tokens and sessions.
--   Identity/Limits, Identity/Attempts, Identity/Guesses, Identity/Codes
--                        the theorems on rate limits and one-time codes.
--   Notification/Model   domain/types.ts and the entities of apps/notification/src.
--   Notification/Jobs    mapTopicToJobs, and the payloads of the other services as it reads them.
--   Notification/Providers
--                        channel.providers.ts.
--   Notification/Dispatcher
--                        NotificationDispatcher, and publishDlq of the worker.
--   Notification/Worker  the handler of a message in kafka.worker.ts.
--   Notification/Attempts, Notification/Outcome, Notification/Mail, Notification/Orders
--                        the theorems: what comes of a job, and the mails of codes and of orders.
--   Gateway/Errors       exception.filter.ts of apps/gateway/src and what it makes of errors.
--   Gateway/Access       auth.guards.ts and rate-limiter.ts.
--   Gateway/Admission    who gets through to the routes of administrators.
--   */Tests              runs on small data, and the theorems at concrete inputs.
--
-- How the code is modelled. A table is a list of rows in the order of their insertion, or a
-- function of its key; an upsert replaces the row. A Redis hash is the list of its fields, which
-- `HGETALL` gives in an order that is a parameter, and the catalog's JSON texts in Redis are the
-- data that they stand for; a key has an expiry in milliseconds and is absent from then on.
-- Identifiers are compared as texts. The clock and the identifiers are one supply: the state
-- counts its draws, and what the n-th draw gives is a parameter (`Clock`), as are JavaScript's
-- numbers (`Numbers`), JSON, and the services that are called over gRPC. A call of those answers
-- or fails. ORDER BY on a time is a stable sort in the order service: rows of the same time stand
-- in the order of their insertion, which PostgreSQL does not promise. What PostgreSQL answers to
-- the row of a cart's snapshot, whose columns are narrower than what the code passes, is a
-- parameter too. Quantities arrive as 32-bit integers on the wire and are whole numbers. No loop
-- needs fuel: each runs over a list or a number of attempts that is left. Hashes, signatures,
-- random codes, letter case, the mail server and Kafka are parameters of the identity and
-- notification services.
--
-- A request is one step, and a step sees what the steps before it left. `finalizeOrder` is two
-- steps, up to the provider's answer and from there on, and other requests may come in between.
--
-- What is not modelled: other failures of PostgreSQL and Redis, requests that interleave within
-- one step, metrics, traces and logs, the code that connects the parts when a process
-- starts, the decoding of messages from Kafka, the controllers of the gateway, and the realtime
-- service and the web client.
pub mod Prelude
pub mod Effect
pub mod Text
pub mod Domain
pub mod Runtime
pub mod Keyed
pub mod Grpc
pub mod Order
pub mod Cart
pub mod Catalog
pub mod Identity
pub mod Notification
pub mod Gateway
