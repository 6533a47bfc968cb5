-- ===== src/Lib.antt =====
-- The backend of a short-video application: accounts, videos, likes, comments, a social graph,
-- feeds and payments, written in Go over MySQL, Redis and RabbitMQ. Users buy coins through a
-- payment gateway, which calls back; the platform credits the coins, keeps a double-entry journal in
-- fiat money and a book of totals, settles with the gateway after a while, and takes coins back on
-- refunds and chargebacks. Coins buy gifts, which the authors of videos receive as diamonds and
-- withdraw. Likes, comments and follows are handed to a queue, from which workers write them, and
-- are written by the services themselves where the queue does not take them.
--
-- Parts and files, with the code in backend/internal:
-- - Prelude and below: tests on numbers, integers, Go's `int64` (Int64: sums, differences and products
--   wrap around at 2^63), times (Time), and queries and updates on lists of rows (Lists; `ORDER BY` in
--   Lists/Ordered, `LIMIT` and cursors in Lists/Pages).
-- - Store: the tables of all parts (Tables), the events for the queues (Events, from
--   middleware/rabbitmq), methods as actions over them (Monad), and one rule for each way to build an
--   action (Ensures; its outcomes in Ensures/Outcome, insertions and tolerated errors in
--   Ensures/Attempt).
-- - Pay/Entity (pay/entity.go): the rows. Pay/Rows: row conditions, updates and unique indices, from the
--   statements and from entity.go.
-- - Pay/LockWallet, Pay/Credit: `lockWallet`, `credit` and `markFailed` of pay/service.go. Below Credit:
--   the tables after a payment or a notice of failure and the reasons for an error (Outcome, Failure),
--   the code against them (Refinement), what is found after a payment (Once), the ledger (Ledger).
-- - Pay/Recharge: `EnsurePackages`, `CreateRecharge` and `findPackage` of pay/service.go, with every
--   outcome in Recharge/Outcome. Pay/Confirm: `QueryRecharge`, `compensateFromGateway`, `MockConfirm` and
--   `Ledger`. Pay/Wallet: `Wallet`, and `lockPair` of pay/gift.go. Pay/Values: `signValues`,
--   `verifyValues` of pay/gateway.go and `CheckoutURL` of pay/service.go.
-- - Pay/Books: `splitFee`, `postFiat`, `lockBook`, `saveBook`, `postPayFiat`, `settleOne` and `reverse`
--   of pay/books.go. Below Books: the tables after a settlement or a reversal (Settlement, Reversal),
--   the code against them (Refinement), the ledger (Reversal/Ledger), the fee (Fee).
-- - Pay/Batch: `Refund`, `Chargeback` and `SettleDue` of pay/books.go. Pay/Expiry: `closeIfExpired` and
--   `releaseGatewayHold` of pay/service.go, with all their outcomes in Expiry/Outcome.
-- - Pay/Gift: gifts, of pay/gift.go; below it the tables after a gift (Outcome), the ledger (Ledger) and
--   requests with one key (Once). Pay/Withdraw: withdrawals, of pay/gift.go, with their ledger.
-- - Pay/Gateway (pay/gateway.go, and `gatewayMutate` of pay/books.go), Pay/Callback (`HandleCallback` of
--   pay/service.go): signed messages from the gateway, and what they lead to.
-- - Pay/Cashier (pay/cashier.go): the gateway itself. Trades and rows (Trades), the digits of a card
--   (Digits), the comparison of signatures (Compare), notices to the merchant and their retries (Notices),
--   pages and requests (Requests); what steps do to rows (Rows), the requests of one notice (Attempts),
--   any sequence of requests (Service), payments that are remembered (Service/Paid), the address that the
--   service signs (Requests/Checkout).
-- - Pay/Steps: what the shared steps of the methods do to the tables. Pay/Ledger: wallets against their
--   ledger entries, diamonds in Ledger/Diamonds. Pay/Journal: the balance of the fiat journal.
--   Pay/Orders: the life of an order, method by method (Methods) and over sequences of calls (Life,
--   Life/Service), and orders that a notice has paid (Settled).
-- - Video: rows (Entity), the repositories (Repo, from video_repo.go, like_repo.go, comment_repo.go and
--   popularity_cache.go), what is published (Messages, from middleware/rabbitmq), `LikeService` and
--   worker/likeworker.go (Likes), `CommentService` and worker/commentworker.go (Comments), and
--   `VideoService` (Service). Below Likes: the tables after a like (Outcome), like counts (Matches,
--   Kept), and the service against the worker (Equivalence).
-- - Video/Fanout: worker/videoworker.go, `BatchInsertFollowFeedInbox` of video/video_repo.go and
--   worker/popularityworker.go. Below Fanout: rows for each account (Counts), one batch (Batch), the
--   followers in the order of their relations (Delivery), what some batches leave to the rest (Once),
--   the whole loop (Spread), and a message that is delivered again (Again).
-- - Social/Follow: the service and the repository of social, and worker/socialworker.go, with every outcome
--   of `Follow` in Follow/Outcome and repeated messages in Follow/Redelivery. Account/Service: the
--   service and the repository of account.
-- - Feed: `mergeByCreateTime` and `reorderByIDs` of feed/lister.go, with their laws in Feed/Order and
--   Feed/Reorder; requests, answers and cursors (Entity, from feed/entity.go and feed/bucket.go), the
--   queries (Repo, feed/repo.go), the four feeds with their cursors (Lister, feed/lister.go) and the
--   service (Responses and Service, feed/service.go). Feed/Paging: a client that follows the most liked
--   videos; below it where the client stands (Cursor) and its pages together (Complete). Feed/Shared: what a viewer is shown of the newest videos; below it the
--   pages in Redis (Outcome). The callers' limit is positive, and is a natural number here, on which the
--   merge recurses; each step takes one video, as the loop does.
-- - Pay/Answer and Pay/Handler (pay/handler.go): the routes, from a request to the status and the body of
--   its answer, with the queries `ListPackages`, `ListGifts`, `Books` and `ListOrders`, and
--   `GetAccountID` of middleware/jwt/jwt.go. Below Handler: a
--   notice that is delivered again (Delivery).
-- - Pay/Sample, and modules named Tests: small tables, runs on them, and the theorems at inputs that
--   meet their hypotheses.
--
-- How code corresponds to the model:
-- - A method is an action: a function from a world, which is the tables and a tick, to a result, which is
--   a value or an error, and a world. Each statement, commit, reading of the clock, random number,
--   event or request to the gateway takes one tick. `Env` says for each tick whether the statement goes
--   through, what the clock shows, what the gateway answers, whether the random source works and
--   whether the queue takes the event; it is a parameter of every method.
-- - A statement that does not go through is an error of the connection and writes nothing. A transaction
--   rolls back on every error, that of its own commit included. Transactions take effect one after the
--   other: the code locks the rows it works on (`FOR UPDATE`), and runs of calls are sequences of
--   transactions and single statements.
-- - A table is a list of rows, the newest first; `First` finds the first row of the list, and the columns
--   it searches by are unique. The unique indices that the entities declare refuse a second row with the
--   same key. One counter gives the `id` of every table, where MySQL has one for each table. The row of
--   the platform book is an optional value. Timestamps that the ORM sets by itself are left out, and
--   so are surrogate keys that no statement reads. Rows that tie in an `ORDER BY` come in the order of the
--   table.
-- - `int64` is an integer with wrap-around written out where Go computes; a sum or a difference inside a
--   statement (`popularity + 1`) is exact, since MySQL refuses one that is out of range. `uint` is a
--   natural number, a time an integer in nanoseconds without bounds.
-- - HMAC, hexadecimal digits and JSON are the parameter `Codec`; sorting and printing of texts and the
--   reading of numbers and addresses are the parameter `Texts`; hashing of passwords and tokens are
--   parameters of the account service. Theorems name what they assume of them.
-- - The cashier is a program of its own, with a map in memory, its rows and a tick (`Cashier`), and with
--   `Outside` as its world: clock, database, random source and merchant.
-- - What Redis answers is a parameter (`Redis`) that may differ at each tick, and may be a failure or
--   another request's page; a write to Redis is one contact with the world whose failure the code ignores.
--   JSON of cursors and digits of numbers are the parameter `Formats`.
-- - Loops recurse on the list they run over, and the requests of a notice and the waits for a page on their
--   number. The worker's loop over the batches of 500 followers, `fan_out`, has fuel, and ends with an
--   error without it: a round for each relation and one more are enough, since each round but the last
--   reads a relation at least. The client of Feed/Paging has its number of requests.
--
-- Not modelled: lists that only read a table (`ListByAuthorID`, `ListLikedVideos`), the cached reading of
-- a video, the HTML pages of the cashier and the timer behind its retries, the loops that take
-- messages from a queue, the HTTP handlers other than those of payments, AI suggestions and
-- worker/orchestrationworker.go, which ask an outside model, the clients of Redis and RabbitMQ
-- (middleware), configuration and main programs (backend/cmd), which only call libraries, and the
-- parts that are not written in Go. Counters for monitoring are left out.
pub mod Prelude
pub mod Account
pub mod Social
pub mod Video
pub mod Store
pub mod Pay
pub mod Feed
