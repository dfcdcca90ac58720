-- ===== src/Lib.antt =====
-- The wallet sync, the migrations and the web application of tax-bro: two goroutines fill the
-- database with the transactions of a user's Solana wallets, a command moves the schema up and down,
-- and users sign in through GitHub.
--
-- Prelude: lists, Boolean tests, results. A fault (a failed `utils.Assert` of pkg/utils/assert.go, a
-- panic) ends the process and is a value of `Outcome`; a Go `error` is one of `Fallible`, without its
-- text. No code runs behind a fault.
-- Text: `strings.Split`, `encoding/hex` and `encoding/base64`, as far as the program uses them. A
-- string that is taken apart is the list of its bytes; others are texts that are only compared.
-- Parser: pkg/instructions_parser/parser.go. `Parse` gives no events and no accounts yet.
-- Rpc: pkg/wallet_sync/rpc.go. The answers of the RPC client are arguments: a function from the
-- number of the attempt, so that a retried call may be answered otherwise each time. Rpc/Logs has
-- `parseLogMessage`, Rpc/Compile `setFromCompiled`, Rpc/Retry `callRpcWithRetries`, Rpc/Fetch
-- `fetchTransaction`. Times are seconds since 1970. The loop of `callRpcWithRetries` has fuel, one
-- unit for each attempt: more than the number of attempts that fail is enough, and if all fail
-- none is.
-- Db: the rows and the statements of pkg/wallet_sync/db.go. PostgreSQL is a service: the record
-- `Store` has an operation for each statement, which may fail, and Db/Lawful what the
-- documentation of INSERT … RETURNING promises. Db/Transactions has `transactions.Get`, over what
-- the query and `json.Unmarshal` return, and Db/Selected the part of the query that
-- `selectAccountsCoalesce` writes, with the order of its rows in Db/Order. Ranging over a map is a
-- function `iterate` that visits every key.
-- Queue: `msgQueue` of pkg/wallet_sync/wallet_sync.go. The mutex makes each operation one step.
-- `walk` has as many rounds as there are items and one more, which is enough.
-- Update: `saveTransactions` (Update/Prepare, Update/Save) and `updateUser` (Update/User) of the
-- same file. Identifiers are integers of the model; `int16` and `int32` wrap where the code
-- converts. Update/User/Counts states what PostgreSQL promises of the links and counters.
-- Sync: `fetchAndParse`, as the list of its calls on the queue. Its loop over pages has fuel, one
-- unit for each page. Sync/Requests has the queue of requests of pkg/wallet_sync/db.go, Sync/Dedup
-- `deduplicateTimestamps`, whose loop that groups rows by slot has fuel for its rounds, and
-- Sync/Store the statements of both. Sync/Loops is `RunWalletSync`: each goroutine is at one of a few
-- places, and a step leads from one of them to the next, with at most one change that the other can
-- see. There `fetchAndParse` goes on page by page and signature by signature, so that a sync that
-- ends with a fault, or never, has its steps up to there. The services answer each step anew.
-- Sync/Loops/Delivered has a whole sync of one page in these steps.
-- Process: `processMessages`, and in Process/Schedule the steps of both goroutines on the queue: an
-- append is a step of the first, a call of `processMessages` one of the second. Process/Drain has the
-- second loop of `RunWalletSync` on the queue alone.
-- Migrate: cmd/migrate/main.go. The walk over the folder, the files and the database are services. A
-- slice out of range is a fault. Migrate/Described describes the plan of `prepareMigrations` without
-- slices and indices; Migrate/Slices and Migrate/Stored lead there. Migrate/Execute has
-- `executeMigrations` over transactions, and what PostgreSQL promises of them, and Migrate/Atomic how
-- it ends. Migrate/Names has folders with two files for each name, as db_migrations is meant to be.
-- Web: cmd/app/main.go (Web/Start, Web/App), view/middlewares (Web/Middlewares) and the handlers of
-- view/routes/signin and view/routes/signout (Web/SignIn, Web/Callback, Web/SignOut), over two
-- services: `Accounts` has an operation for each statement, and Web/Lawful what PostgreSQL promises
-- of them with the tables of db_migrations/01_user.up.sql; `Github` is what net/http and
-- encoding/json give of GitHub's answers. Web/Browsers has browsers before the application, each
-- with the cookie that it was given. Web/Change is what one request can change. Web/Views has the
-- templates of view/layouts/base_templ.go, view/routes/signin/signin_templ.go and
-- view/routes/dashboard/wallets_handler_templ.go, over `Templ`, the runtime of templ. Web/Views/Html
-- has the document trees that they are to print, and Web/Views/Printed what the runtime promises.
-- InitSolana: cmd/init_solana/main.go from its flags on. `Files` has the calls of the operating
-- system, of encoding/json and of filepath.Join, and InitSolana/Again what they promise; the wallets
-- that solana-go makes are a function of the number of the call. InitSolana/Keys and
-- InitSolana/Created are about the files that are there afterwards.
-- ForceSend and SetupSolana: pkg/test_utils/solana.go. `ForceSendTx` is two goroutines, each at one
-- of a few places; a step is a critical section or a call of the client. ForceSend/Many has
-- `ForceSendTxs`. `SetupSolana` takes the entries that filepath.Walk visits. Its key files are those
-- that InitSolana writes.
-- SetupDb: pkg/test_utils/db.go, over the container library and sqlx.
-- StackTrace: `getStackTrace` of pkg/utils/assert.go, and what `utils.Assert` logs with it.
-- Tests: a database in memory, a transaction, two migrations, tables of accounts, and the results
-- at these.
--
-- Not modelled: the other SQL texts, the tickers of `RunWalletSync` and of `ForceSendTx`, the choice
-- of a route and the sending of assets by Echo, and the contexts that templ's generator hands on
-- without a use.
pub mod Prelude
pub mod Text
pub mod Parser
pub mod Rpc
pub mod Db
pub mod Queue
pub mod Update
pub mod Sync
pub mod Process
pub mod Migrate
pub mod Web
pub mod InitSolana
pub mod ForceSend
pub mod SetupSolana
pub mod SetupDb
pub mod StackTrace
mod Tests
