-- ===== src/Lib.antt =====
-- txova-go-db: query builders, errors and transactions for PostgreSQL, and utilities for Redis.
--
-- The parts and their files (paths are those of the repository):
--   Prelude         native numbers, lists, Go results (`Result`: a value or an error), integers
--   Text            texts as lists of code points; strings.Join, TrimSpace, ToUpper, %d of fmt
--   Postgres/Identifier      postgres/query.go, columnNameRegex as a recogniser
--   Postgres/QueryBuilder    postgres/query.go, the allowlist and the validation of names
--   Postgres/Placeholders    postgres/query.go, replacePlaceholders and buildConditionClauses
--   Postgres/Select          postgres/query.go, SelectBuilder: setters, Validate, Build
--   Postgres/Insert, Update, Delete    postgres/insert.go, update.go, delete.go
--   Postgres/Errors          postgres/errors.go, and isRetryable of postgres/txmanager.go; Kinds, the
--                            constructors and predicates of single codes
--   Postgres/Tx              postgres/txmanager.go, pgxTx of tx.go, BeginTx of pool.go; Options, the
--                            options of the manager and the transaction of a context
--   Postgres/Tx/Delay        calculateRetryDelay over int64
--   Postgres/Statements      Exec, Query, QueryRow of postgres/pool.go, conn.go and tx.go
--   Postgres/Pool            postgres/pool.go: configuration, NewPool, connections
--   Postgres/Migrate         postgres/migrate.go
--   Redis/Errors             redis/errors.go; Kinds, the constructors and predicates of single codes
--   Redis/Server             the server's commands for the locks and their documented laws (not in
--                            the repository); Redis/Server/Listed, a server that satisfies them
--   Redis/Lock               redis/lock.go
--   Redis/RateLimit          redis/ratelimit.go: the fixed window; Sliding, the sliding one; Options
--   Redis/Keyspace           the server's strings, sets and times to live and their documented laws
--                            (not in the repository); Redis/Keyspace/Mapped, one that satisfies them
--   Redis/Json               encoding/json as a codec with its laws (not in the repository)
--   Redis/Cache              redis/cache.go: texts; Codec, the JSON operations; Batches,
--                            DeleteByPattern; Keys, the keys and KeyBuilder
--   Redis/Session            redis/session.go: create, get, touch; Ids, the ids; Index, the
--                            operations on the sessions of a user
--   Redis/Client             redis/client.go
--
-- A builder is a record with the fields of the struct; a setter is a function on it, named after the
-- method (`and_where` is Where, `set_value` is Set). The values of a statement are of any type. `Build`
-- validates and then writes the clauses, each with the index of the next placeholder. Where the
-- source writes the loop of buildConditionClauses out again (update.go, delete.go), the model uses
-- the one definition. Its specification is the statement as it was written, with every placeholder a
-- `?`, numbered as one text; `parameters` reads the references `$n` back from the SQL.
--
-- The transaction manager passes the history of its calls along: begin, run of the caller's function,
-- commit, rollback, wait. An `Environment` says what the driver, the function and the context answer
-- after each history; nothing is assumed about it but what a theorem names. An error is a chain of
-- causes, and errors.As searches the chain. The loop of executeWithRetry recurses on the rounds that
-- are left, MaxRetries + 1 at the start, so no fuel is needed. `rand.Int64N` is a function between 0
-- and its argument. Durations are int64 nanoseconds with their wrap-around. The calls of a pool, a
-- connection and a transaction take the driver's answer as an argument and return what they log.
-- golang-migrate is a parameter with a state of its own.
--
-- The locks run over a `Server`: its store is any type, its commands are functions on the store, and
-- `Laws` states what their documentation says. A call is delivered, refused, or has its reply lost;
-- a Lua script is one call. Expiry is not a step of the model: mutual exclusion is stated until the
-- key expires. What differs between attempts (owner, clock, connection, context, and what others do
-- during the sleep) is a `World`. The loop recurses on the RetryCount rounds.
--
-- The limiter runs over `Counters`, the commands on keys that hold a number, with `CounterLaws` in the
-- same way, and the sliding window over `SortedSets` with `SetLaws`. Counts are integers that INCRBY
-- does not overflow. GetStatus reads both replies of its pipeline from one state of the store.
--
-- The cache and the sessions run over a `Keyspace` with `KeyLaws` in the same way. A pipeline is
-- delivered as a whole, or is cut behind a number of its commands (`Delivery`). What the connection
-- answers, the clock readings and the random bytes are arguments of the operations; the keys that
-- SCAN yields are an argument of DeleteByPattern, which recurses on them. Values are encoded by a
-- codec whose decoding undoes its encoding (`CodecLaws`). The goroutine that removes stale ids from
-- the index is the separate step `clean_up` on the ids that the caller leaves to it.
--
-- Assumed of texts: they are lists of code points; ToUpper is that of ASCII texts; `%d` has fuel for
-- one digit more than the number has units. Logging is left out, but for that of Postgres/Statements,
-- and so is the formatting of error messages, but for Error(), which FromRedisError reads.
-- SetMap iterates over a Go map, whose order is not fixed: the model takes the entries in the order of
-- the iteration.
--
-- Not modelled: postgres/interfaces.go, which has no code; Close, Stat, Stats and Release of pools,
-- connections and clients, where they only pass on a call of the driver; of the errors, Is and As
-- against the error type of the core library, the constructors that format a message, and WithMessage
-- and WithCause of redis/errors.go.
pub mod Prelude
pub mod Text
pub mod Postgres
pub mod Redis
