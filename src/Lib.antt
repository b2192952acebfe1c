-- ===== src/Lib.antt =====
-- A model of the gas station of this repository: a server that keeps gas coins of a sponsor in
-- Redis, reserves some of them for a client, signs and executes the client's transaction with them,
-- and puts the coins back afterwards.
--
-- The parts, and the files that model them:
--   * `Prelude` has the shared helpers: tests, lists, results and signed integers; `Text` is text
--     as code points, with decimal numbers and comma separated fields.
--   * `Types` is src/types.rs, and `Sui` has what the code reads of the types of the Sui SDK.
--   * `Storage` is the store of one sponsor. `Storage/Store` has the keys in Redis and the commands
--     on them, `Storage/Scripts` the Lua scripts of src/storage/redis/lua_scripts, one function per
--     script, with the doubles of Lua (`Storage/Double`); `Storage/Redis` has the methods of
--     `RedisStorage` in src/storage/redis/mod.rs (`Count` the query of the reserved coins), and
--     `Storage/Interface` the trait `Storage` of src/storage/mod.rs, as a record that the pool
--     takes. `Storage/Invariant` and `Storage/Reserved` are the abstract views: the list of
--     available coins, and the reservations with their objects. `Storage/Flow` has the life of the
--     coins as a step relation: the tasks that share the store, in any interleaving, with the
--     objects that are out of the store. `GasPool/Core/Steps` and `Initializer/Run/Steps` relate
--     the methods of the pool and the runs of the initializer to these steps. `Storage/Url` is
--     `build_redis_url` of src/storage/mod.rs, and `Storage/Connect` the function `connect_storage`
--     there.
--   * `UsageCap` is src/gas_pool/gas_usage_cap.rs, as single calls (`Daily`) and interleaved
--     (`Race`).
--   * `Locks` is src/object_locks.rs: the set of locked objects, the cache of owners, and the
--     guards.
--   * `Retry` is src/errors.rs, `SuiClient` is src/sui_client.rs, with the pages (`Paging`) and the
--     chunks (`Chunks`) of its queries.
--   * `GasPool` is src/gas_pool/gas_pool_core.rs. `GasPool/Core` has the state, made of the store,
--     the cap and the lock manager, and one function per method; the method `execute_transaction`
--     of the pool is `execute_transaction'` there, since the client of the node has one of the same
--     name. `GasPool/Core/Tasks` cuts `execute_transaction` and the background task where they
--     await: a task is what a method has found so far, and any number of tasks share the pool and
--     take turns (`Moves`), where clients pay with coins of their own reservations (`Own`). The
--     code does not test this: it neither compares the payment of a transaction with its
--     reservation, nor the coins that it adds with those that were taken out.
--   * `Initializer` is src/gas_pool_initializer.rs: the split of one coin (`Conservation`,
--     `Pieces`), the queue of tasks (`Queue`) with a full node that executes them (`Honest`), and
--     the run under the lock (`Run`), put together with the client of the node in `Run/Whole`.
--     `Rpc` is src/rpc/server.rs, rpc_types.rs and client.rs, with the routes (`Routes`), the
--     health checks (`Health`) and the client's requests (`Calls`). `Metrics` is src/metrics.rs:
--     the registration at the start (`Fresh`), and the counters that the handlers of `Rpc` write
--     (`Requests`). `Signers` is src/tx_signer.rs with the sidecar of aws_kms_sidecar that it calls
--     (`Sidecar`). `Station` is src/command.rs with src/config.rs: the start, from the signer and
--     the storage to the pool. `Tool` is src/bin/tool.rs. `Benchmarks` is the statistics of
--     src/benchmarks/mod.rs, and `Benchmarks/KmsStress` the load on the signer of
--     src/benchmarks/kms_stress.rs. A handler calls the method of the pool, and the pool calls its
--     store, its locks, its cap and the client of the node. `Tests` has concrete data and the
--     examples of the theorems.
--
-- A call that may fail and changes a state is a function from the state to a result and a state:
-- what it wrote before it failed stays written. `unwrap` and `expect` are the error `panic`, which
-- ends a task; that the release build then aborts the process is not modelled. Words of 64 bits
-- keep their wrap-around. The clock, the full node, the signatures of the SDK, tokio_retry, the
-- cache of moka, the JSON of coins, the texts of ids, reqwest and the registry of Prometheus are
-- parameters.
--
-- Fuel: the loop of the reservation script runs over the 256 coins that it may take, and the chunks
-- of a list over its length, so neither runs out. `until_ok` has the number of attempts at the
-- store as a parameter, where the code tries forever; in `GasPool/Core/Tasks` a task that puts
-- coins back takes turns until the store takes them. The loop of `SuiClient` over pages is on fuel,
-- and enough is as many pages as the node serves; so is the loop of `Initializer` over tasks, where
-- enough is the total balance of the coins, since every split leaves at least one coin more.
--
-- Not modelled: logs, and the metrics that the pool and the storage write, with what is computed
-- only for them; the parsing of the command line, HTTP and JSON, the load that a benchmark makes,
-- and of the TypeScript sidecar what reads DER and calls KMS. The methods of the pool are single
-- functions, and other calls run between their parts in `GasPool/Core/Tasks`; inside one turn a
-- call of the cap runs whole, and `UsageCap/Race` has its parts interleaved.
pub mod Prelude
pub mod Text
pub mod Types
pub mod Storage
pub mod UsageCap
pub mod Sui
pub mod Locks
pub mod Metrics
pub mod Retry
pub mod SuiClient
pub mod GasPool
pub mod Initializer
pub mod Rpc
pub mod Tests
pub mod Signers
pub mod Station
pub mod Tool
pub mod Benchmarks
