-- ===== src/Lib.antt =====
-- A model of gemstone-py, the Python client of the GemStone object database: the parts of it that
-- decide something, with theorems about them.
--
-- The program talks to a stone through a session (gemstone_py/client.py). Around the session stand
-- the session pool and the request scopes of the web frameworks, which borrow sessions, end their
-- transactions and give them back; the migrations, which order a manifest of schema steps by
-- their dependencies and apply or roll back what is pending; and the queries, which read the records
-- of a collection in chunks. What the stone and the foreign-function layer do is outside the repository's Python: it is a parameter, a record of
-- functions on a world whose type is unknown, and nothing is assumed of it except where a theorem
-- has a hypothesis.
--
--   Prelude     library names, equality as an instance, dictionaries as association lists, results,
--               and actions on a state that may raise (the state written before a raise is kept).
--   Session     the session as the helpers see it, and what its calls raise.
--   Oop         gemstone_py/_gci_ctypes.py: the tags, the small integers and the characters. Oop.Arguments
--               is OopRef.send of gemstone_py/client.py and _argument_to_oop of gemstone_py/oop.py.
--   Batch       gemstone_py/_smalltalk_batch.py: encode is the block of escaped_field_encoder_source,
--               Batch.Stream the rows that the snippets write, Batch.Fetch the fetch functions with
--               the sources that they send. Texts are lists of code points.
--   Client      GemStoneSession of gemstone_py/client.py over a record of the library's functions.
--               Client.Session is _require_lib, the thread ownership, _activate_session with the
--               drain of pending removals and _require_login; Client.Exports the reference counts
--               and the handles of gemstone_py/oop.py; Client.Calls the login, the transactions and
--               the primitives; Client.Marshal _marshal and _python_value_to_oop; Client.Bulk the
--               bulk sends with the sources that they build. The fields that change are the record
--               Client, and the thread that calls is an argument.
--   Codegen     gemstone_py/codegen.py: the names that it makes, which are the selectors of methods, the
--               classes of wrappers and their modules.
--   Concurrency gemstone_py/concurrency.py: commit with what it collects of a conflict, nested_transaction,
--               lock, read_lock, unlock and the shared counters, over the session of Client. A with
--               block is a function of its body.
--   Query       gemstone_py/gsquery.py. Query is the values of json.loads and what the parts ask of
--               Python and of a session, the records Python and Stone; Query.Paths the lambda's
--               recorder and the paths into a record; Query.Sources the sources that are sent and
--               the reply to a chunk; Query.Iterator GSCollectionIterator; Query.Collection, with
--               Query.Collection.Writes, GSCollection; Query.Select the class Query.
--   Scope       gemstone_py/web_core.py. Scope.Transaction is TransactionScope (finalize, _commit,
--               _abort, last_outcome) and Scope.Request is RequestScope (session, finalize).
--   Pool        gemstone_py/session_providers.py. Pool.Provider is what GemStoneSessionProvider does
--               with one session (the recycle and idle tests, the health check, the reset, the
--               checkout, the creation); Pool.Methods is GemStoneSessionPool's state with release,
--               close, _discard_session and the statistics; Pool.Checkout is acquire; Pool.Upkeep is
--               warm, sweep_idle and lease. The pool's methods take and return the whole pool, and
--               log what the event listener is told.
--   Retry       gemstone_py/transactions.py: run_transaction_with_retry on a session of the caller's
--               and on sessions of its own, with __exit__ of gemstone_py/client.py. The two loops
--               have one body in the source, try_once, and one loop around it, run_attempts.
--   GStore      gemstone_py/gstore.py. GStore.Transaction is GStoreTransaction, the handle with its
--               pending writes and deletions, and GStore.Store is _read_file, _write_file,
--               _commit_with_retry and the context manager GStore.transaction; GStore.Files is rm,
--               rm_all and list.
--   Migrations  gemstone_py/migrations.py. Migrations.Order is _ordered_steps and Migrations.Plan is
--               plan_upgrade, plan_downgrade and validate_migration_state. Migrations.Stored reads
--               the stored version table and lock, Migrations.Run is the advisory lock, and
--               Migrations.Run.Execute is upgrade and downgrade, with their dry runs. Migrations.Class
--               is the class Migration: run, rollback, each_in_chunks and _commit_with_retry.
--
-- Bounds and fuel. The recursive visit of _ordered_steps runs on fuel, the number of steps, which
-- is enough for every list of steps. The loops of acquire and warm run on fuel that the caller
-- gives, because the source's loops do not end when every fresh session is refused; running out is an
-- error of its own. Where fresh sessions pass and no other thread runs, one round for each idle
-- session and one more are enough for acquire. The retry loops recurse on the number of attempts that is left, as the source's
-- for loops do. Times are whole ticks, a
-- numeral for a duration, and Python's integers are unbounded, so that the native numbers are exact.
--
-- The loops over a query's iterator run on fuel, because an iterator takes the number of records from
-- the server: a round for each record and one more are enough where the chunks hold records.
--
-- The drain of pending removals runs one round for each entry and one more, which is all of them.
-- Sizes that the library gives are numbers, so that a negative one counts as none.
--
-- Threads. In Pool.Threads the threads of a pool interleave: each keeps its place in acquire,
-- release, warm, sweep_idle or close, and moves by one call on the queue or one block under the lock
-- at a time. A thread is taken to release the session that it holds, and only once, which the pool itself
-- does not check. Elsewhere a method of the session runs to its end before another thread's begins, and finalizers
-- run between methods; one call of the pool runs without another in between, except during the wait of acquire,
-- where the other threads are a function on the pool that keeps its capacity.
--
-- Not modelled: the foreign-function layer, what the Smalltalk sources do on the server, the
-- reduced-conflict collections and the dates of concurrency.py, GSCollection.intersect, which compares
-- the texts of json.dumps, the async facade, the persistent roots, the object log, what the code
-- generator writes around its names,
-- the metrics and tracing exporters, the command line, the benchmarks and the release tools.
pub mod Prelude
pub mod Session
pub mod Oop
pub mod Batch
pub mod Scope
pub mod Client
pub mod Codegen
pub mod Concurrency
pub mod Query
pub mod Pool
pub mod Retry
pub mod GStore
pub mod Migrations
