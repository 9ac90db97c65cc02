-- ===== src/Lib.antt =====
-- pg-stress: a model of the parts of the program that plan, count and keep state, and what is proved
-- of them.
--
-- The program stresses a PostgreSQL database and watches it. The control plane (control-plane) reads the
-- schema into a graph of foreign keys, plans cascades over it, runs jobs that inject and update rows,
-- and replays imported queries. The ORM load generator (load-generator-orm) profiles the same schema and
-- picks operations by weight. The dashboard (dashboard/app) polls the statistics, keeps samples under
-- the test run that is active, and prunes tables that grow too large. The truth service (truth-service)
-- compares what a collector reports with the database.
--
-- Files, and the code that they model:
-- - SchemaGraph: control-plane/schema_graph.py. Catalog is `_introspect`; State is the class `SchemaGraph`
--   with its SQLite cache, State/Views `cascade_tree` and `summary`, Cascade `cascade_plan`. Network is
--   what the code calls of networkx: the graph is an argument, and laws of its documentation are
--   hypotheses, named where a theorem uses them.
-- - ControlPlane: control-plane/main.py. Jobs is the tracking of jobs, Inject `_do_inject` with its
--   template, BulkUpdate `_do_bulk_update`, CascadeInject `cascade_inject`, Pressure the
--   connection jobs and the ladder. Intensity is
--   `set_intensity`: EnvFile reads and writes environment files, and Lookups, Reading, Writing and Applying
--   prove what is read back. Containers is the lookup of containers and the generators over an interface of
--   Docker, TestRuns `start_test` and `stop_test` with the routes of the dashboard that they call, Flush
--   `flush_data` and the listing of jobs. QueryReplay is control-plane/query_replay.py: its store of
--   queries, in QueryReplay/Importing the imports, and in QueryReplay/Engine and Engine/Reports the class
--   `ReplayEngine`.
-- - Dashboard: dashboard/app. MetricsStore is metrics_store.py, SafetyMonitor is safety_monitor.py,
--   PgPoller is pg_poller.py. Routes and Prune are the routes of main.py that change the store or the
--   tables, with the table limits of config.py.
-- - Orm: load-generator-orm. Introspect, with Chains, Classify, Assemble and Printed, is introspect.py;
--   Operations is the context, the counters and the choice of operations of main.py; Running, with
--   Cloning, Writing and Queries, is the ten operations, and Running/Worker the turns of a worker.
-- - Truth: truth-service/app. CacheMemory is verifiers/cache_memory.py, Reader is jsonl_reader.py on files
--   as bytes, Service is main.py, report.py and the verifiers that are stubs.
-- - Prelude, Floats: shared types. Samples: concrete graphs and numbers on which theorems are tried.
--
-- State is passed on explicitly, and code that may raise returns a result with the state that was left
-- behind. PostgreSQL, SQLAlchemy and networkx are records of operations that the definitions take as
-- arguments. Floats are a type with operations and no laws. Text functions of Python that are not
-- written out here are arguments as well. Rows of SQLite are lists in the order of insertion.
-- A JSON field is missing, a value of the type of its column, or a value with which the code raises; a
-- null that SQLite stores is left out. The row count of a statement that returns is never -1 here.
-- Times of samples are in microseconds, those of jobs in seconds.
--
-- Loops without a bound of their own run on fuel. `cascade_plan` has one round per node and one more; the
-- loops of the inject job and of the pruning have one round per row and one more. Each is proved to
-- return with that. The loop of the bulk update takes the fuel of its caller, since it may
-- not end; where it does, one round per matching row and one more are enough.
--
-- A request from one service to another is delivered, is carried out with the answer lost, or is not
-- carried out; which of them is an argument.
--
-- Not modelled: threads and locks (a turn of a replay worker is one step), the import
-- of a dump, the analysis and the listing of reports of the control plane, the analytics of the dashboard
-- and its routes that only format what others computed, the SQL that the load generator runs, logging and
-- printing, the analyzer, and the parts that are not Python.
pub mod Prelude
pub mod Floats
pub mod SchemaGraph
pub mod Samples
pub mod ControlPlane
pub mod Dashboard
pub mod Orm
pub mod Truth
