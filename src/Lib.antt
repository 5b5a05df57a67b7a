-- ===== src/Lib.antt =====
-- Verification of the fact source, the indexing lifecycle and the ranking of candidates of the
-- academic RAG service.
--
-- The service ingests papers, indexes their chunks in Elasticsearch and Milvus, and answers only
-- from versions that PostgreSQL shows as READY. PostgreSQL is the one business truth: the
-- repository (backend/storage/postgres.py) keeps papers, content versions, ingestion jobs, PDF
-- locators, chunks and physical cleanups; publication (backend/ingestion/index_lifecycle.py) drives
-- a version from PROCESSING to READY through both indexes; the worker
-- (backend/ingestion/cleanup.py) claims due cleanups under a lease and deletes what is inactive.
--
-- Files:
--   Prelude            the Boolean tests, lists over the native numbers, tables by key, texts by
--                      code points, and sorting
--   Storage.Lifecycle  backend/storage/models.py: the states of a version, the transition graph
--                      ALLOWED_LIFECYCLE_TRANSITIONS, the validator lifecycle_fails_closed
--   Storage.Records    backend/storage/models.py: the other records and their validators
--   Storage.Database   the tables, the connection and transactions
--   Storage.Versions   transition_version, and the trigger and the unique index of the migrations
--   Storage.Jobs       register_ingestion_job, update_ingestion_job
--   Storage.Indexing   record_indexing_failure, finalize_indexing_success
--   Storage.Registration  register_document, register_version and
--                      register_version_and_ingestion_job
--   Storage.CleanupQueue  enqueue_cleanup, claim_cleanup, complete_cleanup, record_cleanup_failure
--   Storage.Online     get_online_version, resolve_online_versions
--   Storage.Snapshots  persist_runtime_snapshot, load_online_chunks, get_inactive_pdf_object,
--                      get_pdf_object, purge_inactive_runtime_snapshot
--   Ingestion.Effects  the state of a call that uses the repository and outside services
--   Ingestion.Writers  the index writers and the errors of publication
--   Ingestion.Publication  publish_prepared_indexes
--   Ingestion.Inactivation  inactivate_and_schedule_cleanup, PersistentIndexCleanupScheduler
--   Ingestion.Worker   PersistentIndexCleanupWorker and PersistentRuntimeSnapshotCleaner
--   Ingestion.Splitter backend/ingestion/splitter.py: the structural split, from the headings on,
--                      and _chunk_text of the fixed-boundary split
--   Retrieval.Results  backend/retrieval/results.py: ranked candidates and their checks
--   Retrieval.Fusion   backend/retrieval/hybrid.py and backend/retrieval/remote_hybrid.py:
--                      reciprocal-rank fusion
--   Retrieval.Coverage backend/retrieval/comparison_route_coverage.py: the configuration and the
--                      plan of the route coverage of a comparison
--   Answers            backend/rag/answer_builder.py: an answer with its evidence and citations
--   Tests              concrete runs
--
-- State. A connection is a pair of databases: `committed`, which others see, and `working`, which
-- the open transaction sees. A repository call is a function from a connection to a result, or an
-- error by its exception class, and a connection; `_commit` and `_rollback` copy one database to
-- the other. An SQL statement is a function on the tables, with its unique and foreign keys as
-- errors. Rows that another session has locked, which SKIP LOCKED passes over, are a predicate.
-- Each call runs against the tables as it finds them; the interleaving of sessions is that of whole
-- calls, except for the rows locked. A round of the worker and an inactivation call the repository
-- several times: no other session changes the tables between those calls, so that a round of the
-- model never meets a lease that was lost during the deletion. What its report does then, on tables
-- that others have changed in any way, is the subject of Ingestion.Worker.Lost.
--
-- A search returns its result or the ValueError that it raises, as data. Dictionaries that the code
-- fills key by key are lists of entries in the order of insertion, and sets are lists without
-- repetition; `sorted` is a stable insertion sort by a strict order of keys.
--
-- Outside the model. What the clock and the id factory return are arguments. The order of texts in
-- the database, the digests of a list of chunks and of a request, the index writers, the object
-- store, the searches that a fusion joins and the folding of case are parameters. Nothing is assumed
-- of them, except that the order of texts is a strict order where the first row of a query matters
-- (Storage.CleanupQueue.Order.IsTextOrder). The matches of the patterns of the splitter are
-- parameters, too; where it matters, that they are in order and in the range searched is a
-- hypothesis. Of the floats of the scores the development
-- assumes that finite ones are ordered and that adding the reciprocal of a positive number keeps a
-- score finite (Retrieval.Fusion.Scores). Times are numbers of microseconds, so time zones are
-- left out. A text that pydantic constrains by a pattern is any text, except where the code tests
-- the pattern itself; there it is tested over code points.
--
-- Fuel. Four functions run on fuel: three loops of the splitter (group_units, windows,
-- unit_windows), as many rounds as there are units, or as there are characters in the sentence or
-- the unit, since each round takes one at least; and the decimal digits of a position
-- (Answers.Builder), as many rounds as the number. Every other function is a composition or a
-- structural recursion on a list.
--
-- Not modelled: parsing, the choice of the headings of a text, the mapping of fixed-boundary
-- chunks to the source text, the clients of the search services, the decomposition of comparisons,
-- generation, evaluation, the HTTP interface and the scripts.
pub mod Prelude
pub mod Storage
pub mod Ingestion
pub mod Retrieval
pub mod Answers
pub mod Tests
