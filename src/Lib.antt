-- ===== src/Lib.antt =====
-- Chipatelier runs the open-source chip flow ORFS for students: a web API takes
-- jobs and submissions, a queue hands jobs to workers, and a worker runs each in
-- a container and grades what students submit.
--
-- The parts, and the files that model them:
--
-- - backend/app/models: Model holds the rows as records, the status columns as
--   data types and the database as a record of tables. Ids and times are
--   numbers, metrics are integers (decimals scaled by one common factor), and
--   columns that no modelled operation reads are left out. A query is `select`,
--   `find?`, `join` or `order_by` of Prelude/Tables.
-- - backend/app/api/routes: a handler is a function from a state to a response or
--   an error of Http and the state that it leaves; `require`, `found` and
--   `scalar_one_or_none` are the source's guards. Jobs models jobs.py (submit_job,
--   get_job_status, cancel_job, get_log_history, update_run_notes), Submissions
--   models submissions.py (submit_run, list_my_submissions, preview_score,
--   get_leaderboard), Courses and Courses/Dashboard model courses.py, and
--   Assignments models assignments.py, and Auth models auth.py, with api/deps.py
--   and core/security.py, over the interfaces Crypto (argon2 and PyJWT) and
--   KeyStore (keys with a time to live) of Auth/Store. Times are whole seconds, and `within`
--   says that a logout is not at the start of its second. A Python helper `_name` is `name`.
-- - worker/tasks/fair_queue.py: FairQueue, over the interface Redis of
--   FairQueue/Store, whose laws are those of the Redis commands. submit_job writes
--   to the same sorted set that drain_queue reads.
-- - worker/tasks/orfs_job.py: Worker. A run of the task takes its environment Env
--   (what Docker, the file system and Celery answer) and changes a state of the
--   database, the log, the container and the workspace; Worker/Monad has its
--   exceptions, and the log buffer is an interface in Worker/Store. The SystemExit that
--   ends a worker whose task is revoked with `terminate`, and run_orfs_job_high, which
--   calls that task with one argument too many, are not modelled.
-- - backend/app/services/log_parser.py and the patterns of the worker: LogParser.
-- - worker/container/warm_pool.py: WarmPool, the pool that a job claims its
--   container from; in Worker the claim is a part of Env. `drain` takes the ids on which
--   Docker fails as an argument.
-- - backend/app/api/routes/projects.py: Projects (rows and keys in its children), over the interfaces Python (ids as
--   texts, str.lower, UTF-8) and Bucket (the S3 commands) of Projects/Storage, which also
--   models services/storage_service.py and tasks/storage_cleanup.py. A key is a list of
--   code points. `fails` says at which keys PutObject raises.
-- - backend/app/api/routes/vnc.py and worker/tasks/vnc_session.py: Vnc and Vnc/Task, over
--   VncJwt of Vnc/Tokens; Vnc/Steps has the requests and the tasks as a step relation.
-- - backend/app/services/metrics_service.py: Metrics. worker/tasks/tile_generator.py:
--   TileGenerator, which reads the metrics and writes the run that Submissions grades.
-- - backend/app/api/routes/artifacts.py and query.py: Artifacts.
-- - worker/container/manager.py and worker/tasks/watchdog.py: Containers.
-- - backend/app/api/routes/admin.py and `require_role`: Auth/Admin.
-- - backend/app/api/websocket.py: Websocket, as events beside those of the worker that
--   publishes. backend/app/api/routes/ai.py: Advisor has its retries and its stream.
-- - Jobs/Transitions is an abstract transition system of a run's status, the specification
--   of the job endpoints in Jobs/Lifecycle; Worker/Cancelled follows a cancelled run through
--   the API, the queue and the worker.
-- - worker/tasks/checkpoint_eval.py: Grading is the pure evaluation, where `none`
--   is a KeyError, and Submissions/Task is the Celery task around it.
--
-- Handlers run one after the other, as the steps of a request do between two
-- commits; where the source guards against another commit in between (enrolling
-- and registering),
-- that commit is an argument. Fault arguments (RedisFault, TaskFault, Env) say
-- where Redis, the database or Docker raises. What the database, the broker and
-- the random generator choose (new ids, task ids, draws) is an argument too.
-- Every loop recurs on a list or on a number that the source fixes (ten attempts
-- for an enrollment code, the free capacity for a drain), so no fuel is needed.
--
-- Not modelled: the prompts of the AI advisor, configuration, start-up and
-- migrations. OpenROAD, KLayout, Docker, boto3 and Celery are what they answer. The text
-- of the CSV export, the formatting of names on the leaderboard and JSON are left to the
-- libraries that write them. Examples holds concrete stores and a small database
-- at which the theorems are applied.
pub mod Prelude
pub mod Http
pub mod Model
pub mod Grading
pub mod FairQueue
pub mod Jobs
pub mod LogParser
pub mod Worker
pub mod Submissions
pub mod Courses
pub mod Assignments
pub mod Auth
pub mod WarmPool
pub mod Vnc
pub mod Projects
pub mod Metrics
pub mod TileGenerator
pub mod Containers
pub mod Artifacts
pub mod Websocket
pub mod Advisor
pub mod Examples
