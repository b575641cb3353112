-- ===== src/Lib.antt =====
-- A model of the core of the Jump GP Portal, the backend by which project managers (GP), the PMO
-- and clients work on projects, baselines of deliverables and periodic status reports.
--
-- A request is an action of a small state monad over the tables, which are lists of rows: it reads
-- and writes pending rows, commits them under the unique constraints, or ends in an error that
-- rolls back what was not committed. The handlers of backend/app/api/v1 are translated in the
-- order of their statements; a call that the source wraps in `try ... except Exception: pass` is
-- `attempt`, so that what follows it is proved for each way it may end.
--
--   Base            tests, lists and texts that the parts share
--   Domain          the enumerations and rows: backend/app/models/domain.py and user.py
--   Store           the tables, the session of a request (`Request`), queries, and the rules by
--                   which properties of actions are proved: what an action keeps (`Rules`), what
--                   it ends in (`Triple`, `Endings`), what it writes without a commit (`Silent`)
--   Access          roles and ownership: backend/app/api/deps.py and the checks of the handlers
--   Notifications   the rows that notifications add, and their reading:
--                   backend/app/services/notifications.py
--   HealthScore     the score of a project: backend/app/services/health_score.py
--   Report          creation, autosave, submission (backend/app/api/v1/reports.py) and approval
--                   (approvals.py, and `confirm_read` of client_portal.py). `Report.Rule` is the
--                   interface of a rule on the rows; `Report.Validity` and `Report.Approved` fill it
--   Baseline        deliverables, activation and transition (baselines.py) and the comparison of
--                   two baselines (`compute_baseline_diff`, `diff_baselines` of client_portal.py)
--   Prepopulate     the draft that inherits: backend/app/services/prepopulate.py
--   Closing         `close_project` and `get_retrospective` of projects.py
--   Lifecycle       sequences of the requests that write a report
--   Projects        `create_project`, `upload_proposal` and the readings of projects.py
--   Storage         the paths and links of the local storage: jump_storage/jump_storage/local.py
--   Privacy         data requests under the LGPD: admin_data_requests.py, and the records of me.py
--   Agents          the backend's side of the agents: a worker's callbacks (`Auth`, `Results`:
--                   backend/app/core/worker_auth.py and backend/app/api/internal), the publisher of
--                   jobs (`Queue`: backend/app/queue/publisher.py), and the stand-ins of the workers
--                   (`Stub`, `Analyzer`: worker_stub.py and report_analyzer_stub.py of
--                   backend/app/services); `Life` is the calls of these in any order
--   Runner          the agents: jump_agent_runner/jump_agent_runner. `Extract` and `Validator` are
--                   artifact.py, `Provider` is providers/_base.py, `Failover` is runner.py; the
--                   file system, the clock, Python's JSON and the routes are parameters (`World`)
--   Worker          the process that serves the queue: worker/worker/main.py with the callbacks of
--                   http_client.py, the counters of heartbeat.py and prompt_builder.py; Redis, the
--                   network, the directory of a run and the runner are parameters
--   Examples        rows on which the theorems are applied
--
-- Conventions. A key made by `uuid4` is the next number of a counter. A date is its ordinal and a
-- datetime a count of microseconds; the time at which a request is served is its argument. Floats
-- are an interface (`HealthScore.Arithmetic`) with the rounding laws in `HealthScore.Bounds`; the
-- decoding of bearer tokens is a parameter. Requests run one after the other: two transactions
-- that overlap are not modelled. No definition needs fuel: every loop runs over a list, or over
-- the attempts that are left of a request.
--
-- Not modelled: responses as JSON and the endpoints that only read, e-mail and server-sent events,
-- the log-in, the routes of the agent runner, which start programs, the worker's periodic
-- heartbeat, what the disk does with a path, the R2 back end of the storage, the archive of a data
-- export, portfolio pages, migrations and the frontend.
mod Base
pub mod Domain
pub mod Store
pub mod Access
pub mod Notifications
pub mod HealthScore
pub mod Report
pub mod Baseline
pub mod Prepopulate
pub mod Closing
pub mod Lifecycle
pub mod Agents
pub mod Projects
pub mod Privacy
pub mod Runner
pub mod Storage
pub mod Worker
mod Examples
