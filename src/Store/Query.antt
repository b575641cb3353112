-- ===== src/Store/Query.antt =====
-- Queries and statements that several handlers make.
use gp_portal.Base.{str_eq, String, Option, find, update_first, ◌==◌}
use gp_portal.Domain.{
  User, Uuid, Project, Proposal, Baseline, Deliverable, Report, AgentRunLog, WorkerHeartbeat,
  DataProcessingRecord,
}
use gp_portal.Store.Tables.{Db}

-- `db.get(T, id)`
abbrev pub get_user : Uuid → Db → Option User
get_user k db = find (λ r. r.id == k) db.users

abbrev pub get_project : Uuid → Db → Option Project
get_project k db = find (λ r. r.id == k) db.projects

abbrev pub get_report : Uuid → Db → Option Report
get_report k db = find (λ r. r.id == k) db.reports

abbrev pub get_baseline : Uuid → Db → Option Baseline
get_baseline k db = find (λ r. r.id == k) db.baselines

abbrev pub get_proposal : Uuid → Db → Option Proposal
get_proposal k db = find (λ r. r.id == k) db.proposals

abbrev pub get_deliverable : Uuid → Db → Option Deliverable
get_deliverable k db = find (λ r. r.id == k) db.deliverables

-- What is assigned to a loaded row is written to the row with its key.
abbrev pub set_report : Uuid → (Report → Report) → Db → Db
set_report k f db = record db { reports = update_first (λ r. r.id == k) f db.reports }

abbrev pub set_project : Uuid → (Project → Project) → Db → Db
set_project k f db = record db { projects = update_first (λ r. r.id == k) f db.projects }

abbrev pub set_baseline : Uuid → (Baseline → Baseline) → Db → Db
set_baseline k f db = record db { baselines = update_first (λ r. r.id == k) f db.baselines }

abbrev pub get_data_record : Uuid → Db → Option DataProcessingRecord
get_data_record k db = find (λ r. r.id == k) db.data_records

abbrev pub get_heartbeat : String → Db → Option WorkerHeartbeat
get_heartbeat k db = find (λ r. str_eq r.worker_id k) db.heartbeats

-- The run with the identifier, which is the primary key.
abbrev pub get_run : String → Db → Option AgentRunLog
get_run k db = find (λ r. str_eq r.run_id k) db.agent_runs

abbrev pub set_user : Uuid → (User → User) → Db → Db
set_user k f db = record db { users = update_first (λ r. r.id == k) f db.users }

abbrev pub set_data_record : Uuid → (DataProcessingRecord → DataProcessingRecord) → Db → Db
set_data_record k f db = record db {
  data_records = update_first (λ r. r.id == k) f db.data_records;
}

abbrev pub set_run : String → (AgentRunLog → AgentRunLog) → Db → Db
set_run k f db = record db { agent_runs = update_first (λ r. str_eq r.run_id k) f db.agent_runs }

abbrev pub set_proposal : Uuid → (Proposal → Proposal) → Db → Db
set_proposal k f db = record db { proposals = update_first (λ r. r.id == k) f db.proposals }
