-- ===== src/Examples/Callbacks.antt =====
-- Data requests, callbacks of workers and the stand-ins, at concrete rows.
use gp_portal.Base.{◌≡◌, refl, String, true, none, some, List, [], ◌∷◌, str_eq, All, if◌then◌else◌}
use gp_portal.Domain.{
  ProposalStatus, ReportStatus, TaskType, AgentRunStatus, DpRequestType, DpRequestStatus, Uuid,
  Proposal, AgentRunLog, DataProcessingRecord,
}
use gp_portal.Store.{Db, ok, run, get_user, get_run, ◌>>=◌, integrity}
use gp_portal.Privacy.{fulfilled_by, fulfill_open, fulfill_request, anonymized}
use gp_portal.Privacy.Fulfilled.{Fulfilment, fulfill_request-Fulfilment, fulfill_request-once}
use gp_portal.Privacy.Anonymous.{
  PrivacyCall, fulfill, export, after_requests, after_requests-IsErased, after_requests-anonymized,
  IsErased,
}
use gp_portal.Agents.Auth.{WorkerKeys, WorkerCallback, require_worker_auth, absent}
use gp_portal.Agents.Auth.Skew.{Genuine, require_worker_auth-Genuine}
use gp_portal.Agents.Results.{
  AgentResultPayload, result_accepted, report_agent_result, accept_result,
}
use gp_portal.Agents.Results.Final.{Report, report_agent_result-Report}
use gp_portal.Agents.Queue.{JobRequest, queued_log, enqueue_agent_job, publish, rpush}
use gp_portal.Agents.Queue.Once.{enqueue_agent_job-once}
use gp_portal.Agents.Life.{
  AgentCall, Environment, enqueue, result, after_agents, after_agents-final,
}
use gp_portal.Agents.Stub.{
  StubSettings, process_proposal, extract_proposal, add_deliverables, compare_versions,
}
use gp_portal.Agents.Stub.Extracted.{process_proposal-once}
use gp_portal.Agents.Stub.Single.{process_proposal-OneActive}
use gp_portal.Baseline.Transition.Unique.{OneActive}
use gp_portal.Examples.Data.{rows, pmo_user, client_user, report}

abbrev show_key : Uuid → String
show_key k = "key"

abbrev deletion : DataProcessingRecord
deletion = record {
  id = 60;
  subject_user_id = some 3;
  subject_external_email = none;
  request_type = DpRequestType.deletion;
  status = DpRequestStatus.pending;
  requested_at = 0;
  fulfilled_at = none;
  handled_by_id = none;
  notes = none;
}

abbrev asked : Db
asked = record (rows [] [] []) { data_records = deletion ∷ [] }

abbrev fulfilled : DataProcessingRecord
fulfilled = fulfilled_by 5 2 deletion

fulfill_request-Fulfilment_example :
    Fulfilment show_key 5 pmo_user 60 asked
      (run (fulfill_request show_key 5 pmo_user 60) asked).1
      fulfilled
unfolding fulfill_request fulfill_open ◌>>=◌ integrity
fulfill_request-Fulfilment_example =
    fulfill_request-Fulfilment show_key 5 pmo_user 60 asked fulfilled refl

fulfill_request-once_example :
    let after = (run (fulfill_request show_key 5 pmo_user 60) asked).1 in
    run (fulfill_request show_key 9 pmo_user 60) after ≡ (ok fulfilled, after)
unfolding fulfill_request fulfill_open ◌>>=◌ integrity
fulfill_request-once_example =
    fulfill_request-once show_key 5 pmo_user 60 asked fulfilled refl 9 pmo_user refl

abbrev calls : List PrivacyCall
calls =
    record { now = 5; user = pmo_user; request = fulfill 60 }
    ∷ record { now = 6; user = pmo_user; request = export }
    ∷ []

nobody-IsErased : All (IsErased show_key (λ s. s)) asked.users
nobody-IsErased = ((λ t e. cc), ((λ t e. cc), ((λ t e. cc), tt)))

after_requests-IsErased_example :
    All (IsErased show_key (λ s. s)) (after_requests show_key (λ s. s) calls asked).users
after_requests-IsErased_example =
    after_requests-IsErased show_key (λ s. s) calls asked nobody-IsErased

abbrev erased_rows : Db
erased_rows = record asked { users = anonymized show_key 4 client_user ∷ pmo_user ∷ [] }

after_requests-anonymized_example :
    get_user 3 (after_requests show_key (λ s. s) calls erased_rows)
    ≡ some (anonymized show_key 4 client_user)
after_requests-anonymized_example =
    after_requests-anonymized show_key (λ s. s) 3 (anonymized show_key 4 client_user) 4 calls
      erased_rows refl refl

abbrev keys : WorkerKeys
keys = record {
  worker_shared_secret = "token";
  worker_hmac_key = "key";
  hexdigest = λ secret body. "digest";
  parse = λ s. if str_eq s "soon" then some 1000 else none;
  equal = λ a b. true;
}

abbrev callback : WorkerCallback
callback = record {
  x_worker_token = some "token";
  x_worker_timestamp = some "soon";
  x_worker_signature = some "digest";
  body = "{}";
  now = absent;
}

require_worker_auth-Genuine_example :
    ((body : String)
      → (run (require_worker_auth keys 900 callback) asked).0 ≡ ok body
      → Genuine keys 900 callback)
    × (Genuine keys 900 callback
        → run (require_worker_auth keys 900 callback) asked ≡ (ok "{}", asked))
require_worker_auth-Genuine_example = require_worker_auth-Genuine keys 900 callback asked

abbrev payload : AgentResultPayload
payload = record {
  success = true;
  engine_used = some "claude";
  route_used = some "headless";
  artifact_data = none;
  artifact_path = some "out.json";
  attempts = [];
  duration_s = none;
  failure_reason = none;
  failure_detail = none;
  worker_id = some "worker";
}

abbrev job : JobRequest
job = record {
  task_type = TaskType.proposal_extraction;
  project_id = some 10;
  proposal_id = some 20;
  report_id = none;
  context = [];
  input_files = [];
  output_path_hint = "out.json";
  schema_hint = none;
  timeout_hard_s = 600;
  heartbeat_s = 30;
  engine_preference = none;
}

abbrev running : Db
running = record (rows [] [] []) { agent_runs = queued_log 5 "run" job ∷ [] }

report_agent_result-Report_example :
    Report keys
      (λ b. some payload)
      900
      callback
      "run"
      running
      (run (report_agent_result keys (λ b. some payload) 900 callback "run") running).1
      (result_accepted "run" AgentRunStatus.done)
unfolding report_agent_result accept_result require_worker_auth ◌>>=◌ integrity
report_agent_result-Report_example =
    report_agent_result-Report keys (λ b. some payload) 900 callback "run" running
      (result_accepted "run" AgentRunStatus.done) refl

enqueue_agent_job-once_example :
    let after = (run (enqueue_agent_job show_key 5 "run" job) asked).1 in
    run (enqueue_agent_job show_key 9 "run" job) after ≡ (ok (queued_log 5 "run" job), after)
unfolding enqueue_agent_job publish rpush ◌>>=◌ integrity
enqueue_agent_job-once_example =
    enqueue_agent_job-once show_key 5 "run" job asked (queued_log 5 "run" job) refl 9 job

abbrev finished_run : AgentRunLog
finished_run = record (queued_log 5 "run" job) { status = AgentRunStatus.expired }

abbrev environment : Environment
environment = record {
  keys = keys;
  read_result = λ b. some payload;
  read_heartbeat = λ b. none;
  show_uuid = show_key;
}

abbrev agent_calls : List AgentCall
agent_calls =
    record { now = 900; request = result callback "run" }
    ∷ record { now = 901; request = enqueue "run" job }
    ∷ []

after_agents-final_example :
    let over = record (rows [] [] []) { agent_runs = finished_run ∷ [] } in
    get_run "run" (after_agents environment agent_calls over) ≡ some finished_run
after_agents-final_example =
    after_agents-final environment "run" finished_run refl agent_calls
      (record (rows [] [] []) { agent_runs = finished_run ∷ [] }) refl

abbrev settings : StubSettings
settings = record { show_number = λ n. "1"; isoformat = λ t. "now"; delay_s = 6 }

abbrev uploaded : Proposal
uploaded = record {
  id = 20;
  project_id = 10;
  version = 1;
  file_url = "url";
  file_sha256 = "sha";
  original_filename = "file";
  size_bytes = 1;
  status = ProposalStatus.pending_extraction;
  uploaded_by_id = 1;
  uploaded_at = 0;
}

abbrev waiting : Db
waiting = record (rows [] [] []) { proposals = uploaded ∷ [] }

process_proposal-once_example :
    let after = (run (process_proposal settings 5 20 none) waiting).1 in
    run (process_proposal settings 9 20 none) after ≡ (ok tt, after)
unfolding process_proposal extract_proposal add_deliverables compare_versions ◌>>=◌ integrity
process_proposal-once_example = process_proposal-once settings 5 20 none waiting refl 9 none

process_proposal-OneActive_example : OneActive (run (process_proposal settings 5 20 none) waiting).1
process_proposal-OneActive_example =
    process_proposal-OneActive settings 5 20 none waiting (λ p. (0, tt))

abbrev submitted : Db
submitted = rows [] (report 50 ReportStatus.submitted ∷ []) []
