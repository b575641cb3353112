-- ===== src/Projects.antt =====
-- Projects and the upload of their proposals: `create_project`, `list_projects`, `get_project`,
-- `upload_proposal`, `get_proposal` and `list_project_risks` of backend/app/api/v1/projects.py.
pub mod Uploaded
pub mod Exposed
use Prim.Native.String.{◌++◌ as append}
use gp_portal.Base.{
  ℕ, ◌+◌, String, Bool, true, false, not, ◌&&◌, Option, none, some, List, [], ◌∷◌, ◌++◌, ◌==◌, ltb,
  str_eq, where_, sort, find, if◌then◌else◌,
}
use gp_portal.Domain.{
  Role, ProjectStatus, ProposalStatus, RiskStatus, TaskType, Uuid, Date, DateTime, User, Project,
  Proposal, Report, Risk,
}
use gp_portal.Store.{
  Db, M, http, storage_error, raise_if, or_raise, pure, gets, modify, new_uuid, flush, commit,
  scalar_one_or_none, ◌>>=◌, ◌>>◌, get_project, get_report,
}
use gp_portal.Access.{require_any_role, same_role, foreign_gp, not_client}
use gp_portal.Closing.{report_in}
use gp_portal.Agents.Queue.{JobRequest, enqueue_agent_job}

pub record ProjectCreate : Type 0 where
  pub name : String
  pub client_name : String
  pub description : Option String
  pub started_at : Option Date
  pub client_user_email : Option String

abbrev pub is_client : Option User → Bool
is_client none = false
is_client (some u) = same_role u.role Role.client

abbrev pub id_of_user : Option User → Option Uuid
id_of_user none = none
id_of_user (some u) = some u.id

-- The client whom the address names; an empty address names nobody.
unfoldable pub find_client : (lower : String → String) → Option String → M (Option Uuid)
find_client lower none = pure none
find_client lower (some String.[]) = pure none
find_client lower (some (String.◌∷◌ c s)) = do
  rows ← gets (λ db. where_ (λ u. str_eq u.email (lower (String.◌∷◌ c s))) db.users)
  client ← scalar_one_or_none rows
  raise_if (not (is_client client)) (http 400)
  pure (id_of_user client)

abbrev pub new_project : DateTime → Uuid → Uuid → Option Uuid → ProjectCreate → Project
new_project now k owner client p = record {
  id = k;
  name = p.name;
  client_name = p.client_name;
  description = p.description;
  gp_user_id = owner;
  client_user_id = client;
  status = ProjectStatus.active;
  started_at = p.started_at;
  ended_at = none;
  health_score_cached = none;
  created_at = now;
}

unfoldable pub create_project :
    (lower : String → String) → DateTime → User → ProjectCreate → M Project
unfolding find_client
create_project lower now user payload = do
  require_any_role (Role.gp ∷ Role.pmo ∷ []) user
  client ← find_client lower payload.client_user_email
  k ← new_uuid
  let row = new_project now k user.id client payload
  modify λ db. record db { projects = db.projects ++ row ∷ [] }
  commit
  pure row

abbrev pub visible_projects : User → Db → List Project
visible_projects user db =
    if same_role user.role Role.gp
    then where_ (λ p. p.gp_user_id == user.id) db.projects
    else db.projects

unfoldable pub list_projects : User → M (List Project)
list_projects user = do
  require_any_role (Role.gp ∷ Role.pmo ∷ Role.operator ∷ []) user
  gets (visible_projects user)

-- `get_project`, the endpoint.
unfoldable pub read_project : Uuid → User → M Project
read_project k user = do
  require_any_role (Role.gp ∷ Role.pmo ∷ Role.operator ∷ Role.client ∷ []) user
  found ← gets (get_project k)
  project ← or_raise found (http 404)
  raise_if (same_role user.role Role.client && not_client user project) (http 403)
  raise_if (foreign_gp user project) (http 403)
  pure project

-- A file that was sent: its size, its SHA-256 in hex, and its name unless that is missing or empty.
pub record UploadFile : Type 0 where
  pub size_bytes : ℕ
  pub sha256 : String
  pub filename : Option String

-- What the service stands on: the printing of keys and numbers, the storage of files, which takes a
-- key or refuses it, and the identifier of a run, none where Redis is not there.
pub record UploadSetting : Type 0 where
  pub show_uuid : Uuid → String
  pub show_number : ℕ → String
  pub takes : String → Bool
  pub run_id : Option String

abbrev pub proposals_of : Uuid → Db → List Proposal
proposals_of k db = where_ (λ p. p.project_id == k) db.proposals

-- The greatest version, or 0: the first one in descending order.
abbrev pub last_version : List Proposal → ℕ
last_version [] = 0
last_version (p ∷ l) = let m = last_version l in if ltb m p.version then p.version else m

abbrev pub storage_key : UploadSetting → Uuid → ℕ → String
storage_key st k version =
    append "proposals/"
      (append (st.show_uuid k) (append "/v" (append (st.show_number version) ".pdf")))

abbrev pub name_or : Option String → String → String
name_or none other = other
name_or (some n) other = n

abbrev pub new_proposal : UploadSetting → DateTime → Uuid → Uuid → Uuid → ℕ → UploadFile → Proposal
new_proposal st now k project_id author version f = record {
  id = k;
  project_id = project_id;
  version = version;
  file_url = storage_key st project_id version;
  file_sha256 = f.sha256;
  original_filename = name_or f.filename (append "v" (append (st.show_number version) ".pdf"));
  size_bytes = f.size_bytes;
  status = ProposalStatus.pending_extraction;
  uploaded_by_id = author;
  uploaded_at = now;
}

abbrev pub extraction_job : UploadSetting → Uuid → Uuid → String → JobRequest
extraction_job st project_id proposal_id key = record {
  task_type = TaskType.proposal_extraction;
  project_id = some project_id;
  proposal_id = some proposal_id;
  report_id = none;
  context = [];
  input_files = (key, "proposal") ∷ [];
  output_path_hint = append "baseline-" (append (st.show_uuid proposal_id) ".json");
  schema_hint = none;
  timeout_hard_s = 900;
  heartbeat_s = 30;
  engine_preference = none;
}

-- The job is published where Redis is there.
unfoldable pub publish_extraction :
    UploadSetting → DateTime → Uuid → Uuid → String → Option String → M (Unit {0})
publish_extraction st now project_id proposal_id key none = pure tt
publish_extraction st now project_id proposal_id key (some run_id) = do
  log ← enqueue_agent_job st.show_uuid now run_id (extraction_job st project_id proposal_id key)
  pure tt

unfoldable pub upload_proposal : UploadSetting → DateTime → User → Uuid → UploadFile → M Proposal
unfolding publish_extraction
upload_proposal st now user project_id file = do
  require_any_role (Role.gp ∷ []) user
  found ← gets (get_project project_id)
  project ← or_raise found (http 404)
  raise_if (not (project.gp_user_id == user.id)) (http 403)
  raise_if (file.size_bytes == 0) (http 400)
  last ← gets (λ db. last_version (proposals_of project_id db))
  let key = storage_key st project_id (last + 1)
  raise_if (not (st.takes key)) storage_error
  k ← new_uuid
  let row = new_proposal st now k project_id user.id (last + 1) file
  modify λ db. record db { proposals = db.proposals ++ row ∷ [] }
  flush
  publish_extraction st now project_id k key st.run_id
  commit
  pure row

-- `get_proposal`, the endpoint.
unfoldable pub read_proposal : Uuid → Uuid → User → M Proposal
read_proposal project_id proposal_id user = do
  require_any_role (Role.gp ∷ Role.pmo ∷ Role.operator ∷ Role.client ∷ []) user
  found ← gets (λ db. find (λ p. p.id == proposal_id && p.project_id == project_id) db.proposals)
  or_raise found (http 404)

abbrev pub same_stored_status : RiskStatus → RiskStatus → Bool
same_stored_status RiskStatus.identified RiskStatus.identified = true
same_stored_status RiskStatus.monitoring RiskStatus.monitoring = true
same_stored_status RiskStatus.mitigated RiskStatus.mitigated = true
same_stored_status RiskStatus.materialized RiskStatus.materialized = true
same_stored_status _ _ = false

abbrev pub passes_risk_status : Option RiskStatus → Risk → Bool
passes_risk_status none r = true
passes_risk_status (some s) r = same_stored_status r.status s

abbrev pub risks_of : Uuid → Option RiskStatus → Db → List Risk
risks_of k status_filter db =
    sort (λ x y. not (ltb x.created_at y.created_at))
      (where_ (λ r. report_in k (get_report r.report_id db) && passes_risk_status status_filter r)
        db.risks)

unfoldable pub list_project_risks : Uuid → Option RiskStatus → User → M (List Risk)
list_project_risks project_id status_filter user = do
  require_any_role (Role.gp ∷ Role.pmo ∷ Role.operator ∷ Role.client ∷ []) user
  found ← gets (get_project project_id)
  project ← or_raise found (http 404)
  raise_if (foreign_gp user project) (http 403)
  raise_if (same_role user.role Role.client && not_client user project) (http 403)
  gets (risks_of project_id status_filter)
