-- ===== src/Projects/Uploaded.antt =====
-- The answers of `upload_proposal`, backend/app/api/v1/projects.py.
use gp_portal.Base.{
  ◌≡◌, refl, sym, ap, subst, ◌+◌, ◌<◌, String, false, Option, none, some, List, [], ◌∷◌, ◌++◌, ◌==◌,
  All, All-map, where_, arith, eq_of_==,
}
use gp_portal.Domain.{
  Role, Uuid, DateTime, User, Project, Proposal, AgentRunLog, ProposalStatus, TaskType, AgentJob,
}
use gp_portal.Store.{
  Db, M, ok, Session, Ends, Ends-assoc, Ends-raise_if, Ends-gets, Ends-or_raise, Ends-modify,
  Ends-new_uuid, Ends-flush, Ends-commit, Ends-pure, Ends-pure_bind, Ends-ok, get_project, get_run,
  start, run, ◌>>=◌,
}
use gp_portal.Access.{gp_role}
use gp_portal.Agents.Queue.{build_payload, full_context}
use gp_portal.Agents.Queue.Once.{Ends-enqueue}
use gp_portal.Projects.{
  UploadFile, UploadSetting, last_version, storage_key, extraction_job, publish_extraction,
  upload_proposal,
}

-- What an answered upload has found, and what it has written.
pub record Upload (st : UploadSetting) (now : DateTime) (user : User) (k : Uuid) (file : UploadFile)
    (db after : Db) (r : Proposal) : Type 0 where
  pub gp : user.role ≡ Role.gp
  pub project : Project
  pub found : get_project k db ≡ some project
  pub owner : project.gp_user_id ≡ user.id
  pub not_empty : (file.size_bytes == 0) ≡ false
  pub waits : r.status ≡ ProposalStatus.pending_extraction
  pub own : (r.id ≡ db.next_id) × (r.project_id ≡ k)
  pub content :
      (r.size_bytes ≡ file.size_bytes)
      × (r.file_sha256 ≡ file.sha256)
      × (r.file_url ≡ storage_key st k r.version)
  pub by : (r.uploaded_by_id ≡ user.id) × (r.uploaded_at ≡ now)
  pub above : All (λ p. p.project_id ≡ k → p.version < r.version) db.proposals
  pub stored : after.proposals ≡ db.proposals ++ r ∷ []
  pub published :
      (run_id : String)
      → st.run_id ≡ some run_id
      → get_run run_id db ≡ none
      → (job : AgentJob) × (after.jobs ≡ db.jobs ++ job ∷ [])
        × (job.run_id ≡ run_id)
        × (job.task_type ≡ TaskType.proposal_extraction)

abbrev Below : Uuid → List Proposal → Proposal → Type 0
Below k l p = p.project_id ≡ k → p.version < last_version (where_ (λ x. x.project_id == k) l) + 1

head-Below : (k : Uuid) (p : Proposal) (l : List Proposal) → Below k (p ∷ l) p
head-Below k p l e = ground arith

tail-Below :
    (k : Uuid) (x : Proposal) (l : List Proposal) (p : Proposal) → Below k l p → Below k (x ∷ l) p
tail-Below k x l p h e = ground (arith, h e)

All-Below : (k : Uuid) (l : List Proposal) → All (Below k l) l
All-Below k [] = tt
All-Below k (p ∷ l) =
    (head-Below k p l, All-map (Below k l) (Below k (p ∷ l)) l (tail-Below k p l) (All-Below k l))

module _ (st : UploadSetting) (now : DateTime) (k i : Uuid) (key : String) where
  -- The job that stands in the queue once it is published for a run that is new.
  Published : Option String → Session → Session → Type 0
  Published o s after =
      (run_id : String)
      → o ≡ some run_id
      → get_run run_id s.work ≡ none
      → let job = extraction_job st k i key in
        after.work.jobs
        ≡ s.work.jobs ++ build_payload now run_id (full_context st.show_uuid job) job ∷ []

  Ends-publish_extraction :
      {B : Type 0} {Q : B → Session → Type 0} (o : Option String) (next : Unit {0} → M B)
      (s : Session)
      → ((after : Session)
          → after.work.proposals ≡ s.work.proposals
          → Published o s after
          → Ends (λ _. Unit {0}) Q (next tt) after)
      → Ends (λ _. Unit {0}) Q (publish_extraction st now k i key o >>= next) s
  unfolding publish_extraction Published
  Ends-publish_extraction none next s h = Ends-pure_bind _ _ _ (h s refl λ run_id e missing. cc)
  Ends-publish_extraction (some run_id) next s h = Ends-assoc _ _ _ _ (
      Ends-enqueue st.show_uuid now run_id (extraction_job st k i key) _ s
        (λ r there.
          Ends-pure_bind _ _ _ (h s refl λ run_id' e missing. other_run r run_id' there e missing))
        (λ missing. (
          (λ _. tt),
          tt,
          Ends-pure_bind _ _ _ (
              h _ refl λ run_id' e _.
                ap
                  (λ x.
                    s.work.jobs
                    ++ build_payload now x (full_context st.show_uuid (extraction_job st k i key))
                        (extraction_job st k i key)
                      ∷ [])
                  (same e)),
        )))
    where
      same : {x : String} → some run_id ≡ some x → run_id ≡ x
      same e = cc

      other_run :
          {A : Type 0} (r : AgentRunLog) (x : String)
          → get_run run_id s.work ≡ some r
          → some run_id ≡ some x
          → get_run x s.work ≡ none
          → A
      other_run r x there e missing =
          let gone : get_run run_id s.work ≡ none =
            subst (λ y. get_run y s.work ≡ none) (sym (same e)) missing in
          cc

module _ (st : UploadSetting) (now : DateTime) (user : User) (k : Uuid) (file : UploadFile)
    (db : Db) where
  upload_proposal-Ends :
      Ends
        (λ _. Unit {0})
        (λ r s. Upload st now user k file db s.store r)
        (upload_proposal st now user k file)
        (start db)
  unfolding upload_proposal Published
  upload_proposal-Ends = Ends-raise_if _ _ _ _ λ role. Ends-gets _ _ _ (
      Ends-or_raise _ _ _ _ λ project found. Ends-raise_if _ _ _ _ λ mine.
        Ends-raise_if _ _ _ _ λ full. Ends-gets _ _ _ (
          Ends-raise_if _ _ _ _ λ taken. Ends-new_uuid _ _ (
            Ends-modify _ _ _ (
              Ends-flush _ _ λ _.
                Ends-publish_extraction st now k db.next_id _ st.run_id _ _ λ s kept jobs.
                  Ends-commit _ _ λ _. (
                    tt,
                    Ends-pure _ _ record {
                      gp = gp_role user.role role;
                      project = project;
                      found = found;
                      owner = eq_of_== project.gp_user_id user.id (ground arith);
                      not_empty = full;
                      waits = refl;
                      own = (refl, refl);
                      content = (refl, refl, refl);
                      by = (refl, refl);
                      above = All-Below k db.proposals;
                      stored = kept;
                      published = λ run_id there fresh.
                          let job = extraction_job st k db.next_id _ in
                          (
                            build_payload now run_id (full_context st.show_uuid job) job,
                            jobs run_id there fresh,
                            refl,
                            refl,
                          );
                    },
                  )))))

  -- An upload that is answered was made by the GP of the project, with a file that is not empty; its
  -- proposal describes the file, has a version above all those of the project, waits for its
  -- extraction and is stored behind the others, and where there is a queue a job of that run for
  -- the extraction of a proposal is published, unless the run was there before.
  pub upload_proposal-Upload :
      (r : Proposal)
      → (run (upload_proposal st now user k file) db).0 ≡ ok r
      → Upload st now user k file db (run (upload_proposal st now user k file) db).1 r
  upload_proposal-Upload r answer =
      Ends-ok (λ _. Unit {0}) (λ r s. Upload st now user k file db s.store r)
        (upload_proposal st now user k file) db r upload_proposal-Ends tt answer
