-- ===== src/Examples/Files.antt =====
-- Uploads and stored files, at concrete rows.
use gp_portal.Base.{◌≡◌, refl, true, some, []}
use gp_portal.Domain.{Role, User}
use gp_portal.Store.{Db, http, ok, err, run, ◌>>=◌, integrity}
use gp_portal.Projects.{
  UploadFile, UploadSetting, new_proposal, upload_proposal, publish_extraction, read_project,
  read_proposal,
}
use gp_portal.Projects.Uploaded.{Upload, upload_proposal-Upload}
use gp_portal.Projects.Exposed.{read_proposal-exposed}
use gp_portal.Agents.Queue.{enqueue_agent_job, publish, rpush}
use gp_portal.Examples.Data.{person, rows, gp_user, project, proposal}

abbrev setting : UploadSetting
setting = record {
  show_uuid = λ k. "key";
  show_number = λ n. "3";
  takes = λ k. true;
  run_id = some "run";
}

abbrev file : UploadFile
file = record { size_bytes = 7; sha256 = "sha"; filename = some "proposal.pdf" }

abbrev empty_rows : Db
empty_rows = rows [] [] []

upload_proposal-Upload_example :
    Upload setting 5 gp_user 10 file empty_rows
      (run (upload_proposal setting 5 gp_user 10 file) empty_rows).1
      (new_proposal setting 5 1000 10 1 3 file)
unfolding upload_proposal publish_extraction enqueue_agent_job publish rpush ◌>>=◌ integrity
upload_proposal-Upload_example =
    upload_proposal-Upload setting 5 gp_user 10 file empty_rows
      (new_proposal setting 5 1000 10 1 3 file) refl

-- A client of another project.
abbrev stranger : User
stranger = person 4 "other@jump" Role.client

read_proposal-exposed_example :
    (run (read_project 10 stranger) empty_rows ≡ (err (http 403), empty_rows))
    × (run (read_proposal 10 20 stranger) empty_rows ≡ (ok (proposal 20 1), empty_rows))
read_proposal-exposed_example =
    read_proposal-exposed 10 20 stranger empty_rows project (proposal 20 1) refl refl refl refl refl
