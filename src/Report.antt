-- ===== src/Report.antt =====
-- Reports: their creation, the autosave of the wizard, the submission and the approval.
pub mod Rag
pub mod Create
pub mod Patch
pub mod Submit
pub mod Approval
pub mod Rule
pub mod Validity
pub mod Approved
pub mod Locked
pub mod Judged
pub mod Submitted
