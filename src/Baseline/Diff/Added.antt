-- ===== src/Baseline/Diff/Added.antt =====
-- The codes that `compute_baseline_diff` lists as added and as removed.
use gp_portal.Base.{Option, none, some}
use gp_portal.Domain.{Baseline, Deliverable}

-- The second deliverable, where there is no first one.
abbrev pub unless_some : Option Deliverable → Option Deliverable → Option Deliverable
unless_some none d = d
unless_some (some _) d = none
