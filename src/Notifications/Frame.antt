-- ===== src/Notifications/Frame.antt =====
-- The tables that the notifications of backend/app/services/notifications.py write.
use gp_portal.Base.{ℕ, String, Bool, Option, none, some, List, [], ◌∷◌}
use gp_portal.Domain.{
  ReportStatus, DateTime, Uuid, User, Project, Baseline, Report, ReportApproval, NotificationKind,
  Body, Link, InAppNotification,
}
use gp_portal.Store.{
  Db, Keeps, Keeps-modify, Keeps-new_uuid, Keeps-pure, Keeps-flush, Keeps-bind, keeps_rules,
}
use gp_portal.Notifications.{
  create_inapp, tell, tell_all, inform_of, inform_gp, notify_report_submitted,
  notify_approval_decision, notify_transition_decision,
}

module _ {P : Db → Type 0}
    (blind : (db : Db) (k : ℕ) (n : List InAppNotification)
      → P db
      → P (record db { next_id = k; notifications = n })) where
  Keeps-create_inapp :
      (now : DateTime) (u : Uuid) (kind : NotificationKind) (t : String) (b : Body) (l : Link)
      → Keeps P (create_inapp now u kind t b l)
  unfolding create_inapp
  Keeps-create_inapp now u kind t b l =
      Keeps-bind _ _ (Keeps-new_uuid (λ db h. blind db _ _ h))
        λ k. Keeps-bind _ _ (Keeps-modify _ (λ db h. blind db _ _ h)) λ _. Keeps-flush

  Keeps-tell :
      (now : DateTime) (u : Option User) (kind : NotificationKind) (t : String) (b : Body)
      (l : Link)
      → Keeps P (tell now u kind t b l)
  unfolding tell
  Keeps-tell now none kind t b l = Keeps-pure tt
  Keeps-tell now (some u) kind t b l = Keeps-create_inapp now u.id kind t b l

  Keeps-tell_all :
      (now : DateTime) (us : List User) (kind : NotificationKind) (t : String) (b : Body) (l : Link)
      → Keeps P (tell_all now us kind t b l)
  unfolding tell_all
  Keeps-tell_all now [] kind t b l = Keeps-pure tt
  Keeps-tell_all now (u ∷ us) kind t b l =
      Keeps-bind _ _ (Keeps-create_inapp now u.id kind t b l) λ _. Keeps-tell_all now us kind t b l

  pub Keeps-notify_report_submitted :
      (now : DateTime) (r : Report) (p : Project) → Keeps P (notify_report_submitted now r p)
  unfolding notify_report_submitted
  Keeps-notify_report_submitted now r p = search (keeps_rules, Keeps-tell_all)

  Keeps-inform_of :
      (now : DateTime) (st : ReportStatus) (r : Report) (a : ReportApproval) (p : Project)
      → Keeps P (inform_of now st r a p)
  unfolding inform_of
  Keeps-inform_of now ReportStatus.draft r a p = search keeps_rules
  Keeps-inform_of now ReportStatus.submitted r a p = search keeps_rules
  Keeps-inform_of now ReportStatus.archived r a p = search keeps_rules
  Keeps-inform_of now _ r a p = search (keeps_rules, Keeps-tell)

  pub Keeps-notify_approval_decision :
      (now : DateTime) (r : Report) (a : ReportApproval) (p : Project)
      → Keeps P (notify_approval_decision now r a p)
  unfolding notify_approval_decision
  Keeps-notify_approval_decision now r a p = search (keeps_rules, Keeps-inform_of)

  Keeps-inform_gp :
      (now : DateTime) (u : Option User) (p : Project) (b : Baseline) (approve : Bool) (n : ℕ)
      (c : Option String)
      → Keeps P (inform_gp now u p b approve n c)
  unfolding inform_gp
  Keeps-inform_gp now none p b approve n c = search keeps_rules
  Keeps-inform_gp now (some u) p b approve n c = search (keeps_rules, Keeps-create_inapp)

  pub Keeps-notify_transition_decision :
      (now : DateTime) (p : Project) (b : Baseline) (approve : Bool) (n : ℕ) (c : Option String)
      → Keeps P (notify_transition_decision now p b approve n c)
  unfolding notify_transition_decision
  Keeps-notify_transition_decision now p b approve n c = search (keeps_rules, Keeps-inform_gp)
