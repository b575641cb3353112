-- ===== src/Worker/Lost.antt =====
-- The items that the worker takes from the queue: the loop of worker/worker/main.py.
use Prim.Native.String.{◌++◌ as append}
use gp_portal.Base.{
  ◌≡◌, refl, sym, ◌∙◌, ap, subst, ℕ, ◌+◌, String, Bool, true, false, not, Option, none, some, List,
  [], ◌∷◌, ◌++◌, length, length-append, if-both, ◌==◌, count_where, Option-cases, inl, inr, arith,
  if◌then◌else◌,
}
use gp_portal.Runner.Types.{AgentResult}
use gp_portal.Runner.World.{World}
use gp_portal.Agents.Results.{AgentResultPayload}
use gp_portal.Worker.{
  JobPayload, Payload, invalid_json, null_value, not_object, job, DeadLetter, WorkerSetting, Worker,
  build_prompt, settle, post_or_dead, post_signed, roll_day, record_job, cleanup, close_job,
  count_job, report_result, report_failure, run_timed, run_task, run_in, number_or, process_job,
  serve_payload, work, text_or, build_callback_payload, failure_payload, task_of, with_system,
  callback_failed, failure_callback_failed, corrupt, push_corrupt,
}

module _ {W : Type 0} (st : WorkerSetting W) where
  -- The callbacks that were sent and the letters that were left.
  abbrev pub settled : Worker W → ℕ
  settled x = length x.delivered + length x.dead

  abbrev pub is_null : Payload → Bool
  is_null null_value = true
  is_null _ = false

  -- The items of which something is to be heard: all but the null ones.
  abbrev pub counted : List String → ℕ
  counted raws = count_where (λ raw. not (is_null (st.read raw))) raws

  -- The step ended in an exception, or has settled so many items.
  abbrev Settles : ℕ → Worker W → Option (Worker W) → Type 0
  Settles n x o = (y : Worker W) → o ≡ some y → settled y ≡ settled x + n

  -- What the loop has done when it ends: it has settled all items, or an exception has ended it at one item, all those
  -- before that one being settled and all those behind it left in the queue.
  pub data Account (raws : List String) (x y : Worker W) (left : Option (List String))
      : Type 0 where
    finished : left ≡ none → settled y ≡ settled x + counted raws → Account raws x y left
    broken :
        (served : List String) (raw : String) (rest : List String)
        → raws ≡ served ++ raw ∷ rest
        → left ≡ some rest
        → settled y ≡ settled x + counted served
        → serve_payload st raw (st.read raw) y ≡ none
        → Account raws x y left

  same_some : {y z : Worker W} → some y ≡ some z → y ≡ z
  same_some e = cc

  settle-Settles :
      (run_id : String) (p : AgentResultPayload) (letter : String → DeadLetter) (x : Worker W)
      (r : Option String × W)
      → Settles 1 x (settle st run_id p letter x r)
  settle-Settles run_id p letter x (none, w) = λ y e.
      subst (λ z. settled z ≡ settled x + 1) (same_some e)
        (rw (length-append x.delivered ((run_id, p) ∷ [])) (omega arith))
  settle-Settles run_id p letter x (some exc, w) =
      if-both (Settles 1 x) (st.takes_letter w) _ _
        (λ _ y e.
          subst (λ z. settled z ≡ settled x + 1) (same_some e)
            (rw (length-append x.dead (letter exc ∷ [])) (omega arith)))
        (λ _ y e. cc)

  roll_day-settled : (x : Worker W) → settled (roll_day st x) ≡ settled x
  roll_day-settled x =
      if-both (λ (y : Worker W). settled y ≡ settled x)
        (st.today x.world.system == x.last_reset_date) _ _ (λ _. refl) (λ _. refl)

  cleanup-settled :
      (keep : Bool) (path : String) (x : Worker W) → settled (cleanup st keep path x) ≡ settled x
  cleanup-settled true path x = refl
  cleanup-settled false path x = refl

  close_job-Settles :
      (success : Bool) (path : String) (x : Worker W) (o : Option (Worker W))
      → Settles 1 x o
      → Settles 1 x (close_job st success path o)
  close_job-Settles success path x none h y e = cc
  close_job-Settles success path x (some sent) h y e =
      subst (λ z. settled z ≡ settled x + 1) (same_some e)
        (cleanup-settled (not success) path (record_job st success sent)
          ∙ roll_day-settled sent
          ∙ h sent refl)

  count_job-Settles :
      (x : Worker W) (o : Option (Worker W)) → Settles 1 x o → Settles 1 x (count_job st o)
  count_job-Settles x none h y e = cc
  count_job-Settles x (some sent) h y e =
      subst (λ z. settled z ≡ settled x + 1) (same_some e) (roll_day-settled sent ∙ h sent refl)

  report_result-Settles :
      (run_id path : String) (p : JobPayload) (x : Worker W) (r : Option (AgentResult × World W))
      → Settles 1 x (report_result st run_id p path x r)
  report_result-Settles run_id path p x none = λ y e. cc
  report_result-Settles run_id path p x (some (r, w)) =
      let payload = build_callback_payload st r in
      close_job-Settles r.success path x
        (post_or_dead st run_id payload (callback_failed run_id p payload) (record x { world = w }))
        (settle-Settles run_id payload (callback_failed run_id p payload) (record x { world = w })
          (post_signed st run_id payload w.system))

  run_timed-Settles :
      (run_id type prompt : String) (p : JobPayload) (x : Worker W) (t h : Option ℕ)
      → Settles 1 x (run_timed st run_id type prompt p x t h)
  run_timed-Settles run_id type prompt p x (some t) (some h) =
      report_result-Settles run_id (task_of st run_id type prompt p t h).workspace p x
        (st.runner (task_of st run_id type prompt p t h) x.world)
  run_timed-Settles run_id type prompt p x none h = λ y e. cc
  run_timed-Settles run_id type prompt p x (some t) none = λ y e. cc

  run_task-Settles :
      (run_id type : String) (p : JobPayload) (x : Worker W) (o : Option String)
      → Settles 1 x (run_task st run_id type p x o)
  run_task-Settles run_id type p x none =
      let detail = append "task_type desconhecido: " (st.repr type) in
      count_job-Settles x (report_failure st run_id detail x) (
        settle-Settles run_id (failure_payload st detail) (failure_callback_failed run_id detail) x
          (post_signed st run_id (failure_payload st detail) x.world.system))
  run_task-Settles run_id type p x (some prompt) =
      run_timed-Settles run_id type prompt p x (number_or st p.timeout_hard_s 600)
        (number_or st p.heartbeat_s 30)

  run_in-Settles :
      (run_id type : String) (p : JobPayload) (x : Worker W) (o : Option W)
      → Settles 1 x (run_in st run_id type p x o)
  run_in-Settles run_id type p x none = λ y e. cc
  run_in-Settles run_id type p x (some made) =
      run_task-Settles run_id type p (with_system st x made) (build_prompt type)

  process_job-Settles : (p : JobPayload) (x : Worker W) → Settles 1 x (process_job st p x)
  unfolding process_job
  process_job-Settles p x =
      let run_id = text_or p.run_id (st.unknown_run x.world.system) in
      run_in-Settles run_id (text_or p.task_type "proposal_extraction") p x
        (st.make_workspace (st.join st.workspace_root run_id) x.world.system)

  module _ (takes : (w : W) → st.takes_letter w ≡ true) where
    push_corrupt-settled :
        (raw : String) (x : Worker W) → settled (push_corrupt st raw x) ≡ settled x + 1
    push_corrupt-settled raw x =
        rw (takes x.world.system) (rw (length-append x.dead (corrupt raw ∷ [])) (omega arith))

    serve_payload-Settles :
        (raw : String) (q : Payload) (x : Worker W)
        → Settles (if not (is_null q) then 1 else 0) x (serve_payload st raw q x)
    serve_payload-Settles raw invalid_json x =
        λ y e. subst (λ z. settled z ≡ settled x + 1) (same_some e) (push_corrupt-settled raw x)
    serve_payload-Settles raw null_value x =
        λ y e. subst (λ z. settled z ≡ settled x + 0) (same_some e) (omega arith)
    serve_payload-Settles raw not_object x = λ y e. cc
    serve_payload-Settles raw (job p) x = process_job-Settles p x

    counted_first :
        (raw : String) (raws : List String)
        → counted (raw ∷ raws) ≡ (if not (is_null (st.read raw)) then 1 else 0) + counted raws
    counted_first raw raws = ground arith

    through : (a b c m n l : ℕ) → b ≡ a + m → c ≡ b + n → l ≡ m + n → c ≡ a + l
    through a b c m n l e f g = omega arith

    onward :
        (raw : String) (raws : List String) (x y z : Worker W) (left : Option (List String))
        → settled y ≡ settled x + (if not (is_null (st.read raw)) then 1 else 0)
        → Account raws y z left
        → Account (raw ∷ raws) x z left
    onward raw raws x y z left one (finished e s) = finished e (
        through (settled x) (settled y) (settled z) _ (counted raws) (counted (raw ∷ raws)) one s
          (counted_first raw raws))
    onward raw raws x y z left one (broken served r rest split e s b) =
        broken (raw ∷ served) r rest (ap (λ l. raw ∷ l) split) e
          (through (settled x) (settled y) (settled z) _ (counted served) (counted (raw ∷ served))
            one s (counted_first raw served))
          b

    abbrev turn : List String → Worker W → Option (Worker W) → Worker W × Option (List String)
    turn raws x o = elim o [ none ↦ (x, some raws) | some y ↦ work st raws y ]

    -- Where Redis takes every dead letter, the loop accounts for the items of the queue: each one
    -- but null has led to one callback that was sent or to one letter that was left; and where an
    -- exception ends the loop at one item, this is so of the items before it, and those behind it
    -- stay in the queue.
    pub work-Account :
        (raws : List String) (x : Worker W) → Account raws x (work st raws x).0 (work st raws x).1
    unfolding work
    work-Account [] x = finished refl (omega arith)
    work-Account (raw ∷ raws) x = elim (Option-cases (serve_payload st raw (st.read raw) x)) [
      | inl e ↦
          subst (λ o. Account (raw ∷ raws) x (turn raws x o).0 (turn raws x o).1) (sym e)
            (broken [] raw raws refl refl (omega arith) e)
      | inr (y, e) ↦
          subst (λ o. Account (raw ∷ raws) x (turn raws x o).0 (turn raws x o).1) (sym e)
            (onward raw raws x y (work st raws y).0 (work st raws y).1
              (serve_payload-Settles raw (st.read raw) x y e) (work-Account raws y))
    ]
