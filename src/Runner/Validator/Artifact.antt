-- ===== src/Runner/Validator/Artifact.antt =====
-- What `ArtifactValidator.validate` accepts.
use gp_portal.Base.{
  ◌≡◌, refl, String, Bool, true, false, Option, none, some, Option-cases, if-both, inl, inr,
}
use gp_portal.Domain.{Json, JsonFields}
use gp_portal.Runner.Types.{AgentTask, ValidationResult, accepted_from, rejected}
use gp_portal.Runner.World.{
  Reading, content, os_error, Parsing, parsed, decode_error, Platform, undecodable,
}
use gp_portal.Runner.Validator.{
  as_dict, check_parsed, check_output, recovered_data, recover, reject, block_of, validate,
}

module _ {W : Type 0} (os : Platform W) where
  -- The file at the path holds the text of the object.
  pub record Holds (w : W) (path : String) (d : JsonFields) : Type 0 where
    pub raw : String
    pub stands : os.read_text w path ≡ content raw
    pub object : os.loads raw ≡ parsed (Json.object d)

  -- A text that was written is read back, and the text of an object that was read is read as that object.
  pub record IsReliable : Type 0 where
    pub written :
        (w : W) (path text : String)
        → (os.write_text w path text).0 ≡ none
        → os.read_text (os.write_text w path text).1 path ≡ content text
    pub dumped :
        (raw : String) (d : JsonFields)
        → os.loads raw ≡ parsed (Json.object d)
        → os.loads (os.dumps d) ≡ parsed (Json.object d)

  -- What is accepted stands at the path of the output; an exception is an output that is no UTF-8.
  abbrev pub Checked : AgentTask → Option ValidationResult × W → Type 0
  Checked task (some (accepted_from path d recovered), w) =
      (path ≡ task.output_path) × Holds w path d
  Checked task (some (rejected reason detail), w) = Unit
  Checked task (none, w) = os.read_text w task.output_path ≡ undecodable

  check_parsed-Checked :
      (task : AgentTask) (w : W) (raw : String) (p : Parsing)
      → os.read_text w task.output_path ≡ content raw
      → os.loads raw ≡ p
      → Checked task (some (check_parsed os task.output_path p), w)
  check_parsed-Checked task w raw (decode_error m l c) e h = tt
  check_parsed-Checked task w raw (parsed (Json.object d)) e h =
      (refl, record { raw = raw; stands = e; object = h })
  check_parsed-Checked task w raw (parsed Json.null) e h = tt
  check_parsed-Checked task w raw (parsed (Json.boolean b)) e h = tt
  check_parsed-Checked task w raw (parsed (Json.number n)) e h = tt
  check_parsed-Checked task w raw (parsed (Json.text t)) e h = tt
  check_parsed-Checked task w raw (parsed (Json.array a)) e h = tt

  check_output-Checked :
      (task : AgentTask) (w : W) (r : Reading)
      → os.read_text w task.output_path ≡ r
      → Checked task (check_output os task.output_path r, w)
  check_output-Checked task w (os_error exc) e = tt
  check_output-Checked task w undecodable e = e
  check_output-Checked task w (content raw) e =
      check_parsed-Checked task w raw (os.loads raw) e refl

  as_dict-parsed : (p : Parsing) (d : JsonFields) → as_dict p ≡ some d → p ≡ parsed (Json.object d)
  as_dict-parsed (decode_error m l c) d e = cc
  as_dict-parsed (parsed (Json.object d')) d e = cc
  as_dict-parsed (parsed Json.null) d e = cc
  as_dict-parsed (parsed (Json.boolean b)) d e = cc
  as_dict-parsed (parsed (Json.number n)) d e = cc
  as_dict-parsed (parsed (Json.text t)) d e = cc
  as_dict-parsed (parsed (Json.array a)) d e = cc

  recovered-read :
      (block : Option String) (d : JsonFields)
      → recovered_data os block ≡ some d
      → (raw : String) × (os.loads raw ≡ parsed (Json.object d))
  recovered-read none d e = cc
  recovered-read (some raw) d e = (raw, as_dict-parsed (os.loads raw) d e)

  recover-Checked :
      (task : AgentTask) (w : W) (d : JsonFields) (r : Option String × W)
      → (r.0 ≡ none → Holds r.1 task.output_path d)
      → Checked task (recover os task.output_path d r)
  recover-Checked task w d (none, w') h = (refl, h refl)
  recover-Checked task w d (some exc, w') h = tt

  reject-Checked :
      (task : AgentTask) (w : W) (sentinel_observed : Bool)
      → Checked task (some (reject os sentinel_observed), w)
  reject-Checked task w true = tt
  reject-Checked task w false = tt

  module _ (reliable : IsReliable) where
    recovered-Checked :
        (task : AgentTask) (w : W) (d : JsonFields) (block : Option String)
        → recovered_data os block ≡ some d
        → Checked task
            (recover os task.output_path d (os.write_text w task.output_path (os.dumps d)))
    recovered-Checked task w d block e =
        let (raw, read) = recovered-read block d e in
        recover-Checked task w d (os.write_text w task.output_path (os.dumps d)) λ fine. record {
          raw = os.dumps d;
          stands = reliable.written w task.output_path (os.dumps d) fine;
          object = reliable.dumped raw d read;
        }

    pub validate-Checked :
        (task : AgentTask) (relay : String) (sentinel_observed : Bool) (w : W)
        → Checked task (validate os task relay sentinel_observed w)
    unfolding validate
    validate-Checked task relay sentinel_observed w =
        if-both (Checked task) (os.exists_at w task.output_path) _ _
          (λ _. check_output-Checked task w (os.read_text w task.output_path) refl)
          (λ _. elim (Option-cases (recovered_data os (block_of os relay))) [
            | inl e ↦ rw e (reject-Checked task w sentinel_observed)
            | inr (d, e) ↦ rw e (recovered-Checked task w d (block_of os relay) e)
          ])
